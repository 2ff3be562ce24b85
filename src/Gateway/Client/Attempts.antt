-- ===== src/Gateway/Client/Attempts.antt =====
-- How many requests `CallMCP` of pkg/gateway/http_client.go sends, and how long it waits.
use k8s_gpu_mcp_server.Base.{
  ℕ, zero, suc, ◌+◌, ◌-◌, ◌<◌, ◌≤◌, ◌≡◌, ◌⊎◌, refl, sym, ap, ◌∙◌, false, List, Option, none, some,
  Option-cases, inl, inr, arith,
}
use k8s_gpu_mcp_server.Gateway.Client.{
  RetryPolicy, Outcome, answered, exhausted, pause, attempts, call_mcp,
}

module _ (do_request : ℕ → Option (List ℕ)) where
  -- Requests from number `from` on, of which the first success is number `k`.
  pub record FirstSuccess (from k : ℕ) (r : List ℕ) : Type 0 where
    pub late : from ≤ k
    pub success : do_request k ≡ some r
    pub failures : (j : ℕ) → from ≤ j → j < k → do_request j ≡ none

  abbrev pub AllFail : ℕ → ℕ → Type 0
  AllFail from n = (j : ℕ) → from ≤ j → j < from + n → do_request j ≡ none

  abbrev pub Answers : ℕ → ℕ → Outcome × ℕ → Type 0
  Answers from n out =
      ((k : ℕ) × (r : List ℕ) × FirstSuccess from k r
        × (k < from + n)
        × (out ≡ (answered r, k + 1 - from)))
      ⊎ (AllFail from n × (out ≡ (exhausted, n)))

  pause-open : (attempt : ℕ) → pause attempt none ≡ (false, none)
  pause-open attempt = ground arith

  attempts-failed :
      (n i : ℕ)
      → do_request i ≡ none
      → attempts do_request (suc n) i none
        ≡ (let (o, k) = attempts do_request n (i + 1) none in (o, k + 1))
  unfolding attempts
  attempts-failed n i e = rw (pause-open i, e) refl

  attempts-answered :
      (n i : ℕ) (r : List ℕ)
      → do_request i ≡ some r
      → attempts do_request (suc n) i none ≡ (answered r, 1)
  unfolding attempts
  attempts-answered n i r e = rw (pause-open i, e) refl

  same_or_later : (i j : ℕ) → i ≤ j → (i ≡ j) ⊎ (i + 1 ≤ j)
  same_or_later i j h = ground arith

  -- No request fails but the first ones, if the later ones do not.
  fails_from :
      (i m : ℕ)
      → do_request i ≡ none
      → ((j : ℕ) → i + 1 ≤ j → j < m → do_request j ≡ none)
      → (j : ℕ) → i ≤ j
      → j < m
      → do_request j ≡ none
  fails_from i m e h j a b = elim (same_or_later i j a) [
    | inl p ↦ ap do_request (sym p) ∙ e
    | inr q ↦ h j q b
  ]

  attempts-Answers : (n i : ℕ) → Answers i n (attempts do_request n i none)
  unfolding attempts
  attempts-Answers zero i = inr (λ j a b. absurd (omega arith), refl)
  attempts-Answers (suc n) i = elim (Option-cases (do_request i)) [
    | inr (r, e) ↦ inl (
      i,
      r,
      record { late = omega arith; success = e; failures = λ j a b. absurd (omega arith) },
      omega arith,
      attempts-answered n i r e ∙ ap (λ k. (answered r, k)) (omega arith),
    )
    | inl e ↦ elim (attempts-Answers n (i + 1)) [
      | inl (k, r, f, lt, out) ↦ inl (
        k,
        r,
        record {
          late = omega (arith, f.late);
          success = f.success;
          failures = fails_from i k e f.failures;
        },
        omega arith,
        attempts-failed n i e
            ∙ ap (λ o. (o.0, o.1 + 1)) out
            ∙ ap (λ m. (answered r, m)) (omega (arith, f.late)),
      )
      | inr (f, out) ↦ inr (
        λ j a b. fails_from i (suc n + i) e (λ j' a' b'. f j' a' (omega arith)) j a (omega arith),
        attempts-failed n i e
            ∙ ap (λ o. (o.0, o.1 + 1)) out
            ∙ ap (λ m. (exhausted, m)) (omega arith),
      )
    ]
  ]

-- With a context that is never done, CallMCP sends requests until the first success, whose answer it
-- returns, but at most one more than the retries of its policy: if all of those fail, it returns an
-- error.
pub call_mcp-Answers :
    (policy : RetryPolicy) (do_request : ℕ → Option (List ℕ))
    → Answers do_request 0 (policy.max_retries + 1) (call_mcp policy do_request none)
unfolding call_mcp
call_mcp-Answers policy do_request = attempts-Answers do_request (policy.max_retries + 1) 0
