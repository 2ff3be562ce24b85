-- ===== src/Blackbox/Ring/History.antt =====
-- The ring buffer of pkg/blackbox/ring.go refines the history of its calls: it holds the last
-- items that were added since it was cleared.
use native.Mathlib.Nat.{add-mod_right, mod-eq_of_lt}
use k8s_gpu_mcp_server.Base.{
  ℕ, ◌+◌, ◌-◌, ◌%◌, ◌≤◌, ◌<◌, ◌≡◌, refl, sym, ap, ◌∙◌, some, arith, List, [], ◌∷◌, ◌++◌, length,
  drop, length-append, length-drop, get_or-set_self, drop-append, drop-drop, nil_of_length,
  drop-nil, inl, inr, Bool-cases, foldl,
}
use k8s_gpu_mcp_server.Base.Int.{ℤ}
use k8s_gpu_mcp_server.Blackbox.Ring.{RingBuffer, new_ring_buffer, add, items, latest, clear}
use k8s_gpu_mcp_server.Blackbox.Ring.Bounds.{
  IsValid, step_head, add-IsValid, clear-IsValid, new_ring_buffer-IsValid,
}
use k8s_gpu_mcp_server.Blackbox.Ring.Contents.{
  contents, keep_last, length-contents, contents-add_full, contents-add_filling, items-eq-contents,
}

-- The calls that change a buffer.
pub data Op (A : Type 0) : Type 0 where
  push : A → Op A
  wipe : Op A

-- The position before the next head is the head.
index_back : (h n : ℕ) → h < n → ((h + 1) % n + n - 1) % n ≡ h
index_back h n lt = elim (step_head h n lt) [
  | inl (e, p) ↦
      let back : h + 1 + n - 1 ≡ h + n = omega arith in
      rw (e, back, add-mod_right h n) (mod-eq_of_lt lt)
  | inr (e, q) ↦ let back : 0 + n - 1 ≡ h = omega arith in rw (e, back) (mod-eq_of_lt lt)
]

module _ {A : Type 0} where
  unfoldable pub apply : A → RingBuffer A → Op A → RingBuffer A
  apply z r (push x) = add x r
  apply z r wipe = clear z r

  -- The items added since the last `Clear`, oldest first.
  abbrev pub log : List A → Op A → List A
  log h (push x) = h ++ x ∷ []
  log h wipe = []

  keep_last-push :
      (n : ℕ) (h : List A) (x : A)
      → 0 < n
      → n ≤ length h
      → drop 1 (keep_last n h ++ x ∷ []) ≡ keep_last n (h ++ x ∷ [])
  keep_last-push n h x p le =
      rw
        (
          ← drop-append (length h - n) h (x ∷ []) (omega arith),
          drop-drop 1 (length h - n) (h ++ x ∷ []),
        )
        (ap (λ k. drop k (h ++ x ∷ [])) (omega (arith, length-append h (x ∷ []))))

  keep_last_short : (n : ℕ) (h : List A) → length h ≤ n → keep_last n h ≡ h
  keep_last_short n h le = ap (λ k. drop k h) {y = 0} (omega arith)

  -- What holds between a buffer and its history.
  pub record Holds (h : List A) (r : RingBuffer A) : Type 0 where
    pub valid : IsValid r
    pub latest_items : contents r ≡ keep_last r.capacity h

  size-Holds :
      (h : List A) (r : RingBuffer A) → Holds h r → r.size ≡ length h - (length h - r.capacity)
  size-Holds h r k =
      sym (length-contents r k.valid)
      ∙ ap length k.latest_items
      ∙ length-drop (length h - r.capacity) h

  contents-push :
      (h : List A) (r : RingBuffer A) (x : A)
      → Holds h r
      → contents (add x r) ≡ keep_last r.capacity (h ++ x ∷ [])
  contents-push h r x k = elim (Bool-cases r.full) [
    | inl f ↦
        contents-add_full x r k.valid f
        ∙ ap (λ c. drop 1 (c ++ x ∷ [])) k.latest_items
        ∙ keep_last-push r.capacity h x k.valid.room
            (omega (arith, size-Holds h r k, k.valid.wrapped_full f))
    | inr f ↦
        let lt : length h < r.capacity = omega (arith, size-Holds h r k, k.valid.filling f) in
        contents-add_filling x r k.valid f
        ∙ ap (λ c. c ++ x ∷ []) (k.latest_items ∙ keep_last_short r.capacity h (omega arith))
        ∙ sym (keep_last_short r.capacity (h ++ x ∷ []) (omega (arith, length-append h (x ∷ []))))
  ]

  capacity-add : (x : A) (r : RingBuffer A) → (add x r).capacity ≡ r.capacity
  unfolding add
  capacity-add x r = ground arith

  -- An empty buffer is in step with the empty history.
  pub empty-Holds : (r : RingBuffer A) → IsValid r → r.size ≡ 0 → Holds [] r
  empty-Holds r v e = record {
    valid = v;
    latest_items =
        nil_of_length (contents r) (length-contents r v ∙ e) ∙ sym (drop-nil (0 - r.capacity));
  }

  size-clear :
      (z : A) (r : RingBuffer A) → ((clear z r).size ≡ 0) × ((clear z r).capacity ≡ r.capacity)
  unfolding clear
  size-clear z r = (refl, refl)

  -- Each call keeps the buffer in step with the history, and keeps its capacity.
  pub apply-Holds :
      (z : A) (h : List A) (r : RingBuffer A) (op : Op A)
      → Holds h r
      → Holds (log h op) (apply z r op) × ((apply z r op).capacity ≡ r.capacity)
  unfolding apply
  apply-Holds z h r (push x) k = (
    record {
      valid = add-IsValid x r k.valid;
      latest_items =
          contents-push h r x k ∙ ap (λ n. keep_last n (h ++ x ∷ [])) (sym (capacity-add x r));
    },
    capacity-add x r,
  )
  apply-Holds z h r wipe k =
      (empty-Holds (clear z r) (clear-IsValid z r k.valid) (size-clear z r).0, (size-clear z r).1)

  pub run-Holds :
      (z : A) (h : List A) (r : RingBuffer A) (ops : List (Op A))
      → Holds h r
      → Holds (foldl log h ops) (foldl (apply z) r ops)
        × ((foldl (apply z) r ops).capacity ≡ r.capacity)
  run-Holds z h r [] k = (k, refl)
  run-Holds z h r (op ∷ ops) k =
      let (k', c) = apply-Holds z h r op k in
      let (k'', c') = run-Holds z (log h op) (apply z r op) ops k' in (k'', c' ∙ c)

  -- A new buffer, after any calls of `Add` and `Clear`, returns from `All` the last items added
  -- since the last `Clear`, as many as its capacity allows, oldest first.
  pub items-run :
      (z : A) (capacity : ℤ) (ops : List (Op A)) {r : RingBuffer A}
      → new_ring_buffer z capacity ≡ some r
      → items z (foldl (apply z) r ops) ≡ keep_last r.capacity (foldl log [] ops)
  items-run z capacity ops {r} e =
      let (v, empty, _) = new_ring_buffer-IsValid z capacity e in
      let (k, c) = run-Holds z [] r ops (empty-Holds r v empty) in
      items-eq-contents z _ k.valid ∙ k.latest_items ∙ ap (λ n. keep_last n (foldl log [] ops)) c

  -- `Latest` returns the item that was added last.
  pub latest-add : (z x : A) (r : RingBuffer A) → IsValid r → latest z (add x r) ≡ some x
  unfolding latest add
  latest-add z x r v = ground (
    arith,
    step_head r.head r.capacity v.head_in,
    index_back r.head r.capacity,
    get_or-set_self r.buf r.head x z,
  )
