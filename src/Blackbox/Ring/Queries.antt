-- ===== src/Blackbox/Ring/Queries.antt =====
-- The queries of pkg/blackbox/ring.go: an iteration visits the contents in order, `QueryFunc`
-- filters them, and `Query` returns a final part of them.
use native.Mathlib.Nat.{zero-add, add-mod_right, mod-eq_of_lt}
use k8s_gpu_mcp_server.Base.{
  ℕ, suc, ◌+◌, ◌-◌, ◌≤◌, ◌≡◌, refl, sym, ap, ◌∙◌, Bool, Option, none, some, arith, List, [], ◌∷◌,
  ◌++◌, length, drop, take, take_all, replicate, length-replicate, ltb, leb, nil_of_length, filter,
  All, append_assoc, append-nil, inl, inr, Bool-cases, ◌==◌, foldl, foldl-append, length-drop,
  get_or, if◌then◌else◌,
}
use k8s_gpu_mcp_server.Base.Loops.{loop_up, loop_up-add, loop_up-segment}
use k8s_gpu_mcp_server.Blackbox.Ring.{
  RingBuffer, wrapped, each_item, query_func, query, scan, copy_from,
}
use k8s_gpu_mcp_server.Blackbox.Ring.Bounds.{IsValid}
use k8s_gpu_mcp_server.Blackbox.Ring.Contents.{
  contents, length-contents, copy_whole, ordered-eq-contents,
}

module _ {A : Type 0} where
  -- The body of the loop of `QueryFunc`.
  abbrev keep : (A → Bool) → List A → A → List A
  keep pred result x = if pred x then result ++ x ∷ [] else result

  foldl-keep :
      (pred : A → Bool) (result xs : List A)
      → foldl (keep pred) result xs ≡ result ++ filter pred xs
  foldl-keep pred result [] = sym (append-nil result)
  foldl-keep pred result (x ∷ xs) = ground (
    arith,
    foldl-keep pred (keep pred result x) xs,
    append_assoc result (x ∷ []) (filter pred xs),
  )

  abbrev pub drop_before : ℕ → (A → ℕ) → List A → List A
  drop_before since time_fn [] = []
  drop_before since time_fn (x ∷ xs) =
      if ltb (time_fn x) since then drop_before since time_fn xs else x ∷ xs

  -- No item is older than one before it.
  abbrev pub InOrder : (A → ℕ) → List A → Type 0
  InOrder time_fn [] = Unit {0}
  InOrder time_fn (x ∷ xs) = All (λ y. time_fn x ≤ time_fn y) xs × InOrder time_fn xs

  filter_whole :
      (since : ℕ) (time_fn : A → ℕ) (t : ℕ) (xs : List A)
      → since ≤ t
      → All (λ y. t ≤ time_fn y) xs
      → filter (λ x. leb since (time_fn x)) xs ≡ xs
  filter_whole since time_fn t [] le h = refl
  filter_whole since time_fn t (x ∷ xs) le h = ground (arith, filter_whole since time_fn t xs le)

  drop_before-eq-filter :
      (since : ℕ) (time_fn : A → ℕ) (xs : List A)
      → InOrder time_fn xs
      → drop_before since time_fn xs ≡ filter (λ x. leb since (time_fn x)) xs
  drop_before-eq-filter since time_fn [] o = refl
  drop_before-eq-filter since time_fn (x ∷ xs) o =
      ground
        (arith, drop_before-eq-filter since time_fn xs, filter_whole since time_fn (time_fn x) xs)

  -- What the scan says of the items that are not before `since`.
  abbrev Scanned : ℕ → List A → List A → Option ℕ → Type 0
  Scanned i xs rest none = rest ≡ []
  Scanned i xs rest (some k) = (m : ℕ) × (k ≡ i + m) × (m ≤ length xs) × (drop m xs ≡ rest)

  Scanned-shift :
      (i : ℕ) (x : A) (xs rest : List A) (o : Option ℕ)
      → Scanned (i + 1) xs rest o
      → Scanned i (x ∷ xs) rest o
  Scanned-shift i x xs rest none h = h
  Scanned-shift i x xs rest (some k) (m, e, le, d) = (suc m, omega arith, omega arith, d)

  scan-Scanned :
      (since : ℕ) (time_fn : A → ℕ) (i : ℕ) (xs : List A)
      → Scanned i xs (drop_before since time_fn xs) (scan since time_fn i xs)
  unfolding scan
  scan-Scanned since time_fn i [] = refl
  scan-Scanned since time_fn i (x ∷ xs) = elim (Bool-cases (ltb (time_fn x) since)) [
    | inl old ↦
        rw (old, scan)
          (Scanned-shift i x xs (drop_before since time_fn xs) (scan since time_fn (i + 1) xs)
            (scan-Scanned since time_fn (i + 1) xs))
    | inr new ↦ rw (new, scan) (0, omega arith, omega arith, refl)
  ]

module _ {A : Type 0} (z : A) where
  module _ {S : Type 0} (f : S → A → S) (s : S) (r : RingBuffer A) (v : IsValid r) where
    abbrev visit : ℕ → S → S
    visit i t = f t (get_or r.buf (wrapped r i) z)

    -- The rounds up to the end of the storage, and those from its start.
    upper : loop_up (r.capacity - r.head) 0 visit s ≡ foldl f s (drop r.head r.buf)
    upper =
        loop_up-segment f r.buf z (wrapped r) (r.capacity - r.head) 0 r.head s (omega (arith, v))
          (λ k lt. rw zero-add (mod-eq_of_lt (omega (arith, v))))
        ∙ ap (foldl f s) (
            take_all (r.capacity - r.head) (drop r.head r.buf)
              (omega (arith, v, length-drop r.head r.buf)))

    lower :
        (t : S) → loop_up r.head (0 + (r.capacity - r.head)) visit t ≡ foldl f t (take r.head r.buf)
    lower t =
        loop_up-segment f r.buf z (wrapped r) r.head (0 + (r.capacity - r.head)) 0 t
          (omega (arith, v))
          (λ k lt.
            let around : r.head + (0 + (r.capacity - r.head) + k) ≡ k + r.capacity =
              omega (arith, v) in
            rw (
              around,
              add-mod_right,
              mod-eq_of_lt {n = k} {m = r.capacity} (omega (arith, v)),
              zero-add,
            ))

    -- The iterations of `QueryFunc` and `FindNearest` visit the contents, oldest first.
    pub each_item-eq-foldl : each_item z f s r ≡ foldl f s (contents r)
    unfolding each_item contents
    each_item-eq-foldl = elim (Bool-cases r.full) [
      | inl e ↦
          let rounds : r.size ≡ r.capacity - r.head + r.head = omega (arith, v, v.wrapped_full e) in
          rw (
            e,
            rounds,
            loop_up-add (r.capacity - r.head) r.head 0 visit s,
            upper,
            lower,
            foldl-append f s (drop r.head r.buf) (take r.head r.buf),
          )
      | inr e ↦
          rw e (loop_up-segment f r.buf z (λ i. i) r.size 0 0 s (omega (arith, v)) (λ k lt. refl))
    ]

  copy_from-Scanned :
      (all rest : List A) (o : Option ℕ) → Scanned 0 all rest o → copy_from z all o ≡ rest
  copy_from-Scanned all rest none h = sym h
  copy_from-Scanned all rest (some k) (m, e, le, d) =
      let e' : k ≡ m = omega arith in
      rw e' (
        copy_whole (replicate (length all - m) z) (drop m all)
          (omega (arith, length-drop m all, length-replicate (length all - m) z))
        ∙ d)

  -- `QueryFunc` returns exactly the items that satisfy the predicate, oldest first.
  pub query_func-eq-filter :
      (pred : A → Bool) (r : RingBuffer A)
      → IsValid r
      → query_func z pred r ≡ filter pred (contents r)
  unfolding query_func
  query_func-eq-filter pred r v = ground (
    arith,
    each_item-eq-foldl (keep pred) [] r v,
    foldl-keep pred [] (contents r),
    nil_of_length (contents r),
    length-contents r v,
  )

  -- `Query` returns the items from the first one on that is not before `since`.
  pub query-eq-drop_before :
      (since : ℕ) (time_fn : A → ℕ) (r : RingBuffer A)
      → IsValid r
      → query z since time_fn r ≡ drop_before since time_fn (contents r)
  unfolding query
  query-eq-drop_before since time_fn r v = elim (Bool-cases (r.size == 0)) [
    | inl e ↦
        let empty : contents r ≡ [] =
          nil_of_length (contents r) (ground (arith, length-contents r v)) in
        rw (e, empty)
    | inr e ↦
        rw (e, ordered-eq-contents z r v)
          (copy_from-Scanned (contents r) _ (scan since time_fn 0 (contents r))
            (scan-Scanned since time_fn 0 (contents r)))
  ]

  -- On a buffer whose items are in the order of their times, `Query` returns exactly the items
  -- that are not older than `since`, oldest first.
  pub query-eq-filter :
      (since : ℕ) (time_fn : A → ℕ) (r : RingBuffer A)
      → IsValid r
      → InOrder time_fn (contents r)
      → query z since time_fn r ≡ filter (λ x. leb since (time_fn x)) (contents r)
  query-eq-filter since time_fn r v o =
      query-eq-drop_before since time_fn r v ∙ drop_before-eq-filter since time_fn (contents r) o
