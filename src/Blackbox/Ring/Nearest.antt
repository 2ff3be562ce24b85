-- ===== src/Blackbox/Ring/Nearest.antt =====
-- `FindNearest` of pkg/blackbox/ring.go returns a closest item, as long as no time difference
-- leaves the range of a `time.Duration` (about 292 years).
use mathlib.Core.List.{Memᴰ}
use mathlib.Core.Path.{subst}
use k8s_gpu_mcp_server.Base.{
  ℕ, ◌+◌, ◌-◌, ◌≤◌, ◌<◌, ◌≡◌, refl, sym, ap, false, some, arith, List, [], ◌∷◌, length, ltb, All,
  inl, inr, Bool-cases, foldl, if◌then◌else◌,
}
use k8s_gpu_mcp_server.Base.Int.{ℤ, pos, negsuc, max_int, sub_time, neg_int, ltz}
use k8s_gpu_mcp_server.Blackbox.Ring.{RingBuffer, find_nearest, closer}
use k8s_gpu_mcp_server.Blackbox.Ring.Bounds.{IsValid}
use k8s_gpu_mcp_server.Blackbox.Ring.Contents.{contents, length-contents}
use k8s_gpu_mcp_server.Blackbox.Ring.Queries.{each_item-eq-foldl}

-- The distance of two times, whatever their order.
abbrev pub gap : ℕ → ℕ → ℕ
gap t u = (t - u) + (u - t)

abbrev pub magnitude : ℤ → ℤ
magnitude d = if ltz d (pos 0) then neg_int d else d

pub magnitude-sub_time : (t u : ℕ) → gap t u ≤ max_int → magnitude (sub_time t u) ≡ pos (gap t u)
magnitude-sub_time t u h = ground arith

pub ltb-zero : (n : ℕ) → ltb n 0 ≡ false
ltb-zero n = ground arith

module _ {A : Type 0} (time_fn : A → ℕ) (target : ℕ) where
  abbrev pub dist : A → ℕ
  dist x = gap (time_fn x) target

  abbrev pub InRange : List A → Type 0
  InRange = All (λ x. dist x ≤ max_int)

  closer-first :
      (z x : A) → dist x ≤ max_int → closer time_fn target (z, negsuc 0) x ≡ (x, pos (dist x))
  unfolding closer
  closer-first z x h = rw (magnitude-sub_time (time_fn x) target h)

  pub closer-next :
      (b x : A)
      → dist x ≤ max_int
      → closer time_fn target (b, pos (dist b)) x
        ≡ (if ltb (dist x) (dist b) then (x, pos (dist x)) else (b, pos (dist b)))
  unfolding closer
  closer-next b x h = rw (magnitude-sub_time (time_fn x) target h, ltb-zero (dist b))

  -- `b` is the answer of a scan of `b₀` and then `xs`.
  pub record IsNearest (b₀ : A) (xs : List A) (s : A × ℤ) : Type 0 where
    pub known : s.1 ≡ pos (dist s.0)
    pub first : dist s.0 ≤ dist b₀
    pub least : All (λ y. dist s.0 ≤ dist y) xs
    pub found : Memᴰ s.0 (b₀ ∷ xs)

  All-weaken : (m n : ℕ) (xs : List A) → m ≤ n → All (λ y. n ≤ dist y) xs → All (λ y. m ≤ dist y) xs
  All-weaken m n [] le h = tt
  All-weaken m n (x ∷ xs) le (h, t) = (omega arith, All-weaken m n xs le t)

  later : {a b : A} (x : A) (xs : List A) → Memᴰ a (b ∷ xs) → Memᴰ a (b ∷ x ∷ xs)
  later x xs (Memᴰ.head e) = Memᴰ.head e
  later x xs (Memᴰ.tail m) = Memᴰ.tail (Memᴰ.tail m)

  pub foldl-closer :
      (b : A) (xs : List A)
      → InRange xs
      → IsNearest b xs (foldl (closer time_fn target) (b, pos (dist b)) xs)
  foldl-closer b [] h = record {
    known = refl;
    first = omega arith;
    least = tt;
    found = Memᴰ.head refl;
  }
  foldl-closer b (x ∷ xs) (h, t) = elim (Bool-cases (ltb (dist x) (dist b))) [
    | inl lt ↦
        let ih = foldl-closer x xs t in
        rw (closer-next b x h, lt)
          (record {
            known = ih.known;
            first = ground arith;
            least = (ih.first, ih.least);
            found = Memᴰ.tail ih.found;
          })
    | inr ge ↦
        let ih = foldl-closer b xs t in
        rw (closer-next b x h, ge)
          (record {
            known = ih.known;
            first = ih.first;
            least = (ground arith, ih.least);
            found = later x xs ih.found;
          })
  ]

  -- The scan from the zero value and -1, over a list that is not empty.
  scan_nearest :
      (z : A) (xs : List A)
      → 0 < length xs
      → InRange xs
      → let b = (foldl (closer time_fn target) (z, negsuc 0) xs).0 in
        Memᴰ b xs × All (λ y. dist b ≤ dist y) xs
  scan_nearest z [] p h = absurd (omega arith)
  scan_nearest z (x ∷ xs) p (h, t) =
      let n = foldl-closer x xs t in
      subst
        (λ s.
          let b = (foldl (closer time_fn target) s xs).0 in
          Memᴰ b (x ∷ xs) × All (λ y. dist b ≤ dist y) (x ∷ xs))
        (sym (closer-first z x h)) (n.found, (n.first, n.least))

  -- On a buffer that is not empty, `FindNearest` returns one of its items, and no other item is
  -- closer to the target.
  pub find_nearest_lem :
      (z : A) (r : RingBuffer A)
      → IsValid r
      → 0 < r.size
      → InRange (contents r)
      → (b : A) × (find_nearest z target time_fn r ≡ some b)
        × Memᴰ b (contents r)
        × All (λ y. dist b ≤ dist y) (contents r)
  unfolding find_nearest
  find_nearest_lem z r v p h =
      let (m, l) = scan_nearest z (contents r) (omega (arith, length-contents r v)) h in
      let e = each_item-eq-foldl z (closer time_fn target) (z, negsuc 0) r v in
      (_, ground (arith, ap (λ s. s.0) e), m, l)
