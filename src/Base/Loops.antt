-- ===== src/Base/Loops.antt =====
-- The counted loop `for i := lo; i < lo + n; i++ { s = body(i, s) }`.
use Prim.Native.Nat.{ℕ, zero, suc, ◌+◌, ◌<◌, ◌≤◌}
use mathlib.Core.Path.{◌≡◌, refl, ap, ◌∙◌}
use mathlib.Core.List.{List}
use native.Mathlib.Nat.{zero-add, suc-add, add-zero}
use native.Mathlib.Omega.{arith}
use k8s_gpu_mcp_server.Base.Lists.{length, get_or, take, drop, drop-cons, foldl}

unfoldable pub loop_up {ℓ} : {S : Type ℓ} → ℕ → ℕ → (ℕ → S → S) → S → S
loop_up zero i body s = s
loop_up (suc n) i body s = loop_up n (i + 1) body (body i s)

module _ {ℓ} {S : Type ℓ} where
  pub loop_up-add :
      (m n i : ℕ) (body : ℕ → S → S) (s : S)
      → loop_up (m + n) i body s ≡ loop_up n (i + m) body (loop_up m i body s)
  unfolding loop_up
  loop_up-add zero n i body s = rw (zero-add, add-zero)
  loop_up-add (suc m) n i body s =
      let shift : i + 1 + m ≡ i + suc m = omega arith in
      rw (suc-add, loop_up-add m n (i + 1) body (body i s), shift)

-- Indices that run along a segment of `xs` visit that segment's elements in order.
pub loop_up-segment {ℓ κ} :
    {A : Type ℓ} {S : Type κ} (f : S → A → S) (xs : List A) (d : A) (idx : ℕ → ℕ) (n i j : ℕ)
    (s : S)
    → j + n ≤ length xs
    → ((k : ℕ) → k < n → idx (i + k) ≡ j + k)
    → loop_up n i (λ k t. f t (get_or xs (idx k) d)) s ≡ foldl f s (take n (drop j xs))
unfolding loop_up
loop_up-segment f xs d idx zero i j s h e = refl
loop_up-segment f xs d idx (suc n) i j s h e =
    rw (drop-cons xs j d (omega arith), first)
      (loop_up-segment f xs d idx n (i + 1) (suc j) (f s (get_or xs j d)) (omega arith) later)
  where
    first : idx i ≡ j
    first = ap idx (omega arith) ∙ e 0 (omega arith) ∙ add-zero j

    later : (k : ℕ) → k < n → idx (i + 1 + k) ≡ suc j + k
    later k lt = ap idx (omega arith) ∙ e (suc k) (omega arith) ∙ omega arith
