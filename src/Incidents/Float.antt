-- ===== src/Incidents/Float.antt =====
-- What pkg/incidents does with a float64. NaN does not occur: weights are constants, and a percentage
-- is only taken of a total that is not 0.
use k8s_gpu_mcp_server.Base.{ℕ, ◌≤◌, ◌<◌, ◌≡◌, ◌⊎◌, Bool, true, false, List, inl, inr, arith}
use k8s_gpu_mcp_server.Base.Int.{ℤ}

pub record Floats : Type 1 where
  pub F : Type 0
  -- The constant n / 100.
  pub hundredths : ℕ → F
  pub plus : F → F → F
  pub gt : F → F → Bool
  -- `float64(z)`.
  pub of_int : ℤ → F
  -- `float64(used) / float64(total) * 100`.
  pub used_percent : ℕ → ℕ → F
  -- `%.1f`.
  pub one_decimal : F → List ℕ

-- Greater than on numbers other than NaN.
pub record IsOrdered (fl : Floats) : Type 0 where
  pub gt_irrefl : (x : fl.F) → fl.gt x x ≡ false
  pub gt_trans : (x y z : fl.F) → fl.gt x y ≡ true → fl.gt y z ≡ true → fl.gt x z ≡ true
  pub gt_split : (x y z : fl.F) → fl.gt x z ≡ true → (fl.gt x y ≡ true) ⊎ (fl.gt y z ≡ true)
  -- Constants up to one are told apart.
  pub gt_constants : (m n : ℕ) → m < n → n ≤ 100 → fl.gt (fl.hundredths n) (fl.hundredths m) ≡ true

module _ {fl : Floats} (ord : IsOrdered fl) where
  -- What is above a bound is above all that are not.
  pub above_bound : (x y z : fl.F) → fl.gt x z ≡ true → fl.gt y z ≡ false → fl.gt x y ≡ true
  above_bound x y z g n = elim (ord.gt_split x y z g) [ inl e ↦ e | inr e ↦ absurd (ground arith) ]

  pub not_above : (x y : fl.F) → fl.gt x y ≡ true → fl.gt y x ≡ false
  not_above x y g = ground (arith, ord.gt_trans x y x g, ord.gt_irrefl x)
