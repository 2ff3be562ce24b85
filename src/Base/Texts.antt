-- ===== src/Base/Texts.antt =====
-- Go strings: native texts where they are only compared, lists of bytes where they are read.
use Prim.Native.Char.{code}
use Prim.Native.Nat.{ℕ}
use Prim.Native.String.{String}
use mathlib.Core.Bool.{Bool, true, false, ◌&&◌}
use mathlib.Core.List.{List, [], ◌∷◌}
use mathlib.Core.Path.{◌≡◌, refl}
use native.Mathlib.Omega.{arith}
use k8s_gpu_mcp_server.Base.Tests.{◌==◌}
pub use text.Mathlib.Text.{◌==◌ as str_eq}
pub use text.Mathlib.TextEquality.{eq_iff}
pub use text.Mathlib.TextPositions.{eq_refl}

-- The bytes of an ASCII text.
abbrev pub codes : String → List ℕ
codes String.[] = []
codes (String.◌∷◌ c s) = code c ∷ codes s

-- Equality of Go strings as bytes.
abbrev pub eq_bytes : List ℕ → List ℕ → Bool
eq_bytes [] [] = true
eq_bytes [] (b ∷ bs) = false
eq_bytes (a ∷ more) [] = false
eq_bytes (a ∷ more) (b ∷ bs) = a == b && eq_bytes more bs

pub eq_bytes_sound : (a b : List ℕ) → eq_bytes a b ≡ true → a ≡ b
eq_bytes_sound [] [] e = refl
eq_bytes_sound [] (y ∷ b) e = ground arith
eq_bytes_sound (x ∷ a) [] e = ground arith
eq_bytes_sound (x ∷ a) (y ∷ b) e = ground (arith, eq_bytes_sound a b)

pub eq_bytes_refl : (a : List ℕ) → eq_bytes a a ≡ true
eq_bytes_refl [] = refl
eq_bytes_refl (x ∷ a) = ground (arith, eq_bytes_refl a)
