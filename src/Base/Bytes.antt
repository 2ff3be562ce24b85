-- ===== src/Base/Bytes.antt =====
-- Go strings as lists of bytes: case, prefixes and searching, as package strings does them on ASCII.
use Prim.Native.Nat.{ℕ, ◌+◌}
use mathlib.Core.Bool.{Bool, true, false, ◌&&◌, ◌||◌}
use mathlib.Core.List.{List, [], ◌∷◌, map}
use k8s_gpu_mcp_server.Base.Tests.{◌==◌, leb, if◌then◌else◌}
use k8s_gpu_mcp_server.Base.Texts.{eq_bytes}

-- `strings.ToLower`.
abbrev pub lower : ℕ → ℕ
lower c = if leb b'A' c && leb c b'Z' then c + 32 else c

abbrev pub to_lower : List ℕ → List ℕ
to_lower s = map lower s

-- `strings.HasPrefix(s, prefix)`.
abbrev pub has_prefix : List ℕ → List ℕ → Bool
has_prefix s [] = true
has_prefix [] (p ∷ ps) = false
has_prefix (c ∷ s) (p ∷ ps) = c == p && has_prefix s ps

-- `strings.Contains(s, part)`.
abbrev pub contains_bytes : List ℕ → List ℕ → Bool
contains_bytes [] part = has_prefix [] part
contains_bytes (c ∷ s) part = has_prefix (c ∷ s) part || contains_bytes s part

-- `strings.EqualFold`.
abbrev pub equal_fold : List ℕ → List ℕ → Bool
equal_fold s t = eq_bytes (to_lower s) (to_lower t)

-- `s == ""`.
abbrev pub is_empty : List ℕ → Bool
is_empty [] = true
is_empty (c ∷ s) = false
