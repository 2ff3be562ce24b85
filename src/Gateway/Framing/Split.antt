-- ===== src/Gateway/Framing/Split.antt =====
-- `SplitJSONObjects` of pkg/gateway/framing.go, as a scanner that reads one byte at a time.
use k8s_gpu_mcp_server.Base.{
  ℕ, zero, suc, Bool, true, false, not, ◌&&◌, List, [], ◌∷◌, ◌++◌, ◌==◌, if◌then◌else◌, foldl,
  length, ltb,
}
use k8s_gpu_mcp_server.Base.Int.{ℤ, pos, negsuc}
use k8s_gpu_mcp_server.Gateway.Framing.Space.{trim_space}

-- The variables of the loop.
pub record Scanner : Type 0 where
  pub objects : List (List ℕ)
  pub current : List ℕ
  pub depth : ℤ
  pub in_string : Bool
  pub escaped : Bool

-- `depth++` and `depth--`: no more steps than there are bytes, so neither wraps.
abbrev pub deeper : ℤ → ℤ
deeper (pos n) = pos (suc n)
deeper (negsuc zero) = pos 0
deeper (negsuc (suc n)) = negsuc n

abbrev pub shallower : ℤ → ℤ
shallower (pos zero) = negsuc 0
shallower (pos (suc n)) = pos n
shallower (negsuc n) = negsuc (suc n)

abbrev pub is_zero : ℤ → Bool
is_zero (pos n) = n == 0
is_zero (negsuc n) = false

-- The case of a closing brace.
pub close_brace : Scanner → Scanner
close_brace s =
    let s' = record s { depth = shallower s.depth } in
    if is_zero s'.depth && ltb 0 (length s'.current)
    then record s' { objects = s'.objects ++ trim_space s'.current ∷ []; current = [] }
    else s'

unfoldable pub scan_byte : Scanner → ℕ → Scanner
unfolding close_brace
scan_byte s₀ b =
    let s = record s₀ { current = s₀.current ++ b ∷ [] } in
    if s.escaped
    then record s { escaped = false }
    else if b == b'\\' && s.in_string
    then record s { escaped = true }
    else if b == b'"'
    then record s { in_string = not s.in_string }
    else if s.in_string
    then s
    else if b == b'{'
    then record s { depth = deeper s.depth }
    else if b == b'}'
    then close_brace s
    else s

abbrev pub start : Scanner
start = record { objects = []; current = []; depth = pos 0; in_string = false; escaped = false }

unfoldable pub split_json_objects : List ℕ → List (List ℕ)
split_json_objects bytes = (foldl scan_byte start bytes).objects
