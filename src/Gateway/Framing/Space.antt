-- ===== src/Gateway/Framing/Space.antt =====
-- `bytes.TrimSpace`, as pkg/gateway/framing.go uses it: white space is that of Unicode, in UTF-8.
use mathlib.Core.List.{reverse, reverse-append, reverse-reverse}
use k8s_gpu_mcp_server.Base.{
  ℕ, zero, suc, ◌-◌, ◌≡◌, refl, sym, ap, ◌∙◌, Bool, true, ◌&&◌, ◌||◌, List, [], ◌∷◌, ◌++◌, ◌==◌,
  leb, if◌then◌else◌, arith, All,
}

-- \t \n \v \f \r and the space.
abbrev pub is_space : ℕ → Bool
is_space b = (leb 9 b && leb b 13) || b == 32

-- U+0085 and U+00A0.
abbrev wide2 : ℕ → ℕ → Bool
wide2 a b = a == 0xC2 && (b == 0x85 || b == 0xA0)

-- U+1680, U+2000 to U+200A, U+2028, U+2029, U+202F, U+205F and U+3000.
abbrev wide3 : ℕ → ℕ → ℕ → Bool
wide3 a b c =
    (a == 0xE1 && b == 0x9A && c == 0x80)
    || (a == 0xE2
        && b == 0x80
        && ((leb 0x80 c && leb c 0x8A) || c == 0xA8 || c == 0xA9 || c == 0xAF))
    || (a == 0xE2 && b == 0x81 && c == 0x9F)
    || (a == 0xE3 && b == 0x80 && c == 0x80)

-- How many bytes of white space stand first: one character, or 0.
unfoldable pub space_first : List ℕ → ℕ
space_first [] = 0
space_first (a ∷ []) = if is_space a then 1 else 0
space_first (a ∷ b ∷ []) = if is_space a then 1 else if wide2 a b then 2 else 0
space_first (a ∷ b ∷ c ∷ xs) =
    if is_space a then 1 else if wide2 a b then 2 else if wide3 a b c then 3 else 0

-- The same from the end of the bytes, which are given in reverse.
unfoldable pub space_last : List ℕ → ℕ
space_last [] = 0
space_last (a ∷ []) = if is_space a then 1 else 0
space_last (b ∷ a ∷ []) = if is_space b then 1 else if wide2 a b then 2 else 0
space_last (c ∷ b ∷ a ∷ xs) =
    if is_space c then 1 else if wide2 b c then 2 else if wide3 a b c then 3 else 0

-- Drops white space from the front; the number counts the bytes of the current one that are left.
abbrev pub strip : (List ℕ → ℕ) → ℕ → List ℕ → List ℕ
strip first k [] = []
strip first (suc k) (x ∷ xs) = strip first k xs
strip first zero (x ∷ xs) =
    let n = first (x ∷ xs) in let rest = strip first (n - 1) xs in if n == 0 then x ∷ xs else rest

unfoldable pub trim_space : List ℕ → List ℕ
trim_space xs = reverse (strip space_last 0 (reverse (strip space_first 0 xs)))

space_first-space : (b : ℕ) (xs : List ℕ) → is_space b ≡ true → space_first (b ∷ xs) ≡ 1
unfolding space_first
space_first-space b [] h = rw h
space_first-space b (c ∷ []) h = rw h
space_first-space b (c ∷ d ∷ xs) h = rw h

brace_first : (xs : List ℕ) → space_first (b'{' ∷ xs) ≡ 0
unfolding space_first
brace_first [] = refl
brace_first (c ∷ []) = refl
brace_first (c ∷ d ∷ xs) = refl

brace_last : (xs : List ℕ) → space_last (b'}' ∷ xs) ≡ 0
unfolding space_last
brace_last [] = refl
brace_last (c ∷ []) = ground arith
brace_last (c ∷ d ∷ xs) = ground arith

strip_front :
    (ws xs : List ℕ)
    → All (λ b. is_space b ≡ true) ws
    → strip space_first 0 (ws ++ b'{' ∷ xs) ≡ b'{' ∷ xs
strip_front [] xs h = rw (brace_first xs)
strip_front (w ∷ ws) xs (h, t) = rw (space_first-space w (ws ++ b'{' ∷ xs) h) (strip_front ws xs t)

strip_brace : (xs : List ℕ) → strip space_last 0 (b'}' ∷ xs) ≡ b'}' ∷ xs
strip_brace xs = rw (brace_last xs)

-- Trimming leaves exactly the bytes from an opening brace to a closing one.
pub trim_space-braces :
    (ws xs : List ℕ)
    → All (λ b. is_space b ≡ true) ws
    → trim_space (ws ++ b'{' ∷ (xs ++ b'}' ∷ [])) ≡ b'{' ∷ (xs ++ b'}' ∷ [])
unfolding trim_space
trim_space-braces ws xs h =
    ap (λ y. reverse (strip space_last 0 (reverse y))) (strip_front ws (xs ++ b'}' ∷ []) h)
    ∙ ap (λ y. reverse (strip space_last 0 y)) back
    ∙ ap reverse (strip_brace (reverse (b'{' ∷ xs)))
    ∙ sym (ap reverse back)
    ∙ reverse-reverse (b'{' ∷ (xs ++ b'}' ∷ []))
  where
    back : reverse (b'{' ∷ (xs ++ b'}' ∷ [])) ≡ b'}' ∷ reverse (b'{' ∷ xs)
    back = reverse-append (b'{' ∷ xs) (b'}' ∷ [])
