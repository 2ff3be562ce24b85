-- ===== src/Gateway/Framing/Encoding.antt =====
-- What `json.Marshal` writes for pkg/gateway/framing.go has the lexical structure that
-- `SplitJSONObjects` reads.
use k8s_gpu_mcp_server.Base.{
  ℕ, zero, suc, ◌%◌, ◌<◌, ◌≡◌, ◌≢◌, refl, Bool, true, false, List, [], ◌∷◌, ◌++◌, append_assoc,
  append-nil, arith, All, ◌==◌, ◌||◌, ltb, if◌then◌else◌, ◌/◌,
}
use k8s_gpu_mcp_server.Base.Texts.{codes}
use k8s_gpu_mcp_server.Gateway.Framing.Grammar.{
  StringTail, quote, plain, escape, Balanced, empty, other, text, nest, IsObject,
}
use k8s_gpu_mcp_server.Gateway.Framing.Json.{
  Value, null, bool, number, string, array, object, Items, nil, item, Fields, end, field, hex_digit,
  escape_byte, separator_first, third, escape_first, escape_from, encode_string, encode,
  encode_items, more_items, encode_fields, more_fields, is_number_byte, IsValue, AreItems,
  AreFields,
}

-- Bytes that may stand anywhere inside a string.
abbrev InString : List ℕ → Type 0
InString c = (rest : List ℕ) → StringTail rest → StringTail (c ++ rest)

if_InString :
    (t : Bool) (x y : List ℕ)
    → InString x
    → (t ≡ false → InString y)
    → InString (if t then x else y)
if_InString true x y h k = h
if_InString false x y h k = k refl

escaped_InString : (b : ℕ) → InString (b'\\' ∷ b ∷ [])
escaped_InString b rest t = escape b t

hex_digit-plain : (d : ℕ) → d < 16 → (hex_digit d ≢ b'"') × (hex_digit d ≢ b'\\')
unfolding hex_digit
hex_digit-plain d h = ground arith

plain_InString : (b : ℕ) → b ≢ b'"' → b ≢ b'\\' → InString (b ∷ [])
plain_InString b p q rest t = plain b p q t

unicode_InString :
    (x y h l : ℕ)
    → (x ≢ b'"') × (x ≢ b'\\')
    → (y ≢ b'"') × (y ≢ b'\\')
    → (h ≢ b'"') × (h ≢ b'\\')
    → (l ≢ b'"') × (l ≢ b'\\')
    → InString (b'\\' ∷ b'u' ∷ x ∷ y ∷ h ∷ l ∷ [])
unicode_InString x y h l px py ph pl rest t =
    escape b'u' (plain x px.0 px.1 (plain y py.0 py.1 (plain h ph.0 ph.1 (plain l pl.0 pl.1 t))))

escape_byte-InString : (b : ℕ) → InString (escape_byte b)
unfolding escape_byte
escape_byte-InString b = if_InString (b == b'"' || b == b'\\') _ _ (escaped_InString b) λ p.
    if_InString (b == 8) _ _ (escaped_InString b'b') λ _.
      if_InString (b == 12) _ _ (escaped_InString b'f') λ _.
        if_InString (b == 10) _ _ (escaped_InString b'n') λ _.
          if_InString (b == 13) _ _ (escaped_InString b'r') λ _.
            if_InString (b == 9) _ _ (escaped_InString b't') λ _.
              if_InString (ltb b 32 || b == b'<' || b == b'>' || b == b'&') _ _
                (unicode_InString b'0' b'0' (hex_digit (b / 16 % 16)) (hex_digit (b % 16))
                  (omega arith) (omega arith) (hex_digit-plain (b / 16 % 16) (omega arith))
                  (hex_digit-plain (b % 16) (omega arith)))
                λ _. plain_InString b (ground arith) (ground arith)

escape_first-InString : (s : List ℕ) → InString (escape_first s)
unfolding escape_first
escape_first-InString [] = λ rest t. t
escape_first-InString (a ∷ s) =
    if_InString (separator_first (a ∷ s)) _ _
      (unicode_InString b'2' b'0' b'2' (hex_digit (third (a ∷ s) % 16)) (omega arith) (omega arith)
        (omega arith) (hex_digit-plain (third (a ∷ s) % 16) (omega arith)))
      λ _. escape_byte-InString a

escape_from-InString : (k : ℕ) (s : List ℕ) → InString (escape_from k s)
unfolding escape_from
escape_from-InString k [] rest t = t
escape_from-InString (suc k) (a ∷ s) rest t = escape_from-InString k s rest t
escape_from-InString zero (a ∷ s) rest t = rw append_assoc (
    escape_first-InString (a ∷ s) _
      (escape_from-InString (if separator_first (a ∷ s) then 2 else 0) s rest t))

-- Bytes that may stand anywhere inside an object.
abbrev Inside : List ℕ → Type 0
Inside c = (rest : List ℕ) → Balanced rest → Balanced (c ++ rest)

encode_string-Inside : (s : List ℕ) → Inside (encode_string s)
unfolding encode_string
encode_string-Inside s rest b = text (escape_from-InString 0 s (b'"' ∷ []) quote) b

-- A byte that is no quote and no brace.
abbrev IsOther : ℕ → Type 0
IsOther b = (b ≢ b'"') × (b ≢ b'{') × (b ≢ b'}')

others_Inside : (bs : List ℕ) → All IsOther bs → Inside bs
others_Inside [] h rest b = b
others_Inside (d ∷ ds) (h, t) rest b = other d h.0 h.1 h.2 (others_Inside ds t rest b)

number-IsOther : (digits : List ℕ) → All (λ b. is_number_byte b ≡ true) digits → All IsOther digits
number-IsOther [] h = tt
number-IsOther (d ∷ ds) (h, t) =
    (((λ e. ground arith), (λ e. ground arith), (λ e. ground arith)), number-IsOther ds t)

mutual
  unfolding encode

  encode-Inside : (v : Value) → IsValue v → Inside (encode v)
  encode-Inside null h rest b = others_Inside (codes "null") (omega arith) rest b
  encode-Inside (bool true) h rest b = others_Inside (codes "true") (omega arith) rest b
  encode-Inside (bool false) h rest b = others_Inside (codes "false") (omega arith) rest b
  encode-Inside (number digits) h rest b = others_Inside digits (number-IsOther digits h) rest b
  encode-Inside (string s) h rest b = encode_string-Inside s rest b
  encode-Inside (array xs) h rest b = others_Inside (b'[' ∷ []) (omega arith) _ (
      rw append_assoc
        (encode_items-Inside xs h (b']' ∷ rest) (others_Inside (b']' ∷ []) (omega arith) rest b)))
  encode-Inside (object fs) h rest b =
      rw append_assoc (nest (rw append-nil at (encode_fields-Inside fs h [] empty)) b)

  encode_items-Inside : (xs : Items) → AreItems xs → Inside (encode_items xs)
  encode_items-Inside nil h rest b = b
  encode_items-Inside (item v xs) h rest b =
      rw append_assoc (encode-Inside v h.0 _ (more_items-Inside xs h.1 rest b))

  more_items-Inside : (xs : Items) → AreItems xs → Inside (more_items xs)
  more_items-Inside nil h rest b = b
  more_items-Inside (item v xs) h rest b =
      others_Inside (b',' ∷ []) (omega arith) _
        (rw append_assoc (encode-Inside v h.0 _ (more_items-Inside xs h.1 rest b)))

  encode_fields-Inside : (fs : Fields) → AreFields fs → Inside (encode_fields fs)
  encode_fields-Inside end h rest b = b
  encode_fields-Inside (field k v fs) h rest b = rw append_assoc (
      encode_string-Inside k _ (
        others_Inside (b':' ∷ []) (omega arith) _
          (rw append_assoc (encode-Inside v h.0 _ (more_fields-Inside fs h.1 rest b)))))

  more_fields-Inside : (fs : Fields) → AreFields fs → Inside (more_fields fs)
  more_fields-Inside end h rest b = b
  more_fields-Inside (field k v fs) h rest b = others_Inside (b',' ∷ []) (omega arith) _ (
      rw append_assoc (
        encode_string-Inside k _ (
          others_Inside (b':' ∷ []) (omega arith) _
            (rw append_assoc (encode-Inside v h.0 _ (more_fields-Inside fs h.1 rest b))))))

-- What is written for an object is one object to the scanner of `SplitJSONObjects`.
pub encode-IsObject : (fs : Fields) → AreFields fs → IsObject (encode (object fs))
unfolding encode
encode-IsObject fs h = record {
  body = encode_fields fs;
  balanced = rw append-nil at (encode_fields-Inside fs h [] empty);
  braces = refl;
}
