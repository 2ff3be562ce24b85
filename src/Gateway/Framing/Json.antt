-- ===== src/Gateway/Framing/Json.antt =====
-- `json.Marshal` as pkg/gateway/framing.go uses it: JSON values and their compact encoding, with
-- Go's escapes in strings (the HTML ones too). Strings are valid UTF-8, which Go would otherwise
-- repair; a number is the text that `strconv` writes for it; the fields of an object stand in the
-- order in which they are written (that of the struct, or sorted for a map).
use k8s_gpu_mcp_server.Base.{
  ℕ, zero, suc, ◌+◌, ◌-◌, ◌/◌, ◌%◌, Bool, true, false, ◌&&◌, ◌||◌, List, [], ◌∷◌, ◌++◌, ◌==◌, ltb,
  leb, All, ◌≡◌, if◌then◌else◌,
}
use k8s_gpu_mcp_server.Base.Texts.{codes}

mutual
  pub data Value : Type 0 where
    null : Value
    bool : Bool → Value
    number : List ℕ → Value
    string : List ℕ → Value
    array : Items → Value
    object : Fields → Value

  pub data Items : Type 0 where
    nil : Items
    item : Value → Items → Items

  pub data Fields : Type 0 where
    end : Fields
    field : List ℕ → Value → Fields → Fields

unfoldable pub hex_digit : ℕ → ℕ
hex_digit d = if ltb d 10 then b'0' + d else (b'a' + d) - 10

-- One byte of a string.
unfoldable pub escape_byte : ℕ → List ℕ
escape_byte b =
    if b == b'"' || b == b'\\'
    then b'\\' ∷ b ∷ []
    else if b == 8
    then b'\\' ∷ b'b' ∷ []
    else if b == 12
    then b'\\' ∷ b'f' ∷ []
    else if b == 10
    then b'\\' ∷ b'n' ∷ []
    else if b == 13
    then b'\\' ∷ b'r' ∷ []
    else if b == 9
    then b'\\' ∷ b't' ∷ []
    else if ltb b 32 || b == b'<' || b == b'>' || b == b'&'
    then b'\\' ∷ b'u' ∷ b'0' ∷ b'0' ∷ hex_digit (b / 16 % 16) ∷ hex_digit (b % 16) ∷ []
    else b ∷ []

-- Whether U+2028 or U+2029 stands first, and its last byte.
unfoldable pub separator_first : List ℕ → Bool
separator_first [] = false
separator_first (a ∷ []) = false
separator_first (a ∷ b ∷ []) = false
separator_first (a ∷ b ∷ c ∷ s) = a == 0xE2 && b == 0x80 && (c == 0xA8 || c == 0xA9)

abbrev pub third : List ℕ → ℕ
third [] = 0
third (a ∷ []) = 0
third (a ∷ b ∷ []) = 0
third (a ∷ b ∷ c ∷ s) = c

-- What is written for the character that stands first, and how many bytes after its first one it
-- takes up.
unfoldable pub escape_first : List ℕ → List ℕ
escape_first [] = []
escape_first (a ∷ s) =
    if separator_first (a ∷ s)
    then b'\\' ∷ b'u' ∷ b'2' ∷ b'0' ∷ b'2' ∷ hex_digit (third (a ∷ s) % 16) ∷ []
    else escape_byte a

-- The bytes of a string; the number counts those of the current character that are left.
unfoldable pub escape_from : ℕ → List ℕ → List ℕ
escape_from k [] = []
escape_from (suc k) (a ∷ s) = escape_from k s
escape_from zero (a ∷ s) =
    escape_first (a ∷ s) ++ escape_from (if separator_first (a ∷ s) then 2 else 0) s

unfoldable pub encode_string : List ℕ → List ℕ
encode_string s = b'"' ∷ (escape_from 0 s ++ b'"' ∷ [])

-- The `more` functions write the members after the first one, each with its comma.
unfoldable mutual
  pub encode : Value → List ℕ
  encode null = codes "null"
  encode (bool true) = codes "true"
  encode (bool false) = codes "false"
  encode (number digits) = digits
  encode (string s) = encode_string s
  encode (array xs) = b'[' ∷ (encode_items xs ++ b']' ∷ [])
  encode (object fs) = b'{' ∷ (encode_fields fs ++ b'}' ∷ [])

  pub encode_items : Items → List ℕ
  encode_items nil = []
  encode_items (item v xs) = encode v ++ more_items xs

  pub more_items : Items → List ℕ
  more_items nil = []
  more_items (item v xs) = b',' ∷ (encode v ++ more_items xs)

  pub encode_fields : Fields → List ℕ
  encode_fields end = []
  encode_fields (field k v fs) = encode_string k ++ b':' ∷ (encode v ++ more_fields fs)

  pub more_fields : Fields → List ℕ
  more_fields end = []
  more_fields (field k v fs) = b',' ∷ (encode_string k ++ b':' ∷ (encode v ++ more_fields fs))

-- A number's text holds digits, signs, a point and an exponent.
abbrev pub is_number_byte : ℕ → Bool
is_number_byte b =
    (leb b'0' b && leb b b'9') || b == b'-' || b == b'+' || b == b'.' || b == b'e' || b == b'E'

abbrev mutual
  pub IsValue : Value → Type 0
  IsValue null = Unit {0}
  IsValue (bool b) = Unit {0}
  IsValue (number digits) = All (λ b. is_number_byte b ≡ true) digits
  IsValue (string s) = Unit {0}
  IsValue (array xs) = AreItems xs
  IsValue (object fs) = AreFields fs

  pub AreItems : Items → Type 0
  AreItems nil = Unit {0}
  AreItems (item v xs) = IsValue v × AreItems xs

  pub AreFields : Fields → Type 0
  AreFields end = Unit {0}
  AreFields (field k v fs) = IsValue v × AreFields fs
