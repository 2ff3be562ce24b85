-- ===== src/Gateway/Framing/Grammar.antt =====
-- The lexical structure of JSON, as far as braces and strings go: an independent description of
-- what `SplitJSONObjects` of pkg/gateway/framing.go looks for.
use k8s_gpu_mcp_server.Base.{ℕ, ◌≡◌, ◌≢◌, List, [], ◌∷◌, ◌++◌}

-- The bytes of a string after its opening quote, the closing one included.
pub data StringTail : List ℕ → Type 0 where
  quote : StringTail (b'"' ∷ [])
  plain : (b : ℕ) {s : List ℕ} → b ≢ b'"' → b ≢ b'\\' → StringTail s → StringTail (b ∷ s)
  escape : (b : ℕ) {s : List ℕ} → StringTail s → StringTail (b'\\' ∷ b ∷ s)

-- Bytes in which braces outside strings match.
pub data Balanced : List ℕ → Type 0 where
  empty : Balanced []
  other : (b : ℕ) {s : List ℕ} → b ≢ b'"' → b ≢ b'{' → b ≢ b'}' → Balanced s → Balanced (b ∷ s)
  text : {s t : List ℕ} → StringTail s → Balanced t → Balanced (b'"' ∷ (s ++ t))
  nest : {s t : List ℕ} → Balanced s → Balanced t → Balanced (b'{' ∷ (s ++ b'}' ∷ t))

-- One object: braces round a balanced body.
pub record IsObject (bytes : List ℕ) : Type 0 where
  pub body : List ℕ
  pub balanced : Balanced body
  pub braces : bytes ≡ b'{' ∷ (body ++ b'}' ∷ [])
