-- ===== src/Gateway/Framing/Tests.antt =====
-- Runs of the framing of pkg/gateway/framing.go, and the theorems at inputs.
use k8s_gpu_mcp_server.Base.{ℕ, ◌≡◌, refl, List, [], ◌∷◌, ◌++◌, some, arith}
use k8s_gpu_mcp_server.Base.Texts.{codes}
use k8s_gpu_mcp_server.Gateway.Framing.Frames.{split-stream}
use k8s_gpu_mcp_server.Gateway.Framing.Grammar.{quote, plain, empty, text, IsObject}
use k8s_gpu_mcp_server.Gateway.Framing.Json.{
  number, string, object, end, field, encode, encode_string, escape_from, escape_first, escape_byte,
  separator_first, hex_digit,
}
use k8s_gpu_mcp_server.Gateway.Framing.Requests.{split-build_mcp_request, SplitsBack}
use k8s_gpu_mcp_server.Gateway.Framing.Split.{split_json_objects, scan_byte}
use k8s_gpu_mcp_server.Gateway.Framing.Space.{trim_space, space_first, space_last}

-- An object that holds a brace in a string: {"}"}
abbrev tricky : List ℕ
tricky = b'{' ∷ b'"' ∷ b'}' ∷ b'"' ∷ b'}' ∷ []

tricky-IsObject : IsObject tricky
tricky-IsObject = record {
  body = b'"' ∷ b'}' ∷ b'"' ∷ [];
  balanced = text {s = b'}' ∷ b'"' ∷ []} (plain b'}' (omega arith) (omega arith) quote) empty;
  braces = refl;
}

split_runs : split_json_objects (10 ∷ tricky ++ 32 ∷ tricky) ≡ tricky ∷ tricky ∷ []
unfolding split_json_objects scan_byte trim_space space_first space_last
split_runs = refl

split-stream_example :
    split_json_objects (10 ∷ tricky ++ 32 ∷ (tricky ++ 10 ∷ [])) ≡ tricky ∷ tricky ∷ []
split-stream_example =
    split-stream ((10 ∷ [], tricky) ∷ (32 ∷ [], tricky) ∷ []) (10 ∷ [])
      (((refl, tt), tricky-IsObject), (((refl, tt), tricky-IsObject), tt)) (refl, tt)

encode_runs :
    encode (object (field (codes "a") (string (b'<' ∷ b'"' ∷ [])) end))
    ≡ codes "{\"a\":\"\\u003c\\\"\"}"
unfolding encode encode_string escape_from escape_first escape_byte separator_first hex_digit
encode_runs = refl

split-build_mcp_request_example :
    SplitsBack
      (codes "get_gpu_health")
      (some (object (field (codes "gpu") (number (codes "0")) end)))
split-build_mcp_request_example =
    split-build_mcp_request (codes "get_gpu_health")
      (some (object (field (codes "gpu") (number (codes "0")) end))) (ground arith)
