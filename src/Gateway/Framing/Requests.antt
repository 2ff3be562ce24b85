-- ===== src/Gateway/Framing/Requests.antt =====
-- The requests that pkg/gateway/framing.go builds, and how the receiving side splits them.
use k8s_gpu_mcp_server.Base.{
  ℕ, ◌≡◌, refl, sym, ap, ◌∙◌, List, [], ◌∷◌, ◌++◌, append_assoc, append-nil, Option, none, some,
  String, arith, inl, inr, ◌⊎◌,
}
use k8s_gpu_mcp_server.Base.Texts.{codes}
use k8s_gpu_mcp_server.Gateway.Framing.Encoding.{encode-IsObject}
use k8s_gpu_mcp_server.Gateway.Framing.Frames.{split-stream}
use k8s_gpu_mcp_server.Gateway.Framing.Grammar.{IsObject}
use k8s_gpu_mcp_server.Gateway.Framing.Json.{
  Value, number, string, object, Fields, end, field, encode, IsValue, AreFields,
}
use k8s_gpu_mcp_server.Gateway.Framing.Split.{split_json_objects}

abbrev pub newline : ℕ
newline = 10

-- `MCPToolCallParams`; `none` is the nil that `omitempty` leaves out.
pub tool_call_params : List ℕ → Option Value → Fields
tool_call_params name none = field (codes "name") (string name) end
tool_call_params name (some v) =
    field (codes "name") (string name) (field (codes "arguments") v end)

-- `MCPRequest`, in the order of the struct.
pub mcp_request : String → Fields → ℕ → Fields
mcp_request method params id = field (codes "jsonrpc") (string (codes "2.0")) (
    field (codes "method") (string (codes method))
      (field (codes "params") (object params) (field (codes "id") (number (id ∷ [])) end)))

-- The params of the initialize request.
pub initialize_params : Fields
initialize_params = field (codes "protocolVersion") (string (codes "2025-06-18")) (
    field (codes "capabilities") (object end) (
      field (codes "clientInfo")
        (object (
          field (codes "name") (string (codes "gateway-proxy"))
            (field (codes "version") (string (codes "1.0")) end)))
        end))

pub initialize_request : Fields
unfolding mcp_request initialize_params
initialize_request = mcp_request "initialize" initialize_params b'0'

pub tool_request : List ℕ → Option Value → Fields
unfolding mcp_request tool_call_params
tool_request name arguments = mcp_request "tools/call" (tool_call_params name arguments) b'1'

-- `none` is the error for an empty name. Values that come from JSON can always be marshalled.
pub build_mcp_request : List ℕ → Option Value → Option (List ℕ)
build_mcp_request [] arguments = none
build_mcp_request (c ∷ name) arguments =
    let init_bytes = encode (object initialize_request) in
    let tool_bytes = encode (object (tool_request (c ∷ name) arguments)) in
    some (((init_bytes ++ newline ∷ []) ++ tool_bytes) ++ newline ∷ [])

pub build_http_tool_request : List ℕ → Option Value → Option (List ℕ)
build_http_tool_request [] arguments = none
build_http_tool_request (c ∷ name) arguments =
    some (encode (object (tool_request (c ∷ name) arguments)))

abbrev pub IsArguments : Option Value → Type 0
IsArguments none = Unit {0}
IsArguments (some v) = IsValue v

initialize_request-AreFields : AreFields initialize_request
unfolding initialize_request
initialize_request-AreFields = ground arith

tool_request-AreFields :
    (name : List ℕ) (arguments : Option Value)
    → IsArguments arguments
    → AreFields (tool_request name arguments)
unfolding tool_request
tool_request-AreFields name none h = ground arith
tool_request-AreFields name (some v) h = ground arith

split-two_lines :
    (a b : List ℕ)
    → IsObject a
    → IsObject b
    → split_json_objects (((a ++ newline ∷ []) ++ b) ++ newline ∷ []) ≡ a ∷ b ∷ []
split-two_lines a b p q =
    ap split_json_objects (
      append_assoc (a ++ newline ∷ []) b (newline ∷ [])
      ∙ append_assoc a (newline ∷ []) (b ++ newline ∷ []))
    ∙ split-stream (([], a) ∷ (newline ∷ [], b) ∷ []) (newline ∷ [])
        ((tt, p), (((refl, tt), q), tt)) (refl, tt)

split-one : (a : List ℕ) → IsObject a → split_json_objects a ≡ a ∷ []
split-one a p =
    ap split_json_objects (sym (append-nil a)) ∙ split-stream (([], a) ∷ []) [] ((tt, p), tt) tt

-- What a receiver makes of the two requests for a tool call: nothing is built for an empty name,
-- and otherwise each splits into the encoded requests that it stands for.
abbrev pub SplitsBack : List ℕ → Option Value → Type 0
SplitsBack name arguments =
    (name ≡ [])
      × (build_mcp_request name arguments ≡ none)
      × (build_http_tool_request name arguments ≡ none)
    ⊎ ((bytes : List ℕ) × (build_mcp_request name arguments ≡ some bytes)
        × (split_json_objects bytes
            ≡ encode (object initialize_request)
              ∷ encode (object (tool_request name arguments))
              ∷ [])
        × (http_bytes : List ℕ) × (build_http_tool_request name arguments ≡ some http_bytes)
        × (split_json_objects http_bytes ≡ encode (object (tool_request name arguments)) ∷ []))

-- The bytes that are built for an agent split into exactly the initialize request and the tool
-- request, and those built for an agent over HTTP into the tool request alone, for any tool name
-- that is not empty and any arguments; for the empty name neither is built.
pub split-build_mcp_request :
    (name : List ℕ) (arguments : Option Value) → IsArguments arguments → SplitsBack name arguments
unfolding build_mcp_request build_http_tool_request
split-build_mcp_request [] arguments h = inl (refl, refl, refl)
split-build_mcp_request (c ∷ name) arguments h =
    let init = encode-IsObject initialize_request initialize_request-AreFields in
    let tool =
      encode-IsObject (tool_request (c ∷ name) arguments)
        (tool_request-AreFields (c ∷ name) arguments h) in
    inr (_, refl, split-two_lines _ _ init tool, _, refl, split-one _ tool)
