-- ===== src/Xid/BusId.antt =====
-- `normalizePCIBusID` of pkg/xid/parser.go, on the bytes of an ASCII text.
use k8s_gpu_mcp_server.Base.{ℕ, suc, ◌-◌, ◌&&◌, List, [], ◌∷◌, ◌++◌, ◌==◌, leb, if◌then◌else◌}
use k8s_gpu_mcp_server.Base.Texts.{codes}

-- `strings.ToUpper`
abbrev pub upper : ℕ → ℕ
upper b = if leb b'a' b && leb b b'z' then b - 32 else b

abbrev pub to_upper : List ℕ → List ℕ
to_upper [] = []
to_upper (b ∷ bs) = upper b ∷ to_upper bs

-- `strings.Count(s, ":")`
abbrev pub count_colons : List ℕ → ℕ
count_colons [] = 0
count_colons (b ∷ bs) = let n = count_colons bs in if b == b':' then suc n else n

abbrev pub domain_prefix : List ℕ
domain_prefix = codes "0000:"

unfoldable pub normalize_pci_bus_id : List ℕ → List ℕ
normalize_pci_bus_id bus_id =
    let bus_id = to_upper bus_id in
    if count_colons bus_id == 2
    then bus_id
    else if count_colons bus_id == 1
    then domain_prefix ++ bus_id
    else bus_id
