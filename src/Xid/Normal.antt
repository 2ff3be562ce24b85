-- ===== src/Xid/Normal.antt =====
-- The normal form of bus identifiers in pkg/xid/parser.go.
use k8s_gpu_mcp_server.Base.{ℕ, ◌≡◌, refl, ap₂, List, [], ◌∷◌, ◌++◌, ◌==◌, arith, if◌then◌else◌}
use k8s_gpu_mcp_server.Xid.BusId.{
  upper, to_upper, count_colons, domain_prefix, normalize_pci_bus_id,
}

upper_idem : (b : ℕ) → upper (upper b) ≡ upper b
upper_idem b = ground arith

to_upper_idem : (bs : List ℕ) → to_upper (to_upper bs) ≡ to_upper bs
to_upper_idem [] = refl
to_upper_idem (b ∷ bs) = ap₂ (◌∷◌) (upper_idem b) (to_upper_idem bs)

count_colons-to_upper : (bs : List ℕ) → count_colons (to_upper bs) ≡ count_colons bs
count_colons-to_upper [] = refl
count_colons-to_upper (b ∷ bs) = ground (arith, count_colons-to_upper bs)

-- Normalizing puts letters in upper case and the domain 0000 before an identifier with one colon;
-- it pads no other part. Doing it again changes nothing.
pub normalize_pci_bus_id_lem :
    (bus_id : List ℕ)
    → (normalize_pci_bus_id bus_id
        ≡ (if count_colons bus_id == 1 then domain_prefix else []) ++ to_upper bus_id)
      × (normalize_pci_bus_id (normalize_pci_bus_id bus_id) ≡ normalize_pci_bus_id bus_id)
unfolding normalize_pci_bus_id
normalize_pci_bus_id_lem bus_id = ground (
  arith,
  count_colons-to_upper bus_id,
  count_colons-to_upper (to_upper bus_id),
  to_upper_idem bus_id,
)
