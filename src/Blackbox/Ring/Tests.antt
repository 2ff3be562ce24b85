-- ===== src/Blackbox/Ring/Tests.antt =====
-- Runs of the ring buffer of pkg/blackbox/ring.go, and the theorems at inputs.
use mathlib.Core.List.{Memᴰ}
use k8s_gpu_mcp_server.Base.{
  ℕ, ◌+◌, ◌-◌, ◌≤◌, ◌≡◌, refl, List, [], ◌∷◌, arith, true, false, some, filter, foldl, leb, All,
}
use k8s_gpu_mcp_server.Base.Int.{pos}
use k8s_gpu_mcp_server.Base.Loops.{loop_up}
use k8s_gpu_mcp_server.Blackbox.Ring.{
  RingBuffer, new_ring_buffer, add, items, latest, clear, query, query_func, find_nearest, closer,
  ordered, scan, each_item,
}
use k8s_gpu_mcp_server.Blackbox.Ring.Bounds.{IsValid, new_ring_buffer-IsValid, add-IsValid}
use k8s_gpu_mcp_server.Blackbox.Ring.Contents.{contents}
use k8s_gpu_mcp_server.Blackbox.Ring.History.{Op, push, wipe, apply, items-run}
use k8s_gpu_mcp_server.Blackbox.Ring.Nearest.{find_nearest_lem}
use k8s_gpu_mcp_server.Blackbox.Ring.Queries.{query-eq-filter}

-- Three slots that have been written four times: 20, 30 and 40 are left.
abbrev wrapped_ring : RingBuffer ℕ
wrapped_ring = record { buf = 40 ∷ 20 ∷ 30 ∷ []; head = 1; size = 3; capacity = 3; full = true }

abbrev empty_ring : RingBuffer ℕ
empty_ring = record { buf = 0 ∷ 0 ∷ 0 ∷ []; head = 0; size = 0; capacity = 3; full = false }

abbrev pushes : List (Op ℕ)
pushes = push 5 ∷ wipe ∷ push 10 ∷ push 20 ∷ push 30 ∷ push 40 ∷ []

pushes_run : foldl (apply 0) empty_ring pushes ≡ wrapped_ring
unfolding apply add clear
pushes_run = refl

reads_run :
    (items 0 wrapped_ring ≡ 20 ∷ 30 ∷ 40 ∷ [])
    × (latest 0 wrapped_ring ≡ some 40)
    × (query 0 25 (λ t. t) wrapped_ring ≡ 30 ∷ 40 ∷ [])
    × (query_func 0 (λ t. leb t 30) wrapped_ring ≡ 20 ∷ 30 ∷ [])
    × (find_nearest 0 33 (λ t. t) wrapped_ring ≡ some 30)
unfolding items latest query query_func find_nearest closer ordered scan each_item loop_up
reads_run = (refl, refl, refl, refl, refl)

wrapped-IsValid : IsValid wrapped_ring
wrapped-IsValid = ground arith

new_ring_buffer-IsValid_example :
    IsValid empty_ring × (empty_ring.size ≡ 0) × (pos 3 ≡ pos empty_ring.capacity)
unfolding new_ring_buffer
new_ring_buffer-IsValid_example = new_ring_buffer-IsValid 0 (pos 3) refl

add-IsValid_example : IsValid (add 50 wrapped_ring)
add-IsValid_example = add-IsValid 50 wrapped_ring wrapped-IsValid

items-run_example : items 0 (foldl (apply 0) empty_ring pushes) ≡ 20 ∷ 30 ∷ 40 ∷ []
unfolding new_ring_buffer
items-run_example = items-run 0 (pos 3) pushes refl

query-eq-filter_example :
    query 0 25 (λ t. t) wrapped_ring ≡ filter (λ t. leb 25 t) (20 ∷ 30 ∷ 40 ∷ [])
unfolding contents
query-eq-filter_example = query-eq-filter 0 25 (λ t. t) wrapped_ring wrapped-IsValid (omega arith)

find_nearest_lem_example :
    (b : ℕ) × (find_nearest 0 33 (λ t. t) wrapped_ring ≡ some b)
    × Memᴰ b (20 ∷ 30 ∷ 40 ∷ [])
    × All (λ y. (b - 33) + (33 - b) ≤ (y - 33) + (33 - y)) (20 ∷ 30 ∷ 40 ∷ [])
unfolding contents
find_nearest_lem_example =
    find_nearest_lem (λ t. t) 33 0 wrapped_ring wrapped-IsValid (omega arith) (omega arith)
