-- ===== src/Blackbox/Ring/Bounds.antt =====
-- The representation invariant of the ring buffer of pkg/blackbox/ring.go, and index bounds.
use k8s_gpu_mcp_server.Base.{
  ℕ, zero, suc, ◌+◌, ◌%◌, ◌≤◌, ◌<◌, ◌≡◌, true, false, some, arith, length, length-set,
  length-replicate, inl, inr, ◌⊎◌,
}
use k8s_gpu_mcp_server.Base.Int.{ℤ, pos, negsuc}
use k8s_gpu_mcp_server.Blackbox.Ring.{RingBuffer, new_ring_buffer, add, clear}
use native.Mathlib.Nat.{mod_self, mod-eq_of_lt}
use native.Mathlib.Decide.{dec_lt}

pub record IsValid {ℓ} {A : Type ℓ} (r : RingBuffer A) : Type 0 where
  pub storage : length r.buf ≡ r.capacity
  pub room : 0 < r.capacity
  pub head_in : r.head < r.capacity
  pub size_in : r.size ≤ r.capacity
  pub wrapped_full : r.full ≡ true → r.size ≡ r.capacity
  pub filling : r.full ≡ false → (r.head ≡ r.size) × (r.size < r.capacity)

-- `NewRingBuffer` refuses exactly the capacities that are not positive; any other buffer it makes
-- is valid, empty and of that capacity.
pub new_ring_buffer-IsValid {ℓ} :
    {A : Type ℓ} (z : A) (capacity : ℤ) {r : RingBuffer A}
    → new_ring_buffer z capacity ≡ some r
    → IsValid r × (r.size ≡ 0) × (capacity ≡ pos r.capacity)
unfolding new_ring_buffer
new_ring_buffer-IsValid z (negsuc n) e = ground arith
new_ring_buffer-IsValid z (pos zero) e = ground arith
new_ring_buffer-IsValid z (pos (suc n)) e = ground (arith, length-replicate (suc n) z)

-- The next position, without the remainder.
pub step_head :
    (h cap : ℕ)
    → h < cap
    → (((h + 1) % cap ≡ h + 1) × (h + 1 < cap)) ⊎ (((h + 1) % cap ≡ 0) × (h + 1 ≡ cap))
step_head h cap lt = elim (dec_lt (h + 1) cap) [
  | yes p ↦ inl (mod-eq_of_lt p, p)
  | no p ↦ inr (let e : h + 1 ≡ cap = omega arith in rw e (mod_self cap), omega arith)
]

pub add-IsValid {ℓ} : {A : Type ℓ} (x : A) (r : RingBuffer A) → IsValid r → IsValid (add x r)
unfolding add
add-IsValid x r v = ground (arith, length-set r.buf r.head x, step_head r.head r.capacity v.head_in)

pub clear-IsValid {ℓ} : {A : Type ℓ} (z : A) (r : RingBuffer A) → IsValid r → IsValid (clear z r)
unfolding clear
clear-IsValid z r v = ground (arith, length-replicate (length r.buf) z)
