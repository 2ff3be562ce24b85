-- ===== src/Blackbox/Ring.antt =====
-- pkg/blackbox/ring.go: the circular buffer behind the recorder and the two watchers.
-- A method that changes the buffer returns the new one. The lock is not modelled: each method
-- holds it from its first line to its last, so calls are one after the other.
-- Indices are natural numbers: `Bounds` shows that each sum stays below twice the capacity,
-- which is the length of a slice that is in memory.
pub mod Bounds
pub mod Contents
pub mod History
pub mod Queries
pub mod Nearest
mod Tests
use k8s_gpu_mcp_server.Base.{
  ℕ, zero, suc, ◌+◌, ◌-◌, ◌%◌, Bool, true, false, Option, none, some, List, [], ◌++◌, ◌∷◌, ◌==◌,
  ltb, not, if◌then◌else◌, length, get_or, set, take, drop, replicate, min, ◌||◌,
}
use k8s_gpu_mcp_server.Base.Int.{ℤ, pos, negsuc, ltz, sub_time, neg_int}
use k8s_gpu_mcp_server.Base.Loops.{loop_up}

-- `RingBuffer[T]`; the field `data` is called `buf`.
pub record RingBuffer {ℓ} (A : Type ℓ) : Type ℓ where
  pub buf : List A
  pub head : ℕ
  pub size : ℕ
  pub capacity : ℕ
  pub full : Bool

-- Go's `copy(dst, src)`: the destination after the call.
abbrev pub copy {ℓ} : {A : Type ℓ} → List A → List A → List A
copy dst src = take (length dst) src ++ drop (length src) dst

-- The position that an iteration visits in its round `i`, once the buffer has wrapped.
abbrev pub wrapped {ℓ} : {A : Type ℓ} → RingBuffer A → ℕ → ℕ
wrapped r i = (r.head + i) % r.capacity

-- `iterFn` of `FindNearest`: the pair is `best` and `bestDiff`, which starts at -1.
pub closer {ℓ} : {A : Type ℓ} → (A → ℕ) → ℕ → A × ℤ → A → A × ℤ
closer time_fn target (best, best_diff) item =
    let d = sub_time (time_fn item) target in
    let diff = if ltz d (pos 0) then neg_int d else d in
    if ltz best_diff (pos 0) || ltz diff best_diff then (item, diff) else (best, best_diff)

-- `z` is the zero value of the element type, which `make` fills in.
module _ {ℓ} {A : Type ℓ} (z : A) where
  -- `none` is ErrInvalidCapacity.
  unfoldable pub new_ring_buffer : ℤ → Option (RingBuffer A)
  new_ring_buffer (negsuc n) = none
  new_ring_buffer (pos zero) = none
  new_ring_buffer (pos (suc n)) =
      some
        (record { buf = replicate (suc n) z; head = 0; size = 0; capacity = suc n; full = false })

  -- `none` is the pair of the zero value and `false`.
  unfoldable pub latest : RingBuffer A → Option A
  latest r =
      if r.size == 0 then none else some (get_or r.buf ((r.head + r.capacity - 1) % r.capacity) z)

  unfoldable pub items : RingBuffer A → List A
  items r =
      let result = replicate r.size z in
      let tail = drop r.head r.buf in
      let n = min (length result) (length tail) in
      let wrap =
        take n (copy result tail) ++ copy (drop n (copy result tail)) (take r.head r.buf) in
      if r.size == 0 then [] else if r.full then wrap else copy result (take r.size r.buf)

  -- One iteration over the items, as the loops of `QueryFunc` and `FindNearest` make it.
  unfoldable pub each_item {κ} : {S : Type κ} → (S → A → S) → S → RingBuffer A → S
  each_item f s r =
      if r.full
      then loop_up r.size 0 (λ i t. f t (get_or r.buf (wrapped r i) z)) s
      else loop_up r.size 0 (λ i t. f t (get_or r.buf i z)) s

  pub query_func : (A → Bool) → RingBuffer A → List A
  query_func pred r =
      if r.size == 0
      then []
      else each_item (λ result x. if pred x then result ++ (x ∷ []) else result) [] r

  pub find_nearest : ℕ → (A → ℕ) → RingBuffer A → Option A
  find_nearest target time_fn r =
      if r.size == 0 then none else some (each_item (closer time_fn target) (z, negsuc 0) r).0

  unfoldable pub clear : RingBuffer A → RingBuffer A
  clear r = record r { buf = replicate (length r.buf) z; head = 0; size = 0; full = false }

unfoldable pub add {ℓ} : {A : Type ℓ} → A → RingBuffer A → RingBuffer A
add item r =
    let buf' = set r.buf r.head item in
    let head' = (r.head + 1) % r.capacity in
    if r.full
    then record r { buf = buf'; head = head' }
    else record r { buf = buf'; head = head'; size = r.size + 1; full = (r.size + 1) == r.capacity }

-- The scan of `Query`: the index of the first item that is not before `since`.
unfoldable pub scan {ℓ} : {A : Type ℓ} → ℕ → (A → ℕ) → ℕ → List A → Option ℕ
scan since time_fn i [] = none
scan since time_fn i (x ∷ xs) =
    if not (ltb (time_fn x) since) then some i else scan since time_fn (i + 1) xs

module _ {ℓ} {A : Type ℓ} where
  -- The items in order, as `Query` takes them: a copy, or a window of the storage itself.
  unfoldable pub ordered : A → RingBuffer A → List A
  ordered z r =
      let result = replicate r.size z in
      let tail = drop r.head r.buf in
      let n = min (length result) (length tail) in
      if r.full
      then take n (copy result tail) ++ copy (drop n (copy result tail)) (take r.head r.buf)
      else take r.size r.buf

  -- The end of `Query`: the copy of the items from the start index on.
  abbrev pub copy_from : A → List A → Option ℕ → List A
  copy_from z all none = []
  copy_from z all (some start) = copy (replicate (length all - start) z) (drop start all)

  unfoldable pub query : A → ℕ → (A → ℕ) → RingBuffer A → List A
  query z since time_fn r =
      if r.size == 0 then [] else copy_from z (ordered z r) (scan since time_fn 0 (ordered z r))
