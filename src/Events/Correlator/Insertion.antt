-- ===== src/Events/Correlator/Insertion.antt =====
-- Insertion sort, for which the promises of `sort.Slice` to pkg/events/correlator.go hold.
use mathlib.Core.List.{Memᴰ}
use k8s_gpu_mcp_server.Base.{
  ℕ, ◌≤◌, ◌↔◌, List, [], ◌∷◌, arith, Bool-cases, inl, inr, leb, if◌then◌else◌, All,
}
use k8s_gpu_mcp_server.Blackbox.Ring.Queries.{InOrder}
use k8s_gpu_mcp_server.Events.Correlator.Types.{TimelineEntry}
use k8s_gpu_mcp_server.Events.Correlator.Order.{when, SortsByTime}

abbrev pub insert : TimelineEntry → List TimelineEntry → List TimelineEntry
insert e [] = e ∷ []
insert e (x ∷ xs) = let more = insert e xs in if leb (when e) (when x) then e ∷ x ∷ xs else x ∷ more

abbrev pub by_time : List TimelineEntry → List TimelineEntry
by_time [] = []
by_time (e ∷ es) = insert e (by_time es)

All-insert :
    (t : ℕ) (e : TimelineEntry) (xs : List TimelineEntry)
    → t ≤ when e
    → All (λ x. t ≤ when x) xs
    → All (λ x. t ≤ when x) (insert e xs)
All-insert t e [] le a = ground arith
All-insert t e (x ∷ xs) le a = ground (arith, All-insert t e xs le)

All-weaken :
    (t u : ℕ) (xs : List TimelineEntry)
    → t ≤ u
    → All (λ x. u ≤ when x) xs
    → All (λ x. t ≤ when x) xs
All-weaken t u [] le a = a
All-weaken t u (x ∷ xs) le a = ground (arith, All-weaken t u xs le)

insert-InOrder :
    (e : TimelineEntry) (xs : List TimelineEntry) → InOrder when xs → InOrder when (insert e xs)
insert-InOrder e [] o = ground arith
insert-InOrder e (x ∷ xs) o =
    ground (arith, insert-InOrder e xs, All-insert (when x) e xs, All-weaken (when e) (when x) xs)

by_time-InOrder : (es : List TimelineEntry) → InOrder when (by_time es)
by_time-InOrder [] = ground arith
by_time-InOrder (e ∷ es) = insert-InOrder e (by_time es) (by_time-InOrder es)

under :
    (a e : TimelineEntry) (xs ys : List TimelineEntry)
    → (Memᴰ a xs → Memᴰ a ys)
    → Memᴰ a (e ∷ xs)
    → Memᴰ a (e ∷ ys)
under a e xs ys f (Memᴰ.head q) = Memᴰ.head q
under a e xs ys f (Memᴰ.tail m) = Memᴰ.tail (f m)

swap : (a e x : TimelineEntry) (xs : List TimelineEntry) → Memᴰ a (x ∷ e ∷ xs) → Memᴰ a (e ∷ x ∷ xs)
swap a e x xs (Memᴰ.head q) = Memᴰ.tail (Memᴰ.head q)
swap a e x xs (Memᴰ.tail (Memᴰ.head q)) = Memᴰ.head q
swap a e x xs (Memᴰ.tail (Memᴰ.tail m)) = Memᴰ.tail (Memᴰ.tail m)

Mem-insert :
    (a e : TimelineEntry) (xs : List TimelineEntry) → Memᴰ a (insert e xs) ↔ Memᴰ a (e ∷ xs)
Mem-insert a e [] = (λ m. m, λ m. m)
Mem-insert a e (x ∷ xs) = elim (Bool-cases (leb (when e) (when x))) [
  | inl p ↦ rw p (λ m. m, λ m. m)
  | inr p ↦ rw p (
    λ m. swap a e x xs (under a x (insert e xs) (e ∷ xs) (Mem-insert a e xs).0 m),
    λ m. under a x (e ∷ xs) (insert e xs) (Mem-insert a e xs).1 (swap a x e xs m),
  )
]

by_time-Mem : (a : TimelineEntry) (es : List TimelineEntry) → Memᴰ a (by_time es) ↔ Memᴰ a es
by_time-Mem a [] = (λ m. m, λ m. m)
by_time-Mem a (e ∷ es) = (
  λ m. under a e (by_time es) es (by_time-Mem a es).0 ((Mem-insert a e (by_time es)).0 m),
  λ m. (Mem-insert a e (by_time es)).1 (under a e es (by_time es) (by_time-Mem a es).1 m),
)

pub by_time-SortsByTime : SortsByTime by_time
by_time-SortsByTime = record {
  in_order = by_time-InOrder;
  adds_none = λ es e. (by_time-Mem e es).0;
  keeps = λ es e. (by_time-Mem e es).1;
}
