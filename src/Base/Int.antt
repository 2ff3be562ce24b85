-- ===== src/Base/Int.antt =====
-- Go's `int` and `time.Duration` as integers: tests, the step up and down, and time differences.
use Prim.Native.Nat.{ℕ, zero, suc, ◌+◌, ◌-◌, ◌^◌}
use mathlib.Core.Bool.{Bool, true, false}
use k8s_gpu_mcp_server.Base.Tests.{ltb, leb, ◌==◌, if◌then◌else◌}

-- `negsuc n` is -(n + 1).
pub data ℤ : Type 0 where
  pos : ℕ → ℤ
  negsuc : ℕ → ℤ

abbrev pub ltz : ℤ → ℤ → Bool
ltz (pos a) (pos b) = ltb a b
ltz (pos a) (negsuc b) = false
ltz (negsuc a) (pos b) = true
ltz (negsuc a) (negsuc b) = ltb b a

abbrev pub lez : ℤ → ℤ → Bool
lez (pos a) (pos b) = leb a b
lez (pos a) (negsuc b) = false
lez (negsuc a) (pos b) = true
lez (negsuc a) (negsuc b) = leb b a

-- The largest int64; the least is `negsuc max_int`.
abbrev pub max_int : ℕ
max_int = 2 ^ 63 - 1

-- `n++` on an int64, which wraps.
abbrev pub inc_int : ℤ → ℤ
inc_int (pos n) = if n == max_int then negsuc max_int else pos (suc n)
inc_int (negsuc zero) = pos 0
inc_int (negsuc (suc n)) = negsuc n

-- `-d` on an int64, which wraps at the least value.
abbrev pub neg_int : ℤ → ℤ
neg_int (pos zero) = pos 0
neg_int (pos (suc n)) = negsuc n
neg_int (negsuc n) = if n == max_int then negsuc max_int else pos (suc n)

-- `d + n` and `d - n` on an int64, for an int64 `n` of at least 0: they wrap.
abbrev pub add_int64 : ℤ → ℕ → ℤ
add_int64 (pos a) n = if leb (a + n) max_int then pos (a + n) else negsuc (2 ^ 64 - 1 - (a + n))
add_int64 (negsuc a) n = if ltb a n then pos (n - a - 1) else negsuc (a - n)

abbrev pub sub_int64 : ℤ → ℕ → ℤ
sub_int64 (pos a) n = if leb n a then pos (a - n) else negsuc (n - a - 1)
sub_int64 (negsuc a) n = if leb (a + n) max_int then negsuc (a + n) else pos (2 ^ 64 - 1 - (a + n))

-- `t.Add(d)`. A time before Go's zero time, which no event has, is that time.
abbrev pub add_time : ℕ → ℤ → ℕ
add_time t (pos n) = t + n
add_time t (negsuc n) = t - suc n

-- Times are nanoseconds since Go's zero time. `t.Sub(u)` saturates at the ends of an int64.
abbrev pub sub_time : ℕ → ℕ → ℤ
sub_time t u =
    if leb u t
    then (if leb (t - u) max_int then pos (t - u) else pos max_int)
    else (if leb (u - t - 1) max_int then negsuc (u - t - 1) else negsuc max_int)

-- `z - n`, for values far from the ends of an int64.
abbrev pub sub_int : ℤ → ℕ → ℤ
sub_int (pos a) b = if leb b a then pos (a - b) else negsuc (b - a - 1)
sub_int (negsuc a) b = negsuc (a + b)
