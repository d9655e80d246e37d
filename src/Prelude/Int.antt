-- ===== src/Prelude/Int.antt =====
-- Go's `int` where its sign matters.
use moreno_dnsleaf.Prelude.Tests.{ltb, leb, if◌then◌else◌}
use Prim.Native.Nat.{ℕ, zero, suc, ◌+◌, ◌-◌, ◌*◌, ◌%◌}
use mathlib.Core.Bool.{Bool}

-- `negsuc n` is -(n + 1).
pub data ℤ : Type 0 where
  pos : ℕ → ℤ
  negsuc : ℕ → ℤ

abbrev pub pos_part : ℤ → ℕ
pos_part (pos n) = n
pos_part (negsuc n) = 0

abbrev pub neg_part : ℤ → ℕ
neg_part (pos n) = 0
neg_part (negsuc n) = suc n

abbrev pub leb_ℤ : ℤ → ℤ → Bool
leb_ℤ a b = leb (pos_part a + neg_part b) (pos_part b + neg_part a)

abbrev pub ltb_ℤ : ℤ → ℤ → Bool
ltb_ℤ a b = ltb (pos_part a + neg_part b) (pos_part b + neg_part a)

-- int64: the bit pattern of an integer, and the integer of a bit pattern.
abbrev pub two_63 : ℕ
two_63 = 9223372036854775808

abbrev pub two_64 : ℕ
two_64 = 18446744073709551616

unfoldable pub bits_of : ℤ → ℕ
bits_of (pos n) = n % two_64
bits_of (negsuc n) = two_64 - 1 - n % two_64

unfoldable pub to_int64 : ℕ → ℤ
to_int64 p = if ltb p two_63 then pos p else negsuc (two_64 - 1 - p)

-- `time.Second` in nanoseconds.
abbrev pub second : ℕ
second = 1000000000

-- `time.Duration(n) * time.Second`, which wraps.
unfoldable pub seconds : ℤ → ℤ
seconds n = to_int64 (bits_of n * second % two_64)

-- `t.Add(d)`; a time is the number of nanoseconds since the zero time.
unfoldable pub add_time : ℕ → ℤ → ℕ
add_time t (pos n) = t + n
add_time t (negsuc n) = t - suc n

-- `-n` on `int`.
unfoldable pub negated : ℤ → ℤ
negated (pos zero) = pos 0
negated (pos (suc n)) = negsuc n
negated (negsuc n) = pos (suc n)

-- For tests: all that a run of these functions computes with.
unfoldable pub int_program : Unit {0}
unfolding bits_of to_int64 seconds add_time negated
int_program = tt
