-- ===== src/Prelude/Number.antt =====
-- `strconv.Atoi`: an optional sign and decimal digits, within 64 bits.
use moreno_dnsleaf.Prelude.Tests.{◌==◌, leb, if◌then◌else◌}
use moreno_dnsleaf.Prelude.Text.{Str, text_program}
use moreno_dnsleaf.Prelude.Int.{ℤ, pos, negsuc}
use Prim.Native.Nat.{ℕ, zero, suc, ◌+◌, ◌-◌, ◌*◌}
use mathlib.Core.Bool.{Bool, ◌&&◌}
use mathlib.Core.List.{[], ◌∷◌}
use mathlib.Core.Option.{Option, none, some}

unfoldable pub is_digit : ℕ → Bool
is_digit c = leb b'0' c && leb c b'9'

-- The digits behind those that `acc` stands for.
unfoldable pub digits_from : ℕ → Str → Option ℕ
digits_from acc [] = some acc
digits_from acc (c ∷ cs) =
    let rest = digits_from (acc * 10 + (c - b'0')) cs in if is_digit c then rest else none

unfoldable pub parse_digits : Str → Option ℕ
parse_digits [] = none
parse_digits (c ∷ cs) = digits_from 0 (c ∷ cs)

abbrev pub max_int : ℕ
max_int = 9223372036854775807

unfoldable pub negate : ℕ → ℤ
negate zero = pos 0
negate (suc n) = negsuc n

unfoldable pub in_range : Option ℕ → ℕ → (ℕ → ℤ) → Option ℤ
in_range none bound f = none
in_range (some n) bound f = if leb n bound then some (f n) else none

unfoldable pub atoi : Str → Option ℤ
atoi [] = none
atoi (c ∷ cs) =
    if c == b'-'
    then in_range (parse_digits cs) (max_int + 1) negate
    else if c == b'+'
    then in_range (parse_digits cs) max_int pos
    else in_range (parse_digits (c ∷ cs)) max_int pos

unfoldable pub number_program : Unit {0}
unfolding text_program is_digit digits_from parse_digits negate in_range atoi
number_program = tt
