-- ===== src/Schedule/Window.antt =====
-- The window of a scheduled rule and the circle of the 1440 minutes of a day (blocklists.go).
use moreno_dnsleaf.Prelude.{
  ℕ, zero, suc, ◌+◌, ◌*◌, ◌-◌, ◌%◌, ◌/◌, ◌<◌, Bool, true, false, ◌&&◌, List, [], ◌∷◌, ◌++◌, Option,
  none, some, leb, ◌≡◌, refl, arith, ◌==◌,
}
use moreno_dnsleaf.Prelude.Int.{ℤ, pos}
use moreno_dnsleaf.Prelude.Text.{Str}
use moreno_dnsleaf.Prelude.Number.{atoi}
use moreno_dnsleaf.Config.{ScheduledRule}
use moreno_dnsleaf.Schedule.{
  Clock, parse_clock, clock_parts, hour_minute, day_matches, within_window, scheduled_rule_active,
  schedule_program,
}

abbrev pub minutes_per_day : ℕ
minutes_per_day = 1440

hour_minute-lt : (h m : Option ℤ) (n : ℕ) → hour_minute h m ≡ some n → n < minutes_per_day
unfolding hour_minute
hour_minute-lt (some (pos h)) (some (pos m)) n e = ground arith
hour_minute-lt _ _ n e = ground arith

clock_parts-lt : (ps : List Str) (n : ℕ) → clock_parts ps ≡ some n → n < minutes_per_day
unfolding clock_parts
clock_parts-lt (h ∷ m ∷ rest) n e = hour_minute-lt (atoi h) (atoi m) n e
clock_parts-lt [] n e = ground arith
clock_parts-lt (h ∷ []) n e = ground arith

pub parse_clock-lt : (s : Str) (n : ℕ) → parse_clock s ≡ some n → n < minutes_per_day
unfolding parse_clock
parse_clock-lt s n e = clock_parts-lt _ n e

-- How far `b` lies behind `a` on the circle.
abbrev pub minutes_after : ℕ → ℕ → ℕ
minutes_after a b = (b + minutes_per_day - a) % minutes_per_day

-- A rule for today with two valid times is active exactly when the time since its start is at
-- most the length of its window, also where the window spans midnight.
pub scheduled_rule_active-circle :
    (rule : ScheduledRule) (now : Clock) (start end : ℕ)
    → day_matches rule.days now.weekday ≡ true
    → parse_clock rule.start ≡ some start
    → parse_clock rule.end ≡ some end
    → now.hour < 24
    → now.minute < 60
    → scheduled_rule_active rule now
      ≡ leb (minutes_after start (now.hour * 60 + now.minute)) (minutes_after start end)
unfolding scheduled_rule_active within_window
scheduled_rule_active-circle rule now start end d s e h m =
    rw (d, s, e) (ground (arith, parse_clock-lt rule.start start s, parse_clock-lt rule.end end e))

-- Two decimal digits.
abbrev two_digits : ℕ → Str
two_digits n = (b'0' + n / 10) ∷ (b'0' + n % 10) ∷ []

abbrev pub print_clock : ℕ → ℕ → Str
print_clock h m = two_digits h ++ (b':' ∷ two_digits m)

-- A test passes at the first `count` numbers.
passes : (ℕ → Bool) → ℕ → Bool
passes test zero = true
passes test (suc count) = passes test count && test count

module _ (test : ℕ → Bool) where
  passes_at : (k count : ℕ) → k < count → passes test count ≡ true → test k ≡ true
  unfolding passes
  passes_at k zero less all = absurd (omega arith)
  passes_at k (suc count) less all = ground (arith, all, passes_at k count)

abbrev is_time : Option ℕ → ℕ → Bool
is_time none n = false
is_time (some k) n = k == n

clock_table :
    passes (λ h. passes (λ m. is_time (parse_clock (print_clock h m)) (h * 60 + m)) 60) 24 ≡ true
unfolding passes schedule_program
clock_table = refl

is_time-eq : (o : Option ℕ) (n : ℕ) → is_time o n ≡ true → o ≡ some n
is_time-eq none n h = ground arith
is_time-eq (some k) n h = ground arith

-- `parseClock` reads every time of a day that is written with two digits each.
pub parse_clock-print_clock :
    (h m : ℕ) → h < 24 → m < 60 → parse_clock (print_clock h m) ≡ some (h * 60 + m)
parse_clock-print_clock h m hh hm =
    is_time-eq _ _ (passes_at _ m 60 hm (passes_at _ h 24 hh clock_table))
