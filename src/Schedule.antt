-- ===== src/Schedule.antt =====
-- Scheduled rules of blocklists.go: `parseClock`, `scheduledRuleActive`, `scheduledDecisionLocked`.
pub mod Window
use moreno_dnsleaf.Prelude.{
  ℕ, zero, suc, ◌+◌, ◌*◌, Bool, true, false, not, ◌&&◌, ◌||◌, List, [], ◌∷◌, ◌++◌, Option, none,
  some, ltb, leb, if◌then◌else◌, length, any,
}
use moreno_dnsleaf.Prelude.Int.{ℤ, pos, negsuc}
use moreno_dnsleaf.Prelude.Number.{atoi, number_program}
use moreno_dnsleaf.Prelude.Text.{Str, codes, str_eq, trim_space, to_lower, split}
use moreno_dnsleaf.Config.{ScheduledRule}
use moreno_dnsleaf.Deps.{Regex}
use moreno_dnsleaf.Rules.{rule_matches, rules_program}

-- The parts of `time.Now()` that the program reads; Sunday is 0.
pub record Clock : Type 0 where
  pub weekday : ℕ
  pub hour : ℕ
  pub minute : ℕ

-- `strings.ToLower(now.Weekday().String()[:3])`
unfoldable pub day_name : ℕ → Str
day_name zero = codes "sun"
day_name (suc zero) = codes "mon"
day_name (suc (suc zero)) = codes "tue"
day_name (suc (suc (suc zero))) = codes "wed"
day_name (suc (suc (suc (suc zero)))) = codes "thu"
day_name (suc (suc (suc (suc (suc zero))))) = codes "fri"
day_name _ = codes "sat"

unfoldable pub hour_minute : Option ℤ → Option ℤ → Option ℕ
hour_minute (some (pos h)) (some (pos m)) = if ltb 23 h || ltb 59 m then none else some (h * 60 + m)
hour_minute _ _ = none

unfoldable pub clock_parts : List Str → Option ℕ
clock_parts [] = none
clock_parts (h ∷ []) = none
clock_parts (h ∷ m ∷ rest) = hour_minute (atoi h) (atoi m)

-- `none` for `0, false`.
unfoldable pub parse_clock : Str → Option ℕ
parse_clock s = clock_parts (split b':' (trim_space s))

unfoldable pub day_matches : List Str → ℕ → Bool
day_matches [] weekday = true
day_matches (d ∷ ds) weekday =
    any (λ item. str_eq (to_lower (trim_space item)) (day_name weekday)) (d ∷ ds)

unfoldable pub within_window : Option ℕ → Option ℕ → ℕ → Bool
within_window (some start) (some end) cur =
    if leb start end then leb start cur && leb cur end else leb start cur || leb cur end
within_window _ _ cur = true

unfoldable pub scheduled_rule_active : ScheduledRule → Clock → Bool
scheduled_rule_active rule now =
    if not (day_matches rule.days now.weekday)
    then false
    else within_window (parse_clock rule.start) (parse_clock rule.end) (now.hour * 60 + now.minute)

-- The action and the source; `none` for two empty strings.
unfoldable pub scheduled_decision : Regex → List ScheduledRule → Clock → Str → Option (Str × Str)
scheduled_decision re [] now name = none
scheduled_decision re (rule ∷ rules) now name =
    let rest = scheduled_decision re rules now name in
    let action = to_lower (trim_space rule.action) in
    if not rule.enabled
      || not (rule_matches re rule.domain name)
      || not (scheduled_rule_active rule now)
    then rest
    else if str_eq action (codes "allow") || str_eq action (codes "block")
    then some (action, codes "schedule:" ++ rule.domain)
    else rest

unfoldable pub schedule_program : Unit {0}
unfolding rules_program number_program day_name hour_minute clock_parts parse_clock day_matches
    within_window scheduled_rule_active scheduled_decision
schedule_program = tt
