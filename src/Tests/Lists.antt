-- ===== src/Tests/Lists.antt =====
-- Rules, blocklists, schedules and decisions on concrete inputs.
use moreno_dnsleaf.Prelude.{Option}
use moreno_dnsleaf.Rules.{rules_program}
use moreno_dnsleaf.Prelude.{
  ◌+◌, ◌*◌, true, not, ◌&&◌, ◌||◌, List, [], ◌∷◌, none, some, ◌≡◌, refl, arith, leb,
}
use moreno_dnsleaf.Prelude.Map.{get, map_program}
use moreno_dnsleaf.Prelude.Text.{Str, codes, str_lt}
use moreno_dnsleaf.Config.{ScheduledRule}
use moreno_dnsleaf.Rules.{rule_matches, cached_rule_matches}
use moreno_dnsleaf.Rules.Cache.{IsCoherent, cached_rule_matches_lem}
use moreno_dnsleaf.Gravity.{merge_gravity, normalized_domains}
use moreno_dnsleaf.Gravity.Sorted.{Ascending, member, merge_gravity_lem}
use moreno_dnsleaf.Blocking.{Blocking, add_blocked_rules, reset_blocked}
use moreno_dnsleaf.Blocking.Invariant.{IsValid, reset_blocked-IsValid, add_blocked_rules-IsValid}
use moreno_dnsleaf.Schedule.{
  day_matches, parse_clock, scheduled_rule_active, scheduled_decision, schedule_program,
}
use moreno_dnsleaf.Schedule.Window.{minutes_after, scheduled_rule_active-circle}
use moreno_dnsleaf.Decision.{
  block_decision, profile_limits, profile_for_client, profile_verdict, query_name, any_rule_matches,
  decision_program,
}
use moreno_dnsleaf.Decision.Order.{is_blocked_name, block_decision-is_blocked_name}
use moreno_dnsleaf.Tests.Samples.{sample_regex, sample_net, sample_config, sample_clock}
use moreno_dnsleaf.Blocklist.{parse_blocklist, parse_blocklist_line, blocklist_program}
use moreno_dnsleaf.Blocklist.Addresses.{parse_blocklist_line-hostname}
use moreno_dnsleaf.Tests.Ranges.{in_order}

abbrev sample_gravity : List Str
sample_gravity = codes "evil.net" ∷ codes "track.io" ∷ []

sample_gravity-Ascending : Ascending sample_gravity
unfolding str_lt
sample_gravity-Ascending = ((refl, tt), (tt, tt))

merge_gravity_lem_example :
    Ascending (merge_gravity sample_gravity (codes "Ads.com" ∷ []))
    × ((z : Str)
        → member z (merge_gravity sample_gravity (codes "Ads.com" ∷ []))
          ≡ (member z sample_gravity || member z (normalized_domains (codes "Ads.com" ∷ []))))
merge_gravity_lem_example =
    merge_gravity_lem sample_gravity (codes "Ads.com" ∷ []) sample_gravity-Ascending

abbrev sample_rules : List Str
sample_rules = codes "Ads.com" ∷ codes "*.bad.org" ∷ []

abbrev old : Blocking
old = record {
  blocked = (codes "old.com", true) ∷ [];
  blocked_src = [];
  blocked_pat = [];
  gravity = [];
  gravity_by_list = [];
}

abbrev filled : Blocking
filled = add_blocked_rules (reset_blocked old) sample_rules (codes "list")

empty-IsValid : IsValid (reset_blocked old)
empty-IsValid = reset_blocked-IsValid old

filled-IsValid : IsValid filled
filled-IsValid = add_blocked_rules-IsValid sample_rules _ (codes "list") empty-IsValid

empty_cache-IsCoherent : IsCoherent sample_regex []
unfolding get
empty_cache-IsCoherent = record { compiles = λ k p g. ground (arith, g); bounded = omega arith }

cached_rule_matches_lem_example :
    ((cached_rule_matches sample_regex [] (codes "/ads/") (codes "ads.com")).1
      ≡ rule_matches sample_regex (codes "/ads/") (codes "ads.com"))
    × IsCoherent sample_regex
        (cached_rule_matches sample_regex [] (codes "/ads/") (codes "ads.com")).0
cached_rule_matches_lem_example =
    cached_rule_matches_lem sample_regex [] (codes "/ads/") (codes "ads.com") empty_cache-IsCoherent

-- From 22:00 to 6:30, over midnight.
abbrev night : ScheduledRule
night = record {
  domain = codes "game.com";
  action = codes "block";
  start = codes "22:00";
  end = codes "06:30";
  days = [];
  enabled = true;
}

night_times :
    (day_matches night.days sample_clock.weekday ≡ true)
    × (parse_clock night.start ≡ some 1320)
    × (parse_clock night.end ≡ some 390)
unfolding schedule_program
night_times = (refl, refl, refl)

scheduled_rule_active-circle_example :
    scheduled_rule_active night sample_clock
    ≡ leb
        (minutes_after 1320 (sample_clock.hour * 60 + sample_clock.minute))
        (minutes_after 1320 390)
scheduled_rule_active-circle_example =
    scheduled_rule_active-circle night sample_clock 1320 390 night_times.0 night_times.1
      night_times.2 (omega arith) (omega arith)

no_profile :
    (profile_limits (profile_for_client sample_net in_order sample_config (codes "10.0.0.7")).1
      ≡ none)
    × (profile_verdict sample_regex sample_config filled
          (query_name (codes "ads.com."))
          (profile_for_client sample_net in_order sample_config (codes "10.0.0.7")).0
          (profile_for_client sample_net in_order sample_config (codes "10.0.0.7")).1
        ≡ none)
    × (scheduled_decision sample_regex sample_config.scheduled_rules sample_clock
          (query_name (codes "ads.com."))
        ≡ none)
unfolding decision_program schedule_program map_program
no_profile = (refl, refl, refl)

block_decision-is_blocked_name_example :
    (block_decision sample_regex sample_net in_order sample_config filled sample_clock
      (codes "ads.com.")
      (codes "10.0.0.7")).0
    ≡ (not (any_rule_matches sample_regex sample_config.allowed (query_name (codes "ads.com.")))
        && is_blocked_name sample_regex filled (query_name (codes "ads.com.")))
block_decision-is_blocked_name_example =
    block_decision-is_blocked_name sample_regex sample_net in_order sample_config filled
      sample_clock (codes "ads.com.") (codes "10.0.0.7") filled-IsValid no_profile.0 no_profile.1
      no_profile.2

abbrev hosts : Str
hosts = codes "# ads\n0.0.0.0 Ads.com\n||track.io^$third-party"

abbrev no_host : Str → Option Str
no_host address = none

hosts_parsed : parse_blocklist no_host hosts ≡ codes "ads.com" ∷ codes "track.io" ∷ []
unfolding blocklist_program rules_program
hosts_parsed = refl

-- The filter of an address becomes a rule for its scheme.
address_parsed : parse_blocklist_line no_host (codes "|http://ads.com^") ≡ codes "http:"
unfolding blocklist_program rules_program
address_parsed = refl

parse_blocklist_line-hostname_example :
    parse_blocklist_line no_host (codes "|http://ads.com^")
    ≡ parse_blocklist_line (λ address. some (codes "ads.com")) (codes "|http://ads.com^")
parse_blocklist_line-hostname_example =
    parse_blocklist_line-hostname no_host (λ address. some (codes "ads.com"))
      (codes "|http://ads.com^")
