-- ===== src/Tests/Panel.antt =====
-- Requests to the panel on concrete inputs.
use moreno_dnsleaf.Prelude.{Bool, true, false, [], ◌∷◌, Option, none, some, ◌≡◌, refl, ap}
use mathlib.Core.Path.{subst}
use moreno_dnsleaf.Prelude.Map.{Map}
use moreno_dnsleaf.Prelude.Text.{Str, codes, text_program}
use moreno_dnsleaf.Deps.{Urls}
use moreno_dnsleaf.Config.{Config}
use moreno_dnsleaf.Rules.{rules_program}
use moreno_dnsleaf.Blocking.{blocking_program}
use moreno_dnsleaf.Validate.{validate_program}
use moreno_dnsleaf.Validate.Accepted.{IsAcceptable, validate_config-IsAcceptable}
use moreno_dnsleaf.Logs.{Request}
use moreno_dnsleaf.Guard.{Panel, Handler, Outside, issues_of, has_header, config_guard}
use moreno_dnsleaf.Guard.Transaction.{is_passed_on, IsTransaction, config_guard-outcome}
use moreno_dnsleaf.Guard.Runs.{
  IsClone, IsSound, IsOrderly, Reaches, here, then_step, request, Reaches-IsSound,
}
use moreno_dnsleaf.Policy.{post_rule, delete_rule, handle_blocked, handle_regex_rules, PolicyReply}
use moreno_dnsleaf.Policy.Step.{policy_handler, blocked_path, policy_handler-IsOrderly}
use moreno_dnsleaf.Policy.Enforced.{IsEnforced, IsStable, handlers-IsEnforced}
use moreno_dnsleaf.Tests.Samples.{
  sample_config, sample_net, sample_regex, sample_dns, sample_blocking, sample_parts, sample_split,
}

abbrev sample_urls : Urls
sample_urls = record { parse = λ s. none; to_string = λ u. u.host }

abbrev outside : Outside
outside = record {
  net = sample_net;
  dns = sample_dns;
  urls = sample_urls;
  clone = λ cfg. some cfg;
  written = λ cfg. true;
  now = 0;
  time_text = λ t. [];
  message_of = λ issues. [];
}

value_or : Option Config → Config → Config
value_or none other = other
value_or (some cfg) other = cfg

clone-IsClone : IsClone outside.clone
unfolding value_or
clone-IsClone cfg copy e =
    subst (λ c. c ≡ record cfg { client_names = c.client_names; profiles = c.profiles })
      (ap (λ o. value_or o copy) e) refl

-- Two rules are blocked.
abbrev pub panel_config : Config
panel_config = record sample_config { blocked = codes "ads.com" ∷ codes "*.bad.org" ∷ [] }

abbrev pub panel : Panel
panel = record {
  cfg = panel_config;
  stored = panel_config;
  blocking = sample_blocking;
  sessions = [];
  cache = [];
  audit = [];
}

panel_issues : issues_of outside panel_config ≡ []
unfolding validate_program sample_parts sample_split
panel_issues = refl

validate_config-IsAcceptable_example : IsAcceptable sample_net sample_dns sample_urls panel_config
validate_config-IsAcceptable_example =
    validate_config-IsAcceptable sample_net sample_dns sample_urls panel_config panel_issues

abbrev block_request : Request
block_request = record {
  method = codes "POST";
  path = codes "/api/blocked";
  header = codes "1";
  cookie = none;
}

abbrev range : Map Bool → Map Bool
range m = m

abbrev encode : PolicyReply → Str
encode reply = []

abbrev block_evil : Handler
block_evil =
    policy_handler sample_regex sample_net range encode blocked_path block_request
      (some (codes "Evil.com."))

policy_handler-IsOrderly_example : IsOrderly outside block_evil block_request
policy_handler-IsOrderly_example =
    policy_handler-IsOrderly sample_regex sample_net range encode outside blocked_path block_request
      (some (codes "Evil.com.")) refl

one_request : Reaches outside panel (config_guard outside block_evil block_request panel).0
one_request = then_step here (
    request panel block_evil block_request (
      policy_handler-IsOrderly sample_regex sample_net range encode outside blocked_path
        block_request (some (codes "Evil.com.")) refl))

Reaches-IsSound_example : IsSound outside (config_guard outside block_evil block_request panel).0
Reaches-IsSound_example =
    Reaches-IsSound outside clone-IsClone (panel_issues, panel_issues) one_request

guarded : (is_passed_on block_request ≡ false) × (has_header block_request ≡ true)
unfolding text_program
guarded = (refl, refl)

config_guard-outcome_example :
    IsTransaction outside panel_config
      (block_evil panel)
      (config_guard outside block_evil block_request panel)
config_guard-outcome_example =
    config_guard-outcome outside block_evil block_request panel panel_config guarded.0 guarded.1
      refl

abbrev evil : Str
evil = codes "Evil.com."

evil-IsStable : IsStable (post_rule (some evil))
unfolding rules_program
evil-IsStable = refl

panel-IsEnforced : IsEnforced panel
unfolding blocking_program rules_program
panel-IsEnforced = (refl, (refl, tt))

handlers-IsEnforced_example :
    IsEnforced (handle_blocked sample_regex range (post_rule (some evil)) panel).0
    × IsEnforced (handle_regex_rules sample_regex (post_rule (some evil)) panel).0
handlers-IsEnforced_example =
    handlers-IsEnforced sample_regex range (post_rule (some evil)) panel evil-IsStable
      panel-IsEnforced

abbrev posted : Panel
posted = (handle_blocked sample_regex range (post_rule (some evil)) panel).0

abbrev unposted : Panel
unposted = (handle_blocked sample_regex range (delete_rule (some evil)) posted).0
