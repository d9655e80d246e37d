-- ===== src/Tests/Queries.antt =====
-- Queries to the resolver on concrete inputs.
use moreno_dnsleaf.Prelude.{◌*◌, true, false, [], none, some, if◌then◌else◌, ◌≡◌, refl, any}
use moreno_dnsleaf.Prelude.Map.{map_program}
use moreno_dnsleaf.Prelude.Int.{second, int_program}
use moreno_dnsleaf.Prelude.Text.{Str, codes, str_eq, text_program}
use moreno_dnsleaf.Messages.{Msg, rcode_server_failure}
use moreno_dnsleaf.Addresses.{addresses_program}
use moreno_dnsleaf.Schedule.{schedule_program}
use moreno_dnsleaf.Gravity.{gravity_program}
use moreno_dnsleaf.Blocking.{blocking_program}
use moreno_dnsleaf.Decision.{block_decision, decision_program}
use moreno_dnsleaf.RateLimit.{rate_program}
use moreno_dnsleaf.Upstream.{
  Exchange, forward, targets_for, query_for, valid_upstream_response, upstream_program,
}
use moreno_dnsleaf.Upstream.Forward.{answers_well, IsShuffle, forward-valid, forward-failure}
use moreno_dnsleaf.Answers.{answer_blocked, answers_program}
use moreno_dnsleaf.Resolver.{
  World, Rules, Times, Query, State, resolve_dns, resolve_query, resolver_program,
}
use moreno_dnsleaf.Resolver.Stages.{resolve_dns-id}
use moreno_dnsleaf.Resolver.Books.{IsBooked, resolve_query-IsBooked}
use moreno_dnsleaf.Resolver.Screen.{is_relayed, answer_blocked-resolve_query}
use moreno_dnsleaf.Resolver.Refused.{
  IsHeld, elsewhere, other_rules, other_state, resolve_query-IsHeld,
}
use moreno_dnsleaf.Cache.{cache_program}
use moreno_dnsleaf.Clients.{clients_program}
use moreno_dnsleaf.Tests.Samples.{
  sample_config, sample_net, sample_regex, sample_dns, sample_dns-IsDns, sample_blocking,
  sample_clock, query_of, answer_to, ask_for,
}
use moreno_dnsleaf.Tests.Ranges.{in_order}

-- The first upstream answers another query, the second one the query.
abbrev upstreams : Exchange
upstreams = record {
  udp = λ query addr.
      if str_eq addr (codes "1.1.1.1:53")
      then some
          (answer_to (query_of 99 (codes "other.org.")) (codes "other.org.") 30 (codes "1.6.6.6"))
      else some (answer_to query (codes "leaf.org.") 30 (codes "1.2.3.4"));
  tcp = λ query addr. none;
  with_endpoint = λ e query. none;
  route_of = λ e. none;
  shuffle = λ ts. ts;
}

-- No upstream answers.
abbrev silence : Exchange
silence = record upstreams { udp = λ query addr. none }

kept : IsShuffle (λ ts. ts)
kept p ts = refl

abbrev leaf : Msg
leaf = query_of 7 (codes "leaf.org.")

one_answers :
    (any
        (answers_well upstreams (query_for upstreams sample_dns sample_config leaf))
        (targets_for sample_config [] leaf)
      ≡ true)
    × (any
          (answers_well silence (query_for silence sample_dns sample_config leaf))
          (targets_for sample_config [] leaf)
        ≡ false)
unfolding upstream_program map_program text_program
one_answers = (refl, refl)

forward-valid_example :
    valid_upstream_response
      (query_for upstreams sample_dns sample_config leaf)
      (some (forward upstreams sample_dns sample_config [] leaf))
    ≡ true
forward-valid_example = forward-valid upstreams sample_dns sample_config [] leaf kept one_answers.0

forward-failure_example :
    forward silence sample_dns sample_config [] leaf
    ≡ sample_dns.set_rcode leaf rcode_server_failure
forward-failure_example =
    forward-failure silence sample_dns sample_config [] leaf kept one_answers.1

abbrev world : World
world = record {
  dns = sample_dns;
  net = sample_net;
  re = sample_regex;
  exchange = upstreams;
  scan_port = λ s. none;
  random_troll_ip = λ t. none;
  range_hits = in_order;
  range_clients = in_order;
  range_cache = in_order;
  range_names = in_order;
}

abbrev rules : Rules
rules = record { cfg = sample_config; blocking = sample_blocking; unhealthy = [] }

abbrev times : Times
times = record {
  limited = 1000 * second;
  read = 1000 * second;
  tracked = 1000 * second;
  noted = 1000 * second;
  stored = 1001 * second;
  local = sample_clock;
}

abbrev fresh : State
fresh = record {
  stats = record { queries = 0; blocked = 0; local = 0; cached = 0; forwarded = 0 };
  clients = [];
  cache = [];
  rate_hits = [];
  anomaly_hits = [];
  log = [];
}

abbrev asked : Str → Query
asked name = record { msg = query_of 7 name; question = ask_for name; client = codes "10.0.0.7" }

resolve_dns-id_example :
    (resolve_dns world rules times fresh (some leaf) (codes "10.0.0.7")).1.id ≡ 7
resolve_dns-id_example =
    resolve_dns-id world sample_dns-IsDns rules times fresh leaf (codes "10.0.0.7")

resolve_query-IsBooked_example :
    IsBooked fresh (resolve_query world rules times (asked (codes "leaf.org.")) fresh).0
resolve_query-IsBooked_example =
    resolve_query-IsBooked world rules times (asked (codes "leaf.org.")) fresh

-- Every upstream answers with an address that is not blocked.
abbrev open_world : World
open_world = record world {
  exchange = record upstreams {
    udp = λ query addr. some (answer_to query (codes "leaf.org.") 30 (codes "1.6.6.6"));
  };
}

leaf_is_relayed :
    is_relayed (resolve_query open_world rules times (asked (codes "leaf.org.")) fresh).0.log ≡ true
unfolding text_program map_program int_program addresses_program schedule_program gravity_program
    blocking_program decision_program rate_program answers_program cache_program upstream_program
    clients_program resolver_program
leaf_is_relayed = refl

answer_blocked-resolve_query_example :
    answer_blocked sample_dns sample_net sample_config
      (resolve_query open_world rules times (asked (codes "leaf.org.")) fresh).1
    ≡ false
answer_blocked-resolve_query_example =
    answer_blocked-resolve_query open_world rules times (asked (codes "leaf.org.")) fresh refl
      leaf_is_relayed

abbrev ads : Query
ads = asked (codes "ads.com.")

ads_is_blocked :
    block_decision sample_regex sample_net in_order sample_config sample_blocking sample_clock
      (codes "ads.com.")
      (codes "10.0.0.7")
    ≡ (true, codes "manual")
unfolding text_program map_program int_program addresses_program schedule_program gravity_program
    blocking_program decision_program
ads_is_blocked = refl

resolve_query-IsHeld_example :
    IsHeld world rules times ads (codes "manual") fresh (resolve_query world rules times ads fresh)
    × ((resolve_query world rules times ads fresh).1
        ≡ (resolve_query
            (elsewhere world silence)
            (other_rules rules [])
            times
            ads
            (other_state fresh [])).1)
resolve_query-IsHeld_example =
    resolve_query-IsHeld world rules times ads silence [] [] (codes "manual") fresh refl
      ads_is_blocked
