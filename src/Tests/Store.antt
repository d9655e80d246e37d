-- ===== src/Tests/Store.antt =====
-- The cache, the rate limit, the clients and the upstreams on concrete inputs.
use moreno_dnsleaf.Prelude.{
  ℕ, ◌+◌, ◌-◌, ◌*◌, ◌/◌, ◌≤◌, ◌<◌, false, List, [], ◌∷◌, Option, none, some, ◌≡◌, refl, ap, arith,
  length, All, ltb,
}
use moreno_dnsleaf.Prelude.Map.{Map, get, map_program}
use moreno_dnsleaf.Prelude.Int.{pos, pos_part, second, int_program}
use moreno_dnsleaf.Prelude.Text.{codes, str_eq, is_empty, text_program}
use moreno_dnsleaf.Config.{RateLimitConfig}
use moreno_dnsleaf.Messages.{Msg, is_opt}
use moreno_dnsleaf.Cache.{
  CacheEntry, message_cache_ttl, decrement_message_ttl, get_cached, set_cache, max_ttl,
  cache_program,
}
use moreno_dnsleaf.Cache.Ttl.{records, message_cache_ttl_bounds}
use moreno_dnsleaf.Cache.Bounds.{length-set_cache-le}
use moreno_dnsleaf.Cache.Fresh.{AreFresh, set_cache-AreFresh, get_cached-fresh}
use moreno_dnsleaf.RateLimit.{Hits, rate_limited, hits_of, rate_program}
use moreno_dnsleaf.RateLimit.Window.{
  IsOn, Query, NeverFull, run_queries, asked_after, rate_limited-history,
}
use moreno_dnsleaf.RateLimit.Overflow.{rate_limited-overflow}
use moreno_dnsleaf.Clients.{ClientState}
use moreno_dnsleaf.Upstream.{Health, probe_round}
use moreno_dnsleaf.Upstream.Monitor.{IsConsistent, probe_round-IsConsistent}
use moreno_dnsleaf.Tests.Samples.{sample_config, sample_limit, query_of, answer_to}
use moreno_dnsleaf.Tests.Ranges.{in_order, in_order-IsRange}

abbrev answer : Msg
answer = answer_to (query_of 7 (codes "leaf.org.")) (codes "leaf.org.") 30 (codes "1.1.1.9")

answer_ttl : message_cache_ttl answer (pos (60 * second)) ≡ pos (30 * second)
unfolding cache_program int_program
answer_ttl = refl

message_cache_ttl_bounds_example :
    (30 * second ≤ pos_part (pos (60 * second)))
    × (30 * second ≤ max_ttl * second)
    × All (λ rr. is_opt rr.body ≡ false → 30 * second ≤ rr.hdr.ttl * second) (records answer)
message_cache_ttl_bounds_example =
    message_cache_ttl_bounds answer (pos (60 * second)) (30 * second) answer_ttl (omega arith)

abbrev store_time : ℕ
store_time = 1000 * second

abbrev filled : Map CacheEntry
filled = set_cache in_order sample_config [] (codes "leaf.org.:1:1") answer store_time

length-set_cache-le_example : length filled ≤ pos_part sample_config.cache_size
length-set_cache-le_example =
    length-set_cache-le in_order sample_config [] (codes "leaf.org.:1:1") answer store_time
      in_order-IsRange (omega arith)

empty-AreFresh : AreFresh []
unfolding get
empty-AreFresh k e g = ground (arith, g)

filled-AreFresh : AreFresh filled
filled-AreFresh =
    set_cache-AreFresh in_order sample_config [] (codes "leaf.org.:1:1") answer store_time
      empty-AreFresh

abbrev hit_time : ℕ
hit_time = store_time + 12 * second

abbrev stored_of : Option CacheEntry → ℕ
stored_of none = 0
stored_of (some e) = e.stored_at

filled_past :
    (e : CacheEntry) → get (codes "leaf.org.:1:1") filled ≡ some e → e.stored_at ≤ hit_time
unfolding cache_program map_program int_program text_program
filled_past e g = let stored : store_time ≡ e.stored_at = ap stored_of g in omega (arith, stored)

filled_hit :
    (get_cached sample_config filled (codes "leaf.org.:1:1") hit_time).1
    ≡ some (answer_to (query_of 7 (codes "leaf.org.")) (codes "leaf.org.") 18 (codes "1.1.1.9"))
unfolding cache_program map_program int_program text_program
filled_hit = refl

get_cached-fresh_example :
    (e : CacheEntry) × (get (codes "leaf.org.:1:1") filled ≡ some e)
    × (hit_time < e.expires_at)
    × (answer_to (query_of 7 (codes "leaf.org.")) (codes "leaf.org.") 18 (codes "1.1.1.9")
        ≡ decrement_message_ttl e.msg ((hit_time - e.stored_at) / second))
    × All
        (λ rr. is_opt rr.body ≡ false → 0 < rr.hdr.ttl)
        (records
          (answer_to (query_of 7 (codes "leaf.org.")) (codes "leaf.org.") 18 (codes "1.1.1.9")))
get_cached-fresh_example =
    get_cached-fresh sample_config filled (codes "leaf.org.:1:1") hit_time _ filled-AreFresh
      filled_past filled_hit

abbrev limit_on : IsOn sample_limit
limit_on = record {
  window = 9;
  queries = 1;
  enabled = refl;
  window_is = refl;
  queries_is = refl;
  fits = omega arith;
}

abbrev history : List Query
history =
    (codes "10.0.0.7", store_time)
    ∷ (codes "10.0.0.8", store_time + second)
    ∷ (codes "10.0.0.7", store_time + 2 * second)
    ∷ []

client_named : is_empty (codes "10.0.0.7") ≡ false
unfolding text_program
client_named = refl

history-NeverFull : NeverFull in_order sample_limit [] history
unfolding rate_program map_program text_program int_program
history-NeverFull = (omega arith, (omega arith, (omega arith, omega arith)))

rate_limited-history_example :
    (rate_limited in_order sample_limit
      (run_queries in_order sample_limit [] history)
      (codes "10.0.0.7")
      (store_time + 3 * second)).1
    ≡ ltb 2 (
        length (asked_after (codes "10.0.0.7") (store_time + 3 * second - 10 * second) history) + 1)
rate_limited-history_example =
    rate_limited-history in_order sample_limit limit_on history (codes "10.0.0.7")
      (store_time + 3 * second) (omega arith, (omega arith, (omega arith, tt))) (omega arith)
      history-NeverFull client_named

-- A window of 10000000000 s, which is accepted.
abbrev long_limit : RateLimitConfig
long_limit = record sample_limit { window = pos 10000000000 }

-- More hits than the limit allows.
abbrev busy : Hits
busy = (codes "10.0.0.7", store_time ∷ store_time ∷ store_time ∷ store_time ∷ []) ∷ []

busy_past : All (λ hit. hit ≤ store_time) (hits_of (get (codes "10.0.0.7") busy))
unfolding rate_program map_program text_program
busy_past = (omega arith, (omega arith, (omega arith, (omega arith, tt))))

rate_limited-overflow_example :
    (rate_limited in_order long_limit busy (codes "10.0.0.7") store_time).1 ≡ false
rate_limited-overflow_example =
    rate_limited-overflow in_order long_limit busy (codes "10.0.0.7") store_time 9999999999 1 refl
      refl (omega arith) busy_past

no_client : get {V = ClientState} [] [] ≡ none
unfolding get
no_client = refl

abbrev no_probes : Health
no_probes = record { failures = []; unhealthy = [] }

no_probes-IsConsistent : IsConsistent 3 no_probes
unfolding get
no_probes-IsConsistent k = refl

probe_round-IsConsistent_example : IsConsistent 3 (
    probe_round
      (pos 3)
      (str_eq (codes "1.1.1.1:53"))
      (codes "1.1.1.1:53" ∷ codes "1.0.0.1:53" ∷ [])
      no_probes)
probe_round-IsConsistent_example =
    probe_round-IsConsistent 3 (str_eq (codes "1.1.1.1:53"))
      (codes "1.1.1.1:53" ∷ codes "1.0.0.1:53" ∷ []) no_probes (omega arith) no_probes-IsConsistent
