-- ===== src/RateLimit.antt =====
-- The sliding windows of dns_policy.go: `capTimeHitMap`, `rateLimited` and `noteAnomaly`. A client
-- with no hits is a missing key: the program never stores an empty slice.
pub mod Bounds
pub mod Window
pub mod Overflow
use moreno_dnsleaf.Prelude.{
  ℕ, zero, suc, ◌+◌, ◌-◌, Bool, true, false, not, ◌&&◌, ◌||◌, List, [], ◌∷◌, ◌++◌, Option, none,
  some, if◌then◌else◌, ltb, leb, ◌==◌, length, keep,
}
use moreno_dnsleaf.Prelude.Int.{ℤ, pos, leb_ℤ, ltb_ℤ, seconds, add_time, negated, second}
use moreno_dnsleaf.Prelude.Map.{Map, get, put, delete, delete_first}
use moreno_dnsleaf.Prelude.Text.{Str, is_empty, to_lower, trim_suffix, codes}
use moreno_dnsleaf.Config.{RateLimitConfig, AnomalyConfig}

abbrev pub Hits : Type 0
Hits = Map (List ℕ)

abbrev pub max_rate_entries : ℕ
max_rate_entries = 10000

abbrev pub max_anomaly_entries : ℕ
max_anomaly_entries = 10000

-- No hits, or the last one before the cutoff.
unfoldable pub is_stale : ℕ → List ℕ → Bool
is_stale cutoff [] = true
is_stale cutoff (hit ∷ []) = ltb hit cutoff
is_stale cutoff (hit ∷ next ∷ hits) = is_stale cutoff (next ∷ hits)

-- The loop of `capTimeHitMap` over the keys in the order of `range`.
unfoldable pub cap_loop : Hits → Hits → ℕ → ℕ → Hits
cap_loop [] entries cutoff max = entries
cap_loop ((key, hits) ∷ order) entries cutoff max =
    let fewer = delete key entries in
    let go_on = cap_loop order fewer cutoff max in
    let skip = cap_loop order entries cutoff max in
    if not (is_stale cutoff hits) then skip else if ltb (length fewer) max then fewer else go_on

unfoldable pub cap_time_hit_map : (Hits → Hits) → Hits → ℕ → ℕ → Hits
cap_time_hit_map range entries cutoff max =
    let capped = cap_loop (range entries) entries cutoff max in
    if ltb (length entries) max
    then entries
    else if ltb (length capped) max
    then capped
    else delete_first (range capped) capped

-- Room for the key, if it is new.
unfoldable pub room_for : (Hits → Hits) → Hits → ℕ → ℕ → Option (List ℕ) → Hits
room_for range entries cutoff max none = cap_time_hit_map range entries cutoff max
room_for range entries cutoff max (some hits) = entries

unfoldable pub hits_of : Option (List ℕ) → List ℕ
hits_of none = []
hits_of (some hits) = hits

-- The hits of a key after one more, those that are not after the cutoff left out.
unfoldable pub hits_after : ℕ → ℕ → List ℕ → List ℕ
hits_after cutoff now hits = keep (λ hit. ltb cutoff hit) hits ++ now ∷ []

-- The common part of both functions: the new table and the number of hits of the key.
unfoldable pub note_hit : (Hits → Hits) → Hits → Str → ℕ → ℕ → ℕ → Hits × ℕ
note_hit range entries key cutoff now max =
    let hits = hits_after cutoff now (hits_of (get key entries)) in
    (put key hits (room_for range entries cutoff max (get key entries)), length hits)

-- `now.Add(-time.Duration(window) * time.Second)`
unfoldable pub cutoff_of : ℕ → ℤ → ℕ
cutoff_of now window = add_time now (seconds (negated window))

unfoldable pub rate_limited : (Hits → Hits) → RateLimitConfig → Hits → Str → ℕ → Hits × Bool
rate_limited range limit entries ip now =
    if not limit.enabled || leb_ℤ limit.queries (pos 0) || leb_ℤ limit.window (pos 0) || is_empty ip
    then (entries, false)
    else let (table, count) =
        note_hit range entries ip (cutoff_of now limit.window) now max_rate_entries in
      (table, ltb_ℤ limit.queries (pos count))

-- `noteAnomaly`, and whether it warns.
unfoldable pub note_anomaly : (Hits → Hits) → AnomalyConfig → Hits → Str → ℕ → Hits × Bool
note_anomaly range anomaly entries qname now =
    if not anomaly.enabled || leb_ℤ anomaly.hits (pos 0) || leb_ℤ anomaly.window (pos 0)
    then (entries, false)
    else let name = to_lower (trim_suffix (codes ".") qname) in
      let (table, count) =
        note_hit range entries name (cutoff_of now anomaly.window) now max_anomaly_entries in
      (table, not (ltb_ℤ anomaly.hits (pos count)) && not (ltb_ℤ (pos count) anomaly.hits))

-- For tests: all that a run of these functions computes with.
unfoldable pub rate_program : Unit {0}
unfolding is_stale cap_loop cap_time_hit_map room_for hits_of hits_after note_hit cutoff_of
    rate_limited note_anomaly
rate_program = tt
