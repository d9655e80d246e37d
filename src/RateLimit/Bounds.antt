-- ===== src/RateLimit/Bounds.antt =====
-- The size of the tables of hits (dns_policy.go).
use moreno_dnsleaf.Prelude.{
  ℕ, ◌≤◌, ◌<◌, [], ◌∷◌, none, some, length, arith, is_some, Option-cases, inl, inr, ap,
}
use moreno_dnsleaf.Prelude.Map.{
  get, delete, IsRange, length-delete_first, length-put-le, length-delete-le, length-put_of_get,
}
use moreno_dnsleaf.Prelude.Text.{Str}
use moreno_dnsleaf.Config.{RateLimitConfig}
use moreno_dnsleaf.RateLimit.{
  Hits, cap_loop, cap_time_hit_map, room_for, note_hit, rate_limited, max_rate_entries, hits_of,
  hits_after, cutoff_of,
}

length-cap_loop-le :
    (order entries : Hits) (cutoff max : ℕ)
    → length (cap_loop order entries cutoff max) ≤ length entries
unfolding cap_loop
length-cap_loop-le [] entries cutoff max = omega arith
length-cap_loop-le ((key, hits) ∷ order) entries cutoff max = ground (
  arith,
  length-delete-le key entries,
  length-cap_loop-le order (delete key entries) cutoff max,
  length-cap_loop-le order entries cutoff max,
)

module _ (range : Hits → Hits) (r : IsRange range) where
  length-cap_time_hit_map-lt :
      (entries : Hits) (cutoff max : ℕ)
      → 0 < max
      → length entries ≤ max
      → length (cap_time_hit_map range entries cutoff max) < max
  length-cap_time_hit_map-lt entries cutoff max p h =
      let capped = cap_loop (range entries) entries cutoff max in
      unfold cap_time_hit_map in
      ground (
        arith,
        length-cap_loop-le (range entries) entries cutoff max,
        length-delete_first range capped r,
      )

  length-note_hit-le :
      (entries : Hits) (key : Str) (cutoff now max : ℕ)
      → 0 < max
      → length entries ≤ max
      → length (note_hit range entries key cutoff now max).0 ≤ max
  unfolding note_hit room_for
  length-note_hit-le entries key cutoff now max p h = elim (Option-cases (get key entries)) [
    | inl e ↦
        rw (e, room_for)
          (omega (
            arith,
            length-cap_time_hit_map-lt entries cutoff max p h,
            length-put-le key (hits_after cutoff now (hits_of none))
                (cap_time_hit_map range entries cutoff max),
          ))
    | inr (hits, e) ↦
        rw (e, room_for)
          (omega (
            arith,
            length-put_of_get key (hits_after cutoff now (hits_of (some hits))) entries
                (ap is_some e),
          ))
  ]

  -- A table of at most 10000 clients has at most 10000 after any query.
  pub length-rate_limited-le :
      (limit : RateLimitConfig) (entries : Hits) (ip : Str) (now : ℕ)
      → length entries ≤ max_rate_entries
      → length (rate_limited range limit entries ip now).0 ≤ max_rate_entries
  unfolding rate_limited
  length-rate_limited-le limit entries ip now h = ground (
    arith,
    length-note_hit-le entries ip (cutoff_of now limit.window) now max_rate_entries (omega arith) h,
  )
