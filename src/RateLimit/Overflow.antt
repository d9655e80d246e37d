-- ===== src/RateLimit/Overflow.antt =====
-- Long windows in the nanoseconds of a duration (`rateLimited` in dns_policy.go).
use moreno_dnsleaf.Prelude.{
  ℕ, suc, ◌-◌, ◌*◌, ◌%◌, ◌≤◌, ◌<◌, true, false, List, [], ◌∷◌, ltb, keep, All, ◌≡◌, refl, arith,
}
use moreno_dnsleaf.Prelude.Int.{
  pos, seconds, negated, add_time, second, bits_of, to_int64, two_63, two_64,
}
use moreno_dnsleaf.Prelude.Map.{get}
use moreno_dnsleaf.Prelude.Text.{Str}
use moreno_dnsleaf.Config.{RateLimitConfig}
use moreno_dnsleaf.RateLimit.{Hits, rate_limited, note_hit, hits_of, hits_after, cutoff_of}

cutoff_wraps : (now w : ℕ) → two_63 < suc w * second % two_64 → now < cutoff_of now (pos (suc w))
cutoff_wraps now w h =
    let product : (two_64 - 1 - w % two_64) * second % two_64 ≡ two_64 - suc w * second % two_64 =
      omega arith in
    unfold cutoff_of negated seconds bits_of to_int64 in
    rw product (
      let low : ltb (two_64 - suc w * second % two_64) two_63 ≡ true = ground arith in
      rw low (unfold add_time in omega arith))

keep-none :
    (c now : ℕ) (l : List ℕ) → now ≤ c → All (λ hit. hit ≤ now) l → keep (λ hit. ltb c hit) l ≡ []
keep-none c now [] h a = refl
keep-none c now (x ∷ l) h a = ground (arith, keep-none c now l h a.1)

-- If the window of a limit, in nanoseconds of 64 bits, wraps to a negative duration other than the
-- least one, -2^63, then no query of a client whose earlier hits are not in the future is limited,
-- however many they are.
pub rate_limited-overflow :
    (range : Hits → Hits) (limit : RateLimitConfig) (entries : Hits) (ip : Str) (now w q : ℕ)
    → limit.window ≡ pos (suc w)
    → limit.queries ≡ pos (suc q)
    → two_63 < suc w * second % two_64
    → All (λ hit. hit ≤ now) (hits_of (get ip entries))
    → (rate_limited range limit entries ip now).1 ≡ false
rate_limited-overflow range limit entries ip now w q ew eq over past =
    let late : now ≤ cutoff_of now (pos (suc w)) = omega (arith, cutoff_wraps now w over) in
    unfold rate_limited note_hit hits_after in
    rw (ew, eq, keep-none (cutoff_of now (pos (suc w))) now (hits_of (get ip entries)) late past)
      (ground arith)
