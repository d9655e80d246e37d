-- ===== src/Cache/Fresh.antt =====
-- The age of what the cache holds and gives (upstream.go). Readings of the clock do not go back.
use moreno_dnsleaf.Prelude.{
  ℕ, ◌+◌, ◌-◌, ◌*◌, ◌/◌, ◌%◌, ◌≤◌, ◌<◌, false, List, [], ◌∷◌, ◌++◌, Option, none, some, ltb, length,
  All, ◌≡◌, ◌⊎◌, refl, arith, Bool-cases, inl, inr, map, ap, ◌==◌, ltb→lt,
}
use moreno_dnsleaf.Prelude.Int.{ℤ, pos, negsuc, leb_ℤ, seconds, add_time, second}
use moreno_dnsleaf.Prelude.Map.{Map, get, put, delete, delete_first, get-put, get-delete}
use moreno_dnsleaf.Prelude.Text.{Str, str_eq}
use moreno_dnsleaf.Config.{Config}
use moreno_dnsleaf.Messages.{Msg, Rr, is_opt}
use moreno_dnsleaf.Cache.{
  CacheEntry, make_room, set_cache, message_cache_ttl, get_cached, read_entry,
  decrement_message_ttl, decrement_ttl, two_32, max_ttl,
}
use moreno_dnsleaf.Cache.Ttl.{message_cache_ttl_bounds, records}

-- The entry expires before any of its records other than OPT does.
pub record IsFresh (e : CacheEntry) : Type 0 where
  pub span : e.expires_at ≤ e.stored_at + max_ttl * second
  pub lives :
      All
        (λ rr. is_opt rr.body ≡ false → e.expires_at ≤ e.stored_at + rr.hdr.ttl * second)
        (records e.msg)

abbrev pub AreFresh : Map CacheEntry → Type 0
AreFresh cache = (k : Str) (e : CacheEntry) → get k cache ≡ some e → IsFresh e

delete-AreFresh : (k : Str) (cache : Map CacheEntry) → AreFresh cache → AreFresh (delete k cache)
delete-AreFresh k cache h j e g = h j e (ground (arith, get-delete k j cache))

delete_first-AreFresh :
    (order cache : Map CacheEntry) → AreFresh cache → AreFresh (delete_first order cache)
unfolding delete_first
delete_first-AreFresh [] cache h = h
delete_first-AreFresh ((k, v) ∷ rest) cache h = delete-AreFresh k cache h

make_room-AreFresh :
    (range : Map CacheEntry → Map CacheEntry) (size : ℤ) (cache : Map CacheEntry)
    → AreFresh cache
    → AreFresh (make_room range size cache)
unfolding make_room
make_room-AreFresh range size cache h = elim (Bool-cases (leb_ℤ size (pos (length cache)))) [
  | inl full ↦ rw full (delete_first-AreFresh (range cache) cache h)
  | inr free ↦ rw free h
]

lives_of :
    (now d : ℕ) (l : List Rr)
    → All (λ rr. is_opt rr.body ≡ false → d ≤ rr.hdr.ttl * second) l
    → All (λ rr. is_opt rr.body ≡ false → now + d ≤ now + rr.hdr.ttl * second) l
lives_of now d [] h = tt
lives_of now d (rr ∷ l) h = ((λ o. omega (arith, h.0 o)), lives_of now d l h.1)

put-AreFresh :
    (cache : Map CacheEntry) (key : Str) (e : CacheEntry)
    → AreFresh cache
    → IsFresh e
    → AreFresh (put key e cache)
put-AreFresh cache key e h f j e' g = elim (Bool-cases (str_eq key j)) [
  | inl same ↦ let eq : e ≡ e' = ground (arith, get-put key j e cache) in rw (← eq) f
  | inr other ↦ h j e' (ground (arith, get-put key j e cache))
]

new_entry-IsFresh :
    (msg : Msg) (now : ℕ) (configured ttl : ℤ)
    → message_cache_ttl msg configured ≡ ttl
    → leb_ℤ ttl (pos 0) ≡ false
    → IsFresh (record { msg = msg; stored_at = now; expires_at = add_time now ttl })
new_entry-IsFresh msg now configured (negsuc n) e h = absurd (ground arith)
new_entry-IsFresh msg now configured (pos d) e h =
    let (below, cap, all) = message_cache_ttl_bounds msg configured d e (ground arith) in
    unfold add_time in record { span = omega arith; lives = lives_of now d (records msg) all }

-- What a store leaves behind.
set_cache-cases :
    (range : Map CacheEntry → Map CacheEntry) (cfg : Config) (cache : Map CacheEntry) (key : Str)
    (msg : Msg) (now : ℕ) (ttl : ℤ)
    → message_cache_ttl msg (seconds cfg.cache_ttl) ≡ ttl
    → (set_cache range cfg cache key msg now ≡ cache)
      ⊎ (set_cache range cfg cache key msg now ≡ make_room range cfg.cache_size cache)
      ⊎ ((leb_ℤ ttl (pos 0) ≡ false)
          × (set_cache range cfg cache key msg now
              ≡ put key
                  (record { msg = msg; stored_at = now; expires_at = add_time now ttl })
                  (make_room range cfg.cache_size cache)))
unfolding set_cache
set_cache-cases range cfg cache key msg now ttl e = ground arith

-- If no entry of the cache outlives a record of its message, none does after a store.
pub set_cache-AreFresh :
    (range : Map CacheEntry → Map CacheEntry) (cfg : Config) (cache : Map CacheEntry) (key : Str)
    (msg : Msg) (now : ℕ)
    → AreFresh cache
    → AreFresh (set_cache range cfg cache key msg now)
set_cache-AreFresh range cfg cache key msg now h =
    let room = make_room-AreFresh range cfg.cache_size cache h in
    elim (set_cache-cases range cfg cache key msg now _ refl) [
      | inl e ↦ rw e h
      | inr (inl e) ↦ rw e room
      | inr (inr (positive, e)) ↦
          rw e (put-AreFresh _ key _ room (new_entry-IsFresh msg now _ _ refl positive))
    ]

elapsed_lt :
    (now stored expires ttl : ℕ)
    → stored ≤ now
    → now < expires
    → expires ≤ stored + ttl * second
    → (now - stored) / second < ttl
elapsed_lt now stored expires ttl h k l = omega arith

map-append : (f : Rr → Rr) (xs ys : List Rr) → map f (xs ++ ys) ≡ map f xs ++ map f ys
map-append f [] ys = refl
map-append f (x ∷ xs) ys = ap (◌∷◌ (f x)) (map-append f xs ys)

abbrev Positive : List Rr → Type 0
Positive = All (λ rr. is_opt rr.body ≡ false → 0 < rr.hdr.ttl)

decrement_ttl-Positive :
    (e : CacheEntry) (now : ℕ) (l : List Rr)
    → e.stored_at ≤ now
    → now < e.expires_at
    → All (λ rr. is_opt rr.body ≡ false → e.expires_at ≤ e.stored_at + rr.hdr.ttl * second) l
    → Positive (map (decrement_ttl ((now - e.stored_at) / second)) l) × Positive l
unfolding decrement_ttl
decrement_ttl-Positive e now [] s h k = (tt, tt)
decrement_ttl-Positive e now (rr ∷ l) s h k =
    let rest = decrement_ttl-Positive e now l s h k.1 in
    (
      (
        (λ o.
            let lt = elapsed_lt now e.stored_at e.expires_at rr.hdr.ttl s h (k.0 o) in
            ground arith),
        rest.0,
      ),
      (
        (λ o.
            let lt = elapsed_lt now e.stored_at e.expires_at rr.hdr.ttl s h (k.0 o) in omega arith),
        rest.1,
      ),
    )

records-decrement_message_ttl :
    (msg : Msg) (n : ℕ)
    → (records (decrement_message_ttl msg n) ≡ map (decrement_ttl n) (records msg))
      ⊎ (records (decrement_message_ttl msg n) ≡ records msg)
records-decrement_message_ttl msg n = elim (Bool-cases (n == 0)) [
  | inl zero_seconds ↦ inr (unfold decrement_message_ttl in rw zero_seconds)
  | inr some_seconds ↦ inl (
      unfold decrement_message_ttl in
      rw (
        some_seconds,
        map-append (decrement_ttl n) msg.answer (msg.ns ++ msg.extra),
        map-append (decrement_ttl n) msg.ns msg.extra,
      ))
]

decrement_message_ttl-Positive :
    (e : CacheEntry) (now : ℕ)
    → IsFresh e
    → e.stored_at ≤ now
    → now < e.expires_at
    → Positive (records (decrement_message_ttl e.msg ((now - e.stored_at) / second)))
decrement_message_ttl-Positive e now f s h =
    let both = decrement_ttl-Positive e now (records e.msg) s h f.lives in
    elim (records-decrement_message_ttl e.msg ((now - e.stored_at) / second)) [
      | inl eq ↦ rw eq (both.0)
      | inr eq ↦ rw eq (both.1)
    ]

read_entry-hit :
    (cache : Map CacheEntry) (key : Str) (now : ℕ) (o : Option CacheEntry) (m : Msg)
    → (read_entry cache key now o).1 ≡ some m
    → (e : CacheEntry) × (o ≡ some e)
      × (now < e.expires_at)
      × (m ≡ decrement_message_ttl e.msg ((now - e.stored_at) / second % two_32))
unfolding read_entry
read_entry-hit cache key now none m h = absurd (ground arith)
read_entry-hit cache key now (some e) m h = elim (Bool-cases (ltb now e.expires_at)) [
  | inl alive ↦ (e, refl, ltb→lt _ _ alive, ground arith)
  | inr dead ↦ absurd (cc (rw dead at h))
]

-- In a cache where no entry outlives a record of its message or is stored in the future, a hit is
-- an entry that has not expired, with every TTL lowered by the whole seconds since it was stored,
-- and the TTL of each of its records other than OPT is still positive.
pub get_cached-fresh :
    (cfg : Config) (cache : Map CacheEntry) (key : Str) (now : ℕ) (m : Msg)
    → AreFresh cache
    → ((e : CacheEntry) → get key cache ≡ some e → e.stored_at ≤ now)
    → (get_cached cfg cache key now).1 ≡ some m
    → (e : CacheEntry) × (get key cache ≡ some e)
      × (now < e.expires_at)
      × (m ≡ decrement_message_ttl e.msg ((now - e.stored_at) / second))
      × All (λ rr. is_opt rr.body ≡ false → 0 < rr.hdr.ttl) (records m)
get_cached-fresh cfg cache key now m fresh past h =
    let (e, there, alive, same) =
      read_entry-hit cache key now (get key cache) m (unfold get_cached in ground arith) in
    let f = fresh key e there in
    let no_wrap : (now - e.stored_at) / second % two_32 ≡ (now - e.stored_at) / second =
      omega (arith, f.span, past e there) in
    let eq : m ≡ decrement_message_ttl e.msg ((now - e.stored_at) / second) = rw no_wrap at same in
    (e, there, alive, eq, rw eq (decrement_message_ttl-Positive e now f (past e there) alive))
