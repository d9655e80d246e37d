-- ===== src/Cache/Bounds.antt =====
-- The size of the cache, and what a lookup finds after a store (upstream.go).
use moreno_dnsleaf.Prelude.{ℕ, ◌≤◌, ◌<◌, false, length, ◌≡◌, arith}
use moreno_dnsleaf.Prelude.Int.{ℤ, pos, negsuc, pos_part, leb_ℤ, seconds, add_time}
use moreno_dnsleaf.Prelude.Map.{Map, IsRange, length-delete_first, length-put-le}
use moreno_dnsleaf.Prelude.Text.{Str}
use moreno_dnsleaf.Config.{Config}
use moreno_dnsleaf.Messages.{Msg}
use moreno_dnsleaf.Cache.{CacheEntry, make_room, set_cache, message_cache_ttl}

module _ (range : Map CacheEntry → Map CacheEntry) where
  length-make_room-lt :
      (size : ℤ) (cache : Map CacheEntry)
      → IsRange range
      → leb_ℤ size (pos 0) ≡ false
      → length cache ≤ pos_part size
      → length (make_room range size cache) < pos_part size
  unfolding make_room
  length-make_room-lt (pos n) cache r p h = ground (arith, length-delete_first range cache r)
  length-make_room-lt (negsuc n) cache r p h = ground arith

  -- A cache within its configured size stays within it: a full cache loses an entry before it
  -- gains one.
  pub length-set_cache-le :
      (cfg : Config) (cache : Map CacheEntry) (key : Str) (msg : Msg) (now : ℕ)
      → IsRange range
      → length cache ≤ pos_part cfg.cache_size
      → length (set_cache range cfg cache key msg now) ≤ pos_part cfg.cache_size
  length-set_cache-le cfg cache key msg now r h =
      unfold set_cache in
      ground (
        arith,
        length-make_room-lt cfg.cache_size cache r,
        length-put-le key
            (record {
              msg = msg;
              stored_at = now;
              expires_at = add_time now (message_cache_ttl msg (seconds cfg.cache_ttl));
            })
            (make_room range cfg.cache_size cache),
      )
