-- ===== src/Cache.antt =====
-- The response cache of upstream.go: `getCached`, `setCache`, `clearCache`, `messageCacheTTL` and
-- `decrementMessageTTL`. A time is in nanoseconds since Go's zero time, a TTL in seconds.
pub mod Ttl
pub mod Bounds
pub mod Fresh
use moreno_dnsleaf.Prelude.{
  ℕ, zero, suc, ◌+◌, ◌-◌, ◌*◌, ◌/◌, ◌%◌, ◌^◌, Bool, true, false, not, ◌&&◌, ◌||◌, List, [], ◌∷◌,
  ◌++◌, Option, none, some, if◌then◌else◌, ltb, leb, ◌==◌, length, map,
}
use moreno_dnsleaf.Prelude.Int.{ℤ, pos, leb_ℤ, ltb_ℤ, seconds, add_time, second}
use moreno_dnsleaf.Prelude.Map.{Map, get, put, delete, delete_first}
use moreno_dnsleaf.Prelude.Text.{Str}
use moreno_dnsleaf.Config.{Config}
use moreno_dnsleaf.Messages.{
  Header, Rr, Rdata, soa, opt, Msg, is_opt, rcode_name_error, rcode_success,
}

-- The variables of the loop of `messageCacheTTL`; `soa_minimum` is that of the last SOA.
pub record Scan : Type 0 where
  pub min_ttl : ℕ
  pub found : Bool
  pub soa_minimum : Option ℕ

abbrev pub max_ttl : ℕ
max_ttl = 4294967295

abbrev soa_after : Rdata → Option ℕ → Option ℕ
soa_after (soa minimum) old = some minimum
soa_after _ old = old

unfoldable pub scan_record : Scan → Rr → Scan
scan_record s rr = if is_opt rr.body then s else record {
  min_ttl = if ltb rr.hdr.ttl s.min_ttl then rr.hdr.ttl else s.min_ttl;
  found = true;
  soa_minimum = soa_after rr.body s.soa_minimum;
}

-- A record with TTL 0 ends the function: `none`.
unfoldable pub scan_records : Scan → List Rr → Option Scan
scan_records s [] = some s
scan_records s (rr ∷ rrs) =
    let rest = scan_records (scan_record s rr) rrs in
    if not (is_opt rr.body) && rr.hdr.ttl == 0 then none else rest

-- A negative answer takes the minimum of its SOA into account; 0 where it has none.
unfoldable pub negative_ttl : Option ℕ → ℕ → ℕ
negative_ttl none ttl = 0
negative_ttl (some minimum) ttl = if ltb minimum ttl then minimum else ttl

unfoldable pub is_negative : Msg → Bool
is_negative msg =
    msg.rcode == rcode_name_error || (msg.rcode == rcode_success && length msg.answer == 0)

unfoldable pub scanned_ttl : Msg → Option Scan → ℕ
scanned_ttl msg none = 0
scanned_ttl msg (some s) =
    if not s.found
    then 0
    else if is_negative msg
    then negative_ttl s.soa_minimum s.min_ttl
    else s.min_ttl

-- The TTL of a message in seconds, before the configured limit.
unfoldable pub message_ttl : Msg → ℕ
message_ttl msg =
    if msg.truncated
    then 0
    else scanned_ttl msg (
        scan_records (record { min_ttl = max_ttl; found = false; soa_minimum = none })
          (msg.answer ++ (msg.ns ++ msg.extra)))

-- `messageCacheTTL` of a message that is there. The result is a duration.
unfoldable pub message_cache_ttl : Msg → ℤ → ℤ
message_cache_ttl msg configured =
    if leb_ℤ configured (pos 0)
    then pos 0
    else let ttl = pos (message_ttl msg * second) in
      if ltb_ℤ configured ttl then configured else ttl

unfoldable pub decrement_ttl : ℕ → Rr → Rr
decrement_ttl elapsed rr = record rr {
  hdr = record (rr.hdr) { ttl = if ltb elapsed rr.hdr.ttl then rr.hdr.ttl - elapsed else 0 };
}

unfoldable pub decrement_message_ttl : Msg → ℕ → Msg
decrement_message_ttl msg elapsed = if elapsed == 0 then msg else record msg {
  answer = map (decrement_ttl elapsed) msg.answer;
  ns = map (decrement_ttl elapsed) msg.ns;
  extra = map (decrement_ttl elapsed) msg.extra;
}

pub record CacheEntry : Type 0 where
  pub msg : Msg
  pub stored_at : ℕ
  pub expires_at : ℕ

abbrev pub two_32 : ℕ
two_32 = 4294967296

-- The branch of `getCached` on the entry that the map has.
unfoldable pub read_entry :
    Map CacheEntry → Str → ℕ → Option CacheEntry → Map CacheEntry × Option Msg
read_entry cache key now none = (cache, none)
read_entry cache key now (some e) =
    if not (ltb now e.expires_at)
    then (delete key cache, none)
    else (cache, some (decrement_message_ttl e.msg ((now - e.stored_at) / second % two_32)))

unfoldable pub get_cached : Config → Map CacheEntry → Str → ℕ → Map CacheEntry × Option Msg
get_cached cfg cache key now =
    if not cfg.cache then (cache, none) else read_entry cache key now (get key cache)

unfoldable pub clear_cache : Map CacheEntry → Map CacheEntry
clear_cache cache = []

-- Room for one more entry: the first key of `range` goes from a full cache.
unfoldable pub make_room : (Map CacheEntry → Map CacheEntry) → ℤ → Map CacheEntry → Map CacheEntry
make_room range size cache =
    if leb_ℤ size (pos (length cache)) then delete_first (range cache) cache else cache

unfoldable pub set_cache :
    (Map CacheEntry → Map CacheEntry) → Config → Map CacheEntry → Str → Msg → ℕ → Map CacheEntry
set_cache range cfg cache key msg now =
    let room = make_room range cfg.cache_size cache in
    let ttl = message_cache_ttl msg (seconds cfg.cache_ttl) in
    if not cfg.cache
    then cache
    else if leb_ℤ cfg.cache_size (pos 0)
    then cache
    else if leb_ℤ ttl (pos 0)
    then room
    else put key (record { msg = msg; stored_at = now; expires_at = add_time now ttl }) room

-- For tests: all that a run of these functions computes with.
unfoldable pub cache_program : Unit {0}
unfolding scan_record scan_records negative_ttl is_negative scanned_ttl message_ttl
    message_cache_ttl decrement_ttl decrement_message_ttl read_entry get_cached clear_cache
    make_room set_cache
cache_program = tt
