-- ===== src/Clients.antt =====
-- The counters: `addStat` (main.go), `trackClient` and `evictOldestClientLocked` (dns_policy.go).
-- The keys of `addStat` and the actions of `trackClient` are a data type. Counters do not wrap.
pub mod Counters
use moreno_dnsleaf.Prelude.{
  ℕ, ◌+◌, Bool, true, false, not, ◌&&◌, ◌||◌, List, [], ◌∷◌, Option, none, some, if◌then◌else◌, ltb,
  leb, length,
}
use moreno_dnsleaf.Prelude.Map.{Map, get, put, delete}
use moreno_dnsleaf.Prelude.Text.{Str, is_empty, trim_space}

pub data Action : Type 0 where
  blocked local cached forwarded denied trolled error : Action

pub record Stats : Type 0 where
  pub queries : ℕ
  pub blocked : ℕ
  pub local : ℕ
  pub cached : ℕ
  pub forwarded : ℕ

unfoldable pub add_stat : Action → Stats → Stats
add_stat action s =
    let q = record s { queries = s.queries + 1 } in
    elim action [
      | Action.blocked ↦ record q { blocked = s.blocked + 1 }
      | Action.local ↦ record q { local = s.local + 1 }
      | Action.cached ↦ record q { cached = s.cached + 1 }
      | Action.forwarded ↦ record q { forwarded = s.forwarded + 1 }
      | _ ↦ q
    ]

pub record ClientState : Type 0 where
  pub queries : ℕ
  pub blocked : ℕ
  pub local : ℕ
  pub cached : ℕ
  pub forwarded : ℕ
  pub denied : ℕ
  pub trolled : ℕ
  pub last_seen : ℕ

abbrev pub max_tracked_clients : ℕ
max_tracked_clients = 10000

-- The loop that looks for the client that was not seen for longest. No client is nil.
unfoldable pub oldest_client : Str → ℕ → Map ClientState → Str
oldest_client oldest_key oldest [] = oldest_key
oldest_client oldest_key oldest ((key, c) ∷ order) =
    if is_empty oldest_key || ltb c.last_seen oldest
    then oldest_client key c.last_seen order
    else oldest_client oldest_key oldest order

unfoldable pub evict_oldest_client : Map ClientState → Map ClientState → Map ClientState
evict_oldest_client order clients =
    let key = oldest_client [] 0 order in if is_empty key then clients else delete key clients

unfoldable pub count_query : Action → ℕ → ClientState → ClientState
count_query action now c =
    let q = record c { queries = c.queries + 1; last_seen = now } in
    elim action [
      | Action.blocked ↦ record q { blocked = c.blocked + 1 }
      | Action.local ↦ record q { local = c.local + 1 }
      | Action.cached ↦ record q { cached = c.cached + 1 }
      | Action.forwarded ↦ record q { forwarded = c.forwarded + 1 }
      | Action.denied ↦ record q { denied = c.denied + 1 }
      | Action.trolled ↦ record q { trolled = c.trolled + 1 }
      | Action.error ↦ q
    ]

abbrev pub new_client : ClientState
new_client = record {
  queries = 0;
  blocked = 0;
  local = 0;
  cached = 0;
  forwarded = 0;
  denied = 0;
  trolled = 0;
  last_seen = 0;
}

abbrev pub client_or_new : Option ClientState → ClientState
client_or_new none = new_client
client_or_new (some c) = c

-- Room for a client that is new.
unfoldable pub client_room :
    (Map ClientState → Map ClientState) → Map ClientState → Option ClientState → Map ClientState
client_room range clients (some c) = clients
client_room range clients none =
    if leb max_tracked_clients (length clients)
    then evict_oldest_client (range clients) clients
    else clients

unfoldable pub track_client :
    (Map ClientState → Map ClientState) → Map ClientState → Str → Action → ℕ → Map ClientState
track_client range clients ip action now =
    if is_empty (trim_space ip)
    then clients
    else put ip (count_query action now (client_or_new (get ip clients)))
        (client_room range clients (get ip clients))

-- For tests: all that a run of these functions computes with.
unfoldable pub clients_program : Unit {0}
unfolding add_stat oldest_client evict_oldest_client count_query client_room track_client
clients_program = tt
