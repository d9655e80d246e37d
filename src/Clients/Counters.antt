-- ===== src/Clients/Counters.antt =====
-- The sums of the counters, and the size of the table of clients (dns_policy.go).
use moreno_dnsleaf.Prelude.{
  ℕ, ◌+◌, ◌≤◌, ◌<◌, true, false, ◌||◌, [], ◌∷◌, Option, none, some, ltb, leb, length, All, is_some,
  ◌≡◌, refl, arith, Bool-cases, inl, inr, ap,
}
use moreno_dnsleaf.Prelude.Map.{
  Map, get, put, IsRange, length-delete-lt, length-put-le, length-put_of_get,
}
use moreno_dnsleaf.Prelude.Text.{Str, is_empty, trim_space}
use moreno_dnsleaf.Clients.{
  Action, Stats, add_stat, ClientState, max_tracked_clients, oldest_client, evict_oldest_client,
  client_room, track_client,
}

abbrev pub total : Stats → ℕ
total s = s.blocked + s.local + s.cached + s.forwarded

pub total-add_stat-le : (action : Action) (s : Stats) → total (add_stat action s) ≤ total s + 1
unfolding add_stat
total-add_stat-le Action.blocked s = omega arith
total-add_stat-le Action.local s = omega arith
total-add_stat-le Action.cached s = omega arith
total-add_stat-le Action.forwarded s = omega arith
total-add_stat-le Action.denied s = omega arith
total-add_stat-le Action.trolled s = omega arith
total-add_stat-le Action.error s = omega arith

pub queries-add_stat : (action : Action) (s : Stats) → (add_stat action s).queries ≡ s.queries + 1
unfolding add_stat
queries-add_stat Action.blocked s = refl
queries-add_stat Action.local s = refl
queries-add_stat Action.cached s = refl
queries-add_stat Action.forwarded s = refl
queries-add_stat Action.denied s = refl
queries-add_stat Action.trolled s = refl
queries-add_stat Action.error s = refl

-- A key that is not empty and that the table has.
abbrev IsKey : Map ClientState → Str → Type 0
IsKey clients key = (is_empty key ≡ false) × (is_some (get key clients) ≡ true)

-- No client has the empty key.
abbrev pub HasKeys : Map ClientState → Type 0
HasKeys clients = get [] clients ≡ none

IsKeys_of :
    (clients order : Map ClientState)
    → HasKeys clients
    → All (λ e. get e.0 clients ≡ some e.1) order
    → All (λ e. IsKey clients e.0) order
IsKeys_of clients [] h v = tt
IsKeys_of clients (([], s) ∷ order) h v = absurd (cc (h, v.0))
IsKeys_of clients ((c ∷ t, s) ∷ order) h v =
    ((unfold is_empty in refl, ap is_some v.0), IsKeys_of clients order h v.1)

oldest_client-IsKey :
    (clients order : Map ClientState) (key : Str) (oldest : ℕ)
    → All (λ e. IsKey clients e.0) order
    → IsKey clients key
    → IsKey clients (oldest_client key oldest order)
unfolding oldest_client
oldest_client-IsKey clients [] key oldest h k = k
oldest_client-IsKey clients ((next, c) ∷ order) key oldest h k =
    elim (Bool-cases (is_empty key || ltb c.last_seen oldest)) [
      | inl take_it ↦ rw take_it (oldest_client-IsKey clients order next c.last_seen h.1 h.0)
      | inr keep_it ↦ rw keep_it (oldest_client-IsKey clients order key oldest h.1 k)
    ]

length-evict_oldest_client :
    (order clients : Map ClientState)
    → length order ≡ length clients
    → 1 ≤ length clients
    → All (λ e. IsKey clients e.0) order
    → length (evict_oldest_client order clients) < length clients
length-evict_oldest_client [] clients e n v = omega arith
length-evict_oldest_client ((k, c) ∷ order) clients e n v =
    let oldest : IsKey clients (oldest_client k c.last_seen order) =
      oldest_client-IsKey clients order k c.last_seen v.1 v.0 in
    unfold evict_oldest_client oldest_client is_empty in
    ground (arith, oldest, length-delete-lt (oldest_client k c.last_seen order) clients)

module _ (range : Map ClientState → Map ClientState) (r : IsRange range) where
  length-put_client :
      (clients : Map ClientState) (ip : Str) (c : ClientState) (found : Option ClientState)
      → get ip clients ≡ found
      → HasKeys clients
      → length clients ≤ max_tracked_clients
      → length (put ip c (client_room range clients found)) ≤ max_tracked_clients
  unfolding client_room
  length-put_client clients ip c (some old) f h le =
      omega (arith, le, length-put_of_get ip c clients (ap is_some f))
  length-put_client clients ip c none f h le =
      let evicted = length-evict_oldest_client (range clients) clients (r.counts clients) in
      let keys = IsKeys_of clients (range clients) h (r.visits clients) in
      elim (Bool-cases (leb max_tracked_clients (length clients))) [
        | inl full ↦ rw full (
            let less : length (evict_oldest_client (range clients) clients) < length clients =
              evicted (ground (arith, full)) keys in
            omega
              (arith, le, less, length-put-le ip c (evict_oldest_client (range clients) clients)))
        | inr roomy ↦ rw roomy (ground (arith, roomy, length-put-le ip c clients))
      ]

  -- If the table has at most 10000 clients and none with an empty key, it has at most 10000 after
  -- any query.
  pub length-track_client-le :
      (clients : Map ClientState) (ip : Str) (action : Action) (now : ℕ)
      → HasKeys clients
      → length clients ≤ max_tracked_clients
      → length (track_client range clients ip action now) ≤ max_tracked_clients
  unfolding track_client
  length-track_client-le clients ip action now h le = elim (Bool-cases (is_empty (trim_space ip))) [
    | inl blank ↦ rw blank le
    | inr named ↦ rw named (length-put_client clients ip _ (get ip clients) refl h le)
  ]
