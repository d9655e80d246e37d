-- ===== src/Resolver/Books.antt =====
-- What a query adds to the counters and to the log.
use moreno_dnsleaf.Prelude.{
  ◌+◌, ◌≤◌, Bool, true, false, List, [], ◌∷◌, Option, none, some, length, ◌≡◌, arith, Bool-cases,
  inl, inr, if-cases,
}
use moreno_dnsleaf.Prelude.Text.{Str, codes}
use moreno_dnsleaf.Messages.{Msg, Rr}
use moreno_dnsleaf.Addresses.{client_allowed}
use moreno_dnsleaf.Answers.{answer_blocked}
use moreno_dnsleaf.Clients.{Action}
use moreno_dnsleaf.Clients.Counters.{total, total-add_stat-le, queries-add_stat}
use moreno_dnsleaf.Resolver.{
  World, Rules, Times, Query, State, book, book_anomaly, refuse_blocked, store, after_forward,
  after_cache, look_up, after_local, after_decision, after_safe_search, resolve_allowed,
  refuse_client, after_limit, limit_client, after_portal, resolve_query,
}

-- One query more, counted once, and one event more.
abbrev pub IsBooked : State → State → Type 0
IsBooked s s' =
    (s'.stats.queries ≡ s.stats.queries + 1)
    × (total s'.stats ≤ total s.stats + 1)
    × (length s'.log ≡ length s.log + 1)

module _ (w : World) (rules : Rules) (t : Times) (q : Query) where
  book-IsBooked :
      (stat client : Action) (action source : Str) (s : State)
      → IsBooked s (book w rules t q stat client action source s)
  unfolding book
  book-IsBooked stat client action source s =
      (queries-add_stat stat s.stats, total-add_stat-le stat s.stats, omega arith)

  refuse_blocked-IsBooked :
      (source : Str) (s : State) → IsBooked s (refuse_blocked w rules t q source s).0
  unfolding refuse_blocked book_anomaly
  refuse_blocked-IsBooked source s =
      book-IsBooked Action.blocked Action.blocked (codes "blocked") source s

  store-IsBooked :
      (key : Option Str) (resp : Msg) (s s' : State)
      → IsBooked s s'
      → IsBooked s (store w rules t q key resp s')
  unfolding store
  store-IsBooked none resp s s' b = b
  store-IsBooked (some key) resp s s' b = ground (arith, b)

  after_forward-IsBooked :
      (key : Option Str) (resp : Msg) (s : State)
      → IsBooked s (after_forward w rules t q key resp s).0
  unfolding after_forward
  after_forward-IsBooked key resp s =
      elim (Bool-cases (answer_blocked w.dns w.net rules.cfg resp)) [
        | inl bad ↦ rw bad (refuse_blocked-IsBooked (codes "blocked-ip") s)
        | inr good ↦ rw good (store-IsBooked key _ s _ (book-IsBooked _ _ _ _ s))
      ]

  after_cache-IsBooked :
      (key : Option Str) (s : State) (found : Option Msg)
      → IsBooked s (after_cache w rules t q key s found).0
  unfolding after_cache
  after_cache-IsBooked key s none = after_forward-IsBooked key _ s
  after_cache-IsBooked key s (some cached) =
      elim (Bool-cases (answer_blocked w.dns w.net rules.cfg cached)) [
        | inl bad ↦ rw bad (refuse_blocked-IsBooked (codes "blocked-ip") s)
        | inr good ↦ rw good (book-IsBooked _ _ _ _ s)
      ]

  look_up-IsBooked : (s : State) (key : Option Str) → IsBooked s (look_up w rules t q s key).0
  unfolding look_up
  look_up-IsBooked s none = after_forward-IsBooked none _ s
  look_up-IsBooked s (some key) = after_cache-IsBooked (some key) _ _

  after_local-IsBooked :
      (s : State) (found : List Rr) → IsBooked s (after_local w rules t q s found).0
  unfolding after_local
  after_local-IsBooked s [] = look_up-IsBooked s _
  after_local-IsBooked s (rr ∷ rrs) = book-IsBooked _ _ _ _ s

  after_decision-IsBooked :
      (s : State) (decision : Bool × Str) → IsBooked s (after_decision w rules t q s decision).0
  unfolding after_decision
  after_decision-IsBooked s (true, source) = refuse_blocked-IsBooked source s
  after_decision-IsBooked s (false, source) = after_local-IsBooked s _

  after_safe_search-IsBooked :
      (s : State) (safe : Option Msg) → IsBooked s (after_safe_search w rules t q s safe).0
  unfolding after_safe_search
  after_safe_search-IsBooked s none = after_decision-IsBooked s _
  after_safe_search-IsBooked s (some safe) = book-IsBooked _ _ _ _ s

  resolve_allowed-IsBooked : (s : State) → IsBooked s (resolve_allowed w rules t q s).0
  unfolding resolve_allowed
  resolve_allowed-IsBooked s =
      if-cases {A = State × Msg} (λ result. IsBooked s result.0) rules.cfg.resolver_disabled
        (book-IsBooked _ _ _ _ s) (after_safe_search-IsBooked s _)

  refuse_client-IsBooked :
      (s : State) (answer : Option Msg × Str) → IsBooked s (refuse_client w rules t q s answer).0
  unfolding refuse_client
  refuse_client-IsBooked s (none, mode) = book-IsBooked _ _ _ _ s
  refuse_client-IsBooked s (some denied, mode) = book-IsBooked _ _ _ _ s

  after_limit-IsBooked :
      (s : State) (limited : Bool) → IsBooked s (after_limit w rules t q (s, limited)).0
  unfolding after_limit
  after_limit-IsBooked s true = book-IsBooked _ _ _ _ s
  after_limit-IsBooked s false = elim (Bool-cases (client_allowed w.net rules.cfg q.client)) [
    | inl allowed ↦ rw allowed (resolve_allowed-IsBooked s)
    | inr refused ↦ rw refused (refuse_client-IsBooked s _)
  ]

  after_portal-IsBooked :
      (s : State) (found : List Rr) → IsBooked s (after_portal w rules t q s found).0
  unfolding after_portal limit_client
  after_portal-IsBooked s [] = after_limit-IsBooked _ _
  after_portal-IsBooked s (rr ∷ rrs) = book-IsBooked _ _ _ _ s

  -- A query with one question is counted once, under one heading at most, and logged once,
  -- whichever stage answers it.
  pub resolve_query-IsBooked : (s : State) → IsBooked s (resolve_query w rules t q s).0
  unfolding resolve_query
  resolve_query-IsBooked s = after_portal-IsBooked s _
