-- ===== src/Resolver/Refused.antt =====
-- What becomes of a query for a blocked name: `resolveDNS` of dns_server.go.
use moreno_dnsleaf.Prelude.{
  Bool, true, false, not, ◌||◌, List, [], ◌∷◌, Option, none, some, any, ◌≡◌, ◌⊎◌, refl, inl, inr,
  arith, if◌then◌else◌,
}
use moreno_dnsleaf.Prelude.Map.{Map}
use moreno_dnsleaf.Prelude.Text.{Str, codes, str_eq, text_program}
use moreno_dnsleaf.Messages.{Msg, Rr}
use moreno_dnsleaf.Addresses.{client_allowed}
use moreno_dnsleaf.Decision.{block_decision}
use moreno_dnsleaf.Cache.{CacheEntry}
use moreno_dnsleaf.Upstream.{Exchange}
use moreno_dnsleaf.Answers.{blocked_response}
use moreno_dnsleaf.Resolver.{
  World, Rules, Times, Query, State, Event, book, book_anomaly, refuse_blocked, after_decision,
  after_safe_search, resolve_allowed, refuse_client, after_limit, limit_client, after_portal,
  resolve_query,
}

if_both :
    {A : Type 0} (P : A → A → Type 0) (b : Bool) (x y v z : A)
    → (b ≡ true → P x v)
    → (b ≡ false → P y z)
    → P (if b then x else y) (if b then v else z)
if_both P true x y v z h k = h refl
if_both P false x y v z h k = k refl

-- The event of an answer that comes before the decision: a client that is denied or limited, the name
-- of the portal, or safe search.
abbrev pub is_early : Event → Bool
is_early e =
    str_eq e.action (codes "denied")
    || any (str_eq e.source)
        (codes "portal" ∷ codes "safe-search" ∷ codes "rate-limit" ∷ codes "access-policy" ∷ [])

-- Other upstreams, other unhealthy ones, and another cache.
abbrev pub elsewhere : World → Exchange → World
elsewhere w exchange = record w { exchange = exchange }

abbrev pub other_rules : Rules → Map Bool → Rules
other_rules rules unhealthy = record rules { unhealthy = unhealthy }

abbrev pub other_state : State → Map CacheEntry → State
other_state s cache = record s { cache = cache }

module _ (w : World) (rules : Rules) (t : Times) (q : Query) where
  -- The answer for a blocked name, logged with the source of the decision.
  abbrev pub IsRefused : Str → State → State × Msg → Type 0
  IsRefused source s x =
      (x.0.log ≡ record { action = codes "blocked"; source = source } ∷ s.log)
      × (x.1 ≡ blocked_response w.dns w.net q.msg q.question.name q.question.qtype)

  -- Refused or answered before the decision, with the cache as it was.
  abbrev pub IsHeld : Str → State → State × Msg → Type 0
  IsHeld source s x =
      (x.0.cache ≡ s.cache)
      × (IsRefused source s x ⊎ ((e : Event) × (x.0.log ≡ e ∷ s.log) × (is_early e ≡ true)))

  module _ (exchange : Exchange) (unhealthy : Map Bool) (cache : Map CacheEntry) where
    -- Held, with an answer that is the same elsewhere.
    abbrev IsBlind : Str → State → State × Msg → State × Msg → Type 0
    IsBlind source s x y = IsHeld source s x × (x.1 ≡ y.1)

    module _ (source : Str) where
      after_safe_search-IsBlind :
          (s : State) (safe : Option Msg)
          → block_decision w.re w.net w.range_names rules.cfg rules.blocking t.local q.question.name
              q.client
            ≡ (true, source)
          → IsBlind source s (after_safe_search w rules t q s safe) (
              after_safe_search
                (elsewhere w exchange)
                (other_rules rules unhealthy)
                t
                q
                (other_state s cache)
                safe)
      unfolding after_safe_search after_decision refuse_blocked book book_anomaly text_program
      after_safe_search-IsBlind s (some safe) decision = (
        (refl, inr (record { action = codes "local"; source = codes "safe-search" }, refl, refl)),
        refl,
      )
      after_safe_search-IsBlind s none decision = rw decision ((refl, inl (refl, refl)), refl)

      refuse_client-IsBlind :
          (s : State) (denied : Option Msg × Str)
          → IsBlind source s (refuse_client w rules t q s denied) (
              refuse_client
                (elsewhere w exchange)
                (other_rules rules unhealthy)
                t
                q
                (other_state s cache)
                denied)
      unfolding refuse_client book text_program
      refuse_client-IsBlind s (none, mode) =
          ((refl, inr (record { action = codes "denied"; source = [] }, refl, refl)), refl)
      refuse_client-IsBlind s (some denied, mode) = (
        (refl, inr (record { action = mode; source = codes "access-policy" }, refl, ground arith)),
        refl,
      )

      after_limit-IsBlind :
          (u : State) (limited : Bool)
          → rules.cfg.resolver_disabled ≡ false
          → block_decision w.re w.net w.range_names rules.cfg rules.blocking t.local q.question.name
              q.client
            ≡ (true, source)
          → IsBlind source u (after_limit w rules t q (u, limited)) (
              after_limit
                (elsewhere w exchange)
                (other_rules rules unhealthy)
                t
                q
                (other_state u cache, limited))
      unfolding after_limit resolve_allowed book text_program
      after_limit-IsBlind u true on decision = (
        (refl, inr (record { action = codes "denied"; source = codes "rate-limit" }, refl, refl)),
        refl,
      )
      after_limit-IsBlind u false on decision =
          if_both (IsBlind source u) (not (client_allowed w.net rules.cfg q.client)) _ _ _ _
            (λ denied. refuse_client-IsBlind u _)
            (λ allowed.
              if_both (IsBlind source u) rules.cfg.resolver_disabled _ _ _ _
                (λ off. absurd (cc (off, on))) (λ enabled. after_safe_search-IsBlind u _ decision))

      after_portal-IsBlind :
          (s : State) (portal : List Rr)
          → rules.cfg.resolver_disabled ≡ false
          → block_decision w.re w.net w.range_names rules.cfg rules.blocking t.local q.question.name
              q.client
            ≡ (true, source)
          → IsBlind source s (after_portal w rules t q s portal) (
              after_portal
                (elsewhere w exchange)
                (other_rules rules unhealthy)
                t
                q
                (other_state s cache)
                portal)
      unfolding after_portal limit_client book text_program
      after_portal-IsBlind s [] on decision = after_limit-IsBlind _ _ on decision
      after_portal-IsBlind s (rr ∷ rrs) on decision = (
        (refl, inr (record { action = codes "local"; source = codes "portal" }, refl, refl)),
        refl,
      )

      -- When `blockDecision` blocks the name of a query and the resolver is not disabled: the query
      -- leaves the cache as it was; it gets the answer for a blocked name and is logged with the source
      -- of the decision, or it is logged as one that is answered before the decision (the client is
      -- denied or limited, or it is the name of the portal, or safe search); and the answer is the same
      -- whatever the upstreams say, whichever are unhealthy, and whatever the cache holds.
      pub resolve_query-IsHeld :
          (s : State)
          → rules.cfg.resolver_disabled ≡ false
          → block_decision w.re w.net w.range_names rules.cfg rules.blocking t.local q.question.name
              q.client
            ≡ (true, source)
          → IsHeld source s (resolve_query w rules t q s)
            × ((resolve_query w rules t q s).1
                ≡ (resolve_query
                    (elsewhere w exchange)
                    (other_rules rules unhealthy)
                    t
                    q
                    (other_state s cache)).1)
      unfolding resolve_query
      resolve_query-IsHeld s on decision = after_portal-IsBlind s _ on decision
