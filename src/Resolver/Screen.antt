-- ===== src/Resolver/Screen.antt =====
-- Blocked names and blocked addresses on the way through the resolver (dns_server.go).
use moreno_dnsleaf.Prelude.{
  Bool, true, false, not, ◌&&◌, ◌||◌, List, [], ◌∷◌, Option, none, some, ◌≡◌, Bool-cases, inl, inr,
  arith, if-cases, if-false, sym,
}
use mathlib.Core.Path.{subst}
use moreno_dnsleaf.Prelude.Text.{Str, codes, str_eq, is_empty, text_program}
use moreno_dnsleaf.Messages.{Msg, Rr}
use moreno_dnsleaf.Addresses.{client_allowed}
use moreno_dnsleaf.Decision.{block_decision}
use moreno_dnsleaf.Answers.{answer_blocked}
use moreno_dnsleaf.Resolver.{
  World, Rules, Times, Query, State, Event, book, book_anomaly, refuse_blocked, after_forward,
  after_cache, look_up, after_local, after_decision, after_safe_search, resolve_allowed,
  refuse_client, after_limit, limit_client, after_portal, resolve_query,
}

-- Whether the last event of a log is that of an answer from the cache or from the upstreams.
abbrev pub is_relayed : List Event → Bool
is_relayed [] = false
is_relayed (e ∷ es) =
    (str_eq e.action (codes "cached")
      || str_eq e.action (codes "forwarded")
      || str_eq e.action (codes "error"))
    && is_empty e.source

module _ (w : World) (rules : Rules) (t : Times) (q : Query) where
  abbrev IsScreened : State × Msg → Type 0
  IsScreened x = is_relayed x.0.log ≡ true → answer_blocked w.dns w.net rules.cfg x.1 ≡ false

  refuse_blocked-IsScreened :
      (source : Str) (s : State) → IsScreened (refuse_blocked w rules t q source s)
  unfolding refuse_blocked book book_anomaly text_program
  refuse_blocked-IsScreened source s h = ground arith

  after_forward-IsScreened :
      (key : Option Str) (resp : Msg) (s : State)
      → IsScreened (after_forward w rules t q key resp s)
  unfolding after_forward
  after_forward-IsScreened key resp s =
      elim (Bool-cases (answer_blocked w.dns w.net rules.cfg resp)) [
        | inl bad ↦
            rw bad
              (λ h. unfold answer_blocked in refuse_blocked-IsScreened (codes "blocked-ip") s h)
        | inr good ↦ rw good (λ h. unfold answer_blocked in good)
      ]

  after_cache-IsScreened :
      (key : Option Str) (s : State) (found : Option Msg)
      → IsScreened (after_cache w rules t q key s found)
  unfolding after_cache
  after_cache-IsScreened key s none = after_forward-IsScreened key _ s
  after_cache-IsScreened key s (some cached) =
      elim (Bool-cases (answer_blocked w.dns w.net rules.cfg cached)) [
        | inl bad ↦ rw bad (refuse_blocked-IsScreened (codes "blocked-ip") s)
        | inr good ↦ rw good (λ h. unfold answer_blocked in good)
      ]

  look_up-IsScreened : (s : State) (key : Option Str) → IsScreened (look_up w rules t q s key)
  unfolding look_up
  look_up-IsScreened s none = after_forward-IsScreened none _ s
  look_up-IsScreened s (some key) = after_cache-IsScreened (some key) _ _

  after_local-IsScreened : (s : State) (rrs : List Rr) → IsScreened (after_local w rules t q s rrs)
  unfolding after_local book text_program
  after_local-IsScreened s [] = look_up-IsScreened s _
  after_local-IsScreened s (rr ∷ rrs) = λ h. ground arith

  after_safe_search-IsScreened :
      (s : State) (safe : Option Msg) → IsScreened (after_safe_search w rules t q s safe)
  unfolding after_safe_search after_decision book text_program
  after_safe_search-IsScreened s (some safe) = λ h. ground arith
  after_safe_search-IsScreened s none =
      let decision =
        block_decision w.re w.net w.range_names rules.cfg rules.blocking t.local q.question.name
          q.client in
      if-cases IsScreened decision.0 (refuse_blocked-IsScreened decision.1 s)
        (after_local-IsScreened s _)

  refuse_client-IsScreened :
      (s : State) (denied : Option Msg × Str) → IsScreened (refuse_client w rules t q s denied)
  unfolding refuse_client book text_program
  refuse_client-IsScreened s (none, mode) h = ground arith
  refuse_client-IsScreened s (some denied, mode) h = ground arith

  after_limit-IsScreened :
      (limit : State × Bool)
      → rules.cfg.resolver_disabled ≡ false
      → IsScreened (after_limit w rules t q limit)
  unfolding after_limit resolve_allowed book text_program
  after_limit-IsScreened (s, true) on = λ h. ground arith
  after_limit-IsScreened (s, false) on =
      if-cases IsScreened (not (client_allowed w.net rules.cfg q.client))
        (refuse_client-IsScreened s _)
        (subst IsScreened (sym (if-false rules.cfg.resolver_disabled _ _ on))
          (after_safe_search-IsScreened s _))

  after_portal-IsScreened :
      (s : State) (portal : List Rr)
      → rules.cfg.resolver_disabled ≡ false
      → IsScreened (after_portal w rules t q s portal)
  unfolding after_portal book text_program
  after_portal-IsScreened s [] on = after_limit-IsScreened (limit_client w rules t q s) on
  after_portal-IsScreened s (rr ∷ rrs) on = λ h. ground arith

  -- While the resolver is not disabled, an answer that `resolveDNS` logs as cached, as forwarded or as
  -- an error of the upstreams passes `answerBlocked`: no A or AAAA record of its answer section has an
  -- address of the list of blocked addresses.
  pub answer_blocked-resolve_query :
      (s : State)
      → rules.cfg.resolver_disabled ≡ false
      → is_relayed (resolve_query w rules t q s).0.log ≡ true
      → answer_blocked w.dns w.net rules.cfg (resolve_query w rules t q s).1 ≡ false
  unfolding resolve_query
  answer_blocked-resolve_query s on = after_portal-IsScreened s _ on
