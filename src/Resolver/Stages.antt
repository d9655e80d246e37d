-- ===== src/Resolver/Stages.antt =====
-- What every answer of the resolver has in common, whichever stage gives it.
use moreno_dnsleaf.Prelude.{
  Bool, true, false, List, [], ◌∷◌, Option, none, some, ◌≡◌, refl, Bool-cases, inl, inr, if-cases,
}
use moreno_dnsleaf.Prelude.Text.{Str, codes}
use moreno_dnsleaf.Messages.{Msg, Question, Rr, IsDns, rcode_format_error, rcode_refused}
use moreno_dnsleaf.Addresses.{client_allowed}
use moreno_dnsleaf.Answers.{answer_blocked}
use moreno_dnsleaf.Answers.Shape.{
  HasId, blocked_response-id, safe_search_response-HasId, denied_client_response-HasId,
}
use moreno_dnsleaf.Upstream.Forward.{forward-id}
use moreno_dnsleaf.Resolver.{
  World, Rules, Times, Query, State, refuse_blocked, after_forward, after_cache, look_up,
  after_local, after_decision, after_safe_search, resolve_allowed, refuse_client, after_limit,
  limit_client, after_portal, resolve_query, resolve_questions, resolve_dns, upstream_answer,
  client_profile,
}

module _ (w : World) (laws : IsDns w.dns) (rules : Rules) (t : Times) where
  -- The answer has the identifier of the query.
  abbrev IsReply : Query → State × Msg → Type 0
  IsReply q result = result.1.id ≡ q.msg.id

  module _ (q : Query) where
    refuse_blocked-IsReply :
        (source : Str) (s : State) → IsReply q (refuse_blocked w rules t q source s)
    unfolding refuse_blocked
    refuse_blocked-IsReply source s = blocked_response-id w.dns w.net laws q.msg _ _

    after_forward-IsReply :
        (key : Option Str) (resp : Msg) (s : State)
        → resp.id ≡ q.msg.id
        → IsReply q (after_forward w rules t q key resp s)
    unfolding after_forward
    after_forward-IsReply key resp s i =
        elim (Bool-cases (answer_blocked w.dns w.net rules.cfg resp)) [
          | inl bad ↦ rw bad (refuse_blocked-IsReply (codes "blocked-ip") s)
          | inr good ↦ rw good i
        ]

    upstream-id : (upstream_answer w rules t q).id ≡ q.msg.id
    upstream-id = forward-id w.exchange w.dns laws rules.cfg rules.unhealthy q.msg

    after_cache-IsReply :
        (key : Option Str) (s : State) (found : Option Msg)
        → IsReply q (after_cache w rules t q key s found)
    unfolding after_cache
    after_cache-IsReply key s none = after_forward-IsReply key _ s upstream-id
    after_cache-IsReply key s (some cached) =
        elim (Bool-cases (answer_blocked w.dns w.net rules.cfg cached)) [
          | inl bad ↦ rw bad (refuse_blocked-IsReply (codes "blocked-ip") s)
          | inr good ↦ rw good refl
        ]

    look_up-IsReply : (s : State) (key : Option Str) → IsReply q (look_up w rules t q s key)
    unfolding look_up
    look_up-IsReply s none = after_forward-IsReply none _ s upstream-id
    look_up-IsReply s (some key) = after_cache-IsReply (some key) _ _

    after_local-IsReply :
        (s : State) (found : List Rr) → IsReply q (after_local w rules t q s found)
    unfolding after_local
    after_local-IsReply s [] = look_up-IsReply s _
    after_local-IsReply s (rr ∷ rrs) = laws.reply_id q.msg

    after_decision-IsReply :
        (s : State) (decision : Bool × Str) → IsReply q (after_decision w rules t q s decision)
    unfolding after_decision
    after_decision-IsReply s (true, source) = refuse_blocked-IsReply source s
    after_decision-IsReply s (false, source) = after_local-IsReply s _

    after_safe_search-IsReply :
        (s : State) (safe : Option Msg)
        → HasId q.msg.id safe
        → IsReply q (after_safe_search w rules t q s safe)
    unfolding after_safe_search
    after_safe_search-IsReply s none i = after_decision-IsReply s _
    after_safe_search-IsReply s (some safe) i = i

    resolve_allowed-IsReply : (s : State) → IsReply q (resolve_allowed w rules t q s)
    unfolding resolve_allowed
    resolve_allowed-IsReply s =
        if-cases {A = State × Msg} (IsReply q) rules.cfg.resolver_disabled upstream-id (
          after_safe_search-IsReply s _ (
            safe_search_response-HasId w.dns w.net laws q.msg q.question.name q.question.qtype
              (client_profile w rules t q)))

    refuse_client-IsReply :
        (s : State) (answer : Option Msg × Str)
        → HasId q.msg.id answer.0
        → IsReply q (refuse_client w rules t q s answer)
    unfolding refuse_client
    refuse_client-IsReply s (none, mode) i = laws.rcode_id q.msg rcode_refused
    refuse_client-IsReply s (some denied, mode) i = i

    after_limit-IsReply :
        (s : State) (limited : Bool) → IsReply q (after_limit w rules t q (s, limited))
    unfolding after_limit
    after_limit-IsReply s true = laws.rcode_id q.msg _
    after_limit-IsReply s false = elim (Bool-cases (client_allowed w.net rules.cfg q.client)) [
      | inl allowed ↦ rw allowed (resolve_allowed-IsReply s)
      | inr refused ↦ rw refused (
          refuse_client-IsReply s _ (
            denied_client_response-HasId w.dns w.net laws w.scan_port w.random_troll_ip rules.cfg
              q.msg q.question.name q.question.qtype))
    ]

    after_portal-IsReply :
        (s : State) (found : List Rr) → IsReply q (after_portal w rules t q s found)
    unfolding after_portal limit_client
    after_portal-IsReply s [] = after_limit-IsReply _ _
    after_portal-IsReply s (rr ∷ rrs) = laws.reply_id q.msg

  resolve_questions-id :
      (s : State) (r : Msg) (client : Str) (questions : List Question)
      → (resolve_questions w rules t s r client questions).1.id ≡ r.id
  unfolding resolve_questions resolve_query
  resolve_questions-id s r client [] = laws.rcode_id r rcode_format_error
  resolve_questions-id s r client (question ∷ []) = after_portal-IsReply _ s _
  resolve_questions-id s r client (question ∷ more ∷ rest) = laws.rcode_id r rcode_format_error

  -- Whatever is asked and whichever stage answers, the answer has the identifier of the query, if
  -- replies of package dns have the identifier of what they answer.
  pub resolve_dns-id :
      (s : State) (r : Msg) (client : Str) → (resolve_dns w rules t s (some r) client).1.id ≡ r.id
  unfolding resolve_dns
  resolve_dns-id s r client = resolve_questions-id s r client r.question
