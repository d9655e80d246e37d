-- ===== src/Upstream/Forward.antt =====
-- Which answer `forward` gives.
use moreno_dnsleaf.Prelude.{
  Bool, true, false, List, [], ◌∷◌, Option, none, some, any, ◌≡◌, ◌⊎◌, refl, arith, Bool-cases, inl,
  inr, ap, ◌∙◌,
}
use moreno_dnsleaf.Prelude.Map.{Map}
use moreno_dnsleaf.Config.{Config}
use moreno_dnsleaf.Messages.{Msg, Rr, Dns, IsDns, rcode_server_failure}
use moreno_dnsleaf.Upstream.{
  Target, Exchange, valid_upstream_response, ask, ask_all, answer_or_failure, query_for, forward,
  targets_for, strip_client_subnet, without_subnet,
}

-- The answer of a target is valid for the query.
abbrev pub answers_well : Exchange → Msg → Target → Bool
answers_well net query target = valid_upstream_response query (ask net query target)

-- An order of the targets that `math/rand` may choose: it has the same targets.
abbrev pub IsShuffle : (List Target → List Target) → Type 0
IsShuffle shuffle = (p : Target → Bool) (ts : List Target) → any p (shuffle ts) ≡ any p ts

module _ (net : Exchange) where
  ask_all_valid :
      (query : Msg) (targets : List Target)
      → valid_upstream_response query (ask_all net query targets)
        ≡ any (answers_well net query) targets
  unfolding ask_all
  ask_all_valid query [] = unfold valid_upstream_response in refl
  ask_all_valid query (target ∷ targets) = ground (arith, ask_all_valid query targets)

  ask_all-eq-none :
      (query : Msg) (targets : List Target)
      → any (answers_well net query) targets ≡ false
      → ask_all net query targets ≡ none
  unfolding ask_all
  ask_all-eq-none query [] h = refl
  ask_all-eq-none query (target ∷ targets) h = ground (arith, h, ask_all-eq-none query targets)

  module _ (dns : Dns) where
    valid_found :
        (r query : Msg) (found : Option Msg)
        → valid_upstream_response query found ≡ true
        → valid_upstream_response query (some (answer_or_failure net dns r found)) ≡ true
    unfolding answer_or_failure
    valid_found r query none v = unfold valid_upstream_response in ground (arith, v)
    valid_found r query (some resp) v = v

    -- If the exchange with a target that is not disabled gives a valid answer to the query that is
    -- sent, then `forward` gives a valid answer to it, whatever the other targets do and in
    -- whatever order they are asked.
    pub forward-valid :
        (cfg : Config) (unhealthy : Map Bool) (r : Msg)
        → IsShuffle net.shuffle
        → any (answers_well net (query_for net dns cfg r)) (targets_for cfg unhealthy r) ≡ true
        → valid_upstream_response (query_for net dns cfg r) (some (forward net dns cfg unhealthy r))
          ≡ true
    unfolding forward
    forward-valid cfg unhealthy r sh h =
        let query = query_for net dns cfg r in
        let targets = targets_for cfg unhealthy r in
        valid_found r query (ask_all net query (net.shuffle targets))
          (ask_all_valid query (net.shuffle targets) ∙ sh (answers_well net query) targets ∙ h)

    -- If no target that is not disabled gives a valid answer, then `forward` answers SERVFAIL: no
    -- answer to another query reaches the client.
    pub forward-failure :
        (cfg : Config) (unhealthy : Map Bool) (r : Msg)
        → IsShuffle net.shuffle
        → any (answers_well net (query_for net dns cfg r)) (targets_for cfg unhealthy r) ≡ false
        → forward net dns cfg unhealthy r ≡ dns.set_rcode r rcode_server_failure
    unfolding forward answer_or_failure
    forward-failure cfg unhealthy r sh h =
        let query = query_for net dns cfg r in
        let targets = targets_for cfg unhealthy r in
        ap (answer_or_failure net dns r)
          (ask_all-eq-none query (net.shuffle targets) (sh (answers_well net query) targets ∙ h))

    module _ (laws : IsDns dns) where
      without_subnet-id : (r : Msg) (found : Option Rr) → (without_subnet dns r found).id ≡ r.id
      unfolding without_subnet
      without_subnet-id r none = refl
      without_subnet-id r (some rr) = laws.options_id r _

      query_for-id : (cfg : Config) (r : Msg) → (query_for net dns cfg r).id ≡ r.id
      unfolding query_for strip_client_subnet
      query_for-id cfg r = elim (Bool-cases cfg.strip_ecs) [
        | inl strips ↦ rw strips (without_subnet-id r (dns.is_edns0 r))
        | inr keeps ↦ rw keeps refl
      ]

      found-id :
          (r query : Msg) (found : Option Msg)
          → (found ≡ none) ⊎ (valid_upstream_response query found ≡ true)
          → query.id ≡ r.id
          → (answer_or_failure net dns r found).id ≡ r.id
      unfolding answer_or_failure valid_upstream_response
      found-id r query none v e = laws.rcode_id r rcode_server_failure
      found-id r query (some resp) v e = ground (arith, v, e)

      -- The answer of `forward` has the identifier of the query of the client, on every path.
      pub forward-id :
          (cfg : Config) (unhealthy : Map Bool) (r : Msg)
          → (forward net dns cfg unhealthy r).id ≡ r.id
      unfolding forward
      forward-id cfg unhealthy r =
          let query = query_for net dns cfg r in
          let targets = net.shuffle (targets_for cfg unhealthy r) in
          found-id r query (ask_all net query targets)
            (elim (Bool-cases (any (answers_well net query) targets)) [
              | inl some_well ↦ inr (ask_all_valid query targets ∙ some_well)
              | inr no_one ↦ inl (ask_all-eq-none query targets no_one)
            ])
            (query_for-id cfg r)
