-- ===== src/Guard/Runs.antt =====
-- What holds of the configuration after any sequence of requests through `configGuard` (auth.go).
use moreno_dnsleaf.Prelude.{
  true, false, [], Option, none, some, ◌≡◌, ◌⊎◌, inl, inr, refl, ap, ◌∙◌, Bool-cases,
}
use moreno_dnsleaf.Prelude.Map.{Map}
use moreno_dnsleaf.Prelude.Text.{Str}
use moreno_dnsleaf.Config.{Config, ClientProfile}
use moreno_dnsleaf.Logs.{Request}
use moreno_dnsleaf.Validate.{
  validate_config, listener_issues, upstream_issues, cache_issues, log_issues, portal_issues,
  override_issues,
}
use moreno_dnsleaf.Guard.{
  Panel, Handler, Response, Outside, status_of, is_success, has_header, issues_of, transaction,
  config_guard,
}
use moreno_dnsleaf.Guard.Transaction.{
  is_passed_on, IsTransaction, config_guard-header, config_guard-passed, config_guard-guarded,
  transaction-outcome,
}

-- What the round trip through package json keeps of a configuration in UTF-8: all but the difference
-- between a map that is nil and one that is empty, in the two maps where it shows.
abbrev pub IsClone : (Config → Option Config) → Type 0
IsClone clone =
    (cfg copy : Config)
    → clone cfg ≡ some copy
    → copy ≡ record cfg { client_names = copy.client_names; profiles = copy.profiles }

module _ (o : Outside) where
  issues_of-maps :
      (cfg : Config) (names : Option (Map Str)) (profiles : Option (Map ClientProfile))
      → issues_of o (record cfg { client_names = names; profiles = profiles }) ≡ issues_of o cfg
  unfolding validate_config listener_issues upstream_issues cache_issues log_issues portal_issues
      override_issues
  issues_of-maps cfg names profiles = refl

  issues_of-clone :
      (cfg copy : Config)
      → IsClone o.clone
      → o.clone cfg ≡ some copy
      → issues_of o copy ≡ issues_of o cfg
  issues_of-clone cfg copy is_clone e =
      ap (issues_of o) (is_clone cfg copy e) ∙ issues_of-maps cfg copy.client_names copy.profiles

  -- The configuration in force and the one in the file are valid.
  abbrev pub IsSound : Panel → Type 0
  IsSound p = (issues_of o p.cfg ≡ []) × (issues_of o p.stored ≡ [])

  -- A handler never writes the file itself, and changes the configuration only where the guard sees to
  -- it: in a guarded request that it answers with a success.
  abbrev pub IsOrderly : Handler → Request → Type 0
  IsOrderly next r =
      (p : Panel)
      → ((next p).0.stored ≡ p.stored)
        × ((is_passed_on r ≡ true) ⊎ (is_success (status_of (next p).1) ≡ false)
            → (next p).0.cfg ≡ p.cfg)

  -- A request, and any number of them.
  pub data Step : Panel → Panel → Type 0 where
    request :
        (p : Panel) (next : Handler) (r : Request)
        → IsOrderly next r
        → Step p (config_guard o next r p).0

  pub data Reaches : Panel → Panel → Type 0 where
    here : {p : Panel} → Reaches p p
    then_step : {p q s : Panel} → Reaches p q → Step q s → Reaches p s

  outcome-IsSound :
      (next : Handler) (r : Request) (p : Panel) (before : Config) (result : Panel × Response)
      → IsClone o.clone
      → IsOrderly next r
      → o.clone p.cfg ≡ some before
      → IsSound p
      → IsTransaction o before (next p) result
      → IsSound result.0
  outcome-IsSound next r p before result is_clone orderly e (cfg, stored)
        (inl (failed, status, same)) =
      rw same (
        ap (issues_of o) ((orderly p).1 (inr failed)) ∙ cfg,
        ap (issues_of o) (orderly p).0 ∙ stored,
      )
  outcome-IsSound next r p before result is_clone orderly e (cfg, stored)
        (inr (ok, inl (good, status, (valid, new, saved, empty, blocking)))) =
      (ap (issues_of o) new ∙ valid, ap (issues_of o) saved ∙ valid)
  outcome-IsSound next r p before result is_clone orderly e (cfg, stored)
        (inr (ok, inr (bad, (old, unsaved, blocking)))) =
      (
        ap (issues_of o) old ∙ issues_of-clone p.cfg before is_clone e ∙ cfg,
        ap (issues_of o) (unsaved ∙ (orderly p).0) ∙ stored,
      )

  transaction-IsSound :
      (next : Handler) (r : Request) (p : Panel) (copy : Option Config)
      → IsClone o.clone
      → IsOrderly next r
      → o.clone p.cfg ≡ copy
      → IsSound p
      → IsSound (transaction o next r p copy).0
  transaction-IsSound next r p none is_clone orderly e sound = unfold transaction in sound
  transaction-IsSound next r p (some before) is_clone orderly e sound =
      outcome-IsSound next r p before (transaction o next r p (some before)) is_clone orderly e
        sound (transaction-outcome o next r p before)

  guarded-IsSound :
      (next : Handler) (r : Request) (p : Panel)
      → IsClone o.clone
      → IsOrderly next r
      → IsSound p
      → IsSound (config_guard o next r p).0
  guarded-IsSound next r p is_clone orderly sound = elim (Bool-cases (is_passed_on r)) [
    | inl passed ↦ rw (config_guard-passed o next r p passed) (
      ap (issues_of o) ((orderly p).1 (inl passed)) ∙ sound.0,
      ap (issues_of o) (orderly p).0 ∙ sound.1,
    )
    | inr guarded ↦ elim (Bool-cases (has_header r)) [
      | inl sent ↦
          rw (config_guard-guarded o next r p guarded sent)
            (transaction-IsSound next r p (o.clone p.cfg) is_clone orderly refl sound)
      | inr not_sent ↦ rw ((config_guard-header o next r p guarded not_sent).0) sound
    ]
  ]

  -- From a panel whose configuration and file are valid, any sequence of requests to orderly handlers
  -- leads to a panel whose configuration and file are valid.
  pub Reaches-IsSound : {p q : Panel} → IsClone o.clone → IsSound p → Reaches p q → IsSound q
  Reaches-IsSound is_clone sound here = sound
  Reaches-IsSound is_clone sound (then_step path (request q next r orderly)) =
      guarded-IsSound next r q is_clone orderly (Reaches-IsSound is_clone sound path)
