-- ===== src/Guard/Transaction.antt =====
-- The three outcomes of a guarded request: `configGuard` of auth.go.
use moreno_dnsleaf.Prelude.{
  ℕ, Bool, true, false, not, ◌&&◌, ◌||◌, if◌then◌else◌, List, [], ◌∷◌, some, ◌≡◌, ◌⊎◌, inl, inr,
  refl, ap, ◌∙◌, arith, Bool-cases,
}
use moreno_dnsleaf.Prelude.Text.{codes, str_eq}
use moreno_dnsleaf.Config.{Config}
use moreno_dnsleaf.Cache.{clear_cache}
use moreno_dnsleaf.Logs.{Request}
use moreno_dnsleaf.Validate.Report.{is_empty_list}
use moreno_dnsleaf.Guard.{
  Panel, Response, Handler, missing_header, Outside, status_of, flush, is_success, is_safe_method,
  has_header, issues_of, save_config, audited, commit, transaction, config_guard,
}

-- A request that the guard hands on as it is.
abbrev pub is_passed_on : Request → Bool
is_passed_on r =
    str_eq r.path (codes "/dns-query")
    || is_safe_method r.method
    || (has_header r && str_eq r.path (codes "/api/login"))

refused-lem :
    {A : Type 0} (path safe header login : Bool) (passed refused done : A)
    → (path || safe || (header && login)) ≡ false
    → header ≡ false
    → (if path || safe
        then passed
        else if not header
        then refused
        else if login
        then passed
        else done)
      ≡ refused
refused-lem path safe header login passed refused done h n = ground arith

guarded-lem :
    {A : Type 0} (path safe header login : Bool) (passed refused done : A)
    → (path || safe || (header && login)) ≡ false
    → header ≡ true
    → (if path || safe
        then passed
        else if not header
        then refused
        else if login
        then passed
        else done)
      ≡ done
guarded-lem path safe header login passed refused done h y = ground arith

passed-lem :
    {A : Type 0} (path safe header login : Bool) (passed refused done : A)
    → (path || safe || (header && login)) ≡ true
    → (if path || safe
        then passed
        else if not header
        then refused
        else if login
        then passed
        else done)
      ≡ passed
passed-lem path safe header login passed refused done h = ground arith

module _ (o : Outside) where
  -- A success: the configuration that the handler made is valid, in the file, and the cache is empty.
  abbrev pub IsCommitted : Panel → Panel → Type 0
  IsCommitted after result =
      (issues_of o after.cfg ≡ [])
      × (result.cfg ≡ after.cfg)
      × (result.stored ≡ after.cfg)
      × (result.cache ≡ [])
      × (result.blocking ≡ after.blocking)

  abbrev pub IsRolledBack : Config → Panel → Panel → Type 0
  IsRolledBack before after result =
      (result.cfg ≡ before) × (result.stored ≡ after.stored) × (result.blocking ≡ after.blocking)

  is_empty_list-nil : {A : Type 0} (xs : List A) → is_empty_list xs ≡ true → xs ≡ []
  is_empty_list-nil [] h = refl
  is_empty_list-nil (x ∷ xs) h = ground arith

  abbrev pub Outcome : Config → Panel → ℕ → Panel → ℕ → Type 0
  Outcome before after wrote result status =
      (is_success status ≡ true) × (status ≡ wrote) × IsCommitted after result
      ⊎ ((is_success status ≡ false) × IsRolledBack before after result)

  commit-IsTransaction :
      (before : Config) (r : Request) (p : Panel) (w : Response)
      → is_success (status_of w) ≡ true
      → Outcome before p (status_of w) (commit o before r p w).0 ((commit o before r p w).1).status
  unfolding commit save_config audited clear_cache flush
  commit-IsTransaction before r p w ok = elim (Bool-cases (is_empty_list (issues_of o p.cfg))) [
    | inr invalid ↦ rw invalid (inr (refl, (refl, refl, refl)))
    | inl valid ↦ elim (Bool-cases (o.written p.cfg)) [
      | inr failed ↦ rw (valid, failed) (inr (refl, (refl, refl, refl)))
      | inl written ↦
          rw (valid, written)
            (inl (ok, refl, (is_empty_list-nil (issues_of o p.cfg) valid, refl, refl, refl, refl)))
    ]
  ]

  -- What a guarded request does, from the snapshot, the result of the handler and the answer.
  abbrev pub IsTransaction : Config → Panel × Response → Panel × Response → Type 0
  IsTransaction before (after, w) (result, answer) =
      (is_success (status_of w) ≡ false) × (answer.status ≡ status_of w) × (result ≡ after)
      ⊎ ((is_success (status_of w) ≡ true)
          × Outcome before after (status_of w) result answer.status)

  pub transaction-outcome :
      (next : Handler) (r : Request) (p : Panel) (before : Config)
      → IsTransaction before (next p) (transaction o next r p (some before))
  unfolding transaction flush
  transaction-outcome next r p before = elim (Bool-cases (is_success (status_of (next p).1))) [
    | inr failed ↦ rw failed (inl (refl, refl, refl))
    | inl ok ↦ rw ok (inr (refl, commit-IsTransaction before r (next p).0 (next p).1 ok))
  ]

  pub config_guard-passed :
      (next : Handler) (r : Request) (p : Panel)
      → is_passed_on r ≡ true
      → config_guard o next r p ≡ next p
  config_guard-passed next r p h =
      unfold config_guard in
      passed-lem (str_eq r.path (codes "/dns-query")) (is_safe_method r.method) (has_header r)
        (str_eq r.path (codes "/api/login")) (next p) (p, missing_header)
        (transaction o next r p (o.clone p.cfg)) h

  pub config_guard-guarded :
      (next : Handler) (r : Request) (p : Panel)
      → is_passed_on r ≡ false
      → has_header r ≡ true
      → config_guard o next r p ≡ transaction o next r p (o.clone p.cfg)
  config_guard-guarded next r p h y =
      unfold config_guard in
      guarded-lem (str_eq r.path (codes "/dns-query")) (is_safe_method r.method) (has_header r)
        (str_eq r.path (codes "/api/login")) (next p) (p, missing_header)
        (transaction o next r p (o.clone p.cfg)) h y

  -- A request that is not passed on and carries no header is refused with 403 and changes nothing.
  pub config_guard-header :
      (next : Handler) (r : Request) (p : Panel)
      → is_passed_on r ≡ false
      → has_header r ≡ false
      → ((config_guard o next r p).0 ≡ p) × (((config_guard o next r p).1).status ≡ 403)
  config_guard-header next r p h n = (ap (λ x. x.0) same, ap (λ x. (x.1).status) same)
    where
      same : config_guard o next r p ≡ (p, missing_header)
      same =
          unfold config_guard in
          refused-lem (str_eq r.path (codes "/dns-query")) (is_safe_method r.method) (has_header r)
            (str_eq r.path (codes "/api/login")) (next p) (p, missing_header)
            (transaction o next r p (o.clone p.cfg)) h n

  -- A guarded request with the header, when the snapshot `before` is made: if the handler fails, its
  -- status is the answer and the panel is as the handler left it; if it succeeds, either the answer is a
  -- success and the handler's configuration is valid, in the file and in force with an empty cache, or
  -- the answer is a failure and the configuration is the snapshot, with the file as the handler left it
  -- and with the blocking state of the handler.
  pub config_guard-outcome :
      (next : Handler) (r : Request) (p : Panel) (before : Config)
      → is_passed_on r ≡ false
      → has_header r ≡ true
      → o.clone p.cfg ≡ some before
      → IsTransaction before (next p) (config_guard o next r p)
  config_guard-outcome next r p before h y e = rw same (transaction-outcome next r p before)
    where
      same : config_guard o next r p ≡ transaction o next r p (some before)
      same = config_guard-guarded next r p h y ∙ ap (transaction o next r p) e
