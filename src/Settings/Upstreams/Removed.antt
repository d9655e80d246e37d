-- ===== src/Settings/Upstreams/Removed.antt =====
-- Adding an upstream and removing it again: `handleUpstreams` of clients_api.go.
use moreno_dnsleaf.Prelude.{
  Bool, true, false, not, List, [], ◌∷◌, ◌++◌, some, if◌then◌else◌, keep, any, is_some, ◌≡◌, refl,
  arith, if-cases,
}
use moreno_dnsleaf.Prelude.Text.{Str, str_eq, str_eq_refl, is_empty, trim_space, to_lower}
use moreno_dnsleaf.Deps.{Net, Urls}
use moreno_dnsleaf.Messages.{Dns}
use moreno_dnsleaf.Config.{Config, UpstreamEndpoint}
use moreno_dnsleaf.Checks.Endpoints.{validate_upstream_endpoint}
use moreno_dnsleaf.Profiles.{Answer, done, failed, no_content}
use moreno_dnsleaf.Settings.Upstreams.{
  NewUpstream, post_upstream, delete_upstream, is_plain_protocol, with_port, endpoint_of,
  remove_first, remove_upstream, add_upstream, handle_upstreams,
}

abbrev pub names_none : Str → List Str → Bool
names_none addr items = not (any (λ item. str_eq item addr) items)

-- No upstream, endpoint or disabled upstream of the configuration has the address.
abbrev pub IsNew : Str → Config → Type 0
IsNew addr cfg =
    (names_none addr cfg.upstreams ≡ true)
    × (any (λ e. str_eq e.url addr) cfg.upstream_endpoints ≡ false)
    × (names_none addr cfg.disabled_upstreams ≡ true)

-- The address under which the handler adds an upstream.
abbrev pub added_address : NewUpstream → Str
added_address body =
    if is_plain_protocol (to_lower (trim_space body.protocol))
    then with_port (trim_space body.address)
    else (endpoint_of body).url

remove_first_absent :
    (addr : Str) (items : List Str) → names_none addr items ≡ true → remove_first addr items ≡ items
unfolding remove_first
remove_first_absent addr [] h = refl
remove_first_absent addr (x ∷ xs) h = ground (arith, remove_first_absent addr xs)

remove_first-append :
    (addr : Str) (items : List Str)
    → names_none addr items ≡ true
    → remove_first addr (items ++ addr ∷ []) ≡ items
unfolding remove_first
remove_first-append addr [] h = rw (str_eq_refl addr) refl
remove_first-append addr (x ∷ xs) h = ground (arith, remove_first-append addr xs)

module _ {A : Type 0} (test : A → Bool) where
  keep_absent : (xs : List A) → any test xs ≡ false → keep (λ x. not (test x)) xs ≡ xs
  keep_absent [] h = refl
  keep_absent (x ∷ xs) h = ground (arith, keep_absent xs)

  keep-append :
      (xs : List A) (y : A)
      → any test xs ≡ false
      → test y ≡ true
      → keep (λ x. not (test x)) (xs ++ y ∷ []) ≡ xs
  keep-append [] y h t = rw t refl
  keep-append (x ∷ xs) y h t = ground (arith, keep-append xs y)

remove_upstream_absent :
    (addr : Str) (cfg : Config)
    → IsNew addr cfg
    → remove_upstream cfg (some addr) ≡ (cfg, no_content)
unfolding remove_upstream
remove_upstream_absent addr cfg (upstream, endpoint, disabled) =
    rw
      (
        remove_first_absent addr cfg.upstreams upstream,
        keep_absent (λ (e : UpstreamEndpoint). str_eq e.url addr) cfg.upstream_endpoints endpoint,
        keep_absent (λ item. str_eq item addr) cfg.disabled_upstreams (ground arith),
      )
      refl

-- The three ways of an addition: an upstream, an endpoint that is refused, and one that is accepted.
abbrev addition : Bool → Bool → Str → UpstreamEndpoint → Config → Config × Answer
addition plain bad addr e cfg =
    if plain
    then (record cfg { upstreams = cfg.upstreams ++ addr ∷ [] }, done)
    else if bad
    then (cfg, failed 400)
    else (record cfg { upstream_endpoints = cfg.upstream_endpoints ++ e ∷ [] }, done)

remove_upstream-added :
    (plain bad : Bool) (addr : Str) (e : UpstreamEndpoint) (cfg : Config)
    → IsNew (if plain then addr else e.url) cfg
    → remove_upstream (addition plain bad addr e cfg).0 (some (if plain then addr else e.url))
      ≡ (cfg, no_content)
unfolding remove_upstream
remove_upstream-added true bad addr e cfg (upstream, endpoint, disabled) =
    rw
      (
        remove_first-append addr cfg.upstreams upstream,
        keep_absent (λ (e : UpstreamEndpoint). str_eq e.url addr) cfg.upstream_endpoints endpoint,
        keep_absent (λ item. str_eq item addr) cfg.disabled_upstreams (ground arith),
      )
      refl
remove_upstream-added false true addr e cfg new = remove_upstream_absent e.url cfg new
remove_upstream-added false false addr e cfg (upstream, endpoint, disabled) =
    rw
      (
        remove_first_absent e.url cfg.upstreams upstream,
        keep-append (λ (x : UpstreamEndpoint). str_eq x.url e.url) cfg.upstream_endpoints e endpoint
            (str_eq_refl e.url),
        keep_absent (λ item. str_eq item e.url) cfg.disabled_upstreams (ground arith),
      )
      refl

module _ (net : Net) (dns : Dns) (urls : Urls) where
  -- An upstream or endpoint that is added under an address that the configuration does not have, and
  -- then removed by that address, leaves the configuration as it was, also where the addition fails.
  pub handle_upstreams-post_delete :
      (body : NewUpstream) (cfg : Config)
      → IsNew (added_address body) cfg
      → handle_upstreams net dns urls
          (delete_upstream (some (added_address body)))
          (handle_upstreams net dns urls (post_upstream (some body)) cfg).0
        ≡ (cfg, no_content)
  unfolding handle_upstreams add_upstream
  handle_upstreams-post_delete body cfg new =
      if-cases
        (λ (x : Config × Answer).
          remove_upstream x.0 (some (added_address body)) ≡ (cfg, no_content))
        (is_empty (trim_space body.address)) (remove_upstream_absent (added_address body) cfg new)
        (remove_upstream-added (is_plain_protocol (to_lower (trim_space body.protocol)))
          (is_some (validate_upstream_endpoint net dns urls (endpoint_of body)))
          (with_port (trim_space body.address)) (endpoint_of body) cfg new)
