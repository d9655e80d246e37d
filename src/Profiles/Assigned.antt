-- ===== src/Profiles/Assigned.antt =====
-- The profiles that clients have: the handlers of clients_api.go.
use moreno_dnsleaf.Prelude.{
  Bool, true, false, not, ◌&&◌, ◌||◌, [], ◌∷◌, Option, none, some, if◌then◌else◌, is_some, All, ◌≡◌,
  ◌∙◌, arith, inl, inr, Bool-cases, if-cases,
}
use moreno_dnsleaf.Prelude.Map.{Map, get, put, delete, get-put, get-delete}
use moreno_dnsleaf.Prelude.Text.{
  Str, codes, str_eq, str_eq_iff, is_empty, trim_space, has_prefix, has_suffix,
}
use moreno_dnsleaf.Config.{Config, ClientProfile}
use moreno_dnsleaf.Profiles.{
  Clientele, Answer, profiles_of, has_profile, assign_profile, rename_client, whitelist_client,
  patch_client, delete_client, ClientRequest, get_clients, patch, delete_one, other_method,
  handle_clients, ProfileChange, cleaned_profile, rename_values, rename_profile, store_profile,
  post_profile, ProfileRequest, get_profiles, post, other_profile_method, handle_profiles,
  without_profile, remove_profile, handle_profile_path, PathMethod, get_profile, post_profile_name,
  other_path_method, client_profile_for, client_profile_at, handle_client_profile_path,
}

-- The profile of each client is there, and so is the default one.
abbrev pub HasProfiles : Config → Type 0
HasProfiles cfg =
    All (λ e. has_profile cfg e.1 ≡ true) cfg.client_profiles
    × (has_profile cfg cfg.default_profile ≡ true)

module _ {V : Type 0} (P : Str × V → Type 0) where
  All-put : (k : Str) (v : V) (m : Map V) → P (k, v) → All P m → All P (put k v m)
  unfolding put
  All-put k v [] new h = (new, tt)
  All-put k v ((j, w) ∷ m) new (first, rest) =
      if-cases (All P) (str_eq j k) (new, rest) (first, All-put k v m new rest)

  All-delete : (k : Str) (m : Map V) → All P m → All P (delete k m)
  unfolding delete
  All-delete k [] h = tt
  All-delete k ((j, w) ∷ m) (first, rest) =
      if-cases (All P) (str_eq j k) (All-delete k m rest) (first, All-delete k m rest)

  All-weaken : (Q : Str × V → Type 0) (m : Map V) → ((e : Str × V) → P e → Q e) → All P m → All Q m
  All-weaken Q [] f h = tt
  All-weaken Q (e ∷ m) f (first, rest) = (f e first, All-weaken Q m f rest)

has-put :
    (k j : Str) (v : ClientProfile) (m : Map ClientProfile)
    → is_some (get j (put k v m)) ≡ (str_eq k j || is_some (get j m))
has-put k j v m = ground (arith, get-put k j v m)

has-delete :
    (k j : Str) (m : Map ClientProfile)
    → is_some (get j (delete k m)) ≡ (not (str_eq k j) && is_some (get j m))
has-delete k j m = ground (arith, get-delete k j m)

assign_profile-HasProfiles :
    (cfg : Config) (ip profile : Str)
    → HasProfiles cfg
    → HasProfiles (assign_profile cfg ip profile).0
unfolding assign_profile
assign_profile-HasProfiles cfg ip profile (clients, default) =
    elim (Bool-cases (is_empty profile)) [
      | inl no_profile ↦ rw no_profile (All-delete _ ip cfg.client_profiles clients, default)
      | inr named ↦ rw named (elim (Bool-cases (has_profile cfg profile)) [
        | inl there ↦ rw there (All-put _ ip profile cfg.client_profiles there clients, default)
        | inr missing ↦ rw missing (clients, default)
      ])
    ]

whitelist_client-HasProfiles :
    (cfg : Config) (ip : Str) (on : Option Bool)
    → HasProfiles cfg
    → HasProfiles (whitelist_client cfg ip on)
unfolding whitelist_client
whitelist_client-HasProfiles cfg ip none h = h
whitelist_client-HasProfiles cfg ip (some on) h = h

handle_clients-HasProfiles :
    (r : ClientRequest) (c : Clientele)
    → HasProfiles c.cfg
    → HasProfiles ((handle_clients r c).0).cfg
unfolding handle_clients patch_client delete_client rename_client
handle_clients-HasProfiles get_clients c h = h
handle_clients-HasProfiles (patch none) c h = h
handle_clients-HasProfiles (patch (some body)) c h =
    let ip = trim_space body.ip in
    if-cases (λ (x : Clientele × Answer). HasProfiles x.0.cfg) (is_empty ip) h
      (assign_profile-HasProfiles
        (whitelist_client (rename_client c.cfg ip (trim_space body.name)) ip body.whitelisted) ip
        (trim_space body.profile)
        (whitelist_client-HasProfiles (rename_client c.cfg ip (trim_space body.name)) ip
          body.whitelisted h))
handle_clients-HasProfiles (delete_one none) c h = h
handle_clients-HasProfiles (delete_one (some body)) c (clients, default) =
    if-cases (λ (x : Clientele × Answer). HasProfiles x.0.cfg) (is_empty (trim_space body))
      (clients, default) (All-delete _ (trim_space body) c.cfg.client_profiles clients, default)
handle_clients-HasProfiles other_method c h = h

-- Each profile in use is there or is the one of that name.
abbrev IsNearly : Config → Str → Type 0
IsNearly cfg name =
    All (λ e. (str_eq name e.1 || has_profile cfg e.1) ≡ true) cfg.client_profiles
    × ((str_eq name cfg.default_profile || has_profile cfg cfg.default_profile) ≡ true)

renamed-known :
    (old name profile : Str) (m : Map ClientProfile)
    → is_some (get profile m) ≡ true
    → (str_eq name (if str_eq profile old then name else profile)
        || is_some (get (if str_eq profile old then name else profile) (delete old m)))
      ≡ true
renamed-known old name profile m h = elim (Bool-cases (str_eq profile old)) [
  | inl same ↦ rw same (ground (arith, str_eq_iff name name))
  | inr other ↦
      rw other
        (ground (arith, has-delete old profile m, str_eq_iff old profile, str_eq_iff profile old))
]

All-rename_values :
    (old name : Str) (m : Map ClientProfile) (clients : Map Str)
    → All (λ e. is_some (get e.1 m) ≡ true) clients
    → All
        (λ e. (str_eq name e.1 || is_some (get e.1 (delete old m))) ≡ true)
        (rename_values old name clients)
unfolding rename_values
All-rename_values old name m [] h = tt
All-rename_values old name m ((ip, profile) ∷ clients) (first, rest) =
    (renamed-known old name profile m first, All-rename_values old name m clients rest)

rename_profile-IsNearly :
    (cfg : Config) (old name : Str) → HasProfiles cfg → IsNearly (rename_profile cfg old name) name
unfolding rename_profile
rename_profile-IsNearly cfg old name (clients, default) = elim (Bool-cases (str_eq old name)) [
  | inl same ↦ rw same (
    All-weaken (λ e. has_profile cfg e.1 ≡ true)
        (λ e. (str_eq name e.1 || has_profile cfg e.1) ≡ true) cfg.client_profiles
        (λ e h. ground (arith, h)) clients,
    ground (arith, default),
  )
  | inr other ↦ rw other (
    All-rename_values old name (profiles_of cfg) cfg.client_profiles clients,
    renamed-known old name cfg.default_profile (profiles_of cfg) default,
  )
]

store_profile-HasProfiles :
    (cfg : Config) (name : Str) (body : ProfileChange)
    → IsNearly cfg name
    → HasProfiles (store_profile cfg name body)
unfolding store_profile
store_profile-HasProfiles cfg name body (clients, default) =
    let profile = cleaned_profile body.profile in
    (
      All-weaken (λ e. (str_eq name e.1 || has_profile cfg e.1) ≡ true)
          (λ e. is_some (get e.1 (put name profile (profiles_of cfg))) ≡ true) cfg.client_profiles
          (λ e h. has-put name e.1 profile (profiles_of cfg) ∙ h) clients,
      if-cases (λ d. is_some (get d (put name profile (profiles_of cfg))) ≡ true)
          body.default_profile
          (ground (arith, has-put name name profile (profiles_of cfg), str_eq_iff name name))
          (has-put name cfg.default_profile profile (profiles_of cfg) ∙ default),
    )

handle_profiles-HasProfiles :
    (r : ProfileRequest) (cfg : Config) → HasProfiles cfg → HasProfiles (handle_profiles r cfg).0
unfolding handle_profiles post_profile
handle_profiles-HasProfiles get_profiles cfg h = h
handle_profiles-HasProfiles (post none) cfg h = h
handle_profiles-HasProfiles (post (some body)) cfg h =
    let name = trim_space body.name in
    let old = if is_empty (trim_space body.old_name) then name else trim_space body.old_name in
    if-cases (λ (x : Config × Answer). HasProfiles x.0) (is_empty name) h
      (if-cases (λ (x : Config × Answer). HasProfiles x.0)
        (not (str_eq old name) && has_profile cfg name) h
        (store_profile-HasProfiles (rename_profile cfg old name) name body
          (rename_profile-IsNearly cfg old name h)))
handle_profiles-HasProfiles other_profile_method cfg h = h

All-without_profile :
    (name : Str) (m : Map ClientProfile) (clients : Map Str)
    → All (λ e. is_some (get e.1 m) ≡ true) clients
    → All (λ e. is_some (get e.1 (delete name m)) ≡ true) (without_profile name clients)
All-without_profile name m [] h = tt
All-without_profile name m (e ∷ clients) (first, rest) = elim (Bool-cases (str_eq e.1 name)) [
  | inl same ↦ rw same (All-without_profile name m clients rest)
  | inr other ↦ rw other (
    ground (arith, has-delete name e.1 m, first, str_eq_iff name e.1, str_eq_iff e.1 name),
    All-without_profile name m clients rest,
  )
]

removed-HasProfiles :
    (cfg : Config) (name : Str)
    → HasProfiles cfg
    → str_eq name cfg.default_profile ≡ false
    → HasProfiles (record cfg {
      profiles = some (delete name (profiles_of cfg));
      client_profiles = without_profile name cfg.client_profiles;
    })
removed-HasProfiles cfg name (clients, default) other = (
  All-without_profile name (profiles_of cfg) cfg.client_profiles clients,
  ground (arith, has-delete name cfg.default_profile (profiles_of cfg), default),
)

remove_profile-HasProfiles :
    (cfg : Config) (is_delete : Bool) (text : Option Str)
    → HasProfiles cfg
    → HasProfiles (remove_profile cfg is_delete text).0
unfolding remove_profile
remove_profile-HasProfiles cfg is_delete none h = h
remove_profile-HasProfiles cfg is_delete (some text) h =
    let name = trim_space text in
    if-cases (λ (x : Config × Answer). HasProfiles x.0) (is_empty name) h
      (if-cases (λ (x : Config × Answer). HasProfiles x.0) (not is_delete) h
        (elim (Bool-cases (str_eq name (codes "off") || str_eq name cfg.default_profile)) [
          | inl kept ↦ rw kept h
          | inr other ↦ rw other (
              if-cases (λ (x : Config × Answer). HasProfiles x.0) (not (has_profile cfg name)) h
                (removed-HasProfiles cfg name h (ground (arith, other))))
        ]))

module _ (unescape : Str → Option Str) (path : Str) where
  handle_profile_path-HasProfiles :
      (is_delete : Bool) (cfg : Config)
      → HasProfiles cfg
      → HasProfiles (handle_profile_path unescape path is_delete cfg).0
  unfolding handle_profile_path
  handle_profile_path-HasProfiles is_delete cfg h =
      if-cases (λ (x : Config × Answer). HasProfiles x.0)
        (not (has_prefix (codes "/api/profiles/") path)) h
        (remove_profile-HasProfiles cfg is_delete _ h)

  client_profile_for-HasProfiles :
      (cfg : Config) (ip : Str) (method : PathMethod)
      → HasProfiles cfg
      → HasProfiles (client_profile_for cfg ip method).0
  unfolding client_profile_for
  client_profile_for-HasProfiles cfg ip get_profile h = h
  client_profile_for-HasProfiles cfg ip (post_profile_name none) h = h
  client_profile_for-HasProfiles cfg ip (post_profile_name (some profile)) h =
      assign_profile-HasProfiles cfg ip (trim_space profile) h
  client_profile_for-HasProfiles cfg ip other_path_method h = h

  client_profile_at-HasProfiles :
      (cfg : Config) (method : PathMethod) (text : Option Str)
      → HasProfiles cfg
      → HasProfiles (client_profile_at cfg method text).0
  unfolding client_profile_at
  client_profile_at-HasProfiles cfg method none h = h
  client_profile_at-HasProfiles cfg method (some text) h =
      if-cases (λ (x : Config × Answer). HasProfiles x.0) (is_empty (trim_space text)) h
        (client_profile_for-HasProfiles cfg (trim_space text) method h)

  -- The handlers of clients and profiles keep that the profile of each client and the default profile
  -- are there: a profile that is renamed is renamed where it is used, and one that is removed is not
  -- the default one and is taken from its clients.
  pub handlers-HasProfiles :
      (r : ClientRequest) (s : ProfileRequest) (is_delete : Bool) (method : PathMethod)
      (c : Clientele)
      → HasProfiles c.cfg
      → HasProfiles ((handle_clients r c).0).cfg
        × HasProfiles (handle_profiles s c.cfg).0
        × HasProfiles (handle_profile_path unescape path is_delete c.cfg).0
        × HasProfiles (handle_client_profile_path unescape path method c.cfg).0
  unfolding handle_client_profile_path
  handlers-HasProfiles r s is_delete method c h = (
    handle_clients-HasProfiles r c h,
    handle_profiles-HasProfiles s c.cfg h,
    handle_profile_path-HasProfiles is_delete c.cfg h,
    if-cases (λ (x : Config × Answer). HasProfiles x.0)
        (not (has_prefix (codes "/api/clients/") path && has_suffix (codes "/profile") path)) h
        (client_profile_at-HasProfiles c.cfg method _ h),
  )
