-- ===== src/Profiles/Kept.antt =====
-- The profiles of the clients when a profile is renamed or removed (clients_api.go).
use moreno_dnsleaf.Prelude.{ℕ, Bool, true, false, Option, none, some, if◌then◌else◌, All, ◌≡◌, ◌⊎◌}
use moreno_dnsleaf.Prelude.Map.{Map, get}
use moreno_dnsleaf.Prelude.Text.{Str, codes, str_eq, is_empty, trim_space, trim_prefix}
use moreno_dnsleaf.Config.{Config}
use moreno_dnsleaf.Profiles.{
  Answer, done, no_content, failed, has_profile, ProfileChange, ProfileRequest, post,
  handle_profiles, handle_profile_path,
}

-- The name after a renaming.
abbrev pub renamed : Str → Str → Str → Str
renamed old name profile = if str_eq profile old then name else profile

abbrev pub renamed_entry : Str → Str → Option Str → Option Str
renamed_entry old name none = none
renamed_entry old name (some profile) = some (renamed old name profile)

abbrev pub old_name_of : ProfileChange → Str
old_name_of body =
    if is_empty (trim_space body.old_name) then trim_space body.name else trim_space body.old_name

-- A handler that fails leaves the configuration as it was.
abbrev pub IsFailure : Config → Config × Answer → Type 0
IsFailure cfg x = (x.0 ≡ cfg) × ((status : ℕ) × (x.1 ≡ failed status))

-- A saved profile: it is there, each client has the profile that it had, under its new name, and so
-- has the default profile unless the saved one becomes it.
abbrev pub IsSaved : ProfileChange → Config → Config × Answer → Type 0
IsSaved body cfg x =
    let name = trim_space body.name in
    (x.1 ≡ done)
    × (has_profile x.0 name ≡ true)
    × ((ip : Str)
        → get ip x.0.client_profiles
          ≡ renamed_entry (old_name_of body) name (get ip cfg.client_profiles))
    × (x.0.default_profile ≡ (
        if body.default_profile then name else renamed (old_name_of body) name cfg.default_profile))

-- A removed profile: it is gone, no client has it, and each client of another profile keeps that.
abbrev pub IsRemoved : Str → Config → Config × Answer → Type 0
IsRemoved name cfg x =
    (x.1 ≡ no_content)
    × (has_profile x.0 name ≡ false)
    × All (λ e. str_eq e.1 name ≡ false) x.0.client_profiles
    × ((ip profile : Str)
        → get ip cfg.client_profiles ≡ some profile
        → str_eq profile name ≡ false
        → get ip x.0.client_profiles ≡ some profile)

-- What the two handlers of profiles do to the clients.
abbrev pub ProfileIsKept : ProfileRequest → Config → Type 0
ProfileIsKept (post (some body)) cfg =
    IsFailure cfg (handle_profiles (post (some body)) cfg)
    ⊎ IsSaved body cfg (handle_profiles (post (some body)) cfg)
ProfileIsKept s cfg = (handle_profiles s cfg).0 ≡ cfg

module _ (unescape : Str → Option Str) (path : Str) where
  abbrev pub RemovalIsKept : Bool → Config → Type 0
  RemovalIsKept is_delete cfg =
      let x = handle_profile_path unescape path is_delete cfg in
      IsFailure cfg x
      ⊎ ((name : Str) × (unescape (trim_prefix (codes "/api/profiles/") path) ≡ some name)
          × IsRemoved (trim_space name) cfg x)
