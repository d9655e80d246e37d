-- ===== src/Profiles.antt =====
-- The clients and profiles of the panel: `handleClients`, `handleClearDeniedClients`, `handleProfiles`,
-- `handleProfilePath` and `handleClientProfilePath` of clients_api.go, and `ensureBuiltinProfiles` of
-- config.go. A decoded body is an argument, `none` where it is not JSON, and so is `url.PathUnescape`.
pub mod Assigned
pub mod Kept
use moreno_dnsleaf.Prelude.{
  ℕ, ◌+◌, Bool, true, false, not, ◌&&◌, ◌||◌, List, [], ◌∷◌, ◌++◌, Option, none, some, map, keep,
  if◌then◌else◌, is_some,
}
use moreno_dnsleaf.Prelude.Map.{Map, get, put, delete, map_program}
use moreno_dnsleaf.Prelude.Text.{
  Str, codes, str_eq, is_empty, trim_space, has_prefix, has_suffix, trim_prefix, trim_suffix,
  text_program,
}
use moreno_dnsleaf.Deps.{Net}
use moreno_dnsleaf.Config.{Config, ClientProfile}
use moreno_dnsleaf.Addresses.{client_allowed, addresses_program}
use moreno_dnsleaf.Clients.{ClientState}
use moreno_dnsleaf.Policy.Lists.{clean_names, clean_rules, lists_program}

-- What the handlers change: the configuration and the clients.
pub record Clientele : Type 0 where
  pub cfg : Config
  pub clients : Map ClientState

-- An answer with data, 204, the number of removed clients, or an error.
pub data Answer : Type 0 where
  done : Answer
  no_content : Answer
  removed : ℕ → Answer
  failed : ℕ → Answer

abbrev pub map_or_new {ℓ} : {V : Type ℓ} → Option (Map V) → Map V
map_or_new none = []
map_or_new (some m) = m

abbrev pub profiles_of : Config → Map ClientProfile
profiles_of cfg = map_or_new cfg.profiles

abbrev pub has_profile : Config → Str → Bool
has_profile cfg name = is_some (get name (profiles_of cfg))

abbrev pub empty_profile : Bool → ClientProfile
empty_profile disable_blocking = record {
  disabled = false;
  disable_blocking = disable_blocking;
  safe_search = false;
  blocklists = [];
  blocked = [];
  allowed = [];
}

unfoldable pub put_missing : Str → ClientProfile → Map ClientProfile → Map ClientProfile
put_missing name profile m = if is_some (get name m) then m else put name profile m

unfoldable pub ensure_builtin_profiles : Config → Config
ensure_builtin_profiles cfg = record cfg {
  profiles = some (
      put_missing (codes "off") (empty_profile true)
        (put_missing (codes "default") (empty_profile false) (profiles_of cfg)));
  default_profile =
      if is_empty (trim_space cfg.default_profile) then codes "default" else cfg.default_profile;
}

-- The profile of a client, set or taken away.
unfoldable pub assign_profile : Config → Str → Str → Config × Answer
assign_profile cfg ip profile =
    if is_empty profile
    then (record cfg { client_profiles = delete ip cfg.client_profiles }, done)
    else if not (has_profile cfg profile)
    then (cfg, failed 404)
    else (record cfg { client_profiles = put ip profile cfg.client_profiles }, done)

pub record ClientChange : Type 0 where
  pub ip : Str
  pub name : Str
  pub profile : Str
  pub whitelisted : Option Bool

unfoldable pub rename_client : Config → Str → Str → Config
rename_client cfg ip name =
    let names = map_or_new cfg.client_names in
    record cfg {
      client_names = some (if is_empty name then delete ip names else put ip name names);
    }

unfoldable pub whitelist_client : Config → Str → Option Bool → Config
whitelist_client cfg ip none = cfg
whitelist_client cfg ip (some on) =
    let others = keep (λ item. not (str_eq item ip)) cfg.whitelist in
    record cfg { whitelist = if on then others ++ ip ∷ [] else others }

abbrev pub with_cfg : Clientele → Config × Answer → Clientele × Answer
with_cfg c (cfg, answer) = (record c { cfg = cfg }, answer)

unfoldable pub patch_client : Clientele → Option ClientChange → Clientele × Answer
patch_client c none = (c, failed 400)
patch_client c (some body) =
    let ip = trim_space body.ip in
    let renamed = rename_client c.cfg ip (trim_space body.name) in
    let listed = whitelist_client renamed ip body.whitelisted in
    if is_empty ip
    then (c, failed 400)
    else with_cfg c (assign_profile listed ip (trim_space body.profile))

unfoldable pub forget_name : Str → Option (Map Str) → Option (Map Str)
forget_name ip none = none
forget_name ip (some names) = some (delete ip names)

unfoldable pub delete_client : Clientele → Option Str → Clientele × Answer
delete_client c none = (c, failed 400)
delete_client c (some body) =
    let ip = trim_space body in
    if is_empty ip then (c, failed 400) else (
      record {
        cfg = record (c.cfg) {
          client_names = forget_name ip c.cfg.client_names;
          client_profiles = delete ip c.cfg.client_profiles;
          whitelist = keep (λ item. not (str_eq item ip)) c.cfg.whitelist;
        };
        clients = delete ip c.clients;
      },
      done,
    )

pub data ClientRequest : Type 0 where
  get_clients : ClientRequest
  patch : Option ClientChange → ClientRequest
  delete_one : Option Str → ClientRequest
  other_method : ClientRequest

unfoldable pub handle_clients : ClientRequest → Clientele → Clientele × Answer
handle_clients get_clients c = (c, done)
handle_clients (patch body) c = patch_client c body
handle_clients (delete_one body) c = delete_client c body
handle_clients other_method c = (c, failed 405)

-- The loop over the clients, in the order of iteration, with the number of those removed.
unfoldable pub clear_denied : Net → Config → Map ClientState → Map ClientState → Map ClientState × ℕ
clear_denied net cfg [] clients = (clients, 0)
clear_denied net cfg ((ip, state) ∷ order) clients =
    let kept = clear_denied net cfg order clients in
    let (fewer, count) = clear_denied net cfg order (delete ip clients) in
    if client_allowed net cfg ip then kept else (fewer, count + 1)

unfoldable pub handle_clear_denied_clients :
    Net → (Map ClientState → Map ClientState) → Bool → Clientele → Clientele × Answer
handle_clear_denied_clients net range is_post c =
    let (clients, count) = clear_denied net c.cfg (range c.clients) c.clients in
    if not is_post then (c, failed 405) else (record c { clients = clients }, removed count)

pub record ProfileChange : Type 0 where
  pub old_name : Str
  pub name : Str
  pub default_profile : Bool
  pub profile : ClientProfile

unfoldable pub cleaned_profile : ClientProfile → ClientProfile
cleaned_profile profile = record profile {
  allowed = clean_rules profile.allowed;
  blocked = clean_rules profile.blocked;
  blocklists = clean_names profile.blocklists;
}

-- The clients of a profile get the new name.
unfoldable pub rename_values : Str → Str → Map Str → Map Str
rename_values old name [] = []
rename_values old name ((ip, profile) ∷ m) =
    (ip, if str_eq profile old then name else profile) ∷ rename_values old name m

unfoldable pub rename_profile : Config → Str → Str → Config
rename_profile cfg old name = if str_eq old name then cfg else record cfg {
  profiles = some (delete old (profiles_of cfg));
  client_profiles = rename_values old name cfg.client_profiles;
  default_profile = if str_eq cfg.default_profile old then name else cfg.default_profile;
}

unfoldable pub store_profile : Config → Str → ProfileChange → Config
store_profile cfg name body = record cfg {
  profiles = some (put name (cleaned_profile body.profile) (profiles_of cfg));
  default_profile = if body.default_profile then name else cfg.default_profile;
}

unfoldable pub post_profile : Config → Option ProfileChange → Config × Answer
post_profile cfg none = (cfg, failed 400)
post_profile cfg (some body) =
    let name = trim_space body.name in
    let asked = trim_space body.old_name in
    let old = if is_empty asked then name else asked in
    if is_empty name
    then (cfg, failed 400)
    else if not (str_eq old name) && has_profile cfg name
    then (cfg, failed 409)
    else (store_profile (rename_profile cfg old name) name body, done)

pub data ProfileRequest : Type 0 where
  get_profiles : ProfileRequest
  post : Option ProfileChange → ProfileRequest
  other_profile_method : ProfileRequest

unfoldable pub handle_profiles : ProfileRequest → Config → Config × Answer
handle_profiles get_profiles cfg = (cfg, done)
handle_profiles (post body) cfg = post_profile cfg body
handle_profiles other_profile_method cfg = (cfg, failed 405)

-- The clients that do not have a profile.
abbrev pub without_profile : Str → Map Str → Map Str
without_profile name m = keep (λ e. not (str_eq e.1 name)) m

unfoldable pub remove_profile : Config → Bool → Option Str → Config × Answer
remove_profile cfg is_delete none = (cfg, failed 400)
remove_profile cfg is_delete (some text) =
    let name = trim_space text in
    if is_empty name
    then (cfg, failed 400)
    else if not is_delete
    then (cfg, failed 405)
    else if str_eq name (codes "off") || str_eq name cfg.default_profile
    then (cfg, failed 400)
    else if not (has_profile cfg name)
    then (cfg, failed 404)
    else (
      record cfg {
        profiles = some (delete name (profiles_of cfg));
        client_profiles = without_profile name cfg.client_profiles;
      },
      no_content,
    )

-- A path below `/api/profiles/`, and whether the method is DELETE.
unfoldable pub handle_profile_path : (Str → Option Str) → Str → Bool → Config → Config × Answer
handle_profile_path unescape path is_delete cfg =
    if not (has_prefix (codes "/api/profiles/") path)
    then (cfg, failed 404)
    else remove_profile cfg is_delete (unescape (trim_prefix (codes "/api/profiles/") path))

pub data PathMethod : Type 0 where
  get_profile : PathMethod
  post_profile_name : Option Str → PathMethod
  other_path_method : PathMethod

unfoldable pub client_profile_for : Config → Str → PathMethod → Config × Answer
client_profile_for cfg ip get_profile = (cfg, done)
client_profile_for cfg ip (post_profile_name none) = (cfg, failed 400)
client_profile_for cfg ip (post_profile_name (some profile)) =
    assign_profile cfg ip (trim_space profile)
client_profile_for cfg ip other_path_method = (cfg, failed 405)

unfoldable pub client_profile_at : Config → PathMethod → Option Str → Config × Answer
client_profile_at cfg method none = (cfg, failed 400)
client_profile_at cfg method (some text) =
    if is_empty (trim_space text)
    then (cfg, failed 400)
    else client_profile_for cfg (trim_space text) method

-- A path `/api/clients/…/profile`.
unfoldable pub handle_client_profile_path :
    (Str → Option Str) → Str → PathMethod → Config → Config × Answer
handle_client_profile_path unescape path method cfg =
    if not (has_prefix (codes "/api/clients/") path && has_suffix (codes "/profile") path)
    then (cfg, failed 404)
    else client_profile_at cfg method
        (unescape (trim_suffix (codes "/profile") (trim_prefix (codes "/api/clients/") path)))

-- For tests: all that a run of these functions computes with.
unfoldable pub profiles_program : Unit {0}
unfolding text_program map_program addresses_program lists_program put_missing
    ensure_builtin_profiles assign_profile rename_client whitelist_client patch_client forget_name
    delete_client handle_clients clear_denied handle_clear_denied_clients cleaned_profile
    rename_values rename_profile store_profile post_profile handle_profiles remove_profile
    handle_profile_path client_profile_for client_profile_at handle_client_profile_path
profiles_program = tt
