-- ===== src/Tests/Entries.antt =====
-- Lists, groups, records, profiles and logs on concrete inputs.
use moreno_dnsleaf.Prelude.{
  ℕ, ◌*◌, true, false, List, [], ◌∷◌, Option, none, some, if◌then◌else◌, ◌≡◌, refl,
}
use moreno_dnsleaf.Prelude.Int.{pos, second}
use moreno_dnsleaf.Prelude.Text.{Str, codes, str_eq, text_program}
use moreno_dnsleaf.Deps.{Net}
use moreno_dnsleaf.Messages.{Rr}
use moreno_dnsleaf.Config.{Config, BlocklistSource, BlockGroup, Record}
use moreno_dnsleaf.Loading.{rebuild_blocklists, refresh_gravity}
use moreno_dnsleaf.Loading.Reading.{Sources, no_answer}
use moreno_dnsleaf.Loading.Rebuild.{IsRebuilt, rebuild_blocklists-IsRebuilt}
use moreno_dnsleaf.Logs.{Logs, Query, QueryEntry, Machine, add_log, logs_program}
use moreno_dnsleaf.Logs.Privacy.{IsAt, add_log-anonymous}
use moreno_dnsleaf.Guard.{Panel}
use moreno_dnsleaf.Policy.Lists.{
  GroupRequest, post_list, post_group, handle_blocklists, handle_block_groups,
}
use moreno_dnsleaf.Policy.Lists.Rebuilt.{IsDone, list_handlers-IsDone}
use moreno_dnsleaf.Policy.Lists.Groups.{HasGroups}
use moreno_dnsleaf.Policy.Lists.Regrouped.{IsRegrouped, handle_block_groups-IsKept}
use moreno_dnsleaf.Records.{import_records}
use moreno_dnsleaf.Records.Import.{import_records-twice}
use moreno_dnsleaf.Profiles.{Clientele, ClientRequest, ProfileRequest, patch, post, empty_profile}
use moreno_dnsleaf.Tests.Samples.{
  sample_config, sample_net, sample_regex, sample_blocking, sample_parts, sample_split, address_of,
}
use moreno_dnsleaf.Tests.Panel.{panel, panel_config}

-- A local and a remote list, and a group of the local one.
abbrev list_named : Str → Str → List Str → BlocklistSource
list_named name source groups = record {
  name = name;
  source = source;
  enabled = true;
  allowlist = [];
  groups = groups;
  last_loaded = 0;
  last_error = [];
  last_checked = [];
  last_refreshed = [];
  cache_age = pos 0;
}

abbrev local_list : BlocklistSource
local_list = list_named (codes "mine") (codes "lists/mine.txt") (codes "Kids" ∷ [])

abbrev remote_list : BlocklistSource
remote_list = list_named (codes "far") (codes "https://far.org/list") []

abbrev kids : BlockGroup
kids = record { name = codes "kids"; domains = codes "games.com" ∷ []; sources = [] }

abbrev files : Sources
files = record {
  local_file = λ s. record { content = some (codes "own.net"); from_cache = false; failure = none };
  cache_file = λ s. some (codes "0.0.0.0 far.net");
  is_recent = λ s. true;
  age = λ s. some (pos 60);
  fetch = λ s. no_answer (codes "refused");
  status_text = λ status. codes "HTTP";
  now_text = codes "now";
}

abbrev hostname : Str → Option Str
hostname s = none

abbrev list_config : Config
list_config = record panel_config {
  blocklists = local_list ∷ remote_list ∷ [];
  block_groups = kids ∷ [];
}

rebuild_blocklists-IsRebuilt_example :
    IsRebuilt sample_regex hostname files list_config false
      (rebuild_blocklists sample_regex hostname files list_config sample_blocking).1
    × IsRebuilt sample_regex hostname files list_config true
        (refresh_gravity sample_regex hostname files list_config sample_blocking).1
rebuild_blocklists-IsRebuilt_example =
    rebuild_blocklists-IsRebuilt sample_regex hostname files list_config sample_blocking

abbrev list_panel : Panel
list_panel = record panel { cfg = list_config }

abbrev rename_kids : GroupRequest
rename_kids =
    post_group (
      some
        (record { old_name = codes "KIDS"; name = codes "children"; domains = []; sources = [] }))

list_handlers-IsDone_example :
    IsDone sample_regex hostname files list_panel
      (handle_blocklists sample_regex hostname files (post_list (some remote_list)) list_panel)
    × IsDone sample_regex hostname files list_panel
        (handle_block_groups sample_regex hostname files rename_kids list_panel)
list_handlers-IsDone_example =
    list_handlers-IsDone sample_regex hostname files (post_list (some remote_list)) rename_kids
      list_panel

list_config-HasGroups : HasGroups list_config
unfolding text_program
list_config-HasGroups = ((refl, tt), (tt, tt))

handle_block_groups-IsKept_example :
    HasGroups (handle_block_groups sample_regex hostname files rename_kids list_panel).0.cfg
    × IsRegrouped sample_regex hostname files rename_kids list_panel
        (handle_block_groups sample_regex hostname files rename_kids list_panel)
handle_block_groups-IsKept_example =
    handle_block_groups-IsKept sample_regex hostname files rename_kids list_panel
      list_config-HasGroups

abbrev zone : List Rr
zone =
    address_of (codes "a.lan.") 300 (codes "10.0.0.7")
    ∷ address_of (codes "b.lan.") 300 (codes "10.0.0.8")
    ∷ []

abbrev text_of : Rr → Str
text_of rr = (rr.hdr).name

abbrev zone_records : List Record
zone_records = (import_records sample_net text_of false zone false []).0

import_records-twice_example :
    import_records sample_net text_of false zone false zone_records ≡ (zone_records, some (0, 2))
import_records-twice_example = import_records-twice sample_net text_of zone false []

abbrev profile_config : Config
profile_config = record sample_config {
  profiles =
      some ((codes "default", empty_profile false) ∷ (codes "kids", empty_profile false) ∷ []);
  default_profile = codes "default";
  client_profiles = (codes "10.0.0.7", codes "kids") ∷ [];
}

abbrev clientele : Clientele
clientele = record { cfg = profile_config; clients = [] }

abbrev no_profile_for : ClientRequest
no_profile_for = patch (
    some
      (record { ip = codes "10.0.0.7"; name = codes "tablet"; profile = []; whitelisted = none }))

abbrev rename_profile : ProfileRequest
rename_profile = post (
    some (record {
      old_name = codes "kids";
      name = codes "school";
      default_profile = false;
      profile = empty_profile false;
    }))

abbrev unescape : Str → Option Str
unescape s = some s

abbrev kids_path : Str
kids_path = codes "/api/profiles/kids"

-- The addresses 10.0.0.7 and 10.0.0.9.
abbrev two_clients : Net
two_clients = record sample_net {
  to_4 = λ ip.
      if str_eq ip (codes "10.0.0.7")
      then some (10 ∷ 0 ∷ 0 ∷ 7 ∷ [])
      else some (10 ∷ 0 ∷ 0 ∷ 9 ∷ []);
}

abbrev machine : Machine
machine = record {
  leases = none;
  mac_of = λ ip. (codes "aa", codes "ok");
  range = λ m. m;
  clock_text = λ t. codes "12:00:00";
}

abbrev asked : Query
asked = record {
  transport = codes "udp";
  domain = codes "leaf.org";
  query_type = codes "A";
  action = codes "cached";
  answers = [];
  duration = 0;
  block_source = none;
}

abbrev hidden : Config
hidden = record sample_config { anonymize_client_ips = true }

abbrev no_logs : Logs
no_logs = record { query_log = []; server_log = []; seen_source = [] }

first-IsAt : IsAt two_clients (codes "10.0.0.7:5353") 10 0 0 7
unfolding logs_program text_program sample_parts sample_split
first-IsAt = (codes "10.0.0.7", refl, refl)

second-IsAt : IsAt two_clients (codes "10.0.0.9:80") 10 0 0 9
unfolding logs_program text_program sample_parts sample_split
second-IsAt = (codes "10.0.0.9", refl, refl)

add_log-anonymous_example :
    add_log two_clients machine hidden second no_logs
      (codes "10.0.0.7:5353")
      (codes "10.0.0.1")
      asked
    ≡ add_log two_clients machine hidden second no_logs
        (codes "10.0.0.9:80")
        (codes "10.0.0.2")
        asked
add_log-anonymous_example =
    add_log-anonymous two_clients machine hidden second no_logs asked (codes "10.0.0.7:5353")
      (codes "10.0.0.9:80") (codes "10.0.0.1") (codes "10.0.0.2") 10 0 0 7 9 refl first-IsAt
      second-IsAt

abbrev entry_at : ℕ → QueryEntry
entry_at milli = record {
  timestamp = pos milli;
  time = [];
  client = [];
  client_ip = [];
  client_name = [];
  client_mac = [];
  mac_status = [];
  local_addr = [];
  transport = [];
  domain = [];
  answers = [];
  query_type = [];
  action = [];
  block_source = [];
  duration = 0;
}

-- Half a million seconds after 1970, with a retention of 100 hours.
abbrev later : ℕ
later = 62136096800 * second

abbrev two_entries : List QueryEntry
two_entries = entry_at 1000 ∷ entry_at 499999000 ∷ []
