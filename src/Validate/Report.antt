-- ===== src/Validate/Report.antt =====
-- The list of issues of `validateConfig` (config.go), and its tests and loops.
use moreno_dnsleaf.Prelude.{
  ℕ, suc, Bool, true, false, List, [], ◌∷◌, ◌++◌, Option, none, some, if◌then◌else◌,
}
use moreno_dnsleaf.Prelude.Int.{ℤ, pos, ltb_ℤ}
use moreno_dnsleaf.Prelude.Text.{Str, is_empty, trim_space}
use moreno_dnsleaf.Deps.{Net}
use moreno_dnsleaf.Checks.{AddressError, IpError, validate_network_address}
use moreno_dnsleaf.Checks.Records.{RecordError}
use moreno_dnsleaf.Checks.Endpoints.{EndpointError}

-- `name`, `name[i]`, `name[i].part` and `name[i].part[j]`.
pub data Field : Type 0 where
  field : Str → Field
  item : Str → ℕ → Field
  part_of : Str → ℕ → Str → Field
  item_of : Str → ℕ → Str → ℕ → Field

pub data Message : Type 0 where
  says : Str → Message
  address_error : AddressError → Message
  endpoint_error : EndpointError → Message
  record_error : RecordError → Message
  ip_error : IpError → Message

abbrev pub Issue : Type 0
Issue = Field × Message

-- An issue where the test holds, and one where a check returns an error.
unfoldable pub issue_if : Bool → Field → Str → List Issue
issue_if b f message = if b then (f, says message) ∷ [] else []

unfoldable pub issue_of {ℓ} : {E : Type ℓ} → (E → Message) → Field → Option E → List Issue
issue_of message f none = []
issue_of message f (some e) = (f, message e) ∷ []

unfoldable pub concat : List (List Issue) → List Issue
concat [] = []
concat (part ∷ parts) = part ++ concat parts

-- A loop over a list with its index.
unfoldable pub each {ℓ} : {A : Type ℓ} → (ℕ → A → List Issue) → ℕ → List A → List Issue
each check i [] = []
each check i (x ∷ xs) = check i x ++ each check (suc i) xs

abbrev pub is_blank : Str → Bool
is_blank s = is_empty (trim_space s)

abbrev pub is_empty_list {ℓ} : {A : Type ℓ} → List A → Bool
is_empty_list [] = true
is_empty_list (x ∷ xs) = false

abbrev pub is_none {ℓ} : {A : Type ℓ} → Option A → Bool
is_none none = true
is_none (some x) = false

abbrev pub is_positive : ℤ → Bool
is_positive n = ltb_ℤ (pos 0) n

abbrev pub is_negative : ℤ → Bool
is_negative n = ltb_ℤ n (pos 0)

abbrev pub current_config_schema : ℤ
current_config_schema = pos 1

abbrev pub max_cache_entries : ℤ
max_cache_entries = pos 1000000

abbrev pub max_cache_ttl : ℤ
max_cache_ttl = pos 604800

unfoldable pub address_issue : Net → Field → Str → Bool → List Issue
address_issue net f value allow_empty_host =
    issue_of address_error f (validate_network_address net value allow_empty_host)
