-- ===== src/Checks/Records.antt =====
-- `validateRecord` of config.go.
use moreno_dnsleaf.Prelude.{
  Bool, true, false, not, ◌||◌, ◌++◌, Option, none, some, if◌then◌else◌, ltb, length, is_some,
}
use moreno_dnsleaf.Prelude.Text.{Str, codes, str_eq, is_empty, trim_space, to_upper}
use moreno_dnsleaf.Deps.{Net, Ip}
use moreno_dnsleaf.Messages.{Dns}
use moreno_dnsleaf.Config.{Record}
use moreno_dnsleaf.Checks.{without_root, valid_dns_name, checks_program}

pub data RecordError : Type 0 where
  invalid_host : RecordError
  value_required : RecordError
  type_required : RecordError
  not_ipv4 : RecordError
  not_ipv6 : RecordError
  long_text : RecordError
  not_dns_name : Str → RecordError
  invalid_value : Str → RecordError
  unsupported_type : Str → RecordError

-- A set `Type` is final; an empty one is that of the address.
unfoldable pub record_type_of : Net → Option Ip → Str → Option Str
record_type_of net none record_type = if is_empty record_type then none else some record_type
record_type_of net (some ip) record_type =
    if not (is_empty record_type)
    then some record_type
    else some (if net.is_v4 ip then codes "A" else codes "AAAA")

unfoldable pub is_ip_of : Net → Bool → Option Ip → Bool
is_ip_of net v4 none = false
is_ip_of net v4 (some ip) = if v4 then net.is_v4 ip else not (net.is_v4 ip)

abbrev pub is_name_type : Str → Bool
is_name_type t =
    str_eq t (codes "CNAME")
    || str_eq t (codes "MX")
    || str_eq t (codes "SRV")
    || str_eq t (codes "PTR")

abbrev pub is_service_type : Str → Bool
is_service_type t = str_eq t (codes "HTTPS") || str_eq t (codes "SVCB")

abbrev pub fails_unless : Bool → RecordError → Option RecordError
fails_unless ok e = if ok then none else some e

module _ (net : Net) (dns : Dns) where
  unfoldable pub check_value : Str → Str → Option Str → Option RecordError
  check_value host value none = some type_required
  check_value host value (some t) =
      if str_eq t (codes "A")
      then fails_unless (is_ip_of net true (net.parse_ip value)) not_ipv4
      else if str_eq t (codes "AAAA")
      then fails_unless (is_ip_of net false (net.parse_ip value)) not_ipv6
      else if str_eq t (codes "TXT")
      then fails_unless (not (ltb 255 (length value))) long_text
      else if is_name_type t
      then fails_unless (valid_dns_name dns value) (not_dns_name t)
      else if is_service_type t
      then fails_unless
          (is_some (dns.new_rr (dns.fqdn host ++ codes " 300 IN " ++ t ++ codes " " ++ value)))
          (invalid_value t)
      else some (unsupported_type t)

  unfoldable pub validate_record : Record → Option RecordError
  validate_record rec =
      let value =
        if is_empty (trim_space rec.value) then trim_space rec.ip else trim_space rec.value in
      if not (valid_dns_name dns (without_root rec.host))
      then some invalid_host
      else if is_empty value
      then some value_required
      else check_value (without_root rec.host) value
          (record_type_of net (net.parse_ip value) (to_upper (trim_space rec.record_type)))

-- For tests: all that a run of these functions computes with.
unfoldable pub records_program : Unit {0}
unfolding checks_program record_type_of is_ip_of check_value validate_record
records_program = tt
