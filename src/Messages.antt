-- ===== src/Messages.antt =====
-- DNS messages as the program reads and writes them: the exported fields of package dns's `Msg`,
-- `Question`, `RR_Header` and records. A section holds no nil record. The functions of that package
-- are the record `Dns`, an argument of the definitions that call them.
use moreno_dnsleaf.Prelude.{ℕ, Bool, true, false, List, Option, [], ◌≡◌}
use moreno_dnsleaf.Prelude.Text.{Str}
use moreno_dnsleaf.Deps.{Ip}

pub record Header : Type 0 where
  pub name : Str
  pub rrtype : ℕ
  pub class : ℕ
  pub ttl : ℕ

pub data EdnsOption : Type 0 where
  subnet : EdnsOption
  other_option : ℕ → EdnsOption

-- The data of a record. The header of an `opt` keeps flags in the place of a TTL.
pub data Rdata : Type 0 where
  a : Ip → Rdata
  aaaa : Ip → Rdata
  cname : Str → Rdata
  txt : List Str → Rdata
  mx : ℕ → Str → Rdata
  srv : ℕ → ℕ → ℕ → Str → Rdata
  ptr : Str → Rdata
  svcb : ℕ → Str → ℕ → Rdata
  soa : ℕ → Rdata
  opt : List EdnsOption → Rdata
  other : Str → Rdata

pub record Rr : Type 0 where
  pub hdr : Header
  pub body : Rdata

pub record Question : Type 0 where
  pub name : Str
  pub qtype : ℕ
  pub qclass : ℕ

pub record Msg : Type 0 where
  pub id : ℕ
  pub rcode : ℕ
  pub truncated : Bool
  pub recursion_desired : Bool
  pub checking_disabled : Bool
  pub authenticated_data : Bool
  pub compress : Bool
  pub question : List Question
  pub answer : List Rr
  pub ns : List Rr
  pub extra : List Rr

abbrev pub type_a : ℕ
type_a = 1

abbrev pub type_cname : ℕ
type_cname = 5

abbrev pub type_ptr : ℕ
type_ptr = 12

abbrev pub type_mx : ℕ
type_mx = 15

abbrev pub type_txt : ℕ
type_txt = 16

abbrev pub type_aaaa : ℕ
type_aaaa = 28

abbrev pub type_srv : ℕ
type_srv = 33

abbrev pub type_svcb : ℕ
type_svcb = 64

abbrev pub type_https : ℕ
type_https = 65

abbrev pub class_inet : ℕ
class_inet = 1

abbrev pub rcode_success : ℕ
rcode_success = 0

abbrev pub rcode_format_error : ℕ
rcode_format_error = 1

abbrev pub rcode_server_failure : ℕ
rcode_server_failure = 2

abbrev pub rcode_name_error : ℕ
rcode_name_error = 3

abbrev pub rcode_refused : ℕ
rcode_refused = 5

-- `new(dns.Msg)`
abbrev pub new_msg : Msg
new_msg = record {
  id = 0;
  rcode = 0;
  truncated = false;
  recursion_desired = false;
  checking_disabled = false;
  authenticated_data = false;
  compress = false;
  question = [];
  answer = [];
  ns = [];
  extra = [];
}

-- The methods of a message and the functions on names and records.
pub record Dns : Type 0 where
  pub set_reply : Msg → Msg
  pub set_rcode : Msg → ℕ → Msg
  pub fqdn : Str → Str
  pub new_rr : Str → Option Rr
  pub is_edns0 : Msg → Option Rr
  pub udp_size : Rr → ℕ
  pub edns_version : Rr → ℕ
  pub edns_do : Rr → Bool
  pub is_domain_name : Str → Bool
  -- The message after the options of the record that `is_edns0` points to are written.
  pub set_options : Msg → List EdnsOption → Msg

-- What the documentation says of a reply to a message and of a reply with a code.
pub record IsDns (dns : Dns) : Type 0 where
  pub reply_id : (r : Msg) → (dns.set_reply r).id ≡ r.id
  pub reply_success : (r : Msg) → (dns.set_reply r).rcode ≡ rcode_success
  pub reply_empty : (r : Msg) → (dns.set_reply r).answer ≡ []
  pub rcode_id : (r : Msg) (code : ℕ) → (dns.set_rcode r code).id ≡ r.id
  pub rcode_is : (r : Msg) (code : ℕ) → (dns.set_rcode r code).rcode ≡ code
  pub options_id : (r : Msg) (options : List EdnsOption) → (dns.set_options r options).id ≡ r.id
  pub rcode_empty : (r : Msg) (code : ℕ) → (dns.set_rcode r code).answer ≡ []

abbrev pub is_opt : Rdata → Bool
is_opt (opt options) = true
is_opt _ = false
