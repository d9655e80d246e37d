-- ===== src/Records.antt =====
-- The records of the panel: `handleRecords`, `recordFromRR` and `importRecordsFromReader` of
-- records_api.go. What the zone parser reads is a list of records and whether it ends in an error; the
-- text of a record is an argument.
pub mod Import
pub mod Edit
use moreno_dnsleaf.Prelude.{
  ℕ, suc, ◌+◌, Bool, true, false, not, ◌&&◌, ◌||◌, List, [], ◌∷◌, ◌++◌, Option, none, some,
  if◌then◌else◌, drop, is_some,
}
use moreno_dnsleaf.Prelude.Map.{Map, put, map_program}
use moreno_dnsleaf.Prelude.Text.{
  Str, codes, str_eq, is_empty, trim_space, trim_suffix, to_lower, to_upper, equal_fold, index,
  join, text_program,
}
use moreno_dnsleaf.Deps.{Net}
use moreno_dnsleaf.Messages.{Rr, Rdata, a, aaaa, cname, txt, mx, srv, ptr}
use moreno_dnsleaf.Config.{Config, Record}
use moreno_dnsleaf.Blocking.{flag}
use moreno_dnsleaf.Guard.{Panel}

pub record RecordChange : Type 0 where
  pub old_host : Str
  pub old_ip : Str
  pub host : Str
  pub ip : Str
  pub record_type : Str
  pub value : Str
  pub note : Str

pub data RecordRequest : Type 0 where
  get_records : RecordRequest
  post_record : Option Record → RecordRequest
  put_record : Option RecordChange → RecordRequest
  delete_record : Option Record → RecordRequest
  other_method : RecordRequest

pub data RecordReply : Type 0 where
  records : List Record → RecordReply
  one_record : Record → RecordReply
  no_content : RecordReply
  failed : ℕ → RecordReply

abbrev pub or_text : Str → Str → Str
or_text s other = if is_empty s then other else s

abbrev pub set_records : Panel → List Record → Panel
set_records p recs = record p { cfg = record (p.cfg) { records = recs } }

-- A posted record as it is kept.
unfoldable pub cleaned : Record → Record
cleaned rec =
    let ip = trim_space rec.ip in
    let value = or_text (trim_space rec.value) ip in
    record rec {
      host = to_lower (trim_suffix (codes ".") rec.host);
      ip = or_text ip value;
      value = value;
      note = trim_space rec.note;
      record_type = or_text (to_upper (trim_space rec.record_type)) (codes "A");
    }

unfoldable pub post_record_body : Panel → Option Record → Panel × RecordReply
post_record_body p none = (p, failed 400)
post_record_body p (some body) =
    let rec = cleaned body in
    if is_empty rec.host || is_empty rec.value
    then (p, failed 400)
    else (set_records p (p.cfg.records ++ rec ∷ []), one_record rec)

abbrev pub is_record : Str → Str → Record → Bool
is_record ip host rec = str_eq rec.ip ip && equal_fold rec.host host

-- The first record of an address and a host, replaced; `none` if there is none.
unfoldable pub replace_record : Str → Str → Record → List Record → Option (List Record)
replace_record ip host new [] = none
replace_record ip host new (rec ∷ recs) =
    let rest = replace_record ip host new recs in
    if is_record ip host rec
    then some (new ∷ recs)
    else elim rest [ none ↦ none | some changed ↦ some (rec ∷ changed) ]

unfoldable pub remove_record : Str → Str → List Record → List Record
remove_record ip host [] = []
remove_record ip host (rec ∷ recs) =
    if is_record ip host rec then recs else rec ∷ remove_record ip host recs

-- The record that a change describes. It has no priority, weight and port.
unfoldable pub changed_record : RecordChange → Record
changed_record body =
    let value = or_text (trim_space body.value) (trim_space body.ip) in
    record {
      host = to_lower (trim_suffix (codes ".") (trim_space body.host));
      record_type = or_text (to_upper (trim_space body.record_type)) (codes "A");
      value = value;
      ip = value;
      note = trim_space body.note;
      priority = 0;
      weight = 0;
      port = 0;
    }

unfoldable pub put_found : Panel → Record → Option (List Record) → Panel × RecordReply
put_found p rec none = (p, failed 404)
put_found p rec (some recs) = (set_records p recs, one_record rec)

unfoldable pub put_record_body : Panel → Option RecordChange → Panel × RecordReply
put_record_body p none = (p, failed 400)
put_record_body p (some body) =
    let rec = changed_record body in
    if is_empty rec.host || is_empty rec.value
    then (p, failed 400)
    else put_found p rec (replace_record body.old_ip body.old_host rec p.cfg.records)

unfoldable pub delete_record_body : Panel → Option Record → Panel × RecordReply
delete_record_body p none = (p, failed 400)
delete_record_body p (some body) =
    (set_records p (remove_record body.ip body.host p.cfg.records), no_content)

unfoldable pub handle_records : RecordRequest → Panel → Panel × RecordReply
handle_records get_records p = (p, records p.cfg.records)
handle_records (post_record body) p = post_record_body p body
handle_records (put_record body) p = put_record_body p body
handle_records (delete_record body) p = delete_record_body p body
handle_records other_method p = (p, failed 405)

-- A record with all but its type, value and note empty.
abbrev pub plain_record : Str → Str → Str → Str → Record
plain_record host record_type value note = record {
  host = host;
  record_type = record_type;
  value = value;
  ip = [];
  note = note;
  priority = 0;
  weight = 0;
  port = 0;
}

-- The comment in the text of a record.
unfoldable pub note_in : Str → Option ℕ → Str
note_in text none = []
note_in text (some at) = trim_space (drop (at + 1) text)

abbrev pub no_dot : Str → Str
no_dot s = trim_suffix (codes ".") s

module _ (net : Net) (text_of : Rr → Str) where
  unfoldable pub record_of : Str → Str → Rdata → Option Record
  record_of host note (a ip) =
      some
        (record (plain_record host (codes "A") (net.ip_string ip) note) { ip = net.ip_string ip })
  record_of host note (aaaa ip) =
      some (record (plain_record host (codes "AAAA") (net.ip_string ip) note) {
        ip = net.ip_string ip;
      })
  record_of host note (cname target) = some (plain_record host (codes "CNAME") (no_dot target) note)
  record_of host note (txt texts) = some (plain_record host (codes "TXT") (join [] texts) note)
  record_of host note (mx preference target) =
      some (record (plain_record host (codes "MX") (no_dot target) note) { priority = preference })
  record_of host note (srv priority weight port target) =
      some (record (plain_record host (codes "SRV") (no_dot target) note) {
        priority = priority;
        weight = weight;
        port = port;
      })
  record_of host note (ptr target) = some (plain_record host (codes "PTR") (no_dot target) note)
  record_of host note rdata = none

  unfoldable pub record_from_rr : Rr → Option Record
  record_from_rr rr =
      record_of (to_lower (no_dot (rr.hdr).name))
        (note_in (text_of rr) (index (codes ";") (text_of rr))) rr.body

abbrev pub record_key : Record → Str
record_key rec =
    to_lower rec.host ++ codes "|" ++ to_upper rec.record_type ++ codes "|" ++ rec.value

-- The keys of the records that are there.
unfoldable pub seen_keys : List Record → Map Bool
seen_keys [] = []
seen_keys (rec ∷ recs) = put (record_key rec) true (seen_keys recs)

-- The records, the keys, and the numbers of records imported and skipped.
pub record Imported : Type 0 where
  pub recs : List Record
  pub seen : Map Bool
  pub imported : ℕ
  pub skipped : ℕ

unfoldable pub import_one : Bool → Option Record → Imported → Imported
import_one overwrite none s = record s { skipped = s.skipped + 1 }
import_one overwrite (some rec) s =
    if not overwrite && flag (record_key rec) s.seen
    then record s { skipped = s.skipped + 1 }
    else record s {
      recs = s.recs ++ rec ∷ [];
      seen = put (record_key rec) true s.seen;
      imported = s.imported + 1;
    }

module _ (net : Net) (text_of : Rr → Str) where
  unfoldable pub import_loop : Bool → List Rr → Imported → Imported
  import_loop overwrite [] s = s
  import_loop overwrite (rr ∷ rrs) s =
      import_loop overwrite rrs (import_one overwrite (record_from_rr net text_of rr) s)

  -- The records, and the two numbers unless the parser ends in an error.
  unfoldable pub import_records : Bool → List Rr → Bool → List Record → List Record × Option (ℕ × ℕ)
  import_records overwrite rrs fails recs =
      let seen = if overwrite then [] else seen_keys recs in
      let s =
        import_loop overwrite rrs
          (record { recs = recs; seen = seen; imported = 0; skipped = 0 }) in
      (s.recs, if fails then none else some (s.imported, s.skipped))

-- For tests: all that a run of these functions computes with.
unfoldable pub records_api_program : Unit {0}
unfolding text_program map_program flag cleaned post_record_body replace_record remove_record
    changed_record put_found put_record_body delete_record_body handle_records note_in record_of
    record_from_rr seen_keys import_one import_loop import_records
records_api_program = tt
