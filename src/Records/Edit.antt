-- ===== src/Records/Edit.antt =====
-- The changes of `handleRecords` of records_api.go.
use moreno_dnsleaf.Prelude.{
  ℕ, suc, ◌+◌, ◌||◌, List, [], ◌∷◌, Option, none, some, if◌then◌else◌, any, ◌≡◌, length, refl, ap,
  arith, inl, inr, Bool-cases, if-cases, length-append,
}
use moreno_dnsleaf.Prelude.Text.{Str, is_empty}
use moreno_dnsleaf.Config.{Record}
use moreno_dnsleaf.Guard.{Panel}
use moreno_dnsleaf.Records.{
  RecordRequest, RecordReply, get_records, post_record, put_record, delete_record, other_method,
  failed, is_record, cleaned, changed_record, replace_record, remove_record, post_record_body,
  put_found, put_record_body, delete_record_body, handle_records,
}

abbrev count_of : Panel → ℕ
count_of p = length p.cfg.records

-- The number of records after a request: with its answer, and for DELETE with the record that is meant.
abbrev pub IsCounted : RecordRequest → Panel → Panel × RecordReply → Type 0
IsCounted r p (q, failed status) = q ≡ p
IsCounted (post_record body) p (q, reply) = count_of q ≡ count_of p + 1
IsCounted (delete_record (some body)) p (q, reply) =
    count_of q + (if any (is_record body.ip body.host) p.cfg.records then 1 else 0) ≡ count_of p
IsCounted r p (q, reply) = count_of q ≡ count_of p

length-remove_record :
    (ip host : Str) (recs : List Record)
    → length (remove_record ip host recs) + (if any (is_record ip host) recs then 1 else 0)
      ≡ length recs
unfolding remove_record
length-remove_record ip host [] = omega arith
length-remove_record ip host (rec ∷ recs) = ground (arith, length-remove_record ip host recs)

abbrev size_or : Option (List Record) → ℕ → ℕ
size_or none n = n
size_or (some recs) n = length recs

size_or-cons :
    (rec : Record) (o : Option (List Record)) (n : ℕ)
    → size_or o n ≡ n
    → size_or (elim o [ none ↦ none | some changed ↦ some (rec ∷ changed) ]) (suc n) ≡ suc n
size_or-cons rec none n h = refl
size_or-cons rec (some changed) n h = ap suc h

size_or-replace_record :
    (ip host : Str) (new : Record) (recs : List Record)
    → size_or (replace_record ip host new recs) (length recs) ≡ length recs
unfolding replace_record
size_or-replace_record ip host new [] = refl
size_or-replace_record ip host new (rec ∷ recs) = elim (Bool-cases (is_record ip host rec)) [
  | inl here ↦ rw here
  | inr later ↦ rw later (
      size_or-cons rec (replace_record ip host new recs) (length recs)
        (size_or-replace_record ip host new recs))
]

put_found-IsCounted :
    (body : _) (p : Panel) (rec : Record) (found : Option (List Record))
    → size_or found (count_of p) ≡ count_of p
    → IsCounted (put_record body) p (put_found p rec found)
unfolding put_found
put_found-IsCounted body p rec none h = refl
put_found-IsCounted body p rec (some recs) h = h

-- A request to `handleRecords` that fails leaves the panel as it was; POST adds one record, DELETE takes
-- away one if a record has the address and, ignoring case, the host, and PUT and GET keep their number.
pub handle_records-IsCounted : (r : RecordRequest) (p : Panel) → IsCounted r p (handle_records r p)
unfolding handle_records post_record_body put_record_body delete_record_body
handle_records-IsCounted get_records p = refl
handle_records-IsCounted (post_record none) p = refl
handle_records-IsCounted (post_record (some body)) p =
    let rec = cleaned body in
    if-cases (IsCounted (post_record (some body)) p) (is_empty rec.host || is_empty rec.value) refl
      (length-append p.cfg.records (rec ∷ []))
handle_records-IsCounted (put_record none) p = refl
handle_records-IsCounted (put_record (some body)) p =
    let rec = changed_record body in
    if-cases (IsCounted (put_record (some body)) p) (is_empty rec.host || is_empty rec.value) refl (
      put_found-IsCounted (some body) p rec
        (replace_record body.old_ip body.old_host rec p.cfg.records)
        (size_or-replace_record body.old_ip body.old_host rec p.cfg.records))
handle_records-IsCounted (delete_record none) p = refl
handle_records-IsCounted (delete_record (some body)) p =
    length-remove_record body.ip body.host p.cfg.records
handle_records-IsCounted other_method p = refl
