-- ===== src/Records/Import.antt =====
-- The import of a zone: `importRecordsFromReader` of records_api.go.
use moreno_dnsleaf.Prelude.{
  ℕ, suc, ◌+◌, Bool, true, false, ◌||◌, List, [], ◌∷◌, ◌++◌, Option, none, some, if◌then◌else◌, any,
  All, length, ◌≡◌, refl, ap, sym, ◌∙◌, arith, inl, inr, Bool-cases,
}
use moreno_dnsleaf.Prelude.Map.{Map, get, put, get-put}
use moreno_dnsleaf.Prelude.Text.{Str, str_eq, str_eq_refl}
use moreno_dnsleaf.Deps.{Net}
use moreno_dnsleaf.Messages.{Rr}
use moreno_dnsleaf.Config.{Record}
use moreno_dnsleaf.Blocking.{flag}
use moreno_dnsleaf.Records.{
  record_key, record_from_rr, seen_keys, Imported, import_one, import_loop, import_records,
}

flag-put : (k j : Str) (m : Map Bool) → flag j (put k true m) ≡ (str_eq k j || flag j m)
unfolding flag
flag-put k j m = ground (arith, get-put k j true m)

abbrev pub has_record : Str → List Record → Bool
has_record k recs = any (λ rec. str_eq (record_key rec) k) recs

has_record-concat :
    (k : Str) (recs : List Record) (rec : Record)
    → has_record k (recs ++ rec ∷ []) ≡ (str_eq (record_key rec) k || has_record k recs)
has_record-concat k [] rec = ground arith
has_record-concat k (x ∷ recs) rec = ground (arith, has_record-concat k recs rec)

flag-seen_keys : (recs : List Record) (k : Str) → flag k (seen_keys recs) ≡ has_record k recs
unfolding seen_keys
flag-seen_keys [] k = unfold flag get in refl
flag-seen_keys (rec ∷ recs) k =
    flag-put (record_key rec) k (seen_keys recs)
    ∙ ap (λ f. str_eq (record_key rec) k || f) (flag-seen_keys recs k)

-- The keys that are seen are those of the records.
abbrev IsTracked : Imported → Type 0
IsTracked s = (k : Str) → flag k s.seen ≡ has_record k s.recs

-- A record that would be skipped.
abbrev is_known : Map Bool → Option Record → Bool
is_known seen none = true
is_known seen (some rec) = flag (record_key rec) seen

import_one-IsTracked :
    (o : Option Record) (s : Imported) → IsTracked s → IsTracked (import_one false o s)
unfolding import_one
import_one-IsTracked none s h = h
import_one-IsTracked (some rec) s h = elim (Bool-cases (flag (record_key rec) s.seen)) [
  | inl old ↦ rw old h
  | inr new ↦ rw new (λ k.
      flag-put (record_key rec) k s.seen
      ∙ ap (λ f. str_eq (record_key rec) k || f) (h k)
      ∙ sym (has_record-concat k s.recs rec))
]

import_one-grows :
    (o : Option Record) (s : Imported) (k : Str)
    → flag k s.seen ≡ true
    → flag k (import_one false o s).seen ≡ true
unfolding import_one
import_one-grows none s k h = h
import_one-grows (some rec) s k h = ground (arith, flag-put (record_key rec) k s.seen)

import_one-is_known :
    (o : Option Record) (s : Imported) → is_known (import_one false o s).seen o ≡ true
unfolding import_one
import_one-is_known none s = refl
import_one-is_known (some rec) s =
    ground (arith, flag-put (record_key rec) (record_key rec) s.seen, str_eq_refl (record_key rec))

-- A known record only counts as skipped.
import_one-skips :
    (o : Option Record) (s : Imported)
    → is_known s.seen o ≡ true
    → import_one false o s ≡ record s { skipped = s.skipped + 1 }
unfolding import_one
import_one-skips none s h = refl
import_one-skips (some rec) s h = rw h

plus_zero : (n : ℕ) → n ≡ n + 0
plus_zero n = omega arith

zero_plus : (n : ℕ) → 0 + n ≡ n
zero_plus n = omega arith

plus_suc : (m n : ℕ) → m + 1 + n ≡ m + suc n
plus_suc m n = omega arith

module _ (net : Net) (text_of : Rr → Str) where
  import_loop-IsTracked :
      (rrs : List Rr) (s : Imported) → IsTracked s → IsTracked (import_loop net text_of false rrs s)
  unfolding import_loop
  import_loop-IsTracked [] s h = h
  import_loop-IsTracked (rr ∷ rrs) s h =
      import_loop-IsTracked rrs (import_one false (record_from_rr net text_of rr) s)
        (import_one-IsTracked (record_from_rr net text_of rr) s h)

  import_loop-grows :
      (rrs : List Rr) (s : Imported) (k : Str)
      → flag k s.seen ≡ true
      → flag k (import_loop net text_of false rrs s).seen ≡ true
  unfolding import_loop
  import_loop-grows [] s k h = h
  import_loop-grows (rr ∷ rrs) s k h =
      import_loop-grows rrs (import_one false (record_from_rr net text_of rr) s) k
        (import_one-grows (record_from_rr net text_of rr) s k h)

  is_known-grows :
      (o : Option Record) (rrs : List Rr) (s : Imported)
      → is_known s.seen o ≡ true
      → is_known (import_loop net text_of false rrs s).seen o ≡ true
  is_known-grows none rrs s h = refl
  is_known-grows (some rec) rrs s h = import_loop-grows rrs s (record_key rec) h

  import_loop-known :
      (rrs : List Rr) (s : Imported)
      → All
          (λ rr.
            is_known (import_loop net text_of false rrs s).seen (record_from_rr net text_of rr)
            ≡ true)
          rrs
  unfolding import_loop
  import_loop-known [] s = tt
  import_loop-known (rr ∷ rrs) s =
      let o = record_from_rr net text_of rr in
      (
        is_known-grows o rrs (import_one false o s) (import_one-is_known o s),
        import_loop-known rrs (import_one false o s),
      )

  import_loop-skips :
      (rrs : List Rr) (s : Imported)
      → All (λ rr. is_known s.seen (record_from_rr net text_of rr) ≡ true) rrs
      → import_loop net text_of false rrs s ≡ record s { skipped = s.skipped + length rrs }
  unfolding import_loop
  import_loop-skips [] s h = ap (λ n. record s { skipped = n }) (plus_zero s.skipped)
  import_loop-skips (rr ∷ rrs) s (first, rest) =
      ap (import_loop net text_of false rrs)
        (import_one-skips (record_from_rr net text_of rr) s first)
      ∙ import_loop-skips rrs (record s { skipped = s.skipped + 1 }) rest
      ∙ ap (λ n. record s { skipped = n }) (plus_suc s.skipped (length rrs))

  known-same :
      (m n : Map Bool) (rrs : List Rr)
      → ((k : Str) → flag k m ≡ flag k n)
      → All (λ rr. is_known m (record_from_rr net text_of rr) ≡ true) rrs
      → All (λ rr. is_known n (record_from_rr net text_of rr) ≡ true) rrs
  known-same m n [] same h = tt
  known-same m n (rr ∷ rrs) same (first, rest) =
      (one_known (record_from_rr net text_of rr) first, known-same m n rrs same rest)
    where
      one_known : (o : Option Record) → is_known m o ≡ true → is_known n o ≡ true
      one_known none h = h
      one_known (some rec) h = sym (same (record_key rec)) ∙ h

  abbrev start_of : List Record → Imported
  start_of recs = record { recs = recs; seen = seen_keys recs; imported = 0; skipped = 0 }

  -- A zone that is imported a second time without overwriting changes nothing: each of its records is
  -- skipped.
  pub import_records-twice :
      (rrs : List Rr) (fails : Bool) (recs : List Record)
      → let first = (import_records net text_of false rrs fails recs).0 in
        import_records net text_of false rrs fails first
        ≡ (first, if fails then none else some (0, length rrs))
  unfolding import_records
  import_records-twice rrs fails recs =
      let s = import_loop net text_of false rrs (start_of recs) in
      let known =
        known-same s.seen (seen_keys s.recs) rrs
          (λ k.
            import_loop-IsTracked rrs (start_of recs) (flag-seen_keys recs) k
            ∙ sym (flag-seen_keys s.recs k))
          (import_loop-known rrs (start_of recs)) in
      ap (λ (t : Imported). (t.recs, if fails then none else some (t.imported, t.skipped)))
        (import_loop-skips rrs (start_of s.recs) known)
      ∙ ap (λ n. (s.recs, if fails then none else some (0, n))) (zero_plus (length rrs))
