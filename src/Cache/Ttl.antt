-- ===== src/Cache/Ttl.antt =====
-- How long `messageCacheTTL` lets a message be cached.
use moreno_dnsleaf.Prelude.{
  ℕ, ◌*◌, ◌≤◌, ◌<◌, Bool, true, false, not, ◌&&◌, List, [], ◌∷◌, ◌++◌, Option, none, some, ◌==◌,
  any, All, ◌≡◌, ◌⊎◌, refl, arith, Bool-cases, inl, inr,
}
use moreno_dnsleaf.Prelude.Int.{ℤ, pos, negsuc, pos_part, second}
use moreno_dnsleaf.Messages.{Rr, soa, Msg, is_opt}
use moreno_dnsleaf.Cache.{
  Scan, max_ttl, scan_record, scan_records, negative_ttl, is_negative, scanned_ttl, message_ttl,
  message_cache_ttl,
}

-- A bound in seconds that no record exceeds; an OPT has no TTL.
abbrev pub Within : ℕ → Rr → Type 0
Within t rr = is_opt rr.body ≡ false → t ≤ rr.hdr.ttl

abbrev pub records : Msg → List Rr
records msg = msg.answer ++ (msg.ns ++ msg.extra)

All-Within-le : (t u : ℕ) (l : List Rr) → t ≤ u → All (Within u) l → All (Within t) l
All-Within-le t u [] h k = tt
All-Within-le t u (rr ∷ l) h k = ((λ o. omega (arith, k.0 o)), All-Within-le t u l h k.1)

All-duration :
    (d t : ℕ) (l : List Rr)
    → d ≤ t * second
    → All (Within t) l
    → All (λ rr. is_opt rr.body ≡ false → d ≤ rr.hdr.ttl * second) l
All-duration d t [] h k = tt
All-duration d t (rr ∷ l) h k = ((λ o. omega (arith, k.0 o)), All-duration d t l h k.1)

cache_ttl_le :
    (msg : Msg) (configured : ℤ) (d : ℕ)
    → message_cache_ttl msg configured ≡ pos d
    → (d ≤ pos_part configured) × (d ≤ message_ttl msg * second)
unfolding message_cache_ttl
cache_ttl_le msg (pos n) d e = ground arith
cache_ttl_le msg (negsuc n) d e = ground arith

scan_record-min :
    (s : Scan) (rr : Rr)
    → ((scan_record s rr).min_ttl ≤ s.min_ttl) × Within (scan_record s rr).min_ttl rr
unfolding scan_record
scan_record-min s rr = ground arith

scan_records-tail :
    (rr : Rr) (rrs : List Rr) (s t : Scan)
    → scan_records s (rr ∷ rrs) ≡ some t
    → scan_records (scan_record s rr) rrs ≡ some t
unfolding scan_records
scan_records-tail rr rrs s t e = elim (Bool-cases (not (is_opt rr.body) && rr.hdr.ttl == 0)) [
  | inl stop ↦ absurd (cc (rw stop at e))
  | inr go ↦ rw go at e
]

scan_records-min :
    (rrs : List Rr) (s t : Scan)
    → scan_records s rrs ≡ some t
    → (t.min_ttl ≤ s.min_ttl) × All (Within t.min_ttl) rrs
unfolding scan_records
scan_records-min [] s t e = (ground arith, tt)
scan_records-min (rr ∷ rrs) s t e =
    let (le, all) = scan_records-min rrs (scan_record s rr) t (scan_records-tail rr rrs s t e) in
    let (step, here) = scan_record-min s rr in (omega arith, ((λ o. omega (arith, here o)), all))

scanned_ttl-le : (msg : Msg) (t : Scan) → scanned_ttl msg (some t) ≤ t.min_ttl
unfolding scanned_ttl negative_ttl
scanned_ttl-le msg t = ground arith

abbrev first_scan : Scan
first_scan = record { min_ttl = max_ttl; found = false; soa_minimum = none }

message_ttl-Within_of :
    (msg : Msg) (o : Option Scan)
    → scan_records first_scan (records msg) ≡ o
    → 0 < scanned_ttl msg o
    → All (Within (scanned_ttl msg o)) (records msg) × (scanned_ttl msg o ≤ max_ttl)
message_ttl-Within_of msg none e h = unfold scanned_ttl in absurd (omega arith)
message_ttl-Within_of msg (some t) e h =
    let (le, all) = scan_records-min (records msg) first_scan t e in
    (
      All-Within-le _ _ (records msg) (scanned_ttl-le msg t) all,
      omega (arith, scanned_ttl-le msg t),
    )

message_ttl-cases :
    (msg : Msg)
    → (message_ttl msg ≡ 0)
      ⊎ (message_ttl msg ≡ scanned_ttl msg (scan_records first_scan (records msg)))
unfolding message_ttl
message_ttl-cases msg = ground arith

-- A message that may be cached at all is not cached longer than any of its records may be.
pub message_ttl-Within :
    (msg : Msg)
    → 0 < message_ttl msg
    → All (Within (message_ttl msg)) (records msg) × (message_ttl msg ≤ max_ttl)
message_ttl-Within msg h = elim (message_ttl-cases msg) [
  | inl nothing ↦ absurd (omega arith)
  | inr e ↦ rw e (message_ttl-Within_of msg _ refl (omega arith))
]

abbrev pub is_soa : Rr → Bool
is_soa rr = elim rr.body [ soa minimum ↦ true | _ ↦ false ]

scan_records-soa :
    (rrs : List Rr) (s t : Scan)
    → scan_records s rrs ≡ some t
    → any is_soa rrs ≡ false
    → s.soa_minimum ≡ none
    → t.soa_minimum ≡ none
scan_records-soa [] s t e h n = unfold scan_records in ground arith
scan_records-soa (rr ∷ rrs) s t e h n =
    scan_records-soa rrs (scan_record s rr) t (scan_records-tail rr rrs s t e) (ground arith)
      (unfold scan_record in ground arith)

scanned_ttl-negative :
    (msg : Msg) (o : Option Scan)
    → scan_records first_scan (records msg) ≡ o
    → is_negative msg ≡ true
    → any is_soa (records msg) ≡ false
    → scanned_ttl msg o ≡ 0
scanned_ttl-negative msg none e n h = unfold scanned_ttl in refl
scanned_ttl-negative msg (some t) e n h =
    unfold scanned_ttl negative_ttl in
    ground (arith, scan_records-soa (records msg) first_scan t e h refl)

-- A negative answer (a name that does not exist, or no data) is never cached without an SOA.
pub message_cache_ttl-negative :
    (msg : Msg) (configured : ℤ)
    → is_negative msg ≡ true
    → any is_soa (records msg) ≡ false
    → message_cache_ttl msg configured ≡ pos 0
message_cache_ttl-negative msg configured n h =
    let zero_ttl : message_ttl msg ≡ 0 =
      unfold message_ttl in ground (arith, scanned_ttl-negative msg _ refl n h) in
    unfold message_cache_ttl in ground (arith, zero_ttl)

-- A positive duration for which a message is cached is at most the configured one, and at most the
-- TTL of each record of the message other than OPT.
pub message_cache_ttl_bounds :
    (msg : Msg) (configured : ℤ) (d : ℕ)
    → message_cache_ttl msg configured ≡ pos d
    → 0 < d
    → (d ≤ pos_part configured)
      × (d ≤ max_ttl * second)
      × All (λ rr. is_opt rr.body ≡ false → d ≤ rr.hdr.ttl * second) (records msg)
message_cache_ttl_bounds msg configured d e h =
    let (below, within) = cache_ttl_le msg configured d e in
    let positive : 0 < message_ttl msg = omega arith in
    let (all, cap) = message_ttl-Within msg positive in
    (below, omega arith, All-duration d (message_ttl msg) (records msg) within all)
