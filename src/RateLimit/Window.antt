-- ===== src/RateLimit/Window.antt =====
-- `rateLimited` (dns_policy.go) against the whole history of queries.
use moreno_dnsleaf.Prelude.{
  ℕ, suc, ◌+◌, ◌-◌, ◌*◌, ◌%◌, ◌≤◌, ◌<◌, true, false, ◌&&◌, List, [], ◌∷◌, ◌++◌, Option, none, some,
  if◌then◌else◌, ltb, length, keep, ◌≡◌, refl, arith, Bool-cases, inl, inr, ap, ◌∙◌, sym,
  length-append,
}
use mathlib.Core.List.{append-nil, append_assoc}
use moreno_dnsleaf.Prelude.Int.{
  pos, seconds, negated, add_time, second, bits_of, to_int64, two_63, two_64,
}
use moreno_dnsleaf.Prelude.Map.{get, put, get-put}
use moreno_dnsleaf.Prelude.Text.{Str, str_eq, str_eq_iff, is_empty}
use moreno_dnsleaf.Config.{RateLimitConfig}
use moreno_dnsleaf.RateLimit.{
  Hits, cap_time_hit_map, room_for, note_hit, rate_limited, max_rate_entries, hits_of, hits_after,
  cutoff_of,
}

-- A query: the client and the time.
abbrev pub Query : Type 0
Query = Str × ℕ

-- The queries in order from a state of the table.
unfoldable pub run_queries : (Hits → Hits) → RateLimitConfig → Hits → List Query → Hits
run_queries range limit entries [] = entries
run_queries range limit entries ((ip, now) ∷ queries) =
    run_queries range limit (rate_limited range limit entries ip now).0 queries

-- The times at which a client asked after a given time.
unfoldable pub asked_after : Str → ℕ → List Query → List ℕ
asked_after ip cutoff [] = []
asked_after ip cutoff ((client, time) ∷ queries) =
    if str_eq client ip && ltb cutoff time
    then time ∷ asked_after ip cutoff queries
    else asked_after ip cutoff queries

-- Times do not go back, from `t` on.
abbrev pub InOrder : ℕ → List Query → Type 0
InOrder t [] = Unit
InOrder t ((ip, now) ∷ queries) = (t ≤ now) × InOrder now queries

abbrev pub last_time : ℕ → List Query → ℕ
last_time t [] = t
last_time t ((ip, now) ∷ queries) = last_time now queries

-- Before each query of a run the table has room for a new client.
abbrev pub NeverFull : (Hits → Hits) → RateLimitConfig → Hits → List Query → Type 0
NeverFull range limit entries [] = length entries < max_rate_entries
NeverFull range limit entries ((ip, now) ∷ queries) =
    (length entries < max_rate_entries)
    × NeverFull range limit (rate_limited range limit entries ip now).0 queries

-- A limit that is on, for a window that fits 64 bits of nanoseconds.
pub record IsOn (limit : RateLimitConfig) : Type 0 where
  pub window : ℕ
  pub queries : ℕ
  pub enabled : limit.enabled ≡ true
  pub window_is : limit.window ≡ pos (suc window)
  pub queries_is : limit.queries ≡ pos (suc queries)
  pub fits : suc window * second < two_63

pub cutoff_of_lem :
    (now w : ℕ) → suc w * second < two_63 → cutoff_of now (pos (suc w)) ≡ now - suc w * second
cutoff_of_lem now w h =
    let product : (two_64 - 1 - w % two_64) * second % two_64 ≡ two_64 - suc w * second =
      omega arith in
    unfold cutoff_of negated seconds bits_of to_int64 in
    rw product (
      let high : ltb (two_64 - suc w * second) two_63 ≡ false = ground arith in
      rw high (unfold add_time in omega arith))

keep-keep :
    (c d : ℕ) (l : List ℕ)
    → c ≤ d
    → keep (λ hit. ltb d hit) (keep (λ hit. ltb c hit) l) ≡ keep (λ hit. ltb d hit) l
keep-keep c d [] h = refl
keep-keep c d (x ∷ l) h = ground (arith, keep-keep c d l h)

keep-append :
    (d : ℕ) (l m : List ℕ)
    → keep (λ hit. ltb d hit) (l ++ m) ≡ keep (λ hit. ltb d hit) l ++ keep (λ hit. ltb d hit) m
keep-append d [] m = refl
keep-append d (x ∷ l) m = ground (arith, keep-append d l m)

asked_after-append :
    (ip : Str) (c : ℕ) (xs ys : List Query)
    → asked_after ip c (xs ++ ys) ≡ asked_after ip c xs ++ asked_after ip c ys
unfolding asked_after
asked_after-append ip c [] ys = refl
asked_after-append ip c ((client, time) ∷ xs) ys = ground (arith, asked_after-append ip c xs ys)

keep-hits_after :
    (s c now : ℕ) (l : List ℕ)
    → s ≤ c
    → keep (λ hit. ltb c hit) (hits_after s now l)
      ≡ keep (λ hit. ltb c hit) l ++ (if ltb c now then now ∷ [] else [])
unfolding hits_after
keep-hits_after s c now l h =
    keep-append c (keep (λ hit. ltb s hit) l) (now ∷ []) ∙ rw (keep-keep s c l h)

hits_of-some : (l : List ℕ) → hits_of (some l) ≡ l
unfolding hits_of
hits_of-some l = refl

asked_after-one :
    (k : Str) (c now : ℕ)
    → str_eq k k ≡ true
    → asked_after k c ((k, now) ∷ []) ≡ (if ltb c now then now ∷ [] else [])
unfolding asked_after
asked_after-one k c now e = rw e

module _ (range : Hits → Hits) (limit : RateLimitConfig) (on : IsOn limit) where
  abbrev window_start : ℕ → ℕ
  window_start now = now - suc (on.window) * second

  cutoff-window_start : (now : ℕ) → cutoff_of now limit.window ≡ window_start now
  cutoff-window_start now = rw (on.window_is) (cutoff_of_lem now on.window on.fits)

  -- The table agrees with the history on all that a later window can see.
  abbrev Agrees : Hits → List Query → ℕ → Type 0
  Agrees entries history t =
      (k : Str) (c : ℕ)
      → is_empty k ≡ false
      → window_start t ≤ c
      → keep (λ hit. ltb c hit) (hits_of (get k entries)) ≡ asked_after k c history

  room_for_free :
      (entries : Hits) (cutoff max : ℕ) (o : Option (List ℕ))
      → length entries < max
      → room_for range entries cutoff max o ≡ entries
  room_for_free entries cutoff max none h = unfold room_for cap_time_hit_map in ground arith
  room_for_free entries cutoff max (some hits) h = unfold room_for in refl

  step_table :
      (entries : Hits) (ip : Str) (now : ℕ)
      → is_empty ip ≡ false
      → length entries < max_rate_entries
      → (rate_limited range limit entries ip now ≡ (
        put ip (hits_after (window_start now) now (hits_of (get ip entries))) entries,
        ltb
            (suc on.queries)
            (length (hits_after (window_start now) now (hits_of (get ip entries)))),
      ))
  step_table entries ip now ne lt =
      unfold rate_limited note_hit in
      rw
        (
          on.enabled,
          on.queries_is,
          on.window_is,
          ne,
          cutoff_of_lem now on.window on.fits,
          room_for_free entries (window_start now) max_rate_entries (get ip entries) lt,
        )
        (ground arith)

  -- The same for the empty address, which is not limited.
  step_empty :
      (entries : Hits) (ip : Str) (now : ℕ)
      → is_empty ip ≡ true
      → rate_limited range limit entries ip now ≡ (entries, false)
  step_empty entries ip now e =
      unfold rate_limited in rw (on.enabled, on.queries_is, on.window_is, e) (ground arith)

  nothing_asked :
      (ip k : Str) (c now : ℕ)
      → is_empty ip ≡ true
      → is_empty k ≡ false
      → (l : List ℕ) → l ≡ l ++ asked_after k c ((ip, now) ∷ [])
  nothing_asked ip k c now e ne l = elim (Bool-cases (str_eq ip k)) [
    | inl same ↦ absurd (cc (ap is_empty ((str_eq_iff ip k).0 same), e, ne))
    | inr differ ↦ unfold asked_after in rw differ (sym (append-nil l))
  ]

  table_step :
      (entries : Hits) (history : List Query) (ip k : Str) (c now : ℕ)
      → window_start now ≤ c
      → keep (λ hit. ltb c hit) (hits_of (get k entries)) ≡ asked_after k c history
      → keep
          (λ hit. ltb c hit)
          (hits_of
            (get k (put ip (hits_after (window_start now) now (hits_of (get ip entries))) entries)))
        ≡ asked_after k c history ++ asked_after k c ((ip, now) ∷ [])
  table_step entries history ip k c now h before = elim (Bool-cases (str_eq ip k)) [
    | inl same ↦
        let e = (str_eq_iff ip k).0 same in
        let here : str_eq k k ≡ true = (str_eq_iff k k).1 refl in
        rw (e, get-put k k _ entries, here, hits_of-some, keep-hits_after _ c now _ h, before)
          (rw (asked_after-one k c now here) refl)
    | inr differ ↦ unfold asked_after in rw (get-put ip k _ entries, differ, append-nil) before
  ]

  Agrees-step :
      (entries : Hits) (history : List Query) (t : ℕ) (ip : Str) (now : ℕ)
      → Agrees entries history t
      → t ≤ now
      → length entries < max_rate_entries
      → Agrees (rate_limited range limit entries ip now).0 (history ++ (ip, now) ∷ []) now
  Agrees-step entries history t ip now agrees le lt k c nk h =
      let before = agrees k c nk (omega arith) in
      elim (Bool-cases (is_empty ip)) [
        | inl nobody ↦
            rw (step_empty entries ip now nobody, asked_after-append k c history ((ip, now) ∷ []))
              (before ∙ nothing_asked ip k c now nobody nk (asked_after k c history))
        | inr somebody ↦
            rw
              (
                step_table entries ip now somebody lt,
                asked_after-append k c history ((ip, now) ∷ []),
              )
              (table_step entries history ip k c now h before)
      ]

  run_cons :
      (queries : List Query) (entries : Hits) (history : List Query) (ip : Str) (now : ℕ)
      → Agrees
          (run_queries range limit (rate_limited range limit entries ip now).0 queries)
          ((history ++ (ip, now) ∷ []) ++ queries)
          (last_time now queries)
        × (length (run_queries range limit (rate_limited range limit entries ip now).0 queries)
            < max_rate_entries)
      → Agrees
          (run_queries range limit entries ((ip, now) ∷ queries))
          (history ++ (ip, now) ∷ queries)
          (last_time now queries)
        × (length (run_queries range limit entries ((ip, now) ∷ queries)) < max_rate_entries)
  unfolding run_queries
  run_cons queries entries history ip now h = rw (← append_assoc history ((ip, now) ∷ []) queries) h

  run_queries-Agrees :
      (queries : List Query) (entries : Hits) (history : List Query) (t : ℕ)
      → Agrees entries history t
      → InOrder t queries
      → NeverFull range limit entries queries
      → Agrees (run_queries range limit entries queries) (history ++ queries) (last_time t queries)
        × (length (run_queries range limit entries queries) < max_rate_entries)
  run_queries-Agrees [] entries history t a o lt =
      unfold run_queries in (rw (append-nil history) a, lt)
  run_queries-Agrees ((ip, now) ∷ queries) entries history t a o lt =
      let rest =
        run_queries-Agrees queries (rate_limited range limit entries ip now).0
          (history ++ (ip, now) ∷ []) now (Agrees-step entries history t ip now a o.0 lt.0) o.1
          lt.1 in
      run_cons queries entries history ip now rest

  -- For a limit that is on, with a window that fits 64 bits of nanoseconds: after any history in
  -- which time does not go back and the table never held 10000 clients, a client is limited exactly if this
  -- query and those that it made within the window before it are more than the configured number.
  pub rate_limited-history :
      (history : List Query) (ip : Str) (now : ℕ)
      → InOrder 0 history
      → last_time 0 history ≤ now
      → NeverFull range limit [] history
      → is_empty ip ≡ false
      → (rate_limited range limit (run_queries range limit [] history) ip now).1
        ≡ ltb
            (suc on.queries)
            (length (asked_after ip (now - suc (on.window) * second) history) + 1)
  rate_limited-history history ip now o le lt ne =
      let (agrees, small) =
        run_queries-Agrees history [] [] 0 (λ k c nk h. unfold get hits_of asked_after in refl) o
          lt in
      let seen = agrees ip (window_start now) ne (omega arith) in
      let table = run_queries range limit [] history in
      let count : length (hits_after (window_start now) now (hits_of (get ip table)))
          ≡ length (asked_after ip (window_start now) history) + 1 =
        unfold hits_after in
        (length-append (keep (λ hit. ltb (window_start now) hit) (hits_of (get ip table)))
            (now ∷ [])
          ∙ rw seen) in
      rw (step_table table ip now ne small) (rw count)
