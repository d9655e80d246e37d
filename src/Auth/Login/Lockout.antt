-- ===== src/Auth/Login/Lockout.antt =====
-- Failed logins in a row (runtime_api.go).
use moreno_dnsleaf.Prelude.{
  ℕ, suc, ◌+◌, ◌-◌, ◌≤◌, ◌<◌, not, ◌&&◌, List, [], ◌∷◌, none, some, if◌then◌else◌, ltb, leb, length,
  is_some, ◌≡◌, arith, ap, ◌∙◌,
}
use moreno_dnsleaf.Prelude.Map.{get, delete, get-put_self, delete_first, get-delete}
use moreno_dnsleaf.Prelude.Text.{Str}
use moreno_dnsleaf.Auth.Login.{
  LoginAttempt, login_window, login_block, login_max_failures, Attempts, attempt_of, is_over,
  login_allowed, make_login_room, fail_again, note_login_failure, drop_over,
}

-- Failed logins of one client, in order, each within the window of the first.
unfoldable pub fail_all : (Attempts → Attempts) → Attempts → Str → List ℕ → Attempts
fail_all range attempts client [] = attempts
fail_all range attempts client (now ∷ times) =
    fail_all range (note_login_failure range attempts client now) client times

abbrev pub InWindow : ℕ → List ℕ → Type 0
InWindow first [] = Unit
InWindow first (now ∷ times) = (first ≤ now) × (now < first + login_window) × InWindow first times

abbrev pub last_of : ℕ → List ℕ → ℕ
last_of t [] = t
last_of t (now ∷ times) = last_of now times

-- The attempt after `n` failures in the window of `first`, the last at `last`.
abbrev attempt_after : ℕ → ℕ → ℕ → LoginAttempt
attempt_after first n last = record {
  failures = n;
  first_failed = first;
  blocked_till = if leb login_max_failures n then last + login_block else 0;
}

module _ (range : Attempts → Attempts) (client : Str) where
  -- A client that is in the table needs no room.
  room_known :
      (attempts : Attempts) (now : ℕ) (a : LoginAttempt)
      → get client attempts ≡ some a
      → make_login_room range attempts client now ≡ attempts
  room_known attempts now a e = unfold make_login_room in ground (arith, ap is_some e)

  fail_in_window :
      (first n last now : ℕ)
      → 0 < first
      → first ≤ now
      → now < first + login_window
      → fail_again (attempt_after first n last) now ≡ attempt_after first (suc n) now
  unfolding fail_again is_over
  fail_in_window first n last now p le lt = ground arith

  fail_some :
      (first n last now : ℕ)
      → 0 < first
      → first ≤ now
      → now < first + login_window
      → fail_again (attempt_of (some (attempt_after first n last))) now
        ≡ attempt_after first (suc n) now
  unfolding attempt_of
  fail_some first n last now p le lt = fail_in_window first n last now p le lt

  fail_first : (first : ℕ) → fail_again (attempt_of none) first ≡ attempt_after first 1 first
  unfolding attempt_of fail_again is_over
  fail_first first = ground arith

  allowed_of :
      (attempts : Attempts) (first : ℕ) (times : List ℕ) (now : ℕ)
      → 0 < first
      → first ≤ now
      → now < first + login_window
      → get client attempts ≡ some (attempt_after first (suc (length times)) (last_of first times))
      → ((login_allowed attempts client now).1
          ≡ not (
              leb login_max_failures (suc (length times))
              && ltb now (last_of first times + login_block)))
        × ((login_allowed attempts client now).2 ≡ (
            if leb login_max_failures (suc (length times))
              && ltb now (last_of first times + login_block)
            then last_of first times + login_block - now
            else 0))
  unfolding login_allowed attempt_of
  allowed_of attempts first times now p le lt e = rw e (ground arith, ground arith)

  fail_all-get :
      (times : List ℕ) (attempts : Attempts) (first n last : ℕ)
      → 0 < first
      → get client attempts ≡ some (attempt_after first n last)
      → InWindow first times
      → get client (fail_all range attempts client times)
        ≡ some (attempt_after first (n + length times) (last_of last times))
  unfolding fail_all
  fail_all-get [] attempts first n last p e w =
      e ∙ ap (λ (k : ℕ). some (attempt_after first k last)) (omega arith)
  fail_all-get (now ∷ times) attempts first n last p e w =
      let noted : get client (note_login_failure range attempts client now)
          ≡ some (attempt_after first (suc n) now) =
        unfold note_login_failure in
        rw (room_known attempts now _ e, e, get-put_self)
          (ap some (fail_some first n last now p w.0 w.1)) in
      fail_all-get times (note_login_failure range attempts client now) first (suc n) now p noted
        w.2
      ∙ ap (λ (k : ℕ). some (attempt_after first k (last_of now times))) (omega arith)

  delete_absent :
      (k : Str) (attempts : Attempts)
      → get client attempts ≡ none
      → get client (delete k attempts) ≡ none
  delete_absent k attempts e = ground (arith, get-delete k client attempts)

  drop_over_absent :
      (order attempts : Attempts) (now : ℕ)
      → get client attempts ≡ none
      → get client (drop_over order attempts now) ≡ none
  unfolding drop_over
  drop_over_absent [] attempts now e = e
  drop_over_absent ((key, a) ∷ order) attempts now e = ground (
    arith,
    delete_absent key attempts e,
    drop_over_absent order (delete key attempts) now (delete_absent key attempts e),
    drop_over_absent order attempts now e,
  )

  delete_first_absent :
      (order attempts : Attempts)
      → get client attempts ≡ none
      → get client (delete_first order attempts) ≡ none
  unfolding delete_first
  delete_first_absent [] attempts e = e
  delete_first_absent ((k, a) ∷ order) attempts e = delete_absent k attempts e

  room_absent :
      (attempts : Attempts) (now : ℕ)
      → get client attempts ≡ none
      → get client (make_login_room range attempts client now) ≡ none
  room_absent attempts now e =
      let fewer = drop_over (range attempts) attempts now in
      let dropped = drop_over_absent (range attempts) attempts now e in
      unfold make_login_room in
      ground (arith, dropped, delete_first_absent (range fewer) fewer dropped)

  -- A client without failures so far fails at `first` and then at `times`, within one window.
  -- Later in that window it may try again exactly if it failed fewer than 8 times or the block of
  -- 60 seconds from its last failure is over; otherwise it is told to wait for the rest of the
  -- block.
  pub login_allowed-fail_all :
      (attempts : Attempts) (first : ℕ) (times : List ℕ) (now : ℕ)
      → get client attempts ≡ none
      → 0 < first
      → InWindow first times
      → first ≤ now
      → now < first + login_window
      → ((login_allowed (fail_all range attempts client (first ∷ times)) client now).1
          ≡ not (
              leb login_max_failures (suc (length times))
              && ltb now (last_of first times + login_block)))
        × ((login_allowed (fail_all range attempts client (first ∷ times)) client now).2 ≡ (
            if leb login_max_failures (suc (length times))
              && ltb now (last_of first times + login_block)
            then last_of first times + login_block - now
            else 0))
  login_allowed-fail_all attempts first times now e p w le lt =
      let noted : get client (note_login_failure range attempts client first)
          ≡ some (attempt_after first 1 first) =
        unfold note_login_failure in
        rw (room_absent attempts first e, get-put_self) (ap some (fail_first first)) in
      let final =
        fail_all-get times (note_login_failure range attempts client first) first 1 first p noted
          w in
      allowed_of (fail_all range attempts client (first ∷ times)) first times now p le lt (
        unfold fail_all in
        (final ∙ ap (λ (k : ℕ). some (attempt_after first k (last_of first times))) (omega arith)))
