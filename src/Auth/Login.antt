-- ===== src/Auth/Login.antt =====
-- The limit on failed logins: `loginAllowed`, `noteLoginFailure` and `clearLoginFailures` of
-- runtime_api.go. Time 0 is Go's zero time, which no clock shows.
pub mod Lockout
use moreno_dnsleaf.Prelude.{
  ℕ, zero, suc, ◌+◌, ◌-◌, ◌*◌, Bool, true, false, not, ◌&&◌, ◌||◌, List, [], ◌∷◌, Option, none,
  some, if◌then◌else◌, ltb, leb, ◌==◌, length, is_some,
}
use moreno_dnsleaf.Prelude.Int.{second}
use moreno_dnsleaf.Prelude.Map.{Map, get, put, delete, delete_first}
use moreno_dnsleaf.Prelude.Text.{Str}

pub record LoginAttempt : Type 0 where
  pub failures : ℕ
  pub first_failed : ℕ
  pub blocked_till : ℕ

abbrev pub login_window : ℕ
login_window = 900 * second

abbrev pub login_block : ℕ
login_block = 60 * second

abbrev pub login_max_failures : ℕ
login_max_failures = 8

abbrev pub max_login_entries : ℕ
max_login_entries = 10000

abbrev pub Attempts : Type 0
Attempts = Map LoginAttempt

abbrev pub no_attempt : LoginAttempt
no_attempt = record { failures = 0; first_failed = 0; blocked_till = 0 }

unfoldable pub attempt_of : Option LoginAttempt → LoginAttempt
attempt_of none = no_attempt
attempt_of (some a) = a

-- Never failed, or the first failure is a window ago.
unfoldable pub is_over : LoginAttempt → ℕ → Bool
is_over a now = a.first_failed == 0 || leb login_window (now - a.first_failed)

-- The new table, whether a login is allowed, and the time to wait if not.
unfoldable pub login_allowed : Attempts → Str → ℕ → Attempts × Bool × ℕ
login_allowed attempts client now =
    let a = attempt_of (get client attempts) in
    if not (a.first_failed == 0) && leb login_window (now - a.first_failed)
    then (delete client attempts, true, 0)
    else if ltb now a.blocked_till
    then (attempts, false, a.blocked_till - now)
    else (attempts, true, 0)

-- The loop over the table in the order of `range`: attempts that are over go until there is room.
unfoldable pub drop_over : Attempts → Attempts → ℕ → Attempts
drop_over [] attempts now = attempts
drop_over ((key, a) ∷ order) attempts now =
    let fewer = delete key attempts in
    let go_on = drop_over order fewer now in
    let skip = drop_over order attempts now in
    if not (is_over a now)
    then skip
    else if ltb (length fewer) max_login_entries
    then fewer
    else go_on

unfoldable pub make_login_room : (Attempts → Attempts) → Attempts → Str → ℕ → Attempts
make_login_room range attempts client now =
    let fewer = drop_over (range attempts) attempts now in
    if is_some (get client attempts) || ltb (length attempts) max_login_entries
    then attempts
    else if ltb (length fewer) max_login_entries
    then fewer
    else delete_first (range fewer) fewer

-- The attempt after one more failure.
unfoldable pub fail_again : LoginAttempt → ℕ → LoginAttempt
fail_again a now =
    let start =
      if is_over a now then record { failures = 0; first_failed = now; blocked_till = 0 } else a in
    record start {
      failures = start.failures + 1;
      blocked_till =
          if leb login_max_failures (start.failures + 1)
          then now + login_block
          else start.blocked_till;
    }

unfoldable pub note_login_failure : (Attempts → Attempts) → Attempts → Str → ℕ → Attempts
note_login_failure range attempts client now =
    let room = make_login_room range attempts client now in
    put client (fail_again (attempt_of (get client room)) now) room

unfoldable pub clear_login_failures : Attempts → Str → Attempts
clear_login_failures attempts client = delete client attempts

-- For tests: all that a run of these functions computes with.
unfoldable pub login_program : Unit {0}
unfolding attempt_of is_over login_allowed drop_over make_login_room fail_again note_login_failure
    clear_login_failures
login_program = tt
