-- ===== src/Auth/Sessions/Expiry.antt =====
-- The table of sessions: its size, and revocation.
use moreno_dnsleaf.Prelude.{
  ℕ, ◌+◌, ◌≤◌, ◌<◌, Bool, true, false, ◌||◌, [], ◌∷◌, Option, none, some, ltb, length, All, ◌≡◌,
  refl, arith, Bool-cases, inl, inr, is_some, ap, ◌∙◌,
}
use moreno_dnsleaf.Prelude.Map.{
  get, put, delete, IsRange, length-delete-le, length-delete-lt, length-put-le, get-delete, get-put,
}
use moreno_dnsleaf.Prelude.Text.{Str, str_eq, is_empty}
use moreno_dnsleaf.Auth.Sessions.{
  Session, SessionTable, revoke_loop, revoke_user_sessions, expire_loop, oldest_session,
  evict_session, add_session, max_sessions, session_life,
}

length-expire_loop-le :
    (order sessions : SessionTable) (now : ℕ)
    → length (expire_loop now order sessions) ≤ length sessions
unfolding expire_loop
length-expire_loop-le [] sessions now = omega arith
length-expire_loop-le ((token, s) ∷ order) sessions now = elim (Bool-cases (ltb s.expires now)) [
  | inl expired ↦ rw expired (
      omega (
        arith,
        length-delete-le token sessions,
        length-expire_loop-le order (delete token sessions) now,
      ))
  | inr live ↦ rw live (length-expire_loop-le order sessions now)
]

-- No session has the empty token.
abbrev pub HasTokens : SessionTable → Type 0
HasTokens sessions = get [] sessions ≡ none

expire_loop-absent :
    (order sessions : SessionTable) (now : ℕ) (k : Str)
    → get k sessions ≡ none
    → get k (expire_loop now order sessions) ≡ none
unfolding expire_loop
expire_loop-absent [] sessions now k h = h
expire_loop-absent ((token, s) ∷ order) sessions now k h =
    expire_loop-absent order _ now k (ground (arith, get-delete token k sessions))

-- A token of the table.
abbrev IsToken : SessionTable → Str → Type 0
IsToken sessions t = (is_empty t ≡ false) × (is_some (get t sessions) ≡ true)

oldest_session-IsToken :
    (sessions order : SessionTable) (token : Str) (oldest : ℕ)
    → All (λ e. IsToken sessions e.0) order
    → IsToken sessions token
    → IsToken sessions (oldest_session token oldest order)
unfolding oldest_session
oldest_session-IsToken sessions [] token oldest h t = t
oldest_session-IsToken sessions ((existing, s) ∷ order) token oldest h t =
    elim (Bool-cases (is_empty token || ltb s.expires oldest)) [
      | inl take_it ↦ rw take_it (oldest_session-IsToken sessions order existing s.expires h.1 h.0)
      | inr keep_it ↦ rw keep_it (oldest_session-IsToken sessions order token oldest h.1 t)
    ]

IsTokens_of :
    (sessions order : SessionTable)
    → HasTokens sessions
    → All (λ e. get e.0 sessions ≡ some e.1) order
    → All (λ e. IsToken sessions e.0) order
IsTokens_of sessions [] h v = tt
IsTokens_of sessions (([], s) ∷ order) h v = absurd (cc (h, v.0))
IsTokens_of sessions ((c ∷ t, s) ∷ order) h v =
    ((unfold is_empty in refl, ap is_some v.0), IsTokens_of sessions order h v.1)

length-evict_session-le :
    (order sessions : SessionTable)
    → length sessions ≤ max_sessions
    → length order ≡ length sessions
    → All (λ e. IsToken sessions e.0) order
    → length (evict_session order sessions) < max_sessions
length-evict_session-le [] sessions h e v = unfold evict_session in ground arith
length-evict_session-le ((t, s) ∷ order) sessions h e v =
    let oldest : IsToken sessions (oldest_session t s.expires order) =
      oldest_session-IsToken sessions order t s.expires v.1 v.0 in
    unfold evict_session oldest_session is_empty in
    ground (arith, oldest, length-delete-lt (oldest_session t s.expires order) sessions)

evict_session-absent :
    (order sessions : SessionTable) (k : Str)
    → get k sessions ≡ none
    → get k (evict_session order sessions) ≡ none
unfolding evict_session
evict_session-absent order sessions k h =
    ground (arith, get-delete (oldest_session [] 0 order) k sessions)

nonempty_str_eq : (token : Str) → is_empty token ≡ false → str_eq token [] ≡ false
unfolding is_empty str_eq
nonempty_str_eq [] ne = ground arith
nonempty_str_eq (c ∷ t) ne = refl

put_other :
    (token : Str) (s : Session) (sessions : SessionTable)
    → is_empty token ≡ false
    → HasTokens sessions
    → HasTokens (put token s sessions)
put_other token s sessions ne h =
    ground (arith, get-put token [] s sessions, nonempty_str_eq token ne)

module _ (range : SessionTable → SessionTable) (r : IsRange range) where
  -- If there are at most 1024 sessions, and none with an empty token, then so it is after a login
  -- with a token that is not empty.
  pub length-add_session-le :
      (sessions : SessionTable) (token username role : Str) (now : ℕ)
      → HasTokens sessions
      → is_empty token ≡ false
      → length sessions ≤ max_sessions
      → (length (add_session range sessions token username role now) ≤ max_sessions)
        × HasTokens (add_session range sessions token username role now)
  unfolding add_session
  length-add_session-le sessions token username role now h ne le =
      let live : SessionTable = expire_loop now (range sessions) sessions in
      let none_empty : HasTokens live = expire_loop-absent (range sessions) sessions now [] h in
      let few : length live ≤ max_sessions =
        omega (arith, le, length-expire_loop-le (range sessions) sessions now) in
      let room : length (evict_session (range live) live) < max_sessions =
        length-evict_session-le (range live) live few (r.counts live)
          (IsTokens_of live (range live) none_empty (r.visits live)) in
      let session : Session = record {
        username = username;
        role = role;
        expires = now + session_life;
      } in
      (
        omega (arith, room, length-put-le token session (evict_session (range live) live)),
        put_other token session (evict_session (range live) live) ne
            (evict_session-absent (range live) live [] none_empty),
      )

  revoke_loop-absent :
      (order sessions : SessionTable) (username k : Str)
      → get k sessions ≡ none
      → get k (revoke_loop username order sessions) ≡ none
  unfolding revoke_loop
  revoke_loop-absent [] sessions username k h = h
  revoke_loop-absent ((token, s) ∷ order) sessions username k h =
      revoke_loop-absent order _ username k (ground (arith, get-delete token k sessions))

  head_entry :
      (token k : Str) (head s : Session) (order : SessionTable)
      → get k ((token, head) ∷ order) ≡ some s
      → str_eq token k ≡ true
      → some head ≡ some s
  unfolding get
  head_entry token k head s order g here = ground arith

  is_user : Str → Option Session → Bool
  is_user username none = false
  is_user username (some s) = str_eq s.username username

  revoke_loop-gone :
      (order sessions : SessionTable) (username k : Str) (s : Session)
      → get k order ≡ some s
      → str_eq s.username username ≡ true
      → get k (revoke_loop username order sessions) ≡ none
  unfolding get revoke_loop is_user
  revoke_loop-gone [] sessions username k s g e = ground arith
  revoke_loop-gone ((token, head) ∷ order) sessions username k s g e =
      elim (Bool-cases (str_eq token k)) [
        | inl here ↦
            let user : str_eq head.username username ≡ true =
              ap (is_user username) (head_entry token k head s order g here) ∙ e in
            revoke_loop-absent order _ username k
              (ground (arith, get-delete token k sessions, here, user))
        | inr there ↦ revoke_loop-gone order _ username k s (ground (arith, g, there)) e
      ]

  revoke_loop-kept :
      (order sessions : SessionTable) (username k : Str) (s : Session)
      → get k (revoke_loop username order sessions) ≡ some s
      → get k sessions ≡ some s
  unfolding revoke_loop
  revoke_loop-kept [] sessions username k s g = g
  revoke_loop-kept ((token, head) ∷ order) sessions username k s g =
      let later = revoke_loop-kept order _ username k s g in
      ground (arith, later, get-delete token k sessions)

  -- After the sessions of a user are revoked, no token stands for a session of that user.
  pub revoke_user_sessions-gone :
      (sessions : SessionTable) (username k : Str) (s : Session)
      → get k (revoke_user_sessions range username sessions) ≡ some s
      → str_eq s.username username ≡ false
  unfolding revoke_user_sessions
  revoke_user_sessions-gone sessions username k s g =
      elim (Bool-cases (str_eq s.username username)) [
        | inl user ↦
            let there = revoke_loop-kept (range sessions) sessions username k s g in
            let gone =
              revoke_loop-gone (range sessions) sessions username k s (r.covers sessions k s there)
                user in
            ground (arith, gone, g)
        | inr other ↦ other
      ]
