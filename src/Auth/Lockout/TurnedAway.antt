-- ===== src/Auth/Lockout/TurnedAway.antt =====
-- Logins to a locked account are turned away.
use pookie_chat.Prelude.{
  ltb, Bool-cases, length, find, length-append, All, ℕ, ◌+◌, ◌-◌, ◌<◌, ◌≡◌, refl, ap, ◌∙◌, ◌≢◌, inl,
  inr, Bool, true, false, Option, none, some, List, [], ◌∷◌, ◌++◌, arith,
}
use pookie_chat.Domain.Text.{Text}
use pookie_chat.Domain.Lockout.{is_login_locked, lockout_seconds, clear_login_lockout}
use pookie_chat.Domain.Username.{to_lower}
use pookie_chat.Server.{Exception, Result, ok, err}
use pookie_chat.Server.Rows.{UserRow}
use pookie_chat.Auth.{UnknownAttempt, AuthState, AuthContext, RequestContext}
use pookie_chat.Auth.Login.{
  attempt_state, is_named, has_failed_often, has_token, token_text, identifier_of, pass_challenge,
  is_challenged, login_as, login, LoginDto, LoggedIn,
}
use pookie_chat.Auth.UnknownNames.{
  challenge_period_ms, challenged_by, is_unknown_identifier_challenged,
}
use pookie_chat.Domain.Lockout.Escalation.{fail_at, locked_exactly}
use pookie_chat.Server.Reason.{at_require, at_bind, at_guard}
use pookie_chat.Auth.Lockout.{
  try_logins, times_of, times-append, length-times, failed_at, named_counted_all, Attempt, IsWrong,
}

abbrev pub KeepsTables : AuthState → AuthState → Type 0
KeepsTables st next = (next.db ≡ st.db) × (next.sessions ≡ st.sessions)

challenged_by-KeepsTables :
    (now : ℕ) (name : Text) (o : Option UnknownAttempt) (st : AuthState)
    → KeepsTables st (challenged_by now name o st).1
challenged_by-KeepsTables now name none st = (refl, refl)
challenged_by-KeepsTables now name (some a) st =
    elim (Bool-cases (ltb challenge_period_ms (now - a.last_attempt))) [
      | inl late ↦ rw late (refl, refl)
      | inr recent ↦ rw recent (refl, refl)
    ]

is_challenged-KeepsTables :
    (c : AuthContext) (raw : Text) (found : Option UserRow) (st : AuthState)
    → KeepsTables st (is_challenged c raw found st).1
unfolding is_unknown_identifier_challenged
is_challenged-KeepsTables c raw found st = elim (Bool-cases (has_failed_often found)) [
  | inl often ↦ rw often (refl, refl)
  | inr rare ↦ rw rare (challenged_by-KeepsTables c.base.now (to_lower c.lower_other raw) _ st)
]

pass_challenge-KeepsTables :
    (c : AuthContext) (dto : LoginDto) (b : Bool) (st s : AuthState)
    → KeepsTables st s
    → KeepsTables st (pass_challenge c dto b s).1
pass_challenge-KeepsTables c dto false st s keeps = keeps
pass_challenge-KeepsTables c dto true st s keeps =
    at_require (λ q. KeepsTables st q.1) (has_token dto.turnstile_token) _ _ s keeps
      (λ _.
        at_guard (λ q. KeepsTables st q.1) (c.turnstile (token_text dto.turnstile_token)) _ s keeps
          (λ _. keeps))

-- A login that gets no session and changes neither the database nor the sessions.
abbrev pub IsTurnedAway : AuthState → Result LoggedIn × AuthState → Type 0
IsTurnedAway st q = ((answer : LoggedIn) → q.0 ≢ ok answer) × KeepsTables st q.1

err-IsTurnedAway :
    (st next : AuthState) (e : Exception) → KeepsTables st next → IsTurnedAway st (err e, next)
err-IsTurnedAway st next e keeps = ((λ answer h. ground arith), keeps)

login_as-locked :
    (c : AuthContext) (dto : LoginDto) (ctx : RequestContext) (fresh raw : Text) (u : UserRow)
    (st : AuthState)
    → find (is_named c raw) st.db.users ≡ some u
    → is_login_locked (attempt_state u) c.base.now ≡ true
    → IsTurnedAway st (login_as c dto ctx fresh raw st)
unfolding login_as
login_as-locked c dto ctx fresh raw u st found locked =
    at_require (IsTurnedAway st) (ltb 0 (length raw)) _ _ st (err-IsTurnedAway st st _ (refl, refl))
      (λ _.
        at_bind (IsTurnedAway st) (λ q. KeepsTables st q.1)
          (is_challenged c raw (find (is_named c raw) st.db.users) st) _
          (is_challenged-KeepsTables c raw (find (is_named c raw) st.db.users) st)
          (λ e s keeps. err-IsTurnedAway st s e keeps)
          (λ challenged s keeps.
            at_bind (IsTurnedAway st) (λ q. KeepsTables st q.1) (pass_challenge c dto challenged s)
              _ (pass_challenge-KeepsTables c dto challenged st s keeps)
              (λ e s' keeps'. err-IsTurnedAway st s' e keeps')
              (λ _ s' keeps'. rw (found, locked) (err-IsTurnedAway st s' _ keeps'))))

-- A login to a locked account gets no session, whatever the password, and is not counted.
pub login-locked :
    (a : Attempt) (u : UserRow) (st : AuthState)
    → find (is_named a.c (identifier_of a.dto)) st.db.users ≡ some u
    → is_login_locked (attempt_state u) a.c.base.now ≡ true
    → IsTurnedAway st (login a.c a.dto a.ctx a.fresh st)
login-locked a u st found locked =
    login_as-locked a.c a.dto a.ctx a.fresh (identifier_of a.dto) u st found locked

-- Five logins with a wrong password that get past the challenge, to an account without failures, at
-- any times, by its name, its address or its id, lock it: for thirty seconds from the last one every
-- login to it is turned away, the right password or not, and leaves the database and the sessions as
-- they are.
pub wrong_logins-locked :
    (four : List Attempt) (last right : Attempt) (u : UserRow) (st : AuthState)
    → All (IsWrong u st) (four ++ last ∷ [])
    → length four ≡ 4
    → attempt_state u ≡ clear_login_lockout
    → find (is_named right.c (identifier_of right.dto)) st.db.users ≡ some u
    → right.c.base.now < last.c.base.now + 30000
    → IsTurnedAway
        (try_logins (four ++ last ∷ []) st)
        (login right.c right.dto right.ctx right.fresh (try_logins (four ++ last ∷ []) st))
unfolding clear_login_lockout lockout_seconds
wrong_logins-locked four last right u st wrong number clean found soon =
    login-locked right (failed_at (four ++ last ∷ []) u) (try_logins (four ++ last ∷ []) st)
      (named_counted_all (four ++ last ∷ []) u st wrong (ap (λ a. a.locked_until) clean)
        (rw (length-append four (last ∷ []), number, ap (λ a. a.failed_login_count) clean)
          (omega arith))
        right.c (identifier_of right.dto) found)
      (ap (λ a. is_login_locked (fail_at a (times_of (four ++ last ∷ []))) right.c.base.now) clean
        ∙ ap (λ ts. is_login_locked (fail_at clear_login_lockout ts) right.c.base.now)
            (times-append four (last ∷ []))
        ∙ locked_exactly (times_of four) last.c.base.now right.c.base.now
        ∙ rw (length-times four ∙ number) (ground arith))
