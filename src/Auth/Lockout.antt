-- ===== src/Auth/Lockout.antt =====
-- Wrong passwords are counted.
pub mod TurnedAway
use pookie_chat.Prelude.{
  ltb, is_some, ==_refl, Bool-cases, length, find, update, All, All-mono, find-update, ℕ, suc, ◌+◌,
  ◌-◌, ◌≤◌, ◌≡◌, refl, ap, ◌∙◌, inl, inr, Bool, true, false, Option, none, some, List, [], ◌∷◌,
  ◌++◌, map, arith,
}
use pookie_chat.Domain.Text.{Text}
use pookie_chat.Domain.Lockout.{is_login_locked, record_failed_login}
use pookie_chat.Domain.Username.{to_lower}
use pookie_chat.Server.{ok}
use pookie_chat.Server.Rows.{UserRow}
use pookie_chat.Auth.{has_user_id, UnknownAttempt, AuthState, AuthContext, RequestContext}
use pookie_chat.Auth.Login.{
  attempt_state, with_attempts, is_named, has_failed_often, has_token, token_text, identifier_of,
  refuse, pass_challenge, is_challenged, login_as, login, LoginDto,
}
use pookie_chat.Auth.UnknownNames.{
  challenge_period_ms, is_attempt_at, challenged_by, is_unknown_identifier_challenged,
}
use pookie_chat.Domain.Lockout.Escalation.{fail_at}

pub record Attempt : Type 0 where
  pub c : AuthContext
  pub dto : LoginDto
  pub ctx : RequestContext
  pub fresh : Text

-- An attempt that names the user, gets past the challenge and has the wrong password.
pub record IsWrong (u : UserRow) (st : AuthState) (a : Attempt) : Type 0 where
  pub named : ltb 0 (length (identifier_of a.dto)) ≡ true
  pub found : find (is_named a.c (identifier_of a.dto)) st.db.users ≡ some u
  pub wrong : a.c.base.verify_password a.dto.password u.password_hash ≡ false
  pub token : has_token a.dto.turnstile_token ≡ true
  pub passes : a.c.turnstile (token_text a.dto.turnstile_token) ≡ true

abbrev pub try_login : Attempt → AuthState → AuthState
try_login a st = (login a.c a.dto a.ctx a.fresh st).1

abbrev pub try_logins : List Attempt → AuthState → AuthState
try_logins [] st = st
try_logins (a ∷ rest) st = try_logins rest (try_login a st)

abbrev pub times_of : List Attempt → List ℕ
times_of attempts = map (λ a. a.c.base.now) attempts

challenged_by-db :
    (now : ℕ) (name : Text) (o : Option UnknownAttempt) (st : AuthState)
    → (challenged_by now name o st).1.db ≡ st.db
challenged_by-db now name none st = refl
challenged_by-db now name (some a) st =
    elim (Bool-cases (ltb challenge_period_ms (now - a.last_attempt))) [
      | inl late ↦ rw late refl
      | inr recent ↦ rw recent refl
    ]

pub times-append : (xs ys : List Attempt) → times_of (xs ++ ys) ≡ times_of xs ++ times_of ys
times-append [] ys = refl
times-append (x ∷ xs) ys = ap (λ ts. x.c.base.now ∷ ts) (times-append xs ys)

pub length-times : (xs : List Attempt) → length (times_of xs) ≡ length xs
length-times [] = refl
length-times (x ∷ xs) = ap suc (length-times xs)

-- The look at the challenge leaves the tables alone.
challenge-looked :
    (c : AuthContext) (raw : Text) (found : Option UserRow) (st : AuthState)
    → (b : Bool) × (next : AuthState) × (is_challenged c raw found st ≡ (ok b, next))
      × (next.db ≡ st.db)
unfolding is_unknown_identifier_challenged
challenge-looked c raw found st = elim (Bool-cases (has_failed_often found)) [
  | inl often ↦ (true, st, rw often refl, refl)
  | inr rare ↦ (
    (challenged_by c.base.now (to_lower c.lower_other raw)
        (find (is_attempt_at (to_lower c.lower_other raw)) st.unknown_login_attempts) st).0,
    (challenged_by c.base.now (to_lower c.lower_other raw)
        (find (is_attempt_at (to_lower c.lower_other raw)) st.unknown_login_attempts) st).1,
    rw rare refl,
    challenged_by-db c.base.now (to_lower c.lower_other raw)
        (find (is_attempt_at (to_lower c.lower_other raw)) st.unknown_login_attempts) st,
  )
]

pass-passed :
    (a : Attempt) (u : UserRow) (st next : AuthState) (b : Bool)
    → IsWrong u st a
    → pass_challenge a.c a.dto b next ≡ (ok tt, next)
pass-passed a u st next true h = rw (h.token, h.passes) refl
pass-passed a u st next false h = refl

counted_users :
    (a : Attempt) (raw : Text) (u : UserRow) (st : AuthState)
    → (refuse a.c raw (some u) st).1.db.users
      ≡ update
          (has_user_id u.id)
          (with_attempts (record_failed_login (attempt_state u) a.c.base.now))
          st.db.users
counted_users a raw u st =
    elim (Bool-cases (is_some (record_failed_login (attempt_state u) a.c.base.now).locked_until)) [
      | inl locked ↦ rw locked refl
      | inr unlocked ↦ rw unlocked refl
    ]

login_as-wrong :
    (a : Attempt) (raw : Text) (u : UserRow) (st : AuthState)
    → ltb 0 (length raw) ≡ true
    → find (is_named a.c raw) st.db.users ≡ some u
    → IsWrong u st a
    → u.locked_until ≡ none
    → (next : AuthState) × (next.db ≡ st.db)
      × (login_as a.c a.dto a.ctx a.fresh raw st ≡ refuse a.c raw (some u) next)
unfolding login_as is_login_locked
login_as-wrong a raw u st named found h unlocked =
    let (b, next, run, same) = challenge-looked a.c raw (some u) st in
    (next, same, rw (named, found, run, pass-passed a u st next b h, unlocked, h.wrong) refl)

login-counted :
    (a : Attempt) (u : UserRow) (st : AuthState)
    → IsWrong u st a
    → u.locked_until ≡ none
    → (try_login a st).db.users
      ≡ update
          (has_user_id u.id)
          (with_attempts (record_failed_login (attempt_state u) a.c.base.now))
          st.db.users
login-counted a u st h unlocked =
    let (next, same, run) =
      login_as-wrong a (identifier_of a.dto) u st h.named h.found h unlocked in
    ap (λ q. q.1.db.users) run
    ∙ counted_users a (identifier_of a.dto) u next
    ∙ ap
        (λ db.
          update (has_user_id u.id)
            (with_attempts (record_failed_login (attempt_state u) a.c.base.now)) db.users)
        same

-- The user's row after the attempts.
abbrev pub failed_at : List Attempt → UserRow → UserRow
failed_at attempts u = with_attempts (fail_at (attempt_state u) (times_of attempts)) u

named_counted :
    (a : Attempt) (u : UserRow) (st : AuthState)
    → IsWrong u st a
    → u.locked_until ≡ none
    → (c : AuthContext) (raw : Text) → find (is_named c raw) st.db.users ≡ some u
    → find (is_named c raw) (try_login a st).db.users ≡ some (failed_at (a ∷ []) u)
unfolding fail_at
named_counted a u st h unlocked c raw found =
    ap (find (is_named c raw)) (login-counted a u st h unlocked)
    ∙ find-update (is_named c raw) (has_user_id u.id)
        (with_attempts (record_failed_login (attempt_state u) a.c.base.now)) (λ r. refl) st.db.users
    ∙ rw (found, ==_refl u.id) refl

still-IsWrong :
    (a : Attempt) (u : UserRow) (st : AuthState)
    → IsWrong u st a
    → u.locked_until ≡ none
    → (b : Attempt) → IsWrong u st b
    → IsWrong (failed_at (a ∷ []) u) (try_login a st) b
still-IsWrong a u st h unlocked b k = record {
  named = k.named;
  found = named_counted a u st h unlocked b.c (identifier_of b.dto) k.found;
  wrong = k.wrong;
  token = k.token;
  passes = k.passes;
}

-- Up to five wrong logins are all counted.
pub named_counted_all :
    (attempts : List Attempt) (u : UserRow) (st : AuthState)
    → All (IsWrong u st) attempts
    → u.locked_until ≡ none
    → u.failed_login_count + length attempts ≤ 5
    → (c : AuthContext) (raw : Text) → find (is_named c raw) st.db.users ≡ some u
    → find (is_named c raw) (try_logins attempts st).db.users ≡ some (failed_at attempts u)
unfolding fail_at record_failed_login
named_counted_all [] u st h unlocked few c raw found = found
named_counted_all (a ∷ []) u st (h, hs) unlocked few c raw found =
    named_counted a u st h unlocked c raw found
named_counted_all (a ∷ b ∷ rest) u st (h, hs) unlocked few c raw found =
    named_counted_all (b ∷ rest) (failed_at (a ∷ []) u) (try_login a st)
      (All-mono (IsWrong u st) (IsWrong (failed_at (a ∷ []) u) (try_login a st))
        (still-IsWrong a u st h unlocked) (b ∷ rest) hs)
      (ground arith) (ground arith) c raw (named_counted a u st h unlocked c raw found)
