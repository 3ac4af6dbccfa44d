-- ===== src/Examples/OfAuth.antt =====
-- Theorems on sessions, logins and verification codes at concrete inputs.
use pookie_chat.Domain.Username.{to_lower}
use pookie_chat.Prelude.{
  find, ℕ, zero, suc, ◌≤◌, ◌≡◌, refl, true, false, none, some, List, [], ◌∷◌, ◌++◌, arith,
}
use pookie_chat.Domain.Text.{Text, is_space, trim}
use pookie_chat.Domain.MessageState.{eq_text}
use pookie_chat.Server.{Exception, unauthorized, ok, err}
use pookie_chat.Server.Rows.{Platform, UserRow, SessionRow, VerificationRow}
use pookie_chat.Server.Database.{empty_database}
use pookie_chat.Auth.{
  same_units, hash_refresh_token, is_session, drop_old_rotations, AccessToken, AuthState,
  AuthContext,
}
use pookie_chat.Auth.Emails.{
  normalize_email, hash_verification_code, verify_verification_code, newest_challenge, verify_email,
}
use pookie_chat.Auth.Guard.{can_activate}
use pookie_chat.Auth.Devices.{Tokens}
use pookie_chat.Auth.Sessions.{tokens_of, rotation_for, expired_session, refresh, revoke_session}
use pookie_chat.Auth.Login.{attempt_state, is_named, identifier_of, login}
use pookie_chat.Auth.Revoked.{revoke_session-refresh}
use pookie_chat.Auth.Rotating.{nothing, refresh-refresh, refresh-spent, IsFresh}
use pookie_chat.Auth.Rotating.Overtaken.{refresh-overtaken}
use pookie_chat.Auth.Lockout.{try_logins, Attempt, IsWrong}
use pookie_chat.Auth.Lockout.TurnedAway.{IsTurnedAway, wrong_logins-locked}
use pookie_chat.Auth.Codes.{guess_all, wrong_codes-refused, Guess, IsWrongGuess}
use pookie_chat.Examples.Fixtures.{shifted, at, a_user, a_device}
use pookie_chat.Domain.Lockout.{clear_login_lockout}

abbrev auth_at : ℕ → AuthContext
auth_at now = record {
  base = record (at now) { verify_password = eq_text };
  access_token_secret = [];
  admin_emails = [];
  encode = λ p. p.user_id ∷ p.device_id ∷ p.exp ∷ [];
  id_text = λ id. id ∷ [];
  lower_other = λ k. k ∷ [];
  turnstile = λ t. true;
}

abbrev units : ℕ → ℕ → Text
units zero k = []
units (suc n) k = k ∷ units n k

-- 32 times "a", "b" and "c".
abbrev token_a : Text
token_a = units 32 97

abbrev token_b : Text
token_b = units 32 98

abbrev token_c : Text
token_c = units 32 99

-- The session of user 1 on device 5 with the token of "a".
abbrev a_session : SessionRow
a_session = record {
  id = 30;
  user_id = 1;
  device_id = 5;
  refresh_token_hash = shifted token_a;
  expires_at = 1000000;
  revoked_at = none;
  user_agent = none;
  ip_hash = none;
  created_at = 0;
}

abbrev a_challenge : VerificationRow
a_challenge = record {
  id = 31;
  user_id = 1;
  email = 97 ∷ 64 ∷ 98 ∷ [];
  code_hash = 49 ∷ 50 ∷ 51 ∷ [];
  expires_at = 900000;
  consumed_at = none;
  attempts = 0;
  created_at = 0;
}

-- Named "a", with the password "p".
abbrev user_1 : UserRow
user_1 = record (a_user 1) { username = 97 ∷ []; password_hash = 112 ∷ [] }

abbrev auth_state : AuthState
auth_state = record {
  db = record empty_database { users = user_1 ∷ []; devices = a_device ∷ []; next_id = 40 };
  sessions = a_session ∷ [];
  verifications = a_challenge ∷ [];
  recent_rotations = [];
  unknown_login_attempts = [];
  revoked_pushes = [];
  disconnects = [];
  mails = [];
}

session_found : find (is_session 30) auth_state.sessions ≡ some a_session
unfolding find
session_found = refl

abbrev an_access_token : AccessToken
an_access_token = record {
  payload = record { user_id = 1; device_id = 5; exp = 901 };
  signature = [];
}

revoke_session-refresh_example :
    ((revoke_session 2000 1 30 auth_state).0 ≡ ok tt)
    × ((refresh (auth_at 3000) token_a token_b nothing (revoke_session 2000 1 30 auth_state).1).0
        ≡ err expired_session)
    × ((can_activate
          (auth_at 3000)
          (some an_access_token)
          (revoke_session 2000 1 30 auth_state).1).0
        ≡ err (unauthorized "Unauthorized"))
revoke_session-refresh_example =
    revoke_session-refresh 2000 1 30 a_session auth_state session_found refl refl (auth_at 3000)
      token_a token_b nothing an_access_token (((λ _. refl), tt), tt) refl

session-IsFresh : IsFresh (auth_at 2000) token_a a_session auth_state
unfolding find trim is_space eq_text
session-IsFresh = record {
  long = refl;
  uncached = refl;
  found = refl;
  first = refl;
  allowed = refl;
  known = refl;
}

tokens_differ : eq_text (hash_refresh_token (auth_at 2000) token_b) (shifted token_a) ≡ false
unfolding eq_text
tokens_differ = refl

abbrev first_pair : Tokens
first_pair =
    tokens_of
      (rotation_for (auth_at 2000) (hash_refresh_token (auth_at 2000) token_a) token_b a_session)

refresh-refresh_example :
    let rotated : AuthState = (refresh (auth_at 2000) token_a token_b nothing auth_state).1 in
    ((refresh (auth_at 2000) token_a token_b nothing auth_state).0 ≡ ok first_pair)
    × (refresh (auth_at 20000) token_a token_c nothing rotated
        ≡ (ok first_pair, drop_old_rotations 20000 rotated))
refresh-refresh_example =
    refresh-refresh (auth_at 2000) token_a a_session auth_state session-IsFresh token_b token_c
      20000 nothing (ground arith)

refresh-spent_example :
    (refresh
      (auth_at 40000)
      token_a
      token_c
      nothing
      (refresh (auth_at 2000) token_a token_b nothing auth_state).1).0
    ≡ err expired_session
refresh-spent_example =
    refresh-spent (auth_at 2000) token_a a_session auth_state session-IsFresh token_b token_c 40000
      nothing (ground arith) tokens_differ ((λ _. refl), tt)

refresh-overtaken_example :
    (refresh
      (auth_at 2000)
      token_a
      token_c
      (λ s. (refresh (auth_at 2000) token_a token_b nothing s).1)
      auth_state).0
    ≡ (refresh (auth_at 2000) token_a token_b nothing auth_state).0
refresh-overtaken_example =
    refresh-overtaken (auth_at 2000) token_a token_c token_b a_session auth_state session-IsFresh
      tokens_differ ((λ _. refl), tt)

-- A login as "a" with the password.
abbrev login_at : ℕ → Text → Attempt
login_at now password = record {
  c = auth_at now;
  dto = record {
    identifier = some (97 ∷ []);
    user_id = none;
    password = password;
    turnstile_token = some (116 ∷ []);
    keys = record {
      device_name = none;
      platform = Platform.web;
      identity_dh_public = [];
      identity_signing_public = [];
      signed_prekey_public = [];
      signed_prekey_signature = [];
      one_time_prekeys_public = [];
    };
  };
  ctx = record { user_agent = none; ip = none };
  fresh = token_a;
}

user_found : (now : ℕ) → find (is_named (auth_at now) (97 ∷ [])) auth_state.db.users ≡ some user_1
unfolding find eq_text to_lower
user_found now = refl

login_at-IsWrong : (now : ℕ) → IsWrong user_1 auth_state (login_at now (113 ∷ []))
unfolding trim is_space eq_text
login_at-IsWrong now = record {
  named = refl;
  found = user_found now;
  wrong = refl;
  token = refl;
  passes = refl;
}

abbrev four_logins : List Attempt
four_logins =
    login_at 1000 (113 ∷ [])
    ∷ login_at 2000 (113 ∷ [])
    ∷ login_at 3000 (113 ∷ [])
    ∷ login_at 4000 (113 ∷ [])
    ∷ []

named_at_6000 :
    find
      (is_named (auth_at 6000) (identifier_of (login_at 6000 (112 ∷ [])).dto))
      auth_state.db.users
    ≡ some user_1
unfolding trim is_space find eq_text to_lower
named_at_6000 = refl

clean : attempt_state user_1 ≡ clear_login_lockout
unfolding clear_login_lockout
clean = refl

wrong_logins-locked_example :
    IsTurnedAway (try_logins (four_logins ++ login_at 5000 (113 ∷ []) ∷ []) auth_state) (
      login
        (auth_at 6000)
        (login_at 6000 (112 ∷ [])).dto
        (login_at 6000 (112 ∷ [])).ctx
        token_a
        (try_logins (four_logins ++ login_at 5000 (113 ∷ []) ∷ []) auth_state))
wrong_logins-locked_example =
    wrong_logins-locked four_logins (login_at 5000 (113 ∷ [])) (login_at 6000 (112 ∷ [])) user_1
      auth_state
      (
        login_at-IsWrong 1000,
        (
          login_at-IsWrong 2000,
          (login_at-IsWrong 3000, (login_at-IsWrong 4000, (login_at-IsWrong 5000, tt))),
        ),
      )
      refl clean named_at_6000 (ground arith)

-- The code "999" for the address "a@b".
abbrev guess_at : ℕ → Guess
guess_at now = record { c = auth_at now; email = 97 ∷ 64 ∷ 98 ∷ []; code = 57 ∷ 57 ∷ 57 ∷ [] }

address_same :
    (now : ℕ) → normalize_email (auth_at now).lower_other (97 ∷ 64 ∷ 98 ∷ []) ≡ 97 ∷ 64 ∷ 98 ∷ []
unfolding normalize_email trim is_space to_lower
address_same now = refl

guess_at-IsWrongGuess :
    (now : ℕ) → now ≤ 900000 → IsWrongGuess (97 ∷ 64 ∷ 98 ∷ []) a_challenge (guess_at now)
unfolding verify_verification_code hash_verification_code trim is_space same_units
guess_at-IsWrongGuess now early = record { same = address_same now; early = early; wrong = refl }

abbrev five_guesses : List Guess
five_guesses = guess_at 1000 ∷ guess_at 2000 ∷ guess_at 3000 ∷ guess_at 4000 ∷ guess_at 5000 ∷ []

challenge_found : newest_challenge (97 ∷ 64 ∷ 98 ∷ []) auth_state ≡ some a_challenge
unfolding find eq_text
challenge_found = refl

wrong_codes-refused_example :
    (e : Exception) × (verify_email
        (auth_at 6000)
        (97 ∷ 64 ∷ 98 ∷ [])
        (49 ∷ 50 ∷ 51 ∷ [])
        (guess_all five_guesses auth_state)
      ≡ (err e, guess_all five_guesses auth_state))
wrong_codes-refused_example =
    wrong_codes-refused five_guesses
      (record { c = auth_at 6000; email = 97 ∷ 64 ∷ 98 ∷ []; code = 49 ∷ 50 ∷ 51 ∷ [] })
      (97 ∷ 64 ∷ 98 ∷ []) a_challenge auth_state challenge_found refl
      (
        guess_at-IsWrongGuess 1000 (omega arith),
        (
          guess_at-IsWrongGuess 2000 (omega arith),
          (
            guess_at-IsWrongGuess 3000 (omega arith),
            (
              guess_at-IsWrongGuess 4000 (omega arith),
              (guess_at-IsWrongGuess 5000 (omega arith), tt),
            ),
          ),
        ),
      )
      refl (address_same 6000)
