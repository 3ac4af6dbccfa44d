-- ===== src/Auth/Login.antt =====
-- auth.service.ts: `login`. For a name that fits nobody the code compares the password with a dummy
-- hash and does not use the answer: this is left out.
use pookie_chat.Prelude.{
  ltb, leb, ◌==◌, if◌then◌else◌, is_none, is_some, length, find, any, update, ℕ, String, Bool, true,
  false, not, ◌&&◌, ◌||◌, Option, none, some, [], ◌∷◌,
}
use pookie_chat.Domain.Text.{Text, trim}
use pookie_chat.Domain.MessageState.{eq_text}
use pookie_chat.Domain.Lockout.{
  is_login_locked, record_failed_login, clear_login_lockout, LoginAttemptState,
}
use pookie_chat.Domain.Username.{to_lower}
use pookie_chat.Server.{
  M, ◌>>=◌, ◌>>◌, pure, get, modify, require, bad_request, unauthorized, challenge, ok, err,
}
use pookie_chat.Server.Rows.{UserRole, superadmin, UserRow, new_device, suspicious_login}
use pookie_chat.Server.Database.{Database}
use pookie_chat.Auth.{has_user_id, log_security_event, AuthState, AuthContext, RequestContext}
use pookie_chat.Auth.UnknownNames.{
  is_attempt_at, forget_attempts, is_unknown_identifier_challenged,
  record_unknown_identifier_failed_attempt,
}
use pookie_chat.Auth.Devices.{find_or_create_device, issue_session, DeviceKeyFields, Tokens}

pub record LoginDto : Type 0 where
  pub identifier : Option Text
  pub user_id : Option Text
  pub password : Text
  pub turnstile_token : Option Text
  pub keys : DeviceKeyFields

abbrev pub invalid_credentials : String
invalid_credentials = "Invalid credentials"

abbrev pub attempt_state : UserRow → LoginAttemptState
attempt_state u = record {
  failed_login_count = u.failed_login_count;
  locked_until = u.locked_until;
}

abbrev pub with_attempts : LoginAttemptState → UserRow → UserRow
with_attempts a u = record u {
  failed_login_count = a.failed_login_count;
  locked_until = a.locked_until;
}

abbrev pub update_user : ℕ → (UserRow → UserRow) → AuthState → AuthState
update_user id f st = record st {
  db = record st.db { users = update (has_user_id id) f st.db.users };
}

abbrev pub same_email : Option Text → Text → Bool
same_email none other = false
same_email (some email) other = eq_text email other

-- `findFirst({ where: { OR: [{ username }, { email }, { id: rawId }] } })`
abbrev pub is_named : AuthContext → Text → UserRow → Bool
is_named c raw u =
    let normalized = to_lower c.lower_other raw in
    eq_text u.username normalized || same_email u.email normalized || eq_text (c.id_text u.id) raw

abbrev pub has_failed_often : Option UserRow → Bool
has_failed_often none = false
has_failed_often (some u) = leb 3 u.failed_login_count

abbrev pub is_locked : ℕ → Option UserRow → Bool
is_locked now none = false
is_locked now (some u) = is_login_locked (attempt_state u) now

abbrev pub has_token : Option Text → Bool
has_token none = false
has_token (some []) = false
has_token (some (k ∷ t)) = true

abbrev pub token_text : Option Text → Text
token_text none = []
token_text (some t) = t

-- A name that fits no user, and a wrong password.
abbrev pub count_failure : AuthContext → Text → Option UserRow → AuthState → Bool × AuthState
count_failure c normalized none st =
    record_unknown_identifier_failed_attempt c.base.now normalized st
count_failure c normalized (some u) st =
    let next = record_failed_login (attempt_state u) c.base.now in
    let counted = update_user u.id (with_attempts next) st in
    (
      leb 3 next.failed_login_count,
      if is_some next.locked_until
          then log_security_event (suspicious_login u.id) counted
          else counted,
    )

pub record LoggedIn : Type 0 where
  pub user_id : ℕ
  pub username : Text
  pub email : Option Text
  pub role : UserRole
  pub device_id : ℕ
  pub tokens : Tokens

-- `user.email.toLowerCase()`
abbrev pub lowered : AuthContext → Option Text → Option Text
lowered c none = none
lowered c (some []) = none
lowered c (some (k ∷ email)) = some (to_lower c.lower_other (k ∷ email))

abbrev pub is_plain_user : UserRole → Bool
is_plain_user UserRole.user = true
is_plain_user _ = false

abbrev pub becomes_superadmin : AuthContext → UserRow → Bool
becomes_superadmin c u =
    any (λ a. same_email (lowered c u.email) a) c.admin_emails && is_plain_user u.role

abbrev pub logged_in_row : ℕ → UserRow → UserRow
logged_in_row now u = record (with_attempts clear_login_lockout u) { last_login_at = some now }

abbrev pub on_device : AuthState → (ℕ × Bool) × Database → (ℕ × Bool) × AuthState
on_device st (found, db) = (found, record st { db = db })

-- What a login does once it is allowed.
unfoldable pub enter :
    AuthContext → LoginDto → RequestContext → Text → UserRow → AuthState → LoggedIn × AuthState
enter c dto ctx fresh u st =
    let cleared = update_user u.id (logged_in_row c.base.now) st in
    let ((device_id, is_new), found) =
      on_device cleared (find_or_create_device c.base.now u.id dto.keys cleared.db) in
    let (tokens, issued) = issue_session c u.id device_id ctx fresh found in
    let logged =
      if is_new then log_security_event (new_device u.id dto.keys.device_name) issued else issued in
    let promoted = becomes_superadmin c u in
    (
      record {
        user_id = u.id;
        username = u.username;
        email = u.email;
        role = if promoted then superadmin else u.role;
        device_id = device_id;
        tokens = tokens;
      },
      if promoted then update_user u.id (λ r. record r { role = superadmin }) logged else logged,
    )

abbrev pub identifier_of : LoginDto → Text
identifier_of dto = elim dto.identifier [
  | some t ↦ trim t
  | none ↦ elim dto.user_id [ some t ↦ trim t | none ↦ [] ]
]

abbrev pub needs_verified_email : AuthContext → Text → UserRow → Bool
needs_verified_email c raw u =
    (any (λ k. k == b'@') raw || same_email (lowered c u.email) (to_lower c.lower_other raw))
    && is_none u.email_verified_at

abbrev pub allow :
    AuthContext → LoginDto → RequestContext → Text → Text → UserRow → M AuthState LoggedIn
allow c dto ctx fresh raw u = do
  modify (forget_attempts (is_attempt_at (to_lower c.lower_other raw)))
  require (not (needs_verified_email c raw u))
      (unauthorized "Please verify your email before signing in.")
  λ st. let (answer, entered) = enter c dto ctx fresh u st in (ok answer, entered)

abbrev pub refuse : AuthContext → Text → Option UserRow → M AuthState LoggedIn
refuse c raw found st =
    let (challenged, counted) = count_failure c (to_lower c.lower_other raw) found st in
    (err (challenge invalid_credentials challenged), counted)

abbrev pub allow_or_refuse :
    AuthContext → LoginDto → RequestContext → Text → Text → Option UserRow → M AuthState LoggedIn
allow_or_refuse c dto ctx fresh raw none = refuse c raw none
allow_or_refuse c dto ctx fresh raw (some u) =
    if c.base.verify_password dto.password u.password_hash
    then allow c dto ctx fresh raw u
    else refuse c raw (some u)

abbrev pub pass_challenge : AuthContext → LoginDto → Bool → M AuthState (Unit {0})
pass_challenge c dto challenged =
    if not challenged
    then pure tt
    else require (has_token dto.turnstile_token)
        (challenge "Security verification required. Please complete the challenge." true)
      >> require (c.turnstile (token_text dto.turnstile_token))
          (bad_request "Security verification failed. Please try again.")

-- `user && user.failedLoginCount >= 3 || this.isUnknownIdentifierChallenged(normalized)`: the map is
-- looked at, and a late entry of it forgotten, only where the first part is false.
abbrev pub is_challenged : AuthContext → Text → Option UserRow → M AuthState Bool
is_challenged c raw found st =
    if has_failed_often found
    then (ok true, st)
    else let (challenged, looked) =
        is_unknown_identifier_challenged c.base.now (to_lower c.lower_other raw) st in
      (ok challenged, looked)

-- What follows once the name is read.
unfoldable pub login_as :
    AuthContext → LoginDto → RequestContext → Text → Text → M AuthState LoggedIn
login_as c dto ctx fresh raw = do
  require (ltb 0 (length raw)) (unauthorized invalid_credentials)
  st ← get
  challenged ← is_challenged c raw (find (is_named c raw) st.db.users)
  pass_challenge c dto challenged
  require (not (is_locked c.base.now (find (is_named c raw) st.db.users)))
      (unauthorized invalid_credentials)
  allow_or_refuse c dto ctx fresh raw (find (is_named c raw) st.db.users)

-- `fresh` is what `generateRefreshToken` draws.
abbrev pub login : AuthContext → LoginDto → RequestContext → Text → M AuthState LoggedIn
login c dto ctx fresh = login_as c dto ctx fresh (identifier_of dto)
