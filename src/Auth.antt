-- ===== src/Auth.antt =====
-- apps/backend/src/auth/auth.service.ts: its state, with the maps that it keeps in memory, and the
-- tokens of apps/backend/src/domain/tokens.ts.
pub mod Devices
pub mod Sessions
pub mod UnknownNames
pub mod Login
pub mod Emails
pub mod Accounts
pub mod Guard
pub mod Revoked
pub mod Rotating
pub mod Lockout
pub mod Codes
use pookie_chat.Prelude.{
  leb, ◌==◌, if◌then◌else◌, keep, any, count, update, ℕ, ◌+◌, ◌*◌, ◌/◌, Bool, true, false, not,
  ◌&&◌, Option, none, some, List, [], ◌∷◌, ◌++◌,
}
use pookie_chat.Domain.Text.{Text}
use pookie_chat.Domain.MessageState.{eq_text}
use pookie_chat.Server.Rows.{UserRow, DeviceRow, SecurityEvent, SessionRow, VerificationRow}
use pookie_chat.Server.Database.{Database, Context}

pub record TokenPayload : Type 0 where
  pub user_id : ℕ
  pub device_id : ℕ
  -- Seconds since the epoch.
  pub exp : ℕ

-- The body before its encoding, and the signature of the encoded body.
pub record AccessToken : Type 0 where
  pub payload : TokenPayload
  pub signature : List ℕ

-- An entry of `recentRotations`, with its key.
pub record Rotation : Type 0 where
  pub old_token_hash : Text
  pub session_id : ℕ
  pub access_token : AccessToken
  pub refresh_token : Text
  pub expires_at : ℕ

-- An entry of `unknownLoginAttempts`, with its key.
pub record UnknownAttempt : Type 0 where
  pub identifier : Text
  pub count : ℕ
  pub last_attempt : ℕ

-- `revoked_pushes` are the devices that were sent 'session_revoked', `disconnects` those whose
-- sockets are to be closed 250 ms later, `mails` the codes sent by mail.
pub record AuthState : Type 0 where
  pub db : Database
  pub sessions : List SessionRow
  pub verifications : List VerificationRow
  pub recent_rotations : List Rotation
  pub unknown_login_attempts : List UnknownAttempt
  pub revoked_pushes : List ℕ
  pub disconnects : List ℕ
  pub mails : List (Text × Text)

-- What a request is given: the clock and primitives, the configuration, and what is not code of the
-- repository.
pub record AuthContext : Type 0 where
  pub base : Context
  pub access_token_secret : Text
  pub admin_emails : List Text
  -- `JSON.stringify`, then base64url.
  pub encode : TokenPayload → Text
  -- The text of an id.
  pub id_text : ℕ → Text
  -- The lower-case form of a code unit outside ASCII.
  pub lower_other : ℕ → Text
  -- Whether `verifyToken` of the Turnstile service returns; otherwise it throws.
  pub turnstile : Text → Bool

pub record RequestContext : Type 0 where
  pub user_agent : Option Text
  pub ip : Option Text

abbrev pub access_token_ttl_seconds : ℕ
access_token_ttl_seconds = 15 * 60

abbrev pub refresh_token_ttl_ms : ℕ
refresh_token_ttl_ms = 30 * 24 * 60 * 60 * 1000

unfoldable pub issue_access_token : AuthContext → (user_id device_id : ℕ) → AccessToken
issue_access_token c user_id device_id =
    let payload : TokenPayload = record {
      user_id = user_id;
      device_id = device_id;
      exp = c.base.now / 1000 + access_token_ttl_seconds;
    } in
    record {
      payload = payload;
      signature = c.base.primitives.hmac c.access_token_secret (c.encode payload);
    }

unfoldable pub same_units : List ℕ → List ℕ → Bool
same_units [] [] = true
same_units (a ∷ s) (b ∷ t) = a == b && same_units s t
same_units _ _ = false

-- The text has two parts by the form of `AccessToken`.
unfoldable pub verify_access_token : AuthContext → AccessToken → Option TokenPayload
unfolding same_units
verify_access_token c token =
    if not (
      same_units token.signature
        (c.base.primitives.hmac c.access_token_secret (c.encode token.payload)))
    then none
    else if leb (token.payload.exp * 1000) c.base.now
    then none
    else some token.payload

-- Also `hashIp`, which is the same.
abbrev pub hash_refresh_token : AuthContext → Text → Text
hash_refresh_token c token = c.base.primitives.to_base64 (c.base.primitives.sha256 token)

-- `findUnique` of the tables compares by these.
abbrev pub is_session : ℕ → SessionRow → Bool
is_session id s = s.id == id

abbrev pub has_device_id : ℕ → DeviceRow → Bool
has_device_id id d = d.id == id

abbrev pub has_user_id : ℕ → UserRow → Bool
has_user_id id u = u.id == id

abbrev pub is_rotation_of : Text → Rotation → Bool
is_rotation_of hash r = eq_text r.old_token_hash hash

-- `recentRotations.delete` by key, by session, and of the expired entries.
abbrev pub drop_rotation : Text → AuthState → AuthState
drop_rotation hash st = record st {
  recent_rotations = keep (λ r. not (is_rotation_of hash r)) st.recent_rotations;
}

abbrev pub drop_rotations_of : ℕ → AuthState → AuthState
drop_rotations_of id st = record st {
  recent_rotations = keep (λ r. not (r.session_id == id)) st.recent_rotations;
}

abbrev pub drop_old_rotations : ℕ → AuthState → AuthState
drop_old_rotations now st = record st {
  recent_rotations = keep (λ r. not (leb r.expires_at now)) st.recent_rotations;
}

-- `Map.prototype.set`
abbrev pub set_rotation : Rotation → AuthState → AuthState
set_rotation r st = record st {
  recent_rotations =
      if any (is_rotation_of r.old_token_hash) st.recent_rotations
      then update (is_rotation_of r.old_token_hash) (λ _. r) st.recent_rotations
      else st.recent_rotations ++ r ∷ [];
}

abbrev pub log_security_event : SecurityEvent → AuthState → AuthState
log_security_event event st = record st {
  db = record st.db { security_events = st.db.security_events ++ event ∷ [] };
}
