-- ===== src/Auth/Sessions.antt =====
-- auth.service.ts: `refresh`, `logout`, `listSessions`, `revokeSession` and `revokeOtherSessions`.
use pookie_chat.Prelude.{
  ltb, leb, ◌==◌, if◌then◌else◌, is_none, is_some, length, find, keep, any, update, ℕ, ◌+◌, Bool,
  false, not, ◌&&◌, Option, none, some, List, [], ◌∷◌, ◌++◌, map,
}
use pookie_chat.Domain.Text.{Text, trim}
use pookie_chat.Domain.MessageState.{eq_text}
use pookie_chat.Server.{
  M, ◌>>=◌, ◌>>◌, pure, get, modify, require, or_throw, Exception, unauthorized, not_found, Result,
  ok, err,
}
use pookie_chat.Server.Rows.{DeviceRow, session_revoked, other_sessions_revoked, SessionRow}
use pookie_chat.Auth.{
  refresh_token_ttl_ms, issue_access_token, hash_refresh_token, is_session, has_device_id,
  has_user_id, is_rotation_of, drop_rotation, drop_rotations_of, drop_old_rotations, set_rotation,
  log_security_event, Rotation, AuthState, AuthContext,
}
use pookie_chat.Auth.Devices.{revoke_at, Tokens}
use mathlib.Core.List.{reverse}

abbrev pub expired_session : Exception
expired_session = unauthorized "Session expired or revoked"

abbrev pub is_live : ℕ → SessionRow → Bool
is_live now s = is_none s.revoked_at && ltb now s.expires_at

-- `device && !device.revokedAt && device.userId === session.userId`
abbrev pub is_device_of : ℕ → Option DeviceRow → Bool
is_device_of user_id none = false
is_device_of user_id (some d) = is_none d.revoked_at && d.user_id == user_id

abbrev pub device_allows : SessionRow → AuthState → Bool
device_allows s st = is_device_of s.user_id (find (has_device_id s.device_id) st.db.devices)

abbrev pub user_exists : SessionRow → AuthState → Bool
user_exists s st = is_some (find (has_user_id s.user_id) st.db.users)

-- The checks in the database behind an entry of the cache.
abbrev pub stands : ℕ → Option SessionRow → AuthState → Bool
stands now none st = false
stands now (some s) st = is_live now s && device_allows s st && user_exists s st

abbrev pub tokens_of : Rotation → Tokens
tokens_of r = record { access_token = r.access_token; refresh_token = r.refresh_token }

-- An entry of the cache that stands is the answer; one that does not is purged.
abbrev pub answer_cached : ℕ → Text → Option Rotation → M AuthState Tokens → M AuthState Tokens
answer_cached now hash none otherwise st = otherwise st
answer_cached now hash (some r) otherwise st =
    if ltb now r.expires_at
    then if stands now (find (is_session r.session_id) st.sessions) st
      then (ok (tokens_of r), st)
      else otherwise (drop_rotation hash st)
    else otherwise st

abbrev pub winning : ℕ → Option Rotation → Result Tokens
winning now none = err expired_session
winning now (some r) = if ltb now r.expires_at then ok (tokens_of r) else err expired_session

abbrev pub holds_token : ℕ → Text → SessionRow → Bool
holds_token id hash s = s.id == id && eq_text s.refresh_token_hash hash

abbrev pub with_token : Text → ℕ → SessionRow → SessionRow
with_token hash expires_at s = record s { refresh_token_hash = hash; expires_at = expires_at }

abbrev pub rotated_to : AuthContext → Text → Text → SessionRow → AuthState → AuthState
rotated_to c hash fresh session st = record st {
  sessions =
      update (holds_token session.id hash)
        (with_token (hash_refresh_token c fresh) (c.base.now + refresh_token_ttl_ms)) st.sessions;
}

abbrev pub rotation_for : AuthContext → Text → Text → SessionRow → Rotation
rotation_for c hash fresh session = record {
  old_token_hash = hash;
  session_id = session.id;
  access_token = issue_access_token c session.user_id session.device_id;
  refresh_token = fresh;
  expires_at = c.base.now + 30000;
}

-- The update where the token is still the session's, and what happens where it is not: another
-- request has won.
abbrev pub write_rotation : AuthContext → Text → Text → SessionRow → M AuthState Tokens
write_rotation c hash fresh session st =
    if any (holds_token session.id hash) st.sessions
    then (
      ok (tokens_of (rotation_for c hash fresh session)),
      set_rotation (rotation_for c hash fresh session) (rotated_to c hash fresh session st),
    )
    else (winning c.base.now (find (is_rotation_of hash) st.recent_rotations), st)

abbrev pub is_refreshable : ℕ → Text → SessionRow → Bool
is_refreshable now hash s = eq_text s.refresh_token_hash hash && is_live now s

-- `meanwhile` is what others do after the session was read.
unfoldable pub rotate : AuthContext → Text → Text → (AuthState → AuthState) → M AuthState Tokens
rotate c hash fresh meanwhile = do
  st ← get
  session ← or_throw (find (is_refreshable c.base.now hash) st.sessions) expired_session
  require (device_allows session st) expired_session
  require (user_exists session st) expired_session
  modify meanwhile
  write_rotation c hash fresh session

unfoldable pub rest_of_refresh :
    AuthContext → Text → Text → (AuthState → AuthState) → M AuthState Tokens
rest_of_refresh c token fresh meanwhile = do
  modify (drop_old_rotations c.base.now)
  st ← get
  answer_cached c.base.now (hash_refresh_token c token)
      (find (is_rotation_of (hash_refresh_token c token)) st.recent_rotations)
      (rotate c (hash_refresh_token c token) fresh meanwhile)

-- `fresh` is what `generateRefreshToken` draws.
unfoldable pub refresh : AuthContext → Text → Text → (AuthState → AuthState) → M AuthState Tokens
refresh c token fresh meanwhile =
    require (leb 32 (length (trim token))) expired_session
    >> rest_of_refresh c token fresh meanwhile

abbrev pub drop_rotations_of_found : Option SessionRow → AuthState → AuthState
drop_rotations_of_found none st = st
drop_rotations_of_found (some s) st = drop_rotations_of s.id st

-- The request says nothing of whether there was a session.
unfoldable pub logout : AuthContext → Text → AuthState → AuthState
logout c [] st = st
logout c (k ∷ token) st =
    let hash = hash_refresh_token c (k ∷ token) in
    let found = find (λ s. eq_text s.refresh_token_hash hash) st.sessions in
    let dropped = drop_rotations_of_found found (drop_rotation hash st) in
    record dropped {
      sessions =
          update (λ s. eq_text s.refresh_token_hash hash) (revoke_at c.base.now) dropped.sessions;
    }

-- The newest session of each device.
unfoldable pub newest_per_device : List ℕ → List SessionRow → List SessionRow
newest_per_device seen [] = []
newest_per_device seen (s ∷ ss) =
    let skipping = newest_per_device seen ss in
    let taking = newest_per_device (s.device_id ∷ seen) ss in
    if any (λ d. d == s.device_id) seen then skipping else s ∷ taking

pub record ListedSession : Type 0 where
  pub id : ℕ
  pub device_id : ℕ
  pub user_agent : Option Text
  pub created_at : ℕ
  pub is_current_device : Bool

abbrev pub listed_session : ℕ → SessionRow → ListedSession
listed_session current s = record {
  id = s.id;
  device_id = s.device_id;
  user_agent = s.user_agent;
  created_at = s.created_at;
  is_current_device = s.device_id == current;
}

-- What the answer shows of the device's row and of its sockets is left out.
unfoldable pub list_sessions : (user_id current_device_id : ℕ) → AuthState → List ListedSession
list_sessions user_id current st = map (listed_session current) (
    newest_per_device []
      (reverse (keep (λ s. s.user_id == user_id && is_none s.revoked_at) st.sessions)))

abbrev pub revoke_device_at : ℕ → DeviceRow → DeviceRow
revoke_device_at now d = record d { revoked_at = some now }

unfoldable pub revoke_session_and_disconnect :
    ℕ → (session_id device_id : ℕ) → AuthState → AuthState
revoke_session_and_disconnect now session_id device_id st = record st {
  recent_rotations = keep (λ r. not (r.session_id == session_id)) st.recent_rotations;
  sessions = update (is_session session_id) (revoke_at now) st.sessions;
  db = record st.db {
    devices = update (has_device_id device_id) (revoke_device_at now) st.db.devices;
  };
  revoked_pushes = st.revoked_pushes ++ device_id ∷ [];
  disconnects = st.disconnects ++ device_id ∷ [];
}

unfoldable pub revoke_session : ℕ → (user_id session_id : ℕ) → M AuthState (Unit {0})
revoke_session now user_id session_id = do
  st ← get
  session ← or_throw (find (is_session session_id) st.sessions) (not_found "Session not found")
  require (session.user_id == user_id) (not_found "Session not found")
  if is_some session.revoked_at
      then pure tt
      else modify (λ s.
        log_security_event (session_revoked user_id session_id)
          (revoke_session_and_disconnect now session_id session.device_id s))

abbrev pub is_other_session : (user_id current_device_id : ℕ) → SessionRow → Bool
is_other_session user_id current s =
    s.user_id == user_id && is_none s.revoked_at && not (s.device_id == current)

unfoldable pub revoke_each : ℕ → List SessionRow → AuthState → AuthState
revoke_each now [] st = st
revoke_each now (s ∷ ss) st =
    revoke_each now ss (revoke_session_and_disconnect now s.id s.device_id st)

-- The number of sessions that were revoked.
unfoldable pub revoke_other_sessions :
    ℕ → (user_id current_device_id : ℕ) → AuthState → ℕ × AuthState
revoke_other_sessions now user_id current st =
    let others = keep (is_other_session user_id current) st.sessions in
    let revoked = revoke_each now others st in
    (
      length others,
      if ltb 0 (length others)
          then log_security_event (other_sessions_revoked user_id (length others)) revoked
          else revoked,
    )
