-- ===== src/Auth/Revoked.antt =====
-- What a revoked session and its device can still do: nothing.
use pookie_chat.Prelude.{
  find-keep_dropped, find-keep_missing, find-All_missing, leb, ◌==◌, ==_refl, length, find, update,
  All, All-mono, All-update, ℕ, ◌≡◌, refl, sym, ap, ◌∙◌, true, false, not, none, some, List, [],
  ◌∷◌, arith,
}
use pookie_chat.Domain.Text.{Text, trim}
use pookie_chat.Domain.MessageState.{eq_text}
use pookie_chat.Server.{unauthorized, ok, err}
use pookie_chat.Auth.{
  verify_access_token, hash_refresh_token, is_session, has_device_id, is_rotation_of,
  drop_old_rotations, log_security_event, TokenPayload, AccessToken, AuthState, AuthContext,
}
use pookie_chat.Auth.Devices.{revoke_at}
use pookie_chat.Auth.Guard.{is_usable_device, can_activate}
use pookie_chat.Auth.Sessions.{
  expired_session, is_refreshable, rotate, rest_of_refresh, refresh, revoke_device_at,
  revoke_session_and_disconnect, revoke_session,
}
use pookie_chat.Server.Reason.{at_require, at_or_throw}
use pookie_chat.Server.Rows.{DeviceRow, SecurityEvent, session_revoked, SessionRow}

-- Whatever has the hash, in the table or in the cache, belongs to the session.
abbrev pub BelongsTo : ℕ → Text → AuthState → Type 0
BelongsTo id hash st =
    All (λ s. eq_text s.refresh_token_hash hash ≡ true → s.id ≡ id) st.sessions
    × All (λ r. is_rotation_of hash r ≡ true → r.session_id ≡ id) st.recent_rotations

-- A token that nothing in the state knows is refused.
pub refresh-unknown :
    (c : AuthContext) (token fresh : Text) (meanwhile : AuthState → AuthState) (st : AuthState)
    → find
        (is_rotation_of (hash_refresh_token c token))
        (drop_old_rotations c.base.now st).recent_rotations
      ≡ none
    → find (is_refreshable c.base.now (hash_refresh_token c token)) st.sessions ≡ none
    → (refresh c token fresh meanwhile st).0 ≡ err expired_session
unfolding refresh rotate rest_of_refresh
refresh-unknown c token fresh meanwhile st uncached unfound =
    at_require (λ q. q.0 ≡ err expired_session) (leb 32 (length (trim token))) expired_session
      (λ _. rest_of_refresh c token fresh meanwhile) st refl (λ _. rw (uncached, unfound) refl)

verified_payload :
    (c : AuthContext) (token : AccessToken) (payload : TokenPayload)
    → verify_access_token c token ≡ some payload
    → token.payload ≡ payload
unfolding verify_access_token
verified_payload c token payload e = ground arith

module _ (now session_id device_id : ℕ) (st : AuthState) where
  revoked-unusable :
      (devices : List DeviceRow) (id : ℕ)
      → id ≡ device_id
      → is_usable_device (
          find (has_device_id id) (update (has_device_id device_id) (revoke_device_at now) devices))
        ≡ false
  unfolding find update
  revoked-unusable [] id same = refl
  revoked-unusable (d ∷ ds) id same = ground (arith, revoked-unusable ds id same)

  revoked_unknown :
      (c : AuthContext) (hash : Text)
      → BelongsTo session_id hash st
      → (find
            (is_rotation_of hash)
            (revoke_session_and_disconnect now session_id device_id st).recent_rotations
          ≡ none)
        × (find
              (is_refreshable c.base.now hash)
              (revoke_session_and_disconnect now session_id device_id st).sessions
            ≡ none)
  unfolding revoke_session_and_disconnect
  revoked_unknown c hash (rows, cached) = (
    find-keep_dropped (is_rotation_of hash) (λ r. not (r.session_id == session_id))
        st.recent_rotations
        (All-mono (λ r. is_rotation_of hash r ≡ true → r.session_id ≡ session_id)
          (λ r. is_rotation_of hash r ≡ true → not (r.session_id == session_id) ≡ false)
          (λ r h e. ground (arith, h e)) st.recent_rotations cached),
    find-All_missing (is_refreshable c.base.now hash) (is_refreshable c.base.now hash)
        (update (is_session session_id) (revoke_at now) st.sessions)
        (All-update (λ s. eq_text s.refresh_token_hash hash ≡ true → s.id ≡ session_id)
          (λ s. is_refreshable c.base.now hash s ≡ false) (is_session session_id) (revoke_at now)
          (λ s h. ground (arith, h)) st.sessions rows),
  )

  revoked_device :
      (token : AccessToken) (c : AuthContext) (event : SecurityEvent)
      → token.payload.device_id ≡ device_id
      → (can_activate c
          (some token)
          (log_security_event event (revoke_session_and_disconnect now session_id device_id st))).0
        ≡ err (unauthorized "Unauthorized")
  unfolding can_activate revoke_session_and_disconnect verify_access_token
  revoked_device token c event same =
      at_or_throw (λ q. q.0 ≡ err (unauthorized "Unauthorized")) (verify_access_token c token)
        (unauthorized "Unauthorized") _ _ refl
        (λ payload e.
          rw
            (revoked-unusable st.db.devices payload.device_id
              (ap (λ p. p.device_id) (sym (verified_payload c token payload e)) ∙ same))
            refl)

module _ (now user_id session_id : ℕ) (session : SessionRow) (st : AuthState)
    (found : find (is_session session_id) st.sessions ≡ some session)
    (own : session.user_id ≡ user_id) (running : session.revoked_at ≡ none) where
  revoke_session-run : revoke_session now user_id session_id st ≡ (
    ok tt,
    log_security_event
        (session_revoked user_id session_id)
        (revoke_session_and_disconnect now session_id session.device_id st),
  )
  unfolding revoke_session
  revoke_session-run = rw (found, ap (λ u. u == user_id) own, ==_refl user_id, running) refl

  -- revokeSession of a user's own session that is not revoked returns, and afterwards no refresh
  -- token that was only the session's, be it the current one or one that the cache still knows, is
  -- accepted by refresh at any time, and no access token of the session's device passes the guard.
  pub revoke_session-refresh :
      (c : AuthContext) (token fresh : Text) (meanwhile : AuthState → AuthState)
      (access : AccessToken)
      → BelongsTo session_id (hash_refresh_token c token) st
      → access.payload.device_id ≡ session.device_id
      → ((revoke_session now user_id session_id st).0 ≡ ok tt)
        × ((refresh c token fresh meanwhile (revoke_session now user_id session_id st).1).0
            ≡ err expired_session)
        × ((can_activate c (some access) (revoke_session now user_id session_id st).1).0
            ≡ err (unauthorized "Unauthorized"))
  revoke_session-refresh c token fresh meanwhile access belongs same = rw revoke_session-run (
    refl,
    refresh-unknown c token fresh meanwhile _
        (find-keep_missing (is_rotation_of (hash_refresh_token c token))
          (λ r. not (leb r.expires_at c.base.now)) _
          (revoked_unknown now session_id session.device_id st c (hash_refresh_token c token)
            belongs).0)
        (revoked_unknown now session_id session.device_id st c (hash_refresh_token c token)
          belongs).1,
    revoked_device now session_id session.device_id st access c _ same,
  )
