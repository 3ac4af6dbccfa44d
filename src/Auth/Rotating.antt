-- ===== src/Auth/Rotating.antt =====
-- The rotation of refresh tokens: what becomes of a token that was used.
-- The thirty seconds of grace are those of the code; verification-harness/regression-refresh-logout.mjs
-- expects that the old token is refused right after its rotation.
pub mod Overtaken
use pookie_chat.Prelude.{
  ltb, leb, length, find, keep, any, find_holds, any-find, find-append_none, find-keep, All,
  All-update, find-update, any-found, keep-append, find-All_missing, find-keep_missing, ℕ, ◌+◌, ◌≤◌,
  ◌<◌, ◌≡◌, refl, ap, ◌∙◌, true, false, not, none, some, [], ◌∷◌, arith,
}
use pookie_chat.Domain.Text.{Text, trim}
use pookie_chat.Domain.MessageState.{eq_text}
use pookie_chat.Domain.MessageState.Timers.{eq_text_iff}
use pookie_chat.Server.{M, ok, err}
use pookie_chat.Server.Rows.{SessionRow}
use pookie_chat.Auth.{
  refresh_token_ttl_ms, hash_refresh_token, is_session, is_rotation_of, drop_old_rotations,
  set_rotation, Rotation, AuthState, AuthContext,
}
use pookie_chat.Auth.Sessions.{
  expired_session, device_allows, user_exists, stands, tokens_of, answer_cached, holds_token,
  with_token, rotated_to, rotation_for, write_rotation, is_refreshable, rotate, rest_of_refresh,
  refresh,
}
use pookie_chat.Auth.Revoked.{refresh-unknown}
use pookie_chat.Auth.Devices.{Tokens}

eq_text_refl : (s : Text) → eq_text s s ≡ true
eq_text_refl s = (eq_text_iff s s).1 refl

answer_cached-stands :
    (now : ℕ) (hash : Text) (r : Rotation) (otherwise : M AuthState Tokens) (st : AuthState)
    → ltb now r.expires_at ≡ true
    → stands now (find (is_session r.session_id) st.sessions) st ≡ true
    → answer_cached now hash (some r) otherwise st ≡ (ok (tokens_of r), st)
answer_cached-stands now hash r otherwise st soon holds = rw (soon, holds) refl

-- The same request at another time.
abbrev pub later : ℕ → AuthContext → AuthContext
later now c = record c { base = record c.base { now = now } }

-- Nobody else does anything.
abbrev pub nothing : AuthState → AuthState
nothing st = st

-- A session that may be refreshed by a token with the hash, which the cache does not know.
pub record IsFresh (c : AuthContext) (token : Text) (session : SessionRow) (st : AuthState)
    : Type 0 where
  pub long : leb 32 (length (trim token)) ≡ true
  pub uncached : find (is_rotation_of (hash_refresh_token c token)) st.recent_rotations ≡ none
  pub found :
      find (is_refreshable c.base.now (hash_refresh_token c token)) st.sessions ≡ some session
  pub first : find (is_session session.id) st.sessions ≡ some session
  pub allowed : device_allows session st ≡ true
  pub known : user_exists session st ≡ true

module _ (c : AuthContext) (token : Text) (session : SessionRow) (st : AuthState)
    (h : IsFresh c token session st) where
  abbrev pub hash : Text
  hash = hash_refresh_token c token

  pub uncached_purged :
      find (is_rotation_of hash) (drop_old_rotations c.base.now st).recent_rotations ≡ none
  uncached_purged =
      find-keep_missing (is_rotation_of hash) (λ r. not (leb r.expires_at c.base.now))
        st.recent_rotations h.uncached

  pub refresh-write :
      (fresh : Text) (meanwhile : AuthState → AuthState)
      → refresh c token fresh meanwhile st
        ≡ write_rotation c hash fresh session (meanwhile (drop_old_rotations c.base.now st))
  unfolding refresh rest_of_refresh rotate
  refresh-write fresh meanwhile = rw (h.long, uncached_purged, h.found, h.allowed, h.known) refl

  refreshable : is_refreshable c.base.now hash session ≡ true
  refreshable = find_holds (is_refreshable c.base.now hash) st.sessions session h.found

  holder : holds_token session.id hash session ≡ true
  holder = ground (arith, refreshable)

  held : any (holds_token session.id hash) st.sessions ≡ true
  held =
      any-found (holds_token session.id hash) (is_refreshable c.base.now hash) st.sessions session
        h.found holder

  abbrev pub after : Text → AuthState
  after fresh =
      set_rotation (rotation_for c hash fresh session)
        (rotated_to c hash fresh session (drop_old_rotations c.base.now st))

  pub refresh-rotates :
      (fresh : Text)
      → refresh c token fresh nothing st
        ≡ (ok (tokens_of (rotation_for c hash fresh session)), after fresh)
  refresh-rotates fresh = refresh-write fresh nothing ∙ rw held refl

  pub cached_after :
      (fresh : Text)
      → find (is_rotation_of hash) (after fresh).recent_rotations
        ≡ some (rotation_for c hash fresh session)
  unfolding find
  cached_after fresh =
      rw
        (any-find (is_rotation_of hash) (drop_old_rotations c.base.now st).recent_rotations
          uncached_purged)
        (find-append_none (is_rotation_of hash) (drop_old_rotations c.base.now st).recent_rotations
            (rotation_for c hash fresh session ∷ []) uncached_purged
          ∙ rw (eq_text_refl hash) refl)

  first_after :
      (fresh : Text)
      → find (is_session session.id) (after fresh).sessions
        ≡ some (with_token (hash_refresh_token c fresh) (c.base.now + refresh_token_ttl_ms) session)
  first_after fresh =
      find-update (is_session session.id) (holds_token session.id hash)
        (with_token (hash_refresh_token c fresh) (c.base.now + refresh_token_ttl_ms)) (λ s. refl)
        st.sessions
      ∙ rw (h.first, holder) refl

  -- Within thirty seconds the entry of the cache stands.
  stands-after :
      (fresh : Text) (now : ℕ)
      → now < c.base.now + 30000
      → stands now
          (find (is_session session.id) (after fresh).sessions)
          (drop_old_rotations now (after fresh))
        ≡ true
  stands-after fresh now soon =
      rw (first_after fresh) (rw (h.allowed, h.known) (ground (arith, refreshable)))

  -- A refresh token that the cache did not know and that may be refreshed is answered with a pair of
  -- tokens, of which the refresh token is the fresh one. It is not refused right after that: for thirty
  -- seconds it is answered with the same pair, and nothing changes but that old entries leave the
  -- cache; the session is not rotated again.
  pub refresh-refresh :
      (fresh other : Text) (now : ℕ) (meanwhile : AuthState → AuthState)
      → now < c.base.now + 30000
      → let rotated : AuthState = (refresh c token fresh nothing st).1 in
        let pair : Tokens = tokens_of (rotation_for c hash fresh session) in
        ((refresh c token fresh nothing st).0 ≡ ok pair)
        × (refresh (later now c) token other meanwhile rotated
            ≡ (ok pair, drop_old_rotations now rotated))
  unfolding refresh rest_of_refresh
  refresh-refresh fresh other now meanwhile soon =
      rw (refresh-rotates fresh, h.long)
        (
          refl,
          rw
              (find-keep (is_rotation_of hash) (λ r. not (leb r.expires_at now))
                (after fresh).recent_rotations (rotation_for c hash fresh session)
                (cached_after fresh) (ground arith))
              (answer_cached-stands now hash (rotation_for c hash fresh session)
                (rotate (later now c) hash other meanwhile) (drop_old_rotations now (after fresh))
                (ground arith) (stands-after fresh now soon)),
        )

  gone_after :
      (fresh : Text) (now : ℕ)
      → c.base.now + 30000 ≤ now
      → find (is_rotation_of hash) (drop_old_rotations now (after fresh)).recent_rotations ≡ none
  unfolding find keep
  gone_after fresh now late =
      rw
        (any-find (is_rotation_of hash) (drop_old_rotations c.base.now st).recent_rotations
          uncached_purged)
        (ap (find (is_rotation_of hash)) (
            keep-append (λ r. not (leb r.expires_at now))
              (drop_old_rotations c.base.now st).recent_rotations
              (rotation_for c hash fresh session ∷ []))
          ∙ find-append_none (is_rotation_of hash)
              (keep (λ r. not (leb r.expires_at now))
                (drop_old_rotations c.base.now st).recent_rotations)
              _
              (find-keep_missing (is_rotation_of hash) (λ r. not (leb r.expires_at now)) _
                uncached_purged)
          ∙ ground arith)

  unfound_after :
      (fresh : Text) (now : ℕ)
      → eq_text (hash_refresh_token c fresh) hash ≡ false
      → All (λ s. eq_text s.refresh_token_hash hash ≡ true → s.id ≡ session.id) st.sessions
      → find (is_refreshable now hash) (after fresh).sessions ≡ none
  unfound_after fresh now differ only =
      find-All_missing (is_refreshable now hash) (is_refreshable now hash) _ (
        All-update (λ s. eq_text s.refresh_token_hash hash ≡ true → s.id ≡ session.id)
          (λ s. is_refreshable now hash s ≡ false) (holds_token session.id hash)
          (with_token (hash_refresh_token c fresh) (c.base.now + refresh_token_ttl_ms))
          (λ s one. ground (arith, one, differ)) st.sessions only)

  -- After thirty seconds a refresh token that was rotated is refused, at any time, if the new token
  -- has another hash and no other session has the hash of the old one.
  pub refresh-spent :
      (fresh other : Text) (now : ℕ) (meanwhile : AuthState → AuthState)
      → c.base.now + 30000 ≤ now
      → eq_text (hash_refresh_token c fresh) hash ≡ false
      → All (λ s. eq_text s.refresh_token_hash hash ≡ true → s.id ≡ session.id) st.sessions
      → (refresh (later now c) token other meanwhile (refresh c token fresh nothing st).1).0
        ≡ err expired_session
  refresh-spent fresh other now meanwhile late differ only = rw (refresh-rotates fresh) (
      refresh-unknown (later now c) token other meanwhile (after fresh) (gone_after fresh now late)
        (unfound_after fresh now differ only))
