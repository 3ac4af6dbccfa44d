-- ===== src/Auth/Rotating/Overtaken.antt =====
-- Two requests that refresh by the same token.
use pookie_chat.Prelude.{any, All, All-update, any-All_none, ◌+◌, ◌≡◌, true, false, arith}
use pookie_chat.Domain.Text.{Text}
use pookie_chat.Domain.MessageState.{eq_text}
use pookie_chat.Server.{ok}
use pookie_chat.Server.Rows.{SessionRow}
use pookie_chat.Auth.{
  refresh_token_ttl_ms, hash_refresh_token, drop_old_rotations, AuthState, AuthContext,
}
use pookie_chat.Auth.Sessions.{
  tokens_of, holds_token, with_token, rotation_for, write_rotation, refresh,
}
use pookie_chat.Auth.Rotating.{
  nothing, uncached_purged, refresh-write, after, refresh-rotates, cached_after, IsFresh,
}

module _ (c : AuthContext) (token : Text) (session : SessionRow) (st : AuthState)
    (h : IsFresh c token session st) where
  -- The entries that have run out are no hindrance.
  purged-IsFresh : IsFresh c token session (drop_old_rotations c.base.now st)
  purged-IsFresh = record {
    long = h.long;
    uncached = uncached_purged c token session st h;
    found = h.found;
    first = h.first;
    allowed = h.allowed;
    known = h.known;
  }

  unheld_after :
      (fresh : Text)
      → eq_text (hash_refresh_token c fresh) (hash_refresh_token c token) ≡ false
      → All
          (λ s.
            eq_text s.refresh_token_hash (hash_refresh_token c token) ≡ true → s.id ≡ session.id)
          st.sessions
      → any
          (holds_token session.id (hash_refresh_token c token))
          (after c token session st h fresh).sessions
        ≡ false
  unheld_after fresh differ only =
      any-All_none (holds_token session.id (hash_refresh_token c token)) _ (
        All-update
          (λ s.
            eq_text s.refresh_token_hash (hash_refresh_token c token) ≡ true → s.id ≡ session.id)
          (λ s. holds_token session.id (hash_refresh_token c token) s ≡ false)
          (holds_token session.id (hash_refresh_token c token))
          (with_token (hash_refresh_token c fresh) (c.base.now + refresh_token_ttl_ms))
          (λ s one. ground (arith, one, differ)) st.sessions only)

  -- The update that comes too late.
  write-overtaken :
      (fresh other : Text)
      → eq_text (hash_refresh_token c other) (hash_refresh_token c token) ≡ false
      → All
          (λ s.
            eq_text s.refresh_token_hash (hash_refresh_token c token) ≡ true → s.id ≡ session.id)
          st.sessions
      → (write_rotation c
          (hash_refresh_token c token)
          fresh
          session
          (after c token session st h other)).0
        ≡ ok (tokens_of (rotation_for c (hash_refresh_token c token) other session))
  write-overtaken fresh other differ only =
      rw (unheld_after other differ only, cached_after c token session st h other) (ground arith)

-- Two requests refresh by the same token at the same time: the one that is overtaken, by the whole
-- of the other one between its own reading of the session and its own update, answers with the
-- tokens of the other one. The new token must not have the hash of the old one, and no other session
-- that hash.
pub refresh-overtaken :
    (c : AuthContext) (token fresh other : Text) (session : SessionRow) (st : AuthState)
    → IsFresh c token session st
    → eq_text (hash_refresh_token c other) (hash_refresh_token c token) ≡ false
    → All
        (λ s. eq_text s.refresh_token_hash (hash_refresh_token c token) ≡ true → s.id ≡ session.id)
        st.sessions
    → (refresh c token fresh (λ s. (refresh c token other nothing s).1) st).0
      ≡ (refresh c token other nothing st).0
refresh-overtaken c token fresh other session st h differ only =
    rw
      (
        refresh-write c token session st h fresh (λ s. (refresh c token other nothing s).1),
        refresh-rotates c token session (drop_old_rotations c.base.now st)
            (purged-IsFresh c token session st h) other,
        refresh-rotates c token session st h other,
      )
      (write-overtaken c token session (drop_old_rotations c.base.now st)
        (purged-IsFresh c token session st h) fresh other differ only)
