-- ===== src/Auth/Guard.antt =====
-- apps/backend/src/auth/access-token.guard.ts: which requests are let through, and for whom.
use pookie_chat.Prelude.{is_none, find, ℕ, Bool, false, Option, none, some}
use pookie_chat.Server.{M, ◌>>=◌, ◌>>◌, pure, get, require, or_throw, unauthorized}
use pookie_chat.Server.Rows.{DeviceRow}
use pookie_chat.Auth.{verify_access_token, has_device_id, AccessToken, AuthState, AuthContext}

abbrev pub is_usable_device : Option DeviceRow → Bool
is_usable_device none = false
is_usable_device (some d) = is_none d.revoked_at

-- `none` where the header has no token.
unfoldable pub can_activate : AuthContext → Option AccessToken → M AuthState (ℕ × ℕ)
can_activate c header = do
  token ← or_throw header (unauthorized "Unauthorized")
  payload ← or_throw (verify_access_token c token) (unauthorized "Unauthorized")
  st ← get
  require (is_usable_device (find (has_device_id payload.device_id) st.db.devices))
      (unauthorized "Unauthorized")
  pure (payload.user_id, payload.device_id)
