-- ===== src/Auth/Devices.antt =====
-- auth.service.ts: `findOrCreateDevice` and `issueSession`.
use pookie_chat.Prelude.{
  ◌==◌, is_none, keep, update, take, ℕ, ◌+◌, Bool, true, false, ◌&&◌, Option, none, some, List, [],
  ◌∷◌, ◌++◌, map,
}
use pookie_chat.Domain.Text.{Text}
use pookie_chat.Domain.DeviceIdentity.{find_matching_device, DeviceWithKeys}
use pookie_chat.Server.Rows.{Platform, DeviceRow, SessionRow}
use pookie_chat.Server.Database.{Database}
use pookie_chat.Auth.{
  refresh_token_ttl_ms, issue_access_token, hash_refresh_token, has_device_id, AccessToken,
  AuthState, AuthContext, RequestContext,
}

pub record DeviceKeyFields : Type 0 where
  pub device_name : Option Text
  pub platform : Platform
  pub identity_dh_public : Text
  pub identity_signing_public : Text
  pub signed_prekey_public : Text
  pub signed_prekey_signature : Text
  pub one_time_prekeys_public : List Text

abbrev pub keys_of : DeviceRow → DeviceWithKeys
keys_of d = record {
  id = d.id;
  identity_dh_public = d.identity_dh_public;
  identity_signing_public = d.identity_signing_public;
}

-- `oneTimePrekey.createMany`
unfoldable pub add_prekeys : ℕ → List Text → Database → Database
add_prekeys device_id [] db = db
add_prekeys device_id (public_key ∷ keys) db = add_prekeys device_id keys (record db {
  prekeys =
      db.prekeys
      ++ (record {
        id = db.next_id;
        device_id = device_id;
        public_key = public_key;
        used_at = none;
      })
        ∷ [];
  next_id = db.next_id + 1;
})

-- A device that is known is no longer revoked and has the new keys.
abbrev pub recognised : ℕ → DeviceKeyFields → DeviceRow → DeviceRow
recognised now dto d = record d {
  device_name = dto.device_name;
  platform = dto.platform;
  signed_prekey_public = dto.signed_prekey_public;
  signed_prekey_signature = dto.signed_prekey_signature;
  signed_prekey_created_at = now;
  last_seen_at = now;
  revoked_at = none;
}

abbrev pub new_device_row : ℕ → (id user_id : ℕ) → DeviceKeyFields → DeviceRow
new_device_row now id user_id dto = record {
  id = id;
  user_id = user_id;
  device_name = dto.device_name;
  platform = dto.platform;
  identity_dh_public = dto.identity_dh_public;
  identity_signing_public = dto.identity_signing_public;
  signed_prekey_public = dto.signed_prekey_public;
  signed_prekey_signature = dto.signed_prekey_signature;
  signed_prekey_created_at = now;
  last_seen_at = now;
  revoked_at = none;
}

abbrev pub device_for :
    ℕ → ℕ → DeviceKeyFields → Option DeviceWithKeys → Database → (ℕ × Bool) × Database
device_for now user_id dto (some match) db = (
  (match.id, false),
  add_prekeys match.id dto.one_time_prekeys_public
      (record db { devices = update (has_device_id match.id) (recognised now dto) db.devices }),
)
device_for now user_id dto none db = (
  (db.next_id, true),
  add_prekeys db.next_id dto.one_time_prekeys_public (record db {
    devices = db.devices ++ new_device_row now db.next_id user_id dto ∷ [];
    next_id = db.next_id + 1;
  }),
)

-- The device's id, and whether it is new.
unfoldable pub find_or_create_device : ℕ → ℕ → DeviceKeyFields → Database → (ℕ × Bool) × Database
find_or_create_device now user_id dto db =
    device_for now user_id dto
      (find_matching_device (map keys_of (keep (λ d. d.user_id == user_id) db.devices))
        dto.identity_dh_public dto.identity_signing_public)
      db

pub record Tokens : Type 0 where
  pub access_token : AccessToken
  pub refresh_token : Text

abbrev pub is_running_on : (user_id device_id : ℕ) → SessionRow → Bool
is_running_on user_id device_id s =
    s.user_id == user_id && s.device_id == device_id && is_none s.revoked_at

abbrev pub revoke_at : ℕ → SessionRow → SessionRow
revoke_at now s = record s { revoked_at = some now }

abbrev pub cut_agent : Option Text → Option Text
cut_agent none = none
cut_agent (some agent) = some (take 500 agent)

abbrev pub hash_of_ip : AuthContext → Option Text → Option Text
hash_of_ip c none = none
hash_of_ip c (some []) = none
hash_of_ip c (some (k ∷ ip)) = some (hash_refresh_token c (k ∷ ip))

-- `refresh_token` is what `generateRefreshToken` draws.
unfoldable pub issue_session :
    AuthContext → (user_id device_id : ℕ) → RequestContext → Text → AuthState → Tokens × AuthState
issue_session c user_id device_id ctx refresh_token st = (
  record { access_token = issue_access_token c user_id device_id; refresh_token = refresh_token },
  record st {
    sessions =
        update (is_running_on user_id device_id) (revoke_at c.base.now) st.sessions
        ++ (record {
          id = st.db.next_id;
          user_id = user_id;
          device_id = device_id;
          refresh_token_hash = hash_refresh_token c refresh_token;
          expires_at = c.base.now + refresh_token_ttl_ms;
          revoked_at = none;
          user_agent = cut_agent ctx.user_agent;
          ip_hash = hash_of_ip c ctx.ip;
          created_at = c.base.now;
        })
          ∷ [];
    db = record st.db { next_id = st.db.next_id + 1 };
  },
)
