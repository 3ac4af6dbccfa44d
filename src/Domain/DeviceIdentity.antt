-- ===== src/Domain/DeviceIdentity.antt =====
-- apps/backend/src/domain/deviceIdentity.ts: a device that logs in again.
use pookie_chat.Prelude.{find, find_holds, ℕ, ◌≡◌, Bool, ◌&&◌, Option, some, List, arith}
use pookie_chat.Domain.Text.{Text}
use pookie_chat.Domain.MessageState.{eq_text}
use pookie_chat.Domain.MessageState.Timers.{eq_text_iff}

pub record DeviceWithKeys : Type 0 where
  pub id : ℕ
  pub identity_dh_public : Text
  pub identity_signing_public : Text

abbrev same_keys : Text → Text → DeviceWithKeys → Bool
same_keys dh signing d =
    eq_text d.identity_dh_public dh && eq_text d.identity_signing_public signing

pub find_matching_device : List DeviceWithKeys → Text → Text → Option DeviceWithKeys
find_matching_device existing dh signing = find (same_keys dh signing) existing

-- A device is recognised only by both of its keys.
pub matching_device_keys :
    (existing : List DeviceWithKeys) (dh signing : Text) (d : DeviceWithKeys)
    → find_matching_device existing dh signing ≡ some d
    → (d.identity_dh_public ≡ dh) × (d.identity_signing_public ≡ signing)
unfolding find_matching_device
matching_device_keys existing dh signing d e = ground (
  arith,
  find_holds (same_keys dh signing) existing d e,
  eq_text_iff d.identity_dh_public dh,
  eq_text_iff d.identity_signing_public signing,
)
