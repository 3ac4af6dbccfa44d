-- ===== src/Examples/Fixtures.antt =====
-- Primitives that keep the documented laws, and a small database.
use pookie_chat.Prelude.{
  ltb, if◌then◌else◌, ℕ, ◌+◌, ◌-◌, ◌≡◌, refl, true, none, some, List, [], ◌∷◌, arith,
}
use pookie_chat.Domain.Text.{Text}
use pookie_chat.Domain.PairingCode.{Primitives}
use pookie_chat.Domain.PairingCode.Sealing.{NoColon, AreSound}
use pookie_chat.Domain.SessionEpoch.{ConversationStatus}
use pookie_chat.Server.Rows.{
  UserRole, Platform, UserRow, DeviceRow, PairingStatus, PairingRow, ConversationRow, HandshakeRow,
  MessageType, MessageRow,
}
use pookie_chat.Server.Database.{empty_database, Database, Context}

-- Texts stand for bytes, the colon left out.
abbrev pub shift : ℕ → ℕ
shift x = if ltb x 58 then x else x + 1

abbrev pub unshift : ℕ → ℕ
unshift x = if ltb x 58 then x else x - 1

abbrev pub shifted : List ℕ → List ℕ
shifted [] = []
shifted (x ∷ xs) = shift x ∷ shifted xs

abbrev pub unshifted : List ℕ → List ℕ
unshifted [] = []
unshifted (x ∷ xs) = unshift x ∷ unshifted xs

abbrev pub plain_tag : List ℕ
plain_tag = 0 ∷ 0 ∷ 0 ∷ 0 ∷ 0 ∷ 0 ∷ 0 ∷ 0 ∷ 0 ∷ 0 ∷ 0 ∷ 0 ∷ 0 ∷ 0 ∷ 0 ∷ 0 ∷ []

abbrev pub plain : Primitives
plain = record {
  sha256 = λ s. s;
  hmac = λ k s. s;
  encrypt = λ k iv s. (s, plain_tag);
  decrypt = λ k iv s tag. some s;
  to_base64 = shifted;
  from_base64 = unshifted;
  to_hex = λ b. b;
  from_hex = λ s. s;
  upper_other = λ u. u ∷ [];
}

unshifted-shifted : (b : List ℕ) → unshifted (shifted b) ≡ b
unshifted-shifted [] = refl
unshifted-shifted (x ∷ xs) = ground (arith, unshifted-shifted xs)

shifted-NoColon : (b : List ℕ) → NoColon (shifted b)
shifted-NoColon [] = tt
shifted-NoColon (x ∷ xs) = ((λ e. ground arith), shifted-NoColon xs)

pub plain-AreSound : AreSound plain
plain-AreSound = record {
  from-to_base64 = unshifted-shifted;
  to_base64-NoColon = shifted-NoColon;
  from-to_hex = λ b. refl;
  decrypt-encrypt = λ k iv s ascii. refl;
  length-ciphertext = λ k iv s. omega arith;
  length-tag = λ k iv s. refl;
  from_base64-nil = refl;
}

abbrev pub at : ℕ → Context
at now = record {
  now = now;
  pepper = [];
  primitives = plain;
  verify_password = λ p h. true;
  is_online = λ user. true;
}

-- "ABC234" and its digest.
abbrev pub code_text : Text
code_text = 65 ∷ 66 ∷ 67 ∷ 50 ∷ 51 ∷ 52 ∷ []

abbrev pub code_digest : Text
code_digest = 66 ∷ 67 ∷ 68 ∷ 50 ∷ 51 ∷ 52 ∷ []

-- "ZZZZZZ"
abbrev pub other_text : Text
other_text = 90 ∷ 90 ∷ 90 ∷ 90 ∷ 90 ∷ 90 ∷ []

abbrev pub a_user : ℕ → UserRow
a_user id = record {
  id = id;
  username = [];
  display_name = none;
  is_active = true;
  role = UserRole.user;
  email = none;
  email_verified_at = none;
  password_hash = [];
  username_changed_at = none;
  failed_login_count = 0;
  locked_until = none;
  last_login_at = none;
}

abbrev pub a_device : DeviceRow
a_device = record {
  id = 5;
  user_id = 1;
  device_name = none;
  platform = Platform.web;
  identity_dh_public = [];
  identity_signing_public = [];
  signed_prekey_public = [];
  signed_prekey_signature = [];
  signed_prekey_created_at = 0;
  last_seen_at = 0;
  revoked_at = none;
}

-- A code of user 1 that expires at 5000.
abbrev pub a_code : PairingRow
a_code = record {
  id = 10;
  creator_user_id = 1;
  code_hmac = code_digest;
  code_text = none;
  status = PairingStatus.active;
  expires_at = some 5000;
  used_by_user_id = none;
  used_at = none;
  failed_attempts = 0;
  locked_until = none;
  created_at = 0;
}

abbrev pub a_conversation : ConversationRow
a_conversation = record {
  id = 20;
  user_a_id = 1;
  user_b_id = 2;
  status = ConversationStatus.active;
  disappearing_timer_seconds = none;
  disappearing_trigger = none;
  session_epoch = 1;
  expires_at = none;
  temporary_creator_user_id = none;
}

abbrev pub a_handshake : HandshakeRow
a_handshake = record {
  conversation_id = 20;
  recipient_user_id = 1;
  payload = [];
  session_epoch = 1;
}

abbrev pub paired_database : Database
paired_database = record empty_database {
  users = a_user 1 ∷ a_user 2 ∷ [];
  devices = a_device ∷ [];
  pairing_codes = a_code ∷ [];
  conversations = a_conversation ∷ [];
  handshakes = a_handshake ∷ [];
  next_id = 30;
}

-- A message that user 1 sent to user 2.
abbrev pub a_chat_message : MessageRow
a_chat_message = record {
  id = 50;
  conversation_id = 20;
  sender_id = 1;
  sequence_number = 1;
  sync_version = 1;
  client_message_id = code_text;
  ciphertext = 1 ∷ 2 ∷ [];
  nonce = 3 ∷ [];
  message_type = MessageType.text;
  reply_to_message_id = none;
  sent_at = 100;
  delivered_at = none;
  read_at = none;
  edited_at = none;
  deleted_at = none;
  disappear_at = none;
}
