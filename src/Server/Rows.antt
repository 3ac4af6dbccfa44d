-- ===== src/Server/Rows.antt =====
-- The rows of apps/backend/prisma/schema.prisma that the modelled services read and write. Ids
-- are numbers, compared by equality and in one place by order; instants are milliseconds.
use pookie_chat.Prelude.{ℕ, Bool, Option, List}
use pookie_chat.Domain.Text.{Text}
use pookie_chat.Domain.MessageState.{Trigger}
use pookie_chat.Domain.SessionEpoch.{ConversationStatus}

pub data UserRole : Type 0 where
  user admin superadmin : UserRole

pub data Platform : Type 0 where
  web android : Platform

pub record UserRow : Type 0 where
  pub id : ℕ
  pub username : Text
  pub display_name : Option Text
  -- `status === 'ACTIVE'`
  pub is_active : Bool
  pub role : UserRole
  pub email : Option Text
  pub email_verified_at : Option ℕ
  pub password_hash : Text
  pub username_changed_at : Option ℕ
  pub failed_login_count : ℕ
  pub locked_until : Option ℕ
  pub last_login_at : Option ℕ

pub record DeviceRow : Type 0 where
  pub id : ℕ
  pub user_id : ℕ
  pub device_name : Option Text
  pub platform : Platform
  pub identity_dh_public : Text
  pub identity_signing_public : Text
  pub signed_prekey_public : Text
  pub signed_prekey_signature : Text
  pub signed_prekey_created_at : ℕ
  pub last_seen_at : ℕ
  pub revoked_at : Option ℕ

pub record PrekeyRow : Type 0 where
  pub id : ℕ
  pub device_id : ℕ
  pub public_key : Text
  pub used_at : Option ℕ

pub data PairingStatus : Type 0 where
  active used revoked expired : PairingStatus

pub record PairingRow : Type 0 where
  pub id : ℕ
  pub creator_user_id : ℕ
  pub code_hmac : Text
  pub code_text : Option Text
  pub status : PairingStatus
  pub expires_at : Option ℕ
  pub used_by_user_id : Option ℕ
  pub used_at : Option ℕ
  pub failed_attempts : ℕ
  pub locked_until : Option ℕ
  pub created_at : ℕ

pub record ConversationRow : Type 0 where
  pub id : ℕ
  pub user_a_id : ℕ
  pub user_b_id : ℕ
  pub status : ConversationStatus
  pub disappearing_timer_seconds : Option ℕ
  pub disappearing_trigger : Option Trigger
  pub session_epoch : ℕ
  pub expires_at : Option ℕ
  pub temporary_creator_user_id : Option ℕ

pub record HandshakeRow : Type 0 where
  pub conversation_id : ℕ
  pub recipient_user_id : ℕ
  pub payload : Text
  pub session_epoch : ℕ

pub data JoinPolicy : Type 0 where
  anyone approval_required : JoinPolicy

pub data RoomStatus : Type 0 where
  active closed deleted : RoomStatus

pub record RoomRow : Type 0 where
  pub id : ℕ
  pub name : Text
  pub owner_id : ℕ
  pub code_hmac : Text
  pub code_text : Option Text
  pub join_policy : JoinPolicy
  pub max_members : ℕ
  pub status : RoomStatus
  pub key_epoch : ℕ
  pub join_locked : Bool
  pub open_key_ciphertext : Option (List ℕ)
  pub open_key_nonce : Option (List ℕ)
  pub created_at : ℕ

pub data MemberRole : Type 0 where
  owner admin member : MemberRole

pub record MemberRow : Type 0 where
  pub id : ℕ
  pub room_id : ℕ
  pub user_id : ℕ
  pub role : MemberRole
  pub joined_at : ℕ

pub data RequestStatus : Type 0 where
  pending accepted rejected cancelled expired : RequestStatus

pub record RequestRow : Type 0 where
  pub id : ℕ
  pub room_id : ℕ
  pub requester_id : ℕ
  pub status : RequestStatus
  pub created_at : ℕ
  pub reviewed_at : Option ℕ
  pub reviewed_by_id : Option ℕ

pub data MessageType : Type 0 where
  text image file system : MessageType

pub record RoomMessageRow : Type 0 where
  pub id : ℕ
  pub room_id : ℕ
  pub sender_id : ℕ
  pub sequence_number : ℕ
  pub client_message_id : Text
  pub ciphertext : List ℕ
  pub nonce : List ℕ
  pub message_type : MessageType
  pub key_epoch : ℕ
  pub reply_to_message_id : Option ℕ
  pub sent_at : ℕ
  pub deleted_at : Option ℕ

-- `Message`: a message of a conversation between two users.
pub record MessageRow : Type 0 where
  pub id : ℕ
  pub conversation_id : ℕ
  pub sender_id : ℕ
  pub sequence_number : ℕ
  pub sync_version : ℕ
  pub client_message_id : Text
  pub ciphertext : List ℕ
  pub nonce : List ℕ
  pub message_type : MessageType
  pub reply_to_message_id : Option ℕ
  pub sent_at : ℕ
  pub delivered_at : Option ℕ
  pub read_at : Option ℕ
  pub edited_at : Option ℕ
  pub deleted_at : Option ℕ
  pub disappear_at : Option ℕ

pub record AttachmentRow : Type 0 where
  pub id : ℕ
  pub message_id : Option ℕ
  pub uploader_id : ℕ
  pub conversation_id : ℕ
  pub encrypted_dek : Option (List ℕ)
  pub uploaded_at : ℕ

-- `UserSettings`; the hash of the burn password has a table of its own in the model.
pub record SettingsRow : Type 0 where
  pub user_id : ℕ
  pub read_receipts_enabled : Bool
  pub username_search_enabled : Bool
  pub last_seen_enabled : Bool

-- Its statuses are those of `RequestStatus`, `expired` left out.
pub record ConversationRequestRow : Type 0 where
  pub id : ℕ
  pub sender_id : ℕ
  pub recipient_id : ℕ
  pub status : RequestStatus
  pub created_at : ℕ

pub record KeyPackageRow : Type 0 where
  pub room_id : ℕ
  pub key_epoch : ℕ
  pub recipient_user_id : ℕ
  pub encrypted_key : List ℕ
  pub nonce : List ℕ
  pub sender_user_id : ℕ

pub data SecurityEvent : Type 0 where
  new_pairing : (user_id conversation_id : ℕ) → SecurityEvent
  pairing_revoked : (user_id pairing_id : ℕ) → SecurityEvent
  new_device : (user_id : ℕ) (device_name : Option Text) → SecurityEvent
  suspicious_login : (user_id : ℕ) → SecurityEvent
  session_revoked : (user_id session_id : ℕ) → SecurityEvent
  other_sessions_revoked : (user_id number : ℕ) → SecurityEvent

pub record SessionRow : Type 0 where
  pub id : ℕ
  pub user_id : ℕ
  pub device_id : ℕ
  pub refresh_token_hash : Text
  pub expires_at : ℕ
  pub revoked_at : Option ℕ
  pub user_agent : Option Text
  pub ip_hash : Option Text
  pub created_at : ℕ

pub record VerificationRow : Type 0 where
  pub id : ℕ
  pub user_id : ℕ
  pub email : Text
  pub code_hash : Text
  pub expires_at : ℕ
  pub consumed_at : Option ℕ
  pub attempts : ℕ
  pub created_at : ℕ
