-- ===== src/Server/Database.antt =====
-- The tables that the services share, the clock's reading of a request, and what was pushed to
-- the users' sockets.
use pookie_chat.Prelude.{◌==◌, ℕ, Bool, List, [], ◌∷◌, ◌++◌, map}
use pookie_chat.Domain.Text.{Text}
use pookie_chat.Domain.PairingCode.{Primitives}
use pookie_chat.Server.Rows.{
  UserRow, DeviceRow, PrekeyRow, PairingRow, ConversationRow, HandshakeRow, JoinPolicy, RoomRow,
  MemberRow, RequestRow, RoomMessageRow, KeyPackageRow, SecurityEvent, MessageRow, AttachmentRow,
  SettingsRow, ConversationRequestRow,
}

-- The events with their payloads: those of rooms, of conversations and of their messages, and of
-- requests for conversations.
pub data Event : Type 0 where
  member_joined : (room_id user_id member_count : ℕ) → Event
  join_request : (request_id room_id requester_id : ℕ) → Event
  join_accepted : (room_id : ℕ) → Event
  join_rejected : (room_id : ℕ) → Event
  room_message : (room_id message_id sequence_number : ℕ) → Event
  member_left : (room_id user_id member_count : ℕ) → Event
  member_removed : (room_id : ℕ) → Event
  join_lock_changed : (room_id : ℕ) (locked : Bool) → Event
  room_closed : (room_id : ℕ) → Event
  key_delivered : (room_id key_epoch : ℕ) → Event
  key_rotation_required : (room_id new_key_epoch : ℕ) → Event
  room_updated : (room_id : ℕ) (name : Text) (max_members : ℕ) (policy : JoinPolicy) → Event
  chat_message : (message_id conversation_id sequence_number : ℕ) → Event
  delivery_receipt : (conversation_id message_id : ℕ) → Event
  read_receipt : (message_id conversation_id : ℕ) → Event
  message_deleted : (message_id conversation_id : ℕ) → Event
  message_edited : (message_id conversation_id sequence_number : ℕ) → Event
  conversation_burned : (conversation_id : ℕ) → Event
  temporary_chat_expired : (conversation_id : ℕ) → Event
  temporary_chat_expiry_updated : (conversation_id expires_at : ℕ) → Event
  request_received : (request_id : ℕ) → Event
  request_accepted : (request_id conversation_id session_epoch : ℕ) → Event
  request_rejected : (request_id : ℕ) → Event

pub record Database : Type 0 where
  pub users : List UserRow
  pub devices : List DeviceRow
  pub prekeys : List PrekeyRow
  pub pairing_codes : List PairingRow
  pub conversations : List ConversationRow
  pub handshakes : List HandshakeRow
  pub rooms : List RoomRow
  pub members : List MemberRow
  pub requests : List RequestRow
  pub messages : List RoomMessageRow
  pub packages : List KeyPackageRow
  pub chat_messages : List MessageRow
  pub attachments : List AttachmentRow
  pub settings : List SettingsRow
  pub conversation_requests : List ConversationRequestRow
  pub burn_passwords : List (ℕ × Text)
  pub security_events : List SecurityEvent
  pub pushed : List (ℕ × Event)
  -- The next id that a new row gets.
  pub next_id : ℕ

-- What a request is given besides its arguments: the clock, the secret of the configuration, and
-- code that is not the repository's.
pub record Context : Type 0 where
  pub now : ℕ
  pub pepper : Text
  pub primitives : Primitives
  -- `verifyPassword`
  pub verify_password : Text → Text → Bool
  -- Whether the registry holds a socket of the user: what `pushToUser` and `isOnline` answer.
  pub is_online : ℕ → Bool

abbrev pub empty_database : Database
empty_database = record {
  users = [];
  devices = [];
  prekeys = [];
  pairing_codes = [];
  conversations = [];
  handshakes = [];
  rooms = [];
  members = [];
  requests = [];
  messages = [];
  packages = [];
  chat_messages = [];
  attachments = [];
  settings = [];
  conversation_requests = [];
  burn_passwords = [];
  security_events = [];
  pushed = [];
  next_id = 0;
}

-- `conversation.findUnique({ where: { id } })` compares by this.
abbrev pub has_conversation_id : ℕ → ConversationRow → Bool
has_conversation_id id r = r.id == id

-- `pushToUser` and `pushToUsers` of the connection registry, oldest first.
unfoldable pub push_to_user : ℕ → Event → Database → Database
push_to_user user event db = record db { pushed = db.pushed ++ (user, event) ∷ [] }

unfoldable pub push_to_users : List ℕ → Event → Database → Database
push_to_users users event db = record db { pushed = db.pushed ++ map (λ user. (user, event)) users }
