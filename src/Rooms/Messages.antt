-- ===== src/Rooms/Messages.antt =====
-- `listMessages` and `sendMessage` of rooms.service.ts.
pub mod Delivery
use pookie_chat.Prelude.{
  ◌==◌, if◌then◌else◌, is_none, find, keep, any, take, ℕ, ◌+◌, max, Bool, ◌&&◌, ◌||◌, Option, none,
  some, List, [], ◌∷◌, ◌++◌,
}
use pookie_chat.Domain.Text.{Text}
use pookie_chat.Domain.MessageState.{eq_text, insert_by, sort_by}
use pookie_chat.Server.{
  M, ◌>>=◌, ◌>>◌, pure, throw, get, modify, or_throw, catch_violation, bad_request, forbidden,
  not_found, unique_violation, ok, err,
}
use pookie_chat.Server.Rows.{RoomRow, MessageType, RoomMessageRow}
use pookie_chat.Server.Database.{push_to_user, push_to_users, room_message, Database, Context}
use pookie_chat.Rooms.Tables.{room_by_id, membership, member_ids, active_room}

-- `orderBy: { sequenceNumber: 'asc' }, take: limit`, without the deleted messages.
unfoldable pub list_messages : ℕ → ℕ → ℕ → M Database (List RoomMessageRow)
unfolding sort_by insert_by
list_messages user room_id limit = do
  db ← get
  row ←
      or_throw (membership room_id user db.members) (forbidden "You are not a member of this room")
  pure (
      take limit (
        sort_by (λ m. m.sequence_number)
          (keep (λ m. m.room_id == room_id && is_none m.deleted_at) db.messages)))

pub record SendRoomMessage : Type 0 where
  pub client_message_id : Text
  pub ciphertext : Text
  pub iv : Text
  pub message_type : Option MessageType
  pub reply_to_message_id : Option ℕ
  pub key_epoch : Option ℕ

pub record SentMessage : Type 0 where
  pub id : ℕ
  pub sequence_number : ℕ
  pub sent_at : ℕ

abbrev pub max_message_retry_attempts : ℕ
max_message_retry_attempts = 5

-- `roomMessage.aggregate({ where: { roomId }, _max: { sequenceNumber: true } })`, null as 0: the
-- numbers start at 1.
pub max_sequence : ℕ → List RoomMessageRow → ℕ
max_sequence room [] = 0
max_sequence room (m ∷ ms) =
    if m.room_id == room then max m.sequence_number (max_sequence room ms) else max_sequence room ms

abbrev pub has_number : ℕ → ℕ → RoomMessageRow → Bool
has_number room n m = m.room_id == room && m.sequence_number == n

abbrev pub has_client_id : ℕ → Text → RoomMessageRow → Bool
has_client_id room id m = m.room_id == room && eq_text m.client_message_id id

-- `roomMessage.create`, under `@@unique([roomId, sequenceNumber])` and
-- `@@unique([roomId, clientMessageId])`.
unfoldable pub create_message : RoomMessageRow → M Database RoomMessageRow
create_message row db =
    if any (has_number row.room_id row.sequence_number) db.messages
      || any (has_client_id row.room_id row.client_message_id) db.messages
    then (err unique_violation, db)
    else (ok row, record db { messages = db.messages ++ row ∷ []; next_id = db.next_id + 1 })

abbrev pub given {ℓ} : {A : Type ℓ} → Option A → A → A
given none default = default
given (some a) default = a

abbrev pub reply : RoomMessageRow → SentMessage
reply m = record { id = m.id; sequence_number = m.sequence_number; sent_at = m.sent_at }

-- The stored message of the same client id, or the next round.
abbrev pub known_or : Option RoomMessageRow → M Database SentMessage → M Database SentMessage
known_or (some existing) again = pure (reply existing)
known_or none again = again

-- The messages that other requests store while this one waits.
abbrev pub interfere : List RoomMessageRow → Database → Database
interfere others db = record db { messages = db.messages ++ others }

module _ (c : Context) (user room_id : ℕ) (room : RoomRow) (dto : SendRoomMessage) where
  abbrev pub new_message : ℕ → ℕ → RoomMessageRow
  new_message id n = record {
    id = id;
    room_id = room_id;
    sender_id = user;
    sequence_number = n;
    client_message_id = dto.client_message_id;
    ciphertext = c.primitives.from_base64 dto.ciphertext;
    nonce = c.primitives.from_base64 dto.iv;
    message_type = given dto.message_type MessageType.text;
    key_epoch = given dto.key_epoch room.key_epoch;
    reply_to_message_id = dto.reply_to_message_id;
    sent_at = c.now;
    deleted_at = none;
  }

  -- The insertion with the number that was computed, and the broadcast.
  unfoldable pub store_message : ℕ → M Database SentMessage
  unfolding create_message member_ids push_to_users push_to_user
  store_message n = do
    db ← get
    message ← create_message (new_message db.next_id n)
    modify (
        push_to_users (member_ids room_id db.members)
          (room_message room_id message.id message.sequence_number))
    pure (reply message)

  -- The loop. A round reads the maximum, others store messages, and the insertion follows; on a
  -- violation a message of the same client id is the reply, else the next round begins. The
  -- argument holds what the others store in each round.
  unfoldable pub send_loop : List (List RoomMessageRow) → M Database SentMessage
  send_loop [] = throw (bad_request "Could not send message. Please retry.")
  send_loop (others ∷ rounds) =
      let again = send_loop rounds in
      do
        before ← get
        modify (interfere others)
        catch_violation (store_message (max_sequence room_id before.messages + 1)) (λ _. do
          db ← get
          known_or (find (has_client_id room_id dto.client_message_id) db.messages) again)

-- The rounds of interference are those that the five attempts can meet.
unfoldable pub send_message :
    Context → ℕ → ℕ → SendRoomMessage → List (List RoomMessageRow) → M Database SentMessage
unfolding send_loop
send_message c user room_id dto rounds = do
  db ← get
  row ←
      or_throw (membership room_id user db.members) (forbidden "You are not a member of this room")
  room ← active_room (room_by_id room_id db.rooms) (not_found "Room is no longer active")
  send_loop c user room_id room dto (take max_message_retry_attempts rounds)
