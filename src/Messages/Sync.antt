-- ===== src/Messages/Sync.antt =====
-- `sync`, `markRead` and `getMessageStatuses` of messages.service.ts.
use pookie_chat.Prelude.{
  ltb, ◌==◌, is_none, is_some, find, keep, any, take, ℕ, Bool, true, false, not, ◌&&◌, ◌||◌, Option,
  some, List, [], ◌∷◌, map,
}
use pookie_chat.Domain.Text.{Text}
use pookie_chat.Domain.MessageState.{insert_by, sort_by, Trigger}
use pookie_chat.Server.{
  M, ◌>>=◌, ◌>>◌, pure, get, modify, require, or_throw, bad_request, forbidden, not_found, internal,
}
use pookie_chat.Server.Rows.{ConversationRow, MessageType, MessageRow}
use pookie_chat.Server.Database.{
  has_conversation_id, push_to_user, delivery_receipt, read_receipt, Database, Context,
}
use pookie_chat.Handshake.{is_past, other_user}
use pookie_chat.Conversations.Tables.{is_part, expire}
use pookie_chat.Conversations.Listing.{settings_of}
use pookie_chat.Messages.Tables.{
  has_message_id, is_in, update_message, refuse_expired, active_conversation, disappear_on,
  with_disappear,
}
use pookie_chat.Messages.{receipts_enabled, resolved, delivered_by}

pub record Synced : Type 0 where
  pub id : ℕ
  pub sender_id : ℕ
  pub sequence_number : ℕ
  pub deleted : Bool
  pub ciphertext : Text
  pub iv : Text
  pub message_type : MessageType
  pub reply_to_message_id : Option ℕ
  pub sent_at : ℕ

pub record MessageStatus : Type 0 where
  pub id : ℕ
  pub delivered_at : Option ℕ
  pub read_at : Option ℕ

module _ (c : Context) (user : ℕ) where
  abbrev pub synced : MessageRow → Synced
  synced m = record {
    id = m.id;
    sender_id = m.sender_id;
    sequence_number = m.sync_version;
    deleted = is_some m.deleted_at;
    ciphertext = c.primitives.to_base64 m.ciphertext;
    iv = c.primitives.to_base64 m.nonce;
    message_type = m.message_type;
    reply_to_message_id = m.reply_to_message_id;
    sent_at = m.sent_at;
  }

  -- The `where` of the query: what others sent, of a version above the one that the client has,
  -- and not past its time unless it is a tombstone.
  abbrev pub is_missing : ℕ → ℕ → MessageRow → Bool
  is_missing conversation after m =
      is_in conversation m
      && not (m.sender_id == user)
      && ltb after m.sync_version
      && (not (is_past c.now m.disappear_at) || is_some m.deleted_at)

  abbrev pub is_undelivered : MessageRow → Bool
  is_undelivered m = is_none m.delivered_at && is_none m.deleted_at

  -- `updateMany({ where: { id: { in } }, data })`, and the receipts.
  unfoldable pub mark_all : ConversationRow → List MessageRow → Database → Database
  unfolding update_message push_to_user disappear_on
  mark_all convo [] db = db
  mark_all convo (m ∷ ms) db = mark_all convo ms (
      push_to_user (other_user user convo) (delivery_receipt convo.id m.id)
        (update_message m.id (delivered_by c.now convo) db))

  unfoldable pub sync : ℕ → ℕ → M Database (List Synced)
  unfolding active_conversation mark_all sort_by insert_by
  sync conversation after = do
    convo ← active_conversation c user conversation
    db ← get
    let messages =
        sort_by (λ (m : MessageRow). m.sync_version)
          (keep (is_missing conversation after) db.chat_messages)
    modify (mark_all convo (keep is_undelivered messages))
    pure (map synced messages)

  -- What `markRead` writes into the message.
  abbrev pub read_by : Bool → ConversationRow → MessageRow → MessageRow
  read_by receipts convo m =
      with_disappear
        (disappear_on Trigger.read convo.disappearing_timer_seconds
          (resolved convo.disappearing_trigger receipts)
          (record { sent_at = m.sent_at; delivered_at = m.delivered_at; read_at = some c.now }))
        (record m { read_at = some c.now })

  abbrev pub tell_if : Bool → MessageRow → M Database (Unit {0})
  tell_if true m = modify (push_to_user m.sender_id (read_receipt m.id m.conversation_id))
  tell_if false m = pure tt

  unfoldable pub mark_read : ℕ → M Database (Unit {0})
  unfolding expire update_message disappear_on push_to_user
  mark_read id = do
    db ← get
    m ← or_throw (find (has_message_id id) db.chat_messages) (not_found "Message not found")
    require (not (m.sender_id == user)) (bad_request "Cannot mark your own message as read")
    convo ← or_throw (find (has_conversation_id m.conversation_id) db.conversations) internal
    require (is_part user convo) (forbidden "Forbidden")
    refuse_expired c (is_past c.now convo.expires_at) convo
    let receipts : Bool = receipts_enabled (settings_of user db)
    modify (update_message id (read_by receipts convo))
    tell_if receipts m

  -- `messageIds.length > 0` or all of the user's messages
  abbrev pub is_asked : List ℕ → ℕ → Bool
  is_asked [] id = true
  is_asked (i ∷ is) id = any (λ j. j == id) (i ∷ is)

  unfoldable pub get_message_statuses : ℕ → List ℕ → M Database (List MessageStatus)
  unfolding active_conversation
  get_message_statuses conversation ids = do
    convo ← active_conversation c user conversation
    db ← get
    pure (
        map (λ m. record { id = m.id; delivered_at = m.delivered_at; read_at = m.read_at })
          (take 100 (
            keep (λ m. is_in conversation m && m.sender_id == user && is_asked ids m.id)
              db.chat_messages)))
