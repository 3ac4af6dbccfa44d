-- ===== src/Messages.antt =====
-- apps/backend/src/messages/messages.service.ts: `send` here, the rest in the children.
pub mod Tables
pub mod Sync
pub mod Changes
pub mod TemporaryChats
pub mod Versions
pub mod Reaching
pub mod Corrections
pub mod Sending
pub mod Arrival
pub mod ReadTimers
pub mod Silence
use pookie_chat.Prelude.{
  ◌==◌, if◌then◌else◌, is_none, find, update, ℕ, zero, suc, Bool, true, false, not, ◌&&◌, Option,
  none, some, List, [], ◌∷◌, ◌++◌,
}
use pookie_chat.Domain.Text.{Text}
use pookie_chat.Domain.MessageState.{resolve_disappear_trigger, Trigger, sent, delivered, read}
use pookie_chat.Domain.SessionEpoch.{is_stale_epoch}
use pookie_chat.Server.{
  M, ◌>>=◌, ◌>>◌, pure, throw, get, modify, require, or_throw, catch_violation, forbidden,
  not_found, conflict, internal,
}
use pookie_chat.Server.Rows.{ConversationRow, MessageRow, AttachmentRow, SettingsRow, MessageType}
use pookie_chat.Server.Database.{
  has_conversation_id, push_to_user, chat_message, delivery_receipt, Database, Context,
}
use pookie_chat.Handshake.{other_user}
use pookie_chat.Conversations.Listing.{settings_of}
use pookie_chat.Messages.Tables.{
  max_sequence_retry_attempts, has_message_id, is_in, next_version, has_client_id, create_message,
  update_message, now_stored, later_rounds, interfere, active_conversation, disappear_on,
  with_disappear, Rounds,
}

pub record SendMessage : Type 0 where
  pub conversation_id : ℕ
  pub client_message_id : Text
  pub ciphertext : Text
  pub iv : Text
  pub message_type : MessageType
  pub reply_to_message_id : Option ℕ
  pub attachment_id : Option ℕ
  pub encrypted_dek : Option Text
  pub session_epoch : ℕ

pub record SentMessage : Type 0 where
  pub id : ℕ
  pub sequence_number : ℕ
  pub sent_at : ℕ
  pub deduped : Bool
  pub delivered : Bool

abbrev pub reply : Bool → Bool → MessageRow → SentMessage
reply known online m = record {
  id = m.id;
  sequence_number = m.sequence_number;
  sent_at = m.sent_at;
  deduped = known;
  delivered = online;
}

-- `settings?.readReceiptsEnabled ?? true`
abbrev pub receipts_enabled : Option SettingsRow → Bool
receipts_enabled none = true
receipts_enabled (some s) = s.read_receipts_enabled

abbrev pub resolved : Option Trigger → Bool → Option Trigger
resolved none receipts = none
resolved (some trigger) receipts = some (resolve_disappear_trigger trigger receipts)

-- What `markDelivered` writes into a message.
abbrev pub delivered_by : ℕ → ConversationRow → MessageRow → MessageRow
delivered_by now convo m =
    with_disappear
      (disappear_on Trigger.delivered convo.disappearing_timer_seconds convo.disappearing_trigger
        (record { sent_at = now; delivered_at = some now; read_at = none }))
      (record m { delivered_at = some now })

-- `dto.encryptedDek ? Buffer.from(dto.encryptedDek, 'base64') : null`
abbrev pub decoded_dek : Context → Option Text → Option (List ℕ)
decoded_dek c none = none
decoded_dek c (some []) = none
decoded_dek c (some (k ∷ dek)) = some (c.primitives.from_base64 (k ∷ dek))

abbrev pub has_attachment_id : ℕ → AttachmentRow → Bool
has_attachment_id id a = a.id == id

module _ (c : Context) (user : ℕ) (dto : SendMessage) where
  abbrev pub new_message : Option ℕ → ℕ → ℕ → MessageRow
  new_message disappear_at id n = record {
    id = id;
    conversation_id = dto.conversation_id;
    sender_id = user;
    sequence_number = n;
    sync_version = n;
    client_message_id = dto.client_message_id;
    ciphertext = c.primitives.from_base64 dto.ciphertext;
    nonce = c.primitives.from_base64 dto.iv;
    message_type = dto.message_type;
    reply_to_message_id = dto.reply_to_message_id;
    sent_at = c.now;
    delivered_at = none;
    read_at = none;
    edited_at = none;
    deleted_at = none;
    disappear_at = disappear_at;
  }

  -- The message that a reply names is one of the conversation.
  abbrev pub check_reply : Option ℕ → M Database (Unit {0})
  check_reply none = pure tt
  check_reply (some id) = do
    db ← get
    m ←
        or_throw (find (λ m. has_message_id id m && is_in dto.conversation_id m) db.chat_messages)
          (not_found "Referenced reply message not found")
    pure tt

  -- `linkToMessage` of attachments.service.ts
  unfoldable pub link_to_message : ℕ → ℕ → M Database (Unit {0})
  link_to_message attachment_id message_id = do
    db ← get
    a ←
        or_throw (find (has_attachment_id attachment_id) db.attachments)
          (not_found "Attachment not found")
    require (a.uploader_id == user) (forbidden "Forbidden")
    require (a.conversation_id == dto.conversation_id) (forbidden "Forbidden")
    require (is_none a.message_id) (forbidden "Attachment already linked to a message")
    modify (λ after. record after {
      attachments =
          update (has_attachment_id attachment_id)
            (λ r. record r {
              message_id = some message_id;
              encrypted_dek = decoded_dek c dto.encrypted_dek;
            })
            after.attachments;
    })

  abbrev pub link_if : Option ℕ → ℕ → M Database (Unit {0})
  link_if none message_id = pure tt
  link_if (some attachment_id) message_id = link_to_message attachment_id message_id

  -- The stored message of the same client id, or the next attempt.
  abbrev pub known_or :
      Option MessageRow → M Database (Bool × MessageRow) → M Database (Bool × MessageRow)
  known_or (some existing) again = pure (true, existing)
  known_or none again = again

  abbrev pub fresh : Option ℕ → ℕ → M Database (Bool × MessageRow)
  fresh disappear_at n = do
    db ← get
    m ← create_message (new_message disappear_at db.next_id n)
    pure (false, m)

  -- `createMessageWithRetry`, by the attempts that are left; whether the message was there already.
  unfoldable pub create_loop : Option ℕ → ℕ → Rounds → M Database (Bool × MessageRow)
  unfolding next_version create_message
  create_loop disappear_at zero rounds = throw (
      conflict
        "Could not allocate a message sequence number after repeated attempts — please retry.")
  create_loop disappear_at (suc attempts) rounds =
      let again = create_loop disappear_at attempts (later_rounds rounds) in
      do
        before ← get
        modify (interfere (now_stored rounds))
        catch_violation (fresh disappear_at (next_version dto.conversation_id before.chat_messages))
            (λ _. do
              db ← get
              known_or
                  (find (has_client_id dto.conversation_id dto.client_message_id) db.chat_messages)
                  again)

  -- Where the recipient is connected, the message is delivered.
  abbrev pub mark_if : Bool → MessageRow → ConversationRow → M Database (Unit {0})
  mark_if true m convo = do
    modify (update_message m.id (delivered_by c.now convo))
    modify (push_to_user user (delivery_receipt dto.conversation_id m.id))
  mark_if false m convo = pure tt

  -- What follows the insertion.
  abbrev pub deliver : ConversationRow → ℕ → Bool × MessageRow → M Database SentMessage
  deliver convo recipient (true, m) = pure (reply true false m)
  deliver convo recipient (false, m) = do
    link_if dto.attachment_id m.id
    modify (push_to_user recipient (chat_message m.id dto.conversation_id m.sequence_number))
    mark_if (c.is_online recipient) m convo
    pure (reply false (c.is_online recipient) m)

  abbrev pub send_fresh : ℕ → Rounds → M Database SentMessage
  send_fresh recipient rounds = do
    db ← get
    convo ← or_throw (find (has_conversation_id dto.conversation_id) db.conversations) internal
    stored ←
        create_loop
          (disappear_on sent convo.disappearing_timer_seconds
            (resolved convo.disappearing_trigger (receipts_enabled (settings_of recipient db)))
            (record { sent_at = c.now; delivered_at = none; read_at = none }))
          max_sequence_retry_attempts rounds
    deliver convo recipient stored

  abbrev pub send_unknown : Option MessageRow → ℕ → Rounds → M Database SentMessage
  send_unknown (some existing) recipient rounds = pure (reply true false existing)
  send_unknown none recipient rounds = send_fresh recipient rounds

  unfoldable pub send : Rounds → M Database SentMessage
  unfolding active_conversation create_loop disappear_on update_message push_to_user
  send rounds = do
    convo ← active_conversation c user dto.conversation_id
    require (not (is_stale_epoch (some dto.session_epoch) convo.session_epoch))
        (conflict "STALE_SESSION_EPOCH")
    check_reply dto.reply_to_message_id
    db ← get
    send_unknown (find (has_client_id dto.conversation_id dto.client_message_id) db.chat_messages)
        (other_user user convo) rounds
