-- ===== src/Messages/Changes.antt =====
-- `deleteMessage`, `editMessage` and the two sweeps of messages.service.ts.
use pookie_chat.Prelude.{
  ◌==◌, if◌then◌else◌, is_none, length, find, keep, ℕ, Bool, not, ◌&&◌, Option, none, some, List,
  [], ◌∷◌, ◌++◌,
}
use pookie_chat.Domain.Text.{Text}
use pookie_chat.Domain.MessageState.{sort_by, insert_by}
use pookie_chat.Server.{
  M, ◌>>=◌, ◌>>◌, pure, get, modify, require, or_throw, bad_request, not_found, internal,
}
use pookie_chat.Server.Rows.{ConversationRow, MessageRow}
use pookie_chat.Server.Database.{
  has_conversation_id, push_to_user, message_deleted, message_edited, Database, Context,
}
use pookie_chat.Handshake.{is_past, other_user}
use pookie_chat.Conversations.Tables.{is_deleted, expire, expire_all}
use pookie_chat.Messages.Tables.{
  max_sequence_retry_attempts, has_message_id, bump_loop, delete_for_message, refuse_expired,
  Rounds,
}

abbrev pub is_sent_by : ℕ → Option MessageRow → Option MessageRow
is_sent_by user none = none
is_sent_by user (some m) = if m.sender_id == user then some m else none

module _ (c : Context) where
  -- `deletedAt` is set, the content wiped, and the version new.
  abbrev pub tombstone : ℕ → MessageRow → MessageRow
  tombstone version m = record m {
    deleted_at = some c.now;
    ciphertext = [];
    nonce = [];
    sync_version = version;
  }

  abbrev pub edited : Text → Text → ℕ → MessageRow → MessageRow
  edited ciphertext iv version m = record m {
    ciphertext = c.primitives.from_base64 ciphertext;
    nonce = c.primitives.from_base64 iv;
    edited_at = some c.now;
    sync_version = version;
  }

  module _ (user id : ℕ) where
    unfoldable pub delete_message : Rounds → M Database (Unit {0})
    unfolding expire delete_for_message bump_loop push_to_user
    delete_message rounds = do
      db ← get
      m ←
          or_throw (is_sent_by user (find (has_message_id id) db.chat_messages))
            (not_found "Message not found")
      convo ← or_throw (find (has_conversation_id m.conversation_id) db.conversations) internal
      refuse_expired c (is_past c.now convo.expires_at) convo
      modify (delete_for_message id)
      version ← bump_loop id m.conversation_id tombstone max_sequence_retry_attempts rounds
      modify (push_to_user (other_user user convo) (message_deleted id m.conversation_id))

    unfoldable pub edit_message : Text → Text → Rounds → M Database (Unit {0})
    unfolding expire bump_loop push_to_user
    edit_message ciphertext iv rounds = do
      db ← get
      m ←
          or_throw (is_sent_by user (find (has_message_id id) db.chat_messages))
            (not_found "Message not found")
      require (is_none m.deleted_at) (bad_request "Cannot edit a deleted message")
      convo ← or_throw (find (has_conversation_id m.conversation_id) db.conversations) internal
      refuse_expired c (is_past c.now convo.expires_at) convo
      version ←
          bump_loop id m.conversation_id (edited ciphertext iv) max_sequence_retry_attempts rounds
      modify (push_to_user (other_user user convo) (message_edited id m.conversation_id version))

  -- `cleanupExpiredTemporaryChats`; one sweep runs at a time.
  abbrev pub is_over : ConversationRow → Bool
  is_over convo = is_past c.now convo.expires_at && not (is_deleted convo.status)

  unfoldable pub cleanup_expired_temporary_chats : M Database ℕ
  unfolding expire_all
  cleanup_expired_temporary_chats = do
    db ← get
    modify (expire_all (keep is_over db.conversations))
    pure (length (keep is_over db.conversations))

  -- The messages of one conversation, in the order of their versions.
  abbrev pub is_due : MessageRow → Bool
  is_due m = is_past c.now m.disappear_at && is_none m.deleted_at

  -- `byConversation`: the ids by conversation, in the order in which the conversations come first.
  unfoldable pub add_to : ℕ → ℕ → List (ℕ × List ℕ) → List (ℕ × List ℕ)
  add_to conversation id [] = (conversation, id ∷ []) ∷ []
  add_to conversation id ((k, ids) ∷ groups) =
      let rest = add_to conversation id groups in
      if k == conversation then (k, ids ++ id ∷ []) ∷ groups else (k, ids) ∷ rest

  unfoldable pub group_from : List (ℕ × List ℕ) → List MessageRow → List (ℕ × List ℕ)
  unfolding add_to
  group_from groups [] = groups
  group_from groups (m ∷ ms) = group_from (add_to m.conversation_id m.id groups) ms

  -- One conversation's messages, each with its version; nothing is stored meanwhile.
  pub wipe_each : ConversationRow → List ℕ → M Database (Unit {0})
  unfolding delete_for_message bump_loop push_to_user
  wipe_each convo [] = pure tt
  wipe_each convo (id ∷ ids) =
      let rest = wipe_each convo ids in
      do
        modify (delete_for_message id)
        version ← bump_loop id convo.id tombstone max_sequence_retry_attempts []
        modify (push_to_user convo.user_a_id (message_deleted id convo.id))
        modify (push_to_user convo.user_b_id (message_deleted id convo.id))
        rest

  abbrev pub wipe_group : Option ConversationRow → List ℕ → M Database (Unit {0})
  wipe_group none ids = pure tt
  wipe_group (some convo) ids = wipe_each convo ids

  pub wipe_groups : List (ℕ × List ℕ) → M Database (Unit {0})
  unfolding wipe_each
  wipe_groups [] = pure tt
  wipe_groups ((conversation, ids) ∷ groups) =
      let rest = wipe_groups groups in
      do db ← get; wipe_group (find (has_conversation_id conversation) db.conversations) ids; rest

  -- `cleanupExpiredMessages`; one sweep runs at a time.
  unfoldable pub cleanup_expired_messages : M Database ℕ
  unfolding wipe_groups group_from sort_by insert_by
  cleanup_expired_messages = do
    db ← get
    let expired = keep is_due db.chat_messages
    wipe_groups (group_from [] (sort_by (λ (m : MessageRow). m.sync_version) expired))
    pure (length expired)
