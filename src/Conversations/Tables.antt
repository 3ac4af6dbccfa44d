-- ===== src/Conversations/Tables.antt =====
-- The queries on conversations that conversations.service.ts and messages.service.ts share, and the
-- end of a temporary conversation (`internalExpireAndDestroy`, `expireTemporaryConversation`). The
-- deletion of files from the object store, which the code lets fail, is left out.
use pookie_chat.Prelude.{
  ◌==◌, find, keep, update, ℕ, Bool, true, false, not, ◌&&◌, ◌||◌, List, [], ◌∷◌,
}
use pookie_chat.Domain.SessionEpoch.{ConversationStatus, active, deleted}
use pookie_chat.Server.{M, ◌>>=◌, ◌>>◌, pure, get, modify, require, or_throw, not_found}
use pookie_chat.Server.Rows.{ConversationRow, MessageRow, AttachmentRow, HandshakeRow}
use pookie_chat.Server.Database.{
  has_conversation_id, push_to_users, temporary_chat_expired, Database, Context,
}
use pookie_chat.Handshake.{is_past, is_of_conversation}

abbrev pub is_deleted : ConversationStatus → Bool
is_deleted deleted = true
is_deleted _ = false

abbrev pub is_available : ConversationStatus → Bool
is_available active = true
is_available _ = false

abbrev pub is_part : ℕ → ConversationRow → Bool
is_part user convo = convo.user_a_id == user || convo.user_b_id == user

-- `conversation.update({ where: { id }, data })`
unfoldable pub update_conversation : ℕ → (ConversationRow → ConversationRow) → Database → Database
update_conversation id data_ db = record db {
  conversations = update (has_conversation_id id) data_ db.conversations;
}

abbrev pub with_status : ConversationStatus → ConversationRow → ConversationRow
with_status status r = record r { status = status }

-- The transaction that removes what a conversation holds, and marks it as deleted.
unfoldable pub destroy : ℕ → Database → Database
unfolding update_conversation
destroy id db = update_conversation id (with_status deleted) (record db {
  attachments = keep (λ (a : AttachmentRow). not (a.conversation_id == id)) db.attachments;
  chat_messages = keep (λ (m : MessageRow). not (m.conversation_id == id)) db.chat_messages;
  handshakes = keep (λ (h : HandshakeRow). not (is_of_conversation id h)) db.handshakes;
})

-- The transaction, and what both users are told.
unfoldable pub expire : ConversationRow → Database → Database
unfolding destroy push_to_users
expire convo db =
    push_to_users (convo.user_a_id ∷ convo.user_b_id ∷ []) (temporary_chat_expired convo.id)
      (destroy convo.id db)

unfoldable pub expire_all : List ConversationRow → Database → Database
unfolding expire
expire_all [] db = db
expire_all (convo ∷ rest) db = expire_all rest (expire convo db)

-- An expired conversation is ended before the request goes on.
abbrev pub end_if : Bool → ConversationRow → M Database ConversationRow
end_if true convo = do modify (expire convo); pure (with_status deleted convo)
end_if false convo = pure convo

-- `getOwnedConversation`
unfoldable pub owned_conversation : Context → ℕ → ℕ → M Database ConversationRow
unfolding expire
owned_conversation c user id = do
  db ← get
  convo ← or_throw (find (has_conversation_id id) db.conversations) (not_found "Not found")
  require (is_part user convo) (not_found "Not found")
  end_if (is_past c.now convo.expires_at && not (is_deleted convo.status)) convo
