-- ===== src/Handshake.antt =====
-- apps/backend/src/handshake/handshake.service.ts: the pending handshake of a conversation.
pub mod Freshness
use pookie_chat.Prelude.{
  leb, ◌==◌, if◌then◌else◌, find, ℕ, Bool, false, not, ◌||◌, Option, none, some, List, [], ◌∷◌,
}
use pookie_chat.Domain.Text.{Text}
use pookie_chat.Domain.SessionEpoch.{is_stale_epoch, is_usable_for_handshake}
use pookie_chat.Server.{
  M, ◌>>=◌, ◌>>◌, pure, get, modify, require, or_throw, forbidden, not_found, conflict,
}
use pookie_chat.Server.Rows.{ConversationRow, HandshakeRow}
use pookie_chat.Server.Database.{has_conversation_id, Database, Context}

abbrev pub is_past : ℕ → Option ℕ → Bool
is_past now none = false
is_past now (some t) = leb t now

abbrev pub is_of_conversation : ℕ → HandshakeRow → Bool
is_of_conversation id h = h.conversation_id == id

abbrev pub is_unavailable : ℕ → ConversationRow → Bool
is_unavailable now convo =
    not (is_usable_for_handshake convo.status) || is_past now convo.expires_at

-- `pendingHandshake.upsert({ where: { conversationId } })`
unfoldable pub upsert_handshake : HandshakeRow → List HandshakeRow → List HandshakeRow
upsert_handshake row [] = row ∷ []
upsert_handshake row (h ∷ hs) =
    let rest = upsert_handshake row hs in
    if h.conversation_id == row.conversation_id then row ∷ hs else h ∷ rest

abbrev pub other_user : ℕ → ConversationRow → ℕ
other_user user convo = if convo.user_a_id == user then convo.user_b_id else convo.user_a_id

unfoldable pub store : Context → ℕ → ℕ → Text → Option ℕ → M Database (Unit {0})
store c user conversation_id payload session_epoch = do
  db ← get
  convo ←
      or_throw (find (has_conversation_id conversation_id) db.conversations)
        (not_found "Conversation not found")
  require (convo.user_a_id == user || convo.user_b_id == user) (forbidden "Forbidden")
  require (not (is_unavailable c.now convo)) (forbidden "Conversation not available")
  require (not (is_stale_epoch session_epoch convo.session_epoch))
      (conflict "This pairing has been superseded — request a fresh pairing code and try again.")
  modify (λ db'. record db' {
    handshakes =
        upsert_handshake
          (record {
            conversation_id = conversation_id;
            recipient_user_id = other_user user convo;
            payload = payload;
            session_epoch = convo.session_epoch;
          })
          db'.handshakes;
  })

pub record Fetched : Type 0 where
  pub handshake_message : Text
  pub session_epoch : ℕ

unfoldable pub fetch : Context → ℕ → ℕ → M Database Fetched
fetch c user conversation_id = do
  db ← get
  convo ←
      or_throw (find (has_conversation_id conversation_id) db.conversations)
        (not_found "No pending handshake")
  require (not (is_unavailable c.now convo)) (not_found "No pending handshake")
  waiting ←
      or_throw (find (is_of_conversation conversation_id) db.handshakes)
        (not_found "No pending handshake")
  require (waiting.recipient_user_id == user) (not_found "No pending handshake")
  require (not (is_stale_epoch (some waiting.session_epoch) convo.session_epoch))
      (not_found "No pending handshake")
  pure (record { handshake_message = waiting.payload; session_epoch = waiting.session_epoch })
