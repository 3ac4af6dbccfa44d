-- ===== src/Conversations/Blocking.antt =====
-- `block` followed by `unblock`.
use pookie_chat.Prelude.{
  find, find_holds, find-update, update-update, ℕ, ◌≡◌, refl, ap, ◌∙◌, true, false, some, arith,
}
use pookie_chat.Server.{ok}
use pookie_chat.Server.Rows.{active, ConversationRow}
use pookie_chat.Server.Database.{has_conversation_id, Database, Context}
use pookie_chat.Handshake.{is_past}
use pookie_chat.Conversations.Tables.{is_part, update_conversation, with_status, owned_conversation}
use pookie_chat.Conversations.{blocked_by, is_blocked_by, block, unblock}
use pookie_chat.Domain.SessionEpoch.{ConversationStatus, active}

blocked_by-is_blocked :
    (user : ℕ) (convo : ConversationRow)
    → is_part user convo ≡ true
    → is_blocked_by user (with_status (blocked_by user convo) convo) ≡ true
blocked_by-is_blocked user convo part = ground arith

module _ (c : Context) (user id : ℕ) where
  -- A conversation that has not expired is handed out as it is.
  pub owned-current :
      (db : Database) (convo : ConversationRow)
      → find (has_conversation_id id) db.conversations ≡ some convo
      → is_part user convo ≡ true
      → is_past c.now convo.expires_at ≡ false
      → owned_conversation c user id db ≡ (ok convo, db)
  unfolding owned_conversation
  owned-current db convo found part current = rw (found, part, current) refl

  block-current :
      (db : Database) (convo : ConversationRow)
      → find (has_conversation_id id) db.conversations ≡ some convo
      → is_part user convo ≡ true
      → is_past c.now convo.expires_at ≡ false
      → block c user id db
        ≡ (ok tt, update_conversation id (with_status (blocked_by user convo)) db)
  unfolding block
  block-current db convo found part current = rw (owned-current db convo found part current) refl

  unblock-current :
      (db : Database) (convo : ConversationRow)
      → find (has_conversation_id id) db.conversations ≡ some convo
      → is_part user convo ≡ true
      → is_past c.now convo.expires_at ≡ false
      → is_blocked_by user convo ≡ true
      → unblock c user id db ≡ (ok tt, update_conversation id (with_status active) db)
  unfolding unblock
  unblock-current db convo found part current blocked =
      rw (owned-current db convo found part current, blocked) refl

  found_after :
      (db : Database) (convo : ConversationRow) (status : ConversationStatus)
      → find (has_conversation_id id) db.conversations ≡ some convo
      → find (has_conversation_id id) (update_conversation id (with_status status) db).conversations
        ≡ some (with_status status convo)
  unfolding update_conversation
  found_after db convo status found =
      find-update (has_conversation_id id) (has_conversation_id id) (with_status status) (λ r. refl)
        db.conversations
      ∙ rw (found, find_holds (has_conversation_id id) db.conversations convo found) refl

  update_twice :
      (db : Database) (first second : ConversationStatus)
      → update_conversation id (with_status second) (update_conversation id (with_status first) db)
        ≡ update_conversation id (with_status second) db
  unfolding update_conversation
  update_twice db first second =
      ap (λ rows. record db { conversations = rows })
        (update-update (has_conversation_id id) (with_status first) (with_status second) (λ r. refl)
          db.conversations)

  -- A user of a conversation that has not expired makes it active by blocking and unblocking it,
  -- whatever its status was, and changes nothing else: the block of the other user is lifted by it,
  -- and a conversation that was burned is active again in its old session epoch.
  pub block-unblock :
      (db : Database) (convo : ConversationRow)
      → find (has_conversation_id id) db.conversations ≡ some convo
      → is_part user convo ≡ true
      → is_past c.now convo.expires_at ≡ false
      → unblock c user id (block c user id db).1
        ≡ (ok tt, update_conversation id (with_status active) db)
  block-unblock db convo found part current = rw (block-current db convo found part current) (
      unblock-current (update_conversation id (with_status (blocked_by user convo)) db)
        (with_status (blocked_by user convo) convo) (found_after db convo _ found) part current
        (blocked_by-is_blocked user convo part)
      ∙ rw (update_twice db (blocked_by user convo) active) refl)
