-- ===== src/ConversationRequests/Expired.antt =====
-- A request that is accepted where the two had a temporary conversation.
use pookie_chat.Prelude.{
  ==_refl, find, find-update, ℕ, ◌≡◌, refl, ap, ◌∙◌, subst, true, some, arith,
}
use pookie_chat.Server.{forbidden, ok, err}
use pookie_chat.Server.Rows.{ConversationRow, ConversationRequestRow}
use pookie_chat.Server.Database.{has_conversation_id, Database, Context}
use pookie_chat.Handshake.{is_past}
use pookie_chat.Conversations.Tables.{is_available, is_part, expire}
use pookie_chat.Messages.Tables.{active_conversation}
use pookie_chat.Messages.Sync.{sync}
use pookie_chat.ConversationRequests.{has_request_id, accept_request, Accepted}
use pookie_chat.ConversationRequests.Acceptance.{
  is_theirs, renew, IsAnswered, accept_request-IsAnswered,
}

sync_over :
    (c : Context) (user conversation seen : ℕ) (db : Database) (convo : ConversationRow)
    → find (has_conversation_id conversation) db.conversations ≡ some convo
    → is_part user convo ≡ true
    → is_available convo.status ≡ true
    → is_past c.now convo.expires_at ≡ true
    → sync c user conversation seen db
      ≡ (err (forbidden "Conversation has expired"), expire convo db)
unfolding sync active_conversation
sync_over c user conversation seen db convo found part live over = rw (found, part, live, over) refl

-- The acceptance of a request between two users whose earlier temporary conversation has expired
-- returns a conversation that nobody can use: the first `sync` of either is refused as expired, and
-- deletes it again.
pub accept_request-over :
    (c : Context) (user id : ℕ) (db after : Database) (req : ConversationRequestRow)
    (out : Accepted) (existing : ConversationRow) (later : Context) (someone seen : ℕ)
    → find (has_request_id id) db.conversation_requests ≡ some req
    → find (is_theirs req.sender_id user) db.conversations ≡ some existing
    → find (has_conversation_id existing.id) db.conversations ≡ some existing
    → accept_request c user id db ≡ (ok out, after)
    → is_past later.now existing.expires_at ≡ true
    → is_part someone existing ≡ true
    → sync later someone existing.id seen after
      ≡ (err (forbidden "Conversation has expired"), expire (renew existing) after)
accept_request-over c user id db after req out existing later someone seen asked theirs by_id
      success over part =
    let accepted =
      subst (IsAnswered c user id db) success (accept_request-IsAnswered c user id db) in
    let same : accepted.req ≡ req = ground (arith, accepted.found, asked) in
    let rows = accepted.opened.only_theirs existing (
      ap (λ (r : ConversationRequestRow). find (is_theirs r.sender_id user) db.conversations) same
      ∙ theirs) in
    sync_over later someone existing.id seen after (renew existing)
      (ap (find (has_conversation_id existing.id)) rows
        ∙ find-update (has_conversation_id existing.id) (has_conversation_id existing.id) renew
            (λ r. refl) db.conversations
        ∙ rw (by_id, ==_refl existing.id) refl)
      part refl over
