-- ===== src/Conversations/Extending.antt =====
-- `extendTemporaryChat`: who may extend, and by how much.
use pookie_chat.Prelude.{
  ltb, leb, find, update, ℕ, ◌+◌, ◌*◌, ◌≤◌, ◌<◌, ◌≡◌, refl, sym, subst, inl, inr, true, not, some,
  [], ◌∷◌, arith,
}
use pookie_chat.Server.{
  M, ◌>>=◌, ◌>>◌, pure, modify, require, or_throw, bad_request, forbidden, Result, ok, err,
}
use pookie_chat.Server.Reason.{at_require, at_or_throw, at_bind}
use pookie_chat.Server.Rows.{ConversationRow}
use pookie_chat.Server.Database.{
  has_conversation_id, push_to_users, temporary_chat_expiry_updated, Database, Context,
}
use pookie_chat.Conversations.Tables.{is_deleted, update_conversation, owned_conversation}
use pookie_chat.Conversations.{max_lifetime_ms, is_creator, extend_temporary_chat}
use pookie_chat.Conversations.Burning.{HasEnded, Owned, owned_conversation-Owned}

module _ (c : Context) (user id duration : ℕ) where
  -- What a success tells.
  pub record HasExtended (db : Database) (later : ℕ) (after : Database) : Type 0 where
    pub row : ConversationRow
    pub found : find (has_conversation_id id) db.conversations ≡ some row
    pub creator : row.temporary_creator_user_id ≡ some user
    pub earlier : ℕ
    pub temporary : row.expires_at ≡ some earlier
    pub running : c.now < earlier
    pub exact : later ≡ earlier + duration * 1000
    pub grows : earlier < later
    pub bounded : later ≤ c.now + 90 * 24 * 60 * 60 * 1000
    pub conversations :
        after.conversations
        ≡ update
            (has_conversation_id id)
            (λ r. record r { expires_at = some later })
            db.conversations
    pub messages : after.chat_messages ≡ db.chat_messages

  abbrev pub IsExtended : Database → Result ℕ × Database → Type 0
  IsExtended db (ok later, after) = HasExtended db later after
  IsExtended db (err e, after) = HasEnded c user id db after

  -- What follows the look at the conversation.
  abbrev extend_owned : ConversationRow → M Database ℕ
  extend_owned convo = do
    require (not (is_deleted convo.status)) (bad_request "Conversation has already expired")
    expires_at ←
        or_throw convo.expires_at
          (bad_request "This conversation is permanent and cannot be extended")
    require (not (leb expires_at c.now)) (bad_request "Conversation has already expired")
    require (is_creator user convo)
        (forbidden "Only the creator of the temporary chat can extend its duration")
    require (ltb 0 duration)
        (bad_request "Extension duration must be a positive integer in seconds")
    let later = expires_at + duration * 1000
    require (not (ltb (c.now + max_lifetime_ms) later))
        (bad_request "Total lifetime cannot exceed 90 days from now")
    modify (update_conversation id (λ r. record r { expires_at = some later }))
    modify (
        push_to_users (convo.user_a_id ∷ convo.user_b_id ∷ [])
          (temporary_chat_expiry_updated id later))
    pure later

  is_creator_lem :
      (convo : ConversationRow)
      → is_creator user convo ≡ true
      → convo.temporary_creator_user_id ≡ some user
  is_creator_lem convo h = ground arith

  extend_live :
      (db : Database) (convo : ConversationRow)
      → find (has_conversation_id id) db.conversations ≡ some convo
      → IsExtended db (extend_owned convo db)
  unfolding update_conversation push_to_users
  extend_live db convo found =
      at_require (IsExtended db) (not (is_deleted convo.status)) _ _ db (inl refl) λ live.
        at_or_throw (IsExtended db) convo.expires_at _ _ db (inl refl) λ earlier temporary.
          at_require (IsExtended db) (not (leb earlier c.now)) _ _ db (inl refl) λ running.
            at_require (IsExtended db) (is_creator user convo) _ _ db (inl refl) λ creator.
              at_require (IsExtended db) (ltb 0 duration) _ _ db (inl refl) λ positive.
                at_require (IsExtended db)
                  (not (ltb (c.now + max_lifetime_ms) (earlier + duration * 1000))) _ _ db
                  (inl refl)
                  λ bounded. record {
                    row = convo;
                    found = found;
                    creator = is_creator_lem convo creator;
                    earlier = earlier;
                    temporary = temporary;
                    running = ground arith;
                    exact = refl;
                    grows = ground arith;
                    bounded = ground arith;
                    conversations = refl;
                    messages = refl;
                  }

  extend_ended :
      (db middle : Database) (convo : ConversationRow)
      → HasEnded c user id db middle
      → is_deleted convo.status ≡ true
      → IsExtended db (extend_owned convo middle)
  extend_ended db middle convo ended gone = rw gone ended

  extend_owned-IsExtended :
      (db middle : Database) (convo : ConversationRow)
      → Owned c user id db (ok convo, middle)
      → IsExtended db (extend_owned convo middle)
  extend_owned-IsExtended db middle convo (ended, row, inl (same, found)) =
      subst (λ (d : Database). IsExtended db (extend_owned convo d)) (sym same)
        (extend_live db convo found)
  extend_owned-IsExtended db middle convo (ended, row, inr gone) =
      extend_ended db middle convo ended gone

  -- `extendTemporaryChat`: where it returns, its caller created the temporary chat, whose time had
  -- not passed; the new instant is the old one and the duration, so later than the old one, and at
  -- most ninety days from now; only that has changed in the conversations. Where it fails, nothing
  -- has changed, unless the conversation had expired and is ended by that.
  pub extend_temporary_chat-IsExtended :
      (db : Database) → IsExtended db (extend_temporary_chat c user id duration db)
  unfolding extend_temporary_chat
  extend_temporary_chat-IsExtended db =
      at_bind (IsExtended db) (Owned c user id db) (owned_conversation c user id db) extend_owned
        (owned_conversation-Owned c user id db) (λ e s h. inl h)
        (λ convo s h. extend_owned-IsExtended db s convo h)
