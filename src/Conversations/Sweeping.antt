-- ===== src/Conversations/Sweeping.antt =====
-- What ending a list of conversations leaves: the sweep of temporary chats in messages.service.ts,
-- and `list` of conversations.service.ts, which ends what is due of its user.
use pookie_chat.Prelude.{
  ◌==◌, if◌then◌else◌, ==_refl, find, keep, any, all, update, All, ℕ, ◌≡◌, refl, sym, ap, ◌∙◌, Bool,
  true, false, ◌||◌, none, List, [], ◌∷◌, arith,
}
use pookie_chat.Domain.SessionEpoch.{deleted}
use pookie_chat.Server.Rows.{ConversationRow, HandshakeRow, deleted, MessageRow, AttachmentRow}
use pookie_chat.Server.Database.{has_conversation_id, Database}
use pookie_chat.Conversations.Tables.{with_status, expire, expire_all}
use pookie_chat.Conversations.Burning.{expire-IsGone}

-- A conversation of the list has the id.
abbrev pub is_among : List ConversationRow → ℕ → Bool
is_among rows id = any (has_conversation_id id) rows

-- The contents of what was ended are gone, all others are as before.
pub record AreGone (ended : ℕ → Bool) (db after : Database) : Type 0 where
  pub messages :
      (other : ℕ)
      → keep (λ (m : MessageRow). m.conversation_id == other) after.chat_messages ≡ (
          if ended other
          then []
          else keep (λ (m : MessageRow). m.conversation_id == other) db.chat_messages)
  pub attachments :
      (other : ℕ)
      → keep (λ (a : AttachmentRow). a.conversation_id == other) after.attachments ≡ (
          if ended other
          then []
          else keep (λ (a : AttachmentRow). a.conversation_id == other) db.attachments)
  pub handshakes :
      (other : ℕ)
      → keep (λ (h : HandshakeRow). h.conversation_id == other) after.handshakes ≡ (
          if ended other
          then []
          else keep (λ (h : HandshakeRow). h.conversation_id == other) db.handshakes)
  pub conversations :
      after.conversations ≡ update (λ r. ended r.id) (with_status deleted) db.conversations

or_else {ℓ} :
    {A : Type ℓ} (id other : ℕ) (b : Bool) (xs ys zs : List A)
    → zs ≡ (if b then [] else ys)
    → ys ≡ (if other == id then [] else xs)
    → zs ≡ (if id == other || b then [] else xs)
or_else id other true xs ys zs e h = ground (arith, e, h)
or_else id other false xs ys zs e h = ground (arith, e, h)

update-among :
    (ended : ℕ → Bool) (id : ℕ) (rows : List ConversationRow)
    → update
        (λ r. ended r.id)
        (with_status deleted)
        (update (has_conversation_id id) (with_status deleted) rows)
      ≡ update (λ r. id == r.id || ended r.id) (with_status deleted) rows
unfolding update
update-among ended id [] = refl
update-among ended id (r ∷ rs) = ground (arith, update-among ended id rs)

update_none : (rows : List ConversationRow) → update (λ r. false) (with_status deleted) rows ≡ rows
unfolding update
update_none [] = refl
update_none (r ∷ rs) = rw (update_none rs) refl

pub expire_all-AreGone :
    (rows : List ConversationRow) (db : Database) → AreGone (is_among rows) db (expire_all rows db)
unfolding expire_all any
expire_all-AreGone [] db = record {
  messages = λ other. refl;
  attachments = λ other. refl;
  handshakes = λ other. refl;
  conversations = sym (update_none db.conversations);
}
expire_all-AreGone (r ∷ rs) db =
    let first = expire-IsGone r db in
    let rest = expire_all-AreGone rs (expire r db) in
    record {
      messages = λ other.
          or_else r.id other (is_among rs other) _ _ _ (rest.messages other) (first.messages other);
      attachments = λ other.
          or_else r.id other (is_among rs other) _ _ _ (rest.attachments other)
            (first.attachments other);
      handshakes = λ other.
          or_else r.id other (is_among rs other) _ _ _ (rest.handshakes other)
            (first.handshakes other);
      conversations =
          rest.conversations
          ∙ ap (update (λ s. is_among rs s.id) (with_status deleted)) first.conversations
          ∙ update-among (is_among rs) r.id db.conversations;
    }

-- The rows that pass a test are ended, so that none is left which does.
among_self :
    (p : ConversationRow → Bool) (all rows : List ConversationRow)
    → ((id : ℕ) → is_among (keep p rows) id ≡ true → is_among all id ≡ true)
    → All (λ r. p r ≡ true → is_among all r.id ≡ true) rows
unfolding any keep
among_self p all [] sub = tt
among_self p all (r ∷ rs) sub = (
  λ h. sub r.id (ground (arith, h, ==_refl r.id)),
  among_self p all rs (λ id h. sub id (ground (arith, h))),
)

none_left :
    (p : ConversationRow → Bool) (ended : ℕ → Bool) (rows : List ConversationRow)
    → ((r : ConversationRow) → p (with_status deleted r) ≡ false)
    → All (λ r. p r ≡ true → ended r.id ≡ true) rows
    → find p (update (λ r. ended r.id) (with_status deleted) rows) ≡ none
unfolding find update
none_left p ended [] gone h = refl
none_left p ended (r ∷ rs) gone (h, hs) = ground (arith, gone r, h, none_left p ended rs gone hs)

pub expire_all-none :
    (p : ConversationRow → Bool) (db : Database)
    → ((r : ConversationRow) → p (with_status deleted r) ≡ false)
    → find p (expire_all (keep p db.conversations) db).conversations ≡ none
expire_all-none p db gone =
    let ended = expire_all-AreGone (keep p db.conversations) db in
    rw ended.conversations (
      none_left p (is_among (keep p db.conversations)) db.conversations gone
        (among_self p (keep p db.conversations) db.conversations (λ id h. h)))
