-- ===== src/Messages/Corrections.antt =====
-- A deletion or an edit reaches the other user by `sync`, also where the message was synced before.
use pookie_chat.Prelude.{
  find, update, drop, changed, ℕ, ◌≤◌, ◌<◌, ◌≡◌, refl, ap, ◌∙◌, subst, ◌≢◌, true, false, Option,
  none, some, List, [], ◌++◌, arith,
}
use pookie_chat.Domain.Text.{Text}
use pookie_chat.Server.{ok}
use pookie_chat.Server.Rows.{ConversationRow, MessageRow}
use pookie_chat.Server.Database.{
  has_conversation_id, push_to_user, message_deleted, message_edited, Database, Context,
}
use pookie_chat.Handshake.{is_past, other_user}
use pookie_chat.Conversations.Tables.{is_available, is_part}
use pookie_chat.Messages.Tables.{has_message_id, Rounds, now_stored, bump_loop, delete_for_message}
use pookie_chat.Messages.Versions.{top_version, Bumped, bump_loop-Bumped, bump_loop-ok}
use pookie_chat.Messages.Changes.{is_sent_by, tombstone, edited, delete_message, edit_message}
use pookie_chat.Messages.Reaching.{
  IsTold, changed-IsTold, delete_for_message-messages, delete_for_message-conversations,
}

own_message :
    (user : ℕ) (o : Option MessageRow) (m : MessageRow)
    → o ≡ some m
    → m.sender_id ≡ user
    → is_sent_by user o ≡ some m
own_message user o m e own = rw e (ground (arith, own))

-- The loop returns, and what it leaves.
bumped :
    (id conversation : ℕ) (data_ : ℕ → MessageRow → MessageRow) (n : ℕ) (rounds : Rounds)
    (db : Database)
    → n < 5
    → now_stored (drop n rounds) ≡ []
    → (version : ℕ) × (after : Database) × (bump_loop id conversation data_ 5 rounds db
        ≡ (ok version, after))
      × Bumped id conversation data_ db (ok version, after)
bumped id conversation data_ n rounds db few quiet =
    let (version, after, e) = bump_loop-ok id conversation data_ 5 n rounds db few quiet in
    (
      version,
      after,
      e,
      subst (Bumped id conversation data_ db) e
          (bump_loop-Bumped id conversation data_ 5 rounds db),
    )

module _ (c : Context) (user id : ℕ) (db : Database) (m : MessageRow) (convo : ConversationRow)
    (found : find (has_message_id id) db.chat_messages ≡ some m) (own : m.sender_id ≡ user)
    (home : find (has_conversation_id m.conversation_id) db.conversations ≡ some convo)
    (current : is_past c.now convo.expires_at ≡ false) where
  -- A sender's edit of a message that is not deleted returns, if one of its five attempts meets no
  -- message of another request; and whatever version the other user has synced to before, the next
  -- `sync` of that user has the message with its new content, while the conversation is active and
  -- neither it nor the message has expired.
  pub edit-sync :
      (ciphertext iv : Text) (rounds : Rounds) (n : ℕ) (later : Context) (other seen : ℕ)
      → m.deleted_at ≡ none
      → n < 5
      → now_stored (drop n rounds) ≡ []
      → seen ≤ top_version m.conversation_id db.chat_messages
      → is_part other convo ≡ true
      → other ≢ user
      → is_available convo.status ≡ true
      → is_past later.now convo.expires_at ≡ false
      → is_past later.now m.disappear_at ≡ false
      → (after : Database) × (edit_message c user id ciphertext iv rounds db ≡ (ok tt, after))
        × (version : ℕ) × IsTold later other m.conversation_id seen
            (edited c ciphertext iv version m)
            after
  unfolding edit_message push_to_user
  edit-sync ciphertext iv rounds n later other seen kept few quiet old part apart live running
        there =
      let data_ = edited c ciphertext iv in
      let (version, bumped_db, e, (others, changed, above)) =
        bumped id m.conversation_id data_ n rounds db few quiet in
      (
        _,
        rw (own_message user _ m found own, kept, home, current, e) refl,
        version,
        changed-IsTold id m convo data_ version others db
            (push_to_user (other_user user convo) (message_edited id m.conversation_id version)
              bumped_db)
            found home above (λ r. refl) (ap (λ (d : Database). d.chat_messages) changed)
            (ap (λ (d : Database). d.conversations) changed) later other seen old part live running
            (λ more. ground (arith, own, apart, there, more)),
      )

  -- A sender's deletion of a message returns, if one of its five attempts meets no message of
  -- another request; and whatever version the other user has synced to before, the next `sync` of
  -- that user has the message as deleted and without its content, while the conversation is active
  -- and has not expired.
  pub delete-sync :
      (rounds : Rounds) (n : ℕ) (later : Context) (other seen : ℕ)
      → n < 5
      → now_stored (drop n rounds) ≡ []
      → seen ≤ top_version m.conversation_id db.chat_messages
      → is_part other convo ≡ true
      → other ≢ user
      → is_available convo.status ≡ true
      → is_past later.now convo.expires_at ≡ false
      → (after : Database) × (delete_message c user id rounds db ≡ (ok tt, after))
        × (version : ℕ) × IsTold later other m.conversation_id seen (tombstone c version m) after
  unfolding delete_message push_to_user
  delete-sync rounds n later other seen few quiet old part apart live running =
      let cleared = delete_for_message id db in
      let (version, bumped_db, e, (others, changed, above)) =
        bumped id m.conversation_id (tombstone c) n rounds cleared few quiet in
      let same = delete_for_message-messages id db in
      (
        _,
        rw (own_message user _ m found own, home, current, e) refl,
        version,
        changed-IsTold id m convo (tombstone c) version others db
            (push_to_user (other_user user convo) (message_deleted id m.conversation_id) bumped_db)
            found home
            (subst (λ (ms : List MessageRow). top_version m.conversation_id ms < version) same
              above)
            (λ r. refl)
            (ap (λ (d : Database). d.chat_messages) changed
              ∙ ap (λ ms. update (has_message_id id) (tombstone c version) (ms ++ others)) same)
            (ap (λ (d : Database). d.conversations) changed
              ∙ delete_for_message-conversations id db)
            later other seen old part live running (λ more. ground (arith, own, apart, more)),
      )
