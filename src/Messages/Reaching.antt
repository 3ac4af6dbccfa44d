-- ===== src/Messages/Reaching.antt =====
-- `deleteMessage` and `editMessage` return, and `sync` tells the other user.
use mathlib.Core.List.{Mem, mem-cons_self, mem-cons_of_mem, mem-map_of_mem}
use mathlib.Core.List.Perm
use pookie_chat.Prelude.{
  ◌==◌, Bool-cases, Option-cases, find, keep, update, find_holds, find-append, find-keep, changed,
  find-update, ℕ, ◌≤◌, ◌<◌, ◌≡◌, refl, ap, ◌∙◌, inl, inr, Bool, true, false, some, List, [], ◌∷◌,
  ◌++◌, map, arith,
}
use pookie_chat.Domain.MessageState.{sort_by}
use pookie_chat.Domain.MessageState.SyncGap.{sort_by-perm}
use pookie_chat.Server.{ok}
use pookie_chat.Server.Rows.{ConversationRow, MessageRow}
use pookie_chat.Server.Database.{has_conversation_id, Database, Context}
use pookie_chat.Handshake.{is_past}
use pookie_chat.Conversations.Tables.{is_available, is_part}
use pookie_chat.Messages.Tables.{
  has_message_id, is_of_message, delete_for_message, active_conversation,
}
use pookie_chat.Messages.Sync.{synced, is_missing, sync, Synced}
use pookie_chat.Messages.Versions.{top_version}

find-Mem {ℓ} : {A : Type ℓ} (p : A → Bool) (xs : List A) (a : A) → find p xs ≡ some a → Mem a xs
unfolding find
find-Mem p [] a e = cc
find-Mem p (x ∷ xs) a e = elim (Bool-cases (p x)) [
  | inl fits ↦ rw (← found_head fits) mem-cons_self
  | inr not_fits ↦ mem-cons_of_mem x (find-Mem p xs a (ground (arith, e, not_fits)))
]
  where
    found_head : p x ≡ true → x ≡ a
    found_head fits = ground (arith, e, fits)

module _ (c : Context) (user conversation seen : ℕ) where
  -- The query of `sync`, with the conversation looked up.
  pub sync_returns :
      (db : Database) (convo : ConversationRow)
      → find (has_conversation_id conversation) db.conversations ≡ some convo
      → is_part user convo ≡ true
      → is_available convo.status ≡ true
      → is_past c.now convo.expires_at ≡ false
      → (after : Database) × (sync c user conversation seen db ≡ (
        ok (
            map (synced c user) (
              sort_by
                (λ (m : MessageRow). m.sync_version)
                (keep (is_missing c user conversation seen) db.chat_messages))),
        after,
      ))
  unfolding sync active_conversation
  sync_returns db convo found part live current = rw (found, part, live, current) (_, refl)

  pub sync_has :
      (db : Database) (p : MessageRow → Bool) (m : MessageRow)
      → find p db.chat_messages ≡ some m
      → is_missing c user conversation seen m ≡ true
      → Mem (synced c user m) (
          map (synced c user) (
            sort_by
              (λ (m : MessageRow). m.sync_version)
              (keep (is_missing c user conversation seen) db.chat_messages)))
  sync_has db p m found missing = mem-map_of_mem (synced c user) (
      ((Perm.mem_iff (sort_by-perm (λ (m : MessageRow). m.sync_version) _)).1 (
        find-Mem p _ m
          (find-keep p (is_missing c user conversation seen) db.chat_messages m found missing))))

-- The answer of `sync` has the message as it is now.
abbrev pub IsTold : Context → (other conversation seen : ℕ) → MessageRow → Database → Type 0
IsTold c other conversation seen m db =
    (out : List Synced) × (after : Database) × (sync c other conversation seen db ≡ (ok out, after))
    × Mem (synced c other m) out

module _ (id : ℕ) (m : MessageRow) (convo : ConversationRow) (data_ : ℕ → MessageRow → MessageRow)
    (version : ℕ) (others : List MessageRow) (db after : Database)
    (found : find (has_message_id id) db.chat_messages ≡ some m)
    (home : find (has_conversation_id m.conversation_id) db.conversations ≡ some convo)
    (above : top_version m.conversation_id db.chat_messages < version)
    (keeps_id : (r : MessageRow) → (data_ version r).id ≡ r.id)
    (messages : after.chat_messages
      ≡ update (has_message_id id) (data_ version) (db.chat_messages ++ others))
    (conversations : after.conversations ≡ db.conversations) where
  changed_found : find (has_message_id id) after.chat_messages ≡ some (data_ version m)
  changed_found =
      ap (find (has_message_id id)) messages
      ∙ find-update (has_message_id id) (has_message_id id) (data_ version)
          (λ r. ap (λ (k : ℕ). k == id) (keeps_id r)) (db.chat_messages ++ others)
      ∙ ap (changed (has_message_id id) (data_ version))
          (find-append (has_message_id id) db.chat_messages others m found)
      ∙ rw (find_holds (has_message_id id) db.chat_messages m found) refl

  -- Whatever the other user had seen before.
  pub changed-IsTold :
      (c : Context) (other seen : ℕ)
      → seen ≤ top_version m.conversation_id db.chat_messages
      → is_part other convo ≡ true
      → is_available convo.status ≡ true
      → is_past c.now convo.expires_at ≡ false
      → (seen < version → is_missing c other m.conversation_id seen (data_ version m) ≡ true)
      → IsTold c other m.conversation_id seen (data_ version m) after
  changed-IsTold c other seen old part live current missing =
      let (last, e) =
        sync_returns c other m.conversation_id seen after convo
          (ap (find (has_conversation_id m.conversation_id)) conversations ∙ home) part live
          current in
      (
        _,
        last,
        e,
        sync_has c other m.conversation_id seen after (has_message_id id) (data_ version m)
            changed_found (missing (omega (arith, old, above))),
      )

pub delete_for_message-messages :
    (id : ℕ) (db : Database) → (delete_for_message id db).chat_messages ≡ db.chat_messages
unfolding delete_for_message
delete_for_message-messages id db = elim (Option-cases (find (is_of_message id) db.attachments)) [
  | inl nothing ↦ rw nothing refl
  | inr (a, found) ↦ rw found refl
]

pub delete_for_message-conversations :
    (id : ℕ) (db : Database) → (delete_for_message id db).conversations ≡ db.conversations
unfolding delete_for_message
delete_for_message-conversations id db =
    elim (Option-cases (find (is_of_message id) db.attachments)) [
      | inl nothing ↦ rw nothing refl
      | inr (a, found) ↦ rw found refl
    ]
