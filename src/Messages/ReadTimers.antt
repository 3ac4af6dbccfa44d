-- ===== src/Messages/ReadTimers.antt =====
-- The timers that run from the reading of a message, where its reader shows no receipts.
use pookie_chat.Prelude.{
  ◌==◌, find, keep, update, ℕ, ◌≡◌, refl, ◌∙◌, ◌≢◌, Bool, true, false, Option, none, some, List, [],
  ◌∷◌, map, arith,
}
use pookie_chat.Domain.MessageState.{resolve_disappear_trigger, sort_by, Trigger, Timestamps}
use pookie_chat.Server.Rows.{ConversationRow, MessageRow}
use pookie_chat.Server.Database.{has_conversation_id, push_to_user, Database, Context}
use pookie_chat.Handshake.{is_past}
use pookie_chat.Conversations.Tables.{is_available, is_part}
use pookie_chat.Conversations.Listing.{settings_of}
use pookie_chat.Messages.Tables.{
  has_message_id, update_message, active_conversation, same_trigger, disappear_on, with_disappear,
}
use pookie_chat.Messages.Sync.{is_missing, is_undelivered, mark_all, sync, read_by, mark_read}
use pookie_chat.Messages.{receipts_enabled, delivered_by}

-- When each message disappears.
abbrev pub timers : Database → List (Option ℕ)
timers db = map (λ (m : MessageRow). m.disappear_at) db.chat_messages

timers-update :
    (p : MessageRow → Bool) (f : MessageRow → MessageRow) (ms : List MessageRow)
    → ((m : MessageRow) → (f m).disappear_at ≡ m.disappear_at)
    → map (λ (m : MessageRow). m.disappear_at) (update p f ms)
      ≡ map (λ (m : MessageRow). m.disappear_at) ms
unfolding update
timers-update p f [] same = refl
timers-update p f (m ∷ ms) same = ground (arith, same m, timers-update p f ms same)

-- A timer that runs from another event is not set by this one.
disappear_on_other :
    (event trigger : Trigger) (seconds : Option ℕ) (stamps : Timestamps)
    → same_trigger trigger event ≡ false
    → disappear_on event seconds (some trigger) stamps ≡ none
unfolding disappear_on
disappear_on_other event trigger none stamps other = refl
disappear_on_other event trigger (some seconds) stamps other = rw other refl

with_disappear-none :
    (t : Option ℕ) (m : MessageRow) → t ≡ none → (with_disappear t m).disappear_at ≡ m.disappear_at
with_disappear-none t m e = rw e refl

module _ (c : Context) (user : ℕ) (convo : ConversationRow)
    (on_read : convo.disappearing_trigger ≡ some Trigger.read) where
  delivered_keeps : (m : MessageRow) → (delivered_by c.now convo m).disappear_at ≡ m.disappear_at
  delivered_keeps m =
      with_disappear-none _ (record m { delivered_at = some c.now })
        (rw on_read (
          disappear_on_other Trigger.delivered Trigger.read convo.disappearing_timer_seconds _
            refl))

  read_keeps : (m : MessageRow) → (read_by c user false convo m).disappear_at ≡ m.disappear_at
  unfolding resolve_disappear_trigger
  read_keeps m =
      with_disappear-none _ (record m { read_at = some c.now })
        (rw on_read (
          disappear_on_other Trigger.read Trigger.delivered convo.disappearing_timer_seconds _
            refl))

  mark_all_keeps :
      (ms : List MessageRow) (db : Database) → timers (mark_all c user convo ms db) ≡ timers db
  unfolding mark_all update_message push_to_user
  mark_all_keeps [] db = refl
  mark_all_keeps (m ∷ ms) db =
      mark_all_keeps ms _
      ∙ timers-update (has_message_id m.id) (delivered_by c.now convo) db.chat_messages
          delivered_keeps

  module _ (db : Database)
      (home : find (has_conversation_id convo.id) db.conversations ≡ some convo)
      (part : is_part user convo ≡ true) (current : is_past c.now convo.expires_at ≡ false)
      (hidden : receipts_enabled (settings_of user db) ≡ false) where
    -- In a conversation whose messages are to disappear some time after they are read, a reader who
    -- shows no receipts sets no timer while it has not expired: neither the delivery of all messages
    -- by `sync` nor the reading of any message changes when a message disappears.
    pub read_timers_stand :
        (seen id : ℕ) (m : MessageRow)
        → is_available convo.status ≡ true
        → find (has_message_id id) db.chat_messages ≡ some m
        → m.sender_id ≢ user
        → m.conversation_id ≡ convo.id
        → (timers (sync c user convo.id seen db).1 ≡ timers db)
          × (timers (mark_read c user id db).1 ≡ timers db)
    unfolding sync active_conversation mark_read push_to_user update_message
    read_timers_stand seen id m live found foreign place =
        let apart : (m.sender_id == user) ≡ false = ground (arith, foreign) in
        let at_home : find (has_conversation_id m.conversation_id) db.conversations ≡ some convo =
          rw place home in
        (
          rw (home, part, live, current)
              (mark_all_keeps
                (keep (is_undelivered c user) (
                  sort_by (λ (k : MessageRow). k.sync_version)
                    (keep (is_missing c user convo.id seen) db.chat_messages)))
                db),
          rw (found, apart, at_home, part, current, hidden)
              (timers-update (has_message_id id) (read_by c user false convo) db.chat_messages
                read_keeps),
        )
