-- ===== src/Messages/Tables.antt =====
-- The queries of apps/backend/src/messages/messages.service.ts on messages and attachments: the
-- counter of a conversation, the constraints, and the loop that gives a message a new version.
use pookie_chat.Prelude.{
  ◌==◌, if◌then◌else◌, find, keep, any, update, ℕ, zero, suc, ◌+◌, max, Bool, true, false, not,
  ◌&&◌, ◌||◌, Option, none, some, List, [], ◌∷◌, ◌++◌,
}
use pookie_chat.Domain.Text.{Text}
use pookie_chat.Domain.MessageState.{
  eq_text, next_sequence_number, higher_counter_value, compute_disappear_at, Trigger, sent,
  delivered, read, Timestamps,
}
use pookie_chat.Server.{
  M, ◌>>=◌, ◌>>◌, pure, throw, get, modify, require, or_throw, catch_violation, forbidden,
  not_found, unique_violation, ok, err,
}
use pookie_chat.Server.Rows.{ConversationRow, MessageRow, AttachmentRow}
use pookie_chat.Server.Database.{has_conversation_id, Database, Context}
use pookie_chat.Handshake.{is_past}
use pookie_chat.Conversations.Tables.{is_available, is_part, expire}

-- `MAX_SEQUENCE_RETRY_ATTEMPTS`
abbrev pub max_sequence_retry_attempts : ℕ
max_sequence_retry_attempts = 5

abbrev pub has_message_id : ℕ → MessageRow → Bool
has_message_id id m = m.id == id

abbrev pub is_in : ℕ → MessageRow → Bool
is_in conversation m = m.conversation_id == conversation

abbrev pub higher : ℕ → Option ℕ → ℕ
higher n none = n
higher n (some k) = max n k

-- `aggregate({ where: { conversationId }, _max })` of one column
unfoldable pub max_of : (MessageRow → ℕ) → ℕ → List MessageRow → Option ℕ
max_of column conversation [] = none
max_of column conversation (m ∷ ms) =
    let rest = max_of column conversation ms in
    if is_in conversation m then some (higher (column m) rest) else rest

-- The next value of the counter that sequence numbers and versions share.
unfoldable pub next_version : ℕ → List MessageRow → ℕ
unfolding max_of next_sequence_number higher_counter_value
next_version conversation ms = next_sequence_number (
    higher_counter_value (max_of (λ m. m.sequence_number) conversation ms)
      (max_of (λ m. m.sync_version) conversation ms))

abbrev pub has_client_id : ℕ → Text → MessageRow → Bool
has_client_id conversation id m = is_in conversation m && eq_text m.client_message_id id

-- Two rows that break one of the three constraints of `Message`.
abbrev pub clashes : MessageRow → MessageRow → Bool
clashes r m =
    is_in r.conversation_id m
    && (m.sequence_number == r.sequence_number
        || m.sync_version == r.sync_version
        || eq_text m.client_message_id r.client_message_id)

-- `message.create`
unfoldable pub create_message : MessageRow → M Database MessageRow
create_message row db = if any (clashes row) db.chat_messages then (err unique_violation, db) else (
  ok row,
  record db { chat_messages = db.chat_messages ++ row ∷ []; next_id = db.next_id + 1 },
)

-- `message.update({ where: { id }, data })`, where the data has no column of a constraint.
unfoldable pub update_message : ℕ → (MessageRow → MessageRow) → Database → Database
update_message id data_ db = record db {
  chat_messages = update (has_message_id id) data_ db.chat_messages;
}

-- Another message of the conversation has the version.
abbrev pub has_version : ℕ → ℕ → ℕ → MessageRow → Bool
has_version id conversation version m =
    not (has_message_id id m) && is_in conversation m && m.sync_version == version

-- The messages that other requests store while this one waits, for each attempt; none where the
-- list has ended.
abbrev pub Rounds : Type 0
Rounds = List (List MessageRow)

abbrev pub now_stored : Rounds → List MessageRow
now_stored [] = []
now_stored (others ∷ rounds) = others

abbrev pub later_rounds : Rounds → Rounds
later_rounds [] = []
later_rounds (others ∷ rounds) = rounds

abbrev pub interfere : List MessageRow → Database → Database
interfere others db = record db { chat_messages = db.chat_messages ++ others }

module _ (id conversation : ℕ) (data_ : ℕ → MessageRow → MessageRow) where
  -- `message.update`, where the data has a new version.
  unfoldable pub write_version : ℕ → M Database ℕ
  unfolding update_message
  write_version version db =
      if any (has_version id conversation version) db.chat_messages
      then (err unique_violation, db)
      else (ok version, update_message id (data_ version) db)

  -- The retry loop of deleteMessage, editMessage and the sweep, by the attempts that are left: the
  -- violation of the last one is thrown.
  unfoldable pub bump_loop : ℕ → Rounds → M Database ℕ
  unfolding next_version write_version
  bump_loop zero rounds = throw unique_violation
  bump_loop (suc attempts) rounds =
      let again = bump_loop attempts (later_rounds rounds) in
      do
        before ← get
        modify (interfere (now_stored rounds))
        catch_violation (write_version (next_version conversation before.chat_messages))
            (λ _. again)

abbrev pub is_of_message : ℕ → AttachmentRow → Bool
is_of_message id a = elim a.message_id [ none ↦ false | some m ↦ m == id ]

abbrev pub without_attachment : Option AttachmentRow → Database → Database
without_attachment none db = db
without_attachment (some found) db = record db {
  attachments = keep (λ a. not (a.id == found.id)) db.attachments;
}

-- `deleteForMessage` of attachments.service.ts, without the object store.
unfoldable pub delete_for_message : ℕ → Database → Database
delete_for_message id db = without_attachment (find (is_of_message id) db.attachments) db

module _ (c : Context) where
  -- `if (expired) { await this.expireTemporaryConversation(convo); throw … }`
  abbrev pub refuse_expired : Bool → ConversationRow → M Database (Unit {0})
  refuse_expired true convo = do modify (expire convo); throw (forbidden "Conversation has expired")
  refuse_expired false convo = pure tt

  -- `getActiveConversationOrThrow`
  unfoldable pub active_conversation : ℕ → ℕ → M Database ConversationRow
  unfolding expire
  active_conversation user id = do
    db ← get
    convo ←
        or_throw (find (has_conversation_id id) db.conversations)
          (not_found "Conversation not found")
    require (is_part user convo) (forbidden "Forbidden")
    require (is_available convo.status) (forbidden "Conversation not available")
    refuse_expired (is_past c.now convo.expires_at) convo
    pure convo

abbrev pub same_trigger : Trigger → Trigger → Bool
same_trigger sent sent = true
same_trigger delivered delivered = true
same_trigger read read = true
same_trigger _ _ = false

-- The instant at which a message disappears, where the timer of the conversation is on and runs
-- from this event.
unfoldable pub disappear_on : Trigger → Option ℕ → Option Trigger → Timestamps → Option ℕ
unfolding compute_disappear_at
disappear_on event (some seconds) (some trigger) stamps =
    if same_trigger trigger event
    then compute_disappear_at
        (record { timer_seconds = some seconds; trigger = event; read_receipts_enabled = true })
        stamps
    else none
disappear_on event _ _ stamps = none

-- `data.disappearAt`, if it is set.
abbrev pub with_disappear : Option ℕ → MessageRow → MessageRow
with_disappear none m = m
with_disappear (some t) m = record m { disappear_at = some t }
