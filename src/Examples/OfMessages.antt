-- ===== src/Examples/OfMessages.antt =====
-- The theorems on messages at concrete inputs.
use pookie_chat.Prelude.{
  ◌==◌, find, All, ℕ, ◌≤◌, ◌≡◌, refl, true, false, none, some, [], ◌∷◌, arith,
}
use pookie_chat.Domain.MessageState.{eq_text, Trigger}
use pookie_chat.Server.{not_found, ok, err}
use pookie_chat.Server.Rows.{ConversationRow, MessageType, MessageRow, SettingsRow}
use pookie_chat.Server.Database.{has_conversation_id, Database}
use pookie_chat.Handshake.{store, fetch}
use pookie_chat.Conversations.{burn}
use pookie_chat.Messages.{reply, receipts_enabled, new_message, send, SendMessage}
use pookie_chat.Messages.Tables.{has_message_id, max_of, has_client_id, Rounds}
use pookie_chat.Messages.Versions.{top_version}
use pookie_chat.Messages.Sync.{sync, mark_read}
use pookie_chat.Messages.Changes.{tombstone, edited, delete_message, edit_message}
use pookie_chat.Messages.Reaching.{IsTold}
use pookie_chat.Messages.Corrections.{edit-sync, delete-sync}
use pookie_chat.Messages.Sending.{IsUnknown}
use pookie_chat.Messages.Arrival.{arrived, send-sync}
use pookie_chat.Messages.ReadTimers.{timers, read_timers_stand}
use pookie_chat.Messages.Silence.{IsRefused, burn-IsRefused}
use pookie_chat.Examples.Fixtures.{
  at, code_text, other_text, a_conversation, paired_database, a_chat_message,
}

-- Users 1 and 2 have a conversation with one message.
abbrev talking : Database
talking = record paired_database {
  chat_messages = a_chat_message ∷ [];
  burn_passwords = (1, code_text) ∷ [];
}

home : find (has_conversation_id 20) talking.conversations ≡ some a_conversation
unfolding find
home = refl

stored : find (has_message_id 50) talking.chat_messages ≡ some a_chat_message
unfolding find
stored = refl

-- In the first attempt another message of the same number comes first.
abbrev an_attempt : Rounds
an_attempt =
    (record a_chat_message {
      id = 51;
      sequence_number = 2;
      sync_version = 2;
      client_message_id = [];
    }
      ∷ [])
    ∷ []

seen_1 : 1 ≤ top_version 20 talking.chat_messages
unfolding max_of
seen_1 = omega arith

edit-sync_example :
    (after : Database) × (edit_message (at 0) 1 50 other_text [] an_attempt talking
      ≡ (ok tt, after))
    × (version : ℕ) × IsTold
        (at 10)
        2
        20
        1
        (edited (at 0) other_text [] version a_chat_message)
        after
edit-sync_example =
    edit-sync (at 0) 1 50 talking a_chat_message a_conversation stored refl home refl other_text []
      an_attempt 1 (at 10) 2 1 refl (omega arith) refl seen_1 refl (λ e. omega (arith, e)) refl refl
      refl

delete-sync_example :
    (after : Database) × (delete_message (at 0) 1 50 an_attempt talking ≡ (ok tt, after))
    × (version : ℕ) × IsTold (at 10) 2 20 1 (tombstone (at 0) version a_chat_message) after
delete-sync_example =
    delete-sync (at 0) 1 50 talking a_chat_message a_conversation stored refl home refl an_attempt 1
      (at 10) 2 1 (omega arith) refl seen_1 refl (λ e. omega (arith, e)) refl refl

abbrev a_text : SendMessage
a_text = record {
  conversation_id = 20;
  client_message_id = other_text;
  ciphertext = 7 ∷ 8 ∷ [];
  iv = 9 ∷ [];
  message_type = MessageType.text;
  reply_to_message_id = none;
  attachment_id = none;
  encrypted_dek = none;
  session_epoch = 1;
}

unknown : find (has_client_id 20 other_text) talking.chat_messages ≡ none
unfolding find eq_text
unknown = refl

unknowns : All (IsUnknown (at 0) 2 a_text none) an_attempt
unfolding find eq_text
unknowns = (refl, tt)

send-sync_example :
    (m : MessageRow) × (after : Database) × (send (at 0) 2 a_text an_attempt talking
      ≡ (ok (reply false true m), after))
    × (m ≡ new_message (at 0) 2 a_text none m.id m.sequence_number)
    × IsTold (at 10) 1 20 1 (arrived (at 0) 1 m) after
send-sync_example =
    send-sync (at 0) 2 a_text a_conversation refl refl talking home refl refl refl refl refl unknown
      an_attempt 1 (at 10) 1 1 (omega arith) refl unknowns seen_1 refl (λ e. omega (arith, e)) refl

-- A conversation whose messages disappear a minute after they are read, and a reader who shows no
-- receipts.
abbrev timed_conversation : ConversationRow
timed_conversation = record a_conversation {
  disappearing_timer_seconds = some 60;
  disappearing_trigger = some Trigger.read;
}

abbrev timed : Database
timed = record talking {
  conversations = timed_conversation ∷ [];
  settings =
      record {
        user_id = 2;
        read_receipts_enabled = false;
        username_search_enabled = true;
        last_seen_enabled = true;
      }
      ∷ [];
}

timed_home : find (has_conversation_id 20) timed.conversations ≡ some timed_conversation
unfolding find
timed_home = refl

hidden : receipts_enabled (find (λ (s : SettingsRow). s.user_id == 2) timed.settings) ≡ false
unfolding find
hidden = refl

read_timers_stand_example :
    (timers (sync (at 10) 2 20 0 timed).1 ≡ timers timed)
    × (timers (mark_read (at 10) 2 50 timed).1 ≡ timers timed)
read_timers_stand_example =
    read_timers_stand (at 10) 2 timed_conversation refl timed timed_home refl refl hidden 0 50
      a_chat_message refl stored (λ e. omega (arith, e)) refl

run_of_burn :
    burn (at 0) 1 20 (some code_text) talking
    ≡ (ok tt, (burn (at 0) 1 20 (some code_text) talking).1)
unfolding burn find
run_of_burn = refl

burn-IsRefused_example :
    IsRefused
      (burn (at 0) 1 20 (some code_text) talking).1
      (send (at 10) 2 a_text [] (burn (at 0) 1 20 (some code_text) talking).1)
    × IsRefused
        (burn (at 0) 1 20 (some code_text) talking).1
        (sync (at 10) 2 20 0 (burn (at 0) 1 20 (some code_text) talking).1)
    × IsRefused
        (burn (at 0) 1 20 (some code_text) talking).1
        (store (at 10) 2 20 [] (some 1) (burn (at 0) 1 20 (some code_text) talking).1)
    × (fetch (at 10) 2 20 (burn (at 0) 1 20 (some code_text) talking).1
        ≡ (err (not_found "No pending handshake"), (burn (at 0) 1 20 (some code_text) talking).1))
burn-IsRefused_example =
    burn-IsRefused (at 0) 1 (some code_text) talking (burn (at 0) 1 20 (some code_text) talking).1
      a_text run_of_burn (at 10) 2 0 [] [] (some 1)
