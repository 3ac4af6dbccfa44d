-- ===== src/Examples/OfConversations.antt =====
-- The theorems on conversations and on requests for them at concrete inputs.
use pookie_chat.Prelude.{length, find, keep, ◌≡◌, refl, none, some, List, [], ◌∷◌}
use pookie_chat.Domain.SessionEpoch.{ConversationStatus, active}
use pookie_chat.Server.{forbidden, ok, err}
use pookie_chat.Server.Rows.{active, ConversationRow, RequestStatus, ConversationRequestRow}
use pookie_chat.Server.Database.{has_conversation_id, Database}
use pookie_chat.Conversations.{block, unblock, burn, extend_temporary_chat}
use pookie_chat.Conversations.Tables.{update_conversation, with_status, expire}
use pookie_chat.Conversations.Listing.{list, Listed}
use pookie_chat.Conversations.Blocking.{block-unblock}
use pookie_chat.Conversations.Burning.{IsBurned, burn-IsBurned}
use pookie_chat.Conversations.Extending.{IsExtended, extend_temporary_chat-IsExtended}
use pookie_chat.Conversations.Sweeping.{is_among, AreGone}
use pookie_chat.Conversations.Listed.{list-IsListed, IsListed}
use pookie_chat.Messages.Changes.{is_over, cleanup_expired_temporary_chats}
use pookie_chat.Messages.TemporaryChats.{cleanup-none_over}
use pookie_chat.ConversationRequests.{has_request_id, accept_request, Accepted}
use pookie_chat.ConversationRequests.Acceptance.{
  is_theirs, renew, IsAnswered, accept_request-IsAnswered,
}
use pookie_chat.Examples.Fixtures.{at, code_text, a_conversation, paired_database, a_chat_message}
use pookie_chat.Pairing.Redeem.{latest_device}
use pookie_chat.Messages.Sync.{sync}
use pookie_chat.ConversationRequests.Expired.{accept_request-over}

-- A conversation that user 2 has blocked.
abbrev blocked_conversation : ConversationRow
blocked_conversation = record a_conversation { status = ConversationStatus.blocked_by_b }

abbrev blocked_database : Database
blocked_database = record paired_database { conversations = blocked_conversation ∷ [] }

by_id : find (has_conversation_id 20) blocked_database.conversations ≡ some blocked_conversation
unfolding find
by_id = refl

block-unblock_example :
    unblock (at 0) 1 20 (block (at 0) 1 20 blocked_database).1
    ≡ (ok tt, update_conversation 20 (with_status active) blocked_database)
block-unblock_example =
    block-unblock (at 0) 1 20 blocked_database blocked_conversation by_id refl refl

-- A temporary conversation of users 1 and 2, with a message and a burn password of user 1.
abbrev temporary_conversation : ConversationRow
temporary_conversation = record a_conversation {
  expires_at = some 5000;
  temporary_creator_user_id = some 1;
}

abbrev temporary_database : Database
temporary_database = record paired_database {
  conversations = temporary_conversation ∷ [];
  chat_messages = a_chat_message ∷ [];
  burn_passwords = (1, code_text) ∷ [];
}

burn-IsBurned_example :
    IsBurned
      (at 1000)
      1
      20
      (some code_text)
      temporary_database
      (burn (at 1000) 1 20 (some code_text) temporary_database)
burn-IsBurned_example = burn-IsBurned (at 1000) 1 20 (some code_text) temporary_database

-- The burning succeeds.
run_of_burn :
    burn (at 1000) 1 20 (some code_text) temporary_database
    ≡ (ok tt, (burn (at 1000) 1 20 (some code_text) temporary_database).1)
unfolding burn find
run_of_burn = refl

extend_temporary_chat-IsExtended_example :
    IsExtended
      (at 1000)
      1
      20
      60
      temporary_database
      (extend_temporary_chat (at 1000) 1 20 60 temporary_database)
extend_temporary_chat-IsExtended_example =
    extend_temporary_chat-IsExtended (at 1000) 1 20 60 temporary_database

-- The extension succeeds.
run_of_extension : (extend_temporary_chat (at 1000) 1 20 60 temporary_database).0 ≡ ok 65000
unfolding extend_temporary_chat find
run_of_extension = refl

list-IsListed_example :
    (out : List Listed) × (after : Database) × (list (at 6000) 1 temporary_database
      ≡ (ok out, after))
    × IsListed (at 6000) 1 temporary_database out after
list-IsListed_example = list-IsListed (at 6000) 1 temporary_database

cleanup-none_over_example :
    (after : Database) × (cleanup_expired_temporary_chats (at 6000) temporary_database
      ≡ (ok (length (keep (is_over (at 6000)) temporary_database.conversations)), after))
    × (find (is_over (at 6000)) after.conversations ≡ none)
    × AreGone
        (is_among (keep (is_over (at 6000)) temporary_database.conversations))
        temporary_database
        after
cleanup-none_over_example = cleanup-none_over (at 6000) temporary_database

-- User 1 asked user 2.
abbrev a_request : ConversationRequestRow
a_request = record {
  id = 40;
  sender_id = 1;
  recipient_id = 2;
  status = RequestStatus.pending;
  created_at = 0;
}

abbrev asked_database : Database
asked_database = record paired_database {
  conversations = record temporary_conversation { status = ConversationStatus.deleted } ∷ [];
  conversation_requests = a_request ∷ [];
}

accept_request-IsAnswered_example :
    IsAnswered (at 6000) 2 40 asked_database (accept_request (at 6000) 2 40 asked_database)
accept_request-IsAnswered_example = accept_request-IsAnswered (at 6000) 2 40 asked_database

abbrev accepted_by_2 : Accepted
accepted_by_2 = record {
  conversation_id = 20;
  session_epoch = 2;
  bundle = some (record {
    identity_dh_public = [];
    identity_signing_public = [];
    signed_prekey_public = [];
    signed_prekey_signature = [];
    one_time_prekey_public = none;
  });
}

run_of_acceptance :
    accept_request (at 6000) 2 40 asked_database
    ≡ (ok accepted_by_2, (accept_request (at 6000) 2 40 asked_database).1)
unfolding accept_request find latest_device
run_of_acceptance = refl

asked : find (has_request_id 40) asked_database.conversation_requests ≡ some a_request
unfolding find
asked = refl

abbrev old_conversation : ConversationRow
old_conversation = record temporary_conversation { status = ConversationStatus.deleted }

theirs : find (is_theirs 1 2) asked_database.conversations ≡ some old_conversation
unfolding find
theirs = refl

old_by_id : find (has_conversation_id 20) asked_database.conversations ≡ some old_conversation
unfolding find
old_by_id = refl

accept_request-over_example :
    sync (at 7000) 1 20 0 (accept_request (at 6000) 2 40 asked_database).1 ≡ (
      err (forbidden "Conversation has expired"),
      expire (renew old_conversation) (accept_request (at 6000) 2 40 asked_database).1,
    )
accept_request-over_example =
    accept_request-over (at 6000) 2 40 asked_database
      (accept_request (at 6000) 2 40 asked_database).1 a_request accepted_by_2 old_conversation
      (at 7000) 1 0 asked theirs old_by_id run_of_acceptance refl refl
