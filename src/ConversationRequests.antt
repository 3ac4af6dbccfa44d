-- ===== src/ConversationRequests.antt =====
-- apps/backend/src/conversation-requests/conversation-requests.service.ts: a request by user name,
-- and what its recipient or its sender makes of it. The table is in the order of creation.
pub mod Acceptance
pub mod Expired
use mathlib.Core.List.{reverse}
use pookie_chat.Prelude.{
  ◌==◌, is_none, find, keep, update, ℕ, ◌+◌, Bool, true, not, ◌&&◌, Option, none, some, List, [],
  ◌∷◌, ◌++◌, map,
}
use pookie_chat.Domain.Text.{Text}
use pookie_chat.Domain.MessageState.{eq_text}
use pookie_chat.Domain.SessionEpoch.{ConversationStatus}
use pookie_chat.Domain.Username.{normalize_username}
use pookie_chat.Server.{
  M, ◌>>=◌, ◌>>◌, pure, get, modify, require, or_throw, transaction, bad_request, forbidden,
  not_found, conflict,
}
use pookie_chat.Server.Rows.{
  UserRow, DeviceRow, PrekeyRow, ConversationRow, RequestStatus, SettingsRow,
  ConversationRequestRow,
}
use pookie_chat.Server.Database.{
  push_to_user, request_received, request_accepted, request_rejected, Database, Context,
}
use pookie_chat.Rooms.Tables.{is_pending}
use pookie_chat.Pairing.Redeem.{
  canonical_pair, latest_device, is_pair, is_blocked, new_conversation, is_free_prekey,
  consume_prekey, username_of, display_name_of, public_key_of, Bundle,
}
use pookie_chat.Conversations.Tables.{is_available, update_conversation}
use pookie_chat.Conversations.Listing.{settings_of}

-- `dto.targetUsername || dto.recipientUsername`
abbrev pub filled_or : Option Text → Option Text → Option Text
filled_or (some (k ∷ name)) other = some (k ∷ name)
filled_or _ (some (k ∷ name)) = some (k ∷ name)
filled_or _ _ = none

-- `settings?.usernameSearchEnabled ?? true`
abbrev pub is_discoverable : Option SettingsRow → Bool
is_discoverable none = true
is_discoverable (some s) = s.username_search_enabled

abbrev pub with_request_status : RequestStatus → ConversationRequestRow → ConversationRequestRow
with_request_status status r = record r { status = status }

abbrev pub has_request_id : ℕ → ConversationRequestRow → Bool
has_request_id id r = r.id == id

unfoldable pub update_request : ℕ → RequestStatus → Database → Database
update_request id status db = record db {
  conversation_requests =
      update (has_request_id id) (with_request_status status) db.conversation_requests;
}

abbrev pub check_pair : Option ConversationRow → M Database (Unit {0})
check_pair none = pure tt
check_pair (some convo) = do
  require (not (is_blocked convo.status)) (not_found "User not found or unavailable")
  require (not (is_available convo.status))
      (bad_request "You already have an active conversation with this user")

-- The conversation of the pair becomes active in its next epoch, or is created.
abbrev pub open_conversation : Option ConversationRow → ℕ → ℕ → M Database ConversationRow
open_conversation none a b = do
  db ← get
  let row = new_conversation db.next_id a b none none
  modify (λ after. record after {
    conversations = after.conversations ++ row ∷ [];
    next_id = after.next_id + 1;
  })
  pure row
open_conversation (some existing) a b = do
  let renew = λ (r : ConversationRow). record r {
    status = ConversationStatus.active;
    session_epoch = r.session_epoch + 1;
  }
  modify (update_conversation existing.id renew)
  pure (renew existing)

abbrev pub bundle_of : Option DeviceRow → List PrekeyRow → Option Bundle
bundle_of none prekeys = none
bundle_of (some device) prekeys = some (record {
  identity_dh_public = device.identity_dh_public;
  identity_signing_public = device.identity_signing_public;
  signed_prekey_public = device.signed_prekey_public;
  signed_prekey_signature = device.signed_prekey_signature;
  one_time_prekey_public = public_key_of (find (is_free_prekey device.id) prekeys);
})

abbrev pub consume_of : Option DeviceRow → ℕ → Database → Database
consume_of none now db = db
consume_of (some device) now db = consume_prekey (find (is_free_prekey device.id) db.prekeys) now db

pub record Accepted : Type 0 where
  pub conversation_id : ℕ
  pub session_epoch : ℕ
  pub bundle : Option Bundle

pub record Pending : Type 0 where
  pub id : ℕ
  pub user_id : ℕ
  pub username : Text
  pub display_name : Option Text
  pub created_at : ℕ

-- A request with the user at its other end.
abbrev pub pending_with : List UserRow → ℕ → ConversationRequestRow → Pending
pending_with users other r =
    let row : Option UserRow = find (λ (u : UserRow). u.id == other) users in
    record {
      id = r.id;
      user_id = other;
      username = username_of row;
      display_name = display_name_of row;
      created_at = r.created_at;
    }

module _ (c : Context) (user : ℕ) where
  abbrev pub is_pending_between : ℕ → ConversationRequestRow → Bool
  is_pending_between other r = r.sender_id == user && r.recipient_id == other && is_pending r.status

  -- `sendRequest`; the lower case of units outside ASCII is an argument.
  unfoldable pub send_request : (ℕ → Text) → Option Text → Option Text → M Database ℕ
  unfolding push_to_user normalize_username
  send_request lower_other target_username recipient_username = do
    raw ←
        or_throw (filled_or target_username recipient_username)
          (bad_request "Target username is required")
    db ← get
    target ←
        or_throw
          (find (λ (u : UserRow). eq_text u.username (normalize_username lower_other raw)) db.users)
          (not_found "User not found or unavailable")
    require target.is_active (not_found "User not found or unavailable")
    require (not (target.id == user))
        (bad_request "You cannot send a conversation request to yourself")
    require (is_discoverable (settings_of target.id db)) (not_found "User not found or unavailable")
    let (a, b) = canonical_pair user target.id
    check_pair (find (is_pair a b) db.conversations)
    require (is_none (find (is_pending_between target.id) db.conversation_requests))
        (conflict "A conversation request to this user is already pending")
    modify (λ after. record after {
      conversation_requests =
          after.conversation_requests
          ++ record {
            id = db.next_id;
            sender_id = user;
            recipient_id = target.id;
            status = RequestStatus.pending;
            created_at = c.now;
          }
            ∷ [];
      next_id = after.next_id + 1;
    })
    modify (push_to_user target.id (request_received db.next_id))
    pure db.next_id

  -- `listPending`: what the user received and what the user sent, the latest first.
  pub list_pending : M Database (List Pending × List Pending)
  list_pending = do
    db ← get
    pure (
      map (λ r. pending_with db.users r.sender_id r)
          (reverse
            (keep (λ r. r.recipient_id == user && is_pending r.status) db.conversation_requests)),
      map (λ r. pending_with db.users r.recipient_id r)
          (reverse
            (keep (λ r. r.sender_id == user && is_pending r.status) db.conversation_requests)),
    )

  unfoldable pub accept_request : ℕ → M Database Accepted
  unfolding update_request update_conversation push_to_user
  accept_request id = do
    db ← get
    req ←
        or_throw (find (has_request_id id) db.conversation_requests) (not_found "Request not found")
    require (req.recipient_id == user)
        (forbidden "You cannot accept a request addressed to someone else")
    require (is_pending req.status) (bad_request "This conversation request is no longer active")
    let (a, b) = canonical_pair req.sender_id user
    result ← transaction (do
      modify (update_request id RequestStatus.accepted)
      open_conversation (find (is_pair a b) db.conversations) a b)
    let device = latest_device req.sender_id db.devices
    modify (consume_of device c.now)
    modify (push_to_user req.sender_id (request_accepted req.id result.id result.session_epoch))
    pure (record {
      conversation_id = result.id;
      session_epoch = result.session_epoch;
      bundle = bundle_of device db.prekeys;
    })

  unfoldable pub reject_request : ℕ → M Database (Unit {0})
  unfolding update_request push_to_user
  reject_request id = do
    db ← get
    req ←
        or_throw (find (has_request_id id) db.conversation_requests) (not_found "Request not found")
    require (req.recipient_id == user)
        (forbidden "You cannot reject a request addressed to someone else")
    require (is_pending req.status) (bad_request "This conversation request is no longer active")
    modify (update_request id RequestStatus.rejected)
    modify (push_to_user req.sender_id (request_rejected req.id))

  unfoldable pub cancel_request : ℕ → M Database (Unit {0})
  unfolding update_request
  cancel_request id = do
    db ← get
    req ←
        or_throw (find (has_request_id id) db.conversation_requests) (not_found "Request not found")
    require (req.sender_id == user) (forbidden "You cannot cancel a request you did not send")
    require (is_pending req.status) (bad_request "This conversation request is no longer active")
    modify (update_request id RequestStatus.cancelled)
