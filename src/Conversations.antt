-- ===== src/Conversations.antt =====
-- `block`, `unblock`, `burn`, `setDisappearingTimer` and `extendTemporaryChat` of
-- apps/backend/src/conversations/conversations.service.ts.
pub mod Tables
pub mod Listing
pub mod Blocking
pub mod Burning
pub mod Extending
pub mod Sweeping
pub mod Listed
use pookie_chat.Prelude.{
  leb, ltb, ◌==◌, if◌then◌else◌, is_none, ℕ, ◌+◌, ◌*◌, Bool, true, false, not, ◌&&◌, ◌||◌, Option,
  none, some, [], ◌∷◌,
}
use pookie_chat.Domain.Text.{Text}
use pookie_chat.Domain.MessageState.{Trigger}
use pookie_chat.Domain.SessionEpoch.{
  ConversationStatus, active, blocked_by_a, blocked_by_b, deleted,
}
use pookie_chat.Server.{
  M, ◌>>=◌, ◌>>◌, pure, get, modify, require, or_throw, bad_request, unauthorized, forbidden,
}
use pookie_chat.Server.Rows.{ConversationRow}
use pookie_chat.Server.Database.{
  push_to_user, push_to_users, conversation_burned, temporary_chat_expiry_updated, Database,
  Context,
}
use pookie_chat.Handshake.{is_past, other_user}
use pookie_chat.Rooms.Settings.{burn_password_hash, is_right_password}
use pookie_chat.Conversations.Tables.{
  is_deleted, update_conversation, with_status, destroy, owned_conversation,
}

abbrev pub is_blocked_by_a : ConversationStatus → Bool
is_blocked_by_a blocked_by_a = true
is_blocked_by_a _ = false

abbrev pub is_blocked_by_b : ConversationStatus → Bool
is_blocked_by_b blocked_by_b = true
is_blocked_by_b _ = false

abbrev pub blocked_by : ℕ → ConversationRow → ConversationStatus
blocked_by user convo = if convo.user_a_id == user then blocked_by_a else blocked_by_b

abbrev pub is_blocked_by : ℕ → ConversationRow → Bool
is_blocked_by user convo =
    convo.user_a_id == user && is_blocked_by_a convo.status
    || convo.user_b_id == user && is_blocked_by_b convo.status

-- `timerSeconds ? trigger : null`
abbrev pub trigger_if : Option ℕ → Trigger → Option Trigger
trigger_if none trigger = none
trigger_if (some seconds) trigger = if seconds == 0 then none else some trigger

-- 90 days
abbrev pub max_lifetime_ms : ℕ
max_lifetime_ms = 90 * 24 * 60 * 60 * 1000

abbrev pub is_creator : ℕ → ConversationRow → Bool
is_creator user convo = elim convo.temporary_creator_user_id [ none ↦ false | some id ↦ id == user ]

module _ (c : Context) (user id : ℕ) where
  unfoldable pub block : M Database (Unit {0})
  unfolding owned_conversation update_conversation
  block = do
    convo ← owned_conversation c user id
    modify (update_conversation id (with_status (blocked_by user convo)))

  unfoldable pub unblock : M Database (Unit {0})
  unfolding owned_conversation update_conversation
  unblock = do
    convo ← owned_conversation c user id
    require (is_blocked_by user convo) (forbidden "Only the user who blocked can unblock")
    modify (update_conversation id (with_status active))

  unfoldable pub burn : Option Text → M Database (Unit {0})
  unfolding owned_conversation burn_password_hash destroy push_to_user
  burn password = do
    convo ← owned_conversation c user id
    db ← get
    hash ←
        or_throw (burn_password_hash user db.burn_passwords)
          (unauthorized "Burn Password is not configured. Please set a Burn Password first.")
    require (is_right_password c password hash) (unauthorized "Incorrect Burn Password")
    modify (destroy id)
    modify (push_to_user (other_user user convo) (conversation_burned id))

  unfoldable pub set_disappearing_timer : Option ℕ → Trigger → M Database (Unit {0})
  unfolding owned_conversation update_conversation
  set_disappearing_timer timer_seconds trigger = do
    convo ← owned_conversation c user id
    modify (
        update_conversation id (λ r. record r {
          disappearing_timer_seconds = timer_seconds;
          disappearing_trigger = trigger_if timer_seconds trigger;
        }))

  -- The duration is a whole number that is not negative; what is returned is the new instant.
  unfoldable pub extend_temporary_chat : ℕ → M Database ℕ
  unfolding owned_conversation update_conversation push_to_users
  extend_temporary_chat duration_seconds = do
    convo ← owned_conversation c user id
    require (not (is_deleted convo.status)) (bad_request "Conversation has already expired")
    expires_at ←
        or_throw convo.expires_at
          (bad_request "This conversation is permanent and cannot be extended")
    require (not (leb expires_at c.now)) (bad_request "Conversation has already expired")
    require (is_creator user convo)
        (forbidden "Only the creator of the temporary chat can extend its duration")
    require (ltb 0 duration_seconds)
        (bad_request "Extension duration must be a positive integer in seconds")
    let later = expires_at + duration_seconds * 1000
    require (not (ltb (c.now + max_lifetime_ms) later))
        (bad_request "Total lifetime cannot exceed 90 days from now")
    modify (update_conversation id (λ r. record r { expires_at = some later }))
    modify (
        push_to_users (convo.user_a_id ∷ convo.user_b_id ∷ [])
          (temporary_chat_expiry_updated id later))
    pure later
