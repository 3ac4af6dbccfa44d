-- ===== src/Conversations/Listing.antt =====
-- `list` and `getStatus` of conversations.service.ts. The table is in the order of creation, so that
-- `orderBy: { createdAt: 'desc' }` is its reverse.
use mathlib.Core.List.{reverse}
use pookie_chat.Prelude.{
  ◌==◌, if◌then◌else◌, is_none, find, keep, count, ℕ, Bool, true, not, ◌&&◌, ◌||◌, Option, none,
  some, List, map,
}
use pookie_chat.Domain.Text.{Text}
use pookie_chat.Domain.MessageState.{Trigger}
use pookie_chat.Domain.SessionEpoch.{ConversationStatus}
use pookie_chat.Server.{M, ◌>>=◌, ◌>>◌, pure, get, modify}
use pookie_chat.Server.Rows.{UserRow, DeviceRow, ConversationRow, MessageRow, SettingsRow}
use pookie_chat.Server.Database.{Database, Context}
use pookie_chat.Handshake.{is_past, other_user}
use pookie_chat.Pairing.Redeem.{latest_device, username_of, display_name_of}
use pookie_chat.Conversations.{is_creator}
use pookie_chat.Conversations.Tables.{is_deleted, is_part, expire_all, owned_conversation}

pub record OtherUser : Type 0 where
  pub id : ℕ
  pub username : Text
  pub display_name : Option Text
  pub is_online : Option Bool
  pub last_seen_at : Option ℕ

pub record Listed : Type 0 where
  pub id : ℕ
  pub user_a_id : ℕ
  pub user_b_id : ℕ
  pub status : ConversationStatus
  pub disappearing_timer_seconds : Option ℕ
  pub disappearing_trigger : Option Trigger
  pub session_epoch : ℕ
  pub expires_at : Option ℕ
  pub is_temporary : Bool
  pub is_creator : Bool
  pub temporary_creator_user_id : Option ℕ
  pub unread_count : ℕ
  pub other_user : OtherUser

pub record Status : Type 0 where
  pub id : ℕ
  pub status : ConversationStatus
  pub session_epoch : ℕ
  pub expires_at : Option ℕ
  pub is_temporary : Bool
  pub is_creator : Bool
  pub temporary_creator_user_id : Option ℕ
  pub is_expired : Bool
  pub other_user : OtherUser

-- `settings?.lastSeenEnabled ?? true`
abbrev pub allows_last_seen : Option SettingsRow → Bool
allows_last_seen none = true
allows_last_seen (some s) = s.last_seen_enabled

abbrev pub settings_of : ℕ → Database → Option SettingsRow
settings_of user db = find (λ (s : SettingsRow). s.user_id == user) db.settings

abbrev pub seen_at : Option DeviceRow → Option ℕ
seen_at none = none
seen_at (some d) = some d.last_seen_at

module _ (c : Context) (user : ℕ) where
  -- The other user, as far as both allow it.
  abbrev pub shown_user : ℕ → Database → OtherUser
  shown_user other db =
      let visible : Bool =
        allows_last_seen (settings_of user db) && allows_last_seen (settings_of other db) in
      let row : Option UserRow = find (λ (u : UserRow). u.id == other) db.users in
      record {
        id = other;
        username = username_of row;
        display_name = display_name_of row;
        is_online = if visible then some (c.is_online other) else none;
        last_seen_at = if visible then seen_at (latest_device other db.devices) else none;
      }

  -- `{ conversationId, senderId: { not: userId }, readAt: null, deletedAt: null }`
  abbrev pub is_unread : ℕ → MessageRow → Bool
  is_unread id m =
      m.conversation_id == id
      && not (m.sender_id == user)
      && is_none m.read_at
      && is_none m.deleted_at

  abbrev pub listed : Database → ConversationRow → Listed
  listed db convo = record {
    id = convo.id;
    user_a_id = convo.user_a_id;
    user_b_id = convo.user_b_id;
    status = convo.status;
    disappearing_timer_seconds = convo.disappearing_timer_seconds;
    disappearing_trigger = convo.disappearing_trigger;
    session_epoch = convo.session_epoch;
    expires_at = convo.expires_at;
    is_temporary = not (is_none convo.expires_at);
    is_creator = is_creator user convo;
    temporary_creator_user_id = convo.temporary_creator_user_id;
    unread_count = count (is_unread convo.id) db.chat_messages;
    other_user = shown_user (other_user user convo) db;
  }

  abbrev pub is_due : ConversationRow → Bool
  is_due convo =
      is_part user convo && not (is_deleted convo.status) && is_past c.now convo.expires_at

  -- `status: { not: 'DELETED' }`, and `expiresAt` is null or in the future.
  abbrev pub is_listed : ConversationRow → Bool
  is_listed convo =
      is_part user convo && not (is_deleted convo.status) && not (is_past c.now convo.expires_at)

  -- `list`: what is due is ended first.
  unfoldable pub list : M Database (List Listed)
  unfolding expire_all
  list = do
    before ← get
    modify (expire_all (keep is_due before.conversations))
    db ← get
    pure (map (listed db) (reverse (keep is_listed db.conversations)))

  unfoldable pub get_status : ℕ → M Database Status
  unfolding owned_conversation
  get_status id = do
    convo ← owned_conversation c user id
    db ← get
    pure (record {
      id = convo.id;
      status = convo.status;
      session_epoch = convo.session_epoch;
      expires_at = convo.expires_at;
      is_temporary = not (is_none convo.expires_at);
      is_creator = is_creator user convo;
      temporary_creator_user_id = convo.temporary_creator_user_id;
      is_expired = is_deleted convo.status || is_past c.now convo.expires_at;
      other_user = shown_user (other_user user convo) db;
    })
