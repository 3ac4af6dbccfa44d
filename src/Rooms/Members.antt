-- ===== src/Rooms/Members.antt =====
-- `leaveRoom`, `removeMember` and `addMemberByOwner` of rooms.service.ts.
use pookie_chat.Prelude.{
  ltb, ◌==◌, if◌then◌else◌, is_none, find, ℕ, ◌+◌, min, max, Bool, true, false, not, ◌&&◌, Option,
  none, some, List,
}
use pookie_chat.Domain.SessionEpoch.{ConversationStatus}
use pookie_chat.Server.{
  M, ◌>>=◌, ◌>>◌, pure, get, modify, require, or_throw, transaction, Exception, bad_request,
  forbidden, not_found, conflict, ok, err,
}
use pookie_chat.Server.Rows.{
  UserRow, ConversationRow, RoomRow, MemberRole, MemberRow, RequestStatus,
}
use pookie_chat.Server.Database.{
  push_to_user, push_to_users, member_joined, join_accepted, member_left, member_removed,
  key_rotation_required, Database, Context,
}
use pookie_chat.Rooms.Tables.{
  is_owner, room_by_id, membership, member_count, member_ids, active_room, create_member,
  delete_member, update_room, is_pending_of, review_requests,
}

unfoldable pub leave_room : ℕ → ℕ → M Database (Unit {0})
unfolding delete_member member_ids push_to_users push_to_user
leave_room user room_id = do
  db ← get
  row ← or_throw (membership room_id user db.members) (not_found "Membership not found")
  require (not (is_owner row.role))
      (bad_request "Room owner cannot leave the room. Delete or close the room instead.")
  modify (delete_member row.id)
  after ← get
  modify (
      push_to_users (member_ids room_id after.members)
        (member_left room_id user (member_count room_id after.members)))

abbrev pub next_key_epoch : RoomRow → RoomRow
next_key_epoch r = record r { key_epoch = r.key_epoch + 1 }

-- The reply is the new key epoch.
unfoldable pub remove_member : ℕ → ℕ → ℕ → M Database ℕ
unfolding delete_member update_room member_ids push_to_users push_to_user
remove_member owner_id room_id target = do
  db ← get
  room ← active_room (room_by_id room_id db.rooms) (not_found "Room not found")
  require (room.owner_id == owner_id) (forbidden "Only the room owner can remove members")
  require (not (target == owner_id))
      (bad_request "Room owner cannot be removed. Close or delete the room instead.")
  row ← or_throw (membership room_id target db.members) (not_found "Member not found")
  transaction (do modify (delete_member row.id); modify (update_room room_id next_key_epoch))
  after ← get
  modify (push_to_user target (member_removed room_id))
  modify (
      push_to_users (member_ids room_id after.members)
        (member_left room_id target (member_count room_id after.members)))
  modify (
      push_to_users (member_ids room_id after.members)
        (key_rotation_required room_id (room.key_epoch + 1)))
  pure (room.key_epoch + 1)

-- `conversation.findUnique({ where: { userAId_userBId } })`, the smaller id in front.
unfoldable pub conversation_of : ℕ → ℕ → List ConversationRow → Option ConversationRow
conversation_of a b conversations =
    find (λ v. v.user_a_id == min a b && v.user_b_id == max a b) conversations

abbrev pub is_blocked : Option ConversationRow → Bool
is_blocked none = false
is_blocked (some v) = elim v.status [
  | ConversationStatus.blocked_by_a ↦ true
  | ConversationStatus.blocked_by_b ↦ true
  | _ ↦ false
]

abbrev pub active_user : Option UserRow → Exception → M Database UserRow
active_user none e db = (err e, db)
active_user (some u) e db = if u.is_active then (ok u, db) else (err e, db)

-- The reply is the new member and the number of members.
unfoldable pub add_member_by_owner : Context → ℕ → ℕ → ℕ → M Database (MemberRow × ℕ)
unfolding review_requests member_ids push_to_users push_to_user
add_member_by_owner c owner_id room_id target = do
  db ← get
  room ← active_room (room_by_id room_id db.rooms) (not_found "Room not found")
  require (room.owner_id == owner_id) (forbidden "Only the room owner can add members")
  require (not (target == owner_id)) (bad_request "Room owner is already a member")
  user ← active_user (find (λ u. u.id == target) db.users) (not_found "User not found")
  require (not (is_blocked (conversation_of target owner_id db.conversations)))
      (bad_request "Cannot add this user to the room")
  require (is_none (membership room_id target db.members))
      (conflict "User is already a member of this room")
  require (ltb (member_count room_id db.members) room.max_members)
      (bad_request "Room is at maximum member capacity")
  new_member ← transaction (do
    row ← create_member room_id target MemberRole.member c.now
    modify (review_requests (is_pending_of room_id target) RequestStatus.accepted c.now owner_id)
    pure row)
  modify (push_to_user target (join_accepted room_id))
  after ← get
  modify (
      push_to_users (member_ids room_id after.members)
        (member_joined room_id target (member_count room_id db.members + 1)))
  pure (new_member, member_count room_id db.members + 1)
