-- ===== src/Rooms/Join.antt =====
-- `joinByCode` of rooms.service.ts.
use pookie_chat.Prelude.{
  ltb, if◌then◌else◌, is_some, find, ℕ, ◌+◌, Bool, true, false, not, Option, none, some, List, [],
  ◌∷◌, ◌++◌,
}
use pookie_chat.Domain.Text.{Text}
use pookie_chat.Domain.MessageState.{eq_text}
use pookie_chat.Domain.RoomRules.{normalize_room_code, hash_room_code}
use pookie_chat.Server.{
  M, ◌>>=◌, ◌>>◌, pure, get, modify, require, transaction, bad_request, forbidden, ok,
}
use pookie_chat.Server.Rows.{
  JoinPolicy, anyone, approval_required, RoomRow, MemberRole, MemberRow, RequestStatus, RequestRow,
}
use pookie_chat.Server.Database.{
  push_to_user, push_to_users, member_joined, join_request, Database, Context,
}
use pookie_chat.Rooms.Tables.{
  membership, member_count, member_ids, active_room, create_member, is_pending_of,
}

-- The reply; every one names the room, and the first two carry its open key.
pub data JoinReply : Type 0 where
  already_member joined : (room : RoomRow) → JoinReply
  still_pending request_sent : (room_id : ℕ) (room_name : Text) → JoinReply

-- `room.findUnique({ where: { codeHmac } })`
unfoldable pub room_by_hmac : Text → List RoomRow → Option RoomRow
room_by_hmac code_hmac rooms = find (λ r. eq_text r.code_hmac code_hmac) rooms

abbrev pub is_open : JoinPolicy → Bool
is_open anyone = true
is_open approval_required = false

-- The path of an open room. `known` are the members that the first query read.
unfoldable pub join_open : Context → ℕ → RoomRow → List MemberRow → M Database JoinReply
unfolding member_ids push_to_users push_to_user
join_open c user room known = do
  transaction (do
    db ← get
    require (ltb (member_count room.id db.members) room.max_members) (bad_request "Room is full")
    create_member room.id user MemberRole.member c.now)
  modify (
      push_to_users (member_ids room.id known)
        (member_joined room.id user (member_count room.id known + 1)))
  pure (joined room)

abbrev pub new_request : ℕ → ℕ → ℕ → ℕ → RequestRow
new_request id room user now = record {
  id = id;
  room_id = room;
  requester_id = user;
  status = RequestStatus.pending;
  created_at = now;
  reviewed_at = none;
  reviewed_by_id = none;
}

-- `roomJoinRequest.create`
unfoldable pub create_request : ℕ → ℕ → ℕ → M Database RequestRow
create_request room user now db = (
  ok (new_request db.next_id room user now),
  record db {
    requests = db.requests ++ new_request db.next_id room user now ∷ [];
    next_id = db.next_id + 1;
  },
)

-- The path of a room that wants its owner's approval, given the request that is pending already.
abbrev pub ask_unless : Context → ℕ → RoomRow → Option RequestRow → M Database JoinReply
ask_unless c user room (some existing) = pure (still_pending room.id room.name)
ask_unless c user room none = do
  req ← create_request room.id user c.now
  modify (push_to_user room.owner_id (join_request req.id room.id user))
  pure (request_sent room.id room.name)

unfoldable pub ask_to_join : Context → ℕ → RoomRow → M Database JoinReply
unfolding create_request push_to_user
ask_to_join c user room = do
  db ← get
  ask_unless c user room (find (is_pending_of room.id user) db.requests)

unfoldable pub join_by_code : Context → ℕ → Text → M Database JoinReply
unfolding join_open ask_to_join
join_by_code c user code = do
  db ← get
  room ←
      active_room
        (room_by_hmac (hash_room_code c.primitives (normalize_room_code c.primitives code) c.pepper)
          db.rooms)
        (bad_request "Invalid room code")
  if is_some (membership room.id user db.members) then pure (already_member room) else (do
    require (not room.join_locked) (forbidden "The room owner has stopped accepting new members")
    require (ltb (member_count room.id db.members) room.max_members) (bad_request "Room is full")
    if is_open room.join_policy then join_open c user room db.members else ask_to_join c user room)
