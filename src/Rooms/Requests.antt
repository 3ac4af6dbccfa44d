-- ===== src/Rooms/Requests.antt =====
-- `getPendingRequests`, `acceptRequest` and `rejectRequest` of rooms.service.ts.
use pookie_chat.Prelude.{
  ltb, ◌==◌, if◌then◌else◌, is_some, keep, ℕ, ◌+◌, not, ◌&&◌, Option, none, some, List, ◌∷◌,
}
use pookie_chat.Domain.Text.{Text}
use pookie_chat.Server.{
  M, ◌>>=◌, ◌>>◌, pure, get, modify, require, transaction, bad_request, forbidden, not_found, ok,
  err,
}
use pookie_chat.Server.Rows.{MemberRole, RequestStatus, RequestRow}
use pookie_chat.Server.Database.{
  push_to_user, push_to_users, member_joined, join_accepted, join_rejected, Database, Context,
}
use pookie_chat.Rooms.Tables.{
  is_pending, room_by_id, membership, member_count, member_ids, active_room, create_member,
  request_by_id, review_requests, upsert_package,
}

unfoldable get_pending_requests : ℕ → ℕ → M Database (List RequestRow)
get_pending_requests user room_id = do
  db ← get
  room ← active_room (room_by_id room_id db.rooms) (not_found "Room not found")
  require (room.owner_id == user) (forbidden "Only the room owner can view join requests")
  pure (keep (λ r. r.room_id == room_id && is_pending r.status) db.requests)

-- `if (!req || req.roomId !== roomId) throw …; if (req.status !== 'PENDING') throw …`
abbrev pub open_request : ℕ → Option RequestRow → M Database RequestRow
open_request room_id none db = (err (not_found "Request not found"), db)
open_request room_id (some r) db =
    if not (r.room_id == room_id)
    then (err (not_found "Request not found"), db)
    else if is_pending r.status
    then (ok r, db)
    else (err (bad_request "This join request is no longer active"), db)

-- `if (!existingMember) await tx.roomMember.create(…)`
unfoldable pub ensure_member : ℕ → ℕ → ℕ → M Database (Unit {0})
ensure_member room user now = do
  db ← get
  if is_some (membership room user db.members)
      then pure tt
      else (do create_member room user MemberRole.member now; pure tt)

-- `if (dto.encryptedKey && dto.nonce)`: both are given and not empty.
unfoldable pub deliver_key :
    Context → ℕ → ℕ → ℕ → ℕ → Option Text → Option Text → Database → Database
unfolding upsert_package
deliver_key c room epoch recipient sender (some (k ∷ key)) (some (n ∷ nonce)) db =
    upsert_package
      (record {
        room_id = room;
        key_epoch = epoch;
        recipient_user_id = recipient;
        encrypted_key = c.primitives.from_base64 (k ∷ key);
        nonce = c.primitives.from_base64 (n ∷ nonce);
        sender_user_id = sender;
      })
      db
deliver_key c room epoch recipient sender _ _ db = db

pub record Accepted : Type 0 where
  pub requester_id : ℕ
  pub member_user_ids : List ℕ
  pub new_member_count : ℕ

unfoldable pub accept_in_transaction :
    Context → ℕ → ℕ → ℕ → Option Text → Option Text → M Database Accepted
unfolding review_requests ensure_member deliver_key member_ids
accept_in_transaction c owner_id room_id request_id key nonce = do
  db ← get
  room ← active_room (room_by_id room_id db.rooms) (not_found "Room not found")
  require (room.owner_id == owner_id) (forbidden "Only the room owner can accept join requests")
  req ← open_request room_id (request_by_id request_id db.requests)
  require (ltb (member_count room_id db.members) room.max_members) (bad_request "Room is full")
  modify (review_requests (λ r. r.id == request_id) RequestStatus.accepted c.now owner_id)
  ensure_member room_id req.requester_id c.now
  modify (deliver_key c room_id room.key_epoch req.requester_id owner_id key nonce)
  after ← get
  pure (record {
    requester_id = req.requester_id;
    member_user_ids = member_ids room_id after.members;
    new_member_count = member_count room_id db.members + 1;
  })

-- The reply is the number of members that it tells.
unfoldable pub accept_request : Context → ℕ → ℕ → ℕ → Option Text → Option Text → M Database ℕ
unfolding push_to_user push_to_users
accept_request c owner_id room_id request_id key nonce = do
  result ← transaction (accept_in_transaction c owner_id room_id request_id key nonce)
  modify (push_to_user result.requester_id (join_accepted room_id))
  modify (
      push_to_users result.member_user_ids
        (member_joined room_id result.requester_id result.new_member_count))
  pure result.new_member_count

unfoldable pub reject_in_transaction : Context → ℕ → ℕ → ℕ → M Database RequestRow
unfolding review_requests
reject_in_transaction c owner_id room_id request_id = do
  db ← get
  room ← active_room (room_by_id room_id db.rooms) (not_found "Room not found")
  require (room.owner_id == owner_id) (forbidden "Only the room owner can reject join requests")
  req ← open_request room_id (request_by_id request_id db.requests)
  modify (review_requests (λ r. r.id == request_id) RequestStatus.rejected c.now owner_id)
  pure req

unfoldable pub reject_request : Context → ℕ → ℕ → ℕ → M Database (Unit {0})
unfolding push_to_user
reject_request c owner_id room_id request_id = do
  req ← transaction (reject_in_transaction c owner_id room_id request_id)
  modify (push_to_user req.requester_id (join_rejected room_id))
