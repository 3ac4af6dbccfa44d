-- ===== src/Rooms/Settings.antt =====
-- `setJoinLocked`, `deleteRoom` and `updateRoom` of rooms.service.ts.
use pookie_chat.Prelude.{
  ltb, ◌==◌, if◌then◌else◌, update, ℕ, Bool, false, not, ◌&&◌, Option, none, some, List, [], ◌∷◌,
}
use pookie_chat.Domain.Text.{Text}
use pookie_chat.Domain.PairingCode.{Primitives}
use pookie_chat.Domain.RoomRules.{validate_room_name, validate_max_members}
use pookie_chat.Server.{
  M, ◌>>=◌, ◌>>◌, pure, get, modify, require, or_throw, transaction, bad_request, unauthorized,
  forbidden, not_found, ok,
}
use pookie_chat.Server.Rows.{JoinPolicy, RoomStatus, RoomRow, RequestStatus}
use pookie_chat.Server.Database.{
  push_to_user, push_to_users, join_lock_changed, room_closed, room_updated, Database, Context,
}
use pookie_chat.Rooms.Tables.{
  is_pending, room_by_id, member_count, member_ids, active_room, update_room,
}
use pookie_chat.Rooms.Create.{or_bad_request}

unfoldable pub set_join_locked : ℕ → ℕ → Bool → M Database Bool
unfolding update_room member_ids push_to_users push_to_user
set_join_locked owner_id room_id locked = do
  db ← get
  room ← active_room (room_by_id room_id db.rooms) (not_found "Room not found")
  require (room.owner_id == owner_id) (forbidden "Only the room owner can change the join lock")
  modify (update_room room_id (λ r. record r { join_locked = locked }))
  modify (push_to_users (member_ids room_id db.members) (join_lock_changed room_id locked))
  pure locked

-- `settings?.burnPasswordHash`
unfoldable pub burn_password_hash : ℕ → List (ℕ × Text) → Option Text
burn_password_hash user [] = none
burn_password_hash user ((id, hash) ∷ rest) =
    if id == user then some hash else burn_password_hash user rest

-- `!password || !(await verifyPassword(password, hash))` is false.
abbrev pub is_right_password : Context → Option Text → Text → Bool
is_right_password c none hash = false
is_right_password c (some []) hash = false
is_right_password c (some (k ∷ password)) hash = c.verify_password (k ∷ password) hash

-- `roomJoinRequest.updateMany({ where: { roomId, status: 'PENDING' }, data: CANCELLED })`
cancel_requests : ℕ → Database → Database
cancel_requests room db = record db {
  requests =
      update (λ r. r.room_id == room && is_pending r.status)
        (λ r. record r { status = RequestStatus.cancelled }) db.requests;
}

unfoldable pub delete_room : Context → ℕ → ℕ → Option Text → M Database (Unit {0})
unfolding update_room cancel_requests member_ids push_to_users push_to_user
delete_room c owner_id room_id password = do
  db ← get
  room ← active_room (room_by_id room_id db.rooms) (not_found "Room not found")
  require (room.owner_id == owner_id) (forbidden "Only the room owner can delete the room")
  hash ←
      or_throw (burn_password_hash owner_id db.burn_passwords)
        (unauthorized "Burn Password is not configured. Please set a Burn Password first.")
  require (is_right_password c password hash) (unauthorized "Incorrect Burn Password")
  transaction (do
    modify (update_room room_id (λ r. record r { status = RoomStatus.deleted }))
    modify (cancel_requests room_id))
  modify (push_to_users (member_ids room_id db.members) (room_closed room_id))

pub record UpdateRoom : Type 0 where
  pub name : Option Text
  pub max_members : Option ℕ
  pub join_policy : Option JoinPolicy
  pub open_key_ciphertext : Option Text
  pub open_key_nonce : Option Text

-- `if (dto.name !== undefined) …`: the name to store.
abbrev pub new_name : Option Text → Text → M Database Text
new_name none old db = (ok old, db)
new_name (some raw) old db = or_bad_request (validate_room_name raw) db

-- `if (dto.maxMembers !== undefined) …`: the limit to store. The message does not tell the count.
unfoldable pub new_max_members : ℕ → Option ℕ → ℕ → M Database ℕ
new_max_members room_id none old = pure old
new_max_members room_id (some raw) old = do
  value ← or_bad_request (validate_max_members raw)
  db ← get
  require (not (ltb value (member_count room_id db.members)))
      (bad_request "Cannot reduce maximum members below current member count")
  pure value

abbrev pub new_policy : Option JoinPolicy → JoinPolicy → JoinPolicy
new_policy none old = old
new_policy (some policy) old = policy

-- `if (dto.openKeyCiphertext && dto.openKeyNonce) …`
abbrev pub with_open_key : Primitives → Option Text → Option Text → RoomRow → RoomRow
with_open_key p (some (k ∷ key)) (some (n ∷ nonce)) r = record r {
  open_key_ciphertext = some (p.from_base64 (k ∷ key));
  open_key_nonce = some (p.from_base64 (n ∷ nonce));
}
with_open_key p _ _ r = r

-- The reply is the name, the limit and the policy that were stored.
unfoldable pub update_room_settings :
    Context → ℕ → ℕ → UpdateRoom → M Database (Text × ℕ × JoinPolicy)
unfolding update_room new_max_members member_ids push_to_users push_to_user
update_room_settings c owner_id room_id dto = do
  before ← get
  room ← active_room (room_by_id room_id before.rooms) (not_found "Room not found")
  require (room.owner_id == owner_id) (forbidden "Only the room owner can update room settings")
  name ← new_name dto.name room.name
  max_members ← new_max_members room_id dto.max_members room.max_members
  let policy = new_policy dto.join_policy room.join_policy
  modify (
      update_room room_id (λ r.
        with_open_key c.primitives dto.open_key_ciphertext dto.open_key_nonce
          (record r { name = name; max_members = max_members; join_policy = policy })))
  db ← get
  modify
      (push_to_users (member_ids room_id db.members) (room_updated room_id name max_members policy))
  pure (name, max_members, policy)
