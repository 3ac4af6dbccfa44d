-- ===== src/Rooms/Tables.antt =====
-- The queries and writes of rooms.service.ts on the tables of rooms, with the unique constraints
-- of the schema.
use pookie_chat.Prelude.{
  ◌==◌, if◌then◌else◌, find, keep, any, count, update, ℕ, ◌+◌, Bool, true, false, not, ◌&&◌, Option,
  none, some, List, [], ◌∷◌, ◌++◌, map,
}
use pookie_chat.Server.{M, Exception, unique_violation, ok, err}
use pookie_chat.Server.Rows.{
  active, RoomStatus, RoomRow, MemberRole, owner, MemberRow, RequestStatus, pending, RequestRow,
  KeyPackageRow,
}
use pookie_chat.Server.Database.{Database}

abbrev pub is_active : RoomStatus → Bool
is_active active = true
is_active _ = false

abbrev pub is_owner : MemberRole → Bool
is_owner owner = true
is_owner _ = false

abbrev pub is_pending : RequestStatus → Bool
is_pending pending = true
is_pending _ = false

abbrev pub in_room : ℕ → MemberRow → Bool
in_room room m = m.room_id == room

abbrev pub is_membership : ℕ → ℕ → MemberRow → Bool
is_membership room user m = m.room_id == room && m.user_id == user

-- `room.findUnique({ where: { id } })`
unfoldable pub room_by_id : ℕ → List RoomRow → Option RoomRow
room_by_id id rooms = find (λ r. r.id == id) rooms

-- `roomMember.findUnique({ where: { roomId_userId } })`
unfoldable pub membership : ℕ → ℕ → List MemberRow → Option MemberRow
membership room user members = find (is_membership room user) members

-- `roomMember.count({ where: { roomId } })`
abbrev pub member_count : ℕ → List MemberRow → ℕ
member_count room members = count (in_room room) members

-- `roomMember.findMany({ where: { roomId }, select: { userId: true } })`
unfoldable pub member_ids : ℕ → List MemberRow → List ℕ
member_ids room members = map (λ m. m.user_id) (keep (in_room room) members)

-- `if (!room || room.status !== 'ACTIVE') throw e`
abbrev pub active_room : Option RoomRow → Exception → M Database RoomRow
active_room none e db = (err e, db)
active_room (some room) e db = if is_active room.status then (ok room, db) else (err e, db)

-- `roomMember.create`, under `@@unique([roomId, userId])`.
unfoldable pub create_member : ℕ → ℕ → MemberRole → ℕ → M Database MemberRow
create_member room user role now db =
    let row : MemberRow = record {
      id = db.next_id;
      room_id = room;
      user_id = user;
      role = role;
      joined_at = now;
    } in
    elim (membership room user db.members) [
      | some taken ↦ (err unique_violation, db)
      | none ↦ (ok row, record db { members = db.members ++ row ∷ []; next_id = db.next_id + 1 })
    ]

-- `roomMember.delete({ where: { id } })`
unfoldable pub delete_member : ℕ → Database → Database
delete_member id db = record db { members = keep (λ m. not (m.id == id)) db.members }

-- `room.update({ where: { id }, data })`
unfoldable pub update_room : ℕ → (RoomRow → RoomRow) → Database → Database
update_room id f db = record db { rooms = update (λ r. r.id == id) f db.rooms }

-- `roomJoinRequest.findUnique({ where: { id } })`
unfoldable pub request_by_id : ℕ → List RequestRow → Option RequestRow
request_by_id id requests = find (λ r. r.id == id) requests

-- The pending request of a user in a room.
abbrev pub is_pending_of : ℕ → ℕ → RequestRow → Bool
is_pending_of room user r = r.room_id == room && r.requester_id == user && is_pending r.status

-- `status`, `reviewedAt` and `reviewedById` of the requests that pass a test.
unfoldable pub review_requests : (RequestRow → Bool) → RequestStatus → ℕ → ℕ → Database → Database
review_requests test status now reviewer db = record db {
  requests =
      update test
        (λ r. record r { status = status; reviewed_at = some now; reviewed_by_id = some reviewer })
        db.requests;
}

-- `roomKeyPackage.upsert`, under `@@unique([roomId, keyEpoch, recipientUserId])`.
abbrev pub is_package_of : ℕ → ℕ → ℕ → KeyPackageRow → Bool
is_package_of room epoch recipient k =
    k.room_id == room && k.key_epoch == epoch && k.recipient_user_id == recipient

unfoldable pub upsert_package : KeyPackageRow → Database → Database
upsert_package row db = record db {
  packages =
      if any (is_package_of row.room_id row.key_epoch row.recipient_user_id) db.packages
      then update (is_package_of row.room_id row.key_epoch row.recipient_user_id)
          (λ k. record k {
            encrypted_key = row.encrypted_key;
            nonce = row.nonce;
            sender_user_id = row.sender_user_id;
          })
          db.packages
      else db.packages ++ row ∷ [];
}
