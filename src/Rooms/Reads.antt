-- ===== src/Rooms/Reads.antt =====
-- `getRoom`, `getMembers` and `searchUsersForRoom` of rooms.service.ts: they only read. Members who
-- joined at one instant come in the order of the table.
pub mod Pages
pub mod Search
use pookie_chat.Prelude.{
  ltb, ◌==◌, if◌then◌else◌, length, keep, any, take, drop, ℕ, zero, suc, ◌+◌, ◌-◌, ◌*◌, ◌/◌, min,
  max, Bool, true, false, not, ◌&&◌, ◌||◌, Option, none, some, List, [], ◌∷◌,
}
use pookie_chat.Domain.Text.{Text, trim}
use pookie_chat.Domain.MessageState.{sort_by}
use pookie_chat.Domain.RoomRules.{decrypt_room_code}
use pookie_chat.Server.{
  M, ◌>>=◌, ◌>>◌, pure, get, require, or_throw, bad_request, forbidden, not_found, ok, err,
}
use pookie_chat.Server.Rows.{UserRow, RoomStatus, deleted, RoomRow, MemberRole, MemberRow}
use pookie_chat.Server.Database.{Database, Context}
use pookie_chat.Rooms.Tables.{in_room, room_by_id, membership, member_count, active_room}
use pookie_chat.Rooms.Members.{conversation_of, is_blocked}

-- `roomMember.findMany({ where: { roomId }, orderBy: { joinedAt: 'asc' } })`
unfoldable pub members_by_age : ℕ → List MemberRow → List MemberRow
members_by_age room_id members = sort_by (λ m. m.joined_at) (keep (in_room room_id) members)

abbrev is_deleted : RoomStatus → Bool
is_deleted deleted = true
is_deleted _ = false

-- `!room || room.status === 'DELETED'`
abbrev present_room : Option RoomRow → M Database RoomRow
present_room none db = (err (not_found "Room not found"), db)
present_room (some room) db =
    if is_deleted room.status then (err (not_found "Room not found"), db) else (ok room, db)

pub record RoomDetails : Type 0 where
  pub room : RoomRow
  pub member_count : ℕ
  pub role : MemberRole
  pub code : Option Text
  pub members : List MemberRow

-- `room.codeText`, decrypted; null where that fails. A member may always see it.
abbrev shown_code : Context → Option Text → Option Text
shown_code c none = none
shown_code c (some []) = none
shown_code c (some (u ∷ stored)) = decrypt_room_code c.primitives (u ∷ stored) c.pepper

unfoldable get_room : Context → ℕ → ℕ → M Database RoomDetails
unfolding members_by_age
get_room c user room_id = do
  db ← get
  room ← present_room (room_by_id room_id db.rooms)
  row ←
      or_throw (membership room_id user db.members) (forbidden "You are not a member of this room")
  pure (record {
    room = room;
    member_count = member_count room_id db.members;
    role = row.role;
    code = shown_code c room.code_text;
    members = take 50 (members_by_age room_id db.members);
  })

pub record MembersPage : Type 0 where
  pub members : List MemberRow
  pub total : ℕ
  pub page : ℕ
  pub limit : ℕ
  pub total_pages : ℕ

pub get_members : ℕ → ℕ → ℕ → ℕ → M Database MembersPage
get_members user room_id page limit =
    let safe_limit = min (max limit 1) 100 in
    let safe_page = max page 1 in
    do
      db ← get
      row ←
          or_throw (membership room_id user db.members)
            (forbidden "You are not a member of this room")
      let total = member_count room_id db.members
      pure (record {
        members =
            take safe_limit
              (drop ((safe_page - 1) * safe_limit) (members_by_age room_id db.members));
        total = total;
        page = safe_page;
        limit = safe_limit;
        total_pages = (total + (safe_limit - 1)) / safe_limit;
      })

pub record FoundUser : Type 0 where
  pub id : ℕ
  pub username : Text
  pub display_name : Option Text
  pub is_member : Bool

abbrev found_user : ℕ → List MemberRow → UserRow → FoundUser
found_user room_id members u = record {
  id = u.id;
  username = u.username;
  display_name = u.display_name;
  is_member = any (λ m. m.user_id == u.id) (keep (in_room room_id) members);
}

-- One candidate, where `left` more results fit.
abbrev pub at_candidate : Bool → ℕ → FoundUser → (ℕ → List FoundUser) → List FoundUser
at_candidate blocked zero u later = []
at_candidate true (suc left) u later = later (suc left)
at_candidate false (suc left) u later = u ∷ later left

-- The loop over the candidates.
pub pick_users : ℕ → ℕ → Database → ℕ → List UserRow → List FoundUser
pick_users owner_id room_id db left [] = []
pick_users owner_id room_id db left (u ∷ us) =
    at_candidate (is_blocked (conversation_of u.id owner_id db.conversations)) left
      (found_user room_id db.members u) (λ n. pick_users owner_id room_id db n us)

-- `{ contains: query, mode: 'insensitive' }` is the first argument.
abbrev pub is_candidate : (Text → Text → Bool) → ℕ → Text → UserRow → Bool
is_candidate contains owner_id query u =
    not (u.id == owner_id) && u.is_active && (contains query u.username || in_name u.display_name)
  where
    in_name : Option Text → Bool
    in_name none = false
    in_name (some name) = contains query name

pub search_users_for_room : (Text → Text → Bool) → ℕ → ℕ → Text → M Database (List FoundUser)
unfolding pick_users
search_users_for_room contains owner_id room_id raw =
    let query = trim raw in
    do
      db ← get
      room ← active_room (room_by_id room_id db.rooms) (not_found "Room not found")
      require (room.owner_id == owner_id) (forbidden "Only the room owner can search users to add")
      require (not (ltb (length query) 2))
          (bad_request "Search query must be at least 2 characters")
      require (not (ltb 50 (length query)))
          (bad_request "Search query must be at most 50 characters")
      pure (
          pick_users owner_id room_id db 10
            (take 20 (keep (is_candidate contains owner_id query) db.users)))
