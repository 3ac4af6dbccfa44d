-- ===== src/Rooms/Invariant/Operations.antt =====
-- Every operation of rooms.service.ts keeps the tables of rooms well formed.
use pookie_chat.Prelude.{
  ltb, ◌==◌, is_none, ==_iff, find, find_holds, All, find-All, All-mono, ℕ, ◌<◌, ◌≡◌, refl, subst,
  ◌≢◌, Bool, not, none, some, List, [], ◌∷◌, arith,
}
use pookie_chat.Server.Database.{Database, Context}
use pookie_chat.Server.{Result}
use pookie_chat.Server.Reason.{at_require, at_or_throw}
use pookie_chat.Rooms.Reason.{
  at_active_room, at_active_user, new_member, with_member, create_member_free,
}
use pookie_chat.Rooms.Tables.{
  is_owner, is_membership, room_by_id, membership, member_count, delete_member, update_room,
}
use pookie_chat.Rooms.Members.{
  leave_room, next_key_epoch, remove_member, conversation_of, is_blocked, add_member_by_owner,
}
use pookie_chat.Rooms.Invariant.{AreDistinct, find_unique, IsRoom, Inv}
use pookie_chat.Rooms.Invariant.Writes.{add_member_lem, remove_member_lem}
use pookie_chat.Rooms.Invariant.Updates.{IsFair, update_room_lem}
use pookie_chat.Server.Rows.{RoomRow, MemberRole, owner, MemberRow}

abbrev pub Keeps : {B : Type 0} → Result B × Database → Type 0
Keeps q = Inv q.1

-- The member found by a room and a user, who is not the owner, is deleted.
pub delete_member-Inv :
    (room user : ℕ) (row : MemberRow) (db : Database)
    → Inv db
    → membership room user db.members ≡ some row
    → row.role ≢ owner
    → Inv (delete_member row.id db)
unfolding delete_member
delete_member-Inv room user row db v found role = record {
  tables = remove_member_lem db.next_id db.rooms db.members room user row v.tables found role;
}

pub leave_room-Inv : (user room : ℕ) (db : Database) → Inv db → Inv (leave_room user room db).1
unfolding leave_room
leave_room-Inv user room db v =
    at_or_throw Keeps (membership room user db.members) _ _ db v λ row found.
      at_require Keeps (not (is_owner row.role)) _ _ db v λ plain. record {
        tables = (delete_member-Inv room user row db v found (ground arith)).tables;
      }

-- A membership in the owner's role belongs to the owner.
owner_only :
    (db : Database) (room_id user : ℕ) (room : RoomRow) (row : MemberRow)
    → Inv db
    → room_by_id room_id db.rooms ≡ some room
    → membership room_id user db.members ≡ some row
    → row.role ≡ owner
    → user ≡ room.owner_id
unfolding room_by_id membership
owner_only db room_id user room row v is_room found role =
    let here : IsRoom db.members room =
      find-All (IsRoom db.members) (λ r. r.id == room_id) db.rooms room v.tables.each is_room in
    let sole : row.room_id ≡ room.id → row.role ≡ owner → row.user_id ≡ room.owner_id =
      find-All (λ m. m.room_id ≡ room.id → m.role ≡ owner → m.user_id ≡ room.owner_id)
        (is_membership room_id user) db.members row here.sole found in
    ground (
      arith,
      sole,
      find_holds (λ r. r.id == room_id) db.rooms room is_room,
      find_holds (is_membership room_id user) db.members row found,
    )

-- An update of the rooms with an id that keeps each fair.
pub update_room-Inv :
    (id : ℕ) (f : RoomRow → RoomRow) (db : Database)
    → Inv db
    → ((r : RoomRow) → id ≡ r.id → IsRoom db.members r → IsFair db.members f r)
    → Inv (update_room id f db)
unfolding update_room
update_room-Inv id f db v fair = record {
  tables = update_room_lem db.next_id id f db.rooms db.members v.tables (
      All-mono (IsRoom db.members) (λ r. id ≡ r.id → IsFair db.members f r) (λ r h e. fair r e h)
        db.rooms v.tables.each);
}

All-below : (n : ℕ) (rooms : List RoomRow) → AreDistinct n rooms → All (λ r. r.id < n) rooms
All-below n [] d = tt
All-below n (r ∷ rs) d = (d.0, All-below n rs d.2)

-- A room that was found, and that has space, takes a member who was not in it.
pub with_member-Inv :
    (p : RoomRow → Bool) (room : RoomRow) (id user : ℕ) (role : MemberRole) (now : ℕ)
    (db : Database)
    → Inv db
    → find p db.rooms ≡ some room
    → room.id ≡ id
    → membership id user db.members ≡ none
    → role ≢ owner
    → member_count id db.members < room.max_members
    → Inv (with_member (new_member id user role now db) db)
with_member-Inv p room id user role now db v is_room same free plain space = record {
  tables =
      add_member_lem db.next_id db.rooms db.members (new_member id user role now db) v.tables refl
        (subst (λ k. k < db.next_id) same
          (find-All (λ r. r.id < db.next_id) p db.rooms room
            (All-below db.next_id db.rooms v.tables.rooms_distinct) is_room))
        plain free
        (subst (λ k. All (λ r. k ≡ r.id → member_count id db.members < r.max_members) db.rooms) same
          (find_unique (λ r. member_count id db.members < r.max_members) db.next_id p db.rooms room
            v.tables.rooms_distinct is_room space));
}

pub id_of_found :
    (room_id : ℕ) (room : RoomRow) (db : Database)
    → room_by_id room_id db.rooms ≡ some room
    → room.id ≡ room_id
unfolding room_by_id
id_of_found room_id room db is_room =
    (==_iff _ _).0 (find_holds (λ r. r.id == room_id) db.rooms room is_room)

pub remove_member-Inv :
    (owner_id room_id target : ℕ) (db : Database)
    → Inv db
    → Inv (remove_member owner_id room_id target db).1
unfolding remove_member
remove_member-Inv owner_id room_id target db v =
    at_active_room Keeps (room_by_id room_id db.rooms) _ _ db v λ room is_room live.
      at_require Keeps (room.owner_id == owner_id) _ _ db v λ allowed.
        at_require Keeps (not (target == owner_id)) _ _ db v λ other.
          at_or_throw Keeps (membership room_id target db.members) _ _ db v λ row found.
            let gone : Inv (delete_member row.id db) =
              delete_member-Inv room_id target row db v found (λ role.
                ground (arith, owner_only db room_id target room row v is_room found role)) in
            record {
              tables =
                  (update_room-Inv room_id next_key_epoch (delete_member row.id db) gone
                    (λ r e h. (refl, refl, h.at_least_two, h.at_most_2000, h.within))).tables;
            }

pub add_member_by_owner-Inv :
    (c : Context) (owner_id room_id target : ℕ) (db : Database)
    → Inv db
    → Inv (add_member_by_owner c owner_id room_id target db).1
unfolding add_member_by_owner room_by_id
add_member_by_owner-Inv c owner_id room_id target db v =
    at_active_room Keeps (room_by_id room_id db.rooms) _ _ db v λ room is_room live.
      at_require Keeps (room.owner_id == owner_id) _ _ db v λ allowed.
        at_require Keeps (not (target == owner_id)) _ _ db v λ other.
          at_active_user Keeps (find (λ u. u.id == target) db.users) _ _ db v λ user is_user works.
            at_require Keeps (not (is_blocked (conversation_of target owner_id db.conversations))) _
              _ db v
              λ unblocked.
                at_require Keeps (is_none (membership room_id target db.members)) _ _ db v λ new.
                  at_require Keeps (ltb (member_count room_id db.members) room.max_members) _ _ db v
                    λ space.
                      let free : membership room_id target db.members ≡ none = ground arith in
                      rw (create_member_free room_id target MemberRole.member c.now db free)
                        (record {
                          tables =
                              (with_member-Inv (λ r. r.id == room_id) room room_id target
                                MemberRole.member c.now db v is_room
                                (id_of_found room_id room db is_room) free (λ e. cc)
                                (ground arith)).tables;
                        })
