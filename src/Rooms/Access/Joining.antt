-- ===== src/Rooms/Access/Joining.antt =====
-- What each answer of `joinByCode` means.
use pookie_chat.Prelude.{
  ltb, ==_refl, Option-cases, find, find-append_none, ℕ, ◌<◌, ◌≡◌, refl, ◌∙◌, inl, inr, true, false,
  not, Option, none, some, [], ◌∷◌, ◌++◌, arith,
}
use pookie_chat.Domain.Text.{Text}
use pookie_chat.Domain.RoomRules.{normalize_room_code, hash_room_code}
use pookie_chat.Server.{Exception, Result, ok, err}
use pookie_chat.Server.Rows.{RoomRow, MemberRole, MemberRow, RequestRow}
use pookie_chat.Server.Database.{push_to_user, push_to_users, Database, Context}
use pookie_chat.Rooms.Tables.{is_active, membership, member_count, is_pending_of}
use pookie_chat.Rooms.Reason.{at_active_room, new_member, create_member_free}
use pookie_chat.Rooms.Join.{
  room_by_hmac, is_open, join_open, new_request, create_request, ask_unless, ask_to_join,
  join_by_code, JoinReply, already_member, joined, still_pending, request_sent,
}
use pookie_chat.Server.Reason.{at_require, at_if}

-- The code names an active room.
abbrev pub IsNamed : Context → Text → Database → RoomRow → Type 0
IsNamed c code db room =
    (room_by_hmac (hash_room_code c.primitives (normalize_room_code c.primitives code) c.pepper)
        db.rooms
      ≡ some room)
    × (is_active room.status ≡ true)

-- What an answer of `joinByCode` means.
pub data Admission (c : Context) (user : ℕ) (code : Text) (db : Database)
    : Result JoinReply × Database → Type 0 where
  was_in :
      (room : RoomRow) (row : MemberRow)
      → IsNamed c code db room
      → membership room.id user db.members ≡ some row
      → Admission c user code db (ok (already_member room), db)
  came_in :
      (room : RoomRow) (after : Database)
      → IsNamed c code db room
      → is_open room.join_policy ≡ true
      → room.join_locked ≡ false
      → member_count room.id db.members < room.max_members
      → membership room.id user db.members ≡ none
      → after.members ≡ db.members ++ new_member room.id user MemberRole.member c.now db ∷ []
      → Admission c user code db (ok (joined room), after)
  waits :
      (room : RoomRow) (request : RequestRow)
      → IsNamed c code db room
      → is_open room.join_policy ≡ false
      → membership room.id user db.members ≡ none
      → find (is_pending_of room.id user) db.requests ≡ some request
      → Admission c user code db (ok (still_pending room.id room.name), db)
  asked :
      (room : RoomRow) (after : Database) (request : RequestRow)
      → IsNamed c code db room
      → is_open room.join_policy ≡ false
      → membership room.id user db.members ≡ none
      → find (is_pending_of room.id user) after.requests ≡ some request
      → after.members ≡ db.members
      → Admission c user code db (ok (request_sent room.id room.name), after)
  turned_away : (e : Exception) → Admission c user code db (err e, db)

module _ (c : Context) (user : ℕ) (code : Text) where
  open_Admission :
      (room : RoomRow) (db : Database)
      → IsNamed c code db room
      → is_open room.join_policy ≡ true
      → room.join_locked ≡ false
      → member_count room.id db.members < room.max_members
      → membership room.id user db.members ≡ none
      → Admission c user code db (join_open c user room db.members db)
  unfolding join_open push_to_users
  open_Admission room db named policy unlocked space absent =
      let fits_ : ltb (member_count room.id db.members) room.max_members ≡ true = ground arith in
      rw (fits_, create_member_free room.id user MemberRole.member c.now db absent)
        (came_in room _ named policy unlocked space absent refl)

  ask_Admission :
      (room : RoomRow) (db : Database)
      → IsNamed c code db room
      → is_open room.join_policy ≡ false
      → membership room.id user db.members ≡ none
      → (o : Option RequestRow) → find (is_pending_of room.id user) db.requests ≡ o
      → Admission c user code db (ask_unless c user room o db)
  unfolding create_request push_to_user find
  ask_Admission room db named policy absent none e =
      let request : RequestRow = new_request db.next_id room.id user c.now in
      let here : find (is_pending_of room.id user) (db.requests ++ request ∷ []) ≡ some request =
        find-append_none (is_pending_of room.id user) db.requests (request ∷ []) e
        ∙ rw (==_refl room.id, ==_refl user) refl in
      asked room _ request named policy absent here refl
  ask_Admission room db named policy absent (some request) e =
      waits room request named policy absent e

  -- `joinByCode`: whoever is told to be in was a member of the active room that the code names, or has
  -- become one, where the room is open, was not locked and had a place; whoever is told to wait has a
  -- pending request for it, and no membership is new; and a refusal changes nothing.
  pub join_by_code-Admission :
      (db : Database) → Admission c user code db (join_by_code c user code db)
  unfolding join_by_code ask_to_join
  join_by_code-Admission db =
      at_active_room (Admission c user code db)
        (room_by_hmac (hash_room_code c.primitives (normalize_room_code c.primitives code) c.pepper)
          db.rooms)
        _ _ db (turned_away _)
        λ room found live. elim (Option-cases (membership room.id user db.members)) [
          | inr (row, present) ↦ rw present (was_in room row (found, live) present)
          | inl absent ↦ rw absent (
              at_require (Admission c user code db) (not room.join_locked) _ _ db (turned_away _)
                λ unlocked.
                  at_require (Admission c user code db)
                    (ltb (member_count room.id db.members) room.max_members) _ _ db (turned_away _)
                    λ space.
                      at_if (Admission c user code db) (is_open room.join_policy) _ _ db
                        (λ policy.
                          open_Admission room db (found, live) policy (ground arith) (ground arith)
                            absent)
                        (λ policy.
                          ask_Admission room db (found, live) policy absent
                            (find (is_pending_of room.id user) db.requests) refl))
        ]
