-- ===== src/Rooms/Reason.antt =====
-- Rules to follow an operation on rooms step by step.
use pookie_chat.Prelude.{
  ◌==◌, ==_iff, Bool-cases, ℕ, ◌+◌, ◌≡◌, refl, inl, inr, true, Option, none, some, [], ◌∷◌, ◌++◌,
}
use pookie_chat.Server.{M, bind, Exception, bad_request, not_found, Result, ok, err}
use pookie_chat.Server.Rows.{UserRow, RoomRow, MemberRole, MemberRow, RequestRow}
use pookie_chat.Server.Database.{Database}
use pookie_chat.Rooms.Tables.{is_active, is_pending, membership, active_room, create_member}
use pookie_chat.Rooms.Requests.{open_request}
use pookie_chat.Rooms.Members.{active_user}

module _ {B : Type 0} (P : Result B × Database → Type 0) where
  pub at_active_room :
      (o : Option RoomRow) (e : Exception) (k : RoomRow → M Database B) (db : Database)
      → P (err e, db)
      → ((r : RoomRow) → o ≡ some r → is_active r.status ≡ true → P (k r db))
      → P (bind (active_room o e db) k)
  at_active_room none e k db stop go = stop
  at_active_room (some r) e k db stop go = elim (Bool-cases (is_active r.status)) [
    | inl live ↦ rw live (go r refl live)
    | inr dead ↦ rw dead stop
  ]

  pub at_active_user :
      (o : Option UserRow) (e : Exception) (k : UserRow → M Database B) (db : Database)
      → P (err e, db)
      → ((u : UserRow) → o ≡ some u → u.is_active ≡ true → P (k u db))
      → P (bind (active_user o e db) k)
  at_active_user none e k db stop go = stop
  at_active_user (some u) e k db stop go = elim (Bool-cases u.is_active) [
    | inl live ↦ simp live (go u refl live)
    | inr dead ↦ simp dead stop
  ]

module _ {B : Type 0} (P : Result B × Database → Type 0) where
  pub at_open_request :
      (room_id : ℕ) (o : Option RequestRow) (k : RequestRow → M Database B) (db : Database)
      → ((e : Exception) → P (err e, db))
      → ((r : RequestRow)
          → o ≡ some r
          → r.room_id ≡ room_id
          → is_pending r.status ≡ true
          → P (k r db))
      → P (bind (open_request room_id o db) k)
  at_open_request room_id none k db stop go = stop (not_found "Request not found")
  at_open_request room_id (some r) k db stop go = elim (Bool-cases (r.room_id == room_id)) [
    | inr elsewhere ↦ simp elsewhere (stop (not_found "Request not found"))
    | inl here ↦ elim (Bool-cases (is_pending r.status)) [
      | inl live ↦ simp (here, live) (go r refl ((==_iff _ _).0 here) live)
      | inr dead ↦ simp (here, dead) (stop (bad_request "This join request is no longer active"))
    ]
  ]

abbrev pub new_member : ℕ → ℕ → MemberRole → ℕ → Database → MemberRow
new_member room user role now db = record {
  id = db.next_id;
  room_id = room;
  user_id = user;
  role = role;
  joined_at = now;
}

abbrev pub with_member : MemberRow → Database → Database
with_member row db = record db { members = db.members ++ row ∷ []; next_id = db.next_id + 1 }

-- A user who is not in the room becomes a member.
pub create_member_free :
    (room user : ℕ) (role : MemberRole) (now : ℕ) (db : Database)
    → membership room user db.members ≡ none
    → create_member room user role now db
      ≡ (ok (new_member room user role now db), with_member (new_member room user role now db) db)
unfolding create_member
create_member_free room user role now db free = rw (free, create_member)
