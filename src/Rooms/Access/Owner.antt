-- ===== src/Rooms/Access/Owner.antt =====
-- The requests that only the owner of a room may make.
use pookie_chat.Prelude.{
  ◌==◌, Bool-cases, ℕ, ◌≡◌, refl, ap, ◌≢◌, inl, inr, Bool, false, Option, none, some, arith,
}
use pookie_chat.Rooms.Invariant.Reach.{
  perform, Request, creates, joins, accepts, rejects, sends, leaves, locks, deletes, stores_key,
  updates, removes, adds,
}
use pookie_chat.Server.{M, bind, require, roll_back, Exception, Result, err}
use pookie_chat.Server.Rows.{RoomRow}
use pookie_chat.Server.Database.{Database, Context}
use pookie_chat.Rooms.Tables.{is_active, room_by_id, active_room}
use pookie_chat.Rooms.Requests.{
  accept_in_transaction, accept_request, reject_in_transaction, reject_request,
}
use pookie_chat.Rooms.Invariant.Reach.{
  perform, Request, creates, joins, accepts, rejects, sends, leaves, locks, deletes, stores_key,
  updates, removes, adds,
}
use pookie_chat.Rooms.Settings.{set_join_locked, delete_room, update_room_settings, UpdateRoom}
use pookie_chat.Rooms.Members.{remove_member, add_member_by_owner}
use pookie_chat.Domain.Text.{Text}

-- Who asks, and for which room, where the owner's rights are needed.
abbrev pub needs_owner : Request → Option (ℕ × ℕ)
needs_owner (accepts owner_id room_id _ _ _) = some (owner_id, room_id)
needs_owner (rejects owner_id room_id _) = some (owner_id, room_id)
needs_owner (locks owner_id room_id _) = some (owner_id, room_id)
needs_owner (deletes owner_id room_id _) = some (owner_id, room_id)
needs_owner (updates owner_id room_id _) = some (owner_id, room_id)
needs_owner (removes owner_id room_id _) = some (owner_id, room_id)
needs_owner (adds owner_id room_id _) = some (owner_id, room_id)
needs_owner _ = none

abbrev Fails : {B : Type 0} → Database → Result B × Database → Type 0
Fails db q = (e : Exception) × (q ≡ (err e, db))

denied :
    {B : Type 0} (user : ℕ) (room : RoomRow) (o : Option RoomRow) (no_room not_owner : Exception)
    (k : RoomRow → Unit {0} → M Database B) (db : Database)
    → o ≡ some room
    → room.owner_id ≢ user
    → Fails db (
        bind
          (active_room o no_room db)
          (λ r s. bind (require (r.owner_id == user) not_owner s) (k r)))
denied user room o no_room not_owner k db found other =
    let no : (room.owner_id == user) ≡ false = ground arith in
    elim (Bool-cases (is_active room.status)) [
      | inl live ↦ (not_owner, rw (found, live, no) refl)
      | inr dead ↦ (no_room, rw (found, dead) refl)
    ]

unchanged : {B : Type 0} (db : Database) (q : Result B × Database) → Fails db q → q.1 ≡ db
unchanged db q (e, failed) = ap (λ p. p.1) failed

rolled :
    {A B : Type 0} (db : Database) (q : Result A × Database) (k : A → M Database B)
    → Fails db q
    → (bind (roll_back db q) k).1 ≡ db
rolled db q k (e, failed) = rw failed refl

module _ (user room_id : ℕ) (db : Database) (room : RoomRow)
    (found : room_by_id room_id db.rooms ≡ some room) (other : room.owner_id ≢ user) where
  lock_unchanged : (locked : Bool) → (set_join_locked user room_id locked db).1 ≡ db
  unfolding set_join_locked
  lock_unchanged locked =
      unchanged db _ (denied user room (room_by_id room_id db.rooms) _ _ _ db found other)

  delete_unchanged :
      (c : Context) (password : Option Text) → (delete_room c user room_id password db).1 ≡ db
  unfolding delete_room
  delete_unchanged c password =
      unchanged db _ (denied user room (room_by_id room_id db.rooms) _ _ _ db found other)

  update_unchanged :
      (c : Context) (dto : UpdateRoom) → (update_room_settings c user room_id dto db).1 ≡ db
  unfolding update_room_settings
  update_unchanged c dto =
      unchanged db _ (denied user room (room_by_id room_id db.rooms) _ _ _ db found other)

  remove_unchanged : (target : ℕ) → (remove_member user room_id target db).1 ≡ db
  unfolding remove_member
  remove_unchanged target =
      unchanged db _ (denied user room (room_by_id room_id db.rooms) _ _ _ db found other)

  add_unchanged : (c : Context) (target : ℕ) → (add_member_by_owner c user room_id target db).1 ≡ db
  unfolding add_member_by_owner
  add_unchanged c target =
      unchanged db _ (denied user room (room_by_id room_id db.rooms) _ _ _ db found other)

  accept_unchanged :
      (c : Context) (id : ℕ) (key iv : Option Text)
      → (accept_request c user room_id id key iv db).1 ≡ db
  unfolding accept_request accept_in_transaction
  accept_unchanged c id key iv =
      rolled db _ _ (denied user room (room_by_id room_id db.rooms) _ _ _ db found other)

  reject_unchanged : (c : Context) (id : ℕ) → (reject_request c user room_id id db).1 ≡ db
  unfolding reject_request reject_in_transaction
  reject_unchanged c id =
      rolled db _ _ (denied user room (room_by_id room_id db.rooms) _ _ _ db found other)

  by_pair :
      (f : ℕ → ℕ → Database) (u r : ℕ)
      → ◌≡◌ {A = Option (ℕ × ℕ)} (some (u, r)) (some (user, room_id))
      → f user room_id ≡ db
      → f u r ≡ db
  by_pair f u r e h =
      let first : u ≡ user = ground (arith, e) in
      let second : r ≡ room_id = ground (arith, e) in rw (first, second) h

  -- Whoever is not the owner of a room changes nothing by a request that is the owner's to make: to
  -- accept or reject, to lock the room, to delete or update it, to remove or add a member.
  pub owner_only :
      (c : Context) (r : Request) → needs_owner r ≡ some (user, room_id) → perform c r db ≡ db
  unfolding perform
  owner_only c (accepts u r id key iv) e =
      by_pair (λ a b. (accept_request c a b id key iv db).1) u r e (accept_unchanged c id key iv)
  owner_only c (rejects u r id) e =
      by_pair (λ a b. (reject_request c a b id db).1) u r e (reject_unchanged c id)
  owner_only c (locks u r locked) e =
      by_pair (λ a b. (set_join_locked a b locked db).1) u r e (lock_unchanged locked)
  owner_only c (deletes u r password) e =
      by_pair (λ a b. (delete_room c a b password db).1) u r e (delete_unchanged c password)
  owner_only c (updates u r dto) e =
      by_pair (λ a b. (update_room_settings c a b dto db).1) u r e (update_unchanged c dto)
  owner_only c (removes u r target) e =
      by_pair (λ a b. (remove_member a b target db).1) u r e (remove_unchanged target)
  owner_only c (adds u r target) e =
      by_pair (λ a b. (add_member_by_owner c a b target db).1) u r e (add_unchanged c target)
  owner_only c (creates _ _ _) e = absurd (ground arith)
  owner_only c (joins _ _) e = absurd (ground arith)
  owner_only c (sends _ _ _ _) e = absurd (ground arith)
  owner_only c (leaves _ _) e = absurd (ground arith)
  owner_only c (stores_key _ _ _) e = absurd (ground arith)
