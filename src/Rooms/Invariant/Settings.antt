-- ===== src/Rooms/Invariant/Settings.antt =====
-- rooms.service.ts: updateRoom keeps the tables of rooms well formed.
use pookie_chat.Prelude.{
  ltb, ◌==◌, find-All, ℕ, ◌≤◌, ◌≡◌, refl, ap, subst, not, Option, none, some, List, ◌∷◌, arith,
}
use pookie_chat.Server.Database.{Database, Context}
use pookie_chat.Server.{Result, ok, err}
use pookie_chat.Server.Reason.{at_require, at_bind}
use pookie_chat.Rooms.Reason.{at_active_room}
use pookie_chat.Rooms.Tables.{room_by_id, member_count}
use pookie_chat.Rooms.Invariant.{IsRoom, Inv}
use pookie_chat.Domain.Text.{Text}
use pookie_chat.Rooms.Invariant.Operations.{Keeps, update_room-Inv, id_of_found}
use pookie_chat.Server.Rows.{RoomRow, MemberRow}
use pookie_chat.Rooms.Settings.{
  new_name, new_max_members, new_policy, with_open_key, update_room_settings, UpdateRoom,
}
use pookie_chat.Domain.RoomRules.{
  validate_room_name, validate_max_members, Validated, valid, invalid,
}
use pookie_chat.Domain.PairingCode.{Primitives}
use pookie_chat.Rooms.Create.{or_bad_request}

-- A step that only reads: the state is as before, and what it returns has a property.
abbrev pub Reads : {A : Type 0} → Database → (A → Type 0) → Result A × Database → Type 0
Reads db P (ok a, s) = (db ≡ s) × P a
Reads db P (err e, s) = db ≡ s

pub validated-Reads :
    {A : Type 0} (P : A → Type 0) (x : Validated A) (db : Database)
    → ((a : A) → x ≡ valid a → P a)
    → Reads db P (or_bad_request x db)
validated-Reads P (valid a) db h = (refl, h a refl)
validated-Reads P (invalid message) db h = refl

new_name-Reads :
    (name : Option Text) (old : Text) (db : Database)
    → Reads db (λ a. Unit {0}) (new_name name old db)
new_name-Reads none old db = (refl, tt)
new_name-Reads (some raw) old db =
    validated-Reads (λ a. Unit {0}) (validate_room_name raw) db (λ a e. tt)

-- A limit that may be set.
abbrev IsLimit : ℕ → Database → ℕ → Type 0
IsLimit room_id db n = (2 ≤ n) × (n ≤ 2000) × (member_count room_id db.members ≤ n)

pub legal_limit : (raw n : ℕ) → validate_max_members raw ≡ valid n → (2 ≤ n) × (n ≤ 2000)
unfolding validate_max_members
legal_limit raw n e = ground arith

new_max_members-Reads :
    (room_id old : ℕ) (limit : Option ℕ) (db : Database)
    → IsLimit room_id db old
    → Reads db (IsLimit room_id db) (new_max_members room_id limit old db)
unfolding new_max_members
new_max_members-Reads room_id old none db h = (refl, h)
new_max_members-Reads room_id old (some raw) db h =
    at_bind (Reads db (IsLimit room_id db)) (Reads db (λ n. (2 ≤ n) × (n ≤ 2000)))
      (or_bad_request (validate_max_members raw) db) _
      (validated-Reads (λ n. (2 ≤ n) × (n ≤ 2000)) (validate_max_members raw) db (legal_limit raw))
      (λ e s same. same)
      λ n s h.
        at_require (Reads db (IsLimit room_id db)) (not (ltb n (member_count room_id s.members))) _
          _ s h.0
          λ enough. (
            h.0,
            (
              h.1.0,
              h.1.1,
              rw (ap (λ (d : Database). member_count room_id d.members) h.0) (ground arith),
            ),
          )

open_key-IsFair :
    (p : Primitives) (key nonce : Option Text) (ms : List MemberRow) (r s : RoomRow)
    → ((s.id ≡ r.id)
        × (s.owner_id ≡ r.owner_id)
        × (2 ≤ s.max_members)
        × (s.max_members ≤ 2000)
        × (member_count r.id ms ≤ s.max_members))
    → let t = with_open_key p key nonce s in
      (t.id ≡ r.id)
      × (t.owner_id ≡ r.owner_id)
      × (2 ≤ t.max_members)
      × (t.max_members ≤ 2000)
      × (member_count r.id ms ≤ t.max_members)
open_key-IsFair p (some (k ∷ key)) (some (n ∷ nonce)) ms r s h = h
open_key-IsFair p _ _ ms r s h = h

-- The limit of a room that was found is one that may be set again.
old-IsLimit :
    (room_id : ℕ) (room : RoomRow) (db : Database)
    → Inv db
    → room_by_id room_id db.rooms ≡ some room
    → IsLimit room_id db room.max_members
unfolding room_by_id
old-IsLimit room_id room db v is_room =
    let here : IsRoom db.members room =
      find-All (IsRoom db.members) (λ r. r.id == room_id) db.rooms room v.tables.each is_room in
    (
      here.at_least_two,
      here.at_most_2000,
      subst (λ k. member_count k db.members ≤ room.max_members)
          (id_of_found room_id room db is_room) here.within,
    )

pub update_room_settings-Inv :
    (c : Context) (owner_id room_id : ℕ) (dto : UpdateRoom) (db : Database)
    → Inv db
    → Inv (update_room_settings c owner_id room_id dto db).1
unfolding update_room_settings
update_room_settings-Inv c owner_id room_id dto db v =
    at_active_room Keeps (room_by_id room_id db.rooms) _ _ db v λ room is_room live.
      at_require Keeps (room.owner_id == owner_id) _ _ db v λ allowed.
        at_bind Keeps (Reads db (λ a. Unit {0})) (new_name dto.name room.name db) _
          (new_name-Reads dto.name room.name db) (λ e s same. subst Inv same v)
          λ name s same.
            let w : Inv s = subst Inv same.0 v in
            let found : room_by_id room_id s.rooms ≡ some room =
              subst (λ (d : Database). room_by_id room_id d.rooms ≡ some room) same.0 is_room in
            at_bind Keeps (Reads s (IsLimit room_id s))
              (new_max_members room_id dto.max_members room.max_members s) _
              (new_max_members-Reads room_id room.max_members dto.max_members s
                (old-IsLimit room_id room s w found))
              (λ e t same2. subst Inv same2 w)
              λ n t h. record {
                tables =
                    (update_room-Inv room_id
                      (λ r.
                        with_open_key c.primitives dto.open_key_ciphertext dto.open_key_nonce
                          (record r {
                            name = name;
                            max_members = n;
                            join_policy = new_policy dto.join_policy room.join_policy;
                          }))
                      t (subst Inv h.0 w)
                      (λ r e k.
                        open_key-IsFair c.primitives dto.open_key_ciphertext dto.open_key_nonce
                          t.members r _
                          (
                            refl,
                            refl,
                            h.1.0,
                            h.1.1,
                            subst (λ j. member_count j t.members ≤ n) e
                                (subst (λ (d : Database). member_count room_id d.members ≤ n) h.0
                                  h.1.2),
                          ))).tables;
              }
