-- ===== src/Rooms/Invariant/Transactions.antt =====
-- The operations on rooms that work in a transaction, and those that lock or delete a room.
use pookie_chat.Prelude.{ltb, ◌==◌, ℕ, refl, Bool, Option, some, ◌∷◌, arith}
use pookie_chat.Server.Database.{Database, Context}
use pookie_chat.Server.{roll_back, Result, ok, err}
use pookie_chat.Server.Reason.{at_require, at_or_throw, at_bind}
use pookie_chat.Rooms.Reason.{at_active_room, at_open_request}
use pookie_chat.Rooms.Tables.{room_by_id, member_count, request_by_id}
use pookie_chat.Rooms.Invariant.{Inv}
use pookie_chat.Domain.Text.{Text}
use pookie_chat.Rooms.Requests.{
  deliver_key, accept_in_transaction, accept_request, reject_in_transaction, reject_request,
}
use pookie_chat.Rooms.Invariant.Operations.{Keeps, update_room-Inv}
use pookie_chat.Rooms.Invariant.Joining.{ensure_member-Inv}
use pookie_chat.Server.Rows.{RoomStatus}
use pookie_chat.Rooms.Settings.{set_join_locked, burn_password_hash, is_right_password, delete_room}

pub transaction-Keeps :
    {B : Type 0} (s : Database) (q : Result B × Database) → Inv s → Keeps q → Keeps (roll_back s q)
transaction-Keeps s (ok a, t) v h = h
transaction-Keeps s (err e, t) v h = v

deliver_key-Inv :
    (c : Context) (room epoch recipient sender : ℕ) (key nonce : Option Text) (db : Database)
    → Inv db
    → Inv (deliver_key c room epoch recipient sender key nonce db)
unfolding deliver_key
deliver_key-Inv c room epoch recipient sender (some (k ∷ key)) (some (n ∷ nonce)) db v = record {
  tables = v.tables;
}
deliver_key-Inv c room epoch recipient sender _ _ db v = v

accept_in_transaction-Inv :
    (c : Context) (owner_id room_id request_id : ℕ) (key nonce : Option Text) (db : Database)
    → Inv db
    → Inv (accept_in_transaction c owner_id room_id request_id key nonce db).1
unfolding accept_in_transaction
accept_in_transaction-Inv c owner_id room_id request_id key nonce db v =
    at_active_room Keeps (room_by_id room_id db.rooms) _ _ db v λ room is_room live.
      at_require Keeps (room.owner_id == owner_id) _ _ db v λ allowed.
        at_open_request Keeps room_id (request_by_id request_id db.requests) _ db (λ e. v)
          λ req is_req here open_req.
            at_require Keeps (ltb (member_count room_id db.members) room.max_members) _ _ db v
              λ space.
                at_bind Keeps Keeps _ _
                  (ensure_member-Inv room room_id req.requester_id c.now _
                    (record { tables = v.tables }) is_room (ground arith))
                  (λ e s w. w)
                  (λ a s w.
                    deliver_key-Inv c room_id room.key_epoch req.requester_id owner_id key nonce s
                      w)

pub accept_request-Inv :
    (c : Context) (owner_id room_id request_id : ℕ) (key nonce : Option Text) (db : Database)
    → Inv db
    → Inv (accept_request c owner_id room_id request_id key nonce db).1
unfolding accept_request
accept_request-Inv c owner_id room_id request_id key nonce db v =
    at_bind Keeps Keeps
      (roll_back db (accept_in_transaction c owner_id room_id request_id key nonce db)) _
      (transaction-Keeps db (accept_in_transaction c owner_id room_id request_id key nonce db) v
        (accept_in_transaction-Inv c owner_id room_id request_id key nonce db v))
      (λ e s w. w) (λ a s w. record { tables = w.tables })

reject_in_transaction-Inv :
    (c : Context) (owner_id room_id request_id : ℕ) (db : Database)
    → Inv db
    → Inv (reject_in_transaction c owner_id room_id request_id db).1
unfolding reject_in_transaction
reject_in_transaction-Inv c owner_id room_id request_id db v =
    at_active_room Keeps (room_by_id room_id db.rooms) _ _ db v λ room is_room live.
      at_require Keeps (room.owner_id == owner_id) _ _ db v λ allowed.
        at_open_request Keeps room_id (request_by_id request_id db.requests) _ db (λ e. v)
          λ req is_req here still. record { tables = v.tables }

pub reject_request-Inv :
    (c : Context) (owner_id room_id request_id : ℕ) (db : Database)
    → Inv db
    → Inv (reject_request c owner_id room_id request_id db).1
unfolding reject_request
reject_request-Inv c owner_id room_id request_id db v =
    at_bind Keeps Keeps (roll_back db (reject_in_transaction c owner_id room_id request_id db)) _
      (transaction-Keeps db (reject_in_transaction c owner_id room_id request_id db) v
        (reject_in_transaction-Inv c owner_id room_id request_id db v))
      (λ e s w. w) (λ a s w. record { tables = w.tables })

pub set_join_locked-Inv :
    (owner_id room_id : ℕ) (locked : Bool) (db : Database)
    → Inv db
    → Inv (set_join_locked owner_id room_id locked db).1
unfolding set_join_locked
set_join_locked-Inv owner_id room_id locked db v =
    at_active_room Keeps (room_by_id room_id db.rooms) _ _ db v λ room is_room live.
      at_require Keeps (room.owner_id == owner_id) _ _ db v λ allowed. record {
        tables =
            (update_room-Inv room_id (λ r. record r { join_locked = locked }) db v
              (λ r e h. (refl, refl, h.at_least_two, h.at_most_2000, h.within))).tables;
      }

pub delete_room-Inv :
    (c : Context) (owner_id room_id : ℕ) (password : Option Text) (db : Database)
    → Inv db
    → Inv (delete_room c owner_id room_id password db).1
unfolding delete_room
delete_room-Inv c owner_id room_id password db v =
    at_active_room Keeps (room_by_id room_id db.rooms) _ _ db v λ room is_room live.
      at_require Keeps (room.owner_id == owner_id) _ _ db v λ allowed.
        at_or_throw Keeps (burn_password_hash owner_id db.burn_passwords) _ _ db v λ hash is_hash.
          at_require Keeps (is_right_password c password hash) _ _ db v λ right. record {
            tables =
                (update_room-Inv room_id (λ r. record r { status = RoomStatus.deleted }) db v
                  (λ r e h. (refl, refl, h.at_least_two, h.at_most_2000, h.within))).tables;
          }
