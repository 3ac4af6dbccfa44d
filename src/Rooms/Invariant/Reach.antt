-- ===== src/Rooms/Invariant/Reach.antt =====
-- Every history of requests to rooms.service.ts, from the empty database on.
use pookie_chat.Prelude.{count, ℕ, ◌≤◌, Bool, Option, List, [], ◌∷◌, arith}
use pookie_chat.Server.Database.{empty_database, Database, Context}
use pookie_chat.Rooms.Tables.{is_membership}
use pookie_chat.Rooms.Invariant.{Inv}
use pookie_chat.Domain.Text.{Text}
use pookie_chat.Rooms.Requests.{accept_request, reject_request}
use pookie_chat.Rooms.Invariant.Operations.{
  leave_room-Inv, remove_member-Inv, add_member_by_owner-Inv,
}
use pookie_chat.Rooms.Invariant.Joining.{join_by_code-Inv}
use pookie_chat.Server.Rows.{RoomMessageRow}
use pookie_chat.Rooms.Settings.{set_join_locked, delete_room, update_room_settings, UpdateRoom}
use pookie_chat.Rooms.Members.{leave_room, remove_member, add_member_by_owner}
use pookie_chat.Rooms.Join.{join_by_code}
use pookie_chat.Rooms.Messages.{send_message, SendRoomMessage}
use pookie_chat.Rooms.Keys.{store_key_package, StoreKeyPackage}
use pookie_chat.Rooms.Create.{create, CreateRoom, Draw}
use pookie_chat.Rooms.Invariant.Transactions.{
  accept_request-Inv, reject_request-Inv, set_join_locked-Inv, delete_room-Inv,
}
use pookie_chat.Rooms.Invariant.Settings.{update_room_settings-Inv}
use pookie_chat.Rooms.Invariant.Loops.{send_message-Inv, store_key_package-Inv, create-Inv}

-- A request that changes the database, with what it is given from outside.
pub data Request : Type 0 where
  creates : (user : ℕ) → CreateRoom → List Draw → Request
  joins : (user : ℕ) (code : Text) → Request
  accepts : (owner_id room_id request_id : ℕ) (key nonce : Option Text) → Request
  rejects : (owner_id room_id request_id : ℕ) → Request
  sends : (user room_id : ℕ) → SendRoomMessage → List (List RoomMessageRow) → Request
  leaves : (user room_id : ℕ) → Request
  locks : (owner_id room_id : ℕ) → Bool → Request
  deletes : (owner_id room_id : ℕ) → Option Text → Request
  stores_key : (user room_id : ℕ) → StoreKeyPackage → Request
  updates : (owner_id room_id : ℕ) → UpdateRoom → Request
  removes : (owner_id room_id target : ℕ) → Request
  adds : (owner_id room_id target : ℕ) → Request

-- The database after a request, whether it returns or throws.
unfoldable pub perform : Context → Request → Database → Database
perform c (creates user dto draws) db = (create c user dto draws db).1
perform c (joins user code) db = (join_by_code c user code db).1
perform c (accepts owner_id room_id id key nonce) db =
    (accept_request c owner_id room_id id key nonce db).1
perform c (rejects owner_id room_id id) db = (reject_request c owner_id room_id id db).1
perform c (sends user room_id dto rounds) db = (send_message c user room_id dto rounds db).1
perform c (leaves user room_id) db = (leave_room user room_id db).1
perform c (locks owner_id room_id locked) db = (set_join_locked owner_id room_id locked db).1
perform c (deletes owner_id room_id password) db = (delete_room c owner_id room_id password db).1
perform c (stores_key user room_id dto) db = (store_key_package c user room_id dto db).1
perform c (updates owner_id room_id dto) db = (update_room_settings c owner_id room_id dto db).1
perform c (removes owner_id room_id target) db = (remove_member owner_id room_id target db).1
perform c (adds owner_id room_id target) db = (add_member_by_owner c owner_id room_id target db).1

perform-Inv : (c : Context) (r : Request) (db : Database) → Inv db → Inv (perform c r db)
unfolding perform
perform-Inv c (creates user dto draws) = create-Inv c user dto draws
perform-Inv c (joins user code) = join_by_code-Inv c user code
perform-Inv c (accepts owner_id room_id id key nonce) =
    accept_request-Inv c owner_id room_id id key nonce
perform-Inv c (rejects owner_id room_id id) = reject_request-Inv c owner_id room_id id
perform-Inv c (sends user room_id dto rounds) = send_message-Inv c user room_id dto rounds
perform-Inv c (leaves user room_id) = leave_room-Inv user room_id
perform-Inv c (locks owner_id room_id locked) = set_join_locked-Inv owner_id room_id locked
perform-Inv c (deletes owner_id room_id password) = delete_room-Inv c owner_id room_id password
perform-Inv c (stores_key user room_id dto) = store_key_package-Inv c user room_id dto
perform-Inv c (updates owner_id room_id dto) = update_room_settings-Inv c owner_id room_id dto
perform-Inv c (removes owner_id room_id target) = remove_member-Inv owner_id room_id target
perform-Inv c (adds owner_id room_id target) = add_member_by_owner-Inv c owner_id room_id target

-- A history: each request comes with its clock and secrets.
pub run : List (Context × Request) → Database → Database
run [] db = db
run ((c, r) ∷ later) db = run later (perform c r db)

run-Inv : (history : List (Context × Request)) (db : Database) → Inv db → Inv (run history db)
unfolding run
run-Inv [] db v = v
run-Inv ((c, r) ∷ later) db v = run-Inv later (perform c r db) (perform-Inv c r db v)

-- After any history of requests, from the empty database on and whether they succeed or fail: no
-- two rooms share an id, nobody is in a room twice, and every room has between 2 and 2000 places,
-- no more members than places, its owner as a member in the owner's role, and nobody else in it.
pub reachable_well_formed : (history : List (Context × Request)) → Inv (run history empty_database)
unfolding count
reachable_well_formed history = run-Inv history empty_database (record {
  tables = record {
    rooms_distinct = tt;
    members_distinct = tt;
    once = λ room user. nothing room user;
    each = tt;
  };
})
  where
    nothing : (room user : ℕ) → count (is_membership room user) [] ≤ 1
    nothing room user = omega arith
