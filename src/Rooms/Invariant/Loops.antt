-- ===== src/Rooms/Invariant/Loops.antt =====
-- The operations on rooms that retry, and the ones that leave rooms and members alone.
use pookie_chat.Prelude.{
  Bool-cases, find, any, take, ℕ, ◌+◌, ◌≤◌, ◌≡◌, refl, subst, inl, inr, ◌||◌, Option, none, some,
  List, [], ◌∷◌, ◌++◌,
}
use pookie_chat.Server.Database.{Database, Context}
use pookie_chat.Server.{M, on_violation, unique_violation, Result, ok, err}
use pookie_chat.Rooms.Invariant.{Inv}
use pookie_chat.Rooms.Invariant.Operations.{Keeps}
use pookie_chat.Rooms.Invariant.Joining.{next-Inv}
use pookie_chat.Server.Rows.{RoomRow, MemberRole, RoomMessageRow}
use pookie_chat.Rooms.Messages.{
  max_message_retry_attempts, max_sequence, has_number, has_client_id, create_message, known_or,
  interfere, store_message, send_loop, send_message, SendRoomMessage, SentMessage,
}
use pookie_chat.Server.Reason.{at_or_throw, at_bind}
use pookie_chat.Rooms.Reason.{at_active_room, create_member_free}
use pookie_chat.Rooms.Tables.{room_by_id, membership}
use pookie_chat.Domain.Text.{Text}
use pookie_chat.Rooms.Invariant.Updates.{create_room_lem, nobody_in_new}
use pookie_chat.Domain.RoomRules.{validate_room_name, validate_max_members, generate_room_code}
use pookie_chat.Domain.MessageState.{eq_text}
use pookie_chat.Rooms.Keys.{store_key_package, StoreKeyPackage}
use pookie_chat.Rooms.Create.{
  max_code_collision_retry_attempts, or_bad_request, new_room, create_once, create_loop, create,
  CreateRoom, Draw,
}
use pookie_chat.Rooms.Invariant.Settings.{Reads, validated-Reads, legal_limit}

interfere-Inv : (others : List RoomMessageRow) (db : Database) → Inv db → Inv (interfere others db)
interfere-Inv others db v = record { tables = v.tables }

violation-Keeps :
    {A : Type 0} (q : Result A × Database) (handler : Unit {0} → M Database A)
    → Keeps q
    → ((s : Database) → Inv s → Keeps (handler tt s))
    → Keeps (on_violation handler q)
violation-Keeps (ok a, s) handler v h = v
violation-Keeps (err unique_violation, s) handler v h = h s v
violation-Keeps (err e, s) handler v h = v

module _ (c : Context) (user room_id : ℕ) (room : RoomRow) (dto : SendRoomMessage) where
  -- A new message takes an id, so the ids of later rows lie higher.
  store_message-Inv :
      (n : ℕ) (db : Database) → Inv db → Inv (store_message c user room_id room dto n db).1
  unfolding store_message create_message
  store_message-Inv n db v =
      elim (Bool-cases (
        any (has_number room_id n) db.messages
        || any (has_client_id room_id dto.client_message_id) db.messages)) [
          | inl taken ↦ rw taken v
          | inr free ↦ rw free (record { tables = (next-Inv [] db v).tables })
        ]

  known_or-Inv :
      (o : Option RoomMessageRow) (again : M Database SentMessage) (db : Database)
      → Inv db
      → Keeps (again db)
      → Keeps (known_or o again db)
  known_or-Inv none again db v h = h
  known_or-Inv (some m) again db v h = v

  send_loop-Inv :
      (rounds : List (List RoomMessageRow)) (db : Database)
      → Inv db
      → Inv (send_loop c user room_id room dto rounds db).1
  unfolding send_loop
  send_loop-Inv [] db v = v
  send_loop-Inv (others ∷ rounds) db v =
      violation-Keeps
        (store_message c user room_id room dto (max_sequence room_id db.messages + 1)
          (interfere others db))
        (λ _ s.
          known_or (find (has_client_id room_id dto.client_message_id) s.messages)
            (send_loop c user room_id room dto rounds) s)
        (store_message-Inv (max_sequence room_id db.messages + 1) (interfere others db)
          (interfere-Inv others db v))
        λ s w.
          known_or-Inv (find (has_client_id room_id dto.client_message_id) s.messages)
            (send_loop c user room_id room dto rounds) s w (send_loop-Inv rounds s w)

pub send_message-Inv :
    (c : Context) (user room_id : ℕ) (dto : SendRoomMessage) (rounds : List (List RoomMessageRow))
    (db : Database)
    → Inv db
    → Inv (send_message c user room_id dto rounds db).1
unfolding send_message
send_message-Inv c user room_id dto rounds db v =
    at_or_throw Keeps (membership room_id user db.members) _ _ db v λ row found.
      at_active_room Keeps (room_by_id room_id db.rooms) _ _ db v λ room is_room live.
        send_loop-Inv c user room_id room dto (take max_message_retry_attempts rounds) db v

pub store_key_package-Inv :
    (c : Context) (user room_id : ℕ) (dto : StoreKeyPackage) (db : Database)
    → Inv db
    → Inv (store_key_package c user room_id dto db).1
unfolding store_key_package
store_key_package-Inv c user room_id dto db v =
    at_or_throw Keeps (membership room_id user db.members) _ _ db v λ row found.
      at_active_room Keeps (room_by_id room_id db.rooms) _ _ db v
        λ room is_room live. record { tables = v.tables }

module _ (c : Context) (user : ℕ) (dto : CreateRoom) (name : Text) (max_members : ℕ)
    (low : 2 ≤ max_members) (high : max_members ≤ 2000) where
  -- The room and its owner's membership are new rows.
  create_once-Inv :
      (code : Text) (iv : List ℕ) (db : Database)
      → Inv db
      → Inv (create_once c user dto name max_members code iv db).1
  unfolding create_once
  create_once-Inv code iv db v =
      let r : RoomRow = new_room c user dto name max_members code iv db.next_id in
      elim (Bool-cases (any (λ x. eq_text x.code_hmac r.code_hmac) db.rooms)) [
        | inl taken ↦ rw taken v
        | inr free ↦
            let none_yet : membership db.next_id user db.members ≡ none =
              nobody_in_new db.next_id user db.members v.tables.members_distinct in
            rw free (
              rw
                (create_member_free db.next_id user MemberRole.owner c.now
                  (record db { rooms = db.rooms ++ r ∷ []; next_id = db.next_id + 1 }) none_yet)
                (record {
                  tables =
                      create_room_lem db.next_id db.rooms db.members r
                        (record {
                          id = db.next_id + 1;
                          room_id = db.next_id;
                          user_id = user;
                          role = MemberRole.owner;
                          joined_at = c.now;
                        })
                        v.tables refl refl refl refl refl low high;
                }))
      ]

  create_loop-Inv :
      (draws : List Draw) (db : Database)
      → Inv db
      → Inv (create_loop c user dto name max_members draws db).1
  unfolding create_loop
  create_loop-Inv [] db v = v
  create_loop-Inv (draw ∷ draws) db v =
      violation-Keeps
        (create_once c user dto name max_members (generate_room_code draw.code_bytes) draw.iv db)
        (λ _. create_loop c user dto name max_members draws)
        (create_once-Inv (generate_room_code draw.code_bytes) draw.iv db v) (create_loop-Inv draws)

pub create-Inv :
    (c : Context) (user : ℕ) (dto : CreateRoom) (draws : List Draw) (db : Database)
    → Inv db
    → Inv (create c user dto draws db).1
unfolding create
create-Inv c user dto draws db v =
    at_bind Keeps (Reads db (λ a. Unit {0})) (or_bad_request (validate_room_name dto.name) db) _
      (validated-Reads (λ a. Unit {0}) (validate_room_name dto.name) db (λ a e. tt))
      (λ e s same. subst Inv same v)
      λ name s same.
        let w : Inv s = subst Inv same.0 v in
        at_bind Keeps (Reads s (λ n. (2 ≤ n) × (n ≤ 2000)))
          (or_bad_request (validate_max_members dto.max_members) s) _
          (validated-Reads (λ n. (2 ≤ n) × (n ≤ 2000)) (validate_max_members dto.max_members) s
            (legal_limit dto.max_members))
          (λ e t same2. subst Inv same2 w)
          λ n t h.
            create_loop-Inv c user dto name n h.1.0 h.1.1
              (take max_code_collision_retry_attempts draws) t (subst Inv h.0 w)
