-- ===== src/Rooms/Messages/Delivery.antt =====
-- What a run of `sendMessage` leaves and answers, round by round and as a whole.
use mathlib.Core.List.{append-nil}
use pookie_chat.Domain.MessageState.Timers.{eq_text_iff}
use pookie_chat.Prelude.{
  any-some, ==_refl, Bool-cases, Option-cases, length, find, any, take, any-find, find-append,
  find-append_none, ℕ, zero, suc, ◌+◌, ◌<◌, ◌≡◌, refl, ◌∙◌, ◌⊎◌, inl, inr, true, false, none, some,
  List, [], ◌∷◌, ◌++◌, arith,
}
use pookie_chat.Server.{unique_violation, Result, ok, err}
use pookie_chat.Server.Rows.{RoomRow, MemberRow, RoomMessageRow}
use pookie_chat.Server.Database.{push_to_users, room_message, Database, Context}
use pookie_chat.Rooms.Tables.{is_active, room_by_id, membership, member_ids}
use pookie_chat.Rooms.Messages.{
  max_message_retry_attempts, max_sequence, has_number, has_client_id, create_message, reply,
  interfere, new_message, store_message, send_loop, send_message, SendRoomMessage, SentMessage,
}

-- No message of the room has a number above the maximum.
number_free :
    (room : ℕ) (ms : List RoomMessageRow) (n : ℕ)
    → max_sequence room ms < n
    → any (has_number room n) ms ≡ false
unfolding max_sequence any
number_free room [] n h = refl
number_free room (m ∷ ms) n h = ground (arith, number_free room ms n)

create_taken :
    (row : RoomMessageRow) (db : Database)
    → (any (has_number row.room_id row.sequence_number) db.messages ≡ true)
      ⊎ (any (has_client_id row.room_id row.client_message_id) db.messages ≡ true)
    → create_message row db ≡ (err unique_violation, db)
unfolding create_message
create_taken row db (inl number) = rw (number)
create_taken row db (inr id) = ground arith

module _ (c : Context) (user room_id : ℕ) (room : RoomRow) (dto : SendRoomMessage) where
  -- The database after the storing of a message with a number.
  abbrev pub stored : ℕ → Database → Database
  stored n db =
      let m = new_message c user room_id room dto db.next_id n in
      push_to_users (member_ids room_id db.members) (room_message room_id m.id n)
        (record db { messages = db.messages ++ m ∷ []; next_id = db.next_id + 1 })

  store_fresh :
      (n : ℕ) (db : Database)
      → any (has_number room_id n) db.messages ≡ false
      → any (has_client_id room_id dto.client_message_id) db.messages ≡ false
      → store_message c user room_id room dto n db
        ≡ (ok (reply (new_message c user room_id room dto db.next_id n)), stored n db)
  unfolding store_message create_message
  store_fresh n db number id = rw (number, id)

  store_taken :
      (n : ℕ) (db : Database)
      → (any (has_number room_id n) db.messages ≡ true)
        ⊎ (any (has_client_id room_id dto.client_message_id) db.messages ≡ true)
      → store_message c user room_id room dto n db ≡ (err unique_violation, db)
  unfolding store_message
  store_taken n db taken =
      rw (create_taken (new_message c user room_id room dto db.next_id n) db taken)

  -- What one round returns, by the three cases.

  round_known :
      (others : List RoomMessageRow) (rounds : List (List RoomMessageRow)) (db : Database)
      (m : RoomMessageRow)
      → find (has_client_id room_id dto.client_message_id) (db.messages ++ others) ≡ some m
      → send_loop c user room_id room dto (others ∷ rounds) db ≡ (ok (reply m), interfere others db)
  unfolding send_loop
  round_known others rounds db m known = rw (
    store_taken (max_sequence room_id db.messages + 1) (interfere others db) (
        inr
          (any-some (has_client_id room_id dto.client_message_id) (db.messages ++ others) m known)),
    known,
  )

  round_stored :
      (others : List RoomMessageRow) (rounds : List (List RoomMessageRow)) (db : Database)
      → any (has_number room_id (max_sequence room_id db.messages + 1)) (db.messages ++ others)
        ≡ false
      → find (has_client_id room_id dto.client_message_id) (db.messages ++ others) ≡ none
      → send_loop c user room_id room dto (others ∷ rounds) db ≡ (
        ok (
            reply (
              new_message c user room_id room dto db.next_id
                (max_sequence room_id db.messages + 1))),
        stored (max_sequence room_id db.messages + 1) (interfere others db),
      )
  unfolding send_loop
  round_stored others rounds db free unknown = rw (
      store_fresh (max_sequence room_id db.messages + 1) (interfere others db) free
        (any-find _ (db.messages ++ others) unknown))

  round_retried :
      (others : List RoomMessageRow) (rounds : List (List RoomMessageRow)) (db : Database)
      → any (has_number room_id (max_sequence room_id db.messages + 1)) (db.messages ++ others)
        ≡ true
      → find (has_client_id room_id dto.client_message_id) (db.messages ++ others) ≡ none
      → send_loop c user room_id room dto (others ∷ rounds) db
        ≡ send_loop c user room_id room dto rounds (interfere others db)
  unfolding send_loop
  round_retried others rounds db taken unknown = rw (
    store_taken (max_sequence room_id db.messages + 1) (interfere others db) (inl taken),
    unknown,
  )

  -- The reply is that of the stored message with the client's id.
  abbrev pub IsDelivered : Result SentMessage × Database → Type 0
  IsDelivered q =
      (m : RoomMessageRow) × (db : Database) × (q ≡ (ok (reply m), db))
      × (find (has_client_id room_id dto.client_message_id) db.messages ≡ some m)

  new_found :
      (ms : List RoomMessageRow) (id n : ℕ)
      → find (has_client_id room_id dto.client_message_id) ms ≡ none
      → find
          (has_client_id room_id dto.client_message_id)
          (ms ++ new_message c user room_id room dto id n ∷ [])
        ≡ some (new_message c user room_id room dto id n)
  unfolding find
  new_found ms id n unknown = rw (
    find-append_none (has_client_id room_id dto.client_message_id) ms
        (new_message c user room_id room dto id n ∷ []) unknown,
    ==_refl room_id,
    (eq_text_iff dto.client_message_id dto.client_message_id).1 refl,
  )

  -- A round stores the message, finds it stored, or hands over to the next where its number was
  -- taken by another message.
  round_cases :
      (others : List RoomMessageRow) (rounds : List (List RoomMessageRow)) (db : Database)
      → IsDelivered (send_loop c user room_id room dto (others ∷ rounds) db)
        ⊎ ((any (has_number room_id (max_sequence room_id db.messages + 1)) (db.messages ++ others)
              ≡ true)
            × (send_loop c user room_id room dto (others ∷ rounds) db
                ≡ send_loop c user room_id room dto rounds (interfere others db)))
  unfolding push_to_users
  round_cases others rounds db =
      elim (Option-cases
        (find (has_client_id room_id dto.client_message_id) (db.messages ++ others))) [
          | inr (m, known) ↦
              inl (m, interfere others db, round_known others rounds db m known, known)
          | inl unknown ↦
              elim (Bool-cases (
                any (has_number room_id (max_sequence room_id db.messages + 1))
                  (db.messages ++ others))) [
                    | inl taken ↦ inr (taken, round_retried others rounds db taken unknown)
                    | inr free ↦ inl (
                      new_message c user room_id room dto db.next_id
                          (max_sequence room_id db.messages + 1),
                      stored (max_sequence room_id db.messages + 1) (interfere others db),
                      round_stored others rounds db free unknown,
                      new_found (db.messages ++ others) db.next_id
                          (max_sequence room_id db.messages + 1) unknown,
                    )
                  ]
        ]

  loop_delivers :
      (noisy : List (List RoomMessageRow)) (rounds : List (List RoomMessageRow)) (db : Database)
      → IsDelivered (send_loop c user room_id room dto (noisy ++ [] ∷ rounds) db)
  loop_delivers [] rounds db = elim (round_cases [] rounds db) [
    | inl found ↦ found
    | inr (taken, on) ↦ absurd (
        ground (
          arith,
          taken,
          number_free room_id (db.messages ++ []) (max_sequence room_id db.messages + 1)
              (rw (append-nil db.messages) (ground arith)),
        ))
  ]
  loop_delivers (others ∷ noisy) rounds db = elim (round_cases others (noisy ++ [] ∷ rounds) db) [
    | inl found ↦ found
    | inr (taken, on) ↦ rw on (loop_delivers noisy rounds (interfere others db))
  ]

take-append {ℓ} :
    {A : Type ℓ} (n : ℕ) (xs ys : List A) (y : A)
    → length xs < n
    → (zs : List A) × (take n (xs ++ y ∷ ys) ≡ xs ++ y ∷ zs)
take-append zero xs ys y h = absurd (omega arith)
take-append (suc n) [] ys y h = (take n ys, refl)
take-append (suc n) (x ∷ xs) ys y h =
    let (zs, e) = take-append n xs ys y (omega arith) in (zs, rw e refl)

module _ (c : Context) (user room_id : ℕ) (dto : SendRoomMessage) (db : Database) (row : MemberRow)
    (room : RoomRow) (joined : membership room_id user db.members ≡ some row)
    (found : room_by_id room_id db.rooms ≡ some room) (live : is_active room.status ≡ true) where
  send_opens :
      (rounds : List (List RoomMessageRow))
      → send_message c user room_id dto rounds db
        ≡ send_loop c user room_id room dto (take max_message_retry_attempts rounds) db
  unfolding send_message
  send_opens rounds = rw (joined, found, live) refl

  -- A member of an active room who sends gets a reply, whatever the other members store in between,
  -- if one of the five rounds meets no other message: the reply is that of a stored message of the
  -- room with the client's id.
  pub send_message-IsDelivered :
      (noisy rounds : List (List RoomMessageRow))
      → length noisy < 5
      → IsDelivered c user room_id room dto
          (send_message c user room_id dto (noisy ++ [] ∷ rounds) db)
  send_message-IsDelivered noisy rounds few =
      let (rest, cut) = take-append 5 noisy rounds [] few in
      rw (send_opens (noisy ++ [] ∷ rounds), cut)
        (loop_delivers c user room_id room dto noisy rest db)

  -- Sending again what the room already has, by its client id, stores nothing: the reply is that of
  -- the stored message, and only the others' messages are new.
  send_message-known :
      (m : RoomMessageRow) (others : List RoomMessageRow) (rounds : List (List RoomMessageRow))
      → find (has_client_id room_id dto.client_message_id) db.messages ≡ some m
      → send_message c user room_id dto (others ∷ rounds) db ≡ (ok (reply m), interfere others db)
  send_message-known m others rounds known =
      send_opens (others ∷ rounds)
      ∙ round_known c user room_id room dto others (take 4 rounds) db m
          (find-append (has_client_id room_id dto.client_message_id) db.messages others m known)
