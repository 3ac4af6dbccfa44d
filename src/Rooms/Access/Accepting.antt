-- ===== src/Rooms/Access/Accepting.antt =====
-- What each answer of `acceptRequest` means.
use pookie_chat.Prelude.{
  ltb, ◌==◌, ==_iff, ==_refl, Option-cases, find, find_holds, find-append_none, find-update, ℕ, ◌≤◌,
  ◌≡◌, refl, ap, ◌∙◌, inl, inr, true, Option, none, some, List, [], ◌∷◌, ◌++◌, arith,
}
use pookie_chat.Domain.Text.{Text}
use pookie_chat.Server.{roll_back, Result, ok, err}
use pookie_chat.Server.Rows.{RoomRow, MemberRole, MemberRow, RequestStatus, RequestRow}
use pookie_chat.Server.Database.{push_to_user, push_to_users, Database, Context}
use pookie_chat.Server.Reason.{at_require, at_bind}
use pookie_chat.Rooms.Tables.{
  is_pending, is_membership, room_by_id, membership, member_count, request_by_id, review_requests,
  upsert_package,
}
use pookie_chat.Rooms.Reason.{at_active_room, at_open_request, new_member, create_member_free}
use pookie_chat.Rooms.Requests.{
  ensure_member, deliver_key, accept_in_transaction, accept_request, Accepted,
}

-- What a success of `acceptRequest` leaves, and that a failure leaves all as it was.
abbrev pub accepted_row : ℕ → ℕ → RequestRow → RequestRow
accepted_row now reviewer r = record r {
  status = RequestStatus.accepted;
  reviewed_at = some now;
  reviewed_by_id = some reviewer;
}

abbrev pub IsAccepted : ℕ → ℕ → ℕ → ℕ → Database → Result ℕ × Database → Type 0
IsAccepted now owner_id room_id id db (ok n, after) =
    (room : RoomRow) × (request : RequestRow) × (row : MemberRow) × (room_by_id room_id db.rooms
      ≡ some room)
    × (room.owner_id ≡ owner_id)
    × (request_by_id id db.requests ≡ some request)
    × (request.room_id ≡ room_id)
    × (is_pending request.status ≡ true)
    × (membership room_id request.requester_id after.members ≡ some row)
    × (n ≤ room.max_members)
    × (request_by_id id after.requests ≡ some (accepted_row now owner_id request))
IsAccepted now owner_id room_id id db (err e, after) = after ≡ db

-- The same of the transaction.
abbrev Admits : ℕ → ℕ → ℕ → ℕ → Database → Result Accepted × Database → Type 0
Admits now owner_id room_id id db (ok a, after) =
    IsAccepted now owner_id room_id id db (ok a.new_member_count, after)
Admits now owner_id room_id id db (err e, after) = Unit {0}

abbrev IsIn : ℕ → ℕ → Database → Result (Unit {0}) × Database → Type 0
IsIn room user db (ok a, s) =
    (row : MemberRow) × (membership room user s.members ≡ some row) × (s.requests ≡ db.requests)
IsIn room user db (err e, s) = Unit {0}

added :
    (room user : ℕ) (row : MemberRow) (ms : List MemberRow)
    → membership room user ms ≡ none
    → row.room_id ≡ room
    → row.user_id ≡ user
    → membership room user (ms ++ row ∷ []) ≡ some row
unfolding membership find
added room user row ms absent here them =
    find-append_none (is_membership room user) ms (row ∷ []) absent
    ∙ rw (here, them, ==_refl room, ==_refl user) refl

ensure_member-IsIn :
    (room user now : ℕ) (db : Database) → IsIn room user db (ensure_member room user now db)
unfolding ensure_member
ensure_member-IsIn room user now db = elim (Option-cases (membership room user db.members)) [
  | inr (row, present) ↦ rw present (row, present, refl)
  | inl absent ↦
      let row : MemberRow = new_member room user MemberRole.member now db in
      rw (absent, create_member_free room user MemberRole.member now db absent)
        (row, added room user row db.members absent refl refl, refl)
]

deliver_key-members :
    (c : Context) (room epoch recipient sender : ℕ) (key iv : Option Text) (db : Database)
    → (deliver_key c room epoch recipient sender key iv db).members ≡ db.members
unfolding deliver_key upsert_package
deliver_key-members c room epoch recipient sender (some (k ∷ key)) (some (n ∷ iv)) db = refl
deliver_key-members c room epoch recipient sender _ _ db = refl

deliver_key-requests :
    (c : Context) (room epoch recipient sender : ℕ) (key iv : Option Text) (db : Database)
    → (deliver_key c room epoch recipient sender key iv db).requests ≡ db.requests
unfolding deliver_key upsert_package
deliver_key-requests c room epoch recipient sender (some (k ∷ key)) (some (n ∷ iv)) db = refl
deliver_key-requests c room epoch recipient sender _ _ db = refl

reviewed :
    (id now reviewer : ℕ) (db : Database) (request : RequestRow)
    → request_by_id id db.requests ≡ some request
    → request_by_id id
        (review_requests (λ r. r.id == id) RequestStatus.accepted now reviewer db).requests
      ≡ some (accepted_row now reviewer request)
unfolding request_by_id review_requests
reviewed id now reviewer db request e =
    find-update (λ (r : RequestRow). r.id == id) (λ r. r.id == id) (accepted_row now reviewer)
      (λ r. refl) db.requests
    ∙ rw (e, find_holds (λ (r : RequestRow). r.id == id) db.requests request e) refl

accept_in_transaction-Admits :
    (c : Context) (owner_id room_id id : ℕ) (key iv : Option Text) (db : Database)
    → Admits c.now owner_id room_id id db (accept_in_transaction c owner_id room_id id key iv db)
unfolding accept_in_transaction
accept_in_transaction-Admits c owner_id room_id id key iv db =
    let p = Admits c.now owner_id room_id id db in
    at_active_room p (room_by_id room_id db.rooms) _ _ db tt λ room found live.
      at_require p (room.owner_id == owner_id) _ _ db tt λ own.
        at_open_request p room_id (request_by_id id db.requests) _ db (λ e. tt)
          λ request is_request here waits.
            at_require p (ltb (member_count room_id db.members) room.max_members) _ _ db tt λ space.
              at_bind p
                (IsIn room_id request.requester_id
                  (review_requests (λ r. r.id == id) RequestStatus.accepted c.now owner_id db))
                _ _
                (ensure_member-IsIn room_id request.requester_id c.now
                  (review_requests (λ r. r.id == id) RequestStatus.accepted c.now owner_id db))
                (λ e s h. tt)
                λ a s (row, present, same). (
                  room,
                  request,
                  row,
                  found,
                  (==_iff _ _).0 own,
                  is_request,
                  here,
                  waits,
                  ap (membership room_id request.requester_id) (
                        deliver_key-members c room_id room.key_epoch request.requester_id owner_id
                          key iv s)
                      ∙ present,
                  ground arith,
                  ap (request_by_id id) (
                        deliver_key-requests c room_id room.key_epoch request.requester_id owner_id
                          key iv s
                        ∙ same)
                      ∙ reviewed id c.now owner_id db request is_request,
                )

-- The transaction as a whole: where it fails, the database is as before.
abbrev AdmitsOrBack : ℕ → ℕ → ℕ → ℕ → Database → Result Accepted × Database → Type 0
AdmitsOrBack now owner_id room_id id db (ok a, after) =
    Admits now owner_id room_id id db (ok a, after)
AdmitsOrBack now owner_id room_id id db (err e, after) = after ≡ db

rolled_back :
    (now owner_id room_id id : ℕ) (db : Database) (q : Result Accepted × Database)
    → Admits now owner_id room_id id db q
    → AdmitsOrBack now owner_id room_id id db (roll_back db q)
rolled_back now owner_id room_id id db (ok a, s) h = h
rolled_back now owner_id room_id id db (err e, s) h = refl

-- `acceptRequest`: where it returns, the owner has accepted a request of the room that was pending,
-- the request is marked as accepted by the owner, the requester is a member, and the number that is
-- told is within the room's limit; where it throws, at whatever point, everything is as before.
pub accept_request-IsAccepted :
    (c : Context) (owner_id room_id id : ℕ) (key iv : Option Text) (db : Database)
    → IsAccepted c.now owner_id room_id id db (accept_request c owner_id room_id id key iv db)
unfolding accept_request push_to_user push_to_users
accept_request-IsAccepted c owner_id room_id id key iv db =
    at_bind (IsAccepted c.now owner_id room_id id db) (AdmitsOrBack c.now owner_id room_id id db)
      (roll_back db (accept_in_transaction c owner_id room_id id key iv db)) _
      (rolled_back c.now owner_id room_id id db _
        (accept_in_transaction-Admits c owner_id room_id id key iv db))
      (λ e s back. back) (λ a s h. h)
