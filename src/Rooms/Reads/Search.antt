-- ===== src/Rooms/Reads/Search.antt =====
-- What `searchUsersForRoom` shows of the users.
use pookie_chat.Prelude.{
  All-kept, ltb, ◌==◌, ==_iff, Bool-cases, length, keep, any, take, All, All-mono, ℕ, zero, suc,
  ◌≤◌, ◌≡◌, refl, ◌≢◌, inl, inr, Bool, true, false, not, some, List, [], ◌∷◌, arith,
}
use pookie_chat.Server.Rows.{UserRow, RoomRow}
use pookie_chat.Server.Database.{Database}
use pookie_chat.Rooms.Tables.{in_room, room_by_id}
use pookie_chat.Rooms.Members.{conversation_of, is_blocked}
use pookie_chat.Rooms.Reads.{pick_users, is_candidate, search_users_for_room, FoundUser}
use pookie_chat.Domain.Text.{Text, trim}
use pookie_chat.Server.{Result, ok, err}
use pookie_chat.Server.Reason.{at_require}
use pookie_chat.Rooms.Reason.{at_active_room}

-- A user that may be shown: active, not the owner, on no blocked conversation with the owner.
abbrev pub IsShown : ℕ → ℕ → Database → FoundUser → Type 0
IsShown owner_id room_id db f =
    (u : UserRow) × (u.id ≡ f.id)
    × (f.id ≢ owner_id)
    × (u.is_active ≡ true)
    × (is_blocked (conversation_of f.id owner_id db.conversations) ≡ false)
    × (f.is_member ≡ any (λ m. m.user_id == f.id) (keep (in_room room_id) db.members))

pick_users-IsShown :
    (owner_id room_id : ℕ) (db : Database) (left : ℕ) (us : List UserRow)
    → All (λ u. (u.id ≢ owner_id) × (u.is_active ≡ true)) us
    → All (IsShown owner_id room_id db) (pick_users owner_id room_id db left us)
      × (length (pick_users owner_id room_id db left us) ≤ left)
unfolding pick_users
pick_users-IsShown owner_id room_id db left [] h = (tt, omega arith)
pick_users-IsShown owner_id room_id db zero (u ∷ us) h = (tt, omega arith)
pick_users-IsShown owner_id room_id db (suc left) (u ∷ us) (good, rest) =
    elim (Bool-cases (is_blocked (conversation_of u.id owner_id db.conversations))) [
      | inl blocked ↦ rw blocked (pick_users-IsShown owner_id room_id db (suc left) us rest)
      | inr free ↦
          let (shown, few) = pick_users-IsShown owner_id room_id db left us rest in
          rw free (((u, refl, good.0, good.1, free, refl), shown), omega arith)
    ]

All-take {ℓ κ} : {A : Type ℓ} (P : A → Type κ) (n : ℕ) (xs : List A) → All P xs → All P (take n xs)
All-take P zero xs h = tt
All-take P (suc n) [] h = tt
All-take P (suc n) (x ∷ xs) (h, hs) = (h, All-take P n xs hs)

-- The answer of a search: it changes nothing.
abbrev pub IsSearched : ℕ → ℕ → Database → Result (List FoundUser) × Database → Type 0
IsSearched owner_id room_id db (ok found, after) =
    (after ≡ db)
    × (length found ≤ 10)
    × All (IsShown owner_id room_id db) found
    × ((room : RoomRow) × (room_by_id room_id db.rooms ≡ some room) × (room.owner_id ≡ owner_id))
IsSearched owner_id room_id db (err e, after) = after ≡ db

-- `searchUsersForRoom` shows the owner of the room, and nobody else, at most ten active users, none
-- of them the owner or one with whom the owner's conversation is blocked, each with whether it is a
-- member; and it changes nothing.
search_users_for_room-IsSearched :
    (contains : Text → Text → Bool) (owner_id room_id : ℕ) (raw : Text) (db : Database)
    → IsSearched owner_id room_id db (search_users_for_room contains owner_id room_id raw db)
unfolding search_users_for_room
search_users_for_room-IsSearched contains owner_id room_id raw db =
    let p = IsSearched owner_id room_id db in
    let test = is_candidate contains owner_id (trim raw) in
    at_active_room p (room_by_id room_id db.rooms) _ _ db refl λ room found live.
      at_require p (room.owner_id == owner_id) _ _ db refl λ own.
        at_require p (not (ltb (length (trim raw)) 2)) _ _ db refl λ long.
          at_require p (not (ltb 50 (length (trim raw)))) _ _ db refl λ short.
            let good = pick_users-IsShown owner_id room_id db 10 (take 20 (keep test db.users)) (
              All-take _ 20 (keep test db.users) (
                All-mono (λ (u : UserRow). test u ≡ true)
                  (λ u. (u.id ≢ owner_id) × (u.is_active ≡ true))
                  (λ u h. ((λ e. ground arith), ground arith)) (keep test db.users)
                  (All-kept test db.users))) in
            (refl, good.1, good.0, (room, found, (==_iff _ _).0 own))
