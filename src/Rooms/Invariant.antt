-- ===== src/Rooms/Invariant.antt =====
-- The well-formedness of the tables of rooms, and what the writes of Rooms/Tables do to it.
pub mod Writes
pub mod Updates
pub mod Operations
pub mod Joining
pub mod Transactions
pub mod Settings
pub mod Loops
pub mod Reach
use pookie_chat.Prelude.{
  Bool-cases, find, count, All, find-All, All-mono, ℕ, ◌≤◌, ◌<◌, ◌≡◌, sym, ap, ◌∙◌, subst, ◌≢◌, inl,
  inr, Bool, some, List, [], ◌∷◌, arith,
}
use pookie_chat.Server.Rows.{RoomRow, owner, MemberRow}
use pookie_chat.Server.Database.{Database}
use pookie_chat.Rooms.Tables.{is_membership, membership, member_count}

-- Ids are distinct and below the next one.
abbrev pub AreDistinct : ℕ → List RoomRow → Type 0
AreDistinct next [] = Unit
AreDistinct next (r ∷ rs) = (r.id < next) × All (λ s. s.id ≢ r.id) rs × AreDistinct next rs

abbrev pub AreDistinctMembers : ℕ → List MemberRow → Type 0
AreDistinctMembers next [] = Unit
AreDistinctMembers next (m ∷ ms) =
    (m.id < next) × (m.room_id < next) × All (λ k. k.id ≢ m.id) ms × AreDistinctMembers next ms

-- What holds of one room: its limit is a legal one and is kept, its owner is a member in the role
-- of the owner, and nobody else has that role.
pub record IsRoom (members : List MemberRow) (r : RoomRow) : Type 0 where
  pub at_least_two : 2 ≤ r.max_members
  pub at_most_2000 : r.max_members ≤ 2000
  pub within : member_count r.id members ≤ r.max_members
  pub owned : (m : MemberRow) × (membership r.id r.owner_id members ≡ some m) × (m.role ≡ owner)
  pub sole : All (λ m. m.room_id ≡ r.id → m.role ≡ owner → m.user_id ≡ r.owner_id) members

-- Nobody is in a room twice.
abbrev pub AreOnce : List MemberRow → Type 0
AreOnce members = (room user : ℕ) → count (is_membership room user) members ≤ 1

pub record IsRooms (next : ℕ) (rooms : List RoomRow) (members : List MemberRow) : Type 0 where
  pub rooms_distinct : AreDistinct next rooms
  pub members_distinct : AreDistinctMembers next members
  pub once : AreOnce members
  pub each : All (IsRoom members) rooms

pub record Inv (db : Database) : Type 0 where
  pub tables : IsRooms db.next_id db.rooms db.members

pub find_unique :
    (Q : RoomRow → Type 0) (next : ℕ) (p : RoomRow → Bool) (rooms : List RoomRow) (room : RoomRow)
    → AreDistinct next rooms
    → find p rooms ≡ some room
    → Q room
    → All (λ r. room.id ≡ r.id → Q r) rooms
unfolding find
find_unique Q next p [] room d e q = tt
find_unique Q next p (r ∷ rs) room (below, apart, d) e q = elim (Bool-cases (p r)) [
  | inl hit ↦
      let same : r ≡ room = ground arith in
      (
        λ _. subst Q (sym same) q,
        All-mono (λ s. s.id ≢ r.id) (λ s. room.id ≡ s.id → Q s)
            (λ s h k. absurd (h (sym k ∙ ap (λ (x : RoomRow). x.id) (sym same)))) rs apart,
      )
  | inr miss ↦
      let later : find p rs ≡ some room = ground arith in
      (
        λ k. absurd (find-All (λ s. s.id ≢ r.id) p rs room apart later k),
        find_unique Q next p rs room d later q,
      )
]

-- Two members that are found and share their id are one.
pub same_member :
    (next : ℕ) (p q : MemberRow → Bool) (ms : List MemberRow) (a b : MemberRow)
    → AreDistinctMembers next ms
    → find p ms ≡ some a
    → find q ms ≡ some b
    → a.id ≡ b.id
    → a ≡ b
unfolding find
same_member next p q [] a b d e f h = absurd (ground arith)
same_member next p q (m ∷ ms) a b (below, room_below, apart, d) e f h = ground (
  arith,
  same_member next p q ms a b d,
  find-All (λ k. k.id ≢ m.id) p ms a apart,
  find-All (λ k. k.id ≢ m.id) q ms b apart,
)
