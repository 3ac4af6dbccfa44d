-- ===== src/Rooms/Invariant/Writes.antt =====
-- Each write of Rooms/Tables keeps the tables of rooms well formed, under the tests that the
-- operations make before it.
use native.Mathlib.Decide.{ℕ_discrete}
use native.Mathlib.Nat.{le_trans}
use pookie_chat.Prelude.{
  ◌==◌, ==_iff, Bool-cases, find, keep, count, count-append, count-keep-le, count-none, find-append,
  find-keep, All, All-append, All-keep, All-mono, ℕ, ◌+◌, ◌≤◌, ◌<◌, ◌≡◌, sym, ap, ◌∙◌, subst, ◌≢◌,
  inl, inr, Bool, true, not, none, some, List, [], ◌∷◌, ◌++◌, arith,
}
use pookie_chat.Server.Rows.{RoomRow, owner, MemberRow}
use pookie_chat.Rooms.Tables.{in_room, is_membership, membership, member_count}
use pookie_chat.Rooms.Invariant.{
  AreDistinct, AreDistinctMembers, AreOnce, same_member, IsRoom, IsRooms,
}

pub rooms_below : (n : ℕ) (rooms : List RoomRow) → AreDistinct n rooms → AreDistinct (n + 1) rooms
rooms_below n [] d = tt
rooms_below n (r ∷ rs) d = (omega arith, d.1, rooms_below n rs d.2)

pub members_below :
    (n : ℕ) (ms : List MemberRow) → AreDistinctMembers n ms → AreDistinctMembers (n + 1) ms
members_below n [] d = tt
members_below n (m ∷ ms) d = (omega arith, omega arith, d.2, members_below n ms d.3)

pub members_fresh :
    (n : ℕ) (ms : List MemberRow) (row : MemberRow)
    → AreDistinctMembers n ms
    → row.id ≡ n
    → row.room_id < n + 1
    → AreDistinctMembers (n + 1) (ms ++ row ∷ [])
members_fresh n [] row d e h = (omega arith, h, tt, tt)
members_fresh n (m ∷ ms) row d e h = (
  omega arith,
  omega arith,
  All-append (λ k. k.id ≢ m.id) ms (row ∷ []) d.2 ((λ k. omega arith), tt),
  members_fresh n ms row d.3 e h,
)

members_kept :
    (n : ℕ) (p : MemberRow → Bool) (ms : List MemberRow)
    → AreDistinctMembers n ms
    → AreDistinctMembers n (keep p ms)
unfolding keep
members_kept n p [] d = tt
members_kept n p (m ∷ ms) d =
    ground (arith, members_kept n p ms d.3, All-keep (λ k. k.id ≢ m.id) p ms d.2)

within_added :
    (ms : List MemberRow) (row : MemberRow) (r : RoomRow)
    → member_count r.id ms ≤ r.max_members
    → (row.room_id ≡ r.id → member_count row.room_id ms < r.max_members)
    → member_count r.id (ms ++ row ∷ []) ≤ r.max_members
unfolding count
within_added ms row r h s = elim (ℕ_discrete row.room_id r.id) [
  | yes e ↦
      let space : member_count r.id ms < r.max_members =
        subst (λ k. member_count k ms < r.max_members) e (s e) in
      rw (count-append (in_room r.id) ms (row ∷ [])) (ground arith)
  | no e ↦ rw (count-append (in_room r.id) ms (row ∷ [])) (ground arith)
]

-- A new member: a room that it enters has space, and if it enters as the owner it is the owner.
abbrev pub Fits : List MemberRow → MemberRow → RoomRow → Type 0
Fits ms row r =
    row.room_id ≡ r.id
    → (member_count row.room_id ms < r.max_members) × (row.role ≡ owner → row.user_id ≡ r.owner_id)

pub each_added :
    (ms : List MemberRow) (row : MemberRow) (rooms : List RoomRow)
    → All (IsRoom ms) rooms
    → All (Fits ms row) rooms
    → All (IsRoom (ms ++ row ∷ [])) rooms
unfolding membership find
each_added ms row [] h fits = tt
each_added ms row (r ∷ rs) (h, hs) (s, ss) = (
  record {
    at_least_two = h.at_least_two;
    at_most_2000 = h.at_most_2000;
    within = within_added ms row r h.within (λ e. (s e).0);
    owned = (
      h.owned.0,
      find-append (is_membership r.id r.owner_id) ms (row ∷ []) h.owned.0 h.owned.1,
      h.owned.2,
    );
    sole = All-append _ ms (row ∷ []) h.sole ((λ e f. (s e).1 f), tt);
  },
  each_added ms row rs hs ss,
)

pub once_added :
    (ms : List MemberRow) (row : MemberRow)
    → AreOnce ms
    → membership row.room_id row.user_id ms ≡ none
    → AreOnce (ms ++ row ∷ [])
unfolding count membership
once_added ms row h e room user = elim (Bool-cases (is_membership room user row)) [
  | inl same ↦
      let a : row.room_id ≡ room = ground arith in
      let b : row.user_id ≡ user = ground arith in
      let none_yet : count (is_membership room user) ms ≡ 0 =
        count-none (is_membership room user) ms (
          subst (λ k. find (is_membership k user) ms ≡ none) a
            (subst (λ k. find (is_membership row.room_id k) ms ≡ none) b e)) in
      rw (count-append (is_membership room user) ms (row ∷ [])) (ground arith)
  | inr other ↦
      let before : count (is_membership room user) ms ≤ 1 = h room user in
      rw (count-append (is_membership room user) ms (row ∷ [])) (ground arith)
]

pub add_member_lem :
    (n : ℕ) (rooms : List RoomRow) (ms : List MemberRow) (row : MemberRow)
    → IsRooms n rooms ms
    → row.id ≡ n
    → row.room_id < n
    → row.role ≢ owner
    → membership row.room_id row.user_id ms ≡ none
    → All (λ r. row.room_id ≡ r.id → member_count row.room_id ms < r.max_members) rooms
    → IsRooms (n + 1) rooms (ms ++ row ∷ [])
add_member_lem n rooms ms row v e below role free space = record {
  rooms_distinct = rooms_below n rooms v.rooms_distinct;
  members_distinct = members_fresh n ms row v.members_distinct e (omega arith);
  once = once_added ms row v.once free;
  each =
      each_added ms row rooms v.each
        (All-mono _ (Fits ms row) (λ r s e. (s e, λ f. absurd (role f))) rooms space);
}

kept_owner :
    (n : ℕ) (ms : List MemberRow) (p : MemberRow → Bool) (row : MemberRow) (r : RoomRow)
    → AreDistinctMembers n ms
    → find p ms ≡ some row
    → row.role ≢ owner
    → (h : IsRoom ms r) → not (h.owned.0.id == row.id) ≡ true
unfolding membership
kept_owner n ms p row r d e role h = elim (Bool-cases (h.owned.0.id == row.id)) [
  | inl same ↦
      let one : h.owned.0 ≡ row =
        same_member n (is_membership r.id r.owner_id) p ms h.owned.0 row d h.owned.1 e
          ((==_iff _ _).0 same) in
      absurd (role (ap (λ (m : MemberRow). m.role) (sym one) ∙ h.owned.2))
  | inr other ↦ rw other
]

-- The removal of a member who is no owner.
each_removed :
    (n : ℕ) (ms : List MemberRow) (p : MemberRow → Bool) (row : MemberRow) (rooms : List RoomRow)
    → AreDistinctMembers n ms
    → find p ms ≡ some row
    → row.role ≢ owner
    → All (IsRoom ms) rooms
    → All (IsRoom (keep (λ m. not (m.id == row.id)) ms)) rooms
unfolding membership
each_removed n ms p row [] d e role h = tt
each_removed n ms p row (r ∷ rs) d e role (h, hs) = (
  record {
    at_least_two = h.at_least_two;
    at_most_2000 = h.at_most_2000;
    within = omega (arith, count-keep-le (in_room r.id) (λ m. not (m.id == row.id)) ms, h.within);
    owned = (
      h.owned.0,
      find-keep (is_membership r.id r.owner_id) _ ms h.owned.0 h.owned.1
          (kept_owner n ms p row r d e role h),
      h.owned.2,
    );
    sole = All-keep _ (λ m. not (m.id == row.id)) ms h.sole;
  },
  each_removed n ms p row rs d e role hs,
)

pub remove_member_lem :
    (n : ℕ) (rooms : List RoomRow) (ms : List MemberRow) (room user : ℕ) (row : MemberRow)
    → IsRooms n rooms ms
    → membership room user ms ≡ some row
    → row.role ≢ owner
    → IsRooms n rooms (keep (λ m. not (m.id == row.id)) ms)
unfolding membership
remove_member_lem n rooms ms room user row v e role = record {
  rooms_distinct = v.rooms_distinct;
  members_distinct = members_kept n (λ m. not (m.id == row.id)) ms v.members_distinct;
  once = λ k u.
      le_trans (count-keep-le (is_membership k u) (λ m. not (m.id == row.id)) ms) (v.once k u);
  each = each_removed n ms (is_membership room user) row rooms v.members_distinct e role v.each;
}
