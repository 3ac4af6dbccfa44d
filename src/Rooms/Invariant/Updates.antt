-- ===== src/Rooms/Invariant/Updates.antt =====
-- An update of a room, and a new room with its owner, keep the tables of rooms well formed.
use native.Mathlib.Decide.{ℕ_discrete}
use pookie_chat.Prelude.{
  ◌==◌, find, count, update, count-append, find-append_none, All, All-append, All-mono, ℕ, ◌+◌, ◌≤◌,
  ◌<◌, ◌≡◌, refl, sym, ◌∙◌, ◌≢◌, true, false, none, List, [], ◌∷◌, ◌++◌, arith,
}
use pookie_chat.Server.Rows.{RoomRow, owner, MemberRow}
use pookie_chat.Rooms.Tables.{in_room, is_membership, membership, member_count}
use pookie_chat.Rooms.Invariant.{AreDistinct, AreDistinctMembers, IsRoom, IsRooms}
use pookie_chat.Rooms.Invariant.Writes.{members_below, members_fresh, Fits, each_added, once_added}

-- An update of one room that keeps its id and its owner, and sets a legal limit.
abbrev pub IsFair : List MemberRow → (RoomRow → RoomRow) → RoomRow → Type 0
IsFair ms f r =
    ((f r).id ≡ r.id)
    × ((f r).owner_id ≡ r.owner_id)
    × (2 ≤ (f r).max_members)
    × ((f r).max_members ≤ 2000)
    × (member_count r.id ms ≤ (f r).max_members)

fair-IsRoom :
    (ms : List MemberRow) (f : RoomRow → RoomRow) (r : RoomRow)
    → IsRoom ms r
    → IsFair ms f r
    → IsRoom ms (f r)
fair-IsRoom ms f r h (same_id, same_owner, low, high, within) = record {
  at_least_two = low;
  at_most_2000 = high;
  within = rw same_id within;
  owned = (h.owned.0, rw (same_id, same_owner) h.owned.1, h.owned.2);
  sole = rw (same_id, same_owner) h.sole;
}

each_updated :
    (id : ℕ) (f : RoomRow → RoomRow) (ms : List MemberRow) (rooms : List RoomRow)
    → All (IsRoom ms) rooms
    → All (λ r. id ≡ r.id → IsFair ms f r) rooms
    → All (IsRoom ms) (update (λ r. r.id == id) f rooms)
unfolding update
each_updated id f ms [] h fair = tt
each_updated id f ms (r ∷ rs) (h, hs) (g, gs) = elim (ℕ_discrete r.id id) [
  | yes e ↦
      let hit : (r.id == id) ≡ true = ground arith in
      (rw hit (fair-IsRoom ms f r h (g (sym e))), each_updated id f ms rs hs gs)
  | no e ↦
      let miss : (r.id == id) ≡ false = ground arith in (rw miss h, each_updated id f ms rs hs gs)
]

apart_updated :
    (id k : ℕ) (f : RoomRow → RoomRow) (rs : List RoomRow)
    → All (λ r. id ≡ r.id → (f r).id ≡ r.id) rs
    → All (λ s. s.id ≢ k) rs
    → All (λ s. s.id ≢ k) (update (λ r. r.id == id) f rs)
unfolding update
apart_updated id k f [] same h = tt
apart_updated id k f (r ∷ rs) (s, ss) (h, hs) = ground (arith, apart_updated id k f rs ss hs)

distinct_updated :
    (n id : ℕ) (f : RoomRow → RoomRow) (rooms : List RoomRow)
    → All (λ r. id ≡ r.id → (f r).id ≡ r.id) rooms
    → AreDistinct n rooms
    → AreDistinct n (update (λ r. r.id == id) f rooms)
unfolding update
distinct_updated n id f [] same d = tt
distinct_updated n id f (r ∷ rs) (s, ss) d = elim (ℕ_discrete r.id id) [
  | yes e ↦
      let hit : (r.id == id) ≡ true = ground arith in
      rw (hit, s (sym e))
        (d.0, apart_updated id r.id f rs ss d.1, distinct_updated n id f rs ss d.2)
  | no e ↦
      let miss : (r.id == id) ≡ false = ground arith in
      rw miss (d.0, apart_updated id r.id f rs ss d.1, distinct_updated n id f rs ss d.2)
]

pub update_room_lem :
    (n id : ℕ) (f : RoomRow → RoomRow) (rooms : List RoomRow) (ms : List MemberRow)
    → IsRooms n rooms ms
    → All (λ r. id ≡ r.id → IsFair ms f r) rooms
    → IsRooms n (update (λ r. r.id == id) f rooms) ms
update_room_lem n id f rooms ms v fair = record {
  rooms_distinct =
      distinct_updated n id f rooms (All-mono _ _ (λ r h e. (h e).0) rooms fair) v.rooms_distinct;
  members_distinct = v.members_distinct;
  once = v.once;
  each = each_updated id f ms rooms v.each fair;
}

no_members :
    (n k : ℕ) (ms : List MemberRow)
    → AreDistinctMembers n ms
    → n ≤ k
    → (count (in_room k) ms ≡ 0) × All (λ m. m.room_id ≢ k) ms
unfolding count
no_members n k [] d h = (refl, tt)
no_members n k (m ∷ ms) d h =
    let (none_later, others) = no_members n k ms d.3 h in
    (ground arith, ((λ e. omega arith), others))

find_none :
    (k user : ℕ) (ms : List MemberRow) → All (λ m. m.room_id ≢ k) ms → membership k user ms ≡ none
unfolding membership find
find_none k user [] h = refl
find_none k user (m ∷ ms) h = ground (arith, find_none k user ms h.1)

rooms_fresh :
    (n k : ℕ) (rooms : List RoomRow) (r : RoomRow)
    → AreDistinct n rooms
    → r.id ≡ n
    → n < k
    → AreDistinct k (rooms ++ r ∷ [])
rooms_fresh n k [] r d e h = (omega arith, tt, tt)
rooms_fresh n k (s ∷ rs) r d e h = (
  omega arith,
  All-append (λ x. x.id ≢ s.id) rs (r ∷ []) d.1 ((λ x. omega arith), tt),
  rooms_fresh n k rs r d.2 e h,
)

none-Fits :
    (n : ℕ) (ms : List MemberRow) (row : MemberRow) (rooms : List RoomRow)
    → AreDistinct n rooms
    → row.room_id ≡ n
    → All (Fits ms row) rooms
none-Fits n ms row [] d e = tt
none-Fits n ms row (r ∷ rs) d e = ((λ h. absurd (omega arith)), none-Fits n ms row rs d.2 e)

-- The new room, whose one member is its owner.
create_once-IsRoom :
    (n : ℕ) (ms : List MemberRow) (r : RoomRow) (row : MemberRow)
    → AreDistinctMembers n ms
    → r.id ≡ n
    → row.room_id ≡ r.id
    → row.user_id ≡ r.owner_id
    → row.role ≡ owner
    → 2 ≤ r.max_members
    → r.max_members ≤ 2000
    → IsRoom (ms ++ row ∷ []) r
unfolding membership find count
create_once-IsRoom n ms r row d e in_it is_user role low high =
    let (empty, elsewhere) = no_members n r.id ms d (omega arith) in
    record {
      at_least_two = low;
      at_most_2000 = high;
      within = rw (count-append (in_room r.id) ms (row ∷ []), empty) (ground arith);
      owned = (
        row,
        find-append_none (is_membership r.id r.owner_id) ms (row ∷ [])
              (find_none r.id r.owner_id ms elsewhere)
            ∙ ground arith,
        role,
      );
      sole =
          All-append _ ms (row ∷ [])
            (All-mono (λ m. m.room_id ≢ r.id)
              (λ m. m.room_id ≡ r.id → m.role ≡ owner → m.user_id ≡ r.owner_id)
              (λ m h k f. absurd (h k)) ms elsewhere)
            ((λ k f. is_user), tt);
    }

pub create_room_lem :
    (n : ℕ) (rooms : List RoomRow) (ms : List MemberRow) (r : RoomRow) (row : MemberRow)
    → IsRooms n rooms ms
    → r.id ≡ n
    → row.id ≡ n + 1
    → row.room_id ≡ r.id
    → row.user_id ≡ r.owner_id
    → row.role ≡ owner
    → 2 ≤ r.max_members
    → r.max_members ≤ 2000
    → IsRooms (n + 1 + 1) (rooms ++ r ∷ []) (ms ++ row ∷ [])
create_room_lem n rooms ms r row v e f in_it is_user role low high = record {
  rooms_distinct = rooms_fresh n (n + 1 + 1) rooms r v.rooms_distinct e (omega arith);
  members_distinct =
      members_fresh (n + 1) ms row (members_below n ms v.members_distinct) f (omega arith);
  once = once_added ms row v.once (
      find_none row.room_id row.user_id ms
        (no_members n row.room_id ms v.members_distinct (omega arith)).1);
  each =
      All-append (IsRoom (ms ++ row ∷ [])) rooms (r ∷ [])
        (each_added ms row rooms v.each (none-Fits n ms row rooms v.rooms_distinct (in_it ∙ e)))
        (create_once-IsRoom n ms r row v.members_distinct e in_it is_user role low high, tt);
}

-- Nobody is in a room whose id is still to be given.
pub nobody_in_new :
    (n user : ℕ) (ms : List MemberRow) → AreDistinctMembers n ms → membership n user ms ≡ none
nobody_in_new n user ms d = find_none n user ms (no_members n n ms d (omega arith)).1
