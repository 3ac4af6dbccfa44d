-- ===== src/Rooms/Reads/Pages.antt =====
-- The pages of `getMembers`, taken together.
use native.Mathlib.Nat.{div-add-mod', mod-lt}
use pookie_chat.Prelude.{
  length, keep, take, drop, length-keep, ℕ, zero, suc, ◌+◌, ◌-◌, ◌*◌, ◌/◌, ◌≤◌, min, max, ◌≡◌, refl,
  sym, ◌∙◌, some, List, [], ◌∷◌, ◌++◌, arith,
}
use pookie_chat.Domain.MessageState.{insert_by, sort_by}
use pookie_chat.Server.{Result, ok, err}
use pookie_chat.Server.Rows.{MemberRow}
use pookie_chat.Server.Database.{Database}
use pookie_chat.Rooms.Reads.{members_by_age, get_members, MembersPage}
use pookie_chat.Rooms.Tables.{in_room, membership, member_count}

module _ {ℓ} {A : Type ℓ} where
  take_nil : (n : ℕ) → take {A = A} n [] ≡ []
  take_nil zero = refl
  take_nil (suc n) = refl

  take_more : (m n : ℕ) (xs : List A) → take (m + n) xs ≡ take m xs ++ take n (drop m xs)
  take_more zero n xs = ground arith
  take_more (suc m) n [] = rw (take_nil (suc m + n), take_nil n) refl
  take_more (suc m) n (x ∷ xs) =
      let next : suc m + n ≡ suc (m + n) = omega arith in rw (next, take_more m n xs) refl

  take_all : (n : ℕ) (xs : List A) → length xs ≤ n → take n xs ≡ xs
  take_all zero [] h = refl
  take_all zero (x ∷ xs) h = absurd (omega (arith, h))
  take_all (suc n) [] h = refl
  take_all (suc n) (x ∷ xs) h = rw (take_all n xs (omega arith)) refl

  length-insert_by : (f : A → ℕ) (a : A) (xs : List A) → length (insert_by f a xs) ≡ length xs + 1
  unfolding insert_by
  length-insert_by f a [] = refl
  length-insert_by f a (x ∷ xs) = ground (arith, length-insert_by f a xs)

  length-sort_by : (f : A → ℕ) (xs : List A) → length (sort_by f xs) ≡ length xs
  unfolding sort_by
  length-sort_by f [] = refl
  length-sort_by f (x ∷ xs) =
      ground (arith, length-insert_by f x (sort_by f xs), length-sort_by f xs)

abbrev pub shown : Result MembersPage × Database → List MemberRow
shown (ok p, db) = p.members
shown (err e, db) = []

abbrev pub pages_told : Result MembersPage × Database → ℕ
pages_told (ok p, db) = p.total_pages
pages_told (err e, db) = 0

-- The first k pages, one behind the other.
pub first_pages : ℕ → ℕ → ℕ → ℕ → Database → List MemberRow
first_pages user room_id limit zero db = []
first_pages user room_id limit (suc k) db =
    first_pages user room_id limit k db ++ shown (get_members user room_id (suc k) limit db)

abbrev safe : ℕ → ℕ
safe limit = min (max limit 1) 100

module _ (user room_id limit : ℕ) (db : Database) (row : MemberRow)
    (in_it : membership room_id user db.members ≡ some row) where
  page_shown :
      (k : ℕ)
      → shown (get_members user room_id (suc k) limit db)
        ≡ take (safe limit) (drop (k * safe limit) (members_by_age room_id db.members))
  unfolding get_members
  page_shown k = let same : max (suc k) 1 - 1 ≡ k = omega arith in rw (in_it, same) refl

  first_pages-take :
      (k : ℕ)
      → first_pages user room_id limit k db
        ≡ take (k * safe limit) (members_by_age room_id db.members)
  unfolding first_pages
  first_pages-take zero = let none_yet : 0 * safe limit ≡ 0 = omega arith in rw none_yet refl
  first_pages-take (suc k) =
      let next : suc k * safe limit ≡ k * safe limit + safe limit = omega arith in
      rw (first_pages-take k, page_shown k, next)
        (sym (take_more (k * safe limit) (safe limit) (members_by_age room_id db.members)))

  enough : (total d : ℕ) → 1 ≤ d → total ≤ (total + (d - 1)) / d * d
  enough total d pos =
      omega (arith, div-add-mod' (total + (d - 1)) d, mod-lt (total + (d - 1)) {m = d} pos)

  length-members_by_age :
      length (members_by_age room_id db.members) ≡ member_count room_id db.members
  unfolding members_by_age
  length-members_by_age =
      length-sort_by (λ (m : MemberRow). m.joined_at) (keep (in_room room_id) db.members)
      ∙ length-keep (in_room room_id) db.members

  covered :
      length (members_by_age room_id db.members)
      ≤ pages_told (get_members user room_id 1 limit db) * safe limit
  unfolding get_members
  covered =
      rw (length-members_by_age, in_it)
        (enough (member_count room_id db.members) (safe limit) (omega arith))

  -- Whatever limit a member asks for, the pages of the room's members, as many as the first answer
  -- tells, are all its members, each once, the eldest membership first.
  pub get_members-all :
      first_pages user room_id limit (pages_told (get_members user room_id 1 limit db)) db
      ≡ members_by_age room_id db.members
  get_members-all =
      first_pages-take (pages_told (get_members user room_id 1 limit db))
      ∙ take_all (pages_told (get_members user room_id 1 limit db) * safe limit)
          (members_by_age room_id db.members) covered
