-- ===== src/Rooms/Invariant/Joining.antt =====
-- rooms.service.ts: joinByCode, and the adding of a member, keep the tables of rooms well formed.
use pookie_chat.Prelude.{
  ltb, ◌==◌, is_some, Bool-cases, Option-cases, find, ℕ, ◌+◌, ◌<◌, ◌≡◌, refl, inl, inr, Bool, not,
  none, some, List, [], arith,
}
use pookie_chat.Server.Database.{Database, Context}
use pookie_chat.Server.Reason.{at_require, at_if}
use pookie_chat.Rooms.Reason.{at_active_room, create_member_free}
use pookie_chat.Rooms.Tables.{room_by_id, membership, member_count, is_pending_of}
use pookie_chat.Rooms.Invariant.{Inv}
use pookie_chat.Rooms.Invariant.Writes.{rooms_below, members_below}
use pookie_chat.Server.Rows.{RoomRow, MemberRole, RequestRow}
use pookie_chat.Domain.Text.{Text}
use pookie_chat.Rooms.Join.{room_by_hmac, is_open, join_open, ask_to_join, join_by_code}
use pookie_chat.Domain.RoomRules.{normalize_room_code, hash_room_code}
use pookie_chat.Domain.MessageState.{eq_text}
use pookie_chat.Rooms.Requests.{ensure_member}
use pookie_chat.Rooms.Invariant.Operations.{Keeps, with_member-Inv, id_of_found}

pub join_open-Inv :
    (c : Context) (p : RoomRow → Bool) (user : ℕ) (room : RoomRow) (db : Database)
    → Inv db
    → find p db.rooms ≡ some room
    → membership room.id user db.members ≡ none
    → Inv (join_open c user room db.members db).1
unfolding join_open
join_open-Inv c p user room db v is_room free =
    elim (Bool-cases (ltb (member_count room.id db.members) room.max_members)) [
      | inl space ↦
          rw (space, create_member_free room.id user MemberRole.member c.now db free)
            (record {
              tables =
                  (with_member-Inv p room room.id user MemberRole.member c.now db v is_room refl
                    free (λ e. cc) (ground arith)).tables;
            })
      | inr full ↦ rw full v
    ]

-- A change of the requests alone.
abbrev with_requests : List RequestRow → ℕ → Database → Database
with_requests requests next db = record db { requests = requests; next_id = next }

pub next-Inv :
    (requests : List RequestRow) (db : Database)
    → Inv db
    → Inv (with_requests requests (db.next_id + 1) db)
next-Inv requests db v = record {
  tables = record {
    rooms_distinct = rooms_below db.next_id db.rooms v.tables.rooms_distinct;
    members_distinct = members_below db.next_id db.members v.tables.members_distinct;
    once = v.tables.once;
    each = v.tables.each;
  };
}

pub ask_to_join-Inv :
    (c : Context) (user : ℕ) (room : RoomRow) (db : Database)
    → Inv db
    → Inv (ask_to_join c user room db).1
unfolding ask_to_join
ask_to_join-Inv c user room db v =
    elim (Option-cases (find (is_pending_of room.id user) db.requests)) [
      | inl first ↦ rw first (record { tables = (next-Inv [] db v).tables })
      | inr (existing, found) ↦ rw found v
    ]

pub join_by_code-Inv :
    (c : Context) (user : ℕ) (code : Text) (db : Database)
    → Inv db
    → Inv (join_by_code c user code db).1
unfolding join_by_code room_by_hmac
join_by_code-Inv c user code db v =
    let digest : Text =
      hash_room_code c.primitives (normalize_room_code c.primitives code) c.pepper in
    at_active_room Keeps (room_by_hmac digest db.rooms) _ _ db v λ room is_room live.
      at_if Keeps (is_some (membership room.id user db.members)) _ _ db (λ old. v)
        λ new. at_require Keeps (not room.join_locked) _ _ db v λ unlocked.
          at_require Keeps (ltb (member_count room.id db.members) room.max_members) _ _ db v
            λ space.
              at_if Keeps (is_open room.join_policy) _ _ db
                (λ open_to_all.
                  join_open-Inv c (λ r. eq_text r.code_hmac digest) user room db v is_room
                    (ground arith))
                (λ on_approval. ask_to_join-Inv c user room db v)

-- Accepting a request: the requester becomes a member unless he is one.
pub ensure_member-Inv :
    (room : RoomRow) (id user now : ℕ) (db : Database)
    → Inv db
    → room_by_id id db.rooms ≡ some room
    → member_count id db.members < room.max_members
    → Inv (ensure_member id user now db).1
unfolding ensure_member room_by_id
ensure_member-Inv room id user now db v is_room space =
    elim (Option-cases (membership id user db.members)) [
      | inl free ↦
          rw (free, create_member_free id user MemberRole.member now db free)
            (with_member-Inv (λ r. r.id == id) room id user MemberRole.member now db v is_room
              (id_of_found id room db is_room) free (λ e. cc) space)
      | inr (old, found) ↦ rw found v
    ]
