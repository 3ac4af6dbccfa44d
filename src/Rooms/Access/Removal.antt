-- ===== src/Rooms/Access/Removal.antt =====
-- What a member who was removed can still do: nothing in the room.
use pookie_chat.Prelude.{
  ◌==◌, ==_iff, ==_refl, find, keep, count, find_holds, find-update, ℕ, ◌+◌, ◌≤◌, ◌≡◌, refl, ◌∙◌,
  subst, Bool, not, Option, none, some, List, [], ◌∷◌, arith,
}
use pookie_chat.Server.{forbidden, Result, ok, err}
use pookie_chat.Server.Rows.{RoomRow, MemberRow, RoomMessageRow}
use pookie_chat.Server.Database.{push_to_user, push_to_users, Database, Context}
use pookie_chat.Server.Reason.{at_require, at_or_throw}
use pookie_chat.Rooms.Tables.{is_membership, room_by_id, membership, delete_member, update_room}
use pookie_chat.Rooms.Reason.{at_active_room}
use pookie_chat.Rooms.Members.{next_key_epoch, remove_member}
use pookie_chat.Rooms.Messages.{list_messages, send_message, SendRoomMessage}
use pookie_chat.Rooms.Keys.{store_key_package, get_key_package, StoreKeyPackage}
use pookie_chat.Rooms.Invariant.{AreOnce}

none_kept :
    (p q : MemberRow → Bool) (ms : List MemberRow) → count p ms ≤ 0 → find p (keep q ms) ≡ none
unfolding count find keep
none_kept p q [] h = refl
none_kept p q (m ∷ ms) h = ground (arith, none_kept p q ms)

-- Where nobody is in a room twice, the deletion of one's row ends the membership.
deleted_gone :
    (room user : ℕ) (row : MemberRow) (ms : List MemberRow)
    → membership room user ms ≡ some row
    → count (is_membership room user) ms ≤ 1
    → membership room user (keep (λ m. not (m.id == row.id)) ms) ≡ none
unfolding membership find keep count
deleted_gone room user row [] e one = refl
deleted_gone room user row (m ∷ ms) e one = ground (
  arith,
  ==_refl m.id,
  deleted_gone room user row ms,
  none_kept (is_membership room user) (λ (k : MemberRow). not (k.id == row.id)) ms,
)

-- What the removal leaves.
pub record HasRemoved (owner_id room_id target : ℕ) (db : Database) (epoch : ℕ) (after : Database)
    : Type 0 where
  pub room : RoomRow
  pub found : room_by_id room_id db.rooms ≡ some room
  pub by_owner : room.owner_id ≡ owner_id
  pub gone : membership room_id target after.members ≡ none
  pub new_epoch : epoch ≡ room.key_epoch + 1
  pub stored_epoch :
      (r : RoomRow) × (room_by_id room_id after.rooms ≡ some r) × (r.key_epoch ≡ epoch)

abbrev Removes : ℕ → ℕ → ℕ → Database → Result ℕ × Database → Type 0
Removes owner_id room_id target db (ok epoch, after) =
    HasRemoved owner_id room_id target db epoch after
Removes owner_id room_id target db (err e, after) = Unit {0}

remove_member-Removes :
    (owner_id room_id target : ℕ) (db : Database)
    → AreOnce db.members
    → Removes owner_id room_id target db (remove_member owner_id room_id target db)
unfolding remove_member delete_member update_room push_to_users push_to_user room_by_id
remove_member-Removes owner_id room_id target db once =
    at_active_room (Removes owner_id room_id target db) (room_by_id room_id db.rooms) _ _ db tt
      λ room found live.
        at_require (Removes owner_id room_id target db) (room.owner_id == owner_id) _ _ db tt λ own.
          at_require (Removes owner_id room_id target db) (not (target == owner_id)) _ _ db tt
            λ other.
              at_or_throw (Removes owner_id room_id target db)
                (membership room_id target db.members) _ _ db tt
                λ row in_room. record {
                  room = room;
                  found = found;
                  by_owner = (==_iff _ _).0 own;
                  gone = deleted_gone room_id target row db.members in_room (once room_id target);
                  new_epoch = refl;
                  stored_epoch = (
                    next_key_epoch room,
                    find-update (λ (r : RoomRow). r.id == room_id) (λ r. r.id == room_id)
                          next_key_epoch (λ r. refl) db.rooms
                        ∙ rw
                            (
                              found,
                              find_holds (λ (r : RoomRow). r.id == room_id) db.rooms room found,
                            )
                            refl,
                    refl,
                  );
                }

-- A removed member is no member, the key epoch is a new one, and whatever the removed user sends,
-- lists, stores or fetches in the room is refused and changes nothing.
pub remove_member-shut_out :
    (c : Context) (owner_id room_id target epoch : ℕ) (db after : Database) (dto : SendRoomMessage)
    (rounds : List (List RoomMessageRow)) (limit : ℕ) (key : StoreKeyPackage) (key_epoch : Option ℕ)
    → AreOnce db.members
    → remove_member owner_id room_id target db ≡ (ok epoch, after)
    → HasRemoved owner_id room_id target db epoch after
      × (send_message c target room_id dto rounds after
          ≡ (err (forbidden "You are not a member of this room"), after))
      × (list_messages target room_id limit after
          ≡ (err (forbidden "You are not a member of this room"), after))
      × (store_key_package c target room_id key after
          ≡ (err (forbidden "You are not a member of this room"), after))
      × (get_key_package target room_id key_epoch after
          ≡ (err (forbidden "You are not a member of this room"), after))
unfolding send_message list_messages store_key_package get_key_package
remove_member-shut_out c owner_id room_id target epoch db after dto rounds limit key key_epoch once
      done =
    let h : HasRemoved owner_id room_id target db epoch after =
      subst (Removes owner_id room_id target db) done
        (remove_member-Removes owner_id room_id target db once) in
    (h, rw h.gone refl, rw h.gone refl, rw h.gone refl, rw h.gone refl)
