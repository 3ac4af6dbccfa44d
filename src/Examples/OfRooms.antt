-- ===== src/Examples/OfRooms.antt =====
-- The theorems on rooms at concrete inputs.
use pookie_chat.Prelude.{find, count, ℕ, ◌≡◌, refl, false, none, some, List, [], ◌∷◌, arith}
use pookie_chat.Domain.MessageState.{eq_text}
use pookie_chat.Rooms.Reads.{members_by_age, get_members}
use pookie_chat.Rooms.Reads.Pages.{pages_told, first_pages, get_members-all}
use pookie_chat.Server.{forbidden, ok, err}
use pookie_chat.Server.Rows.{
  anyone, approval_required, RoomStatus, RoomRow, MemberRole, MemberRow, RequestRow, MessageType,
  RoomMessageRow,
}
use pookie_chat.Server.Database.{empty_database, Database, Context}
use pookie_chat.Rooms.Tables.{room_by_id, membership}
use pookie_chat.Rooms.Create.{CreateRoom, Draw}
use pookie_chat.Rooms.Members.{remove_member}
use pookie_chat.Rooms.Messages.{list_messages, has_client_id, send_message, SendRoomMessage}
use pookie_chat.Rooms.Messages.Delivery.{IsDelivered, send_message-IsDelivered}
use pookie_chat.Rooms.Keys.{store_key_package, get_key_package, StoreKeyPackage}
use pookie_chat.Rooms.Requests.{accept_request}
use pookie_chat.Rooms.Join.{new_request, join_by_code}
use pookie_chat.Rooms.Invariant.{AreOnce, Inv}
use pookie_chat.Rooms.Invariant.Reach.{
  perform, run, reachable_well_formed, Request, creates, sends, removes,
}
use pookie_chat.Rooms.Access.Joining.{join_by_code-Admission, Admission}
use pookie_chat.Rooms.Access.Accepting.{IsAccepted, accept_request-IsAccepted}
use pookie_chat.Rooms.Access.Owner.{owner_only}
use pookie_chat.Rooms.Access.Removal.{remove_member-shut_out, HasRemoved}
use pookie_chat.Examples.Fixtures.{at, code_text, other_text, a_user}

-- A room with three places, of user 1; user 2 is in it, user 3 has asked.
abbrev a_room : RoomRow
a_room = record {
  id = 40;
  name = other_text;
  owner_id = 1;
  code_hmac = code_text;
  code_text = none;
  join_policy = approval_required;
  max_members = 3;
  status = RoomStatus.active;
  key_epoch = 1;
  join_locked = false;
  open_key_ciphertext = none;
  open_key_nonce = none;
  created_at = 0;
}

abbrev a_member : ℕ → ℕ → MemberRole → MemberRow
a_member id user role = record { id = id; room_id = 40; user_id = user; role = role; joined_at = 0 }

abbrev a_request : RequestRow
a_request = new_request 43 40 3 0

abbrev room_database : Database
room_database = record empty_database {
  users = a_user 1 ∷ a_user 2 ∷ a_user 3 ∷ [];
  rooms = a_room ∷ [];
  members = a_member 41 1 MemberRole.owner ∷ a_member 42 2 MemberRole.member ∷ [];
  requests = a_request ∷ [];
  next_id = 50;
}

abbrev a_message : SendRoomMessage
a_message = record {
  client_message_id = code_text;
  ciphertext = other_text;
  iv = code_text;
  message_type = none;
  reply_to_message_id = none;
  key_epoch = none;
}

abbrev a_new_room : CreateRoom
a_new_room = record {
  name = other_text;
  max_members = 3;
  join_policy = anyone;
  open_key_ciphertext = none;
  open_key_nonce = none;
}

abbrev room_draws : List Draw
room_draws = record { code_bytes = 1 ∷ 2 ∷ 3 ∷ 4 ∷ 5 ∷ 6 ∷ 7 ∷ 8 ∷ 9 ∷ []; iv = 1 ∷ [] } ∷ []

abbrev a_history : List (Context × Request)
a_history = (at 0, creates 1 a_new_room room_draws) ∷ (at 1, sends 1 0 a_message ([] ∷ [])) ∷ []

reachable_well_formed_example : Inv (run a_history empty_database)
reachable_well_formed_example = reachable_well_formed a_history

-- What user 2 stores while user 1 sends.
abbrev a_rival : RoomMessageRow
a_rival = record {
  id = 60;
  room_id = 40;
  sender_id = 2;
  sequence_number = 1;
  client_message_id = other_text;
  ciphertext = [];
  nonce = [];
  message_type = MessageType.text;
  key_epoch = 1;
  reply_to_message_id = none;
  sent_at = 0;
  deleted_at = none;
}

is_in : membership 40 1 room_database.members ≡ some (a_member 41 1 MemberRole.owner)
unfolding membership find
is_in = refl

is_there : room_by_id 40 room_database.rooms ≡ some a_room
unfolding room_by_id find
is_there = refl

send_message-IsDelivered_example :
    IsDelivered
      (at 0)
      1
      40
      a_room
      a_message
      (send_message (at 0) 1 40 a_message ((a_rival ∷ []) ∷ [] ∷ []) room_database)
send_message-IsDelivered_example =
    send_message-IsDelivered (at 0) 1 40 a_message room_database (a_member 41 1 MemberRole.owner)
      a_room is_in is_there refl ((a_rival ∷ []) ∷ []) [] (omega arith)

abbrev told_database : Database
told_database = record room_database { messages = a_rival ∷ [] }

rival_known : find (has_client_id 40 other_text) told_database.messages ≡ some a_rival
unfolding find eq_text
rival_known = refl

join_by_code-Admission_example :
    Admission (at 0) 4 code_text room_database (join_by_code (at 0) 4 code_text room_database)
join_by_code-Admission_example = join_by_code-Admission (at 0) 4 code_text room_database

accept_request-IsAccepted_example :
    IsAccepted 0 1 40 43 room_database (accept_request (at 0) 1 40 43 none none room_database)
accept_request-IsAccepted_example = accept_request-IsAccepted (at 0) 1 40 43 none none room_database

abbrev a_key : StoreKeyPackage
a_key = record { recipient_user_id = 1; encrypted_key = []; nonce = []; key_epoch = none }

abbrev removed_database : Database
removed_database = (remove_member 1 40 2 room_database).1

run_of_removal : remove_member 1 40 2 room_database ≡ (ok 2, removed_database)
unfolding remove_member membership room_by_id find
run_of_removal = refl

nobody_twice : AreOnce room_database.members
unfolding count
nobody_twice room_id user = ground arith

remove_member-shut_out_example :
    HasRemoved 1 40 2 room_database 2 removed_database
    × (send_message (at 0) 2 40 a_message ([] ∷ []) removed_database
        ≡ (err (forbidden "You are not a member of this room"), removed_database))
    × (list_messages 2 40 100 removed_database
        ≡ (err (forbidden "You are not a member of this room"), removed_database))
    × (store_key_package (at 0) 2 40 a_key removed_database
        ≡ (err (forbidden "You are not a member of this room"), removed_database))
    × (get_key_package 2 40 none removed_database
        ≡ (err (forbidden "You are not a member of this room"), removed_database))
remove_member-shut_out_example =
    remove_member-shut_out (at 0) 1 40 2 2 room_database removed_database a_message ([] ∷ []) 100
      a_key none nobody_twice run_of_removal

owner_only_example : perform (at 0) (removes 2 40 1) room_database ≡ room_database
owner_only_example =
    owner_only 2 40 room_database a_room is_there (λ e. omega (arith, e)) (at 0) (removes 2 40 1)
      refl

get_members-all_example :
    first_pages 1 40 1 (pages_told (get_members 1 40 1 1 room_database)) room_database
    ≡ members_by_age 40 room_database.members
get_members-all_example =
    get_members-all 1 40 1 room_database (a_member 41 1 MemberRole.owner) is_in
