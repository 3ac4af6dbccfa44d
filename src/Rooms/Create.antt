-- ===== src/Rooms/Create.antt =====
-- `create` of rooms.service.ts.
use pookie_chat.Prelude.{
  if◌then◌else◌, any, take, ℕ, ◌+◌, false, Option, none, some, List, [], ◌∷◌, ◌++◌,
}
use pookie_chat.Domain.Text.{Text}
use pookie_chat.Domain.PairingCode.{Primitives}
use pookie_chat.Domain.MessageState.{eq_text}
use pookie_chat.Domain.RoomRules.{
  validate_room_name, validate_max_members, generate_room_code, hash_room_code, encrypt_room_code,
  Validated, valid, invalid,
}
use pookie_chat.Server.{
  M, ◌>>=◌, ◌>>◌, pure, throw, get, transaction, catch_violation, bad_request, unique_violation, ok,
  err,
}
use pookie_chat.Server.Rows.{JoinPolicy, RoomStatus, RoomRow, MemberRole}
use pookie_chat.Server.Database.{Database, Context}
use pookie_chat.Rooms.Tables.{create_member}

pub record CreateRoom : Type 0 where
  pub name : Text
  pub max_members : ℕ
  pub join_policy : JoinPolicy
  pub open_key_ciphertext : Option Text
  pub open_key_nonce : Option Text

pub record CreatedRoom : Type 0 where
  pub id : ℕ
  pub name : Text
  pub max_members : ℕ
  pub member_count : ℕ
  pub join_policy : JoinPolicy
  pub code : Text
  pub role : MemberRole
  pub created_at : ℕ

-- The random bytes of one attempt: nine for the code, and the iv of its encryption.
pub record Draw : Type 0 where
  pub code_bytes : List ℕ
  pub iv : List ℕ

abbrev pub max_code_collision_retry_attempts : ℕ
max_code_collision_retry_attempts = 5

abbrev pub or_bad_request : {A : Type 0} → Validated A → M Database A
or_bad_request (valid a) db = (ok a, db)
or_bad_request (invalid message) db = (err (bad_request message), db)

-- `dto.x ? Buffer.from(dto.x, 'base64') : null`; the empty string counts as absent.
abbrev pub decoded : Primitives → Option Text → Option (List ℕ)
decoded p none = none
decoded p (some []) = none
decoded p (some (c ∷ s)) = some (p.from_base64 (c ∷ s))

-- `tx.room.create`, under `codeHmac @unique`.
create_room : RoomRow → M Database RoomRow
create_room row db =
    if any (λ r. eq_text r.code_hmac row.code_hmac) db.rooms
    then (err unique_violation, db)
    else (ok row, record db { rooms = db.rooms ++ row ∷ []; next_id = db.next_id + 1 })

module _ (c : Context) (user : ℕ) (dto : CreateRoom) (name : Text) (max_members : ℕ) where
  abbrev pub new_room : Text → List ℕ → ℕ → RoomRow
  new_room code iv id = record {
    id = id;
    name = name;
    owner_id = user;
    code_hmac = hash_room_code c.primitives code c.pepper;
    code_text = some (encrypt_room_code c.primitives iv code c.pepper);
    join_policy = dto.join_policy;
    max_members = max_members;
    status = RoomStatus.active;
    key_epoch = 1;
    join_locked = false;
    open_key_ciphertext = decoded c.primitives dto.open_key_ciphertext;
    open_key_nonce = decoded c.primitives dto.open_key_nonce;
    created_at = c.now;
  }

  -- One round of the loop: the room and its owner's membership, in one transaction.
  unfoldable pub create_once : Text → List ℕ → M Database CreatedRoom
  unfolding create_room
  create_once code iv = do
    room ← transaction (do
      db ← get
      created ← create_room (new_room code iv db.next_id)
      create_member created.id user MemberRole.owner c.now
      pure created)
    pure (record {
      id = room.id;
      name = room.name;
      max_members = room.max_members;
      member_count = 1;
      join_policy = room.join_policy;
      code = code;
      role = MemberRole.owner;
      created_at = room.created_at;
    })

  -- The loop, over the draws of its rounds; a collision goes on to the next.
  unfoldable pub create_loop : List Draw → M Database CreatedRoom
  create_loop [] = throw (bad_request "Could not generate a unique room code. Please try again.")
  create_loop (draw ∷ draws) =
      catch_violation (create_once (generate_room_code draw.code_bytes) draw.iv)
        (λ _. create_loop draws)

-- The draws are those of the five rounds that the loop may take.
unfoldable pub create : Context → ℕ → CreateRoom → List Draw → M Database CreatedRoom
create c user dto draws = do
  name ← or_bad_request (validate_room_name dto.name)
  max_members ← or_bad_request (validate_max_members dto.max_members)
  create_loop c user dto name max_members (take max_code_collision_retry_attempts draws)
