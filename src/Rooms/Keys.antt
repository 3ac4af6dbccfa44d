-- ===== src/Rooms/Keys.antt =====
-- `storeKeyPackage` and `getKeyPackage` of rooms.service.ts.
use pookie_chat.Prelude.{find, ℕ, Option}
use pookie_chat.Domain.Text.{Text}
use pookie_chat.Server.{M, ◌>>=◌, ◌>>◌, pure, get, modify, or_throw, forbidden, not_found}
use pookie_chat.Server.Rows.{KeyPackageRow}
use pookie_chat.Server.Database.{push_to_user, key_delivered, Database, Context}
use pookie_chat.Rooms.Tables.{room_by_id, membership, active_room, is_package_of, upsert_package}
use pookie_chat.Rooms.Messages.{given}

pub record StoreKeyPackage : Type 0 where
  pub recipient_user_id : ℕ
  pub encrypted_key : Text
  pub nonce : Text
  pub key_epoch : Option ℕ

unfoldable pub store_key_package : Context → ℕ → ℕ → StoreKeyPackage → M Database (Unit {0})
unfolding upsert_package push_to_user
store_key_package c user room_id dto = do
  db ← get
  row ←
      or_throw (membership room_id user db.members) (forbidden "You are not a member of this room")
  room ← active_room (room_by_id room_id db.rooms) (not_found "Room not found")
  let epoch = given dto.key_epoch room.key_epoch
  modify (
      upsert_package (record {
        room_id = room_id;
        key_epoch = epoch;
        recipient_user_id = dto.recipient_user_id;
        encrypted_key = c.primitives.from_base64 dto.encrypted_key;
        nonce = c.primitives.from_base64 dto.nonce;
        sender_user_id = user;
      }))
  modify (push_to_user dto.recipient_user_id (key_delivered room_id epoch))

-- `null` where there is none; the sender's devices are left out.
unfoldable pub get_key_package : ℕ → ℕ → Option ℕ → M Database (Option KeyPackageRow)
get_key_package user room_id key_epoch = do
  db ← get
  row ←
      or_throw (membership room_id user db.members) (forbidden "You are not a member of this room")
  room ← or_throw (room_by_id room_id db.rooms) (not_found "Room not found")
  pure (find (is_package_of room_id (given key_epoch room.key_epoch) user) db.packages)
