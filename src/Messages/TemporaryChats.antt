-- ===== src/Messages/TemporaryChats.antt =====
-- What `cleanupExpiredTemporaryChats` leaves.
use pookie_chat.Prelude.{length, find, keep, ◌≡◌, refl, none, arith}
use pookie_chat.Server.{ok}
use pookie_chat.Server.Database.{Database, Context}
use pookie_chat.Conversations.Tables.{expire_all}
use pookie_chat.Conversations.Sweeping.{is_among, expire_all-AreGone, expire_all-none, AreGone}
use pookie_chat.Messages.Changes.{is_over, cleanup_expired_temporary_chats}

module _ (c : Context) where
  -- After the sweep no conversation of anybody is left whose time has passed and that is not
  -- deleted; the messages, attachments and handshakes of those that were are gone, all others are as
  -- before, and the number of those is what it returns.
  pub cleanup-none_over :
      (db : Database)
      → (after : Database) × (cleanup_expired_temporary_chats c db
          ≡ (ok (length (keep (is_over c) db.conversations)), after))
        × (find (is_over c) after.conversations ≡ none)
        × AreGone (is_among (keep (is_over c) db.conversations)) db after
  unfolding cleanup_expired_temporary_chats
  cleanup-none_over db = (
    expire_all (keep (is_over c) db.conversations) db,
    refl,
    expire_all-none (is_over c) db (λ r. ground arith),
    expire_all-AreGone (keep (is_over c) db.conversations) db,
  )
