-- ===== src/Pairing/Redeem.antt =====
-- `redeem` of pairing.service.ts: a code makes a conversation of its creator and its redeemer.
pub mod Transaction
pub mod Outcome
pub mod Reuse
pub mod Revoked
pub mod Misses
pub mod Pairs
use pookie_chat.Prelude.{
  ltb, ◌==◌, if◌then◌else◌, is_none, find, keep, any, update, ℕ, ◌+◌, Bool, true, false, not, ◌&&◌,
  Option, none, some, List, [], ◌∷◌, ◌++◌,
}
use pookie_chat.Domain.Text.{Text}
use pookie_chat.Domain.PairingCode.{
  normalize_pairing_code, verify_pairing_code, is_expired, is_locked_out, record_failed_attempt,
  PairingAttemptState,
}
use pookie_chat.Domain.SessionEpoch.{ConversationStatus, blocked_by_a, blocked_by_b}
use pookie_chat.Server.{
  M, ◌>>=◌, ◌>>◌, pure, throw, get, modify, require, or_throw, transaction, bad_request, ok, err,
}
use pookie_chat.Server.Rows.{
  UserRow, DeviceRow, PrekeyRow, PairingStatus, PairingRow, ConversationRow, new_pairing,
}
use pookie_chat.Server.Database.{has_conversation_id, Database, Context}
use pookie_chat.Pairing.Tables.{is_live, update_codes, update_code, touch_code}

abbrev pub canonical_pair : ℕ → ℕ → ℕ × ℕ
canonical_pair a b = if ltb a b then (a, b) else (b, a)

abbrev pub attempts_of : PairingRow → PairingAttemptState
attempts_of r = record { failed_attempts = r.failed_attempts; locked_until = r.locked_until }

-- `data: { failedAttempts, lockedUntil }` of what `recordFailedAttempt` returns.
abbrev pub with_attempts : PairingAttemptState → PairingRow → PairingRow
with_attempts result r = record r {
  failed_attempts = result.failed_attempts;
  locked_until = result.locked_until;
}

-- One update for each candidate that was read.
pub record_misses : List PairingRow → Database → Database
unfolding touch_code record_failed_attempt
record_misses [] db = db
record_misses (candidate ∷ candidates) db =
    record_misses candidates
      (touch_code candidate.id (with_attempts (record_failed_attempt (attempts_of candidate)).0) db)

-- `device.findFirst({ where: { userId, revokedAt: null }, orderBy: { lastSeenAt: 'desc' } })`
unfoldable pub latest_device : ℕ → List DeviceRow → Option DeviceRow
latest_device user [] = none
latest_device user (d ∷ ds) =
    let rest = latest_device user ds in
    if d.user_id == user && is_none d.revoked_at then later d rest else rest
  where
    later : DeviceRow → Option DeviceRow → Option DeviceRow
    later d none = some d
    later d (some e) = if ltb d.last_seen_at e.last_seen_at then some e else some d

abbrev pub is_pair : ℕ → ℕ → ConversationRow → Bool
is_pair a b r = r.user_a_id == a && r.user_b_id == b

abbrev pub is_blocked : ConversationStatus → Bool
is_blocked blocked_by_a = true
is_blocked blocked_by_b = true
is_blocked _ = false

abbrev pub new_conversation : ℕ → ℕ → ℕ → Option ℕ → Option ℕ → ConversationRow
new_conversation id a b expires_at creator = record {
  id = id;
  user_a_id = a;
  user_b_id = b;
  status = ConversationStatus.active;
  disappearing_timer_seconds = none;
  disappearing_trigger = none;
  session_epoch = 1;
  expires_at = expires_at;
  temporary_creator_user_id = creator;
}

abbrev pub renewed : Option ℕ → Option ℕ → ConversationRow → ConversationRow
renewed expires_at creator r = record r {
  status = ConversationStatus.active;
  disappearing_timer_seconds = none;
  disappearing_trigger = none;
  session_epoch = r.session_epoch + 1;
  expires_at = expires_at;
  temporary_creator_user_id = creator;
}

-- The conversation of the pair is created, or begins a new epoch.
abbrev pub pair_conversation :
    Option ConversationRow → ℕ → ℕ → Option ℕ → Option ℕ → M Database ConversationRow
pair_conversation none a b expires_at creator db =
    let row = new_conversation db.next_id a b expires_at creator in
    (ok row, record db { conversations = db.conversations ++ row ∷ []; next_id = db.next_id + 1 })
pair_conversation (some existing) a b expires_at creator db =
    if is_blocked existing.status then (err (bad_request "Invalid or expired code"), db) else (
      ok (renewed expires_at creator existing),
      record db {
        conversations =
            update (has_conversation_id existing.id) (renewed expires_at creator) db.conversations;
      },
    )

abbrev pub is_free_prekey : ℕ → PrekeyRow → Bool
is_free_prekey device k = k.device_id == device && is_none k.used_at

-- The first unused prekey of the device is marked.
abbrev pub consume_prekey : Option PrekeyRow → ℕ → Database → Database
consume_prekey none now db = db
consume_prekey (some key) now db = record db {
  prekeys = update (λ k. k.id == key.id) (λ k. record k { used_at = some now }) db.prekeys;
}

pub record Bundle : Type 0 where
  pub identity_dh_public : Text
  pub identity_signing_public : Text
  pub signed_prekey_public : Text
  pub signed_prekey_signature : Text
  pub one_time_prekey_public : Option Text

pub record Redeemed : Type 0 where
  pub conversation_id : ℕ
  pub session_epoch : ℕ
  pub expires_at : Option ℕ
  pub is_temporary : Bool
  pub bundle : Bundle
  pub other_user_id : ℕ
  pub other_username : Text
  pub other_display_name : Option Text

abbrev pub username_of : Option UserRow → Text
username_of none = []
username_of (some u) = u.username

abbrev pub display_name_of : Option UserRow → Option Text
display_name_of none = none
display_name_of (some u) = u.display_name

abbrev pub public_key_of : Option PrekeyRow → Option Text
public_key_of none = none
public_key_of (some k) = some k.public_key

module _ (c : Context) (redeemer : ℕ) where
  abbrev pub used_by_redeemer : PairingRow → PairingRow
  used_by_redeemer r = record r { used_by_user_id = some redeemer; used_at = some c.now }

  abbrev pub spent : PairingRow → PairingRow
  spent r = record r {
    status = PairingStatus.used;
    used_by_user_id = some redeemer;
    used_at = some c.now;
  }

  -- A temporary code is spent, if it still is active; a forever code stays.
  unfoldable pub use_code : PairingRow → M Database (Unit {0})
  unfolding update_codes touch_code
  use_code row = if is_none row.expires_at then modify (touch_code row.id used_by_redeemer) else do
    db ← get
    update_codes (λ r. r.id == row.id && is_live r) spent
    require (any (λ r. r.id == row.id && is_live r) db.pairing_codes)
        (bad_request "Invalid or expired code")

  -- `isForeverCode ? null : match.creatorUserId`
  abbrev pub temporary_creator : PairingRow → Option ℕ
  temporary_creator row = if is_none row.expires_at then none else some row.creator_user_id

  -- The transaction, and the rows that it returns.
  unfoldable pub redeem_in_transaction :
      PairingRow → DeviceRow → M Database (ConversationRow × Option PrekeyRow)
  redeem_in_transaction row device = do
    use_code row
    let (a, b) = canonical_pair row.creator_user_id redeemer
    db ← get
    conversation ←
        pair_conversation (find (is_pair a b) db.conversations) a b row.expires_at
          (temporary_creator row)
    modify (consume_prekey (find (is_free_prekey device.id) db.prekeys) c.now)
    pure (conversation, find (is_free_prekey device.id) db.prekeys)

  abbrev pub redeemed :
      PairingRow → DeviceRow → Option UserRow → ConversationRow × Option PrekeyRow → Redeemed
  redeemed row device creator (conversation, key) = record {
    conversation_id = conversation.id;
    session_epoch = conversation.session_epoch;
    expires_at = conversation.expires_at;
    is_temporary = not (is_none conversation.expires_at);
    bundle = record {
      identity_dh_public = device.identity_dh_public;
      identity_signing_public = device.identity_signing_public;
      signed_prekey_public = device.signed_prekey_public;
      signed_prekey_signature = device.signed_prekey_signature;
      one_time_prekey_public = public_key_of key;
    };
    other_user_id = row.creator_user_id;
    other_username = username_of creator;
    other_display_name = display_name_of creator;
  }

  abbrev pub refuse_expired : ℕ → Bool → M Database (Unit {0})
  refuse_expired id true = do
    update_code id (λ r. record r { status = PairingStatus.expired })
    throw (bad_request "Invalid or expired code")
  refuse_expired id false = pure tt

  -- What follows the search for the code.
  pub redeem_found : PairingRow → M Database Redeemed
  unfolding redeem_in_transaction is_locked_out is_expired
  redeem_found row = do
    require (not (is_locked_out (attempts_of row) c.now)) (bad_request "Invalid or expired code")
    refuse_expired row.id (is_expired row.expires_at c.now)
    require (not (row.creator_user_id == redeemer)) (bad_request "Cannot pair with yourself")
    db ← get
    device ←
        or_throw (latest_device row.creator_user_id db.devices)
          (bad_request "Invalid or expired code")
    result ← transaction (redeem_in_transaction row device)
    modify (λ after. record after {
      security_events =
          after.security_events
          ++ new_pairing row.creator_user_id result.0.id ∷ new_pairing redeemer result.0.id ∷ [];
    })
    pure (redeemed row device (find (λ u. u.id == row.creator_user_id) db.users) result)

  abbrev pub fits : Text → PairingRow → Bool
  fits code r =
      is_live r
      && verify_pairing_code c.primitives (normalize_pairing_code c.primitives code) c.pepper
          r.code_hmac

  abbrev pub redeem_match : Option PairingRow → M Database Redeemed
  redeem_match (some row) = redeem_found row
  redeem_match none = do
    modify (λ db. record_misses (keep is_live db.pairing_codes) db)
    throw (bad_request "Invalid or expired code")

  unfoldable pub redeem : Text → M Database Redeemed
  unfolding redeem_found
  redeem code = do db ← get; redeem_match (find (fits code) db.pairing_codes)
