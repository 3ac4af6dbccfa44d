-- ===== src/Pairing/Tables.antt =====
-- The queries of pairing.service.ts on `pairing_codes`, and its constraints: an index on
-- `(codeHmac, status)`, and one active code without expiry for each creator.
use pookie_chat.Prelude.{
  ◌==◌, if◌then◌else◌, is_none, any, update, ℕ, ◌+◌, Bool, true, false, not, ◌&&◌, ◌||◌, Option,
  none, some, List, [], ◌∷◌, ◌++◌,
}
use pookie_chat.Domain.Text.{Text}
use pookie_chat.Domain.MessageState.{eq_text}
use pookie_chat.Server.{M, ◌>>=◌, ◌>>◌, pure, get, modify, unique_violation, ok, err}
use pookie_chat.Server.Rows.{PairingStatus, active, used, revoked, expired, PairingRow}
use pookie_chat.Server.Database.{Database, Context}
use pookie_chat.Domain.PairingCode.{
  generate_pairing_code, hash_pairing_code, encrypt_pairing_code, is_empty, decrypt_pairing_code,
}

abbrev pub same_status : PairingStatus → PairingStatus → Bool
same_status active active = true
same_status used used = true
same_status revoked revoked = true
same_status expired expired = true
same_status _ _ = false

abbrev pub is_live : PairingRow → Bool
is_live r = same_status r.status PairingStatus.active

-- `{ codeHmac, status: 'ACTIVE' }`
abbrev pub is_live_with : Text → PairingRow → Bool
is_live_with hmac r = eq_text r.code_hmac hmac && is_live r

-- `{ creatorUserId, expiresAt: null, status: 'ACTIVE' }`
abbrev pub is_forever_of : ℕ → PairingRow → Bool
is_forever_of user r = r.creator_user_id == user && is_none r.expires_at && is_live r

abbrev pub has_pairing_id : ℕ → PairingRow → Bool
has_pairing_id id r = r.id == id

-- Two rows break a constraint.
abbrev pub clashes : PairingRow → PairingRow → Bool
clashes r s =
    not (r.id == s.id)
    && (eq_text r.code_hmac s.code_hmac && same_status r.status s.status
        || is_forever_of r.creator_user_id s && is_none r.expires_at && is_live r)

abbrev pub has_clash : List PairingRow → PairingRow → Bool
has_clash rows r = any (clashes r) rows

-- A write of the table: the constraints are looked at in what would be left.
unfoldable pub write_codes : List PairingRow → M Database (Unit {0})
write_codes rows db =
    if any (has_clash rows) rows
    then (err unique_violation, db)
    else (ok tt, record db { pairing_codes = rows })

-- `pairingCode.create`
unfoldable pub create_code : PairingRow → M Database PairingRow
create_code row = do
  db ← get
  write_codes (db.pairing_codes ++ row ∷ [])
  modify (λ after. record after { next_id = after.next_id + 1 })
  pure row

-- `pairingCode.updateMany({ where, data })`
unfoldable pub update_codes :
    (PairingRow → Bool) → (PairingRow → PairingRow) → M Database (Unit {0})
update_codes where_ data_ = do db ← get; write_codes (update where_ data_ db.pairing_codes)

-- `pairingCode.update({ where: { id }, data })`
unfoldable pub update_code : ℕ → (PairingRow → PairingRow) → M Database (Unit {0})
unfolding update_codes
update_code id data_ = update_codes (has_pairing_id id) data_

-- The same, where the data has no column of a constraint.
unfoldable pub touch_code : ℕ → (PairingRow → PairingRow) → Database → Database
touch_code id data_ db = record db {
  pairing_codes = update (has_pairing_id id) data_ db.pairing_codes;
}

-- `codeText`, if it is there, can be decrypted and is not empty.
abbrev pub filled : Option Text → Option Text
filled none = none
filled (some code) = if is_empty code then none else some code

unfoldable pub readable_code : Context → Option Text → Option Text
readable_code c none = none
readable_code c (some stored) =
    if is_empty stored then none else filled (decrypt_pairing_code c.primitives stored c.pepper)

-- What the generation of a code and its encryption draw at random.
pub record Draw : Type 0 where
  pub digits : List ℕ
  pub iv : List ℕ

abbrev pub drawn_code : Draw → Text
drawn_code d = generate_pairing_code d.digits

module _ (c : Context) where
  unfoldable pub hmac_of : Text → Text
  hmac_of code = hash_pairing_code c.primitives code c.pepper

  unfoldable pub sealed_of : List ℕ → Text → Option Text
  sealed_of iv code = some (encrypt_pairing_code c.primitives iv code c.pepper)

  abbrev pub new_code : ℕ → Text → List ℕ → Option ℕ → ℕ → PairingRow
  new_code user code iv expires_at id = record {
    id = id;
    creator_user_id = user;
    code_hmac = hmac_of code;
    code_text = sealed_of iv code;
    status = PairingStatus.active;
    expires_at = expires_at;
    used_by_user_id = none;
    used_at = none;
    failed_attempts = 0;
    locked_until = none;
    created_at = c.now;
  }

  -- `data: { codeHmac, codeText }`
  abbrev pub with_code : Text → List ℕ → PairingRow → PairingRow
  with_code code iv r = record r { code_hmac = hmac_of code; code_text = sealed_of iv code }

  -- `data: { codeHmac, codeText, failedAttempts: 0, lockedUntil: null }`
  abbrev pub with_fresh_code : Text → List ℕ → PairingRow → PairingRow
  with_fresh_code code iv r = record r {
    code_hmac = hmac_of code;
    code_text = sealed_of iv code;
    failed_attempts = 0;
    locked_until = none;
  }
