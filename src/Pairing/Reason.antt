-- ===== src/Pairing/Reason.antt =====
-- A rule to follow a write of the table of codes, which a constraint may refuse.
use pookie_chat.Prelude.{Bool-cases, any, ◌≡◌, inl, inr, false, List}
use pookie_chat.Server.{M, bind, unique_violation, Result, err}
use pookie_chat.Server.Rows.{PairingRow}
use pookie_chat.Server.Database.{Database}
use pookie_chat.Pairing.Tables.{has_clash, write_codes}

abbrev pub with_codes : List PairingRow → Database → Database
with_codes rows db = record db { pairing_codes = rows }

module _ {B : Type 0} (P : Result B × Database → Type 0) where
  pub at_write :
      (rows : List PairingRow) (k : Unit {0} → M Database B) (db : Database)
      → P (err unique_violation, db)
      → (any (has_clash rows) rows ≡ false → P (k tt (with_codes rows db)))
      → P (bind (write_codes rows db) k)
  unfolding write_codes
  at_write rows k db stop go = elim (Bool-cases (any (has_clash rows) rows)) [
    | inl clash ↦ rw clash stop
    | inr free ↦ rw free (go free)
  ]
