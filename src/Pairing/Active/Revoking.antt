-- ===== src/Pairing/Active/Revoking.antt =====
-- What `revoke` leaves.
use pookie_chat.Prelude.{
  ◌==◌, find, update, Option-cases, ℕ, ◌≡◌, refl, inl, inr, some, [], ◌∷◌, ◌++◌, arith,
}
use pookie_chat.Server.{Result, ok, err}
use pookie_chat.Server.Rows.{PairingRow, pairing_revoked}
use pookie_chat.Server.Database.{Database, Context}
use pookie_chat.Server.Reason.{at_require}
use pookie_chat.Pairing.Tables.{has_pairing_id, update_codes, update_code}
use pookie_chat.Pairing.Reason.{at_write}
use pookie_chat.Pairing.Active.{retire, revoke_found, revoke}

module _ (c : Context) (user id : ℕ) where
  -- What a success tells.
  pub record HasRevoked (db after : Database) : Type 0 where
    pub row : PairingRow
    pub found : find (has_pairing_id id) db.pairing_codes ≡ some row
    pub own : row.creator_user_id ≡ user
    pub codes : after.pairing_codes ≡ update (has_pairing_id id) (retire c user) db.pairing_codes
    pub events : after.security_events ≡ db.security_events ++ pairing_revoked user id ∷ []

  abbrev pub IsRevoked : Database → Result (Unit {0}) × Database → Type 0
  IsRevoked db (ok done, after) = HasRevoked db after
  IsRevoked db (err e, after) = after ≡ db

  found-IsRevoked :
      (row : PairingRow) (db : Database)
      → find (has_pairing_id id) db.pairing_codes ≡ some row
      → IsRevoked db (revoke_found c user (some row) id db)
  unfolding update_code update_codes
  found-IsRevoked row db found =
      at_require (IsRevoked db) (row.creator_user_id == user) _ _ db refl λ own.
        at_write (IsRevoked db) (update (has_pairing_id id) (retire c user) db.pairing_codes) _ db
          refl
          λ free. record {
            row = row;
            found = found;
            own = ground (arith, own);
            codes = refl;
            events = refl;
          }

  -- `revoke`: where it returns, the code was the user's own, each row with its id is revoked, no
  -- other row has changed, and the event is logged; where it fails, all is as it was.
  pub revoke-IsRevoked : (db : Database) → IsRevoked db (revoke c user id db)
  unfolding revoke
  revoke-IsRevoked db = elim (Option-cases (find (has_pairing_id id) db.pairing_codes)) [
    | inl unknown ↦ rw unknown refl
    | inr (row, found) ↦ rw found (found-IsRevoked row db found)
  ]
