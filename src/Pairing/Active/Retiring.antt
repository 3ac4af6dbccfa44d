-- ===== src/Pairing/Active/Retiring.antt =====
-- What `revokeActiveForeverCode` leaves.
use mathlib.Core.List.{append-nil, append_assoc}
use pookie_chat.Prelude.{
  find, keep, update, find-any, any-update, ℕ, ◌≡◌, refl, sym, ap, ◌∙◌, Bool, none, List, [], ◌∷◌,
  ◌++◌, map, arith,
}
use pookie_chat.Server.{unique_violation, Result, ok, err}
use pookie_chat.Server.Rows.{PairingRow, pairing_revoked}
use pookie_chat.Server.Database.{Database, Context}
use pookie_chat.Pairing.Tables.{is_forever_of, update_codes}
use pookie_chat.Pairing.Reason.{with_codes, at_write}
use pookie_chat.Pairing.Active.{
  log_event, log_revoked, retire, revoke_all, revoke_active_forever_code,
}

-- The user has no active forever code any more, or a constraint has refused and all is as before.
abbrev pub IsRetired : ℕ → Database → Result (Unit {0}) × Database → Type 0
IsRetired user db (ok done, after) =
    (find (is_forever_of user) after.pairing_codes ≡ none)
    × (after.security_events
        ≡ db.security_events
          ++ map (λ (r : PairingRow). pairing_revoked user r.id)
              (keep (is_forever_of user) db.pairing_codes))
IsRetired user db (err e, after) = (e ≡ unique_violation) × (after ≡ db)

kept_none : (p : PairingRow → Bool) (rows : List PairingRow) → keep p rows ≡ [] → find p rows ≡ none
unfolding keep find
kept_none p [] e = refl
kept_none p (r ∷ rs) e = ground (arith, kept_none p rs)

module _ (c : Context) (user : ℕ) where
  logged :
      (rs : List PairingRow) (db : Database)
      → ((log_revoked c user rs db).pairing_codes ≡ db.pairing_codes)
        × ((log_revoked c user rs db).security_events
            ≡ db.security_events ++ map (λ (r : PairingRow). pairing_revoked user r.id) rs)
  unfolding log_revoked
  logged [] db = (refl, sym (append-nil db.security_events))
  logged (r ∷ rs) db =
      let (codes, events) = logged rs (log_event c user (pairing_revoked user r.id) db) in
      (codes, events ∙ append_assoc db.security_events (pairing_revoked user r.id ∷ []) _)

  revoke_all-IsRetired :
      (rs : List PairingRow) (db : Database)
      → keep (is_forever_of user) db.pairing_codes ≡ rs
      → IsRetired user db (revoke_all c user rs db)
  unfolding update_codes
  revoke_all-IsRetired [] db e = (
    kept_none (is_forever_of user) db.pairing_codes e,
    rw e (sym (append-nil db.security_events)),
  )
  revoke_all-IsRetired (r ∷ rs) db e =
      let rows : List PairingRow = update (is_forever_of user) (retire c user) db.pairing_codes in
      at_write (IsRetired user db) rows _ db (refl, refl)
        λ free.
          let (codes, events) = logged (r ∷ rs) (with_codes rows db) in
          (
            ap (find (is_forever_of user)) codes
                ∙ find-any (is_forever_of user) rows (
                    any-update (is_forever_of user) (retire c user) db.pairing_codes
                      (λ a. ground arith)),
            rw e events,
          )

  -- `revokeActiveForeverCode`: where it returns, the user has no active forever code, and each that
  -- was active has its event; the only failure is the violation of a constraint, which leaves all as
  -- it was.
  pub revoke_active_forever_code-IsRetired :
      (db : Database) → IsRetired user db (revoke_active_forever_code c user db)
  unfolding revoke_active_forever_code
  revoke_active_forever_code-IsRetired db =
      revoke_all-IsRetired (keep (is_forever_of user) db.pairing_codes) db refl
