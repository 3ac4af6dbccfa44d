-- ===== src/Pairing/Redeem/Revoked.antt =====
-- `redeem` of a code that its creator has revoked.
use pookie_chat.Prelude.{
  count, find, ==_refl, subst, find-update_only, ℕ, ◌≤◌, ◌≡◌, some, ap, arith,
}
use pookie_chat.Domain.Text.{Text}
use pookie_chat.Server.{bad_request, Result, ok, err}
use pookie_chat.Server.Rows.{PairingRow}
use pookie_chat.Server.Database.{Database, Context}
use pookie_chat.Pairing.Tables.{has_pairing_id}
use pookie_chat.Pairing.Active.{retire, revoke}
use pookie_chat.Pairing.Active.Revoking.{IsRevoked, revoke-IsRevoked}
use pookie_chat.Pairing.Redeem.{fits, redeem, Redeemed}
use pookie_chat.Pairing.Redeem.Reuse.{at_time, redeem_nothing}

-- After a code was revoked, of whatever duration, its text is refused from everybody at whatever
-- time, if no other active code fits the text.
pub revoke-redeem :
    (c : Context) (user redeemer later : ℕ) (code : Text) (db : Database) (row : PairingRow)
    (after : Database)
    → find (fits c redeemer code) db.pairing_codes ≡ some row
    → count (fits c redeemer code) db.pairing_codes ≤ 1
    → revoke c user row.id db ≡ (ok tt, after)
    → (redeem (at_time later c) redeemer code after).0 ≡ err (bad_request "Invalid or expired code")
revoke-redeem c user redeemer later code db row after found one success =
    let done = subst (IsRevoked c user row.id db) success (revoke-IsRevoked c user row.id db) in
    ap (λ (q : Result Redeemed × Database). q.0)
      (redeem_nothing (at_time later c) redeemer code after (
        rw done.codes (
          find-update_only (fits c redeemer code) (has_pairing_id row.id) (retire c user)
            (λ r. ground arith) db.pairing_codes row found (==_refl row.id) one)))
