-- ===== src/Pairing/Redeem/Reuse.antt =====
-- `redeem` of a code that was redeemed before: a code that expires works once.
use pookie_chat.Prelude.{
  ◌==◌, is_none, ==_refl, find, keep, count, find_holds, find-update_only, ℕ, ◌≤◌, ◌≡◌, refl, ap,
  subst, false, ◌&&◌, none, some, arith,
}
use pookie_chat.Domain.Text.{Text}
use pookie_chat.Server.{bad_request, Result, ok, err}
use pookie_chat.Server.Rows.{PairingRow}
use pookie_chat.Server.Database.{Database, Context}
use pookie_chat.Pairing.Tables.{is_live}
use pookie_chat.Pairing.Redeem.{record_misses, spent, fits, redeem, Redeemed}
use pookie_chat.Pairing.Redeem.Transaction.{codes_after}
use pookie_chat.Pairing.Redeem.Outcome.{redeem-HasPaired}

abbrev pub at_time : ℕ → Context → Context
at_time later c = record c { now = later }

-- A code that is spent fits no more.
spent_gone :
    (c : Context) (redeemer : ℕ) (code : Text) (db : Database) (row : PairingRow)
    → find (fits c redeemer code) db.pairing_codes ≡ some row
    → is_none row.expires_at ≡ false
    → count (fits c redeemer code) db.pairing_codes ≤ 1
    → find (fits c redeemer code) (codes_after c redeemer row db.pairing_codes) ≡ none
spent_gone c redeemer code db row found timed one = rw timed (
    find-update_only (fits c redeemer code) (λ r. r.id == row.id && is_live r) (spent c redeemer)
      (λ r. ground arith) db.pairing_codes row found
      (rw (==_refl row.id)
        (ground (arith, find_holds (fits c redeemer code) db.pairing_codes row found)))
      one)

pub redeem_nothing :
    (c : Context) (redeemer : ℕ) (code : Text) (db : Database)
    → find (fits c redeemer code) db.pairing_codes ≡ none
    → redeem c redeemer code db ≡ (
      err (bad_request "Invalid or expired code"),
      record_misses (keep is_live db.pairing_codes) db,
    )
unfolding redeem
redeem_nothing c redeemer code db e = rw e refl

-- A code that expires is redeemed once: if no other active code fits the text, then after a success
-- whoever tries it at whatever time is refused.
pub redeem-once :
    (c : Context) (redeemer other later : ℕ) (code : Text) (db : Database) (row : PairingRow)
    (out : Redeemed) (after : Database)
    → find (fits c redeemer code) db.pairing_codes ≡ some row
    → is_none row.expires_at ≡ false
    → count (fits c redeemer code) db.pairing_codes ≤ 1
    → redeem c redeemer code db ≡ (ok out, after)
    → (redeem (at_time later c) other code after).0 ≡ err (bad_request "Invalid or expired code")
redeem-once c redeemer other later code db row out after found timed one success =
    let paired = redeem-HasPaired c redeemer code db out after success in
    let same : row ≡ paired.row = ground (arith, found, paired.found) in
    ap (λ (q : Result Redeemed × Database). q.0)
      (redeem_nothing (at_time later c) other code after (
        rw paired.codes (
          spent_gone c redeemer code db paired.row paired.found
            (subst (λ (r : PairingRow). is_none r.expires_at ≡ false) same timed) one)))
