-- ===== src/Pairing/Redeem/Outcome.antt =====
-- What `redeem` has done when it returns, and what it has left alone when it refuses.
use pookie_chat.Prelude.{
  ◌==◌, Bool-cases, find, keep, any, update, ℕ, ◌≡◌, refl, subst, inl, inr, Bool, true, false, not,
  Option, none, some, List, [], ◌∷◌, arith,
}
use pookie_chat.Domain.Text.{Text}
use pookie_chat.Domain.PairingCode.{is_expired, is_locked_out, record_failed_attempt}
use pookie_chat.Server.{M, bind, roll_back, Result, ok, err}
use pookie_chat.Server.Rows.{PrekeyRow, PairingStatus, PairingRow, ConversationRow}
use pookie_chat.Server.Database.{Database, Context}
use pookie_chat.Pairing.Tables.{
  is_live, has_pairing_id, has_clash, write_codes, update_codes, update_code, touch_code,
}
use pookie_chat.Pairing.Redeem.{
  attempts_of, with_attempts, record_misses, latest_device, redeem_in_transaction, refuse_expired,
  redeem_found, fits, redeem_match, redeem, Redeemed,
}
use pookie_chat.Server.Reason.{at_require, at_or_throw, at_bind}
use pookie_chat.Pairing.Redeem.Transaction.{
  HasPaired, Outcome, Paired, Refused, redeem_in_transaction-Paired,
}

module _ (c : Context) (redeemer : ℕ) where
  -- The transaction as a whole: where it fails, the database is as before.
  abbrev PairedOrBack :
      PairingRow → Database → Result (ConversationRow × Option PrekeyRow) × Database → Type 0
  PairedOrBack row db (ok a, after) = Paired c redeemer row db (ok a, after)
  PairedOrBack row db (err e, after) = after ≡ db

  rolled-PairedOrBack :
      (row : PairingRow) (db : Database)
      (q : Result (ConversationRow × Option PrekeyRow) × Database)
      → Paired c redeemer row db q
      → PairedOrBack row db (roll_back db q)
  rolled-PairedOrBack row db (ok a, after) h = h
  rolled-PairedOrBack row db (err e, after) h = refl

  refuse_expired-Outcome :
      (id : ℕ) (old : Bool) (code : Text) (db : Database) (k : Unit {0} → M Database Redeemed)
      → (old ≡ false → Outcome c redeemer code db (k tt db))
      → Outcome c redeemer code db (bind (refuse_expired c redeemer id old db) k)
  unfolding update_code update_codes write_codes
  refuse_expired-Outcome id true code db k go =
      let rows : List PairingRow =
        update (has_pairing_id id) (λ r. record r { status = PairingStatus.expired })
          db.pairing_codes in
      elim (Bool-cases (any (has_clash rows) rows)) [
        | inl clash ↦ rw clash (refl, refl, refl, refl)
        | inr free ↦ rw free (refl, refl, refl, refl)
      ]
  refuse_expired-Outcome id false code db k go = go refl

  redeem_found-Outcome :
      (code : Text) (row : PairingRow) (db : Database)
      → find (fits c redeemer code) db.pairing_codes ≡ some row
      → Outcome c redeemer code db (redeem_found c redeemer row db)
  unfolding redeem_found
  redeem_found-Outcome code row db found =
      at_require (Outcome c redeemer code db) (not (is_locked_out (attempts_of row) c.now)) _ _ db
        (refl, refl, refl, refl)
        λ unlocked.
          refuse_expired-Outcome row.id (is_expired row.expires_at c.now) code db _ λ unexpired.
            at_require (Outcome c redeemer code db) (not (row.creator_user_id == redeemer)) _ _ db
              (refl, refl, refl, refl)
              λ other.
                at_or_throw (Outcome c redeemer code db)
                  (latest_device row.creator_user_id db.devices) _ _ db (refl, refl, refl, refl)
                  λ device e.
                    at_bind (Outcome c redeemer code db) (PairedOrBack row db)
                      (roll_back db (redeem_in_transaction c redeemer row device db)) _
                      (rolled-PairedOrBack row db _
                        (redeem_in_transaction-Paired c redeemer row device db))
                      (λ e s back. rw back (refl, refl, refl, refl))
                      λ (convo, key) s (once, paired, live, epoch, expiry, rows, handshakes).
                        record {
                          row = row;
                          found = found;
                          unlocked = ground arith;
                          unexpired = unexpired;
                          not_self = ground arith;
                          codes = once;
                          conversation = convo;
                          paired = paired;
                          is_live_now = live;
                          same_id = refl;
                          same_epoch = refl;
                          next_epoch_of = epoch;
                          expiry = expiry;
                          conversations = rows;
                          handshakes = handshakes;
                        }

  record_misses-Refused :
      (candidates : List PairingRow) (db : Database) → Refused db (record_misses candidates db)
  unfolding record_misses touch_code
  record_misses-Refused [] db = (refl, refl, refl, refl)
  record_misses-Refused (r ∷ rs) db =
      record_misses-Refused rs
        (touch_code r.id (with_attempts (record_failed_attempt (attempts_of r)).0) db)

  match-Outcome :
      (code : Text) (db : Database) (o : Option PairingRow)
      → find (fits c redeemer code) db.pairing_codes ≡ o
      → Outcome c redeemer code db (redeem_match c redeemer o db)
  match-Outcome code db none e = record_misses-Refused (keep is_live db.pairing_codes) db
  match-Outcome code db (some row) e = redeem_found-Outcome code row db e

  -- `redeem`, by what it answers. Where it returns, a code of another user that is active, not locked
  -- and not expired fits the text; the conversation of the two, in their order, is active in its next
  -- epoch, which is the one that is returned, and expires with the code; and of the codes only that
  -- one has changed: it is spent if it has an expiry, else it stays active. Where it refuses, at
  -- whatever point, no conversation, prekey, handshake or security event is other than before.
  pub redeem-Outcome :
      (code : Text) (db : Database) → Outcome c redeemer code db (redeem c redeemer code db)
  unfolding redeem
  redeem-Outcome code db = match-Outcome code db (find (fits c redeemer code) db.pairing_codes) refl

  pub redeem-HasPaired :
      (code : Text) (db : Database) (out : Redeemed) (after : Database)
      → redeem c redeemer code db ≡ (ok out, after)
      → HasPaired c redeemer code db out after
  redeem-HasPaired code db out after e =
      subst (Outcome c redeemer code db) e (redeem-Outcome code db)
