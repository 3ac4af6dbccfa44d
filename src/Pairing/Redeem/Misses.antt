-- ===== src/Pairing/Redeem/Misses.antt =====
-- Wrong guesses: each is counted on every active code, and five lock them all.
use pookie_chat.Pairing.Reason.{with_codes}
use pookie_chat.Prelude.{
  ◌==◌, if◌then◌else◌, ==_refl, Bool-cases, Option-cases, length, find, keep, update, All,
  All-append, All-mono, All-update, changed, find-update, update-append, update_off, update-update,
  update_same, ℕ, ◌≤◌, ◌<◌, ◌≡◌, refl, sym, ap, ◌∙◌, ◌≢◌, inl, inr, Bool, true, false, none, some,
  List, [], ◌∷◌, ◌++◌, arith,
}
use pookie_chat.Domain.PairingCode.{far_future, is_locked_out, record_failed_attempt}
use pookie_chat.Server.Rows.{PairingRow}
use pookie_chat.Pairing.Tables.{is_live, has_pairing_id, touch_code}
use pookie_chat.Pairing.Redeem.{
  attempts_of, with_attempts, record_misses, redeem_found, fits, redeem, Redeemed,
}
use pookie_chat.Server.Database.{Database, Context}
use pookie_chat.Domain.Text.{Text}
use pookie_chat.Server.{bad_request, Result, err}
use pookie_chat.Domain.PairingCode.Guesses.{guesses, guesses-locked}
use pookie_chat.Pairing.Redeem.Reuse.{at_time, redeem_nothing}
use mathlib.Core.List.{append_assoc}

abbrev pub missed : PairingRow → PairingRow
missed r = with_attempts (record_failed_attempt (attempts_of r)).0 r

abbrev pub all_missed : List PairingRow → List PairingRow
all_missed rows = update is_live missed rows

-- Ids are a primary key.
abbrev pub AreDistinct : List PairingRow → Type 0
AreDistinct [] = Unit {0}
AreDistinct (r ∷ rs) = All (λ s. s.id ≢ r.id) rs × AreDistinct rs

-- A row that is done joins those before it.
apart_next :
    (done rs : List PairingRow) (x : PairingRow)
    → All (λ s. s.id ≢ x.id) rs
    → All (λ r. All (λ s. s.id ≢ r.id) done) rs
    → All (λ r. All (λ s. s.id ≢ r.id) (done ++ x ∷ [])) rs
apart_next done [] x new apart = tt
apart_next done (r ∷ rs) x new apart = (
  All-append (λ (s : PairingRow). s.id ≢ r.id) done (x ∷ []) apart.0 ((λ e. new.0 (sym e)), tt),
  apart_next done rs x new.1 apart.1,
)

-- An update by id meets its row alone.
update_at :
    (done rs : List PairingRow) (r : PairingRow) (f : PairingRow → PairingRow)
    → All (λ s. s.id ≢ r.id) done
    → All (λ s. s.id ≢ r.id) rs
    → update (has_pairing_id r.id) f (done ++ r ∷ rs) ≡ (done ++ f r ∷ []) ++ rs
unfolding update
update_at done rs r f before behind =
    let off : (s : PairingRow) → s.id ≢ r.id → (s.id == r.id) ≡ false = λ s h. ground arith in
    rw
      (
        update-append (has_pairing_id r.id) f done (r ∷ rs),
        update_off (has_pairing_id r.id) f done (All-mono _ _ off done before),
        update_off (has_pairing_id r.id) f rs (All-mono _ _ off rs behind),
        ==_refl r.id,
        append_assoc done (f r ∷ []) rs,
      )
      refl

-- Every active row of `todo` is updated once, where the ids of all are distinct.
record_misses_todo :
    (done todo : List PairingRow) (db : Database)
    → db.pairing_codes ≡ done ++ todo
    → AreDistinct todo
    → All (λ r. All (λ s. s.id ≢ r.id) done) todo
    → record_misses (keep is_live todo) db ≡ with_codes (done ++ all_missed todo) db
unfolding record_misses touch_code keep update
record_misses_todo done [] db e distinct apart = ap (λ rows. with_codes rows db) e
record_misses_todo done (r ∷ rs) db e distinct apart = elim (Bool-cases (is_live r)) [
  | inl live ↦ rw live (
      record_misses_todo (done ++ missed r ∷ []) rs
        (touch_code r.id (with_attempts (record_failed_attempt (attempts_of r)).0) db)
        (rw e (update_at done rs r _ apart.0 distinct.0)) distinct.1
        (apart_next done rs (missed r) distinct.0 apart.1)
      ∙ rw (append_assoc done (missed r ∷ []) (all_missed rs)) refl)
  | inr dead ↦ rw dead (
      record_misses_todo (done ++ r ∷ []) rs db (e ∙ sym (append_assoc done (r ∷ []) rs)) distinct.1
        (apart_next done rs r distinct.0 apart.1)
      ∙ rw (append_assoc done (r ∷ []) (all_missed rs)) refl)
]

apart_none :
    (rs : List PairingRow) → All (λ (r : PairingRow). All (λ (s : PairingRow). s.id ≢ r.id) []) rs
apart_none [] = tt
apart_none (r ∷ rs) = (tt, apart_none rs)

-- A text that fits no active code is refused, and counted on every active code.
redeem-miss :
    (c : Context) (redeemer : ℕ) (code : Text) (db : Database)
    → AreDistinct db.pairing_codes
    → find (fits c redeemer code) db.pairing_codes ≡ none
    → redeem c redeemer code db
      ≡ (err (bad_request "Invalid or expired code"), with_codes (all_missed db.pairing_codes) db)
redeem-miss c redeemer code db distinct unknown =
    redeem_nothing c redeemer code db unknown
    ∙ rw (record_misses_todo [] db.pairing_codes db refl distinct (apart_none db.pairing_codes))
        refl

-- What n wrong guesses make of a row.
abbrev pub missed_times : ℕ → PairingRow → PairingRow
missed_times n r = with_attempts (guesses n (attempts_of r)) r

kept_id : (b : Bool) (r : PairingRow) → (if b then missed r else r).id ≡ r.id
kept_id true r = refl
kept_id false r = refl

missed-AreDistinct : (rows : List PairingRow) → AreDistinct rows → AreDistinct (all_missed rows)
unfolding update
missed-AreDistinct [] d = tt
missed-AreDistinct (r ∷ rs) d = (
  rw (kept_id (is_live r) r) (
      All-update _ (λ (s : PairingRow). s.id ≢ r.id) is_live missed
        (λ s h. rw (kept_id (is_live s) s) h) rs d.0),
  missed-AreDistinct rs d.1,
)

-- A try: who, when, and the text.
pub record Guess : Type 0 where
  pub redeemer : ℕ
  pub time : ℕ
  pub code : Text

locked_redeem :
    (c : Context) (redeemer : ℕ) (row : PairingRow) (db : Database)
    → is_locked_out (attempts_of row) c.now ≡ true
    → (redeem_found c redeemer row db).0 ≡ err (bad_request "Invalid or expired code")
unfolding redeem_found
locked_redeem c redeemer row db locked = rw locked refl

module _ (c : Context) where
  -- The requests of some tries, one after the other.
  pub try_all : List Guess → Database → Database
  try_all [] db = db
  try_all (g ∷ gs) db = try_all gs (redeem (at_time g.time c) g.redeemer g.code db).1

  abbrev pub IsWrong : List PairingRow → Guess → Type 0
  IsWrong rows g = find (fits c g.redeemer g.code) rows ≡ none

  still-IsWrong :
      (rows : List PairingRow) (g : Guess) → IsWrong rows g → IsWrong (all_missed rows) g
  still-IsWrong rows g wrong =
      find-update (fits c g.redeemer g.code) is_live missed (λ r. refl) rows
      ∙ ap (changed is_live missed) wrong

  try_all-codes :
      (gs : List Guess) (db : Database)
      → AreDistinct db.pairing_codes
      → All (IsWrong db.pairing_codes) gs
      → (try_all gs db).pairing_codes ≡ update is_live (missed_times (length gs)) db.pairing_codes
  unfolding try_all guesses
  try_all-codes [] db distinct wrong =
      sym (update_same is_live (missed_times 0) (λ r. refl) db.pairing_codes)
  try_all-codes (g ∷ gs) db distinct wrong =
      ap (λ (q : Result Redeemed × Database). (try_all gs q.1).pairing_codes)
        (redeem-miss (at_time g.time c) g.redeemer g.code db distinct wrong.0)
      ∙ (try_all-codes gs (with_codes (all_missed db.pairing_codes) db)
            (missed-AreDistinct db.pairing_codes distinct)
            (All-mono _ _ (still-IsWrong db.pairing_codes) gs wrong.1)
          ∙ update-update is_live missed (missed_times (length gs)) (λ r. refl) db.pairing_codes)

  -- A row that is found after five tries is locked.
  locked_row :
      (n now : ℕ) (rows : List PairingRow) (p : PairingRow → Bool) (row : PairingRow)
      → now < far_future
      → 5 ≤ n
      → ((r : PairingRow) → p r ≡ true → is_live r ≡ true)
      → find p (update is_live (missed_times n) rows) ≡ some row
      → is_locked_out (attempts_of row) now ≡ true
  unfolding find update
  locked_row n now [] p row soon five live e = ground arith
  locked_row n now (r ∷ rs) p row soon five live e = ground (
    arith,
    guesses-locked n now (attempts_of r) soon,
    locked_row n now rs p row soon five live,
    live r,
    live (missed_times n r),
  )

  -- Five wrong guesses by anybody, of whatever codes, lock every code that is active: after them no
  -- text is accepted from anyone, at any instant that a date can hold.
  pub wrong_guesses_lock :
      (gs : List Guess) (db : Database) (g : Guess)
      → AreDistinct db.pairing_codes
      → All (IsWrong db.pairing_codes) gs
      → 5 ≤ length gs
      → g.time < far_future
      → (redeem (at_time g.time c) g.redeemer g.code (try_all gs db)).0
        ≡ err (bad_request "Invalid or expired code")
  unfolding redeem
  wrong_guesses_lock gs db g distinct wrong five soon =
      elim (Option-cases (find (fits c g.redeemer g.code) (try_all gs db).pairing_codes)) [
        | inl unknown ↦ rw unknown refl
        | inr (row, found) ↦ rw found (
            locked_redeem (at_time g.time c) g.redeemer row (try_all gs db) (
              locked_row (length gs) g.time db.pairing_codes (fits c g.redeemer g.code) row soon
                five (λ r. λ e. ground arith)
                (rw (sym (try_all-codes gs db distinct wrong)) found)))
      ]
