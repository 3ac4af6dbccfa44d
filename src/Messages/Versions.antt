-- ===== src/Messages/Versions.antt =====
-- The counter of a conversation, and what the retry loop of deletions and edits leaves.
use mathlib.Core.List.{append-nil, append_assoc}
use pookie_chat.Prelude.{
  Bool-cases, any, drop, ℕ, zero, suc, ◌≤◌, ◌<◌, ◌≡◌, refl, sym, ap, ◌∙◌, inl, inr, false, List, [],
  ◌∷◌, ◌++◌, arith,
}
use pookie_chat.Domain.MessageState.{or_zero}
use pookie_chat.Server.{unique_violation, Result, ok, err}
use pookie_chat.Server.Rows.{MessageRow}
use pookie_chat.Server.Database.{Database}
use pookie_chat.Messages.Tables.{
  max_of, next_version, update_message, has_version, Rounds, now_stored, later_rounds, interfere,
  write_version, bump_loop,
}

-- The highest value of a column in a conversation.
abbrev pub top : (MessageRow → ℕ) → ℕ → List MessageRow → ℕ
top column conversation ms = or_zero (max_of column conversation ms)

abbrev pub top_version : ℕ → List MessageRow → ℕ
top_version = top (λ m. m.sync_version)

pub top_version-lt :
    (conversation : ℕ) (ms : List MessageRow)
    → top_version conversation ms < next_version conversation ms
unfolding next_version
top_version-lt conversation ms = ground arith

pub top_number-lt :
    (conversation : ℕ) (ms : List MessageRow)
    → top (λ m. m.sequence_number) conversation ms < next_version conversation ms
unfolding next_version
top_number-lt conversation ms = ground arith

pub max_of-append :
    (column : MessageRow → ℕ) (conversation : ℕ) (ms others : List MessageRow)
    → top column conversation ms ≤ top column conversation (ms ++ others)
unfolding max_of
max_of-append column conversation [] others = omega arith
max_of-append column conversation (m ∷ ms) others =
    ground (arith, max_of-append column conversation ms others)

pub drop_later :
    (n : ℕ) (rounds : Rounds)
    → now_stored (drop (suc n) rounds) ≡ now_stored (drop n (later_rounds rounds))
drop_later zero [] = refl
drop_later (suc n) [] = refl
drop_later n (others ∷ rounds) = refl

-- A version above the highest is free.
version_free :
    (id conversation version : ℕ) (ms : List MessageRow)
    → top_version conversation ms < version
    → any (has_version id conversation version) ms ≡ false
unfolding max_of any
version_free id conversation version [] h = refl
version_free id conversation version (m ∷ ms) h =
    ground (arith, version_free id conversation version ms)

module _ (id conversation : ℕ) (data_ : ℕ → MessageRow → MessageRow) where
  -- What the loop leaves: the messages of others, and where it returns the row with its new version,
  -- which is above all that the conversation had.
  abbrev pub Bumped : Database → Result ℕ × Database → Type 0
  Bumped db (ok version, after) =
      (others : List MessageRow) × (after ≡ update_message id (data_ version) (interfere others db))
      × (top_version conversation db.chat_messages < version)
  Bumped db (err e, after) =
      (others : List MessageRow) × (after ≡ interfere others db) × (e ≡ unique_violation)

  interfere_twice :
      (first second : List MessageRow) (db : Database)
      → interfere second (interfere first db) ≡ interfere (first ++ second) db
  interfere_twice first second db =
      ap (λ ms. record db { chat_messages = ms }) (append_assoc db.chat_messages first second)

  Bumped-later :
      (others : List MessageRow) (db : Database) (q : Result ℕ × Database)
      → Bumped (interfere others db) q
      → Bumped db q
  Bumped-later others db (ok version, after) (more, e, above) = (
    others ++ more,
    e ∙ ap (update_message id (data_ version)) (interfere_twice others more db),
    omega (arith, above, max_of-append (λ m. m.sync_version) conversation db.chat_messages others),
  )
  Bumped-later others db (err x, after) (more, e, violated) =
      (others ++ more, e ∙ interfere_twice others more db, violated)

  pub bump_loop-Bumped :
      (attempts : ℕ) (rounds : Rounds) (db : Database)
      → Bumped db (bump_loop id conversation data_ attempts rounds db)
  unfolding bump_loop write_version
  bump_loop-Bumped zero rounds db =
      ([], ap (λ ms. record db { chat_messages = ms }) (sym (append-nil db.chat_messages)), refl)
  bump_loop-Bumped (suc attempts) rounds db =
      let others = now_stored rounds in
      elim (Bool-cases (
        any (has_version id conversation (next_version conversation db.chat_messages))
          (interfere others db).chat_messages)) [
            | inl taken ↦ rw taken (
                Bumped-later others db _
                  (bump_loop-Bumped attempts (later_rounds rounds) (interfere others db)))
            | inr free ↦ rw free (others, refl, top_version-lt conversation db.chat_messages)
          ]

  -- An attempt that meets no message of another request returns.
  pub bump_loop-ok :
      (attempts n : ℕ) (rounds : Rounds) (db : Database)
      → n < attempts
      → now_stored (drop n rounds) ≡ []
      → (version : ℕ) × (after : Database) × (bump_loop id conversation data_ attempts rounds db
          ≡ (ok version, after))
  unfolding bump_loop write_version
  bump_loop-ok zero n rounds db h quiet = absurd (omega arith)
  bump_loop-ok (suc attempts) zero rounds db h quiet = rw quiet (
      rw
        (version_free id conversation (next_version conversation db.chat_messages)
          (db.chat_messages ++ [])
          (rw (append-nil db.chat_messages) (top_version-lt conversation db.chat_messages)))
        (next_version conversation db.chat_messages, _, refl))
  bump_loop-ok (suc attempts) (suc n) rounds db h quiet =
      let rest =
        bump_loop-ok attempts n (later_rounds rounds) (interfere (now_stored rounds) db)
          (omega arith) (sym (drop_later n rounds) ∙ quiet) in
      elim (Bool-cases (
        any (has_version id conversation (next_version conversation db.chat_messages))
          (interfere (now_stored rounds) db).chat_messages)) [
            | inl taken ↦ rw taken rest
            | inr free ↦ rw free (next_version conversation db.chat_messages, _, refl)
          ]
