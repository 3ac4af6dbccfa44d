-- ===== src/Messages/Sending.antt =====
-- `send` returns, and `sync` tells the other user.
use mathlib.Core.List.{append-nil}
use pookie_chat.Prelude.{
  ==_refl, Bool-cases, find, any, drop, find-append_none, All, ℕ, zero, suc, ◌<◌, ◌≡◌, refl, sym,
  ◌∙◌, subst, inl, inr, Bool, true, false, Option, none, some, List, [], ◌∷◌, ◌++◌, arith,
}
use pookie_chat.Server.{Result, ok}
use pookie_chat.Server.Rows.{MessageRow}
use pookie_chat.Server.Database.{Database, Context}
use pookie_chat.Messages.Tables.{
  max_of, next_version, has_client_id, clashes, create_message, Rounds, now_stored, later_rounds,
  interfere,
}
use pookie_chat.Messages.Versions.{
  top, top_version, top_version-lt, top_number-lt, max_of-append, drop_later,
}
use pookie_chat.Messages.{new_message, create_loop, SendMessage}
use pookie_chat.Domain.MessageState.Timers.{eq_text_iff}

-- A number above the highest, with a client id that is not there, breaks no constraint.
row_free :
    (row : MessageRow) (ms : List MessageRow)
    → top (λ m. m.sequence_number) row.conversation_id ms < row.sequence_number
    → top_version row.conversation_id ms < row.sync_version
    → find (has_client_id row.conversation_id row.client_message_id) ms ≡ none
    → any (clashes row) ms ≡ false
unfolding max_of any find
row_free row [] h k e = refl
row_free row (m ∷ ms) h k e = ground (arith, row_free row ms)

module _ (c : Context) (user : ℕ) (dto : SendMessage) (disappear_at : Option ℕ) where
  abbrev pub IsUnknown : List MessageRow → Type 0
  IsUnknown ms = find (has_client_id dto.conversation_id dto.client_message_id) ms ≡ none

  -- The message is stored, with a number above all that the conversation had.
  abbrev pub Created : Database → Result (Bool × MessageRow) × Database → Type 0
  Created db q =
      (m : MessageRow) × (after : Database) × (q ≡ (ok (false, m), after))
      × (find (has_client_id dto.conversation_id dto.client_message_id) after.chat_messages
          ≡ some m)
      × (m ≡ new_message c user dto disappear_at m.id m.sequence_number)
      × (top_version dto.conversation_id db.chat_messages < m.sequence_number)
      × (after.conversations ≡ db.conversations)

  IsUnknown-append :
      (ms others : List MessageRow) → IsUnknown ms → IsUnknown others → IsUnknown (ms ++ others)
  IsUnknown-append ms others h k =
      find-append_none (has_client_id dto.conversation_id dto.client_message_id) ms others h ∙ k

  created_later :
      (others : List MessageRow) (db : Database) (q : Result (Bool × MessageRow) × Database)
      → Created (interfere others db) q
      → Created db q
  created_later others db q (m, after, e, found, same, above, conversations) = (
    m,
    after,
    e,
    found,
    same,
    omega (
      arith,
      above,
      max_of-append (λ m. m.sync_version) dto.conversation_id db.chat_messages others,
    ),
    conversations,
  )

  new_found :
      (ms : List MessageRow) (id n : ℕ)
      → IsUnknown ms
      → find
          (has_client_id dto.conversation_id dto.client_message_id)
          (ms ++ new_message c user dto disappear_at id n ∷ [])
        ≡ some (new_message c user dto disappear_at id n)
  unfolding find
  new_found ms id n unknown = rw (
    find-append_none (has_client_id dto.conversation_id dto.client_message_id) ms
        (new_message c user dto disappear_at id n ∷ []) unknown,
    ==_refl dto.conversation_id,
    (eq_text_iff dto.client_message_id dto.client_message_id).1 refl,
  )

  -- What one attempt does where its number is free, and where it is not.
  attempt_free :
      (attempts : ℕ) (rounds : Rounds) (db : Database)
      → IsUnknown (db.chat_messages ++ now_stored rounds)
      → any
          (clashes (
            new_message c user dto disappear_at db.next_id
              (next_version dto.conversation_id db.chat_messages)))
          (db.chat_messages ++ now_stored rounds)
        ≡ false
      → Created db (create_loop c user dto disappear_at (suc attempts) rounds db)
  unfolding create_loop create_message
  attempt_free attempts rounds db unknown free = rw free (
    new_message c user dto disappear_at db.next_id
        (next_version dto.conversation_id db.chat_messages),
    _,
    refl,
    new_found (db.chat_messages ++ now_stored rounds) db.next_id
        (next_version dto.conversation_id db.chat_messages) unknown,
    refl,
    top_version-lt dto.conversation_id db.chat_messages,
    refl,
  )

  attempt_taken :
      (attempts : ℕ) (rounds : Rounds) (db : Database)
      → IsUnknown (db.chat_messages ++ now_stored rounds)
      → any
          (clashes (
            new_message c user dto disappear_at db.next_id
              (next_version dto.conversation_id db.chat_messages)))
          (db.chat_messages ++ now_stored rounds)
        ≡ true
      → create_loop c user dto disappear_at (suc attempts) rounds db
        ≡ create_loop c user dto disappear_at attempts
            (later_rounds rounds)
            (interfere (now_stored rounds) db)
  unfolding create_loop create_message
  attempt_taken attempts rounds db unknown taken = rw (taken, unknown) refl

  IsUnknown-now : (rounds : Rounds) → All IsUnknown rounds → IsUnknown (now_stored rounds)
  unfolding find
  IsUnknown-now [] h = refl
  IsUnknown-now (others ∷ rounds) h = h.0

  IsUnknown-later : (rounds : Rounds) → All IsUnknown rounds → All IsUnknown (later_rounds rounds)
  IsUnknown-later [] h = tt
  IsUnknown-later (others ∷ rounds) h = h.1

  quiet_free :
      (rounds : Rounds) (db : Database)
      → now_stored rounds ≡ []
      → IsUnknown db.chat_messages
      → any
          (clashes (
            new_message c user dto disappear_at db.next_id
              (next_version dto.conversation_id db.chat_messages)))
          (db.chat_messages ++ now_stored rounds)
        ≡ false
  quiet_free rounds db quiet unknown =
      rw (quiet, append-nil db.chat_messages)
        (row_free
          (new_message c user dto disappear_at db.next_id
            (next_version dto.conversation_id db.chat_messages))
          db.chat_messages (top_number-lt dto.conversation_id db.chat_messages)
          (top_version-lt dto.conversation_id db.chat_messages) unknown)

  -- The loop stores the message if an attempt meets no message of another request, and nobody else
  -- stores one of the same client id.
  pub create_loop-Created :
      (attempts n : ℕ) (rounds : Rounds) (db : Database)
      → n < attempts
      → now_stored (drop n rounds) ≡ []
      → IsUnknown db.chat_messages
      → All IsUnknown rounds
      → Created db (create_loop c user dto disappear_at attempts rounds db)
  create_loop-Created zero n rounds db h quiet unknown unknowns = absurd (omega arith)
  create_loop-Created (suc attempts) zero rounds db h quiet unknown unknowns =
      attempt_free attempts rounds db
        (IsUnknown-append db.chat_messages (now_stored rounds) unknown
          (IsUnknown-now rounds unknowns))
        (quiet_free rounds db quiet unknown)
  create_loop-Created (suc attempts) (suc n) rounds db h quiet unknown unknowns =
      let both : IsUnknown (db.chat_messages ++ now_stored rounds) =
        IsUnknown-append db.chat_messages (now_stored rounds) unknown
          (IsUnknown-now rounds unknowns) in
      let rest =
        create_loop-Created attempts n (later_rounds rounds) (interfere (now_stored rounds) db)
          (omega arith) (sym (drop_later n rounds) ∙ quiet) both
          (IsUnknown-later rounds unknowns) in
      elim (Bool-cases (
        any
          (clashes (
            new_message c user dto disappear_at db.next_id
              (next_version dto.conversation_id db.chat_messages)))
          (db.chat_messages ++ now_stored rounds))) [
            | inl taken ↦
                subst (Created db) (sym (attempt_taken attempts rounds db both taken))
                  (created_later (now_stored rounds) db _ rest)
            | inr free ↦ attempt_free attempts rounds db both free
          ]
