-- ===== src/Messages/Silence.antt =====
-- Nothing goes through a conversation that was burned.
use pookie_chat.Prelude.{
  Bool-cases, find, find_holds, find-update, ℕ, ◌≡◌, refl, ap, ◌∙◌, subst, inl, inr, Option, some,
}
use pookie_chat.Domain.SessionEpoch.{is_usable_for_handshake, deleted}
use pookie_chat.Server.{Exception, forbidden, not_found, Result, ok, err}
use pookie_chat.Server.Rows.{ConversationRow, deleted}
use pookie_chat.Server.Database.{has_conversation_id, Database, Context}
use pookie_chat.Handshake.{store, fetch}
use pookie_chat.Conversations.Tables.{is_part, with_status}
use pookie_chat.Messages.Tables.{Rounds, active_conversation}
use pookie_chat.Messages.Sync.{sync}
use pookie_chat.Domain.Text.{Text}
use pookie_chat.Conversations.Burning.{IsBurned, burn-IsBurned, IsGone}
use pookie_chat.Conversations.{burn}
use pookie_chat.Messages.{send, SendMessage}

-- A request that is refused and changes nothing.
abbrev pub IsRefused {ℓ} : {A : Type ℓ} → Database → Result A × Database → Type ℓ
IsRefused {A = A} db q = (e : Exception) × (q ≡ (err e, db))

module _ (c : Context) (someone id : ℕ) (db : Database) (row : ConversationRow)
    (found : find (has_conversation_id id) db.conversations ≡ some (with_status deleted row)) where
  active-IsRefused : IsRefused db (active_conversation c someone id db)
  unfolding active_conversation
  active-IsRefused = elim (Bool-cases (is_part someone row)) [
    | inl part ↦ rw (found, part) (forbidden "Conversation not available", refl)
    | inr stranger ↦ rw (found, stranger) (forbidden "Forbidden", refl)
  ]

  sync-IsRefused : (seen : ℕ) → IsRefused db (sync c someone id seen db)
  unfolding sync
  sync-IsRefused seen = let (e, refused) = active-IsRefused in rw refused (e, refl)

  fetch-refused : fetch c someone id db ≡ (err (not_found "No pending handshake"), db)
  unfolding fetch is_usable_for_handshake
  fetch-refused = rw found refl

  store-IsRefused :
      (payload : Text) (epoch : Option ℕ) → IsRefused db (store c someone id payload epoch db)
  unfolding store is_usable_for_handshake
  store-IsRefused payload epoch = elim (Bool-cases (is_part someone row)) [
    | inl part ↦ rw (found, part) (forbidden "Conversation not available", refl)
    | inr stranger ↦ rw (found, stranger) (forbidden "Forbidden", refl)
  ]

send-IsRefused :
    (c : Context) (someone : ℕ) (dto : SendMessage) (rounds : Rounds) (db : Database)
    (row : ConversationRow)
    → find (has_conversation_id dto.conversation_id) db.conversations
      ≡ some (with_status deleted row)
    → IsRefused db (send c someone dto rounds db)
unfolding send
send-IsRefused c someone dto rounds db row found =
    let (e, refused) = active-IsRefused c someone dto.conversation_id db row found in
    rw refused (e, refl)

burned_found :
    (id : ℕ) (db after : Database) (row : ConversationRow)
    → find (has_conversation_id id) db.conversations ≡ some row
    → IsGone id db after
    → find (has_conversation_id id) after.conversations ≡ some (with_status deleted row)
burned_found id db after row found gone =
    ap (find (has_conversation_id id)) gone.conversations
    ∙ find-update (has_conversation_id id) (has_conversation_id id) (with_status deleted)
        (λ r. refl) db.conversations
    ∙ rw (found, find_holds (has_conversation_id id) db.conversations row found) refl

-- After a burning nobody, at any time, sends to the conversation, syncs its messages, or stores or
-- fetches its handshake: each such request is refused and changes nothing.
pub burn-IsRefused :
    (c : Context) (user : ℕ) (password : Option Text) (db after : Database) (dto : SendMessage)
    → burn c user dto.conversation_id password db ≡ (ok tt, after)
    → (later : Context) (someone seen : ℕ) (rounds : Rounds) (payload : Text) (epoch : Option ℕ)
    → IsRefused after (send later someone dto rounds after)
      × IsRefused after (sync later someone dto.conversation_id seen after)
      × IsRefused after (store later someone dto.conversation_id payload epoch after)
      × (fetch later someone dto.conversation_id after
          ≡ (err (not_found "No pending handshake"), after))
burn-IsRefused c user password db after dto success later someone seen rounds payload epoch =
    let burned =
      subst (IsBurned c user dto.conversation_id password db) success
        (burn-IsBurned c user dto.conversation_id password db) in
    let found = burned_found dto.conversation_id db after burned.row burned.found burned.gone in
    (
      send-IsRefused later someone dto rounds after burned.row found,
      sync-IsRefused later someone dto.conversation_id after burned.row found seen,
      store-IsRefused later someone dto.conversation_id after burned.row found payload epoch,
      fetch-refused later someone dto.conversation_id after burned.row found,
    )
