-- ===== src/Pairing/Redeem/Transaction.antt =====
-- The transaction of `redeem`, and the words for what a redemption leaves.
use pookie_chat.Prelude.{
  ◌==◌, if◌then◌else◌, is_none, ==_refl, Bool-cases, find, any, update, find-append_none,
  find-update, ℕ, ◌+◌, ◌≡◌, refl, sym, ap, ◌≢◌, inl, inr, false, ◌&&◌, Option, none, some, List, [],
  ◌∷◌, ◌++◌,
}
use pookie_chat.Domain.Text.{Text}
use pookie_chat.Domain.PairingCode.{is_expired, is_locked_out}
use pookie_chat.Domain.SessionEpoch.{ConversationStatus}
use pookie_chat.Server.{M, bind, ◌>>◌, pure, modify, require, bad_request, Result, ok, err}
use pookie_chat.Server.Rows.{DeviceRow, PrekeyRow, PairingRow, ConversationRow}
use pookie_chat.Server.Database.{has_conversation_id, Database, Context}
use pookie_chat.Pairing.Reason.{with_codes, at_write}
use pookie_chat.Pairing.Tables.{is_live, has_pairing_id, update_codes, touch_code}
use pookie_chat.Pairing.Redeem.{
  canonical_pair, attempts_of, is_pair, is_blocked, new_conversation, renewed, pair_conversation,
  is_free_prekey, consume_prekey, used_by_redeemer, spent, use_code, temporary_creator,
  redeem_in_transaction, fits, Redeemed,
}
use pookie_chat.Server.Reason.{at_if, at_bind, at_guard}

-- A refusal may count guesses or let a code expire, but it makes no conversation.
abbrev pub Refused : Database → Database → Type 0
Refused db after =
    (after.conversations ≡ db.conversations)
    × (after.prekeys ≡ db.prekeys)
    × (after.handshakes ≡ db.handshakes)
    × (after.security_events ≡ db.security_events)

-- The epoch that the pair's conversation has next.
abbrev pub epoch_after : Option ConversationRow → ℕ
epoch_after none = 1
epoch_after (some existing) = existing.session_epoch + 1

module _ (c : Context) (redeemer : ℕ) where
  -- The codes after a row was used: one that expires is spent, one that does not stays active.
  abbrev pub codes_after : PairingRow → List PairingRow → List PairingRow
  codes_after row rows =
      if is_none row.expires_at
      then update (has_pairing_id row.id) (used_by_redeemer c redeemer) rows
      else update (λ r. r.id == row.id && is_live r) (spent c redeemer) rows

  -- The conversation of the code's creator and its redeemer, if there is one.
  abbrev pub their_conversation : PairingRow → Database → Option ConversationRow
  their_conversation row db =
      find
        (is_pair (canonical_pair row.creator_user_id redeemer).0
          (canonical_pair row.creator_user_id redeemer).1)
        db.conversations

  -- The conversations afterwards.
  abbrev pub conversations_after :
      PairingRow → Database → Option ConversationRow → List ConversationRow
  conversations_after row db none =
      db.conversations
      ++ new_conversation db.next_id (canonical_pair row.creator_user_id redeemer).0
          (canonical_pair row.creator_user_id redeemer).1 row.expires_at
          (temporary_creator c redeemer row)
        ∷ []
  conversations_after row db (some existing) =
      update (has_conversation_id existing.id)
        (renewed row.expires_at (temporary_creator c redeemer row)) db.conversations

  -- What a success tells.
  pub record HasPaired (code : Text) (db : Database) (out : Redeemed) (after : Database)
      : Type 0 where
    pub row : PairingRow
    pub found : find (fits c redeemer code) db.pairing_codes ≡ some row
    pub unlocked : is_locked_out (attempts_of row) c.now ≡ false
    pub unexpired : is_expired row.expires_at c.now ≡ false
    pub not_self : row.creator_user_id ≢ redeemer
    pub codes : after.pairing_codes ≡ codes_after row db.pairing_codes
    pub conversation : ConversationRow
    pub paired : their_conversation row after ≡ some conversation
    pub is_live_now : conversation.status ≡ ConversationStatus.active
    pub same_id : out.conversation_id ≡ conversation.id
    pub same_epoch : out.session_epoch ≡ conversation.session_epoch
    pub next_epoch_of : conversation.session_epoch ≡ epoch_after (their_conversation row db)
    pub conversations : after.conversations ≡ conversations_after row db (their_conversation row db)
    pub handshakes : after.handshakes ≡ db.handshakes
    pub expiry : conversation.expires_at ≡ row.expires_at

  abbrev pub Outcome : Text → Database → Result Redeemed × Database → Type 0
  Outcome code db (ok out, after) = HasPaired code db out after
  Outcome code db (err e, after) = Refused db after

  -- What the use of the code leaves for the rest of the transaction.
  abbrev Used : PairingRow → Database → Result (Unit {0}) × Database → Type 0
  Used row db (ok a, s) = s ≡ with_codes (codes_after row db.pairing_codes) db
  Used row db (err e, s) = Unit {0}

  use_code-Used : (row : PairingRow) (db : Database) → Used row db (use_code c redeemer row db)
  unfolding use_code update_codes touch_code
  use_code-Used row db =
      at_if (Used row db) (is_none row.expires_at) _ _ db (λ kept. rw kept refl)
        λ timed.
          at_write (Used row db)
            (update (λ r. r.id == row.id && is_live r) (spent c redeemer) db.pairing_codes)
            (λ u.
              require (any (λ r. r.id == row.id && is_live r) db.pairing_codes)
                (bad_request "Invalid or expired code"))
            db tt
            λ free.
              at_guard (Used row db) (any (λ r. r.id == row.id && is_live r) db.pairing_codes) _
                (with_codes
                  (update (λ r. r.id == row.id && is_live r) (spent c redeemer) db.pairing_codes)
                  db)
                tt λ live. rw timed refl

  -- The transaction's result: the conversation of the pair, in its next epoch.
  abbrev pub Paired :
      PairingRow → Database → Result (ConversationRow × Option PrekeyRow) × Database → Type 0
  Paired row db (ok (convo, key), after) =
      (after.pairing_codes ≡ codes_after row db.pairing_codes)
      × (their_conversation row after ≡ some convo)
      × (convo.status ≡ ConversationStatus.active)
      × (convo.session_epoch ≡ epoch_after (their_conversation row db))
      × (convo.expires_at ≡ row.expires_at)
      × (after.conversations ≡ conversations_after row db (their_conversation row db))
      × (after.handshakes ≡ db.handshakes)
  Paired row db (err e, after) = Unit {0}

  -- The key's consumption leaves the other tables alone.
  consumed_same :
      (o : Option PrekeyRow) (s : Database)
      → ((consume_prekey o c.now s).conversations ≡ s.conversations)
        × ((consume_prekey o c.now s).pairing_codes ≡ s.pairing_codes)
        × ((consume_prekey o c.now s).handshakes ≡ s.handshakes)
  consumed_same none s = (refl, refl, refl)
  consumed_same (some key) s = (refl, refl, refl)

  abbrev rest_of :
      DeviceRow → Database → ConversationRow → M Database (ConversationRow × Option PrekeyRow)
  rest_of device db conversation = do
    modify (consume_prekey (find (is_free_prekey device.id) db.prekeys) c.now)
    pure (conversation, find (is_free_prekey device.id) db.prekeys)

  conversation-Paired :
      (row : PairingRow) (device : DeviceRow) (db s : Database) (o : Option ConversationRow)
      → s ≡ with_codes (codes_after row db.pairing_codes) db
      → their_conversation row db ≡ o
      → Paired row db (
          bind
            (pair_conversation o
              (canonical_pair row.creator_user_id redeemer).0
              (canonical_pair row.creator_user_id redeemer).1
              row.expires_at
              (temporary_creator c redeemer row)
              s)
            (rest_of device s))
  unfolding find
  conversation-Paired row device db s none codes e =
      let a : ℕ = (canonical_pair row.creator_user_id redeemer).0 in
      let b : ℕ = (canonical_pair row.creator_user_id redeemer).1 in
      rw
        (
          codes,
          (consumed_same (find (is_free_prekey device.id) db.prekeys) _).0,
          (consumed_same (find (is_free_prekey device.id) db.prekeys) _).1,
          (consumed_same (find (is_free_prekey device.id) db.prekeys) _).2,
          e,
          find-append_none (is_pair a b) db.conversations _ e,
          ==_refl a,
          ==_refl b,
        )
        (refl, refl, refl, refl, refl, refl, refl)
  conversation-Paired row device db s (some existing) codes e =
      elim (Bool-cases (is_blocked existing.status)) [
        | inl blocked ↦ rw blocked tt
        | inr free ↦
            rw
              (
                free,
                codes,
                (consumed_same (find (is_free_prekey device.id) db.prekeys) _).0,
                (consumed_same (find (is_free_prekey device.id) db.prekeys) _).1,
                (consumed_same (find (is_free_prekey device.id) db.prekeys) _).2,
                find-update
                    (is_pair (canonical_pair row.creator_user_id redeemer).0
                      (canonical_pair row.creator_user_id redeemer).1)
                    (has_conversation_id existing.id)
                    (renewed row.expires_at (temporary_creator c redeemer row)) (λ r. refl)
                    db.conversations,
                e,
                ==_refl existing.id,
              )
              (refl, refl, refl, refl, refl, refl, refl)
      ]

  pub redeem_in_transaction-Paired :
      (row : PairingRow) (device : DeviceRow) (db : Database)
      → Paired row db (redeem_in_transaction c redeemer row device db)
  unfolding redeem_in_transaction
  redeem_in_transaction-Paired row device db =
      at_bind (Paired row db) (Used row db) (use_code c redeemer row db) _ (use_code-Used row db)
        (λ e s h. tt)
        λ a s used.
          conversation-Paired row device db s (their_conversation row s) used
            (ap (their_conversation row) (sym used))
