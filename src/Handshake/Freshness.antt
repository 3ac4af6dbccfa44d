-- ===== src/Handshake/Freshness.antt =====
-- What `store` and `fetch` promise together, and with `redeem`: the other user gets what was stored,
-- until the two pair again.
use pookie_chat.Prelude.{
  ◌==◌, if◌then◌else◌, ==_refl, Bool-cases, find, find-update, ℕ, ◌+◌, ◌≤◌, ◌≡◌, refl, sym, ap, ◌∙◌,
  subst, inl, inr, true, false, not, ◌||◌, Option, none, some, List, [], ◌∷◌, arith,
}
use pookie_chat.Domain.Text.{Text}
use pookie_chat.Domain.SessionEpoch.{is_stale_epoch}
use pookie_chat.Server.{not_found, Result, ok, err}
use pookie_chat.Server.Rows.{PairingRow, ConversationRow, HandshakeRow}
use pookie_chat.Server.Database.{has_conversation_id, Database, Context}
use pookie_chat.Server.Reason.{at_require, at_or_throw}
use pookie_chat.Handshake.{
  is_of_conversation, is_unavailable, upsert_handshake, other_user, store, fetch,
}
use pookie_chat.Pairing.Redeem.{renewed, temporary_creator, fits, redeem, Redeemed}
use pookie_chat.Pairing.Redeem.Transaction.{their_conversation, conversations_after}
use pookie_chat.Pairing.Redeem.Outcome.{redeem-HasPaired}

find-upsert_handshake :
    (row : HandshakeRow) (hs : List HandshakeRow)
    → find (is_of_conversation row.conversation_id) (upsert_handshake row hs) ≡ some row
unfolding find upsert_handshake
find-upsert_handshake row [] = rw (==_refl row.conversation_id) refl
find-upsert_handshake row (h ∷ hs) =
    ground (arith, ==_refl row.conversation_id, find-upsert_handshake row hs)

not_stale : (o : Option ℕ) (n : ℕ) → is_stale_epoch o n ≡ false → o ≡ some n
unfolding is_stale_epoch
not_stale none n h = absurd (ground arith)
not_stale (some m) n h = ground arith

module _ (c : Context) (user conversation_id : ℕ) (payload : Text) (epoch : Option ℕ) where
  abbrev stored_row : ConversationRow → HandshakeRow
  stored_row convo = record {
    conversation_id = conversation_id;
    recipient_user_id = other_user user convo;
    payload = payload;
    session_epoch = convo.session_epoch;
  }

  -- What a success of `store` tells of the conversation.
  pub record HasStored (db after : Database) : Type 0 where
    pub convo : ConversationRow
    pub found : find (has_conversation_id conversation_id) db.conversations ≡ some convo
    pub takes_part : (convo.user_a_id == user || convo.user_b_id == user) ≡ true
    pub available : is_unavailable c.now convo ≡ false
    pub fresh : epoch ≡ some convo.session_epoch
    pub same : after ≡ record db { handshakes = upsert_handshake (stored_row convo) db.handshakes }

  abbrev Stores : Database → Result (Unit {0}) × Database → Type 0
  Stores db (ok a, after) = HasStored db after
  Stores db (err e, after) = after ≡ db

  store-Stores : (db : Database) → Stores db (store c user conversation_id payload epoch db)
  unfolding store
  store-Stores db =
      at_or_throw (Stores db) (find (has_conversation_id conversation_id) db.conversations) _ _ db
        refl
        λ convo found.
          at_require (Stores db) (convo.user_a_id == user || convo.user_b_id == user) _ _ db refl
            λ part. at_require (Stores db) (not (is_unavailable c.now convo)) _ _ db refl λ open_.
              at_require (Stores db) (not (is_stale_epoch epoch convo.session_epoch)) _ _ db refl
                λ fresh. record {
                  convo = convo;
                  found = found;
                  takes_part = part;
                  available = ground arith;
                  fresh = not_stale epoch convo.session_epoch (ground arith);
                  same = refl;
                }

fetch_stored :
    (c : Context) (user someone conversation_id : ℕ) (payload : Text) (epoch : Option ℕ)
    (db : Database) (convo : ConversationRow)
    → find (has_conversation_id conversation_id) db.conversations ≡ some convo
    → is_unavailable c.now convo ≡ false
    → let after : Database = record db {
      handshakes =
          upsert_handshake (stored_row c user conversation_id payload epoch convo) db.handshakes;
    } in
      fetch c someone conversation_id after ≡ (
        if other_user user convo == someone
            then ok (record { handshake_message = payload; session_epoch = convo.session_epoch })
            else err (not_found "No pending handshake"),
        after,
      )
unfolding fetch is_stale_epoch
fetch_stored c user someone conversation_id payload epoch db convo found available =
    elim (Bool-cases (other_user user convo == someone)) [
      | inl for_them ↦
          rw
            (
              found,
              available,
              find-upsert_handshake (stored_row c user conversation_id payload epoch convo)
                  db.handshakes,
              for_them,
              ==_refl convo.session_epoch,
            )
            refl
      | inr for_others ↦
          rw
            (
              found,
              available,
              find-upsert_handshake (stored_row c user conversation_id payload epoch convo)
                  db.handshakes,
              for_others,
            )
            refl
    ]

-- What one user of a conversation stores the other one fetches, and nobody else: a handshake that is
-- stored with the epoch of the pairing is answered to the other user, until something changes.
pub store-fetch :
    (c : Context) (user someone conversation_id : ℕ) (payload : Text) (epoch : Option ℕ)
    (db after : Database) (convo : ConversationRow)
    → find (has_conversation_id conversation_id) db.conversations ≡ some convo
    → store c user conversation_id payload epoch db ≡ (ok tt, after)
    → fetch c someone conversation_id after ≡ (
      if other_user user convo == someone
          then ok (record { handshake_message = payload; session_epoch = convo.session_epoch })
          else err (not_found "No pending handshake"),
      after,
    )
store-fetch c user someone conversation_id payload epoch db after convo found stored =
    let h =
      subst (Stores c user conversation_id payload epoch db) stored
        (store-Stores c user conversation_id payload epoch db) in
    let same : h.convo ≡ convo = ground (arith, found, h.found) in
    let left : (r : ConversationRow) → Database = λ r. record db {
      handshakes =
          upsert_handshake (stored_row c user conversation_id payload epoch r) db.handshakes;
    } in
    subst
      (λ (d : Database). fetch c someone conversation_id d ≡ (
        if other_user user convo == someone
            then ok (record { handshake_message = payload; session_epoch = convo.session_epoch })
            else err (not_found "No pending handshake"),
        d,
      ))
      (sym (h.same ∙ ap left same))
      (fetch_stored c user someone conversation_id payload epoch db convo found
        (subst (λ (r : ConversationRow). is_unavailable c.now r ≡ false) same h.available))

-- After the two users of a conversation have paired again, a handshake that was waiting before, of
-- the old epoch or an older one, is given to nobody at any time.
pub redeem-fetch :
    (c : Context) (redeemer : ℕ) (code : Text) (db : Database) (out : Redeemed) (after : Database)
    (row : PairingRow) (existing : ConversationRow) (h : HandshakeRow) (later : Context)
    (someone : ℕ)
    → redeem c redeemer code db ≡ (ok out, after)
    → find (fits c redeemer code) db.pairing_codes ≡ some row
    → their_conversation c redeemer row db ≡ some existing
    → find (has_conversation_id existing.id) db.conversations ≡ some existing
    → find (is_of_conversation existing.id) db.handshakes ≡ some h
    → h.session_epoch ≤ existing.session_epoch
    → fetch later someone existing.id after ≡ (err (not_found "No pending handshake"), after)
unfolding fetch is_stale_epoch
redeem-fetch c redeemer code db out after row existing h later someone success fits_ theirs by_id
      waiting old =
    let paired = redeem-HasPaired c redeemer code db out after success in
    let same : paired.row ≡ row = ground (arith, fits_, paired.found) in
    let row_after : after.conversations ≡ conversations_after c redeemer row db (some existing) =
      subst
        (λ (r : PairingRow).
          after.conversations
          ≡ conversations_after c redeemer r db (their_conversation c redeemer r db))
        same paired.conversations
      ∙ ap (conversations_after c redeemer row db) theirs in
    let renewed_row : ConversationRow =
      renewed row.expires_at (temporary_creator c redeemer row) existing in
    let found : find (has_conversation_id existing.id) after.conversations ≡ some renewed_row =
      ap (find (has_conversation_id existing.id)) row_after
      ∙ find-update (has_conversation_id existing.id) (has_conversation_id existing.id)
          (renewed row.expires_at (temporary_creator c redeemer row)) (λ r. refl) db.conversations
      ∙ rw (by_id, ==_refl existing.id) refl in
    let still : find (is_of_conversation existing.id) after.handshakes ≡ some h =
      ap (find (is_of_conversation existing.id)) paired.handshakes ∙ waiting in
    let stale : (h.session_epoch == existing.session_epoch + 1) ≡ false = ground arith in
    elim (Bool-cases (is_unavailable later.now renewed_row)) [
      | inl gone ↦ rw (found, gone) refl
      | inr there ↦ elim (Bool-cases (h.recipient_user_id == someone)) [
        | inl for_them ↦ rw (found, there, still, for_them, stale) refl
        | inr for_others ↦ rw (found, there, still, for_others) refl
      ]
    ]
