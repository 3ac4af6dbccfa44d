-- ===== src/ConversationRequests/Acceptance.antt =====
-- What `acceptRequest` leaves.
use pookie_chat.Prelude.{
  ◌==◌, ==_iff, ==_refl, Option-cases, find, update, find-append_none, find-update, ℕ, ◌+◌, ◌≡◌,
  refl, sym, ap, ◌∙◌, subst, inl, inr, Bool, true, Option, none, some, List, [], ◌∷◌, arith,
}
use pookie_chat.Domain.SessionEpoch.{ConversationStatus}
use pookie_chat.Server.{bind, ◌>>◌, pure, modify, roll_back, Result, ok, err}
use pookie_chat.Server.Rows.{DeviceRow, ConversationRow, RequestStatus, ConversationRequestRow}
use pookie_chat.Server.Database.{
  has_conversation_id, push_to_user, request_accepted, Database, Context,
}
use pookie_chat.Pairing.Redeem.{
  canonical_pair, latest_device, is_pair, new_conversation, is_free_prekey,
}
use pookie_chat.Pairing.Redeem.Transaction.{epoch_after}
use pookie_chat.Conversations.Tables.{update_conversation}
use pookie_chat.ConversationRequests.{
  with_request_status, has_request_id, update_request, open_conversation, bundle_of, consume_of,
  accept_request, Accepted,
}
use pookie_chat.Server.Reason.{at_require, at_or_throw}
use pookie_chat.Rooms.Tables.{is_pending}

-- When the conversation of the two ends: the acceptance keeps it.
abbrev pub expiry_of : Option ConversationRow → Option ℕ
expiry_of none = none
expiry_of (some convo) = convo.expires_at

-- The pair that is looked up.
abbrev pub is_theirs : ℕ → ℕ → ConversationRow → Bool
is_theirs a b = is_pair (canonical_pair a b).0 (canonical_pair a b).1

abbrev pub renew : ConversationRow → ConversationRow
renew r = record r { status = ConversationStatus.active; session_epoch = r.session_epoch + 1 }

-- What opening the conversation of a pair leaves.
pub record HasOpened (a b : ℕ) (before : List ConversationRow) (convo : ConversationRow)
    (after : List ConversationRow) : Type 0 where
  pub theirs : find (is_pair a b) after ≡ some convo
  pub live : convo.status ≡ ConversationStatus.active
  pub next_epoch_of : convo.session_epoch ≡ epoch_after (find (is_pair a b) before)
  pub expiry : convo.expires_at ≡ expiry_of (find (is_pair a b) before)
  pub only_theirs :
      (existing : ConversationRow)
      → find (is_pair a b) before ≡ some existing
      → after ≡ update (has_conversation_id existing.id) renew before

abbrev Opened : ℕ → ℕ → Database → Result ConversationRow × Database → Type 0
Opened a b db (ok convo, after) =
    HasOpened a b db.conversations convo after.conversations
    × (after.conversation_requests ≡ db.conversation_requests)
    × (after.chat_messages ≡ db.chat_messages)
Opened a b db (err e, after) = ⊥

found_both : {r s : ConversationRow} → some r ≡ some s → r ≡ s
found_both h = cc

found_new :
    (a b id : ℕ)
    → find (is_pair a b) (new_conversation id a b none none ∷ [])
      ≡ some (new_conversation id a b none none)
unfolding find
found_new a b id = rw (==_refl a, ==_refl b) refl

open_conversation-Opened :
    (a b : ℕ) (db : Database) (o : Option ConversationRow)
    → find (is_pair a b) db.conversations ≡ o
    → Opened a b db (open_conversation o a b db)
unfolding update_conversation
open_conversation-Opened a b db none e = (
  record {
    theirs =
        find-append_none (is_pair a b) db.conversations
          (new_conversation db.next_id a b none none ∷ []) e
        ∙ found_new a b db.next_id;
    live = refl;
    next_epoch_of = rw e refl;
    expiry = rw e refl;
    only_theirs = λ existing h. absurd (ground (arith, e, h));
  },
  refl,
  refl,
)
open_conversation-Opened a b db (some existing) e = (
  record {
    theirs =
        find-update (is_pair a b) (has_conversation_id existing.id) renew (λ r. refl)
          db.conversations
        ∙ rw (e, ==_refl existing.id) refl;
    live = refl;
    next_epoch_of = rw e refl;
    expiry = rw e refl;
    only_theirs = λ other h.
        ap (λ (r : ConversationRow). update (has_conversation_id r.id) renew db.conversations)
          (found_both (sym e ∙ h));
  },
  refl,
  refl,
)

consume_of_rest :
    (device : Option DeviceRow) (now : ℕ) (db : Database)
    → ((consume_of device now db).conversations ≡ db.conversations)
      × ((consume_of device now db).conversation_requests ≡ db.conversation_requests)
      × ((consume_of device now db).chat_messages ≡ db.chat_messages)
consume_of_rest none now db = (refl, refl, refl)
consume_of_rest (some device) now db =
    elim (Option-cases (find (is_free_prekey device.id) db.prekeys)) [
      | inl none_free ↦ rw none_free (refl, refl, refl)
      | inr (key, found) ↦ rw found (refl, refl, refl)
    ]

module _ (c : Context) (user id : ℕ) where
  -- What an acceptance tells.
  pub record HasAccepted (db : Database) (out : Accepted) (after : Database) : Type 0 where
    pub req : ConversationRequestRow
    pub found : find (has_request_id id) db.conversation_requests ≡ some req
    pub addressed : req.recipient_id ≡ user
    pub waits : is_pending req.status ≡ true
    pub requests :
        after.conversation_requests
        ≡ update
            (has_request_id id)
            (with_request_status RequestStatus.accepted)
            db.conversation_requests
    pub convo : ConversationRow
    pub opened :
        HasOpened
          (canonical_pair req.sender_id user).0
          (canonical_pair req.sender_id user).1
          db.conversations
          convo
          after.conversations
    pub same_id : out.conversation_id ≡ convo.id
    pub same_epoch : out.session_epoch ≡ convo.session_epoch
    pub messages : after.chat_messages ≡ db.chat_messages

  abbrev pub IsAnswered : Database → Result Accepted × Database → Type 0
  IsAnswered db (ok out, after) = HasAccepted db out after
  IsAnswered db (err e, after) = after ≡ db

  -- The request is marked, and the conversation opened.
  abbrev accepted_db : Database → Database
  accepted_db db = update_request id RequestStatus.accepted db

  finish :
      (req : ConversationRequestRow) (db : Database)
      → find (has_request_id id) db.conversation_requests ≡ some req
      → req.recipient_id ≡ user
      → is_pending req.status ≡ true
      → (q : Result ConversationRow × Database)
      → Opened
          (canonical_pair req.sender_id user).0
          (canonical_pair req.sender_id user).1
          (accepted_db db)
          q
      → IsAnswered db (
          bind (roll_back db q) (λ result. do
            modify (consume_of (latest_device req.sender_id db.devices) c.now)
            modify (
                push_to_user req.sender_id (request_accepted req.id result.id result.session_epoch))
            pure (record {
              conversation_id = result.id;
              session_epoch = result.session_epoch;
              bundle = bundle_of (latest_device req.sender_id db.devices) db.prekeys;
            })))
  unfolding push_to_user update_request
  finish req db found addressed waits (ok convo, s) (opened, requests, messages) =
      let (same, kept, stored) = consume_of_rest (latest_device req.sender_id db.devices) c.now s in
      record {
        req = req;
        found = found;
        addressed = addressed;
        waits = waits;
        requests = kept ∙ requests;
        convo = convo;
        opened =
            subst
              (HasOpened (canonical_pair req.sender_id user).0 (canonical_pair req.sender_id user).1
                db.conversations convo)
              (sym same) opened;
        same_id = refl;
        same_epoch = refl;
        messages = stored ∙ messages;
      }
  finish req db found addressed waits (err e, s) opened = absurd opened

  -- `acceptRequest`: where it returns, the request was pending and addressed to the user; it is
  -- accepted now, and the conversation of the two, created or renewed whatever its status was, is
  -- active in its next session epoch, which is what is returned; it keeps the end it had. Where it
  -- fails, nothing has changed.
  pub accept_request-IsAnswered : (db : Database) → IsAnswered db (accept_request c user id db)
  unfolding accept_request
  accept_request-IsAnswered db =
      at_or_throw (IsAnswered db) (find (has_request_id id) db.conversation_requests) _ _ db refl
        λ req found. at_require (IsAnswered db) (req.recipient_id == user) _ _ db refl λ addressed.
          at_require (IsAnswered db) (is_pending req.status) _ _ db refl λ waits.
            finish req db found ((==_iff req.recipient_id user).0 addressed) waits _ (
              open_conversation-Opened (canonical_pair req.sender_id user).0
                (canonical_pair req.sender_id user).1 (accepted_db db) _ refl)
