-- ===== src/Messages/Arrival.antt =====
-- A message that is sent is stored, and `sync` gives it to the other user.
use pookie_chat.Prelude.{
  if◌then◌else◌, ==_refl, Bool-cases, find, drop, All, find-update, ℕ, ◌≤◌, ◌<◌, ◌≡◌, refl, ap, ◌∙◌,
  ◌≢◌, inl, inr, true, false, Option, none, some, [], arith,
}
use pookie_chat.Server.{ok}
use pookie_chat.Server.Rows.{ConversationRow, MessageRow}
use pookie_chat.Server.Database.{has_conversation_id, push_to_user, Database, Context}
use pookie_chat.Messages.Tables.{
  has_message_id, has_client_id, update_message, Rounds, now_stored, active_conversation,
  disappear_on,
}
use pookie_chat.Messages.{
  reply, receipts_enabled, resolved, delivered_by, new_message, check_reply, create_loop, deliver,
  send, SendMessage,
}
use pookie_chat.Domain.MessageState.{Trigger}
use pookie_chat.Domain.SessionEpoch.{is_stale_epoch}
use pookie_chat.Handshake.{is_past, other_user}
use pookie_chat.Conversations.Tables.{is_available, is_part}
use pookie_chat.Conversations.Listing.{settings_of}
use pookie_chat.Messages.Versions.{top_version}
use pookie_chat.Messages.Reaching.{sync_returns, sync_has, IsTold}
use pookie_chat.Messages.Sending.{IsUnknown, create_loop-Created}
use pookie_chat.Messages.Sync.{is_missing}

-- Without a timer, a delivery writes its instant and nothing else.
delivered_untimed :
    (now : ℕ) (convo : ConversationRow) (m : MessageRow)
    → convo.disappearing_timer_seconds ≡ none
    → delivered_by now convo m ≡ record m { delivered_at = some now }
unfolding disappear_on
delivered_untimed now convo m e = rw e refl

-- What the recipient's connection makes of the stored message.
abbrev pub arrived : Context → ℕ → MessageRow → MessageRow
arrived c recipient m = record m {
  delivered_at = if c.is_online recipient then some c.now else m.delivered_at;
}

module _ (c : Context) (user : ℕ) (dto : SendMessage) (convo : ConversationRow)
    (untimed : convo.disappearing_timer_seconds ≡ none) (text_only : dto.attachment_id ≡ none) where
  -- What follows the insertion of a text.
  delivered_found :
      (recipient : ℕ) (m : MessageRow) (db : Database)
      → find (has_client_id dto.conversation_id dto.client_message_id) db.chat_messages ≡ some m
      → (after : Database) × (deliver c user dto convo recipient (false, m) db
          ≡ (ok (reply false (c.is_online recipient) m), after))
        × (find (has_client_id dto.conversation_id dto.client_message_id) after.chat_messages
            ≡ some (arrived c recipient m))
        × (after.conversations ≡ db.conversations)
  unfolding update_message push_to_user
  delivered_found recipient m db found = elim (Bool-cases (c.is_online recipient)) [
    | inr offline ↦ rw (text_only, offline) (_, refl, found, refl)
    | inl online ↦
        rw (text_only, online)
          (
            _,
            refl,
            find-update (has_client_id dto.conversation_id dto.client_message_id)
                  (has_message_id m.id) (delivered_by c.now convo)
                  (λ r.
                    ap (has_client_id dto.conversation_id dto.client_message_id)
                      (delivered_untimed c.now convo r untimed))
                  db.chat_messages
                ∙ rw (found, ==_refl m.id)
                    (ap (λ (r : MessageRow). some r) (delivered_untimed c.now convo m untimed)),
            refl,
          )
  ]

  -- Without a timer a new message does not disappear.
  abbrev first_timer : Database → Option ℕ
  first_timer db =
      disappear_on Trigger.sent convo.disappearing_timer_seconds
        (resolved convo.disappearing_trigger
          (receipts_enabled (settings_of (other_user user convo) db)))
        (record { sent_at = c.now; delivered_at = none; read_at = none })

  first_timer-none : (db : Database) → first_timer db ≡ none
  unfolding disappear_on
  first_timer-none db = rw untimed refl

  arrived_missing :
      (m : MessageRow) (later : Context) (other seen : ℕ)
      → m ≡ new_message c user dto none m.id m.sequence_number
      → other ≢ user
      → seen < m.sequence_number
      → is_missing later other dto.conversation_id seen (arrived c (other_user user convo) m) ≡ true
  arrived_missing m later other seen row apart more =
      let place : m.conversation_id ≡ dto.conversation_id =
        ap (λ (r : MessageRow). r.conversation_id) row in
      let sender : m.sender_id ≡ user = ap (λ (r : MessageRow). r.sender_id) row in
      let version : m.sync_version ≡ m.sequence_number =
        ap (λ (r : MessageRow). r.sync_version) row in
      let forever : m.disappear_at ≡ none = ap (λ (r : MessageRow). r.disappear_at) row in
      ground (arith, place, sender, version, forever, apart, more)

  module _ (db : Database)
      (home : find (has_conversation_id dto.conversation_id) db.conversations ≡ some convo)
      (part : is_part user convo ≡ true) (live : is_available convo.status ≡ true)
      (current : is_past c.now convo.expires_at ≡ false)
      (epoch : dto.session_epoch ≡ convo.session_epoch)
      (replies : check_reply c user dto dto.reply_to_message_id db ≡ (ok tt, db))
      (unknown : find (has_client_id dto.conversation_id dto.client_message_id) db.chat_messages
        ≡ none) where
    same_epoch : is_stale_epoch (some dto.session_epoch) convo.session_epoch ≡ false
    unfolding is_stale_epoch
    same_epoch = ground (arith, epoch)

    send_opens :
        (rounds : Rounds) (m : MessageRow) (middle : Database)
        → create_loop c user dto (first_timer db) 5 rounds db ≡ (ok (false, m), middle)
        → send c user dto rounds db
          ≡ deliver c user dto convo (other_user user convo) (false, m) middle
    unfolding send active_conversation
    send_opens rounds m middle e =
        rw (home, part, live, current, same_epoch, replies, unknown, home, e) refl

    -- A text in the current session epoch of an active conversation is sent, if one of the five
    -- attempts meets no message of another request and nobody else stores one of its client id; its
    -- content is stored under a new number, and whatever version the other user has synced to, the
    -- next `sync` of that user has it, while the conversation has not expired. It is told whether
    -- the recipient was connected. No disappearing timer is set, there is no attachment, and the
    -- message that it replies to, if any, is one of the conversation.
    pub send-sync :
        (rounds : Rounds) (n : ℕ) (later : Context) (other seen : ℕ)
        → n < 5
        → now_stored (drop n rounds) ≡ []
        → All (IsUnknown c user dto none) rounds
        → seen ≤ top_version dto.conversation_id db.chat_messages
        → is_part other convo ≡ true
        → other ≢ user
        → is_past later.now convo.expires_at ≡ false
        → (m : MessageRow) × (after : Database) × (send c user dto rounds db
            ≡ (ok (reply false (c.is_online (other_user user convo)) m), after))
          × (m ≡ new_message c user dto none m.id m.sequence_number)
          × IsTold later other dto.conversation_id seen (arrived c (other_user user convo) m) after
    send-sync rounds n later other seen few quiet unknowns old part_other apart running =
        let timer = first_timer-none db in
        let (m, middle, e, found, same, above, kept) =
          create_loop-Created c user dto (first_timer db) 5 n rounds db few quiet unknown
            unknowns in
        let (after, sent_so, found_after, kept_after) =
          delivered_found (other_user user convo) m middle found in
        let row : m ≡ new_message c user dto none m.id m.sequence_number =
          same ∙ ap (λ t. new_message c user dto t m.id m.sequence_number) timer in
        let (last, synced_so) =
          sync_returns later other dto.conversation_id seen after convo
            (ap (find (has_conversation_id dto.conversation_id)) (kept_after ∙ kept) ∙ home)
            part_other live running in
        (
          m,
          after,
          send_opens rounds m middle e ∙ sent_so,
          row,
          (
            _,
            last,
            synced_so,
            sync_has later other dto.conversation_id seen after
                (has_client_id dto.conversation_id dto.client_message_id)
                (arrived c (other_user user convo) m) found_after
                (arrived_missing m later other seen row apart (omega (arith, old, above))),
          ),
        )
