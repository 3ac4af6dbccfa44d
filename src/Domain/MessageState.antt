-- ===== src/Domain/MessageState.antt =====
-- apps/backend/src/domain/messageState.ts: disappearing messages, the per-conversation counter, and
-- what an offline client is missing.
pub mod Timers
pub mod SyncGap
use pookie_chat.Prelude.{
  ltb, ◌==◌, if◌then◌else◌, keep, any, ℕ, ◌+◌, ◌*◌, Bool, true, false, ◌&&◌, Option, none, some,
  List, [], ◌∷◌,
}
use pookie_chat.Domain.Text.{Text}

pub data Trigger : Type 0 where
  sent delivered read : Trigger

pub record DisappearingConfig : Type 0 where
  pub timer_seconds : Option ℕ
  pub trigger : Trigger
  pub read_receipts_enabled : Bool

pub record Timestamps : Type 0 where
  pub sent_at : ℕ
  pub delivered_at : Option ℕ
  pub read_at : Option ℕ

unfoldable pub resolve_disappear_trigger : Trigger → Bool → Trigger
resolve_disappear_trigger read false = delivered
resolve_disappear_trigger trigger _ = trigger

abbrev pub anchor_of : Trigger → Timestamps → Option ℕ
anchor_of sent t = some t.sent_at
anchor_of delivered t = t.delivered_at
anchor_of read t = t.read_at

abbrev pub disappear_from : Option ℕ → ℕ → Option ℕ
disappear_from none seconds = none
disappear_from (some anchor) seconds = some (anchor + seconds * 1000)

-- `null` and 0 switch the timer off.
unfoldable pub compute_with : Option ℕ → Trigger → Timestamps → Option ℕ
compute_with none trigger t = none
compute_with (some seconds) trigger t =
    if seconds == 0 then none else disappear_from (anchor_of trigger t) seconds

unfoldable pub compute_disappear_at : DisappearingConfig → Timestamps → Option ℕ
unfolding compute_with resolve_disappear_trigger
compute_disappear_at config t =
    compute_with config.timer_seconds
      (resolve_disappear_trigger config.trigger config.read_receipts_enabled) t

pub record PendingSend : Type 0 where
  pub client_message_id : Text
  pub conversation_id : ℕ

-- `===` on strings
unfoldable pub eq_text : Text → Text → Bool
eq_text [] [] = true
eq_text (a ∷ s) (b ∷ t) = a == b && eq_text s t
eq_text _ _ = false

unfoldable is_duplicate_send : Text → ℕ → List PendingSend → Bool
is_duplicate_send client_message_id conversation_id existing =
    any (λ m. eq_text m.client_message_id client_message_id && m.conversation_id == conversation_id)
      existing

unfoldable pub next_sequence_number : ℕ → ℕ
next_sequence_number current_max = current_max + 1

abbrev pub or_zero : Option ℕ → ℕ
or_zero none = 0
or_zero (some n) = n

unfoldable pub higher_counter_value : Option ℕ → Option ℕ → ℕ
higher_counter_value max_sequence_number max_sync_version =
    let a = or_zero max_sequence_number in
    let b = or_zero max_sync_version in if ltb b a then a else b

-- Messages, seen as their sequence number and the rest.
module _ {ℓ} {A : Type ℓ} (sequence_number : A → ℕ) where
  -- `sort` by the comparator `a.sequenceNumber < b.sequenceNumber ? -1 : 1`.
  unfoldable pub insert_by : A → List A → List A
  insert_by a [] = a ∷ []
  insert_by a (b ∷ l) =
      if ltb (sequence_number b) (sequence_number a) then b ∷ insert_by a l else a ∷ b ∷ l

  unfoldable pub sort_by : List A → List A
  sort_by [] = []
  sort_by (a ∷ l) = insert_by a (sort_by l)

  unfoldable pub compute_sync_gap : ℕ → List A → List A
  compute_sync_gap client_last_seen server_messages =
      sort_by (keep (λ m. ltb client_last_seen (sequence_number m)) server_messages)
