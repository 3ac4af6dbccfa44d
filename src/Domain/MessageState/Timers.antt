-- ===== src/Domain/MessageState/Timers.antt =====
-- messageState.ts: when a message disappears, and the conversation's counter.
use pookie_chat.Prelude.{
  ◌==◌, Bool-cases, ℕ, ◌+◌, ◌*◌, ◌<◌, ◌≡◌, refl, ◌↔◌, ◌⊎◌, inl, inr, Bool, true, false, Option,
  none, some, [], ◌∷◌, arith,
}
use pookie_chat.Domain.Text.{Text}
use pookie_chat.Domain.MessageState.{
  resolve_disappear_trigger, anchor_of, disappear_from, compute_with, compute_disappear_at, eq_text,
  next_sequence_number, or_zero, higher_counter_value, Trigger, sent, delivered, read,
  DisappearingConfig, Timestamps,
}

-- When a message disappears, as the documentation tells it: some seconds after the event that the
-- timer is anchored to; without read receipts, which make reading unobservable, a timer for the
-- reading is anchored to the delivery.
pub data DisappearsAt (c : DisappearingConfig) (t : Timestamps) (at : ℕ) : Type 0 where
  after_sending :
      (seconds : ℕ)
      → c.timer_seconds ≡ some seconds
      → 0 < seconds
      → c.trigger ≡ sent
      → at ≡ t.sent_at + seconds * 1000
      → DisappearsAt c t at
  after_delivery :
      (seconds event : ℕ)
      → c.timer_seconds ≡ some seconds
      → 0 < seconds
      → (c.trigger ≡ delivered) ⊎ ((c.trigger ≡ read) × (c.read_receipts_enabled ≡ false))
      → t.delivered_at ≡ some event
      → at ≡ event + seconds * 1000
      → DisappearsAt c t at
  after_reading :
      (seconds event : ℕ)
      → c.timer_seconds ≡ some seconds
      → 0 < seconds
      → c.trigger ≡ read
      → c.read_receipts_enabled ≡ true
      → t.read_at ≡ some event
      → at ≡ event + seconds * 1000
      → DisappearsAt c t at

disappears_complete :
    (c : DisappearingConfig) (t : Timestamps) (at : ℕ)
    → DisappearsAt c t at
    → compute_disappear_at c t ≡ some at
unfolding compute_disappear_at
disappears_complete c t at (after_sending seconds e h k l) = ground arith
disappears_complete c t at (after_delivery seconds event e h k l m) = ground arith
disappears_complete c t at (after_reading seconds event e h k l m n) = ground arith

some_anchor :
    (o : Option ℕ) (seconds at : ℕ)
    → disappear_from o seconds ≡ some at
    → (event : ℕ) × (o ≡ some event) × (at ≡ event + seconds * 1000)
some_anchor none seconds at e = cc
some_anchor (some event) seconds at e = (event, refl, ground arith)

timer_on :
    (o : Option ℕ) (r : Trigger) (t : Timestamps) (at : ℕ)
    → compute_with o r t ≡ some at
    → (seconds : ℕ) × (o ≡ some seconds)
      × (0 < seconds)
      × (disappear_from (anchor_of r t) seconds ≡ some at)
unfolding compute_with
timer_on none r t at e = cc
timer_on (some seconds) r t at e = elim (Bool-cases (seconds == 0)) [
  | inl off ↦ ground arith
  | inr on ↦ (seconds, refl, ground arith, ground arith)
]

disappears_sound :
    (c : DisappearingConfig) (t : Timestamps) (at : ℕ) (trigger : Trigger) (receipts : Bool)
    → c.trigger ≡ trigger
    → c.read_receipts_enabled ≡ receipts
    → compute_with c.timer_seconds (resolve_disappear_trigger trigger receipts) t ≡ some at
    → DisappearsAt c t at
unfolding resolve_disappear_trigger
disappears_sound c t at sent receipts k r e =
    let (seconds, timer, h, from) = timer_on c.timer_seconds sent t at e in
    after_sending seconds timer h k (ground arith)
disappears_sound c t at delivered receipts k r e =
    let (seconds, timer, h, from) = timer_on c.timer_seconds delivered t at e in
    let (event, happened, sum) = some_anchor t.delivered_at seconds at from in
    after_delivery seconds event timer h (inl k) happened sum
disappears_sound c t at read false k r e =
    let (seconds, timer, h, from) = timer_on c.timer_seconds delivered t at e in
    let (event, happened, sum) = some_anchor t.delivered_at seconds at from in
    after_delivery seconds event timer h (inr (k, r)) happened sum
disappears_sound c t at read true k r e =
    let (seconds, timer, h, from) = timer_on c.timer_seconds read t at e in
    let (event, happened, sum) = some_anchor t.read_at seconds at from in
    after_reading seconds event timer h k r happened sum

-- `computeDisappearAt` gives exactly the instants that the documentation tells, and null where
-- there is none: a timer that is off, or an anchoring event that has not happened.
pub disappear_iff :
    (c : DisappearingConfig) (t : Timestamps) (at : ℕ)
    → (compute_disappear_at c t ≡ some at) ↔ DisappearsAt c t at
unfolding compute_disappear_at
disappear_iff c t at = (
  disappears_sound c t at c.trigger c.read_receipts_enabled refl refl,
  disappears_complete c t at,
)

-- The next number of a conversation lies above both of its maxima, and is the successor of one.
pub next_above_both :
    (a b : Option ℕ)
    → (or_zero a < next_sequence_number (higher_counter_value a b))
      × (or_zero b < next_sequence_number (higher_counter_value a b))
      × ((higher_counter_value a b ≡ or_zero a) ⊎ (higher_counter_value a b ≡ or_zero b))
unfolding next_sequence_number higher_counter_value
next_above_both a b = (ground arith, ground arith, ground arith)

pub eq_text_iff : (s t : Text) → (eq_text s t ≡ true) ↔ (s ≡ t)
unfolding eq_text
eq_text_iff [] [] = ground arith
eq_text_iff [] (y ∷ ys) = ground arith
eq_text_iff (x ∷ xs) [] = ground arith
eq_text_iff (x ∷ xs) (y ∷ ys) = ground (arith, eq_text_iff xs ys)
