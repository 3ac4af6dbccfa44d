-- ===== src/Examples/OfDomain.antt =====
-- The theorems on the rules of apps/backend/src/domain at concrete inputs.
use pookie_chat.Prelude.{◌≡◌, ◌↔◌, true, none, some, [], ◌∷◌, arith}
use pookie_chat.Domain.Text.{Text}
use pookie_chat.Domain.Lockout.{LoginAttemptState}
use pookie_chat.Domain.MessageState.{compute_disappear_at, Trigger, DisappearingConfig, Timestamps}
use pookie_chat.Domain.PairingCode.{is_locked_out}
use pookie_chat.Domain.PairingCode.Guesses.{guesses, guesses-locked}
use pookie_chat.Domain.PairingCode.Sealing.{IsAscii}
use pookie_chat.Domain.Username.{validate_username}
use pookie_chat.Domain.Username.Policy.{IsUsername-iff, IsUsername}
use pookie_chat.Examples.Fixtures.{code_text}
use pookie_chat.Domain.MessageState.Timers.{disappear_iff, DisappearsAt}

-- "ab_c"
abbrev a_username : Text
a_username = 97 ∷ 98 ∷ 95 ∷ 99 ∷ []

IsUsername-iff_example : (validate_username a_username ≡ none) ↔ IsUsername a_username
IsUsername-iff_example = IsUsername-iff a_username

ascii : IsAscii code_text
ascii = (omega arith, (omega arith, (omega arith, (omega arith, (omega arith, (omega arith, tt))))))

guesses-locked_example :
    is_locked_out (guesses 5 (record { failed_attempts = 0; locked_until = none })) 9 ≡ true
guesses-locked_example =
    guesses-locked 5 9 (record { failed_attempts = 0; locked_until = none }) (omega arith)

abbrev when_read : DisappearingConfig
when_read = record { timer_seconds = some 30; trigger = Trigger.read; read_receipts_enabled = true }

abbrev read_at_2000 : Timestamps
read_at_2000 = record { sent_at = 1000; delivered_at = some 1500; read_at = some 2000 }

disappear_iff_example :
    (compute_disappear_at when_read read_at_2000 ≡ some 32000)
    ↔ DisappearsAt when_read read_at_2000 32000
disappear_iff_example = disappear_iff when_read read_at_2000 32000

abbrev four_failures : LoginAttemptState
four_failures = record { failed_login_count = 4; locked_until = none }
