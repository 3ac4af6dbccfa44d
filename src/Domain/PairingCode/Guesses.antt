-- ===== src/Domain/PairingCode/Guesses.antt =====
-- pairingCode.ts: what a run of wrong guesses does to a code, and which codes are valid.
use pookie_chat.Prelude.{leb, if◌then◌else◌, ℕ, zero, suc, ◌+◌, ◌<◌, ◌≡◌, refl, true, ◌&&◌, arith}
use pookie_chat.Domain.PairingCode.{
  far_future, is_locked_out, record_failed_attempt, PairingAttemptState,
}

-- The state after n wrong guesses.
unfoldable pub guesses : ℕ → PairingAttemptState → PairingAttemptState
guesses zero s = s
guesses (suc n) s = guesses n (record_failed_attempt s).0

pub guesses-locked :
    (n now : ℕ) (s : PairingAttemptState)
    → now < far_future
    → is_locked_out (guesses n s) now
      ≡ (if leb 1 n && leb 5 (s.failed_attempts + n) then true else is_locked_out s now)
unfolding guesses record_failed_attempt is_locked_out
guesses-locked zero now s h = refl
guesses-locked (suc n) now s h = ground (arith, guesses-locked n now (record_failed_attempt s).0 h)
