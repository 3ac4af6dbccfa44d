-- ===== src/Auth/UnknownNames.antt =====
-- auth.service.ts: what `login` keeps in memory of names that fit nobody.
use pookie_chat.Prelude.{
  ltb, leb, if◌then◌else◌, length, find, keep, any, update, ℕ, ◌+◌, ◌-◌, ◌*◌, Bool, false, not,
  Option, none, some, List, [], ◌∷◌, ◌++◌,
}
use pookie_chat.Domain.Text.{Text}
use pookie_chat.Domain.MessageState.{eq_text}
use pookie_chat.Auth.{UnknownAttempt, AuthState}

abbrev pub challenge_period_ms : ℕ
challenge_period_ms = 15 * 60 * 1000

abbrev pub is_attempt_at : Text → UnknownAttempt → Bool
is_attempt_at identifier a = eq_text a.identifier identifier

abbrev pub forget_attempts : (UnknownAttempt → Bool) → AuthState → AuthState
forget_attempts test st = record st {
  unknown_login_attempts = keep (λ a. not (test a)) st.unknown_login_attempts;
}

abbrev pub challenged_by : ℕ → Text → Option UnknownAttempt → AuthState → Bool × AuthState
challenged_by now identifier none st = (false, st)
challenged_by now identifier (some a) st =
    if ltb challenge_period_ms (now - a.last_attempt)
    then (false, forget_attempts (is_attempt_at identifier) st)
    else (leb 3 a.count, st)

unfoldable pub is_unknown_identifier_challenged : ℕ → Text → AuthState → Bool × AuthState
is_unknown_identifier_challenged now identifier st =
    challenged_by now identifier (find (is_attempt_at identifier) st.unknown_login_attempts) st

abbrev pub next_count : ℕ → Option UnknownAttempt → ℕ
next_count now none = 1
next_count now (some a) = if ltb (now - a.last_attempt) challenge_period_ms then a.count + 1 else 1

abbrev pub set_attempt : UnknownAttempt → List UnknownAttempt → List UnknownAttempt
set_attempt a attempts =
    if any (is_attempt_at a.identifier) attempts
    then update (is_attempt_at a.identifier) (λ _. a) attempts
    else attempts ++ a ∷ []

unfoldable pub record_unknown_identifier_failed_attempt : ℕ → Text → AuthState → Bool × AuthState
record_unknown_identifier_failed_attempt now identifier st =
    let swept =
      if ltb 2000 (length st.unknown_login_attempts)
      then forget_attempts (λ a. ltb challenge_period_ms (now - a.last_attempt)) st
      else st in
    let count = next_count now (find (is_attempt_at identifier) swept.unknown_login_attempts) in
    (
      leb 3 count,
      record swept {
        unknown_login_attempts =
            set_attempt (record { identifier = identifier; count = count; last_attempt = now })
              swept.unknown_login_attempts;
      },
    )
