-- ===== src/Domain/Lockout/Escalation.antt =====
-- lockout.ts: how long the login stays locked, failure after failure.
use pookie_chat.Prelude.{
  ltb, if◌then◌else◌, length, ℕ, zero, suc, ◌+◌, ◌-◌, ◌*◌, ◌^◌, ◌≤◌, min, ◌≡◌, refl, ◌∙◌, false,
  none, some, List, [], ◌∷◌, ◌++◌, arith,
}
use pookie_chat.Domain.Lockout.{
  is_login_locked, lockout_seconds, record_failed_login, clear_login_lockout, LoginAttemptState,
}
use native.Mathlib.Nat.{pow-suc}
use native.Mathlib.Numerals.{towards_suc}

-- The state after a run of failed attempts at the given instants, oldest first.
unfoldable pub fail_at : LoginAttemptState → List ℕ → LoginAttemptState
fail_at state [] = state
fail_at state (now ∷ later) = fail_at (record_failed_login state now) later

fail_at-count :
    (s : LoginAttemptState) (times : List ℕ)
    → (fail_at s times).failed_login_count ≡ s.failed_login_count + length times
unfolding fail_at record_failed_login
fail_at-count s [] = omega arith
fail_at-count s (now ∷ later) = fail_at-count (record_failed_login s now) later ∙ ground arith

-- The exponent, one further on.
pow_next : (n : ℕ) → 2 ^ (n + 1) ≡ 2 * 2 ^ n
pow_next n = simp towards_suc (rw pow-suc (omega arith))

pow_pos : (n : ℕ) → 1 ≤ 2 ^ n
pow_pos zero = omega arith
pow_pos (suc n) = rw pow-suc (omega (arith, pow_pos n))

next_window : (n : ℕ) → lockout_seconds (n + 2) ≡ min (2 * lockout_seconds (n + 1)) 86400
unfolding lockout_seconds
next_window n =
    let e : n + 2 - 1 ≡ n + 1 = omega arith in
    let k : n + 1 - 1 ≡ n = omega arith in rw (e, k, pow_next n) (omega (arith, pow_pos n))

first_window : (n : ℕ) → 30 ≤ lockout_seconds (n + 1)
unfolding lockout_seconds
first_window n = let k : n + 1 - 1 ≡ n = omega arith in rw k (omega (arith, pow_pos n))

-- Each failure past the threshold locks the login for twice as long as the one before it, up to a
-- day: with 4 + n failures counted, the next two failures, whenever they happen, lock it for
-- windows w and min (2 w) (a day), and w is at least the base of 30 seconds.
escalation :
    (s : LoginAttemptState) (n now later : ℕ)
    → s.failed_login_count ≡ 4 + n
    → (w : ℕ) × (30 ≤ w)
      × ((record_failed_login s now).locked_until ≡ some (now + w * 1000))
      × ((record_failed_login (record_failed_login s now) later).locked_until
          ≡ some (later + min (2 * w) 86400 * 1000))
unfolding record_failed_login
escalation s n now later e =
    (lockout_seconds (n + 1), first_window n, ground arith, ground (arith, next_window n))

fail_at-append :
    (s : LoginAttemptState) (xs ys : List ℕ) → fail_at s (xs ++ ys) ≡ fail_at (fail_at s xs) ys
unfolding fail_at
fail_at-append s [] ys = refl
fail_at-append s (x ∷ xs) ys = fail_at-append (record_failed_login s x) xs ys

-- Below the threshold a failure leaves the lock as it was.
fail_at-unlocked :
    (s : LoginAttemptState) (times : List ℕ)
    → s.locked_until ≡ none
    → s.failed_login_count + length times ≤ 4
    → (fail_at s times).locked_until ≡ none
unfolding fail_at record_failed_login
fail_at-unlocked s [] e h = e
fail_at-unlocked s (now ∷ later) e h =
    fail_at-unlocked (record_failed_login s now) later (ground arith) (ground arith)

-- Whatever the instants of the failures since the last success: the first four lock nothing, and
-- from the fifth on the login is locked exactly until the window of that failure, counted from the
-- last failure, has passed.
pub locked_exactly :
    (times : List ℕ) (now t : ℕ)
    → is_login_locked (fail_at clear_login_lockout (times ++ now ∷ [])) t ≡ (
        if ltb (length times) 4
        then false
        else ltb t (now + lockout_seconds (length times - 3) * 1000))
unfolding is_login_locked clear_login_lockout record_failed_login fail_at
locked_exactly times now t = rw (fail_at-append clear_login_lockout times (now ∷ [])) (
    ground (
      arith,
      fail_at-count clear_login_lockout times,
      fail_at-unlocked clear_login_lockout times refl,
    ))
