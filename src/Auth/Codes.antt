-- ===== src/Auth/Codes.antt =====
-- The guessing of a verification code.
use pookie_chat.Prelude.{
  update-reverse_aux, ltb, leb, ==_refl, Bool-cases, length, find, update, All, All-mono,
  find-update, ℕ, ◌+◌, ◌≤◌, ◌<◌, ◌≡◌, refl, ap, ◌∙◌, inl, inr, true, false, some, List, [], ◌∷◌,
  arith,
}
use pookie_chat.Domain.Text.{Text}
use pookie_chat.Server.{Exception, bad_request, err}
use pookie_chat.Server.Rows.{VerificationRow}
use pookie_chat.Auth.{AuthState, AuthContext}
use pookie_chat.Auth.Emails.{
  normalize_email, verify_verification_code, is_open_challenge, is_verification,
  update_verifications, missed_once, newest_challenge, verify_address, verify_email,
}
use mathlib.Core.List.{reverse}

pub record Guess : Type 0 where
  pub c : AuthContext
  pub email : Text
  pub code : Text

abbrev pub guess : Guess → AuthState → AuthState
guess g st = (verify_email g.c g.email g.code st).1

abbrev pub guess_all : List Guess → AuthState → AuthState
guess_all [] st = st
guess_all (g ∷ gs) st = guess_all gs (guess g st)

-- A guess at a challenge of the address, before its end, that is not the code.
pub record IsWrongGuess (email : Text) (v : VerificationRow) (g : Guess) : Type 0 where
  pub same : normalize_email g.c.lower_other g.email ≡ email
  pub early : g.c.base.now ≤ v.expires_at
  pub wrong : verify_verification_code g.c g.code v.code_hash ≡ false

module _ (c : AuthContext) (email code : Text) (v : VerificationRow) (st : AuthState)
    (found : newest_challenge email st ≡ some v) where
  verify_address-miss :
      leb c.base.now v.expires_at ≡ true
      → ltb v.attempts 5 ≡ true
      → verify_verification_code c code v.code_hash ≡ false
      → (verify_address c email code st).1
        ≡ update_verifications (is_verification v.id) missed_once st
  unfolding verify_address
  verify_address-miss early left wrong = rw (found, early, left, wrong) refl

  verify_address-exhausted :
      ltb v.attempts 5 ≡ false → (e : Exception) × (verify_address c email code st ≡ (err e, st))
  unfolding verify_address
  verify_address-exhausted none_left = elim (Bool-cases (leb c.base.now v.expires_at)) [
    | inl early ↦ (
      bad_request "Too many failed attempts. Please request a new code.",
      rw (found, early, none_left) refl,
    )
    | inr late ↦ (
      bad_request "Verification code has expired. Please request a new code.",
      rw (found, late) refl,
    )
  ]

verify_email-miss :
    (g : Guess) (email : Text) (v : VerificationRow) (st : AuthState)
    → newest_challenge email st ≡ some v
    → IsWrongGuess email v g
    → v.attempts < 5
    → guess g st ≡ update_verifications (is_verification v.id) missed_once st
verify_email-miss g email v st found h few =
    ap (λ e. (verify_address g.c e g.code st).1) h.same
    ∙ verify_address-miss g.c email g.code v st found (ground (arith, h.early)) (ground arith)
        h.wrong

verify_email-exhausted :
    (g : Guess) (email : Text) (v : VerificationRow) (st : AuthState)
    → newest_challenge email st ≡ some v
    → normalize_email g.c.lower_other g.email ≡ email
    → 5 ≤ v.attempts
    → (e : Exception) × (verify_email g.c g.email g.code st ≡ (err e, st))
verify_email-exhausted g email v st found same many =
    let (e, run) = verify_address-exhausted g.c email g.code v st found (ground arith) in
    (e, ap (λ a. verify_address g.c a g.code st) same ∙ run)

newest-missed :
    (email : Text) (v : VerificationRow) (st : AuthState)
    → newest_challenge email st ≡ some v
    → newest_challenge email (update_verifications (is_verification v.id) missed_once st)
      ≡ some (missed_once v)
unfolding find update
newest-missed email v st found =
    ap (find (is_open_challenge email))
      (update-reverse_aux (is_verification v.id) missed_once st.verifications [])
    ∙ find-update (is_open_challenge email) (is_verification v.id) missed_once (λ r. refl)
        (reverse st.verifications)
    ∙ rw (found, ==_refl v.id) refl

-- The number of attempts that were counted.
abbrev missed_times : ℕ → VerificationRow → VerificationRow
missed_times n v = record v { attempts = v.attempts + n }

newest-guessed :
    (email : Text) (guesses : List Guess) (v : VerificationRow) (st : AuthState)
    → newest_challenge email st ≡ some v
    → All (IsWrongGuess email v) guesses
    → v.attempts + length guesses ≤ 5
    → (n : ℕ) → v.attempts + length guesses ≡ n
    → newest_challenge email (guess_all guesses st) ≡ some (record v { attempts = n })
newest-guessed email [] v st found h few n number =
    found ∙ ap (λ k. some (record v { attempts = k })) (omega (arith, number))
newest-guessed email (g ∷ gs) v st found (h, hs) few n number =
    newest-guessed email gs (missed_once v) (guess g st)
      (ap (newest_challenge email) (verify_email-miss g email v st found h (omega (arith, few)))
        ∙ newest-missed email v st found)
      (All-mono (IsWrongGuess email v) (IsWrongGuess email (missed_once v))
        (λ b k. record { same = k.same; early = k.early; wrong = k.wrong }) gs hs)
      (omega (arith, few)) n (omega (arith, number))

-- After five wrong codes for a challenge that waits for an address, sent before its end, every
-- further code for the address, the right one too, is refused at any time and changes nothing.
pub wrong_codes-refused :
    (guesses : List Guess) (further : Guess) (email : Text) (v : VerificationRow) (st : AuthState)
    → newest_challenge email st ≡ some v
    → v.attempts ≡ 0
    → All (IsWrongGuess email v) guesses
    → length guesses ≡ 5
    → normalize_email further.c.lower_other further.email ≡ email
    → (e : Exception) × (verify_email further.c further.email further.code (guess_all guesses st)
        ≡ (err e, guess_all guesses st))
wrong_codes-refused guesses further email v st found untried h number same =
    verify_email-exhausted further email (record v { attempts = 5 }) (guess_all guesses st)
      (newest-guessed email guesses v st found h (omega (arith, number, untried)) 5
        (omega (arith, number, untried)))
      same (omega arith)
