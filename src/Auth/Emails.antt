-- ===== src/Auth/Emails.antt =====
-- auth.service.ts: `verifyEmail`, `resendVerification` and `addEmail`, with the codes of
-- apps/backend/src/domain/email.ts.
use pookie_chat.Prelude.{
  ltb, leb, ◌==◌, if◌then◌else◌, is_none, is_some, find, update, ℕ, ◌+◌, ◌-◌, ◌*◌, Bool, false, not,
  ◌&&◌, Option, none, some, [], ◌∷◌, ◌++◌,
}
use pookie_chat.Domain.Text.{Text, trim}
use pookie_chat.Domain.MessageState.{eq_text}
use pookie_chat.Domain.Username.{to_lower}
use pookie_chat.Server.{
  M, ◌>>=◌, ◌>>◌, pure, throw, get, modify, require, or_throw, bad_request, conflict, internal,
}
use pookie_chat.Server.Rows.{UserRow, VerificationRow}
use pookie_chat.Auth.{same_units, has_user_id, AuthState, AuthContext}
use pookie_chat.Auth.Login.{update_user, same_email}
use mathlib.Core.List.{reverse}

unfoldable pub normalize_email : (ℕ → Text) → Text → Text
unfolding trim
normalize_email other raw = to_lower other (trim raw)

unfoldable pub hash_verification_code : AuthContext → Text → Text
unfolding trim
hash_verification_code c code = c.base.primitives.to_hex (c.base.primitives.sha256 (trim code))

unfoldable pub verify_verification_code : AuthContext → Text → Text → Bool
unfolding hash_verification_code same_units
verify_verification_code c input stored =
    same_units (c.base.primitives.from_hex (hash_verification_code c input))
      (c.base.primitives.from_hex stored)

abbrev pub is_open_challenge : Text → VerificationRow → Bool
is_open_challenge email v = eq_text v.email email && is_none v.consumed_at

abbrev pub is_verification : ℕ → VerificationRow → Bool
is_verification id v = v.id == id

abbrev pub max_attempts : ℕ
max_attempts = 5

abbrev pub update_verifications :
    (VerificationRow → Bool) → (VerificationRow → VerificationRow) → AuthState → AuthState
update_verifications test f st = record st { verifications = update test f st.verifications }

abbrev pub consumed : ℕ → VerificationRow → VerificationRow
consumed now v = record v { consumed_at = some now }

abbrev pub missed_once : VerificationRow → VerificationRow
missed_once v = record v { attempts = v.attempts + 1 }

abbrev pub email_verified : ℕ → UserRow → UserRow
email_verified now u = record u { email_verified_at = some now }

-- The newest challenge of the address that is not consumed.
abbrev pub newest_challenge : Text → AuthState → Option VerificationRow
newest_challenge email st = find (is_open_challenge email) (reverse st.verifications)

abbrev pub miss : VerificationRow → M AuthState (Unit {0})
miss v =
    modify (update_verifications (is_verification v.id) missed_once)
    >> throw (bad_request "Invalid or expired verification code")

abbrev pub consume : ℕ → VerificationRow → M AuthState (Unit {0})
consume now v = modify (λ st.
    update_user v.user_id (email_verified now)
      (update_verifications (is_verification v.id) (consumed now) st))

-- What follows once the address is normalised.
unfoldable pub verify_address : AuthContext → Text → Text → M AuthState (Unit {0})
verify_address c email code = do
  st ← get
  v ← or_throw (newest_challenge email st) (bad_request "Invalid or expired verification code")
  require (leb c.base.now v.expires_at)
      (bad_request "Verification code has expired. Please request a new code.")
  require (ltb v.attempts max_attempts)
      (bad_request "Too many failed attempts. Please request a new code.")
  if verify_verification_code c code v.code_hash then consume c.base.now v else miss v

abbrev pub verify_email : AuthContext → Text → Text → M AuthState (Unit {0})
verify_email c email code = verify_address c (normalize_email c.lower_other email) code

abbrev pub resend_cooldown_ms : ℕ
resend_cooldown_ms = 60000

abbrev pub challenge_ttl_ms : ℕ
challenge_ttl_ms = 15 * 60 * 1000

-- The consumption of the user's open challenges, the new one, and the mail with its code. That the
-- mail could not be sent is ignored. `code` is what `generateVerificationCode` draws.
abbrev pub new_challenge : AuthContext → (user_id : ℕ) → Text → Text → AuthState → AuthState
unfolding hash_verification_code
new_challenge c user_id email code st = record st {
  verifications =
      update (λ v. v.user_id == user_id && is_none v.consumed_at) (consumed c.base.now)
        st.verifications
      ++ (record {
        id = st.db.next_id;
        user_id = user_id;
        email = email;
        code_hash = hash_verification_code c code;
        expires_at = c.base.now + challenge_ttl_ms;
        consumed_at = none;
        attempts = 0;
        created_at = c.base.now;
      })
        ∷ [];
  db = record st.db { next_id = st.db.next_id + 1 };
  mails = st.mails ++ (email, code) ∷ [];
}

abbrev pub is_recent : ℕ → Option VerificationRow → Bool
is_recent now none = false
is_recent now (some v) = ltb (now - v.created_at) resend_cooldown_ms

abbrev pub has_email : Text → UserRow → Bool
has_email email u = same_email u.email email

-- The message leaves out the number of seconds.
abbrev pub resend_to : AuthContext → Text → Text → Option UserRow → M AuthState (Unit {0})
resend_to c email code none = pure tt
resend_to c email code (some u) = if is_some u.email_verified_at then pure tt else do
  st ← get
  require (not (is_recent c.base.now (find (λ v. v.user_id == u.id) (reverse st.verifications))))
      (bad_request "Please wait before requesting another code.")
  modify (new_challenge c u.id email code)

unfoldable pub resend_verification : AuthContext → Text → Text → M AuthState (Unit {0})
resend_verification c raw code = do
  let email : Text = normalize_email c.lower_other raw
  st ← get
  resend_to c email code (find (has_email email) st.db.users)

abbrev pub is_other_user : ℕ → Option UserRow → Bool
is_other_user user_id none = false
is_other_user user_id (some u) = not (u.id == user_id)

abbrev pub with_email : Text → UserRow → UserRow
with_email email u = record u { email = some email; email_verified_at = none }

unfoldable pub add_email : AuthContext → ℕ → Text → Text → M AuthState Text
add_email c user_id raw code = do
  let email : Text = normalize_email c.lower_other raw
  st ← get
  require (not (is_other_user user_id (find (has_email email) st.db.users)))
      (conflict "That email is already registered")
  require (is_some (find (has_user_id user_id) st.db.users)) internal
  modify (λ s. new_challenge c user_id email code (update_user user_id (with_email email) s))
  pure email
