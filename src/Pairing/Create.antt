-- ===== src/Pairing/Create.antt =====
-- `create` and `checkCodeAvailability` of pairing.service.ts.
pub mod Forever
use pookie_chat.Prelude.{
  ltb, ◌==◌, if◌then◌else◌, find, ℕ, zero, suc, ◌+◌, ◌-◌, String, Bool, false, not, Option, none,
  some, List,
}
use pookie_chat.Domain.Text.{Text, trim}
use pookie_chat.Domain.PairingCode.{
  normalize_pairing_code, is_valid_pairing_code, is_empty, compute_expires_at,
}
use pookie_chat.Server.{
  M, ◌>>=◌, ◌>>◌, pure, throw, get, require, catch_violation, bad_request, conflict,
  unique_violation, internal, ok,
}
use pookie_chat.Server.Rows.{PairingRow}
use pookie_chat.Server.Database.{Database, Context}
use pookie_chat.Pairing.Tables.{
  is_live_with, is_forever_of, create_code, update_code, readable_code, drawn_code, hmac_of,
  new_code, with_code, with_fresh_code, Draw,
}

pub record Created : Type 0 where
  pub pairing_id : ℕ
  pub code : Text
  pub expires_at : Option ℕ

-- `durationSeconds: number | null | undefined`
pub data Duration : Type 0 where
  forever unspecified : Duration
  seconds : ℕ → Duration

abbrev pub max_code_collision_retry_attempts : ℕ
max_code_collision_retry_attempts = 5

-- `inUse && inUse.creatorUserId !== userId`
abbrev pub is_of_another : ℕ → Option PairingRow → Bool
is_of_another user none = false
is_of_another user (some r) = not (r.creator_user_id == user)

module _ (c : Context) (user : ℕ) where
  -- An active code gets another text.
  pub replace_code : PairingRow → Text → (PairingRow → PairingRow) → M Database Created
  unfolding update_code
  replace_code existing code data_ = do
    update_code existing.id data_
    pure (record { pairing_id = existing.id; code = code; expires_at = none })

  pub insert_code : Text → List ℕ → Option ℕ → M Database Created
  unfolding create_code
  insert_code code iv expires_at = do
    db ← get
    row ← create_code (new_code c user code iv expires_at db.next_id)
    pure (record { pairing_id = row.id; code = code; expires_at = row.expires_at })

  -- A code of the user's own choice.
  abbrev pub custom_in : Option PairingRow → Text → List ℕ → M Database Created
  custom_in (some existing) clean iv = replace_code existing clean (with_fresh_code c clean iv)
  custom_in none clean iv = insert_code clean iv none

  pub create_custom : Text → List ℕ → M Database Created
  unfolding hmac_of replace_code insert_code
  create_custom custom iv =
      let clean = normalize_pairing_code c.primitives custom in
      do
        require (is_valid_pairing_code c.primitives clean)
            (bad_request "Forever Code must be exactly 6 alphanumeric characters")
        db ← get
        require (not (is_of_another user (find (is_live_with (hmac_of c clean)) db.pairing_codes)))
            (conflict "This 6-character code is already taken. Please choose another.")
        custom_in (find (is_forever_of user) db.pairing_codes) clean iv

  -- What is answered for a code that is there: its text, or a new one in its place.
  abbrev pub shown_or : PairingRow → Option Text → M Database Created → M Database Created
  shown_or existing (some code) heal =
      pure (record { pairing_id = existing.id; code = code; expires_at = none })
  shown_or existing none heal = heal

  -- After a violation: the code of a request that was faster, or the next attempt.
  abbrev pub concurrent_or : Option PairingRow → Draw → M Database Created → M Database Created
  concurrent_or (some other) spare again =
      shown_or other (readable_code c other.code_text)
        (replace_code other (drawn_code spare) (with_code c (drawn_code spare) spare.iv))
  concurrent_or none spare again = again

  -- The fuel counts the attempts that are left; `attempt` those that are over.
  pub forever_loop : (ℕ → Draw) → ℕ → ℕ → M Database Created
  forever_loop draws zero attempt = throw internal
  forever_loop draws (suc fuel) attempt =
      let next = forever_loop draws fuel (attempt + 1) in
      catch_violation (insert_code (drawn_code (draws attempt)) (draws attempt).iv none) (λ _. do
        db ← get
        concurrent_or (find (is_forever_of user) db.pairing_codes)
            (draws max_code_collision_retry_attempts)
            (if ltb attempt (max_code_collision_retry_attempts - 1)
              then next
              else throw unique_violation))

  timed_loop : (ℕ → Draw) → Option ℕ → ℕ → ℕ → M Database Created
  timed_loop draws expires_at zero attempt = throw internal
  timed_loop draws expires_at (suc fuel) attempt =
      let next = timed_loop draws expires_at fuel (attempt + 1) in
      catch_violation (insert_code (drawn_code (draws attempt)) (draws attempt).iv expires_at) (λ _.
        if ltb attempt (max_code_collision_retry_attempts - 1)
        then next
        else throw unique_violation)

  abbrev pub forever_in : Option PairingRow → (ℕ → Draw) → M Database Created
  forever_in (some existing) draws = shown_or existing (readable_code c existing.code_text) (
      replace_code existing (drawn_code (draws 0))
        (with_fresh_code c (drawn_code (draws 0)) (draws 0).iv))
  forever_in none draws = forever_loop draws max_code_collision_retry_attempts 0

  -- `customCode && typeof customCode === 'string' && customCode.trim()`
  abbrev pub wanted : Option Text → Option Text
  wanted none = none
  wanted (some custom) = if is_empty (trim custom) then none else some custom

  abbrev pub create_forever : Option Text → (ℕ → Draw) → M Database Created
  create_forever (some custom) draws = create_custom custom (draws 0).iv
  create_forever none draws = do
    db ← get
    forever_in (find (is_forever_of user) db.pairing_codes) draws

  unfoldable pub create : Duration → Option Text → (ℕ → Draw) → M Database Created
  unfolding create_custom forever_loop timed_loop replace_code
  create forever custom draws = create_forever (wanted custom) draws
  create unspecified custom draws = timed_loop draws none max_code_collision_retry_attempts 0
  create (seconds n) custom draws =
      timed_loop draws (compute_expires_at (some n) c.now) max_code_collision_retry_attempts 0

  -- `none` for available, else the error.
  unfoldable pub check_code_availability : Text → M Database (Option String)
  unfolding hmac_of
  check_code_availability raw db =
      let clean = normalize_pairing_code c.primitives raw in
      (
        ok (
            if is_empty raw
            then some "Code must be 6 alphanumeric characters"
            else if not (is_valid_pairing_code c.primitives clean)
            then some "Code must be exactly 6 alphanumeric characters (letters and numbers)"
            else if is_of_another user (find (is_live_with (hmac_of c clean)) db.pairing_codes)
            then some "Code is already in use by another user"
            else none),
        db,
      )
