-- ===== src/Examples/OfPairing.antt =====
-- The theorems on pairing and handshakes at concrete inputs.
use pookie_chat.Prelude.{
  length, find, keep, any, count, update, ℕ, ◌%◌, ◌≤◌, ◌≡◌, refl, ap, true, none, some, List, [],
  ◌∷◌, arith,
}
use pookie_chat.Domain.Text.{is_space, trim}
use pookie_chat.Domain.PairingCode.{
  to_upper, normalize_pairing_code, hash_pairing_code, same_bytes, verify_pairing_code, is_expired,
  is_locked_out,
}
use pookie_chat.Pairing.Redeem.Pairs.{redeem-ArePairs, ArePairs}
use pookie_chat.Pairing.Active.{revoke_active_forever_code, revoke}
use pookie_chat.Pairing.Redeem.Revoked.{revoke-redeem}
use pookie_chat.Pairing.Active.Retiring.{IsRetired, revoke_active_forever_code-IsRetired}
use pookie_chat.Server.{bad_request, not_found, ok, err}
use pookie_chat.Pairing.Tables.{write_codes, update_code, update_codes, Draw}
use pookie_chat.Pairing.Redeem.{
  latest_device, is_pair, use_code, redeem_in_transaction, fits, redeem, Redeemed,
}
use pookie_chat.Pairing.Redeem.Transaction.{their_conversation, Outcome}
use pookie_chat.Pairing.Redeem.Outcome.{redeem-Outcome}
use pookie_chat.Examples.Fixtures.{
  plain-AreSound, at, code_text, other_text, a_code, a_conversation, a_handshake, paired_database,
}
use pookie_chat.Domain.SessionEpoch.{is_stale_epoch, is_usable_for_handshake}
use pookie_chat.Server.Database.{has_conversation_id, Database}
use pookie_chat.Pairing.Create.{create, Duration}
use pookie_chat.Pairing.Create.Forever.{IsDraw, Answers, create-Answers}
use pookie_chat.Pairing.Redeem.Reuse.{at_time, redeem-once}
use pookie_chat.Pairing.Redeem.Misses.{try_all, wrong_guesses_lock, Guess}
use pookie_chat.Handshake.{is_of_conversation, upsert_handshake, store, fetch}
use pookie_chat.Handshake.Freshness.{store-fetch, redeem-fetch}

redeem-Outcome_example :
    Outcome (at 1000) 2 code_text paired_database (redeem (at 1000) 2 code_text paired_database)
redeem-Outcome_example = redeem-Outcome (at 1000) 2 code_text paired_database

-- The run succeeds.
abbrev redeemed_at_1000 : Redeemed
redeemed_at_1000 = record {
  conversation_id = 20;
  session_epoch = 2;
  expires_at = some 5000;
  is_temporary = true;
  bundle = record {
    identity_dh_public = [];
    identity_signing_public = [];
    signed_prekey_public = [];
    signed_prekey_signature = [];
    one_time_prekey_public = none;
  };
  other_user_id = 1;
  other_username = [];
  other_display_name = none;
}

run_of_redeem :
    redeem (at 1000) 2 code_text paired_database
    ≡ (ok redeemed_at_1000, (redeem (at 1000) 2 code_text paired_database).1)
unfolding redeem find any keep update to_upper trim is_space same_bytes verify_pairing_code
    hash_pairing_code normalize_pairing_code latest_device write_codes redeem_in_transaction
    use_code is_locked_out is_expired
run_of_redeem = refl

unlocked_at_1000 : find (fits (at 1000) 2 code_text) paired_database.pairing_codes ≡ some a_code
unfolding find to_upper trim is_space same_bytes verify_pairing_code hash_pairing_code
    normalize_pairing_code
unlocked_at_1000 = refl

one : count (fits (at 1000) 2 code_text) paired_database.pairing_codes ≤ 1
unfolding count to_upper trim is_space same_bytes verify_pairing_code hash_pairing_code
    normalize_pairing_code
one = omega arith

theirs : their_conversation (at 1000) 2 a_code paired_database ≡ some a_conversation
unfolding find
theirs = refl

by_id : find (has_conversation_id 20) paired_database.conversations ≡ some a_conversation
unfolding find
by_id = refl

waiting : find (is_of_conversation 20) paired_database.handshakes ≡ some a_handshake
unfolding find
waiting = refl

wrong : find (fits (at 0) 2 other_text) paired_database.pairing_codes ≡ none
unfolding find to_upper trim is_space same_bytes verify_pairing_code hash_pairing_code
    normalize_pairing_code
wrong = refl

redeem-once_example :
    (redeem (at_time 2000 (at 1000)) 3 code_text (redeem (at 1000) 2 code_text paired_database).1).0
    ≡ err (bad_request "Invalid or expired code")
redeem-once_example =
    redeem-once (at 1000) 2 3 2000 code_text paired_database a_code redeemed_at_1000
      (redeem (at 1000) 2 code_text paired_database).1 unlocked_at_1000 refl one run_of_redeem

redeem-fetch_example :
    fetch (at 3000) 1 20 (redeem (at 1000) 2 code_text paired_database).1
    ≡ (err (not_found "No pending handshake"), (redeem (at 1000) 2 code_text paired_database).1)
redeem-fetch_example =
    redeem-fetch (at 1000) 2 code_text paired_database redeemed_at_1000
      (redeem (at 1000) 2 code_text paired_database).1 a_code a_conversation a_handshake (at 3000) 1
      run_of_redeem unlocked_at_1000 theirs by_id waiting (omega arith)

abbrev stored_by_2 : Database
stored_by_2 = (store (at 1000) 2 20 other_text (some 1) paired_database).1

run_of_store : store (at 1000) 2 20 other_text (some 1) paired_database ≡ (ok tt, stored_by_2)
unfolding store find is_stale_epoch is_usable_for_handshake upsert_handshake
run_of_store = refl

store-fetch_example :
    fetch (at 1000) 1 20 stored_by_2
    ≡ (ok (record { handshake_message = other_text; session_epoch = 1 }), stored_by_2)
store-fetch_example =
    store-fetch (at 1000) 2 1 20 other_text (some 1) paired_database stored_by_2 a_conversation
      by_id run_of_store

abbrev wrong_guess : ℕ → Guess
wrong_guess time = record { redeemer = 2; time = time; code = other_text }

abbrev five_guesses : List Guess
five_guesses = wrong_guess 1 ∷ wrong_guess 2 ∷ wrong_guess 3 ∷ wrong_guess 4 ∷ wrong_guess 5 ∷ []

wrong_guesses_lock_example :
    (redeem (at_time 6 (at 0)) 2 code_text (try_all (at 0) five_guesses paired_database)).0
    ≡ err (bad_request "Invalid or expired code")
wrong_guesses_lock_example =
    wrong_guesses_lock (at 0) five_guesses paired_database
      (record { redeemer = 2; time = 6; code = code_text }) (tt, tt)
      (wrong, (wrong, (wrong, (wrong, (wrong, tt))))) (omega arith) (omega arith)

abbrev a_draw : ℕ → Draw
a_draw n = record { digits = n % 36 ∷ 1 ∷ 2 ∷ 3 ∷ 4 ∷ 5 ∷ []; iv = 7 ∷ [] }

a_draw-IsDraw : (n : ℕ) → IsDraw (a_draw n)
a_draw-IsDraw n = (
  λ e. omega (arith, ap length e),
  refl,
  (omega arith, (omega arith, (omega arith, (omega arith, (omega arith, (omega arith, tt)))))),
)

create-Answers_example :
    Answers (at 0) 2 (create (at 0) 2 Duration.forever none a_draw paired_database)
create-Answers_example =
    create-Answers (at 0) 2 plain-AreSound none a_draw paired_database a_draw-IsDraw
      (λ chosen e. absurd (ground arith))

-- A forever code that was stored without its text.
abbrev forever_database : Database
forever_database = record paired_database {
  pairing_codes = record a_code { expires_at = none } ∷ [];
}

one_pair : (a b : ℕ) → count (is_pair a b) paired_database.conversations ≤ 1
unfolding count
one_pair a b = ground arith

redeem-ArePairs_example : ArePairs (redeem (at 1000) 2 code_text paired_database).1.conversations
redeem-ArePairs_example =
    redeem-ArePairs (at 1000) 2 paired_database code_text
      (record { ordered = (omega arith, tt); single = one_pair })

revoke_active_forever_code-IsRetired_example :
    IsRetired 1 paired_database (revoke_active_forever_code (at 0) 1 paired_database)
revoke_active_forever_code-IsRetired_example =
    revoke_active_forever_code-IsRetired (at 0) 1 paired_database

run_of_revoke :
    revoke (at 1000) 1 a_code.id paired_database
    ≡ (ok tt, (revoke (at 1000) 1 a_code.id paired_database).1)
unfolding revoke find any update write_codes update_code update_codes
run_of_revoke = refl

revoke-redeem_example :
    (redeem (at_time 2000 (at 1000)) 2 code_text (revoke (at 1000) 1 a_code.id paired_database).1).0
    ≡ err (bad_request "Invalid or expired code")
revoke-redeem_example =
    revoke-redeem (at 1000) 1 2 2000 code_text paired_database a_code
      (revoke (at 1000) 1 a_code.id paired_database).1 unlocked_at_1000 one run_of_revoke
