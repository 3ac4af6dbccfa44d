-- ===== src/Domain/PairingCode.antt =====
-- apps/backend/src/domain/pairingCode.ts: the codes, their expiry and the counting of wrong
-- guesses. The primitives of node:crypto and of Buffer are the parameters in `Primitives`.
pub mod Guesses
pub mod Sealing
use pookie_chat.Prelude.{
  ltb, leb, ◌==◌, if◌then◌else◌, length, all, ℕ, ◌+◌, ◌-◌, ◌*◌, Bool, true, false, not, ◌&&◌, ◌||◌,
  Option, none, some, List, [], ◌∷◌, ◌++◌,
}
use pookie_chat.Domain.Text.{Text, trim, is_lower, is_upper, is_digit}
use pookie_chat.Domain.Lockout.{is_before}

-- What the sources call of node:crypto and Buffer: SHA-256, HMAC-SHA256, AES-256-GCM under a key
-- and an iv (the ciphertext and the tag; decryption fails where the tag does not fit), and the
-- text encodings of bytes.
pub record Primitives : Type 0 where
  pub sha256 : Text → List ℕ
  pub hmac : Text → Text → List ℕ
  pub encrypt : List ℕ → List ℕ → Text → List ℕ × List ℕ
  pub decrypt : List ℕ → List ℕ → List ℕ → List ℕ → Option Text
  pub to_base64 : List ℕ → Text
  pub from_base64 : Text → List ℕ
  pub to_hex : List ℕ → Text
  pub from_hex : Text → List ℕ
  -- The upper-case form of a code unit outside ASCII.
  pub upper_other : ℕ → Text

-- `PAIRING_CODE_ALPHABET[i]`: the digits, then the capital letters.
abbrev pub pairing_code_unit : ℕ → ℕ
pairing_code_unit i = if ltb i 10 then b'0' + i else b'A' + (i - 10)

-- `generatePairingCode` and `generateForeverCode`, which are alike; the values of `randomInt` are
-- the argument.
unfoldable pub generate_pairing_code : List ℕ → Text
generate_pairing_code [] = []
generate_pairing_code (i ∷ is) = pairing_code_unit i ∷ generate_pairing_code is

-- `String.prototype.toUpperCase`
unfoldable pub to_upper : (ℕ → Text) → Text → Text
to_upper other [] = []
to_upper other (c ∷ s) =
    (if is_lower c then (c - 32) ∷ [] else if ltb c 128 then c ∷ [] else other c)
    ++ to_upper other s

unfoldable pub normalize_pairing_code : Primitives → Text → Text
normalize_pairing_code p code = to_upper p.upper_other (trim code)

-- `/^[A-Z0-9]{6}$/.test(normalizePairingCode(code))`
unfoldable pub is_valid_pairing_code : Primitives → Text → Bool
is_valid_pairing_code p code =
    let s = normalize_pairing_code p code in length s == 6 && all (λ c. is_upper c || is_digit c) s

unfoldable pub hash_pairing_code : Primitives → Text → Text → Text
hash_pairing_code p code pepper = p.to_base64 (p.hmac pepper (normalize_pairing_code p code))

-- `timingSafeEqual`
unfoldable pub same_bytes : List ℕ → List ℕ → Bool
same_bytes [] [] = true
same_bytes (a ∷ xs) (b ∷ ys) = a == b && same_bytes xs ys
same_bytes _ _ = false

unfoldable pub verify_pairing_code : Primitives → Text → Text → Text → Bool
verify_pairing_code p code pepper stored_hmac =
    let candidate = p.from_base64 (hash_pairing_code p code pepper) in
    let expected = p.from_base64 stored_hmac in
    if not (length candidate == length expected) then false else same_bytes candidate expected

unfoldable pub derive_key : Primitives → Text → List ℕ
derive_key p pepper = p.sha256 pepper

-- `iv:ciphertext:tag`, each in base64.
unfoldable pub encrypt_pairing_code : Primitives → List ℕ → Text → Text → Text
encrypt_pairing_code p iv code pepper =
    let (ciphertext, tag) = p.encrypt (derive_key p pepper) iv code in
    p.to_base64 iv ++ b':' ∷ (p.to_base64 ciphertext ++ b':' ∷ p.to_base64 tag)

-- `String.prototype.split(':')`, the part that is being read in front.
pub split_colon : Text → Text × List Text
split_colon [] = ([], [])
split_colon (c ∷ s) =
    let (part, parts) = split_colon s in if c == b':' then ([], part ∷ parts) else (c ∷ part, parts)

abbrev pub is_empty : Text → Bool
is_empty [] = true
is_empty (c ∷ s) = false

-- `none` is the exception, of the format or of `decipher.final`.
pub decrypt_parts : Primitives → Text → Text → List Text → Option Text
decrypt_parts p pepper iv (ciphertext ∷ tag ∷ []) =
    if is_empty iv || is_empty ciphertext || is_empty tag
    then none
    else p.decrypt (derive_key p pepper) (p.from_base64 iv) (p.from_base64 ciphertext)
        (p.from_base64 tag)
decrypt_parts p pepper iv _ = none

pub decrypt_pairing_code : Primitives → Text → Text → Option Text
decrypt_pairing_code p encrypted pepper =
    let (iv, parts) = split_colon encrypted in decrypt_parts p pepper iv parts

unfoldable pub compute_expires_at : Option ℕ → ℕ → Option ℕ
compute_expires_at none now = none
compute_expires_at (some seconds) now = some (now + seconds * 1000)

unfoldable pub is_expired : Option ℕ → ℕ → Bool
is_expired none now = false
is_expired (some expires_at) now = leb expires_at now

pub record PairingAttemptState : Type 0 where
  pub failed_attempts : ℕ
  pub locked_until : Option ℕ

abbrev pub max_attempts_before_lockout : ℕ
max_attempts_before_lockout = 5

-- `new Date(8640000000000000)`, the last instant that a Date can hold.
abbrev pub far_future : ℕ
far_future = 8640000000000000

unfoldable pub is_locked_out : PairingAttemptState → ℕ → Bool
is_locked_out state now = is_before now state.locked_until

-- The new state, and `mustRegenerate`.
unfoldable pub record_failed_attempt : PairingAttemptState → PairingAttemptState × Bool
record_failed_attempt state =
    let failed : ℕ = state.failed_attempts + 1 in
    let must_regenerate = leb max_attempts_before_lockout failed in
    (
      record {
        failed_attempts = failed;
        locked_until = if must_regenerate then some far_future else state.locked_until;
      },
      must_regenerate,
    )
