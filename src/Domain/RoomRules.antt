-- ===== src/Domain/RoomRules.antt =====
-- apps/backend/src/domain/room.ts: names, sizes and codes of rooms.
use pookie_chat.Prelude.{
  ltb, leb, ◌==◌, if◌then◌else◌, length, any, ℕ, zero, suc, ◌+◌, ◌%◌, String, ◌≡◌, Bool, false, not,
  ◌||◌, Option, none, some, List, [], ◌∷◌, ◌++◌, map,
}
use pookie_chat.Domain.Text.{Text, trim}
use pookie_chat.Domain.PairingCode.{to_upper, same_bytes, split_colon, Primitives}
use pookie_chat.Domain.PairingCode.Sealing.{IsAscii, split_colon-sealed, AreSound}

abbrev pub min_room_name_length : ℕ
min_room_name_length = 2

abbrev pub max_room_name_length : ℕ
max_room_name_length = 50

abbrev pub min_room_members : ℕ
min_room_members = 2

abbrev pub max_room_members : ℕ
max_room_members = 2000

-- `/[\u0000-\u001F\u007F]/`
abbrev is_control : ℕ → Bool
is_control c = leb c 0x1f || c == 0x7f

-- The result of a validation: the value to store, or the message.
pub data Validated {ℓ} (A : Type ℓ) : Type ℓ where
  valid : A → Validated A
  invalid : String → Validated A

unfoldable pub validate_room_name : Text → Validated Text
validate_room_name raw =
    let normalized = trim raw in
    if ltb (length normalized) min_room_name_length
    then invalid "Room name must be at least 2 characters"
    else if ltb max_room_name_length (length normalized)
    then invalid "Room name must not exceed 50 characters"
    else if any is_control normalized
    then invalid "Room name contains invalid characters"
    else valid normalized

-- The request's number is a whole number that is not negative; see the header.
unfoldable pub validate_max_members : ℕ → Validated ℕ
validate_max_members num =
    if ltb num min_room_members
    then invalid "Maximum members must be at least 2"
    else if ltb max_room_members num
    then invalid "Maximum members cannot exceed 2000"
    else valid num

abbrev pub room_code_alphabet : Text
room_code_alphabet =
    map (λ k. b'2' + k) (0 ∷ 1 ∷ 2 ∷ 3 ∷ 4 ∷ 5 ∷ 6 ∷ 7 ∷ [])
    ++ map (λ k. b'A' + k) (0 ∷ 1 ∷ 2 ∷ 3 ∷ 4 ∷ 5 ∷ 6 ∷ 7 ∷ [])
    ++ map (λ k. b'J' + k) (0 ∷ 1 ∷ 2 ∷ 3 ∷ 4 ∷ [])
    ++ map (λ k. b'P' + k) (0 ∷ 1 ∷ 2 ∷ 3 ∷ 4 ∷ 5 ∷ 6 ∷ 7 ∷ 8 ∷ 9 ∷ 10 ∷ [])

abbrev pub unit_at : Text → ℕ → ℕ
unit_at [] i = 0
unit_at (c ∷ s) zero = c
unit_at (c ∷ s) (suc i) = unit_at s i

-- The nine random bytes are the argument.
unfoldable pub generate_room_code : List ℕ → Text
generate_room_code bytes = map (λ b. unit_at room_code_alphabet (b % 32)) bytes

unfoldable pub normalize_room_code : Primitives → Text → Text
normalize_room_code p code = to_upper p.upper_other (trim code)

unfoldable pub hash_room_code : Primitives → Text → Text → Text
hash_room_code p code pepper = p.to_hex (p.hmac pepper (normalize_room_code p code))

unfoldable verify_room_code : Primitives → Text → Text → Text → Bool
verify_room_code p code pepper expected_hmac =
    let a = p.from_hex (hash_room_code p code pepper) in
    let b = p.from_hex expected_hmac in if not (length a == length b) then false else same_bytes a b

pub encrypt_room_code : Primitives → List ℕ → Text → Text → Text
encrypt_room_code p iv code pepper =
    let key = p.sha256 pepper in
    let (ciphertext, tag) = p.encrypt key iv code in
    p.to_base64 iv ++ b':' ∷ (p.to_base64 ciphertext ++ b':' ∷ p.to_base64 tag)

open_parts : Primitives → Text → Text → List Text → Option Text
open_parts p pepper iv (ciphertext ∷ tag ∷ []) =
    p.decrypt (p.sha256 pepper) (p.from_base64 iv) (p.from_base64 ciphertext) (p.from_base64 tag)
open_parts p pepper iv _ = none

-- `none` is the exception.
pub decrypt_room_code : Primitives → Text → Text → Option Text
unfolding open_parts
decrypt_room_code p encrypted pepper =
    let (iv, parts) = split_colon encrypted in open_parts p pepper iv parts

decrypt-encrypt_bytes :
    {p : Primitives} (sound : AreSound p) (iv : List ℕ) (code pepper : Text) (ascii : IsAscii code)
    → let (ciphertext, tag) = p.encrypt (p.sha256 pepper) iv code in
      p.decrypt
        (p.sha256 pepper)
        (p.from_base64 (p.to_base64 iv))
        (p.from_base64 (p.to_base64 ciphertext))
        (p.from_base64 (p.to_base64 tag))
      ≡ some code
decrypt-encrypt_bytes {p} sound iv code pepper ascii =
    let key : List ℕ = p.sha256 pepper in
    rw
      (
        sound.from-to_base64 iv,
        sound.from-to_base64 (p.encrypt key iv code).0,
        sound.from-to_base64 (p.encrypt key iv code).1,
      )
      (sound.decrypt-encrypt key iv code ascii)

opened :
    {p : Primitives} (sound : AreSound p) (iv : List ℕ) (code pepper : Text) (ascii : IsAscii code)
    (parts : Text × List Text)
    → let (ciphertext, tag) = p.encrypt (p.sha256 pepper) iv code in
      parts ≡ (p.to_base64 iv, p.to_base64 ciphertext ∷ p.to_base64 tag ∷ [])
      → open_parts p pepper parts.0 parts.1 ≡ some code
unfolding open_parts
opened {p} sound iv code pepper ascii parts e =
    rw e (decrypt-encrypt_bytes sound iv code pepper ascii)

-- A room's code that is sealed under the pepper, with any iv, is read back, provided that the
-- primitives keep their documented laws and the code is ASCII.
decrypt-encrypt_room_code :
    (p : Primitives) (iv : List ℕ) (code pepper : Text)
    → AreSound p
    → IsAscii code
    → decrypt_room_code p (encrypt_room_code p iv code pepper) pepper ≡ some code
unfolding decrypt_room_code encrypt_room_code open_parts
decrypt-encrypt_room_code p iv code pepper sound ascii = opened sound iv code pepper ascii _ (
    split_colon-sealed sound iv (p.encrypt (p.sha256 pepper) iv code).0
      (p.encrypt (p.sha256 pepper) iv code).1)
