-- ===== src/Domain/PairingCode/Sealing.antt =====
-- pairingCode.ts: a code that is encrypted and decrypted under one pepper comes back, and a code
-- is verified exactly by its own digest.
use pookie_chat.Prelude.{
  length, All, ℕ, ◌≤◌, ◌<◌, ◌≡◌, refl, sym, ap, ◌∙◌, ◌≢◌, ◌↔◌, true, false, some, List, [], ◌∷◌,
  ◌++◌, arith,
}
use pookie_chat.Domain.Text.{Text}
use pookie_chat.Domain.PairingCode.{
  normalize_pairing_code, hash_pairing_code, same_bytes, verify_pairing_code, derive_key,
  encrypt_pairing_code, split_colon, is_empty, decrypt_parts, decrypt_pairing_code, Primitives,
}

abbrev pub NoColon : Text → Type 0
NoColon s = All (λ c. c ≢ b':') s

abbrev pub IsAscii : Text → Type 0
IsAscii s = All (λ c. c < 128) s

-- What the documentation of node:crypto and Buffer promises of the primitives.
pub record AreSound (p : Primitives) : Type 0 where
  pub from-to_base64 : (b : List ℕ) → p.from_base64 (p.to_base64 b) ≡ b
  pub to_base64-NoColon : (b : List ℕ) → NoColon (p.to_base64 b)
  pub from-to_hex : (b : List ℕ) → p.from_hex (p.to_hex b) ≡ b
  pub decrypt-encrypt :
      (key iv : List ℕ) (s : Text)
      → IsAscii s
      → p.decrypt key iv (p.encrypt key iv s).0 (p.encrypt key iv s).1 ≡ some s
  -- The ciphertext is as long as the text in UTF-8, the tag has 16 bytes.
  pub length-ciphertext : (key iv : List ℕ) (s : Text) → length s ≤ length (p.encrypt key iv s).0
  pub length-tag : (key iv : List ℕ) (s : Text) → length (p.encrypt key iv s).1 ≡ 16
  pub from_base64-nil : p.from_base64 [] ≡ []

pub same_bytes_iff : (xs ys : List ℕ) → (same_bytes xs ys ≡ true) ↔ (xs ≡ ys)
unfolding same_bytes
same_bytes_iff [] [] = ground arith
same_bytes_iff [] (y ∷ ys) = ground arith
same_bytes_iff (x ∷ xs) [] = ground arith
same_bytes_iff (x ∷ xs) (y ∷ ys) = ground (arith, same_bytes_iff xs ys)

pub split_colon-NoColon : (s : Text) → NoColon s → split_colon s ≡ (s, [])
unfolding split_colon
split_colon-NoColon [] h = refl
split_colon-NoColon (c ∷ s) h = ground (arith, split_colon-NoColon s h.1)

pub split_colon-join :
    (s rest : Text)
    → NoColon s
    → split_colon (s ++ b':' ∷ rest) ≡ (s, (split_colon rest).0 ∷ (split_colon rest).1)
unfolding split_colon
split_colon-join [] rest h = refl
split_colon-join (c ∷ s) rest h = ground (arith, split_colon-join s rest h.1)

is_empty-of-ne : (s : Text) → s ≢ [] → is_empty s ≡ false
is_empty-of-ne [] h = absurd (h refl)
is_empty-of-ne (c ∷ s) h = refl

module _ {p : Primitives} (sound : AreSound p) where
  -- Three base64 texts joined by colons are split into the three.
  pub split_colon-sealed :
      (a b c : List ℕ)
      → split_colon (p.to_base64 a ++ b':' ∷ (p.to_base64 b ++ b':' ∷ p.to_base64 c))
        ≡ (p.to_base64 a, p.to_base64 b ∷ p.to_base64 c ∷ [])
  split_colon-sealed a b c = rw (
    split_colon-join (p.to_base64 a) _ (sound.to_base64-NoColon a),
    split_colon-join (p.to_base64 b) _ (sound.to_base64-NoColon b),
    split_colon-NoColon (p.to_base64 c) (sound.to_base64-NoColon c),
  )

  -- The base64 form of some bytes is some text.
  to_base64-not_empty : (b : List ℕ) → b ≢ [] → is_empty (p.to_base64 b) ≡ false
  to_base64-not_empty b h =
      is_empty-of-ne (p.to_base64 b)
        λ e. h (sym (sound.from-to_base64 b) ∙ ap p.from_base64 e ∙ sound.from_base64-nil)

  ciphertext_ne : (key iv : List ℕ) (s : Text) → s ≢ [] → (p.encrypt key iv s).0 ≢ []
  ciphertext_ne key iv [] h e = h refl
  ciphertext_ne key iv (c ∷ s) h e =
      omega (arith, ap length e, sound.length-ciphertext key iv (c ∷ s))

  tag_ne : (key iv : List ℕ) (s : Text) → (p.encrypt key iv s).1 ≢ []
  tag_ne key iv s e = omega (arith, ap length e, sound.length-tag key iv s)

  -- A code that is sealed under a pepper, with any iv, is read back under that pepper, provided
  -- that the primitives keep their documented laws, the code is ASCII, and neither the code nor the
  -- iv is empty.
  pub decrypt-encrypt_pairing_code :
      (iv : List ℕ) (code pepper : Text)
      → iv ≢ []
      → code ≢ []
      → IsAscii code
      → decrypt_pairing_code p (encrypt_pairing_code p iv code pepper) pepper ≡ some code
  unfolding decrypt_pairing_code encrypt_pairing_code decrypt_parts
  decrypt-encrypt_pairing_code iv code pepper hi hc ascii =
      let key : List ℕ = derive_key p pepper in
      rw
        (
          split_colon-sealed iv (p.encrypt key iv code).0 (p.encrypt key iv code).1,
          to_base64-not_empty iv hi,
          to_base64-not_empty (p.encrypt key iv code).0 (ciphertext_ne key iv code hc),
          to_base64-not_empty (p.encrypt key iv code).1 (tag_ne key iv code),
          sound.from-to_base64 iv,
          sound.from-to_base64 (p.encrypt key iv code).0,
          sound.from-to_base64 (p.encrypt key iv code).1,
        )
        (sound.decrypt-encrypt key iv code ascii)

  -- A code is accepted against the stored digest of another one exactly if the keyed digests of the
  -- two normalised texts are the same bytes, provided that the primitives keep their documented laws.
  verify-hash_pairing_code :
      (code other pepper : Text)
      → (verify_pairing_code p code pepper (hash_pairing_code p other pepper) ≡ true) ↔ (
          p.hmac pepper (normalize_pairing_code p code)
          ≡ p.hmac pepper (normalize_pairing_code p other))
  unfolding verify_pairing_code hash_pairing_code
  verify-hash_pairing_code code other pepper =
      let x : List ℕ = p.hmac pepper (normalize_pairing_code p code) in
      let y : List ℕ = p.hmac pepper (normalize_pairing_code p other) in
      rw (sound.from-to_base64 x, sound.from-to_base64 y) (ground (arith, same_bytes_iff x y))
