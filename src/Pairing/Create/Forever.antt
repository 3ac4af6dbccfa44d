-- ===== src/Pairing/Create/Forever.antt =====
-- A forever code that `create` has answered is the creator's active code, and can be read again.
use pookie_chat.Prelude.{
  ltb, ==_refl, Bool-cases, Option-cases, length, find, any, all, update, find-append_none, All,
  find-update, ℕ, zero, suc, ◌+◌, ◌-◌, ◌<◌, ◌≡◌, refl, ap, ◌∙◌, subst, ◌≢◌, ◌⊎◌, inl, inr, true,
  false, not, ◌||◌, Option, none, some, List, [], ◌∷◌, ◌++◌, arith,
}
use pookie_chat.Domain.Text.{Text, is_upper, is_digit}
use pookie_chat.Domain.PairingCode.{
  generate_pairing_code, normalize_pairing_code, is_valid_pairing_code, encrypt_pairing_code,
  is_empty,
}
use pookie_chat.Domain.PairingCode.Sealing.{IsAscii, decrypt-encrypt_pairing_code, AreSound}
use pookie_chat.Server.{unique_violation, Result, ok, err}
use pookie_chat.Server.Rows.{PairingRow}
use pookie_chat.Server.Database.{Database, Context}
use pookie_chat.Pairing.Reason.{at_write}
use pookie_chat.Pairing.Tables.{
  is_live_with, is_forever_of, has_pairing_id, has_clash, write_codes, create_code, update_codes,
  update_code, readable_code, drawn_code, hmac_of, sealed_of, new_code, with_fresh_code, Draw,
}
use pookie_chat.Pairing.Create.{
  max_code_collision_retry_attempts, is_of_another, replace_code, insert_code, custom_in,
  create_custom, forever_loop, forever_in, wanted, create_forever, create, Created, forever,
}
use pookie_chat.Server.Reason.{at_require, at_if}

-- The active forever code of the user is the one that was answered, and its text can be read.
abbrev pub IsReadable : Context → ℕ → Database → Created → Type 0
IsReadable c user after out =
    (row : PairingRow) × (find (is_forever_of user) after.pairing_codes ≡ some row)
    × (row.id ≡ out.pairing_id)
    × (readable_code c row.code_text ≡ some out.code)

abbrev pub Answers : Context → ℕ → Result Created × Database → Type 0
Answers c user (ok out, after) = IsReadable c user after out
Answers c user (err e, after) = Unit {0}

-- What is drawn: six places of the alphabet and an initialisation vector.
abbrev pub IsDraw : Draw → Type 0
IsDraw d = (d.iv ≢ []) × (length d.digits ≡ 6) × All (λ i. i < 36) d.digits

abbrev pub IsCode : Text → Type 0
IsCode code = (length code ≡ 6) × IsAscii code

drawn-IsAscii :
    (digits : List ℕ) → All (λ i. i < 36) digits → IsAscii (generate_pairing_code digits)
unfolding generate_pairing_code
drawn-IsAscii [] h = tt
drawn-IsAscii (i ∷ is) (h, hs) = (ground arith, drawn-IsAscii is hs)

length-drawn : (digits : List ℕ) → length (generate_pairing_code digits) ≡ length digits
unfolding generate_pairing_code
length-drawn [] = refl
length-drawn (i ∷ is) = rw (length-drawn is) refl

pub drawn-IsCode : (d : Draw) → IsDraw d → IsCode (drawn_code d)
drawn-IsCode d (iv, six, places) = (length-drawn d.digits ∙ six, drawn-IsAscii d.digits places)

not_empty : (code : Text) → length code ≡ 6 → is_empty code ≡ false
not_empty [] h = absurd (omega (arith, h))
not_empty (x ∷ code) h = refl

is_empty-append : (s t : Text) (x : ℕ) → is_empty (s ++ x ∷ t) ≡ false
is_empty-append [] t x = refl
is_empty-append (y ∷ s) t x = refl

valid-IsAscii : (s : Text) → all (λ x. is_upper x || is_digit x) s ≡ true → IsAscii s
unfolding all
valid-IsAscii [] h = tt
valid-IsAscii (x ∷ s) h = (ground arith, valid-IsAscii s (ground arith))

module _ (c : Context) (user : ℕ) (sound : AreSound c.primitives) where
  sealed_not_empty :
      (code : Text) (iv : List ℕ)
      → is_empty (encrypt_pairing_code c.primitives iv code c.pepper) ≡ false
  unfolding encrypt_pairing_code
  sealed_not_empty code iv = is_empty-append _ _ b':'

  -- A code that is sealed with an initialisation vector is read back.
  pub readable-sealed :
      (code : Text) (iv : List ℕ)
      → IsCode code
      → iv ≢ []
      → readable_code c (sealed_of c iv code) ≡ some code
  unfolding readable_code sealed_of
  readable-sealed code iv is_code iv_there =
      rw
        (
          sealed_not_empty code iv,
          decrypt-encrypt_pairing_code sound iv code c.pepper iv_there
              (λ e. omega (arith, ap length e, is_code.0)) is_code.1,
          not_empty code is_code.0,
        )
        refl

  replaced :
      (existing : PairingRow) (code : Text) (iv : List ℕ) (data_ : PairingRow → PairingRow)
      (db : Database)
      → find (is_forever_of user) db.pairing_codes ≡ some existing
      → ((r : PairingRow) → is_forever_of user (data_ r) ≡ is_forever_of user r)
      → (data_ existing).id ≡ existing.id
      → (data_ existing).code_text ≡ sealed_of c iv code
      → IsCode code
      → iv ≢ []
      → Answers c user (replace_code c user existing code data_ db)
  unfolding replace_code update_code update_codes
  replaced existing code iv data_ db found same id sealed is_code iv_there =
      at_write (Answers c user) (update (has_pairing_id existing.id) data_ db.pairing_codes) _ db tt
        λ free. (
          data_ existing,
          find-update (is_forever_of user) (has_pairing_id existing.id) data_ same db.pairing_codes
              ∙ rw (found, ==_refl existing.id) refl,
          id,
          rw sealed (readable-sealed code iv is_code iv_there),
        )

  inserted :
      (code : Text) (iv : List ℕ) (db : Database)
      → find (is_forever_of user) db.pairing_codes ≡ none
      → IsCode code
      → iv ≢ []
      → Answers c user (insert_code c user code iv none db)
  unfolding insert_code create_code write_codes find
  inserted code iv db nothing is_code iv_there =
      let row : PairingRow = new_code c user code iv none db.next_id in
      elim (Bool-cases
        (any (has_clash (db.pairing_codes ++ row ∷ [])) (db.pairing_codes ++ row ∷ []))) [
          | inl clash ↦ rw clash tt
          | inr free ↦ rw free (
            row,
            find-append_none (is_forever_of user) db.pairing_codes (row ∷ []) nothing
                ∙ rw (==_refl user) refl,
            refl,
            readable-sealed code iv is_code iv_there,
          )
        ]

  insert_code-cases :
      (code : Text) (iv : List ℕ) (db : Database)
      → (insert_code c user code iv none db ≡ (err unique_violation, db))
        ⊎ ((out : Created) × (after : Database) × (insert_code c user code iv none db
              ≡ (ok out, after)))
  unfolding insert_code create_code write_codes
  insert_code-cases code iv db =
      let rows : List PairingRow =
        db.pairing_codes ++ new_code c user code iv none db.next_id ∷ [] in
      elim (Bool-cases (any (has_clash rows) rows)) [
        | inl clash ↦ inl (rw clash refl)
        | inr free ↦ inr (
          record { pairing_id = db.next_id; code = code; expires_at = none },
          record db { pairing_codes = rows; next_id = db.next_id + 1 },
          rw free refl,
        )
      ]

  forever_loop-Answers :
      (draws : ℕ → Draw) (fuel attempt : ℕ) (db : Database)
      → ((n : ℕ) → IsDraw (draws n))
      → find (is_forever_of user) db.pairing_codes ≡ none
      → Answers c user (forever_loop c user draws fuel attempt db)
  unfolding forever_loop
  forever_loop-Answers draws zero attempt db are_draws nothing = tt
  forever_loop-Answers draws (suc fuel) attempt db are_draws nothing =
      let d : Draw = draws attempt in
      elim (insert_code-cases (drawn_code d) d.iv db) [
        | inl violated ↦
            rw (violated, nothing)
              (at_if (Answers c user) (ltb attempt (max_code_collision_retry_attempts - 1)) _ _ db
                (λ more. forever_loop-Answers draws fuel (attempt + 1) db are_draws nothing)
                (λ last. tt))
        | inr (out, after, e) ↦ rw e (
            subst (Answers c user) e (
              inserted (drawn_code d) d.iv db nothing (drawn-IsCode d (are_draws attempt))
                (are_draws attempt).0))
      ]

  in_place :
      (custom : Text) (iv : List ℕ) (db : Database)
      → iv ≢ []
      → IsCode (normalize_pairing_code c.primitives custom)
      → (o : Option PairingRow) → find (is_forever_of user) db.pairing_codes ≡ o
      → Answers c user (custom_in c user o (normalize_pairing_code c.primitives custom) iv db)
  in_place custom iv db iv_there is_code none e =
      inserted (normalize_pairing_code c.primitives custom) iv db e is_code iv_there
  in_place custom iv db iv_there is_code (some existing) e =
      replaced existing (normalize_pairing_code c.primitives custom) iv
        (with_fresh_code c (normalize_pairing_code c.primitives custom) iv) db e (λ r. refl) refl
        refl is_code iv_there

  custom-Answers :
      (custom : Text) (iv : List ℕ) (db : Database)
      → iv ≢ []
      → IsCode (normalize_pairing_code c.primitives custom)
      → Answers c user (create_custom c user custom iv db)
  unfolding create_custom
  custom-Answers custom iv db iv_there is_code =
      let clean : Text = normalize_pairing_code c.primitives custom in
      at_require (Answers c user) (is_valid_pairing_code c.primitives clean) _ _ db tt λ valid.
        at_require (Answers c user)
          (not (is_of_another user (find (is_live_with (hmac_of c clean)) db.pairing_codes))) _ _ db
          tt
          λ free.
            in_place custom iv db iv_there is_code (find (is_forever_of user) db.pairing_codes) refl

  forever-Answers :
      (draws : ℕ → Draw) (db : Database) (o : Option PairingRow)
      → ((n : ℕ) → IsDraw (draws n))
      → find (is_forever_of user) db.pairing_codes ≡ o
      → Answers c user (forever_in c user o draws db)
  forever-Answers draws db none are_draws e =
      forever_loop-Answers draws max_code_collision_retry_attempts 0 db are_draws e
  forever-Answers draws db (some existing) are_draws e =
      elim (Option-cases (readable_code c existing.code_text)) [
        | inl lost ↦ rw lost (
            replaced existing (drawn_code (draws 0)) (draws 0).iv
              (with_fresh_code c (drawn_code (draws 0)) (draws 0).iv) db e (λ r. refl) refl refl
              (drawn-IsCode (draws 0) (are_draws 0)) (are_draws 0).0)
        | inr (code, known) ↦ rw known (existing, e, refl, known)
      ]

  wanted-Answers :
      (o : Option Text) (draws : ℕ → Draw) (db : Database)
      → ((n : ℕ) → IsDraw (draws n))
      → ((custom : Text) → o ≡ some custom → IsCode (normalize_pairing_code c.primitives custom))
      → Answers c user (create_forever c user o draws db)
  wanted-Answers none draws db are_draws customs =
      forever-Answers draws db (find (is_forever_of user) db.pairing_codes) are_draws refl
  wanted-Answers (some custom) draws db are_draws customs =
      custom-Answers custom (draws 0).iv db (are_draws 0).0 (customs custom refl)

  -- A forever code that was created, drawn or chosen, is the creator's active forever code, and its
  -- text can be read back, provided that the primitives keep their documented laws, that each draw
  -- is six places of the alphabet with an initialisation vector, and that a chosen text has six
  -- ASCII units when it is normalised.
  pub create-Answers :
      (custom : Option Text) (draws : ℕ → Draw) (db : Database)
      → ((n : ℕ) → IsDraw (draws n))
      → ((chosen : Text)
          → wanted c user custom ≡ some chosen
          → IsCode (normalize_pairing_code c.primitives chosen))
      → Answers c user (create c user forever custom draws db)
  unfolding create
  create-Answers custom draws db are_draws customs =
      wanted-Answers (wanted c user custom) draws db are_draws customs
