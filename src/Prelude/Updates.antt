-- ===== src/Prelude/Updates.antt =====
-- Lemmas on the updating of the rows of a table.
use Prim.Native.Nat.{◌≤◌}
use mathlib.Core.Path.{◌≡◌, refl}
use mathlib.Core.Bool.{Bool, true, false}
use mathlib.Core.Option.{Option, none, some}
use mathlib.Core.List.{List, [], ◌∷◌, ◌++◌}
use native.Mathlib.Omega.{arith}
use pookie_chat.Prelude.Tests.{if◌then◌else◌}
use pookie_chat.Prelude.Lists.{find, any, count, update, All}

abbrev pub changed {ℓ} : {A : Type ℓ} → (A → Bool) → (A → A) → Option A → Option A
changed q f none = none
changed q f (some a) = some (if q a then f a else a)

module _ {ℓ} {A : Type ℓ} (p q : A → Bool) (f : A → A) where
  -- An update that leaves a test as it is does not change which row is found.
  pub find-update :
      ((a : A) → p (f a) ≡ p a) → (xs : List A) → find p (update q f xs) ≡ changed q f (find p xs)
  unfolding find update
  find-update same [] = refl
  find-update same (x ∷ xs) = ground (arith, same x, find-update same xs)

  pub count-update :
      ((a : A) → p (f a) ≡ p a) → (xs : List A) → count p (update q f xs) ≡ count p xs
  unfolding count update
  count-update same [] = refl
  count-update same (x ∷ xs) = ground (arith, same x, count-update same xs)

  -- Where no row that is changed fits, and a row that fits not yet is changed not to.
  pub find-update-none :
      ((a : A) → p (f a) ≡ false) → (xs : List A) → find p xs ≡ none → find p (update q f xs) ≡ none
  unfolding find update
  find-update-none gone [] e = refl
  find-update-none gone (x ∷ xs) e = ground (arith, gone x, find-update-none gone xs)

  find-count_zero : (xs : List A) → count p xs ≤ 0 → find p xs ≡ none
  unfolding find count
  find-count_zero [] h = refl
  find-count_zero (x ∷ xs) h = ground (arith, find-count_zero xs)

  -- The one row that fits is changed not to.
  pub find-update_only :
      ((a : A) → p (f a) ≡ false)
      → (xs : List A) (a : A) → find p xs ≡ some a
      → q a ≡ true
      → count p xs ≤ 1
      → find p (update q f xs) ≡ none
  unfolding find update count
  find-update_only gone [] a e at one = refl
  find-update_only gone (x ∷ xs) a e at one =
      ground
        (arith, gone x, find-update_only gone xs a, find-update-none gone xs, find-count_zero xs)

-- After the rows that fit were changed not to, none fits.
pub any-update {ℓ} :
    {A : Type ℓ} (p : A → Bool) (f : A → A) (xs : List A)
    → ((a : A) → p (f a) ≡ false)
    → any p (update p f xs) ≡ false
unfolding any update
any-update p f [] gone = refl
any-update p f (x ∷ xs) gone = ground (arith, gone x, any-update p f xs gone)

module _ {ℓ} {A : Type ℓ} (p : A → Bool) (f : A → A) where
  pub update-append : (xs ys : List A) → update p f (xs ++ ys) ≡ update p f xs ++ update p f ys
  unfolding update
  update-append [] ys = refl
  update-append (x ∷ xs) ys = rw (update-append xs ys) refl

  pub update_off : (xs : List A) → All (λ x. p x ≡ false) xs → update p f xs ≡ xs
  unfolding update
  update_off [] h = refl
  update_off (x ∷ xs) (h, hs) = rw (h, update_off xs hs) refl

  pub update-update :
      (g : A → A)
      → ((a : A) → p (f a) ≡ p a)
      → (xs : List A) → update p g (update p f xs) ≡ update p (λ a. g (f a)) xs
  unfolding update
  update-update g same [] = refl
  update-update g same (x ∷ xs) = ground (arith, same x, update-update g same xs)

  pub update_same : ((a : A) → f a ≡ a) → (xs : List A) → update p f xs ≡ xs
  unfolding update
  update_same same [] = refl
  update_same same (x ∷ xs) = ground (arith, same x, update_same same xs)
