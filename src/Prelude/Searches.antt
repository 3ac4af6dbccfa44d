-- ===== src/Prelude/Searches.antt =====
-- More on searching, keeping and counting: what one of them says of the others.
use Prim.Native.Nat.{◌≤◌}
use mathlib.Core.Path.{◌≡◌, refl}
use mathlib.Core.Bool.{Bool, true, false}
use mathlib.Core.Logic.{inl, inr}
use mathlib.Core.Option.{none, some}
use mathlib.Core.List.{List, [], ◌∷◌, ◌++◌, reverse_aux}
use native.Mathlib.Omega.{arith}
use pookie_chat.Prelude.Tests.{Bool-cases}
use pookie_chat.Prelude.Lists.{find, find_holds, keep, any, count, update, All, All-mono}

pub any-found {ℓ} :
    {A : Type ℓ} (p q : A → Bool) (xs : List A) (a : A)
    → find q xs ≡ some a
    → p a ≡ true
    → any p xs ≡ true
unfolding find any
any-found p q [] a e h = ground arith
any-found p q (x ∷ xs) a e h = ground (arith, any-found p q xs a)

pub any-some {ℓ} :
    {A : Type ℓ} (p : A → Bool) (xs : List A) (a : A) → find p xs ≡ some a → any p xs ≡ true
any-some p xs a e = any-found p p xs a e (find_holds p xs a e)

pub keep-append {ℓ} :
    {A : Type ℓ} (p : A → Bool) (xs ys : List A) → keep p (xs ++ ys) ≡ keep p xs ++ keep p ys
unfolding keep
keep-append p [] ys = refl
keep-append p (x ∷ xs) ys = ground (arith, keep-append p xs ys)

module _ {ℓ} {A : Type ℓ} (p q : A → Bool) where
  pub find-All_missing : (xs : List A) → All (λ x. p x ≡ false) xs → find p xs ≡ none
  unfolding find
  find-All_missing [] h = refl
  find-All_missing (x ∷ xs) (h, hs) = ground (arith, find-All_missing xs hs)

  pub find-keep_missing : (xs : List A) → find p xs ≡ none → find p (keep q xs) ≡ none
  unfolding find keep
  find-keep_missing [] e = refl
  find-keep_missing (x ∷ xs) e = ground (arith, find-keep_missing xs)

  pub find-keep_dropped :
      (xs : List A) → All (λ x. p x ≡ true → q x ≡ false) xs → find p (keep q xs) ≡ none
  unfolding find keep
  find-keep_dropped [] h = refl
  find-keep_dropped (x ∷ xs) (h, hs) = ground (arith, h, find-keep_dropped xs hs)

pub any-All_none {ℓ} :
    {A : Type ℓ} (p : A → Bool) (xs : List A) → All (λ x. p x ≡ false) xs → any p xs ≡ false
unfolding any
any-All_none p [] h = refl
any-All_none p (x ∷ xs) (h, hs) = ground (arith, any-All_none p xs hs)

pub count-any {ℓ} : {A : Type ℓ} (p : A → Bool) (xs : List A) → any p xs ≡ false → count p xs ≡ 0
unfolding any count
count-any p [] h = refl
count-any p (x ∷ xs) h = ground (arith, count-any p xs)

pub count_zero-All {ℓ} :
    {A : Type ℓ} (p : A → Bool) (xs : List A) → count p xs ≤ 0 → All (λ x. p x ≡ false) xs
unfolding count
count_zero-All p [] h = tt
count_zero-All p (x ∷ xs) h = (ground arith, count_zero-All p xs (ground arith))

-- The one row that fits.
pub found-only :
    {A : Type 0} (p : A → Bool) (xs : List A) (a : A)
    → find p xs ≡ some a
    → count p xs ≤ 1
    → All (λ x. p x ≡ true → a ≡ x) xs
unfolding find count
found-only p [] a e h = tt
found-only p (x ∷ xs) a e h = elim (Bool-cases (p x)) [
  | inl fits ↦ (
    (λ _. ground arith),
    All-mono (λ x. p x ≡ false) (λ x. p x ≡ true → a ≡ x) (λ y off on. ground arith) xs
        (count_zero-All p xs (ground arith)),
  )
  | inr off ↦ ((λ on. ground arith), found-only p xs a (ground arith) (ground arith))
]

pub All-kept {ℓ} : {A : Type ℓ} (p : A → Bool) (xs : List A) → All (λ a. p a ≡ true) (keep p xs)
unfolding keep
All-kept p [] = tt
All-kept p (x ∷ xs) = elim (Bool-cases (p x)) [
  | inl fits ↦ rw fits (fits, All-kept p xs)
  | inr not_fits ↦ rw not_fits (All-kept p xs)
]

pub All-reverse_aux {ℓ κ} :
    {A : Type ℓ} (P : A → Type κ) (xs ys : List A) → All P xs → All P ys → All P (reverse_aux xs ys)
All-reverse_aux P [] ys h k = k
All-reverse_aux P (x ∷ xs) ys h k = All-reverse_aux P xs (x ∷ ys) h.1 (h.0, k)

pub update-reverse_aux {ℓ} :
    {A : Type ℓ} (p : A → Bool) (f : A → A) (xs ys : List A)
    → reverse_aux (update p f xs) (update p f ys) ≡ update p f (reverse_aux xs ys)
unfolding update
update-reverse_aux p f [] ys = refl
update-reverse_aux p f (x ∷ xs) ys = update-reverse_aux p f xs (x ∷ ys)
