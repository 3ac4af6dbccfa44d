-- ===== src/Domain/Username/Policy.antt =====
-- username.ts: the checks accept exactly the usernames that the policy describes.
use pookie_chat.Prelude.{
  ◌==◌, length, any, All, ℕ, ◌≤◌, ◌≡◌, refl, ◌≢◌, ◌↔◌, ◌⊎◌, inl, Bool, true, false, none, [], ◌∷◌,
  arith,
}
use pookie_chat.Domain.Text.{Text, is_space, is_lower, is_digit}
use pookie_chat.Domain.Username.{
  groups, username_shape, ends_with_alnum, double_underscore, validate_username,
}

-- A letter, a digit or an underscore.
abbrev pub IsAllowed : ℕ → Type 0
IsAllowed c = (is_lower c ≡ true) ⊎ (is_digit c ≡ true) ⊎ (c ≡ b'_')

-- No two underscores stand side by side, and the last one is no underscore.
abbrev pub IsSpaced : Text → Type 0
IsSpaced [] = Unit
IsSpaced (c ∷ []) = c ≢ b'_'
IsSpaced (c ∷ d ∷ s) = ¬ ((c ≡ b'_') × (d ≡ b'_')) × IsSpaced (d ∷ s)

abbrev pub IsHead : Text → Type 0
IsHead [] = ⊥
IsHead (c ∷ s) = is_lower c ≡ true

-- The rules as the file states them.
pub record IsUsername (s : Text) : Type 0 where
  pub long_enough : 3 ≤ length s
  pub short_enough : length s ≤ 30
  pub letter_first : IsHead s
  pub allowed : All IsAllowed s
  pub spaced : IsSpaced s

groups_sound : (o : Bool) (s : Text) → groups o s ≡ true → All IsAllowed s
unfolding groups
groups_sound o [] h = tt
groups_sound o (c ∷ s) h = ground (arith, groups_sound false s, groups_sound true s)

-- The shape accepts what the rules describe; behind an underscore no second one may follow.
groups_complete :
    (o : Bool) (c : ℕ) (s : Text)
    → All IsAllowed (c ∷ s)
    → IsSpaced (c ∷ s)
    → (o ≡ false) ⊎ (c ≢ b'_')
    → groups o (c ∷ s) ≡ true
unfolding groups
groups_complete o c [] a h k = ground arith
groups_complete o c (d ∷ s) a h k =
    ground (arith, groups_complete false d s a.1 h.1 (inl refl), groups_complete true d s a.1 h.1)

IsSpaced-sound :
    (c : ℕ) (s : Text)
    → ends_with_alnum (c ∷ s) ≡ true
    → double_underscore (c ∷ s) ≡ false
    → IsSpaced (c ∷ s)
unfolding ends_with_alnum double_underscore
IsSpaced-sound c [] e d = ground arith
IsSpaced-sound c (x ∷ s) e d = (ground arith, IsSpaced-sound x s (ground arith) (ground arith))

ends_complete :
    (c : ℕ) (s : Text) → All IsAllowed (c ∷ s) → IsSpaced (c ∷ s) → ends_with_alnum (c ∷ s) ≡ true
unfolding ends_with_alnum
ends_complete c [] a h = ground arith
ends_complete c (x ∷ s) a h = ends_complete x s a.1 h.1

double_complete : (s : Text) → IsSpaced s → double_underscore s ≡ false
unfolding double_underscore
double_complete [] h = refl
double_complete (c ∷ []) h = refl
double_complete (c ∷ d ∷ s) h = ground (arith, double_complete (d ∷ s) h.1)

allowed_no_at : (s : Text) → All IsAllowed s → any (λ c. c == b'@') s ≡ false
unfolding any
allowed_no_at [] a = refl
allowed_no_at (c ∷ s) a = ground (arith, allowed_no_at s a.1)

allowed_not_space : (c : ℕ) → IsAllowed c → is_space c ≡ false
unfolding is_space
allowed_not_space c a = ground arith

allowed_no_space : (s : Text) → All IsAllowed s → any is_space s ≡ false
unfolding any
allowed_no_space [] a = refl
allowed_no_space (c ∷ s) a = rw (allowed_not_space c a.0) (allowed_no_space s a.1)

IsUsername-sound : (s : Text) → validate_username s ≡ none → IsUsername s
unfolding validate_username username_shape
IsUsername-sound [] h = cc
IsUsername-sound (c ∷ s) h = record {
  long_enough = ground arith;
  short_enough = ground arith;
  letter_first = ground arith;
  allowed = ground (arith, groups_sound false s);
  spaced = IsSpaced-sound c s (ground arith) (ground arith);
}

IsUsername-complete : (s : Text) → IsUsername s → validate_username s ≡ none
unfolding validate_username username_shape
IsUsername-complete [] u = absurd u.letter_first
IsUsername-complete (c ∷ []) u = absurd (let h = u.long_enough in omega arith)
IsUsername-complete (c ∷ d ∷ s) u = ground (
  arith,
  allowed_no_at (c ∷ d ∷ s) u.allowed,
  allowed_no_space (c ∷ d ∷ s) u.allowed,
  ends_complete c (d ∷ s) u.allowed u.spaced,
  double_complete (c ∷ d ∷ s) u.spaced,
  groups_complete false d s u.allowed.1 u.spaced.1 (inl refl),
)

-- A username passes the chain of checks exactly if it meets the policy: 3 to 30 characters, a
-- letter first, only letters, digits and underscores, and no underscore last or next to another.
pub IsUsername-iff : (s : Text) → (validate_username s ≡ none) ↔ IsUsername s
IsUsername-iff s = (IsUsername-sound s, IsUsername-complete s)
