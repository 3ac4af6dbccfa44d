-- ===== src/Domain/Username.antt =====
-- apps/backend/src/domain/username.ts: the username policy and the cooldown of changes.
pub mod Policy
use pookie_chat.Prelude.{
  ltb, ◌==◌, if◌then◌else◌, length, any, ℕ, ◌+◌, ◌*◌, String, Bool, true, false, not, ◌&&◌, ◌||◌,
  Option, none, some, [], ◌∷◌, ◌++◌,
}
use pookie_chat.Domain.Text.{Text, is_space, trim, is_lower, is_upper, is_digit}

abbrev pub username_min_length : ℕ
username_min_length = 3

abbrev pub username_max_length : ℕ
username_max_length = 30

-- `String.prototype.toLowerCase`, given the lower-case form of the code units outside ASCII.
unfoldable pub to_lower : (ℕ → Text) → Text → Text
to_lower other [] = []
to_lower other (c ∷ s) =
    (if is_upper c then (c + 32) ∷ [] else if ltb c 128 then c ∷ [] else other c)
    ++ to_lower other s

unfoldable pub normalize_username : (ℕ → Text) → Text → Text
unfolding to_lower
normalize_username other raw = to_lower other (trim raw)

abbrev pub is_alnum : ℕ → Bool
is_alnum c = is_lower c || is_digit c

-- The rest of `/^[a-z][a-z0-9]*(?:_[a-z0-9]+)*$/`, behind an underscore or not.
pub groups : Bool → Text → Bool
groups opened [] = not opened
groups opened (c ∷ s) =
    if is_alnum c
    then groups false s
    else elim (c == b'_' && not opened) [ true ↦ groups true s | false ↦ false ]

pub username_shape : Text → Bool
unfolding groups
username_shape [] = false
username_shape (c ∷ s) = is_lower c && groups false s

abbrev pub starts_with_letter : Text → Bool
starts_with_letter [] = false
starts_with_letter (c ∷ s) = is_lower c

-- `/[a-z0-9]$/`
pub ends_with_alnum : Text → Bool
ends_with_alnum [] = false
ends_with_alnum (c ∷ []) = is_alnum c
ends_with_alnum (c ∷ d ∷ s) = ends_with_alnum (d ∷ s)

-- `includes('__')`
pub double_underscore : Text → Bool
double_underscore [] = false
double_underscore (c ∷ []) = false
double_underscore (c ∷ d ∷ s) = (c == b'_' && d == b'_') || double_underscore (d ∷ s)

-- `none` is `{ valid: true }`, `some` the error.
pub validate_username : Text → Option String
unfolding username_shape ends_with_alnum double_underscore
validate_username value =
    if ltb (length value) username_min_length || ltb username_max_length (length value)
    then some "Username must be 3–30 characters"
    else if any (λ c. c == b'@') value
    then some "Username cannot contain \"@\""
    else if any is_space value
    then some "Username cannot contain spaces"
    else if not (starts_with_letter value)
    then some "Username must start with a letter"
    else if not (ends_with_alnum value)
    then some "Username must end with a letter or number"
    else if double_underscore value
    then some "Username cannot contain consecutive underscores"
    else if not (username_shape value)
    then some "Username can contain only letters, numbers, and underscores"
    else none

abbrev pub username_change_cooldown_ms : ℕ
username_change_cooldown_ms = 90 * 24 * 60 * 60 * 1000

pub next_username_change_allowed_at : Option ℕ → Option ℕ
next_username_change_allowed_at none = none
next_username_change_allowed_at (some changed_at) = some (changed_at + username_change_cooldown_ms)

abbrev pub is_after : ℕ → Option ℕ → Bool
is_after now none = false
is_after now (some at) = ltb now at

unfoldable is_username_change_cooling_down : Option ℕ → ℕ → Bool
unfolding next_username_change_allowed_at
is_username_change_cooling_down changed_at now =
    is_after now (next_username_change_allowed_at changed_at)
