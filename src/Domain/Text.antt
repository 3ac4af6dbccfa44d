-- ===== src/Domain/Text.antt =====
-- Texts as the program handles them: lists of UTF-16 code units, with the parts of
-- `String.prototype` that the sources of apps/backend/src/domain call.
use pookie_chat.Prelude.{leb, ◌==◌, if◌then◌else◌, ℕ, Bool, ◌&&◌, ◌||◌, List, [], ◌∷◌}
use mathlib.Core.List.{reverse}

abbrev pub Text : Type 0
Text = List ℕ

-- WhiteSpace and LineTerminator of ECMAScript, which `trim` strips and `\s` matches.
unfoldable pub is_space : ℕ → Bool
is_space c =
    (leb 9 c && leb c 13)
    || c == 32
    || c == 160
    || c == 0x1680
    || (leb 0x2000 c && leb c 0x200a)
    || c == 0x2028
    || c == 0x2029
    || c == 0x202f
    || c == 0x205f
    || c == 0x3000
    || c == 0xfeff

trim_start : Text → Text
trim_start [] = []
trim_start (c ∷ s) = let rest = trim_start s in if is_space c then rest else c ∷ s

unfoldable pub trim : Text → Text
unfolding trim_start is_space
trim s = reverse (trim_start (reverse (trim_start s)))

abbrev pub is_lower : ℕ → Bool
is_lower c = leb b'a' c && leb c b'z'

abbrev pub is_upper : ℕ → Bool
is_upper c = leb b'A' c && leb c b'Z'

abbrev pub is_digit : ℕ → Bool
is_digit c = leb b'0' c && leb c b'9'
