-- ===== src/Domain/Account/Text.antt =====
-- `strings.TrimSpace`: the white space of Unicode is cut off at both ends.
use Prim.Native.Char.{code}
use Prim.Native.String.{◌∷◌, []}
use eventledger.Prelude.{ℕ, Bool, ◌&&◌, ◌||◌, String, leb, ◌==◌, if◌then◌else◌, str_eq}

-- `unicode.IsSpace`
abbrev is_space : ℕ → Bool
is_space c =
    (leb 9 c && leb c 13)
    || c == 32
    || c == 0x85
    || c == 0xa0
    || c == 0x1680
    || (leb 0x2000 c && leb c 0x200a)
    || c == 0x2028
    || c == 0x2029
    || c == 0x202f
    || c == 0x205f
    || c == 0x3000

trim_left : String → String
trim_left [] = []
trim_left (c ∷ s) = let rest = trim_left s in if is_space (code c) then rest else c ∷ s

trim_right : String → String
trim_right [] = []
trim_right (c ∷ s) =
    let rest = trim_right s in if str_eq rest "" && is_space (code c) then [] else c ∷ rest

unfoldable pub trim_space : String → String
unfolding trim_left trim_right
trim_space s = trim_right (trim_left s)
