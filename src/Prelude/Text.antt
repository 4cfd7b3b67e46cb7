-- ===== src/Prelude/Text.antt =====
-- The functions of Go's `strings` that the program calls, on texts that are valid UTF-8: a text is
-- the sequence of its code points.
use Prim.Native.Nat.{ℕ, Ordering}
use Prim.Native.Char.{Char, char, code}
use Prim.Native.String.{String, compare}
use mathlib.Core.Bool.{Bool, true, false, ◌&&◌, ◌||◌}
use text.Mathlib.Text.{starts_with}
use ai_web_testing.Prelude.Tests.{leb, nat_eq, if◌then◌else◌}

abbrev space : Char
space = char 32 tt

abbrev between : ℕ → ℕ → ℕ → Bool
between lo hi n = leb lo n && leb n hi

-- unicode.IsSpace: the code points with the property White_Space.
pub is_space : Char → Bool
is_space c =
    let n = code c in
    between 9 13 n
    || nat_eq n 32
    || nat_eq n 0x85
    || nat_eq n 0xA0
    || nat_eq n 0x1680
    || between 0x2000 0x200a n
    || between 0x2028 0x2029 n
    || nat_eq n 0x202f
    || nat_eq n 0x205f
    || nat_eq n 0x3000

trim_left : String → String
trim_left String.[] = String.[]
trim_left (String.◌∷◌ c s) = elim (is_space c) [ true ↦ trim_left s | false ↦ String.◌∷◌ c s ]

abbrev is_empty : String → Bool
is_empty String.[] = true
is_empty (String.◌∷◌ c s) = false

trim_right : String → String
trim_right String.[] = String.[]
trim_right (String.◌∷◌ c s) =
    let rest = trim_right s in if is_empty rest && is_space c then String.[] else String.◌∷◌ c rest

-- strings.TrimSpace
unfoldable pub trim_space : String → String
unfolding trim_left trim_right is_space
trim_space s = trim_right (trim_left s)

-- strings.Contains
unfoldable pub contains : String → String → Bool
contains String.[] t = starts_with String.[] t
contains (String.◌∷◌ c s) t = starts_with (String.◌∷◌ c s) t || contains s t

-- The words of a text, one space between two: `started` if a word came before, `gap` if a space did
-- since then.
words : Bool → Bool → String → String
words started gap String.[] = String.[]
words started gap (String.◌∷◌ c s) = elim (is_space c) [
  | true ↦ words started true s
  | false ↦ elim (started && gap) [
    | true ↦ String.◌∷◌ space (String.◌∷◌ c (words true false s))
    | false ↦ String.◌∷◌ c (words true false s)
  ]
]

-- strings.Join(strings.Fields(s), " ")
unfoldable pub join_fields : String → String
unfolding words is_space
join_fields s = words false false s

-- strings.Map, and so strings.ToLower from the case table of one rune
unfoldable pub map_runes : (Char → Char) → String → String
map_runes f String.[] = String.[]
map_runes f (String.◌∷◌ c s) = String.◌∷◌ (f c) (map_runes f s)

-- sort.Strings: the order of the bytes is the order of the code points
abbrev pub text_le : String → String → Bool
text_le s t = elim (compare s t) [ Ordering.gt ↦ false | _ ↦ true ]
