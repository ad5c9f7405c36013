-- ===== src/Prelude/Text.antt =====
-- Text: what the program uses of Go's strings, strconv and fmt packages on whole texts.
use Prim.Native.Nat.{ℕ, zero, suc, ◌/◌, ◌%◌}
use Prim.Native.Char.{Char, code}
use Prim.Native.String.{String, ◌++◌}
use mathlib.Core.Path.{◌≡◌, refl}
use mathlib.Core.Bool.{Bool, true, false, ◌&&◌, ◌||◌}
use mathlib.Core.Option.{Option, none, some}
use mathlib.Core.List.{List, [], ◌∷◌}
use text.Mathlib.Text.{◌==◌}
use cognitiveosd.Prelude.Tests.{ltb, leb, eqb, if◌then◌else◌}

-- `fmt.Sprintf("%d", n)`: the decimal digits of a number.
digit : ℕ → String
digit d =
    if ltb d 1
    then "0"
    else if ltb d 2
    then "1"
    else if ltb d 3
    then "2"
    else if ltb d 4
    then "3"
    else if ltb d 5
    then "4"
    else if ltb d 6
    then "5"
    else if ltb d 7
    then "6"
    else if ltb d 8
    then "7"
    else if ltb d 9
    then "8"
    else "9"

-- Each round drops a digit, so the number itself is fuel enough.
decimal_fuel : ℕ → ℕ → String
decimal_fuel zero n = digit n
decimal_fuel (suc f) n =
    let rest = decimal_fuel f (n / 10) in if ltb n 10 then digit n else rest ++ digit (n % 10)

unfoldable pub decimal : ℕ → String
unfolding decimal_fuel digit
decimal n = decimal_fuel n n

-- `strings.Join`
abbrev pub join : String → List String → String
join sep [] = ""
join sep (s ∷ []) = s
join sep (s ∷ t ∷ ss) = s ++ sep ++ join sep (t ∷ ss)

-- unicode.IsSpace
abbrev pub is_space : ℕ → Bool
is_space c =
    (leb 9 c && leb c 13)
    || eqb c 32
    || eqb c 0x85
    || eqb c 0xa0
    || eqb c 0x1680
    || (leb 0x2000 c && leb c 0x200a)
    || eqb c 0x2028
    || eqb c 0x2029
    || eqb c 0x202f
    || eqb c 0x205f
    || eqb c 0x3000

unfoldable pub trim_left : String → String
trim_left String.[] = ""
trim_left (String.◌∷◌ c s) =
    let rest = trim_left s in if is_space (code c) then rest else String.◌∷◌ c s

unfoldable pub trim_right : String → String
trim_right String.[] = ""
trim_right (String.◌∷◌ c s) =
    let rest = trim_right s in if is_space (code c) && rest == "" then "" else String.◌∷◌ c rest

-- `strings.TrimSpace`
unfoldable pub trim_space : String → String
unfolding trim_left trim_right
trim_space s = trim_left (trim_right s)

-- The characters whose lower case is an ASCII letter: A to Z, U+0130 and U+212A. `strings.ToLower`
-- changes other letters too, and none of them into ASCII; they are left alone here.
abbrev lower : ℕ → Char → Char
lower n c =
    if eqb n b'A'
    then "a"
    else if eqb n b'B'
    then "b"
    else if eqb n b'C'
    then "c"
    else if eqb n b'D'
    then "d"
    else if eqb n b'E'
    then "e"
    else if eqb n b'F'
    then "f"
    else if eqb n b'G'
    then "g"
    else if eqb n b'H'
    then "h"
    else if eqb n b'I'
    then "i"
    else if eqb n b'J'
    then "j"
    else if eqb n b'K'
    then "k"
    else if eqb n b'L'
    then "l"
    else if eqb n b'M'
    then "m"
    else if eqb n b'N'
    then "n"
    else if eqb n b'O'
    then "o"
    else if eqb n b'P'
    then "p"
    else if eqb n b'Q'
    then "q"
    else if eqb n b'R'
    then "r"
    else if eqb n b'S'
    then "s"
    else if eqb n b'T'
    then "t"
    else if eqb n b'U'
    then "u"
    else if eqb n b'V'
    then "v"
    else if eqb n b'W'
    then "w"
    else if eqb n b'X'
    then "x"
    else if eqb n b'Y'
    then "y"
    else if eqb n b'Z'
    then "z"
    else if eqb n 0x130
    then "i"
    else if eqb n 0x212a
    then "k"
    else c

unfoldable pub to_lower : String → String
to_lower String.[] = ""
to_lower (String.◌∷◌ c s) = String.◌∷◌ (lower (code c) c) (to_lower s)

-- `strings.HasPrefix`
abbrev pub has_prefix : String → String → Bool
has_prefix s String.[] = true
has_prefix String.[] (String.◌∷◌ d t) = false
has_prefix (String.◌∷◌ c s) (String.◌∷◌ d t) = eqb (code c) (code d) && has_prefix s t

-- `strings.Split` at a separator of one character: the part that runs on, and those behind it.
split_from : ℕ → String → String × List String
split_from sep String.[] = ("", [])
split_from sep (String.◌∷◌ c s) =
    let (part, parts) = split_from sep s in
    if eqb (code c) sep then ("", part ∷ parts) else (String.◌∷◌ c part, parts)

unfoldable pub split : ℕ → String → List String
unfolding split_from
split sep s = let (part, parts) = split_from sep s in part ∷ parts

-- `strings.Split(s, sep)` at the first separator only: `SplitN(s, sep, 2)`.
unfoldable pub split_first : ℕ → String → String × Option String
split_first sep String.[] = ("", none)
split_first sep (String.◌∷◌ c s) =
    let (part, rest) = split_first sep s in
    if eqb (code c) sep then ("", some s) else (String.◌∷◌ c part, rest)

text_tests :
    (trim_space " a b\n" ≡ "a b")
    × (to_lower "SeCuRity!" ≡ "security!")
    × (decimal 1042 ≡ "1042")
    × (split b'.' "a.b." ≡ "a" ∷ "b" ∷ "" ∷ [])
    × (split_first b':' "a:b:c" ≡ ("a", some "b:c"))
unfolding trim_space to_lower decimal split split_first
text_tests = (refl, refl, refl, refl, refl)

-- `strings.HasSuffix`
unfoldable pub has_suffix : String → String → Bool
has_suffix String.[] t = t == ""
has_suffix (String.◌∷◌ c s) t = (String.◌∷◌ c s) == t || has_suffix s t

until_space : String → String
until_space String.[] = ""
until_space (String.◌∷◌ c s) =
    let rest = until_space s in if is_space (code c) then "" else String.◌∷◌ c rest

-- The first of `strings.Fields`, or "" if there is none.
unfoldable pub first_field : String → String
unfolding trim_left until_space
first_field s = until_space (trim_left s)
