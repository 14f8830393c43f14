-- ===== src/Base/Text.antt =====
-- Text functions of Go's standard library, over the native strings.
pub mod Order
use Prim.Native.Nat.{ℕ, zero, suc, ◌/◌, ◌%◌, Ordering}
use Prim.Native.Char.{code, nul}
use Prim.Native.String.{String, ◌++◌ as append, compare}
use mathlib.Core.List.{List, [], ◌∷◌}
use mathlib.Core.Bool.{Bool, true, false, ◌&&◌, ◌||◌}
use tspack.Base.Tests.{ltb, leb, ◌==◌, if◌then◌else◌}

-- `unicode.IsSpace`.
unfoldable pub is_space : ℕ → Bool
is_space c =
    (leb 9 c && leb c 13)
    || c == 32
    || c == 133
    || c == 160
    || c == 5760
    || (leb 8192 c && leb c 8202)
    || c == 8232
    || c == 8233
    || c == 8239
    || c == 8287
    || c == 12288

-- `strings.TrimSpace(s) == ""`.
unfoldable pub is_blank : String → Bool
unfolding is_space
is_blank String.[] = true
is_blank (String.◌∷◌ c s) = is_space (code c) && is_blank s

abbrev digit : ℕ → String
digit n =
    if n == 0
    then "0"
    else if n == 1
    then "1"
    else if n == 2
    then "2"
    else if n == 3
    then "3"
    else if n == 4
    then "4"
    else if n == 5
    then "5"
    else if n == 6
    then "6"
    else if n == 7
    then "7"
    else if n == 8
    then "8"
    else "9"

-- The decimal digits of a number below 10 ^ fuel.
decimal_digits : ℕ → ℕ → String
decimal_digits zero n = ""
decimal_digits (suc fuel) n =
    let front = decimal_digits fuel (n / 10) in
    if ltb n 10 then digit n else append front (digit (n % 10))

-- `%d`. A number has at most as many digits as it counts, and one more.
unfoldable pub decimal : ℕ → String
unfolding decimal_digits
decimal n = decimal_digits (suc n) n

-- `%04d`.
unfoldable pub decimal_04 : ℕ → String
unfolding decimal
decimal_04 n =
    if ltb n 10
    then append "000" (decimal n)
    else if ltb n 100
    then append "00" (decimal n)
    else if ltb n 1000
    then append "0" (decimal n)
    else decimal n

-- `a < b` on Go strings, byte by byte.
abbrev pub string_lt : String → String → Bool
string_lt a b = elim (compare a b) [ Ordering.lt ↦ true | _ ↦ false ]

abbrev pub string_le : String → String → Bool
string_le a b = elim (compare a b) [ Ordering.gt ↦ false | _ ↦ true ]

unfoldable pub insert : String → List String → List String
insert a [] = a ∷ []
insert a (b ∷ rest) = if string_le a b then a ∷ b ∷ rest else b ∷ insert a rest

-- `sort.Strings`.
unfoldable pub sort_strings : List String → List String
unfolding insert
sort_strings [] = []
sort_strings (a ∷ rest) = insert a (sort_strings rest)

-- `strings.TrimLeftFunc(s, unicode.IsSpace)`.
unfoldable pub trim_start : String → String
unfolding is_space
trim_start String.[] = ""
trim_start (String.◌∷◌ c s) =
    let rest = trim_start s in if is_space (code c) then rest else String.◌∷◌ c s

-- `strings.TrimRightFunc(s, unicode.IsSpace)`.
unfoldable pub trim_end : String → String
unfolding is_blank
trim_end String.[] = ""
trim_end (String.◌∷◌ c s) =
    let rest = trim_end s in if is_blank (String.◌∷◌ c s) then "" else String.◌∷◌ c rest

-- `strings.TrimSpace`.
unfoldable pub trim_space : String → String
unfolding trim_start trim_end
trim_space s = trim_end (trim_start s)

-- A text of one NUL, which joins the parts of a key.
abbrev pub join_nul : String → String → String
join_nul a b = append a (append (String.◌∷◌ nul "") b)
