-- ===== src/Text.antt =====
-- Python's `str` methods that the program walks texts with. The tables of white space and of line
-- boundaries are those of `str.isspace` and `str.splitlines`.
use Prim.Native.Char.{Char, code}
use Prim.Native.String.{◌++◌ as ◌<>◌}
use text.Mathlib.Text.{starts_with}
use bmu.Prelude.{ℕ, zero, suc, ◌/◌, ◌%◌, String, Bool, true, false, ◌&&◌, ◌||◌, not, List, [], ◌∷◌}
use bmu.Prelude.{Option, none, some, ltb, leb, if◌then◌else◌, ◌==◌, nat_eq, string_eq}

-- `not s`
abbrev pub is_empty : String → Bool
is_empty String.[] = true
is_empty (String.◌∷◌ c s) = false

-- `s or None`
abbrev pub nonempty : String → Option String
nonempty String.[] = none
nonempty (String.◌∷◌ c s) = some (String.◌∷◌ c s)

-- `if s`, for a text that may be `None`.
abbrev pub truthy : Option String → Bool
truthy none = false
truthy (some s) = not (is_empty s)

unfoldable pub is_space : ℕ → Bool
is_space c =
    leb 9 c && leb c 13
    || leb 28 c && leb c 32
    || c == 0x85
    || c == 0xa0
    || c == 0x1680
    || leb 0x2000 c && leb c 0x200a
    || c == 0x2028
    || c == 0x2029
    || c == 0x202f
    || c == 0x205f
    || c == 0x3000

unfoldable pub is_break : ℕ → Bool
is_break c = leb 10 c && leb c 13 || leb 28 c && leb c 30 || c == 0x85 || c == 0x2028 || c == 0x2029

unfoldable pub rstrip : String → String
unfolding is_space
rstrip String.[] = ""
rstrip (String.◌∷◌ c s) =
    let rest = rstrip s in if is_empty rest && is_space (code c) then "" else String.◌∷◌ c rest

unfoldable pub lstrip : String → String
unfolding is_space
lstrip String.[] = ""
lstrip (String.◌∷◌ c s) = let rest = lstrip s in if is_space (code c) then rest else String.◌∷◌ c s

unfoldable pub strip : String → String
unfolding lstrip rstrip
strip s = lstrip (rstrip s)

-- A character in front of the first line.
abbrev pub push : Char → List String → List String
push c [] = String.◌∷◌ c "" ∷ []
push c (l ∷ ls) = String.◌∷◌ c l ∷ ls

-- The flag says that the character before was a carriage return, with which a line feed is one
-- boundary.
unfoldable pub lines_from : Bool → String → List String
unfolding is_break
lines_from after_cr String.[] = []
lines_from after_cr (String.◌∷◌ c s) =
    let rest = lines_from (code c == 13) s in
    if after_cr && code c == 10 then rest else if is_break (code c) then "" ∷ rest else push c rest

unfoldable pub splitlines : String → List String
unfolding lines_from
splitlines = lines_from false

-- `sep.join(parts)`
unfoldable pub join : String → List String → String
join sep [] = ""
join sep (p ∷ []) = p
join sep (p ∷ q ∷ ps) = p <> (sep <> join sep (q ∷ ps))

-- `needle in hay`
unfoldable pub has_infix : String → String → Bool
has_infix needle String.[] = starts_with "" needle
has_infix needle (String.◌∷◌ c s) = starts_with (String.◌∷◌ c s) needle || has_infix needle s

abbrev digit : ℕ → String
digit d =
    if d == 0
    then "0"
    else if d == 1
    then "1"
    else if d == 2
    then "2"
    else if d == 3
    then "3"
    else if d == 4
    then "4"
    else if d == 5
    then "5"
    else if d == 6
    then "6"
    else if d == 7
    then "7"
    else if d == 8
    then "8"
    else "9"

-- The fuel is one more than the number, and a number has no more digits than that.
decimal_from : ℕ → ℕ → String
decimal_from zero n = ""
decimal_from (suc fuel) n =
    let front = decimal_from fuel (n / 10) in if ltb n 10 then digit n else front <> digit (n % 10)

-- `str(n)`
unfoldable pub decimal : ℕ → String
unfolding decimal_from
decimal n = decimal_from (suc n) n

-- `s.split(sep, 1)` at a character, if it occurs.
unfoldable pub split_once : ℕ → String → Option (String × String)
split_once sep String.[] = none
split_once sep (String.◌∷◌ c s) =
    let rest = split_once sep s in
    if code c == sep
    then some ("", s)
    else elim rest [ none ↦ none | some (a, b) ↦ some (String.◌∷◌ c a, b) ]

-- What `read_text` makes of a text: each line ending is one line feed.
unfoldable pub newlines_from : Bool → String → String
newlines_from after_cr String.[] = ""
newlines_from after_cr (String.◌∷◌ c s) =
    let rest = newlines_from (code c == 13) s in
    if after_cr && code c == 10
    then rest
    else if code c == 13
    then String.◌∷◌ "\n" rest
    else String.◌∷◌ c rest

unfoldable pub universal_newlines : String → String
unfolding newlines_from
universal_newlines = newlines_from false
