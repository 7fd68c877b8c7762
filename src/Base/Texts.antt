-- ===== src/Base/Texts.antt =====
-- Text as the program puts it together: `str(n)` of a natural number, f-strings, joins, and `or`.
use Prim.Native.Nat.{ℕ, zero, suc, ◌+◌, ◌-◌, ◌*◌, ◌/◌, ◌%◌}
use Prim.Native.String.{String, ◌++◌, slice}
use Prim.Native.Char.{Char, code}
use mathlib.Core.Bool.{Bool, true, not, ◌&&◌, ◌||◌}
use mathlib.Core.Option.{Option, none, some}
use mathlib.Core.List.{List, [], ◌∷◌}
use mathlib.Core.Path.{◌≡◌, refl}
use b8mon.Base.Tests.{ltb, leb, nat_eq, string_eq, ◌==◌, if◌then◌else◌}

digit : ℕ → String
digit d =
    if d == 0
    then "0"
    else if d == 1
    then "1"
    else if d == 2
    then "2"
    else if d == 3
    then "3"
    else if d == 4
    then "4"
    else if d == 5
    then "5"
    else if d == 6
    then "6"
    else if d == 7
    then "7"
    else if d == 8
    then "8"
    else "9"

decimal_from : ℕ → ℕ → String
decimal_from zero n = ""
decimal_from (suc fuel) n =
    let more = decimal_from fuel (n / 10) ++ digit (n % 10) in if ltb n 10 then digit n else more

-- a number has fewer digits than it has predecessors, so that many rounds are enough
pub decimal : ℕ → String
unfolding decimal_from digit
decimal n = decimal_from (suc n) n

-- an f-string, as the list of its parts
abbrev pub f_string : List String → String
f_string [] = ""
f_string (part ∷ parts) = part ++ f_string parts

-- `sep.join(parts)`
abbrev pub join : String → List String → String
join sep [] = ""
join sep (part ∷ []) = part
join sep (part ∷ next ∷ parts) = part ++ (sep ++ join sep (next ∷ parts))

-- `text or d`: an empty text counts as missing
abbrev pub text_or : Option String → String → String
text_or none d = d
text_or (some t) d = if t == "" then d else t

-- `n or d`: 0 counts as missing
abbrev pub positive_or : Option ℕ → ℕ → ℕ
positive_or none d = d
positive_or (some zero) d = d
positive_or (some (suc n)) d = suc n

-- Text methods, on ASCII text.
abbrev is_space : ℕ → Bool
is_space c = leb 9 c && leb c 13 || leb 28 c && leb c 32

strip_left : String → String
strip_left String.[] = ""
strip_left (String.◌∷◌ c s) =
    let rest = strip_left s in if is_space (code c) then rest else String.◌∷◌ c s

strip_right : String → String
strip_right String.[] = ""
strip_right (String.◌∷◌ c s) =
    let rest = strip_right s in if is_space (code c) && rest == "" then "" else String.◌∷◌ c rest

-- `text.strip()`
unfoldable pub strip : String → String
unfolding strip_left strip_right
strip s = strip_right (strip_left s)

abbrev into_first : Char → List String → List String
into_first c [] = (String.◌∷◌ c "") ∷ []
into_first c (part ∷ parts) = (String.◌∷◌ c part) ∷ parts

-- `text.split(sep)` for a separator of one character
unfoldable pub split : ℕ → String → List String
split sep String.[] = "" ∷ []
split sep (String.◌∷◌ c s) =
    let parts = split sep s in if code c == sep then "" ∷ parts else into_first c parts

all_digits : String → Bool
all_digits String.[] = true
all_digits (String.◌∷◌ c s) = leb 48 (code c) && leb (code c) 57 && all_digits s

-- `text.isdigit()`
unfoldable pub is_digits : String → Bool
unfolding all_digits
is_digits s = not (s == "") && all_digits s

-- the value of a text of digits
abbrev pub digits_value : ℕ → String → ℕ
digits_value n String.[] = n
digits_value n (String.◌∷◌ c s) = digits_value (n * 10 + (code c - 48)) s

-- the letter of the alphabet at a place
abbrev letter : String → ℕ → String
letter alphabet k = slice alphabet k (k + 1)

-- `text.lower()` and `text.upper()`
unfoldable pub lower : String → String
lower String.[] = ""
lower (String.◌∷◌ c s) =
    (if leb 65 (code c) && leb (code c) 90
      then letter "abcdefghijklmnopqrstuvwxyz" (code c - 65)
      else String.◌∷◌ c "")
    ++ lower s

pub upper : String → String
upper String.[] = ""
upper (String.◌∷◌ c s) =
    (if leb 97 (code c) && leb (code c) 122
      then letter "ABCDEFGHIJKLMNOPQRSTUVWXYZ" (code c - 97)
      else String.◌∷◌ c "")
    ++ upper s

-- `text[:n]`
abbrev pub prefix : ℕ → String → String
prefix zero s = ""
prefix (suc n) String.[] = ""
prefix (suc n) (String.◌∷◌ c s) = String.◌∷◌ c (prefix n s)

-- the number of characters, and `text[-n:]`
abbrev pub char_count : String → ℕ
char_count String.[] = 0
char_count (String.◌∷◌ c s) = suc (char_count s)

abbrev pub without : ℕ → String → String
without zero s = s
without (suc n) String.[] = ""
without (suc n) (String.◌∷◌ c s) = without n s

abbrev pub suffix : ℕ → String → String
suffix n s = without (char_count s - n) s

text_test : split 46 (lower (strip " A.b  ")) ≡ "a" ∷ "b" ∷ []
unfolding split lower strip
text_test = refl
