-- ===== src/Prelude/Texts.antt =====
-- Texts: decimal digits and the trimming of white space, as Rust's `format!` and `str::trim`.
pub mod Digits
use Prim.Native.Nat.{ℕ, zero, suc, ◌/◌, ◌%◌, ◌+◌, ◌-◌, ◌*◌}
use Prim.Native.Char.{Char, code, len_utf8}
use Prim.Native.String.{String, ◌++◌, count, len, find}
use mathlib.Core.Bool.{Bool, true, false, ◌&&◌, ◌||◌}
use mathlib.Core.Option.{Option, none, some}
use mathlib.Core.List.{List, [], ◌∷◌}
use text.Mathlib.Text.{◌==◌}
use ensurer_v.Prelude.Tests.{ltb, leb, nat_eq, if◌then◌else◌}

digit : ℕ → String
digit n =
    if nat_eq n 0
    then "0"
    else if nat_eq n 1
    then "1"
    else if nat_eq n 2
    then "2"
    else if nat_eq n 3
    then "3"
    else if nat_eq n 4
    then "4"
    else if nat_eq n 5
    then "5"
    else if nat_eq n 6
    then "6"
    else if nat_eq n 7
    then "7"
    else if nat_eq n 8
    then "8"
    else "9"

-- With more fuel than digits.
show_from : ℕ → ℕ → String
unfolding digit
show_from zero n = ""
show_from (suc fuel) n =
    let rest = show_from fuel (n / 10) in if ltb n 10 then digit n else rest ++ digit (n % 10)

-- The decimal numeral of a number; it has at most as many digits as the number plus one.
unfoldable pub show_nat : ℕ → String
unfolding show_from
show_nat n = show_from (n + 1) n

-- The code points with the property White_Space.
abbrev pub is_whitespace : Char → Bool
is_whitespace c =
    leb 9 (code c) && leb (code c) 13
    || nat_eq (code c) 32
    || nat_eq (code c) 0x85
    || nat_eq (code c) 0xa0
    || nat_eq (code c) 0x1680
    || leb 0x2000 (code c) && leb (code c) 0x200a
    || nat_eq (code c) 0x2028
    || nat_eq (code c) 0x2029
    || nat_eq (code c) 0x202f
    || nat_eq (code c) 0x205f
    || nat_eq (code c) 0x3000

unfoldable pub trim_start : String → String
trim_start String.[] = ""
trim_start (String.◌∷◌ c s) = if is_whitespace c then trim_start s else String.◌∷◌ c s

unfoldable pub trim_end : String → String
trim_end String.[] = ""
trim_end (String.◌∷◌ c s) =
    let rest = trim_end s in if rest == "" && is_whitespace c then "" else String.◌∷◌ c rest

unfoldable pub trim : String → String
unfolding trim_start trim_end
trim s = trim_end (trim_start s)

-- Nothing but white space.
unfoldable pub is_blank : String → Bool
unfolding trim
is_blank s = trim s == ""

-- `strip_prefix` of the second text from the first.
unfoldable pub strip_prefix : String → String → Option String
strip_prefix s String.[] = some s
strip_prefix String.[] (String.◌∷◌ d p) = none
strip_prefix (String.◌∷◌ c s) (String.◌∷◌ d p) =
    let rest = strip_prefix s p in if nat_eq (code c) (code d) then rest else none

starts_with : String → String → Bool
starts_with s String.[] = true
starts_with String.[] (String.◌∷◌ d p) = false
starts_with (String.◌∷◌ c s) (String.◌∷◌ d p) = nat_eq (code c) (code d) && starts_with s p

-- Whether the second text occurs in the first.
unfoldable pub contains : String → String → Bool
unfolding starts_with
contains String.[] q = starts_with "" q
contains (String.◌∷◌ c s) q = starts_with (String.◌∷◌ c s) q || contains s q

-- `String::pop`
unfoldable pub drop_last : String → String
drop_last String.[] = ""
drop_last (String.◌∷◌ c String.[]) = ""
drop_last (String.◌∷◌ c (String.◌∷◌ d s)) = String.◌∷◌ c (drop_last (String.◌∷◌ d s))

-- `String::push`
abbrev pub push : String → Char → String
push s c = s ++ String.◌∷◌ c ""

-- The words before the first white space, with those behind it; the first is empty if the text
-- begins with white space.
abbrev cut : Char → List String → List String
cut c [] = String.◌∷◌ c "" ∷ []
cut c (w ∷ ws) = if is_whitespace c then "" ∷ w ∷ ws else String.◌∷◌ c w ∷ ws

pieces : String → List String
pieces String.[] = "" ∷ []
pieces (String.◌∷◌ c s) = cut c (pieces s)

drop_empty : List String → List String
drop_empty [] = []
drop_empty (w ∷ ws) = if w == "" then drop_empty ws else w ∷ drop_empty ws

unfoldable pub split_whitespace : String → List String
unfolding pieces drop_empty
split_whitespace s = drop_empty (pieces s)

abbrev pub is_ascii_digit : Char → Bool
is_ascii_digit c = leb 48 (code c) && leb (code c) 57

-- The value of a text of digits after the value of the digits before it.
unfoldable pub digits_value : ℕ → String → Option ℕ
digits_value acc String.[] = some acc
digits_value acc (String.◌∷◌ c s) =
    let rest = digits_value (acc * 10 + (code c - 48)) s in if is_ascii_digit c then rest else none

-- `parse` of an unsigned integer below the bound, of digits alone (Rust takes a `+` as well).
unfoldable pub parse_below : ℕ → String → Option ℕ
unfolding digits_value
parse_below bound String.[] = none
parse_below bound (String.◌∷◌ c s) = elim (digits_value 0 (String.◌∷◌ c s)) [
  | none ↦ none
  | some n ↦ if ltb n bound then some n else none
]

ends_with_slash : String → Bool
ends_with_slash String.[] = false
ends_with_slash (String.◌∷◌ c String.[]) = nat_eq (code c) 47
ends_with_slash (String.◌∷◌ c (String.◌∷◌ d s)) = ends_with_slash (String.◌∷◌ d s)

-- `Path::join` on Unix: an absolute second path replaces the first.
unfoldable pub join_path : String → String → String
unfolding starts_with ends_with_slash
join_path p q =
    if starts_with q "/" then q else if p == "" || ends_with_slash p then p ++ q else p ++ "/" ++ q

unfoldable pub repeat : String → ℕ → String
repeat s zero = ""
repeat s (suc n) = s ++ repeat s n

-- `{:<width$}` and `{:>width$}`, which count characters.
abbrev pub pad_end : ℕ → String → String
pad_end width s = s ++ repeat " " (width - count s)

abbrev pub pad_start : ℕ → String → String
pad_start width s = repeat " " (width - count s) ++ s

-- `chars().take(n)`
unfoldable pub take_chars : ℕ → String → String
take_chars zero s = ""
take_chars (suc n) String.[] = ""
take_chars (suc n) (String.◌∷◌ c s) = String.◌∷◌ c (take_chars n s)

abbrev pub first_before : Char → Option (String × String) → Option (String × String)
first_before c none = none
first_before c (some (s, t)) = some (String.◌∷◌ c s, t)

-- The text before the byte position and that from it; none where slicing would panic.
unfoldable pub split_at : String → ℕ → Option (String × String)
split_at s zero = some ("", s)
split_at String.[] (suc i) = none
split_at (String.◌∷◌ c s) (suc i) =
    let rest = split_at s (suc i - len_utf8 c) in
    if leb (len_utf8 c) (suc i) then first_before c rest else none

-- `str::find`
abbrev pub find_text : String → String → Option ℕ
find_text s q = let pos = find s q in if leb pos (len s) then some pos else none
