-- ===== src/Prelude/Utf8.antt =====
-- Rust's `std::str::from_utf8`, and `str::lines`.
use mathlib.Core.Path.{◌≡◌, refl}
use Prim.Native.Nat.{ℕ, zero, suc, Ordering, compare, ◌+◌, ◌-◌, ◌*◌}
use Prim.Native.Char.{Char, char, code, IsLt}
use Prim.Native.String.{String}
use mathlib.Core.Bool.{true, false, ◌&&◌}
use mathlib.Core.Option
use mathlib.Core.Option.{Option, none, some}
use mathlib.Core.List.{List, [], ◌∷◌, map}
use ensurer_v.Prelude.Tests.{ltb, leb, nat_eq, if◌then◌else◌}

-- The type `IsScalar` of a number, by its three comparisons.
abbrev BothBelow : Ordering → Ordering → Type 0
BothBelow Ordering.lt o = IsLt o
BothBelow Ordering.eq _ = ⊥
BothBelow Ordering.gt _ = ⊥

abbrev IsScalarBy : Ordering → Ordering → Ordering → Type 0
IsScalarBy Ordering.lt _ _ = Unit
IsScalarBy Ordering.eq o p = BothBelow o p
IsScalarBy Ordering.gt o p = BothBelow o p

abbrev decide_both : (o p : Ordering) → Option (BothBelow o p)
decide_both Ordering.lt Ordering.lt = some tt
decide_both Ordering.lt Ordering.eq = none
decide_both Ordering.lt Ordering.gt = none
decide_both Ordering.eq _ = none
decide_both Ordering.gt _ = none

abbrev decide_scalar : (o p q : Ordering) → Option (IsScalarBy o p q)
decide_scalar Ordering.lt p q = some tt
decide_scalar Ordering.eq p q = decide_both p q
decide_scalar Ordering.gt p q = decide_both p q

-- `char::from_u32`
unfoldable pub char_of : ℕ → Option Char
char_of n =
    Option.map (char n) (decide_scalar (compare n 55296) (compare 57343 n) (compare n 1114112))

-- What a byte is at the beginning of a character: the whole of it, or the beginning of one with so
-- many bytes to follow, the value so far and the least value that needs so many bytes.
pub data Lead : Type 0 where
  whole : Lead
  begins : (following value least : ℕ) → Lead
  invalid : Lead

lead_of : ℕ → Lead
lead_of b =
    if ltb b 0x80
    then Lead.whole
    else if ltb b 0xc0
    then Lead.invalid
    else if ltb b 0xe0
    then Lead.begins 1 (b - 0xc0) 0x80
    else if ltb b 0xf0
    then Lead.begins 2 (b - 0xe0) 0x800
    else if ltb b 0xf8
    then Lead.begins 3 (b - 0xf0) 0x10000
    else Lead.invalid

-- The character before the text of the rest.
abbrev put : Option Char → Option String → Option String
put (some c) (some s) = some (String.◌∷◌ c s)
put (some c) none = none
put none rest = none

-- A value of several bytes is a character if it needs them.
abbrev checked : ℕ → ℕ → Option Char
checked least value = if leb least value then char_of value else none

decode : (following value least : ℕ) → List ℕ → Option String
unfolding lead_of char_of
decode zero value least [] = some ""
decode (suc n) value least [] = none
decode zero value least (b ∷ bs) = elim (lead_of b) [
  | Lead.whole ↦ put (char_of b) (decode 0 0 0 bs)
  | Lead.begins following value' least' ↦ decode following value' least' bs
  | Lead.invalid ↦ none
]
decode (suc n) value least (b ∷ bs) = elim (leb 0x80 b && leb b 0xbf) [
  | true ↦ elim n [
    | zero ↦ put (checked least (value * 64 + (b - 0x80))) (decode 0 0 0 bs)
    | suc m ↦ decode (suc m) (value * 64 + (b - 0x80)) least bs
  ]
  | false ↦ none
]

unfoldable pub from_utf8 : List ℕ → Option String
unfolding decode
from_utf8 bytes = decode 0 0 0 bytes

-- The lines of a text with their ends.
abbrev begin_line : Char → List String → List String
begin_line c [] = String.◌∷◌ c "" ∷ []
begin_line c (l ∷ ls) = if nat_eq (code c) 10 then String.◌∷◌ c "" ∷ l ∷ ls else String.◌∷◌ c l ∷ ls

split_inclusive : String → List String
split_inclusive String.[] = []
split_inclusive (String.◌∷◌ c s) = begin_line c (split_inclusive s)

-- The text before a last character of that code.
strip_last : ℕ → String → Option String
strip_last n String.[] = none
strip_last n (String.◌∷◌ c String.[]) = if nat_eq (code c) n then some "" else none
strip_last n (String.◌∷◌ c (String.◌∷◌ d s)) =
    Option.map (λ t. String.◌∷◌ c t) (strip_last n (String.◌∷◌ d s))

abbrev or_same : String → Option String → String
or_same s none = s
or_same s (some t) = t

-- A line without its `\n`, or its `\r\n`.
abbrev strip_end : String → String
strip_end line = elim (strip_last 10 line) [ none ↦ line | some l ↦ or_same l (strip_last 13 l) ]

unfoldable pub lines : String → List String
unfolding split_inclusive strip_last
lines s = map strip_end (split_inclusive s)

lines_lem : lines "id: 3\ndata: x\r\n\n" ≡ "id: 3" ∷ "data: x" ∷ "" ∷ []
unfolding lines
lines_lem = refl

from_utf8_lem : from_utf8 (0x61 ∷ 0xe2 ∷ 0x82 ∷ 0xac ∷ []) ≡ some "a€"
unfolding from_utf8
from_utf8_lem = refl
