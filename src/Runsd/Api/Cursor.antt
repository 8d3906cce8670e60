-- ===== src/Runsd/Api/Cursor.antt =====
-- The cursor of `list_runs` (crates/runsd/src/api/handlers.rs): a time and an id, with a comma between.
pub mod RoundTrip
use Prim.Native.Char.{code}
use ensurer_v.Prelude.{
  ℕ, ◌^◌, ◌+◌, String, append, Bool, true, false, ◌&&◌, not, Option, none, some, show_nat,
  parse_below, nat_eq, if◌then◌else◌,
}
use mathlib.Core.Option
use ensurer_v.Common.Model.{Run}
use ensurer_v.Runsd.Codec.{Codec}

-- `splitn(2, ',')`: what stands before the first comma, and behind it.
unfoldable pub split_comma : String → String × Option String
split_comma String.[] = ("", none)
split_comma (String.◌∷◌ c s) =
    let (before, behind) = split_comma s in
    if nat_eq (code c) 44 then ("", some s) else (String.◌∷◌ c before, behind)

-- `parse::<i64>`: whether the number is negative, and its magnitude.
unfoldable pub parse_i64 : String → Option (Bool × ℕ)
unfolding parse_below
parse_i64 String.[] = none
parse_i64 (String.◌∷◌ c s) =
    if nat_eq (code c) 45
    then Option.map (λ n. (true, n)) (parse_below (2 ^ 63 + 1) s)
    else Option.map (λ n. (false, n))
        (parse_below (2 ^ 63) (if nat_eq (code c) 43 then s else String.◌∷◌ c s))

-- No row has a time before 0: a negative one stands before all rows, as the empty text at time 0.
abbrev placed : Option (Bool × ℕ) → Option String → Option ℕ × Option String
placed none id = (none, id)
placed (some (negative, n)) id =
    if negative && not (nat_eq n 0) then (some 0, Option.map (λ _. "") id) else (some n, id)

abbrev cursor_parts : Option String → Option ℕ × Option String
cursor_parts none = (none, none)
cursor_parts (some c) = let (cat, id) = split_comma c in placed (parse_i64 cat) id

unfoldable pub parse_cursor : Option String → Option ℕ × Option String
unfolding split_comma parse_i64
parse_cursor cursor = cursor_parts cursor

-- `format!("{},{}", created_at, id)`
abbrev pub cursor_of : Codec → Run → String
cursor_of codec r = append (show_nat r.created_at) (append "," (codec.uuid_text r.id))
