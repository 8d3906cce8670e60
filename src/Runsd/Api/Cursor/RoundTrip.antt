-- ===== src/Runsd/Api/Cursor/RoundTrip.antt =====
-- The cursor of `list_runs` is read back as it was written (crates/runsd/src/api/handlers.rs).
use Prim.Native.Char.{Char, char, code}
use text.Mathlib.TextLemmas.{nil-append, cons-append}
use mathlib.Core.Option
use ensurer_v.Prelude.{
  ℕ, ◌+◌, ◌-◌, ◌*◌, ◌^◌, ◌<◌, ◌≡◌, refl, ap, ◌∙◌, String, append, true, false, some, show_nat,
  parse_below, digits_value, is_ascii_digit, nat_eq, ltb, Bool-cases, inl, inr, arith,
}
use ensurer_v.Prelude.Texts.Digits.{digits_value-show_nat, show_nat-nonempty}
use ensurer_v.Common.Model.{Run}
use ensurer_v.Runsd.Codec.{Codec}
use ensurer_v.Runsd.Api.Cursor.{split_comma, parse_i64, parse_cursor, cursor_of}

-- A text with a value begins with a digit, behind which the value goes on.
digits_value-cons :
    (acc : ℕ) (c : Char) (s : String) (v : ℕ)
    → digits_value acc (String.◌∷◌ c s) ≡ some v
    → (is_ascii_digit c ≡ true) × (digits_value (acc * 10 + (code c - 48)) s ≡ some v)
unfolding digits_value
digits_value-cons acc c s v h = elim (Bool-cases (is_ascii_digit c)) [
  | inl e ↦ (e, ground (arith, h, e))
  | inr e ↦ absurd (ground (arith, h, e))
]

comma : (t : String) → append "," t ≡ String.◌∷◌ (char 44 tt) t
comma t = cons-append (char 44 tt) "" t ∙ ap (λ u. String.◌∷◌ (char 44 tt) u) (nil-append t)

split_comma-comma : (t : String) → split_comma (append "," t) ≡ ("", some t)
unfolding split_comma
split_comma-comma t = rw (comma t) refl

split_comma-digits :
    (s t : String) (acc v : ℕ)
    → digits_value acc s ≡ some v
    → split_comma (append s (append "," t)) ≡ (s, some t)
unfolding split_comma
split_comma-digits String.[] t acc v h =
    ap split_comma (nil-append (append "," t)) ∙ split_comma-comma t
split_comma-digits (String.◌∷◌ c s) t acc v h =
    let (d, rest) = digits_value-cons acc c s v h in
    let other : nat_eq (code c) 44 ≡ false = ground (arith, d) in
    let later = split_comma-digits s t (acc * 10 + (code c - 48)) v rest in
    rw (cons-append c s (append "," t)) (rw (other, later) refl)

parse_below-digits :
    (bound : ℕ) (c : Char) (s : String) (v : ℕ)
    → digits_value 0 (String.◌∷◌ c s) ≡ some v
    → v < bound
    → parse_below bound (String.◌∷◌ c s) ≡ some v
unfolding parse_below
parse_below-digits bound c s v h k =
    let fits : ltb v bound ≡ true = ground (arith, k) in rw (h, parse_below) (rw fits refl)

parse_i64-digits :
    (s : String) (v : ℕ)
    → digits_value 0 s ≡ some v
    → (s ≡ "" → ⊥)
    → v < 2 ^ 63
    → parse_i64 s ≡ some (false, v)
unfolding parse_i64
parse_i64-digits String.[] v h full k = elim (full refl) [ ]
parse_i64-digits (String.◌∷◌ c s) v h full k =
    let (d, rest) = digits_value-cons 0 c s v h in
    let no_minus : nat_eq (code c) 45 ≡ false = ground (arith, d) in
    let no_plus : nat_eq (code c) 43 ≡ false = ground (arith, d) in
    rw (no_minus, no_plus)
      (ap (Option.map (λ n. (false, n))) (parse_below-digits (2 ^ 63) c s v h k))

-- The cursor of a run whose time is an i64 is read back as its time and its id.
pub parse_cursor-cursor_of :
    (codec : Codec) (r : Run)
    → r.created_at < 2 ^ 63
    → parse_cursor (some (cursor_of codec r)) ≡ (some r.created_at, some (codec.uuid_text r.id))
unfolding parse_cursor
parse_cursor-cursor_of codec r k =
    let value = digits_value-show_nat r.created_at in
    let parts =
      split_comma-digits (show_nat r.created_at) (codec.uuid_text r.id) 0 r.created_at value in
    let number =
      parse_i64-digits (show_nat r.created_at) r.created_at value (show_nat-nonempty r.created_at)
        k in
    rw (parts, number) refl
