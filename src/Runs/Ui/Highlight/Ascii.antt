-- ===== src/Runs/Ui/Highlight/Ascii.antt =====
-- The marking of ASCII texts (crates/runs/src/ui/screens/run_list.rs).
use Prim.Native.Char.{Char, code, len_utf8, len_utf8_def, width}
use Prim.Native.Nat.{compare, Ordering}
use Prim.Native.String.{len, find}
use Prim.Native.String.len
use text.Mathlib.TextFind.{find_cases}
use text.Mathlib.TextPositions.{len-append}
use ensurer_v.Prelude.{
  ℕ, zero, suc, ◌+◌, ◌-◌, ◌≤◌, ◌<◌, ◌≡◌, ◌≢◌, refl, ap, ◌∙◌, true, Bool-cases, inl, inr, String,
  List, append, Option, some, Option-cases, split_at, find_text, leb, leb→le, le→leb, arith,
  text-cases,
}
use ensurer_v.Runs.Ui.Colors.{Color, Span}
use ensurer_v.Runs.Ui.Highlight.{
  Painted, painted, panicked, unfinished, put, highlight_loop, highlight_match,
}
use ensurer_v.Runs.Ui.Highlight.Texts.{split_at-whole}

abbrev pub IsAscii : String → Type 0
IsAscii String.[] = Unit
IsAscii (String.◌∷◌ c s) = (code c < 128) × IsAscii s

-- What std documents of `to_lowercase` for such texts: it is letter by letter, one byte each.
pub record IsLowercase (to_lowercase : String → String) : Type 0 where
  pub len-lower : (s : String) → IsAscii s → len (to_lowercase s) ≡ len s

compare-lt : (a b : ℕ) → a < b → compare a b ≡ Ordering.lt
compare-lt a b h = ground arith

len_utf8-ascii : (c : Char) → code c < 128 → len_utf8 c ≡ 1
len_utf8-ascii c h =
    len_utf8_def c
    ∙ ap (λ o. width o (compare (code c) 2048) (compare (code c) 65536)) (compare-lt (code c) 128 h)

some_injective : {A : Type 0} {a b : A} → ◌≡◌ {A = Option A} (some a) (some b) → a ≡ b
some_injective h = cc h

split_at-cons :
    (c : Char) (s a b : String) (i : ℕ)
    → len_utf8 c ≡ 1
    → split_at s i ≡ some (a, b)
    → split_at (String.◌∷◌ c s) (suc i) ≡ some (String.◌∷◌ c a, b)
unfolding split_at
split_at-cons c s a b i one e =
    let here : leb 1 (suc i) ≡ true = le→leb 1 (suc i) (omega arith) in
    let less : suc i - 1 ≡ i = omega arith in rw (one, here, less, e) refl

-- Every position of such a text is between two letters.
split_at-IsAscii :
    (s : String) (i : ℕ)
    → IsAscii s
    → i ≤ len s
    → (a : String) × (b : String) × (split_at s i ≡ some (a, b)) × IsAscii b
unfolding split_at
split_at-IsAscii s zero h le = ("", s, refl, h)
split_at-IsAscii String.[] (suc i) h le = absurd (omega (arith, len.nil))
split_at-IsAscii (String.◌∷◌ c s) (suc i) h le =
    let one = len_utf8-ascii c h.0 in
    let (a, b, e, k) = split_at-IsAscii s i h.1 (omega (arith, len.cons c s, one)) in
    (String.◌∷◌ c a, b, split_at-cons c s a b i one e, k)

find_text-le : (s q : String) (i : ℕ) → find_text s q ≡ some i → i + len q ≤ len s
find_text-le s q i h = elim (Bool-cases (leb (find s q) (len s))) [
  | inl e ↦
      let at : find s q ≡ i = some_injective (rw e at h) in
      elim (find_cases s q) [
        | inl (u, v, whole, place) ↦
            omega (arith, at, place, ap len whole, len-append u (append q v), len-append q v)
        | inr miss ↦ absurd (omega (arith, miss, leb→le (find s q) (len s) e))
      ]
  | inr e ↦ cc (rw e at h)
]

put-painted : (spans : List Span) (p : Painted) → p ≢ panicked → put spans p ≢ panicked
put-painted spans (painted later) n h = cc (h)
put-painted spans panicked n h = n refl
put-painted spans unfinished n h = cc (h)

module _ (to_lowercase : String → String) (lower : IsLowercase to_lowercase) (query : String)
    (base_color : Color) (ascii : IsAscii query) where
  loop-painted :
      (fuel : ℕ) (rest : String)
      → IsAscii rest
      → highlight_loop to_lowercase query base_color fuel rest ≢ panicked
  unfolding highlight_loop
  loop-painted zero rest a = λ h. cc (h)
  loop-painted (suc n) rest a =
      elim (Option-cases (find_text (to_lowercase rest) (to_lowercase query))) [
        | inl e ↦ rw e (λ h. cc (h))
        | inr (pos, e) ↦
            let within = find_text-le (to_lowercase rest) (to_lowercase query) pos e in
            let same = lower.len-lower rest a in
            let same' = lower.len-lower query ascii in
            let (before, from, g, a') = split_at-IsAscii rest pos a (omega (arith, within, same)) in
            let (whole, size) = split_at-whole rest before from pos g in
            let (hit, rest', k, a'') =
              split_at-IsAscii from (len query) a' (omega (arith, within, same, same', size)) in
            rw (e, g, k) (put-painted _ _ (loop-painted n rest' a''))
      ]

  -- For an ASCII text and an ASCII query no slice panics, provided that the lowercasing of an ASCII
  -- text has as many bytes as the text.
  pub highlight_match-painted :
      (t : String) → IsAscii t → highlight_match to_lowercase query base_color t ≢ panicked
  unfolding highlight_match
  highlight_match-painted t a = elim (text-cases query "") [
    | inl (e, b) ↦ rw b (λ h. cc (h))
    | inr (n, b) ↦ rw b (loop-painted (len t + 1) t a)
  ]
