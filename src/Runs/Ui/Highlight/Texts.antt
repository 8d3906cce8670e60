-- ===== src/Runs/Ui/Highlight/Texts.antt =====
-- What the marking of a text (crates/runs/src/ui/screens/run_list.rs) shows of it.
use Prim.Native.String.{len}
use Prim.Native.Char.{Char, len_utf8}
use text.Mathlib.TextLemmas.{append_assoc, append-nil, nil-append, cons-append}
use Prim.Native.String.len
use text.Mathlib.TextPositions.{len_utf8-pos}
use ensurer_v.Prelude.{
  ℕ, zero, suc, ◌+◌, ◌≤◌, ◌<◌, ◌≡◌, ◌≢◌, refl, sym, ap, ◌∙◌, false, Bool-cases, inl, inr, String,
  append, Option, none, some, Option-cases, List, [], ◌∷◌, ◌++◌, nat_eq, leb, split_at, find_text,
  first_before, leb→le, ◌-◌, arith, text-cases,
}
use ensurer_v.Runs.Ui.Colors.{Color, Span}
use ensurer_v.Runs.Ui.Highlight.{
  Painted, painted, panicked, unfinished, put, marked, highlight_loop, highlight_match, plain_span,
}

abbrev pub shown : List Span → String
shown [] = ""
shown (s ∷ rest) = append s.content (shown rest)

shown-append : (xs ys : List Span) → shown (xs ++ ys) ≡ append (shown xs) (shown ys)
shown-append [] ys = sym (nil-append (shown ys))
shown-append (s ∷ xs) ys =
    ap (append s.content) (shown-append xs ys) ∙ sym (append_assoc s.content (shown xs) (shown ys))

some_pair :
    {a b c d : String}
    → ◌≡◌ {A = Option (String × String)} (some (a, b)) (some (c, d))
    → (a ≡ c) × (b ≡ d)
some_pair h = (cc (h), cc (h))

first_before-some :
    (c : Char) (o : Option (String × String)) (a b : String)
    → first_before c o ≡ some (a, b)
    → (a' : String) × (o ≡ some (a', b)) × (a ≡ String.◌∷◌ c a')
first_before-some c none a b h = cc (h)
first_before-some c (some (s, t)) a b h =
    let (e, g) = some_pair h in (s, ap (λ (x : String). some (s, x)) g, sym e)

-- The two sides of a split are the text, and the second has the bytes that are left.
pub split_at-whole :
    (s a b : String) (i : ℕ) → split_at s i ≡ some (a, b) → (append a b ≡ s) × (len b + i ≡ len s)
unfolding split_at
split_at-whole s a b zero h =
    let (e, g) = some_pair h in
    (ap (λ x. append x b) (sym e) ∙ nil-append b ∙ sym g, omega (arith, ap len g))
split_at-whole String.[] a b (suc i) h = cc (h)
split_at-whole (String.◌∷◌ c s) a b (suc i) h = elim (Bool-cases (leb (len_utf8 c) (suc i))) [
  | inl e ↦
      let (a', f, g) = first_before-some c (split_at s (suc i - len_utf8 c)) a b (rw e at h) in
      let (whole, size) = split_at-whole s a' b (suc i - len_utf8 c) f in
      let within : len_utf8 c ≤ suc i = leb→le (len_utf8 c) (suc i) e in
      (
        ap (λ x. append x b) g ∙ cons-append c a' b ∙ ap (String.◌∷◌ c) whole,
        omega (arith, size, len.cons c s, within),
      )
  | inr e ↦ cc (rw e at h)
]

-- The spans that are drawn are the text; the loop has ended.
abbrev pub IsShown : String → Painted → Type 0
IsShown t (painted spans) = shown spans ≡ t
IsShown t panicked = Unit
IsShown t unfinished = ⊥

put-IsShown :
    (spans : List Span) (p : Painted) (t rest : String)
    → append (shown spans) rest ≡ t
    → IsShown rest p
    → IsShown t (put spans p)
put-IsShown spans (painted later) t rest e h =
    shown-append spans later ∙ ap (append (shown spans)) h ∙ e
put-IsShown spans panicked t rest e h = tt
put-IsShown spans unfinished t rest e h = h

pub len-pos : (s : String) → s ≢ "" → 0 < len s
len-pos String.[] n = absurd (n refl)
len-pos (String.◌∷◌ c s) n = let (k, e) = len_utf8-pos c in omega (arith, len.cons c s, e)

module _ (to_lowercase : String → String) (query : String) (base_color : Color) where
  shown-plain_span : (t : String) → shown (plain_span base_color t) ≡ t
  shown-plain_span t = elim (text-cases t "") [
    | inl (e, b) ↦ rw b (sym e)
    | inr (n, b) ↦ rw b (append-nil t)
  ]

  shown-marked :
      (pos : ℕ) (rest before from hit : String)
      → split_at rest pos ≡ some (before, from)
      → shown (marked to_lowercase query base_color pos before hit) ≡ append before hit
  unfolding split_at
  shown-marked zero rest before from hit e =
      let (b, f) = some_pair e in append-nil hit ∙ sym (nil-append hit) ∙ ap (λ x. append x hit) b
  shown-marked (suc pos) rest before from hit e =
      let positive : nat_eq (suc pos) 0 ≡ false = ground arith in
      rw positive (ap (append before) (append-nil hit))

  loop-IsShown :
      (fuel : ℕ) (rest : String)
      → len rest < fuel
      → 0 < len query
      → IsShown rest (highlight_loop to_lowercase query base_color fuel rest)
  unfolding highlight_loop
  loop-IsShown zero rest f q = absurd (omega arith)
  loop-IsShown (suc n) rest f q =
      elim (Option-cases (find_text (to_lowercase rest) (to_lowercase query))) [
        | inl e ↦ rw e (shown-plain_span rest)
        | inr (pos, e) ↦ elim (Option-cases (split_at rest pos)) [
          | inl g ↦ rw (e, g) tt
          | inr ((before, from), g) ↦ elim (Option-cases (split_at from (len query))) [
            | inl k ↦ rw (e, g, k) tt
            | inr ((hit, rest'), k) ↦
                let (whole, size) = split_at-whole rest before from pos g in
                let (whole', size') = split_at-whole from hit rest' (len query) k in
                let pieces : append (append before hit) rest' ≡ rest =
                  append_assoc before hit rest' ∙ ap (append before) whole' ∙ whole in
                let joined =
                  ap (λ x. append x rest') (shown-marked pos rest before from hit g) ∙ pieces in
                rw (e, g, k)
                  (put-IsShown (marked to_lowercase query base_color pos before hit) _ rest rest'
                    joined (loop-IsShown n rest' (omega (arith, size, size')) q))
          ]
        ]
      ]

  -- The loop over the matches ends, whatever the lowercasing; unless a slice panics, the texts of the
  -- spans, one after another, are the text that is marked.
  pub highlight_match-IsShown :
      (t : String) → IsShown t (highlight_match to_lowercase query base_color t)
  unfolding highlight_match
  highlight_match-IsShown t = elim (text-cases query "") [
    | inl (e, b) ↦ rw b (append-nil t)
    | inr (n, b) ↦ rw b (loop-IsShown (len t + 1) t (omega arith) (len-pos query n))
  ]
