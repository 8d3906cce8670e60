-- ===== src/Runs/Ui/Highlight.antt =====
-- `highlight_match` of crates/runs/src/ui/screens/run_list.rs: where a text is marked.
pub mod Texts
pub mod Ascii
use Prim.Native.String.{len}
use ensurer_v.Prelude.{
  ℕ, zero, suc, ◌+◌, String, append, Option, none, some, List, [], ◌∷◌, ◌++◌, ◌==◌, nat_eq,
  split_at, find_text, if◌then◌else◌,
}
use ensurer_v.Runs.Ui.Colors.{Color, Span, styled, in_color, bold_in, on, base, yellow}

-- The spans, or a panic of a slice that is out of bounds or cuts a character. `unfinished` is the
-- model's own: the loop has more rounds than the fuel.
pub data Painted : Type 0 where
  painted : List Span → Painted
  panicked unfinished : Painted

abbrev pub put : List Span → Painted → Painted
put spans (painted rest) = painted (spans ++ rest)
put spans panicked = panicked
put spans unfinished = unfinished

abbrev pub plain_span : Color → String → List Span
plain_span color text = if text == "" then [] else styled text (in_color color) ∷ []

module _ (to_lowercase : String → String) (query : String) (base_color : Color) where
  -- The text before the match, unless it begins the rest, and the match.
  abbrev pub marked : ℕ → String → String → List Span
  marked pos before hit =
      let match_span = styled hit (on yellow (bold_in base)) in
      if nat_eq pos 0
      then match_span ∷ []
      else styled before (in_color base_color) ∷ match_span ∷ []

  -- What the slices of a round give, with the rest of the loop.
  abbrev pub sliced : (String → Painted) → ℕ → String → Option (String × String) → Painted
  sliced later pos before none = panicked
  sliced later pos before (some (hit, rest)) = put (marked pos before hit) (later rest)

  abbrev pub cut : (String → Painted) → ℕ → Option (String × String) → Painted
  cut later pos none = panicked
  cut later pos (some (before, from)) = sliced later pos before (split_at from (len query))

  -- One round, by what the search gives.
  abbrev pub round : (String → Painted) → String → Option ℕ → Painted
  round later rest none = painted (plain_span base_color rest)
  round later rest (some pos) = cut later pos (split_at rest pos)

  unfoldable pub highlight_loop : ℕ → String → Painted
  unfolding split_at
  highlight_loop zero rest = unfinished
  highlight_loop (suc fuel) rest =
      round (highlight_loop fuel) rest (find_text (to_lowercase rest) (to_lowercase query))

  -- One round for each byte, and one more.
  unfoldable pub highlight_match : String → Painted
  unfolding highlight_loop
  highlight_match text =
      if query == ""
      then painted (styled text (in_color base_color) ∷ [])
      else highlight_loop (len text + 1) text
