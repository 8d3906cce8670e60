-- ===== src/Runs/Ui/Overlays.antt =====
-- crates/runs/src/ui/overlays: where the overlays are drawn, and what they show. Coordinates are u16, of
-- a terminal that is so small that no sum of them wraps around.
pub mod Within
use Prim.Native.Char.{code}
use Prim.Native.String.{len}
use ensurer_v.Prelude.{
  ℕ, zero, suc, ◌+◌, ◌-◌, ◌/◌, ◌%◌, ◌^◌, String, append, ◌==◌, Bool, true, false, Option, none,
  some, List, [], ◌∷◌, ◌++◌, map, length, min, max, nat_eq, repeat, pad_end, if◌then◌else◌,
}
use ensurer_v.Runs.App.Keybindings.{HelpSection, help_sections}
use ensurer_v.Runs.App.State.{App, filter_statuses}
use ensurer_v.Runs.Ui.Colors.{Color, rgb, Line, Span, styled, raw, in_color, bold_in, on, no_style}
use ensurer_v.Runs.Ui.RunList.{ListView, Item, plain_item}

pub record Rect : Type 0 where
  pub x : ℕ
  pub y : ℕ
  pub width : ℕ
  pub height : ℕ

unfoldable pub centered_rect : ℕ → ℕ → Rect → Rect
centered_rect width height r = record {
  x = r.x + (r.width - min width r.width) / 2;
  y = r.y + (r.height - min height r.height) / 2;
  width = min width r.width;
  height = min height r.height;
}

abbrev active_fg : Color
active_fg = rgb 166 227 161

abbrev dim_fg : Color
dim_fg = rgb 88 91 112

abbrev or_all : Option String → String
or_all none = "all"
or_all (some s) = s

abbrev filter_item : Bool → String → Item
filter_item true s =
    plain_item (styled "  ● " (in_color active_fg) ∷ styled s (in_color active_fg) ∷ [])
filter_item false s =
    plain_item (styled "    " (in_color dim_fg) ∷ styled s (in_color (rgb 205 214 244)) ∷ [])

-- The place of the filter overlay, and its list.
unfoldable pub render_filter : Rect → App → Rect × ListView
unfolding centered_rect
render_filter area app = (
  centered_rect 36 (length filter_statuses + 4) area,
  record {
    panel = record {
      title = styled " Filter " (bold_in Color.white);
      border = rgb 137 180 250;
      content = map (λ (s : String). filter_item (s == or_all app.filter.status) s) filter_statuses;
    };
    selected = some app.filter.filter_cursor;
  },
)

-- `(message.len() as u16 + 4).min(area.width)`
unfoldable pub confirm_rect : Rect → String → Rect
confirm_rect area message =
    let w = min (len message % 2 ^ 16 + 4) area.width in
    record {
      x = area.x + (area.width - w) / 2;
      y = area.y + (area.height - 3) / 2;
      width = w;
      height = 3;
    }

unfoldable pub command_rect : Rect → Rect
command_rect area = record {
  x = area.x;
  y = area.y + (area.height - 4);
  width = area.width;
  height = 3;
}

abbrev begins_with_slash : String → Bool
begins_with_slash String.[] = false
begins_with_slash (String.◌∷◌ c s) = nat_eq (code c) b'/'

unfoldable pub prompt_of : String → String
prompt_of buf = if begins_with_slash buf then buf else append ":" buf

abbrev max_entries : List HelpSection → ℕ
max_entries [] = 0
max_entries (s ∷ rest) = max (length s.entries) (max_entries rest)

unfoldable pub panel_height : Rect → ℕ
panel_height area = min (max_entries help_sections % 2 ^ 16 + 5) (area.height / 2 + 4)

unfoldable pub help_rect : Rect → Rect
unfolding panel_height
help_rect area = record {
  x = area.x;
  y = area.y + (area.height - panel_height area);
  width = area.width;
  height = panel_height area;
}

abbrev key_fg : Color
key_fg = rgb 245 194 231

abbrev panel_bg : Color
panel_bg = rgb 24 24 37

abbrev key_line : String × String → Line
key_line (key, desc) =
    raw " "
    ∷ styled (pad_end 10 key) (on panel_bg (bold_in key_fg))
    ∷ styled desc (on panel_bg (in_color (rgb 198 208 245)))
    ∷ []

abbrev dim : String → Span
dim s = styled s (on panel_bg (in_color dim_fg))

abbrev footer : Line
footer =
    dim " Press "
    ∷ styled "?" (on panel_bg (bold_in key_fg))
    ∷ dim " or "
    ∷ styled "Esc" (on panel_bg (bold_in key_fg))
    ∷ dim " to close"
    ∷ []

-- `while lines.len() < height { lines.push(Line::raw("")) }`
abbrev blanks : ℕ → List Line
blanks zero = []
blanks (suc n) = (raw "" ∷ []) ∷ blanks n

-- The lines of a section in a column of that width.
unfoldable pub section_lines : ℕ → HelpSection → List Line
unfolding repeat
section_lines width s =
    (styled (append " " s.title) (on panel_bg (bold_in active_fg)) ∷ [])
    ∷ (dim (append " " (repeat "─" (width - 2))) ∷ [])
    ∷ map key_line s.entries

abbrev with_footer : ℕ → List Line → List Line
with_footer height lines = lines ++ (blanks (height - 3 - length lines) ++ footer ∷ [])

-- The columns, with the footer under the last one.
unfoldable pub help_columns : ℕ → ℕ → List HelpSection → List (List Line)
unfolding section_lines
help_columns width height [] = []
help_columns width height (s ∷ []) = with_footer height (section_lines width s) ∷ []
help_columns width height (s ∷ t ∷ rest) =
    section_lines width s ∷ help_columns width height (t ∷ rest)
