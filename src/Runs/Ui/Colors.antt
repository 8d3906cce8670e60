-- ===== src/Runs/Ui/Colors.antt =====
-- crates/runs/src/ui/colors.rs: the colours, and what the screens are built of: styled texts.
use ensurer_v.Prelude.{ℕ, String, Bool, true, false, Option, none, some, List, if◌then◌else◌}
use ensurer_v.Common.CalcStatus.{CalcStatus}
use ensurer_v.Common.RunStatus.{RunStatus}

-- `palette::RED` is `soft_red` here. The values of ratatui's `Color` that the crate names.
pub data Color : Type 0 where
  rgb : (red green blue : ℕ) → Color
  white red : Color  -- the ones of the terminal

-- What the code sets of ratatui's `Style`.
pub record Style : Type 0 where
  pub fg : Option Color
  pub bg : Option Color
  pub bold : Bool

-- A `Span`, and a `Line` of them.
pub record Span : Type 0 where
  pub content : String
  pub style : Style

abbrev pub Line : Type 0
Line = List Span

-- A bordered `Block` with what it holds.
pub record Panel (A : Type 0) : Type 0 where
  pub title : Span
  pub border : Color
  pub content : A

abbrev pub no_style : Style
no_style = record { fg = none; bg = none; bold = false }

abbrev pub in_color : Color → Style
in_color c = record no_style { fg = some c }

abbrev pub bold_in : Color → Style
bold_in c = record (in_color c) { bold = true }

abbrev pub on : Color → Style → Style
on c style = record style { bg = some c }

abbrev pub styled : String → Style → Span
styled text style = record { content = text; style = style }

abbrev pub raw : String → Span
raw text = styled text no_style

abbrev pub base : Color
base = rgb 24 24 37

abbrev pub mantle : Color
mantle = rgb 30 30 46

abbrev pub crust : Color
crust = rgb 17 17 27

abbrev pub surface0 : Color
surface0 = rgb 49 50 68

abbrev pub surface1 : Color
surface1 = rgb 69 71 90

abbrev pub surface2 : Color
surface2 = rgb 88 91 112

abbrev pub overlay0 : Color
overlay0 = rgb 108 112 134

abbrev pub overlay1 : Color
overlay1 = rgb 127 132 156

abbrev pub subtext0 : Color
subtext0 = rgb 166 173 200

abbrev pub text : Color
text = rgb 205 214 244

abbrev pub rosewater : Color
rosewater = rgb 245 224 220

abbrev pub flamingo : Color
flamingo = rgb 242 205 205

abbrev pub pink : Color
pink = rgb 245 194 231

abbrev pub mauve : Color
mauve = rgb 203 166 247

abbrev pub soft_red : Color
soft_red = rgb 243 139 168

abbrev pub maroon : Color
maroon = rgb 235 160 172

abbrev pub peach : Color
peach = rgb 250 179 135

abbrev pub yellow : Color
yellow = rgb 249 226 175

abbrev pub green : Color
green = rgb 166 227 161

abbrev pub teal : Color
teal = rgb 148 226 213

abbrev pub sky : Color
sky = rgb 137 220 235

abbrev pub sapphire : Color
sapphire = rgb 116 199 236

abbrev pub blue : Color
blue = rgb 137 180 250

abbrev pub lavender : Color
lavender = rgb 180 190 254

unfoldable pub run_status_color : RunStatus → Color
run_status_color RunStatus.pending = overlay0
run_status_color RunStatus.running = blue
run_status_color RunStatus.succeeded = green
run_status_color RunStatus.failed = soft_red
run_status_color RunStatus.cancelled = surface2
run_status_color RunStatus.partially_succeeded = yellow

unfoldable pub calc_status_color : CalcStatus → Color
calc_status_color CalcStatus.pending = overlay0
calc_status_color CalcStatus.running = blue
calc_status_color CalcStatus.retrying = peach
calc_status_color CalcStatus.succeeded = green
calc_status_color CalcStatus.failed = soft_red
calc_status_color CalcStatus.cancelled = surface2

unfoldable pub border_color : Bool → Color
border_color focused = if focused then blue else surface1
