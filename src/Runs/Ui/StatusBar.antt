-- ===== src/Runs/Ui/StatusBar.antt =====
-- The bar at the bottom of the screen (crates/runs/src/ui.rs).
use Prim.Native.Char.{code}
use Prim.Native.String.{len}
use ensurer_v.Prelude.{
  ℕ, ◌+◌, ◌/◌, ◌%◌, ◌^◌, String, append, Bool, true, false, Option, none, some, List, [], ◌∷◌,
  length, find_first, get_elem?, is_some, nat_eq, show_nat, if◌then◌else◌,
}
use ensurer_v.Common.Model.{Run}
use ensurer_v.Runs.App.State.{
  App, Overlay, Screen, closed, filter, help, command, confirm, visible_runs,
}
use ensurer_v.Runs.Ui.Colors.{
  Color, Line, Span, styled, raw, in_color, bold_in, on, base, mantle, green, soft_red, yellow,
  mauve, teal, peach, blue, subtext0, overlay0,
}

pub record Mode : Type 0 where
  pub label : String
  pub fg : Color
  pub bg : Color

abbrev mode : String → Color → Mode
mode label bg = record { label = label; fg = base; bg = bg }

abbrev begins_with_slash : String → Bool
begins_with_slash String.[] = false
begins_with_slash (String.◌∷◌ c s) = nat_eq (code c) b'/'

abbrev screen_mode : Screen → Mode
screen_mode Screen.dashboard = mode "DASHBOARD" peach
screen_mode _ = mode "NORMAL" blue

abbrev overlay_mode : App → Overlay → Mode
overlay_mode app (command buf) =
    if begins_with_slash buf then mode "SEARCH" green else mode "COMMAND" yellow
overlay_mode app filter = mode "FILTER" mauve
overlay_mode app (confirm dialog) = mode "CONFIRM" soft_red
overlay_mode app help = mode "HELP" teal
overlay_mode app closed =
    if is_some app.visual_anchor then mode "VISUAL" peach else screen_mode app.screen

unfoldable pub current_mode : App → Mode
current_mode app = overlay_mode app app.overlay

abbrev pub place_in : ℕ → ℕ → String
place_in cursor total =
    if nat_eq total 0 then "0/0" else append (show_nat (cursor + 1)) (append "/" (show_nat total))

-- `find`, `map` and `unwrap_or`.
abbrev calcs_in : Option Run → ℕ
calcs_in none = 0
calcs_in (some r) = length r.calculations

abbrev position_on : App → Screen → String
position_on app Screen.run_list = place_in app.run_cursor (length (visible_runs app))
position_on app (Screen.run_detail id) =
    place_in app.calc_cursor (calcs_in (find_first (λ (r : Run). nat_eq r.id id) app.runs))
position_on app (Screen.calc_detail id) = ""
position_on app Screen.dashboard = ""

unfoldable pub position_string : App → String
unfolding visible_runs show_nat
position_string app = position_on app app.screen

abbrev pub as_u16 : ℕ → ℕ
as_u16 n = n % 2 ^ 16

abbrev frames : List String
frames = "⠋" ∷ "⠙" ∷ "⠹" ∷ "⠸" ∷ "⠼" ∷ "⠴" ∷ "⠦" ∷ "⠧" ∷ "⠇" ∷ "⠏" ∷ []

abbrev frame_or : Option String → String
frame_or none = ""
frame_or (some f) = f

-- The frame is always there: there are ten.
abbrev pub spinner : Bool → ℕ → Span
spinner false tick = raw ""
spinner true tick =
    styled (append " " (append (frame_or (get_elem? frames (tick / 3 % 10))) " "))
      (on mantle (in_color peach))

abbrev dot : Bool → Span
dot true = styled " ● " (on mantle (in_color green))
dot false = styled " ○ " (on mantle (in_color soft_red))

pub record StatusBar : Type 0 where
  pub mode_width : ℕ
  pub pos_width : ℕ
  pub badge : Line
  pub middle : Line
  pub right : Line

unfoldable pub render_status_bar : App → StatusBar
unfolding current_mode position_string
render_status_bar app =
    let m = current_mode app in
    let pos = position_string app in
    record {
      mode_width = as_u16 (len m.label) + 4;
      pos_width = as_u16 (len pos) + 2;
      badge = styled (append "  " (append m.label "  ")) (on m.bg (bold_in m.fg)) ∷ [];
      middle =
          dot app.sse_connected
          ∷ spinner app.loading app.tick
          ∷ styled app.status_bar (on mantle (in_color subtext0))
          ∷ [];
      right = styled (append " " (append pos " ")) (on mantle (in_color overlay0)) ∷ [];
    }
