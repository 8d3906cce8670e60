-- ===== src/Runs/Ui/Overlays/Within.antt =====
-- Where the overlays (crates/runs/src/ui/overlays) are on the screen.
use ensurer_v.Prelude.{◌+◌, ◌≤◌, String, arith}
use ensurer_v.Runs.App.State.{App}
use ensurer_v.Runs.Ui.Overlays.{
  Rect, centered_rect, render_filter, confirm_rect, command_rect, help_rect, panel_height,
}

abbrev pub IsWithin : Rect → Rect → Type 0
IsWithin r area =
    (area.x ≤ r.x)
    × (area.y ≤ r.y)
    × (r.x + r.width ≤ area.x + area.width)
    × (r.y + r.height ≤ area.y + area.height)

-- On an area of at least eight rows every overlay is drawn inside of it.
pub render_filter-IsWithin :
    (area : Rect) (app : App) (message : String)
    → 8 ≤ area.height
    → IsWithin (render_filter area app).0 area
      × IsWithin (confirm_rect area message) area
      × IsWithin (command_rect area) area
      × IsWithin (help_rect area) area
unfolding render_filter centered_rect confirm_rect command_rect help_rect panel_height
render_filter-IsWithin area app message h = (
  (omega arith, omega arith, omega arith, omega arith),
  (omega arith, omega arith, omega arith, omega arith),
  (omega arith, omega arith, omega arith, omega arith),
  (omega arith, omega arith, omega arith, omega arith),
)
