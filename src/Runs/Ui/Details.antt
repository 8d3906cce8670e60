-- ===== src/Runs/Ui/Details.antt =====
-- crates/runs/src/ui/screens/run_detail.rs and calc_detail.rs: one run, and one calculation.
use ensurer_v.Prelude.{
  ℕ, String, append, ◌==◌, Bool, true, false, Option, none, some, List, [], ◌∷◌, ◌++◌, map,
  find_first, get_elem?, lines, min, nat_eq, repeat, pad_end, take_chars, show_nat, if◌then◌else◌,
}
use mathlib.Core.Option
use ensurer_v.Common.CalcStatus
use ensurer_v.Common.Json.{Json}
use ensurer_v.Common.Model.{RunId, CalcId, Run, Calculation}
use ensurer_v.Runs.App.State.{App, Pane}
use ensurer_v.Runs.Ui.Colors.{
  Color, Line, Span, Panel, styled, raw, in_color, calc_status_color, border_color, white, red,
  surface1, lavender,
}
use ensurer_v.Runs.Ui.RunList.{
  ListView, Item, plain_item, or_empty, is_calc_list, calcs_of, select_if_any,
}

-- What the screens take from other crates.
pub record Formats : Type 0 where
  pub id_text : ℕ → String
  -- `format("%Y-%m-%d %H:%M:%S UTC")`
  pub utc_text : ℕ → String
  -- `serde_json::to_string` and `to_string_pretty`
  pub json_text : Json → String
  pub json_pretty : Json → String

-- A paragraph, scrolled down by so many lines.
pub record Paragraph : Type 0 where
  pub panel : Panel (List Line)
  pub scroll : ℕ

abbrev or_dash : Option String → String
or_dash none = "-"
or_dash (some s) = s

-- `min(u16::MAX as usize) as u16`
abbrev pub scroll_of : ℕ → ℕ
scroll_of n = min n 65535

abbrev error_span : String → Span
error_span err = if err == "" then raw "" else styled (append " — " err) (in_color red)

unfoldable pub calc_line : Calculation → Item
unfolding calc_status_color CalcStatus.to_string take_chars repeat
calc_line c = plain_item (
    styled (pad_end 12 (CalcStatus.to_string c.status)) (in_color (calc_status_color c.status))
    ∷ raw (append " " c.kind)
    ∷ error_span (take_chars 40 (or_empty c.error_message))
    ∷ [])

abbrev labelled : String → String → Line
labelled label value = raw (append label value) ∷ []

abbrev attempts_text : Calculation → String
attempts_text c = append (show_nat c.attempt) (append "/" (show_nat c.max_attempts))

abbrev is_detail : Pane → Bool
is_detail Pane.detail = true
is_detail _ = false

abbrev run_title : Option Run → String
run_title none = " Run "
run_title (some r) = append " " (append r.jira_issue_id " ")

module _ (formats : Formats) where
  unfoldable pub detail_text : Option Calculation → List Line
  unfolding CalcStatus.to_string take_chars show_nat
  detail_text none = (raw "No calculation selected" ∷ []) ∷ []
  detail_text (some c) =
      labelled "Kind:    " c.kind
      ∷ labelled "Status:  " (CalcStatus.to_string c.status)
      ∷ labelled "Attempt: " (attempts_text c)
      ∷ labelled "Input:   " (take_chars 80 (formats.json_text c.input_json))
      ∷ labelled "" ""
      ∷ labelled "Error:   " (or_dash c.error_message)
      ∷ labelled "Result:  " (or_dash c.result_path)
      ∷ []

  abbrev run_of : RunId → App → Option Run
  run_of id app = find_first (λ (r : Run). nat_eq r.id id) app.runs

  -- The two panels of a run.
  unfoldable pub render_run_detail : App → RunId → ListView × Paragraph
  unfolding calc_line detail_text border_color
  render_run_detail app id =
      let run = run_of id app in
      let calcs = calcs_of run in
      (
        record {
          panel = record {
            title = styled (run_title run) (in_color lavender);
            border = border_color (is_calc_list app.pane);
            content = map calc_line calcs;
          };
          selected = select_if_any calcs app.calc_cursor;
        },
        record {
          panel = record {
            title = styled " Detail " (in_color lavender);
            border = border_color (is_detail app.pane);
            content = detail_text (get_elem? calcs app.calc_cursor);
          };
          scroll = scroll_of app.detail_scroll;
        },
      )

  unfoldable pub meta_lines : Option Calculation → List Line
  unfolding CalcStatus.to_string show_nat
  meta_lines none = (raw "Calculation not found" ∷ []) ∷ []
  meta_lines (some c) =
      labelled "ID:      " (formats.id_text c.id)
      ∷ labelled "Run:     " (formats.id_text c.run_id)
      ∷ labelled "Kind:    " c.kind
      ∷ labelled "Status:  " (CalcStatus.to_string c.status)
      ∷ labelled "Attempt: " (attempts_text c)
      ∷ labelled "Created: " (formats.utc_text c.created_at)
      ∷ labelled "Started: " (or_dash (Option.map formats.utc_text c.started_at))
      ∷ labelled "Completed: " (or_dash (Option.map formats.utc_text c.completed_at))
      ∷ labelled "" ""
      ∷ labelled "Error: " (or_dash c.error_message)
      ∷ labelled "Result path: " (or_dash c.result_path)
      ∷ []

  abbrev meta_color : Option Calculation → Color
  meta_color none = white
  meta_color (some c) = calc_status_color c.status

  abbrev input_text : Option Calculation → String
  input_text none = ""
  input_text (some c) = formats.json_pretty c.input_json

  -- `flat_map`
  abbrev every_calc : List Run → List Calculation
  every_calc [] = []
  every_calc (r ∷ rs) = r.calculations ++ every_calc rs

  -- The panels of a calculation: what is known of it, and its input.
  unfoldable pub render_calc_detail : App → CalcId → Panel (List Line) × Paragraph
  unfolding meta_lines calc_status_color lines
  render_calc_detail app id =
      let calc = find_first (λ (c : Calculation). nat_eq c.id id) (every_calc app.runs) in
      (
        record {
          title = styled " Calculation " (in_color lavender);
          border = meta_color calc;
          content = meta_lines calc;
        },
        record {
          panel = record {
            title = styled " Input JSON " (in_color lavender);
            border = surface1;
            content = map (λ (l : String). raw l ∷ []) (lines (input_text calc));
          };
          scroll = scroll_of app.detail_scroll;
        },
      )
