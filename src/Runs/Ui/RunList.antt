-- ===== src/Runs/Ui/RunList.antt =====
-- crates/runs/src/ui/screens/run_list.rs: the list of the runs, and the calculations of the selected one.
use ensurer_v.Prelude.{
  ℕ, suc, String, append, Bool, true, false, ◌&&◌, Option, none, some, List, [], ◌∷◌, ◌++◌, map,
  length, leb, show_nat, repeat, pad_end, if◌then◌else◌,
}
use mathlib.Core.Option
use ensurer_v.Common.CalcStatus
use ensurer_v.Common.RunStatus
use ensurer_v.Common.Model.{Run, Calculation}
use ensurer_v.Runs.App.State.{App, Pane, visible_runs, selected_run, visual_range}
use ensurer_v.Runs.Ui.Colors.{
  Style, Line, Span, Panel, no_style, styled, raw, in_color, on, run_status_color,
  calc_status_color, border_color, overlay0, surface1, lavender, text,
}
use ensurer_v.Runs.Ui.Highlight.{Painted, painted, panicked, unfinished, highlight_match}

-- A `ListItem` with its own style.
pub record Item : Type 0 where
  pub line : Line
  pub style : Style

-- A bordered list, with the place of the entry that is selected.
pub record ListView : Type 0 where
  pub panel : Panel (List Item)
  pub selected : Option ℕ

-- A panic is none. The loop of the marking always ends.
abbrev pub spans_of : Painted → Option (List Span)
spans_of (painted spans) = some spans
spans_of panicked = none
spans_of unfinished = none

abbrev pub plain_item : Line → Item
plain_item line = record { line = line; style = no_style }

abbrev pub contains_place : Option (ℕ × ℕ) → ℕ → Bool
contains_place none i = false
contains_place (some (low, high)) i = leb low i && leb i high

abbrev pub or_empty : Option String → String
or_empty none = ""
or_empty (some s) = s

abbrev both : Option Item → Option (List Item) → Option (List Item)
both (some x) (some xs) = some (x ∷ xs)
both (some x) none = none
both none rest = none

abbrev pub filter_hint : Option String → String
filter_hint none = ""
filter_hint (some s) = append " [filter: " (append s "]")

abbrev pub is_run_list : Pane → Bool
is_run_list Pane.run_list = true
is_run_list _ = false

abbrev pub is_calc_list : Pane → Bool
is_calc_list Pane.calc_list = true
is_calc_list _ = false

abbrev pub selected_in : List Run → ℕ → Option ℕ
selected_in [] cursor = none
selected_in (r ∷ rs) cursor = some cursor

module _ (to_lowercase : String → String) where
  -- The closure of `map`, on a run and its place.
  unfoldable pub run_item : Option (ℕ × ℕ) → String → ℕ → Run → Option Item
  unfolding highlight_match run_status_color RunStatus.to_string show_nat repeat
  run_item range query i r =
      Option.map
        (λ marks. record {
          line =
              styled (pad_end 14 (RunStatus.to_string r.status))
                (in_color (run_status_color r.status))
              ∷ (marks
                  ++ raw " "
                    ∷ styled (append "(" (append (show_nat (length r.calculations)) " calcs)"))
                        (in_color overlay0)
                    ∷ []);
          style = if contains_place range i then on surface1 (in_color text) else no_style;
        })
        (spans_of (highlight_match to_lowercase query text r.jira_issue_id))

  unfoldable pub run_items : Option (ℕ × ℕ) → String → ℕ → List Run → Option (List Item)
  unfolding run_item
  run_items range query i [] = some []
  run_items range query i (r ∷ rs) =
      both (run_item range query i r) (run_items range query (suc i) rs)

  unfoldable pub render_runs_pane : App → Option ListView
  unfolding run_items visible_runs visual_range border_color
  render_runs_pane app =
      Option.map
        (λ items. record {
          panel = record {
            title =
                styled (append " Runs" (append (filter_hint app.filter.status) " "))
                  (in_color lavender);
            border = border_color (is_run_list app.pane);
            content = items;
          };
          selected = selected_in (visible_runs app) app.run_cursor;
        })
        (run_items (visual_range app) (or_empty app.filter.search) 0 (visible_runs app))

abbrev calc_item : Calculation → Item
calc_item c = plain_item (
    styled (pad_end 14 (CalcStatus.to_string c.status)) (in_color (calc_status_color c.status))
    ∷ styled c.kind (in_color text)
    ∷ raw " "
    ∷ styled (append "#" (show_nat c.attempt)) (in_color overlay0)
    ∷ [])

abbrev title_of : Option Run → String
title_of none = " Calculations "
title_of (some r) = append " " (append r.jira_issue_id " ")

abbrev pub calcs_of : Option Run → List Calculation
calcs_of none = []
calcs_of (some r) = r.calculations

abbrev pub select_if_any : List Calculation → ℕ → Option ℕ
select_if_any [] cursor = none
select_if_any (c ∷ cs) cursor = some cursor

unfoldable pub render_calcs_preview : App → ListView
unfolding selected_run border_color calc_status_color CalcStatus.to_string show_nat repeat
render_calcs_preview app =
    let run = selected_run app in
    record {
      panel = record {
        title = styled (title_of run) (in_color lavender);
        border = border_color (is_calc_list app.pane);
        content = map calc_item (calcs_of run);
      };
      selected = select_if_any (calcs_of run) app.calc_cursor;
    }
