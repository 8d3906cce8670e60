-- ===== src/Runs/App/Update/Credit.antt =====
-- What each action asks of the next page of runs (crates/runs/src/app/update.rs).
use ensurer_v.Prelude.{
  ℕ, zero, suc, ◌+◌, ◌≤◌, ◌≡◌, refl, sym, ◌∙◌, String, Bool, Option, none, some, List, [], ◌∷◌,
  ◌++◌, map, arith, Bool-cases, Option-cases, inl, inr,
}
use ensurer_v.Common.RunStatus.{is_failed}
use ensurer_v.Common.Model.{Run, Calculation}
use ensurer_v.Runs.App.State.{App, Pane, Screen, selected_calc}
use ensurer_v.Runs.App.Message.{Effect, network, NetworkCmd}
use ensurer_v.Runs.App.Update.Command.{Updated}
use ensurer_v.Runs.App.Update.Motion.{
  move_cursor_down, move_cursor_up, repeat, goto_top, goto_bottom, half_page_down, half_page_up,
  advance_search,
}
use ensurer_v.Runs.App.Update.Actions.{
  on_back, on_dashboard, on_enter, on_visual_toggle, more_at_bottom, down_by, up_by,
}
use ensurer_v.Runs.App.Update.Selection.{
  quiet, on_cancel, cancel_range, cancel_effect, on_retry, retry_with, retry_effect, retry_effects,
  runs_in,
}

-- 1 for a request for the next page, 0 for any other effect.
abbrev weight : Effect → ℕ
weight (network (NetworkCmd.load_more_runs cursor)) = 1
weight _ = 0

-- How often the effects ask for the next page.
unfoldable pub page_requests : List Effect → ℕ
page_requests [] = 0
page_requests (e ∷ es) = weight e + page_requests es

-- The request that the cursor stands for.
unfoldable pub credit : Option String → ℕ
credit none = 0
credit (some cursor) = 1

-- A request takes the cursor along, and nothing brings one.
abbrev pub Frugal : App → Updated → Type 0
Frugal a (b, es) = page_requests es + credit b.next_cursor ≤ credit a.next_cursor

pub free-Frugal :
    (es : List Effect) {c d : Option String}
    → page_requests es ≡ 0
    → d ≡ c
    → page_requests es + credit d ≤ credit c
free-Frugal es w e = rw e (omega (arith, w))

pub quiet-Frugal : {c d : Option String} → d ≡ c → page_requests [] + credit d ≤ credit c
unfolding page_requests
quiet-Frugal e = free-Frugal [] refl e

pub one-Frugal :
    (e : Effect) {c d : Option String}
    → weight e ≡ 0
    → d ≡ c
    → page_requests (e ∷ []) + credit d ≤ credit c
unfolding page_requests
one-Frugal e w n = free-Frugal (e ∷ []) (omega (arith, w)) n

-- What keeps the cursor, as a change of the state.
abbrev pub KeepsCursor : (App → App) → Type 0
KeepsCursor f = (a : App) → (f a).next_cursor ≡ a.next_cursor

move-KeepsCursor : KeepsCursor move_cursor_down × KeepsCursor move_cursor_up
unfolding move_cursor_down move_cursor_up
move-KeepsCursor = (λ a. ground arith, λ a. ground arith)

repeat-KeepsCursor : (n : ℕ) (f : App → App) → KeepsCursor f → KeepsCursor (repeat n f)
unfolding repeat
repeat-KeepsCursor zero f h a = refl
repeat-KeepsCursor (suc n) f h a = repeat-KeepsCursor n f h (f a) ∙ h a

more-Frugal :
    (pane : Pane) (a b : App) → b.next_cursor ≡ a.next_cursor → Frugal a (more_at_bottom pane b)
unfolding page_requests credit
more-Frugal Pane.run_list a b e = rw (sym e) (ground arith)
more-Frugal _ a b e = quiet-Frugal e

pub down-Frugal : (count : ℕ) (pane : Pane) (a : App) → Frugal a (down_by count pane a)
down-Frugal count Pane.detail a = quiet-Frugal refl
down-Frugal count _ a =
    more-Frugal _ a _ (repeat-KeepsCursor count move_cursor_down move-KeepsCursor.0 a)

pub up-Frugal : (count : ℕ) (pane : Pane) (a : App) → Frugal a (quiet (up_by count pane a))
up-Frugal count Pane.detail a = quiet-Frugal refl
up-Frugal count _ a = quiet-Frugal (repeat-KeepsCursor count move_cursor_up move-KeepsCursor.1 a)

pub motions-KeepsCursor :
    (count : ℕ)
    → KeepsCursor goto_top
      × KeepsCursor goto_bottom
      × KeepsCursor (half_page_down count)
      × KeepsCursor (half_page_up count)
unfolding goto_top goto_bottom half_page_down half_page_up
motions-KeepsCursor count =
    (λ a. ground arith, λ a. ground arith, λ a. ground arith, λ a. ground arith)

pub others-KeepsCursor :
    (forward : Bool) (screen : Screen) (pane : Pane) (anchor : Option ℕ)
    → KeepsCursor (advance_search forward)
      × KeepsCursor (on_dashboard screen)
      × KeepsCursor (on_enter pane)
      × KeepsCursor (on_back anchor)
      × KeepsCursor (on_visual_toggle pane)
unfolding advance_search on_dashboard on_enter on_back on_visual_toggle
others-KeepsCursor forward screen pane anchor =
    (λ a. ground arith, λ a. ground arith, λ a. ground arith, λ a. ground arith, λ a. ground arith)

page_requests-cancels : (rs : List Run) → page_requests (map cancel_effect rs) ≡ 0
unfolding page_requests
page_requests-cancels [] = refl
page_requests-cancels (r ∷ rs) = ground (arith, page_requests-cancels rs)

pub page_requests-append :
    (es fs : List Effect) → page_requests (es ++ fs) ≡ page_requests es + page_requests fs
unfolding page_requests
page_requests-append [] fs = omega arith
page_requests-append (e ∷ es) fs = omega (arith, page_requests-append es fs)

page_requests-retries :
    (id : ℕ) (cs : List Calculation) → page_requests (map (retry_effect id) cs) ≡ 0
unfolding page_requests
page_requests-retries id [] = refl
page_requests-retries id (c ∷ cs) = ground (arith, page_requests-retries id cs)

page_requests-retry_effects : (rs : List Run) → page_requests (retry_effects rs) ≡ 0
unfolding page_requests retry_effects
page_requests-retry_effects [] = refl
page_requests-retry_effects (r ∷ rs) =
    page_requests-append _ (retry_effects rs)
    ∙ omega (arith, page_requests-retries r.id _, page_requests-retry_effects rs)

retry_with-free :
    (app : App) (es : List Effect) → page_requests es ≡ 0 → page_requests (retry_with app es).1 ≡ 0
retry_with-free app [] h = h
retry_with-free app (e ∷ es) h = h

retry_with-KeepsCursor : (es : List Effect) → KeepsCursor (λ a. (retry_with a es).0)
retry_with-KeepsCursor [] a = refl
retry_with-KeepsCursor (e ∷ es) a = refl

pub retry-Frugal : (range : Option (ℕ × ℕ)) (app : App) → Frugal app (on_retry range app)
unfolding on_retry
retry-Frugal (some range) app =
    let es = retry_effects (runs_in range app) in
    let app' = record app { visual_anchor = none } in
    free-Frugal (retry_with app' es).1
      (retry_with-free app' es (page_requests-retry_effects (runs_in range app)))
      (retry_with-KeepsCursor es app')
retry-Frugal none app = elim (Option-cases (selected_calc app)) [
  | inl e ↦ rw e (quiet-Frugal refl)
  | inr (c, e) ↦ elim (Bool-cases (is_failed c.status)) [
    | inl f ↦ rw e (rw f (one-Frugal (retry_effect c.run_id c) refl refl))
    | inr f ↦ rw e (rw f (quiet-Frugal refl))
  ]
]

pub cancel-Frugal : (range : Option (ℕ × ℕ)) (app : App) → Frugal app (on_cancel range app)
unfolding on_cancel cancel_range
cancel-Frugal (some range) app = free-Frugal _ (page_requests-cancels (runs_in range app)) refl
cancel-Frugal none app = quiet-Frugal (ground arith)
