-- ===== src/Runs/App/Update/Ranges.antt =====
-- The range of the visual mode (crates/runs/src/app/update.rs): which runs it holds.
use ensurer_v.Prelude.{
  ℕ, suc, ◌+◌, ◌-◌, ◌≤◌, ◌≡◌, refl, sym, ap, ◌∙◌, none, some, take-nil, drop-nil, Bool-cases, inl,
  inr, List, [], ◌∷◌, map, select, take, drop, enumerate_from, leb, min, max, arith,
}
use ensurer_v.Common.Model.{Run}
use ensurer_v.Runs.App.State.{App, visible_runs, visual_range}
use ensurer_v.Runs.App.Update.Selection.{in_range, runs_in, cancel_effect, cancel_range, on_cancel}

abbrev chosen : ℕ × ℕ → ℕ → List Run → List Run
chosen range n xs =
    map (λ (p : ℕ × Run). p.1) (select (λ (p : ℕ × Run). in_range range p.0) (enumerate_from n xs))

-- Behind the range's beginning, its runs are the first ones, up to its end.
chosen-inside : (lo hi n : ℕ) (xs : List Run) → lo ≤ n → chosen (lo, hi) n xs ≡ take (hi + 1 - n) xs
chosen-inside lo hi n [] h = sym (take-nil (hi + 1 - n))
chosen-inside lo hi n (x ∷ xs) h = elim (Bool-cases (leb n hi)) [
  | inl e ↦
      let size : hi + 1 - n ≡ suc (hi + 1 - suc n) = ground (arith, e) in
      rw size (ground (arith, e, chosen-inside lo hi (suc n) xs))
  | inr e ↦
      let size : hi + 1 - n ≡ 0 = ground (arith, e) in
      let later : hi + 1 - suc n ≡ 0 = ground (arith, e) in
      rw size (ground (arith, e, later, chosen-inside lo hi (suc n) xs))
]

chosen-before :
    (lo hi n : ℕ) (xs : List Run)
    → n ≤ lo
    → lo ≤ hi
    → chosen (lo, hi) n xs ≡ take (hi + 1 - lo) (drop (lo - n) xs)
chosen-before lo hi n [] h k =
    sym (ap (take (hi + 1 - lo)) (drop-nil (lo - n)) ∙ take-nil (hi + 1 - lo))
chosen-before lo hi n (x ∷ xs) h k = elim (Bool-cases (leb lo n)) [
  | inl e ↦
      let here : lo ≡ n = ground (arith, e) in
      let start : lo - n ≡ 0 = omega (arith, here) in
      rw start (ground (arith, here, chosen-inside lo hi n (x ∷ xs)))
  | inr e ↦
      let start : lo - n ≡ suc (lo - suc n) = ground (arith, e) in
      rw start (ground (arith, e, chosen-before lo hi (suc n) xs))
]

pub runs_in-take :
    (lo hi : ℕ) (app : App)
    → lo ≤ hi
    → runs_in (lo, hi) app ≡ take (hi + 1 - lo) (drop lo (visible_runs app))
unfolding runs_in
runs_in-take lo hi app h =
    let start : lo - 0 ≡ lo = omega arith in
    chosen-before lo hi 0 (visible_runs app) (omega arith) h
    ∙ ap (λ k. take (hi + 1 - lo) (drop k (visible_runs app))) start

-- In the visual mode, the key for a cancellation asks the daemon to cancel exactly the visible runs
-- from the place where the mode began to the cursor, both included and in either order, and the mode
-- ends.
pub on_cancel-visual_range :
    (app : App) (anchor : ℕ)
    → app.visual_anchor ≡ some anchor
    → let lo = min anchor app.run_cursor in
      let hi = max anchor app.run_cursor in
      let (app', effects) = on_cancel (visual_range app) app in
      (effects ≡ map cancel_effect (take (hi + 1 - lo) (drop lo (visible_runs app))))
      × (app'.visual_anchor ≡ none)
unfolding on_cancel visual_range cancel_range
on_cancel-visual_range app anchor e =
    let lo = min anchor app.run_cursor in
    let hi = max anchor app.run_cursor in
    rw e (ap (map cancel_effect) (runs_in-take lo hi app (omega arith)), refl)
