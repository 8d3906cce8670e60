-- ===== src/Runs/Ui/Dashboard/Counts.antt =====
-- The numbers on the dashboard (crates/runs/src/ui/screens/dashboard.rs).
use native.Mathlib.Decide.{dec_lt}
use native.Mathlib.Nat.{mul_comm, div-lt_iff_lt-mul, mul-div_cancel_left, mul-lt-mul_of_pos_right}
use ensurer_v.Prelude.{
  ℕ, ◌+◌, ◌*◌, ◌/◌, ◌≤◌, ◌<◌, ◌≡◌, ◌↔◌, refl, subst, Bool, true, Bool-cases, inl, inr, List, [],
  ◌∷◌, All, length, select, length-select-le, min, arith,
}
use ensurer_v.Common.CalcStatus.{CalcStatus, is_terminal}
use ensurer_v.Common.RunStatus.{RunStatus}
use ensurer_v.Common.Model.{Run, Calculation}
use ensurer_v.Runs.App.State.{App}
use ensurer_v.Runs.Ui.Dashboard.{
  is_run_status, is_calc_status, run_count, calc_count, all_statuses, filled_cells, done_count,
}

abbrev runs_of : List Run → RunStatus → ℕ
runs_of rs s = length (select (λ (r : Run). is_run_status r.status s) rs)

abbrev RunsSum : List Run → Type 0
RunsSum rs =
    runs_of rs RunStatus.pending
      + runs_of rs RunStatus.running
      + runs_of rs RunStatus.succeeded
      + runs_of rs RunStatus.failed
      + runs_of rs RunStatus.cancelled
      + runs_of rs RunStatus.partially_succeeded
    ≡ length rs

RunsSum-cons :
    (r : Run) (rs : List Run) (s : RunStatus) → r.status ≡ s → RunsSum rs → RunsSum (r ∷ rs)
RunsSum-cons r rs RunStatus.pending e ih = rw e (omega (arith, ih))
RunsSum-cons r rs RunStatus.running e ih = rw e (omega (arith, ih))
RunsSum-cons r rs RunStatus.succeeded e ih = rw e (omega (arith, ih))
RunsSum-cons r rs RunStatus.failed e ih = rw e (omega (arith, ih))
RunsSum-cons r rs RunStatus.cancelled e ih = rw e (omega (arith, ih))
RunsSum-cons r rs RunStatus.partially_succeeded e ih = rw e (omega (arith, ih))

runs_sum : (rs : List Run) → RunsSum rs
runs_sum [] = refl
runs_sum (r ∷ rs) = RunsSum-cons r rs r.status refl (runs_sum rs)

abbrev calcs_of : List CalcStatus → CalcStatus → ℕ
calcs_of cs s = length (select (λ c. is_calc_status c s) cs)

abbrev CalcsSum : List CalcStatus → Type 0
CalcsSum cs =
    calcs_of cs CalcStatus.pending
      + calcs_of cs CalcStatus.running
      + calcs_of cs CalcStatus.retrying
      + calcs_of cs CalcStatus.succeeded
      + calcs_of cs CalcStatus.failed
      + calcs_of cs CalcStatus.cancelled
    ≡ length cs

calcs_sum : (cs : List CalcStatus) → CalcsSum cs
calcs_sum [] = refl
calcs_sum (CalcStatus.pending ∷ cs) = omega (arith, calcs_sum cs)
calcs_sum (CalcStatus.running ∷ cs) = omega (arith, calcs_sum cs)
calcs_sum (CalcStatus.retrying ∷ cs) = omega (arith, calcs_sum cs)
calcs_sum (CalcStatus.succeeded ∷ cs) = omega (arith, calcs_sum cs)
calcs_sum (CalcStatus.failed ∷ cs) = omega (arith, calcs_sum cs)
calcs_sum (CalcStatus.cancelled ∷ cs) = omega (arith, calcs_sum cs)

-- The six numbers of runs by status add up to the number of runs, and the six of calculations to the
-- number of calculations of all runs.
pub run_count-calc_count :
    (app : App)
    → (run_count app RunStatus.pending
          + run_count app RunStatus.running
          + run_count app RunStatus.succeeded
          + run_count app RunStatus.failed
          + run_count app RunStatus.cancelled
          + run_count app RunStatus.partially_succeeded
        ≡ length app.runs)
      × (calc_count app CalcStatus.pending
            + calc_count app CalcStatus.running
            + calc_count app CalcStatus.retrying
            + calc_count app CalcStatus.succeeded
            + calc_count app CalcStatus.failed
            + calc_count app CalcStatus.cancelled
          ≡ length (all_statuses app.runs))
unfolding run_count calc_count
run_count-calc_count app = (runs_sum app.runs, calcs_sum (all_statuses app.runs))

-- As many cells as the bar is wide exactly when all is done.
filled_cells-full :
    (done total width : ℕ)
    → 0 < total
    → 0 < width
    → done ≤ total
    → (filled_cells done total width ≡ width) ↔ (done ≡ total)
unfolding filled_cells
filled_cells-full done total width t w h = (full, done_all)
  where
    full : min (done * width / total) width ≡ width → done ≡ total
    full e = elim (dec_lt done total) [
      | yes less ↦
          let below = (div-lt_iff_lt-mul {y = width} t).1 (
            subst (λ k. done * width < k) (mul_comm total width)
              (mul-lt-mul_of_pos_right less w)) in
          absurd (omega (arith, below, e))
      | no more ↦ omega (arith, more, h)
    ]

    done_all : done ≡ total → min (done * width / total) width ≡ width
    done_all e = let exact = mul-div_cancel_left width t in rw e (omega (arith, exact))

select-All :
    (p : Calculation → Bool) (cs : List Calculation)
    → (length (select p cs) ≡ length cs) ↔ All (λ c. p c ≡ true) cs
select-All p [] = (λ _. tt, λ _. refl)
select-All p (c ∷ cs) = elim (Bool-cases (p c)) [
  | inl e ↦
      let ih = select-All p cs in
      rw e (λ h. (refl, ih.0 (omega (arith, h))), λ h. omega (arith, ih.1 h.1))
  | inr e ↦
      let le = length-select-le p cs in rw e (λ h. absurd (omega (arith, h, le)), λ h. cc (h.0))
]

-- The bar of a run that has calculations is full exactly when all of them have ended.
pub filled_cells-done_count :
    (run : Run) (width : ℕ)
    → 0 < length run.calculations
    → 0 < width
    → (filled_cells (done_count run) (length run.calculations) width ≡ width)
      ↔ All (λ (c : Calculation). is_terminal c.status ≡ true) run.calculations
unfolding done_count
filled_cells-done_count run width t w =
    let ended = λ (c : Calculation). is_terminal c.status in
    let bar =
      filled_cells-full (length (select ended run.calculations)) (length run.calculations) width t w
        (length-select-le ended run.calculations) in
    let every = select-All ended run.calculations in
    (λ h. every.0 (bar.0 h), λ h. bar.1 (every.1 h))
