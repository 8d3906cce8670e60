-- ===== src/Runs/App/Update/Retries.antt =====
-- The effects of the client that ask for a retry (crates/runs/src/app/update.rs).
use ensurer_v.Prelude.{
  ℕ, zero, suc, ◌≡◌, Bool, true, ◌&&◌, Option, none, some, List, [], ◌∷◌, map, any, select,
  enumerate_from, get_elem?, nat_eq, nat_eq_iff, arith, All, All-append, All-select, All-map,
  All-mono, Bool-cases, Option-cases, inl, inr,
}
use ensurer_v.Common.RunStatus.{is_failed}
use ensurer_v.Common.Model.{CalcId, Run, Calculation}
use ensurer_v.Runs.App.State.{App, is_visible, visible_runs, selected_run, selected_calc}
use ensurer_v.Runs.App.Message.{Effect, network, NetworkCmd}
use ensurer_v.Runs.App.Update.Selection.{
  on_cancel, cancel_range, cancel_effect, on_retry, runs_in, retry_effect, retry_effects,
  retry_with,
}

module _ {ℓ} {A : Type ℓ} where
  any-get_elem? :
      (p : A → Bool) (xs : List A) (i : ℕ) {x : A}
      → get_elem? xs i ≡ some x
      → p x ≡ true
      → any p xs ≡ true
  any-get_elem? p [] i g e = absurd (ground (arith, g))
  any-get_elem? p (y ∷ ys) zero g e = ground (arith, g, e)
  any-get_elem? p (y ∷ ys) (suc i) {x} g e = ground (arith, any-get_elem? p ys i {x = x} g e)

  any-select : (q p : A → Bool) (xs : List A) → any p (select q xs) ≡ true → any p xs ≡ true
  any-select q p [] e = e
  any-select q p (x ∷ xs) e = ground (arith, e, any-select q p xs)

  -- Every entry of a list passes what no test that it passes rejects in the list.
  All-any : (xs : List A) → All (λ x. (p : A → Bool) → p x ≡ true → any p xs ≡ true) xs
  All-any [] = tt
  All-any (x ∷ xs) =
      (λ p e. ground (arith, e), All-mono xs (λ y h p e. ground (arith, h p e)) (All-any xs))

-- A run of the list holds a failed calculation with that id.
unfoldable pub has_failed : List Run → CalcId → Bool
has_failed runs id =
    any
      (λ (r : Run). any (λ (c : Calculation). nat_eq c.id id && is_failed c.status) r.calculations)
      runs

-- An effect that asks for a retry is about a failed calculation of the list.
abbrev pub IsJust : List Run → Effect → Type 0
IsJust runs (network (NetworkCmd.retry_calc run_id calc_id)) = has_failed runs calc_id ≡ true
IsJust runs _ = Unit

-- A run that every test finds that it passes.
abbrev IsIn : List Run → Run → Type 0
IsIn runs r = (p : Run → Bool) → p r ≡ true → any p runs ≡ true

numbered-All :
    (P : Run → Type 0) (n : ℕ) (xs : List Run)
    → All P xs
    → All (λ (q : ℕ × Run). P q.1) (enumerate_from n xs)
numbered-All P n [] h = tt
numbered-All P n (x ∷ xs) h = (h.0, numbered-All P (suc n) xs h.1)

runs_in-All : (range : ℕ × ℕ) (app : App) → All (IsIn app.runs) (runs_in range app)
unfolding runs_in visible_runs
runs_in-All range app =
    All-map (IsIn app.runs) (λ (q : ℕ × Run). q.1) _
      (All-select (λ (q : ℕ × Run). IsIn app.runs q.1) _ _
        (numbered-All (IsIn app.runs) 0 _
          (All-select (IsIn app.runs) (is_visible app.filter) app.runs (All-any app.runs))))

abbrev is_failed_calc : CalcId → Calculation → Bool
is_failed_calc id c = nat_eq c.id id && is_failed c.status

-- If the calculation is failed, the runs hold a failed one with its id.
abbrev IsFound : List Run → Calculation → Type 0
IsFound runs c = is_failed c.status ≡ true → has_failed runs c.id ≡ true

failed-IsFound :
    (runs : List Run) (r : Run) (c : Calculation)
    → IsIn runs r
    → ((p : Calculation → Bool) → p c ≡ true → any p r.calculations ≡ true)
    → IsFound runs c
unfolding has_failed
failed-IsFound runs r c h k e =
    h (λ (q : Run). any (is_failed_calc c.id) q.calculations)
      (k (is_failed_calc c.id) (ground (arith, e, nat_eq_iff c.id c.id)))

failed-All :
    (runs : List Run) (r : Run) (cs : List Calculation)
    → All (IsFound runs) cs
    → All
        (IsJust runs)
        (map (retry_effect r.id) (select (λ (c : Calculation). is_failed c.status) cs))
failed-All runs r [] h = tt
failed-All runs r (c ∷ cs) h = elim (Bool-cases (is_failed c.status)) [
  | inl e ↦ rw e (h.0 e, failed-All runs r cs h.1)
  | inr e ↦ rw e (failed-All runs r cs h.1)
]

retry_effects-All : (runs rs : List Run) → All (IsIn runs) rs → All (IsJust runs) (retry_effects rs)
unfolding retry_effects
retry_effects-All runs [] h = tt
retry_effects-All runs (r ∷ rs) h =
    All-append (IsJust runs) _ (retry_effects rs)
      (failed-All runs r r.calculations
        (All-mono r.calculations (λ c. failed-IsFound runs r c h.0) (All-any r.calculations)))
      (retry_effects-All runs rs h.1)

selected_run-IsIn : (app : App) {r : Run} → selected_run app ≡ some r → IsIn app.runs r
unfolding selected_run visible_runs
selected_run-IsIn app e p h =
    any-select (is_visible app.filter) p app.runs
      (any-get_elem? p (visible_runs app) app.run_cursor e h)

selected_calc-IsFound :
    (app : App) {c : Calculation} → selected_calc app ≡ some c → IsFound app.runs c
unfolding selected_calc
selected_calc-IsFound app {c} e = elim (Option-cases (selected_run app)) [
  | inl f ↦ absurd (ground (arith, e, f))
  | inr (r, f) ↦
      failed-IsFound app.runs r c (selected_run-IsIn app f)
        (λ p h. any-get_elem? p r.calculations app.calc_cursor (ground (arith, e, f)) h)
]

retry_with-IsJust :
    (runs : List Run) (app : App) (es : List Effect)
    → All (IsJust runs) es
    → All (IsJust runs) (retry_with app es).1
retry_with-IsJust runs app [] h = h
retry_with-IsJust runs app (e ∷ es) h = h

pub retry-IsJust :
    (range : Option (ℕ × ℕ)) (app : App) → All (IsJust app.runs) (on_retry range app).1
unfolding on_retry
retry-IsJust (some range) app =
    retry_with-IsJust app.runs (record app { visual_anchor = none })
      (retry_effects (runs_in range app))
      (retry_effects-All app.runs (runs_in range app) (runs_in-All range app))
retry-IsJust none app = elim (Option-cases (selected_calc app)) [
  | inl e ↦ rw e tt
  | inr (c, e) ↦ elim (Bool-cases (is_failed c.status)) [
    | inl f ↦ rw e (rw f (selected_calc-IsFound app e f, tt))
    | inr f ↦ rw e (rw f tt)
  ]
]

cancels-IsJust : (runs rs : List Run) → All (IsJust runs) (map cancel_effect rs)
cancels-IsJust runs [] = tt
cancels-IsJust runs (r ∷ rs) = (tt, cancels-IsJust runs rs)

pub cancel-IsJust :
    (range : Option (ℕ × ℕ)) (app : App) → All (IsJust app.runs) (on_cancel range app).1
unfolding on_cancel cancel_range
cancel-IsJust (some range) app = cancels-IsJust app.runs (runs_in range app)
cancel-IsJust none app = tt
