-- ===== src/Runs/Ui/Dashboard/Jobs.antt =====
-- The lists of runs on the dashboard (crates/runs/src/ui/screens/dashboard.rs).
use mathlib.Core.List.{Perm, perm_middle}
use mathlib.Core.List.Perm
use ensurer_v.Prelude.{
  ℕ, ◌≤◌, ◌≡◌, refl, subst, Bool, true, false, not, ◌||◌, ◌⊎◌, Bool-cases, inl, inr, List, [], ◌∷◌,
  ◌++◌, All, All-mono, select, insert_by, order_by, ltb, arith,
}
use ensurer_v.Common.RunStatus.{RunStatus}
use ensurer_v.Common.Model.{Run}
use ensurer_v.Runs.App.State.{App}
use ensurer_v.Runs.Ui.Dashboard.{
  is_active, is_past, is_later, is_run_status, active_runs, past_runs,
}

-- The later an entry stands, the smaller its number.
abbrev pub Descends : {A : Type 0} → (A → ℕ) → List A → Type 0
Descends key [] = Unit
Descends key (x ∷ xs) = All (λ y. key y ≤ key x) xs × Descends key xs

insert_by-perm :
    {A : Type 0} (before : A → A → Bool) (x : A) (ys : List A)
    → Perm (insert_by before x ys) (x ∷ ys)
unfolding insert_by
insert_by-perm before x [] = Perm.refl (x ∷ [])
insert_by-perm before x (y ∷ ys) = elim (Bool-cases (before y x)) [
  | inl e ↦ rw e (Perm.trans (Perm.cons y (insert_by-perm before x ys)) (Perm.swap x y ys))
  | inr e ↦ rw e (Perm.refl (x ∷ y ∷ ys))
]

order_by-perm : {A : Type 0} (before : A → A → Bool) (xs : List A) → Perm (order_by before xs) xs
unfolding order_by
order_by-perm before [] = Perm.refl []
order_by-perm before (x ∷ xs) =
    Perm.trans (insert_by-perm before x (order_by before xs))
      (Perm.cons x (order_by-perm before xs))

insert_by-All :
    {A : Type 0} (P : A → Type 0) (before : A → A → Bool) (x : A) (ys : List A)
    → P x
    → All P ys
    → All P (insert_by before x ys)
unfolding insert_by
insert_by-All P before x [] p h = (p, tt)
insert_by-All P before x (y ∷ ys) p h = elim (Bool-cases (before y x)) [
  | inl e ↦ rw e (h.0, insert_by-All P before x ys p h.1)
  | inr e ↦ rw e (p, h)
]

module _ {A : Type 0} (key : A → ℕ) where
  abbrev above : A → A → Bool
  above a b = ltb (key b) (key a)

  insert_by-Descends : (x : A) (ys : List A) → Descends key ys → Descends key (insert_by above x ys)
  unfolding insert_by
  insert_by-Descends x [] d = (tt, tt)
  insert_by-Descends x (y ∷ ys) d = elim (Bool-cases (above y x)) [
    | inl e ↦
        let le : key x ≤ key y = ground (arith, e) in
        rw e (insert_by-All (λ z. key z ≤ key y) above x ys le d.0, insert_by-Descends x ys d.1)
    | inr e ↦
        let le : key y ≤ key x = ground (arith, e) in
        rw e ((le, All-mono ys (λ z h. omega arith) d.0), d)
  ]

  order_by-Descends : (xs : List A) → Descends key (order_by above xs)
  unfolding order_by
  order_by-Descends [] = tt
  order_by-Descends (x ∷ xs) = insert_by-Descends x (order_by above xs) (order_by-Descends xs)

select-perm :
    {A : Type 0} (p q : A → Bool) (xs : List A)
    → ((a : A) → q a ≡ not (p a))
    → Perm (select p xs ++ select q xs) xs
select-perm p q [] h = Perm.refl []
select-perm p q (x ∷ xs) h = elim (Bool-cases (p x)) [
  | inl e ↦
      let g : q x ≡ false = ground (arith, h x, e) in rw (e, g) (Perm.cons x (select-perm p q xs h))
  | inr e ↦
      let g : q x ≡ true = ground (arith, h x, e) in
      rw (e, g)
        (Perm.trans (perm_middle (select p xs) (select q xs)) (Perm.cons x (select-perm p q xs h)))
]

is_past_lem :
    (s : RunStatus)
    → is_past s ≡ not (is_run_status s RunStatus.running || is_run_status s RunStatus.pending)
is_past_lem RunStatus.pending = refl
is_past_lem RunStatus.running = refl
is_past_lem RunStatus.succeeded = refl
is_past_lem RunStatus.failed = refl
is_past_lem RunStatus.cancelled = refl
is_past_lem RunStatus.partially_succeeded = refl

abbrev pub IsActive : Run → Type 0
IsActive r = (r.status ≡ RunStatus.running) ⊎ (r.status ≡ RunStatus.pending)

active_lem :
    (s : RunStatus)
    → (is_run_status s RunStatus.running || is_run_status s RunStatus.pending) ≡ true
    → (s ≡ RunStatus.running) ⊎ (s ≡ RunStatus.pending)
active_lem RunStatus.pending h = inr refl
active_lem RunStatus.running h = inl refl
active_lem RunStatus.succeeded h = cc (h)
active_lem RunStatus.failed h = cc (h)
active_lem RunStatus.cancelled h = cc (h)
active_lem RunStatus.partially_succeeded h = cc (h)

All-IsActive : (rs : List Run) → All IsActive (select is_active rs)
All-IsActive [] = tt
All-IsActive (r ∷ rs) = elim (Bool-cases (is_active r)) [
  | inl e ↦ rw e (active_lem r.status e, All-IsActive rs)
  | inr e ↦ rw e (All-IsActive rs)
]

active_no :
    (s : RunStatus) → is_past s ≡ true → ¬ ((s ≡ RunStatus.running) ⊎ (s ≡ RunStatus.pending))
active_no s h (inl e) = cc (subst (λ t. is_past t ≡ true) e h)
active_no s h (inr e) = cc (subst (λ t. is_past t ≡ true) e h)

All-IsPast : (rs : List Run) → All (λ r. ¬ IsActive r) (select (λ (r : Run). is_past r.status) rs)
All-IsPast [] = tt
All-IsPast (r ∷ rs) = elim (Bool-cases (is_past r.status)) [
  | inl e ↦ rw e (active_no r.status e, All-IsPast rs)
  | inr e ↦ rw e (All-IsPast rs)
]

-- Entries of the second list, in its order.
pub data InOrder {A : Type 0} : List A → List A → Type 0 where
  nil : InOrder [] []
  kept : (x : A) {xs ys : List A} → InOrder xs ys → InOrder (x ∷ xs) (x ∷ ys)
  skipped : (x : A) {xs ys : List A} → InOrder xs ys → InOrder xs (x ∷ ys)

select-InOrder : {A : Type 0} (p : A → Bool) (xs : List A) → InOrder (select p xs) xs
select-InOrder p [] = nil
select-InOrder p (x ∷ xs) = elim (Bool-cases (p x)) [
  | inl e ↦ rw e (kept x (select-InOrder p xs))
  | inr e ↦ rw e (skipped x (select-InOrder p xs))
]

order_by-All :
    {A : Type 0} (P : A → Type 0) (before : A → A → Bool) (xs : List A)
    → All P xs
    → All P (order_by before xs)
unfolding order_by
order_by-All P before [] h = tt
order_by-All P before (x ∷ xs) h =
    insert_by-All P before x (order_by before xs) h.0 (order_by-All P before xs h.1)

-- The dashboard lists every run once: those that are pending or running in their order, and those
-- that are neither with the latest update first.
pub active_runs-past_runs :
    (app : App)
    → All IsActive (active_runs app)
      × InOrder (active_runs app) app.runs
      × All (λ (r : Run). ¬ IsActive r) (past_runs app)
      × Perm (active_runs app ++ past_runs app) app.runs
      × Descends (λ (r : Run). r.updated_at) (past_runs app)
unfolding active_runs past_runs
active_runs-past_runs app = (
  All-IsActive app.runs,
  select-InOrder is_active app.runs,
  order_by-All (λ (r : Run). ¬ IsActive r) is_later
      (select (λ (r : Run). is_past r.status) app.runs) (All-IsPast app.runs),
  Perm.trans
      (Perm.append_left (select is_active app.runs)
        (order_by-perm is_later (select (λ (r : Run). is_past r.status) app.runs)))
      (select-perm is_active (λ (r : Run). is_past r.status) app.runs (λ r. is_past_lem r.status)),
  order_by-Descends (λ (r : Run). r.updated_at) (select (λ (r : Run). is_past r.status) app.runs),
)
