-- ===== src/Runs/App/State/Index.antt =====
-- The index of the runs in crates/runs/src/app/state.rs: `run_index` gives the place of each run.
use ensurer_v.Prelude.{
  ℕ, zero, suc, get_elem?-set, get_elem?-append_one, get_elem?-length, Bool-cases, ◌≡◌, refl, ap,
  sym, ◌∙◌, Bool, true, false, Option, none, some, List, [], ◌∷◌, ◌++◌, position, length, get_elem?,
  set, nat_eq, nat_eq_iff, arith, if◌then◌else◌, Option-cases, inl, inr,
}
use mathlib.Core.Option
use ensurer_v.Common.CalcStatus.{CalcStatus}
use ensurer_v.Common.Model.{RunId, CalcId, Run}
use ensurer_v.Runs.App.State.{App, index_of, upsert_run, update_calc_status}

-- Where a run stands in the list.
abbrev pub place : RunId → List Run → Option ℕ
place id = position (λ (r : Run). nat_eq r.id id)

abbrev or_last : Option ℕ → Bool → ℕ → Option ℕ
or_last (some i) b n = some i
or_last none b n = if b then some n else none

or_last-suc :
    (o : Option ℕ) (b : Bool) (n : ℕ)
    → Option.map suc (or_last o b n) ≡ or_last (Option.map suc o) b (suc n)
or_last-suc (some i) b n = refl
or_last-suc none true n = refl
or_last-suc none false n = refl

place-append :
    (id : RunId) (runs : List Run) (run : Run)
    → place id (runs ++ run ∷ []) ≡ or_last (place id runs) (nat_eq run.id id) (length runs)
place-append id [] run = ground arith
place-append id (r ∷ rs) run =
    ground (arith, place-append id rs run, or_last-suc (place id rs) (nat_eq run.id id) (length rs))

index_of-append :
    (id key : RunId) (n : ℕ) (index : List (RunId × ℕ))
    → index_of id (index ++ (key, n) ∷ []) ≡ or_last (index_of id index) (nat_eq key id) n
index_of-append id key n [] = refl
index_of-append id key n ((k, i) ∷ rest) = ground (arith, index_of-append id key n rest)

-- A run in the place of one with its id leaves the places.
place-set :
    (id : RunId) (runs : List Run) (i : ℕ) (old run : Run)
    → get_elem? runs i ≡ some old
    → run.id ≡ old.id
    → place id (set runs i run) ≡ place id runs
place-set id [] i old run g e = refl
place-set id (r ∷ rs) zero old run g e = ground (arith, g, e)
place-set id (r ∷ rs) (suc i) old run g e = ground (arith, place-set id rs i old run g e)

-- The run in the place of an id has that id.
get_elem?-place :
    (id : RunId) (runs : List Run) (i : ℕ)
    → place id runs ≡ some i
    → (r : Run) × (get_elem? runs i ≡ some r) × (r.id ≡ id)
get_elem?-place id [] i h = absurd (cc h)
get_elem?-place id (r ∷ rs) i h = elim (Bool-cases (nat_eq r.id id)) [
  | inl e ↦ let first : i ≡ 0 = ground (arith, h, e) in rw first (r, refl, (nat_eq_iff r.id id).0 e)
  | inr e ↦ elim (Option-cases (place id rs)) [
    | inl none_there ↦ absurd (ground (arith, h, e, none_there))
    | inr (j, f) ↦
        let later : i ≡ suc j = ground (arith, h, e, f) in rw later (get_elem?-place id rs j f)
  ]
]

-- Each run stands where the index says, and the index names no other place.
pub record IsIndexed (app : App) : Type 0 where
  pub agrees : (id : RunId) → index_of id app.run_index ≡ place id app.runs
  pub own_place : (i : ℕ) (r : Run) → get_elem? app.runs i ≡ some r → place r.id app.runs ≡ some i

put-IsIndexed :
    (app : App) (i : ℕ) (old run : Run)
    → get_elem? app.runs i ≡ some old
    → run.id ≡ old.id
    → IsIndexed app
    → IsIndexed (record app { runs = set app.runs i run })
put-IsIndexed app i old run g e h = record {
  agrees = λ id. h.agrees id ∙ sym (place-set id app.runs i old run g e);
  own_place = λ j r k.
      place-set r.id app.runs i old run g e
      ∙ ground (
        arith,
        k,
        g,
        e,
        get_elem?-set app.runs i run j,
        nat_eq_iff i j,
        h.own_place j r,
        h.own_place i old,
      );
}

append-IsIndexed :
    (app : App) (run : Run)
    → place run.id app.runs ≡ none
    → IsIndexed app
    → IsIndexed (record app {
      run_index = app.run_index ++ (run.id, length app.runs) ∷ [];
      runs = app.runs ++ run ∷ [];
    })
append-IsIndexed app run absent h = record {
  agrees = λ id.
      index_of-append id run.id (length app.runs) app.run_index
      ∙ ap (λ o. or_last o (nat_eq run.id id) (length app.runs)) (h.agrees id)
      ∙ sym (place-append id app.runs run);
  own_place = λ j r k.
      place-append r.id app.runs run
      ∙ ground (
        arith,
        k,
        absent,
        get_elem?-append_one app.runs run j,
        nat_eq_iff run.id run.id,
        h.own_place j r,
      );
}

pub upsert_run-IsIndexed : (run : Run) (app : App) → IsIndexed app → IsIndexed (upsert_run run app)
unfolding upsert_run
upsert_run-IsIndexed run app h = elim (Option-cases (index_of run.id app.run_index)) [
  | inl e ↦ rw e (append-IsIndexed app run (sym (h.agrees run.id) ∙ e) h)
  | inr (i, e) ↦
      let (old, g, same) = get_elem?-place run.id app.runs i (sym (h.agrees run.id) ∙ e) in
      rw e (put-IsIndexed app i old run g (sym same) h)
]

pub update_calc_status-IsIndexed :
    (run_id : RunId) (calc_id : CalcId) (status : CalcStatus) (app : App)
    → IsIndexed app
    → IsIndexed (update_calc_status run_id calc_id status app)
unfolding update_calc_status
update_calc_status-IsIndexed run_id calc_id status app h =
    elim (Option-cases (index_of run_id app.run_index)) [
      | inl e ↦ rw e h
      | inr (i, e) ↦
          let (old, g, same) = get_elem?-place run_id app.runs i (sym (h.agrees run_id) ∙ e) in
          rw e (rw g (put-IsIndexed app i old _ g refl h))
    ]

-- The run that the index gives for an id.
abbrev pub run_at : List Run → Option ℕ → Option Run
run_at runs none = none
run_at runs (some i) = get_elem? runs i

abbrev pub find_run : RunId → App → Option Run
find_run id app = run_at app.runs (index_of id app.run_index)

find_run-append :
    (id : RunId) (run : Run) (app : App)
    → index_of run.id app.run_index ≡ none
    → IsIndexed app
    → run_at (app.runs ++ run ∷ []) (index_of id (app.run_index ++ (run.id, length app.runs) ∷ []))
      ≡ (if nat_eq run.id id then some run else find_run id app)
find_run-append id run app e h = elim (Option-cases (index_of id app.run_index)) [
  | inl f ↦ ground (
    arith,
    f,
    index_of-append id run.id (length app.runs) app.run_index,
    get_elem?-append_one app.runs run (length app.runs),
    nat_eq_iff (length app.runs) (length app.runs),
  )
  | inr (j, f) ↦
      let (r, g, same) = get_elem?-place id app.runs j (sym (h.agrees id) ∙ f) in
      ground (
        arith,
        e,
        f,
        g,
        index_of-append id run.id (length app.runs) app.run_index,
        get_elem?-append_one app.runs run j,
        get_elem?-length app.runs,
        nat_eq_iff run.id id,
        nat_eq_iff j (length app.runs),
      )
]

find_run-set :
    (id : RunId) (i : ℕ) (old run : Run) (app : App)
    → get_elem? app.runs i ≡ some old
    → old.id ≡ run.id
    → index_of run.id app.run_index ≡ some i
    → IsIndexed app
    → run_at (set app.runs i run) (index_of id app.run_index)
      ≡ (if nat_eq run.id id then some run else find_run id app)
find_run-set id i old run app g same e h = elim (Option-cases (index_of id app.run_index)) [
  | inl f ↦ ground (arith, e, f, nat_eq_iff run.id id)
  | inr (j, f) ↦
      let (r, k, own) = get_elem?-place id app.runs j (sym (h.agrees id) ∙ f) in
      ground (
        arith,
        e,
        f,
        g,
        k,
        own,
        same,
        get_elem?-set app.runs i run j,
        nat_eq_iff run.id id,
        nat_eq_iff i j,
      )
]

-- While the index is right, an upsert is an insertion into the map from ids to runs: the run is
-- found by its id, and every other id finds what it found before.
pub find_run-upsert_run :
    (id : RunId) (run : Run) (app : App)
    → IsIndexed app
    → find_run id (upsert_run run app) ≡ (if nat_eq run.id id then some run else find_run id app)
unfolding upsert_run
find_run-upsert_run id run app h = elim (Option-cases (index_of run.id app.run_index)) [
  | inl e ↦ rw e (find_run-append id run app e h)
  | inr (i, e) ↦
      let (old, g, same) = get_elem?-place run.id app.runs i (sym (h.agrees run.id) ∙ e) in
      rw e (find_run-set id i old run app g same e h)
]
