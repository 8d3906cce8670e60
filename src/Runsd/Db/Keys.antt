-- ===== src/Runsd/Db/Keys.antt =====
-- The keys of the tables of crates/runsd/migrations/0001_initial.sql: the ids of runs and of
-- calculations are unique, a calculation belongs to a run, the numbers of events increase.
use ensurer_v.Prelude.{
  ℕ, suc, ◌≤◌, ◌<◌, ◌≡◌, ◌≢◌, refl, ap, String, ◌==◌, Bool, true, false, List, [], ◌∷◌, ◌++◌, map,
  any, select, arith, All, All-append, Bool-cases, inl, inr, sym, text-cases,
}
use ensurer_v.Runsd.Db.Row.{RunRow, CalcRow, EventRow}
use ensurer_v.Runsd.Db.Tables.{Db, set_calc, set_run}

abbrev pub Unique : List String → Type 0
Unique [] = Unit
Unique (s ∷ rest) = All (λ t. t ≢ s) rest × Unique rest

abbrev pub run_ids : List RunRow → List String
run_ids = map (λ (r : RunRow). r.id)

abbrev pub calc_ids : List CalcRow → List String
calc_ids = map (λ (r : CalcRow). r.id)

abbrev pub has_run : List RunRow → String → Bool
has_run runs id = any (λ (r : RunRow). r.id == id) runs

abbrev pub has_calc : List CalcRow → String → Bool
has_calc rows id = any (λ (r : CalcRow). r.id == id) rows

-- The numbers are above `low` and increase.
abbrev pub Ascends : ℕ → List EventRow → Type 0
Ascends low [] = Unit
Ascends low (e ∷ es) = (low < e.seq) × Ascends e.seq es

pub record IsKeyed (tables : Db) : Type 0 where
  pub runs_unique : Unique (run_ids tables.runs)
  pub calcs_unique : Unique (calc_ids tables.calculations)
  pub runs_exist : All (λ (r : CalcRow). has_run tables.runs r.run_id ≡ true) tables.calculations
  pub seqs_ascend : Ascends 0 tables.events
  pub seqs_given : All (λ (e : EventRow). e.seq ≤ tables.last_seq) tables.events

-- A change that leaves the keys.
abbrev pub LeavesKeys : (CalcRow → CalcRow) → Type 0
LeavesKeys f = (r : CalcRow) → ((f r).id ≡ r.id) × ((f r).run_id ≡ r.run_id)

pub calc_ids-set_calc :
    (id : String) (f : CalcRow → CalcRow) (rows : List CalcRow)
    → LeavesKeys f
    → calc_ids (set_calc id f rows) ≡ calc_ids rows
unfolding set_calc
calc_ids-set_calc id f [] keep = refl
calc_ids-set_calc id f (r ∷ rs) keep = elim (Bool-cases (r.id == id)) [
  | inl e ↦ rw (e, (keep r).0, calc_ids-set_calc id f rs keep)
  | inr e ↦ rw (e, calc_ids-set_calc id f rs keep)
]

pub run_ids-set_run :
    (id : String) (f : RunRow → RunRow) (rows : List RunRow)
    → ((r : RunRow) → (f r).id ≡ r.id)
    → run_ids (set_run id f rows) ≡ run_ids rows
unfolding set_run
run_ids-set_run id f [] keep = refl
run_ids-set_run id f (r ∷ rs) keep = elim (Bool-cases (r.id == id)) [
  | inl e ↦ rw (e, keep r, run_ids-set_run id f rs keep)
  | inr e ↦ rw (e, run_ids-set_run id f rs keep)
]

pub has_run-set_run :
    (id : String) (f : RunRow → RunRow) (rows : List RunRow) (key : String)
    → ((r : RunRow) → (f r).id ≡ r.id)
    → has_run (set_run id f rows) key ≡ has_run rows key
unfolding set_run
has_run-set_run id f [] key keep = refl
has_run-set_run id f (r ∷ rs) key keep = elim (Bool-cases (r.id == id)) [
  | inl e ↦ rw (e, keep r, has_run-set_run id f rs key keep)
  | inr e ↦ rw (e, has_run-set_run id f rs key keep)
]

pub has_run-append :
    (runs more : List RunRow) (key : String)
    → has_run runs key ≡ true
    → has_run (runs ++ more) key ≡ true
has_run-append [] more key h = cc
has_run-append (r ∷ rs) more key h = ground (arith, has_run-append rs more key)

-- Text lists in which a text does not occur stay unique with it at the end.
Unique-append :
    (xs : List String) (s : String) → All (λ t. t ≢ s) xs → Unique xs → Unique (xs ++ s ∷ [])
Unique-append [] s h u = (tt, tt)
Unique-append (x ∷ xs) s h u =
    (All-append (λ t. t ≢ x) xs (s ∷ []) u.0 ((λ e. h.0 (sym e)), tt), Unique-append xs s h.1 u.1)

run_ids-append :
    (runs : List RunRow) (r : RunRow) → run_ids (runs ++ r ∷ []) ≡ run_ids runs ++ r.id ∷ []
run_ids-append [] r = refl
run_ids-append (x ∷ xs) r = ap (λ l. x.id ∷ l) (run_ids-append xs r)

calc_ids-append :
    (rows : List CalcRow) (r : CalcRow) → calc_ids (rows ++ r ∷ []) ≡ calc_ids rows ++ r.id ∷ []
calc_ids-append [] r = refl
calc_ids-append (x ∷ xs) r = ap (λ l. x.id ∷ l) (calc_ids-append xs r)

absent_run :
    (runs : List RunRow) (key : String)
    → has_run runs key ≡ false
    → All (λ t. t ≢ key) (run_ids runs)
absent_run [] key h = tt
absent_run (r ∷ rs) key h = elim (text-cases r.id key) [
  | inl (same, e) ↦ absurd (cc (h, e))
  | inr (other, e) ↦ (other, absent_run rs key (ground (arith, e, h)))
]

absent_calc :
    (rows : List CalcRow) (key : String)
    → has_calc rows key ≡ false
    → All (λ t. t ≢ key) (calc_ids rows)
absent_calc [] key h = tt
absent_calc (r ∷ rs) key h = elim (text-cases r.id key) [
  | inl (same, e) ↦ absurd (cc (h, e))
  | inr (other, e) ↦ (other, absent_calc rs key (ground (arith, e, h)))
]

pub Unique-insert_run :
    (runs : List RunRow) (r : RunRow)
    → has_run runs r.id ≡ false
    → Unique (run_ids runs)
    → Unique (run_ids (runs ++ r ∷ []))
Unique-insert_run runs r h u =
    rw (run_ids-append runs r) (Unique-append (run_ids runs) r.id (absent_run runs r.id h) u)

pub Unique-insert_calc :
    (rows : List CalcRow) (r : CalcRow)
    → has_calc rows r.id ≡ false
    → Unique (calc_ids rows)
    → Unique (calc_ids (rows ++ r ∷ []))
Unique-insert_calc rows r h u =
    rw (calc_ids-append rows r) (Unique-append (calc_ids rows) r.id (absent_calc rows r.id h) u)

pub Ascends-append :
    (low top : ℕ) (events : List EventRow) (e : EventRow)
    → e.seq ≡ suc top
    → low ≤ top
    → All (λ (x : EventRow). x.seq ≤ top) events
    → Ascends low events
    → Ascends low (events ++ e ∷ [])
Ascends-append low top [] e n b h a = (omega (arith, n), tt)
Ascends-append low top (x ∷ xs) e n b h a = (a.0, Ascends-append x.seq top xs e n h.0 h.1 a.1)

Ascends-lower :
    (low high : ℕ) (events : List EventRow) → low ≤ high → Ascends high events → Ascends low events
Ascends-lower low high [] b a = tt
Ascends-lower low high (e ∷ es) b a = (omega (arith, a.0), a.1)

pub Ascends-select :
    (p : EventRow → Bool) (low : ℕ) (events : List EventRow)
    → Ascends low events
    → Ascends low (select p events)
Ascends-select p low [] a = tt
Ascends-select p low (e ∷ es) a = elim (Bool-cases (p e)) [
  | inl h ↦ rw h (a.0, Ascends-select p e.seq es a.1)
  | inr h ↦
      rw h
        (Ascends-lower low e.seq (select p es) (omega (arith, a.0)) (Ascends-select p e.seq es a.1))
]
