-- ===== src/Runsd/Actor/Db/Spared.antt =====
-- What the commands of others leave of the row of a calculation (crates/runsd/src/actor/db.rs):
-- those that are about other calculations, and the heartbeats of any.
use ensurer_v.Prelude.{
  ℕ, ◌≡◌, refl, sym, ◌∙◌, subst, String, ◌==◌, false, Bool-cases, text-cases, inl, inr, some, any,
  List, [], ◌∷◌, ◌++◌, All, arith, if◌then◌else◌,
}
use ensurer_v.Common.Model.{CalcId}
use ensurer_v.Runsd.Codec.{Codec}
use ensurer_v.Runsd.Db.Row.{CalcRow, RunRow}
use ensurer_v.Runsd.Db.Tables.{Db, set_calc}
use ensurer_v.Runsd.Db.Changes.{
  find_calc, started_row, heartbeat_row, succeeded_row, failed_row, retrying_row, cancelled_row,
  pending_row,
}
use ensurer_v.Runsd.Actor.Db.{
  DbCmd, insert_run, update_run_status, get_run, list_runs, insert_calculation, get_calculation,
  list_calculations_for_run, calc_started, calc_heartbeat, calc_succeeded, calc_failed,
  calc_retrying, calc_cancelled, calc_reset_pending, insert_event, list_expired_leases,
  list_ready_retries, list_active_run_ids, get_calc_statuses_for_run, prune_events, process, Served,
  answer, serve,
}

pub find_calc-set_calc :
    (id : String) (f : CalcRow → CalcRow) (rows : List CalcRow) (r : CalcRow)
    → ((x : CalcRow) → (f x).id ≡ x.id)
    → find_calc id rows ≡ some r
    → find_calc id (set_calc id f rows) ≡ some (f r)
unfolding set_calc
find_calc-set_calc id f [] r same e = cc
find_calc-set_calc id f (x ∷ rows) r same e =
    ground (arith, same x, find_calc-set_calc id f rows r same)

-- A change of the row with another id.
find_calc-set_other :
    (id other : String) (f : CalcRow → CalcRow) (rows : List CalcRow)
    → ((x : CalcRow) → (f x).id ≡ x.id)
    → (other == id) ≡ false
    → find_calc id (set_calc other f rows) ≡ find_calc id rows
unfolding set_calc
find_calc-set_other id other f [] same n = refl
find_calc-set_other id other f (x ∷ rows) same n = elim (text-cases x.id other) [
  | inl (e, b) ↦
      let k : (x.id == id) ≡ false = subst (λ t. (t == id) ≡ false) (sym e) n in
      let l : ((f x).id == id) ≡ false = subst (λ t. (t == id) ≡ false) (sym (same x)) k in
      rw b (rw (l, k) (find_calc-set_other id other f rows same n))
  | inr (e, b) ↦ rw b (elim (Bool-cases (x.id == id)) [
    | inl k ↦ rw k refl
    | inr k ↦ rw k (find_calc-set_other id other f rows same n)
  ])
]

find_calc-append :
    (id : String) (rows more : List CalcRow) (r : CalcRow)
    → find_calc id rows ≡ some r
    → find_calc id (rows ++ more) ≡ some r
find_calc-append id [] more r e = cc e
find_calc-append id (x ∷ rows) more r e = elim (Bool-cases (x.id == id)) [
  | inl k ↦ rw k (subst (λ b. (if b then some x else find_calc id rows) ≡ some r) k e)
  | inr k ↦ rw k (
      find_calc-append id rows more r
        (subst (λ b. (if b then some x else find_calc id rows) ≡ some r) k e))
]

module _ (codec : Codec) (id : CalcId) where
  abbrev IsOther : CalcId → Type 0
  IsOther i = (codec.uuid_text i == codec.uuid_text id) ≡ false

  -- No command but a heartbeat is about the calculation.
  abbrev pub IsSparing : DbCmd → Type 0
  IsSparing (calc_started i _ _) = IsOther i
  IsSparing (calc_succeeded i _) = IsOther i
  IsSparing (calc_failed i _ _) = IsOther i
  IsSparing (calc_retrying i _ _) = IsOther i
  IsSparing (calc_cancelled i) = IsOther i
  IsSparing (calc_reset_pending i) = IsOther i
  IsSparing _ = Unit

  -- The row is there, with the property.
  abbrev pub HasRowIn : (CalcRow → Type 0) → Db → Type 0
  HasRowIn P t = (r : CalcRow) × (find_calc (codec.uuid_text id) t.calculations ≡ some r) × P r

  module _ (P : CalcRow → Type 0) where
    -- A heartbeat leaves the property.
    abbrev pub Survives : Type 0
    Survives = (now expires : ℕ) (r : CalcRow) → P r → P (heartbeat_row now expires r)

    other-HasRowIn :
        (i : CalcId) (f : CalcRow → CalcRow) (t : Db)
        → ((x : CalcRow) → (f x).id ≡ x.id)
        → IsOther i
        → HasRowIn P t
        → HasRowIn P (record t { calculations = set_calc (codec.uuid_text i) f t.calculations })
    other-HasRowIn i f t same n (r, there, p) = (
      r,
      find_calc-set_other (codec.uuid_text id) (codec.uuid_text i) f t.calculations same n ∙ there,
      p,
    )

    beaten-HasRowIn :
        (i : CalcId) (now expires : ℕ) (t : Db)
        → Survives
        → HasRowIn P t
        → HasRowIn P (record t {
          calculations = set_calc (codec.uuid_text i) (heartbeat_row now expires) t.calculations;
        })
    unfolding heartbeat_row
    beaten-HasRowIn i now expires t s (r, there, p) =
        elim (text-cases (codec.uuid_text i) (codec.uuid_text id)) [
          | inl (e, b) ↦ rw e (
            heartbeat_row now expires r,
            find_calc-set_calc (codec.uuid_text id) (heartbeat_row now expires) t.calculations r
                (λ x. refl) there,
            s now expires r p,
          )
          | inr (e, b) ↦ other-HasRowIn i (heartbeat_row now expires) t (λ x. refl) b (r, there, p)
        ]

    process-HasRowIn :
        (now : ℕ) (cmd : DbCmd) (t : Db)
        → Survives
        → IsSparing cmd
        → HasRowIn P t
        → HasRowIn P (process codec now cmd t).1
    unfolding process started_row heartbeat_row succeeded_row failed_row retrying_row cancelled_row
        pending_row
    process-HasRowIn now (insert_run i jira by) t s n h =
        elim (Bool-cases (any (λ (r : RunRow). r.id == codec.uuid_text i) t.runs)) [
          | inl e ↦ rw e h
          | inr e ↦ rw e h
        ]
    process-HasRowIn now (insert_calculation calc) t s n (r, there, p) =
        elim (Bool-cases (any (λ (r : CalcRow). r.id == codec.uuid_text calc.id) t.calculations)) [
          | inl e ↦ rw e (r, there, p)
          | inr e ↦
              rw e
                (elim (Bool-cases
                  (any (λ (r : RunRow). r.id == codec.uuid_text calc.run_id) t.runs)) [
                    | inl f ↦
                        rw f (r, find_calc-append (codec.uuid_text id) t.calculations _ r there, p)
                    | inr f ↦ rw f (r, there, p)
                  ])
        ]
    process-HasRowIn now (calc_started i _ _) t s n h = other-HasRowIn i _ t (λ x. refl) n h
    process-HasRowIn now (calc_heartbeat i expires) t s n h = beaten-HasRowIn i now expires t s h
    process-HasRowIn now (calc_succeeded i _) t s n h = other-HasRowIn i _ t (λ x. refl) n h
    process-HasRowIn now (calc_failed i _ _) t s n h = other-HasRowIn i _ t (λ x. refl) n h
    process-HasRowIn now (calc_retrying i _ _) t s n h = other-HasRowIn i _ t (λ x. refl) n h
    process-HasRowIn now (calc_cancelled i) t s n h = other-HasRowIn i _ t (λ x. refl) n h
    process-HasRowIn now (calc_reset_pending i) t s n h = other-HasRowIn i _ t (λ x. refl) n h
    process-HasRowIn now (update_run_status _ _) t s n h = h
    process-HasRowIn now (get_run _) t s n h = h
    process-HasRowIn now (list_runs _ _ _ _) t s n h = h
    process-HasRowIn now (get_calculation _) t s n h = h
    process-HasRowIn now (list_calculations_for_run _) t s n h = h
    process-HasRowIn now (insert_event _ _ _ _) t s n h = h
    process-HasRowIn now (list_expired_leases _) t s n h = h
    process-HasRowIn now (list_ready_retries _) t s n h = h
    process-HasRowIn now list_active_run_ids t s n h = h
    process-HasRowIn now (get_calc_statuses_for_run _) t s n h = h
    process-HasRowIn now (prune_events _) t s n h = h

    -- Commands that spare the calculation, some of them refused, leave its row with the property.
    pub serve-HasRowIn :
        (cmds : List (Served × DbCmd)) (t : Db)
        → Survives
        → All (λ (p : Served × DbCmd). IsSparing p.1) cmds
        → HasRowIn P t
        → HasRowIn P (serve codec cmds t)
    unfolding serve answer
    serve-HasRowIn [] t s n h = h
    serve-HasRowIn ((served, cmd) ∷ rest) t s n h = elim (Bool-cases served.refused) [
      | inl e ↦ rw e (serve-HasRowIn rest t s n.1 h)
      | inr e ↦ rw e (serve-HasRowIn rest _ s n.1 (process-HasRowIn served.now cmd t s n.0 h))
    ]
