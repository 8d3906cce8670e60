-- ===== src/Runsd/Actor/Calc/Sends.antt =====
-- The commands of the actor of a calculation (crates/runsd/src/actor/calc.rs), among those of others
-- that spare its row.
use ensurer_v.Prelude.{ℕ, suc, All, ◌≡◌, refl, sym, subst, false, some}
use ensurer_v.Common.CalcStatus.{CalcStatus}
use ensurer_v.Runsd.Db.Row.{CalcRow}
use ensurer_v.Runsd.Db.Tables.{Db, set_calc}
use ensurer_v.Runsd.Db.Changes.{find_calc}
use ensurer_v.Runsd.Actor.Db.{DbCmd, process, Served, answer, serve}
use ensurer_v.Runsd.Actor.Db.Spared.{
  IsSparing, HasRowIn, Survives, serve-HasRowIn, find_calc-set_calc,
}
use ensurer_v.Runsd.Actor.World.{Env, World, next, send}
use ensurer_v.Common.Model.{CalcId}
use ensurer_v.Runsd.Actor.Calc.{CalcActor, emit_status}

-- Nobody else's command is about the calculation, but for heartbeats, of which any may come; and
-- SQLite does not refuse the actor's own commands.
pub record IsSpared (env : Env) (id : CalcId) : Type 0 where
  pub others_spare :
      (n : ℕ) → All (λ (p : Served × DbCmd). IsSparing env.codec id p.1) (env.others n)
  pub not_refused : (n : ℕ) → (env.served n).refused ≡ false

module _ (env : Env) (a : CalcActor) where
  -- The row of the actor's calculation is there, with the property.
  abbrev pub HasRow : (CalcRow → Type 0) → World → Type 0
  HasRow P w = HasRowIn env.codec a.id P w.tables

  abbrev pub IsThere : World → Type 0
  IsThere = HasRow (λ _. Unit {0})

  -- A command that sets the columns of the row, to what has the property.
  abbrev pub Sets : (CalcRow → Type 0) → DbCmd → Type 0
  Sets P cmd =
      (f : ℕ → CalcRow → CalcRow) × ((now : ℕ) (t : Db)
        → (process env.codec now cmd t).1.calculations
          ≡ set_calc (env.codec.uuid_text a.id) (f now) t.calculations)
      × ((now : ℕ) (r : CalcRow) → (f now r).id ≡ r.id)
      × ((now : ℕ) (r : CalcRow) → P (f now r))

module _ (env : Env) (a : CalcActor) (spared : IsSpared env a.id) where
  -- The others' commands, and then the actor's.
  pub send-spared :
      (cmd : DbCmd) (w : World)
      → let now = (env.served w.step).now in
        let before = serve env.codec (env.others w.step) w.tables in
        send env cmd w ≡ (
          (process env.codec now cmd before).0,
          record w { step = suc w.step; tables = (process env.codec now cmd before).1 },
        )
  unfolding send answer
  send-spared cmd w = rw (spared.not_refused w.step) refl

  before-HasRow :
      (P : CalcRow → Type 0) (w : World)
      → Survives env.codec a.id P
      → HasRow env a P w
      → HasRowIn env.codec a.id P (serve env.codec (env.others w.step) w.tables)
  before-HasRow P w s h =
      serve-HasRowIn env.codec a.id P (env.others w.step) w.tables s (spared.others_spare w.step) h

  module _ (P : CalcRow → Type 0) where
    pub send-HasRow :
        (cmd : DbCmd) (w : World)
        → Sets env a P cmd
        → IsThere env a w
        → HasRow env a P (send env cmd w).1
    send-HasRow cmd w (f, sets, same, good) h =
        let now = (env.served w.step).now in
        let before = serve env.codec (env.others w.step) w.tables in
        let (r, there, q) = before-HasRow (λ _. Unit {0}) w (λ n t x u. tt) h in
        subst (λ p. HasRow env a P p.1) (sym (send-spared cmd w))
          (
            f now r,
            subst (λ rows. find_calc (env.codec.uuid_text a.id) rows ≡ some (f now r))
                (sym (sets now before))
                (find_calc-set_calc (env.codec.uuid_text a.id) (f now) before.calculations r
                  (same now) there),
            good now r,
          )

    pub emit_status-HasRow :
        (b : CalcActor) (from to : CalcStatus) (w : World)
        → Survives env.codec a.id P
        → HasRow env a P w
        → HasRow env a P (emit_status env b from to w).1
    unfolding emit_status process
    emit_status-HasRow b from to w s h =
        subst (λ p. HasRow env a P p.1) (sym (send-spared (DbCmd.insert_event _ _ _ _) (next w)))
          (before-HasRow P (next w) s h)
