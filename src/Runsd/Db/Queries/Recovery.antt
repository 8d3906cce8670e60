-- ===== src/Runsd/Db/Queries/Recovery.antt =====
-- `crash_recovery_sweep` of crates/runsd/src/db/queries.rs.
use ensurer_v.Prelude.{
  ℕ, ◌+◌, ◌*◌, ◌==◌, Bool, true, ◌&&◌, ◌||◌, Option, none, some, List, [], ◌∷◌, select, ok, err,
  ltb, if◌then◌else◌,
}
use ensurer_v.Runsd.Codec.{Codec}
use ensurer_v.Runsd.Error.{row_conversion}
use ensurer_v.Runsd.Db.Row.{CalcRow, as_u32, try_into_calc}
use ensurer_v.Runsd.Db.Tables.{Db, set_calc}
use ensurer_v.Runsd.Db.Queries.Calculations.{Write}

-- lease_expires_at IS NULL OR lease_expires_at < ?
abbrev pub lease_is_over : Option ℕ → ℕ → Bool
lease_is_over none now = true
lease_is_over (some t) now = ltb t now

abbrev pub is_abandoned : ℕ → CalcRow → Bool
is_abandoned now r =
    (r.status == "running" || r.status == "retrying") && lease_is_over r.lease_expires_at now

-- The first UPDATE; unlike `update_calc_failed` it leaves `error_message`.
unfoldable pub exhausted_row : ℕ → CalcRow → CalcRow
exhausted_row now r = record r {
  status = "failed";
  error_kind = some "crash_exhausted";
  lease_owner = none;
  lease_expires_at = none;
  completed_at = some now;
  updated_at = now;
}

-- What one round of the loop does to the row, by the numbers of its calculation.
unfoldable pub recovered_row : ℕ → ℕ → ℕ → CalcRow → CalcRow
unfolding exhausted_row
recovered_row now attempt max_attempts r =
    let next_attempt = as_u32 (attempt + 1) in
    if ltb max_attempts next_attempt then exhausted_row now r else record r {
      status = "retrying";
      attempt = next_attempt;
      next_attempt_at = some (now + next_attempt * 5000);
      lease_owner = none;
      lease_expires_at = none;
      updated_at = now;
    }

-- The loop over the rows that were selected. An error ends it, and keeps what was written.
unfoldable pub sweep_rows : Codec → ℕ → List CalcRow → Db → Write
unfolding recovered_row try_into_calc set_calc
sweep_rows codec now [] tables = (ok tt, tables)
sweep_rows codec now (row ∷ rows) tables = elim (try_into_calc codec row) [
  | err e ↦ (err (row_conversion e), tables)
  | ok calc ↦ sweep_rows codec now rows (record tables {
    calculations =
        set_calc row.id (recovered_row now calc.attempt calc.max_attempts) tables.calculations;
  })
]

unfoldable pub crash_recovery_sweep : Codec → ℕ → Db → Write
unfolding sweep_rows
crash_recovery_sweep codec now tables =
    sweep_rows codec now (select (is_abandoned now) tables.calculations) tables
