-- ===== src/Runsd/Db/RoundTrip.antt =====
-- A calculation that is inserted is read back: `insert_calculation` and `get_calculation` of
-- crates/runsd/src/db/queries.rs, and the conversions of crates/runsd/src/db/row.rs.
use ensurer_v.Prelude.{
  ℕ, ◌^◌, ◌<◌, ◌≡◌, refl, ap, String, true, false, none, some, List, [], ◌∷◌, ◌++◌, arith, ok,
  eq_refl, map_err, transpose,
}
use ensurer_v.Common.CalcStatus
use ensurer_v.Common.Model.{Calculation}
use ensurer_v.Runsd.Codec.{Codec, IsFaithful}
use ensurer_v.Runsd.Error.{AppError}
use ensurer_v.Runsd.Db.Row.{CalcRow, as_u32, try_into_calc}
use ensurer_v.Runsd.Db.Tables.{Db}
use ensurer_v.Runsd.Db.Keys.{has_calc, has_run}
use ensurer_v.Runsd.Db.Changes.{find_calc}
use ensurer_v.Runsd.Db.Queries.Calculations.{new_row, insert_calculation, get_calculation}

-- A calculation that no actor has touched, with counts that fit an u32.
pub record IsFresh (calc : Calculation) : Type 0 where
  pub attempt_fits : calc.attempt < 2 ^ 32
  pub max_attempts_fits : calc.max_attempts < 2 ^ 32
  pub next_attempt_none : calc.next_attempt_at ≡ none
  pub lease_owner_none : calc.lease_owner ≡ none
  pub lease_expires_none : calc.lease_expires_at ≡ none
  pub error_kind_none : calc.error_kind ≡ none
  pub error_message_none : calc.error_message ≡ none
  pub result_path_none : calc.result_path ≡ none
  pub started_none : calc.started_at ≡ none
  pub completed_none : calc.completed_at ≡ none

-- The calculation with the times of its row.
abbrev pub stored : ℕ → Calculation → Calculation
stored now calc = record calc { created_at = now; updated_at = now }

find_calc-append :
    (id : String) (rows : List CalcRow) (row : CalcRow)
    → row.id ≡ id
    → has_calc rows id ≡ false
    → find_calc id (rows ++ row ∷ []) ≡ some row
find_calc-append id [] row e h = ground (arith, e, eq_refl id)
find_calc-append id (r ∷ rs) row e h = ground (arith, find_calc-append id rs row e)

fits_u32 : (n : ℕ) → n < 2 ^ 32 → as_u32 n ≡ n
fits_u32 n h = omega arith

module _ (codec : Codec) (laws : IsFaithful codec) where
  try_into_calc-new_row :
      (now : ℕ) (calc : Calculation)
      → codec.dt_of_millis now ≡ some now
      → codec.json_parse (codec.json_text calc.input_json) ≡ some calc.input_json
      → IsFresh calc
      → try_into_calc codec (new_row codec now calc) ≡ ok (stored now calc)
  unfolding new_row try_into_calc
  try_into_calc-new_row now calc d j f = ground (
    arith,
    laws.uuid_round calc.id,
    laws.uuid_round calc.run_id,
    CalcStatus.from_str-to_string calc.status,
    fits_u32 calc.attempt f.attempt_fits,
    fits_u32 calc.max_attempts f.max_attempts_fits,
  )

  -- A fresh calculation of a run that is there, with an id that is not there yet, with an input
  -- that serde_json reads back and at a time that chrono reads back, is inserted, and is then got
  -- by its id as it was, with the time of the insertion.
  pub get_calculation-insert_calculation :
      (now : ℕ) (calc : Calculation) (tables : Db)
      → codec.dt_of_millis now ≡ some now
      → codec.json_parse (codec.json_text calc.input_json) ≡ some calc.input_json
      → IsFresh calc
      → has_calc tables.calculations (codec.uuid_text calc.id) ≡ false
      → has_run tables.runs (codec.uuid_text calc.run_id) ≡ true
      → ((insert_calculation codec now calc tables).0 ≡ ok tt)
        × (get_calculation codec calc.id (insert_calculation codec now calc tables).1
            ≡ ok (some (stored now calc)))
  unfolding insert_calculation get_calculation
  get_calculation-insert_calculation now calc tables d j f absent there =
      rw (absent, there)
        (
          refl,
          rw
              (find_calc-append (codec.uuid_text calc.id) tables.calculations
                (new_row codec now calc) refl absent)
              (ap
                (λ r.
                  map_err AppError.row_conversion
                    (transpose (λ _. r) (some (new_row codec now calc))))
                (try_into_calc-new_row now calc d j f)),
        )
