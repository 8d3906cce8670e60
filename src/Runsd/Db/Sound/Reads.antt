-- ===== src/Runsd/Db/Sound/Reads.antt =====
-- Sound rows are read back: the conversions of crates/runsd/src/db/row.rs succeed on them, and so
-- do the SELECT statements of crates/runsd/src/db/queries.rs.
use ensurer_v.Prelude.{
  ℕ, ◌≡◌, refl, String, ◌==◌, Bool, true, Option, none, some, List, [], ◌∷◌, arith, All, All-select,
  All-mono, All-take, All-find_first, is_some, Bool-cases, inl, inr, is_ok, is_ok-map_err,
  is_ok-bind, find_first, All-map, is_ok-traverse, transpose, traverse, map_err, any, Option-cases,
}
use ensurer_v.Common.CalcStatus
use ensurer_v.Common.CalcStatus.{CalcStatus}
use ensurer_v.Common.Model.{Calculation}
use ensurer_v.Runsd.Codec.{Codec}
use ensurer_v.Runsd.Error.{AppError}
use ensurer_v.Runsd.Db.Row.{
  RunRow, CalcRow, parse_uuid, millis_to_dt, parse_error_kind, parse_id, try_into_calc,
  try_into_run,
}
use ensurer_v.Runsd.Db.Tables.{Db, insert_by, order_by, distinct_from, distinct}
use ensurer_v.Runsd.Db.Changes.{find_calc, older, has_expired_lease, is_ready_retry, is_unfinished}
use ensurer_v.Runsd.Db.Queries.Runs.{
  run_filter, newer, list_rows, with_calcs, get_run, load_run, list_runs,
}
use ensurer_v.Runsd.Db.Queries.Calculations.{
  get_calculation, list_calculations_for_run, list_expired_leases, list_ready_retries,
  list_active_run_ids, parse_status, get_calc_statuses_for_run,
}
use ensurer_v.Runsd.Db.Sound.{IsSound, IsSoundAs, IsSoundRun, IsSoundDb, IsKind, IsDate?}

module _ {ℓ κ} {A : Type ℓ} (P : A → Type κ) (before : A → A → Bool) where
  All-insert_by : (x : A) (xs : List A) → P x → All P xs → All P (insert_by before x xs)
  unfolding insert_by
  All-insert_by x [] p h = (p, tt)
  All-insert_by x (y ∷ ys) p h = elim (Bool-cases (before y x)) [
    | inl e ↦ rw e (h.0, All-insert_by x ys p h.1)
    | inr e ↦ rw e (p, h)
  ]

  pub All-order_by : (xs : List A) → All P xs → All P (order_by before xs)
  unfolding order_by
  All-order_by [] h = tt
  All-order_by (x ∷ xs) h = All-insert_by x (order_by before xs) h.0 (All-order_by xs h.1)

module _ (P : String → Type 0) where
  All-distinct_from : (seen xs : List String) → All P xs → All P (distinct_from seen xs)
  unfolding distinct_from
  All-distinct_from seen [] h = tt
  All-distinct_from seen (x ∷ xs) h = elim (Bool-cases (any (λ t. t == x) seen)) [
    | inl e ↦ rw e (All-distinct_from seen xs h.1)
    | inr e ↦ rw e (h.0, All-distinct_from (x ∷ seen) xs h.1)
  ]

module _ (codec : Codec) where
  transpose-date :
      (column : String) (t : Option ℕ)
      → IsDate? codec t
      → is_ok (transpose (millis_to_dt codec column) t) ≡ true
  unfolding millis_to_dt
  transpose-date column none d = refl
  transpose-date column (some t) d = ground arith

  transpose-kind :
      (k : Option String) → IsKind k → is_ok (transpose (parse_error_kind codec) k) ≡ true
  unfolding parse_error_kind
  transpose-kind none h = refl
  transpose-kind (some k) h = ground arith

  pub try_into_calc-ok :
      (s : CalcStatus) (r : CalcRow) → IsSoundAs codec s r → is_ok (try_into_calc codec r) ≡ true
  unfolding try_into_calc
  try_into_calc-ok s r h = ground (
    arith,
    CalcStatus.from_str-to_string s,
    transpose-kind r.error_kind h.kind_reads,
    transpose-date "calculations.next_attempt_at" r.next_attempt_at h.next_attempt_is_date,
    transpose-date "calculations.lease_expires_at" r.lease_expires_at h.lease_is_date,
    transpose-date "calculations.started_at" r.started_at h.started_is_date,
    transpose-date "calculations.completed_at" r.completed_at h.completed_is_date,
  )

  try_into_run-ok :
      (r : RunRow) (calcs : List Calculation)
      → IsSoundRun codec r
      → is_ok (try_into_run codec r calcs) ≡ true
  unfolding try_into_run
  try_into_run-ok r calcs h = ground arith

  convert_rows-ok :
      (rows : List CalcRow)
      → All (IsSound codec) rows
      → is_ok (map_err AppError.row_conversion (traverse (try_into_calc codec) rows)) ≡ true
  convert_rows-ok rows h =
      is_ok-map_err AppError.row_conversion (traverse (try_into_calc codec) rows) (
        is_ok-traverse (try_into_calc codec) rows
          (All-mono rows (λ r (s, k). try_into_calc-ok s r k) h))

  pub list_calculations_for_run-ok :
      (run_id : ℕ) (tables : Db)
      → IsSoundDb codec tables
      → is_ok (list_calculations_for_run codec run_id tables) ≡ true
  unfolding list_calculations_for_run
  list_calculations_for_run-ok run_id tables h = convert_rows-ok _ (
      All-order_by (IsSound codec) older _ (
        All-select (IsSound codec) (λ (r : CalcRow). r.run_id == codec.uuid_text run_id)
          tables.calculations h.calcs_sound))

  pub list_expired_leases-ok :
      (now : ℕ) (tables : Db)
      → IsSoundDb codec tables
      → is_ok (list_expired_leases codec now tables) ≡ true
  unfolding list_expired_leases
  list_expired_leases-ok now tables h =
      convert_rows-ok _
        (All-select (IsSound codec) (has_expired_lease now) tables.calculations h.calcs_sound)

  pub list_ready_retries-ok :
      (now : ℕ) (tables : Db)
      → IsSoundDb codec tables
      → is_ok (list_ready_retries codec now tables) ≡ true
  unfolding list_ready_retries
  list_ready_retries-ok now tables h =
      convert_rows-ok _
        (All-select (IsSound codec) (is_ready_retry now) tables.calculations h.calcs_sound)

  pub get_calculation-ok :
      (id : ℕ) (tables : Db)
      → IsSoundDb codec tables
      → is_ok (get_calculation codec id tables) ≡ true
  unfolding get_calculation
  get_calculation-ok id tables h =
      elim (Option-cases (find_calc (codec.uuid_text id) tables.calculations)) [
        | inl e ↦ rw e
        | inr (r, e) ↦ rw e (
            let (s, k) = All-find_first (IsSound codec) _ tables.calculations h.calcs_sound e in
            ground (arith, try_into_calc-ok s r k))
      ]

  pub get_calc_statuses_for_run-ok :
      (run_id : ℕ) (tables : Db)
      → IsSoundDb codec tables
      → is_ok (get_calc_statuses_for_run codec run_id tables) ≡ true
  unfolding get_calc_statuses_for_run
  get_calc_statuses_for_run-ok run_id tables h = is_ok-traverse parse_status _ (
      All-select (λ r. is_ok (parse_status r) ≡ true) _ tables.calculations
        (All-mono tables.calculations
          (λ r (s, k). rw (k.status_text) (ground (arith, CalcStatus.from_str-to_string s)))
          h.calcs_sound))

  load_run-ok :
      (tables : Db) (r : RunRow)
      → IsSoundDb codec tables
      → IsSoundRun codec r
      → is_ok (load_run codec tables r) ≡ true
  unfolding load_run
  load_run-ok tables r h k =
      is_ok-bind (map_err AppError.row_conversion (parse_id codec r)) _ (ground arith) λ run_id.
        is_ok-bind (list_calculations_for_run codec run_id tables) _
          (list_calculations_for_run-ok run_id tables h)
          λ calcs.
            is_ok-map_err AppError.row_conversion (try_into_run codec r calcs)
              (try_into_run-ok r calcs k)

  with_calcs-ok :
      (id : ℕ) (tables : Db) (r : RunRow)
      → IsSoundDb codec tables
      → IsSoundRun codec r
      → is_ok (with_calcs codec id tables (some r)) ≡ true
  unfolding with_calcs
  with_calcs-ok id tables r h k =
      is_ok-bind (list_calculations_for_run codec id tables) _
        (list_calculations_for_run-ok id tables h)
        λ calcs.
          is_ok-bind (map_err AppError.row_conversion (try_into_run codec r calcs)) _
            (is_ok-map_err AppError.row_conversion (try_into_run codec r calcs)
              (try_into_run-ok r calcs k))
            λ run. refl

  pub get_run-ok :
      (id : ℕ) (tables : Db) → IsSoundDb codec tables → is_ok (get_run codec id tables) ≡ true
  unfolding get_run
  get_run-ok id tables h =
      elim (Option-cases (find_first (λ (r : RunRow). r.id == codec.uuid_text id) tables.runs)) [
        | inl e ↦ rw (e, is_ok)
        | inr (r, e) ↦
            rw (e, is_ok)
              (with_calcs-ok id tables r h
                (All-find_first (IsSoundRun codec) _ tables.runs h.runs_sound e))
      ]

  pub list_runs-ok :
      (status : Option String) (limit : ℕ) (created_at : Option ℕ) (id : Option String)
      (tables : Db)
      → IsSoundDb codec tables
      → is_ok (list_runs codec status limit created_at id tables) ≡ true
  unfolding list_runs list_rows
  list_runs-ok status limit created_at id tables h = is_ok-traverse (load_run codec tables) _ (
      All-mono _ (λ r k. load_run-ok tables r h k)
        (All-take (IsSoundRun codec) limit _ (
          All-order_by (IsSoundRun codec) newer _ (
            All-select (IsSoundRun codec) (run_filter status created_at id) tables.runs
              h.runs_sound))))

  pub list_active_run_ids-ok :
      (tables : Db) → IsSoundDb codec tables → is_ok (list_active_run_ids codec tables) ≡ true
  unfolding list_active_run_ids distinct parse_uuid
  list_active_run_ids-ok tables h = is_ok-map_err AppError.row_conversion _ (
      is_ok-traverse (parse_uuid codec "calculations.run_id") _ (
        All-distinct_from Parses [] _ (
          All-map Parses (λ (r : CalcRow). r.run_id) _
            (All-select (λ (r : CalcRow). Parses r.run_id) is_unfinished tables.calculations
              (All-mono tables.calculations (λ r (s, k). parses r.run_id k.run_id_reads)
                h.calcs_sound)))))
    where
      Parses : String → Type 0
      Parses s = is_ok (parse_uuid codec "calculations.run_id" s) ≡ true

      parses : (s : String) → is_some (codec.uuid_parse s) ≡ true → Parses s
      parses s h = ground arith
