-- ===== src/Runsd/Api/Health.antt =====
-- `healthz` and `metrics` of crates/runsd/src/api/handlers.rs: what the database counts.
use ensurer_v.Prelude.{
  ℕ, String, append, ◌==◌, Bool, true, false, ◌&&◌, ◌||◌, List, [], ◌∷◌, map, length, select,
  is_some, show_nat, text_lt, order_by, if◌then◌else◌,
}
use ensurer_v.Runsd.Db.Row.{RunRow, CalcRow}
use ensurer_v.Runsd.Db.Tables.{Db, distinct}

-- Whether SQLite answers each of the queries, in their order.
pub record Answers : Type 0 where
  pub first : Bool
  pub second : Bool
  pub third : Bool

pub record Health : Type 0 where
  pub status : String
  pub db : String
  pub queue_depth : ℕ

abbrev count_if : Bool → ℕ → ℕ
count_if true n = n
count_if false n = 0

-- `WHERE status IN ('pending','retrying')`
abbrev pub is_queued : CalcRow → Bool
is_queued row = row.status == "pending" || row.status == "retrying"

unfoldable pub healthz : Answers → Db → Health
healthz answers tables = record {
  status = if answers.first then "ok" else "degraded";
  db = if answers.first then "ok" else "error";
  queue_depth = count_if answers.second (length (select is_queued tables.calculations));
}

abbrev count_of : List String → String → String × ℕ
count_of statuses s = (s, length (select (λ t. t == s) statuses))

-- `SELECT status, COUNT(*) .. GROUP BY status`; SQLite sorts to group.
unfoldable pub group_counts : List String → List (String × ℕ)
unfolding distinct order_by
group_counts statuses = map (count_of statuses) (order_by text_lt (distinct statuses))

abbrev rows_if : {A : Type 0} → Bool → List A → List A
rows_if true rows = rows
rows_if false rows = []

abbrev pub has_lease : CalcRow → Bool
has_lease row = row.status == "running" && is_some row.lease_expires_at

unfoldable pub gauge_lines : String → List (String × ℕ) → String
unfolding show_nat
gauge_lines name [] = ""
gauge_lines name ((status, count) ∷ rest) = append name (
    append "{status=\"" (
      append status
        (append "\"} " (append (show_nat count) (append "\n" (gauge_lines name rest))))))

-- The numbers of a page, before they are printed.
pub record Metrics : Type 0 where
  pub run_counts : List (String × ℕ)
  pub calc_counts : List (String × ℕ)
  pub active_leases : ℕ

unfoldable pub collect : Answers → Db → Metrics
unfolding group_counts
collect answers tables = record {
  run_counts = rows_if answers.first (group_counts (map (λ (r : RunRow). r.status) tables.runs));
  calc_counts =
      rows_if answers.second (group_counts (map (λ (c : CalcRow). c.status) tables.calculations));
  active_leases = count_if answers.third (length (select has_lease tables.calculations));
}

unfoldable pub metrics : Answers → Db → String
unfolding collect gauge_lines show_nat
metrics answers tables =
    let m = collect answers tables in
    append "# HELP runsd_runs_total Runs by status\n# TYPE runsd_runs_total gauge\n" (
      append (gauge_lines "runsd_runs_total" m.run_counts) (
        append
          "# HELP runsd_calculations_total Calculations by status\n# TYPE runsd_calculations_total gauge\n"
          (append (gauge_lines "runsd_calculations_total" m.calc_counts) (
            append
              "# HELP runsd_active_leases Active calculation leases\n# TYPE runsd_active_leases gauge\n"
              (append "runsd_active_leases " (append (show_nat m.active_leases) "\n"))))))
