-- ===== src/Runsd/Db/Changes.antt =====
-- What the UPDATE statements of crates/runsd/src/db/queries.rs set in a row of `calculations`, and
-- which rows its SELECT statements take.
use ensurer_v.Prelude.{
  ℕ, String, ◌==◌, Bool, false, not, ◌&&◌, ◌||◌, Option, none, some, List, find_first, ltb, leb,
}
use ensurer_v.Runsd.Db.Row.{CalcRow}

-- `COALESCE(started_at, ?)`
abbrev pub coalesce : Option ℕ → ℕ → Option ℕ
coalesce none now = some now
coalesce (some t) now = some t

unfoldable pub started_row : ℕ → String → ℕ → CalcRow → CalcRow
started_row now lease_owner lease_expires_at r = record r {
  status = "running";
  started_at = coalesce r.started_at now;
  lease_owner = some lease_owner;
  lease_expires_at = some lease_expires_at;
  updated_at = now;
}

unfoldable pub heartbeat_row : ℕ → ℕ → CalcRow → CalcRow
heartbeat_row now lease_expires_at r = record r {
  lease_expires_at = some lease_expires_at;
  updated_at = now;
}

unfoldable pub succeeded_row : ℕ → String → CalcRow → CalcRow
succeeded_row now result_path r = record r {
  status = "succeeded";
  completed_at = some now;
  result_path = some result_path;
  lease_owner = none;
  lease_expires_at = none;
  updated_at = now;
}

unfoldable pub failed_row : ℕ → String → String → CalcRow → CalcRow
failed_row now error_kind error_message r = record r {
  status = "failed";
  completed_at = some now;
  error_kind = some error_kind;
  error_message = some error_message;
  lease_owner = none;
  lease_expires_at = none;
  updated_at = now;
}

unfoldable pub retrying_row : ℕ → ℕ → ℕ → CalcRow → CalcRow
retrying_row now attempt next_attempt_at r = record r {
  status = "retrying";
  attempt = attempt;
  next_attempt_at = some next_attempt_at;
  lease_owner = none;
  lease_expires_at = none;
  updated_at = now;
}

unfoldable pub cancelled_row : ℕ → CalcRow → CalcRow
cancelled_row now r = record r {
  status = "cancelled";
  completed_at = some now;
  lease_owner = none;
  lease_expires_at = none;
  updated_at = now;
}

unfoldable pub pending_row : ℕ → CalcRow → CalcRow
pending_row now r = record r {
  status = "pending";
  attempt = 0;
  next_attempt_at = none;
  error_kind = none;
  error_message = none;
  lease_owner = none;
  lease_expires_at = none;
  updated_at = now;
}

abbrev pub find_calc : String → List CalcRow → Option CalcRow
find_calc id = find_first (λ r. r.id == id)

abbrev pub older : CalcRow → CalcRow → Bool
older a b = ltb a.created_at b.created_at

abbrev pub is_before : Option ℕ → ℕ → Bool
is_before none now = false
is_before (some t) now = ltb t now

abbrev pub is_until : Option ℕ → ℕ → Bool
is_until none now = false
is_until (some t) now = leb t now

abbrev pub has_expired_lease : ℕ → CalcRow → Bool
has_expired_lease now r = r.status == "running" && is_before r.lease_expires_at now

abbrev pub is_ready_retry : ℕ → CalcRow → Bool
is_ready_retry now r = r.status == "retrying" && is_until r.next_attempt_at now

-- `status NOT IN ('succeeded','failed','cancelled')`
abbrev pub is_unfinished : CalcRow → Bool
is_unfinished r = not (r.status == "succeeded" || r.status == "failed" || r.status == "cancelled")
