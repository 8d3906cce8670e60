-- ===== src/Examples/Samples.antt =====
-- Sample data: a codec that satisfies `IsFaithful`, an environment, tables.
use Prim.Native.String.{count}
use text.Mathlib.TextLemmas.{length-cons}
use ensurer_v.Prelude.{
  ℕ, zero, suc, ◌*◌, ◌+◌, ◌≤◌, ◌≡◌, refl, min, leb, arith, if◌then◌else◌, ap, ◌∙◌, String, true,
  false, none, some, List, [], ◌∷◌, ◌++◌, All,
}
use ensurer_v.Common.Json
use ensurer_v.Common.CalcStatus
use ensurer_v.Common.Model.{Calculation}
use ensurer_v.Runsd.Codec.{Codec, IsFaithful}
use ensurer_v.Runsd.Config.{default_retry, default_lease}
use ensurer_v.Runsd.Db.Tables.{Db, empty}
use ensurer_v.Runsd.Db.Keys.{IsKeyed}
use ensurer_v.Runsd.Db.Sound.{IsSoundDb}
use ensurer_v.Runsd.Actor.Db.{Served, DbCmd, serve}
use ensurer_v.Runsd.Actor.Db.History.{IsServable, serve-IsSoundDb}
use ensurer_v.Runsd.Actor.Db.Keyed.{history_keeps_keys}
use ensurer_v.Runsd.Actor.World.{Env, World, IsRange, transient_error}
use ensurer_v.Runsd.Actor.Calc.{CalcActor}
use ensurer_v.Runsd.Actor.Calc.Sound.{IsFair, IsTimely}
use ensurer_v.Runsd.Actor.Supervisor.{Setup}
use ensurer_v.Runsd.Actor.Run.{RunActor, CalcSpec}
use ensurer_v.Runsd.Actor.Run.Refresh.{IsQuiet}

-- An id as that many marks.
abbrev pub marks : ℕ → String
marks zero = ""
marks (suc n) = String.◌∷◌ "i" (marks n)

count-marks : (n : ℕ) → count (marks n) ≡ n
count-marks zero = refl
count-marks (suc n) = length-cons "i" (marks n) ∙ ap suc (count-marks n)

-- The last time is that of chrono's dates.
abbrev pub plain : Codec
plain = record {
  uuid_text = marks;
  uuid_parse = λ s. some (count s);
  json_text = λ _. "null";
  json_parse = λ _. some Json.null;
  event_text = λ _. "{}";
  dt_of_millis = λ t. if leb t 8210266876799999 then some t else none;
}

pub plain-IsFaithful : IsFaithful plain
plain-IsFaithful = record { uuid_round = λ u. ap some (count-marks u); json_reads = λ v. refl }

abbrev pub in_time : ℕ → Served
in_time t = record { now = t; refused = false }

-- Nobody else acts, the clock reads 1000 times the step up to a last time, and the API always fails
-- for now.
abbrev pub flaky : Env
flaky = record {
  codec = plain;
  clock = λ n. min (n * 1000) 4102444800000;
  served = λ n. in_time (min (n * 1000) 4102444800000);
  others = λ _. [];
  permits = λ _. true;
  api = λ _. transient_error "HTTP 503";
  draw = λ _ bound. bound;
  sleeps = λ _. true;
  closes = false;
}

abbrev pub calc_7 : Calculation
calc_7 = record {
  id = 7;
  run_id = 3;
  kind = "pricing";
  input_json = Json.null;
  idempotency_key = "k";
  status = CalcStatus.pending;
  attempt = 0;
  max_attempts = 5;
  next_attempt_at = none;
  lease_owner = none;
  lease_expires_at = none;
  error_kind = none;
  error_message = none;
  result_path = none;
  created_at = 0;
  started_at = none;
  completed_at = none;
  updated_at = 0;
}

abbrev pub actor_7 : CalcActor
actor_7 = record {
  id = 7;
  run_id = 3;
  kind = "pricing";
  input_json = Json.null;
  idempotency_key = "k";
  attempt = 0;
  max_attempts = 5;
  retry_cfg = default_retry;
  lease_cfg = default_lease;
  worker_id = "worker";
}

-- Run 3 with its calculation 7, as the supervisor submits them.
abbrev pub submission : List (Served × DbCmd)
submission =
    (in_time 1, DbCmd.insert_run 3 "JIRA-1" "anonymous")
    ∷ (in_time 2, DbCmd.insert_calculation calc_7)
    ∷ []

abbrev pub start_world : Db → World
start_world tables = record { step = 0; tables = tables; published = []; notified = []; calls = 0 }

-- The tables after the submission.
abbrev pub submitted : Db
submitted = serve plain submission empty

pub submission-IsServable : All (IsServable plain) submission
submission-IsServable = ((refl, tt), ((refl, (refl, refl)), tt))

pub submitted-IsGood : IsSoundDb plain submitted × IsKeyed submitted
submitted-IsGood = (
  serve-IsSoundDb plain plain-IsFaithful submission submission-IsServable empty
      (record { runs_sound = tt; calcs_sound = tt }),
  history_keeps_keys plain submission,
)

-- Calculation 7 is running when the daemon ends.
abbrev pub crash : List (Served × DbCmd)
crash = submission ++ (in_time 3, DbCmd.calc_started 7 "worker" 63000) ∷ []

abbrev pub crashed : Db
crashed = serve plain crash empty

pub crashed-IsGood : IsSoundDb plain crashed × IsKeyed crashed
crashed-IsGood = (
  serve-IsSoundDb plain plain-IsFaithful crash
      ((refl, tt), ((refl, (refl, refl)), ((refl, refl), tt))) empty
      (record { runs_sound = tt; calcs_sound = tt }),
  history_keeps_keys plain crash,
)

pub flaky-IsFair : IsFair flaky
flaky-IsFair = record {
  laws = plain-IsFaithful;
  others_servable = λ n. tt;
  served_date = λ n. ground arith;
}

-- A thousand years after the last time of the clock.
pub flaky-IsTimely : (ahead : ℕ) → ahead ≤ 31557600000000 → IsTimely flaky ahead
flaky-IsTimely ahead le n extra k = ground arith

pub flaky-IsRange : IsRange flaky
flaky-IsRange = record { draw-le = λ n bound. omega arith }

pub flaky-IsQuiet : IsQuiet flaky
flaky-IsQuiet = record { others_none = λ n. refl; not_refused = λ n. refl }

-- A run actor with the calculations 7 and 8.
abbrev pub spec_of : ℕ → CalcSpec
spec_of id = record {
  id = id;
  kind = "pricing";
  input_json = Json.null;
  idem_key = "k";
  attempt = 0;
  max_attempts = 5;
}

abbrev pub run_3 : RunActor
run_3 = record {
  run_id = 3;
  retry_cfg = default_retry;
  lease_cfg = default_lease;
  calcs = spec_of 7 ∷ spec_of 8 ∷ [];
}

-- Three events in the tables.
abbrev pub noted : List (Served × DbCmd)
noted =
    (in_time 1, DbCmd.insert_event none none "run.submitted" "{}")
    ∷ (in_time 2, DbCmd.insert_event none none "calculation.status_changed" "{}")
    ∷ (in_time 3, DbCmd.insert_event none none "calculation.status_changed" "{}")
    ∷ []

-- Run 3 without calculations.
abbrev pub opened : Db
opened = serve plain ((in_time 1, DbCmd.insert_run 3 "JIRA-1" "anonymous") ∷ []) empty

-- An id is 100 more than the number of its step, and the digest is the text itself.
abbrev pub setup : Setup
setup = record {
  retry_cfg = default_retry;
  lease_cfg = default_lease;
  digest = record { key_text = λ s. s; scalar_text = λ v. "null"; sha256_hex = λ s. s };
  new_uuid = λ n. n + 100;
}
