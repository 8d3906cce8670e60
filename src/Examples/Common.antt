-- ===== src/Examples/Common.antt =====
-- crates/common at concrete inputs.
use ensurer_v.Prelude.{◌≡◌, refl, ◌≢◌, ◌↔◌, [], ◌∷◌, ok, err, show_nat, All, is_blank, false}
use ensurer_v.Common.CalcStatus
use ensurer_v.Common.RunStatus
use ensurer_v.Common.RunStatus.Derive.{Describes, derive_run_status_iff}
use ensurer_v.Common.Json
use ensurer_v.Common.Model.{NewCalc, SubmitRunRequest, field, validate}
use ensurer_v.Common.Model.Validate.{HasKind, validate_iff}

mixed :
    RunStatus.derive_run_status (CalcStatus.succeeded ∷ CalcStatus.failed ∷ [])
    ≡ RunStatus.partially_succeeded
unfolding RunStatus.derive_run_status
mixed = refl

derive_run_status_iff_example :
    (RunStatus.derive_run_status (CalcStatus.succeeded ∷ CalcStatus.failed ∷ [])
      ≡ RunStatus.partially_succeeded)
    ↔ Describes RunStatus.partially_succeeded (CalcStatus.succeeded ∷ CalcStatus.failed ∷ [])
derive_run_status_iff_example =
    derive_run_status_iff (CalcStatus.succeeded ∷ CalcStatus.failed ∷ [])
      RunStatus.partially_succeeded

abbrev pricing : NewCalc
pricing = record { kind = "pricing"; input = Json.null }

abbrev nameless : NewCalc
nameless = record { kind = " "; input = Json.null }

abbrev request : SubmitRunRequest
request = record { jira_issue_id = "JIRA-1"; calculations = pricing ∷ nameless ∷ [] }

request_refused : validate request ≡ err (field "calculations[1].kind must not be empty")
unfolding validate is_blank show_nat
request_refused = refl

validate_iff_example : (validate request ≡ ok tt) ↔ (
    (is_blank "JIRA-1" ≡ false)
    × (pricing ∷ nameless ∷ [] ≢ [])
    × All HasKind (pricing ∷ nameless ∷ []))
validate_iff_example = validate_iff request
