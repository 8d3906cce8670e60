-- ===== src/Examples/ExternalApi.antt =====
-- The client of the external API (crates/runsd/src/actor/calc.rs) at concrete inputs.
use ensurer_v.Prelude.{
  String, none, ◌==◌, eq_iff, ◌≡◌, ◌↔◌, refl, arith, true, false, is_some, [], ◌∷◌, ok, err, All,
  length,
}
use ensurer_v.Common.Json.{null, object, string, member, no_members}
use ensurer_v.Runsd.Config.{default_external_api}
use ensurer_v.Runsd.Actor.ExternalApi.{Answer, Io, complete, submit, launch_body, task_status}
use ensurer_v.Runsd.Actor.ExternalApi.Settles.{
  submit-settles, submit-none, IsAccepted, IsPending, IsOther,
}
use ensurer_v.Examples.Samples.{marks}

abbrev io : Io
io = record {
  status_text = marks;
  to_lowercase = λ s. s;
  json_bytes = λ _. "{}";
  id_text = marks;
  writes = λ _ _. complete;
}

abbrev launched_task : Answer
launched_task =
    ok (record { status = 200; body = ok (object (member "taskId" (string "t-1") no_members)) })

abbrev task_is : String → Answer
task_is s = ok (record { status = 200; body = ok (object (member "status" (string s) no_members)) })

abbrev throttled : Answer
throttled = ok (record { status = 429; body = err "no JSON" })

other :
    (s : String)
    → (s == "completed") ≡ false
    → (s == "succeeded") ≡ false
    → (s == "success") ≡ false
    → (s == "failed") ≡ false
    → (s == "error") ≡ false
    → IsOther s
other s a b c d e = (
  λ h. cc (a, (eq_iff s "completed").1 h),
  λ h. cc (b, (eq_iff s "succeeded").1 h),
  λ h. cc (c, (eq_iff s "success").1 h),
  λ h. cc (d, (eq_iff s "failed").1 h),
  λ h. cc (e, (eq_iff s "error").1 h),
)

task_is-IsPending : (s : String) → IsOther s → IsPending default_external_api io (task_is s)
unfolding task_status
task_is-IsPending s o =
    (object (member "status" (string s) no_members), (omega arith, omega arith, refl), o)

submit-settles_example :
    let s =
      submit default_external_api io "pricing" null "key" "/data" 3 launched_task
        (task_is "pending" ∷ task_is "running" ∷ throttled ∷ task_is "completed" ∷ []) in
    (is_some s.outcome ≡ true) × (length s.requests ≡ 4)
unfolding task_status
submit-settles_example =
    submit-settles default_external_api io "/data" 3 "pricing" "key" null launched_task
      (task_is "pending" ∷ task_is "running" ∷ []) (task_is "completed" ∷ []) throttled
      (_, (omega arith, omega arith, refl))
      (
        task_is-IsPending "pending" (other "pending" refl refl refl refl refl),
        (task_is-IsPending "running" (other "running" refl refl refl refl refl), tt),
      )
      (λ p. omega (arith, p.1.1))

submit-none_example :
    ((submit default_external_api io "pricing" null "key" "/data" 3 launched_task
        (task_is "running" ∷ [])).outcome
      ≡ none)
    ↔ (IsAccepted default_external_api io launched_task
        × All (IsPending default_external_api io) (task_is "running" ∷ []))
submit-none_example =
    submit-none default_external_api io "/data" 3 "pricing" "key" null launched_task
      (task_is "running" ∷ [])

-- A member of the input that is called `kind` is overwritten.
launch_body_lem :
    launch_body "pricing" (object (member "kind" (string "other") no_members))
    ≡ object (member "kind" (string "pricing") no_members)
unfolding launch_body
launch_body_lem = refl
