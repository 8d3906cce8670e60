-- ===== src/Runsd/Api/Graphql/Submits.antt =====
-- A submission by GraphQL (crates/runsd/src/api/graphql.rs) against one by the REST API
-- (crates/runsd/src/api/handlers.rs).
use ensurer_v.Prelude.{
  ℕ, ◌≡◌, refl, sym, ap, ◌∙◌, String, Bool, true, false, Option, none, some, List, [], ◌∷◌, Result,
  ok, err, is_ok, inl, inr, traverse, enumerate_from, is_blank, is_empty, Bool-cases, arith,
  if◌then◌else◌,
}
use mathlib.Core.Option
use ensurer_v.Common.Json.{Json}
use ensurer_v.Common.Model.{
  RunId, NewCalc, SubmitRunRequest, ValidationError, validate, validate_kinds,
}
use ensurer_v.Runsd.Error.{AppError}
use ensurer_v.Runsd.Actor.World.{Env, World}
use ensurer_v.Runsd.Actor.Supervisor.{Supervisor, Setup}
use ensurer_v.Runsd.Api.Handlers
use ensurer_v.Runsd.Api.Handlers.{Handled, ApiReply}
use ensurer_v.Runsd.Api.Routes.{ApiRequest, route}
use ensurer_v.Runsd.Api.Graphql.Types.{Texts, NewCalcInput}
use ensurer_v.Runsd.Api.Graphql.Mutations
use ensurer_v.Runsd.Api.Graphql.Mutations.{Mutated}
use ensurer_v.Runsd.Api.Graphql.Requests.{
  submit_run, input_read, paired, inputs_read, request_of, MutationEffect, effect_of, mutate,
  requested,
}
use ensurer_v.Runsd.Api.Graphql.Inputs.{Reads, traverse-Reads}

module _ (env : Env) (setup : Setup) (takes : ℕ → Bool) (read_file : String → Option String)
    (texts : Texts) where
  created-same :
      (a : Result AppError RunId × Supervisor) (w : World)
      → effect_of (Mutations.answered_by env setup takes read_file texts env.codec.uuid_text a, w)
        ≡ effect_of (Handlers.created_by env setup takes read_file a, w)
  created-same (ok u, s) w = refl
  created-same (err e, s) w = refl

  unchanged : Supervisor → World → MutationEffect
  unchanged s w = record { succeeded = false; supervisor = s; world = w }

  abbrev body_of : String → List NewCalc → SubmitRunRequest
  body_of jira_issue_id calcs = record { jira_issue_id = jira_issue_id; calculations = calcs }

  unchanged_lem :
      (s : Supervisor) (w : World)
      → unchanged s w ≡ requested env setup takes read_file texts none s w
  unfolding unchanged
  unchanged_lem s w = refl

  validate-kinds :
      (jira_issue_id : String) (calcs : List NewCalc)
      → is_blank jira_issue_id ≡ false
      → is_empty calcs ≡ false
      → validate (body_of jira_issue_id calcs) ≡ validate_kinds 0 calcs
  unfolding validate
  validate-kinds jira_issue_id calcs b n = rw (b, n) refl

  submit_valid-refused :
      (body : SubmitRunRequest) (s : Supervisor) (w : World) (r : Result ValidationError (Unit {0}))
      → is_ok r ≡ false
      → effect_of (Handlers.submit_valid env setup takes read_file body s r w) ≡ unchanged s w
  unfolding unchanged
  submit_valid-refused body s w (ok u) h = cc (h)
  submit_valid-refused body s w (err (ValidationError.field m)) h = refl

  -- A REST submission that is not valid fails and changes nothing.
  invalid-refused :
      (body : SubmitRunRequest) (s : Supervisor) (w : World)
      → is_ok (validate body) ≡ false
      → effect_of (route env setup takes read_file (ApiRequest.submit_run body) s w) ≡ unchanged s w
  unfolding route Handlers.submit_run
  invalid-refused body s w h = submit_valid-refused body s w (validate body) h

  -- The end of a submission, by what the inputs are read as.
  submit_calcs-same :
      (jira_issue_id : String) (s : Supervisor) (w : World) (r : Result String (List NewCalc))
      (o : Option (List NewCalc))
      → is_blank jira_issue_id ≡ false
      → ((calcs : List NewCalc) → o ≡ some calcs → is_empty calcs ≡ false)
      → Reads env setup takes read_file texts 0 r o
      → effect_of (Mutations.submit_calcs env setup takes read_file texts jira_issue_id s r w)
        ≡ requested env setup takes read_file texts
            (Option.map (λ calcs. ApiRequest.submit_run (body_of jira_issue_id calcs)) o)
            s
            w
  unfolding route Handlers.submit_run unchanged
  submit_calcs-same jira s w (ok calcs) none b n h = cc (h)
  submit_calcs-same jira s w (err e) none b n h = refl
  submit_calcs-same jira s w r (some calcs) b n (inl (e, g)) =
      let v = validate-kinds jira calcs b (n calcs refl) ∙ g in
      let (a, w') =
        Handlers.ask_submit env setup takes read_file (takes w.step) (body_of jira calcs) s w in
      rw (e, v) (created-same a w')
  submit_calcs-same jira s w (ok cs) (some calcs) b n (inr (e, g)) = cc (e)
  submit_calcs-same jira s w (err m) (some calcs) b n (inr (e, g)) = sym (
      invalid-refused (body_of jira calcs) s w
        (ap is_ok (validate-kinds jira calcs b (n calcs refl)) ∙ g))

  blank-invalid :
      (jira_issue_id : String) (calcs : List NewCalc)
      → is_blank jira_issue_id ≡ true
      → is_ok (validate (body_of jira_issue_id calcs)) ≡ false
  unfolding validate
  blank-invalid jira_issue_id calcs b = rw b refl

  empty-invalid :
      (jira_issue_id : String)
      → is_blank jira_issue_id ≡ false
      → is_ok (validate (body_of jira_issue_id [])) ≡ false
  unfolding validate
  empty-invalid jira_issue_id b = rw b refl

  paired-some :
      (kind : String) (p : Option Json) (o : Option (List NewCalc)) (calcs : List NewCalc)
      → paired env kind p o ≡ some calcs
      → is_empty calcs ≡ false
  paired-some kind (some v) (some cs) calcs h = ground (arith, h)
  paired-some kind (some v) none calcs h = cc (h)
  paired-some kind none o calcs h = cc (h)

  blank-same :
      (jira_issue_id : String) (s : Supervisor) (w : World) (o : Option (List NewCalc))
      → is_blank jira_issue_id ≡ true
      → unchanged s w
        ≡ requested env setup takes read_file texts
            (Option.map (λ calcs. ApiRequest.submit_run (body_of jira_issue_id calcs)) o)
            s
            w
  blank-same jira s w none b = unchanged_lem s w
  blank-same jira s w (some calcs) b =
      sym (invalid-refused (body_of jira calcs) s w (blank-invalid jira calcs b))

  listed-same :
      (jira_issue_id : String) (s : Supervisor) (w : World) (calculations : List NewCalcInput)
      → is_blank jira_issue_id ≡ false
      → effect_of (
          (if is_empty calculations
              then Mutations.refused "at least one calculation is required" s
              else Mutations.submit_calcs env setup takes read_file texts jira_issue_id s (
                  traverse
                    (Mutations.new_calc env setup takes read_file texts)
                    (enumerate_from 0 calculations)))
            w)
        ≡ requested env setup takes read_file texts
            (request_of env (submit_run jira_issue_id calculations))
            s
            w
  listed-same jira s w [] b =
      sym (unchanged_lem s w) ∙ sym (invalid-refused (body_of jira []) s w (empty-invalid jira b))
  listed-same jira s w (nc ∷ rest) b =
      submit_calcs-same jira s w _ (inputs_read env (nc ∷ rest)) b
        (λ calcs. paired-some nc.kind (input_read env nc.input) (inputs_read env rest) calcs)
        (traverse-Reads env setup takes read_file texts 0 (nc ∷ rest))

  pub submit_run-same :
      (jira_issue_id : String) (calculations : List NewCalcInput) (s : Supervisor) (w : World)
      → mutate env setup takes read_file texts (submit_run jira_issue_id calculations) s w
        ≡ requested env setup takes read_file texts
            (request_of env (submit_run jira_issue_id calculations))
            s
            w
  unfolding mutate Mutations.submit_run
  submit_run-same jira calculations s w = elim (Bool-cases (is_blank jira)) [
    | inl b ↦ rw b (sym (unchanged_lem s w) ∙ blank-same jira s w (inputs_read env calculations) b)
    | inr b ↦ rw b (listed-same jira s w calculations b)
  ]
