-- ===== src/Runsd/Api/Graphql/Requests.antt =====
-- What the mutations of the GraphQL API (crates/runsd/src/api/graphql.rs) leave, and the request of the REST
-- API (crates/runsd/src/api/handlers.rs) that each stands for.
use ensurer_v.Prelude.{ℕ, String, Bool, false, Option, none, some, List, [], ◌∷◌, Result, is_ok}
use mathlib.Core.Option
use ensurer_v.Common.Json.{Json, object, no_members}
use ensurer_v.Common.Model.{NewCalc}
use ensurer_v.Runsd.Actor.World.{Env, World}
use ensurer_v.Runsd.Actor.Supervisor.{Supervisor, Setup}
use ensurer_v.Runsd.Api.Routes.{ApiRequest, route}
use ensurer_v.Runsd.Api.Graphql.Types.{Texts, NewCalcInput}
use ensurer_v.Runsd.Api.Graphql.Mutations
use ensurer_v.Runsd.Api.Graphql.Mutations.{Mutated}

pub data Mutation : Type 0 where
  submit_run : (jira_issue_id : String) (calculations : List NewCalcInput) → Mutation
  cancel_run retry_calculation cancel_calculation : (id : String) → Mutation

module _ (env : Env) where
  abbrev pub input_read : Option String → Option Json
  input_read none = some (object no_members)
  input_read (some text) = env.codec.json_parse text

  abbrev pub paired : String → Option Json → Option (List NewCalc) → Option (List NewCalc)
  paired kind (some v) (some calcs) = some (record { kind = kind; input = v } ∷ calcs)
  paired kind (some v) none = none
  paired kind none calcs = none

  abbrev pub inputs_read : List NewCalcInput → Option (List NewCalc)
  inputs_read [] = some []
  inputs_read (nc ∷ rest) = paired nc.kind (input_read nc.input) (inputs_read rest)

  -- The request that means the same, unless an input is no JSON.
  abbrev pub request_of : Mutation → Option ApiRequest
  request_of (submit_run jira_issue_id calculations) =
      Option.map
        (λ calcs.
          ApiRequest.submit_run (record { jira_issue_id = jira_issue_id; calculations = calcs }))
        (inputs_read calculations)
  request_of (cancel_run id) = some (ApiRequest.cancel_run id)
  request_of (retry_calculation id) = some (ApiRequest.retry_calculation id)
  request_of (cancel_calculation id) = some (ApiRequest.cancel_calculation id)

-- Whether a mutation succeeded, with the supervisor and the world that it leaves.
pub record MutationEffect : Type 0 where
  pub succeeded : Bool
  pub supervisor : Supervisor
  pub world : World

abbrev pub effect_of : {E A : Type 0} → (Result E A × Supervisor) × World → MutationEffect
effect_of ((r, s), w) = record { succeeded = is_ok r; supervisor = s; world = w }

module _ (env : Env) (setup : Setup) (takes : ℕ → Bool) (read_file : String → Option String)
    (texts : Texts) where
  unfoldable pub mutate : Mutation → Supervisor → World → MutationEffect
  unfolding Mutations.submit_run Mutations.cancel_run Mutations.retry_calculation
      Mutations.cancel_calculation
  mutate (submit_run jira_issue_id calculations) s w =
      effect_of
        (Mutations.submit_run env setup takes read_file texts jira_issue_id calculations s w)
  mutate (cancel_run id) s w =
      effect_of (Mutations.cancel_run env setup takes read_file texts id s w)
  mutate (retry_calculation id) s w =
      effect_of (Mutations.retry_calculation env setup takes read_file texts id s w)
  mutate (cancel_calculation id) s w =
      effect_of (Mutations.cancel_calculation env setup takes read_file texts id s w)

  -- A mutation whose inputs are no JSON fails and changes nothing.
  abbrev pub requested : Option ApiRequest → Supervisor → World → MutationEffect
  requested none s w = record { succeeded = false; supervisor = s; world = w }
  requested (some r) s w = effect_of (route env setup takes read_file r s w)
