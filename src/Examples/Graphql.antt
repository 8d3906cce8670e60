-- ===== src/Examples/Graphql.antt =====
-- The GraphQL API (crates/runsd/src/api/graphql.rs) at concrete inputs: run 3 with its calculation 7.
use ensurer_v.Prelude.{◌≡◌, refl, true, none, some, [], ◌∷◌, ℤ, as_i32}
use ensurer_v.Runsd.Actor.Supervisor.{new}
use ensurer_v.Runsd.Api.Routes.{route}
use ensurer_v.Runsd.Api.Graphql.Types.{Texts}
use ensurer_v.Runsd.Api.Graphql.Requests
use ensurer_v.Runsd.Api.Graphql.Requests.{Mutation, mutate, requested}
use ensurer_v.Runsd.Api.Graphql.Same.{mutate-same}
use ensurer_v.Runsd.Api.Graphql.Reads
use ensurer_v.Runsd.Api.Graphql.Reads.{Query, Alike, query, query-Alike}
use ensurer_v.Examples.Samples.{flaky, submitted, setup, start_world, marks}

abbrev texts : Texts
texts = record { rfc3339 = marks; uuid_error = λ s. s; json_error = λ s. s }

abbrev submission : Mutation
submission =
    Mutation.submit_run "JIRA-2"
      (record { kind = "pricing"; input = none } ∷ record { kind = "risk"; input = some "1" } ∷ [])

mutate-same_example :
    mutate flaky setup (λ _. true) (λ _. none) texts submission new (start_world submitted)
    ≡ requested flaky setup
        (λ _. true)
        (λ _. none)
        texts
        (Requests.request_of flaky submission)
        new
        (start_world submitted)
mutate-same_example =
    mutate-same flaky setup (λ _. true) (λ _. none) texts submission new (start_world submitted)

query-Alike_example :
    Alike flaky setup
      (λ _. true)
      (λ _. none)
      texts
      (query flaky setup (λ _. true) (λ _. none) texts (Query.run "iii") (start_world submitted)).0
      (route flaky setup
        (λ _. true)
        (λ _. none)
        (Reads.request_of (Query.run "iii"))
        new
        (start_world submitted)).0.0
query-Alike_example =
    query-Alike flaky setup (λ _. true) (λ _. none) texts (Query.run "iii") new
      (start_world submitted)

as_i32_lem : as_i32 4294967295 ≡ ℤ.negsuc 0
unfolding as_i32
as_i32_lem = refl
