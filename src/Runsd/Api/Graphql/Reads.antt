-- ===== src/Runsd/Api/Graphql/Reads.antt =====
-- The queries of the GraphQL API (crates/runsd/src/api/graphql.rs) against the requests of the REST API
-- (crates/runsd/src/api/handlers.rs).
use ensurer_v.Prelude.{
  ℕ, ◌≡◌, refl, String, Bool, false, Option, none, some, Option-cases, inl, inr, List, map, Result,
  ok, err, is_ok, ℤ, clamp_u32, arith, min,
}
use mathlib.Core.Option
use ensurer_v.Common.Model.{Run, Calculation}
use ensurer_v.Runsd.Error.{AppError}
use ensurer_v.Runsd.Actor.Db.{DbCmd}
use ensurer_v.Runsd.Actor.World.{Env, World, send}
use ensurer_v.Runsd.Actor.Supervisor.{Supervisor, Setup}
use ensurer_v.Runsd.Api.Cursor.{parse_cursor}
use ensurer_v.Runsd.Api.Handlers
use ensurer_v.Runsd.Api.Handlers.{ApiReply}
use ensurer_v.Runsd.Api.Routes.{ApiRequest, route}
use ensurer_v.Runsd.Api.Graphql
use ensurer_v.Runsd.Api.Graphql.{GqlResult, limit_of, answered}
use ensurer_v.Runsd.Api.Graphql.Types.{Texts, RunGql, CalcGql, run_gql, calc_gql}

pub data Query : Type 0 where
  run calculation : (id : String) → Query
  runs : (status : Option String) (limit : Option ℤ) → Query

pub data QueryReply : Type 0 where
  one_run : Option RunGql → QueryReply
  one_calc : Option CalcGql → QueryReply
  all_runs : List RunGql → QueryReply

abbrev map_ok : {A B : Type 0} → (A → B) → GqlResult A × World → GqlResult B × World
map_ok f (ok a, w) = (ok (f a), w)
map_ok f (err e, w) = (err e, w)

-- The limit that the REST API is asked for.
abbrev rest_limit : Option ℤ → Option ℕ
rest_limit none = none
rest_limit (some n) = some (clamp_u32 1 100 n)

abbrev pub request_of : Query → ApiRequest
request_of (run id) = ApiRequest.get_run id
request_of (calculation id) = ApiRequest.get_calculation id
request_of (runs status limit) =
    ApiRequest.list_runs (record { status = status; limit = rest_limit limit; cursor = none })

min-clamp_u32 : (n : ℤ) → min (clamp_u32 1 100 n) 100 ≡ clamp_u32 1 100 n
unfolding clamp_u32
min-clamp_u32 (ℤ.pos n) = omega arith
min-clamp_u32 (ℤ.negsuc n) = refl

clamp_u32_lem : clamp_u32 1 100 (ℤ.pos 20) ≡ 20
unfolding clamp_u32
clamp_u32_lem = refl

module _ (env : Env) (setup : Setup) (takes : ℕ → Bool) (read_file : String → Option String)
    (texts : Texts) where
  unfoldable pub query : Query → World → GqlResult QueryReply × World
  unfolding Graphql.run Graphql.runs Graphql.calculation
  query (run id) w = map_ok one_run (Graphql.run env texts id w)
  query (calculation id) w = map_ok one_calc (Graphql.calculation env texts id w)
  query (runs status limit) w = map_ok all_runs (Graphql.runs env texts status limit w)

  -- The two answers tell the same: the same row, no row, the same rows, or an error.
  abbrev pub Alike : GqlResult QueryReply → Result AppError ApiReply → Type 0
  Alike (ok (one_run (some g))) rest =
      (r : Run) × (rest ≡ ok (ApiReply.run r)) × (g ≡ run_gql env.codec texts r)
  Alike (ok (one_run none)) rest = rest ≡ err AppError.not_found
  Alike (ok (one_calc (some g))) rest =
      (c : Calculation) × (rest ≡ ok (ApiReply.calculation c)) × (g ≡ calc_gql env.codec texts c)
  Alike (ok (one_calc none)) rest = rest ≡ err AppError.not_found
  Alike (ok (all_runs gs)) rest =
      (rs : List Run) × (cursor : Option String) × (rest
        ≡ ok (ApiReply.runs (record { runs = rs; next_cursor = cursor })))
      × (gs ≡ map (run_gql env.codec texts) rs)
  Alike (err m) rest = is_ok rest ≡ false

  run-Alike :
      (r : Result AppError (Option Run)) (w : World)
      → Alike
          (map_ok one_run (answered env texts (Option.map (run_gql env.codec texts)) r, w)).0
          (Handlers.found_run env setup takes read_file r)
  run-Alike (ok (some r)) w = (r, refl, refl)
  run-Alike (ok none) w = refl
  run-Alike (err e) w = refl

  calc-Alike :
      (r : Result AppError (Option Calculation)) (s : Supervisor) (w : World)
      → Alike
          (map_ok one_calc (answered env texts (Option.map (calc_gql env.codec texts)) r, w)).0
          (Handlers.on_found env setup takes read_file
            (λ calc v. ((ok (ApiReply.calculation calc), s), v))
            s
            r
            w).0.0
  calc-Alike (ok (some c)) s w = (c, refl, refl)
  calc-Alike (ok none) s w = refl
  calc-Alike (err e) s w = refl

  runs-Alike :
      (limit : ℕ) (r : Result AppError (List Run)) (w : World)
      → Alike
          (map_ok all_runs (answered env texts (map (run_gql env.codec texts)) r, w)).0
          (Handlers.listed env setup takes read_file limit r)
  runs-Alike limit (ok rs) w = (rs, _, refl, refl)
  runs-Alike limit (err e) w = refl

  -- A query answers the run, the calculation or the runs that the request of the REST API answers,
  -- converted; nothing where that one answers not found; and fails where that one fails. For the
  -- runs that request has the limit between 1 and 100 and no cursor.
  pub query-Alike :
      (q : Query) (s : Supervisor) (w : World)
      → Alike (query q w).0 (route env setup takes read_file (request_of q) s w).0.0
  unfolding query route Graphql.run Graphql.runs Graphql.calculation Handlers.get_run
      Handlers.get_calculation Handlers.with_calc Handlers.list_runs limit_of parse_cursor
  query-Alike (run id) s w = elim (Option-cases (env.codec.uuid_parse id)) [
    | inl e ↦ rw e refl
    | inr (i, e) ↦ rw e (run-Alike (send env (DbCmd.get_run i) w).0 _)
  ]
  query-Alike (calculation id) s w = elim (Option-cases (env.codec.uuid_parse id)) [
    | inl e ↦ rw e refl
    | inr (i, e) ↦ rw e (calc-Alike (send env (DbCmd.get_calculation i) w).0 s _)
  ]
  query-Alike (runs status none) s w =
      rw clamp_u32_lem (runs-Alike 20 (send env (DbCmd.list_runs status 20 none none) w).0 _)
  query-Alike (runs status (some n)) s w =
      let limit = clamp_u32 1 100 n in
      rw (min-clamp_u32 n)
        (runs-Alike limit (send env (DbCmd.list_runs status limit none none) w).0 _)
