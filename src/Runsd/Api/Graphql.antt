-- ===== src/Runsd/Api/Graphql.antt =====
-- crates/runsd/src/api/graphql.rs: the resolvers of the queries and of the mutations. async-graphql,
-- which reads a request and calls them, and the schema are left out.
pub mod Types
pub mod Mutations
pub mod Requests
pub mod Inputs
pub mod Submits
pub mod Same
pub mod Reads
use ensurer_v.Prelude.{
  ℕ, String, append, Option, none, some, List, map, Result, ok, err, map_err, ℤ, pos, clamp_u32,
}
use mathlib.Core.Option
use ensurer_v.Common.Model.{RunId, CalcId, Run, Calculation}
use ensurer_v.Runsd.Error.{AppError, error_text}
use ensurer_v.Runsd.Actor.Db.{DbCmd}
use ensurer_v.Runsd.Actor.World.{Env, Act, send}
use ensurer_v.Runsd.Api.Graphql.Types.{Texts, RunGql, CalcGql, run_gql, calc_gql}

-- An `async_graphql::Error` is its message.
abbrev pub GqlResult : Type 0 → Type 0
GqlResult A = Result String A

-- `unwrap_or(20).clamp(1, 100) as u32`
unfoldable pub limit_of : Option ℤ → ℕ
unfolding clamp_u32
limit_of none = clamp_u32 1 100 (pos 20)
limit_of (some n) = clamp_u32 1 100 n

module _ (env : Env) (texts : Texts) where
  abbrev id_or : String → String → Option ℕ → GqlResult ℕ
  id_or what id none = err (append "invalid " (append what (append " id: " (texts.uuid_error id))))
  id_or what id (some u) = ok u

  abbrev pub read_id : String → String → GqlResult ℕ
  read_id what id = id_or what id (env.codec.uuid_parse id)

  abbrev pub answered : {A B : Type 0} → (A → B) → Result AppError A → GqlResult B
  answered f (ok a) = ok (f a)
  answered f (err e) = err (error_text e)

  abbrev pub run_parsed : Result String RunId → Act (GqlResult (Option RunGql))
  run_parsed (err e) w = (err e, w)
  run_parsed (ok id) w =
      let (reply, w') = send env (DbCmd.get_run id) w in
      (answered (Option.map (run_gql env.codec texts)) reply, w')

  unfoldable pub run : String → Act (GqlResult (Option RunGql))
  unfolding send run_gql error_text
  run id = run_parsed (read_id "run" id)

  unfoldable pub runs : Option String → Option ℤ → Act (GqlResult (List RunGql))
  unfolding send run_gql limit_of error_text
  runs status limit w =
      let (reply, w') = send env (DbCmd.list_runs status (limit_of limit) none none) w in
      (answered (map (run_gql env.codec texts)) reply, w')

  abbrev pub calc_parsed : Result String CalcId → Act (GqlResult (Option CalcGql))
  calc_parsed (err e) w = (err e, w)
  calc_parsed (ok id) w =
      let (reply, w') = send env (DbCmd.get_calculation id) w in
      (answered (Option.map (calc_gql env.codec texts)) reply, w')

  unfoldable pub calculation : String → Act (GqlResult (Option CalcGql))
  unfolding send calc_gql error_text
  calculation id = calc_parsed (read_id "calc" id)
