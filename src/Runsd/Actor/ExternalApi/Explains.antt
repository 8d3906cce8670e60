-- ===== src/Runsd/Actor/ExternalApi/Explains.antt =====
-- Why a submission to the external API (crates/runsd/src/actor/calc.rs) ends as it does.
use ensurer_v.Prelude.{◌≤◌, ◌<◌, ◌≡◌, ◌≢◌, String, Option, none, some, List, [], ◌∷◌, ok, err, ◌⊎◌}
use ensurer_v.Common.Json.{Json}
use ensurer_v.Common.Model.{CalcId}
use ensurer_v.Runsd.Config.{ExternalApiConfig}
use ensurer_v.Runsd.Actor.World.{ApiOutcome, succeeded, transient_error, permanent_error}
use ensurer_v.Runsd.Actor.ExternalApi.{
  Answer, Io, Submitted, task_status, result_path_of, broken_off,
}
use ensurer_v.Runsd.Actor.ExternalApi.Settles.{HasBody}

-- Some entry has the property.
abbrev pub AnyOf : (Answer → Type 0) → List Answer → Type 0
AnyOf P [] = ⊥
AnyOf P (a ∷ rest) = P a ⊎ AnyOf P rest

-- A status other than 2xx, 408, 429 and 5xx.
abbrev pub IsRefusal : Answer → Type 0
IsRefusal (err e) = ⊥
IsRefusal (ok r) =
    ((r.status < 200) ⊎ (300 ≤ r.status))
    × (r.status ≢ 429)
    × (r.status ≢ 408)
    × ((r.status < 500) ⊎ (600 ≤ r.status))

abbrev pub EndsWell : String → Type 0
EndsWell s = (s ≡ "completed") ⊎ (s ≡ "succeeded") ⊎ (s ≡ "success")

abbrev pub EndsBadly : String → Type 0
EndsBadly s = (s ≡ "failed") ⊎ (s ≡ "error")

module _ (cfg : ExternalApiConfig) (io : Io) where
  -- A failed check never means a finished task, and is permanent for a refusal alone.
  abbrev Fails : Answer → ApiOutcome → Type 0
  Fails a (succeeded path) = ⊥
  Fails a (transient_error m) = Unit
  Fails a (permanent_error m) = IsRefusal a

  module _ (data_dir : String) (calc_id : CalcId) where
    -- The body of a task that ended well is the result, written to the calculation's own path.
    abbrev pub IsResult : Submitted → Answer → Type 0
    IsResult s a =
        (v : Json) × HasBody a v
        × EndsWell (task_status cfg io v)
        × (s.written ≡ (result_path_of cfg io data_dir calc_id, io.json_bytes v) ∷ [])

    -- The writing of that result failed after the file was opened.
    abbrev pub IsCutOff : Submitted → Answer → Type 0
    IsCutOff s a =
        (v : Json) × (part : String) × HasBody a v
        × EndsWell (task_status cfg io v)
        × (io.writes (result_path_of cfg io data_dir calc_id) (io.json_bytes v) ≡ broken_off part)
        × (s.written ≡ (result_path_of cfg io data_dir calc_id, part) ∷ [])

    abbrev pub IsFailure : Answer → Type 0
    IsFailure a = IsRefusal a ⊎ ((v : Json) × HasBody a v × EndsBadly (task_status cfg io v))

    -- By the outcome, with the answers to the polls; `refused` is what the launch may be blamed
    -- for.
    abbrev pub Explained : Type 0 → List Answer → Submitted → Option ApiOutcome → Type 0
    Explained refused polls s none = s.written ≡ []
    Explained refused polls s (some (succeeded path)) =
        (path ≡ result_path_of cfg io data_dir calc_id) × AnyOf (IsResult s) polls
    Explained refused polls s (some (transient_error m)) =
        (s.written ≡ []) ⊎ AnyOf (IsCutOff s) polls
    Explained refused polls s (some (permanent_error m)) =
        (s.written ≡ []) × (refused ⊎ AnyOf IsFailure polls)
