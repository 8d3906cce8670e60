-- ===== src/Runsd/Db/Sound/Keeps.antt =====
-- The changes of crates/runsd/src/db/queries.rs keep rows and tables sound.
use ensurer_v.Prelude.{ℕ, ◌≡◌, String, ◌==◌, some, List, [], ◌∷◌, arith, All, Bool-cases, inl, inr}
use ensurer_v.Common.CalcStatus
use ensurer_v.Common.CalcStatus.{
  CalcStatus, pending, running, retrying, succeeded, failed, cancelled,
}
use ensurer_v.Common.RunStatus
use ensurer_v.Common.RunStatus.{RunStatus}
use ensurer_v.Common.Model.{Calculation}
use ensurer_v.Runsd.Codec.{Codec, IsFaithful}
use ensurer_v.Runsd.Db.Row.{RunRow, CalcRow}
use ensurer_v.Runsd.Db.Tables.{set_calc, set_run}
use ensurer_v.Runsd.Db.Changes.{
  started_row, heartbeat_row, succeeded_row, failed_row, retrying_row, cancelled_row, pending_row,
}
use ensurer_v.Runsd.Db.Queries.Calculations.{new_row}
use ensurer_v.Runsd.Db.Sound.{IsSound, IsSoundRun, IsDate, IsKind}

pub All-set_calc {ℓ} :
    {P : CalcRow → Type ℓ} (id : String) (f : CalcRow → CalcRow) (rows : List CalcRow)
    → ((r : CalcRow) → P r → P (f r))
    → All P rows
    → All P (set_calc id f rows)
unfolding set_calc
All-set_calc id f [] keep h = tt
All-set_calc id f (r ∷ rs) keep h = elim (Bool-cases (r.id == id)) [
  | inl e ↦ rw e (keep r h.0, All-set_calc id f rs keep h.1)
  | inr e ↦ rw e (h.0, All-set_calc id f rs keep h.1)
]

pub All-set_run {ℓ} :
    {P : RunRow → Type ℓ} (id : String) (f : RunRow → RunRow) (rows : List RunRow)
    → ((r : RunRow) → P r → P (f r))
    → All P rows
    → All P (set_run id f rows)
unfolding set_run
All-set_run id f [] keep h = tt
All-set_run id f (r ∷ rs) keep h = elim (Bool-cases (r.id == id)) [
  | inl e ↦ rw e (keep r h.0, All-set_run id f rs keep h.1)
  | inr e ↦ rw e (h.0, All-set_run id f rs keep h.1)
]

module _ (codec : Codec) (now : ℕ) (is_date : IsDate codec now) where
  pub started-IsSound :
      (owner : String) (expires : ℕ)
      → IsDate codec expires
      → (r : CalcRow) → IsSound codec r
      → IsSound codec (started_row now owner expires r)
  unfolding started_row CalcStatus.to_string
  started-IsSound owner expires e r (s, h) = (running, ground arith)

  pub heartbeat-IsSound :
      (expires : ℕ)
      → IsDate codec expires
      → (r : CalcRow) → IsSound codec r
      → IsSound codec (heartbeat_row now expires r)
  unfolding heartbeat_row
  heartbeat-IsSound expires e r (s, h) = (s, ground arith)

  pub succeeded-IsSound :
      (path : String) (r : CalcRow) → IsSound codec r → IsSound codec (succeeded_row now path r)
  unfolding succeeded_row CalcStatus.to_string
  succeeded-IsSound path r (s, h) = (succeeded, ground arith)

  pub failed-IsSound :
      (kind message : String)
      → IsKind (some kind)
      → (r : CalcRow) → IsSound codec r
      → IsSound codec (failed_row now kind message r)
  unfolding failed_row CalcStatus.to_string
  failed-IsSound kind message k r (s, h) = (failed, ground arith)

  pub retrying-IsSound :
      (attempt next : ℕ)
      → IsDate codec next
      → (r : CalcRow) → IsSound codec r
      → IsSound codec (retrying_row now attempt next r)
  unfolding retrying_row CalcStatus.to_string
  retrying-IsSound attempt next d r (s, h) = (retrying, ground arith)

  pub cancelled-IsSound : (r : CalcRow) → IsSound codec r → IsSound codec (cancelled_row now r)
  unfolding cancelled_row CalcStatus.to_string
  cancelled-IsSound r (s, h) = (cancelled, ground arith)

  pub pending-IsSound : (r : CalcRow) → IsSound codec r → IsSound codec (pending_row now r)
  unfolding pending_row CalcStatus.to_string
  pending-IsSound r (s, h) = (pending, ground arith)

  pub new_row-IsSound :
      IsFaithful codec
      → (calc : Calculation) → calc.status ≡ pending
      → calc.attempt ≡ 0
      → IsSound codec (new_row codec now calc)
  unfolding new_row
  new_row-IsSound laws calc p a = (
    pending,
    ground (
      arith,
      laws.uuid_round calc.id,
      laws.uuid_round calc.run_id,
      laws.json_reads calc.input_json,
    ),
  )

  pub status-IsSoundRun :
      (status : RunStatus) (r : RunRow)
      → IsSoundRun codec r
      → IsSoundRun codec (record r { status = RunStatus.to_string status; updated_at = now })
  status-IsSoundRun status r h = ground (arith, RunStatus.from_str-to_string status)
