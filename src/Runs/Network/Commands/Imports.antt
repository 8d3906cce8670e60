-- ===== src/Runs/Network/Commands/Imports.antt =====
-- The reports of an import (crates/runs/src/network.rs).
use ensurer_v.Prelude.{
  ℕ, zero, suc, ◌+◌, ◌≤◌, ◌<◌, ◌≡◌, refl, ap, ◌∙◌, String, Bool, true, false, some, List, [], ◌∷◌,
  length, take, get_elem?, nat_eq, is_ok, Result-cases, arith, inl, inr,
}
use ensurer_v.Runs.App.Message.{AppMsg}
use ensurer_v.Runs.Network.Client.{Wire}
use ensurer_v.Runs.Network.Commands.{
  import_file, import_files, import_directory, collect_json_files, end_of_import, Entries,
}

-- How often a Boolean stands in a list.
unfoldable pub tally : Bool → List Bool → ℕ
tally b [] = 0
tally true (true ∷ bs) = suc (tally true bs)
tally true (false ∷ bs) = tally true bs
tally false (true ∷ bs) = tally false bs
tally false (false ∷ bs) = suc (tally false bs)

module _ (wire : Wire) where
  -- Which of the files are submitted, from the n-th request.
  unfoldable pub outcomes : ℕ → List String → List Bool
  outcomes n [] = []
  outcomes n (path ∷ files) = is_ok (import_file wire n path) ∷ outcomes (suc n) files

  -- The k-th report, on the files up to the k-th.
  report_at :
      (n submitted errors total : ℕ) (files : List String) (k : ℕ)
      → k < length files
      → get_elem? (import_files wire n submitted errors total files) k
        ≡ some (
            AppMsg.import_progress
              (submitted + errors + suc k)
              total
              (errors + tally false (take (suc k) (outcomes n files))))
  unfolding import_files outcomes tally
  report_at n s e total [] k h = absurd (omega (arith, h))
  report_at n s e total (path ∷ files) zero h = ground arith
  report_at n s e total (path ∷ files) (suc k) h = elim (Result-cases (import_file wire n path)) [
    | inl (u, f) ↦ ground (arith, f, report_at (suc n) (suc s) e total files k (omega (arith, h)))
    | inr (t, f) ↦ ground (arith, f, report_at (suc n) s (suc e) total files k (omega (arith, h)))
  ]

  end_at :
      (n submitted errors total : ℕ) (files : List String)
      → get_elem? (import_files wire n submitted errors total files) (length files)
        ≡ some (
            end_of_import wire
              (submitted + tally true (outcomes n files))
              (errors + tally false (outcomes n files))
              total)
  unfolding import_files outcomes tally
  end_at n s e total [] =
      let p : s + 0 ≡ s = omega arith in let q : e + 0 ≡ e = omega arith in rw (p, q) refl
  end_at n s e total (path ∷ files) = elim (Result-cases (import_file wire n path)) [
    | inl (u, f) ↦
        let p : suc s + tally true (outcomes (suc n) files)
            ≡ s + suc (tally true (outcomes (suc n) files)) =
          omega arith in
        ground (arith, f, p, end_at (suc n) (suc s) e total files)
    | inr (t, f) ↦
        let p : suc e + tally false (outcomes (suc n) files)
            ≡ e + suc (tally false (outcomes (suc n) files)) =
          omega arith in
        ground (arith, f, p, end_at (suc n) s (suc e) total files)
  ]

  reports :
      (n : ℕ) (files : List String) (k : ℕ)
      → k ≤ length files
      → get_elem?
          (AppMsg.import_progress 0 (length files) 0 ∷ import_files wire n 0 0 (length files) files)
          k
        ≡ some (AppMsg.import_progress k (length files) (tally false (take k (outcomes n files))))
  unfolding tally
  reports n files zero h = refl
  reports n files (suc k) h =
      let total = length files in
      let few = tally false (take (suc k) (outcomes n files)) in
      let p : 0 + 0 + suc k ≡ suc k = omega arith in
      let q : 0 + few ≡ few = omega arith in
      report_at n 0 0 total files k (omega (arith, h))
      ∙ ap (λ x. some (AppMsg.import_progress x total (0 + few))) p
      ∙ ap (λ y. some (AppMsg.import_progress (suc k) total y)) q

  last_report :
      (n : ℕ) (files : List String)
      → get_elem? (import_files wire n 0 0 (length files) files) (length files)
        ≡ some (
            end_of_import wire
              (tally true (outcomes n files))
              (tally false (outcomes n files))
              (length files))
  last_report n files =
      let total = length files in
      let done = tally true (outcomes n files) in
      let failed = tally false (outcomes n files) in
      let p : 0 + done ≡ done = omega arith in
      let q : 0 + failed ≡ failed = omega arith in
      end_at n 0 0 total files
      ∙ ap (λ x. some (end_of_import wire x (0 + failed) total)) p
      ∙ ap (λ y. some (end_of_import wire done y total)) q

  -- An import of at least one file reports, before the first and after each file, how many are done
  -- and how many of them could not be submitted, and ends with the numbers of both.
  pub import_directory-reports :
      (n : ℕ) (path : String) (dir : Entries)
      → let files = collect_json_files dir in
        let results = outcomes n files in
        let msgs = import_directory wire n path dir in
        1 ≤ length files
        → ((k : ℕ)
            → k ≤ length files
            → get_elem? msgs k
              ≡ some (AppMsg.import_progress k (length files) (tally false (take k results))))
          × (get_elem? msgs (suc (length files))
              ≡ some (end_of_import wire (tally true results) (tally false results) (length files)))
  unfolding import_directory
  import_directory-reports n path dir h =
      let files = collect_json_files dir in
      let some_files : nat_eq (length files) 0 ≡ false = ground (arith, h) in
      rw some_files (reports n files, last_report n files)
