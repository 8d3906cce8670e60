-- ===== src/Runsd/Db/Swept.antt =====
-- The loop of `crash_recovery_sweep` (crates/runsd/src/db/queries.rs) as one pass over the table.
use ensurer_v.Prelude.{
  ℕ, ◌≡◌, ◌≢◌, refl, sym, subst, ap, ◌∙◌, String, ◌==◌, Bool, true, false, List, [], ◌∷◌, map,
  select, select-yes, select-no, arith, All, All-select, Bool-cases, Result-cases, inl, inr, ok,
  is_ok, if◌then◌else◌, eq_refl, text-cases,
}
use ensurer_v.Common.Model.{Calculation}
use ensurer_v.Runsd.Codec.{Codec}
use ensurer_v.Runsd.Db.Row.{CalcRow, as_u32, try_into_calc}
use ensurer_v.Runsd.Db.Tables.{Db, set_calc}
use ensurer_v.Runsd.Db.Keys.{Unique, calc_ids, IsKeyed}
use ensurer_v.Runsd.Db.Changes.{has_expired_lease}
use ensurer_v.Runsd.Db.Sound.{IsSound, IsSoundDb}
use ensurer_v.Runsd.Db.Sound.Reads.{try_into_calc-ok}
use ensurer_v.Runsd.Db.Queries.Calculations.{list_expired_leases}
use ensurer_v.Runsd.Db.Queries.Recovery.{
  is_abandoned, exhausted_row, recovered_row, sweep_rows, crash_recovery_sweep,
}

-- The change for a row with the attempts that the row `x` tells.
abbrev pub revive : ℕ → CalcRow → CalcRow → CalcRow
revive now x = recovered_row now (as_u32 x.attempt) (as_u32 x.max_attempts)

-- One pass: an abandoned row is recovered by its own attempts, another is left.
abbrev pub recover : ℕ → CalcRow → CalcRow
recover now r = if is_abandoned now r then revive now r r else r

-- The changes of several rounds to one row.
recovered_by : ℕ → List CalcRow → CalcRow → CalcRow
recovered_by now [] r = r
recovered_by now (x ∷ xs) r = recovered_by now xs (if r.id == x.id then revive now x r else r)

revive-id : (now : ℕ) (x r : CalcRow) → (revive now x r).id ≡ r.id
unfolding recovered_row exhausted_row
revive-id now x r = ground arith

recovered_by-other :
    (now : ℕ) (xs : List CalcRow) (r : CalcRow)
    → All (λ t. t ≢ r.id) (calc_ids xs)
    → recovered_by now xs r ≡ r
unfolding recovered_by
recovered_by-other now [] r h = refl
recovered_by-other now (x ∷ xs) r h = elim (text-cases r.id x.id) [
  | inl (same, e) ↦ absurd (h.0 (sym same))
  | inr (other, e) ↦ rw e (recovered_by-other now xs r h.1)
]

All-ids-select :
    (P : String → Type 0) (p : CalcRow → Bool) (xs : List CalcRow)
    → All P (calc_ids xs)
    → All P (calc_ids (select p xs))
All-ids-select P p [] h = tt
All-ids-select P p (x ∷ xs) h = elim (Bool-cases (p x)) [
  | inl e ↦ rw e (h.0, All-ids-select P p xs h.1)
  | inr e ↦ rw e (All-ids-select P p xs h.1)
]

-- The round of a row changes no row of another id.
skip_round :
    (now : ℕ) (x : CalcRow) (xs rows : List CalcRow)
    → All (λ t. t ≢ x.id) (calc_ids rows)
    → All (λ r. recovered_by now xs r ≡ recover now r) rows
    → All (λ r. recovered_by now (x ∷ xs) r ≡ recover now r) rows
unfolding recovered_by
skip_round now x xs [] h k = tt
skip_round now x xs (r ∷ rs) h k = elim (text-cases r.id x.id) [
  | inl (same, e) ↦ absurd (h.0 same)
  | inr (other, e) ↦ (rw e k.0, skip_round now x xs rs h.1 k.1)
]

-- The round of a row is the change of that row.
recovered_by_self :
    (now : ℕ) (x : CalcRow) (xs : List CalcRow)
    → All (λ t. t ≢ x.id) (calc_ids xs)
    → recovered_by now (x ∷ xs) x ≡ revive now x x
unfolding recovered_by
recovered_by_self now x xs h =
    ap (λ b. recovered_by now xs (if b then revive now x x else x)) (eq_refl x.id)
    ∙ recovered_by-other now xs (revive now x x) (rw (revive-id now x x) h)

recovered_by-recover :
    (now : ℕ) (rows : List CalcRow)
    → Unique (calc_ids rows)
    → All (λ r. recovered_by now (select (is_abandoned now) rows) r ≡ recover now r) rows
recovered_by-recover now [] u = tt
recovered_by-recover now (x ∷ xs) u = elim (Bool-cases (is_abandoned now x)) [
  | inl e ↦
      subst (λ l. All (λ r. recovered_by now l r ≡ recover now r) (x ∷ xs))
        (sym (select-yes (is_abandoned now) x xs e))
        (
          recovered_by_self now x (select (is_abandoned now) xs) absent
              ∙ ap (λ b. if b then revive now x x else x) (sym e),
          skip_round now x (select (is_abandoned now) xs) xs u.0 (recovered_by-recover now xs u.1),
        )
  | inr e ↦
      subst (λ l. All (λ r. recovered_by now l r ≡ recover now r) (x ∷ xs))
        (sym (select-no (is_abandoned now) x xs e))
        (
          recovered_by-other now (select (is_abandoned now) xs) x absent
              ∙ ap (λ b. if b then revive now x x else x) (sym e),
          recovered_by-recover now xs u.1,
        )
]
  where
    absent : All (λ t. t ≢ x.id) (calc_ids (select (is_abandoned now) xs))
    absent = All-ids-select (λ t. t ≢ x.id) (is_abandoned now) xs u.0

map-set_calc :
    (now : ℕ) (x : CalcRow) (xs rows : List CalcRow)
    → map (recovered_by now xs) (set_calc x.id (revive now x) rows)
      ≡ map (recovered_by now (x ∷ xs)) rows
unfolding recovered_by set_calc
map-set_calc now x xs [] = refl
map-set_calc now x xs (r ∷ rs) = rw (map-set_calc now x xs rs) refl

map-All :
    (f g : CalcRow → CalcRow) (rows : List CalcRow)
    → All (λ r. f r ≡ g r) rows
    → map f rows ≡ map g rows
map-All f g [] h = refl
map-All f g (r ∷ rs) h = rw (h.0, map-All f g rs h.1) refl

map-same : (now : ℕ) (rows : List CalcRow) → map (recovered_by now []) rows ≡ rows
unfolding recovered_by
map-same now [] = refl
map-same now (r ∷ rs) = ap (λ l. r ∷ l) (map-same now rs)

module _ (codec : Codec) where
  try_into_calc-attempts :
      (r : CalcRow) (c : Calculation)
      → try_into_calc codec r ≡ ok c
      → (c.attempt ≡ as_u32 r.attempt) × (c.max_attempts ≡ as_u32 r.max_attempts)
  unfolding try_into_calc
  try_into_calc-attempts r c h = ground arith

  sweep_rows-cons :
      (now : ℕ) (x : CalcRow) (xs : List CalcRow) (tables : Db)
      → is_ok (try_into_calc codec x) ≡ true
      → sweep_rows codec now (x ∷ xs) tables
        ≡ sweep_rows codec now xs
            (record tables { calculations = set_calc x.id (revive now x) tables.calculations })
  unfolding sweep_rows
  sweep_rows-cons now x xs tables h = elim (Result-cases (try_into_calc codec x)) [
    | inl (c, e) ↦ let (a, m) = try_into_calc-attempts x c e in rw (e, a, m, sweep_rows) refl
    | inr (f, e) ↦ absurd (cc (h, e))
  ]

  sweep_rows-recovered_by :
      (now : ℕ) (rows : List CalcRow) (tables : Db)
      → All (IsSound codec) rows
      → sweep_rows codec now rows tables
        ≡ (ok tt, record tables { calculations = map (recovered_by now rows) tables.calculations })
  unfolding sweep_rows
  sweep_rows-recovered_by now [] tables h = rw (map-same now tables.calculations) refl
  sweep_rows-recovered_by now (x ∷ xs) tables h =
      sweep_rows-cons now x xs tables (try_into_calc-ok codec h.0.0 x h.0.1)
      ∙ sweep_rows-recovered_by now xs _ h.1
      ∙ ap (λ l. (ok tt, record tables { calculations = l }))
          (map-set_calc now x xs tables.calculations)

  -- On sound tables with unique ids the sweep succeeds, and it is one pass over the table: each
  -- calculation that is running or retrying without a live lease is recovered by its own number
  -- of attempts, and every other row and table stays as it is.
  pub sweep-recovers :
      (now : ℕ) (tables : Db)
      → IsSoundDb codec tables
      → IsKeyed tables
      → crash_recovery_sweep codec now tables
        ≡ (ok tt, record tables { calculations = map (recover now) tables.calculations })
  unfolding crash_recovery_sweep
  sweep-recovers now tables h k =
      sweep_rows-recovered_by now _ tables
        (All-select (IsSound codec) (is_abandoned now) tables.calculations h.calcs_sound)
      ∙ ap (λ l. (ok tt, record tables { calculations = l }))
          (map-All _ (recover now) tables.calculations
            (recovered_by-recover now tables.calculations k.calcs_unique))

  recover-settles : (now : ℕ) (r : CalcRow) → has_expired_lease now (recover now r) ≡ false
  unfolding recovered_row exhausted_row
  recover-settles now r = ground arith

  select-recover :
      (now : ℕ) (rows : List CalcRow) → select (has_expired_lease now) (map (recover now) rows) ≡ []
  select-recover now [] = refl
  select-recover now (r ∷ rs) =
      rw
        (select-no (has_expired_lease now) (recover now r) (map (recover now) rs)
          (recover-settles now r))
        (select-recover now rs)

  -- Right after the sweep no calculation has an expired lease: the watchdog has none to list.
  pub sweep-settles :
      (now : ℕ) (tables : Db)
      → IsSoundDb codec tables
      → IsKeyed tables
      → list_expired_leases codec now (crash_recovery_sweep codec now tables).1 ≡ ok []
  unfolding list_expired_leases
  sweep-settles now tables h k =
      rw (sweep-recovers now tables h k, select-recover now tables.calculations) refl
