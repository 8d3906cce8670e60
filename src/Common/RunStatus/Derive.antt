-- ===== src/Common/RunStatus/Derive.antt =====
-- `derive_run_status` (crates/common/src/model.rs) against a description that counts nothing.
use ensurer_v.Prelude.{
  ◌≡◌, refl, ◌≢◌, ◌↔◌, inl, inr, Bool, true, false, List, [], ◌∷◌, arith, any, select, length,
  length-select-le, All, Bool-cases, nat_eq, if◌then◌else◌, subst,
}
use ensurer_v.Common.CalcStatus.{CalcStatus, is_terminal}
use ensurer_v.Common.RunStatus.{
  RunStatus, derive_run_status, is_active, is_succeeded, is_failed, is_cancelled,
}

-- Every entry is `k`.
abbrev pub Only : CalcStatus → List CalcStatus → Type 0
Only k = All (λ s. s ≡ k)

-- What each status of a run says of the statuses of its calculations.
abbrev pub Describes : RunStatus → List CalcStatus → Type 0
Describes RunStatus.pending xs = xs ≡ []
Describes RunStatus.running xs = any is_active xs ≡ true
Describes RunStatus.succeeded xs = (xs ≢ []) × Only CalcStatus.succeeded xs
Describes RunStatus.failed xs = (xs ≢ []) × Only CalcStatus.failed xs
Describes RunStatus.cancelled xs = (xs ≢ []) × Only CalcStatus.cancelled xs
Describes RunStatus.partially_succeeded xs =
    All (λ s. is_terminal s ≡ true) xs
    × ¬ Only CalcStatus.succeeded xs
    × ¬ Only CalcStatus.failed xs
    × ¬ Only CalcStatus.cancelled xs

module _ (p : CalcStatus → Bool) (k : CalcStatus)
    (fits : (s : CalcStatus) → (p s ≡ true) ↔ (s ≡ k)) where
  Only-of_count :
      (xs : List CalcStatus) → nat_eq (length (select p xs)) (length xs) ≡ true → Only k xs
  Only-of_count [] h = tt
  Only-of_count (x ∷ xs) h = elim (Bool-cases (p x)) [
    | inl e ↦ ((fits x).0 e, Only-of_count xs (ground arith))
    | inr e ↦ absurd (ground (arith, length-select-le p xs))
  ]

  count-of-Only :
      (xs : List CalcStatus) → Only k xs → nat_eq (length (select p xs)) (length xs) ≡ true
  count-of-Only [] h = refl
  count-of-Only (x ∷ xs) h = ground (arith, (fits x).1 h.0, count-of-Only xs h.1)

is_succeeded_iff : (s : CalcStatus) → (is_succeeded s ≡ true) ↔ (s ≡ CalcStatus.succeeded)
is_succeeded_iff s = ground arith

is_failed_iff : (s : CalcStatus) → (is_failed s ≡ true) ↔ (s ≡ CalcStatus.failed)
is_failed_iff s = ground arith

is_cancelled_iff : (s : CalcStatus) → (is_cancelled s ≡ true) ↔ (s ≡ CalcStatus.cancelled)
is_cancelled_iff s = ground arith

terminal_of_inactive :
    (xs : List CalcStatus) → any is_active xs ≡ false → All (λ s. is_terminal s ≡ true) xs
unfolding is_terminal
terminal_of_inactive [] h = tt
terminal_of_inactive (x ∷ xs) h = (ground arith, terminal_of_inactive xs (ground arith))

inactive_of_terminal :
    (xs : List CalcStatus) → All (λ s. is_terminal s ≡ true) xs → any is_active xs ≡ false
unfolding is_terminal
inactive_of_terminal [] h = refl
inactive_of_terminal (x ∷ xs) h = ground (arith, inactive_of_terminal xs h.1)

terminal_of_Only :
    (k : CalcStatus) (xs : List CalcStatus)
    → is_terminal k ≡ true
    → Only k xs
    → All (λ s. is_terminal s ≡ true) xs
terminal_of_Only k [] t h = tt
terminal_of_Only k (x ∷ xs) t h = (cc, terminal_of_Only k xs t h.1)

derive-Describes : (xs : List CalcStatus) → Describes (derive_run_status xs) xs
unfolding derive_run_status
derive-Describes [] = refl
derive-Describes (x ∷ xs) = elim (Bool-cases (any is_active (x ∷ xs))) [
  | inl active ↦ rw active active
  | inr idle ↦ rw idle (by_counts (x ∷ xs) (λ e. cc) idle)
]
  where
    by_counts :
        (ys : List CalcStatus)
        → ys ≢ []
        → any is_active ys ≡ false
        → Describes
            (if nat_eq (length (select is_succeeded ys)) (length ys)
              then RunStatus.succeeded
              else if nat_eq (length (select is_cancelled ys)) (length ys)
              then RunStatus.cancelled
              else if nat_eq (length (select is_failed ys)) (length ys)
              then RunStatus.failed
              else RunStatus.partially_succeeded)
            ys
    by_counts ys some_calc idle =
        elim (Bool-cases (nat_eq (length (select is_succeeded ys)) (length ys))) [
          | inl e ↦
              rw e
                (some_calc, Only-of_count is_succeeded CalcStatus.succeeded is_succeeded_iff ys e)
          | inr s ↦ rw s (elim (Bool-cases (nat_eq (length (select is_cancelled ys)) (length ys))) [
            | inl e ↦
                rw e
                  (some_calc, Only-of_count is_cancelled CalcStatus.cancelled is_cancelled_iff ys e)
            | inr c ↦ rw c (elim (Bool-cases (nat_eq (length (select is_failed ys)) (length ys))) [
              | inl e ↦
                  rw e (some_calc, Only-of_count is_failed CalcStatus.failed is_failed_iff ys e)
              | inr f ↦ rw f (
                terminal_of_inactive ys idle,
                (λ h.
                    cc (count-of-Only is_succeeded CalcStatus.succeeded is_succeeded_iff ys h, s)),
                (λ h. cc (count-of-Only is_failed CalcStatus.failed is_failed_iff ys h, f)),
                (λ h.
                    cc (count-of-Only is_cancelled CalcStatus.cancelled is_cancelled_iff ys h, c)),
              )
            ])
          ])
        ]

all_counted_false :
    (p : CalcStatus → Bool) (k : CalcStatus)
    → ((s : CalcStatus) → (p s ≡ true) ↔ (s ≡ k))
    → (xs : List CalcStatus) → ¬ Only k xs
    → nat_eq (length (select p xs)) (length xs) ≡ false
all_counted_false p k fits xs h = elim (Bool-cases (nat_eq (length (select p xs)) (length xs))) [
  | inl e ↦ absurd (h (Only-of_count p k fits xs e))
  | inr e ↦ e
]

Describes-unique :
    (s : RunStatus) (xs : List CalcStatus) → Describes s xs → derive_run_status xs ≡ s
unfolding derive_run_status is_terminal
Describes-unique RunStatus.pending xs h = rw h
Describes-unique RunStatus.running [] h = cc
Describes-unique RunStatus.running (x ∷ xs) h = rw h
Describes-unique RunStatus.succeeded [] h = absurd (h.0 refl)
Describes-unique RunStatus.failed [] h = absurd (h.0 refl)
Describes-unique RunStatus.cancelled [] h = absurd (h.0 refl)
Describes-unique RunStatus.partially_succeeded [] h = absurd (h.1 tt)
Describes-unique RunStatus.succeeded (x ∷ xs) h = rw (
  inactive_of_terminal (x ∷ xs) (terminal_of_Only CalcStatus.succeeded (x ∷ xs) refl h.1),
  count-of-Only is_succeeded CalcStatus.succeeded is_succeeded_iff (x ∷ xs) h.1,
)
Describes-unique RunStatus.failed (x ∷ xs) h = ground (
  arith,
  inactive_of_terminal (x ∷ xs) (terminal_of_Only CalcStatus.failed (x ∷ xs) refl h.1),
  count-of-Only is_failed CalcStatus.failed is_failed_iff (x ∷ xs) h.1,
  length-select-le is_succeeded xs,
  length-select-le is_cancelled xs,
)
Describes-unique RunStatus.cancelled (x ∷ xs) h = ground (
  arith,
  inactive_of_terminal (x ∷ xs) (terminal_of_Only CalcStatus.cancelled (x ∷ xs) refl h.1),
  count-of-Only is_cancelled CalcStatus.cancelled is_cancelled_iff (x ∷ xs) h.1,
  length-select-le is_succeeded xs,
)
Describes-unique RunStatus.partially_succeeded (x ∷ xs) h = rw (
  inactive_of_terminal (x ∷ xs) h.0,
  all_counted_false is_succeeded CalcStatus.succeeded is_succeeded_iff (x ∷ xs) h.1,
  all_counted_false is_cancelled CalcStatus.cancelled is_cancelled_iff (x ∷ xs) h.3,
  all_counted_false is_failed CalcStatus.failed is_failed_iff (x ∷ xs) h.2,
)

-- `derive_run_status` gives a run the status `s` exactly when `s` describes its calculations:
-- pending for none, running if one is active, a terminal status if all have it, and
-- partially succeeded if all are terminal and no one terminal status is common to all.
pub derive_run_status_iff :
    (xs : List CalcStatus) (s : RunStatus) → (derive_run_status xs ≡ s) ↔ Describes s xs
derive_run_status_iff xs s =
    (λ e. subst (λ t. Describes t xs) e (derive-Describes xs), Describes-unique s xs)
