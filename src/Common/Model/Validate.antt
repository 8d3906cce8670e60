-- ===== src/Common/Model/Validate.antt =====
-- What `SubmitRunRequest::validate` (crates/common/src/model.rs) accepts, and which error it gives.
use native.Mathlib.Nat.{add-zero, add-suc, suc-add, zero-add}
use ensurer_v.Prelude.{
  ℕ, suc, ◌+◌, ◌≡◌, refl, ◌∙◌, ◌≢◌, ◌↔◌, String, append, true, false, List, [], ◌∷◌, ◌++◌, arith,
  All, length, ok, err, is_blank, show_nat,
}
use ensurer_v.Common.Model.{NewCalc, SubmitRunRequest, field, validate, validate_kinds}

-- A calculation whose kind is more than white space.
abbrev pub HasKind : NewCalc → Type 0
HasKind c = is_blank c.kind ≡ false

validate_kinds_iff :
    (i : ℕ) (calcs : List NewCalc) → (validate_kinds i calcs ≡ ok tt) ↔ All HasKind calcs
unfolding validate_kinds
validate_kinds_iff i [] = (λ _. tt, λ _. refl)
validate_kinds_iff i (c ∷ calcs) = (
  (λ h. (ground arith, (validate_kinds_iff (suc i) calcs).0 (ground arith))),
  (λ h. rw h.0 ((validate_kinds_iff (suc i) calcs).1 h.1)),
)

-- A submission is accepted exactly when its issue id is not blank, it has a calculation, and the
-- kind of each calculation is not blank.
pub validate_iff :
    (req : SubmitRunRequest)
    → (validate req ≡ ok tt) ↔ (
        (is_blank req.jira_issue_id ≡ false)
        × (req.calculations ≢ [])
        × All HasKind req.calculations)
unfolding validate
validate_iff req = (accepted, accepts)
  where
    accepted :
        validate req ≡ ok tt
        → (is_blank req.jira_issue_id ≡ false)
          × (req.calculations ≢ [])
          × All HasKind req.calculations
    accepted h = (
      ground arith,
      (λ e. ground arith),
      (validate_kinds_iff 0 req.calculations).0 (ground arith),
    )

    accepts :
        (is_blank req.jira_issue_id ≡ false)
          × (req.calculations ≢ [])
          × All HasKind req.calculations
        → validate req ≡ ok tt
    accepts h = ground (arith, h.0, h.1, (validate_kinds_iff 0 req.calculations).1 h.2)

validate_kinds_first :
    (i : ℕ) (before : List NewCalc) (c : NewCalc) (after : List NewCalc)
    → All HasKind before
    → is_blank c.kind ≡ true
    → validate_kinds i (before ++ c ∷ after)
      ≡ err (
          field (
            append "calculations["
              (append (show_nat (i + length before)) "].kind must not be empty")))
unfolding validate_kinds
validate_kinds_first i [] c after h b = rw (b, add-zero)
validate_kinds_first i (d ∷ before) c after h b =
    rw (h.0, validate_kinds_first (suc i) before c after h.1 b) (rw (add-suc, suc-add))

-- Of the blank kinds the error names the first, by its position in the submission.
pub validate_first_blank :
    (jira : String) (before : List NewCalc) (c : NewCalc) (after : List NewCalc)
    → is_blank jira ≡ false
    → All HasKind before
    → is_blank c.kind ≡ true
    → validate (record { jira_issue_id = jira; calculations = before ++ c ∷ after })
      ≡ err (
          field
            (append "calculations[" (append (show_nat (length before)) "].kind must not be empty")))
unfolding validate
validate_first_blank jira [] c after j h b = rw j (validate_kinds_first 0 [] c after h b)
validate_first_blank jira (d ∷ before) c after j h b =
    rw j (validate_kinds_first 0 (d ∷ before) c after h b ∙ rw zero-add)
