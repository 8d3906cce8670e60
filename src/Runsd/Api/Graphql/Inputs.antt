-- ===== src/Runsd/Api/Graphql/Inputs.antt =====
-- The inputs of a GraphQL submission (crates/runsd/src/api/graphql.rs), as the calculations that they stand for.
use ensurer_v.Prelude.{
  ℕ, suc, ◌≡◌, refl, ap, ◌∙◌, String, Bool, true, false, Option, none, some, Option-cases, List, [],
  ◌∷◌, Result, ok, err, ◌>>=◌, is_ok, ◌⊎◌, inl, inr, traverse, enumerate_from, is_blank, Bool-cases,
}
use ensurer_v.Common.Json.{Json}
use ensurer_v.Common.Model.{NewCalc, validate_kinds}
use ensurer_v.Runsd.Actor.World.{Env}
use ensurer_v.Runsd.Actor.Supervisor.{Setup}
use ensurer_v.Runsd.Api.Graphql.Types.{Texts, NewCalcInput}
use ensurer_v.Runsd.Api.Graphql.Mutations
use ensurer_v.Runsd.Api.Graphql.Mutations.{Mutated}
use ensurer_v.Runsd.Api.Graphql.Requests.{input_read, paired, inputs_read}

module _ (env : Env) (setup : Setup) (takes : ℕ → Bool) (read_file : String → Option String)
    (texts : Texts) where
  -- What the loop over the inputs gives, by the calculations that they stand for.
  abbrev pub Reads : ℕ → Result String (List NewCalc) → Option (List NewCalc) → Type 0
  Reads i r none = is_ok r ≡ false
  Reads i r (some calcs) =
      ((r ≡ ok calcs) × (validate_kinds i calcs ≡ ok tt))
      ⊎ ((is_ok r ≡ false) × (is_ok (validate_kinds i calcs) ≡ false))

  input_of-read :
      (input : Option String)
      → ((v : Json) × (Mutations.input_of env setup takes read_file texts input ≡ ok v)
          × (input_read env input ≡ some v))
        ⊎ ((e : String) × (Mutations.input_of env setup takes read_file texts input ≡ err e)
            × (input_read env input ≡ none))
  unfolding Mutations.input_of
  input_of-read none = inl (_, refl, refl)
  input_of-read (some text) = elim (Option-cases (env.codec.json_parse text)) [
    | inl e ↦ rw e (inr (_, refl, refl))
    | inr (v, e) ↦ rw e (inl (v, refl, refl))
  ]

  abbrev read_calc : ℕ → NewCalcInput → Result String NewCalc
  read_calc i nc = Mutations.new_calc env setup takes read_file texts (i, nc)

  read_calc-blank :
      (i : ℕ) (nc : NewCalcInput) → is_blank nc.kind ≡ true → is_ok (read_calc i nc) ≡ false
  unfolding Mutations.new_calc
  read_calc-blank i nc b = rw b refl

  read_calc-read :
      (i : ℕ) (nc : NewCalcInput)
      → is_blank nc.kind ≡ false
      → read_calc i nc
        ≡ Mutations.with_input env setup takes read_file texts nc.kind
            (Mutations.input_of env setup takes read_file texts nc.input)
  unfolding Mutations.new_calc
  read_calc-read i nc b = rw b refl

  kinds-blank :
      (i : ℕ) (calc : NewCalc) (calcs : List NewCalc)
      → is_blank calc.kind ≡ true
      → is_ok (validate_kinds i (calc ∷ calcs)) ≡ false
  unfolding validate_kinds
  kinds-blank i calc calcs b = rw b refl

  kinds-next :
      (i : ℕ) (calc : NewCalc) (calcs : List NewCalc)
      → is_blank calc.kind ≡ false
      → validate_kinds i (calc ∷ calcs) ≡ validate_kinds (suc i) calcs
  unfolding validate_kinds
  kinds-next i calc calcs b = rw b refl

  Reads-ok :
      (i : ℕ) (kind : String) (v : Json) (b : is_blank kind ≡ false)
      (r : Result String (List NewCalc)) (o : Option (List NewCalc))
      → Reads (suc i) r o
      → Reads i
          (r >>= λ ys. ok (record { kind = kind; input = v } ∷ ys))
          (paired env kind (some v) o)
  Reads-ok i kind v b (ok ys) none h = cc (h)
  Reads-ok i kind v b (err e) none h = refl
  Reads-ok i kind v b r (some cs) (inl (e, g)) = rw e (inl (refl, kinds-next i _ cs b ∙ g))
  Reads-ok i kind v b (ok ys) (some cs) (inr (e, g)) = cc (e)
  Reads-ok i kind v b (err m) (some cs) (inr (e, g)) =
      inr (refl, ap is_ok (kinds-next i (record { kind = kind; input = v }) cs b) ∙ g)

  Reads-blank :
      (i : ℕ) (kind : String) (p : Option Json) (b : is_blank kind ≡ true)
      (n : Result String NewCalc) (r : Result String (List NewCalc)) (o : Option (List NewCalc))
      → is_ok n ≡ false
      → Reads i (n >>= λ y. r >>= λ ys. ok (y ∷ ys)) (paired env kind p o)
  Reads-blank i kind p b (ok y) r o h = cc (h)
  Reads-blank i kind none b (err e) r o h = refl
  Reads-blank i kind (some v) b (err e) r none h = refl
  Reads-blank i kind (some v) b (err e) r (some cs) h = inr (refl, kinds-blank i _ cs b)

  Reads-cons :
      (i : ℕ) (nc : NewCalcInput) (r : Result String (List NewCalc)) (o : Option (List NewCalc))
      → Reads (suc i) r o
      → Reads i
          (read_calc i nc >>= λ y. r >>= λ ys. ok (y ∷ ys))
          (paired env nc.kind (input_read env nc.input) o)
  Reads-cons i nc r o h = elim (Bool-cases (is_blank nc.kind)) [
    | inl b ↦ Reads-blank i nc.kind _ b (read_calc i nc) r o (read_calc-blank i nc b)
    | inr b ↦ elim (input_of-read nc.input) [
      | inl (v, e, g) ↦ rw (g, read_calc-read i nc b, e) (Reads-ok i nc.kind v b r o h)
      | inr (m, e, g) ↦ rw (g, read_calc-read i nc b, e) refl
    ]
  ]

  pub traverse-Reads :
      (i : ℕ) (calcs : List NewCalcInput)
      → Reads i
          (traverse (Mutations.new_calc env setup takes read_file texts) (enumerate_from i calcs))
          (inputs_read env calcs)
  unfolding Mutations.new_calc Mutations.input_of validate_kinds
  traverse-Reads i [] = inl (refl, refl)
  traverse-Reads i (nc ∷ rest) = Reads-cons i nc _ _ (traverse-Reads (suc i) rest)
