-- ===== src/Runsd/Actor/Run/Ids.antt =====
-- Lists of ids, for the keys of the map of crates/runsd/src/actor/run.rs.
use ensurer_v.Prelude.{
  ℕ, suc, ◌+◌, ◌≡◌, refl, sym, ap, subst, nat_eq_iff, ◌∙◌, Bool, true, false, not, ◌&&◌, ◌||◌,
  Bool-cases, inl, inr, List, [], ◌∷◌, ◌++◌, All, select, length, nat_eq, arith, if◌then◌else◌,
}
use ensurer_v.Common.Model.{CalcId}
use ensurer_v.Runsd.Actor.Run.{without}

abbrev pub has : CalcId → List CalcId → Bool
has x [] = false
has x (y ∷ ys) = nat_eq x y || has x ys

abbrev pub minus : List CalcId → List CalcId → List CalcId
minus ids = select (λ x. not (has x ids))

abbrev pub Distinct : List CalcId → Type 0
Distinct [] = Unit
Distinct (x ∷ xs) = (has x xs ≡ false) × Distinct xs

pub append_assoc {ℓ} : {A : Type ℓ} (xs ys zs : List A) → (xs ++ ys) ++ zs ≡ xs ++ (ys ++ zs)
append_assoc [] ys zs = refl
append_assoc (x ∷ xs) ys zs = ap (λ l. x ∷ l) (append_assoc xs ys zs)

pub append-nil {ℓ} : {A : Type ℓ} (xs : List A) → xs ++ [] ≡ xs
append-nil [] = refl
append-nil (x ∷ xs) = ap (λ l. x ∷ l) (append-nil xs)

pub minus-nil : (xs : List CalcId) → minus [] xs ≡ xs
minus-nil [] = refl
minus-nil (x ∷ xs) = ap (λ l. x ∷ l) (minus-nil xs)

pub minus-append : (ids xs ys : List CalcId) → minus ids (xs ++ ys) ≡ minus ids xs ++ minus ids ys
minus-append ids [] ys = refl
minus-append ids (x ∷ xs) ys = elim (Bool-cases (has x ids)) [
  | inl e ↦ rw e (minus-append ids xs ys)
  | inr e ↦ rw e (ap (λ l. x ∷ l) (minus-append ids xs ys))
]

-- To take one id away and then the others is to take all of them away.
pub minus-without :
    (id : CalcId) (ids xs : List CalcId) → minus ids (without id xs) ≡ minus (id ∷ ids) xs
minus-without id ids [] = refl
minus-without id ids (x ∷ xs) = elim (Bool-cases (nat_eq x id)) [
  | inl e ↦ rw e (minus-without id ids xs)
  | inr e ↦ elim (Bool-cases (has x ids)) [
    | inl f ↦ rw (e, f) (minus-without id ids xs)
    | inr f ↦ rw (e, f) (ap (λ l. x ∷ l) (minus-without id ids xs))
  ]
]

pub same_id : (x y : CalcId) → nat_eq x y ≡ true → x ≡ y
same_id x y e = (nat_eq_iff x y).0 e

pub has-minus :
    (x : CalcId) (ids xs : List CalcId) → has x (minus ids xs) ≡ has x xs && not (has x ids)
has-minus x ids [] = refl
has-minus x ids (y ∷ ys) = elim (Bool-cases (nat_eq x y)) [
  | inl e ↦ elim (Bool-cases (has y ids)) [
    | inl f ↦
        let g : has x ids ≡ true = subst (λ z. has z ids ≡ true) (sym (same_id x y e)) f in
        rw (f, g) (has-minus x ids ys ∙ rw g (ground arith))
    | inr f ↦
        let g : has x ids ≡ false = subst (λ z. has z ids ≡ false) (sym (same_id x y e)) f in
        rw (f, e, g) refl
  ]
  | inr e ↦ elim (Bool-cases (has y ids)) [
    | inl f ↦ rw (f, e) (has-minus x ids ys)
    | inr f ↦ rw (f, e) (has-minus x ids ys)
  ]
]

minus-Distinct : (ids xs : List CalcId) → Distinct xs → Distinct (minus ids xs)
minus-Distinct ids [] d = tt
minus-Distinct ids (x ∷ xs) d = elim (Bool-cases (has x ids)) [
  | inl e ↦ rw e (minus-Distinct ids xs d.1)
  | inr e ↦ rw e (has-minus x ids xs ∙ rw d.0 refl, minus-Distinct ids xs d.1)
]

without-minus : (id : CalcId) (xs : List CalcId) → without id xs ≡ minus (id ∷ []) xs
without-minus id xs = sym (minus-nil (without id xs)) ∙ minus-without id [] xs

nat_eq_comm : (x y : ℕ) → nat_eq x y ≡ nat_eq y x
nat_eq_comm x y = ground arith

without-absent : (id : CalcId) (xs : List CalcId) → has id xs ≡ false → without id xs ≡ xs
without-absent id [] h = refl
without-absent id (x ∷ xs) h = elim (Bool-cases (nat_eq id x)) [
  | inl e ↦ absurd (cc (subst (λ b. (b || has id xs) ≡ false) e h))
  | inr e ↦
      rw (sym (nat_eq_comm id x) ∙ e)
        (ap (λ l. x ∷ l) (without-absent id xs (subst (λ b. (b || has id xs) ≡ false) e h)))
]

length-without :
    (id : CalcId) (xs : List CalcId)
    → Distinct xs
    → has id xs ≡ true
    → suc (length (without id xs)) ≡ length xs
length-without id [] d h = cc h
length-without id (x ∷ xs) d h = elim (Bool-cases (nat_eq id x)) [
  | inl e ↦
      let absent = subst (λ z. has z xs ≡ false) (sym (same_id id x e)) d.0 in
      rw (sym (nat_eq_comm id x) ∙ e) (ap (λ l. suc (length l)) (without-absent id xs absent))
  | inr e ↦
      rw (sym (nat_eq_comm id x) ∙ e)
        (ap suc (length-without id xs d.1 (subst (λ b. (b || has id xs) ≡ true) e h)))
]

All-has-without :
    (id : CalcId) (ids xs : List CalcId)
    → has id ids ≡ false
    → All (λ y. has y xs ≡ true) ids
    → All (λ y. has y (without id xs) ≡ true) ids
All-has-without id [] xs n h = tt
All-has-without id (y ∷ ys) xs n h = elim (Bool-cases (nat_eq id y)) [
  | inl e ↦ absurd (cc (subst (λ b. (b || has id ys) ≡ false) e n))
  | inr e ↦ (
    rw (without-minus id xs) (has-minus y (id ∷ []) xs ∙ rw (h.0, sym (nat_eq_comm id y) ∙ e) refl),
    All-has-without id ys xs (subst (λ b. (b || has id ys) ≡ false) e n) h.1,
  )
]

pub or_true : (b : Bool) → (b || true) ≡ true
or_true true = refl
or_true false = refl

-- Of distinct ids that are all in a list of distinct ids, each takes away one.
pub length-minus :
    (ids xs : List CalcId)
    → Distinct ids
    → Distinct xs
    → All (λ id. has id xs ≡ true) ids
    → length (minus ids xs) + length ids ≡ length xs
length-minus [] xs d k h = omega (arith, ap length (minus-nil xs))
length-minus (id ∷ ids) xs d k h =
    let ys = without id xs in
    let distinct = subst Distinct (sym (without-minus id xs)) (minus-Distinct (id ∷ []) xs k) in
    omega (
      arith,
      ap length (minus-without id ids xs),
      length-without id xs k h.0,
      length-minus ids ys d.1 distinct (All-has-without id ids xs d.0 h.1),
    )

pub minus-one :
    (id : CalcId) (ids : List CalcId) → minus ids (id ∷ []) ≡ (if has id ids then [] else id ∷ [])
minus-one id ids = elim (Bool-cases (has id ids)) [ inl e ↦ rw e refl | inr e ↦ rw e refl ]

pub none_left : (xs : List CalcId) → ((x : CalcId) → has x xs ≡ false) → length xs ≡ 0
none_left [] h = refl
none_left (x ∷ xs) h = absurd (cc (h x, (nat_eq_iff x x).1 refl))

pub no_has : (xs : List CalcId) (x : CalcId) → length xs ≡ 0 → has x xs ≡ false
no_has [] x h = refl
no_has (y ∷ ys) x h = absurd (omega (arith, h))

pub and_not : (b c : Bool) → b ≡ true → (b && not c) ≡ false → c ≡ true
and_not true true h k = refl
and_not true false h k = cc k
and_not false c h k = cc h

pub and_false : (b : Bool) → (b && false) ≡ false
and_false true = refl
and_false false = refl
