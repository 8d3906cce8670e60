-- ===== src/Runsd/Actor/Run/Followed.antt =====
-- Which calculations the actor of a run (crates/runsd/src/actor/run.rs) follows: the lists of ids
-- that stand for the keys of its map.
use ensurer_v.Prelude.{
  ◌≤◌, ◌<◌, ◌↔◌, ◌≡◌, refl, sym, ap, subst, nat_eq_iff, ◌∙◌, Bool, true, false, not, ◌&&◌, ◌||◌,
  Bool-cases, inl, inr, List, [], ◌∷◌, ◌++◌, All, All-mono, length, nat_eq, arith, if◌then◌else◌,
}
use ensurer_v.Common.Model.{CalcId}
use ensurer_v.Runsd.Actor.World.{Env}
use ensurer_v.Runsd.Actor.Run.{RunActor, CalcSpec, Following, without, spawn_calcs}
use ensurer_v.Runsd.Actor.Run.Ids.{
  has, minus, Distinct, append_assoc, append-nil, minus-nil, minus-append, minus-without, same_id,
  has-minus, or_true, length-minus, minus-one, none_left, no_has, and_not, and_false,
}

abbrev pub ids_of : List CalcSpec → List CalcId
ids_of [] = []
ids_of (s ∷ rest) = s.id ∷ ids_of rest

-- Each id once, at its last place.
abbrev pub followed : List CalcSpec → List CalcId
followed [] = []
followed (s ∷ rest) = if has s.id (ids_of rest) then followed rest else s.id ∷ followed rest

pub has-followed :
    (x : CalcId) (specs : List CalcSpec) → has x (followed specs) ≡ has x (ids_of specs)
has-followed x [] = refl
has-followed x (s ∷ rest) = elim (Bool-cases (has s.id (ids_of rest))) [
  | inl e ↦ elim (Bool-cases (nat_eq x s.id)) [
    | inl f ↦
        rw (e, f)
          (has-followed x rest ∙ subst (λ z. has z (ids_of rest) ≡ true) (sym (same_id x s.id f)) e)
    | inr f ↦ rw (e, f) (has-followed x rest)
  ]
  | inr e ↦ rw (e, has-followed x rest) refl
]

pub followed-Distinct : (specs : List CalcSpec) → Distinct (followed specs)
followed-Distinct [] = tt
followed-Distinct (s ∷ rest) = elim (Bool-cases (has s.id (ids_of rest))) [
  | inl e ↦ rw e (followed-Distinct rest)
  | inr e ↦ rw e (has-followed s.id rest ∙ e, followed-Distinct rest)
]

-- The keys of the map, of one that has keys already.
pub spawn_calcs-calc_txs :
    (env : Env) (a : RunActor) (specs : List CalcSpec) (f : Following)
    → (spawn_calcs env a specs f).calc_txs ≡ minus (ids_of specs) f.calc_txs ++ followed specs
unfolding spawn_calcs
spawn_calcs-calc_txs env a [] f = sym (append-nil _ ∙ minus-nil f.calc_txs)
spawn_calcs-calc_txs env a (s ∷ rest) f =
    let ids = ids_of rest in
    let left = minus (s.id ∷ ids) f.calc_txs in
    spawn_calcs-calc_txs env a rest _
    ∙ ap (λ l. l ++ followed rest)
        (minus-append ids (without s.id f.calc_txs) (s.id ∷ [])
          ∙ ap (λ l. l ++ minus ids (s.id ∷ [])) (minus-without s.id ids f.calc_txs)
          ∙ ap (λ l. left ++ l) (minus-one s.id ids))
    ∙ append_assoc left (if has s.id ids then [] else s.id ∷ []) (followed rest)
    ∙ ap (λ l. left ++ l) (at_last (has s.id ids))
  where
    at_last :
        (b : Bool)
        → (if b then [] else s.id ∷ []) ++ followed rest
          ≡ (if b then followed rest else s.id ∷ followed rest)
    at_last true = refl
    at_last false = refl

pub length-followed : (specs : List CalcSpec) → 0 < length specs → 0 < length (followed specs)
length-followed [] h = absurd (omega arith)
length-followed (s ∷ []) h = omega arith
length-followed (s ∷ t ∷ rest) h = elim (Bool-cases (has s.id (ids_of (t ∷ rest)))) [
  | inl e ↦ rw e (length-followed (t ∷ rest) (omega arith))
  | inr e ↦ rw e (omega arith)
]

-- An id that is among the others, by a test that no other id of the list passes.
All-has :
    (specs : List CalcSpec) (P : CalcId → Type 0)
    → ((id : CalcId) → has id (ids_of specs) ≡ true → P id)
    → All (λ (s : CalcSpec). P s.id) specs
All-has [] P f = tt
All-has (s ∷ rest) P f = (
  f s.id (rw ((nat_eq_iff s.id s.id).1 refl) refl),
  All-has rest P (λ id h. f id (rw h (or_true (nat_eq id s.id)))),
)

has-All :
    (specs : List CalcSpec) (P : CalcId → Type 0)
    → All (λ (s : CalcSpec). P s.id) specs
    → (id : CalcId) → has id (ids_of specs) ≡ true
    → P id
has-All [] P h id e = cc e
has-All (s ∷ rest) P h id e = elim (Bool-cases (nat_eq id s.id)) [
  | inl f ↦ subst P (sym (same_id id s.id f)) h.0
  | inr f ↦ has-All rest P h.1 id (subst (λ b. (b || has id (ids_of rest)) ≡ true) f e)
]

-- Distinct ids of a list of calculations are as many as they are exactly when each is among them.
pub length-followed-le :
    (specs : List CalcSpec) (ids : List CalcId)
    → Distinct ids
    → All (λ id. has id (ids_of specs) ≡ true) ids
    → (length (followed specs) ≤ length ids) ↔ All (λ (s : CalcSpec). has s.id ids ≡ true) specs
length-followed-le specs ids d own =
    let keys = followed specs in
    let mine = All-mono ids (λ id h. has-followed id specs ∙ h) own in
    let count = length-minus ids keys d (followed-Distinct specs) mine in
    (
      (λ le.
          All-has specs (λ id. has id ids ≡ true)
            (λ id h.
              let gone = no_has (minus ids keys) id (omega (arith, le, count)) in
              and_not (has id keys) (has id ids) (has-followed id specs ∙ h)
                (sym (has-minus id ids keys) ∙ gone))),
      (λ all.
          let none = none_left (minus ids keys) (λ x. has-minus x ids keys ∙ taken x all) in
          omega (arith, none, count)),
    )
  where
    taken :
        (x : CalcId)
        → All (λ (s : CalcSpec). has s.id ids ≡ true) specs
        → (has x (followed specs) && not (has x ids)) ≡ false
    taken x all = elim (Bool-cases (has x (ids_of specs))) [
      | inl e ↦
          rw (has-All specs (λ id. has id ids ≡ true) all x e) (and_false (has x (followed specs)))
      | inr e ↦ rw (has-followed x specs ∙ e) refl
    ]
