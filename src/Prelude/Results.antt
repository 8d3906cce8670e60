-- ===== src/Prelude/Results.antt =====
-- Rust's `Result`, with the error type as a parameter, and `?` as a `do` block.
use mathlib.Core.Path.{◌≡◌, refl}
use mathlib.Core.Logic.{◌⊎◌, inl, inr}
use mathlib.Core.Bool.{Bool, true, false}
use mathlib.Core.Option.{Option, none, some}
use native.Mathlib.Omega.{arith}
use ensurer_v.Prelude.Lists.{All}
use mathlib.Core.List.{List, [], ◌∷◌}

pub data Result (E A : Type 0) : Type 0 where
  ok : A → Result E A
  err : E → Result E A

infixl 5 ◌>>=◌ ◌>>◌
abbrev pub ◌>>=◌ : {E A B : Type 0} → Result E A → (A → Result E B) → Result E B
ok a >>= f = f a
err e >>= f = err e

abbrev pub ◌>>◌ : {E B : Type 0} → Result E (Unit {0}) → Result E B → Result E B
m >> k = m >>= λ _. k

abbrev pub map_err : {E F A : Type 0} → (E → F) → Result E A → Result F A
map_err f (ok a) = ok a
map_err f (err e) = err (f e)

abbrev pub ok_or : {E A : Type 0} → Option A → E → Result E A
ok_or none e = err e
ok_or (some a) e = ok a

-- `collect::<Result<Vec<_>, _>>()` after `map`: the first error ends it.
abbrev pub traverse : {E A B : Type 0} → (A → Result E B) → List A → Result E (List B)
traverse f [] = ok []
traverse f (x ∷ xs) = let rest = traverse f xs in do y ← f x; ys ← rest; ok (y ∷ ys)

-- `Option::map(f)` and `transpose()`.
abbrev pub transpose : {E A B : Type 0} → (A → Result E B) → Option A → Result E (Option B)
transpose f none = ok none
transpose f (some a) = do b ← f a; ok (some b)

abbrev pub is_ok : {E A : Type 0} → Result E A → Bool
is_ok (ok a) = true
is_ok (err e) = false

pub is_ok-map_err :
    {E F A : Type 0} (f : E → F) (r : Result E A) → is_ok r ≡ true → is_ok (map_err f r) ≡ true
is_ok-map_err f (ok a) h = refl
is_ok-map_err f (err e) h = h

pub is_ok-traverse :
    {E A B : Type 0} (f : A → Result E B) (xs : List A)
    → All (λ a. is_ok (f a) ≡ true) xs
    → is_ok (traverse f xs) ≡ true
is_ok-traverse f [] h = refl
is_ok-traverse f (x ∷ xs) h = ground (arith, is_ok-traverse f xs h.1)

pub is_ok-bind :
    {E A B : Type 0} (m : Result E A) (f : A → Result E B)
    → is_ok m ≡ true
    → ((a : A) → is_ok (f a) ≡ true)
    → is_ok (m >>= f) ≡ true
is_ok-bind (ok a) f h k = k a
is_ok-bind (err e) f h k = h

pub Result-cases :
    {E A : Type 0} (r : Result E A) → ((a : A) × (r ≡ ok a)) ⊎ ((e : E) × (r ≡ err e))
Result-cases (ok a) = inl (a, refl)
Result-cases (err e) = inr (e, refl)

-- A traversal that succeeds has succeeded on the head and on the rest.
pub traverse-ok :
    {E A B : Type 0} (f : A → Result E B) (x : A) (xs : List A) (zs : List B)
    → traverse f (x ∷ xs) ≡ ok zs
    → (y : B) × (ys : List B) × (f x ≡ ok y) × (traverse f xs ≡ ok ys) × (zs ≡ y ∷ ys)
traverse-ok f x xs zs h = elim (Result-cases (f x)) [
  | inl (y, e) ↦ elim (Result-cases (traverse f xs)) [
    | inl (ys, g) ↦ (y, ys, e, g, ground (arith, h, e, g))
    | inr (b, g) ↦ absurd (ground (arith, h, e, g))
  ]
  | inr (b, e) ↦ absurd (ground (arith, h, e))
]

pub map_err-ok :
    {E F A : Type 0} (f : E → F) (r : Result E A) (a : A) → map_err f r ≡ ok a → r ≡ ok a
map_err-ok f (ok b) a h = ground (arith, h)
map_err-ok f (err e) a h = absurd (cc h)

pub ok_injective : {E A : Type 0} {a b : A} → ◌≡◌ {A = Result E A} (ok a) (ok b) → a ≡ b
ok_injective h = cc h
