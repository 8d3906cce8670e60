-- ===== src/Prelude/Texts/Digits.antt =====
-- A decimal numeral is read back as its number.
use Prim.Native.Nat.{ℕ, zero, suc, ◌/◌, ◌%◌, ◌+◌, ◌-◌, ◌*◌, ◌≤◌, ◌<◌}
use Prim.Native.Char.{code}
use Prim.Native.String.{String, ◌++◌}
use mathlib.Core.Path.{◌≡◌, refl, ap, ◌∙◌, subst}
use mathlib.Core.Logic.{inl, inr}
use mathlib.Core.Option.{Option, none, some}
use native.Mathlib.Omega.{arith}
use text.Mathlib.TextLemmas.{nil-append, cons-append}
use ensurer_v.Prelude.Tests.{ltb, Bool-cases}
use ensurer_v.Prelude.Texts.{digit, show_from, show_nat, digits_value, is_ascii_digit}

digits_value-digit : (acc n : ℕ) → n < 10 → digits_value acc (digit n) ≡ some (acc * 10 + n)
unfolding digits_value digit
digits_value-digit acc zero h = refl
digits_value-digit acc (suc zero) h = refl
digits_value-digit acc (suc (suc zero)) h = refl
digits_value-digit acc (suc (suc (suc zero))) h = refl
digits_value-digit acc (suc (suc (suc (suc zero)))) h = refl
digits_value-digit acc (suc (suc (suc (suc (suc zero))))) h = refl
digits_value-digit acc (suc (suc (suc (suc (suc (suc zero)))))) h = refl
digits_value-digit acc (suc (suc (suc (suc (suc (suc (suc zero))))))) h = refl
digits_value-digit acc (suc (suc (suc (suc (suc (suc (suc (suc zero)))))))) h = refl
digits_value-digit acc (suc (suc (suc (suc (suc (suc (suc (suc (suc zero))))))))) h = refl
digits_value-digit acc (suc (suc (suc (suc (suc (suc (suc (suc (suc (suc n)))))))))) h =
    absurd (omega (arith, h))

-- The value of a text after another one.
abbrev continued : Option ℕ → String → Option ℕ
continued none t = none
continued (some v) t = digits_value v t

digits_value-append :
    (s t : String) (acc : ℕ) → digits_value acc (s ++ t) ≡ continued (digits_value acc s) t
unfolding digits_value
digits_value-append String.[] t acc = rw (nil-append t) refl
digits_value-append (String.◌∷◌ c s) t acc =
    rw (cons-append c s t) (elim (Bool-cases (is_ascii_digit c)) [
      | inl e ↦ rw e (digits_value-append s t (acc * 10 + (code c - 48)))
      | inr e ↦ rw e refl
    ])

-- The value of a numeral, after that of the digits before it.
show_from-value :
    (fuel acc n : ℕ)
    → n < fuel
    → (v : ℕ) × (digits_value acc (show_from fuel n) ≡ some v) × (acc * 10 ≤ v)
unfolding show_from
show_from-value zero acc n h = absurd (omega (arith, h))
show_from-value (suc fuel) acc n h = elim (Bool-cases (ltb n 10)) [
  | inl e ↦ rw e (acc * 10 + n, digits_value-digit acc n (ground (arith, e)), omega arith)
  | inr e ↦
      let (v, f, k) = show_from-value fuel acc (n / 10) (ground (arith, e, h)) in
      rw e (
        v * 10 + n % 10,
        digits_value-append (show_from fuel (n / 10)) (digit (n % 10)) acc
            ∙ ap (λ o. continued o (digit (n % 10))) f
            ∙ digits_value-digit v (n % 10) (omega arith),
        omega (arith, k),
      )
]

show_from-digits : (fuel n : ℕ) → n < fuel → digits_value 0 (show_from fuel n) ≡ some n
unfolding show_from
show_from-digits zero n h = absurd (omega (arith, h))
show_from-digits (suc fuel) n h = elim (Bool-cases (ltb n 10)) [
  | inl e ↦
      let plain : 0 * 10 + n ≡ n = omega arith in
      rw e (digits_value-digit 0 n (ground (arith, e)) ∙ ap some plain)
  | inr e ↦
      let whole : n / 10 * 10 + n % 10 ≡ n = omega arith in
      rw e (
        digits_value-append (show_from fuel (n / 10)) (digit (n % 10)) 0
        ∙ ap (λ o. continued o (digit (n % 10)))
            (show_from-digits fuel (n / 10) (ground (arith, e, h)))
        ∙ digits_value-digit (n / 10) (n % 10) (omega arith)
        ∙ ap some whole)
]

pub digits_value-show_nat : (n : ℕ) → digits_value 0 (show_nat n) ≡ some n
unfolding show_nat
digits_value-show_nat n = show_from-digits (n + 1) n (omega arith)

empty_value : (acc : ℕ) → digits_value acc "" ≡ some acc
unfolding digits_value
empty_value acc = refl

-- A numeral is not the empty text.
pub show_nat-nonempty : (n : ℕ) → show_nat n ≡ "" → ⊥
unfolding show_nat
show_nat-nonempty n e =
    let (v, f, k) = show_from-value (n + 1) 1 n (omega arith) in
    let none_there : digits_value 1 "" ≡ some v = subst (λ s. digits_value 1 s ≡ some v) e f in
    absurd (ground (arith, empty_value 1, none_there, k))
