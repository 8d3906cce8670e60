-- ===== src/Prelude/Orders.antt =====
-- The order of texts, and sorting by insertion.
use Prim.Native.String.{String, compare}
use text.Mathlib.Text.{is_lt}
use mathlib.Core.Bool.{Bool}
use mathlib.Core.List.{List, [], ◌∷◌}
use ensurer_v.Prelude.Tests.{if◌then◌else◌}

-- The order of texts is that of their code points.
abbrev pub text_lt : String → String → Bool
text_lt s t = is_lt (compare s t)

-- `before y x` is strict, so rows that tie keep the order of insertion.
unfoldable pub insert_by {ℓ} : {A : Type ℓ} → (A → A → Bool) → A → List A → List A
insert_by before x [] = x ∷ []
insert_by before x (y ∷ ys) = if before y x then y ∷ insert_by before x ys else x ∷ y ∷ ys

unfoldable pub order_by {ℓ} : {A : Type ℓ} → (A → A → Bool) → List A → List A
unfolding insert_by
order_by before [] = []
order_by before (x ∷ xs) = insert_by before x (order_by before xs)
