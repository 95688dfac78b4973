-- ===== src/Common/Logic.antt =====
-- Case splits that keep the equation.
use mathlib.Core.Path.{◌≡◌, refl}
use mathlib.Core.Logic.{◌⊎◌, inl, inr, ◌≢◌}
use mathlib.Core.Bool.{Bool, true, false, ◌&&◌}
use mathlib.Core.List.{List, [], ◌∷◌}
use mathlib.Core.Option.{Option, none, some}

pub Bool-cases : (b : Bool) → (b ≡ true) ⊎ (b ≡ false)
Bool-cases true = inl refl
Bool-cases false = inr refl

pub Option-cases {ℓ} : {A : Type ℓ} (o : Option A) → (o ≡ none) ⊎ ((a : A) × (o ≡ some a))
Option-cases none = inl refl
Option-cases (some a) = inr (a, refl)

pub List-cases {ℓ} :
    {A : Type ℓ} (xs : List A) → (xs ≡ []) ⊎ ((a : A) × (ys : List A) × (xs ≡ a ∷ ys))
List-cases [] = inl refl
List-cases (a ∷ ys) = inr (a, ys, refl)

pub some-injective {ℓ} : {A : Type ℓ} {a b : A} → some a ≡ some b → a ≡ b
some-injective e = cc

pub none-ne-some {ℓ} : {A : Type ℓ} {a : A} → none ≢ some a
none-ne-some e = cc

pub and_true : (x y : Bool) → (x && y) ≡ true → (x ≡ true) × (y ≡ true)
and_true true y h = (refl, h)
and_true false y h = cc

pub true-ne-false : true ≢ false
true-ne-false e = cc
