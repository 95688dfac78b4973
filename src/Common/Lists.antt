-- ===== src/Common/Lists.antt =====
-- Lists measured and indexed by native numbers, under the library's names.
use Prim.Native.Nat.{ℕ, zero, suc, ◌+◌, ◌<◌}
use mathlib.Core.Path.{◌≡◌, refl, sym, ap}
use mathlib.Core.Logic.{◌≢◌}
use mathlib.Core.Logic.Or
use mathlib.Core.List.{List, [], ◌∷◌, ◌++◌, Mem, mem-cons, not-mem-nil}
use native.Mathlib.Decide.{ℕ_discrete}
use native.Mathlib.Omega.{arith}

module _ {ℓ} {A : Type ℓ} where
  abbrev pub length : List A → ℕ
  length [] = 0
  length (_ ∷ xs) = suc (length xs)

  abbrev pub get_or : List A → ℕ → A → A
  get_or [] _ d = d
  get_or (x ∷ _) zero _ = x
  get_or (_ ∷ xs) (suc i) d = get_or xs i d

  -- A write out of range changes nothing.
  abbrev pub set : List A → ℕ → A → List A
  set [] _ _ = []
  set (_ ∷ xs) zero v = v ∷ xs
  set (x ∷ xs) (suc i) v = x ∷ set xs i v

  abbrev pub replicate : ℕ → A → List A
  replicate zero a = []
  replicate (suc n) a = a ∷ replicate n a

  pub length-append : (xs ys : List A) → length (xs ++ ys) ≡ length xs + length ys
  length-append [] ys = omega arith
  length-append (_ ∷ xs) ys = omega (arith, length-append xs ys)

  pub length-set : (xs : List A) (i : ℕ) (v : A) → length (set xs i v) ≡ length xs
  length-set [] i v = refl
  length-set (x ∷ xs) zero v = refl
  length-set (x ∷ xs) (suc i) v = ap suc (length-set xs i v)

  pub length-replicate : (n : ℕ) (a : A) → length (replicate n a) ≡ n
  length-replicate zero a = refl
  length-replicate (suc n) a = ap suc (length-replicate n a)

  pub get_or-set_self :
      (xs : List A) (i : ℕ) (v d : A) → i < length xs → get_or (set xs i v) i d ≡ v
  get_or-set_self [] i v d h = absurd (omega arith)
  get_or-set_self (x ∷ xs) zero v d h = refl
  get_or-set_self (x ∷ xs) (suc i) v d h = get_or-set_self xs i v d (omega arith)

  pub get_or-set_ne :
      (xs : List A) (i j : ℕ) (v d : A) → i ≢ j → get_or (set xs i v) j d ≡ get_or xs j d
  get_or-set_ne [] i j v d h = refl
  get_or-set_ne (x ∷ xs) zero zero v d h = absurd (h refl)
  get_or-set_ne (x ∷ xs) zero (suc j) v d h = refl
  get_or-set_ne (x ∷ xs) (suc i) zero v d h = refl
  get_or-set_ne (x ∷ xs) (suc i) (suc j) v d h = get_or-set_ne xs i j v d (λ e. h (ap suc e))

  pub get_or-replicate : (n i : ℕ) (a : A) → get_or (replicate n a) i a ≡ a
  get_or-replicate zero i a = refl
  get_or-replicate (suc n) zero a = refl
  get_or-replicate (suc n) (suc i) a = get_or-replicate n i a

pub mem-set_aside : (a : ℕ) (xs : List ℕ) → Mem a xs → (ys zs : List ℕ) × (xs ≡ ys ++ a ∷ zs)
mem-set_aside a [] m = absurd (not-mem-nil m)
mem-set_aside a (x ∷ xs) m = elim (ℕ_discrete x a) [
  | yes e ↦ ([], xs, rw e refl)
  | no n ↦
      let later : Mem a xs = Or.elim (hlevel) (mem-cons.0 m) (λ e. absurd (n (sym e))) (λ r. r) in
      let (ys, zs, e) = mem-set_aside a xs later in (x ∷ ys, zs, ap (λ l. x ∷ l) e)
]

-- What is left when one member is taken out.
pub mem-take_out : (a b : ℕ) (ys zs : List ℕ) → a ≢ b → Mem b (ys ++ a ∷ zs) → Mem b (ys ++ zs)
mem-take_out a b [] zs ne m = Or.elim (hlevel) (mem-cons.0 m) (λ e. absurd (ne (sym e))) (λ r. r)
mem-take_out a b (y ∷ ys) zs ne m =
    Or.elim (hlevel) (mem-cons.0 m) (λ e. mem-cons.1 (Or.inl e))
      (λ r. mem-cons.1 (Or.inr (mem-take_out a b ys zs ne r)))
