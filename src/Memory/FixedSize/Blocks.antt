-- ===== src/Memory/FixedSize/Blocks.antt =====
-- The blocks of a pool, and the list of the free ones.
use mathlib.Core.Logic.Or
use mathlib.Core.List.{Mem, Nodup, Nodup-cons, Nodup-nil, mem-cons, not-mem-nil}
use native.Mathlib.Bridge.{le_prop}
use g_os.Common.{
  ==_of_ne, List, [], ap, arith, length, refl, suc, zero, ℕ, ◌*◌, ◌+◌, ◌<◌, ◌∷◌, ◌≡◌, ◌≢◌, ◌≤◌,
}
use g_os.Memory.FixedSize.{write}

-- `n` blocks side by side from `base` on.
abbrev pub blocks : (base step n : ℕ) → List ℕ
blocks base step zero = []
blocks base step (suc n) = base ∷ blocks (base + step) step n

-- The headers lead from `a` through the blocks of the list.
abbrev pub Chain : (ℕ → ℕ) → ℕ → List ℕ → Type 0
Chain next a [] = Unit {0}
Chain next a (b ∷ bs) = (a ≡ b) × Chain next (next b) bs

pub length-blocks : (base step n : ℕ) → length (blocks base step n) ≡ n
length-blocks base step zero = refl
length-blocks base step (suc n) = ap suc (length-blocks (base + step) step n)

pub le_of_mem-blocks : (base step n a : ℕ) → Mem a (blocks base step n) → base ≤ a
le_of_mem-blocks base step zero a m = absurd (not-mem-nil m)
le_of_mem-blocks base step (suc n) a m =
    Or.elim le_prop (mem-cons.0 m) (λ e. omega arith)
      (λ r. omega (arith, le_of_mem-blocks (base + step) step n a r))

pub lt_of_mem-blocks :
    (base step n a : ℕ) → 0 < step → Mem a (blocks base step n) → a + step ≤ base + n * step
lt_of_mem-blocks base step zero a pos m = absurd (not-mem-nil m)
lt_of_mem-blocks base step (suc n) a pos m =
    Or.elim le_prop (mem-cons.0 m) (λ e. rw e (grind arith))
      (λ r. grind (arith, lt_of_mem-blocks (base + step) step n a pos r))

pub blocks-Nodup : (base step n : ℕ) → 0 < step → Nodup (blocks base step n)
blocks-Nodup base step zero pos = Nodup-nil
blocks-Nodup base step (suc n) pos = Nodup-cons.1 (
  λ m. absurd (omega (arith, le_of_mem-blocks (base + step) step n base m)),
  blocks-Nodup (base + step) step n pos,
)

-- Two blocks are the same or share no byte.
pub blocks_apart :
    (base step n a b : ℕ)
    → 0 < step
    → Mem a (blocks base step n)
    → Mem b (blocks base step n)
    → a < b
    → a + step ≤ b
blocks_apart base step zero a b pos ma mb h = absurd (not-mem-nil ma)
blocks_apart base step (suc n) a b pos ma mb h =
    Or.elim le_prop (mem-cons.0 mb)
      (λ e. absurd (omega (arith, le_of_mem-blocks base step (suc n) a ma)))
      (λ later.
        Or.elim le_prop (mem-cons.0 ma)
          (λ e. omega (arith, le_of_mem-blocks (base + step) step n b later))
          (λ m. blocks_apart (base + step) step n a b pos m later h))

-- A write at another block leaves the chain.
pub Chain-write :
    (next : ℕ → ℕ) (a v p : ℕ) (bs : List ℕ)
    → ¬ Mem a bs
    → Chain next p bs
    → Chain (write next a v) p bs
Chain-write next a v p [] out c = tt
Chain-write next a v p (b ∷ bs) out c =
    let ne : a ≢ b = λ e. out (mem-cons.1 (Or.inl e)) in
    (
      c.0,
      rw (==_of_ne a b ne)
          (Chain-write next a v (next b) bs (λ m. out (mem-cons.1 (Or.inr m))) c.1),
    )
