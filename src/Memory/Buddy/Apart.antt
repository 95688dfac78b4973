-- ===== src/Memory/Buddy/Apart.antt =====
-- The blocks of a row do not overlap.
use g_os.Common.{
  Bool, Bool-cases, List, [], ap, arith, false, inl, inr, length, ltb, refl, suc, true, zero, ℕ,
  ◌*◌, ◌+◌, ◌<◌, ◌∷◌, ◌≡◌, ◌≤◌, ◌⊎◌,
}
use g_os.Memory.Buddy.{pages}
use g_os.Memory.Buddy.Tree.{Tree, available, found, found_row, lent, pages_pos, split}
use g_os.Memory.Buddy.Frames.{Frames, found_around, found_row-plug, leaf, locate, lower, top, upper}

found-inside :
    (u : Bool) (t : Tree) (i a k b : ℕ)
    → 0 < found u t i a k b
    → (a ≤ b) × (b + pages k ≤ a + pages i)
unfolding pages
found-inside true lent i a k b h =
    let e : k ≡ i = ground arith in
    let e' : b ≡ a = ground arith in rw (e, e') (omega arith, omega arith)
found-inside false lent i a k b h = absurd (omega arith)
found-inside true available i a k b h = absurd (omega arith)
found-inside false available i a k b h =
    let e : k ≡ i = ground arith in
    let e' : b ≡ a = ground arith in rw (e, e') (omega arith, omega arith)
found-inside u (split l r) zero a k b h = absurd (omega arith)
found-inside u (split l r) (suc i) a k b h = elim (Bool-cases (ltb 0 (found u l i a k b))) [
  | inl here ↦ let (x, y) = found-inside u l i a k b (ground arith) in (omega arith, omega arith)
  | inr there ↦
      let (x, y) = found-inside u r i (a + pages i) k b (ground arith) in (omega arith, omega arith)
]

found_row-inside :
    (u : Bool) (ts : List Tree) (a k b : ℕ)
    → 0 < found_row u ts a k b
    → (a ≤ b) × (b + pages k ≤ a + 1024 * length ts)
unfolding pages
found_row-inside u [] a k b h = absurd (omega arith)
found_row-inside u (t ∷ ts) a k b h = elim (Bool-cases (ltb 0 (found u t 10 a k b))) [
  | inl here ↦ let (x, y) = found-inside u t 10 a k b (ground arith) in (omega arith, omega arith)
  | inr there ↦
      let (x, y) = found_row-inside u ts (a + 1024) k b (ground arith) in (omega arith, omega arith)
]

found_around-apart :
    (u : Bool) {i a : ℕ} (f : Frames i a) (k b : ℕ)
    → 0 < found_around u f k b
    → (b + pages k ≤ a) ⊎ (a + pages i ≤ b)
unfolding found_around pages
found_around-apart u {i = i} {a = a} (top e before after e') k b h =
    let ten : pages i ≡ 1024 = rw e refl in
    elim (Bool-cases (ltb 0 (found_row u before 0 k b))) [
      | inl low ↦ let (x, y) = found_row-inside u before 0 k b (ground arith) in inl (omega arith)
      | inr high ↦
          let (x, y) = found_row-inside u after (a + 1024) k b (ground arith) in inr (omega arith)
    ]
found_around-apart u {i = i} {a = a} (lower q e r f) k b h =
    elim (Bool-cases (ltb 0 (found u r i (a + pages i) k b))) [
      | inl beside ↦
          let (x, y) = found-inside u r i (a + pages i) k b (ground arith) in inr (omega arith)
      | inr out ↦ elim (found_around-apart u f k b (ground arith)) [
        | inl x ↦ inl (omega arith)
        | inr x ↦ inr (omega arith)
      ]
    ]
found_around-apart u {i = i} {a = a} (upper p q e e' l f) k b h =
    elim (Bool-cases (ltb 0 (found u l i p k b))) [
      | inl beside ↦ let (x, y) = found-inside u l i p k b (ground arith) in inl (omega arith)
      | inr out ↦ elim (found_around-apart u f k b (ground arith)) [
        | inl x ↦ inl (omega arith)
        | inr x ↦ inr (omega arith)
      ]
    ]

-- One block, or two that do not overlap.
abbrev pub Apart : (k a j b : ℕ) → Type 0
Apart k a j b = ((k ≡ j) × (a ≡ b)) ⊎ ((b + pages j ≤ a) ⊎ (a + pages k ≤ b))

leaf-hit : (u : Bool) (k a j b : ℕ) → 0 < found u (leaf u) k a j b → (k ≡ j) × (a ≡ b)
leaf-hit true k a j b h = ground arith
leaf-hit false k a j b h = ground arith

leaf-once : (u : Bool) (k a j b : ℕ) → found u (leaf u) k a j b ≤ 1
leaf-once true k a j b = ground arith
leaf-once false k a j b = ground arith

pub found_row-Apart :
    (u : Bool) (row : List Tree) (k a j b : ℕ)
    → 0 < found_row u row 0 k a
    → 0 < found_row u row 0 j b
    → Apart k a j b
found_row-Apart u row k a j b h h' =
    let loc = locate u row k a h in
    let sum = found_row-plug u loc.frames (leaf u) j b in
    let e = ap (λ r. found_row u r 0 j b) loc.plugged in
    elim (Bool-cases (ltb 0 (found_around u loc.frames j b))) [
      | inl around ↦ inr (found_around-apart u loc.frames j b (ground arith))
      | inr here ↦ inl (leaf-hit u k a j b (ground (arith, sum, e)))
    ]

-- A block is there once.
pub found_row-once : (u : Bool) (row : List Tree) (k a : ℕ) → found_row u row 0 k a ≤ 1
found_row-once u row k a = elim (Bool-cases (ltb 0 (found_row u row 0 k a))) [
  | inl some_block ↦
      let loc = locate u row k a (ground arith) in
      let sum = found_row-plug u loc.frames (leaf u) k a in
      let e = ap (λ r. found_row u r 0 k a) loc.plugged in
      elim (Bool-cases (ltb 0 (found_around u loc.frames k a))) [
        | inl around ↦ elim (found_around-apart u loc.frames k a (ground arith)) [
          | inl x ↦ absurd (omega (arith, pages_pos k))
          | inr x ↦ absurd (omega (arith, pages_pos k))
        ]
        | inr alone ↦ ground (arith, sum, e, leaf-once u k a k a)
      ]
  | inr no_block ↦ ground arith
]
