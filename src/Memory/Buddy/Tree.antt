-- ===== src/Memory/Buddy/Tree.antt =====
-- The memory as a row of trees: each block of the largest size is free, allocated, or split into two
-- halves that are trees again. A buddy stands for such a row when its lists and its entries say so.
use g_os.Common.{
  Bool, List, [], arith, if◌then◌else◌, inl, inr, length, some, suc, zero, ℕ, ◌&&◌, ◌*◌, ◌++◌, ◌+◌,
  ◌<◌, ◌==◌, ◌↔◌, ◌∙◌, ◌∷◌, ◌≡◌, ◌≤◌, ◌⊎◌,
}
use g_os.Memory.Buddy.{BuddyDesc, pages}

pub data Tree : Type 0 where
  available : Tree
  lent : Tree
  split : Tree → Tree → Tree

-- 1 for the block of order `k` at `b`, if that is the one of order `i` at `a`.
abbrev pub hit : (k b i a : ℕ) → ℕ
hit k b i a = if k == i && b == a then 1 else 0

-- How often a tree of order `i` at `a` has the block of order `k` at `b`, free or allocated.
abbrev pub found : (is_lent : Bool) → Tree → (i a k b : ℕ) → ℕ
found is_lent available i a k b = if is_lent then 0 else hit k b i a
found is_lent lent i a k b = if is_lent then hit k b i a else 0
found is_lent (split l r) zero a k b = 0
found is_lent (split l r) (suc i) a k b =
    found is_lent l i a k b + found is_lent r i (a + pages i) k b

-- The same of a row of trees of the largest size.
abbrev pub found_row : (is_lent : Bool) → List Tree → (a k b : ℕ) → ℕ
found_row is_lent [] a k b = 0
found_row is_lent (t ∷ ts) a k b = found is_lent t 10 a k b + found_row is_lent ts (a + 1024) k b

-- The entries of the arrays at the start of each block of a tree of order `i` at `a`. Before its
-- first use a block of the largest size has no entry that points to its node.
unfoldable pub Marked : BuddyDesc → Tree → (i a : ℕ) → Type 0
Marked s available i a =
    (s.order a ≡ i) × ((10 ≤ i) ⊎ (s.page_list_ref a ≡ some (record { list = i; val = a })))
Marked s lent i a = s.order a ≡ i + 16
Marked s (split l r) zero a = ⊥
Marked s (split l r) (suc i) a = Marked s l i a × Marked s r i (a + pages i)

pub pages_pos : (i : ℕ) → 0 < pages i
unfolding pages
pages_pos zero = omega arith
pages_pos (suc i) = omega (arith, pages_pos i)

-- The entries that a tree reads lie inside of it.
unfoldable pub Agrees : BuddyDesc → BuddyDesc → (from to : ℕ) → Type 0
Agrees s s' from to =
    (x : ℕ)
    → from ≤ x
    → x < to
    → (s'.order x ≡ s.order x) × (s'.page_list_ref x ≡ s.page_list_ref x)

pub Marked-Agrees :
    (s s' : BuddyDesc) (t : Tree) (i a : ℕ)
    → Agrees s s' a (a + pages i)
    → Marked s t i a
    → Marked s' t i a
unfolding Marked Agrees pages
Marked-Agrees s s' available i a same (o, r) =
    let (e, e') = same a (omega arith) (omega (arith, pages_pos i)) in
    (e ∙ o, elim r [ inl h ↦ inl h | inr h ↦ inr (e' ∙ h) ])
Marked-Agrees s s' lent i a same o = (same a (omega arith) (omega (arith, pages_pos i))).0 ∙ o
Marked-Agrees s s' (split l r) zero a same m = absurd m
Marked-Agrees s s' (split l r) (suc i) a same (m, m') = (
  Marked-Agrees s s' l i a (λ x h h'. same x h (omega arith)) m,
  Marked-Agrees s s' r i (a + pages i) (λ x h h'. same x (omega arith) (omega arith)) m',
)

unfoldable pub MarkedRow : BuddyDesc → List Tree → (a : ℕ) → Type 0
MarkedRow s [] a = Unit {0}
MarkedRow s (t ∷ ts) a = Marked s t 10 a × MarkedRow s ts (a + 1024)

pub MarkedRow-Agrees :
    (s s' : BuddyDesc) (ts : List Tree) (a : ℕ)
    → Agrees s s' a (a + 1024 * length ts)
    → MarkedRow s ts a
    → MarkedRow s' ts a
unfolding MarkedRow Agrees pages
MarkedRow-Agrees s s' [] a same m = tt
MarkedRow-Agrees s s' (t ∷ ts) a same (m, m') = (
  Marked-Agrees s s' t 10 a (λ x h h'. same x h (omega arith)) m,
  MarkedRow-Agrees s s' ts (a + 1024) (λ x h h'. same x (omega arith) (omega arith)) m',
)

pub found_row-append :
    (u : Bool) (ts : List Tree) (t : Tree) (ts' : List Tree) (a c k b : ℕ)
    → c ≡ a + 1024 * length ts
    → found_row u (ts ++ t ∷ ts') a k b
      ≡ found u t 10 c k b + (found_row u ts a k b + found_row u ts' (c + 1024) k b)
found_row-append u [] t ts' a c k b e = let e' : c ≡ a = omega arith in rw e' (omega arith)
found_row-append u (x ∷ ts) t ts' a c k b e =
    omega (arith, found_row-append u ts t ts' (a + 1024) c k b (omega arith))

pub MarkedRow-append :
    (s : BuddyDesc) (ts : List Tree) (t : Tree) (ts' : List Tree) (a c : ℕ)
    → c ≡ a + 1024 * length ts
    → MarkedRow s (ts ++ t ∷ ts') a
      ↔ (Marked s t 10 c × MarkedRow s ts a × MarkedRow s ts' (c + 1024))
unfolding MarkedRow
MarkedRow-append s [] t ts' a c e =
    let e' : c ≡ a = omega arith in rw e' ((λ m. (m.0, tt, m.1)), (λ m. (m.0, m.2)))
MarkedRow-append s (x ∷ ts) t ts' a c e =
    let later = MarkedRow-append s ts t ts' (a + 1024) c (omega arith) in
    (
      (λ m. let n = later.0 m.1 in (n.0, (m.0, n.1), n.2)),
      (λ m. (m.1.0, later.1 (m.0, m.1.1, m.2))),
    )
