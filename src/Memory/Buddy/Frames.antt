-- ===== src/Memory/Buddy/Frames.antt =====
-- One block of the row and all that is around it: from the block outwards its neighbours, and at last
-- the other trees.
use g_os.Common.{
  Bool, Bool-cases, List, [], append_assoc, arith, false, inl, inr, length, length-append, ltb,
  refl, subst, suc, true, zero, ℕ, ◌*◌, ◌++◌, ◌+◌, ◌<◌, ◌↔◌, ◌∷◌, ◌≡◌, ◌≤◌, ◌⊎◌,
}
use g_os.Memory.Buddy.{BuddyDesc, pages}
use g_os.Memory.Buddy.Bits.{even}
use g_os.Memory.Buddy.Tree.{
  Agrees, Marked, Marked-Agrees, MarkedRow, MarkedRow-Agrees, MarkedRow-append, Tree, available,
  found, found_row, found_row-append, lent, split,
}

-- What is around the place of order `i` at `a`. `q` counts the blocks of twice the size before it.
pub data Frames : (i a : ℕ) → Type 0 where
  top : {i a : ℕ} → i ≡ 10 → (before after : List Tree) → a ≡ 1024 * length before → Frames i a
  lower : {i a : ℕ} (q : ℕ) → a ≡ even q i → Tree → Frames (suc i) a → Frames i a
  upper :
      {i a : ℕ} (p q : ℕ) → p ≡ even q i → a ≡ p + pages i → Tree → Frames (suc i) p → Frames i a

-- The row with a tree put into the place.
unfoldable pub plug : {i a : ℕ} → Frames i a → Tree → List Tree
plug (top e before after e') t = before ++ t ∷ after
plug (lower q e r f) t = plug f (split t r)
plug (upper p q e e' l f) t = plug f (split l t)

-- The marks and the blocks of all that is around.
unfoldable pub MarkedAround : {i a : ℕ} → BuddyDesc → Frames i a → Type 0
MarkedAround {i} {a} s (top e before after e') = MarkedRow s before 0 × MarkedRow s after (a + 1024)
MarkedAround {i} {a} s (lower q e r f) = Marked s r i (a + pages i) × MarkedAround s f
MarkedAround {i} {a} s (upper p q e e' l f) = Marked s l i p × MarkedAround s f

unfoldable pub found_around : {i a : ℕ} → (is_lent : Bool) → Frames i a → (k b : ℕ) → ℕ
found_around {i} {a} u (top e before after e') k b =
    found_row u before 0 k b + found_row u after (a + 1024) k b
found_around {i} {a} u (lower q e r f) k b = found u r i (a + pages i) k b + found_around u f k b
found_around {i} {a} u (upper p q e e' l f) k b = found u l i p k b + found_around u f k b

pub found_row-plug :
    {i a : ℕ} (u : Bool) (f : Frames i a) (t : Tree) (k b : ℕ)
    → found_row u (plug f t) 0 k b ≡ found u t i a k b + found_around u f k b
unfolding plug found_around
found_row-plug u (top e before after e') t k b =
    rw e (found_row-append u before t after 0 _ k b (omega arith))
found_row-plug u (lower q e r f) t k b = omega (arith, found_row-plug u f (split t r) k b)
found_row-plug u (upper p q e e' l f) t k b =
    rw e' (omega (arith, found_row-plug u f (split l t) k b))

pub MarkedRow-plug :
    {i a : ℕ} (s : BuddyDesc) (f : Frames i a) (t : Tree)
    → MarkedRow s (plug f t) 0 ↔ (Marked s t i a × MarkedAround s f)
unfolding plug MarkedAround Marked
MarkedRow-plug {i} {a} s (top e before after e') t =
    let whole = MarkedRow-append s before t after 0 a (omega arith) in
    rw e ((λ m. let n = whole.0 m in (n.0, (n.1, n.2))), (λ m. whole.1 (m.0, m.1.0, m.1.1)))
MarkedRow-plug s (lower q e r f) t =
    let outer = MarkedRow-plug s f (split t r) in
    ((λ m. let n = outer.0 m in (n.0.0, (n.0.1, n.1))), (λ m. outer.1 ((m.0, m.1.0), m.1.1)))
MarkedRow-plug s (upper p q e e' l f) t =
    let outer = MarkedRow-plug s f (split l t) in
    rw e' ((λ m. let n = outer.0 m in (n.0.1, (n.0.0, n.1))), (λ m. outer.1 ((m.1.0, m.0), m.1.1)))

-- A change inside of the place leaves what is around it as it is.
unfoldable pub AgreesOutside : BuddyDesc → BuddyDesc → (from to : ℕ) → Type 0
AgreesOutside s s' from to =
    (x : ℕ)
    → (x < from) ⊎ (to ≤ x)
    → (s'.order x ≡ s.order x) × (s'.page_list_ref x ≡ s.page_list_ref x)

pub MarkedAround-Agrees :
    {i a : ℕ} (s s' : BuddyDesc) (f : Frames i a)
    → AgreesOutside s s' a (a + pages i)
    → MarkedAround s f
    → MarkedAround s' f
unfolding MarkedAround AgreesOutside Agrees pages
MarkedAround-Agrees {i} {a} s s' (top e before after e') same (m, m') =
    let ten : pages i ≡ 1024 = rw e refl in
    (
      MarkedRow-Agrees s s' before 0 (λ x h h'. same x (inl (omega arith))) m,
      MarkedRow-Agrees s s' after (a + 1024) (λ x h h'. same x (inr (omega arith))) m',
    )
MarkedAround-Agrees {i} {a} s s' (lower q e r f) same (m, m') = (
  Marked-Agrees s s' r i (a + pages i) (λ x h h'. same x (inr (omega arith))) m,
  MarkedAround-Agrees s s' f
      (λ x h. same x (elim h [ inl h ↦ inl (omega arith) | inr h ↦ inr (omega arith) ])) m',
)
MarkedAround-Agrees {i} {a} s s' (upper p q e e' l f) same (m, m') = (
  Marked-Agrees s s' l i p (λ x h h'. same x (inl (omega arith))) m,
  MarkedAround-Agrees s s' f
      (λ x h. same x (elim h [ inl h ↦ inl (omega arith) | inr h ↦ inr (omega arith) ])) m',
)

abbrev pub leaf : Bool → Tree
leaf true = lent
leaf false = available

-- A block that a row has, with what is around it.
pub record Located (is_lent : Bool) (row : List Tree) (k b : ℕ) : Type 0 where
  pub frames : Frames k b
  pub plugged : plug frames (leaf is_lent) ≡ row

place_at :
    (u : Bool) (row : List Tree) (i a k b : ℕ) (f : Frames i a)
    → plug f (leaf u) ≡ row
    → i ≡ k
    → a ≡ b
    → Located u row k b
place_at u row i a k b f e p q =
    subst (λ i'. Located u row i' b) p
      (subst (λ a'. Located u row i a') q (record { frames = f; plugged = e }))

locate_tree :
    (u : Bool) (row : List Tree) (t : Tree) (i a : ℕ) (f : Frames i a) (q k b : ℕ)
    → a ≡ q * pages i
    → plug f t ≡ row
    → 0 < found u t i a k b
    → Located u row k b
unfolding pages plug
locate_tree true row lent i a f q k b al e h =
    place_at true row i a k b f e (ground arith) (ground arith)
locate_tree false row lent i a f q k b al e h = absurd (omega arith)
locate_tree true row available i a f q k b al e h = absurd (omega arith)
locate_tree false row available i a f q k b al e h =
    place_at false row i a k b f e (ground arith) (ground arith)
locate_tree u row (split l r) zero a f q k b al e h = absurd (omega arith)
locate_tree u row (split l r) (suc i) a f q k b al e h =
    elim (Bool-cases (ltb 0 (found u l i a k b))) [
      | inl here ↦
          locate_tree u row l i a (lower q al r f) (q + q) k b (grind arith) e (ground arith)
      | inr there ↦
          locate_tree u row r i (a + pages i) (upper a q al refl l f) (q + q + 1) k b (grind arith)
            e (ground arith)
    ]

locate_row :
    (u : Bool) (before ts : List Tree) (a k b : ℕ)
    → a ≡ 1024 * length before
    → 0 < found_row u ts a k b
    → Located u (before ++ ts) k b
unfolding pages plug
locate_row u before [] a k b e h = absurd (omega arith)
locate_row u before (t ∷ ts) a k b e h = elim (Bool-cases (ltb 0 (found u t 10 a k b))) [
  | inl here ↦
      locate_tree u (before ++ t ∷ ts) t 10 a (top refl before ts e) (length before) k b
        (omega arith) refl (ground arith)
  | inr there ↦ rw (← append_assoc before (t ∷ []) ts) (
      locate_row u (before ++ t ∷ []) ts (a + 1024) k b
        (omega (arith, length-append before (t ∷ []))) (ground arith))
]

pub locate : (u : Bool) (row : List Tree) (k b : ℕ) → 0 < found_row u row 0 k b → Located u row k b
locate u row k b h = locate_row u [] row 0 k b refl h
