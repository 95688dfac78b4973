-- ===== src/Memory/Buddy/Alloc.antt =====
-- Allocation takes a free block, splits it and lends its first part.
use g_os.Common.{
  ==_of_ne, ==_refl, Bool, List, ap, arith, false, inl, inr, refl, some, subst, suc, sym, true,
  zero, ℕ, ◌+◌, ◌-◌, ◌<◌, ◌≡◌, ◌≢◌, ◌≤◌, ◌⊎◌,
}
use Prim.Native.Nat.{bit_or}
use g_os.Memory.Buddy.{BuddyDesc, NodeRef, delete_node, pages, split_page, take_page, write}
use g_os.Memory.Buddy.Bits.{entry}
use g_os.Memory.Buddy.Tree.{
  Agrees, Marked, MarkedRow, Tree, available, found, found_row, hit, pages_pos,
}
use g_os.Memory.Buddy.Frames.{
  AgreesOutside, Frames, MarkedAround-Agrees, MarkedRow-plug, found_row-plug, locate, plug,
}
use g_os.Memory.Buddy.Listed.{IsBuddy, count, count-delete_node}
use g_os.Memory.Buddy.Split.{carve, count-split_page, split_page-Agrees, split_page-Marked}

-- The entries of the block that is lent.
abbrev pub lend : BuddyDesc → NodeRef → (list_index : ℕ) → BuddyDesc
lend s node list_index = record s {
  order = write s.order node.val (bit_or list_index 16);
  page_list_ref = write s.page_list_ref node.val (some node);
}

take_page-lend :
    (s : BuddyDesc) (node : NodeRef) (list_index d : ℕ)
    → node.list ≡ list_index + d
    → take_page s node list_index
      ≡ lend (split_page (delete_node s node) node.val list_index d) node list_index
unfolding take_page
take_page-lend s node li d e =
    let e' : node.list - li ≡ d = omega arith in
    ap (λ m. lend (split_page (delete_node s node) node.val li m) node li) e'

found-carve_lent :
    (d list_index i a k b : ℕ)
    → i ≡ list_index + d
    → found true (carve d) i a k b ≡ hit k b list_index a
unfolding carve
found-carve_lent zero li i a k b e = let e' : i ≡ li = omega arith in rw e' refl
found-carve_lent (suc d) li zero a k b e = absurd (omega arith)
found-carve_lent (suc d) li (suc i) a k b e =
    omega (arith, found-carve_lent d li i a k b (omega arith))

-- Outside of the block nothing changes.
lend-Agrees :
    (s : BuddyDesc) (i a list_index d : ℕ)
    → i ≡ list_index + d
    → (let node : NodeRef = record { list = i; val = a } in
        AgreesOutside s
          (lend (split_page (delete_node s node) a list_index d) node list_index)
          a
          (a + pages i))
unfolding AgreesOutside
lend-Agrees s i a li d e x out =
    let s1 = delete_node s (record { list = i; val = a }) in
    let inner : (x < a + 1) ⊎ (a + pages i ≤ x) = elim out [
      | inl h ↦ inl (omega arith)
      | inr h ↦ inr h
    ] in
    let ne : x ≢ a = elim out [
      | inl h ↦ (λ eq. omega arith)
      | inr h ↦ (λ eq. omega (arith, pages_pos i))
    ] in
    let kept = split_page-Agrees s1 a li d i e x inner in rw (==_of_ne x a ne) (kept.0, kept.1)

lend-Marked :
    (s : BuddyDesc) (i a list_index d : ℕ)
    → i ≡ list_index + d
    → list_index < 16
    → (let node : NodeRef = record { list = i; val = a } in
        Marked
          (lend (split_page (delete_node s node) a list_index d) node list_index)
          (carve d)
          i
          a)
unfolding Agrees
lend-Marked s i a li d e small =
    let node : NodeRef = record { list = i; val = a } in
    let s1 = delete_node s node in
    let s2 = split_page s1 a li d in
    split_page-Marked s1 (lend s2 node li) a li d i e (rw (==_refl a) ((entry li small).2))
      (λ x h h'. rw (==_of_ne x a (λ eq. omega arith)) (refl, refl))

lend-listed :
    (s : BuddyDesc) (i a list_index d k b : ℕ)
    → i ≡ list_index + d
    → 0 < count a (s.page_list i)
    → (let node : NodeRef = record { list = i; val = a } in
        count b
            ((lend (split_page (delete_node s node) a list_index d) node list_index).page_list k)
          + hit k b i a
        ≡ count b (s.page_list k) + found false (carve d) i a k b)
lend-listed s i a li d k b e free =
    let s1 = delete_node s (record { list = i; val = a }) in
    omega (arith, count-split_page s1 a li d i k b e, count-delete_node s i a k b free)

-- The rows before and after: a free block of order `i` at `a` is carved `d` times, and no other part
-- of the row changes.
pub record Carved (row row' : List Tree) (i a d : ℕ) : Type 0 where
  pub around : Frames i a
  pub before : plug around available ≡ row
  pub after : plug around (carve d) ≡ row'

-- Taking a free block.
pub take_page-IsBuddy :
    (s : BuddyDesc) (row : List Tree) (i a list_index d : ℕ)
    → IsBuddy s row
    → 0 < count a (s.page_list i)
    → i ≡ list_index + d
    → list_index < 16
    → (row' : List Tree) × IsBuddy (take_page s (record { list = i; val = a }) list_index) row'
      × ((k b : ℕ) → found_row true row' 0 k b ≡ found_row true row 0 k b + hit k b list_index a)
      × Carved row row' i a d
take_page-IsBuddy s row i a li d is free e small =
    let loc = locate false row i a (omega (arith, is.listed i a)) in
    let f = loc.frames in
    let node : NodeRef = record { list = i; val = a } in
    let s3 = lend (split_page (delete_node s node) a li d) node li in
    let before =
      (MarkedRow-plug s f available).0 (subst (λ r. MarkedRow s r 0) (sym loc.plugged) is.marked) in
    let count_of = λ (u : Bool) (t : Tree) (k : ℕ) (b : ℕ). found_row-plug u f t k b in
    let count_row = λ (u : Bool) (k : ℕ) (b : ℕ). ap (λ r. found_row u r 0 k b) loc.plugged in
    (
      plug f (carve d),
      subst (λ t. IsBuddy t (plug f (carve d))) (sym (take_page-lend s node li d e))
          (record {
            marked = (MarkedRow-plug s3 f (carve d)).1 (
              lend-Marked s i a li d e small,
              MarkedAround-Agrees s s3 f (lend-Agrees s i a li d e) before.1,
            );
            listed = λ k b. omega (
              arith,
              lend-listed s i a li d k b e free,
              is.listed k b,
              count_of false (carve d) k b,
              count_of false available k b,
              count_row false k b,
            );
          }),
      (λ k b. omega (
        arith,
        count_of true (carve d) k b,
        count_of true available k b,
        count_row true k b,
        found-carve_lent d li i a k b e,
      )),
      record { around = f; before = loc.plugged; after = refl },
    )
