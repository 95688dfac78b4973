-- ===== src/Memory/Buddy/Split.antt =====
-- Splitting a block down to the order that is wanted: its lists and its entries.
use g_os.Common.{
  ==_of_ne, ==_refl, ap, arith, false, inl, inr, refl, subst, suc, zero, ℕ, ◌+◌, ◌<◌, ◌∙◌, ◌≡◌, ◌≢◌,
  ◌≤◌, ◌⊎◌,
}
use g_os.Memory.Buddy.{BuddyDesc, pages, prepend_free, split_page}
use g_os.Memory.Buddy.Bits.{}
use g_os.Memory.Buddy.Tree.{Agrees, Marked, Tree, available, found, lent, pages_pos, split}
use g_os.Memory.Buddy.Frames.{AgreesOutside}
use g_os.Memory.Buddy.Listed.{count, count-prepend_free}

-- What is left of a block when its first part is lent.
unfoldable pub carve : ℕ → Tree
carve zero = lent
carve (suc d) = split (carve d) available

split_page-suc :
    (s : BuddyDesc) (a list_index d i : ℕ)
    → i ≡ list_index + d
    → split_page s a list_index (suc d) ≡ split_page (prepend_free s i (a + pages i)) a list_index d
unfolding split_page
split_page-suc s a li d i e = rw e refl

pub count-split_page :
    (s : BuddyDesc) (a list_index d i k b : ℕ)
    → i ≡ list_index + d
    → count b ((split_page s a list_index d).page_list k)
      ≡ count b (s.page_list k) + found false (carve d) i a k b
unfolding split_page carve
count-split_page s a li zero i k b e = omega arith
count-split_page s a li (suc d) zero k b e = absurd (omega arith)
count-split_page s a li (suc d) (suc i) k b e =
    let same = ap (λ s'. count b (s'.page_list k)) (split_page-suc s a li d i (omega arith)) in
    omega (
      arith,
      same,
      count-split_page (prepend_free s i (a + pages i)) a li d i k b (omega arith),
      count-prepend_free s i (a + pages i) k b,
    )

-- The entries at the start of the block and outside of it stay.
pub split_page-Agrees :
    (s : BuddyDesc) (a list_index d i : ℕ)
    → i ≡ list_index + d
    → AgreesOutside s (split_page s a list_index d) (a + 1) (a + pages i)
unfolding split_page AgreesOutside pages
split_page-Agrees s a li zero i e x out = (refl, refl)
split_page-Agrees s a li (suc d) zero e x out = absurd (omega arith)
split_page-Agrees s a li (suc d) (suc i) e x out =
    let inner : (x < a + 1) ⊎ (a + pages i ≤ x) = elim out [
      | inl h ↦ inl h
      | inr h ↦ inr (omega arith)
    ] in
    let ne : x ≢ (a + pages i) = elim out [
      | inl h ↦ (λ eq. omega (arith, pages_pos i))
      | inr h ↦ (λ eq. omega (arith, pages_pos i))
    ] in
    let other = ==_of_ne x (a + pages i) ne in
    let later = split_page-Agrees (prepend_free s i (a + pages i)) a li d i (omega arith) x inner in
    rw (split_page-suc s a li d i (omega arith)) (later.0 ∙ rw other refl, later.1 ∙ rw other refl)

-- With the entry of the first part written, the parts are marked.
pub split_page-Marked :
    (s s' : BuddyDesc) (a list_index d i : ℕ)
    → i ≡ list_index + d
    → s'.order a ≡ list_index + 16
    → Agrees (split_page s a list_index d) s' (a + 1) (a + pages i)
    → Marked s' (carve d) i a
unfolding split_page Agrees AgreesOutside pages carve Marked
split_page-Marked s s' a li zero i e o same = omega arith
split_page-Marked s s' a li (suc d) zero e o same = absurd (omega arith)
split_page-Marked s s' a li (suc d) (suc i) e o same =
    let s1 = prepend_free s i (a + pages i) in
    let e' : i ≡ li + d = omega arith in
    let step = split_page-suc s a li d i e' in
    let here = same (a + pages i) (omega (arith, pages_pos i)) (omega (arith, pages_pos i)) in
    let kept = split_page-Agrees s1 a li d i e' (a + pages i) (inr (omega arith)) in
    let put = ==_refl (a + pages i) in
    (
      split_page-Marked s1 s' a li d i e' o (λ x h h'.
          subst (λ t. (s'.order x ≡ t.order x) × (s'.page_list_ref x ≡ t.page_list_ref x)) step
            (same x h (omega arith))),
      (
        here.0 ∙ ap (λ t. t.order (a + pages i)) step ∙ kept.0 ∙ rw put refl,
        inr (here.1 ∙ ap (λ t. t.page_list_ref (a + pages i)) step ∙ kept.1 ∙ rw put refl),
      ),
    )
