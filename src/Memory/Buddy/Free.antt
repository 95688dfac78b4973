-- ===== src/Memory/Buddy/Free.antt =====
-- Freeing a block, and the buddy that `buddy_init` sets up.
use g_os.Common.{
  ==_of_ne, ==_refl, Bool, List, [], ap, arith, false, inl, inr, none, refl, replicate, some, subst,
  suc, sym, true, zero, ℕ, ◌*◌, ◌+◌, ◌-◌, ◌/◌, ◌<◌, ◌∙◌, ◌∷◌, ◌≡◌, ◌≢◌,
}
use g_os.Memory.Buddy.{
  BuddyDesc, buddy_free_page, buddy_init, coalesce, init_pages, page_size, prepend_free, write,
}
use g_os.Memory.Buddy.Bits.{entry}
use g_os.Memory.Buddy.Tree.{Marked, MarkedRow, Tree, available, found_row, hit, lent, pages_pos}
use g_os.Memory.Buddy.Frames.{
  AgreesOutside, Frames, MarkedAround-Agrees, MarkedRow-plug, found_row-plug, locate, plug,
}
use g_os.Memory.Buddy.Merged.{IsMerged, IsMergedRow, MergedAround-unplug, plug-IsMerged}
use g_os.Memory.Buddy.Listed.{IsBuddy, count, count-prepend_free}
use g_os.Memory.Buddy.Coalesce.{Frames-small, IsPending, coalesce-Ends}

-- What has been coalesced is put into its list.
prepend_free-IsBuddy :
    (s : BuddyDesc) (i a : ℕ) (f : Frames i a)
    → IsPending s f
    → IsBuddy (prepend_free s i a) (plug f available)
unfolding AgreesOutside Marked
prepend_free-IsBuddy s i a f p =
    let s' = prepend_free s i a in
    let around =
      MarkedAround-Agrees s s' f
        (λ x out.
          let ne : x ≢ a = elim out [
            | inl h ↦ (λ e. omega arith)
            | inr h ↦ (λ e. omega (arith, pages_pos i))
          ] in
          rw (==_of_ne x a ne) (refl, refl))
        p.marked in
    record {
      marked =
          (MarkedRow-plug s' f available).1
            ((rw (==_refl a) refl, inr (rw (==_refl a) refl)), around);
      listed = λ k b.
          omega (
            arith,
            count-prepend_free s i a k b,
            p.listed k b,
            found_row-plug false f available k b,
          );
    }

free-page :
    (start : ℕ) (s : BuddyDesc) (k a : ℕ)
    → k < 11
    → s.order a ≡ k + 16
    → buddy_free_page start s (start + page_size * a) ≡ (
        let c = coalesce s a k (10 - k) in
        some (prepend_free c.buddy c.free_page_order c.free_page_addr))
unfolding buddy_free_page
free-page start s k a small e =
    let at : (start + page_size * a - start) / page_size ≡ a = omega arith in
    let value = entry k (omega arith) in rw (buddy_free_page, at, e, value.3, value.4) refl

-- The call, whether or not free halves were apart before.
pub buddy_free_page_lem :
    (start : ℕ) (s : BuddyDesc) (row : List Tree) (k a : ℕ)
    → IsBuddy s row
    → 0 < found_row true row 0 k a
    → (s' : BuddyDesc) × (row' : List Tree) × (buddy_free_page start s (start + page_size * a)
        ≡ some s')
      × IsBuddy s' row'
      × ((j b : ℕ) → found_row true row' 0 j b + hit j b k a ≡ found_row true row 0 j b)
      × (IsMergedRow row → IsMergedRow row')
unfolding Marked IsMerged
buddy_free_page_lem start s row k a is held =
    let loc = locate true row k a held in
    let f = loc.frames in
    let before =
      (MarkedRow-plug s f lent).0 (subst (λ r. MarkedRow s r 0) (sym loc.plugged) is.marked) in
    let small = Frames-small f in
    let count_row = λ (u : Bool) (j : ℕ) (b : ℕ). ap (λ r. found_row u r 0 j b) loc.plugged in
    let pending : IsPending s f = record {
      marked = before.1;
      listed =
          λ j b. omega (arith, is.listed j b, found_row-plug false f lent j b, count_row false j b);
    } in
    let c = coalesce s a k (10 - k) in
    let ends = coalesce-Ends (10 - k) s k a f (omega arith) pending in
    (
      prepend_free c.buddy c.free_page_order c.free_page_addr,
      plug ends.frames available,
      free-page start s k a (omega arith) before.0,
      prepend_free-IsBuddy c.buddy c.free_page_order c.free_page_addr ends.frames ends.pending,
      (λ j b. omega (
        arith,
        found_row-plug true ends.frames available j b,
        found_row-plug true f lent j b,
        count_row true j b,
        ends.lent_around j b,
      )),
      (λ merged.
          let whole = subst IsMergedRow (sym loc.plugged) merged in
          plug-IsMerged ends.frames available (ends.merged (MergedAround-unplug f lent whole).0) tt
            ends.apart),
    )

-- `buddy_free_page` of a block that is allocated, by the address that `buddy_alloc_page` has given,
-- where the lists and entries are right for the blocks and no two free halves of a block have been
-- left apart: it does not panic, this block and no other
-- is not allocated any more, and the lists and entries are right for what is free then, in which
-- again no two free halves of a block are left apart, so that the block is made one with its free
-- neighbours as far as that goes.
pub buddy_free_page-IsBuddy :
    (start : ℕ) (s : BuddyDesc) (row : List Tree) (k a : ℕ)
    → IsBuddy s row
    → IsMergedRow row
    → 0 < found_row true row 0 k a
    → (s' : BuddyDesc) × (row' : List Tree) × (buddy_free_page start s (start + page_size * a)
        ≡ some s')
      × IsBuddy s' row'
      × ((j b : ℕ) → found_row true row' 0 j b + hit j b k a ≡ found_row true row 0 j b)
      × IsMergedRow row'
buddy_free_page-IsBuddy start s row k a is merged held =
    let (s', row', e, is', lent', kept) = buddy_free_page_lem start s row k a is held in
    (s', row', e, is', lent', kept merged)

-- The blocks are put in from the lowest address on.
init-below :
    (s : BuddyDesc) (n a x : ℕ)
    → x < a
    → ((init_pages s n a).order x ≡ s.order x)
      × ((init_pages s n a).page_list_ref x ≡ s.page_list_ref x)
unfolding init_pages
init-below s zero a x h = (refl, refl)
init-below s (suc n) a x h =
    let later =
      init-below
        (record {
          page_list = write s.page_list 10 (a ∷ s.page_list 10);
          order = write s.order a 10;
          page_list_ref = write s.page_list_ref a none;
        })
        n (a + 1024) x (omega arith) in
    let ne = ==_of_ne x a (λ e. omega arith) in (later.0 ∙ rw ne refl, later.1 ∙ rw ne refl)

init-IsBuddy :
    (s : BuddyDesc) (n a : ℕ)
    → MarkedRow (init_pages s n a) (replicate n available) a
      × ((k b : ℕ)
          → count b ((init_pages s n a).page_list k)
            ≡ count b (s.page_list k) + found_row false (replicate n available) a k b)
unfolding init_pages MarkedRow Marked count
init-IsBuddy s zero a = (tt, λ k b. omega arith)
init-IsBuddy s (suc n) a =
    let s' : BuddyDesc = record {
      page_list = write s.page_list 10 (a ∷ s.page_list 10);
      order = write s.order a 10;
      page_list_ref = write s.page_list_ref a none;
    } in
    let later = init-IsBuddy s' n (a + 1024) in
    let kept = init-below s' n (a + 1024) a (omega arith) in
    (
      ((kept.0 ∙ rw (==_refl a) refl, inl (omega arith)), later.0),
      (λ k b. ground (arith, later.1 k b)),
    )

-- After `buddy_init` every block of the largest size is free.
pub buddy_init-IsBuddy :
    (unset : BuddyDesc) (num_entry : ℕ)
    → IsBuddy (buddy_init unset num_entry) (replicate num_entry available)
unfolding buddy_init count
buddy_init-IsBuddy unset n =
    let all = init-IsBuddy (record unset { page_list = λ i. [] }) n 0 in
    record { marked = all.0; listed = λ k b. omega (arith, all.1 k b) }

-- No block is split yet.
pub init-IsMerged : (n : ℕ) → IsMergedRow (replicate n available)
unfolding IsMergedRow IsMerged
init-IsMerged zero = tt
init-IsMerged (suc n) = (tt, init-IsMerged n)
