-- ===== src/Memory/Buddy/Run.antt =====
-- What a client sees: sequences of calls from `buddy_init` on, and the blocks that it holds.
use g_os.Common.{
  List, arith, refl, replicate, some, subst, suc, sym, true, zero, ℕ, ◌*◌, ◌+◌, ◌-◌, ◌<◌, ◌≡◌,
}
use g_os.Memory.Buddy.{
  BuddyDesc, buddy_alloc_page, buddy_free_page, buddy_init, find_order, page_size,
}
use g_os.Memory.Buddy.Tree.{Tree, available, found_row, hit}
use g_os.Memory.Buddy.Listed.{IsBuddy}
use g_os.Memory.Buddy.Merged.{IsMergedRow, carve-IsMerged}
use g_os.Memory.Buddy.Alloc.{take_page-IsBuddy}
use g_os.Memory.Buddy.Find.{alloc-takes}
use g_os.Memory.Buddy.Free.{buddy_free_page_lem, buddy_init-IsBuddy, init-IsMerged}
use g_os.Memory.Buddy.Apart.{Apart, found_row-Apart, found_row-once}

-- `held` counts the blocks of each order and address that have been given and not been freed. A
-- client frees only what it holds.
pub data Run (start num_entry : ℕ) (unset : BuddyDesc) : BuddyDesc → (ℕ → ℕ → ℕ) → Type 0 where
  boots : Run start num_entry unset (buddy_init unset num_entry) (λ k b. 0)
  allocs :
      {s s' : BuddyDesc} {held : ℕ → ℕ → ℕ} (mem_size a : ℕ)
      → Run start num_entry unset s held
      → buddy_alloc_page start s mem_size ≡ some (start + page_size * a, s')
      → Run start num_entry unset s' (λ k b. held k b + hit k b (find_order 11 0 mem_size) a)
  frees :
      {s s' : BuddyDesc} {held : ℕ → ℕ → ℕ} (k a : ℕ)
      → Run start num_entry unset s held
      → 0 < held k a
      → buddy_free_page start s (start + page_size * a) ≡ some s'
      → Run start num_entry unset s' (λ j b. held j b - hit j b k a)

-- A row for the state that a run reaches: its lists and entries are right for the row, no two free
-- halves of a block are apart, and the held blocks are the allocated ones.
pub record Stands (s : BuddyDesc) (held : ℕ → ℕ → ℕ) : Type 0 where
  pub row : List Tree
  pub buddy : IsBuddy s row
  pub merged : IsMergedRow row
  pub lent_held : (k b : ℕ) → held k b ≡ found_row true row 0 k b

none_lent : (n a k b : ℕ) → found_row true (replicate n available) a k b ≡ 0
none_lent zero a k b = refl
none_lent (suc n) a k b = omega (arith, none_lent n (a + 1024) k b)

allocs-Stands :
    (start : ℕ) (s s' : BuddyDesc) (held : ℕ → ℕ → ℕ) (mem_size a : ℕ)
    → Stands s held
    → buddy_alloc_page start s mem_size ≡ some (start + page_size * a, s')
    → Stands s' (λ k b. held k b + hit k b (find_order 11 0 mem_size) a)
allocs-Stands start s s' held m a st e =
    let (i, l, l', free, step) = alloc-takes start s s' m a e in
    let li = find_order 11 0 m in
    let (row', is', lent', carved) =
      take_page-IsBuddy s st.row i a li (i - li) st.buddy free (omega arith) (omega arith) in
    record {
      row = row';
      buddy = subst (λ t. IsBuddy t row') (sym step) is';
      merged =
          subst IsMergedRow carved.after (
            carve-IsMerged carved.around (i - li)
              (subst IsMergedRow (sym carved.before) st.merged));
      lent_held = λ k b. omega (arith, lent' k b, st.lent_held k b);
    }

frees-Stands :
    (start : ℕ) (s s' : BuddyDesc) (held : ℕ → ℕ → ℕ) (k a : ℕ)
    → Stands s held
    → 0 < held k a
    → buddy_free_page start s (start + page_size * a) ≡ some s'
    → Stands s' (λ j b. held j b - hit j b k a)
frees-Stands start s s' held k a st h e =
    let (s1, row', e', is', lent', merged) =
      buddy_free_page_lem start s st.row k a st.buddy (omega (arith, st.lent_held k a)) in
    let same : s1 ≡ s' = cc in
    record {
      row = row';
      buddy = subst (λ t. IsBuddy t row') same is';
      merged = merged st.merged;
      lent_held = λ j b. omega (arith, lent' j b, st.lent_held j b);
    }

-- Whatever a client allocates and frees, in any order: the memory always stands for a row of blocks,
-- the lists and entries are right for it, the blocks the client holds are the ones that are not free,
-- and no block is left split into two halves that are both free.
pub Run-Stands :
    {start num_entry : ℕ} {unset s : BuddyDesc} {held : ℕ → ℕ → ℕ}
    → Run start num_entry unset s held
    → Stands s held
Run-Stands {start} {num_entry} {unset} boots = record {
  row = replicate num_entry available;
  buddy = buddy_init-IsBuddy unset num_entry;
  merged = init-IsMerged num_entry;
  lent_held = λ k b. omega (arith, none_lent num_entry 0 k b);
}
Run-Stands {start} (allocs m a r e) = allocs-Stands start _ _ _ m a (Run-Stands r) e
Run-Stands {start} (frees k a r h e) = frees-Stands start _ _ _ k a (Run-Stands r) h e

-- Whatever a client allocates and frees, in any order: any two blocks that it holds are the same or
-- do not overlap, and it holds none of them twice.
pub Run-Apart :
    {start num_entry : ℕ} {unset s : BuddyDesc} {held : ℕ → ℕ → ℕ} (k a j b : ℕ)
    → Run start num_entry unset s held
    → 0 < held k a
    → 0 < held j b
    → Apart k a j b × (held k a ≡ 1)
Run-Apart k a j b r h h' =
    let st = Run-Stands r in
    (
      found_row-Apart true st.row k a j b (omega (arith, st.lent_held k a))
          (omega (arith, st.lent_held j b)),
      omega (arith, st.lent_held k a, found_row-once true st.row k a),
    )
