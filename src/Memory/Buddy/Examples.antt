-- ===== src/Memory/Buddy/Examples.antt =====
-- A memory of two blocks of the largest size, and calls on it.
use g_os.Common.{
  List, Option, [], arith, none, refl, some, subst, sym, true, ℕ, ◌*◌, ◌+◌, ◌-◌, ◌<◌, ◌∷◌, ◌≡◌, ◌≤◌,
}
use g_os.Memory.Buddy.{
  BuddyDesc, NodeRef, buddy_alloc_page, buddy_free_page, buddy_init, coalesce, find_list,
  find_order, init_pages, page_size, pages, remove, split_page, take_page,
}
use g_os.Memory.Buddy.Tree.{Tree, available, found_row, hit}
use g_os.Memory.Buddy.Merged.{IsMergedRow, carve-IsMerged}
use g_os.Memory.Buddy.Listed.{IsBuddy, count}
use g_os.Memory.Buddy.Alloc.{Carved, take_page-IsBuddy}
use g_os.Memory.Buddy.Find.{IsLeast, buddy_alloc_page-IsBuddy}
use g_os.Memory.Buddy.Free.{buddy_free_page-IsBuddy, buddy_init-IsBuddy, init-IsMerged}
use g_os.Memory.Buddy.Apart.{Apart}
use g_os.Memory.Buddy.Run.{Run, Run-Apart, Run-Stands, Stands, allocs, boots}

abbrev unset : BuddyDesc
unset = record { page_list = λ i. []; order = λ x. 7; page_list_ref = λ x. none }

abbrev booted : BuddyDesc
booted = buddy_init unset 2

abbrev row : List Tree
row = available ∷ available ∷ []

-- 5000 bytes are two pages: the second of the large blocks, which is at the front, is split.
abbrev node : NodeRef
node = record { list = 10; val = 1024 }

abbrev taken : BuddyDesc
taken = take_page booted node 1

takes_first : buddy_alloc_page 0 booted 5000 ≡ some (4096 * 1024, taken)
unfolding buddy_alloc_page buddy_init take_page init_pages find_order find_list split_page pages
    remove
takes_first = refl

abbrev largest : Option BuddyDesc → List ℕ
largest none = []
largest (some b) = b.page_list 10

-- Eight rounds make it one block again.
frees_it : largest (buddy_free_page 0 taken (4096 * 1024)) ≡ 1024 ∷ 0 ∷ []
unfolding buddy_free_page buddy_init take_page coalesce init_pages split_page pages remove
frees_it = refl

buddy_alloc_page-IsBuddy_example :
    (list_index : ℕ) × (a : ℕ) × (s' : BuddyDesc) × (row' : List Tree) × (buddy_alloc_page 0 booted
        5000
      ≡ some (0 + page_size * a, s'))
    × IsLeast 5000 list_index
    × IsBuddy s' row'
    × ((j b : ℕ) → found_row true row' 0 j b ≡ found_row true row 0 j b + hit j b list_index a)
    × (i : ℕ) × (list_index ≤ i)
    × (i < 11)
    × Carved row row' i a (i - list_index)
unfolding pages
buddy_alloc_page-IsBuddy_example =
    buddy_alloc_page-IsBuddy 0 booted row 5000 10 0 (buddy_init-IsBuddy unset 2) (omega arith)
      (omega arith) (omega arith)

taken-IsBuddy :
    (row' : List Tree) × IsBuddy taken row'
    × ((k b : ℕ) → found_row true row' 0 k b ≡ found_row true row 0 k b + hit k b 1 1024)
    × Carved row row' 10 1024 9
unfolding buddy_init init_pages count
taken-IsBuddy =
    take_page-IsBuddy booted row 10 1024 1 9 (buddy_init-IsBuddy unset 2) (omega arith) refl
      (omega arith)

taken-IsMerged : IsMergedRow (taken-IsBuddy.0)
taken-IsMerged =
    let carved = taken-IsBuddy.3 in
    subst IsMergedRow carved.after
      (carve-IsMerged carved.around 9 (subst IsMergedRow (sym carved.before) (init-IsMerged 2)))

buddy_free_page-IsBuddy_example :
    (s' : BuddyDesc) × (row' : List Tree) × (buddy_free_page 0 taken (0 + page_size * 1024)
      ≡ some s')
    × IsBuddy s' row'
    × ((j b : ℕ)
        → found_row true row' 0 j b + hit j b 1 1024 ≡ found_row true (taken-IsBuddy.0) 0 j b)
    × IsMergedRow row'
buddy_free_page-IsBuddy_example =
    buddy_free_page-IsBuddy 0 taken (taken-IsBuddy.0) 1 1024 (taken-IsBuddy.1) taken-IsMerged
      (omega (arith, taken-IsBuddy.2 1 1024))

abbrev second : NodeRef
second = record { list = 9; val = 1536 }

taken_twice : buddy_alloc_page 0 taken 2000000 ≡ some (4096 * 1536, take_page taken second 9)
unfolding buddy_alloc_page buddy_init take_page init_pages find_order find_list split_page pages
    remove
taken_twice = refl

abbrev run_two :
    Run 0 2 unset
      (take_page taken second 9)
      (λ k b. 0 + hit k b (find_order 11 0 5000) 1024 + hit k b (find_order 11 0 2000000) 1536)
run_two = allocs 2000000 1536 (allocs 5000 1024 boots takes_first) taken_twice

Run-Apart_example : Apart 1 1024 9 1536 × ◌≡◌ {A = ℕ} (0 + hit 1 1024 1 1024 + hit 1 1024 9 1536) 1
unfolding find_order pages
Run-Apart_example = Run-Apart 1 1024 9 1536 run_two (omega arith) (omega arith)

Run-Stands_example :
    Stands
      (take_page taken second 9)
      (λ k b. 0 + hit k b (find_order 11 0 5000) 1024 + hit k b (find_order 11 0 2000000) 1536)
Run-Stands_example = Run-Stands run_two
