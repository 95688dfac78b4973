-- ===== src/Memory/Buddy/Listed.antt =====
-- The lists as bags of addresses, and the invariant of the allocator.
use g_os.Common.{List, [], arith, false, if◌then◌else◌, ℕ, ◌+◌, ◌<◌, ◌==◌, ◌∷◌, ◌≡◌}
use g_os.Memory.Buddy.{BuddyDesc, delete_node, prepend_free, remove}
use g_os.Memory.Buddy.Bits.{}
use g_os.Memory.Buddy.Tree.{MarkedRow, Tree, found_row, hit}
use g_os.Memory.Buddy.Frames.{}

unfoldable pub count : ℕ → List ℕ → ℕ
count b [] = 0
count b (x ∷ xs) = (if x == b then 1 else 0) + count b xs

-- The buddy stands for the row: the marks are right, and a block is free exactly if it is in the
-- list of its order, once.
pub record IsBuddy (s : BuddyDesc) (row : List Tree) : Type 0 where
  pub marked : MarkedRow s row 0
  pub listed : (k b : ℕ) → count b (s.page_list k) ≡ found_row false row 0 k b

pub count-remove :
    (a b : ℕ) (xs : List ℕ)
    → 0 < count a xs
    → count b (remove a xs) + (if a == b then 1 else 0) ≡ count b xs
unfolding count remove
count-remove a b [] h = absurd (omega arith)
count-remove a b (x ∷ xs) h = ground (arith, count-remove a b xs)

pub count-delete_node :
    (s : BuddyDesc) (i a k b : ℕ)
    → 0 < count a (s.page_list i)
    → count b ((delete_node s (record { list = i; val = a })).page_list k) + hit k b i a
      ≡ count b (s.page_list k)
count-delete_node s i a k b h = ground (arith, count-remove a b (s.page_list i) h)

pub count-prepend_free :
    (s : BuddyDesc) (i a k b : ℕ)
    → count b ((prepend_free s i a).page_list k) ≡ count b (s.page_list k) + hit k b i a
unfolding count
count-prepend_free s i a k b = ground arith
