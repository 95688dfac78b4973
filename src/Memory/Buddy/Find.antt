-- ===== src/Memory/Buddy/Find.antt =====
-- The searches for the order and for the list of a block, and what `buddy_alloc_page` gives.
use g_os.Common.{
  Bool-cases, List, List-cases, Option-cases, [], ap, arith, false, inl, inr, leb, none,
  none-ne-some, refl, some, some-injective, subst, suc, sym, true, zero, ℕ, ◌*◌, ◌+◌, ◌-◌, ◌<◌, ◌∙◌,
  ◌∷◌, ◌≡◌, ◌≢◌, ◌≤◌, ◌⊎◌,
}
use g_os.Memory.Buddy.{
  BuddyDesc, NodeRef, buddy_alloc_page, find_list, find_order, page_size, pages, take_page,
}
use g_os.Memory.Buddy.Tree.{Tree, found_row, hit}
use g_os.Memory.Buddy.Listed.{IsBuddy, count}
use g_os.Memory.Buddy.Alloc.{Carved, take_page-IsBuddy}

-- The order is the least whose blocks hold `mem_size` bytes, if one of the orders does.
pub record IsLeast (mem_size list_index : ℕ) : Type 0 where
  pub enough : mem_size ≤ page_size * pages list_index
  pub least : (list_index ≡ 0) ⊎ (page_size * pages (list_index - 1) < mem_size)

small_lt : (a b : ℕ) → leb a b ≡ false → b < a
small_lt a b h = ground arith

count-empty : (c : ℕ) (xs : List ℕ) → xs ≡ [] → count c xs ≡ 0
unfolding count
count-empty c xs e = rw e refl

find_order-IsLeast :
    (n i mem_size k : ℕ)
    → i ≤ k
    → k < i + n
    → mem_size ≤ page_size * pages k
    → (i ≡ 0) ⊎ (page_size * pages (i - 1) < mem_size)
    → IsLeast mem_size (find_order n i mem_size) × (find_order n i mem_size ≤ k)
unfolding find_order
find_order-IsLeast zero i m k h h' fits below = absurd (omega arith)
find_order-IsLeast (suc n) i m k h h' fits below = elim (Bool-cases (leb m (page_size * pages i))) [
  | inl enough ↦ rw enough (record { enough = ground arith; least = below }, h)
  | inr small ↦
      let ne : k ≢ i = (λ e.
        omega (arith, small_lt m (page_size * pages i) small, ap (λ t. page_size * pages t) e)) in
      let here : i + 1 - 1 ≡ i = omega arith in
      rw small (
        find_order-IsLeast n (i + 1) m k (omega arith) (omega arith) fits
          (inr (rw here (ground arith))))
]

count-head : (a : ℕ) (xs : List ℕ) → 0 < count a (a ∷ xs)
unfolding count
count-head a xs = ground arith

find_list-empty :
    (s : BuddyDesc) (n i : ℕ) → s.page_list i ≡ [] → find_list s (suc n) i ≡ find_list s n (i + 1)
unfolding find_list
find_list-empty s n i e = rw (find_list, e) refl

find_list-first :
    (s : BuddyDesc) (n i a : ℕ) (xs : List ℕ)
    → s.page_list i ≡ a ∷ xs
    → find_list s (suc n) i ≡ some (record { list = i; val = a })
unfolding find_list
find_list-first s n i a xs e = rw (find_list, e) refl

find_list-finds :
    (s : BuddyDesc) (n i k c : ℕ)
    → i ≤ k
    → k < i + n
    → 0 < count c (s.page_list k)
    → (j : ℕ) × (a : ℕ) × (find_list s n i ≡ some (record { list = j; val = a }))
      × (i ≤ j)
      × (j < i + n)
      × (0 < count a (s.page_list j))
unfolding find_list count
find_list-finds s zero i k c h h' some_free = absurd (omega arith)
find_list-finds s (suc n) i k c h h' some_free = elim (List-cases (s.page_list i)) [
  | inl empty ↦
      let none_in : k ≢ i = (λ e.
        omega (arith, count-empty c (s.page_list i) empty, ap (λ t. count c (s.page_list t)) e)) in
      let (j, a, e, l, l', free) =
        find_list-finds s n (i + 1) k c (omega arith) (omega arith) some_free in
      (j, a, find_list-empty s n i empty ∙ e, omega arith, omega arith, free)
  | inr (a, xs, e) ↦
      (i, a, find_list-first s n i a xs e, omega arith, omega arith, rw e (count-head a xs))
]

alloc-found :
    (start : ℕ) (s : BuddyDesc) (mem_size : ℕ) (node : NodeRef)
    → (let list_index = find_order 11 0 mem_size in
        find_list s (11 - list_index) list_index ≡ some node)
    → buddy_alloc_page start s mem_size
      ≡ some (start + page_size * node.val, take_page s node (find_order 11 0 mem_size))
unfolding buddy_alloc_page
alloc-found start s m node e = rw (buddy_alloc_page, e) refl

alloc-none :
    (start : ℕ) (s : BuddyDesc) (mem_size : ℕ)
    → (let list_index = find_order 11 0 mem_size in find_list s (11 - list_index) list_index ≡ none)
    → buddy_alloc_page start s mem_size ≡ none
unfolding buddy_alloc_page
alloc-none start s m e = rw (buddy_alloc_page, e) refl

-- What has been found is in its list.
find_list-some :
    (s : BuddyDesc) (n i : ℕ) (node : NodeRef)
    → find_list s n i ≡ some node
    → (i ≤ node.list) × (node.list < i + n) × (0 < count node.val (s.page_list node.list))
unfolding find_list
find_list-some s zero i node e = absurd (none-ne-some e)
find_list-some s (suc n) i node e = elim (List-cases (s.page_list i)) [
  | inl empty ↦
      let later = find_list-some s n (i + 1) node (sym (find_list-empty s n i empty) ∙ e) in
      (omega (arith, later.0), omega (arith, later.1), later.2)
  | inr (a, xs, first) ↦
      let found_it = sym (find_list-first s n i a xs first) ∙ e in
      let same : record { list = i; val = a } ≡ node = some-injective found_it in
      subst
        (λ (m : NodeRef).
          (i ≤ m.list) × (m.list < i + suc n) × (0 < count m.val (s.page_list m.list)))
        same (omega arith, omega arith, rw first (count-head a xs))
]

-- A call that succeeds has taken a free block.
pub alloc-takes :
    (start : ℕ) (s s' : BuddyDesc) (mem_size a : ℕ)
    → buddy_alloc_page start s mem_size ≡ some (start + page_size * a, s')
    → (i : ℕ) × (find_order 11 0 mem_size ≤ i)
      × (i < 11)
      × (0 < count a (s.page_list i))
      × (s' ≡ take_page s (record { list = i; val = a }) (find_order 11 0 mem_size))
alloc-takes start s s' m a e =
    let li = find_order 11 0 m in
    elim (Option-cases (find_list s (11 - li) li)) [
      | inl nothing ↦ absurd (none-ne-some (sym (alloc-none start s m nothing) ∙ e))
      | inr (node, here) ↦
          let both = some-injective (sym (alloc-found start s m node here) ∙ e) in
          let at : node.val ≡ a = omega (arith, ap (λ (x : ℕ × BuddyDesc). x.0) both) in
          let place = find_list-some s (11 - li) li node here in
          (
            node.list,
            place.0,
            omega (arith, place.1, place.0),
            subst (λ v. 0 < count v (s.page_list node.list)) at place.2,
            sym (ap (λ (x : ℕ × BuddyDesc). x.1) both)
                ∙ ap (λ v. take_page s (record { list = node.list; val = v }) li) at,
          )
    ]

-- Where the lists and entries are right for the blocks, while a block of a large enough order is free,
-- `buddy_alloc_page` lends a block of the least order
-- that holds `mem_size` bytes: of a free block of this or a larger order, which is halved as long as
-- the half is large enough, the first part is lent and all else is free, and nothing else in the
-- memory is lent or becomes free by it. The lists and entries are right for the blocks that are free
-- afterwards.
pub buddy_alloc_page-IsBuddy :
    (start : ℕ) (s : BuddyDesc) (row : List Tree) (mem_size k c : ℕ)
    → IsBuddy s row
    → k < 11
    → mem_size ≤ page_size * pages k
    → 0 < found_row false row 0 k c
    → (list_index : ℕ) × (a : ℕ) × (s' : BuddyDesc) × (row' : List Tree) × (buddy_alloc_page start s
          mem_size
        ≡ some (start + page_size * a, s'))
      × IsLeast mem_size list_index
      × IsBuddy s' row'
      × ((j b : ℕ) → found_row true row' 0 j b ≡ found_row true row 0 j b + hit j b list_index a)
      × (i : ℕ) × (list_index ≤ i)
      × (i < 11)
      × Carved row row' i a (i - list_index)
buddy_alloc_page-IsBuddy start s row m k c is small fits free =
    let li = find_order 11 0 m in
    let order = find_order-IsLeast 11 0 m k (omega arith) (omega arith) fits (inl refl) in
    let (i, a, e, l, l', some_free) =
      find_list-finds s (11 - li) li k c order.1 (omega (arith, order.1))
        (omega (arith, is.listed k c)) in
    let (row', is', lent', carved) =
      take_page-IsBuddy s row i a li (i - li) is some_free (omega arith) (omega (arith, order.1)) in
    (
      li,
      a,
      take_page s (record { list = i; val = a }) li,
      row',
      alloc-found start s m (record { list = i; val = a }) e,
      order.0,
      is',
      lent',
      i,
      l,
      omega (arith, l', order.1),
      carved,
    )
