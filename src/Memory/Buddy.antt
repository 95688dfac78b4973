-- ===== src/Memory/Buddy.antt =====
-- memory_manager/buddy.c: blocks of 1 << i pages, split and coalesced. Addresses inside the buddy
-- memory are multiples of PAGE_SIZE and are counted in pages here, so that BLOCK_INDEX is the number
-- itself.
pub mod Bits
pub mod Tree
pub mod Frames
pub mod Listed
pub mod Split
pub mod Merged
pub mod Alloc
pub mod Find
pub mod Coalesce
pub mod Free
pub mod Apart
pub mod Run
mod Examples
use g_os.Common.{
  Bool, List, Option, [], false, if◌then◌else◌, leb, none, some, suc, true, zero, ℕ, ◌&&◌, ◌*◌, ◌+◌,
  ◌-◌, ◌/◌, ◌==◌, ◌∷◌,
}
use Prim.Native.Nat.{bit_and, bit_or, bit_xor}

abbrev pub page_size : ℕ
page_size = 4096

abbrev pub num_list : ℕ
num_list = 11

-- `1 << i`
pub pages : ℕ → ℕ
pages zero = 1
pages (suc i) = pages i + pages i

-- A pointer to a node: the list in which the node has been put, and the address in its bucket.
pub record NodeRef : Type 0 where
  pub list : ℕ
  pub val : ℕ

-- `page_list` gives the addresses in the buckets of a list, from its first node on; `order` and
-- `page_list_ref` go by the block index.
pub record BuddyDesc : Type 0 where
  pub page_list : ℕ → List ℕ
  pub order : ℕ → ℕ
  pub page_list_ref : ℕ → Option NodeRef

abbrev pub write {ℓ} : {A : Type ℓ} → (ℕ → A) → ℕ → A → ℕ → A
write f a v x = if x == a then v else f x

pub remove : ℕ → List ℕ → List ℕ
remove a [] = []
remove a (x ∷ xs) = if x == a then xs else x ∷ remove a xs

-- `ll_delete_node`
abbrev pub delete_node : BuddyDesc → NodeRef → BuddyDesc
delete_node b n = record b {
  page_list = write b.page_list n.list (remove n.val (b.page_list n.list));
}

-- `ll_prepend` of a bucket with the address `a`, and the entries that point to its node.
abbrev pub prepend_free : BuddyDesc → (i a : ℕ) → BuddyDesc
prepend_free b i a = record b {
  page_list = write b.page_list i (a ∷ b.page_list i);
  order = write b.order a i;
  page_list_ref = write b.page_list_ref a (some (record { list = i; val = a }));
}

-- The first loop: the list for `mem_size`, or NUM_LIST.
pub find_order : (rounds list_index mem_size : ℕ) → ℕ
find_order zero i mem_size = i
find_order (suc n) i mem_size =
    let later = find_order n (i + 1) mem_size in
    if leb mem_size (page_size * pages i) then i else later

-- The second loop: the first list from there on that is not empty.
pub find_list : (b : BuddyDesc) (rounds next_list_index : ℕ) → Option NodeRef
find_list b zero i = none
find_list b (suc n) i = elim (b.page_list i) [
  | [] ↦ find_list b n (i + 1)
  | a ∷ _ ↦ some (record { list = i; val = a })
]

-- The third loop: `rounds` halves above `list_index` are put into their lists.
pub split_page : BuddyDesc → (page_addr list_index rounds : ℕ) → BuddyDesc
split_page b a list_index zero = b
split_page b a list_index (suc d) =
    split_page (prepend_free b (list_index + d) (a + pages (list_index + d))) a list_index d

pub take_page : BuddyDesc → NodeRef → (list_index : ℕ) → BuddyDesc
unfolding split_page remove
take_page b node list_index =
    let b' = split_page (delete_node b node) node.val list_index (node.list - list_index) in
    record b' {
      order = write b'.order node.val (bit_or list_index 16);
      page_list_ref = write b'.page_list_ref node.val (some node);
    }

-- `start` is BUDDY_START_ADDR + VIRT_MEM_START_ADDR; `none` is the call of `panic`.
pub buddy_alloc_page : (start : ℕ) → BuddyDesc → (mem_size : ℕ) → Option (ℕ × BuddyDesc)
unfolding find_order find_list take_page
buddy_alloc_page start b mem_size =
    let list_index = find_order num_list 0 mem_size in
    elim (find_list b (num_list - list_index) list_index) [
      | none ↦ none
      | some node ↦ some (start + page_size * node.val, take_page b node list_index)
    ]

-- Where the loop of `buddy_free_page` ends.
pub record Coalesced : Type 0 where
  pub buddy : BuddyDesc
  pub free_page_addr : ℕ
  pub free_page_order : ℕ

abbrev pub can_coalesce : BuddyDesc → (buddy_page_addr i : ℕ) → Bool
can_coalesce b a i =
    bit_and (b.order a) 15 == i
    && bit_and (b.order a) 16 == 0
    && elim (b.page_list_ref a) [ none ↦ false | some _ ↦ true ]

-- The body of the loop, when the neighbour is free: its node and its entries go, and `page_addr`
-- becomes the lower of both.
abbrev pub merge : BuddyDesc → (page_addr buddy_page_addr : ℕ) → BuddyDesc
merge b a a' =
    let found : BuddyDesc = elim (b.page_list_ref a') [
      | none ↦ b
      | some node ↦ delete_node b node
    ] in
    let order = write found.order a' 0 in
    let low = bit_and (bit_and a a') a' in
    record found {
      order = write order low (bit_and (order low) 15);
      page_list_ref = write found.page_list_ref a' none;
    }

-- `rounds` is `NUM_LIST - 1 - i`.
pub coalesce : BuddyDesc → (page_addr i rounds : ℕ) → Coalesced
unfolding remove
coalesce b a i zero = record { buddy = b; free_page_addr = a; free_page_order = i }
coalesce b a i (suc n) =
    let a' = bit_xor a (pages i) in
    let later = coalesce (merge b a a') (bit_and (bit_and a a') a') (suc i) n in
    if can_coalesce b a' i
    then later
    else record { buddy = b; free_page_addr = a; free_page_order = i }

pub buddy_free_page : (start : ℕ) → BuddyDesc → (to_free_page_addr : ℕ) → Option BuddyDesc
unfolding coalesce
buddy_free_page start b to_free =
    let a = (to_free - start) / page_size in
    let list_index = bit_and (b.order a) 15 in
    let c = coalesce b a list_index (10 - list_index) in
    if bit_and (b.order a) 16 == 0
    then none
    else some (prepend_free c.buddy c.free_page_order c.free_page_addr)

-- `buddy_init`: the lists are empty, then `num_entry` blocks of the largest size are put into the
-- last one. `unset` is what the arrays hold before.
pub init_pages : BuddyDesc → (rounds mem_addr : ℕ) → BuddyDesc
init_pages b zero a = b
init_pages b (suc n) a =
    init_pages
      (record {
        page_list = write b.page_list 10 (a ∷ b.page_list 10);
        order = write b.order a 10;
        page_list_ref = write b.page_list_ref a none;
      })
      n (a + 1024)

pub buddy_init : (unset : BuddyDesc) (num_entry : ℕ) → BuddyDesc
unfolding init_pages
buddy_init unset num_entry = init_pages (record unset { page_list = λ i. [] }) num_entry 0
