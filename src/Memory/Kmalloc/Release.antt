-- ===== src/Memory/Kmalloc/Release.antt =====
-- What `kmalloc` lends and `kfree` takes back.
use mathlib.Core.List.{Mem, mem-append_right, mem-cons_self}
use g_os.Common.{
  ==_of_ne, Bool-cases, List, Option-cases, arith, dec_lt, false, inl, inr, ltb, none, refl, some,
  suc, sym, true, zero, ℕ, ℕ_discrete, ◌&&◌, ◌*◌, ◌++◌, ◌+◌, ◌-◌, ◌<◌, ◌==◌, ◌^◌, ◌∙◌, ◌∷◌, ◌≡◌,
  ◌≤◌, ◌⊎◌,
}
use g_os.Memory.FixedSize.{a_fixed_size_alloc, a_fixed_size_free, header, stride}
use g_os.Memory.FixedSize.Ownership.{
  alloc-IsPool, alloc-count, alloc_exhausted, free-IsPool, lent_in_order, lent_once,
}
use g_os.Memory.FixedSize.Trace.{}
use g_os.Memory.Kmalloc.{
  Pools, kfree, kmalloc, mem_start_addr, mem_to_pool, offset_loop, pool_num, pool_of_size,
  pool_offset, set_pool, virt_mem_start_addr,
}
use g_os.Memory.Kmalloc.SizeClass.{pool_of_size-fits}
use g_os.Memory.Kmalloc.Arena.{
  IsArena, Lent, blocks_of, lent_within, pool_base, set_lent, set_pool-IsArena,
}

-- The loop of `kfree` stops at the pool whose range holds the offset.
offset_loop-at :
    (f k i offset : ℕ)
    → k ≤ i
    → i < k + f
    → i * mem_to_pool < offset
    → offset ≤ (i + 1) * mem_to_pool
    → offset_loop f k offset ≡ some i
unfolding offset_loop
offset_loop-at zero k i offset low high more less = absurd (omega arith)
offset_loop-at (suc f) k i offset low high more less = elim (dec_lt k i) [
  | yes l ↦
      let on : ltb ((k + 1) * mem_to_pool) offset ≡ true = ground arith in
      rw on (offset_loop-at f (k + 1) i offset (omega arith) (omega arith) more less)
  | no n ↦
      let same : k ≡ i = omega arith in
      let stop : ltb ((i + 1) * mem_to_pool) offset ≡ false = ground arith in rw (same, stop) refl
]

-- `kfree` of a block that the pool `i` has lent gives it back to that pool, and every block that
-- was lent besides stays lent.
pub kfree-IsArena :
    (ps : Pools) (lent : Lent) (i : ℕ) (ys : List ℕ) (a : ℕ) (zs : List ℕ)
    → IsArena ps lent
    → i < pool_num
    → lent i ≡ ys ++ a ∷ zs
    → (ps' : Pools) × (kfree ps (a + header) ≡ some ps') × IsArena ps' (set_lent lent i (ys ++ zs))
unfolding kfree
kfree-IsArena ps lent i ys a zs v h e =
    let held : Mem a (lent i) = rw e (mem-append_right ys mem-cons_self) in
    let (low, high) = lent_within ps lent i a v h held in
    let offset : pool_offset (a + header) ≡ a + header - (virt_mem_start_addr + mem_start_addr) =
      omega arith in
    let at : offset_loop 4096 0 (pool_offset (a + header)) ≡ some i =
      offset_loop-at 4096 0 i (pool_offset (a + header)) (omega arith) (omega arith) (omega arith)
        (omega arith) in
    let inside : ltb i pool_num ≡ true = ground arith in
    let (size, pool) = v i h in
    let (kept, pool') = free-IsPool (ps i) (pool_base i) (blocks_of i) ys a zs (rw e at pool) in
    (
      set_pool ps i (a_fixed_size_free (ps i) (a + header)),
      rw (at, inside, kfree) refl,
      set_pool-IsArena ps lent i (a_fixed_size_free (ps i) (a + header)) (ys ++ zs) v
          (kept ∙ size, pool'),
    )

-- Two lent blocks, of whatever pools, share no byte: the lower one ends before the higher begins.
pub arena_apart :
    (ps : Pools) (lent : Lent) (i j a b : ℕ)
    → IsArena ps lent
    → i < pool_num
    → j < pool_num
    → Mem a (lent i)
    → Mem b (lent j)
    → a < b
    → a + stride (2 ^ (2 + i)) ≤ b
arena_apart ps lent i j a b v hi hj ma mb lt =
    let (low_a, high_a) = lent_within ps lent i a v hi ma in
    let (low_b, high_b) = lent_within ps lent j b v hj mb in
    elim (ℕ_discrete i j) [
      | yes e ↦
          let (size, pool) = v i hi in
          rw (sym size)
            (lent_in_order (ps i) (pool_base i) (blocks_of i) (lent i) a b pool ma (rw e mb) lt)
      | no n ↦ elim (dec_lt i j) [ yes l ↦ omega arith | no m ↦ absurd (omega arith) ]
    ]

spare_left : (i c d : ℕ) → d ≡ c - 1 → (i ≡ 6 → 100 < c) → (i == 6 && ltb d 100) ≡ false
spare_left i c d e h = elim (ℕ_discrete i 6) [
  | yes same ↦ let big = h same in ground arith
  | no n ↦ rw (==_of_ne i 6 n) refl
]

-- For a request of at most 131072 bytes, where the pools are right for the blocks that are lent, and
-- while the pool chosen has a free block, and 101 of them if it is the pool of 256 bytes, `kmalloc`
-- lends a block of it that nobody holds: the blocks of this pool hold `mem_size` bytes, and it is the
-- first pool or those of the pool before it do not. The pools are right for the blocks lent then.
pub kmalloc-IsArena :
    (ps : Pools) (lent : Lent) (x : ℕ)
    → IsArena ps lent
    → x ≤ 131072
    → 0 < (ps (pool_of_size x)).current_free_block
    → (pool_of_size x ≡ 6 → 100 < (ps (pool_of_size x)).current_free_block)
    → let i = pool_of_size x in
      (a : ℕ) × (ps' : Pools) × (kmalloc ps x ≡ some (a + header, ps'))
      × (x ≤ 2 ^ (2 + i))
      × ((i ≡ 0) ⊎ (2 ^ (1 + i) < x))
      × (¬ Mem a (lent i))
      × IsArena ps' (set_lent lent i (a ∷ lent i))
unfolding kmalloc
kmalloc-IsArena ps lent x v le free spare =
    let i = pool_of_size x in
    let (inside, fits) = (pool_of_size-fits x).0 le in
    let (size, pool) = v i inside in
    let (a, p, e, same, pool') =
      alloc-IsPool (ps i) (pool_base i) (blocks_of i) (lent i) pool free in
    let count = alloc-count (ps i) (a + header) p e in
    let in_pool : (i == pool_num) ≡ false = ==_of_ne i pool_num (omega arith) in
    let kept : (i == 6 && ltb p.current_free_block 100) ≡ false =
      spare_left i (ps i).current_free_block p.current_free_block count spare in
    (
      a,
      set_pool ps i p,
      rw (in_pool, e, kept) refl,
      fits,
      elim (ℕ_discrete i 0) [
        | yes first ↦ inl first
        | no later ↦ inr ((pool_of_size-fits x).1 (omega arith))
      ],
      lent_once p (pool_base i) (blocks_of i) a (lent i) pool',
      set_pool-IsArena ps lent i p (a ∷ lent i) v (same ∙ size, pool'),
    )

-- `kmalloc` panics at a request of more than 131072 bytes, at an exhausted pool, and when it has
-- taken a block of 256 bytes and fewer than 100 are left.
pub kmalloc_panics :
    (ps : Pools) (x : ℕ)
    → let i = pool_of_size x in
      (131072 < x → kmalloc ps x ≡ none)
      × ((ps i).current_free_block ≡ 0 → kmalloc ps x ≡ none)
      × (i ≡ 6 → (ps i).current_free_block ≤ 100 → kmalloc ps x ≡ none)
unfolding kmalloc
kmalloc_panics ps x = (
  λ h. rw ((pool_of_size-fits x).2 h, kmalloc) refl,
  λ h. elim (Bool-cases (pool_of_size x == pool_num)) [
    | inl e ↦ rw (e, kmalloc) refl
    | inr e ↦ rw (e, alloc_exhausted (ps (pool_of_size x)) h, kmalloc) refl
  ],
  λ e h. elim (Option-cases (a_fixed_size_alloc (ps (pool_of_size x)))) [
    | inl f ↦ rw (==_of_ne (pool_of_size x) pool_num (omega arith), f, kmalloc) refl
    | inr ((a, p), f) ↦
        let count = alloc-count (ps (pool_of_size x)) a p f in
        let few : (pool_of_size x == 6 && ltb p.current_free_block 100) ≡ true = ground arith in
        rw (==_of_ne (pool_of_size x) pool_num (omega arith), f, few, kmalloc) refl
  ],
)
