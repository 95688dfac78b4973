-- ===== src/Memory/Kmalloc.antt =====
-- memory_manager/kmalloc.c: sixteen pools of blocks of 4 to 131072 bytes, side by side, and the
-- aligned allocations on top of them.
pub mod SizeClass
pub mod Arena
pub mod Release
pub mod Aligned
mod Examples
use g_os.Common.{
  Option, if◌then◌else◌, in_range, leb, ltb, map, none, some, suc, zero, ℕ, ◌%◌, ◌&&◌, ◌*◌, ◌+◌,
  ◌-◌, ◌/◌, ◌==◌, ◌^◌,
}
use g_os.Memory.FixedSize.{Pool, a_fixed_size_alloc, a_fixed_size_free, a_fixed_size_init}
use g_os.DataTypes.Hashtable.{Hashtable, hashtable_put, hashtable_remove}

-- include/memory_manager/general.h and include/virtual_memory/vm.h
abbrev pub mem_start_addr : ℕ
mem_start_addr = 0x170_0000

abbrev pub mem_end_addr : ℕ
mem_end_addr = 0xc80_0000

abbrev pub pool_num : ℕ
pool_num = 16

-- `((POOL_END_ADDR - POOL_START_ADDR)/POOL_NUM)`, where `POOL_END_ADDR` is
-- `(POOL_START_ADDR + ((ALLOCATED_MEM/10)-1))`.
abbrev pub mem_to_pool : ℕ
mem_to_pool = ((mem_end_addr - mem_start_addr) / 10 - 1) / pool_num

abbrev pub virt_mem_start_addr : ℕ
virt_mem_start_addr = 0xc000_0000

-- `a_fixed_size_desc[]`
abbrev pub Pools : Type 0
Pools = ℕ → Pool

abbrev pub set_pool : Pools → ℕ → Pool → Pools
set_pool ps i p j = if i == j then p else ps j

-- The loop of `init_kmallocs`, from the pool `i` on.
init_pools : (rounds i mem_addr : ℕ) → Pools → Pools
init_pools zero i mem_addr ps = ps
init_pools (suc r) i mem_addr ps =
    let next = mem_addr + mem_to_pool in
    init_pools r (i + 1) next
      (set_pool ps i (a_fixed_size_init (ps i) (2 ^ (2 + i)) next mem_to_pool))

pub init_kmallocs : Pools → Pools
unfolding init_pools
init_kmallocs ps = init_pools pool_num 0 (mem_start_addr + virt_mem_start_addr - mem_to_pool) ps

-- The loop of `kmalloc`: the first pool whose blocks are large enough, or `pool_num`.
pub pool_loop : (rounds i mem_size : ℕ) → ℕ
pool_loop zero i mem_size = i
pool_loop (suc r) i mem_size =
    let later = pool_loop r (i + 1) mem_size in if leb mem_size (2 ^ (2 + i)) then i else later

pub pool_of_size : ℕ → ℕ
pool_of_size mem_size = pool_loop pool_num 0 mem_size

-- `none` is a call of `panic`: too large a request, an exhausted pool, or fewer than 100 blocks left
-- of 256 bytes.
pub kmalloc : Pools → (mem_size : ℕ) → Option (ℕ × Pools)
kmalloc ps mem_size =
    let i = pool_of_size mem_size in
    if i == pool_num then none else elim (a_fixed_size_alloc (ps i)) [
      | none ↦ none
      | some (address, p) ↦
          if i == 6 && ltb p.current_free_block 100 then none else some (address, set_pool ps i p)
    ]

-- The `switch` of `_kmalloc`, with `pool_num` for its `default`.
pub pool_switch : ℕ → ℕ
pool_switch x =
    if in_range 0 4 x
    then 0
    else if in_range 5 8 x
    then 1
    else if in_range 9 16 x
    then 2
    else if in_range 17 32 x
    then 3
    else if in_range 33 64 x
    then 4
    else if in_range 65 128 x
    then 5
    else if in_range 129 256 x
    then 6
    else if in_range 257 512 x
    then 7
    else if in_range 513 1024 x
    then 8
    else if in_range 1025 2048 x
    then 9
    else if in_range 2049 4096 x
    then 10
    else if in_range 4097 8192 x
    then 11
    else if in_range 8193 16384 x
    then 12
    else if in_range 16385 32768 x
    then 13
    else if in_range 32769 65536 x
    then 14
    else if in_range 65537 131072 x
    then 15
    else 16

-- `address-VIRT_MEM_START_ADDR-POOL_START_ADDR`, which wraps at 2 ^ 32.
abbrev pub pool_offset : ℕ → ℕ
pool_offset address = (address + 2 ^ 32 - (virt_mem_start_addr + mem_start_addr)) % 2 ^ 32

-- The loop of `kfree`, with fuel; `none` is where the fuel runs out.
pub offset_loop : (fuel pool_index offset : ℕ) → Option ℕ
offset_loop zero k offset = none
offset_loop (suc f) k offset =
    let later = offset_loop f (k + 1) offset in
    if ltb ((k + 1) * mem_to_pool) offset then later else some k

-- 2 ^ 12 rounds reach past every offset. `none` is an index past the end of `a_fixed_size_desc`.
pub kfree : Pools → (address : ℕ) → Option Pools
kfree ps address = elim (offset_loop 4096 0 (pool_offset address)) [
  | none ↦ none
  | some k ↦
      if ltb k pool_num then some (set_pool ps k (a_fixed_size_free (ps k) address)) else none
]

-- The loop of `kfree_mem`.
free_blocks : (rounds i : ℕ) → Pools → ℕ
free_blocks zero i ps = 0
free_blocks (suc r) i ps = (ps i).current_free_block + free_blocks r (i + 1) ps

pub kfree_mem : Pools → ℕ
unfolding free_blocks
kfree_mem ps = free_blocks pool_num 0 ps

-- `ALIGNED_TO_OFFSET`
abbrev pub aligned_to_offset : (address offset : ℕ) → ℕ
aligned_to_offset address offset = address + offset - address % offset

-- The pools and `aligned_address_map`. The nodes of the map are allocated by `hashtable_put` itself
-- and are no part of this state.
pub record Kernel : Type 0 where
  pub pools : Pools
  pub aligned_address_map : Hashtable

pub aligned_kmalloc : Kernel → (mem_size alignment : ℕ) → Option (ℕ × Kernel)
aligned_kmalloc k mem_size alignment = elim (kmalloc k.pools ((mem_size + alignment) % 2 ^ 32)) [
  | none ↦ none
  | some (address, ps) ↦
      let aligned = aligned_to_offset address alignment in
      elim (hashtable_put 2 k.aligned_address_map aligned address) [
        | none ↦ none
        | some map ↦ some (aligned, record { pools = ps; aligned_address_map = map })
      ]
]

-- An address that is not in the map makes it free NULL.
pub aligned_kfree : Kernel → (address : ℕ) → Option Kernel
aligned_kfree k address =
    let (found, map) = hashtable_remove k.aligned_address_map address in
    let original : ℕ = elim found [ none ↦ 0 | some a ↦ a ] in
    elim (kfree k.pools original) [
      | none ↦ none
      | some ps ↦ some (record { pools = ps; aligned_address_map = map })
    ]
