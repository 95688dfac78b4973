-- ===== src/Memory/Kmalloc/Arena.antt =====
-- The sixteen pools side by side, with the blocks that callers hold of each.
use mathlib.Core.List.{Mem}
use native.Mathlib.Nat.{div-mul-le_self}
use g_os.Common.{
  ==_of_ne, ==_refl, List, [], arith, dec_lt, if◌then◌else◌, refl, suc, sym, zero, ℕ, ℕ_discrete,
  ◌*◌, ◌+◌, ◌-◌, ◌/◌, ◌<◌, ◌==◌, ◌^◌, ◌∙◌, ◌≡◌, ◌≤◌,
}
use g_os.Memory.FixedSize.{Pool, a_fixed_size_init, stride}
use g_os.Memory.FixedSize.Init.{init-count}
use g_os.Memory.FixedSize.Ownership.{lent_bounds}
use g_os.Memory.FixedSize.Trace.{IsSound, here, Reach-IsSound}
use g_os.Memory.Kmalloc.{
  Pools, init_kmallocs, init_pools, mem_start_addr, mem_to_pool, pool_num, set_pool,
  virt_mem_start_addr,
}

abbrev pub pool_base : ℕ → ℕ
pool_base i = virt_mem_start_addr + mem_start_addr + i * mem_to_pool

abbrev pub blocks_of : ℕ → ℕ
blocks_of i = mem_to_pool / stride (2 ^ (2 + i))

-- The blocks lent, by pool.
abbrev pub Lent : Type 0
Lent = ℕ → List ℕ

abbrev pub set_lent : Lent → ℕ → List ℕ → Lent
set_lent lent i bs j = if i == j then bs else lent j

abbrev pub IsArena : Pools → Lent → Type 0
IsArena ps lent =
    (i : ℕ)
    → i < pool_num
    → IsSound (2 ^ (2 + i)) (pool_base i) (blocks_of i) (record { pool = ps i; lent = lent i })

init_pools-below : (r i addr : ℕ) (ps : Pools) (j : ℕ) → j < i → init_pools r i addr ps j ≡ ps j
unfolding init_pools
init_pools-below zero i addr ps j h = refl
init_pools-below (suc r) i addr ps j h =
    init_pools-below r (i + 1) (addr + mem_to_pool) _ j (omega arith)
    ∙ rw (==_of_ne i j (omega arith)) refl

init_pools-at :
    (r i addr : ℕ) (ps : Pools) (j : ℕ)
    → i ≤ j
    → j < i + r
    → addr + mem_to_pool ≡ pool_base i
    → init_pools r i addr ps j ≡ a_fixed_size_init (ps j) (2 ^ (2 + j)) (pool_base j) mem_to_pool
unfolding init_pools
init_pools-at zero i addr ps j low high e = absurd (omega arith)
init_pools-at (suc r) i addr ps j low high e = elim (dec_lt i j) [
  | yes l ↦
      init_pools-at r (i + 1) (addr + mem_to_pool) _ j (omega arith) (omega arith) (omega arith)
      ∙ rw (==_of_ne i j (omega arith)) refl
  | no n ↦
      let same : i ≡ j = omega arith in
      init_pools-below r (i + 1) (addr + mem_to_pool) _ j (omega arith)
      ∙ rw (sym same, ==_refl i, e) refl
]

-- `init_kmallocs` leaves sixteen sound pools, one behind the other, with nothing lent.
pub init_kmallocs-IsArena : (ps : Pools) → IsArena (init_kmallocs ps) (λ _. [])
unfolding init_kmallocs
init_kmallocs-IsArena ps i h =
    let start = mem_start_addr + virt_mem_start_addr - mem_to_pool in
    rw (init_pools-at pool_num 0 start ps i (omega arith) h refl)
      (Reach-IsSound (ps i) (2 ^ (2 + i)) (pool_base i) mem_to_pool here)

pub init_kmallocs-count :
    (ps : Pools) (i : ℕ) → i < pool_num → (init_kmallocs ps i).current_free_block ≡ blocks_of i
unfolding init_kmallocs
init_kmallocs-count ps i h =
    let start = mem_start_addr + virt_mem_start_addr - mem_to_pool in
    rw (init_pools-at pool_num 0 start ps i (omega arith) h refl)
      (init-count (ps i) (2 ^ (2 + i)) (pool_base i) mem_to_pool)

-- A change of one pool.
pub set_pool-IsArena :
    (ps : Pools) (lent : Lent) (i : ℕ) (p : Pool) (bs : List ℕ)
    → IsArena ps lent
    → IsSound (2 ^ (2 + i)) (pool_base i) (blocks_of i) (record { pool = p; lent = bs })
    → IsArena (set_pool ps i p) (set_lent lent i bs)
set_pool-IsArena ps lent i p bs v new j h = elim (ℕ_discrete i j) [
  | yes e ↦ rw (sym e, ==_refl i) new
  | no n ↦ rw (==_of_ne i j n) (v j h)
]

-- Where a lent block of the pool `i` lies.
pub lent_within :
    (ps : Pools) (lent : Lent) (i a : ℕ)
    → IsArena ps lent
    → i < pool_num
    → Mem a (lent i)
    → (pool_base i ≤ a) × (a + stride (2 ^ (2 + i)) ≤ pool_base i + mem_to_pool)
lent_within ps lent i a v h m =
    let (size, pool) = v i h in
    let (low, high) = lent_bounds (ps i) (pool_base i) (blocks_of i) (lent i) a pool m in
    let room = div-mul-le_self mem_to_pool (stride (2 ^ (2 + i))) in
    (low, omega (arith, rw size at high))
