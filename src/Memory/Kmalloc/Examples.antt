-- ===== src/Memory/Kmalloc/Examples.antt =====
-- The pools as `init_kmallocs` makes them, and an allocation on them.
use mathlib.Core.List.{Mem}
use g_os.Common.{
  ==_refl, List, Option, [], arith, map, none, refl, some, sym, ℕ, ◌%◌, ◌++◌, ◌+◌, ◌<◌, ◌^◌, ◌∙◌,
  ◌∷◌, ◌≡◌, ◌≤◌, ◌⊎◌,
}
use g_os.DataTypes.Hashtable.{hashtable_get, hashtable_init}
use g_os.DataTypes.Hashtable.Map.{init-IsMap}
use g_os.Memory.FixedSize.{Pool, header, stride}
use g_os.Memory.FixedSize.Ownership.{}
use g_os.Memory.Kmalloc.{
  Kernel, Pools, aligned_kfree, aligned_kmalloc, init_kmallocs, kfree, kmalloc, pool_loop,
  pool_of_size, pool_switch,
}
use g_os.Memory.Kmalloc.SizeClass.{switch-loop}
use g_os.Memory.Kmalloc.Arena.{IsArena, Lent, init_kmallocs-IsArena, init_kmallocs-count, set_lent}
use g_os.Memory.Kmalloc.Release.{kfree-IsArena, kmalloc-IsArena}
use g_os.Memory.Kmalloc.Aligned.{IsAligned, aligned_kfree-IsAligned, aligned_kmalloc-IsAligned}

abbrev raw : Pool
raw = record {
  first_block = 0;
  block_size = 0;
  current_free_block = 0;
  next_block = λ a. 0;
  previous_block = λ a. 0;
}

abbrev fresh_pools : Pools
fresh_pools = init_kmallocs (λ i. raw)

abbrev none_lent : Lent
none_lent i = []

switch-loop_example : pool_switch 300 ≡ pool_of_size 300
switch-loop_example = switch-loop 300

abbrev fresh-IsArena : IsArena fresh_pools none_lent
fresh-IsArena = init_kmallocs-IsArena (λ i. raw)

pool_of_20 : pool_of_size 20 ≡ 3
unfolding pool_of_size pool_loop
pool_of_20 = refl

some_free : 0 < (fresh_pools (pool_of_size 20)).current_free_block
some_free = rw (pool_of_20, init_kmallocs-count (λ i. raw) 3 (omega arith)) (omega arith)

kmalloc-IsArena_example :
    let i = pool_of_size 20 in
    (a : ℕ) × (ps : Pools) × (kmalloc fresh_pools 20 ≡ some (a + header, ps))
    × (20 ≤ 2 ^ (2 + i))
    × ((i ≡ 0) ⊎ (2 ^ (1 + i) < 20))
    × (¬ Mem a (none_lent i))
    × IsArena ps (set_lent none_lent i (a ∷ []))
kmalloc-IsArena_example =
    kmalloc-IsArena fresh_pools none_lent 20 fresh-IsArena (omega arith) some_free
      (λ e. absurd (omega (arith, pool_of_20)))

-- What a request of 20 bytes leaves.
abbrev served : (a : ℕ) × (ps : Pools) × IsArena ps (set_lent none_lent (pool_of_size 20) (a ∷ []))
served =
    let (a, ps, e, fits, best, out, arena) =
      kmalloc-IsArena fresh_pools none_lent 20 fresh-IsArena (omega arith) some_free
        (λ e. absurd (omega (arith, pool_of_20))) in
    (a, ps, arena)

kfree-IsArena_example :
    let i = pool_of_size 20 in
    let lent = set_lent none_lent i (served.0 ∷ []) in
    (ps : Pools) × (kfree served.1 (served.0 + header) ≡ some ps) × IsArena ps (set_lent lent i [])
kfree-IsArena_example =
    kfree-IsArena served.1 (set_lent none_lent (pool_of_size 20) (served.0 ∷ [])) (pool_of_size 20)
      [] served.0 [] served.2 (omega (arith, pool_of_20)) (rw (==_refl (pool_of_size 20)) refl)

abbrev fresh_kernel : Kernel
fresh_kernel = record { pools = fresh_pools; aligned_address_map = hashtable_init 100 }

abbrev fresh-IsAligned : IsAligned fresh_kernel none_lent
fresh-IsAligned =
    let (map, empty) = init-IsMap 100 0 (omega arith) in
    record {
      arena = fresh-IsArena;
      unique_keys = map;
      entry = λ x o e. absurd (no_key x o e);
      once = λ x y o e f. absurd (no_key x o e);
    }
  where
    no_key : (x o : ℕ) → ¬ (hashtable_get (hashtable_init 100) x ≡ some o)
    no_key x o e =
        let none_there : Path (Option ℕ) none (some o) =
          sym (init-IsMap 100 x (omega arith)).1 ∙ e in
        ground arith

aligned_kmalloc-IsAligned_example :
    let i = pool_of_size (4 + 16) in
    (a x : ℕ) × (k : Kernel) × (aligned_kmalloc fresh_kernel 4 16 ≡ some (x, k))
    × (x % 16 ≡ 0)
    × (a + header < x)
    × (x + 4 ≤ a + stride (2 ^ (2 + i)))
    × (hashtable_get k.aligned_address_map x ≡ some (a + header))
    × IsAligned k (set_lent none_lent i (a ∷ []))
aligned_kmalloc-IsAligned_example =
    aligned_kmalloc-IsAligned fresh_kernel none_lent 4 16 fresh-IsAligned (omega arith)
      (omega arith) some_free (λ e. absurd (omega (arith, pool_of_20)))

-- The kernel that an aligned request of 4 bytes leaves.
abbrev aligned :
    (a x : ℕ) × (k : Kernel) × (hashtable_get k.aligned_address_map x ≡ some (a + header))
    × IsAligned k (set_lent none_lent (pool_of_size 20) (a ∷ []))
aligned =
    let (a, x, k, e, whole, above, below, kept, is) =
      aligned_kmalloc-IsAligned fresh_kernel none_lent 4 16 fresh-IsAligned (omega arith)
        (omega arith) some_free (λ e. absurd (omega (arith, pool_of_20))) in
    (a, x, k, kept, is)

aligned_kfree-IsAligned_example :
    let lent = set_lent none_lent (pool_of_size 20) (aligned.0 ∷ []) in
    (i a : ℕ) × (ys zs : List ℕ) × (k : Kernel) × (aligned.0 + header ≡ a + header)
    × (lent i ≡ ys ++ a ∷ zs)
    × (aligned_kfree aligned.2 aligned.1 ≡ some k)
    × (hashtable_get k.aligned_address_map aligned.1 ≡ none)
    × IsAligned k (set_lent lent i (ys ++ zs))
aligned_kfree-IsAligned_example =
    aligned_kfree-IsAligned aligned.2 (set_lent none_lent (pool_of_size 20) (aligned.0 ∷ []))
      aligned.1 (aligned.0 + header) aligned.4 aligned.3
