-- ===== src/Memory/Kmalloc/Aligned.antt =====
-- The aligned allocations: the address handed out, and the map from it to what `kmalloc` returned.
use mathlib.Core.List.{Mem, mem-cons_self, mem-cons_of_mem}
use native.Mathlib.Nat.{div-add-mod, mul-mod_right}
use g_os.Common.{
  ==_of_ne, ==_refl, List, Option, Option-cases, ap, arith, dec_lt, if◌then◌else◌, inl, inr,
  mem-set_aside, mem-take_out, mod-lt, none, refl, some, sym, ℕ, ℕ_discrete, ◌%◌, ◌*◌, ◌++◌, ◌+◌,
  ◌/◌, ◌<◌, ◌==◌, ◌^◌, ◌∙◌, ◌∷◌, ◌≡◌, ◌≢◌, ◌≤◌, ◌⊎◌,
}
use g_os.DataTypes.Hashtable.{hashtable_get, hashtable_remove}
use g_os.DataTypes.Hashtable.Map.{IsMap, put-IsMap, remove-IsMap}
use g_os.Memory.FixedSize.{header, stride}
use g_os.Memory.Kmalloc.{
  Kernel, Pools, aligned_kfree, aligned_kmalloc, aligned_to_offset, kfree, pool_num, pool_of_size,
}
use g_os.Memory.Kmalloc.SizeClass.{pool_of_size-fits}
use g_os.Memory.Kmalloc.Arena.{IsArena, Lent, lent_within, set_lent}
use g_os.Memory.Kmalloc.Release.{arena_apart, kfree-IsArena, kmalloc-IsArena}

-- What the entry `x ↦ o` of the map stands for: `o` is behind the header of a lent block, and `x`
-- lies past `o` and not past the block.
pub record IsEntry (lent : Lent) (x o : ℕ) : Type 0 where
  pub pool : ℕ
  pub block : ℕ
  pub inside : pool < pool_num
  pub held : Mem block (lent pool)
  pub origin : o ≡ block + header
  pub above : o < x
  pub below : x ≤ block + stride (2 ^ (2 + pool))

pub record IsAligned (k : Kernel) (lent : Lent) : Type 0 where
  pub arena : IsArena k.pools lent
  pub unique_keys : IsMap k.aligned_address_map
  pub entry : (x o : ℕ) → hashtable_get k.aligned_address_map x ≡ some o → IsEntry lent x o
  pub once :
      (x y o : ℕ)
      → hashtable_get k.aligned_address_map x ≡ some o
      → hashtable_get k.aligned_address_map y ≡ some o
      → x ≡ y

pub aligned_bounds :
    (a al : ℕ) → 0 < al → (a < aligned_to_offset a al) × (aligned_to_offset a al ≤ a + al)
aligned_bounds a al pos = let low = mod-lt a pos in (omega arith, omega arith)

pub aligned_multiple : (a al : ℕ) → 0 < al → aligned_to_offset a al % al ≡ 0
aligned_multiple a al pos =
    let low = mod-lt a pos in
    let whole : aligned_to_offset a al ≡ al * (a / al + 1) = grind (arith, div-add-mod a al) in
    rw whole (mul-mod_right al (a / al + 1))

-- A block that has just been lent was held by nobody, in any pool.
lent_anew :
    (ps : Pools) (lent : Lent) (i a j : ℕ)
    → IsArena ps (set_lent lent i (a ∷ lent i))
    → i < pool_num
    → j < pool_num
    → ¬ Mem a (lent i)
    → ¬ Mem a (lent j)
lent_anew ps lent i a j v hi hj out m = elim (ℕ_discrete i j) [
  | yes e ↦ out (rw e m)
  | no n ↦
      let new = set_lent lent i (a ∷ lent i) in
      let in_i : Mem a (new i) = rw (==_refl i) mem-cons_self in
      let in_j : Mem a (new j) = rw (==_of_ne i j n) m in
      let (low_i, high_i) = lent_within ps new i a v hi in_i in
      let (low_j, high_j) = lent_within ps new j a v hj in_j in
      elim (dec_lt i j) [ yes l ↦ omega arith | no g ↦ omega arith ]
]

held_more : (lent : Lent) (i a j b : ℕ) → Mem b (lent j) → Mem b (set_lent lent i (a ∷ lent i) j)
held_more lent i a j b m = elim (ℕ_discrete i j) [
  | yes same ↦ rw (sym same, ==_refl i) (mem-cons_of_mem a (rw (sym same) at m))
  | no n ↦ rw (==_of_ne i j n) m
]

held_less :
    (lent : Lent) (i a j b : ℕ) (ys zs : List ℕ)
    → lent i ≡ ys ++ a ∷ zs
    → a ≢ b
    → Mem b (lent j)
    → Mem b (set_lent lent i (ys ++ zs) j)
held_less lent i a j b ys zs e ne m = elim (ℕ_discrete i j) [
  | yes same ↦ rw (sym same, ==_refl i) (mem-take_out a b ys zs ne (rw (sym same, e) at m))
  | no n ↦ rw (==_of_ne i j n) m
]

IsEntry-more :
    (lent : Lent) (i a x o : ℕ) → IsEntry lent x o → IsEntry (set_lent lent i (a ∷ lent i)) x o
IsEntry-more lent i a x o e = record {
  pool = e.pool;
  block = e.block;
  inside = e.inside;
  held = held_more lent i a e.pool e.block e.held;
  origin = e.origin;
  above = e.above;
  below = e.below;
}

-- The range of the block lent last meets no entry of the map.
IsEntry-apart :
    (ps : Pools) (lent : Lent) (i a x o : ℕ)
    → IsArena ps (set_lent lent i (a ∷ lent i))
    → i < pool_num
    → ¬ Mem a (lent i)
    → IsEntry lent x o
    → (o ≢ a + header) × (a + header < x → ¬ (x ≤ a + stride (2 ^ (2 + i))))
IsEntry-apart ps lent i a x o v hi out e =
    let new = set_lent lent i (a ∷ lent i) in
    let mine : Mem a (new i) = rw (==_refl i) mem-cons_self in
    let theirs : Mem e.block (new e.pool) = held_more lent i a e.pool e.block e.held in
    let other : a ≢ e.block =
      λ same. lent_anew ps lent i a e.pool v hi e.inside out (rw same e.held) in
    let after = arena_apart ps new i e.pool a e.block v hi e.inside mine theirs in
    let before = arena_apart ps new e.pool i e.block a v e.inside hi theirs mine in
    (
      λ same. other (omega (arith, e.origin)),
      λ above below. elim (dec_lt a e.block) [
        | yes l ↦ omega (arith, after l, e.origin, e.above)
        | no n ↦ omega (arith, before (omega arith), e.below)
      ],
    )

put_cases :
    (f g : ℕ → Option ℕ) (x v : ℕ)
    → ((j : ℕ) → g j ≡ (if x == j then some v else f j))
    → (y o : ℕ) → g y ≡ some o
    → ((x ≡ y) × (v ≡ o)) ⊎ ((x ≢ y) × (f y ≡ some o))
put_cases f g x v reads y o e = elim (ℕ_discrete x y) [
  | yes same ↦
      let there : Path (Option ℕ) (some v) (some o) =
        sym (reads y ∙ rw (same, ==_refl y) refl) ∙ e in
      inl (same, ground arith)
  | no n ↦ inr (n, sym (reads y ∙ rw (==_of_ne x y n) refl) ∙ e)
]

remove_cases :
    (f g : ℕ → Option ℕ) (x : ℕ)
    → ((j : ℕ) → g j ≡ (if x == j then none else f j))
    → (y o : ℕ) → g y ≡ some o
    → (x ≢ y) × (f y ≡ some o)
remove_cases f g x reads y o e = elim (ℕ_discrete x y) [
  | yes same ↦
      let there : Path (Option ℕ) none (some o) = sym (reads y ∙ rw (same, ==_refl y) refl) ∙ e in
      absurd (ground arith)
  | no n ↦ (n, sym (reads y ∙ rw (==_of_ne x y n) refl) ∙ e)
]

-- When the pools and the map are right for the blocks that are lent, `mem_size` and the alignment,
-- which is not 0, are together at most 131072 and the pool chosen for their sum has a free block, and
-- 101 of them if it is the pool of 256 bytes, `aligned_kmalloc` hands out a multiple of the alignment
-- behind which the block it holds has room for `mem_size` bytes, and enters it in the map. The
-- pools and the map are right for the blocks lent then.
pub aligned_kmalloc-IsAligned :
    (k : Kernel) (lent : Lent) (size al : ℕ)
    → IsAligned k lent
    → 0 < al
    → size + al ≤ 131072
    → 0 < (k.pools (pool_of_size (size + al))).current_free_block
    → (pool_of_size (size + al) ≡ 6 → 100 < (k.pools (pool_of_size (size + al))).current_free_block)
    → let i = pool_of_size (size + al) in
      (a x : ℕ) × (k' : Kernel) × (aligned_kmalloc k size al ≡ some (x, k'))
      × (x % al ≡ 0)
      × (a + header < x)
      × (x + size ≤ a + stride (2 ^ (2 + i)))
      × (hashtable_get k'.aligned_address_map x ≡ some (a + header))
      × IsAligned k' (set_lent lent i (a ∷ lent i))
unfolding aligned_kmalloc
aligned_kmalloc-IsAligned k lent size al v pos le free spare =
    let i = pool_of_size (size + al) in
    let inside = ((pool_of_size-fits (size + al)).0 le).0 in
    let (a, ps, served, fits, best, out, arena) =
      kmalloc-IsArena k.pools lent (size + al) v.arena le free spare in
    let whole : (size + al) % 2 ^ 32 ≡ size + al = omega arith in
    let x = aligned_to_offset (a + header) al in
    let (above, below) = aligned_bounds (a + header) al pos in
    let (map', put, reads, keeps) =
      put-IsMap 0 k.aligned_address_map x (a + header) v.unique_keys in
    let old = hashtable_get k.aligned_address_map in
    let apart : (y o : ℕ) → old y ≡ some o → (o ≢ a + header) × (x ≢ y) = λ y o e.
      let (origin, past) = IsEntry-apart ps lent i a y o arena inside out (v.entry y o e) in
      (origin, λ same. past (rw same at above) (omega arith)) in
    let absent : old x ≡ none = elim (Option-cases (old x)) [
      | inl e ↦ e
      | inr (o, e) ↦ absurd ((apart x o e).1 refl)
    ] in
    let cases = put_cases old (hashtable_get map') x (a + header) reads in
    (
      a,
      x,
      record { pools = ps; aligned_address_map = map' },
      rw (whole, served, put, aligned_kmalloc) refl,
      aligned_multiple (a + header) al pos,
      above,
      omega arith,
      reads x ∙ rw (==_refl x) refl,
      record {
        arena = arena;
        unique_keys = keeps absent;
        entry = λ y o e. elim (cases y o e) [
          | inl (same, origin) ↦ record {
            pool = i;
            block = a;
            inside = inside;
            held = rw (==_refl i) mem-cons_self;
            origin = sym origin;
            above = omega arith;
            below = omega arith;
          }
          | inr (ne, e') ↦ IsEntry-more lent i a y o (v.entry y o e')
        ];
        once = λ y z o e f. elim (cases y o e) [
          | inl (s, same) ↦ elim (cases z o f) [
            | inl (t, _) ↦ sym s ∙ t
            | inr (_, f') ↦ absurd ((apart z o f').0 (sym same))
          ]
          | inr (_, e') ↦ elim (cases z o f) [
            | inl (_, same) ↦ absurd ((apart y o e').0 (sym same))
            | inr (_, f') ↦ v.once y z o e' f'
          ]
        ];
      },
    )

-- `aligned_kfree` of an address in the map gives back the block that it stands in and forgets the
-- address.
pub aligned_kfree-IsAligned :
    (k : Kernel) (lent : Lent) (x o : ℕ)
    → IsAligned k lent
    → hashtable_get k.aligned_address_map x ≡ some o
    → (i a : ℕ) × (ys zs : List ℕ) × (k' : Kernel) × (o ≡ a + header)
      × (lent i ≡ ys ++ a ∷ zs)
      × (aligned_kfree k x ≡ some k')
      × (hashtable_get k'.aligned_address_map x ≡ none)
      × IsAligned k' (set_lent lent i (ys ++ zs))
unfolding aligned_kfree
aligned_kfree-IsAligned k lent x o v here =
    let e = v.entry x o here in
    let (found, reads, still) = remove-IsMap k.aligned_address_map x v.unique_keys in
    let (ys, zs, split) = mem-set_aside e.block (lent e.pool) e.held in
    let (ps, freed, arena) =
      kfree-IsArena k.pools lent e.pool ys e.block zs v.arena e.inside split in
    let map' = (hashtable_remove k.aligned_address_map x).1 in
    let cases = remove_cases (hashtable_get k.aligned_address_map) (hashtable_get map') x reads in
    (
      e.pool,
      e.block,
      ys,
      zs,
      record { pools = ps; aligned_address_map = map' },
      e.origin,
      split,
      rw (found, here, ap (kfree k.pools) e.origin ∙ freed, aligned_kfree) refl,
      reads x ∙ rw (==_refl x) refl,
      record {
        arena = arena;
        unique_keys = still;
        entry = λ y o' f.
            let (ne, f') = cases y o' f in
            let d = v.entry y o' f' in
            let other : e.block ≢ d.block =
              λ same. ne (v.once x y o here (rw (d.origin ∙ rw same refl ∙ sym e.origin) at f')) in
            record {
              pool = d.pool;
              block = d.block;
              inside = d.inside;
              held = held_less lent e.pool e.block d.pool d.block ys zs split other d.held;
              origin = d.origin;
              above = d.above;
              below = d.below;
            };
        once = λ y z o' f g. v.once y z o' (cases y o' f).1 (cases z o' g).1;
      },
    )
