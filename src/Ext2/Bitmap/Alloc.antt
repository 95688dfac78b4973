-- ===== src/Ext2/Bitmap/Alloc.antt =====
-- What the allocations take, and that a freed inode goes back to where it came from.
use g_os.Common.{
  ==_of_ne, ==_refl, Bool, Option, Option-cases, arith, false, if◌then◌else◌, inl, inr,
  mod-eq_of_lt, none, refl, some, subst, true, ℕ, ◌%◌, ◌*◌, ◌+◌, ◌-◌, ◌/◌, ◌<◌, ◌==◌, ◌^◌, ◌∙◌, ◌≡◌,
  ◌≢◌, ◌≤◌, ◌⊎◌,
}
use Prim.Native.Nat.{bit_or}
use native.Mathlib.Nat.{div-eq_of_lt, mul-add-div, mul_comm, mul-add-mod_self_right}
use g_os.Ext2.Bitmap.{
  Buffer, GroupBlock, Superblock, bitmap_block, block_loop, block_size, byte_loop, find_free_block,
  find_free_inode, free_inode, is_searched, tot_fs_group, write_at,
}
use g_os.Ext2.Bitmap.Bits.{IsBytes, bit_at, bit_at-set_bit, clear_bit-set_bit, set_bit}
use g_os.Ext2.Bitmap.Search.{
  Finds, IsFirst, block_loop-Finds, byte_loop-Finds, byte_loop-small, number,
}

bitmap_block-small : (tot g : ℕ) → g * 8192 < tot → bitmap_block tot 8192 g ≤ 8192
unfolding bitmap_block
bitmap_block-small tot g h = ground arith

-- What `find_free_block` gives of the first clear bit.
block-taken :
    (b : Buffer) (g tot : ℕ) (o : Option ℕ)
    → block_loop (bitmap_block tot 8192 g) 0 8192 b ≡ o
    → find_free_block b g tot 8192 8192 ≡ elim o [
      | none ↦ none
      | some i ↦ some (
        i + g * block_size * 8 + 1,
        write_at b (i % 8192 / 8) (bit_or (b (i % 8192 / 8)) (2 ^ (i % 8192 % 8))),
      )
    ]
unfolding find_free_block
block-taken b g tot o e = rw (find_free_block, e) refl

block-found :
    (b : Buffer) (g tot i : ℕ)
    → IsBytes b
    → block_loop (bitmap_block tot 8192 g) 0 8192 b ≡ some i
    → Finds b 0 (bitmap_block tot 8192 g) (some i)
    → bitmap_block tot 8192 g ≤ 8192
    → (i : ℕ) × (b' : Buffer) × (find_free_block b g tot 8192 8192 ≡ some (g * 8192 + i + 1, b'))
      × IsFirst b 0 i
      × (i < bitmap_block tot 8192 g)
      × ((m : ℕ) → bit_at b' m ≡ (if m == i then true else bit_at b m))
unfolding Finds
block-found b g tot i is here (first, below) small =
    let at : i % 8192 ≡ i = omega arith in
    let value : i + g * 1024 * 8 + 1 ≡ g * 8192 + i + 1 = omega arith in
    let taken = block-taken b g tot (some i) here in
    (
      i,
      set_bit b i,
      taken ∙ rw (at, value) refl,
      first,
      omega arith,
      (λ m. bit_at-set_bit b i m is),
    )

-- In a group of 8192 blocks that the file system has: the block is the first one whose bit is clear,
-- its number counts from 1 and over all groups, and its bit and no other is set; there is none only
-- if every bit that counts is set.
pub find_free_block-IsFirst :
    (b : Buffer) (g tot : ℕ)
    → IsBytes b
    → g * 8192 < tot
    → ((i : ℕ) × (b' : Buffer) × (find_free_block b g tot 8192 8192 ≡ some (g * 8192 + i + 1, b'))
        × IsFirst b 0 i
        × (i < bitmap_block tot 8192 g)
        × ((m : ℕ) → bit_at b' m ≡ (if m == i then true else bit_at b m)))
      ⊎ ((find_free_block b g tot 8192 8192 ≡ none) × Finds b 0 (bitmap_block tot 8192 g) none)
find_free_block-IsFirst b g tot is h =
    let n = bitmap_block tot 8192 g in
    let small = bitmap_block-small tot g h in
    let found = block_loop-Finds n 0 8192 b (omega arith) in
    elim (Option-cases (block_loop n 0 8192 b)) [
      | inl full ↦ inr (block-taken b g tot none full, subst (Finds b 0 n) full found)
      | inr (i, here) ↦ inl (block-found b g tot i is here (subst (Finds b 0 n) here found) small)
    ]

-- The inode that a search has found, with the counters and the bitmap.
abbrev take_inode :
    (g n condition : ℕ) → Superblock → GroupBlock → Option ℕ × Superblock × GroupBlock
take_inode g n condition s grp = (
  some (n + 1 + g * s.s_inodes_per_group),
  record s { s_free_inodes_count = (s.s_free_inodes_count + 2 ^ 32 - 1) % 2 ^ 32 },
  record grp {
    inode_bitmap = set_bit grp.inode_bitmap n;
    bg_free_inodes_count = (grp.bg_free_inodes_count + 2 ^ 16 - 1) % 2 ^ 16;
    bg_used_dirs_count =
        if condition == 1 then (grp.bg_used_dirs_count + 1) % 2 ^ 16 else grp.bg_used_dirs_count;
  },
)

inode-taken :
    (g condition : ℕ) (s : Superblock) (grp : GroupBlock) (i j : ℕ)
    → (tot_fs_group s.s_blocks_count s.s_blocks_per_group == 0) ≡ false
    → is_searched condition s grp ≡ true
    → byte_loop (s.s_inodes_per_group / 8) 0 grp.inode_bitmap ≡ some (i, j)
    → j < 8
    → find_free_inode g condition s grp ≡ some (take_inode g (i * 8 + j) condition s grp)
unfolding find_free_inode
inode-taken g condition s grp i j groups searched found small =
    let e : (i * 8 + j) / 8 ≡ i = omega arith in
    let e' : (i * 8 + j) % 8 ≡ j = omega arith in
    rw (find_free_inode, groups, searched, found, e, e') refl

inode-none :
    (g condition : ℕ) (s : Superblock) (grp : GroupBlock)
    → (tot_fs_group s.s_blocks_count s.s_blocks_per_group == 0) ≡ false
    → is_searched condition s grp ≡ true
    → byte_loop (s.s_inodes_per_group / 8) 0 grp.inode_bitmap ≡ none
    → find_free_inode g condition s grp ≡ some (none, s, grp)
unfolding find_free_inode
inode-none g condition s grp groups searched found =
    rw (find_free_inode, groups, searched, found) refl

-- The counters are in their range, with an inode left to take.
pub record IsCounted (s : Superblock) (grp : GroupBlock) : Type 0 where
  pub bytes : IsBytes grp.inode_bitmap
  pub some_left : 0 < grp.bg_free_inodes_count
  pub some_left_all : 0 < s.s_free_inodes_count
  pub group_word : grp.bg_free_inodes_count < 2 ^ 16
  pub all_word : s.s_free_inodes_count < 2 ^ 32
  pub dirs_word : grp.bg_used_dirs_count < 2 ^ 16

dirs-undone :
    (is_dir : Bool) (d : ℕ)
    → d < 2 ^ 16
    → (let d' = if is_dir then (d + 1) % 2 ^ 16 else d in
        if is_dir then (d' + 2 ^ 16 - 1) % 2 ^ 16 else d')
      ≡ d
dirs-undone true d h = omega arith
dirs-undone false d h = refl

-- The number of an inode without the 1 that it counts from.
inode_before :
    (n per g : ℕ)
    → n + 1 + g * per < 2 ^ 16
    → ((n + 1 + g * per) % 2 ^ 16 + 2 ^ 32 - 1) % 2 ^ 32 ≡ g * per + n
inode_before n per g word = omega arith

group_index : (n per g : ℕ) → n < per → (g * per + n) / per ≡ g
group_index n per g small =
    let turned : g * per + n ≡ per * g + n = rw (mul_comm g per) refl in
    let whole : n / per ≡ 0 = div-eq_of_lt small in
    rw turned (mul-add-div (omega (arith, small)) g n ∙ omega (arith, whole))

-- The groups with the group `g` written back.
abbrev pub write_group : (ℕ → GroupBlock) → ℕ → GroupBlock → ℕ → GroupBlock
write_group groups g grp j = if j == g then grp else groups j

-- Freeing the inode undoes what taking it has done.
free-take_inode :
    (g n condition : ℕ) (s : Superblock) (groups : ℕ → GroupBlock)
    → IsCounted s (groups g)
    → n < s.s_inodes_per_group
    → bit_at (groups g).inode_bitmap n ≡ false
    → n + 1 + g * s.s_inodes_per_group < 2 ^ 16
    → (let t = take_inode g n condition s (groups g) in
        free_inode
          (n + 1 + g * s.s_inodes_per_group)
          (condition == 1)
          t.1
          (write_group groups g t.2))
      ≡ (g, s, groups g)
unfolding free_inode
free-take_inode g n condition s groups is small free word =
    let grp = groups g in
    let all : ((s.s_free_inodes_count + 2 ^ 32 - 1) % 2 ^ 32 + 1) % 2 ^ 32 ≡ s.s_free_inodes_count =
      omega arith in
    let group : ((grp.bg_free_inodes_count + 2 ^ 16 - 1) % 2 ^ 16 + 1) % 2 ^ 16
        ≡ grp.bg_free_inodes_count =
      omega arith in
    rw
      (
        free_inode,
        inode_before n s.s_inodes_per_group g word,
        group_index n s.s_inodes_per_group g small,
        ==_refl g,
        mul-add-mod_self_right g s.s_inodes_per_group n ∙ mod-eq_of_lt small,
        all,
        group,
        dirs-undone (condition == 1) grp.bg_used_dirs_count is.dirs_word,
        clear_bit-set_bit grp.inode_bitmap n is.bytes free,
      )
      refl

-- Where the file system has a group by its block counts and this group is searched, its bitmap is of
-- bytes, the free counts of the group and of the superblock are not 0 and all counters fit their
-- widths, and the numbers of its inodes are below 65536, as the inodes keep them in 16 bits:
-- `find_free_inode` gives the first inode whose bit is clear, by its number over all
-- groups, and `free_inode` of this number writes the same group back with the bitmap and all counters
-- as they were; it gives -1 and changes nothing only if all bits are set.
pub find_free_inode-undone :
    (g condition : ℕ) (s : Superblock) (groups : ℕ → GroupBlock)
    → tot_fs_group s.s_blocks_count s.s_blocks_per_group ≢ 0
    → is_searched condition s (groups g) ≡ true
    → IsCounted s (groups g)
    → s.s_inodes_per_group * (g + 1) < 2 ^ 16
    → ((n : ℕ) × (s' : Superblock) × (grp' : GroupBlock) × (find_free_inode g condition s (groups g)
          ≡ some (some (n + 1 + g * s.s_inodes_per_group), s', grp'))
        × IsFirst (groups g).inode_bitmap 0 n
        × (n < s.s_inodes_per_group)
        × (free_inode
              (n + 1 + g * s.s_inodes_per_group)
              (condition == 1)
              s'
              (write_group groups g grp')
            ≡ (g, s, groups g)))
      ⊎ ((find_free_inode g condition s (groups g) ≡ some (none, s, groups g))
          × Finds (groups g).inode_bitmap 0 (s.s_inodes_per_group / 8 * 8) none)
unfolding Finds
find_free_inode-undone g condition s groups some_groups searched is word =
    let grp = groups g in
    let b = grp.inode_bitmap in
    let n = s.s_inodes_per_group / 8 in
    let some_group = ==_of_ne (tot_fs_group s.s_blocks_count s.s_blocks_per_group) 0 some_groups in
    let found = byte_loop-Finds n 0 b in
    elim (Option-cases (byte_loop n 0 b)) [
      | inl full ↦ inr (
        inode-none g condition s grp some_group searched full,
        subst (λ o. Finds b 0 (n * 8) (number o)) full found,
      )
      | inr ((i, j), here) ↦ inl (
          let m = i * 8 + j in
          let (first, below) = subst (λ o. Finds b 0 (n * 8) (number o)) here found in
          let small : m < s.s_inodes_per_group = omega arith in
          let t = take_inode g m condition s grp in
          let fits : m + 1 + g * s.s_inodes_per_group < 2 ^ 16 = grind arith in
          (
            m,
            t.1,
            t.2,
            inode-taken g condition s grp i j some_group searched here
                (byte_loop-small n 0 b i j here),
            first,
            small,
            free-take_inode g m condition s groups is small first.free fits,
          ))
    ]
