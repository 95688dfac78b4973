-- ===== src/Ext2/Bitmap/Examples.antt =====
-- A file system of 16384 blocks in two groups, with 16 inodes in each, of which ten are taken.
use g_os.Common.{
  Option, arith, false, if◌then◌else◌, none, refl, some, true, ℕ, ◌*◌, ◌+◌, ◌<◌, ◌==◌, ◌≡◌, ◌≢◌,
  ◌⊎◌,
}
use g_os.Ext2.Bitmap.{
  Buffer, GroupBlock, Superblock, bitmap_block, find_free_block, find_free_inode, free_inode,
  is_searched, tot_fs_group,
}
use g_os.Ext2.Bitmap.Bits.{IsBytes, bit_at}
use g_os.Ext2.Bitmap.Search.{Finds, IsFirst}
use g_os.Ext2.Bitmap.Alloc.{IsCounted, find_free_block-IsFirst, find_free_inode-undone, write_group}

abbrev super : Superblock
super = record {
  s_blocks_count = 16384;
  s_free_blocks_count = 100;
  s_free_inodes_count = 20;
  s_blocks_per_group = 8192;
  s_inodes_per_group = 16;
}

abbrev bits : Buffer
bits i = if i == 0 then 255 else if i == 1 then 3 else 0

abbrev group : GroupBlock
group = record {
  bg_free_blocks_count = 60;
  bg_free_inodes_count = 6;
  bg_used_dirs_count = 1;
  inode_bitmap = bits;
}

bits-IsBytes : IsBytes bits
unfolding IsBytes
bits-IsBytes x = ground arith

abbrev i_number : Option (Option ℕ × Superblock × GroupBlock) → Option ℕ
i_number none = none
i_number (some r) = r.0

-- The eleventh inode of the second group.
takes_27 : i_number (find_free_inode 1 0 super group) ≡ some 27
unfolding find_free_inode
takes_27 = refl

find_free_block-IsFirst_example :
    ((i : ℕ) × (b' : Buffer) × (find_free_block bits 1 16384 8192 8192
        ≡ some (1 * 8192 + i + 1, b'))
      × IsFirst bits 0 i
      × (i < bitmap_block 16384 8192 1)
      × ((m : ℕ) → bit_at b' m ≡ (if m == i then true else bit_at bits m)))
    ⊎ ((find_free_block bits 1 16384 8192 8192 ≡ none)
        × Finds bits 0 (bitmap_block 16384 8192 1) none)
find_free_block-IsFirst_example = find_free_block-IsFirst bits 1 16384 bits-IsBytes (omega arith)

group-IsCounted : IsCounted super group
group-IsCounted = record {
  bytes = bits-IsBytes;
  some_left = omega arith;
  some_left_all = omega arith;
  group_word = omega arith;
  all_word = omega arith;
  dirs_word = omega arith;
}

two_groups : tot_fs_group 16384 8192 ≢ 0
unfolding tot_fs_group
two_groups e = omega arith

searched : is_searched 0 super group ≡ true
unfolding is_searched tot_fs_group
searched = refl

find_free_inode-undone_example :
    ((n : ℕ) × (s' : Superblock) × (grp' : GroupBlock) × (find_free_inode 1 0 super group
        ≡ some (some (n + 1 + 1 * 16), s', grp'))
      × IsFirst bits 0 n
      × (n < 16)
      × (free_inode (n + 1 + 1 * 16) false s' (write_group (λ j. group) 1 grp')
          ≡ (1, super, group)))
    ⊎ ((find_free_inode 1 0 super group ≡ some (none, super, group)) × Finds bits 0 16 none)
find_free_inode-undone_example =
    find_free_inode-undone 1 0 super (λ j. group) two_groups searched group-IsCounted (omega arith)
