-- ===== src/Ext2/Bitmap.antt =====
-- include/ext2/ext2_utils_2.h and ext2_utils_1.h: the bitmaps of inodes and of blocks, from which
-- inodes and blocks are allocated and to which they go back.
pub mod Bits
pub mod Search
pub mod Alloc
mod Examples
use g_os.Common.{
  Bool, Option, if◌then◌else◌, ltb, none, not, some, suc, zero, ℕ, ◌%◌, ◌&&◌, ◌*◌, ◌+◌, ◌-◌, ◌/◌,
  ◌==◌, ◌^◌, ◌||◌,
}
use Prim.Native.Nat.{bit_and, bit_or}

-- A buffer of bytes by index.
abbrev pub Buffer : Type 0
Buffer = ℕ → ℕ

abbrev pub block_size : ℕ
block_size = 1024

-- `x & (1 << j)` is not 0.
pub is_set : (x j : ℕ) → Bool
is_set x j = not (bit_and x (2 ^ j) == 0)

abbrev pub write_at : Buffer → ℕ → ℕ → Buffer
write_at b p v x = if x == p then v else b x

-- The counters and the bitmap of a group of blocks.
pub record GroupBlock : Type 0 where
  pub bg_free_blocks_count : ℕ
  pub bg_free_inodes_count : ℕ
  pub bg_used_dirs_count : ℕ
  pub inode_bitmap : Buffer

pub record Superblock : Type 0 where
  pub s_blocks_count : ℕ
  pub s_free_blocks_count : ℕ
  pub s_free_inodes_count : ℕ
  pub s_blocks_per_group : ℕ
  pub s_inodes_per_group : ℕ

-- The macro TOT_FS_GROUP, as it stands.
pub tot_fs_group : (tot_fs_block block_per_group : ℕ) → ℕ
tot_fs_group tot per = if tot / per == 0 then tot / per else tot / per + 1

-- The inner loop of `find_free_inode`, over the bits of one byte from `j` on.
pub bit_loop : (rounds j byte : ℕ) → Option ℕ
unfolding is_set
bit_loop zero j byte = none
bit_loop (suc n) j byte =
    let later = bit_loop n (j + 1) byte in if is_set byte j then later else some j

-- The outer loop, over the bytes from `i` on; it gives the byte and the bit.
pub byte_loop : (rounds i : ℕ) → Buffer → Option (ℕ × ℕ)
byte_loop zero i b = none
byte_loop (suc n) i b = elim (bit_loop 8 0 (b i)) [
  | none ↦ byte_loop n (i + 1) b
  | some j ↦ some (i, j)
]

-- A group is searched for a directory only if it has more free inodes than the average.
pub is_searched : (condition : ℕ) → Superblock → GroupBlock → Bool
unfolding tot_fs_group
is_searched condition s g =
    let groups = tot_fs_group s.s_blocks_count s.s_blocks_per_group in
    let more_inodes = ltb (s.s_free_inodes_count / groups) g.bg_free_inodes_count in
    let more_blocks = ltb (s.s_free_blocks_count / groups) g.bg_free_blocks_count in
    (more_inodes && more_blocks && condition == 1)
    || (more_inodes && condition == 1)
    || condition == 0

-- An inode number, or -1; `none` is a division by 0, which stops the processor.
pub find_free_inode :
    (group_block_index condition : ℕ)
    → Superblock
    → GroupBlock
    → Option (Option ℕ × Superblock × GroupBlock)
unfolding is_searched byte_loop bit_loop tot_fs_group
find_free_inode index condition s g =
    let found : Option (ℕ × ℕ) =
      if is_searched condition s g
      then byte_loop (s.s_inodes_per_group / 8) 0 g.inode_bitmap
      else none in
    if tot_fs_group s.s_blocks_count s.s_blocks_per_group == 0 then none else elim found [
      | none ↦ some (none, s, g)
      | some (i, j) ↦ some (
        some (i * 8 + j + 1 + index * s.s_inodes_per_group),
        record s { s_free_inodes_count = (s.s_free_inodes_count + 2 ^ 32 - 1) % 2 ^ 32 },
        record g {
          inode_bitmap = write_at g.inode_bitmap i (bit_or (g.inode_bitmap i) (2 ^ j));
          bg_free_inodes_count = (g.bg_free_inodes_count + 2 ^ 16 - 1) % 2 ^ 16;
          bg_used_dirs_count =
              if condition == 1 then (g.bg_used_dirs_count + 1) % 2 ^ 16 else g.bg_used_dirs_count;
        },
      )
    ]

-- The part of `free_inode` for the inode itself; `i_number` is a `u16`, `is_dir` is `i_mode & 0x4000`,
-- and `groups` is what `read_group_block` reads. The index is that of the group written back.
pub free_inode :
    (i_number : ℕ) (is_dir : Bool)
    → Superblock
    → (groups : ℕ → GroupBlock) → ℕ × Superblock × GroupBlock
free_inode i_number is_dir s groups =
    let before = (i_number % 2 ^ 16 + 2 ^ 32 - 1) % 2 ^ 32 in
    let group_block_index = before / s.s_inodes_per_group in
    let inode_index = before % s.s_inodes_per_group in
    let g = groups group_block_index in
    let buffer_byte = inode_index / 8 in
    let byte_bit = inode_index % 8 in
    (
      group_block_index,
      record s { s_free_inodes_count = (s.s_free_inodes_count + 1) % 2 ^ 32 },
      record g {
        bg_free_inodes_count = (g.bg_free_inodes_count + 1) % 2 ^ 16;
        bg_used_dirs_count =
            if is_dir then (g.bg_used_dirs_count + 2 ^ 16 - 1) % 2 ^ 16 else g.bg_used_dirs_count;
        inode_bitmap =
            write_at g.inode_bitmap buffer_byte
              (bit_and (g.inode_bitmap buffer_byte) (255 - 2 ^ byte_bit));
      },
    )

pub bitmap_block : (tot_fs_block block_per_group group_block_index : ℕ) → ℕ
bitmap_block tot per index =
    if ltb tot (block_size * (index + 1)) then (tot % per) * 8 else block_size * 8

-- The loop of `find_free_block`: the first `i` whose bit is clear.
pub block_loop : (rounds i blocks_per_group : ℕ) → Buffer → Option ℕ
unfolding is_set
block_loop zero i per b = none
block_loop (suc n) i per b =
    let later = block_loop n (i + 1) per b in
    if is_set (b (i % per / 8)) (i % per % 8) then later else some i

-- A block number and the bitmap with its bit set, or -1.
pub find_free_block :
    Buffer
    → (group_block_index fs_tot_block fs_block_per_group s_blocks_per_group : ℕ)
    → Option (ℕ × Buffer)
unfolding block_loop bitmap_block
find_free_block b index tot per s_per = elim (block_loop (bitmap_block tot per index) 0 s_per b) [
  | none ↦ none
  | some i ↦
      let buffer_byte = i % s_per / 8 in
      some (
        i + index * block_size * 8 + 1,
        write_at b buffer_byte (bit_or (b buffer_byte) (2 ^ (i % s_per % 8))),
      )
]
