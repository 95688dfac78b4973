-- ===== src/Memory/FixedSize.antt =====
-- memory_manager/fixed_size.c: a pool of blocks of one size, threaded on a list through the header
-- of each free block. Addresses are numbers; a header is what `next_block` and `previous_block`
-- hold at its address.
pub mod Blocks
pub mod Init
pub mod Ownership
pub mod Trace
mod Examples
use g_os.Common.{Option, if◌then◌else◌, none, some, suc, zero, ℕ, ◌+◌, ◌-◌, ◌/◌, ◌==◌}

-- `t_a_fixed_size_desc`, and the headers of the pool's blocks.
pub record Pool : Type 0 where
  pub first_block : ℕ
  pub block_size : ℕ
  pub current_free_block : ℕ
  pub next_block : ℕ → ℕ
  pub previous_block : ℕ → ℕ

-- `sizeof(t_block_desc)`
abbrev pub header : ℕ
header = 8

abbrev pub stride : ℕ → ℕ
stride block_size = header + block_size

abbrev pub write : (ℕ → ℕ) → ℕ → ℕ → ℕ → ℕ
write f a v x = if a == x then v else f x

-- The loop of `a_fixed_size_init` over the blocks after the first, and the three writes that follow
-- it: `current` is `current_block_desc`, `previous` is `previous_block_desc`.
pub init_loop : (rounds current previous : ℕ) → Pool → Pool
init_loop zero current previous p = record p {
  next_block = write p.next_block current p.first_block;
  previous_block = write (write p.previous_block current previous) p.first_block current;
}
init_loop (suc r) current previous p =
    let next = current + stride p.block_size in
    init_loop r next current (record p {
      next_block = write p.next_block current next;
      previous_block = write p.previous_block current previous;
    })

-- The headers before the call are those of `p`, whatever they hold.
pub a_fixed_size_init : Pool → (block_size mem_addr size : ℕ) → Pool
unfolding init_loop
a_fixed_size_init p block_size mem_addr size =
    let num_block = size / stride block_size in
    init_loop (num_block - 1) mem_addr 0
      (record p { first_block = mem_addr; block_size = block_size; current_free_block = num_block })

-- `none` is the call of `panic`. The address returned is that behind the header.
pub a_fixed_size_alloc : Pool → Option (ℕ × Pool)
a_fixed_size_alloc p =
    let next = p.next_block p.first_block in
    if p.current_free_block == 0
    then none
    else some (
      p.first_block + header,
      record p {
        first_block = next;
        current_free_block = p.current_free_block - 1;
        previous_block = if next == 0 then p.previous_block else write p.previous_block next 0;
      },
    )

pub a_fixed_size_free : Pool → (address : ℕ) → Pool
a_fixed_size_free p address =
    let current = address - header in
    let first = p.first_block in
    record p {
      first_block = current;
      current_free_block = p.current_free_block + 1;
      next_block = write p.next_block current first;
      previous_block = write (write p.previous_block current 0) first current;
    }
