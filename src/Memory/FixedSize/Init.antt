-- ===== src/Memory/FixedSize/Init.antt =====
-- `a_fixed_size_init` threads the free list through every block that fits.
use g_os.Common.{arith, refl, suc, zero, ℕ, ◌+◌, ◌-◌, ◌/◌, ◌<◌, ◌∙◌, ◌≡◌}
use g_os.Memory.FixedSize.{Pool, a_fixed_size_init, init_loop, stride, write}
use g_os.Memory.FixedSize.Blocks.{Chain, blocks}

init_loop-next_below :
    (r c prv : ℕ) (p : Pool) (a : ℕ) → a < c → (init_loop r c prv p).next_block a ≡ p.next_block a
unfolding init_loop
init_loop-next_below zero c prv p a h = ground arith
init_loop-next_below (suc r) c prv p a h =
    init_loop-next_below r (c + stride p.block_size) c _ a (omega arith) ∙ ground arith

pub init_loop-fields :
    (r c prv : ℕ) (p : Pool)
    → let q = init_loop r c prv p in
      (q.first_block ≡ p.first_block)
      × (q.block_size ≡ p.block_size)
      × (q.current_free_block ≡ p.current_free_block)
unfolding init_loop
init_loop-fields zero c prv p = (refl, refl, refl)
init_loop-fields (suc r) c prv p = init_loop-fields r (c + stride p.block_size) c _

pub init_loop-Chain :
    (r c prv : ℕ) (p : Pool)
    → Chain (init_loop r c prv p).next_block c (blocks c (stride p.block_size) (suc r))
unfolding init_loop
init_loop-Chain zero c prv p = (refl, tt)
init_loop-Chain (suc r) c prv p =
    let step = stride p.block_size in
    let q : Pool = record p {
      next_block = write p.next_block c (c + step);
      previous_block = write p.previous_block c prv;
    } in
    let link : (init_loop r (c + step) c q).next_block c ≡ c + step =
      init_loop-next_below r (c + step) c q c (omega arith) ∙ ground arith in
    (refl, rw link (init_loop-Chain r (c + step) c q))

pub init-block_size :
    (p : Pool) (block_size mem_addr size : ℕ)
    → (a_fixed_size_init p block_size mem_addr size).block_size ≡ block_size
unfolding a_fixed_size_init
init-block_size p block_size mem_addr size =
    (init_loop-fields (size / stride block_size - 1) mem_addr 0 _).1

pub init-count :
    (p : Pool) (block_size mem_addr size : ℕ)
    → (a_fixed_size_init p block_size mem_addr size).current_free_block ≡ size / stride block_size
unfolding a_fixed_size_init
init-count p block_size mem_addr size =
    (init_loop-fields (size / stride block_size - 1) mem_addr 0 _).2
