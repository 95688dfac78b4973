-- ===== src/Memory/FixedSize/Ownership.antt =====
-- Who owns which block: the blocks of a pool are those lent to callers and those on the free list.
use mathlib.Core.List.{
  Mem, Perm, perm_middle, Nodup, Nodup-cons, mem-append_right, mem-append_left, mem-cons_self,
  mem-cons_of_mem,
}
use mathlib.Core.List.Perm
use g_os.Common.{
  ==_refl, List, [], arith, false, if◌then◌else◌, length, none, refl, some, suc, sym, zero, ℕ, ◌*◌,
  ◌++◌, ◌+◌, ◌-◌, ◌/◌, ◌<◌, ◌==◌, ◌∙◌, ◌∷◌, ◌≡◌, ◌≢◌, ◌≤◌,
}
use g_os.Memory.FixedSize.{
  Pool, a_fixed_size_alloc, a_fixed_size_free, a_fixed_size_init, header, init_loop, stride, write,
}
use g_os.Memory.FixedSize.Blocks.{
  Chain, Chain-write, blocks, blocks-Nodup, blocks_apart, le_of_mem-blocks, length-blocks,
  lt_of_mem-blocks,
}
use g_os.Memory.FixedSize.Init.{init_loop-Chain, init_loop-fields}

pub record IsPool (p : Pool) (base n : ℕ) (lent : List ℕ) : Type 0 where
  pub free : List ℕ
  pub chain : Chain p.next_block p.first_block free
  pub counted : p.current_free_block ≡ length free
  pub owned : Perm (lent ++ free) (blocks base (stride p.block_size) n)

-- `a_fixed_size_init` makes a pool of as many blocks as fit, all of them free.
pub init-IsPool :
    (p : Pool) (block_size mem_addr size : ℕ)
    → IsPool (a_fixed_size_init p block_size mem_addr size) mem_addr (size / stride block_size) []
unfolding a_fixed_size_init
init-IsPool p block_size mem_addr size = init_pool (size / stride block_size)
  where
    init_pool :
        (n : ℕ)
        → IsPool
            (init_loop (n - 1) mem_addr 0 (record p {
              first_block = mem_addr;
              block_size = block_size;
              current_free_block = n;
            }))
            mem_addr
            n
            []
    init_pool zero = record { free = []; chain = tt; counted = refl; owned = Perm.refl [] }
    init_pool (suc n) =
        let q : Pool = record p {
          first_block = mem_addr;
          block_size = block_size;
          current_free_block = suc n;
        } in
        let same : suc n - 1 ≡ n = omega arith in
        let (first, bs, count) = init_loop-fields n mem_addr 0 q in
        rw same (record {
          free = blocks mem_addr (stride block_size) (suc n);
          chain = rw first (init_loop-Chain n mem_addr 0 q);
          counted = count ∙ sym (length-blocks mem_addr (stride block_size) (suc n));
          owned = rw bs (Perm.refl (blocks mem_addr (stride block_size) (suc n)));
        })

-- While a block is free, `a_fixed_size_alloc` lends one.
pub alloc-IsPool :
    (p : Pool) (base n : ℕ) (lent : List ℕ)
    → IsPool p base n lent
    → 0 < p.current_free_block
    → (a : ℕ) × (p' : Pool) × (a_fixed_size_alloc p ≡ some (a + header, p'))
      × (p'.block_size ≡ p.block_size)
      × IsPool p' base n (a ∷ lent)
unfolding a_fixed_size_alloc
alloc-IsPool p base n lent v pos = lend v.free v.chain v.counted v.owned
  where
    lend :
        (free : List ℕ)
        → Chain p.next_block p.first_block free
        → p.current_free_block ≡ length free
        → Perm (lent ++ free) (blocks base (stride p.block_size) n)
        → (a : ℕ) × (p' : Pool) × (a_fixed_size_alloc p ≡ some (a + header, p'))
          × (p'.block_size ≡ p.block_size)
          × IsPool p' base n (a ∷ lent)
    lend [] c count o = absurd (omega arith)
    lend (b ∷ bs) c count o =
        let some_free : (p.current_free_block == 0) ≡ false = ground arith in
        (
          p.first_block,
          record p {
            first_block = p.next_block p.first_block;
            current_free_block = p.current_free_block - 1;
            previous_block =
                if p.next_block p.first_block == 0
                then p.previous_block
                else write p.previous_block (p.next_block p.first_block) 0;
          },
          rw some_free,
          refl,
          record {
            free = bs;
            chain = rw c.0 c.1;
            counted = omega arith;
            owned = rw c.0 (Perm.trans (Perm.symm (perm_middle lent bs)) o);
          },
        )

-- A pool with no free block panics.
pub alloc_exhausted : (p : Pool) → p.current_free_block ≡ 0 → a_fixed_size_alloc p ≡ none
unfolding a_fixed_size_alloc
alloc_exhausted p e = ground arith

-- `a_fixed_size_free` of a lent block takes it back.
pub free-IsPool :
    (p : Pool) (base n : ℕ) (ys : List ℕ) (a : ℕ) (zs : List ℕ)
    → IsPool p base n (ys ++ a ∷ zs)
    → ((a_fixed_size_free p (a + header)).block_size ≡ p.block_size)
      × IsPool (a_fixed_size_free p (a + header)) base n (ys ++ zs)
unfolding a_fixed_size_free
free-IsPool p base n ys a zs v =
    let same : a + header - header ≡ a = omega arith in
    let front : Perm (a ∷ (ys ++ zs) ++ v.free) (blocks base (stride p.block_size) n) =
      Perm.trans (Perm.append_right v.free (Perm.symm (perm_middle ys zs))) v.owned in
    let distinct : Nodup (a ∷ (ys ++ zs) ++ v.free) =
      Perm.nodup (Perm.symm front) (blocks-Nodup base (stride p.block_size) n (omega arith)) in
    let out : ¬ Mem a v.free = λ m. (Nodup-cons.0 distinct).0 (mem-append_right (ys ++ zs) m) in
    (
      refl,
      rw same (record {
        free = a ∷ v.free;
        chain =
            (refl, rw (==_refl a) (Chain-write p.next_block a p.first_block _ v.free out v.chain));
        counted = omega (arith, v.counted);
        owned = Perm.trans (perm_middle (ys ++ zs) v.free) front;
      }),
    )

-- Lent blocks lie inside the pool.
pub lent_bounds :
    (p : Pool) (base n : ℕ) (lent : List ℕ) (a : ℕ)
    → IsPool p base n lent
    → Mem a lent
    → (base ≤ a) × (a + stride p.block_size ≤ base + n * stride p.block_size)
lent_bounds p base n lent a v m =
    let within = (Perm.mem_iff v.owned).0 (mem-append_left v.free m) in
    (
      le_of_mem-blocks base (stride p.block_size) n a within,
      lt_of_mem-blocks base (stride p.block_size) n a (omega arith) within,
    )

-- Two lent blocks share no byte: they differ, and the lower one ends before the higher begins.
pub lent_apart :
    (p : Pool) (base n : ℕ) (a : ℕ) (lent : List ℕ) (b : ℕ)
    → IsPool p base n (a ∷ lent)
    → Mem b lent
    → (a ≢ b)
      × (a < b → a + stride p.block_size ≤ b)
      × (b < a → b + stride p.block_size ≤ a)
      × (base ≤ a)
      × (a + stride p.block_size ≤ base + n * stride p.block_size)
lent_apart p base n a lent b v m =
    let step = stride p.block_size in
    let distinct = Perm.nodup (Perm.symm v.owned) (blocks-Nodup base step n (omega arith)) in
    let ma = (Perm.mem_iff v.owned).0 (mem-cons_self) in
    let mb = (Perm.mem_iff v.owned).0 (mem-cons_of_mem a (mem-append_left v.free m)) in
    let (low, high) = lent_bounds p base n (a ∷ lent) a v mem-cons_self in
    (
      λ e. (Nodup-cons.0 distinct).0 (mem-append_left v.free (rw e m)),
      blocks_apart base step n a b (omega arith) ma mb,
      blocks_apart base step n b a (omega arith) mb ma,
      low,
      high,
    )

-- Any two lent blocks of a pool, the lower one first.
pub lent_in_order :
    (p : Pool) (base n : ℕ) (lent : List ℕ) (a b : ℕ)
    → IsPool p base n lent
    → Mem a lent
    → Mem b lent
    → a < b
    → a + stride p.block_size ≤ b
lent_in_order p base n lent a b v ma mb lt =
    blocks_apart base (stride p.block_size) n a b (omega arith)
      ((Perm.mem_iff v.owned).0 (mem-append_left v.free ma))
      ((Perm.mem_iff v.owned).0 (mem-append_left v.free mb)) lt

-- The block lent last was not lent before.
pub lent_once :
    (p : Pool) (base n a : ℕ) (lent : List ℕ) → IsPool p base n (a ∷ lent) → ¬ Mem a lent
lent_once p base n a lent v m = (lent_apart p base n a lent a v m).0 refl

pub alloc-count :
    (p : Pool) (x : ℕ) (q : Pool)
    → a_fixed_size_alloc p ≡ some (x, q)
    → q.current_free_block ≡ p.current_free_block - 1
unfolding a_fixed_size_alloc
alloc-count p x q e = ground (arith, e)
