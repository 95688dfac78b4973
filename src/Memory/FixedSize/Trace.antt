-- ===== src/Memory/FixedSize/Trace.antt =====
-- Callers of a pool: any sequence of allocations and of frees of what was lent.
use g_os.Common.{
  Bool-cases, List, Option, [], arith, inl, inr, some, sym, ℕ, ◌++◌, ◌+◌, ◌/◌, ◌==◌, ◌∙◌, ◌∷◌, ◌≡◌,
}
use g_os.Memory.FixedSize.{
  Pool, a_fixed_size_alloc, a_fixed_size_free, a_fixed_size_init, header, stride,
}
use g_os.Memory.FixedSize.Blocks.{}
use g_os.Memory.FixedSize.Ownership.{
  IsPool, alloc-IsPool, alloc_exhausted, free-IsPool, init-IsPool,
}
use g_os.Memory.FixedSize.Init.{init-block_size}

-- A pool, and the blocks that callers hold.
pub record Shared : Type 0 where
  pub pool : Pool
  pub lent : List ℕ

pub data Step (s : Shared) : Shared → Type 0 where
  allocates :
      {a : ℕ} {p : Pool}
      → a_fixed_size_alloc s.pool ≡ some (a + header, p)
      → Step s (record { pool = p; lent = a ∷ s.lent })
  frees :
      (ys : List ℕ) (a : ℕ) (zs : List ℕ)
      → s.lent ≡ ys ++ a ∷ zs
      → Step s (record { pool = a_fixed_size_free s.pool (a + header); lent = ys ++ zs })

pub data Reach (s : Shared) : Shared → Type 0 where
  here : Reach s s
  next : {t u : Shared} → Reach s t → Step t u → Reach s u

-- What holds of a pool made by `a_fixed_size_init` whatever its callers do.
abbrev pub IsSound : (block_size base n : ℕ) → Shared → Type 0
IsSound block_size base n s = (s.pool.block_size ≡ block_size) × IsPool s.pool base n s.lent

Step-IsSound : (bs base n : ℕ) {s t : Shared} → Step s t → IsSound bs base n s → IsSound bs base n t
Step-IsSound bs base n {s} (allocates {a} {p} e) (size, v) =
    elim (Bool-cases (s.pool.current_free_block == 0)) [
      | inl none_left ↦ absurd (ground (arith, alloc_exhausted s.pool))
      | inr some_left ↦
          let (b, q, e', same, v') = alloc-IsPool s.pool base n s.lent v (ground arith) in
          let fit : Path (Option (ℕ × Pool)) (some (a + header, p)) (some (b + header, q)) =
            sym e ∙ e' in
          let pools : p ≡ q = ground arith in
          let heads : a ≡ b = ground arith in rw (pools, heads) (same ∙ size, v')
    ]
Step-IsSound bs base n {s} (frees ys a zs e) (size, v) =
    let (same, v') = free-IsPool s.pool base n ys a zs (rw e at v) in (same ∙ size, v')

-- In every state that a fresh pool can reach, the blocks lent and the free ones are together all
-- blocks of the pool, each once, and `current_free_block` counts the free ones.
pub Reach-IsSound :
    (p : Pool) (block_size mem_addr size : ℕ) {t : Shared}
    → Reach (record { pool = a_fixed_size_init p block_size mem_addr size; lent = [] }) t
    → IsSound block_size mem_addr (size / stride block_size) t
Reach-IsSound p block_size mem_addr size here =
    (init-block_size p block_size mem_addr size, init-IsPool p block_size mem_addr size)
Reach-IsSound p block_size mem_addr size (next r s) =
    Step-IsSound block_size mem_addr (size / stride block_size) s
      (Reach-IsSound p block_size mem_addr size r)
