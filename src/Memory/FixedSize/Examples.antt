-- ===== src/Memory/FixedSize/Examples.antt =====
-- A pool of three blocks of eight bytes, two of them lent.
use mathlib.Core.List.Perm
use g_os.Common.{[], arith, if◌then◌else◌, refl, some, ℕ, ◌+◌, ◌==◌, ◌∷◌, ◌≡◌}
use g_os.Memory.FixedSize.{
  Pool, a_fixed_size_alloc, a_fixed_size_free, a_fixed_size_init, header, init_loop, write,
}
use g_os.Memory.FixedSize.Ownership.{IsPool, alloc-IsPool, init-IsPool}
use g_os.Memory.FixedSize.Trace.{IsSound, Reach-IsSound, Shared, allocates, frees, here, next}

abbrev raw : Pool
raw = record {
  first_block = 0;
  block_size = 0;
  current_free_block = 0;
  next_block = λ a. 0;
  previous_block = λ a. 0;
}

-- 50 bytes from 1000 on.
abbrev three : Pool
three = a_fixed_size_init raw 8 1000 50

abbrev three-IsPool : IsPool three 1000 3 []
three-IsPool = init-IsPool raw 8 1000 50

alloc-IsPool_example :
    (a : ℕ) × (p : Pool) × (a_fixed_size_alloc three ≡ some (a + header, p))
    × (p.block_size ≡ 8)
    × IsPool p 1000 3 (a ∷ [])
unfolding a_fixed_size_init init_loop
alloc-IsPool_example = alloc-IsPool three 1000 3 [] three-IsPool (omega arith)

-- The pool after two allocations.
abbrev one_left : Pool
one_left = record {
  first_block = 1032;
  block_size = 8;
  current_free_block = 1;
  next_block = λ a. if a == 1000 then 1016 else if a == 1016 then 1032 else 1000;
  previous_block = λ a. 0;
}

abbrev one_left-IsPool : IsPool one_left 1000 3 (1000 ∷ 1016 ∷ [])
one_left-IsPool = record {
  free = 1032 ∷ [];
  chain = (refl, tt);
  counted = refl;
  owned = Perm.refl (1000 ∷ 1016 ∷ 1032 ∷ []);
}

abbrev lent_one : Shared
lent_one = record {
  pool = record three {
    first_block = 1016;
    current_free_block = 2;
    previous_block = write three.previous_block 1016 0;
  };
  lent = 1000 ∷ [];
}

Reach-IsSound_example :
    IsSound 8 1000 3 (record { pool = a_fixed_size_free lent_one.pool 1008; lent = [] })
unfolding a_fixed_size_init init_loop a_fixed_size_alloc
Reach-IsSound_example =
    Reach-IsSound raw 8 1000 50
      (next (next here (allocates {a = 1000} {p = lent_one.pool} refl)) (frees [] 1000 [] refl))
