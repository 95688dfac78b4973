-- ===== src/Memory/Kmalloc/SizeClass.antt =====
-- Which pool serves a request.
use native.Mathlib.Nat.{pow-le-pow_right}
use g_os.Common.{
  Bool-cases, arith, dec_lt, false, if◌then◌else◌, in_range, inl, inr, leb, refl, suc, true, zero,
  ℕ, ◌+◌, ◌<◌, ◌^◌, ◌≡◌, ◌≤◌,
}
use g_os.Memory.Kmalloc.{pool_loop, pool_num, pool_of_size, pool_switch}

le_of_leb : (a b : ℕ) → leb a b ≡ true → a ≤ b
le_of_leb a b h = ground arith

lt_of_leb : (a b : ℕ) → leb a b ≡ false → b < a
lt_of_leb a b h = ground arith

pool_loop-fits :
    (r i x : ℕ)
    → let j = pool_loop r i x in
      (i ≤ j) × (j ≤ i + r) × (j < i + r → x ≤ 2 ^ (2 + j)) × (i < j → 2 ^ (1 + j) < x)
unfolding pool_loop
pool_loop-fits zero i x =
    (omega arith, omega arith, λ h. absurd (omega arith), λ h. absurd (omega arith))
pool_loop-fits (suc r) i x = elim (Bool-cases (leb x (2 ^ (2 + i)))) [
  | inl fits ↦
      rw fits (omega arith, omega arith, λ h. le_of_leb _ _ fits, λ h. absurd (omega arith))
  | inr small ↦
      let (low, high, fits, least) = pool_loop-fits r (i + 1) x in
      rw small (
        omega arith,
        omega arith,
        λ h. fits (omega arith),
        λ h. elim (dec_lt (i + 1) (pool_loop r (i + 1) x)) [
          | yes l ↦ least l
          | no n ↦
              let same : 1 + pool_loop r (i + 1) x ≡ 2 + i = omega arith in
              rw same (lt_of_leb _ _ small)
        ],
      )
]

-- A request of at most 131072 bytes is served by the pool of the smallest blocks that hold it, and a
-- larger one by none.
pub pool_of_size-fits :
    (x : ℕ)
    → let i = pool_of_size x in
      (x ≤ 131072 → (i < pool_num) × (x ≤ 2 ^ (2 + i)))
      × (0 < i → 2 ^ (1 + i) < x)
      × (131072 < x → i ≡ pool_num)
unfolding pool_of_size
pool_of_size-fits x =
    let (low, high, fits, least) = pool_loop-fits 16 0 x in
    let bounded : x ≤ 131072 → pool_loop 16 0 x < 16 = λ h. elim (dec_lt (pool_loop 16 0 x) 16) [
      | yes l ↦ l
      | no n ↦
          let last : pool_loop 16 0 x ≡ 16 = omega arith in
          let over : 131072 < x = rw last at (least (rw last (omega arith))) in absurd (omega arith)
    ] in
    (
      λ h. (bounded h, fits (bounded h)),
      least,
      λ h. elim (dec_lt (pool_loop 16 0 x) 16) [
        | yes l ↦ absurd (too_large (pool_loop 16 0 x) x l (fits l) h)
        | no n ↦ omega arith
      ],
    )
  where
    bounded_exponent : (i : ℕ) → i < 16 → 2 + i ≤ 17
    bounded_exponent i h = omega arith

    too_large : (i x : ℕ) → i < 16 → x ≤ 2 ^ (2 + i) → ¬ (131072 < x)
    too_large i x h le lt =
        let top : 2 ^ (2 + i) ≤ 2 ^ 17 =
          pow-le-pow_right {n = 2} (omega arith) (bounded_exponent i h) in
        omega arith

-- One `case` of the `switch` against one round of the loop.
case_round :
    (x low high i a b : ℕ)
    → leb x low ≡ false
    → (leb x high ≡ false → a ≡ b)
    → (if in_range (low + 1) high x then i else a) ≡ (if leb x high then i else b)
case_round x low high i a b below later = elim (Bool-cases (leb x high)) [
  | inl e ↦ ground arith
  | inr e ↦ ground (arith, later e)
]

first_round :
    (x high i a b : ℕ)
    → (leb x high ≡ false → a ≡ b)
    → (if in_range 0 high x then i else a) ≡ (if leb x high then i else b)
first_round x high i a b later = elim (Bool-cases (leb x high)) [
  | inl e ↦ ground arith
  | inr e ↦ ground (arith, later e)
]

-- `_kmalloc` and `kmalloc` take the same pool for every size.
pub switch-loop : (x : ℕ) → pool_switch x ≡ pool_of_size x
unfolding pool_switch pool_of_size pool_loop
switch-loop x = first_round x 4 0 _ _ λ n. case_round x 4 8 1 _ _ n λ n.
    case_round x 8 16 2 _ _ n λ n. case_round x 16 32 3 _ _ n λ n. case_round x 32 64 4 _ _ n λ n.
      case_round x 64 128 5 _ _ n λ n. case_round x 128 256 6 _ _ n λ n.
        case_round x 256 512 7 _ _ n λ n. case_round x 512 1024 8 _ _ n λ n.
          case_round x 1024 2048 9 _ _ n λ n. case_round x 2048 4096 10 _ _ n λ n.
            case_round x 4096 8192 11 _ _ n λ n. case_round x 8192 16384 12 _ _ n λ n.
              case_round x 16384 32768 13 _ _ n λ n.
                case_round x 32768 65536 14 _ _ n λ n. case_round x 65536 131072 15 _ _ n λ n. refl
