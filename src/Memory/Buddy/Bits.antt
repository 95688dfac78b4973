-- ===== src/Memory/Buddy/Bits.antt =====
-- What `^`, `&` and `|` do to the addresses and the entries of `order`: a block and its neighbour
-- differ in one bit, and bit 4 marks an allocated block.
use Prim.Native.Nat.{
  bit_and, bit_or, bit_xor, digits, bitwise, differ, bit_and-bitwise, bit_xor-bitwise,
}
use g_os.Common.{
  Bool, ap, ap₂, arith, min, refl, suc, true, zero, ℕ, ◌%◌, ◌&&◌, ◌*◌, ◌+◌, ◌/◌, ◌<◌, ◌==◌, ◌∙◌,
  ◌≡◌, ◌≤◌,
}
use g_os.Memory.Buddy.{pages}

module _ (z : ℕ → ℕ) (f : ℕ → ℕ → ℕ) where
  digits_enough : (n m a b : ℕ) → a ≤ n → a ≤ m → digits z f n a b ≡ digits z f m a b
  digits_enough zero zero a b p q = refl
  digits_enough zero (suc m) zero b p q = refl
  digits_enough zero (suc m) (suc a) b p q = absurd (omega arith)
  digits_enough (suc n) zero zero b p q = refl
  digits_enough (suc n) zero (suc a) b p q = absurd (omega arith)
  digits_enough (suc n) (suc m) zero b p q = refl
  digits_enough (suc n) (suc m) (suc a) b p q =
      rw (digits_enough n m (suc a / 2) (b / 2) (omega arith) (omega arith))

  low_digit :
      (a b : ℕ)
      → bitwise z f (suc a) b ≡ bitwise z f (suc a / 2) (b / 2) * 2 + f (suc a % 2) (b % 2)
  low_digit a b =
      omega (arith, digits_enough a (suc a / 2) (suc a / 2) (b / 2) (omega arith) (omega arith))

and_digit : (a b : ℕ) → bit_and a b ≡ bit_and (a / 2) (b / 2) * 2 + min (a % 2) (b % 2)
and_digit zero b = simp bit_and-bitwise (omega arith)
and_digit (suc a) b = simp bit_and-bitwise (low_digit (λ y. 0) min a b)

xor_digit : (a b : ℕ) → bit_xor a b ≡ bit_xor (a / 2) (b / 2) * 2 + differ (a % 2) (b % 2)
xor_digit zero b = simp bit_xor-bitwise (omega arith)
xor_digit (suc a) b = simp bit_xor-bitwise (low_digit (λ y. y) differ a b)

differ-zero : (x : ℕ) → differ x 0 ≡ x
differ-zero zero = refl
differ-zero (suc x) = refl

-- The lowest digit of the result, by that of one side.
xor_left_even : (a b : ℕ) → a % 2 ≡ 0 → bit_xor a b ≡ bit_xor (a / 2) (b / 2) * 2 + b % 2
xor_left_even a b e = xor_digit a b ∙ rw e refl

xor_right_even : (a b : ℕ) → b % 2 ≡ 0 → bit_xor a b ≡ bit_xor (a / 2) (b / 2) * 2 + a % 2
xor_right_even a b e = xor_digit a b ∙ rw (e, differ-zero (a % 2)) refl

xor_odd : (a b : ℕ) → a % 2 ≡ 1 → b % 2 ≡ 1 → bit_xor a b ≡ bit_xor (a / 2) (b / 2) * 2
xor_odd a b e f = xor_digit a b ∙ rw (e, f) (omega arith)

and_self_fuel : (n a : ℕ) → a ≤ n → bit_and a a ≡ a
and_self_fuel n zero h = refl
and_self_fuel zero (suc a) h = absurd (omega arith)
and_self_fuel (suc n) (suc a) h =
    omega (arith, and_digit (suc a) (suc a), and_self_fuel n (suc a / 2) (omega arith))

pub and_self : (a : ℕ) → bit_and a a ≡ a
and_self a = and_self_fuel a a (omega arith)

xor-zero_fuel : (n a : ℕ) → a ≤ n → bit_xor a 0 ≡ a
xor-zero_fuel n zero h = refl
xor-zero_fuel zero (suc a) h = absurd (omega arith)
xor-zero_fuel (suc n) (suc a) h =
    omega (arith, xor_right_even (suc a) 0 refl, xor-zero_fuel n (suc a / 2) (omega arith))

xor-zero : (a : ℕ) → bit_xor a 0 ≡ a
xor-zero a = xor-zero_fuel a a (omega arith)

-- `q` blocks of the order above `i`.
abbrev pub even : (q i : ℕ) → ℕ
even q i = q * (pages i + pages i)

even-suc : (q i : ℕ) → even q (suc i) ≡ even q i + even q i
unfolding pages
even-suc q i = grind arith

pub xor-lower : (i q : ℕ) → bit_xor (even q i) (pages i) ≡ even q i + pages i
unfolding pages
xor-lower zero q =
    let half : even q 0 / 2 ≡ q = omega arith in
    omega (arith, xor_left_even (even q 0) 1 (omega arith), ap (λ t. bit_xor t 0) half, xor-zero q)
xor-lower (suc i) q =
    let half : even q (suc i) / 2 ≡ even q i = omega (arith, even-suc q i) in
    let half' : (pages i + pages i) / 2 ≡ pages i = omega arith in
    omega (
      arith,
      xor_right_even (even q (suc i)) (pages (suc i)) (omega arith),
      ap₂ bit_xor half half',
      xor-lower i q,
      even-suc q i,
    )

pub xor-upper : (i q : ℕ) → bit_xor (even q i + pages i) (pages i) ≡ even q i
unfolding pages
xor-upper zero q =
    let half : (even q 0 + 1) / 2 ≡ q = omega arith in
    omega
      (arith, xor_odd (even q 0 + 1) 1 (omega arith) refl, ap (λ t. bit_xor t 0) half, xor-zero q)
xor-upper (suc i) q =
    let half : (even q (suc i) + pages (suc i)) / 2 ≡ even q i + pages i =
      omega (arith, even-suc q i) in
    let half' : (pages i + pages i) / 2 ≡ pages i = omega arith in
    omega (
      arith,
      xor_right_even (even q (suc i) + pages (suc i)) (pages (suc i)) (omega arith),
      ap₂ bit_xor half half',
      xor-upper i q,
      even-suc q i,
    )

pub and-lower : (i q : ℕ) → bit_and (even q i) (even q i + pages i) ≡ even q i
unfolding pages
and-lower zero q =
    let half : even q 0 / 2 ≡ q = omega arith in
    let half' : (even q 0 + 1) / 2 ≡ q = omega arith in
    omega (arith, and_digit (even q 0) (even q 0 + 1), ap₂ bit_and half half', and_self q)
and-lower (suc i) q =
    let half : even q (suc i) / 2 ≡ even q i = omega (arith, even-suc q i) in
    let half' : (even q (suc i) + pages (suc i)) / 2 ≡ even q i + pages i =
      omega (arith, even-suc q i) in
    omega (
      arith,
      and_digit (even q (suc i)) (even q (suc i) + pages (suc i)),
      ap₂ bit_and half half',
      and-lower i q,
      even-suc q i,
    )

pub and-upper : (i q : ℕ) → bit_and (even q i + pages i) (even q i) ≡ even q i
unfolding pages
and-upper zero q =
    let half : even q 0 / 2 ≡ q = omega arith in
    let half' : (even q 0 + 1) / 2 ≡ q = omega arith in
    omega (arith, and_digit (even q 0 + 1) (even q 0), ap₂ bit_and half' half, and_self q)
and-upper (suc i) q =
    let half : even q (suc i) / 2 ≡ even q i = omega (arith, even-suc q i) in
    let half' : (even q (suc i) + pages (suc i)) / 2 ≡ even q i + pages i =
      omega (arith, even-suc q i) in
    omega (
      arith,
      and_digit (even q (suc i) + pages (suc i)) (even q (suc i)),
      ap₂ bit_and half' half,
      and-upper i q,
      even-suc q i,
    )

-- The entries of `order`, checked one by one.
abbrev entries_below : ℕ → Bool
entries_below zero = true
entries_below (suc k) =
    bit_and k 15 == k
    && bit_and k 16 == 0
    && bit_or k 16 == (k + 16)
    && bit_and (k + 16) 15 == k
    && bit_and (k + 16) 16 == 16
    && entries_below k

entries-table : entries_below 16 ≡ true
entries-table = refl

-- The order of a free block and of an allocated one, read back.
entry_lem :
    (n k : ℕ)
    → entries_below n ≡ true
    → k < n
    → (bit_and k 15 ≡ k)
      × (bit_and k 16 ≡ 0)
      × (bit_or k 16 ≡ k + 16)
      × (bit_and (k + 16) 15 ≡ k)
      × (bit_and (k + 16) 16 ≡ 16)
entry_lem zero k h lt = absurd (omega arith)
entry_lem (suc n) k h lt = ground (arith, entry_lem n k)

pub entry :
    (k : ℕ)
    → k < 16
    → (bit_and k 15 ≡ k)
      × (bit_and k 16 ≡ 0)
      × (bit_or k 16 ≡ k + 16)
      × (bit_and (k + 16) 15 ≡ k)
      × (bit_and (k + 16) 16 ≡ 16)
entry k lt = entry_lem 16 k entries-table lt
