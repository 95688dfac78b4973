-- ===== src/Ext2/Bitmap/Bits.antt =====
-- The bits of a byte and of a buffer.
use g_os.Common.{
  ==_refl, Bool, Bool-cases, and_true, arith, eq_of_==, false, fun_ext, if◌then◌else◌, inl, inr,
  ltb, not, refl, suc, sym, true, true-ne-false, zero, ℕ, ◌%◌, ◌&&◌, ◌-◌, ◌/◌, ◌<◌, ◌==◌, ◌^◌, ◌∙◌,
  ◌≡◌, ◌⊎◌,
}
use Prim.Native.Nat.{bit_and, bit_or}
use g_os.Ext2.Bitmap.{Buffer, is_set, write_at}

-- The laws of one byte, checked for all values.
abbrev same : Bool → Bool → Bool
same true b = b
same false b = not b

bits_law : (x j k : ℕ) → Bool
unfolding is_set
bits_law x j k =
    same (is_set (bit_or x (2 ^ j)) k) (if k == j then true else is_set x k)
    && same (is_set (bit_and x (255 - 2 ^ j)) k) (if k == j then false else is_set x k)

byte_law : (x j : ℕ) → Bool
unfolding is_set
byte_law x j =
    ltb (bit_or x (2 ^ j)) 256
    && ltb (bit_and x (255 - 2 ^ j)) 256
    && (if is_set x j then true else bit_and (bit_or x (2 ^ j)) (255 - 2 ^ j) == x)

all_below : ℕ → (ℕ → Bool) → Bool
all_below zero p = true
all_below (suc n) p = p n && all_below n p

all_below-at : (n : ℕ) (p : ℕ → Bool) (x : ℕ) → all_below n p ≡ true → x < n → p x ≡ true
unfolding all_below
all_below-at zero p x h lt = absurd (omega arith)
all_below-at (suc n) p x h lt = ground (arith, all_below-at n p x)

bits-table : all_below 256 (λ x. all_below 8 (λ j. all_below 8 (λ k. bits_law x j k))) ≡ true
unfolding all_below bits_law
bits-table = refl

byte-table : all_below 256 (λ x. all_below 8 (λ j. byte_law x j)) ≡ true
unfolding all_below byte_law
byte-table = refl

eq_of_same : (a b : Bool) → same a b ≡ true → a ≡ b
eq_of_same true true h = refl
eq_of_same true false h = cc
eq_of_same false true h = cc
eq_of_same false false h = refl

-- Setting and clearing a bit of a byte.
pub is_set-laws :
    (x j k : ℕ)
    → x < 256
    → j < 8
    → k < 8
    → (is_set (bit_or x (2 ^ j)) k ≡ (if k == j then true else is_set x k))
      × (is_set (bit_and x (255 - 2 ^ j)) k ≡ (if k == j then false else is_set x k))
unfolding bits_law
is_set-laws x j k hx hj hk =
    let at_x =
      all_below-at 256 (λ y. all_below 8 (λ i. all_below 8 (λ l. bits_law y i l))) x bits-table
        hx in
    let at_j = all_below-at 8 (λ i. all_below 8 (λ l. bits_law x i l)) j at_x hj in
    let at_k = all_below-at 8 (λ l. bits_law x j l) k at_j hk in
    let both = and_true _ _ at_k in (eq_of_same _ _ both.0, eq_of_same _ _ both.1)

-- A buffer holds bytes.
unfoldable pub IsBytes : Buffer → Type 0
IsBytes b = (x : ℕ) → b x < 256

unfoldable pub bit_at : Buffer → ℕ → Bool
bit_at b n = is_set (b (n / 8)) (n % 8)

abbrev pub set_bit : Buffer → ℕ → Buffer
set_bit b n = write_at b (n / 8) (bit_or (b (n / 8)) (2 ^ (n % 8)))

abbrev pub clear_bit : Buffer → ℕ → Buffer
clear_bit b n = write_at b (n / 8) (bit_and (b (n / 8)) (255 - 2 ^ (n % 8)))

same_byte : (n m : ℕ) → m / 8 ≡ n / 8 → (m % 8 == n % 8) ≡ (m == n)
same_byte n m e = ground arith

other_byte : (n m : ℕ) → (m / 8 == n / 8) ≡ false → (m == n) ≡ false
other_byte n m h = ground arith

pub bit_at-set_bit :
    (b : Buffer) (n m : ℕ)
    → IsBytes b
    → bit_at (set_bit b n) m ≡ (if m == n then true else bit_at b m)
unfolding IsBytes bit_at
bit_at-set_bit b n m is = elim (Bool-cases (m / 8 == n / 8)) [
  | inl here ↦
      let e = eq_of_== (m / 8) (n / 8) here in
      rw (here, ← same_byte n m e, e)
        ((is_set-laws (b (n / 8)) (n % 8) (m % 8) (is _) (omega arith) (omega arith)).0)
  | inr there ↦ rw (there, other_byte n m there) refl
]

pub bit_at-clear_bit :
    (b : Buffer) (n m : ℕ)
    → IsBytes b
    → bit_at (clear_bit b n) m ≡ (if m == n then false else bit_at b m)
unfolding IsBytes bit_at
bit_at-clear_bit b n m is = elim (Bool-cases (m / 8 == n / 8)) [
  | inl here ↦
      let e = eq_of_== (m / 8) (n / 8) here in
      rw (here, ← same_byte n m e, e)
        ((is_set-laws (b (n / 8)) (n % 8) (m % 8) (is _) (omega arith) (omega arith)).1)
  | inr there ↦ rw (there, other_byte n m there) refl
]

byte_laws :
    (x j : ℕ)
    → x < 256
    → j < 8
    → (bit_or x (2 ^ j) < 256)
      × ((is_set x j ≡ true) ⊎ (bit_and (bit_or x (2 ^ j)) (255 - 2 ^ j) ≡ x))
unfolding byte_law
byte_laws x j hx hj =
    let at_x = all_below-at 256 (λ y. all_below 8 (λ i. byte_law y i)) x byte-table hx in
    let at_j = all_below-at 8 (λ i. byte_law x i) j at_x hj in
    (ground arith, elim (Bool-cases (is_set x j)) [ inl e ↦ inl e | inr e ↦ inr (ground arith) ])

pub set_bit-IsBytes : (b : Buffer) (n : ℕ) → IsBytes b → IsBytes (set_bit b n)
unfolding IsBytes
set_bit-IsBytes b n is x = elim (Bool-cases (x == n / 8)) [
  | inl here ↦ rw here ((byte_laws (b (n / 8)) (n % 8) (is _) (omega arith)).0)
  | inr there ↦ rw there (is x)
]

-- Clearing a bit that has just been set gives the buffer back.
pub clear_bit-set_bit :
    (b : Buffer) (n : ℕ) → IsBytes b → bit_at b n ≡ false → clear_bit (set_bit b n) n ≡ b
unfolding IsBytes bit_at
clear_bit-set_bit b n is free = fun_ext (λ x. elim (Bool-cases (x == n / 8)) [
  | inl here ↦
      let e = eq_of_== x (n / 8) here in
      let back : bit_and (bit_or (b (n / 8)) (2 ^ (n % 8))) (255 - 2 ^ (n % 8)) ≡ b (n / 8) =
        elim (byte_laws (b (n / 8)) (n % 8) (is _) (omega arith)).1 [
          | inl full ↦ absurd (true-ne-false (sym full ∙ free))
          | inr h ↦ h
        ] in
      rw (here, ==_refl (n / 8), e) back
  | inr there ↦ rw there refl
])
