-- ===== src/Ext2/Bitmap/Search.antt =====
-- The searches find the first bit that is clear.
use g_os.Common.{
  Bool, Bool-cases, Option, Option-cases, ap, arith, eq_of_==, false, if◌then◌else◌, inl, inr, ltb,
  mod-eq_of_lt, none, none-ne-some, refl, some, some-injective, subst, suc, sym, true, zero, ℕ, ◌%◌,
  ◌*◌, ◌+◌, ◌/◌, ◌<◌, ◌==◌, ◌∙◌, ◌≡◌, ◌≤◌,
}
use g_os.Ext2.Bitmap.{Buffer, bit_loop, block_loop, byte_loop, is_set}
use g_os.Ext2.Bitmap.Bits.{bit_at}

-- `n` is the first clear bit from `from` on.
pub record IsFirst (b : Buffer) (from n : ℕ) : Type 0 where
  pub above : from ≤ n
  pub free : bit_at b n ≡ false
  pub first : (m : ℕ) → from ≤ m → m < n → bit_at b m ≡ true

IsFirst-next :
    (b : Buffer) (from n : ℕ) → bit_at b from ≡ true → IsFirst b (from + 1) n → IsFirst b from n
IsFirst-next b from n taken is = record {
  above = omega (arith, is.above);
  free = is.free;
  first = λ m h h'. elim (Bool-cases (m == from)) [
    | inl here ↦ ap (bit_at b) (eq_of_== m from here) ∙ taken
    | inr there ↦ is.first m (ground arith) h'
  ];
}

-- What a search of `n` bits from `from` on finds.
unfoldable pub Finds : Buffer → (from n : ℕ) → Option ℕ → Type 0
Finds b from n (some i) = IsFirst b from i × (i < from + n)
Finds b from n none = (m : ℕ) → from ≤ m → m < from + n → bit_at b m ≡ true

Finds-next :
    (b : Buffer) (from n : ℕ) (o : Option ℕ)
    → bit_at b from ≡ true
    → Finds b (from + 1) n o
    → Finds b from (suc n) o
unfolding Finds
Finds-next b from n (some i) taken (is, h) = (IsFirst-next b from i taken is, omega arith)
Finds-next b from n none taken all = λ m h h'. elim (Bool-cases (m == from)) [
  | inl here ↦ ap (bit_at b) (eq_of_== m from here) ∙ taken
  | inr there ↦ all m (ground arith) (omega arith)
]

Finds-here : (b : Buffer) (from n : ℕ) → bit_at b from ≡ false → Finds b from (suc n) (some from)
unfolding Finds
Finds-here b from n free = (
  record { above = omega arith; free = free; first = λ m h h'. absurd (omega arith) },
  omega arith,
)

block_step :
    (n i per : ℕ) (b : Buffer) (taken : Bool)
    → i % per ≡ i
    → bit_at b i ≡ taken
    → Finds b i (suc n) (if taken then block_loop n (i + 1) per b else some i)
    → Finds b i (suc n) (block_loop (suc n) i per b)
unfolding block_loop bit_at
block_step n i per b taken e h f = rw (block_loop, e, h) f

-- Without a group that wraps, the index is the number of the bit.
pub block_loop-Finds : (n i per : ℕ) (b : Buffer) → i + n ≤ per → Finds b i n (block_loop n i per b)
unfolding block_loop Finds
block_loop-Finds zero i per b h = λ m l l'. absurd (omega arith)
block_loop-Finds (suc n) i per b h =
    let at : i % per ≡ i = mod-eq_of_lt (omega arith) in
    elim (Bool-cases (bit_at b i)) [
      | inl taken ↦ block_step n i per b true at taken (
          Finds-next b i n (block_loop n (i + 1) per b) taken
            (block_loop-Finds n (i + 1) per b (omega arith)))
      | inr free ↦ block_step n i per b false at free (Finds-here b i n free)
    ]

-- All of one part, then what is found in the next.
Finds-append :
    (b : Buffer) (from n k m : ℕ) (o : Option ℕ)
    → Finds b from n none
    → k ≡ from + n
    → Finds b k m o
    → Finds b from (n + m) o
unfolding Finds
Finds-append b from n k m none all e rest = λ l h h'. elim (Bool-cases (ltb l k)) [
  | inl low ↦ all l h (ground arith)
  | inr high ↦ rest l (ground arith) (omega arith)
]
Finds-append b from n k m (some i) all e (is, h) = (
  record {
    above = omega (arith, is.above);
    free = is.free;
    first = λ l h h'. elim (Bool-cases (ltb l k)) [
      | inl low ↦ all l h (ground arith)
      | inr high ↦ is.first l (ground arith) h'
    ];
  },
  omega arith,
)

abbrev pub in_byte : ℕ → Option ℕ → Option ℕ
in_byte i none = none
in_byte i (some j) = some (i * 8 + j)

abbrev pub number : Option (ℕ × ℕ) → Option ℕ
number none = none
number (some (i, j)) = some (i * 8 + j)

at_byte : (b : Buffer) (i j : ℕ) → j < 8 → bit_at b (i * 8 + j) ≡ is_set (b i) j
unfolding bit_at
at_byte b i j h =
    let e : (i * 8 + j) / 8 ≡ i = omega arith in
    let e' : (i * 8 + j) % 8 ≡ j = omega arith in rw (e, e') refl

small_step :
    (n j byte : ℕ) (taken : Bool)
    → is_set byte j ≡ taken
    → bit_loop (suc n) j byte ≡ (if taken then bit_loop n (j + 1) byte else some j)
unfolding bit_loop
small_step n j byte taken e = rw (bit_loop, e) refl

bit_step :
    (n j i : ℕ) (b : Buffer) (taken : Bool)
    → is_set (b i) j ≡ taken
    → Finds b
        (i * 8 + j)
        (suc n)
        (if taken then in_byte i (bit_loop n (j + 1) (b i)) else some (i * 8 + j))
    → Finds b (i * 8 + j) (suc n) (in_byte i (bit_loop (suc n) j (b i)))
bit_step n j i b true e f =
    subst (λ o. Finds b (i * 8 + j) (suc n) (in_byte i o)) (sym (small_step n j (b i) true e)) f
bit_step n j i b false e f =
    subst (λ o. Finds b (i * 8 + j) (suc n) (in_byte i o)) (sym (small_step n j (b i) false e)) f

byte_step :
    (n i : ℕ) (b : Buffer) (o : Option ℕ)
    → bit_loop 8 0 (b i) ≡ o
    → byte_loop (suc n) i b ≡ elim o [ none ↦ byte_loop n (i + 1) b | some j ↦ some (i, j) ]
unfolding byte_loop
byte_step n i b o e = rw (byte_loop, e) refl

byte_case :
    (n i : ℕ) (b : Buffer) (o : Option ℕ)
    → Finds b (i * 8) 8 (in_byte i o)
    → Finds b ((i + 1) * 8) (n * 8) (number (byte_loop n (i + 1) b))
    → Finds b
        (i * 8)
        (suc n * 8)
        (number (elim o [ none ↦ byte_loop n (i + 1) b | some j ↦ some (i, j) ]))
unfolding Finds
byte_case n i b none all rest =
    let e : suc n * 8 ≡ 8 + n * 8 = omega arith in
    rw e (
      Finds-append b (i * 8) 8 ((i + 1) * 8) (n * 8) (number (byte_loop n (i + 1) b)) all
        (omega arith) rest)
byte_case n i b (some j) (is, h) rest = (is, omega arith)

bit_loop-Finds :
    (n j i : ℕ) (b : Buffer) → j + n ≡ 8 → Finds b (i * 8 + j) n (in_byte i (bit_loop n j (b i)))
unfolding bit_loop Finds
bit_loop-Finds zero j i b e = λ m h h'. absurd (omega arith)
bit_loop-Finds (suc n) j i b e = elim (Bool-cases (is_set (b i) j)) [
  | inl taken ↦
      let next : i * 8 + (j + 1) ≡ i * 8 + j + 1 = omega arith in
      let rest = bit_loop-Finds n (j + 1) i b (omega arith) in
      let rest' = subst (λ k. Finds b k n (in_byte i (bit_loop n (j + 1) (b i)))) next rest in
      bit_step n j i b true taken (
        Finds-next b (i * 8 + j) n (in_byte i (bit_loop n (j + 1) (b i)))
          (at_byte b i j (omega arith) ∙ taken) rest')
  | inr free ↦
      bit_step n j i b false free (Finds-here b (i * 8 + j) n (at_byte b i j (omega arith) ∙ free))
]

bit_loop-small : (n j byte k : ℕ) → bit_loop n j byte ≡ some k → k < j + n
unfolding bit_loop
bit_loop-small zero j byte k e = absurd (none-ne-some e)
bit_loop-small (suc n) j byte k e = elim (Bool-cases (is_set byte j)) [
  | inl taken ↦
      let later = bit_loop-small n (j + 1) byte k (sym (small_step n j byte true taken) ∙ e) in
      omega arith
  | inr free ↦ let here = some-injective (sym (small_step n j byte false free) ∙ e) in omega arith
]

pub byte_loop-Finds : (n i : ℕ) (b : Buffer) → Finds b (i * 8) (n * 8) (number (byte_loop n i b))
unfolding byte_loop Finds
byte_loop-Finds zero i b = λ m h h'. absurd (omega arith)
byte_loop-Finds (suc n) i b =
    let o = bit_loop 8 0 (b i) in
    let from : i * 8 + 0 ≡ i * 8 = omega arith in
    let all = subst (λ k. Finds b k 8 (in_byte i o)) from (bit_loop-Finds 8 0 i b refl) in
    subst (λ r. Finds b (i * 8) (suc n * 8) (number r)) (sym (byte_step n i b o refl))
      (byte_case n i b o all (byte_loop-Finds n (i + 1) b))

pub byte_loop-small : (n i : ℕ) (b : Buffer) (k j : ℕ) → byte_loop n i b ≡ some (k, j) → j < 8
unfolding byte_loop
byte_loop-small zero i b k j e = absurd (none-ne-some e)
byte_loop-small (suc n) i b k j e = elim (Option-cases (bit_loop 8 0 (b i))) [
  | inl full ↦ byte_loop-small n (i + 1) b k j (sym (byte_step n i b none full) ∙ e)
  | inr (j', here) ↦
      let both = some-injective (sym (byte_step n i b (some j') here) ∙ e) in
      omega (arith, bit_loop-small 8 0 (b i) j' here, ap (λ (x : ℕ × ℕ). x.1) both)
]
