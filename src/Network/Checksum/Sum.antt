-- ===== src/Network/Checksum/Sum.antt =====
-- `checksum` is the complement of a sum modulo 65535, and data that holds its own checksum sums up
-- to 0.
use g_os.Common.{
  ==_of_eq, ==_of_ne, List, [], ap, arith, dec_lt, false, if◌then◌else◌, length, length-append, ltb,
  refl, some, suc, sym, true, zero, ℕ, ℕ_discrete, ◌%◌, ◌*◌, ◌++◌, ◌+◌, ◌-◌, ◌/◌, ◌<◌, ◌==◌, ◌^◌,
  ◌∙◌, ◌∷◌, ◌≡◌, ◌≤◌,
}
use g_os.Network.Checksum.{add_words, checksum, fold_loop}

abbrev pub AllBytes : List ℕ → Type 0
AllBytes [] = Unit
AllBytes (b ∷ bs) = (b < 256) × AllBytes bs

-- The sum of the words, without a bound.
unfoldable pub word_sum : List ℕ → ℕ
word_sum [] = 0
word_sum (b ∷ []) = b
word_sum (b ∷ c ∷ bs) = b + c * 256 + word_sum bs

-- The representative of a number modulo 65535 that is 0 only for 0.
abbrev pub ones_sum : ℕ → ℕ
ones_sum s = if s == 0 then 0 else (s - 1) % 65535 + 1

pub word_sum-bound : (bs : List ℕ) → AllBytes bs → 2 * word_sum bs ≤ 65535 * (length bs + 1)
unfolding word_sum
word_sum-bound [] all = omega arith
word_sum-bound (b ∷ []) all = omega (arith, all.0)
word_sum-bound (b ∷ c ∷ bs) all = omega (arith, all.0, all.1.0, word_sum-bound bs all.1.1)

pub add_words-word_sum :
    (sum : ℕ) (bs : List ℕ) → sum + word_sum bs < 2 ^ 31 → add_words sum bs ≡ sum + word_sum bs
unfolding add_words word_sum
add_words-word_sum sum [] h = omega arith
add_words-word_sum sum (b ∷ []) h = omega arith
add_words-word_sum sum (b ∷ c ∷ bs) h =
    let same : (sum + (b + c * 256)) % 2 ^ 32 ≡ sum + (b + c * 256) = omega arith in
    let small : ltb (sum + (b + c * 256)) (2 ^ 31) ≡ true = ground arith in
    rw (same, small) (add_words-word_sum (sum + (b + c * 256)) bs (omega arith) ∙ omega arith)

fold_loop_ends : (f s : ℕ) → s < 65536 → fold_loop (suc f) s ≡ some s
unfolding fold_loop
fold_loop_ends f s h = rw (==_of_eq (s / 65536) 0 (omega arith)) refl

fold_loop_goes :
    (f s : ℕ) → s < 2 ^ 31 → 65536 ≤ s → fold_loop (suc f) s ≡ fold_loop f (s % 65536 + s / 65536)
unfolding fold_loop
fold_loop_goes f s small big =
    let positive : ltb s (2 ^ 31) ≡ true = ground arith in
    let word : (s % 65536 + s / 65536) % 2 ^ 32 ≡ s % 65536 + s / 65536 = omega arith in
    rw (==_of_ne (s / 65536) 0 (omega arith), positive, word) refl

ones_sum_word : (s : ℕ) → s < 65536 → ones_sum s ≡ s
ones_sum_word s h = ground arith

ones_sum_fold : (s : ℕ) → 65536 ≤ s → ones_sum (s % 65536 + s / 65536) ≡ ones_sum s
ones_sum_fold s h =
    let positive : (s % 65536 + s / 65536 == 0) ≡ false = ==_of_ne _ 0 (omega arith) in
    rw (positive, ==_of_ne s 0 (omega arith)) (omega arith)

-- Three rounds are enough.
fold_loop-ones_sum : (s : ℕ) → s < 2 ^ 31 → fold_loop 4 s ≡ some (ones_sum s)
fold_loop-ones_sum s h = elim (dec_lt s 65536) [
  | yes l ↦ fold_loop_ends 3 s l ∙ ap some (sym (ones_sum_word s l))
  | no n ↦
      let t = s % 65536 + s / 65536 in
      fold_loop_goes 3 s h (omega arith) ∙ elim (dec_lt t 65536) [
        | yes l ↦
            fold_loop_ends 2 t l ∙ ap some (sym (ones_sum_word t l) ∙ ones_sum_fold s (omega arith))
        | no m ↦
            let u = t % 65536 + t / 65536 in
            let last : u < 65536 = omega arith in
            fold_loop_goes 2 t (omega arith) (omega arith)
            ∙ fold_loop_ends 1 u last
            ∙ ap some (
                sym (ones_sum_word u last)
                ∙ ones_sum_fold t (omega arith)
                ∙ ones_sum_fold s (omega arith))
      ]
]

-- `checksum` returns for up to 65535 bytes, and returns the complement of the sum of the words.
pub checksum-ones_sum :
    (bs : List ℕ)
    → AllBytes bs
    → length bs ≤ 65535
    → checksum bs ≡ some (65535 - ones_sum (word_sum bs))
unfolding checksum
checksum-ones_sum bs all h =
    let bound = word_sum-bound bs all in
    let sum : add_words 0 bs ≡ word_sum bs = add_words-word_sum 0 bs (omega arith) ∙ omega arith in
    let small : ones_sum (word_sum bs) ≤ 65535 = ground arith in
    rw (sum, fold_loop-ones_sum (word_sum bs) (omega arith), checksum) (ap some (omega arith))

-- The words before a place.
pub word_sum-append :
    (n : ℕ) (xs ys : List ℕ) → length xs ≡ 2 * n → word_sum (xs ++ ys) ≡ word_sum xs + word_sum ys
unfolding word_sum
word_sum-append zero [] ys h = omega arith
word_sum-append zero (x ∷ xs) ys h = absurd (omega arith)
word_sum-append (suc n) [] ys h = absurd (omega arith)
word_sum-append (suc n) (x ∷ []) ys h = absurd (omega arith)
word_sum-append (suc n) (x ∷ y ∷ xs) ys h = omega (arith, word_sum-append n xs ys (omega arith))

AllBytes-replace :
    (xs : List ℕ) (a b c d : ℕ) (ys : List ℕ)
    → c < 256
    → d < 256
    → AllBytes (xs ++ a ∷ b ∷ ys)
    → AllBytes (xs ++ c ∷ d ∷ ys)
AllBytes-replace [] a b c d ys hc hd all = (hc, (hd, all.1.1))
AllBytes-replace (x ∷ xs) a b c d ys hc hd all = (all.0, AllBytes-replace xs a b c d ys hc hd all.1)

pub word_sum-at :
    (n : ℕ) (xs : List ℕ) (a b : ℕ) (ys : List ℕ)
    → length xs ≡ 2 * n
    → word_sum (xs ++ a ∷ b ∷ ys) ≡ word_sum xs + (a + b * 256 + word_sum ys)
unfolding word_sum
word_sum-at n xs a b ys even = word_sum-append n xs (a ∷ b ∷ ys) even

pub ones_sum_bound : (s : ℕ) → ones_sum s ≤ 65535
ones_sum_bound s = ground arith

pub ones_sum_complement : (s : ℕ) → ones_sum (s + (65535 - ones_sum s)) ≡ 65535
ones_sum_complement s = elim (ℕ_discrete s 0) [
  | yes e ↦ rw e refl
  | no n ↦
      let r = (s - 1) % 65535 + 1 in
      let positive : (s + (65535 - r) == 0) ≡ false = ==_of_ne _ 0 (omega arith) in
      rw (==_of_ne s 0 n, positive) (omega arith)
]

-- Data whose checksum, taken with 0 in its place, is put in with its low byte first sums up to 0.
pub checksum-verifies :
    (n : ℕ) (xs ys : List ℕ)
    → length xs ≡ 2 * n
    → AllBytes (xs ++ 0 ∷ 0 ∷ ys)
    → length (xs ++ 0 ∷ 0 ∷ ys) ≤ 65535
    → (c : ℕ) × (checksum (xs ++ 0 ∷ 0 ∷ ys) ≡ some c)
      × (c < 65536)
      × (checksum (xs ++ c % 256 ∷ c / 256 ∷ ys) ≡ some 0)
checksum-verifies n xs ys even all h =
    let s = word_sum (xs ++ 0 ∷ 0 ∷ ys) in
    let c = 65535 - ones_sum s in
    let bound = ones_sum_bound s in
    let new = xs ++ c % 256 ∷ c / 256 ∷ ys in
    let sum : word_sum new ≡ s + c =
      omega (arith, word_sum-at n xs 0 0 ys even, word_sum-at n xs (c % 256) (c / 256) ys even) in
    let all' = AllBytes-replace xs 0 0 (c % 256) (c / 256) ys (omega arith) (omega arith) all in
    let long : length new ≤ 65535 =
      omega (arith, h, length-append xs (0 ∷ 0 ∷ ys), length-append xs (c % 256 ∷ c / 256 ∷ ys)) in
    (
      c,
      checksum-ones_sum (xs ++ 0 ∷ 0 ∷ ys) all h,
      omega arith,
      checksum-ones_sum new all' long
          ∙ ap (λ w. some (65535 - ones_sum w)) sum
          ∙ ap (λ w. some (65535 - w)) (ones_sum_complement s),
    )
