-- ===== src/Network/TcpSend/Writing.antt =====
-- What a write leaves in the ring.
use g_os.Common.{
  ==_refl, Bool-cases, List, [], arith, false, if◌then◌else◌, inl, inr, length, ltb, refl, suc, sym,
  zero, ℕ, ◌%◌, ◌+◌, ◌-◌, ◌<◌, ◌==◌, ◌^◌, ◌∙◌, ◌∷◌, ◌≡◌, ◌≤◌, ◌⊎◌,
}
use g_os.Network.TcpSocket.{close_wait, copy, estabilished}
use g_os.Network.TcpSend.{SndQueue, enqueue_packet_tcp, free_size, store, take, write_ring, written}

store-outside :
    (buf : ℕ → ℕ) (start : ℕ) (xs : List ℕ) (i : ℕ)
    → (i < start) ⊎ (start + length xs ≤ i)
    → store buf start xs i ≡ buf i
unfolding store
store-outside buf start [] i out = refl
store-outside buf start (x ∷ xs) i out =
    let other : (i == start) ≡ false = elim out [ inl h ↦ ground arith | inr h ↦ ground arith ] in
    let out' : (i < start + 1) ⊎ (start + 1 + length xs ≤ i) = elim out [
      | inl h ↦ inl (omega arith)
      | inr h ↦ inr (omega arith)
    ] in
    rw (store-outside (λ j. if j == start then x else buf j) (start + 1) xs i out', other) refl

copy-store :
    (buf : ℕ → ℕ) (start : ℕ) (xs : List ℕ) → copy (store buf start xs) start (length xs) ≡ xs
unfolding store copy
copy-store buf start [] = refl
copy-store buf start (x ∷ xs) =
    let buf' : ℕ → ℕ = λ i. if i == start then x else buf i in
    let head : store buf' (start + 1) xs start ≡ x =
      store-outside buf' (start + 1) xs start (inl (omega arith)) ∙ rw (==_refl start) refl in
    rw (head, copy-store buf' (start + 1) xs) refl

copy-outside :
    (buf : ℕ → ℕ) (start : ℕ) (xs : List ℕ) (low n : ℕ)
    → start + length xs ≤ low
    → copy (store buf start xs) low n ≡ copy buf low n
unfolding copy
copy-outside buf start xs low zero out = refl
copy-outside buf start xs low (suc n) out =
    rw
      (
        store-outside buf start xs low (inr out),
        copy-outside buf start xs (low + 1) n (omega arith),
      )
      refl

length-take_le : (n : ℕ) (xs : List ℕ) → n ≤ length xs → length (take n xs) ≡ n
unfolding take
length-take_le zero xs h = refl
length-take_le (suc n) [] h = absurd (omega arith)
length-take_le (suc n) (x ∷ xs) h = omega (arith, length-take_le n xs (omega arith))

take-all : (n : ℕ) (xs : List ℕ) → length xs ≤ n → take n xs ≡ xs
unfolding take
take-all zero [] h = refl
take-all zero (x ∷ xs) h = absurd (omega arith)
take-all (suc n) [] h = refl
take-all (suc n) (x ∷ xs) h = rw (take-all n xs (omega arith)) refl

take_none : (buf : ℕ → ℕ) (xs : List ℕ) → copy buf 0 0 ≡ take 0 xs
unfolding copy take
take_none buf xs = refl

copy-store_len :
    (buf : ℕ → ℕ) (start : ℕ) (xs : List ℕ) (n : ℕ)
    → n ≡ length xs
    → copy (store buf start xs) start n ≡ xs
copy-store_len buf start xs n e = rw e (copy-store buf start xs)

-- The first part of a wrapped write is still there after the second.
copy-wrapped :
    (buf : ℕ → ℕ) (low : ℕ) (first second : List ℕ) (n : ℕ)
    → n ≡ length first
    → length second ≤ low
    → copy (store (store buf low first) 0 second) low n ≡ first
copy-wrapped buf low first second n e apart =
    copy-outside (store buf low first) 0 second low n (omega arith)
    ∙ copy-store_len buf low first n e

-- `bytes` are in the ring of `q'` from the slot of `cur` on, up to its end; what is over, from its
-- beginning on, is again the first of them, and not those that follow.
abbrev pub Written : SndQueue → List ℕ → SndQueue → Type 0
Written q bytes q' =
    let low = q.cur % 4194304 in
    let len_1 = 4194304 - low in
    let over = length bytes - len_1 in
    (copy q'.buf low (length bytes - over) ≡ take len_1 bytes)
    × (copy q'.buf 0 over ≡ take over bytes)
    × (q'.cur ≡ (q.cur + length bytes) % 2 ^ 32)

pub write_ring-Written :
    (q : SndQueue) (bytes : List ℕ)
    → q.buf_size ≡ 4194304
    → length bytes ≤ 4194304
    → Written q bytes (write_ring q bytes)
unfolding write_ring
write_ring-Written q bytes size fits =
    let low = q.cur % 4194304 in
    let len_1 = 4194304 - low in
    elim (Bool-cases (ltb (length bytes) len_1)) [
      | inl straight ↦
          let none_over : length bytes - len_1 ≡ 0 = ground arith in
          let whole : take len_1 bytes ≡ bytes = take-all len_1 bytes (ground arith) in
          rw (size, straight, whole, none_over)
            (
              copy-store_len q.buf low bytes (length bytes - 0) (omega arith),
              take_none (store q.buf low bytes) bytes,
              refl,
            )
      | inr wraps ↦
          let over = length bytes - len_1 in
          let full : len_1 ≤ length bytes = ground arith in
          let len_2 : (length bytes + 2 ^ 32 - len_1) % 2 ^ 32 ≡ over = omega arith in
          let first_len = length-take_le len_1 bytes full in
          let second_len = length-take_le over bytes (omega arith) in
          rw (size, wraps, len_2)
            (
              copy-wrapped q.buf low (take len_1 bytes) (take over bytes) (length bytes - over)
                  (omega (arith, first_len)) (omega (arith, second_len)),
              copy-store_len (store q.buf low (take len_1 bytes)) 0 (take over bytes) over
                  (sym second_len),
              refl,
            )
    ]

-- A write of no more than the ring holds to an open connection that has room for it: the count is
-- that of the bytes, and they are in the ring from the slot of `cur` on, up to its end; what is over
-- then is, from the beginning of the ring on, again the first of the bytes, and not those that follow.
pub enqueue-Written :
    (sleep : SndQueue → SndQueue) (q : SndQueue) (bytes : List ℕ)
    → q.buf_size ≡ 4194304
    → length bytes ≤ 4194304
    → length bytes ≤ free_size q
    → (q' : SndQueue) × (enqueue_packet_tcp sleep estabilished q bytes ≡ written (length bytes) q')
      × (enqueue_packet_tcp sleep close_wait q bytes ≡ written (length bytes) q')
      × Written q bytes q'
unfolding enqueue_packet_tcp
enqueue-Written sleep q bytes size fits room =
    let here : ltb (free_size q) (length bytes) ≡ false = ground arith in
    (write_ring q bytes, rw here refl, rw here refl, write_ring-Written q bytes size fits)
