-- ===== src/Network/TcpSocket/Reading.antt =====
-- Reading gives the bytes of the stream in their order, wherever the ring and the sequence numbers
-- wrap around.
use g_os.Common.{
  Bool-cases, List, [], arith, inl, inr, ltb, refl, suc, sym, zero, ℕ, ◌%◌, ◌++◌, ◌+◌, ◌-◌, ◌<◌,
  ◌^◌, ◌∷◌, ◌≡◌, ◌≤◌,
}
use g_os.Network.TcpSocket.{RcvQueue, copy, ring_read}

-- `n` bytes of the stream from the sequence number `pos` on, each in the slot of the ring that its
-- number gives.
unfoldable pub stream : (ℕ → ℕ) → (pos n : ℕ) → List ℕ
stream buf pos zero = []
stream buf pos (suc n) = buf (pos % 32768) ∷ stream buf (pos + 1) n

stream-append :
    (buf : ℕ → ℕ) (pos m n k : ℕ)
    → m + n ≡ k
    → stream buf pos k ≡ stream buf pos m ++ stream buf (pos + m) n
unfolding stream
stream-append buf pos zero n k all =
    let e : pos + 0 ≡ pos = omega arith in let e' : k ≡ n = omega arith in rw (e, e') refl
stream-append buf pos (suc m) n zero all = absurd (omega arith)
stream-append buf pos (suc m) n (suc k) all =
    let e : pos + suc m ≡ pos + 1 + m = omega arith in
    rw (e, stream-append buf (pos + 1) m n k (omega arith)) refl

-- Without a wrap.
copy-stream :
    (buf : ℕ → ℕ) (low pos n : ℕ)
    → low + n ≤ 32768
    → pos % 32768 ≡ low
    → copy buf low n ≡ stream buf pos n
unfolding copy stream
copy-stream buf low pos zero h e = refl
copy-stream buf low pos (suc zero) h e = rw e refl
copy-stream buf low pos (suc (suc n)) h e =
    rw (e, copy-stream buf (low + 1) (pos + 1) (suc n) (omega arith) (omega arith)) refl

-- With a wrap: up to the end of the ring, then from its beginning.
wrapped-stream :
    (buf : ℕ → ℕ) (pos len_1 len_2 n : ℕ)
    → pos % 32768 + len_1 ≡ 32768
    → len_2 ≤ 32768
    → len_1 + len_2 ≡ n
    → copy buf (pos % 32768) len_1 ++ copy buf 0 len_2 ≡ stream buf pos n
wrapped-stream buf pos len_1 len_2 n ends fits all =
    rw
      (
        sym all,
        stream-append buf pos len_1 len_2,
        copy-stream buf (pos % 32768) pos len_1 (omega arith) refl,
        copy-stream buf 0 (pos + len_1) len_2 (omega arith) (omega arith),
      )
      refl

-- `ring_read` gives the bytes of the stream from `wnd_min` on, in their order, when it is asked for
-- at least one and for no more than the ring of 32768 bytes holds.
pub ring_read-stream :
    (q : RcvQueue) (n : ℕ)
    → q.buf_size ≡ 32768
    → q.wnd_min < 2 ^ 32
    → 0 < n
    → n ≤ 32768
    → ring_read q n ≡ stream q.buf q.wnd_min n
unfolding ring_read
ring_read-stream q n size small pos fits =
    let low = q.wnd_min % 32768 in
    let len_1 = 32768 - low in
    rw size (elim (Bool-cases (ltb low ((q.wnd_min + n) % 2 ^ 32 % 32768))) [
      | inl ahead ↦ rw ahead (copy-stream q.buf low q.wnd_min n (ground arith) refl)
      | inr wraps ↦
          let len_2 : (n + 2 ^ 32 - len_1) % 2 ^ 32 ≡ n - len_1 = ground arith in
          rw (wraps, len_2)
            (wrapped-stream q.buf q.wnd_min len_1 (n - len_1) n (omega arith) (omega arith)
              (ground arith))
    ])
