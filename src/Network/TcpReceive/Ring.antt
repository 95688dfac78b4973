-- ===== src/Network/TcpReceive/Ring.antt =====
-- What the loops over the slots of the ring leave in one slot.
use g_os.Common.{
  Bool, Bool-cases, ap, arith, false, if◌then◌else◌, inl, inr, refl, suc, sym, true, true-ne-false,
  zero, ℕ, ◌+◌, ◌<◌, ◌==◌, ◌∙◌, ◌≡◌, ◌≤◌, ◌⊎◌,
}
use g_os.Network.TcpSocket.{RcvQueue}
use g_os.Network.TcpReceive.{clear, copy_in, mark}

pub copy_in-outside :
    (n start : ℕ) (bytes : ℕ → ℕ) (from : ℕ) (buf : ℕ → ℕ) (k : ℕ)
    → (k < start) ⊎ (start + n ≤ k)
    → copy_in n start bytes from buf k ≡ buf k
unfolding copy_in
copy_in-outside zero start bytes from buf k out = refl
copy_in-outside (suc n) start bytes from buf k out =
    let other : (k == start) ≡ false = ground arith in
    rw (copy_in-outside n (start + 1) bytes (from + 1) _ k (ground arith), other) refl

pub copy_in-inside :
    (n start : ℕ) (bytes : ℕ → ℕ) (from : ℕ) (buf : ℕ → ℕ) (j k : ℕ)
    → j < n
    → k ≡ start + j
    → copy_in n start bytes from buf k ≡ bytes (from + j)
unfolding copy_in
copy_in-inside zero start bytes from buf j k h e = absurd (omega arith)
copy_in-inside (suc n) start bytes from buf zero k h e =
    let same : (k == start) ≡ true = ground arith in
    rw (copy_in-outside n (start + 1) bytes (from + 1) _ k (inl (omega arith)), same)
      (ap bytes (omega arith))
copy_in-inside (suc n) start bytes from buf (suc j) k h e =
    let e' : from + suc j ≡ from + 1 + j = omega arith in
    rw e' (copy_in-inside n (start + 1) bytes (from + 1) _ j k (omega arith) (omega arith))

pub clear-outside :
    (n i : ℕ) (state : ℕ → Bool) (k : ℕ) → (k < i) ⊎ (i + n ≤ k) → clear n i state k ≡ state k
unfolding clear
clear-outside zero i state k out = refl
clear-outside (suc n) i state k out =
    let other : (k == i) ≡ false = ground arith in
    rw (clear-outside n (i + 1) _ k (ground arith), other) refl

-- Clearing marks does not set any.
pub clear-fewer : (n i : ℕ) (state : ℕ → Bool) (k : ℕ) → clear n i state k ≡ true → state k ≡ true
unfolding clear
clear-fewer zero i state k e = e
clear-fewer (suc n) i state k e =
    let rest = clear-fewer n (i + 1) (λ j. if j == i then false else state j) k e in
    elim (Bool-cases (k == i)) [
      | inl same ↦ absurd (true-ne-false (sym rest ∙ rw same refl))
      | inr other ↦ rw other at rest
    ]

pub clear-inside :
    (n i : ℕ) (state : ℕ → Bool) (k : ℕ) → i ≤ k → k < i + n → clear n i state k ≡ false
unfolding clear
clear-inside zero i state k low high = absurd (omega arith)
clear-inside (suc n) i state k low high = elim (Bool-cases (k == i)) [
  | inl same ↦ rw (clear-outside n (i + 1) _ k (inl (ground arith)), same) refl
  | inr other ↦ clear-inside n (i + 1) _ k (ground arith) (omega arith)
]

-- Marking changes the marks and the window.
pub mark-keeps :
    (n i : ℕ) (q : RcvQueue)
    → mark n i q ≡ record q { buf_state = (mark n i q).buf_state; wnd_size = (mark n i q).wnd_size }
unfolding mark
mark-keeps zero i q = refl
mark-keeps (suc n) i q = mark-keeps n (i + 1) _

pub marks-keeps :
    (n i m j : ℕ) (q : RcvQueue)
    → mark n i (mark m j q) ≡ record q {
      buf_state = (mark n i (mark m j q)).buf_state;
      wnd_size = (mark n i (mark m j q)).wnd_size;
    }
marks-keeps n i m j q =
    let r = mark n i (mark m j q) in
    mark-keeps n i (mark m j q)
    ∙ ap (λ (x : RcvQueue). record x { buf_state = r.buf_state; wnd_size = r.wnd_size })
        (mark-keeps m j q)

-- A slot that is marked has been so before, or is in the range.
pub mark-only :
    (n i : ℕ) (q : RcvQueue) (k : ℕ)
    → (mark n i q).buf_state k ≡ true
    → (q.buf_state k ≡ true) ⊎ ((i ≤ k) × (k < i + n))
unfolding mark
mark-only zero i q k e = inl e
mark-only (suc n) i q k e = elim (mark-only n (i + 1) _ k e) [
  | inl before ↦ elim (Bool-cases (k == i)) [
    | inl same ↦ inr (ground arith)
    | inr other ↦ inl (sym (rw other refl) ∙ before)
  ]
  | inr within ↦ inr (omega arith, omega arith)
]
