-- ===== src/Network/TcpReceive/Order.antt =====
-- The ring holds the bytes of the stream, whatever the order in which the segments come.
use g_os.Common.{
  Bool, Bool-cases, and_true, ap, arith, dec_lt, false, inl, inr, ltb, refl, suc, sym, true,
  true-ne-false, zero, ℕ, ◌%◌, ◌&&◌, ◌+◌, ◌-◌, ◌<◌, ◌^◌, ◌∙◌, ◌≡◌, ◌≢◌, ◌≤◌, ◌⊎◌,
}
use g_os.Network.TcpSocket.{RcvQueue}
use g_os.Network.TcpReceive.{scan}
use g_os.Network.TcpReceive.Ring.{}
use g_os.Network.TcpReceive.Place.{Fits, InWindow, IsBeyond, Placed, is_hole}

-- What is to be read is the stream, and so is what is marked after it; `byte` gives the bytes of the
-- stream by their numbers.
pub record Holds (byte : ℕ → ℕ) (q : RcvQueue) : Type 0 where
  pub size : q.buf_size ≡ 32768
  pub order : q.wnd_min ≤ q.nxt_rcv
  pub room : q.nxt_rcv < q.wnd_min + 32768
  pub short : q.wnd_min + 32768 ≤ 4294967295
  pub end : q.max_seq_num < q.wnd_min + 32768
  pub read : (n : ℕ) → q.wnd_min ≤ n → n < q.nxt_rcv → q.buf (n % 32768) ≡ byte n
  pub unmarked : (n : ℕ) → q.wnd_min ≤ n → n < q.nxt_rcv → q.buf_state (n % 32768) ≡ false
  pub ahead : (n : ℕ) → InWindow q n → q.buf_state (n % 32768) ≡ true → q.buf (n % 32768) ≡ byte n
  pub bound : (n : ℕ) → InWindow q n → q.buf_state (n % 32768) ≡ true → n < q.max_seq_num
  pub whole : q.is_wnd_hole ≡ false → (n : ℕ) → InWindow q n → q.buf_state (n % 32768) ≡ false

pub not_true : (b : Bool) → b ≢ true → b ≡ false
not_true true h = absurd (h refl)
not_true false h = refl

pub scan-low : (rounds index : ℕ) (q : RcvQueue) → index ≤ scan rounds index q
unfolding scan
scan-low zero index q = omega arith
scan-low (suc n) index q =
    elim (Bool-cases (ltb index q.max_seq_num && q.buf_state (index % 2 ^ 32 % q.buf_size))) [
      | inl on ↦ rw on (omega (arith, scan-low n (index + 1) q))
      | inr off ↦ rw off (omega arith)
    ]

pub scan-max :
    (rounds index : ℕ) (q : RcvQueue)
    → (scan rounds index q ≡ index) ⊎ (scan rounds index q ≤ q.max_seq_num)
unfolding scan
scan-max zero index q = inl refl
scan-max (suc n) index q =
    elim (Bool-cases (ltb index q.max_seq_num && q.buf_state (index % 2 ^ 32 % q.buf_size))) [
      | inl on ↦
          let below : index < q.max_seq_num =
            let t = (and_true (ltb index q.max_seq_num) _ on).0 in ground arith in
          rw on (elim (scan-max n (index + 1) q) [
            | inl e ↦ inr (omega (arith, below, e))
            | inr h ↦ inr h
          ])
      | inr off ↦ rw off (inl refl)
    ]

pub scan-marked :
    (rounds index : ℕ) (q : RcvQueue) (n : ℕ)
    → index ≤ n
    → n < scan rounds index q
    → q.buf_state (n % 2 ^ 32 % q.buf_size) ≡ true
unfolding scan
scan-marked zero index q n low high = absurd (omega arith)
scan-marked (suc r) index q n low high =
    elim (Bool-cases (ltb index q.max_seq_num && q.buf_state (index % 2 ^ 32 % q.buf_size))) [
      | inl on ↦ elim (dec_lt index n) [
        | yes h ↦ scan-marked r (index + 1) q n (omega arith) (rw on at high)
        | no h ↦
            let same : n ≡ index = omega arith in
            rw same ((and_true (ltb index q.max_seq_num) _ on).1)
      ]
      | inr off ↦ absurd (let high' = rw off at high in omega arith)
    ]

-- The bytes are those of the stream from `seq` on.
abbrev pub Carries : (byte bytes : ℕ → ℕ) (seq len : ℕ) → Type 0
Carries byte bytes seq len = (j : ℕ) → j < len → bytes j ≡ byte (seq + j)

module _ (byte : ℕ → ℕ) (q q' : RcvQueue) (seq len : ℕ) (bytes : ℕ → ℕ) (h : Holds byte q)
    (fits : Fits q seq len) (new : q.nxt_rcv ≤ seq) (same : Carries byte bytes seq len)
    (p : Placed q q' seq len bytes) where
  pub placed_new : (n : ℕ) → seq ≤ n → n < seq + len → q'.buf (n % 32768) ≡ byte n
  placed_new n a b = p.written.inside n a b ∙ same (n - seq) (omega arith) ∙ ap byte (omega arith)

  placed_old :
      (n : ℕ)
      → InWindow q n
      → IsBeyond seq len n
      → q.buf (n % 32768) ≡ byte n
      → q'.buf (n % 32768) ≡ byte n
  placed_old n within out e = p.written.outside n within out ∙ e

  pub placed_read : (n : ℕ) → q.wnd_min ≤ n → n < q.nxt_rcv → q'.buf (n % 32768) ≡ byte n
  placed_read n a b = placed_old n (a, omega (arith, h.room)) (inl (omega arith)) (h.read n a b)

  placed_unmarked : (n : ℕ) → q.wnd_min ≤ n → n < q.nxt_rcv → q'.buf_state (n % 32768) ≡ false
  placed_unmarked n a b = not_true _ (λ e. elim (p.marks n (a, omega (arith, h.room)) e) [
    | inl before ↦ true-ne-false (sym before ∙ h.unmarked n a b)
    | inr r ↦ omega arith
  ])

  placed_ahead :
      (n : ℕ) → InWindow q n → q'.buf_state (n % 32768) ≡ true → q'.buf (n % 32768) ≡ byte n
  placed_ahead n within e = elim (dec_lt n seq) [
    | yes b ↦ elim (p.marks n within e) [
      | inl before ↦ placed_old n within (inl b) (h.ahead n within before)
      | inr r ↦ absurd (omega arith)
    ]
    | no a ↦ elim (dec_lt n (seq + len)) [
      | yes b ↦ placed_new n (omega arith) b
      | no b ↦ elim (p.marks n within e) [
        | inl before ↦ placed_old n within (inr (omega arith)) (h.ahead n within before)
        | inr r ↦ absurd (omega arith)
      ]
    ]
  ]

  placed_end : q'.max_seq_num < q.wnd_min + 32768
  placed_end = elim (Bool-cases (is_hole q seq)) [
    | inl holed ↦ omega (arith, (p.hole holed).1, h.end, fits.last)
    | inr shut ↦ omega (arith, (p.no_hole shut).2, h.end)
  ]

  placed_bound : (n : ℕ) → InWindow q n → q'.buf_state (n % 32768) ≡ true → n < q'.max_seq_num
  placed_bound n within e = elim (Bool-cases (is_hole q seq)) [
    | inl holed ↦ elim (p.marks n within e) [
      | inl before ↦ omega (arith, (p.hole holed).1, h.bound n within before)
      | inr r ↦ omega (arith, (p.hole holed).1)
    ]
    | inr shut ↦
        let before = h.bound n within (ap (λ f. f (n % 32768)) (sym (p.no_hole shut).0) ∙ e) in
        omega (arith, (p.no_hole shut).2, before)
  ]

  pub placed_whole :
      q'.is_wnd_hole ≡ false → (n : ℕ) → InWindow q n → q'.buf_state (n % 32768) ≡ false
  placed_whole e n within = elim (Bool-cases (is_hole q seq)) [
    | inl holed ↦ absurd (true-ne-false (sym (p.hole holed).0 ∙ e))
    | inr shut ↦
        ap (λ f. f (n % 32768)) (p.no_hole shut).0 ∙ h.whole (sym (p.no_hole shut).1 ∙ e) n within
  ]

  pub placed_Holds : Holds byte q'
  placed_Holds =
      let start = p.start in
      let nxt = p.next in
      record {
        size = p.size ∙ h.size;
        order = omega (arith, start, nxt, h.order);
        room = omega (arith, start, nxt, h.room);
        short = omega (arith, start, h.short);
        end = omega (arith, start, placed_end);
        read = λ n a b. placed_read n (omega arith) (omega arith);
        unmarked = λ n a b. placed_unmarked n (omega arith) (omega arith);
        ahead = λ n within e. placed_ahead n (omega arith, omega arith) e;
        bound = λ n within e. placed_bound n (omega arith, omega arith) e;
        whole = λ e n within. placed_whole e n (omega arith, omega arith);
      }
