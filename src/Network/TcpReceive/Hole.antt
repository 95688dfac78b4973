-- ===== src/Network/TcpReceive/Hole.antt =====
-- The closing of a hole in what has been received.
use g_os.Common.{
  Bool, Bool-cases, ap, arith, dec_lt, eq_of_==, false, if◌then◌else◌, inl, inr, leb, ltb, refl,
  sym, true, true-ne-false, ℕ, ◌%◌, ◌+◌, ◌-◌, ◌<◌, ◌==◌, ◌^◌, ◌∙◌, ◌≡◌, ◌≤◌,
}
use g_os.Network.TcpSocket.{RcvQueue}
use g_os.Network.TcpReceive.{clear, clear_marks, close_hole, scan}
use g_os.Network.TcpReceive.Ring.{clear-fewer, clear-inside}
use g_os.Network.TcpReceive.Place.{InWindow}
use g_os.Network.TcpReceive.Order.{Holds, not_true, scan-low, scan-marked, scan-max}

module _ (start index : ℕ) (state : ℕ → Bool) (ahead : start < index)
    (short : index < start + 32768) (small : start + 32768 ≤ 4294967295) where
  clear_marks-fewer : (k : ℕ) → clear_marks start index 32768 state k ≡ true → state k ≡ true
  unfolding clear_marks
  clear_marks-fewer k e =
      let low = start % 2 ^ 32 % 32768 in
      let high = index % 2 ^ 32 % 32768 in
      elim (Bool-cases (ltb low high)) [
        | inl a ↦ clear-fewer (high + 1 - low) low state k (rw a at e)
        | inr b ↦
            let order : ltb high low ≡ true = ground arith in
            let e' : clear (high + 1) 0 (clear (32768 - low) low state) k ≡ true =
              rw (b, order) at e in
            clear-fewer (32768 - low) low state k (clear-fewer (high + 1) 0 _ k e')
      ]

  clear_marks-inside :
      (n : ℕ) → start ≤ n → n < index → clear_marks start index 32768 state (n % 32768) ≡ false
  unfolding clear_marks
  clear_marks-inside n from to =
      let low = start % 2 ^ 32 % 32768 in
      let high = index % 2 ^ 32 % 32768 in
      elim (Bool-cases (ltb low high)) [
        | inl a ↦
            let order : low < high = ground arith in
            rw a (clear-inside (high + 1 - low) low state (n % 32768) (omega arith) (omega arith))
        | inr b ↦
            let order : high < low = ground arith in
            let order' : ltb high low ≡ true = ground arith in
            rw (b, order')
              (elim (dec_lt (n % 32768) low) [
                | yes h ↦ clear-inside (high + 1) 0 _ (n % 32768) (omega arith) (omega arith)
                | no h ↦ not_true _ (λ e. true-ne-false (
                    sym (clear-fewer (high + 1) 0 _ (n % 32768) e)
                    ∙ clear-inside (32768 - low) low state (n % 32768) (omega arith) (omega arith)))
              ])
      ]

-- What an update of the queue has to leave.
pub record Updated (byte : ℕ → ℕ) (q : RcvQueue) (r : RcvQueue × Bool) : Type 0 where
  pub holds : Holds byte r.0
  pub start : r.0.wnd_min ≡ q.wnd_min
  pub more : q.nxt_rcv ≤ r.0.nxt_rcv
  pub fresh : r.1 ≡ true → q.wnd_min < r.0.nxt_rcv

module _ (byte : ℕ → ℕ) (q : RcvQueue) (h : Holds byte q) where
  abbrev reached : ℕ
  reached = scan q.buf_size q.wnd_min q

  abbrev expected : ℕ
  expected = if ltb q.nxt_rcv reached then reached else q.nxt_rcv

  abbrev marks_left : ℕ → Bool
  marks_left =
      if q.wnd_min == reached
      then q.buf_state
      else clear_marks q.wnd_min reached q.buf_size q.buf_state

  reached_low : q.wnd_min ≤ reached
  reached_low = scan-low q.buf_size q.wnd_min q

  reached_high : reached < q.wnd_min + 32768
  reached_high = elim (scan-max q.buf_size q.wnd_min q) [
    | inl e ↦ omega arith
    | inr below ↦ omega (arith, h.end)
  ]

  reached_marked : (n : ℕ) → q.wnd_min ≤ n → n < reached → q.buf_state (n % 32768) ≡ true
  reached_marked n a b =
      let e : n % 2 ^ 32 % q.buf_size ≡ n % 32768 =
        rw h.size (omega (arith, reached_high, h.short)) in
      ap q.buf_state (sym e) ∙ scan-marked q.buf_size q.wnd_min q n a b

  sized :
      (k : ℕ)
      → clear_marks q.wnd_min reached q.buf_size q.buf_state k
        ≡ clear_marks q.wnd_min reached 32768 q.buf_state k
  sized k = ap (λ s. clear_marks q.wnd_min reached s q.buf_state k) h.size

  moved : (q.wnd_min == reached) ≡ false → q.wnd_min < reached
  moved apart = let low = reached_low in ground arith

  left_fewer : (k : ℕ) → marks_left k ≡ true → q.buf_state k ≡ true
  left_fewer k e = elim (Bool-cases (q.wnd_min == reached)) [
    | inl same ↦ rw same at e
    | inr apart ↦
        clear_marks-fewer q.wnd_min reached q.buf_state (moved apart) reached_high h.short k
          (sym (sized k) ∙ rw apart at e)
  ]

  left_cleared : (n : ℕ) → q.wnd_min ≤ n → n < reached → marks_left (n % 32768) ≡ false
  left_cleared n a b =
      let apart : (q.wnd_min == reached) ≡ false = ground arith in
      rw apart (
        sized (n % 32768)
        ∙ clear_marks-inside q.wnd_min reached q.buf_state (omega arith) reached_high h.short n a b)

  -- Whatever the next number is.
  expected_low : q.nxt_rcv ≤ expected
  expected_low = ground arith

  expected_high : expected < q.wnd_min + 32768
  expected_high = let a = h.room in let b = reached_high in ground arith

  left_read : (n : ℕ) → q.wnd_min ≤ n → n < expected → q.buf (n % 32768) ≡ byte n
  left_read n a b = elim (dec_lt n q.nxt_rcv) [
    | yes old ↦ h.read n a old
    | no new ↦
        let c : n < reached = ground arith in
        h.ahead n (a, omega (arith, reached_high)) (reached_marked n a c)
  ]

  left_unmarked : (n : ℕ) → q.wnd_min ≤ n → n < expected → marks_left (n % 32768) ≡ false
  left_unmarked n a b = elim (dec_lt n q.nxt_rcv) [
    | yes old ↦ not_true _ (λ e. true-ne-false (sym (left_fewer _ e) ∙ h.unmarked n a old))
    | no new ↦ left_cleared n a (ground arith)
  ]

  left_whole :
      (expected == q.max_seq_num) ≡ true → (n : ℕ) → InWindow q n → marks_left (n % 32768) ≡ false
  left_whole e n within = not_true _ (λ m.
      let below = h.bound n within (left_fewer _ m) in
      let met : expected ≡ q.max_seq_num = eq_of_== expected q.max_seq_num e in
      true-ne-false (sym m ∙ left_unmarked n within.0 (omega arith)))

  abbrev closed_queue : RcvQueue
  closed_queue = record q {
    nxt_rcv = expected;
    is_wnd_hole = if expected == q.max_seq_num then false else q.is_wnd_hole;
    max_seq_num = if expected == q.max_seq_num then 0 else q.max_seq_num;
    buf_state = marks_left;
  }

  close_hole_lem : (close_hole q).0 ≡ closed_queue
  unfolding close_hole
  close_hole_lem =
      let in_order : leb q.wnd_min q.nxt_rcv ≡ true = let o = h.order in ground arith in
      let short : ltb 4294967295 reached ≡ false =
        let a = reached_high in let b = h.short in ground arith in
      rw (in_order, short) refl

  closed-Holds : Holds byte closed_queue
  closed-Holds = record {
    size = h.size;
    order = omega (arith, h.order, expected_low);
    room = expected_high;
    short = h.short;
    end = let e = h.end in ground arith;
    read = left_read;
    unmarked = left_unmarked;
    ahead = λ n within e. h.ahead n within (left_fewer _ e);
    bound = λ n within e. elim (Bool-cases (expected == q.max_seq_num)) [
      | inl met ↦ absurd (true-ne-false (sym e ∙ left_whole met n within))
      | inr apart ↦ rw apart (h.bound n within (left_fewer _ e))
    ];
    whole = λ e n within. elim (Bool-cases (expected == q.max_seq_num)) [
      | inl met ↦ left_whole met n within
      | inr apart ↦
          not_true _ (λ m. true-ne-false (sym (left_fewer _ m) ∙ h.whole (rw apart at e) n within))
    ];
  }

  close_hole-fresh : (close_hole q).1 ≡ ltb q.wnd_min expected
  unfolding close_hole
  close_hole-fresh =
      let in_order : leb q.wnd_min q.nxt_rcv ≡ true = let o = h.order in ground arith in
      rw in_order refl

  -- The flag is set only if there is something to read.
  pub close_hole-Updated : Updated byte q (close_hole q)
  close_hole-Updated = record {
    holds = rw close_hole_lem closed-Holds;
    start = ap (λ x. x.wnd_min) close_hole_lem;
    more = rw close_hole_lem expected_low;
    fresh = λ e.
        let e' : ltb q.wnd_min expected ≡ true = sym close_hole-fresh ∙ e in
        rw close_hole_lem (ground arith);
  }

-- As long as there are bytes to read, what fills a hole is not looked at: the expected number stays.
pub close_hole-waits :
    (byte : ℕ → ℕ) (q : RcvQueue)
    → Holds byte q
    → q.wnd_min < q.nxt_rcv
    → (close_hole q).0.nxt_rcv ≡ q.nxt_rcv
close_hole-waits byte q h unread =
    let stuck : ltb q.nxt_rcv (reached byte q h) ≡ false =
      elim (dec_lt q.wnd_min (reached byte q h)) [
        | yes on ↦ absurd (
            true-ne-false (
              sym (reached_marked byte q h q.wnd_min (omega arith) on)
              ∙ h.unmarked q.wnd_min (omega arith) unread))
        | no off ↦ ground arith
      ] in
    ap (λ x. x.nxt_rcv) (close_hole_lem byte q h) ∙ rw stuck refl
