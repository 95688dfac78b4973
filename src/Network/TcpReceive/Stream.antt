-- ===== src/Network/TcpReceive/Stream.antt =====
-- Segments of one stream that come in any order, and what is read of them.
use g_os.Common.{
  ==_of_eq, ==_of_ne, Bool, Bool-cases, Option, and_true, ap, arith, dec_lt, eq_of_==, false,
  if◌then◌else◌, inl, inr, leb, ltb, not, refl, subst, sym, true, true-ne-false, ℕ, ◌%◌, ◌&&◌, ◌+◌,
  ◌-◌, ◌<◌, ◌==◌, ◌^◌, ◌∙◌, ◌≡◌, ◌≤◌,
}
use g_os.Network.TcpSocket.{Ack, Conn, RcvQueue, available}
use g_os.Network.TcpReceive.{
  Stored, accepts, close_hole, place, rejects, store_data, update_rcv_window_and_ack, wakes,
}
use g_os.Network.TcpReceive.Place.{Fits, Placed, is_hole, place-Placed}
use g_os.Network.TcpReceive.Order.{Carries, Holds, placed_Holds, placed_new}
use g_os.Network.TcpReceive.Hole.{Updated, close_hole-Updated}

if_true {ℓ} : {A : Type ℓ} (b : Bool) (x y : A) → b ≡ true → (if b then x else y) ≡ x
if_true b x y e = rw e refl

if_false {ℓ} : {A : Type ℓ} (b : Bool) (x y : A) → b ≡ false → (if b then x else y) ≡ y
if_false b x y e = rw e refl

no_hole_lem :
    (q : RcvQueue) (seq : ℕ) → is_hole q seq ≡ false → (q.nxt_rcv ≡ seq) × (q.is_wnd_hole ≡ false)
no_hole_lem q seq e = elim (Bool-cases (q.nxt_rcv == seq)) [
  | inl met ↦ (eq_of_== q.nxt_rcv seq met, rw met at e)
  | inr apart ↦ absurd (true-ne-false (rw apart at e))
]

update-closes :
    (q : RcvQueue) (len seq : ℕ)
    → q.is_wnd_hole ≡ true
    → update_rcv_window_and_ack q len seq ≡ close_hole q
unfolding update_rcv_window_and_ack
update-closes q len seq holed =
    let test : (q.nxt_rcv == seq && not q.is_wnd_hole) ≡ false =
      elim (Bool-cases (q.nxt_rcv == seq)) [
        | inl met ↦ rw (met, holed) refl
        | inr apart ↦ rw apart refl
      ] in
    if_false _ _ _ test

pub update-appends :
    (q : RcvQueue) (len seq : ℕ)
    → q.nxt_rcv ≡ seq
    → q.is_wnd_hole ≡ false
    → update_rcv_window_and_ack q len seq ≡ (
      record q {
        nxt_rcv = (q.nxt_rcv + len) % 2 ^ 32;
        wnd_size = (q.wnd_size + 2 ^ 32 - len) % 2 ^ 32;
      },
      true,
    )
unfolding update_rcv_window_and_ack
update-appends q len seq met whole =
    let test : (q.nxt_rcv == seq && not q.is_wnd_hole) ≡ true =
      ap (λ b. b && not q.is_wnd_hole) (==_of_eq q.nxt_rcv seq met) ∙ ap not whole in
    if_true _ _ _ test

module _ (byte : ℕ → ℕ) (q : RcvQueue) (seq len : ℕ) (bytes : ℕ → ℕ) (h : Holds byte q)
    (fits : Fits q seq len) (new : q.nxt_rcv ≤ seq) (same : Carries byte bytes seq len) where
  abbrev filled : RcvQueue
  filled = place q seq seq len bytes

  filled-Placed : Placed q filled seq len bytes
  filled-Placed = place-Placed q seq len bytes fits

  filled-Holds : Holds byte filled
  filled-Holds = placed_Holds byte q filled seq len bytes h fits new same filled-Placed

  appended-Holds :
      is_hole q seq ≡ false
      → q.nxt_rcv ≡ seq
      → q.is_wnd_hole ≡ false
      → (wnd : ℕ)
      → Holds byte (record filled { nxt_rcv = (filled.nxt_rcv + len) % 2 ^ 32; wnd_size = wnd })
  appended-Holds shut met whole wnd =
      let f = filled-Holds in
      let p = filled-Placed in
      let start = p.start in
      let nxt = p.next in
      let no_hole : filled.is_wnd_hole ≡ false = (p.no_hole shut).1 ∙ whole in
      let sum : (filled.nxt_rcv + len) % 2 ^ 32 ≡ seq + len =
        omega (arith, fits.last, fits.short) in
      record {
        size = f.size;
        order = omega (arith, f.order);
        room = omega (arith, fits.last);
        short = f.short;
        end = f.end;
        read = λ n a b. elim (dec_lt n q.nxt_rcv) [
          | yes old ↦ f.read n a (omega arith)
          | no late ↦
              placed_new byte q filled seq len bytes h fits new same p n (omega arith) (omega arith)
        ];
        unmarked = λ n a b. f.whole no_hole n (a, omega (arith, fits.last));
        ahead = f.ahead;
        bound = f.bound;
        whole = f.whole;
      }

  update-Updated : Updated byte q (update_rcv_window_and_ack filled len seq)
  update-Updated =
      let p = filled-Placed in
      let start = p.start in
      let nxt = p.next in
      elim (Bool-cases (is_hole q seq)) [
        | inl holed ↦
            let u = close_hole-Updated byte filled filled-Holds in
            rw (update-closes filled len seq (p.hole holed).0) (record {
              holds = u.holds;
              start = u.start ∙ start;
              more = omega (arith, u.more);
              fresh = λ e. omega (arith, u.fresh e);
            })
        | inr shut ↦
            let (met, whole) = no_hole_lem q seq shut in
            let sum : (filled.nxt_rcv + len) % 2 ^ 32 ≡ seq + len =
              omega (arith, met, fits.last, fits.short) in
            rw (update-appends filled len seq (nxt ∙ met) ((p.no_hole shut).1 ∙ whole)) (record {
              holds = appended-Holds shut met whole _;
              start = start;
              more = omega arith;
              fresh = λ e. omega (arith, fits.first, fits.some_bytes);
            })
      ]

-- A segment with bytes of the stream that ends before the last slot of the window is taken, or it
-- leaves the queue as it is.
pub data Kept (byte : ℕ → ℕ) (c : Conn) : Stored → Type 0 where
  taken :
      (d : Conn) (awakes : Bool)
      → Holds byte d.rcv_queue
      → d.rcv_queue.wnd_min ≡ c.rcv_queue.wnd_min
      → c.rcv_queue.nxt_rcv ≤ d.rcv_queue.nxt_rcv
      → Kept byte c (accepts d awakes)
  left : (d : Conn) (ack : Option Ack) → d.rcv_queue ≡ c.rcv_queue → Kept byte c (rejects d ack)

wakes-Kept :
    (byte : ℕ → ℕ) (c : Conn) (u : RcvQueue × Bool)
    → Updated byte c.rcv_queue u
    → Kept byte c (wakes c u)
unfolding wakes
wakes-Kept byte c u up = elim (Bool-cases (c.has_process && u.1)) [
  | inl told ↦
      let fresh = up.fresh (and_true c.has_process u.1 told).1 in
      let start = up.start in
      let room = up.holds.room in
      let short = up.holds.short in
      let some_left : (available u.0 == 0) ≡ false = ==_of_ne _ 0 (λ e. omega arith) in
      rw (told, some_left) (taken _ true up.holds up.start up.more)
  | inr quiet ↦ rw quiet (taken _ false up.holds up.start up.more)
]

-- Inside the window.
pub store_data-takes :
    (byte : ℕ → ℕ) (c : Conn) (seq len : ℕ) (bytes : ℕ → ℕ)
    → Holds byte c.rcv_queue
    → seq + len < c.rcv_queue.wnd_min + 32768
    → c.rcv_queue.nxt_rcv ≤ seq
    → store_data c seq len bytes
      ≡ wakes c (update_rcv_window_and_ack (place c.rcv_queue seq seq len bytes) len seq)
unfolding store_data
store_data-takes byte c seq len bytes h last later =
    let q = c.rcv_queue in
    let in_order : leb q.wnd_min q.nxt_rcv ≡ true = let o = h.order in ground arith in
    let no_wrap : ltb 4294967295 (q.wnd_min + q.buf_size) ≡ false =
      let s = h.size in let b = h.short in ground arith in
    let fits_in : leb (seq + len) (q.wnd_min + q.buf_size) ≡ true =
      let s = h.size in ground arith in
    let new : leb q.nxt_rcv seq ≡ true = ground arith in simp (in_order, no_wrap, new, fits_in) refl

store_data-leaves :
    (byte : ℕ → ℕ) (c : Conn) (seq len : ℕ) (bytes : ℕ → ℕ)
    → Holds byte c.rcv_queue
    → seq < c.rcv_queue.nxt_rcv
    → Kept byte c (store_data c seq len bytes)
unfolding store_data
store_data-leaves byte c seq len bytes h below =
    let q = c.rcv_queue in
    let in_order : leb q.wnd_min q.nxt_rcv ≡ true = let o = h.order in ground arith in
    let no_wrap : ltb 4294967295 (q.wnd_min + q.buf_size) ≡ false =
      let s = h.size in let b = h.short in ground arith in
    let old : leb q.nxt_rcv seq ≡ false = ground arith in
    let old' : ltb seq q.nxt_rcv ≡ true = ground arith in
    simp (in_order, no_wrap, old, old') (left _ _ refl)

-- A segment with bytes of the stream that is not empty and ends before the last slot of the window,
-- while the window ends before the sequence numbers do, either is taken, and the ring holds the
-- stream as before and expects the same number or a later one, or leaves the queue as it is; nothing
-- panics.
pub store_data-Kept :
    (byte : ℕ → ℕ) (c : Conn) (seq len : ℕ) (bytes : ℕ → ℕ)
    → Holds byte c.rcv_queue
    → 0 < len
    → seq + len < c.rcv_queue.wnd_min + 32768
    → Carries byte bytes seq len
    → Kept byte c (store_data c seq len bytes)
store_data-Kept byte c seq len bytes h some_bytes last same =
    let q = c.rcv_queue in
    elim (dec_lt seq q.nxt_rcv) [
      | yes old ↦ store_data-leaves byte c seq len bytes h old
      | no new ↦
          let fits : Fits q seq len = record {
            size = h.size;
            first = omega (arith, h.order);
            last = last;
            short = h.short;
            some_bytes = some_bytes;
          } in
          subst (λ r. Kept byte c r)
            (sym (store_data-takes byte c seq len bytes h last (omega arith)))
            (wakes-Kept byte c _ (update-Updated byte q seq len bytes h fits (omega arith) same))
    ]
