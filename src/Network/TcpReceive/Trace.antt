-- ===== src/Network/TcpReceive/Trace.antt =====
-- Segments that come in any order, interleaved with reads.
use g_os.Common.{
  Bool-cases, List, [], ap, ap₂, arith, dec_lt, if◌then◌else◌, inl, inr, length, length-append, ltb,
  refl, subst, suc, sym, true, true-ne-false, zero, ℕ, ◌%◌, ◌++◌, ◌+◌, ◌-◌, ◌<◌, ◌^◌, ◌∙◌, ◌∷◌, ◌≡◌,
  ◌≤◌,
}
use g_os.Network.TcpSocket.{
  Conn, Dequeued, RcvQueue, announces, available, fails, gives, panics, ring_read, take_bytes,
}
use g_os.Network.TcpSocket.Reading.{ring_read-stream, stream}
use g_os.Network.TcpReceive.{Stored, accepts, acknowledge, panics, rejects, store_data}
use g_os.Network.TcpReceive.Place.{}
use g_os.Network.TcpReceive.Order.{Carries, Holds, not_true}
use g_os.Network.TcpReceive.Stream.{Kept, left, store_data-Kept, taken}

-- The bytes of the stream from the number `pos` on.
unfoldable pub bytes_from : (byte : ℕ → ℕ) (pos n : ℕ) → List ℕ
bytes_from byte pos zero = []
bytes_from byte pos (suc n) = byte pos ∷ bytes_from byte (pos + 1) n

stream-bytes :
    (byte buf : ℕ → ℕ) (pos n : ℕ)
    → ((k : ℕ) → pos ≤ k → k < pos + n → buf (k % 32768) ≡ byte k)
    → stream buf pos n ≡ bytes_from byte pos n
unfolding stream bytes_from
stream-bytes byte buf pos zero h = refl
stream-bytes byte buf pos (suc n) h =
    ap₂ (λ a b. a ∷ b) (h pos (omega arith) (omega arith))
      (stream-bytes byte buf (pos + 1) n (λ k a b. h k (omega arith) (omega arith)))

bytes_from-append :
    (byte : ℕ → ℕ) (pos m n k : ℕ)
    → m + n ≡ k
    → bytes_from byte pos m ++ bytes_from byte (pos + m) n ≡ bytes_from byte pos k
unfolding bytes_from
bytes_from-append byte pos zero n k all =
    let e : pos + 0 ≡ pos = omega arith in let e' : k ≡ n = omega arith in rw (e, e') refl
bytes_from-append byte pos (suc m) n zero all = absurd (omega arith)
bytes_from-append byte pos (suc m) n (suc k) all =
    let e : pos + suc m ≡ pos + 1 + m = omega arith in
    rw e (ap (λ xs. byte pos ∷ xs) (bytes_from-append byte (pos + 1) m n k (omega arith)))

-- After reading, the window is further on.
module _ (byte : ℕ → ℕ) (q : RcvQueue) (len : ℕ) (h : Holds byte q) (some_bytes : 0 < len)
    (there : q.wnd_min + len ≤ q.nxt_rcv) (short : q.wnd_min + len + 32768 ≤ 4294967295) where
  moved_slot :
      (n : ℕ)
      → q.wnd_min + len ≤ n
      → n < q.wnd_min + len + 32768
      → q.buf_state (n % 32768) ≡ true
      → n < q.wnd_min + 32768
  moved_slot n a b e = elim (dec_lt n (q.wnd_min + 32768)) [
    | yes h' ↦ h'
    | no h' ↦
        let slot : n % 32768 ≡ (n - 32768) % 32768 = omega arith in
        let free = h.unmarked (n - 32768) (omega arith) (omega arith) in
        absurd (true-ne-false (sym e ∙ ap q.buf_state slot ∙ free))
  ]

  moved-Holds :
      (wnd adv : ℕ)
      → Holds byte
          (record q { wnd_min = (q.wnd_min + len) % 2 ^ 32; wnd_size = wnd; last_adv_wnd = adv })
  moved-Holds wnd adv =
      let e : (q.wnd_min + len) % 2 ^ 32 ≡ q.wnd_min + len = omega arith in
      subst (λ low. Holds byte (record q { wnd_min = low; wnd_size = wnd; last_adv_wnd = adv }))
        (sym e)
        (record {
          size = h.size;
          order = there;
          room = omega (arith, h.room);
          short = short;
          end = omega (arith, h.end);
          read = λ n a b. h.read n (omega arith) b;
          unmarked = λ n a b. h.unmarked n (omega arith) b;
          ahead = λ n within m. h.ahead n (omega arith, moved_slot n within.0 within.1 m) m;
          bound = λ n within m. h.bound n (omega arith, moved_slot n within.0 within.1 m) m;
          whole = λ w n within. not_true _ (λ m.
              true-ne-false (sym m ∙ h.whole w n (omega arith, moved_slot n within.0 within.1 m)));
        })

-- What is left of the connection, and what has been read.
abbrev pub stored_conn : Conn → Stored → Conn
stored_conn c panics = c
stored_conn c (accepts d awakes) = d
stored_conn c (rejects d ack) = d

abbrev pub read_conn : Conn → Dequeued → Conn
read_conn c panics = c
read_conn c (fails d) = d
read_conn c (gives ret bytes d ack) = d

abbrev pub read_bytes : Dequeued → List ℕ
read_bytes panics = []
read_bytes (fails d) = []
read_bytes (gives ret bytes d ack) = bytes

-- Steps of a connection whose segments carry bytes of one stream: a segment comes, an acknowledgement
-- goes out, and a process reads.
pub data Trace (byte : ℕ → ℕ) (c : Conn) : Conn → List ℕ → Type 0 where
  start : Trace byte c c []
  comes :
      {d : Conn} {out : List ℕ} (seq len : ℕ) (bytes : ℕ → ℕ)
      → 0 < len
      → seq + len < d.rcv_queue.wnd_min + 32768
      → Carries byte bytes seq len
      → Trace byte c d out
      → Trace byte c (stored_conn d (store_data d seq len bytes)) out
  acknowledges : {d : Conn} {out : List ℕ} → Trace byte c d out → Trace byte c (acknowledge d).0 out
  reads :
      {d : Conn} {out : List ℕ} (n : ℕ)
      → 0 < n
      → d.rcv_queue.wnd_min < d.rcv_queue.nxt_rcv
      → d.rcv_queue.nxt_rcv + 32768 ≤ 4294967295
      → Trace byte c d out
      → Trace byte c (read_conn d (take_bytes d n)) (out ++ read_bytes (take_bytes d n))

pub record InOrder (byte : ℕ → ℕ) (c d : Conn) (out : List ℕ) : Type 0 where
  pub holds : Holds byte d.rcv_queue
  pub at : d.rcv_queue.wnd_min ≡ c.rcv_queue.wnd_min + length out
  pub in_order : out ≡ bytes_from byte c.rcv_queue.wnd_min (length out)

Holds-adv :
    (byte : ℕ → ℕ) (q : RcvQueue) (adv : ℕ)
    → Holds byte q
    → Holds byte (record q { last_adv_wnd = adv })
Holds-adv byte q adv h = record {
  size = h.size;
  order = h.order;
  room = h.room;
  short = h.short;
  end = h.end;
  read = h.read;
  unmarked = h.unmarked;
  ahead = h.ahead;
  bound = h.bound;
  whole = h.whole;
}

acknowledge-Holds :
    (byte : ℕ → ℕ) (c : Conn)
    → Holds byte c.rcv_queue
    → Holds byte (acknowledge c).0.rcv_queue
      × ((acknowledge c).0.rcv_queue.wnd_min ≡ c.rcv_queue.wnd_min)
unfolding acknowledge
acknowledge-Holds byte c h =
    elim (Bool-cases
      (announces (record c { pending_ack = (c.pending_ack + 1) % 2 ^ 8 }) c.rcv_queue)) [
        | inl now ↦ rw now (Holds-adv byte c.rcv_queue _ h, refl)
        | inr later ↦ rw later (h, refl)
      ]

pub record Took (byte : ℕ → ℕ) (c : Conn) (r : Dequeued) : Type 0 where
  pub len : ℕ
  pub holds : Holds byte (read_conn c r).rcv_queue
  pub at : (read_conn c r).rcv_queue.wnd_min ≡ c.rcv_queue.wnd_min + len
  pub bytes : read_bytes r ≡ bytes_from byte c.rcv_queue.wnd_min len

take_bytes-Took :
    (byte : ℕ → ℕ) (c : Conn) (n : ℕ)
    → Holds byte c.rcv_queue
    → 0 < n
    → c.rcv_queue.wnd_min < c.rcv_queue.nxt_rcv
    → c.rcv_queue.nxt_rcv + 32768 ≤ 4294967295
    → Took byte c (take_bytes c n)
unfolding take_bytes
take_bytes-Took byte c n h some_bytes some_left short =
    let q = c.rcv_queue in
    let len = if ltb (available q) n then available q else n in
    let all : available q ≡ q.nxt_rcv - q.wnd_min = omega (arith, h.room, h.short) in
    let positive : 0 < len = ground arith in
    let there : q.wnd_min + len ≤ q.nxt_rcv = ground arith in
    let moved = moved-Holds byte q len h positive there (omega arith) in
    let low : (q.wnd_min + len) % 2 ^ 32 ≡ q.wnd_min + len = omega arith in
    let same : ring_read q len ≡ bytes_from byte q.wnd_min len =
      ring_read-stream q len h.size (omega arith) positive (omega (arith, h.room))
      ∙ stream-bytes byte q.buf q.wnd_min len (λ k a b. h.read k a (omega arith)) in
    elim (Bool-cases (
      announces c (record q {
        wnd_size = (q.wnd_size + len) % 2 ^ 32;
        wnd_min = (q.wnd_min + len) % 2 ^ 32;
      }))) [
        | inl now ↦ rw now (record { len = len; holds = moved _ _; at = low; bytes = same })
        | inr later ↦ rw later (record { len = len; holds = moved _ _; at = low; bytes = same })
      ]

length-bytes_from : (byte : ℕ → ℕ) (pos n : ℕ) → length (bytes_from byte pos n) ≡ n
unfolding bytes_from
length-bytes_from byte pos zero = refl
length-bytes_from byte pos (suc n) = ap suc (length-bytes_from byte (pos + 1) n)

Kept-stored :
    (byte : ℕ → ℕ) (c : Conn) (r : Stored)
    → Holds byte c.rcv_queue
    → Kept byte c r
    → Holds byte (stored_conn c r).rcv_queue
      × ((stored_conn c r).rcv_queue.wnd_min ≡ c.rcv_queue.wnd_min)
Kept-stored byte c _ h (taken d awakes held low more) = (held, low)
Kept-stored byte c _ h (left d ack e) = (subst (λ q. Holds byte q) (sym e) h, ap (λ q. q.wnd_min) e)

-- From a connection whose ring holds the stream of some bytes: whatever the order in which segments of
-- that stream come, each of them not empty and ending before the last slot of the window, and
-- however acknowledgements and reads are between them, as long as no read moves the window to the end
-- of the sequence numbers, all that has been read so far is the next bytes of the stream, in their
-- order.
pub Trace-InOrder :
    (byte : ℕ → ℕ) (c d : Conn) (out : List ℕ)
    → Holds byte c.rcv_queue
    → Trace byte c d out
    → InOrder byte c d out
unfolding bytes_from
Trace-InOrder byte c d out h start = record { holds = h; at = omega arith; in_order = refl }
Trace-InOrder byte c _ out h (comes {d} seq len bytes some_bytes last same t) =
    let before = Trace-InOrder byte c d out h t in
    let kept = store_data-Kept byte d seq len bytes before.holds some_bytes last same in
    let after = Kept-stored byte d _ before.holds kept in
    record { holds = after.0; at = after.1 ∙ before.at; in_order = before.in_order }
Trace-InOrder byte c _ out h (acknowledges {d} t) =
    let before = Trace-InOrder byte c d out h t in
    let after = acknowledge-Holds byte d before.holds in
    record { holds = after.0; at = after.1 ∙ before.at; in_order = before.in_order }
Trace-InOrder byte c _ _ h (reads {d} {out} n some_bytes some_left short t) =
    let before = Trace-InOrder byte c d out h t in
    let took = take_bytes-Took byte d n before.holds some_bytes some_left short in
    let r = take_bytes d n in
    let size : length (read_bytes r) ≡ took.len =
      ap length took.bytes ∙ length-bytes_from byte d.rcv_queue.wnd_min took.len in
    record {
      holds = took.holds;
      at = omega (arith, took.at, before.at, size, length-append out (read_bytes r));
      in_order =
          ap₂ (λ a b. a ++ b) before.in_order
            (took.bytes ∙ ap (λ p. bytes_from byte p took.len) before.at)
          ∙ bytes_from-append byte c.rcv_queue.wnd_min (length out) took.len _
              (omega (arith, size, length-append out (read_bytes r)));
    }
