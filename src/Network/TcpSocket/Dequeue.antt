-- ===== src/Network/TcpSocket/Dequeue.antt =====
-- What a read returns, and what it leaves in the connection.
use g_os.Common.{
  Bool-cases, Option, [], arith, if◌then◌else◌, inl, inr, leb, ltb, none, refl, some, ℕ, ◌%◌, ◌+◌,
  ◌-◌, ◌<◌, ◌^◌, ◌≡◌, ◌≤◌, ◌⊎◌,
}
use g_os.Network.TcpSocket.{
  Ack, Conn, Dequeued, RcvQueue, announces, available, close_wait, dequeue_packet_tcp, estabilished,
  fails, gives, is_empty, take_bytes,
}
use g_os.Network.TcpSocket.Reading.{ring_read-stream, stream}

-- The window still open and the bytes not yet read have room in the ring.
pub record IsRing (q : RcvQueue) : Type 0 where
  pub size : q.buf_size ≡ 32768
  pub low : q.wnd_min < 2 ^ 32
  pub high : q.nxt_rcv < 2 ^ 32
  pub room : q.wnd_size + available q ≤ 32768

-- `len` bytes have been taken out of `c`, with `c'` left.
pub record Takes (c c' : Conn) (len : ℕ) : Type 0 where
  pub ring : IsRing c'.rcv_queue
  pub left : available c'.rcv_queue + len ≡ available c.rcv_queue
  pub start : c'.rcv_queue.wnd_min ≡ (c.rcv_queue.wnd_min + len) % 2 ^ 32
  pub window : c'.rcv_queue.wnd_size ≡ c.rcv_queue.wnd_size + len
  pub bytes : c'.rcv_queue.buf ≡ c.rcv_queue.buf
  pub status : c'.status ≡ c.status

-- As many bytes as are asked for, or all there are.
abbrev pub taken : Conn → ℕ → ℕ
taken c data_len = if leb data_len (available c.rcv_queue) then data_len else available c.rcv_queue

-- The next bytes of the stream are read.
pub Reads : Conn → (data_len : ℕ) → Dequeued → Type 0
Reads c data_len r =
    (c' : Conn) × (ack : Option Ack) × (r
      ≡ gives (taken c data_len) (stream c.rcv_queue.buf c.rcv_queue.wnd_min (taken c data_len)) c'
          ack)
    × Takes c c' (taken c data_len)

abbrev pub advance : RcvQueue → ℕ → RcvQueue
advance q n = record q { wnd_size = (q.wnd_size + n) % 2 ^ 32; wnd_min = (q.wnd_min + n) % 2 ^ 32 }

available-moved :
    (nxt low n : ℕ)
    → nxt < 2 ^ 32
    → low < 2 ^ 32
    → n ≤ (nxt + 2 ^ 32 - low) % 2 ^ 32
    → (nxt + 2 ^ 32 - (low + n) % 2 ^ 32) % 2 ^ 32 + n ≡ (nxt + 2 ^ 32 - low) % 2 ^ 32
available-moved nxt low n h l fits = ground arith

available-advance :
    (q : RcvQueue) (n : ℕ) → IsRing q → n ≤ available q → available (advance q n) + n ≡ available q
available-advance q n is fits = available-moved q.nxt_rcv q.wnd_min n is.high is.low fits

advance-IsRing : (q : RcvQueue) (n : ℕ) → IsRing q → n ≤ available q → IsRing (advance q n)
advance-IsRing q n is fits = record {
  size = is.size;
  low = omega arith;
  high = is.high;
  room = omega (arith, is.room, available-advance q n is fits);
}

Takes-advance :
    (c c' : Conn) (n : ℕ)
    → IsRing c.rcv_queue
    → n ≤ available c.rcv_queue
    → IsRing c'.rcv_queue
    → c'.rcv_queue.wnd_min ≡ (advance c.rcv_queue n).wnd_min
    → c'.rcv_queue.wnd_size ≡ (advance c.rcv_queue n).wnd_size
    → c'.rcv_queue.nxt_rcv ≡ c.rcv_queue.nxt_rcv
    → c'.rcv_queue.buf ≡ c.rcv_queue.buf
    → c'.status ≡ c.status
    → Takes c c' n
Takes-advance c c' n is fits ring low size high bytes status = record {
  ring = ring;
  left = rw (low, high) (available-advance c.rcv_queue n is fits);
  start = low;
  window = omega (arith, size, is.room);
  bytes = bytes;
  status = status;
}

taken-least :
    (c : Conn) (data_len : ℕ)
    → (if ltb (available c.rcv_queue) data_len then available c.rcv_queue else data_len)
      ≡ taken c data_len
taken-least c data_len = ground arith

taken-fits : (c : Conn) (data_len : ℕ) → taken c data_len ≤ available c.rcv_queue
taken-fits c data_len = ground arith

pub take_bytes-Reads :
    (c : Conn) (data_len : ℕ)
    → IsRing c.rcv_queue
    → 0 < data_len
    → 0 < available c.rcv_queue
    → Reads c data_len (take_bytes c data_len)
unfolding take_bytes Reads
take_bytes-Reads c data_len is asked some_left =
    let n = taken c data_len in
    let q = advance c.rcv_queue n in
    let fits = taken-fits c data_len in
    let some_taken : 0 < n = ground arith in
    let ring = advance-IsRing c.rcv_queue n is fits in
    let bytes = ring_read-stream c.rcv_queue n is.size is.low some_taken (omega (arith, is.room)) in
    rw (taken-least c data_len, bytes)
      (elim (Bool-cases (announces c q)) [
        | inl told ↦ rw told (
          record c { rcv_queue = record q { last_adv_wnd = q.wnd_size }; pending_ack = 0 },
          some (record { wnd_size = q.wnd_size; ack_num = q.nxt_rcv; seq_num = c.snd_nxt_snd }),
          refl,
          Takes-advance c
              (record c { rcv_queue = record q { last_adv_wnd = q.wnd_size }; pending_ack = 0 }) n
              is fits
              (record { size = ring.size; low = ring.low; high = ring.high; room = ring.room }) refl
              refl refl refl refl,
        )
        | inr quiet ↦ rw quiet (
          record c { rcv_queue = q },
          none,
          refl,
          Takes-advance c (record c { rcv_queue = q }) n is fits ring refl refl refl refl refl,
        )
      ])

-- The connection from which a read of an open connection takes its bytes: a process that finds
-- none sleeps once.
abbrev pub awake : (Conn → Conn) → Conn → Conn
awake sleep c = if is_empty c then sleep c else c

-- The two statuses in which a read looks at the ring.
when-estabilished :
    (sleep : Conn → Conn) (c : Conn) (data_len : ℕ)
    → c.status ≡ estabilished
    → dequeue_packet_tcp sleep c data_len ≡ (
        if is_empty c
        then if is_empty (sleep c) then fails (sleep c) else take_bytes (sleep c) data_len
        else take_bytes c data_len)
unfolding dequeue_packet_tcp
when-estabilished sleep c data_len e = rw e refl

when-close_wait :
    (sleep : Conn → Conn) (c : Conn) (data_len : ℕ)
    → c.status ≡ close_wait
    → dequeue_packet_tcp sleep c data_len
      ≡ (if is_empty c then gives 0 [] c none else take_bytes c data_len)
unfolding dequeue_packet_tcp
when-close_wait sleep c data_len e = rw e refl

when-awake :
    (sleep : Conn → Conn) (c : Conn) (data_len : ℕ)
    → c.status ≡ estabilished
    → dequeue_packet_tcp sleep c data_len ≡ (
        if is_empty (awake sleep c)
        then fails (awake sleep c)
        else take_bytes (awake sleep c) data_len)
when-awake sleep c data_len e = elim (Bool-cases (is_empty c)) [
  | inl empty ↦ rw (when-estabilished sleep c data_len e, empty) refl
  | inr full ↦ rw (when-estabilished sleep c data_len e, full, full) refl
]

either-way :
    (d : Conn) (data_len : ℕ)
    → IsRing d.rcv_queue
    → 0 < data_len
    → (r : Dequeued) → r ≡ (if is_empty d then fails d else take_bytes d data_len)
    → ((available d.rcv_queue ≡ 0) × (r ≡ fails d)) ⊎ Reads d data_len r
either-way d data_len is asked r e = elim (Bool-cases (is_empty d)) [
  | inl empty ↦ inl (ground arith, rw (e, empty) refl)
  | inr full ↦ inr (rw (e, full) (take_bytes-Reads d data_len is asked (ground arith)))
]

-- A read of at least one byte from an open connection whose ring is in order (after the sleep, when
-- nothing is there at first): it gives -1 when there is still nothing, and otherwise the next bytes
-- of the stream, as many as are asked for or all there are; the ring then is in order, holds that
-- many bytes less, and its window is that much larger.
pub dequeue-estabilished :
    (sleep : Conn → Conn) (c : Conn) (data_len : ℕ)
    → c.status ≡ estabilished
    → IsRing (awake sleep c).rcv_queue
    → 0 < data_len
    → ((available (awake sleep c).rcv_queue ≡ 0)
        × (dequeue_packet_tcp sleep c data_len ≡ fails (awake sleep c)))
      ⊎ Reads (awake sleep c) data_len (dequeue_packet_tcp sleep c data_len)
dequeue-estabilished sleep c data_len e is asked =
    either-way (awake sleep c) data_len is asked (dequeue_packet_tcp sleep c data_len)
      (when-awake sleep c data_len e)

-- A read of at least one byte after the peer has closed: it never sleeps; it gives 0, the end of
-- the stream, when all has been read, and otherwise the next bytes of the stream.
pub dequeue-close_wait :
    (sleep : Conn → Conn) (c : Conn) (data_len : ℕ)
    → c.status ≡ close_wait
    → IsRing c.rcv_queue
    → 0 < data_len
    → ((available c.rcv_queue ≡ 0) × (dequeue_packet_tcp sleep c data_len ≡ gives 0 [] c none))
      ⊎ Reads c data_len (dequeue_packet_tcp sleep c data_len)
dequeue-close_wait sleep c data_len e is asked = elim (Bool-cases (is_empty c)) [
  | inl empty ↦ inl (ground arith, rw (when-close_wait sleep c data_len e, empty) refl)
  | inr full ↦ inr (
      rw (when-close_wait sleep c data_len e, full)
        (take_bytes-Reads c data_len is asked (ground arith)))
]
