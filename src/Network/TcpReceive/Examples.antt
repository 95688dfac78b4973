-- ===== src/Network/TcpReceive/Examples.antt =====
-- A stream of which the second segment comes before the first one.
use g_os.Common.{
  [], arith, false, if◌then◌else◌, refl, sym, true, true-ne-false, ℕ, ◌%◌, ◌+◌, ◌==◌, ◌∷◌, ◌≡◌,
}
use g_os.Network.TcpSocket.{Conn, RcvQueue, copy, estabilished, ring_read, take_bytes}
use g_os.Network.TcpReceive.{close_hole, store_data}
use g_os.Network.TcpReceive.Place.{}
use g_os.Network.TcpReceive.Order.{Holds}
use g_os.Network.TcpReceive.Hole.{close_hole-waits}
use g_os.Network.TcpReceive.Stream.{Kept, store_data-Kept}
use g_os.Network.TcpReceive.Advance.{received, store_data-advances}
use g_os.Network.TcpReceive.Trace.{
  InOrder, Trace, Trace-InOrder, comes, read_bytes, read_conn, reads, start, stored_conn,
}

-- The numbers begin close to the end of the ring.
abbrev byte : ℕ → ℕ
byte n = n % 256

abbrev queue : RcvQueue
queue = record {
  buf = λ i. 0;
  buf_size = 32768;
  wnd_min = 32766;
  wnd_size = 32768;
  nxt_rcv = 32766;
  last_adv_wnd = 0;
  buf_state = λ i. false;
  is_wnd_hole = false;
  max_seq_num = 0;
}

abbrev conn : Conn
conn = record {
  status = estabilished;
  rcv_queue = queue;
  snd_wnd_min = 9;
  snd_cur = 9;
  snd_nxt_snd = 12;
  pending_ack = 0;
  rcv_wmd_adv = 0;
  max_adv_wnd = 0;
  ref_count = 1;
  has_process = true;
}

queue-Holds : Holds byte queue
queue-Holds = record {
  size = refl;
  order = omega arith;
  room = omega arith;
  short = omega arith;
  end = omega arith;
  read = λ n a b. absurd (omega arith);
  unmarked = λ n a b. refl;
  ahead = λ n within e. absurd (true-ne-false (sym e));
  bound = λ n within e. absurd (true-ne-false (sym e));
  whole = λ e n within. refl;
}

abbrev segment_at : ℕ → ℕ → ℕ
segment_at seq j = byte (seq + j)

abbrev later : Conn
later = stored_conn conn (store_data conn 32769 4 (segment_at 32769))

abbrev filled : Conn
filled = stored_conn later (store_data later 32766 3 (segment_at 32766))

-- The second segment closes the gap, and the process is awake then.
gap_open : later.rcv_queue.nxt_rcv ≡ 32766
unfolding store_data
gap_open = refl

gap_closed : filled.rcv_queue.nxt_rcv ≡ 32773
unfolding store_data
gap_closed = refl

reads_all : read_bytes (take_bytes filled 10) ≡ 254 ∷ 255 ∷ 0 ∷ 1 ∷ 2 ∷ 3 ∷ 4 ∷ []
unfolding store_data take_bytes ring_read copy
reads_all = refl

store_data-Kept_example : Kept byte conn (store_data conn 32769 4 (segment_at 32769))
store_data-Kept_example =
    store_data-Kept byte conn 32769 4 (segment_at 32769) queue-Holds (omega arith) (omega arith)
      (λ j h. refl)

later_low : later.rcv_queue.wnd_min ≡ 32766
unfolding store_data
later_low = refl

filled_low : filled.rcv_queue.wnd_min ≡ 32766
unfolding store_data
filled_low = refl

abbrev trace :
    Trace byte conn (read_conn filled (take_bytes filled 10)) (read_bytes (take_bytes filled 10))
trace =
    let low = filled_low in
    let nxt = gap_closed in
    let before = later_low in
    reads 10 (omega arith) (omega arith) (omega arith) (
      comes 32766 3 (segment_at 32766) (omega arith) (omega arith) (λ j h. refl)
        (comes 32769 4 (segment_at 32769) (omega arith) (omega arith) (λ j h. refl) start))

Trace-InOrder_example :
    InOrder byte conn (read_conn filled (take_bytes filled 10)) (read_bytes (take_bytes filled 10))
Trace-InOrder_example = Trace-InOrder byte conn _ _ queue-Holds trace

store_data-advances_example :
    ((received conn 5 (segment_at 32766)).nxt_rcv ≡ 32771)
    × ((received conn 5 (segment_at 32766)).wnd_min ≡ 32766)
    × ((received conn 5 (segment_at 32766)).is_wnd_hole ≡ false)
store_data-advances_example =
    store_data-advances byte conn 5 (segment_at 32766) queue-Holds refl (omega arith) (omega arith)

-- One byte has been received, and is not read, and there is a hole after it.
abbrev unread : RcvQueue
unread = record queue {
  buf = byte;
  wnd_min = 0;
  nxt_rcv = 1;
  buf_state = λ i. if i == 2 then true else false;
  is_wnd_hole = true;
  max_seq_num = 3;
}

unread-Holds : Holds byte unread
unread-Holds = record {
  size = refl;
  order = omega arith;
  room = omega arith;
  short = omega arith;
  end = omega arith;
  read = λ n a b. omega arith;
  unmarked = λ n a b. ground arith;
  ahead = λ n within e. omega arith;
  bound = λ n within e. ground arith;
  whole = λ e n within. absurd (true-ne-false e);
}

close_hole-waits_example : (close_hole unread).0.nxt_rcv ≡ 1
close_hole-waits_example = close_hole-waits byte unread unread-Holds (omega arith)
