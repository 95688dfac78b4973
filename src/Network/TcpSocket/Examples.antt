-- ===== src/Network/TcpSocket/Examples.antt =====
-- A ring with four bytes across both wraps, and two connections on it.
use g_os.Common.{List, [], arith, false, refl, true, ◌%◌, ◌∷◌, ◌≡◌, ◌⊎◌}
use g_os.Network.TcpSocket.{
  Action, Conn, RcvQueue, Status, available, close_tcp, copy, dequeue_packet_tcp, estabilished,
  fails, ring_read,
}
use g_os.Network.TcpSocket.Reading.{}
use g_os.Network.TcpSocket.Dequeue.{IsRing, Reads, dequeue-estabilished}
use g_os.Network.TcpSocket.Closing.{Closing, close_tcp-Closing, fins, freed}

-- The bytes count their slots; two are before the end of the numbers and two after.
abbrev queue : RcvQueue
queue = record {
  buf = λ i. i % 256;
  buf_size = 32768;
  wnd_min = 4294967294;
  wnd_size = 32764;
  nxt_rcv = 2;
  last_adv_wnd = 32764;
  buf_state = λ i. false;
  is_wnd_hole = false;
  max_seq_num = 0;
}

abbrev queue-IsRing : IsRing queue
queue-IsRing = record { size = refl; low = omega arith; high = omega arith; room = omega arith }

abbrev conn : Status → Conn
conn s = record {
  status = s;
  rcv_queue = queue;
  snd_wnd_min = 9;
  snd_cur = 9;
  snd_nxt_snd = 12;
  pending_ack = 2;
  rcv_wmd_adv = 0;
  max_adv_wnd = 0;
  ref_count = 1;
  has_process = false;
}

reads_across : ring_read queue 3 ≡ 254 ∷ 255 ∷ 0 ∷ []
unfolding ring_read copy
reads_across = refl

dequeue-estabilished_example :
    ((available queue ≡ 0)
      × (dequeue_packet_tcp (λ c. c) (conn estabilished) 3 ≡ fails (conn estabilished)))
    ⊎ Reads (conn estabilished) 3 (dequeue_packet_tcp (λ c. c) (conn estabilished) 3)
dequeue-estabilished_example =
    dequeue-estabilished (λ c. c) (conn estabilished) 3 refl queue-IsRing (omega arith)

close_tcp-Closing_example :
    (c' : Conn) × (actions : List Action) × (close_tcp false true false false (conn estabilished)
      ≡ (c', actions))
    × Closing estabilished true c'.status
    × (fins actions ≡ (2, 12) ∷ [])
    × (freed actions ≡ 0)
close_tcp-Closing_example = close_tcp-Closing false true false false (conn estabilished) refl
