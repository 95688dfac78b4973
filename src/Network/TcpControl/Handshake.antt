-- ===== src/Network/TcpControl/Handshake.antt =====
-- The opening of a connection between two hosts, with segments that arrive more than once.
use g_os.Common.{Bool, Option, [], false, none, refl, some, true, ℕ, ◌%◌, ◌+◌, ◌^◌, ◌∷◌, ◌≡◌}
use g_os.Network.TcpSocket.{Conn, estabilished, syn_rcvd, syn_sent, tcp_rcv_size}
use g_os.Network.TcpControl.{
  Host, Listener, Segment, collides, conn_desc_init, connect_tcp, done, rcv_packet_tcp, segment,
  sends, starts_timer,
}
use g_os.Network.TcpControl.Runs.{again, again-fixed, receive, sent, ◌>>=◌}

-- The client connects. Its SYN comes n times more to the server before the server gets the ACK, and the
-- answer m times more to the client after the first one; what is sent in reply to these repetitions
-- is lost.
pub handshake :
    (unset_c unset_s : ℕ → ℕ) (garbage n m : ℕ) (client server : Host) → Option (Host × Host)
unfolding connect_tcp
handshake unset_c unset_s garbage n m client server = do
  (client_1, outs) ← connect_tcp unset_c client
  syn ← sent outs
  (server_1, outs_1) ← receive unset_s garbage server syn
  syn_ack ← sent outs_1
  server_2 ← again unset_s garbage n server_1 syn
  (client_2, outs_2) ← receive unset_c garbage client_1 syn_ack
  ack ← sent outs_2
  client_3 ← again unset_c garbage m client_2 syn_ack
  (server_3, _) ← receive unset_s garbage server_2 ack
  some (client_3, server_3)

-- What each side expects next is what the other sends next, and nothing is on its way.
pub record IsPaired (a b : Conn) : Type 0 where
  pub opened : (a.status ≡ estabilished) × (b.status ≡ estabilished)
  pub forth : a.snd_nxt_snd ≡ b.rcv_queue.nxt_rcv
  pub back : b.snd_nxt_snd ≡ a.rcv_queue.nxt_rcv
  pub drained_a : (a.snd_wnd_min ≡ a.snd_nxt_snd) × (a.snd_cur ≡ a.snd_nxt_snd)
  pub drained_b : (b.snd_wnd_min ≡ b.snd_nxt_snd) × (b.snd_cur ≡ b.snd_nxt_snd)
  pub unread :
      (a.rcv_queue.wnd_min ≡ a.rcv_queue.nxt_rcv) × (b.rcv_queue.wnd_min ≡ b.rcv_queue.nxt_rcv)

pub record Opens (r : Option (Host × Host)) : Type 0 where
  pub client : Host
  pub server : Host
  pub result : r ≡ some (client, server)
  pub conn_c : Conn
  pub conn_s : Conn
  pub found_c : client.conn ≡ some conn_c
  pub found_s : server.conn ≡ some conn_s
  pub left : client.req ≡ none
  pub paired : IsPaired conn_c conn_s

-- The hosts on the way, once the SYN is sent and once it is answered.
abbrev asking : (unset : ℕ → ℕ) → Option Listener → Host
asking unset listen = record {
  conn = none;
  req = some (record (conn_desc_init unset) { status = syn_sent; has_process = true });
  listen = listen;
}

abbrev syn : Segment
syn = segment true false false (conn_desc_init (λ i. 0)) 0 4293967296

abbrev waiting : (unset : ℕ → ℕ) (k : ℕ) → Bool → Option Conn → Host
waiting unset k p req =
    let made = conn_desc_init unset in
    record {
      conn = none;
      req = req;
      listen = some (record {
        back_log_i = some (record made {
          status = syn_rcvd;
          snd_nxt_snd = 4293967297;
          rcv_queue = record made.rcv_queue { nxt_rcv = 4293967297; wnd_min = 4293967297 };
          rcv_wmd_adv = 32768;
          max_adv_wnd = 32768;
        });
        back_log_c = k;
        has_process = p;
      });
    }

abbrev syn_ack : Segment
syn_ack = segment true true false (conn_desc_init (λ i. 0)) 4293967297 4293967297

abbrev client_conn : (unset : ℕ → ℕ) → Conn
client_conn unset =
    let made = conn_desc_init unset in
    record made {
      status = estabilished;
      snd_nxt_snd = 4293967297;
      snd_cur = 4293967297;
      snd_wnd_min = 4293967297;
      rcv_queue = record made.rcv_queue { nxt_rcv = 4293967298; wnd_min = 4293967298 };
      rcv_wmd_adv = 32768;
      max_adv_wnd = 32768;
    }

abbrev opened : (unset : ℕ → ℕ) → Option Listener → Host
opened unset listen = record { conn = some (client_conn unset); req = none; listen = listen }

abbrev server_conn : (unset : ℕ → ℕ) → Conn
server_conn unset =
    let made = conn_desc_init unset in
    record made {
      status = estabilished;
      snd_nxt_snd = 4293967298;
      snd_cur = 4293967298;
      snd_wnd_min = 4293967298;
      rcv_queue = record made.rcv_queue { nxt_rcv = 4293967297; wnd_min = 4293967297 };
      rcv_wmd_adv = 32768;
      max_adv_wnd = 32768;
    }

abbrev served : (unset : ℕ → ℕ) (k : ℕ) → Option Conn → Host
served unset k req = record {
  conn = some (server_conn unset);
  req = req;
  listen = some (record { back_log_i = none; back_log_c = k + 1; has_process = false });
}

conns-IsPaired : (unset_c unset_s : ℕ → ℕ) → IsPaired (client_conn unset_c) (server_conn unset_s)
conns-IsPaired unset_c unset_s = record {
  opened = (refl, refl);
  forth = refl;
  back = refl;
  drained_a = (refl, refl);
  drained_b = (refl, refl);
  unread = (refl, refl);
}

syn-again :
    (unset : ℕ → ℕ) (garbage n k : ℕ) (p : Bool) (req : Option Conn)
    → again unset garbage n (waiting unset k p req) syn ≡ some (waiting unset k p req)
unfolding rcv_packet_tcp receive
syn-again unset garbage n k p none = again-fixed unset garbage n (waiting unset k p none) syn _ refl
syn-again unset garbage n k p (some c) =
    again-fixed unset garbage n (waiting unset k p (some c)) syn _ refl

syn_ack-again :
    (unset : ℕ → ℕ) (garbage m : ℕ) (listen : Option Listener)
    → again unset garbage m (opened unset listen) syn_ack ≡ some (opened unset listen)
unfolding rcv_packet_tcp receive
syn_ack-again unset garbage m listen =
    again-fixed unset garbage m (opened unset listen) syn_ack _ refl

handshake-result :
    (unset_c unset_s : ℕ → ℕ) (garbage n m k : ℕ) (p : Bool) (req_s : Option Conn)
    (listen_c : Option Listener)
    → handshake unset_c unset_s garbage n m
        (record { conn = none; req = none; listen = listen_c })
        (record {
          conn = none;
          req = req_s;
          listen = some (record { back_log_i = none; back_log_c = k; has_process = p });
        })
      ≡ some (opened unset_c listen_c, served unset_s k req_s)
unfolding handshake rcv_packet_tcp receive connect_tcp
handshake-result unset_c unset_s garbage n m k p none listen_c =
    rw (syn-again unset_s garbage n k p none, syn_ack-again unset_c garbage m listen_c) refl
handshake-result unset_c unset_s garbage n m k p (some c) listen_c =
    rw (syn-again unset_s garbage n k p (some c), syn_ack-again unset_c garbage m listen_c) refl

-- When neither side has an open connection for the ports, the client has no request for them, and the
-- server listens and has none that waits, then after a SYN, its answer and the ACK a connection is
-- open on both sides, and the sides agree on the numbers and have nothing on its way; it does not
-- matter that the SYN comes n times more before the ACK and the answer m times more after the first
-- one, if what is sent in reply to these repetitions is lost.
pub handshake-Opens :
    (unset_c unset_s : ℕ → ℕ) (garbage n m k : ℕ) (p : Bool) (req_s : Option Conn)
    (listen_c : Option Listener)
    → Opens (
        handshake unset_c unset_s garbage n m
          (record { conn = none; req = none; listen = listen_c })
          (record {
            conn = none;
            req = req_s;
            listen = some (record { back_log_i = none; back_log_c = k; has_process = p });
          }))
handshake-Opens unset_c unset_s garbage n m k p req_s listen_c = record {
  result = handshake-result unset_c unset_s garbage n m k p req_s listen_c;
  client = opened unset_c listen_c;
  server = served unset_s k req_s;
  conn_c = client_conn unset_c;
  conn_s = server_conn unset_s;
  found_c = refl;
  found_s = refl;
  left = refl;
  paired = conns-IsPaired unset_c unset_s;
}

-- At a host that listens, has a connection for the ports in `conn_map` and no request for them that
-- waits, a SYN that comes late, without ACK, is answered with SYN and ACK as a new request, and leaves
-- the connection as it is; the ACK of that answer puts a second connection for the ports into
-- `conn_map`.
pub late_syn-collides :
    (unset : ℕ → ℕ) (garbage seq ack_seq wnd wnd_2 seq_2 k : ℕ) (p : Bool) (c : Conn)
    (req : Option Conn)
    → (h : Host) × (rcv_packet_tcp unset garbage
          (record {
            conn = some c;
            req = req;
            listen = some (record { back_log_i = none; back_log_c = k; has_process = p });
          })
          (record {
            syn = true;
            ack = false;
            fin = false;
            rst = false;
            seq_num = seq;
            ack_seq_num = ack_seq;
            wnd = wnd;
          })
        ≡ done h (
            starts_timer
            ∷ sends (record {
              syn = true;
              ack = true;
              fin = false;
              rst = false;
              seq_num = 4293967297;
              ack_seq_num = (seq + 1) % 2 ^ 32;
              wnd = tcp_rcv_size;
            })
            ∷ []))
      × (h.conn ≡ some c)
      × (rcv_packet_tcp unset garbage h (record {
        syn = false;
        ack = true;
        fin = false;
        rst = false;
        seq_num = seq_2;
        ack_seq_num = 4293967298;
        wnd = wnd_2;
      })
          ≡ collides)
unfolding rcv_packet_tcp
late_syn-collides unset garbage seq ack_seq wnd wnd_2 seq_2 k p c req = (_, refl, refl, refl)
