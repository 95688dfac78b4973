-- ===== src/Network/TcpControl/Shutdown.antt =====
-- The closing of a connection by both hosts, one after the other.
use g_os.Common.{
  ==_refl, Bool, List, Option, [], arith, false, if◌then◌else◌, leb, ltb, none, refl, some, true, ℕ,
  ◌++◌, ◌+◌, ◌==◌, ◌∷◌, ◌≡◌,
}
use g_os.Network.TcpSocket.{
  Action, Conn, Status, close_tcp, close_wait, estabilished, fin_wait_1, fin_wait_2, last_ack,
  sends_fin,
}
use g_os.Network.TcpControl.{
  Host, Listener, Out, Segment, awakes, close_step, conn_receives, frees_conn, next, rcv_packet_tcp,
  segment, sends, stops_timer, upd_max_adv_wnd,
}
use g_os.Network.TcpControl.Runs.{receive, sent, ◌>>=◌}

-- Opened, with nothing on its way, and expecting the number `nxt_rcv`.
abbrev pub at_rest : Conn → (nxt_rcv : ℕ) → Conn
at_rest c nxt_rcv = record c {
  status = estabilished;
  snd_wnd_min = c.snd_nxt_snd;
  snd_cur = c.snd_nxt_snd;
  rcv_queue = record c.rcv_queue { nxt_rcv = nxt_rcv };
}

-- The first FIN among the actions of `close_tcp`.
abbrev pub fin_of : Conn → List Action → Option Segment
fin_of c [] = none
fin_of c (sends_fin ack_num seq_num ∷ more) = some (segment false true true c ack_num seq_num)
fin_of c (_ ∷ more) = fin_of c more

-- The process of a host closes the connection.
unfoldable pub closes : Host → Option (Host × Segment)
closes h = do
  c ← h.conn
  let (c', actions) = close_tcp false true false false c
  fin ← fin_of c actions
  some (record h { conn = some c' }, fin)

-- The client closes and gets the acknowledgement, then the server closes and gets its own. At last
-- what each host has done in answer to the last segment it got.
pub shutdown :
    (unset : ℕ → ℕ) (garbage : ℕ) (client server : Host)
    → Option ((Host × List Out) × (Host × List Out))
shutdown unset garbage client server = do
  (client_1, fin) ← closes client
  (server_1, outs_1) ← receive unset garbage server fin
  ack ← sent outs_1
  (client_2, _) ← receive unset garbage client_1 ack
  (server_2, fin_2) ← closes server_1
  (client_3, outs_3) ← receive unset garbage client_2 fin_2
  ack_2 ← sent outs_3
  done_s ← receive unset garbage server_2 ack_2
  some ((client_3, outs_3), done_s)

drained : (n : ℕ) → ltb n (if leb n n then n else n + 4294967295) ≡ false
drained n = ground arith

-- A segment with ACK and perhaps FIN.
abbrev pub acked : (wnd : ℕ) (fin : Bool) (ack_num seq_num : ℕ) → Segment
acked wnd fin ack_num seq_num = record {
  syn = false;
  ack = true;
  fin = fin;
  rst = false;
  seq_num = seq_num;
  ack_seq_num = ack_num;
  wnd = wnd;
}

-- The host of an open connection without a pending request for the pair.
abbrev pub host : Conn → Option Conn → Option Listener → Host
host c req listen = record { conn = some c; req = req; listen = listen }

abbrev pub idle : ℕ → Bool → Option Listener
idle k p = some (record { back_log_i = none; back_log_c = k; has_process = p })

-- The states of the two connections.
abbrev pub up : Conn → ℕ → Status → Conn
up c wnd status = record c {
  status = status;
  rcv_wmd_adv = wnd;
  max_adv_wnd = if ltb c.max_adv_wnd wnd then wnd else c.max_adv_wnd;
}

module _ (unset : ℕ → ℕ) (garbage k wnd n : ℕ) (p : Bool) (c : Conn) (req : Option Conn) where
  abbrev waiting_1 : Conn
  waiting_1 = record (at_rest c n) { status = fin_wait_1 }

  abbrev waiting_2 : Conn
  waiting_2 = up waiting_1 wnd fin_wait_2

  closes-client :
      closes (host (at_rest c n) req none)
      ≡ some (host waiting_1 req none, acked c.rcv_queue.wnd_size true n c.snd_nxt_snd)
  unfolding closes close_tcp
  closes-client = rw (==_refl c.snd_nxt_snd) refl

  client-fin_wait_1 :
      receive unset garbage (host waiting_1 req none) (acked wnd false (next c.snd_nxt_snd) n)
      ≡ some (host waiting_2 req none, stops_timer ∷ [])
  unfolding receive rcv_packet_tcp conn_receives close_step upd_max_adv_wnd
  client-fin_wait_1 = rw (==_refl (next c.snd_nxt_snd), drained c.snd_nxt_snd) refl

  client-fin_wait_2 :
      (ack_num wnd_2 : ℕ)
      → receive unset garbage (host waiting_2 req none) (acked wnd_2 true ack_num n)
        ≡ some (
          record { conn = none; req = req; listen = none },
          sends (acked c.rcv_queue.wnd_size false (next n) (next c.snd_nxt_snd))
              ∷ stops_timer
              ∷ frees_conn
              ∷ [],
        )
  unfolding receive rcv_packet_tcp conn_receives close_step upd_max_adv_wnd
  client-fin_wait_2 ack_num wnd_2 = rw (drained c.snd_nxt_snd) refl

  abbrev closing_1 : Conn
  closing_1 = up (at_rest c n) wnd close_wait

  abbrev closing_2 : Conn
  closing_2 = record closing_1 { status = last_ack }

  server-estabilished :
      (ack_num : ℕ)
      → receive unset garbage (host (at_rest c n) req (idle k p)) (acked wnd true ack_num n)
        ≡ some (
          host closing_1 req (idle k p),
          (if c.has_process then awakes ∷ [] else [])
              ++ sends (acked c.rcv_queue.wnd_size false (next n) c.snd_nxt_snd) ∷ stops_timer ∷ [],
        )
  unfolding receive rcv_packet_tcp conn_receives close_step upd_max_adv_wnd
  server-estabilished ack_num = rw (==_refl n, drained c.snd_nxt_snd) refl

  closes-server :
      closes (host closing_1 req (idle k p))
      ≡ some (host closing_2 req (idle k p), acked c.rcv_queue.wnd_size true n c.snd_nxt_snd)
  unfolding closes close_tcp
  closes-server = rw (==_refl c.snd_nxt_snd) refl

  server-last_ack :
      (seq_num wnd_2 : ℕ)
      → receive unset garbage
          (host closing_2 req (idle k p))
          (acked wnd_2 false (next c.snd_nxt_snd) seq_num)
        ≡ some (record { conn = none; req = req; listen = idle k p }, stops_timer ∷ frees_conn ∷ [])
  unfolding receive rcv_packet_tcp conn_receives close_step upd_max_adv_wnd
  server-last_ack seq_num wnd_2 = rw (==_refl (next c.snd_nxt_snd), drained c.snd_nxt_snd) refl

sent-told :
    (b : Bool) (s : Segment) (outs : List Out)
    → sent ((if b then awakes ∷ [] else []) ++ sends s ∷ outs) ≡ some s
sent-told true s outs = refl
sent-told false s outs = refl

-- When the client closes a connection that is open on both sides with nothing on its way, and then the
-- server does, both sides leave their maps, and each frees its connection once; the client has
-- answered the FIN of the server with the number after it.
pub shutdown-frees :
    (unset : ℕ → ℕ) (garbage k : ℕ) (p : Bool) (c s : Conn) (req_c req_s : Option Conn)
    → shutdown unset garbage
        (host (at_rest c s.snd_nxt_snd) req_c none)
        (host (at_rest s c.snd_nxt_snd) req_s (idle k p))
      ≡ some (
        (
          record { conn = none; req = req_c; listen = none },
          sends (acked c.rcv_queue.wnd_size false (next s.snd_nxt_snd) (next c.snd_nxt_snd))
              ∷ stops_timer
              ∷ frees_conn
              ∷ [],
        ),
        (record { conn = none; req = req_s; listen = idle k p }, stops_timer ∷ frees_conn ∷ []),
      )
unfolding shutdown
shutdown-frees unset garbage k p c s req_c req_s =
    let a = c.snd_nxt_snd in
    let b = s.snd_nxt_snd in
    let wnd_c = c.rcv_queue.wnd_size in
    let wnd_s = s.rcv_queue.wnd_size in
    rw
      (
        closes-client unset garbage k wnd_s b p c req_c,
        server-estabilished unset garbage k wnd_c a p s req_s b,
        sent-told s.has_process (acked wnd_s false (next a) b) (stops_timer ∷ []),
        client-fin_wait_1 unset garbage k wnd_s b p c req_c,
        closes-server unset garbage k wnd_c a p s req_s,
        client-fin_wait_2 unset garbage k wnd_s b p c req_c a wnd_s,
        server-last_ack unset garbage k wnd_c a p s req_s (next a) wnd_c,
      )
      refl

next-ne : (n : ℕ) → (next n == n) ≡ false
next-ne n = ground arith

-- The acknowledgement of the FIN of the client is lost, and the server closes.
pub lost_ack : (unset : ℕ → ℕ) (garbage : ℕ) (client server : Host) → Option (Host × List Out)
lost_ack unset garbage client server = do
  (client_1, fin) ← closes client
  (server_1, _) ← receive unset garbage server fin
  (_, fin_2) ← closes server_1
  receive unset garbage client_1 fin_2

-- When the acknowledgement of its FIN is lost, and then the server closes as well, the client remains in
-- FIN_WAIT_1 and does not answer the FIN of the server, whose number for the next byte has not moved
-- past the FIN of the client.
pub lost_ack-waits :
    (unset : ℕ → ℕ) (garbage k : ℕ) (p : Bool) (c s : Conn) (req_c req_s : Option Conn)
    → lost_ack unset garbage
        (host (at_rest c s.snd_nxt_snd) req_c none)
        (host (at_rest s c.snd_nxt_snd) req_s (idle k p))
      ≡ some (host (up (at_rest c s.snd_nxt_snd) s.rcv_queue.wnd_size fin_wait_1) req_c none, [])
unfolding lost_ack receive rcv_packet_tcp conn_receives close_step upd_max_adv_wnd
lost_ack-waits unset garbage k p c s req_c req_s =
    let a = c.snd_nxt_snd in
    let b = s.snd_nxt_snd in
    rw
      (
        closes-client unset garbage k s.rcv_queue.wnd_size b p c req_c,
        server-estabilished unset garbage k c.rcv_queue.wnd_size a p s req_s b,
        closes-server unset garbage k c.rcv_queue.wnd_size a p s req_s,
        next-ne a,
        drained a,
      )
      refl
