-- ===== src/Network/TcpControl.antt =====
-- network/tcp.c and network/tcp_socket.c: the segments without data, which open and close a
-- connection. All lookups of one segment are for the same two ports, so that the maps of a host are
-- what they hold for them. Only one connection of a map has these ports: while this is so,
-- `tcp_conn_map_get` compares no addresses, with which `req_map` and `conn_map` are read differently.
pub mod Runs
pub mod Handshake
pub mod Shutdown
mod Examples
use g_os.Common.{
  Bool, List, Option, [], false, if◌then◌else◌, leb, ltb, none, not, some, true, ℕ, ◌%◌, ◌&&◌, ◌++◌,
  ◌+◌, ◌==◌, ◌^◌, ◌∷◌,
}
use g_os.Network.TcpSocket.{
  Conn, close_wait, closed, estabilished, fin_wait_1, fin_wait_2, is_closed, last_ack, reset,
  syn_rcvd, syn_sent, tcp_rcv_size,
}

-- The flags are bits of one byte in the header.
pub record Segment : Type 0 where
  pub syn : Bool
  pub ack : Bool
  pub fin : Bool
  pub rst : Bool
  pub seq_num : ℕ
  pub ack_seq_num : ℕ
  pub wnd : ℕ

-- A listening connection: of `back_log_i_map` the entry for the pair, of `back_log_c_queue` how often
-- the connection for the pair is in it.
pub record Listener : Type 0 where
  pub back_log_i : Option Conn
  pub back_log_c : ℕ
  pub has_process : Bool

pub record Host : Type 0 where
  pub conn : Option Conn
  pub req : Option Conn
  pub listen : Option Listener

-- What is done besides.
pub data Out : Type 0 where
  sends : Segment → Out
  awakes : Out
  stops_timer : Out
  starts_timer : Out
  frees_conn : Out

-- A NULL pointer is followed, or a second connection for the pair is put into `conn_map`, or there is
-- data that is not acknowledged and `rcv_ack` is called with the number in the segment, or the segment
-- is done with.
pub data Received : Type 0 where
  follows_null : Received
  collides : Received
  calls_rcv_ack : Host → List Out → (ack_seq_num : ℕ) → Received
  done : Host → List Out → Received

abbrev pub next : ℕ → ℕ
next n = (n + 1) % 2 ^ 32

abbrev pub segment : (syn ack fin : Bool) → Conn → (ack_num seq_num : ℕ) → Segment
segment syn ack fin c ack_num seq_num = record {
  syn = syn;
  ack = ack;
  fin = fin;
  rst = false;
  seq_num = seq_num;
  ack_seq_num = ack_num;
  wnd = c.rcv_queue.wnd_size;
}

-- `tcp_conn_desc_int`; `unset` is the content of the new buffer.
abbrev pub conn_desc_init : (unset : ℕ → ℕ) → Conn
conn_desc_init unset = record {
  status = closed;
  rcv_queue = record {
    buf = unset;
    buf_size = tcp_rcv_size;
    wnd_min = 0;
    wnd_size = tcp_rcv_size;
    nxt_rcv = 0;
    last_adv_wnd = 0;
    buf_state = λ i. false;
    is_wnd_hole = false;
    max_seq_num = 0;
  };
  snd_wnd_min = 4293967296;
  snd_cur = 1;
  snd_nxt_snd = 4293967296;
  pending_ack = 0;
  rcv_wmd_adv = 0;
  max_adv_wnd = 0;
  ref_count = 1;
  has_process = false;
}

pub upd_max_adv_wnd : Conn → ℕ → Conn
upd_max_adv_wnd c wnd = record c {
  rcv_wmd_adv = wnd;
  max_adv_wnd = if ltb c.max_adv_wnd wnd then wnd else c.max_adv_wnd;
}

-- `connect_tcp` once it has a port, up to its sleep; `none` is where `tcp_conn_map_put` finds a request
-- with these ports and keeps the new one in its list of duplicates.
pub connect_tcp : (unset : ℕ → ℕ) → Host → Option (Host × List Out)
connect_tcp unset h =
    let c = record (conn_desc_init unset) { status = syn_sent; has_process = true } in
    elim h.req [
      | none ↦ some (
        record h { req = some c },
        starts_timer ∷ sends (segment true false false c 0 c.snd_nxt_snd) ∷ [],
      )
      | some _ ↦ none
    ]

-- The answer to a request of this host: SYN and ACK.
pub client_opens : Host → Conn → Segment → Received
unfolding upd_max_adv_wnd
client_opens h c s =
    let ack_num = next s.seq_num in
    let nxt = next c.snd_nxt_snd in
    let c' = record (upd_max_adv_wnd c s.wnd) {
      status = estabilished;
      rcv_queue = record c.rcv_queue { nxt_rcv = ack_num; wnd_min = ack_num };
      snd_nxt_snd = nxt;
      snd_cur = nxt;
      snd_wnd_min = nxt;
      has_process = false;
    } in
    elim h.conn [
      | none ↦
          done (record h { req = none; conn = some c' })
            (sends (segment false true false c ack_num nxt) ∷ stops_timer ∷ awakes ∷ [])
      | some _ ↦ collides
    ]

-- A SYN for a listening connection.
pub server_answers : (unset : ℕ → ℕ) → Host → Listener → Segment → Received
unfolding upd_max_adv_wnd
server_answers unset h l s =
    let ack_num = next s.seq_num in
    let answer = λ (c : Conn). sends (segment true true false c ack_num c.snd_nxt_snd) in
    let keep = λ (c : Conn). record h { listen = some (record l { back_log_i = some c }) } in
    let made = conn_desc_init unset in
    let fresh = record made {
      snd_nxt_snd = next made.snd_nxt_snd;
      status = syn_rcvd;
      rcv_queue = record made.rcv_queue { nxt_rcv = ack_num; wnd_min = ack_num };
    } in
    elim l.back_log_i [
      | none ↦ done (keep (upd_max_adv_wnd fresh s.wnd)) (starts_timer ∷ answer fresh ∷ [])
      | some c ↦ elim c.status [
        | syn_rcvd ↦ done (keep (upd_max_adv_wnd c s.wnd)) (answer c ∷ [])
        | _ ↦ done h []
      ]
    ]

-- The ACK for a connection that waits in the map of the listening one.
pub server_opens : Host → Listener → Conn → Segment → Received
unfolding upd_max_adv_wnd
server_opens h l c s =
    let nxt = next c.snd_nxt_snd in
    let c' = record (upd_max_adv_wnd c s.wnd) {
      status = estabilished;
      snd_nxt_snd = nxt;
      snd_cur = nxt;
      snd_wnd_min = nxt;
    } in
    let l' = record l { back_log_i = none; back_log_c = l.back_log_c + 1; has_process = false } in
    let told = if l.has_process then awakes ∷ [] else [] in
    if next c.snd_nxt_snd == s.ack_seq_num
    then elim h.conn [
      | none ↦ done (record h { conn = some c'; listen = some l' }) (told ++ stops_timer ∷ [])
      | some _ ↦ collides
    ]
    else done h []

-- What the part on closing does to a connection; the flag is `free_conn`, with which the connection
-- leaves `conn_map`.
pub close_step : Conn → Segment → Conn × Bool × List Out
close_step c s =
    let fin_num = c.snd_nxt_snd in
    let fin_acked = s.ack && next fin_num == s.ack_seq_num in
    let answer = λ (ack_num seq_num : ℕ). sends (segment false true false c ack_num seq_num) in
    let same : Conn × Bool × List Out = (c, false, []) in
    elim c.status [
      | fin_wait_1 ↦
          if s.fin && fin_acked
          then (
            record c { status = closed; snd_nxt_snd = next fin_num },
            true,
            answer (next s.seq_num) (next fin_num) ∷ stops_timer ∷ [],
          )
          else if s.fin && s.ack
          then same
          else if fin_acked
          then (record c { status = fin_wait_2 }, false, stops_timer ∷ [])
          else same
      | fin_wait_2 ↦
          if s.fin
          then (
            record c { status = closed },
            true,
            answer (next s.seq_num) (next fin_num) ∷ stops_timer ∷ [],
          )
          else same
      | estabilished ↦
          let in_order = s.seq_num == c.rcv_queue.nxt_rcv in
          if s.fin
          then (
            record c { status = if in_order then close_wait else estabilished },
            false,
            (if in_order && c.has_process then awakes ∷ [] else [])
                ++ answer (if in_order then next s.seq_num else c.rcv_queue.nxt_rcv) fin_num
                  ∷ stops_timer
                  ∷ [],
          )
          else same
      | last_ack ↦ if fin_acked then (c, true, stops_timer ∷ []) else same
      | _ ↦ same
    ]

-- There is data that is sent and not acknowledged.
abbrev pub outstanding : Conn → Bool
outstanding c =
    ltb c.snd_wnd_min
      (if leb c.snd_wnd_min c.snd_nxt_snd then c.snd_nxt_snd else c.snd_nxt_snd + 4294967295)

-- A segment for a connection that is open.
pub conn_receives : Host → Conn → Segment → Received
unfolding close_step upd_max_adv_wnd
conn_receives h c s =
    let (c', freed, outs) = close_step (upd_max_adv_wnd c s.wnd) s in
    let h' = record h { conn = if freed then none else some c' } in
    if outstanding c' && not (is_closed c'.status)
    then calls_rcv_ack h' outs s.ack_seq_num
    else done h' (if freed then outs ++ frees_conn ∷ [] else outs)

pub after : Out → Received → Received
after o (done h outs) = done h (o ∷ outs)
after o (calls_rcv_ack h outs n) = calls_rcv_ack h (o ∷ outs) n
after o r = r

-- What follows the part on RST. `garbage` is the variable `ack_num`, which nothing has set when a SYN
-- and ACK comes for a connection that is open.
pub dispatch_flags : (unset : ℕ → ℕ) (garbage : ℕ) → Host → Segment → Received
unfolding client_opens server_answers server_opens conn_receives upd_max_adv_wnd
dispatch_flags unset garbage h s =
    let open_conn : Received = elim h.conn [ none ↦ done h [] | some c ↦ conn_receives h c s ] in
    let retried = λ (c : Conn).
      done (record h { conn = some (upd_max_adv_wnd c s.wnd) })
        (sends (segment false true false c garbage c.snd_nxt_snd) ∷ stops_timer ∷ []) in
    let listening : Received = elim h.listen [
      | none ↦ open_conn
      | some l ↦
          if s.syn
          then server_answers unset h l s
          else if s.ack
          then elim l.back_log_i [ none ↦ open_conn | some c ↦ server_opens h l c s ]
          else open_conn
    ] in
    if s.syn && s.ack
    then elim h.req [
      | some c ↦ client_opens h c s
      | none ↦ elim h.conn [ some c ↦ retried c | none ↦ listening ]
    ]
    else listening

-- `rcv_packet_tcp` of a segment whose checksum is right and that carries no data.
pub rcv_packet_tcp : (unset : ℕ → ℕ) (garbage : ℕ) → Host → Segment → Received
unfolding dispatch_flags after
rcv_packet_tcp unset garbage h s =
    let go_on = dispatch_flags unset garbage h s in
    let on_reset : Received = elim h.conn [
      | some c ↦
          if c.ref_count == 0
          then done (record h { conn = none }) (stops_timer ∷ frees_conn ∷ [])
          else after stops_timer (
              dispatch_flags unset garbage (record h { conn = some (record c { status = reset }) })
                s)
      | none ↦ elim h.req [
        | some _ ↦ follows_null
        | none ↦ elim h.listen [
          | none ↦ done h []
          | some l ↦ elim l.back_log_i [
            | none ↦ go_on
            | some _ ↦ after frees_conn (
                dispatch_flags unset garbage
                  (record h { listen = some (record l { back_log_i = none }) }) s)
          ]
        ]
      ]
    ] in
    let known : Received = elim h.conn [
      | some _ ↦ go_on
      | none ↦ elim h.req [
        | some _ ↦ go_on
        | none ↦ elim h.listen [ none ↦ done h [] | some _ ↦ go_on ]
      ]
    ] in
    if s.rst then on_reset else known
