-- ===== src/Network/TcpSocket.antt =====
-- network/tcp_socket.c: what a process does with a TCP connection: reading from the ring of received
-- bytes, and closing.
pub mod Reading
pub mod Dequeue
pub mod Closing
mod Examples
use g_os.Common.{
  Bool, List, Option, [], false, if◌then◌else◌, leb, ltb, none, some, suc, true, zero, ℕ, ◌%◌, ◌&&◌,
  ◌++◌, ◌+◌, ◌-◌, ◌==◌, ◌^◌, ◌||◌, ◌∷◌,
}

-- The states of include/network/tcp.h.
pub data Status : Type 0 where
  syn_sent syn_rcvd estabilished fin_wait_1 close_wait fin_wait_2 last_ack time_wait : Status
  closed fin_wait_1_pending last_ack_pending reset : Status

abbrev pub smss : ℕ
smss = 1454

abbrev pub tcp_rcv_size : ℕ
tcp_rcv_size = 32768

-- The fields of `t_tcp_rcv_queue` that are used here; `buf` is the bytes by index, and
-- `buf_state` says which of them came out of order.
pub record RcvQueue : Type 0 where
  pub buf : ℕ → ℕ
  pub buf_size : ℕ
  pub wnd_min : ℕ
  pub wnd_size : ℕ
  pub nxt_rcv : ℕ
  pub last_adv_wnd : ℕ
  pub buf_state : ℕ → Bool
  pub is_wnd_hole : Bool
  pub max_seq_num : ℕ

-- The fields of `t_tcp_conn_desc`; of `snd_queue` those three that are used here. `has_process` is
-- whether `process_context` is set.
pub record Conn : Type 0 where
  pub status : Status
  pub rcv_queue : RcvQueue
  pub snd_wnd_min : ℕ
  pub snd_cur : ℕ
  pub snd_nxt_snd : ℕ
  pub pending_ack : ℕ
  pub rcv_wmd_adv : ℕ
  pub max_adv_wnd : ℕ
  pub ref_count : ℕ
  pub has_process : Bool

-- `nxt_rcv - wnd_min` as a `u32`.
abbrev pub available : RcvQueue → ℕ
available q = (q.nxt_rcv + 2 ^ 32 - q.wnd_min) % 2 ^ 32

-- `kmemcpy` out of the ring.
unfoldable pub copy : (ℕ → ℕ) → (start len : ℕ) → List ℕ
copy buf start zero = []
copy buf start (suc n) = buf start ∷ copy buf (start + 1) n

unfoldable pub ring_read : RcvQueue → (data_len : ℕ) → List ℕ
unfolding copy
ring_read q data_len =
    let low_index = q.wnd_min % q.buf_size in
    let hi_index = (q.wnd_min + data_len) % 2 ^ 32 % q.buf_size in
    let len_1 = q.buf_size - low_index in
    let len_2 = (data_len + 2 ^ 32 - len_1) % 2 ^ 32 in
    if ltb low_index hi_index
    then copy q.buf low_index data_len
    else copy q.buf low_index len_1 ++ copy q.buf 0 len_2

-- An acknowledgement, with the window and the sequence numbers in it.
pub record Ack : Type 0 where
  pub wnd_size : ℕ
  pub ack_num : ℕ
  pub seq_num : ℕ

-- What `dequeue_packet_tcp` does: it panics, or returns a count, or -1, with the bytes copied out,
-- the connection, and the acknowledgement sent, if any.
pub data Dequeued : Type 0 where
  panics : Dequeued
  fails : Conn → Dequeued
  gives : (ret : ℕ) (bytes : List ℕ) (conn : Conn) (ack : Option Ack) → Dequeued

-- The two tests for the announcement of a larger window.
abbrev pub announces : Conn → RcvQueue → Bool
announces c q =
    (leb ((q.last_adv_wnd + smss) % 2 ^ 32) q.wnd_size || leb (tcp_rcv_size - smss) q.wnd_size)
    && leb 2 c.pending_ack

-- The part of `dequeue_packet_tcp` for a queue that is not empty.
unfoldable pub take_bytes : Conn → (data_len : ℕ) → Dequeued
take_bytes c data_len =
    let q = c.rcv_queue in
    let len = if ltb (available q) data_len then available q else data_len in
    let q' : RcvQueue = record q {
      wnd_size = (q.wnd_size + len) % 2 ^ 32;
      wnd_min = (q.wnd_min + len) % 2 ^ 32;
    } in
    if announces c q'
    then gives len (ring_read q len)
        (record c { rcv_queue = record q' { last_adv_wnd = q'.wnd_size }; pending_ack = 0 })
        (some (record { wnd_size = q'.wnd_size; ack_num = q'.nxt_rcv; seq_num = c.snd_nxt_snd }))
    else gives len (ring_read q len) (record c { rcv_queue = q' }) none

abbrev pub is_empty : Conn → Bool
is_empty c = available c.rcv_queue == 0

-- `sleep` is what the connection has become when the process that waits for data is awake again.
pub dequeue_packet_tcp : (sleep : Conn → Conn) → Conn → (data_len : ℕ) → Dequeued
dequeue_packet_tcp sleep c data_len =
    let after = sleep c in
    let waits = if is_empty after then fails after else take_bytes after data_len in
    elim c.status [
      | reset ↦ panics
      | estabilished ↦ if is_empty c then waits else take_bytes c data_len
      | close_wait ↦ if is_empty c then gives 0 [] c none else take_bytes c data_len
      | _ ↦ gives 0 [] c none
    ]

-- The maps of `t_tcp_desc`, and what `close_tcp` does besides changing the state.
pub data ConnMap : Type 0 where
  conn_map listen_map req_map : ConnMap

pub data Action : Type 0 where
  removes : ConnMap → Action
  frees : Action
  sends_fin : (ack_num seq_num : ℕ) → Action
  sets_timer : Action

-- The first of the three maps in which the connection is; the arguments are the results of
-- `tcp_conn_map_get`.
pub map_of : (in_conn in_listen in_req : Bool) → Option ConnMap
map_of in_conn in_listen in_req =
    if in_conn
    then some conn_map
    else if in_listen
    then some listen_map
    else if in_req
    then some req_map
    else none

abbrev pub is_closed : Status → Bool
is_closed closed = true
is_closed _ = false

abbrev pub is_reset : Status → Bool
is_reset reset = true
is_reset _ = false

-- After the FIN has been sent, and when it has to wait for data that is not acknowledged.
abbrev pub fin_sent : Status → Status
fin_sent estabilished = fin_wait_1
fin_sent close_wait = last_ack
fin_sent s = s

abbrev pub fin_waits : Status → Status
fin_waits estabilished = fin_wait_1_pending
fin_waits close_wait = last_ack_pending
fin_waits s = s

-- `sigint` is whether the process has `sig_num` SIGINT.
unfoldable pub close_tcp : (sigint in_conn in_listen in_req : Bool) → Conn → Conn × List Action
unfolding map_of
close_tcp sigint in_conn in_listen in_req c =
    let dropped : List Action = elim (map_of in_conn in_listen in_req) [
      | none ↦ []
      | some m ↦ removes m ∷ frees ∷ []
    ] in
    let unlisted = if is_closed c.status then removes listen_map ∷ [] else [] in
    let drained = c.snd_wnd_min == c.snd_cur in
    if is_reset c.status || sigint
    then (c, dropped)
    else if drained
    then (
      record c { status = fin_waits (fin_sent c.status) },
      unlisted ++ sends_fin c.rcv_queue.nxt_rcv c.snd_nxt_snd ∷ sets_timer ∷ [],
    )
    else (record c { status = fin_waits c.status }, unlisted)
