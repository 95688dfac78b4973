-- ===== src/Network/SocketBuffer.antt =====
-- network/socket_buffer.c: a queue of packets with a bound on how many wait in it.
pub mod Bounded
mod Examples
use g_os.Common.{if◌then◌else◌, leb, ltb, ℕ, ◌+◌, ◌-◌}
use g_os.DataTypes.Dllist.Nodes.{Cmd, pure, ◌>>=◌, ◌>>◌}
use g_os.DataTypes.Queue.{dequeue, enqueue, new_queue}

-- `t_sckt_buf_desc`, with the sentinel of its queue for `buf`.
pub record SocketBuffer : Type 0 where
  pub buf : ℕ
  pub buf_size : ℕ
  pub buf_index : ℕ

abbrev pub socket_buffer_size : ℕ
socket_buffer_size = 2000

pub sckt_buf_desc_init : (fresh : ℕ) → Cmd SocketBuffer
sckt_buf_desc_init fresh = do
  buf ← new_queue fresh
  pure (record { buf = buf; buf_size = socket_buffer_size; buf_index = 0 })

-- `buf_index` stays far below 2 ^ 32.
pub enqueue_sckt : (fresh : ℕ) → SocketBuffer → (packet : ℕ) → Cmd SocketBuffer
enqueue_sckt fresh b packet =
    let put : Cmd SocketBuffer = (do
      enqueue fresh b.buf packet
      pure (record b { buf_index = b.buf_index + 1 })) in
    if leb (b.buf_index + 1) b.buf_size then put else pure b

-- The packet, or NULL, and the buffer.
pub dequeue_sckt : SocketBuffer → Cmd (ℕ × SocketBuffer)
dequeue_sckt b =
    let taken : Cmd (ℕ × SocketBuffer) = (do
      packet ← dequeue b.buf
      pure (packet, record b { buf_index = b.buf_index - 1 })) in
    if ltb 0 b.buf_index then taken else pure (0, b)
