-- ===== src/Network/TcpSend.antt =====
-- network/tcp_socket.c: writing to the ring of bytes that a TCP connection sends.
pub mod Writing
mod Examples
use g_os.Common.{
  List, [], if◌then◌else◌, leb, length, ltb, suc, zero, ℕ, ◌%◌, ◌+◌, ◌-◌, ◌==◌, ◌^◌, ◌∷◌,
}
use g_os.Network.TcpSocket.{Status, close_wait, estabilished, reset}

abbrev pub tcp_snd_size : ℕ
tcp_snd_size = 4194304

-- The fields of `t_tcp_snd_queue` that are used here; `buf` is the bytes by index.
pub record SndQueue : Type 0 where
  pub buf : ℕ → ℕ
  pub buf_size : ℕ
  pub cur : ℕ
  pub wnd_min : ℕ
  pub pnd_data : ℕ

-- `CHK_OVRFLW`
abbrev pub chk_ovrflw : (val ref : ℕ) → ℕ
chk_ovrflw val ref = if leb ref val then val else val + 4294967295

-- `kmemcpy` into the ring.
pub store : (ℕ → ℕ) → (start : ℕ) → List ℕ → ℕ → ℕ
store buf start [] = buf
store buf start (x ∷ xs) = store (λ i. if i == start then x else buf i) (start + 1) xs

-- The first `n` bytes of the caller's buffer.
pub take : ℕ → List ℕ → List ℕ
take zero xs = []
take (suc n) [] = []
take (suc n) (x ∷ xs) = x ∷ take n xs

pub write_ring : SndQueue → (bytes : List ℕ) → SndQueue
unfolding store take
write_ring q bytes =
    let data_len = length bytes in
    let cur_index = q.cur % q.buf_size in
    let len_1 = q.buf_size - cur_index in
    let len_2 = (data_len + 2 ^ 32 - len_1) % 2 ^ 32 in
    if ltb data_len (q.buf_size - cur_index)
    then record q { buf = store q.buf cur_index bytes; cur = (q.cur + data_len) % 2 ^ 32 }
    else record q {
      buf = store (store q.buf cur_index (take len_1 bytes)) 0 (take len_2 bytes);
      cur = (q.cur + data_len) % 2 ^ 32;
    }

-- The bytes that still fit, before the sleep and after it, when the sum is a `u32`.
abbrev pub free_size : SndQueue → ℕ
free_size q = (q.wnd_min + q.buf_size + 2 ^ 33 - chk_ovrflw q.cur q.wnd_min) % 2 ^ 32

abbrev pub free_size_awake : SndQueue → ℕ
free_size_awake q =
    ((q.wnd_min + q.buf_size) % 2 ^ 32 + 2 ^ 33 - chk_ovrflw q.cur q.wnd_min) % 2 ^ 32

pub data Enqueued : Type 0 where
  panics_reset : Enqueued
  no_room : SndQueue → Enqueued
  ignored : SndQueue → Enqueued
  written : (ret : ℕ) → SndQueue → Enqueued

-- `sleep` is what the queue has become when the process is awake again. `update_snd_window`, which
-- then sends what the window lets through, is left out.
pub enqueue_packet_tcp : (sleep : SndQueue → SndQueue) → Status → SndQueue → List ℕ → Enqueued
unfolding write_ring
enqueue_packet_tcp sleep status q bytes =
    let after = sleep (record q { pnd_data = length bytes }) in
    let sends =
      if ltb (free_size q) (length bytes)
      then if ltb (free_size_awake after) (length bytes)
        then no_room after
        else written (length bytes) (write_ring after bytes)
      else written (length bytes) (write_ring q bytes) in
    elim status [ reset ↦ panics_reset | estabilished ↦ sends | close_wait ↦ sends | _ ↦ ignored q ]
