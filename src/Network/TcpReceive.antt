-- ===== src/Network/TcpReceive.antt =====
-- network/tcp.c: where the data of a segment goes, in order and out of order, and when it is
-- acknowledged.
pub mod Ring
pub mod Place
pub mod Order
pub mod Hole
pub mod Stream
pub mod Trace
pub mod Advance
mod Examples
use g_os.Common.{
  Bool, Option, false, if◌then◌else◌, leb, ltb, none, not, some, suc, true, zero, ℕ, ◌%◌, ◌&&◌, ◌+◌,
  ◌-◌, ◌==◌, ◌^◌, ◌||◌,
}
use g_os.Network.TcpSocket.{Ack, Conn, RcvQueue, announces, available}
use g_os.Network.TcpSend.{chk_ovrflw}

-- `kmemcpy` of `n` bytes into the ring, from the offset `from` of the data.
unfoldable pub copy_in : (n start : ℕ) (bytes : ℕ → ℕ) (from : ℕ) → (ℕ → ℕ) → ℕ → ℕ
copy_in zero start bytes from buf = buf
copy_in (suc n) start bytes from buf =
    copy_in n (start + 1) bytes (from + 1) (λ i. if i == start then bytes from else buf i)

-- The loops that mark the slots from `i` on; each that is not marked yet takes one off the window.
unfoldable pub mark : (n i : ℕ) → RcvQueue → RcvQueue
mark zero i q = q
mark (suc n) i q = mark n (i + 1) (record q {
  buf_state = λ j. if j == i then true else q.buf_state j;
  wnd_size = if q.buf_state i then q.wnd_size else (q.wnd_size + 2 ^ 32 - 1) % 2 ^ 32;
})

-- The loops that clear the marks of the slots from `i` on.
unfoldable pub clear : (n i : ℕ) → (ℕ → Bool) → ℕ → Bool
clear zero i state = state
clear (suc n) i state = clear n (i + 1) (λ j. if j == i then false else state j)

-- The two sides of `if (low_index < hi_index)`; `seq` is the number with its extension past the end.
pub place : RcvQueue → (seq_num seq data_len : ℕ) → (bytes : ℕ → ℕ) → RcvQueue
unfolding copy_in mark
place q seq_num seq data_len bytes =
    let low_index = seq_num % q.buf_size in
    let hi_index = (seq_num + data_len) % 2 ^ 32 % q.buf_size in
    let len_1 = q.buf_size - low_index in
    let len_2 = (data_len + 2 ^ 32 - len_1) % 2 ^ 32 in
    let is_hole = not (q.nxt_rcv == seq_num) || q.is_wnd_hole in
    let opened = λ (end : ℕ) (buf : ℕ → ℕ). record q {
      buf = buf;
      is_wnd_hole = true;
      max_seq_num = if ltb q.max_seq_num end then (seq_num + data_len) % 2 ^ 32 else q.max_seq_num;
    } in
    let straight = copy_in data_len low_index bytes 0 q.buf in
    let wrapped = copy_in len_2 0 bytes len_1 (copy_in len_1 low_index bytes 0 q.buf) in
    if ltb low_index hi_index
    then if is_hole
      then mark (hi_index - low_index) low_index (opened (seq + data_len) straight)
      else record q { buf = straight }
    else if is_hole
    then mark len_2 0 (mark len_1 low_index (opened ((seq_num + data_len) % 2 ^ 32) wrapped))
    else record q { buf = wrapped }

-- The first number from `index` on at which the marked bytes end.
pub scan : (rounds index : ℕ) → RcvQueue → ℕ
scan zero index q = index
scan (suc n) index q =
    let later = scan n (index + 1) q in
    if ltb index q.max_seq_num && q.buf_state (index % 2 ^ 32 % q.buf_size) then later else index

-- The marks of the bytes from `start` up to `index`, and of the slot after them.
pub clear_marks : (start index buf_size : ℕ) → (ℕ → Bool) → ℕ → Bool
unfolding clear
clear_marks start index buf_size state =
    let buf_low = start % 2 ^ 32 % buf_size in
    let buf_high = index % 2 ^ 32 % buf_size in
    if ltb buf_low buf_high
    then clear (buf_high + 1 - buf_low) buf_low state
    else if ltb buf_high buf_low
    then clear (buf_high + 1) 0 (clear (buf_size - buf_low) buf_low state)
    else state

-- `_update_rcv_window_and_ack`; the flag is whether there is data to read.
pub close_hole : RcvQueue → RcvQueue × Bool
unfolding scan clear_marks
close_hole q =
    let index = scan q.buf_size q.wnd_min q in
    let nxt = chk_ovrflw q.nxt_rcv q.wnd_min in
    let is_more = ltb nxt index in
    let nxt_rcv =
      if is_more then if ltb 4294967295 index then index - 4294967295 else index else q.nxt_rcv in
    let whole = nxt_rcv == q.max_seq_num in
    (
      record q {
        nxt_rcv = nxt_rcv;
        is_wnd_hole = if whole then false else q.is_wnd_hole;
        max_seq_num = if whole then 0 else q.max_seq_num;
        buf_state =
            if q.wnd_min == index
            then q.buf_state
            else clear_marks q.wnd_min index q.buf_size q.buf_state;
      },
      ltb q.wnd_min (if is_more then index else nxt),
    )

pub update_rcv_window_and_ack : RcvQueue → (data_len seq_num : ℕ) → RcvQueue × Bool
unfolding close_hole
update_rcv_window_and_ack q data_len seq_num =
    if q.nxt_rcv == seq_num && not q.is_wnd_hole
    then (
      record q {
        nxt_rcv = (q.nxt_rcv + data_len) % 2 ^ 32;
        wnd_size = (q.wnd_size + 2 ^ 32 - data_len) % 2 ^ 32;
      },
      true,
    )
    else close_hole q

-- The part of `rcv_packet_tcp` on a segment with data: it panics, or takes the data and perhaps wakes
-- the process, or does not, and perhaps acknowledges again. The timer for a late acknowledgement is
-- left out.
pub data Stored : Type 0 where
  panics : Stored
  accepts : Conn → (awakes : Bool) → Stored
  rejects : Conn → Option Ack → Stored

pub wakes : Conn → RcvQueue × Bool → Stored
wakes c (q, is_new_data) =
    if c.has_process && is_new_data
    then if available q == 0
      then panics
      else accepts (record c { rcv_queue = q; has_process = false }) true
    else accepts (record c { rcv_queue = q }) false

pub store_data : Conn → (seq_num data_len : ℕ) → (bytes : ℕ → ℕ) → Stored
unfolding place update_rcv_window_and_ack wakes
store_data c seq_num data_len bytes =
    let q = c.rcv_queue in
    let wnd_max = q.wnd_min + q.buf_size in
    let nxt = chk_ovrflw q.nxt_rcv q.wnd_min in
    let seq =
      if ltb 4294967295 wnd_max && leb seq_num (wnd_max % 2 ^ 32)
      then seq_num + 4294967295
      else seq_num in
    let updated = update_rcv_window_and_ack (place q seq_num seq data_len bytes) data_len seq_num in
    if leb nxt seq && leb (seq + data_len) wnd_max
    then wakes c updated
    else if ltb seq nxt
    then rejects (record c { pending_ack = 0 })
        (some (record { wnd_size = q.wnd_size; ack_num = q.nxt_rcv; seq_num = c.snd_nxt_snd }))
    else rejects c none

-- The part after EXIT for a segment with data: every second one is acknowledged at once.
pub acknowledge : Conn → Conn × Option Ack
acknowledge c =
    let counted = record c { pending_ack = (c.pending_ack + 1) % 2 ^ 8 } in
    let q = c.rcv_queue in
    if announces counted q
    then (
      record c { pending_ack = 0; rcv_queue = record q { last_adv_wnd = q.wnd_size } },
      some (record { wnd_size = q.wnd_size; ack_num = q.nxt_rcv; seq_num = c.snd_nxt_snd }),
    )
    else (counted, none)
