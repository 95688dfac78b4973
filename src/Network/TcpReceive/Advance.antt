-- ===== src/Network/TcpReceive/Advance.antt =====
-- The segment that is expected, when there is no hole.
use g_os.Common.{
  ==_of_ne, ==_refl, Bool, Bool-cases, ap, arith, false, inl, inr, refl, true, ℕ, ◌%◌, ◌&&◌, ◌+◌,
  ◌-◌, ◌<◌, ◌==◌, ◌^◌, ◌∙◌, ◌≡◌,
}
use g_os.Network.TcpSocket.{Conn, RcvQueue, available}
use g_os.Network.TcpReceive.{place, store_data, wakes}
use g_os.Network.TcpReceive.Place.{Fits, is_hole, place-Placed}
use g_os.Network.TcpReceive.Order.{Holds}
use g_os.Network.TcpReceive.Stream.{store_data-takes, update-appends}
use g_os.Network.TcpReceive.Trace.{stored_conn}

wakes-queue :
    (c : Conn) (u : RcvQueue × Bool)
    → (available u.0 == 0) ≡ false
    → (stored_conn c (wakes c u)).rcv_queue ≡ u.0
unfolding wakes
wakes-queue c u some_left = elim (Bool-cases (c.has_process && u.1)) [
  | inl told ↦ rw (told, some_left) refl
  | inr quiet ↦ rw quiet refl
]

-- The queue after the segment that is expected.
abbrev pub received : Conn → (len : ℕ) → (bytes : ℕ → ℕ) → RcvQueue
received c len bytes = (stored_conn c (store_data c c.rcv_queue.nxt_rcv len bytes)).rcv_queue

-- Without a hole, the segment that begins at the expected number is taken whole, when it is not empty
-- and ends before the last slot of the window: the expected number is then the one after it, and
-- there is no hole.
pub store_data-advances :
    (byte : ℕ → ℕ) (c : Conn) (len : ℕ) (bytes : ℕ → ℕ)
    → Holds byte c.rcv_queue
    → c.rcv_queue.is_wnd_hole ≡ false
    → 0 < len
    → c.rcv_queue.nxt_rcv + len < c.rcv_queue.wnd_min + 32768
    → ((received c len bytes).nxt_rcv ≡ c.rcv_queue.nxt_rcv + len)
      × ((received c len bytes).wnd_min ≡ c.rcv_queue.wnd_min)
      × ((received c len bytes).is_wnd_hole ≡ false)
store_data-advances byte c len bytes h whole some_bytes last =
    let q = c.rcv_queue in
    let seq = q.nxt_rcv in
    let fits : Fits q seq len = record {
      size = h.size;
      first = h.order;
      last = last;
      short = h.short;
      some_bytes = some_bytes;
    } in
    let p = place-Placed q seq len bytes fits in
    let shut : is_hole q seq ≡ false = rw (==_refl seq, whole) refl in
    let start = p.start in
    let nxt = p.next in
    let closed_hole = (p.no_hole shut).1 ∙ whole in
    let sum : ((place q seq seq len bytes).nxt_rcv + len) % 2 ^ 32 ≡ seq + len =
      omega (arith, last, h.short) in
    let f = place q seq seq len bytes in
    let next_q : RcvQueue = record f {
      nxt_rcv = (f.nxt_rcv + len) % 2 ^ 32;
      wnd_size = (f.wnd_size + 2 ^ 32 - len) % 2 ^ 32;
    } in
    let some_left : (available next_q == 0) ≡ false =
      ==_of_ne _ 0 (λ none_left. omega (arith, h.short, last, h.order)) in
    let e : received c len bytes ≡ next_q =
      ap (λ r. (stored_conn c r).rcv_queue)
        (store_data-takes byte c seq len bytes h last (omega arith)
          ∙ ap (λ u. wakes c u) (update-appends f len seq nxt closed_hole))
      ∙ wakes-queue c (next_q, true) some_left in
    rw e (sum, start, closed_hole)
