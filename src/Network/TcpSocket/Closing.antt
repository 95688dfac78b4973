-- ===== src/Network/TcpSocket/Closing.antt =====
-- The steps that closing takes in the states of a connection.
use g_os.Common.{
  Bool, Bool-cases, List, [], append-nil, false, if◌then◌else◌, inl, inr, refl, true, ℕ, ◌++◌, ◌+◌,
  ◌==◌, ◌||◌, ◌∷◌, ◌≡◌,
}
use g_os.Network.TcpSocket.{
  Action, Conn, Status, close_tcp, close_wait, closed, estabilished, fin_sent, fin_wait_1,
  fin_wait_1_pending, fin_wait_2, fin_waits, frees, is_closed, is_reset, last_ack, last_ack_pending,
  listen_map, removes, reset, sends_fin, sets_timer, syn_rcvd, syn_sent, time_wait,
}

-- The states in which this side may still send.
abbrev pub is_open : Status → Bool
is_open estabilished = true
is_open close_wait = true
is_open _ = false

-- A step of the state machine; `fin` is whether a FIN goes out with it.
pub data Closing : Status → (fin : Bool) → Status → Type 0 where
  active : Closing estabilished true fin_wait_1
  active_later : Closing estabilished false fin_wait_1_pending
  passive : Closing close_wait true last_ack
  passive_later : Closing close_wait false last_ack_pending
  stays : (s : Status) (fin : Bool) → is_open s ≡ false → Closing s fin s

fin-Closing : (s : Status) → Closing s true (fin_waits (fin_sent s))
fin-Closing estabilished = active
fin-Closing close_wait = passive
fin-Closing syn_sent = stays syn_sent true refl
fin-Closing syn_rcvd = stays syn_rcvd true refl
fin-Closing fin_wait_1 = stays fin_wait_1 true refl
fin-Closing fin_wait_2 = stays fin_wait_2 true refl
fin-Closing last_ack = stays last_ack true refl
fin-Closing time_wait = stays time_wait true refl
fin-Closing closed = stays closed true refl
fin-Closing fin_wait_1_pending = stays fin_wait_1_pending true refl
fin-Closing last_ack_pending = stays last_ack_pending true refl
fin-Closing reset = stays reset true refl

pending-Closing : (s : Status) → Closing s false (fin_waits s)
pending-Closing estabilished = active_later
pending-Closing close_wait = passive_later
pending-Closing syn_sent = stays syn_sent false refl
pending-Closing syn_rcvd = stays syn_rcvd false refl
pending-Closing fin_wait_1 = stays fin_wait_1 false refl
pending-Closing fin_wait_2 = stays fin_wait_2 false refl
pending-Closing last_ack = stays last_ack false refl
pending-Closing time_wait = stays time_wait false refl
pending-Closing closed = stays closed false refl
pending-Closing fin_wait_1_pending = stays fin_wait_1_pending false refl
pending-Closing last_ack_pending = stays last_ack_pending false refl
pending-Closing reset = stays reset false refl

-- The FINs among some actions, and the connections that are freed.
pub fins : List Action → List (ℕ × ℕ)
fins [] = []
fins (sends_fin a s ∷ more) = (a, s) ∷ fins more
fins (_ ∷ more) = fins more

pub freed : List Action → ℕ
freed [] = 0
freed (frees ∷ more) = 1 + freed more
freed (_ ∷ more) = freed more

abbrev unlist : Status → List Action
unlist s = if is_closed s then removes listen_map ∷ [] else []

fins-unlist : (s : Status) (more : List Action) → fins (unlist s ++ more) ≡ fins more
unfolding fins
fins-unlist s more = elim (Bool-cases (is_closed s)) [ inl e ↦ rw e refl | inr e ↦ rw e refl ]

freed-unlist : (s : Status) (more : List Action) → freed (unlist s ++ more) ≡ freed more
unfolding freed
freed-unlist s more = elim (Bool-cases (is_closed s)) [ inl e ↦ rw e refl | inr e ↦ rw e refl ]

-- Closing a connection that is not reset, by a process that is not interrupted: the state makes the
-- step of the state machine for a FIN that goes out at once, when all that was queued is
-- acknowledged, or later, when it is not; one FIN with the next sequence number is sent in the
-- first case and none in the second; and the connection is not freed.
pub close_tcp-Closing :
    (sigint in_conn in_listen in_req : Bool) (c : Conn)
    → (is_reset c.status || sigint) ≡ false
    → (c' : Conn) × (actions : List Action) × (close_tcp sigint in_conn in_listen in_req c
        ≡ (c', actions))
      × Closing c.status (c.snd_wnd_min == c.snd_cur) c'.status
      × (fins actions
          ≡ (if c.snd_wnd_min == c.snd_cur then (c.rcv_queue.nxt_rcv, c.snd_nxt_snd) ∷ [] else []))
      × (freed actions ≡ 0)
unfolding close_tcp fins freed
close_tcp-Closing sigint in_conn in_listen in_req c going =
    elim (Bool-cases (c.snd_wnd_min == c.snd_cur)) [
      | inl drained ↦ (
        record c { status = fin_waits (fin_sent c.status) },
        unlist c.status ++ sends_fin c.rcv_queue.nxt_rcv c.snd_nxt_snd ∷ sets_timer ∷ [],
        rw (going, drained) refl,
        rw drained (fin-Closing c.status),
        rw drained
            (fins-unlist c.status (sends_fin c.rcv_queue.nxt_rcv c.snd_nxt_snd ∷ sets_timer ∷ [])),
        freed-unlist c.status (sends_fin c.rcv_queue.nxt_rcv c.snd_nxt_snd ∷ sets_timer ∷ []),
      )
      | inr behind ↦ (
        record c { status = fin_waits c.status },
        unlist c.status ++ [],
        rw (going, behind, append-nil (unlist c.status)) refl,
        rw behind (pending-Closing c.status),
        rw behind (fins-unlist c.status []),
        freed-unlist c.status [],
      )
    ]
