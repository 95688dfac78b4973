-- ===== src/Network/Udp/Delivery.antt =====
-- From `send_packet_udp` through `rcv_packet_udp` to `dequeue_packet_udp`.
use g_os.Common.{
  ==_of_ne, ==_refl, Bool-cases, List, Option, [], ap, arith, false, get_or, if◌then◌else◌, inl,
  inr, leb, length, ltb, refl, some, true, ℕ, ◌%◌, ◌++◌, ◌+◌, ◌-◌, ◌/◌, ◌<◌, ◌==◌, ◌^◌, ◌∙◌, ◌∷◌,
  ◌≡◌, ◌≢◌, ◌≤◌,
}
use g_os.DataTypes.Hashtable.{Hashtable, hashtable_get}
use g_os.Network.Checksum.{get_word, hi_16, low_16, swap_word}
use g_os.Network.Checksum.Sum.{AllBytes}
use g_os.Network.Ip4.{
  Network, dispatch, handed_on, rcv_packet_ip4, rcv_udp, send_packet_ip4, udp_protocol,
}
use g_os.Network.Ip4.Roundtrip.{HandedOn, NextHop, receive-send}
use g_os.DataTypes.Hashtable.Map.{IsMap}
use g_os.Network.Udp.{
  Packet, SentUdp, UdpDesc, checksum_udp, datagram_of, deliver, dequeue_packet_udp, header_udp,
  headers, rcv_packet_udp, read_packet, send_packet_udp, sends, take,
}
use g_os.Network.Udp.Checked.{datagram_of-verifies}

word : (x : ℕ) → x < 65536 → get_word (x / 256 % 256) (x % 256) ≡ x
word x h = omega arith

-- What a process with room for `room` bytes gets of a payload.
abbrev pub cut : (room : ℕ) → List ℕ → ℕ
cut room payload = if ltb room (length payload) then room else length payload

read-datagram_of :
    (src sp dp hi lo room : ℕ) (payload : List ℕ)
    → sp < 65536
    → length payload ≤ 65527
    → read_packet
        (record { src_ip = src; datagram = datagram_of sp dp (8 + length payload) hi lo payload })
        room
      ≡ record {
        src_ip = src;
        src_port = sp;
        bytes = take (cut room payload) payload;
        read_data = cut room payload;
      }
unfolding read_packet
read-datagram_of src sp dp hi lo room payload hs long =
    let len : get_word ((8 + length payload) / 256 % 256) ((8 + length payload) % 256) - header_udp
        ≡ length payload =
      omega arith in
    rw (len, word sp hs) refl

rcv-accepts :
    (u : UdpDesc) (datagram : List ℕ) (src dst port socket : ℕ)
    → checksum_udp datagram src dst ≡ some 0
    → get_word (get_or datagram 2 0) (get_or datagram 3 0) ≡ port
    → hashtable_get u.conn_map port ≡ some socket
    → rcv_packet_udp u datagram src dst
      ≡ some (deliver u socket (record { src_ip = src; datagram = datagram }))
unfolding rcv_packet_udp
rcv-accepts u datagram src dst port socket sound at bound =
    rw (sound, at, bound, rcv_packet_udp) refl

deliver-rx_queue :
    (u : UdpDesc) (socket : ℕ) (packet : Packet)
    → (deliver u socket packet).0.rx_queue socket ≡ u.rx_queue socket ++ packet ∷ []
unfolding deliver
deliver-rx_queue u socket packet = elim (Bool-cases (u.process_context socket == 0)) [
  | inl e ↦ rw (e, ==_refl socket, deliver) refl
  | inr e ↦ rw (e, ==_refl socket, deliver) refl
]

deliver_awakes :
    (u : UdpDesc) (socket : ℕ) (packet : Packet)
    → u.process_context socket ≢ 0
    → (deliver u socket packet).1 ≡ some (u.process_context socket)
unfolding deliver
deliver_awakes u socket packet ne = rw (==_of_ne (u.process_context socket) 0 ne, deliver) refl

dequeue_only :
    (u : UdpDesc) (socket process room : ℕ) (packet : Packet)
    → u.rx_queue socket ≡ packet ∷ []
    → (dequeue_packet_udp u socket process room).1 ≡ some (read_packet packet room)
unfolding dequeue_packet_udp
dequeue_only u socket process room packet e = rw (e, dequeue_packet_udp) refl

-- A payload of at most 1490 bytes, sent from a port to a port of a host that has a socket for it, where the
-- hardware address of the next host is known (the receiver in the local network, and else the
-- gateway): it is handed on for this address, in one packet that the receiver's
-- `rcv_packet_ip4` accepts and passes to `rcv_packet_udp` with its addresses and length. There
-- it is queued, behind what the queue holds, and the process that waits for it is awoken. When
-- nothing else is queued, reading gives the source address and port and as much of the payload as
-- there is room for.
pub deliver-send :
    (net : Network) (lookup_mac : ℕ → Option ℕ) (cache : Hashtable) (u : UdpDesc)
    (id src dst sp dp mac src_mac socket process room : ℕ) (payload : List ℕ)
    → IsMap cache
    → src < 2 ^ 32
    → dst < 2 ^ 32
    → ((hop : ℕ) → NextHop net dst hop → lookup_mac hop ≡ some mac)
    → AllBytes payload
    → length payload ≤ 1490
    → sp < 65536
    → dp < 65536
    → hashtable_get u.conn_map dp ≡ some socket
    → (s : SentUdp) × (packet : Packet) × (header : List ℕ) × (cache' : Hashtable)
      × (send_packet_udp net lookup_mac id src dst sp dp payload ≡ some (sends s))
      × (s.ret ≡ length payload)
      × (s.below ≡ some (handed_on header mac, (id + 2) % 65536))
      × (rcv_packet_ip4 dst cache header src_mac ≡ some (rcv_udp src dst (length payload), cache'))
      × (rcv_packet_udp u s.datagram src dst ≡ some (deliver u socket packet))
      × ((deliver u socket packet).0.rx_queue socket ≡ u.rx_queue socket ++ packet ∷ [])
      × (u.process_context socket ≢ 0
          → (deliver u socket packet).1 ≡ some (u.process_context socket))
      × (u.rx_queue socket ≡ []
          → (dequeue_packet_udp (deliver u socket packet).0 socket process room).1
            ≡ some (record {
              src_ip = src;
              src_port = sp;
              bytes = take (cut room payload) payload;
              read_data = cut room payload;
            }))
unfolding send_packet_udp HandedOn
deliver-send net lookup_mac cache u id src dst sp dp mac src_mac socket process room payload is hsrc
      hdst known all small hs hd bound =
    let len = 8 + length payload in
    let long : length payload ≤ 65527 = omega arith in
    let (c, taken, sound) = datagram_of-verifies sp dp len src dst payload all long in
    let (header, cache', sent, received, handed, there) =
      receive-send net lookup_mac cache id src dst len udp_protocol mac src_mac is hsrc hdst
        (omega arith) known (omega arith) in
    let passed : dispatch header src dst ≡ rcv_udp src dst (length payload) =
      handed.1 refl (omega arith) ∙ ap (λ n. rcv_udp src dst n) (omega arith) in
    let hi = hi_16 (swap_word c) in
    let lo = low_16 (swap_word c) in
    let d = datagram_of sp dp len hi lo payload in
    let packet : Packet = record { src_ip = src; datagram = d } in
    let short : leb (length payload) (0xffff - header_udp) ≡ true = ground arith in
    let whole : (length payload + headers) % 2 ^ 16 ≡ headers + length payload = omega arith in
    let inside : ltb (headers + length payload) (headers + length payload) ≡ false = ground arith in
    (
      record {
        ret = length payload;
        datagram = d;
        below = send_packet_ip4 net lookup_mac id src dst len udp_protocol;
      },
      packet,
      header,
      cache',
      rw (whole, inside, short, taken, send_packet_udp) refl,
      refl,
      sent,
      received ∙ ap (λ d. some (d, cache')) passed,
      rcv-accepts u d src dst dp socket sound (word dp hd) bound,
      deliver-rx_queue u socket packet,
      deliver_awakes u socket packet,
      λ none_queued.
          let only : (deliver u socket packet).0.rx_queue socket ≡ packet ∷ [] =
            deliver-rx_queue u socket packet ∙ ap (λ q. q ++ packet ∷ []) none_queued in
          dequeue_only (deliver u socket packet).0 socket process room packet only
          ∙ ap some (read-datagram_of src sp dp hi lo room payload hs long),
    )
