-- ===== src/Network/Udp/Examples.antt =====
-- A socket at 500 for port 53, and a payload of three bytes.
use g_os.Common.{
  List, Option, [], arith, if◌then◌else◌, inl, inr, none, refl, some, ℕ, ◌==◌, ◌∷◌, ◌≡◌, ◌≢◌, ◌⊎◌,
}
use g_os.DataTypes.Hashtable.{Hashtable, hashtable_get, hashtable_init}
use g_os.DataTypes.Hashtable.Map.{init-IsMap, put-IsMap}
use g_os.Network.Checksum.{hi_16, low_16, swap_word}
use g_os.Network.Checksum.Sum.{}
use g_os.Network.Ip4.{Network, handed_on, rcv_packet_ip4, rcv_udp}
use g_os.Network.Ip4.Roundtrip.{NextHop}
use g_os.Network.Udp.{
  Packet, SentUdp, UdpDesc, checksum_udp, datagram_of, deliver, dequeue_packet_udp, rcv_packet_udp,
  send_packet_udp, sends, udp_free_port_search,
}
use g_os.Network.Udp.Checked.{datagram_of-verifies}
use g_os.Network.Udp.Delivery.{deliver-send}
use g_os.Network.Udp.Ports.{IsReserved, search-IsReserved}

abbrev net : Network
net = record { ip = 0xc0a8_0541; default_gw_ip = 0xc0a8_0501 }

-- Only the receiver's own address is known.
abbrev lookup_mac : ℕ → Option ℕ
lookup_mac hop = if hop == 0xc0a8_0542 then some 77 else none

abbrev payload : List ℕ
payload = 1 ∷ 2 ∷ 3 ∷ []

-- The table after `hashtable_put` of port 53.
abbrev ports : Hashtable
ports = (put-IsMap 0 (hashtable_init 20) 53 500 (init-IsMap 20 0 (omega arith)).0).0

abbrev listening : UdpDesc
listening = record { conn_map = ports; rx_queue = λ socket. []; process_context = λ socket. 9 }

bound : hashtable_get ports 53 ≡ some 500
bound = (put-IsMap 0 (hashtable_init 20) 53 500 (init-IsMap 20 0 (omega arith)).0).2 53

deliver-send_example :
    (s : SentUdp) × (packet : Packet) × (header : List ℕ) × (cache' : Hashtable) × (send_packet_udp
        net lookup_mac 1 0xc0a8_0541 0xc0a8_0542 40000 53 payload
      ≡ some (sends s))
    × (s.ret ≡ 3)
    × (s.below ≡ some (handed_on header 77, 3))
    × (rcv_packet_ip4 0xc0a8_0542 (hashtable_init 20) header 99
        ≡ some (rcv_udp 0xc0a8_0541 0xc0a8_0542 3, cache'))
    × (rcv_packet_udp listening s.datagram 0xc0a8_0541 0xc0a8_0542
        ≡ some (deliver listening 500 packet))
    × ((deliver listening 500 packet).0.rx_queue 500 ≡ packet ∷ [])
    × (listening.process_context 500 ≢ 0 → (deliver listening 500 packet).1 ≡ some 9)
    × (listening.rx_queue 500 ≡ []
        → (dequeue_packet_udp (deliver listening 500 packet).0 500 9 2).1
          ≡ some (record {
            src_ip = 0xc0a8_0541;
            src_port = 40000;
            bytes = 1 ∷ 2 ∷ [];
            read_data = 2;
          }))
unfolding NextHop
deliver-send_example =
    deliver-send net lookup_mac (hashtable_init 20) listening 1 0xc0a8_0541 0xc0a8_0542 40000 53 77
      99 500 9 2 payload (init-IsMap 20 0 (omega arith)).0 (omega arith) (omega arith)
      (λ hop next. elim next [ inl r ↦ rw r.1 refl | inr r ↦ absurd (r.0 refl) ]) (ground arith)
      (omega arith) (omega arith) (omega arith) bound

datagram_of-verifies_example :
    (c : ℕ) × (checksum_udp (datagram_of 40000 53 11 0 0 payload) 7 8 ≡ some c)
    × (checksum_udp
          (datagram_of 40000 53 11 (hi_16 (swap_word c)) (low_16 (swap_word c)) payload)
          7
          8
        ≡ some 0)
datagram_of-verifies_example =
    datagram_of-verifies 40000 53 11 7 8 payload (ground arith) (omega arith)

search-IsReserved_example :
    let m = hashtable_init 20 in
    (port next : ℕ) × (t : Hashtable) × (udp_free_port_search 32767 m ≡ some (port, next, t))
    × (((port ≡ 0) × (t ≡ m)) ⊎ ((port ≡ next) × IsReserved m t port))
search-IsReserved_example =
    search-IsReserved 32767 (hashtable_init 20) (init-IsMap 20 0 (omega arith)).0 (omega arith)
      (omega arith)
