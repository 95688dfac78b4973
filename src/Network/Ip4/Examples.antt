-- ===== src/Network/Ip4/Examples.antt =====
-- A UDP payload of 40 bytes on one network.
use g_os.Common.{List, Option, arith, if◌then◌else◌, inl, inr, none, refl, some, ℕ, ◌==◌, ◌≡◌, ◌≢◌}
use g_os.DataTypes.Hashtable.{Hashtable, hashtable_get, hashtable_init}
use g_os.DataTypes.Hashtable.Map.{init-IsMap}
use g_os.Network.Checksum.{}
use g_os.Network.Ip4.{Network, dispatch, handed_on, rcv_packet_ip4, send_packet_ip4}
use g_os.Network.Ip4.Roundtrip.{HandedOn, NextHop, receive-send}

abbrev net : Network
net = record { ip = 0xc0a8_0541; default_gw_ip = 0xc0a8_0501 }

abbrev empty_cache : Hashtable
empty_cache = hashtable_init 10

-- Only the receiver's own address is known.
abbrev lookup_mac : ℕ → Option ℕ
lookup_mac hop = if hop == 0xc0a8_0542 then some 77 else none

receive-send_example :
    (header : List ℕ) × (cache : Hashtable) × (send_packet_ip4 net lookup_mac 5 0xc0a8_0541
        0xc0a8_0542 40 17
      ≡ some (handed_on header 77, 7))
    × (rcv_packet_ip4 0xc0a8_0542 empty_cache header 99
        ≡ some (dispatch header 0xc0a8_0541 0xc0a8_0542, cache))
    × HandedOn header 0xc0a8_0541 0xc0a8_0542 40 17
    × (hashtable_get cache 0xc0a8_0541 ≢ none)
unfolding NextHop
receive-send_example =
    receive-send net lookup_mac empty_cache 5 0xc0a8_0541 0xc0a8_0542 40 17 77 99
      (init-IsMap 10 0 (omega arith)).0 (omega arith) (omega arith) (omega arith)
      (λ hop next. elim next [ inl r ↦ rw r.1 refl | inr r ↦ absurd (r.0 refl) ]) (omega arith)
