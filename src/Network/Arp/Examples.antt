-- ===== src/Network/Arp/Examples.antt =====
-- Two hosts, of which the first asks for the second.
use g_os.Common.{List, arith, none, some, ℕ, ◌≡◌}
use g_os.DataTypes.Hashtable.{hashtable_get, hashtable_init}
use g_os.DataTypes.Hashtable.Map.{IsMap, init-IsMap}
use g_os.Network.Arp.{Cache, MacAddr, arp_frame, rcv_packet_arp}
use g_os.Network.Arp.Exchange.{resolve}

abbrev mac : ℕ → ℕ → ℕ → MacAddr
mac hi mi lo = record { hi = hi; mi = mi; lo = lo }

abbrev empty : Cache
empty = record { arp_cache = hashtable_init 10; address_at = λ p. mac 0 0 0 }

resolve_example :
    (answer : List ℕ) × (c : Cache) × (rcv_packet_arp 0xc0a8_0542
        (mac 4 5 6)
        800
        empty
        (arp_frame (mac 1 2 3) (mac 0xffff 0xffff 0xffff) 0xc0a8_0541 0xc0a8_0542 1)
      ≡ some (some answer, empty))
    × (rcv_packet_arp 0xc0a8_0541 (mac 1 2 3) 700 empty answer ≡ some (none, c))
    × (hashtable_get c.arp_cache 0xc0a8_0542 ≡ some 700)
    × (c.address_at 700 ≡ mac 4 5 6)
    × IsMap c.arp_cache
resolve_example =
    resolve (mac 1 2 3) (mac 4 5 6) (mac 0xffff 0xffff 0xffff) 0xc0a8_0541 0xc0a8_0542 700 800 empty
      empty (init-IsMap 10 0 (omega arith)).0
      (record { hi = omega arith; mi = omega arith; lo = omega arith })
      (record { hi = omega arith; mi = omega arith; lo = omega arith }) (omega arith) (omega arith)
      (init-IsMap 10 0xc0a8_0542 (omega arith)).1
