-- ===== src/Network/Icmp/Examples.antt =====
-- An echo between two hosts.
use g_os.Common.{[], arith, refl, some, ℕ, ◌*◌, ◌+◌, ◌∷◌, ◌≡◌}
use g_os.DataTypes.Hashtable.{
  Hashtable, hashtable_init, hashtable_remove, hashtable_search, search_chain,
}
use g_os.Network.Checksum.{}
use g_os.Network.Icmp.{awakes, rcv_packet_icmp, replies, send_packet_icmp_request}
use g_os.Network.Icmp.Echo.{echo_bytes, request-awakes}

-- The process 4096 waits for the reply to request 2 of 7.
abbrev here : Hashtable
here = record {
  size = 1;
  elements = 1;
  bucket = (record { key = 7 * 65536 + 2; value = 4096 } ∷ []) ∷ [];
}

process_waits :
    hashtable_remove here (7 * 65536 + 2) ≡ (some 4096, (hashtable_remove here (7 * 65536 + 2)).1)
unfolding hashtable_remove hashtable_search search_chain
process_waits = refl

request-awakes_example :
    let rest = echo_bytes 7 2 (9 ∷ 9 ∷ 9 ∷ 9 ∷ []) in
    (c_0 c_1 d_0 d_1 : ℕ) × (send_packet_icmp_request 7 2 (9 ∷ 9 ∷ 9 ∷ 9 ∷ [])
      ≡ some (8 ∷ 0 ∷ c_0 ∷ c_1 ∷ rest))
    × (rcv_packet_icmp (hashtable_init 4) (8 ∷ 0 ∷ c_0 ∷ c_1 ∷ rest)
        ≡ some (replies (0 ∷ 0 ∷ d_0 ∷ d_1 ∷ rest)))
    × (rcv_packet_icmp here (0 ∷ 0 ∷ d_0 ∷ d_1 ∷ rest)
        ≡ some (awakes 4096 (hashtable_remove here (7 * 65536 + 2)).1))
request-awakes_example =
    request-awakes 7 2 9 9 9 9 4096 (hashtable_init 4) here _ (omega arith) (omega arith)
      (omega arith, (omega arith, (omega arith, (omega arith, tt)))) process_waits
