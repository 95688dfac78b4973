-- ===== src/Network/Arp/Exchange.antt =====
-- A request is answered, and the answer fills the cache of the host that asked.
use g_os.Common.{
  ==_refl, List, ap, arith, none, refl, some, ℕ, ◌%◌, ◌*◌, ◌+◌, ◌/◌, ◌<◌, ◌^◌, ◌∙◌, ◌≡◌,
}
use g_os.DataTypes.Hashtable.{Hashtable, hashtable_get, hashtable_put}
use g_os.DataTypes.Hashtable.Map.{IsMap, put-IsMap}
use g_os.Network.Checksum.{}
use g_os.Network.Arp.{
  Cache, MacAddr, arp_frame, cache_mac, mac_at, no_answer, rcv_packet_arp, set_address,
}

-- Each part of the address is 16 bits wide.
pub record IsMac (m : MacAddr) : Type 0 where
  pub hi : m.hi < 65536
  pub mi : m.mi < 65536
  pub lo : m.lo < 65536

octets :
    (x : ℕ)
    → x < 2 ^ 32
    → x % 256 + x / 2 ^ 8 % 256 * 2 ^ 8 + x / 2 ^ 16 % 256 * 2 ^ 16 + x / 2 ^ 24 % 256 * 2 ^ 24 ≡ x
octets x h = omega arith

word : (x : ℕ) → x < 65536 → x / 256 % 256 * 256 + x % 256 ≡ x
word x h = omega arith

mac_at-arp_frame :
    (a b : MacAddr) (src dst op : ℕ) → IsMac a → mac_at (arp_frame a b src dst op) 22 ≡ a
mac_at-arp_frame a b src dst op is = rw (word a.hi is.hi, word a.mi is.mi, word a.lo is.lo) refl

-- The host with the address asked for answers with its own hardware address.
rcv-request :
    (a b other : MacAddr) (src dst fresh : ℕ) (c : Cache)
    → IsMac a
    → src < 2 ^ 32
    → dst < 2 ^ 32
    → rcv_packet_arp dst b fresh c (arp_frame a other src dst 1)
      ≡ some (some (arp_frame b a dst src 2), c)
unfolding rcv_packet_arp
rcv-request a b other src dst fresh c is hs hd =
    rw
      (octets dst hd, octets src hs, ==_refl dst, word a.hi is.hi, word a.mi is.mi, word a.lo is.lo)
      refl

cache_mac-put :
    (fresh : ℕ) (c : Cache) (ip : ℕ) (m : MacAddr) (t : Hashtable)
    → hashtable_get c.arp_cache ip ≡ none
    → hashtable_put 2 c.arp_cache ip fresh ≡ some t
    → cache_mac fresh c ip m ≡ some (record { arp_cache = t; address_at = set_address c fresh m })
unfolding cache_mac
cache_mac-put fresh c ip m t absent put = rw (absent, put, cache_mac) refl

rcv-answer :
    (a b own : MacAddr) (src dst ip fresh : ℕ) (c : Cache)
    → IsMac b
    → dst < 2 ^ 32
    → rcv_packet_arp ip own fresh c (arp_frame b a dst src 2) ≡ no_answer (cache_mac fresh c dst b)
unfolding rcv_packet_arp
rcv-answer a b own src dst ip fresh c is hd =
    rw (octets dst hd, word b.hi is.hi, word b.mi is.mi, word b.lo is.lo) refl

-- A host that has no address for `dst` and asks for it gets an answer from the host `dst`, and the
-- answer enters that host's hardware address in the cache, a map.
pub resolve :
    (a b everyone : MacAddr) (src dst fresh other_fresh : ℕ) (c other : Cache)
    → IsMap c.arp_cache
    → IsMac a
    → IsMac b
    → src < 2 ^ 32
    → dst < 2 ^ 32
    → hashtable_get c.arp_cache dst ≡ none
    → (answer : List ℕ) × (c' : Cache) × (rcv_packet_arp dst b other_fresh other
          (arp_frame a everyone src dst 1)
        ≡ some (some answer, other))
      × (rcv_packet_arp src a fresh c answer ≡ some (none, c'))
      × (hashtable_get c'.arp_cache dst ≡ some fresh)
      × (c'.address_at fresh ≡ b)
      × IsMap c'.arp_cache
resolve a b everyone src dst fresh other_fresh c other is ma mb hs hd absent =
    let (t, put, reads, keeps) = put-IsMap 0 c.arp_cache dst fresh is in
    (
      arp_frame b a dst src 2,
      record { arp_cache = t; address_at = set_address c fresh b },
      rcv-request a b everyone src dst other_fresh other ma hs hd,
      rcv-answer a b a src dst src fresh c mb hd
          ∙ ap no_answer (cache_mac-put fresh c dst b t absent put),
      reads dst ∙ rw (==_refl dst) refl,
      rw (==_refl fresh) refl,
      keeps absent,
    )
