-- ===== src/Network/Ip4/Roundtrip.antt =====
-- What `send_packet_ip4` writes, `rcv_packet_ip4` reads.
use g_os.Common.{
  ==_of_eq, ==_of_ne, ==_refl, List, Option, Option-cases, [], ap, arith, false, if◌then◌else◌, inl,
  inr, leb, ltb, none, refl, some, sym, true, ℕ, ℕ_discrete, ◌%◌, ◌*◌, ◌+◌, ◌-◌, ◌/◌, ◌<◌, ◌==◌,
  ◌^◌, ◌∙◌, ◌∷◌, ◌≡◌, ◌≢◌, ◌≤◌, ◌⊎◌,
}
use g_os.DataTypes.Hashtable.{Hashtable, hashtable_get}
use g_os.DataTypes.Hashtable.Map.{IsMap, put-IsMap}
use g_os.Network.Checksum.{
  checksum, hi_16, hi_oct_32, low_16, low_oct_32, mid_lft_oct_32, mid_rgt_oct_32, swap_word,
}
use g_os.Network.Checksum.Sum.{AllBytes, checksum-verifies}
use g_os.Network.Ip4.{
  Network, dispatch, handed_on, icmp_protocol, ip_at, ip_header, mtu_eth, mtu_ip4, payload_len,
  rcv_icmp, rcv_packet_ip4, rcv_tcp, rcv_udp, remember_mac, send_packet_ip4, tcp_protocol,
  udp_protocol,
}

octets :
    (x : ℕ)
    → x < 2 ^ 32
    → x % 256 + x / 2 ^ 8 % 256 * 2 ^ 8 + x / 2 ^ 16 % 256 * 2 ^ 16 + x / 2 ^ 24 % 256 * 2 ^ 24 ≡ x
octets x h = omega arith

ip_header-AllBytes :
    (id len protocol src dst hi lo : ℕ)
    → protocol < 256
    → hi < 256
    → lo < 256
    → AllBytes (ip_header id len protocol src dst hi lo)
ip_header-AllBytes id len protocol src dst hi lo hp hh hl = ground (arith, hp, hh, hl)

-- A header with its checksum in place sums up to 0.
ip_header-verifies :
    (id len protocol src dst : ℕ)
    → protocol < 256
    → (c : ℕ) × (checksum (ip_header id len protocol src dst 0 0) ≡ some c)
      × (checksum (ip_header id len protocol src dst (hi_16 (swap_word c)) (low_16 (swap_word c)))
          ≡ some 0)
ip_header-verifies id len protocol src dst hp =
    let (c, taken, small, zero_sum) =
      checksum-verifies 5
        (69
          ∷ 0
          ∷ hi_16 len
          ∷ low_16 len
          ∷ hi_16 id
          ∷ low_16 ((id + 1) % 65536)
          ∷ 0
          ∷ 0
          ∷ 64
          ∷ protocol
          ∷ [])
        (hi_oct_32 src
          ∷ mid_lft_oct_32 src
          ∷ mid_rgt_oct_32 src
          ∷ low_oct_32 src
          ∷ hi_oct_32 dst
          ∷ mid_lft_oct_32 dst
          ∷ mid_rgt_oct_32 dst
          ∷ low_oct_32 dst
          ∷ [])
        refl (ip_header-AllBytes id len protocol src dst 0 0 hp (omega arith) (omega arith))
        (omega arith) in
    let hi : hi_16 (swap_word c) ≡ c % 256 = omega arith in
    let lo : low_16 (swap_word c) ≡ c / 256 = omega arith in (c, taken, rw (hi, lo) zero_sum)

none_not_some : (x : ℕ) → ¬ Path (Option ℕ) none (some x)
none_not_some x e = ground (arith, e)

word_bytes : (x : ℕ) → x < 65536 → x % 256 + x / 256 % 256 * 256 ≡ x
word_bytes x h = omega arith

-- What the receiver makes of a header for it that is in order.
rcv-accepts :
    (cache : Hashtable) (src_mac : ℕ) (header : List ℕ) (src dst : ℕ)
    → ip_at header 16 ≡ dst
    → ip_at header 12 ≡ src
    → checksum header ≡ some 0
    → (t : Hashtable) → remember_mac cache src src_mac ≡ some t
    → rcv_packet_ip4 dst cache header src_mac ≡ some (dispatch header src dst, t)
unfolding rcv_packet_ip4
rcv-accepts cache src_mac header src dst to from sound t kept =
    rw (sound, to, from, ==_refl dst, kept, rcv_packet_ip4) refl

payload_len_of :
    (id len protocol src dst hi lo header : ℕ)
    → header ≤ 20
    → header ≤ len
    → len ≤ 1498
    → payload_len (ip_header id (len + 20) protocol src dst hi lo) header ≡ len - header
payload_len_of id len protocol src dst hi lo header small low high = omega arith

-- What the receiver hands on, by protocol.
unfoldable pub HandedOn : List ℕ → (src dst len protocol : ℕ) → Type 0
HandedOn header src dst len protocol =
    (protocol ≡ tcp_protocol → 20 ≤ len → dispatch header src dst ≡ rcv_tcp src dst (len - 20))
    × (protocol ≡ udp_protocol → 8 ≤ len → dispatch header src dst ≡ rcv_udp src dst (len - 8))
    × (protocol ≡ icmp_protocol → 4 ≤ len → dispatch header src dst ≡ rcv_icmp src dst (len - 4))

dispatch-HandedOn :
    (id len protocol src dst hi lo : ℕ)
    → len ≤ 1498
    → HandedOn (ip_header id (len + 20) protocol src dst hi lo) src dst len protocol
unfolding HandedOn dispatch
dispatch-HandedOn id len protocol src dst hi lo high = (
  λ e low. rw (e, payload_len_of id len tcp_protocol src dst hi lo 20 (omega arith) low high) refl,
  λ e low. rw (e, payload_len_of id len udp_protocol src dst hi lo 8 (omega arith) low high) refl,
  λ e low. rw (e, payload_len_of id len icmp_protocol src dst hi lo 4 (omega arith) low high) refl,
)

-- The address of the next host: the packet's own in the local network, and else the gateway's.
unfoldable pub NextHop : Network → (dst_ip hop : ℕ) → Type 0
NextHop net dst_ip hop =
    ((dst_ip / 256 ≡ net.ip / 256) × (hop ≡ dst_ip))
    ⊎ ((dst_ip / 256 ≢ net.ip / 256) × (hop ≡ net.default_gw_ip))

next_hop :
    (net : Network) (dst : ℕ)
    → NextHop net dst (if dst / 256 == net.ip / 256 then dst else net.default_gw_ip)
unfolding NextHop
next_hop net dst = elim (ℕ_discrete (dst / 256) (net.ip / 256)) [
  | yes same ↦ rw (==_of_eq _ _ same) (inl (same, refl))
  | no apart ↦ rw (==_of_ne _ _ apart) (inr (apart, refl))
]

-- Where the hardware address of the next host is known, which is the receiver in the local network and
-- else the gateway, `send_packet_ip4` of a payload of at most 1498 bytes hands a header on for this
-- address, which the host it is for accepts: the checksum is right, TCP, UDP and ICMP are each passed
-- both addresses that were sent and the length of the payload without the header of the protocol, if
-- it is long enough for that, and afterwards the host's cache, a map, has an address for the sender.
pub receive-send :
    (net : Network) (lookup_mac : ℕ → Option ℕ) (cache : Hashtable)
    (id src dst len protocol mac src_mac : ℕ)
    → IsMap cache
    → src < 2 ^ 32
    → dst < 2 ^ 32
    → protocol < 256
    → ((hop : ℕ) → NextHop net dst hop → lookup_mac hop ≡ some mac)
    → len ≤ 1498
    → (header : List ℕ) × (cache' : Hashtable) × (send_packet_ip4 net lookup_mac id src dst len
          protocol
        ≡ some (handed_on header mac, (id + 2) % 65536))
      × (rcv_packet_ip4 dst cache header src_mac ≡ some (dispatch header src dst, cache'))
      × HandedOn header src dst len protocol
      × (hashtable_get cache' src ≢ none)
unfolding send_packet_ip4 remember_mac
receive-send net lookup_mac cache id src dst len protocol mac src_mac is hs hd hp known high =
    let whole : (len + 20) % 2 ^ 16 ≡ len + 20 = omega arith in
    let here = known _ (next_hop net dst) in
    let (c, taken, sound) = ip_header-verifies id (len + 20) protocol src dst hp in
    let hi = hi_16 (swap_word c) in
    let lo = low_16 (swap_word c) in
    let header = ip_header id (len + 20) protocol src dst hi lo in
    let (t, put, reads, keeps) = put-IsMap 0 cache src src_mac is in
    let fits : ltb mtu_ip4 (len + 20) ≡ false = ground arith in
    let framed : leb (len + 20) mtu_eth ≡ true = ground arith in
    let received = rcv-accepts cache src_mac header src dst (octets dst hd) (octets src hs) sound in
    let handed = dispatch-HandedOn id len protocol src dst hi lo high in
    elim (Option-cases (hashtable_get cache src)) [
      | inl e ↦ (
        header,
        t,
        rw (whole, fits, framed, taken, here, send_packet_ip4)
            (ap
              (λ n. some (handed_on (ip_header id n protocol src dst hi lo) mac, (id + 2) % 65536))
              whole),
        received t (rw (e, put, remember_mac) refl),
        handed,
        λ none_there. none_not_some src_mac (sym none_there ∙ reads src ∙ rw (==_refl src) refl),
      )
      | inr (o, e) ↦ (
        header,
        cache,
        rw (whole, fits, framed, taken, here, send_packet_ip4)
            (ap
              (λ n. some (handed_on (ip_header id n protocol src dst hi lo) mac, (id + 2) % 65536))
              whole),
        received cache (rw (e, remember_mac) refl),
        handed,
        λ none_there. none_not_some o (sym none_there ∙ e),
      )
    ]
