-- ===== src/Network/Ip4.antt =====
-- network/ip4.c: sending and receiving IPv4 packets. Packets are lists of bytes from the header on.
pub mod Roundtrip
mod Examples
use g_os.Common.{
  List, Option, [], get_or, if◌then◌else◌, leb, ltb, none, some, ℕ, ◌%◌, ◌&&◌, ◌*◌, ◌+◌, ◌-◌, ◌/◌,
  ◌==◌, ◌^◌, ◌∷◌,
}
use g_os.DataTypes.Hashtable.{Hashtable, hashtable_get, hashtable_put}
use g_os.Network.Checksum.{
  checksum, hi_16, hi_oct_32, low_16, low_oct_32, mid_lft_oct_32, mid_rgt_oct_32, swap_word,
}

-- include/network/common.h
abbrev pub mtu_ip4 : ℕ
mtu_ip4 = 65536

abbrev pub mtu_eth : ℕ
mtu_eth = 1518

abbrev pub header_ip4 : ℕ
header_ip4 = 20

abbrev pub tcp_protocol : ℕ
tcp_protocol = 0x6

abbrev pub udp_protocol : ℕ
udp_protocol = 0x11

abbrev pub icmp_protocol : ℕ
icmp_protocol = 0x1

-- `ip_row_packet[0]` to `ip_row_packet[19]`. The two increments of `ipv4_id` stand between its high
-- byte and its low byte.
abbrev pub ip_header : (ipv4_id packet_len protocol src_ip dst_ip crc_hi crc_lo : ℕ) → List ℕ
ip_header ipv4_id packet_len protocol src_ip dst_ip crc_hi crc_lo =
    69
    ∷ 0
    ∷ hi_16 packet_len
    ∷ low_16 packet_len
    ∷ hi_16 ipv4_id
    ∷ low_16 ((ipv4_id + 1) % 65536)
    ∷ 0
    ∷ 0
    ∷ 64
    ∷ protocol
    ∷ crc_hi
    ∷ crc_lo
    ∷ hi_oct_32 src_ip
    ∷ mid_lft_oct_32 src_ip
    ∷ mid_rgt_oct_32 src_ip
    ∷ low_oct_32 src_ip
    ∷ hi_oct_32 dst_ip
    ∷ mid_lft_oct_32 dst_ip
    ∷ mid_rgt_oct_32 dst_ip
    ∷ low_oct_32 dst_ip
    ∷ []

-- What becomes of a packet: -1 is returned, no hardware address is found, it is handed to the next
-- layer with that address, or it is too long for a frame and nothing is done.
pub data Sent : Type 0 where
  refused : Sent
  unresolved : Sent
  handed_on : (header : List ℕ) (dst_mac : ℕ) → Sent
  unsent : Sent

-- The network's own addresses.
pub record Network : Type 0 where
  pub ip : ℕ
  pub default_gw_ip : ℕ

-- `ip & LOCAL_NETMASK`, with the mask 0xFFFFFF00 of every configuration.
abbrev pub local_net : ℕ → ℕ
local_net ip = ip / 256

-- `lookup_mac` may send requests and sleep; here it is what it returns. The second result is
-- `ipv4_id`. `none` is where `checksum` would not end.
pub send_packet_ip4 :
    Network
    → (lookup_mac : ℕ → Option ℕ) → (ipv4_id src_ip dst_ip data_len protocol : ℕ)
    → Option (Sent × ℕ)
send_packet_ip4 net lookup_mac ipv4_id src_ip dst_ip data_len protocol =
    let packet_len = (data_len + header_ip4) % 2 ^ 16 in
    let header = ip_header ipv4_id packet_len protocol src_ip dst_ip in
    let next_id = (ipv4_id + 2) % 65536 in
    let hop = if local_net dst_ip == local_net net.ip then dst_ip else net.default_gw_ip in
    let frame : Option (Sent × ℕ) = elim (checksum (header 0 0)) [
      | none ↦ none
      | some chk ↦
          let chksum_val = swap_word chk in
          elim (lookup_mac hop) [
            | none ↦ some (unresolved, next_id)
            | some dst_mac ↦
                some (handed_on (header (hi_16 chksum_val) (low_16 chksum_val)) dst_mac, next_id)
          ]
    ] in
    if ltb mtu_ip4 packet_len
    then some (refused, ipv4_id)
    else if leb packet_len mtu_eth
    then frame
    else some (unsent, ipv4_id)

-- What becomes of a packet that comes in: it is dropped, or handed to one of the protocols, with the
-- addresses and the length of the payload.
pub data Received : Type 0 where
  dropped : Received
  rcv_tcp : (src_ip dst_ip data_len : ℕ) → Received
  rcv_udp : (src_ip dst_ip data_len : ℕ) → Received
  rcv_icmp : (src_ip dst_ip data_len : ℕ) → Received
  unknown : Received

abbrev pub byte : List ℕ → ℕ → ℕ
byte packet i = get_or packet i 0

abbrev pub ip_at : List ℕ → ℕ → ℕ
ip_at packet i =
    byte packet (i + 3)
    + byte packet (i + 2) * 2 ^ 8
    + byte packet (i + 1) * 2 ^ 16
    + byte packet i * 2 ^ 24

-- The total length less the headers, as a `u16`.
abbrev pub payload_len : List ℕ → (header : ℕ) → ℕ
payload_len packet header =
    (byte packet 3 + byte packet 2 * 256 + 65536 - header_ip4 - header) % 65536

pub dispatch : List ℕ → (src_ip dst_ip : ℕ) → Received
dispatch packet src_ip dst_ip =
    if byte packet 9 == tcp_protocol
    then rcv_tcp src_ip dst_ip (payload_len packet 20)
    else if byte packet 9 == udp_protocol
    then rcv_udp src_ip dst_ip (payload_len packet 8)
    else if byte packet 9 == icmp_protocol
    then rcv_icmp src_ip dst_ip (payload_len packet 4)
    else unknown

-- The sender's hardware address, a pointer, is entered in `arp_cache` if there is none for it.
pub remember_mac : (arp_cache : Hashtable) → (src_ip src_mac : ℕ) → Option Hashtable
remember_mac arp_cache src_ip src_mac = elim (hashtable_get arp_cache src_ip) [
  | none ↦ hashtable_put 2 arp_cache src_ip src_mac
  | some mac_addr ↦ some arp_cache
]

abbrev with_cache : Received → Option Hashtable → Option (Received × Hashtable)
with_cache handed none = none
with_cache handed (some cache) = some (handed, cache)

-- `packet` is the header, twenty bytes. `none` is where a callee would not end.
pub rcv_packet_ip4 :
    (local_ip : ℕ)
    → (arp_cache : Hashtable) → (packet : List ℕ) → (src_mac : ℕ) → Option (Received × Hashtable)
rcv_packet_ip4 local_ip arp_cache packet src_mac =
    let dst_ip = ip_at packet 16 in
    let src_ip = ip_at packet 12 in
    let accepted =
      with_cache (dispatch packet src_ip dst_ip) (remember_mac arp_cache src_ip src_mac) in
    elim (checksum packet) [
      | none ↦ none
      | some chk ↦ if chk == 0 && (dst_ip == local_ip) then accepted else some (dropped, arp_cache)
    ]
