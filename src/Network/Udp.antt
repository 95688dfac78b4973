-- ===== src/Network/Udp.antt =====
-- network/udp.c: the search for a free port, the sending and receiving of datagrams, and the reading
-- of them by a process. Datagrams are lists of bytes from the UDP header on.
pub mod Checked
pub mod Delivery
pub mod Ports
mod Examples
use g_os.Common.{
  List, Option, [], get_or, if◌then◌else◌, leb, length, ltb, none, some, suc, zero, ℕ, ◌%◌, ◌++◌,
  ◌+◌, ◌-◌, ◌==◌, ◌^◌, ◌∷◌,
}
use g_os.DataTypes.Hashtable.{Hashtable, hashtable_get, hashtable_put}
use g_os.Network.Checksum.{
  checksum, get_word, hi_16, hi_oct_32, low_16, low_oct_32, mid_lft_oct_32, mid_rgt_oct_32,
  swap_word,
}
use g_os.Network.Ip4.{Network, Sent, send_packet_ip4, udp_protocol}

abbrev pub header_udp : ℕ
header_udp = 8

-- `header_virt`, with the length that stands in the datagram.
abbrev pub header_virt : (src_ip dst_ip len_hi len_lo : ℕ) → List ℕ
header_virt src_ip dst_ip len_hi len_lo =
    hi_oct_32 src_ip
    ∷ mid_lft_oct_32 src_ip
    ∷ mid_rgt_oct_32 src_ip
    ∷ low_oct_32 src_ip
    ∷ hi_oct_32 dst_ip
    ∷ mid_lft_oct_32 dst_ip
    ∷ mid_rgt_oct_32 dst_ip
    ∷ low_oct_32 dst_ip
    ∷ 0
    ∷ udp_protocol
    ∷ len_hi
    ∷ len_lo
    ∷ []

-- `chk_final`: the complements of both checksums, low bytes first.
abbrev pub chk_final : (chk_virt chk : ℕ) → List ℕ
chk_final chk_virt chk =
    low_16 (65535 - chk_virt)
    ∷ hi_16 (65535 - chk_virt)
    ∷ low_16 (65535 - chk)
    ∷ hi_16 (65535 - chk)
    ∷ []

-- `checksum_udp` of a datagram of `HEADER_UDP + data_len` bytes.
pub checksum_udp : List ℕ → (src_ip dst_ip : ℕ) → Option ℕ
checksum_udp datagram src_ip dst_ip =
    let virt = header_virt src_ip dst_ip (get_or datagram 4 0) (get_or datagram 5 0) in
    elim (checksum datagram) [
      | none ↦ none
      | some chk ↦ elim (checksum virt) [
        | none ↦ none
        | some chk_virt ↦ checksum (chk_final chk_virt chk)
      ]
    ]

abbrev pub datagram_of : (src_port dst_port len crc_hi crc_lo : ℕ) → List ℕ → List ℕ
datagram_of src_port dst_port len crc_hi crc_lo payload =
    hi_16 src_port
    ∷ low_16 src_port
    ∷ hi_16 dst_port
    ∷ low_16 dst_port
    ∷ hi_16 len
    ∷ low_16 len
    ∷ crc_hi
    ∷ crc_lo
    ∷ payload

-- What `send_packet_udp` returns, the datagram, and what `send_packet_ip4` made of it.
pub record SentUdp : Type 0 where
  pub ret : ℕ
  pub datagram : List ℕ
  pub below : Option (Sent × ℕ)

-- The buffer is allocated with a size of 16 bits and the payload copied into it before the length is
-- tested: `overruns` is a copy past the end of the buffer, after which nothing is claimed, and
-- `not_supported` a payload that is too long, for which 0 is returned.
pub data UdpResult : Type 0 where
  overruns : UdpResult
  not_supported : UdpResult
  sends : SentUdp → UdpResult

-- The headers before the payload in the buffer: `HEADER_ETH + HEADER_IP4 + HEADER_UDP`.
abbrev pub headers : ℕ
headers = 42

-- `none` is where `checksum` would not end.
pub send_packet_udp :
    Network
    → (lookup_mac : ℕ → Option ℕ) → (ipv4_id src_ip dst_ip src_port dst_port : ℕ) → List ℕ
    → Option UdpResult
send_packet_udp net lookup_mac ipv4_id src_ip dst_ip src_port dst_port payload =
    let data_len = length payload in
    let len = header_udp + data_len in
    let data_size = (data_len + headers) % 2 ^ 16 in
    let sent : Option UdpResult =
      elim (checksum_udp (datagram_of src_port dst_port len 0 0 payload) src_ip dst_ip) [
        | none ↦ none
        | some sum ↦
            let chk = swap_word sum in
            some (
              sends (record {
                ret = data_len;
                datagram = datagram_of src_port dst_port len (hi_16 chk) (low_16 chk) payload;
                below = send_packet_ip4 net lookup_mac ipv4_id src_ip dst_ip len udp_protocol;
              }))
      ] in
    if ltb data_size (headers + data_len)
    then some overruns
    else (if leb data_len (0xffff - header_udp) then sent else some not_supported)

-- A datagram in a queue, with the source address that stands in its IP header.
pub record Packet : Type 0 where
  pub src_ip : ℕ
  pub datagram : List ℕ

-- `conn_map` from ports to sockets, and the fields of the socket at an address: its queue, oldest
-- datagram first, and the process that waits for one, or NULL.
pub record UdpDesc : Type 0 where
  pub conn_map : Hashtable
  pub rx_queue : ℕ → List Packet
  pub process_context : ℕ → ℕ

abbrev pub set_rx_queue : UdpDesc → ℕ → List Packet → UdpDesc
set_rx_queue u a q = record u { rx_queue = λ b. if a == b then q else u.rx_queue b }

abbrev pub set_waiting : UdpDesc → ℕ → ℕ → UdpDesc
set_waiting u a p = record u { process_context = λ b. if a == b then p else u.process_context b }

-- The datagram goes to the socket of its port; the process given is the one to `_awake`, if any.
pub deliver : UdpDesc → (socket : ℕ) → Packet → UdpDesc × Option ℕ
deliver u socket packet =
    let queued = set_rx_queue u socket (u.rx_queue socket ++ packet ∷ []) in
    if u.process_context socket == 0
    then (queued, none)
    else (set_waiting queued socket 0, some (u.process_context socket))

-- A datagram whose sum is not 0, or for whose port there is no socket, is freed.
pub rcv_packet_udp : UdpDesc → List ℕ → (src_ip dst_ip : ℕ) → Option (UdpDesc × Option ℕ)
rcv_packet_udp u datagram src_ip dst_ip =
    let dst_port = get_word (get_or datagram 2 0) (get_or datagram 3 0) in
    let handed : UdpDesc × Option ℕ = elim (hashtable_get u.conn_map dst_port) [
      | none ↦ (u, none)
      | some socket ↦ deliver u socket (record { src_ip = src_ip; datagram = datagram })
    ] in
    elim (checksum_udp datagram src_ip dst_ip) [
      | none ↦ none
      | some sum ↦ some (if sum == 0 then handed else (u, none))
    ]

-- What `dequeue_packet_udp` copies out.
pub record Read : Type 0 where
  pub src_ip : ℕ
  pub src_port : ℕ
  pub bytes : List ℕ
  pub read_data : ℕ

abbrev pub take : ℕ → List ℕ → List ℕ
take zero bs = []
take (suc n) [] = []
take (suc n) (b ∷ bs) = b ∷ take n bs

abbrev pub drop : ℕ → List ℕ → List ℕ
drop zero bs = bs
drop (suc n) [] = []
drop (suc n) (b ∷ bs) = drop n bs

pub read_packet : Packet → (data_len : ℕ) → Read
read_packet p data_len =
    let len = get_word (get_or p.datagram 4 0) (get_or p.datagram 5 0) - header_udp in
    let read_data = if ltb data_len len then data_len else len in
    record {
      src_ip = p.src_ip;
      src_port = get_word (get_or p.datagram 0 0) (get_or p.datagram 1 0);
      bytes = take read_data (drop header_udp p.datagram);
      read_data = read_data;
    }

-- With nothing in the queue the calling process waits, and the call goes on when it is awake.
pub dequeue_packet_udp : UdpDesc → (socket process data_len : ℕ) → UdpDesc × Option Read
dequeue_packet_udp u socket process data_len = elim (u.rx_queue socket) [
  | [] ↦ (set_waiting u socket process, none)
  | p ∷ ps ↦ (set_rx_queue u socket ps, some (read_packet p data_len))
]

-- The loop of `udp_free_port_search`: the port found, or 0, the index and the map.
pub search_port : (rounds ep_port_index : ℕ) → Hashtable → Option (ℕ × ℕ × Hashtable)
search_port zero index ep_port_map = some (0, index, ep_port_map)
search_port (suc r) index ep_port_map =
    let next = if ltb 65535 (index + 1) then 32767 else index + 1 in
    let rest = search_port r next ep_port_map in
    elim (hashtable_get ep_port_map next) [
      | some p ↦ rest
      | none ↦ elim (hashtable_put 2 ep_port_map next 1) [
        | none ↦ none
        | some t ↦ some (next, next, t)
      ]
    ]

pub udp_free_port_search : (ep_port_index : ℕ) → Hashtable → Option (ℕ × ℕ × Hashtable)
unfolding search_port
udp_free_port_search index ep_port_map = search_port 32767 index ep_port_map
