-- ===== src/Network/Icmp.antt =====
-- network/icmp.c: echo requests and their replies.
pub mod Echo
mod Examples
use g_os.Common.{
  List, Option, if◌then◌else◌, length, ltb, none, not, replicate, some, ℕ, ◌*◌, ◌++◌, ◌+◌, ◌==◌,
  ◌∷◌,
}
use g_os.DataTypes.Hashtable.{Hashtable, hashtable_remove}
use g_os.Network.Checksum.{checksum, get_word, hi_16, low_16, swap_word}

-- The bytes that a packet buffer of this file has room for after the IP header.
abbrev pub icmp_room : ℕ
icmp_room = 64

-- What is done with a packet: a process that waited for the reply is awake, or nobody waited, or a
-- reply goes out, or it is written past the end of its buffer.
pub data Icmp : Type 0 where
  ignores : Icmp
  awakes : (process : ℕ) → Hashtable → Icmp
  unasked : Hashtable → Icmp
  replies : List ℕ → Icmp
  overruns : Icmp

-- The bytes of a packet with its checksum put in; `rest` begins after the checksum.
pub with_checksum : (type code : ℕ) (rest : List ℕ) → Option (List ℕ)
with_checksum type code rest = elim (checksum (type ∷ code ∷ 0 ∷ 0 ∷ rest)) [
  | none ↦ none
  | some sum ↦ let chk = swap_word sum in some (type ∷ code ∷ hi_16 chk ∷ low_16 chk ∷ rest)
]

pub send_packet_icmp_reply : (code : ℕ) (rest : List ℕ) → Option Icmp
unfolding with_checksum
send_packet_icmp_reply code rest = elim (with_checksum 0 code rest) [
  | none ↦ none
  | some packet ↦ some (if ltb icmp_room (length packet) then overruns else replies packet)
]

-- `unset` is the content of the last four bytes, which nothing sets.
pub send_packet_icmp_request : (icmp_msg_id icmp_msg_seq : ℕ) (unset : List ℕ) → Option (List ℕ)
unfolding with_checksum
send_packet_icmp_request icmp_msg_id icmp_msg_seq unset = with_checksum 8 0 (
    hi_16 icmp_msg_id
    ∷ low_16 icmp_msg_id
    ∷ hi_16 icmp_msg_seq
    ∷ low_16 icmp_msg_seq
    ∷ (replicate 52 0 ++ unset))

-- `none` is a packet that ends before its sequence number.
pub rcv_packet_icmp : (req_map : Hashtable) (icmp_row_packet : List ℕ) → Option Icmp
unfolding send_packet_icmp_reply
rcv_packet_icmp req_map (type ∷ code ∷ c_0 ∷ c_1 ∷ i_0 ∷ i_1 ∷ s_0 ∷ s_1 ∷ rest) =
    let key = get_word i_0 i_1 * 65536 + get_word s_0 s_1 in
    let (process, left) = hashtable_remove req_map key in
    let answered : Icmp = elim process [ none ↦ unasked left | some p ↦ awakes p left ] in
    let reply = send_packet_icmp_reply code (i_0 ∷ i_1 ∷ s_0 ∷ s_1 ∷ rest) in
    elim (checksum (type ∷ code ∷ c_0 ∷ c_1 ∷ i_0 ∷ i_1 ∷ s_0 ∷ s_1 ∷ rest)) [
      | none ↦ none
      | some sum ↦
          if not (sum == 0)
          then some ignores
          else if type == 0
          then some answered
          else if type == 8
          then reply
          else some ignores
    ]
rcv_packet_icmp req_map _ = none
