-- ===== src/Network/Arp.antt =====
-- network/arp.c: requests and answers of the address resolution protocol, and the cache that
-- `lookup_mac` reads. Frames are lists of bytes.
pub mod Exchange
mod Examples
use g_os.Common.{
  List, Option, get_or, if◌then◌else◌, none, replicate, some, ℕ, ◌*◌, ◌+◌, ◌==◌, ◌^◌, ◌∷◌,
}
use g_os.DataTypes.Hashtable.{Hashtable, hashtable_get, hashtable_put}
use g_os.Network.Checksum.{
  get_word, hi_16, hi_oct_32, low_16, low_oct_32, mid_lft_oct_32, mid_rgt_oct_32,
}

-- `t_mac_addr`
pub record MacAddr : Type 0 where
  pub hi : ℕ
  pub mi : ℕ
  pub lo : ℕ

-- The six bytes of a hardware address, before what follows.
abbrev pub mac_bytes : MacAddr → List ℕ → List ℕ
mac_bytes m bytes =
    hi_16 m.hi ∷ low_16 m.hi ∷ hi_16 m.mi ∷ low_16 m.mi ∷ hi_16 m.lo ∷ low_16 m.lo ∷ bytes

abbrev pub ip_bytes : ℕ → List ℕ → List ℕ
ip_bytes ip bytes = hi_oct_32 ip ∷ mid_lft_oct_32 ip ∷ mid_rgt_oct_32 ip ∷ low_oct_32 ip ∷ bytes

-- The frame of `send_packet_arp`: `arp_req[0]` to `arp_req[59]`, which ends in eighteen zeros.
abbrev pub arp_frame : (src_mac dst_mac : MacAddr) → (src_ip dst_ip op_type : ℕ) → List ℕ
arp_frame src_mac dst_mac src_ip dst_ip op_type = mac_bytes dst_mac (
    mac_bytes src_mac (
      0x8
      ∷ 0x6
      ∷ 0x0
      ∷ 0x1
      ∷ 0x8
      ∷ 0x0
      ∷ 0x6
      ∷ 0x4
      ∷ 0x0
      ∷ op_type
      ∷ mac_bytes src_mac (ip_bytes src_ip (mac_bytes dst_mac (ip_bytes dst_ip (replicate 18 0))))))

abbrev pub byte : List ℕ → ℕ → ℕ
byte frame i = get_or frame i 0

-- `GET_DWORD` and the three `GET_WORD`s of consecutive bytes.
abbrev pub ip_at : List ℕ → ℕ → ℕ
ip_at frame i =
    byte frame (i + 3)
    + byte frame (i + 2) * 2 ^ 8
    + byte frame (i + 1) * 2 ^ 16
    + byte frame i * 2 ^ 24

abbrev pub mac_at : List ℕ → ℕ → MacAddr
mac_at frame i = record {
  hi = get_word (byte frame i) (byte frame (i + 1));
  mi = get_word (byte frame (i + 2)) (byte frame (i + 3));
  lo = get_word (byte frame (i + 4)) (byte frame (i + 5));
}

-- `arp_cache`, whose values are pointers, and the addresses that stand at them.
pub record Cache : Type 0 where
  pub arp_cache : Hashtable
  pub address_at : ℕ → MacAddr

abbrev pub set_address : Cache → ℕ → MacAddr → ℕ → MacAddr
set_address c p m q = if p == q then m else c.address_at q

-- An address of the other host is entered if there is none; `fresh` is what `kmalloc` returns.
pub cache_mac : (fresh : ℕ) → Cache → (src_ip : ℕ) → (src_mac : MacAddr) → Option Cache
cache_mac fresh c src_ip src_mac = elim (hashtable_get c.arp_cache src_ip) [
  | some p ↦ some c
  | none ↦ elim (hashtable_put 2 c.arp_cache src_ip fresh) [
    | none ↦ none
    | some t ↦ some (record { arp_cache = t; address_at = set_address c fresh src_mac })
  ]
]

abbrev pub no_answer : Option Cache → Option (Option (List ℕ) × Cache)
no_answer none = none
no_answer (some c) = some (none, c)

-- The answer sent, if any, and the cache. `ip` and `mac_addr` are those of this host.
pub rcv_packet_arp :
    (ip : ℕ)
    → (mac_addr : MacAddr) → (fresh : ℕ) → Cache
    → List ℕ
    → Option (Option (List ℕ) × Cache)
rcv_packet_arp ip mac_addr fresh c frame =
    let dst_ip = ip_at frame 38 in
    let src_ip = ip_at frame 28 in
    let src_mac = mac_at frame 22 in
    if byte frame 21 == 1
    then if dst_ip == ip
      then some (some (arp_frame mac_addr src_mac dst_ip src_ip 2), c)
      else some (none, c)
    else if byte frame 21 == 2
    then no_answer (cache_mac fresh c src_ip src_mac)
    else some (none, c)
