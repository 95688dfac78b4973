-- ===== src/Network/Udp/Checked.antt =====
-- A datagram that `send_packet_udp` makes has the sum that `rcv_packet_udp` asks for.
use g_os.Common.{
  ==_of_ne, List, [], ap, ap₂, arith, get_or, length, refl, some, sym, ℕ, ℕ_discrete, ◌%◌, ◌+◌, ◌-◌,
  ◌/◌, ◌<◌, ◌∙◌, ◌∷◌, ◌≡◌, ◌≢◌, ◌≤◌,
}
use g_os.Network.Checksum.{hi_16, low_16, swap_word}
use g_os.Network.Checksum.Sum.{
  AllBytes, checksum-ones_sum, ones_sum, ones_sum_bound, ones_sum_complement, word_sum, word_sum-at,
}
use g_os.Network.Ip4.{}
use g_os.Network.Udp.{checksum_udp, chk_final, datagram_of, header_virt}

ones_sum_again : (d : ℕ) → ones_sum (0 + ones_sum d) ≡ ones_sum (0 + d)
ones_sum_again d = ground arith

ones_sum_pos : (s : ℕ) → s ≢ 0 → ones_sum s ≡ (s - 1) % 65535 + 1
ones_sum_pos s ne = rw (==_of_ne s 0 ne) refl

ones_sum-add : (v d : ℕ) → ones_sum (ones_sum v + ones_sum d) ≡ ones_sum (v + d)
ones_sum-add v d = elim (ℕ_discrete v 0) [
  | yes e ↦ rw e (ones_sum_again d)
  | no n ↦ elim (ℕ_discrete d 0) [
    | yes e ↦
        let left : ones_sum v + ones_sum d ≡ 0 + ones_sum v = rw e (omega arith) in
        let right : 0 + v ≡ v + d = omega arith in
        ap (λ s. ones_sum s) left ∙ ones_sum_again v ∙ ap (λ s. ones_sum s) right
    | no m ↦
        let sum : ones_sum v + ones_sum d ≡ (v - 1) % 65535 + 1 + ((d - 1) % 65535 + 1) =
          ap₂ (λ a b. a + b) (ones_sum_pos v n) (ones_sum_pos d m) in
        ap (λ s. ones_sum s) sum
        ∙ ones_sum_pos ((v - 1) % 65535 + 1 + ((d - 1) % 65535 + 1)) (omega arith)
        ∙ omega arith
        ∙ sym (ones_sum_pos (v + d) (omega arith))
  ]
]

header_virt-AllBytes :
    (src dst hi lo : ℕ) → hi < 256 → lo < 256 → AllBytes (header_virt src dst hi lo)
header_virt-AllBytes src dst hi lo hh hl = ground (arith, hh, hl)

chk_final-AllBytes : (v d : ℕ) → AllBytes (chk_final v d)
chk_final-AllBytes v d = ground arith

chk_final-word_sum :
    (v d : ℕ) → v ≤ 65535 → d ≤ 65535 → word_sum (chk_final (65535 - v) (65535 - d)) ≡ v + d
unfolding word_sum
chk_final-word_sum v d hv hd = omega arith

-- `checksum_udp` is the complement of the sum of the words of both headers and the payload.
pub checksum_udp-ones_sum :
    (datagram : List ℕ) (src dst : ℕ)
    → AllBytes datagram
    → length datagram ≤ 65535
    → get_or datagram 4 0 < 256
    → get_or datagram 5 0 < 256
    → checksum_udp datagram src dst
      ≡ some (
          65535
          - ones_sum (
              word_sum (header_virt src dst (get_or datagram 4 0) (get_or datagram 5 0))
              + word_sum datagram))
unfolding checksum_udp
checksum_udp-ones_sum datagram src dst all long hi lo =
    let virt = header_virt src dst (get_or datagram 4 0) (get_or datagram 5 0) in
    let d = ones_sum (word_sum datagram) in
    let v = ones_sum (word_sum virt) in
    let whole = checksum-ones_sum datagram all long in
    let head = checksum-ones_sum virt (header_virt-AllBytes src dst _ _ hi lo) (omega arith) in
    let both =
      checksum-ones_sum (chk_final (65535 - v) (65535 - d))
        (chk_final-AllBytes (65535 - v) (65535 - d)) (omega arith) in
    let sum =
      chk_final-word_sum v d (ones_sum_bound (word_sum virt))
        (ones_sum_bound (word_sum datagram)) in
    rw (whole, head, checksum_udp)
      (both
        ∙ ap (λ w. some (65535 - ones_sum w)) sum
        ∙ ap (λ w. some (65535 - w)) (ones_sum-add (word_sum virt) (word_sum datagram)))

datagram_of-AllBytes :
    (sp dp len hi lo : ℕ) (payload : List ℕ)
    → hi < 256
    → lo < 256
    → AllBytes payload
    → AllBytes (datagram_of sp dp len hi lo payload)
datagram_of-AllBytes sp dp len hi lo payload hh hl all = ground (arith, hh, hl, all)

-- With its checksum in place the datagram sums up to 0.
pub datagram_of-verifies :
    (sp dp len src dst : ℕ) (payload : List ℕ)
    → AllBytes payload
    → length payload ≤ 65527
    → (c : ℕ) × (checksum_udp (datagram_of sp dp len 0 0 payload) src dst ≡ some c)
      × (checksum_udp
            (datagram_of sp dp len (hi_16 (swap_word c)) (low_16 (swap_word c)) payload)
            src
            dst
          ≡ some 0)
datagram_of-verifies sp dp len src dst payload all long =
    let v = word_sum (header_virt src dst (hi_16 len) (low_16 len)) in
    let ports = hi_16 sp ∷ low_16 sp ∷ hi_16 dp ∷ low_16 dp ∷ hi_16 len ∷ low_16 len ∷ [] in
    let s = v + word_sum (datagram_of sp dp len 0 0 payload) in
    let c = 65535 - ones_sum s in
    let bound = ones_sum_bound s in
    let hi : hi_16 (swap_word c) ≡ c % 256 = omega arith in
    let lo : low_16 (swap_word c) ≡ c / 256 = omega arith in
    let new = datagram_of sp dp len (c % 256) (c / 256) payload in
    let sum : v + word_sum new ≡ s + c = omega (
      arith,
      word_sum-at 3 ports 0 0 payload refl,
      word_sum-at 3 ports (c % 256) (c / 256) payload refl,
    ) in
    let checked =
      checksum_udp-ones_sum new src dst
        (datagram_of-AllBytes sp dp len (c % 256) (c / 256) payload (omega arith) (omega arith) all)
        (omega arith) (omega arith) (omega arith) in
    (
      c,
      checksum_udp-ones_sum (datagram_of sp dp len 0 0 payload) src dst
          (datagram_of-AllBytes sp dp len 0 0 payload (omega arith) (omega arith) all) (omega arith)
          (omega arith) (omega arith),
      rw (hi, lo)
          (checked
            ∙ ap (λ w. some (65535 - ones_sum w)) sum
            ∙ ap (λ w. some (65535 - w)) (ones_sum_complement s)),
    )
