-- ===== src/Network/Icmp/Echo.antt =====
-- A request, its reply, and the process that waits for it.
use g_os.Common.{
  List, [], ap, arith, length, refl, replicate, some, suc, zero, ℕ, ◌%◌, ◌*◌, ◌++◌, ◌+◌, ◌/◌, ◌<◌,
  ◌∙◌, ◌∷◌, ◌≡◌, ◌≤◌,
}
use g_os.DataTypes.Hashtable.{Hashtable, hashtable_remove}
use g_os.Network.Checksum.{checksum, get_word, hi_16, low_16, swap_word}
use g_os.Network.Checksum.Sum.{AllBytes, checksum-verifies}
use g_os.Network.Icmp.{
  awakes, rcv_packet_icmp, replies, send_packet_icmp_reply, send_packet_icmp_request, with_checksum,
}

-- A packet with its checksum sums up to 0.
with_checksum-verifies :
    (type code : ℕ) (rest : List ℕ)
    → type < 256
    → code < 256
    → AllBytes rest
    → length rest ≤ 65531
    → (c_0 : ℕ) × (c_1 : ℕ) × (with_checksum type code rest ≡ some (type ∷ code ∷ c_0 ∷ c_1 ∷ rest))
      × (checksum (type ∷ code ∷ c_0 ∷ c_1 ∷ rest) ≡ some 0)
unfolding with_checksum
with_checksum-verifies type code rest small small' all short =
    let (c, e, bound, verifies) =
      checksum-verifies 1 (type ∷ code ∷ []) rest refl
        (small, (small', (omega arith, (omega arith, all)))) (omega arith) in
    let hi : hi_16 (swap_word c) ≡ c % 256 = omega arith in
    let lo : low_16 (swap_word c) ≡ c / 256 = omega arith in
    (c % 256, c / 256, rw (with_checksum, e, hi, lo) refl, verifies)

pub AllBytes-zeros : (n : ℕ) (ys : List ℕ) → AllBytes ys → AllBytes (replicate n 0 ++ ys)
AllBytes-zeros zero ys all = all
AllBytes-zeros (suc n) ys all = (omega arith, AllBytes-zeros n ys all)

-- The bytes of an echo after the checksum.
abbrev pub echo_bytes : (id seq : ℕ) (unset : List ℕ) → List ℕ
echo_bytes id seq unset = id / 256 ∷ id % 256 ∷ seq / 256 ∷ seq % 256 ∷ (replicate 52 0 ++ unset)

-- A request is answered with a reply that has the same identifier, number and bytes, and the reply
-- wakes the process that waits for it at the host of the request, when the four bytes that nothing
-- sets are bytes and the process is in the table there under the identifier and the number.
pub request-awakes :
    (id seq u_0 u_1 u_2 u_3 process : ℕ) (there here left : Hashtable)
    → id < 65536
    → seq < 65536
    → AllBytes (u_0 ∷ u_1 ∷ u_2 ∷ u_3 ∷ [])
    → hashtable_remove here (id * 65536 + seq) ≡ (some process, left)
    → let rest = echo_bytes id seq (u_0 ∷ u_1 ∷ u_2 ∷ u_3 ∷ []) in
      (c_0 c_1 d_0 d_1 : ℕ) × (send_packet_icmp_request id seq (u_0 ∷ u_1 ∷ u_2 ∷ u_3 ∷ [])
        ≡ some (8 ∷ 0 ∷ c_0 ∷ c_1 ∷ rest))
      × (rcv_packet_icmp there (8 ∷ 0 ∷ c_0 ∷ c_1 ∷ rest)
          ≡ some (replies (0 ∷ 0 ∷ d_0 ∷ d_1 ∷ rest)))
      × (rcv_packet_icmp here (0 ∷ 0 ∷ d_0 ∷ d_1 ∷ rest) ≡ some (awakes process left))
unfolding send_packet_icmp_request rcv_packet_icmp send_packet_icmp_reply
request-awakes id seq u_0 u_1 u_2 u_3 process there here left small small' all waits =
    let unset = u_0 ∷ u_1 ∷ u_2 ∷ u_3 ∷ [] in
    let rest = echo_bytes id seq unset in
    let bytes : AllBytes rest =
      (omega arith, (omega arith, (omega arith, (omega arith, AllBytes-zeros 52 unset all)))) in
    let (c_0, c_1, e, ok) =
      with_checksum-verifies 8 0 rest (omega arith) (omega arith) bytes (omega arith) in
    let (d_0, d_1, e', ok') =
      with_checksum-verifies 0 0 rest (omega arith) (omega arith) bytes (omega arith) in
    let id_hi : hi_16 id ≡ id / 256 = omega arith in
    let seq_hi : hi_16 seq ≡ seq / 256 = omega arith in
    let key : get_word (id / 256) (id % 256) * 65536 + get_word (seq / 256) (seq % 256)
        ≡ id * 65536 + seq =
      omega arith in
    (
      c_0,
      c_1,
      d_0,
      d_1,
      rw (send_packet_icmp_request, id_hi, seq_hi) e,
      rw (rcv_packet_icmp, ok, send_packet_icmp_reply, e') refl,
      rw (rcv_packet_icmp, ok', key, waits)
          (ap (λ r. some (awakes process r.1)) (ap (λ k. hashtable_remove here k) key ∙ waits)),
    )
