-- ===== src/Network/Checksum/Examples.antt =====
-- A few bytes with a gap for their checksum.
use g_os.Common.{List, [], arith, refl, some, ℕ, ◌%◌, ◌-◌, ◌/◌, ◌<◌, ◌∷◌, ◌≡◌}
use g_os.Network.Checksum.{checksum}
use g_os.Network.Checksum.Sum.{checksum-ones_sum, checksum-verifies, ones_sum, word_sum}

abbrev bytes : List ℕ
bytes = 1 ∷ 2 ∷ 0 ∷ 0 ∷ 255 ∷ []

checksum-ones_sum_example : checksum bytes ≡ some (65535 - ones_sum (word_sum bytes))
checksum-ones_sum_example = checksum-ones_sum bytes (ground arith) (omega arith)

checksum-verifies_example :
    (c : ℕ) × (checksum bytes ≡ some c)
    × (c < 65536)
    × (checksum (1 ∷ 2 ∷ c % 256 ∷ c / 256 ∷ 255 ∷ []) ≡ some 0)
checksum-verifies_example =
    checksum-verifies 1 (1 ∷ 2 ∷ []) (255 ∷ []) refl (ground arith) (omega arith)
