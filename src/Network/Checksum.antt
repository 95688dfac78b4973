-- ===== src/Network/Checksum.antt =====
-- network/socket_buffer.c: `checksum`, and include/common.h: the macros that take words apart. Memory
-- is a list of bytes; a 16-bit word is read with its low byte first.
pub mod Sum
mod Examples
use g_os.Common.{
  List, Option, [], if◌then◌else◌, ltb, none, some, suc, zero, ℕ, ◌%◌, ◌*◌, ◌+◌, ◌-◌, ◌/◌, ◌==◌,
  ◌^◌, ◌∷◌,
}

abbrev pub low_16 : ℕ → ℕ
low_16 value = value % 256

abbrev pub hi_16 : ℕ → ℕ
hi_16 value = value / 256 % 256

abbrev pub swap_word : ℕ → ℕ
swap_word value = value / 256 % 256 + value * 256 % 65536

-- `GET_WORD(a,b)` of two bytes.
abbrev pub get_word : (a b : ℕ) → ℕ
get_word a b = a * 256 + b

abbrev pub hi_oct_32 : ℕ → ℕ
hi_oct_32 value = value / 2 ^ 24 % 256

abbrev pub mid_lft_oct_32 : ℕ → ℕ
mid_lft_oct_32 value = value / 2 ^ 16 % 256

abbrev pub mid_rgt_oct_32 : ℕ → ℕ
mid_rgt_oct_32 value = value / 2 ^ 8 % 256

abbrev pub low_oct_32 : ℕ → ℕ
low_oct_32 value = value % 256

-- `(sum & 0xFFFF) + (sum >> 16)` of a 32-bit `long`, kept as its 32 bits: the shift copies the sign.
abbrev pub fold_sum : ℕ → ℕ
fold_sum sum =
    let shifted = if ltb sum (2 ^ 31) then sum / 65536 else sum / 65536 + 2 ^ 32 - 2 ^ 16 in
    (sum % 65536 + shifted) % 2 ^ 32

-- The loop over the words, and the byte that may be left over.
unfoldable pub add_words : (sum : ℕ) → List ℕ → ℕ
add_words sum [] = sum
add_words sum (b ∷ []) = (sum + b) % 2 ^ 32
add_words sum (b ∷ c ∷ bs) =
    let next = (sum + (b + c * 256)) % 2 ^ 32 in
    add_words (if ltb next (2 ^ 31) then next else fold_sum next) bs

-- `while(sum >> 16)`, with fuel; `none` is where it runs out.
unfoldable pub fold_loop : (fuel sum : ℕ) → Option ℕ
fold_loop zero sum = none
fold_loop (suc f) sum =
    let rest = fold_loop f (fold_sum sum) in if sum / 65536 == 0 then some sum else rest

-- `~(unsigned short)sum` as an `unsigned short`.
unfoldable pub checksum : List ℕ → Option ℕ
unfolding add_words fold_loop
checksum bytes = elim (fold_loop 4 (add_words 0 bytes)) [
  | none ↦ none
  | some sum ↦ some (65535 - sum % 65536)
]
