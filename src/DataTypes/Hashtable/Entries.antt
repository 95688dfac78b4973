-- ===== src/DataTypes/Hashtable/Entries.antt =====
-- Chains and buckets as lists of entries, and what `hashtable_get` reads of them.
use g_os.Common.{
  ℕ, zero, suc, ◌+◌, ◌%◌, ◌<◌, ◌≡◌, refl, ap, true, false, Option, none, some, List, [], ◌∷◌, arith,
  ◌==◌, if◌then◌else◌, get_or, set, length,
}
use g_os.DataTypes.Hashtable.{
  Chain, Hashtable, search_chain, hashtable_search, hashtable_get, is_some,
}

-- The first entry with the key.
abbrev pub lookup : ℕ → Chain → Option ℕ
lookup k [] = none
lookup k (b ∷ bs) = if b.key == k then some b.value else lookup k bs

-- The chain less its first entry with the key.
abbrev pub erase : ℕ → Chain → Chain
erase k [] = []
erase k (b ∷ bs) = if b.key == k then bs else b ∷ erase k bs

abbrev pub total : List Chain → ℕ
total [] = 0
total (c ∷ cs) = length c + total cs

pub search_chain-false : (c : Chain) (k : ℕ) → search_chain c k false ≡ (lookup k c, c)
unfolding search_chain
search_chain-false [] k = refl
search_chain-false (b ∷ bs) k = ground (arith, search_chain-false bs k)

pub search_chain-true : (c : Chain) (k : ℕ) → search_chain c k true ≡ (lookup k c, erase k c)
unfolding search_chain
search_chain-true [] k = refl
search_chain-true (b ∷ bs) k = ground (arith, search_chain-true bs k)

pub get-lookup :
    (t : Hashtable) (k : ℕ) → hashtable_get t k ≡ lookup k (get_or t.bucket (k % t.size) [])
unfolding hashtable_get hashtable_search
get-lookup t k = ap (λ p. p.0) (search_chain-false (get_or t.bucket (k % t.size) []) k)

pub length-erase :
    (k : ℕ) (c : Chain) → length (erase k c) + (if is_some (lookup k c) then 1 else 0) ≡ length c
length-erase k [] = omega arith
length-erase k (b ∷ bs) = ground (arith, length-erase k bs)

pub lookup-erase_ne : (j k : ℕ) (c : Chain) → (k == j) ≡ false → lookup j (erase k c) ≡ lookup j c
lookup-erase_ne j k [] h = refl
lookup-erase_ne j k (b ∷ bs) h = ground (arith, lookup-erase_ne j k bs h)

pub total-set :
    (cs : List Chain) (i : ℕ) (c : Chain)
    → i < length cs
    → total (set cs i c) + length (get_or cs i []) ≡ total cs + length c
total-set [] i c h = absurd (omega arith)
total-set (d ∷ cs) zero c h = omega arith
total-set (d ∷ cs) (suc i) c h = omega (arith, total-set cs i c (omega arith))
