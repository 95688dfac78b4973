-- ===== src/DataTypes/Hashtable/Distinct.antt =====
-- Distinct keys: `hashtable_put` at an absent key keeps them, also through `rehash`.
use g_os.Common.{
  ==_refl, Bool-cases, List, [], arith, eq_of_==, get_or, get_or-replicate, inl, inr, none, suc,
  sym, ℕ, ◌%◌, ◌*◌, ◌+◌, ◌==◌, ◌∙◌, ◌∷◌, ◌≡◌, ◌≤◌,
}
use g_os.DataTypes.Hashtable.{
  Chain, Hashtable, datum, hashtable_get, hashtable_init, hashtable_remove, is_overloaded,
  prepend_entry,
}
use g_os.DataTypes.Hashtable.Entries.{erase, get-lookup, lookup, lookup-erase_ne}
use g_os.DataTypes.Hashtable.Invariant.{
  Distinct, HasDistinctKeys, IsValid, KeysAt, chain_at, chain_at-set, index-lt, init-IsValid,
  prepend-IsValid,
}
use g_os.DataTypes.Hashtable.Lookup.{get-init, get-prepend, remove-bucket}
use g_os.DataTypes.Hashtable.Rehash.{fill_buckets, fill_chain, fill_chain-IsValid, roomy}
use g_os.DataTypes.Hashtable.Put.{get-fill_chain, lookup_last_absent}

pub prepend-HasDistinctKeys :
    (t : Hashtable) (k x : ℕ)
    → IsValid t
    → HasDistinctKeys t
    → hashtable_get t k ≡ none
    → HasDistinctKeys (prepend_entry t k x)
unfolding prepend_entry
prepend-HasDistinctKeys t k x v d free =
    let index = k % t.size in
    chain_at-set (λ _ c. Distinct c) t.bucket index (datum k x ∷ chain_at t index) (index-lt t k v)
      (sym (get-lookup t k) ∙ free, d index) d

-- None of the chain's keys is in the table.
abbrev IsFresh : Hashtable → Chain → Type 0
IsFresh t [] = Unit
IsFresh t (b ∷ bs) = (hashtable_get t b.key ≡ none) × IsFresh t bs

IsFresh-prepend :
    (t : Hashtable) (k x : ℕ) (c : Chain)
    → IsValid t
    → lookup k c ≡ none
    → IsFresh t c
    → IsFresh (prepend_entry t k x) c
IsFresh-prepend t k x [] v h f = tt
IsFresh-prepend t k x (b ∷ bs) v h f = (
  ground (arith, get-prepend t k x b.key v, eq_of_== k b.key, ==_refl b.key),
  IsFresh-prepend t k x bs v (ground arith) f.1,
)

fill_chain-HasDistinctKeys :
    (c : Chain) (t : Hashtable)
    → IsValid t
    → HasDistinctKeys t
    → Distinct c
    → IsFresh t c
    → HasDistinctKeys (fill_chain c t)
fill_chain-HasDistinctKeys [] t v d dc f = d
fill_chain-HasDistinctKeys (b ∷ bs) t v d dc f =
    fill_chain-HasDistinctKeys bs (prepend_entry t b.key b.value)
      (prepend-IsValid t b.key b.value v) (prepend-HasDistinctKeys t b.key b.value v d f.0) dc.1
      (IsFresh-prepend t b.key b.value bs v dc.0 f.1)

-- No key whose old index is `i` or more is in the table yet.
abbrev IsEmptyFrom : ℕ → ℕ → Hashtable → Type 0
IsEmptyFrom n i t = (k : ℕ) → i ≤ k % n → hashtable_get t k ≡ none

IsEmptyFrom-IsFresh :
    (n i : ℕ) (c : Chain) (t : Hashtable) → KeysAt n i c → IsEmptyFrom n i t → IsFresh t c
IsEmptyFrom-IsFresh n i [] t h e = tt
IsEmptyFrom-IsFresh n i (b ∷ bs) t h e =
    (e b.key (omega (arith, h.0)), IsEmptyFrom-IsFresh n i bs t h.1 e)

fill_buckets-HasDistinctKeys :
    (n i : ℕ) (cs : List Chain) (t : Hashtable)
    → IsValid t
    → HasDistinctKeys t
    → ((j : ℕ) → Distinct (get_or cs j []))
    → ((j : ℕ) → KeysAt n (i + j) (get_or cs j []))
    → IsEmptyFrom n i t
    → HasDistinctKeys (fill_buckets cs t)
fill_buckets-HasDistinctKeys n i [] t v d dc h e = d
fill_buckets-HasDistinctKeys n i (c ∷ cs) t v d dc h e =
    let here : i + 0 ≡ i = omega arith in
    let at_i : KeysAt n i c = rw here at (h 0) in
    fill_buckets-HasDistinctKeys n (i + 1) cs (fill_chain c t) (fill_chain-IsValid c t v)
      (fill_chain-HasDistinctKeys c t v d (dc 0) (IsEmptyFrom-IsFresh n i c t at_i e))
      (λ j. dc (suc j)) (λ j. let a : i + 1 + j ≡ i + suc j = omega arith in rw a (h (suc j)))
      λ k le.
        get-fill_chain c t k v ∙ lookup_last_absent n i k c _ at_i (omega arith) ∙ e k (omega arith)

pub init-HasDistinctKeys : (n : ℕ) → HasDistinctKeys (hashtable_init n)
unfolding hashtable_init
init-HasDistinctKeys n i = rw (get_or-replicate {A = Chain} n i []) tt

pub roomy-HasDistinctKeys :
    (t : Hashtable) → IsValid t → HasDistinctKeys t → HasDistinctKeys (roomy t)
roomy-HasDistinctKeys t v d = elim (Bool-cases (is_overloaded t)) [
  | inl e ↦ rw e (
      fill_buckets-HasDistinctKeys t.size 0 t.bucket (hashtable_init (t.size * 2))
        (init-IsValid (t.size * 2) (omega (arith, v.positive))) (init-HasDistinctKeys (t.size * 2))
        d (λ j. let a : 0 + j ≡ j = omega arith in rw a (v.placed j))
        λ k _. get-init (t.size * 2) k)
  | inr e ↦ rw e d
]

Distinct-erase : (k : ℕ) (c : Chain) → Distinct c → Distinct (erase k c)
Distinct-erase k [] d = tt
Distinct-erase k (b ∷ bs) d = elim (Bool-cases (b.key == k)) [
  | inl hit ↦ rw hit d.1
  | inr miss ↦ rw miss (
    lookup-erase_ne b.key k bs (ground (arith, eq_of_== k b.key, ==_refl k)) ∙ d.0,
    Distinct-erase k bs d.1,
  )
]

pub remove-HasDistinctKeys :
    (t : Hashtable) (k : ℕ)
    → IsValid t
    → HasDistinctKeys t
    → HasDistinctKeys (hashtable_remove t k).1
remove-HasDistinctKeys t k v d = rw (remove-bucket t k) (
    chain_at-set (λ _ c. Distinct c) t.bucket (k % t.size) (erase k (chain_at t (k % t.size)))
      (index-lt t k v) (Distinct-erase k _ (d (k % t.size))) d)
