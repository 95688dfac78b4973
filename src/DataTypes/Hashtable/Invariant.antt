-- ===== src/DataTypes/Hashtable/Invariant.antt =====
-- The invariant of a `t_hashtable`, and that `hashtable_init`, `hashtable_remove` and the insertion
-- of an entry keep it.
use g_os.Common.{
  List, [], arith, eq_of_==, get_or, get_or-replicate, get_or-set_ne, get_or-set_self, length,
  length-replicate, length-set, mod-lt, none, refl, replicate, set, suc, sym, zero, ℕ, ℕ_discrete,
  ◌%◌, ◌*◌, ◌<◌, ◌∙◌, ◌∷◌, ◌≡◌, ◌≢◌, ◌≤◌,
}
use g_os.DataTypes.Hashtable.{
  Chain, Hashtable, datum, hashtable_init, hashtable_remove, hashtable_search, prepend_entry,
}
use g_os.DataTypes.Hashtable.Entries.{
  erase, length-erase, lookup, search_chain-true, total, total-set,
}

abbrev pub KeysAt : ℕ → ℕ → Chain → Type 0
KeysAt n i [] = Unit
KeysAt n i (b ∷ bs) = (b.key % n ≡ i) × KeysAt n i bs

-- No key stands twice in the chain.
abbrev pub Distinct : Chain → Type 0
Distinct [] = Unit
Distinct (b ∷ bs) = (lookup b.key bs ≡ none) × Distinct bs

abbrev pub chain_at : Hashtable → ℕ → Chain
chain_at t i = get_or t.bucket i []

-- Every entry stands in the bucket of its key, and `elements` counts the entries.
pub record IsValid (t : Hashtable) : Type 0 where
  pub positive : 0 < t.size
  pub sized : length t.bucket ≡ t.size
  pub counted : t.elements ≡ total t.bucket
  pub placed : (i : ℕ) → KeysAt t.size i (chain_at t i)

-- The load that `hashtable_put` leaves behind.
abbrev pub IsLoaded : Hashtable → Type 0
IsLoaded t = 4 * t.elements ≤ 3 * t.size

abbrev pub HasDistinctKeys : Hashtable → Type 0
HasDistinctKeys t = (i : ℕ) → Distinct (chain_at t i)

total-replicate : (n : ℕ) → total (replicate n []) ≡ 0
total-replicate zero = refl
total-replicate (suc n) = omega (arith, total-replicate n)

pub init-IsValid : (n : ℕ) → 0 < n → IsValid (hashtable_init n)
unfolding hashtable_init
init-IsValid n h = record {
  positive = h;
  sized = length-replicate n [];
  counted = sym (total-replicate n);
  placed = λ i. rw (get_or-replicate {A = Chain} n i []) tt;
}

KeysAt-erase : (n i k : ℕ) (c : Chain) → KeysAt n i c → KeysAt n i (erase k c)
KeysAt-erase n i k [] h = tt
KeysAt-erase n i k (b ∷ bs) h = ground (arith, KeysAt-erase n i k bs h.1)

pub lookup_absent : (n i k : ℕ) (c : Chain) → KeysAt n i c → k % n ≢ i → lookup k c ≡ none
lookup_absent n i k [] h ne = refl
lookup_absent n i k (b ∷ bs) h ne = ground (arith, eq_of_== b.key k, lookup_absent n i k bs h.1 ne)

-- What an update of the bucket of `k` does at each index.
pub chain_at-set {ℓ} :
    (P : ℕ → Chain → Type ℓ) (cs : List Chain) (k : ℕ) (c : Chain)
    → k < length cs
    → P k c
    → ((i : ℕ) → P i (get_or cs i []))
    → (i : ℕ) → P i (get_or (set cs k c) i [])
chain_at-set P cs k c h new old i = elim (ℕ_discrete k i) [
  | yes e ↦ rw (← e, get_or-set_self cs k c [] h) new
  | no ne ↦ rw (get_or-set_ne cs k i c [] ne) (old i)
]

pub index-lt : (t : Hashtable) (k : ℕ) → IsValid t → k % t.size < length t.bucket
index-lt t k v = rw v.sized (mod-lt k v.positive)

pub prepend-IsValid : (t : Hashtable) (k x : ℕ) → IsValid t → IsValid (prepend_entry t k x)
unfolding prepend_entry
prepend-IsValid t k x v =
    let index = k % t.size in
    let new = datum k x ∷ chain_at t index in
    record {
      positive = v.positive;
      sized = length-set t.bucket index new ∙ v.sized;
      counted = omega (arith, total-set t.bucket index new (index-lt t k v), v.counted);
      placed =
          chain_at-set (KeysAt t.size) t.bucket index new (index-lt t k v) (refl, v.placed index)
            v.placed;
    }

pub remove-IsValid : (t : Hashtable) (k : ℕ) → IsValid t → IsValid (hashtable_remove t k).1
unfolding hashtable_remove hashtable_search
remove-IsValid t k v =
    let index = k % t.size in
    let chain = chain_at t index in
    rw (search_chain-true chain k) (record {
      positive = v.positive;
      sized = length-set t.bucket index (erase k chain) ∙ v.sized;
      counted = ground (
        arith,
        total-set t.bucket index (erase k chain) (index-lt t k v),
        length-erase k chain,
        v.counted,
      );
      placed =
          chain_at-set (KeysAt t.size) t.bucket index (erase k chain) (index-lt t k v)
            (KeysAt-erase t.size index k chain (v.placed index)) v.placed;
    })
