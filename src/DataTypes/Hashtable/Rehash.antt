-- ===== src/DataTypes/Hashtable/Rehash.antt =====
-- `rehash` and `hashtable_put`: the depth that suffices, and what becomes of the entries.
use g_os.Common.{
  Bool-cases, List, [], arith, if◌then◌else◌, inl, inr, length, refl, some, suc, ℕ, ◌*◌, ◌+◌, ◌∙◌,
  ◌∷◌, ◌≡◌, ◌≤◌,
}
use g_os.DataTypes.Hashtable.{
  Chain, Hashtable, hashtable_init, hashtable_put, is_overloaded, prepend_entry, rehash,
  rehash_buckets, rehash_chain,
}
use g_os.DataTypes.Hashtable.Entries.{total}
use g_os.DataTypes.Hashtable.Invariant.{IsLoaded, IsValid, init-IsValid, prepend-IsValid}
use g_os.DataTypes.Hashtable.Lookup.{}

-- The insertions of `rehash` without the test of the load.
abbrev pub fill_chain : Chain → Hashtable → Hashtable
fill_chain [] t = t
fill_chain (b ∷ bs) t = fill_chain bs (prepend_entry t b.key b.value)

abbrev pub fill_buckets : List Chain → Hashtable → Hashtable
fill_buckets [] t = t
fill_buckets (c ∷ cs) t = fill_buckets cs (fill_chain c t)

size-fill_chain : (c : Chain) (t : Hashtable) → (fill_chain c t).size ≡ t.size
unfolding prepend_entry
size-fill_chain [] t = refl
size-fill_chain (b ∷ bs) t = size-fill_chain bs (prepend_entry t b.key b.value)

elements-fill_chain :
    (c : Chain) (t : Hashtable) → (fill_chain c t).elements ≡ t.elements + length c
unfolding prepend_entry
elements-fill_chain [] t = omega arith
elements-fill_chain (b ∷ bs) t =
    omega (arith, elements-fill_chain bs (prepend_entry t b.key b.value))

size-fill_buckets : (cs : List Chain) (t : Hashtable) → (fill_buckets cs t).size ≡ t.size
size-fill_buckets [] t = refl
size-fill_buckets (c ∷ cs) t = size-fill_buckets cs (fill_chain c t) ∙ size-fill_chain c t

elements-fill_buckets :
    (cs : List Chain) (t : Hashtable) → (fill_buckets cs t).elements ≡ t.elements + total cs
elements-fill_buckets [] t = omega arith
elements-fill_buckets (c ∷ cs) t =
    omega (arith, elements-fill_buckets cs (fill_chain c t), elements-fill_chain c t)

pub fill_chain-IsValid : (c : Chain) (t : Hashtable) → IsValid t → IsValid (fill_chain c t)
fill_chain-IsValid [] t v = v
fill_chain-IsValid (b ∷ bs) t v =
    fill_chain-IsValid bs (prepend_entry t b.key b.value) (prepend-IsValid t b.key b.value v)

pub fill_buckets-IsValid :
    (cs : List Chain) (t : Hashtable) → IsValid t → IsValid (fill_buckets cs t)
fill_buckets-IsValid [] t v = v
fill_buckets-IsValid (c ∷ cs) t v =
    fill_buckets-IsValid cs (fill_chain c t) (fill_chain-IsValid c t v)

-- Where there is room, `hashtable_put` only prepends.
put_roomy :
    (d : ℕ) (t : Hashtable) (k x : ℕ)
    → 4 * (t.elements + 1) ≤ 3 * t.size
    → hashtable_put (suc d) t k x ≡ some (prepend_entry t k x)
unfolding hashtable_put is_overloaded
put_roomy d t k x h = ground arith

module _ (d : ℕ) where
  rehash_chain-fill :
      (c : Chain) (t : Hashtable)
      → 4 * (t.elements + length c) ≤ 3 * t.size
      → rehash_chain (hashtable_put (suc d)) c t ≡ some (fill_chain c t)
  unfolding rehash_chain
  rehash_chain-fill [] t h = refl
  rehash_chain-fill (b ∷ bs) t h =
      rw (put_roomy d t b.key b.value (omega arith))
        (rehash_chain-fill bs (prepend_entry t b.key b.value) (unfold prepend_entry in omega arith))

  rehash_buckets-fill :
      (cs : List Chain) (t : Hashtable)
      → 4 * (t.elements + total cs) ≤ 3 * t.size
      → rehash_buckets (hashtable_put (suc d)) cs t ≡ some (fill_buckets cs t)
  unfolding rehash_buckets
  rehash_buckets-fill [] t h = refl
  rehash_buckets-fill (c ∷ cs) t h = rw (rehash_chain-fill c t (omega arith)) (
      rehash_buckets-fill cs (fill_chain c t)
        (omega (arith, elements-fill_chain c t, size-fill_chain c t)))

-- The table that `rehash` makes.
abbrev pub doubled : Hashtable → Hashtable
doubled t = fill_buckets t.bucket (hashtable_init (t.size * 2))

-- The calls that `rehash` makes of `hashtable_put` never rehash again.
pub rehash-doubled :
    (d : ℕ) (t : Hashtable)
    → IsValid t
    → IsLoaded t
    → rehash (hashtable_put (suc d)) t ≡ some (doubled t)
unfolding rehash hashtable_init
rehash-doubled d t v l =
    rw (rehash_buckets-fill d t.bucket (hashtable_init (t.size * 2)) (omega (arith, v.counted)))

pub doubled-IsValid : (t : Hashtable) → IsValid t → IsValid (doubled t)
doubled-IsValid t v =
    fill_buckets-IsValid t.bucket (hashtable_init (t.size * 2))
      (init-IsValid (t.size * 2) (omega (arith, v.positive)))

pub size-doubled : (t : Hashtable) → (doubled t).size ≡ t.size * 2
unfolding hashtable_init
size-doubled t = size-fill_buckets t.bucket (hashtable_init (t.size * 2))

pub elements-doubled : (t : Hashtable) → IsValid t → (doubled t).elements ≡ t.elements
unfolding hashtable_init
elements-doubled t v =
    omega (arith, elements-fill_buckets t.bucket (hashtable_init (t.size * 2)), v.counted)

-- The table to which `hashtable_put` adds its entry.
abbrev pub roomy : Hashtable → Hashtable
roomy t = if is_overloaded t then doubled t else t

-- `hashtable_put` recurs at most once, and so needs a depth of two at most.
pub put-roomy :
    (d : ℕ) (t : Hashtable) (k x : ℕ)
    → IsValid t
    → IsLoaded t
    → hashtable_put (suc (suc d)) t k x ≡ some (prepend_entry (roomy t) k x)
unfolding hashtable_put
put-roomy d t k x v l =
    rw (rehash-doubled d t v l)
      (elim (Bool-cases (is_overloaded t)) [ inl e ↦ rw e | inr e ↦ rw e ])

pub roomy-IsValid : (t : Hashtable) → IsValid t → IsValid (roomy t)
roomy-IsValid t v = elim (Bool-cases (is_overloaded t)) [
  | inl e ↦ rw e (doubled-IsValid t v)
  | inr e ↦ rw e v
]

-- Adding one entry to the table that `hashtable_put` chose keeps the load.
pub roomy-IsLoaded :
    (t : Hashtable) (k x : ℕ) → IsValid t → IsLoaded t → IsLoaded (prepend_entry (roomy t) k x)
unfolding prepend_entry is_overloaded
roomy-IsLoaded t k x v l = ground (arith, size-doubled t, elements-doubled t v, v.positive)
