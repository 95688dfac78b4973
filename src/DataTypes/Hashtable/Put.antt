-- ===== src/DataTypes/Hashtable/Put.antt =====
-- What `hashtable_get` reads after `rehash` and after `hashtable_put`.
use g_os.Common.{
  ==_of_ne, ==_refl, Bool-cases, List, Option, [], ap, arith, false, get_or, if◌then◌else◌, inl,
  inr, none, refl, some, suc, sym, zero, ℕ, ℕ_discrete, ◌%◌, ◌*◌, ◌+◌, ◌<◌, ◌==◌, ◌∙◌, ◌∷◌, ◌≡◌,
  ◌≢◌,
}
use g_os.DataTypes.Hashtable.{
  Chain, Hashtable, hashtable_get, hashtable_init, is_overloaded, prepend_entry,
}
use g_os.DataTypes.Hashtable.Entries.{get-lookup, lookup}
use g_os.DataTypes.Hashtable.Invariant.{
  Distinct, HasDistinctKeys, IsValid, KeysAt, chain_at, init-IsValid, prepend-IsValid,
}
use g_os.DataTypes.Hashtable.Lookup.{get-init, get-prepend}
use g_os.DataTypes.Hashtable.Rehash.{doubled, fill_buckets, fill_chain, fill_chain-IsValid, roomy}

-- The last entry with the key, or `acc`.
abbrev pub lookup_last : ℕ → Chain → Option ℕ → Option ℕ
lookup_last k [] acc = acc
lookup_last k (b ∷ bs) acc = lookup_last k bs (if b.key == k then some b.value else acc)

abbrev lookup_all : ℕ → List Chain → Option ℕ → Option ℕ
lookup_all k [] acc = acc
lookup_all k (c ∷ cs) acc = lookup_all k cs (lookup_last k c acc)

pub get-fill_chain :
    (c : Chain) (t : Hashtable) (k : ℕ)
    → IsValid t
    → hashtable_get (fill_chain c t) k ≡ lookup_last k c (hashtable_get t k)
get-fill_chain [] t k v = refl
get-fill_chain (b ∷ bs) t k v =
    get-fill_chain bs (prepend_entry t b.key b.value) k (prepend-IsValid t b.key b.value v)
    ∙ ap (lookup_last k bs) (get-prepend t b.key b.value k v)

get-fill_buckets :
    (cs : List Chain) (t : Hashtable) (k : ℕ)
    → IsValid t
    → hashtable_get (fill_buckets cs t) k ≡ lookup_all k cs (hashtable_get t k)
get-fill_buckets [] t k v = refl
get-fill_buckets (c ∷ cs) t k v =
    get-fill_buckets cs (fill_chain c t) k (fill_chain-IsValid c t v)
    ∙ ap (lookup_all k cs) (get-fill_chain c t k v)

pub lookup_last_absent :
    (n i k : ℕ) (c : Chain) (acc : Option ℕ) → KeysAt n i c → k % n ≢ i → lookup_last k c acc ≡ acc
lookup_last_absent n i k [] acc h ne = refl
lookup_last_absent n i k (b ∷ bs) acc h ne =
    let miss : (b.key == k) ≡ false = ==_of_ne b.key k λ e. ne (ap (λ m. m % n) (sym e) ∙ h.0) in
    rw miss (lookup_last_absent n i k bs acc h.1 ne)

-- Of the buckets from index `i` on, only that of the key counts.
lookup_all_absent :
    (n i k : ℕ) (cs : List Chain) (acc : Option ℕ)
    → ((j : ℕ) → KeysAt n (i + j) (get_or cs j []))
    → k % n < i
    → lookup_all k cs acc ≡ acc
lookup_all_absent n i k [] acc h ne = refl
lookup_all_absent n i k (c ∷ cs) acc h ne =
    rw (lookup_last_absent n (i + 0) k c acc (h 0) (omega arith)) (
      lookup_all_absent n (i + 1) k cs acc
        (λ j. let e : i + 1 + j ≡ i + suc j = omega arith in rw e (h (suc j))) (omega arith))

lookup_all_present :
    (n i m k : ℕ) (cs : List Chain) (acc : Option ℕ)
    → ((j : ℕ) → KeysAt n (i + j) (get_or cs j []))
    → k % n ≡ i + m
    → lookup_all k cs acc ≡ lookup_last k (get_or cs m []) acc
lookup_all_present n i m k [] acc h e = refl
lookup_all_present n i zero k (c ∷ cs) acc h e =
    lookup_all_absent n (i + 1) k cs (lookup_last k c acc)
      (λ j. let e : i + 1 + j ≡ i + suc j = omega arith in rw e (h (suc j))) (omega arith)
lookup_all_present n i (suc m) k (c ∷ cs) acc h e =
    rw (lookup_last_absent n (i + 0) k c acc (h 0) (omega arith)) (
      lookup_all_present n (i + 1) m k cs acc
        (λ j. let e : i + 1 + j ≡ i + suc j = omega arith in rw e (h (suc j))) (omega arith))

-- After `rehash` a key has the value of its last entry in the old chain, the oldest one.
pub get-doubled :
    (t : Hashtable) (k : ℕ)
    → IsValid t
    → hashtable_get (doubled t) k ≡ lookup_last k (chain_at t (k % t.size)) none
get-doubled t k v =
    get-fill_buckets t.bucket (hashtable_init (t.size * 2)) k
      (init-IsValid (t.size * 2) (omega (arith, v.positive)))
    ∙ rw (get-init (t.size * 2) k) (
        lookup_all_present t.size 0 (k % t.size) k t.bucket none
          (λ j. let e : 0 + j ≡ j = omega arith in rw e (v.placed j)) (omega arith))

lookup_last_miss :
    (k : ℕ) (c : Chain) (acc : Option ℕ) → lookup k c ≡ none → lookup_last k c acc ≡ acc
lookup_last_miss k [] acc h = refl
lookup_last_miss k (b ∷ bs) acc h = elim (Bool-cases (b.key == k)) [
  | inl hit ↦ absurd (ground arith)
  | inr miss ↦ rw miss (lookup_last_miss k bs acc (rw miss at h))
]

-- With distinct keys the last entry is the first.
lookup_last-lookup : (k : ℕ) (c : Chain) → Distinct c → lookup_last k c none ≡ lookup k c
lookup_last-lookup k [] d = refl
lookup_last-lookup k (b ∷ bs) d = elim (ℕ_discrete b.key k) [
  | yes e ↦ rw (e, ==_refl k) (lookup_last_miss k bs (some b.value) (rw e at d.0))
  | no ne ↦ rw (==_of_ne b.key k ne) (lookup_last-lookup k bs d.1)
]

pub get-roomy :
    (t : Hashtable) (k : ℕ)
    → IsValid t
    → HasDistinctKeys t
    → hashtable_get (roomy t) k ≡ hashtable_get t k
get-roomy t k v d = elim (Bool-cases (is_overloaded t)) [
  | inl e ↦
      rw e (get-doubled t k v ∙ lookup_last-lookup k _ (d (k % t.size)) ∙ sym (get-lookup t k))
  | inr e ↦ rw e
]
