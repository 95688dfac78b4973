-- ===== src/DataTypes/Hashtable/Map.antt =====
-- A table whose keys are distinct is a finite map, whatever calls are made of it, as long as
-- `hashtable_put` is called at absent keys.
use g_os.Common.{
  ==_of_ne, List, Option, [], ap, arith, if◌then◌else◌, none, refl, some, suc, true, ℕ, ◌%◌, ◌*◌,
  ◌<◌, ◌==◌, ◌∙◌, ◌∷◌, ◌≡◌, ◌≢◌,
}
use g_os.DataTypes.Hashtable.{
  Hashtable, hashtable_get, hashtable_init, hashtable_put, hashtable_remove, is_overloaded,
  prepend_entry, rehash,
}
use g_os.DataTypes.Hashtable.Entries.{}
use g_os.DataTypes.Hashtable.Invariant.{
  HasDistinctKeys, IsLoaded, IsValid, chain_at, init-IsValid, prepend-IsValid, remove-IsValid,
}
use g_os.DataTypes.Hashtable.Lookup.{get-init, get-prepend, get-remove, remove-IsLoaded, remove-get}
use g_os.DataTypes.Hashtable.Rehash.{
  doubled, elements-doubled, put-roomy, rehash-doubled, roomy, roomy-IsLoaded, roomy-IsValid,
  size-doubled,
}
use g_os.DataTypes.Hashtable.Put.{get-doubled, get-roomy, lookup_last}
use g_os.DataTypes.Hashtable.Distinct.{
  init-HasDistinctKeys, prepend-HasDistinctKeys, remove-HasDistinctKeys, roomy-HasDistinctKeys,
}

pub record IsMap (t : Hashtable) : Type 0 where
  pub valid : IsValid t
  pub loaded : IsLoaded t
  pub distinct : HasDistinctKeys t

-- A fresh table is a map with no key.
pub init-IsMap :
    (n k : ℕ) → 0 < n → IsMap (hashtable_init n) × (hashtable_get (hashtable_init n) k ≡ none)
init-IsMap n k h = (
  record {
    valid = init-IsValid n h;
    loaded = unfold hashtable_init in omega arith;
    distinct = init-HasDistinctKeys n;
  },
  get-init n k,
)

-- At a table that is a map, `hashtable_put` needs a depth of two: it returns a table in which the
-- key has the value and every other key what it had. It is again a map if the key was absent.
pub put-IsMap :
    (d : ℕ) (t : Hashtable) (k x : ℕ)
    → IsMap t
    → (t' : Hashtable) × (hashtable_put (suc (suc d)) t k x ≡ some t')
      × ((j : ℕ) → hashtable_get t' j ≡ (if k == j then some x else hashtable_get t j))
      × (hashtable_get t k ≡ none → IsMap t')
put-IsMap d t k x m =
    let v = roomy-IsValid t m.valid in
    (
      prepend_entry (roomy t) k x,
      put-roomy d t k x m.valid m.loaded,
      λ j.
          get-prepend (roomy t) k x j v
          ∙ ap (λ o. if k == j then some x else o) (get-roomy t j m.valid m.distinct),
      λ free. record {
        valid = prepend-IsValid (roomy t) k x v;
        loaded = roomy-IsLoaded t k x m.valid m.loaded;
        distinct =
            prepend-HasDistinctKeys (roomy t) k x v (roomy-HasDistinctKeys t m.valid m.distinct)
              (get-roomy t k m.valid m.distinct ∙ free);
      },
    )

-- `hashtable_remove` returns the value of the key and leaves a map without it.
pub remove-IsMap :
    (t : Hashtable) (k : ℕ)
    → IsMap t
    → let (found, t') = hashtable_remove t k in
      (found ≡ hashtable_get t k)
      × ((j : ℕ) → hashtable_get t' j ≡ (if k == j then none else hashtable_get t j))
      × IsMap t'
remove-IsMap t k m = (
  remove-get t k,
  λ j. get-remove t k j m.valid (m.distinct (k % t.size)),
  record {
    valid = remove-IsValid t k m.valid;
    loaded = remove-IsLoaded t k m.loaded;
    distinct = remove-HasDistinctKeys t k m.valid m.distinct;
  },
)

-- A client's calls, and what each returns.
pub data Call : Type 0 where
  puts : ℕ → ℕ → Call
  removes gets : ℕ → Call

abbrev cons_reply : Option ℕ → Option (List (Option ℕ)) → Option (List (Option ℕ))
cons_reply found none = none
cons_reply found (some rs) = some (found ∷ rs)

pub run : Hashtable → List Call → Option (List (Option ℕ))
run t [] = some []
run t (puts k x ∷ cs) = elim (hashtable_put 2 t k x) [ none ↦ none | some t' ↦ run t' cs ]
run t (removes k ∷ cs) = let (found, t') = hashtable_remove t k in cons_reply found (run t' cs)
run t (gets k ∷ cs) = cons_reply (hashtable_get t k) (run t cs)

-- The specification: a map from keys to values.
abbrev pub KeyMap : Type 0
KeyMap = ℕ → Option ℕ

abbrev pub update : KeyMap → ℕ → Option ℕ → KeyMap
update m k o j = if k == j then o else m j

unfoldable pub run_map : KeyMap → List Call → List (Option ℕ)
run_map m [] = []
run_map m (puts k x ∷ cs) = run_map (update m k (some x)) cs
run_map m (removes k ∷ cs) = m k ∷ run_map (update m k none) cs
run_map m (gets k ∷ cs) = m k ∷ run_map m cs

-- No call puts a key that the map has.
abbrev pub PutsAbsent : KeyMap → List Call → Type 0
PutsAbsent m [] = Unit
PutsAbsent m (puts k x ∷ cs) = (m k ≡ none) × PutsAbsent (update m k (some x)) cs
PutsAbsent m (removes k ∷ cs) = PutsAbsent (update m k none) cs
PutsAbsent m (gets k ∷ cs) = PutsAbsent m cs

-- No sequence of calls that puts absent keys only tells a table from the map that it stands for,
-- and every `hashtable_put` of it returns.
pub run_refines :
    (cs : List Call) (t : Hashtable) (m : KeyMap)
    → IsMap t
    → ((j : ℕ) → hashtable_get t j ≡ m j)
    → PutsAbsent m cs
    → run t cs ≡ some (run_map m cs)
unfolding run run_map
run_refines [] t m v same p = refl
run_refines (puts k x ∷ cs) t m v same p =
    let (t', e, reads, keeps) = put-IsMap 0 t k x v in
    rw (e, run)
      (run_refines cs t' (update m k (some x)) (keeps (same k ∙ p.0))
        (λ j. reads j ∙ ap (λ o. if k == j then some x else o) (same j)) p.1)
run_refines (removes k ∷ cs) t m v same p =
    let (found, reads, v') = remove-IsMap t k v in
    rw (
      run_refines cs (hashtable_remove t k).1 (update m k none) v'
          (λ j. reads j ∙ ap (λ o. if k == j then none else o) (same j)) p,
      found,
      same k,
    )
run_refines (gets k ∷ cs) t m v same p = rw (run_refines cs t m v same p, same k)

-- `rehash` gives a table of twice the size with as many elements, in which a key that stands twice
-- has the value of its oldest entry.
pub get-rehash :
    (d : ℕ) (t : Hashtable) (k : ℕ)
    → IsValid t
    → IsLoaded t
    → (new : Hashtable) × (rehash (hashtable_put (suc d)) t ≡ some new)
      × (new.size ≡ t.size * 2)
      × (new.elements ≡ t.elements)
      × (hashtable_get new k ≡ lookup_last k (chain_at t (k % t.size)) none)
get-rehash d t k v l =
    (doubled t, rehash-doubled d t v l, size-doubled t, elements-doubled t v, get-doubled t k v)

-- A put of one key that makes the table grow turns the value of another key that stands twice back
-- to its oldest one.
pub put_reverts :
    (d : ℕ) (t : Hashtable) (k j x old : ℕ)
    → IsValid t
    → IsLoaded t
    → is_overloaded t ≡ true
    → j ≢ k
    → lookup_last k (chain_at t (k % t.size)) none ≡ some old
    → (t' : Hashtable) × (hashtable_put (suc (suc d)) t j x ≡ some t')
      × (hashtable_get t' k ≡ some old)
put_reverts d t k j x old v l over ne oldest = (
  prepend_entry (roomy t) j x,
  put-roomy d t j x v l,
  get-prepend (roomy t) j x k (roomy-IsValid t v)
      ∙ rw (==_of_ne j k ne, over) (get-doubled t k v ∙ oldest),
)
