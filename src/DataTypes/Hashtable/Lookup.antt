-- ===== src/DataTypes/Hashtable/Lookup.antt =====
-- What `hashtable_get` reads after an insertion and after `hashtable_remove`.
use g_os.Common.{
  ==_of_ne, ==_refl, [], ap, arith, eq_of_==, get_or, get_or-replicate, get_or-set_ne,
  get_or-set_self, if◌then◌else◌, none, refl, set, some, ℕ, ℕ_discrete, ◌%◌, ◌==◌, ◌∷◌, ◌≡◌,
}
use g_os.DataTypes.Hashtable.{
  Chain, Hashtable, datum, hashtable_get, hashtable_init, hashtable_remove, hashtable_search,
  prepend_entry,
}
use g_os.DataTypes.Hashtable.Entries.{erase, get-lookup, lookup, lookup-erase_ne, search_chain-true}
use g_os.DataTypes.Hashtable.Invariant.{Distinct, IsLoaded, IsValid, chain_at, index-lt}

-- The chain read for the key `j` when the bucket of `k` has been replaced by `c`.
chain-set :
    (t : Hashtable) (k j : ℕ) (c : Chain)
    → IsValid t
    → get_or (set t.bucket (k % t.size) c) (j % t.size) []
      ≡ (if k % t.size == j % t.size then c else chain_at t (j % t.size))
chain-set t k j c v = elim (ℕ_discrete (k % t.size) (j % t.size)) [
  | yes e ↦
      rw (← e, ==_refl (k % t.size)) (get_or-set_self t.bucket (k % t.size) c [] (index-lt t k v))
  | no ne ↦ rw (==_of_ne _ _ ne) (get_or-set_ne t.bucket (k % t.size) (j % t.size) c [] ne)
]

pub get-prepend :
    (t : Hashtable) (k x j : ℕ)
    → IsValid t
    → hashtable_get (prepend_entry t k x) j ≡ (if k == j then some x else hashtable_get t j)
unfolding prepend_entry
get-prepend t k x j v =
    rw
      (
        get-lookup (prepend_entry t k x) j,
        get-lookup t j,
        chain-set t k j (datum k x ∷ chain_at t (k % t.size)) v,
      )
      (elim (ℕ_discrete (k % t.size) (j % t.size)) [
        | yes e ↦ rw (e, ==_refl (j % t.size))
        | no ne ↦ rw (==_of_ne _ _ ne, ==_of_ne k j λ e. ne (ap (λ m. m % t.size) e))
      ])

lookup-erase_self : (k : ℕ) (c : Chain) → Distinct c → lookup k (erase k c) ≡ none
lookup-erase_self k [] d = refl
lookup-erase_self k (b ∷ bs) d = ground (arith, eq_of_== b.key k, lookup-erase_self k bs d.1)

pub remove-bucket :
    (t : Hashtable) (k : ℕ)
    → (hashtable_remove t k).1.bucket
      ≡ set t.bucket (k % t.size) (erase k (chain_at t (k % t.size)))
unfolding hashtable_remove hashtable_search
remove-bucket t k = rw (search_chain-true (chain_at t (k % t.size)) k)

pub remove-size : (t : Hashtable) (k : ℕ) → (hashtable_remove t k).1.size ≡ t.size
unfolding hashtable_remove hashtable_search
remove-size t k = refl

pub get-remove :
    (t : Hashtable) (k j : ℕ)
    → IsValid t
    → Distinct (chain_at t (k % t.size))
    → hashtable_get (hashtable_remove t k).1 j ≡ (if k == j then none else hashtable_get t j)
get-remove t k j v d =
    rw
      (
        get-lookup (hashtable_remove t k).1 j,
        get-lookup t j,
        remove-bucket,
        remove-size,
        chain-set t k j (erase k (chain_at t (k % t.size))) v,
      )
      (elim (ℕ_discrete k j) [
        | yes e ↦ rw (← e, ==_refl (k % t.size), ==_refl k) (lookup-erase_self k _ d)
        | no ne ↦ elim (ℕ_discrete (k % t.size) (j % t.size)) [
          | yes e ↦
              rw (e, ==_refl (j % t.size), ==_of_ne k j ne)
                (lookup-erase_ne j k (chain_at t (j % t.size)) (==_of_ne k j ne))
          | no me ↦ rw (==_of_ne _ _ me, ==_of_ne k j ne)
        ]
      ])

-- The value that `hashtable_remove` returns is the one that `hashtable_get` reads.
pub remove-get : (t : Hashtable) (k : ℕ) → (hashtable_remove t k).0 ≡ hashtable_get t k
unfolding hashtable_remove hashtable_search
remove-get t k = rw (get-lookup, search_chain-true)

pub get-init : (n j : ℕ) → hashtable_get (hashtable_init n) j ≡ none
unfolding hashtable_init
get-init n j = rw (get-lookup, get_or-replicate {A = Chain} n (j % n) [])

pub remove-IsLoaded : (t : Hashtable) (k : ℕ) → IsLoaded t → IsLoaded (hashtable_remove t k).1
unfolding hashtable_remove hashtable_search
remove-IsLoaded t k l = ground arith
