-- ===== src/DataTypes/Hashtable/Examples.antt =====
-- Small tables: one with a key twice that is about to grow, and calls on a fresh one.
use g_os.Common.{List, [], arith, get_or-replicate, none, refl, some, suc, zero, ℕ, ◌∷◌, ◌≡◌}
use g_os.DataTypes.Hashtable.{
  Chain, Hashtable, datum, hashtable_get, hashtable_init, hashtable_put, is_overloaded, rehash,
}
use g_os.DataTypes.Hashtable.Entries.{}
use g_os.DataTypes.Hashtable.Invariant.{HasDistinctKeys, IsValid, KeysAt, chain_at}
use g_os.DataTypes.Hashtable.Put.{}
use g_os.DataTypes.Hashtable.Map.{
  Call, IsMap, get-rehash, gets, init-IsMap, put_reverts, puts, removes, run, run_map, run_refines,
}

abbrev fresh_table : Hashtable
fresh_table = hashtable_init 2

abbrev fresh-IsMap : IsMap fresh_table
fresh-IsMap = (init-IsMap 2 0 (omega arith)).0

init-IsMap_example : IsMap (hashtable_init 2) × (hashtable_get (hashtable_init 2) 5 ≡ none)
init-IsMap_example = init-IsMap 2 5 (omega arith)

-- Key 0 stands twice, with 2 before its older 1.
abbrev full_table : Hashtable
full_table = record {
  size = 4;
  elements = 3;
  bucket = (datum 0 2 ∷ datum 0 1 ∷ []) ∷ (datum 5 9 ∷ []) ∷ [] ∷ [] ∷ [];
}

full-placed : (i : ℕ) → KeysAt 4 i (chain_at full_table i)
full-placed zero = (refl, (refl, tt))
full-placed (suc zero) = (refl, tt)
full-placed (suc (suc i)) = rw (get_or-replicate {A = Chain} 2 i []) tt

abbrev full-IsValid : IsValid full_table
full-IsValid = record { positive = omega arith; sized = refl; counted = refl; placed = full-placed }

put_reverts_example :
    (t : Hashtable) × (hashtable_put 2 full_table 3 4 ≡ some t) × (hashtable_get t 0 ≡ some 1)
unfolding is_overloaded
put_reverts_example =
    put_reverts 0 full_table 0 3 4 1 full-IsValid (omega arith) refl (omega arith) refl

get-rehash_example :
    (new : Hashtable) × (rehash (hashtable_put 1) full_table ≡ some new)
    × (new.size ≡ 8)
    × (new.elements ≡ 3)
    × (hashtable_get new 0 ≡ some 1)
get-rehash_example = get-rehash 0 full_table 0 full-IsValid (omega arith)

abbrev one_table : Hashtable
one_table = record { size = 2; elements = 1; bucket = [] ∷ (datum 1 5 ∷ []) ∷ [] }

one-placed : (i : ℕ) → KeysAt 2 i (chain_at one_table i)
one-placed zero = tt
one-placed (suc zero) = (refl, tt)
one-placed (suc (suc i)) = tt

one-HasDistinctKeys : HasDistinctKeys one_table
one-HasDistinctKeys zero = tt
one-HasDistinctKeys (suc zero) = (refl, tt)
one-HasDistinctKeys (suc (suc i)) = tt

abbrev calls : List Call
calls = puts 1 5 ∷ puts 3 6 ∷ gets 1 ∷ removes 3 ∷ gets 3 ∷ puts 3 7 ∷ gets 3 ∷ []

run_refines_example : run fresh_table calls ≡ some (some 5 ∷ some 6 ∷ none ∷ some 7 ∷ [])
unfolding run_map
run_refines_example =
    run_refines calls fresh_table (λ _. none) fresh-IsMap (λ j. (init-IsMap 2 j (omega arith)).1)
      (refl, (refl, (refl, tt)))
