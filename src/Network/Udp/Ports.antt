-- ===== src/Network/Udp/Ports.antt =====
-- `udp_free_port_search` finds a port that is free, and reserves it.
use g_os.Common.{
  ==_of_ne, ==_refl, Option-cases, arith, if◌then◌else◌, inl, inr, ltb, none, refl, some, suc, sym,
  zero, ℕ, ◌+◌, ◌∙◌, ◌≡◌, ◌≢◌, ◌≤◌, ◌⊎◌,
}
use g_os.DataTypes.Hashtable.{Hashtable, hashtable_get}
use g_os.DataTypes.Hashtable.Map.{IsMap, put-IsMap}
use g_os.Network.Udp.{search_port, udp_free_port_search}

-- `port` is what the search gives on the map `m`, which it leaves as `t`.
pub record IsReserved (m t : Hashtable) (port : ℕ) : Type 0 where
  pub low : 32767 ≤ port
  pub high : port ≤ 65535
  pub was_free : hashtable_get m port ≡ none
  pub reserved : hashtable_get t port ≡ some 1
  pub others : (j : ℕ) → j ≢ port → hashtable_get t j ≡ hashtable_get m j
  pub still : IsMap t

search_port-IsReserved :
    (r index : ℕ) (m : Hashtable)
    → IsMap m
    → 32767 ≤ index
    → index ≤ 65535
    → (port next : ℕ) × (t : Hashtable) × (search_port r index m ≡ some (port, next, t))
      × (((port ≡ 0) × (t ≡ m)) ⊎ ((port ≡ next) × IsReserved m t port))
unfolding search_port
search_port-IsReserved zero index m is low high = (0, index, m, refl, inl (refl, refl))
search_port-IsReserved (suc r) index m is low high =
    let next = if ltb 65535 (index + 1) then 32767 else index + 1 in
    let above : 32767 ≤ next = ground arith in
    let below : next ≤ 65535 = ground arith in
    elim (Option-cases (hashtable_get m next)) [
      | inl free ↦
          let (t, put, reads, keeps) = put-IsMap 0 m next 1 is in
          (
            next,
            next,
            t,
            rw (free, put, search_port) refl,
            inr (
              refl,
              record {
                low = above;
                high = below;
                was_free = free;
                reserved = reads next ∙ rw (==_refl next) refl;
                others = λ j ne. reads j ∙ rw (==_of_ne next j (λ e. ne (sym e))) refl;
                still = keeps free;
              },
            ),
          )
      | inr (p, taken) ↦
          let (port, last, t, e, found) = search_port-IsReserved r next m is above below in
          (port, last, t, rw (taken, search_port) e, found)
    ]

-- From an index that the code can reach, the search always ends: it returns 0 and reserves nothing,
-- or it returns a port from 32767 to 65535 that was free and is now the only one added to the map.
pub search-IsReserved :
    (index : ℕ) (m : Hashtable)
    → IsMap m
    → 32767 ≤ index
    → index ≤ 65535
    → (port next : ℕ) × (t : Hashtable) × (udp_free_port_search index m ≡ some (port, next, t))
      × (((port ≡ 0) × (t ≡ m)) ⊎ ((port ≡ next) × IsReserved m t port))
unfolding udp_free_port_search
search-IsReserved index m is low high = search_port-IsReserved 32767 index m is low high
