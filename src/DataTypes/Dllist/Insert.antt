-- ===== src/DataTypes/Dllist/Insert.antt =====
-- `ll_insert_before`, `ll_insert_after`, `ll_append` and `ll_prepend` put one node where they say.
use g_os.Common.{
  ==_refl, Bool-cases, [], append-nil, append_assoc, arith, eq_of_==, false, inl, inr, true, ℕ,
  ◌++◌, ◌<◌, ◌∷◌, ◌≡◌, ◌≢◌, ◌≤◌,
}
use g_os.DataTypes.Dllist.{ll_append, ll_insert_after, ll_insert_before, ll_prepend, node_limit}
use g_os.DataTypes.Dllist.Nodes.{Heap, ok, update}
use g_os.DataTypes.Dllist.Links.{
  Cells, IsList, IsNode, Links, Links-frame, Links-join, Links-split, NoRepeat, NoRepeat-insert,
  NoRepeat-split, has, has-append, live_of_has, prev-mem,
}

-- The heap that `ll_insert_before` leaves.
abbrev pub inserted : Heap → (fresh node val : ℕ) → Heap
inserted h fresh node val =
    let p = h.prev node in
    record {
      live = update h.live fresh true;
      next = update (update h.next fresh node) p fresh;
      prev = update (update h.prev fresh p) node fresh;
      val = update h.val fresh val;
    }

insert_before-inserted :
    (h : Heap) (fresh node v : ℕ)
    → h.live node ≡ true
    → node ≤ node_limit
    → h.live (h.prev node) ≡ true
    → 0 < h.prev node
    → ll_insert_before fresh node v h ≡ ok fresh (inserted h fresh node v)
unfolding ll_insert_before
insert_before-inserted h fresh node v live low plive pos = ground arith

-- The segment before the node gets the new one at its end.
Links-inserted :
    (h : Heap) (fresh v p : ℕ) (xs : Cells) (q : ℕ)
    → Links h p xs q
    → NoRepeat xs
    → has p xs ≡ false
    → has q xs ≡ false
    → has fresh xs ≡ false
    → fresh ≢ p
    → fresh ≢ q
    → 0 < fresh
    → fresh ≤ node_limit
    → Links (inserted h fresh q v) p (xs ++ (fresh, v) ∷ []) q
Links-inserted h fresh v p [] q l u op oq of fp fq pos low =
    (ground arith, ground arith, ground arith, (ground arith, ground arith))
Links-inserted h fresh v p ((a, w) ∷ xs) q l u op oq of fp fq pos low = (
  ground (arith, prev-mem h a xs q l.3, eq_of_== p (h.prev q)),
  ground arith,
  ground arith,
  Links-inserted h fresh v a xs q l.3 u.1 u.0 (ground arith) (ground arith) (ground arith) fq pos
      low,
)

-- An address that `kmalloc` may return: free, not NULL, and below the guard of the list code.
pub record IsFree (h : Heap) (a : ℕ) : Type 0 where
  pub unused : h.live a ≡ false
  pub above : 0 < a
  pub below : a ≤ node_limit

module _ (h : Heap) (s fresh v : ℕ) (free : IsFree h fresh) where
  fresh-outside : (p : ℕ) (xs : Cells) (q : ℕ) → Links h p xs q → has fresh xs ≡ false
  fresh-outside p xs q l = elim (Bool-cases (has fresh xs)) [
    | inl m ↦ absurd (ground (arith, live_of_has h p xs q fresh l m, free.unused))
    | inr out ↦ out
  ]

  -- What precedes a node of the list can be read and written.
  prev-live :
      (xs : Cells) (q : ℕ)
      → IsNode h s (h.val s)
      → Links h s xs q
      → (h.live (h.prev q) ≡ true) × (0 < h.prev q)
  prev-live xs q n l = elim (prev-mem h s xs q l) [
    | inl e ↦ rw e (n.live, n.above)
    | inr m ↦ let (live, above, _) = live_of_has h s xs q (h.prev q) l m in (live, above)
  ]

  fresh_ne : (a : ℕ) → h.live a ≡ true → fresh ≢ a
  fresh_ne a live e = ground (arith, free.unused)

  -- At a free address, `ll_append` puts its value behind all of the list.
  pub append-IsList :
      (xs : Cells)
      → IsList h s xs
      → (h' : Heap) × (ll_append fresh s v h ≡ ok fresh h') × IsList h' s (xs ++ (fresh, v) ∷ [])
  unfolding ll_append
  append-IsList xs is =
      let out = fresh-outside s xs s is.links in
      let (plive, pabove) = prev-live xs s is.sentinel is.links in
      let ne = fresh_ne s is.sentinel.live in
      (
        inserted h fresh s v,
        insert_before-inserted h fresh s v is.sentinel.live is.sentinel.below plive pabove,
        record {
          sentinel = ground (arith, is.sentinel);
          links =
              Links-inserted h fresh v s xs s is.links is.distinct is.outside is.outside out ne ne
                free.above free.below;
          outside = ground (arith, has-append s xs ((fresh, v) ∷ []), is.outside);
          distinct = NoRepeat-insert xs [] fresh v (rw append-nil is.distinct) (rw append-nil out);
        },
      )

  -- The nodes after the insertion are as they were.
  Links-after :
      (ys : Cells) (n : ℕ) (zs : Cells)
      → Links h s ys n
      → Links h n zs s
      → n ≢ s
      → has s zs ≡ false
      → has n ys ≡ false
      → has n zs ≡ false
      → ((a : ℕ) → has a ys ≡ true → has a zs ≡ false)
      → h.live n ≡ true
      → h.live s ≡ true
      → Links (inserted h fresh n v) n zs s
  Links-after ys n zs before after ns os oy oz apart nlive slive =
      let out = fresh-outside n zs s after in
      Links-frame h (inserted h fresh n v) n zs s after
        (λ a m. ground (
          arith,
          prev-mem h s ys n before,
          eq_of_== a n,
          eq_of_== fresh a,
          eq_of_== (h.prev n) a,
          apart (h.prev n),
          fresh_ne n nlive,
        ))
        (λ a m. ground (arith, eq_of_== a s, eq_of_== n a, eq_of_== fresh a, fresh_ne s slive))
        (λ a m. ground (arith, eq_of_== fresh a))

  -- At a free address, `ll_insert_before` puts its value right before the node that it is given.
  pub insert_before-IsList :
      (ys : Cells) (n w : ℕ) (zs : Cells)
      → IsList h s (ys ++ (n, w) ∷ zs)
      → (h' : Heap) × (ll_insert_before fresh n v h ≡ ok fresh h')
        × IsList h' s (ys ++ (fresh, v) ∷ (n, w) ∷ zs)
  insert_before-IsList ys n w zs is =
      let (before, here, after) = Links-split h s ys n w zs s is.links in
      let (whole, uy, uz, ny, nz, apart) = NoRepeat-split ys n w zs is.distinct in
      let so = has-append s ys ((n, w) ∷ zs) in
      let oy = fresh-outside s ys n before in
      let (plive, pabove) = prev-live ys n is.sentinel before in
      let h' = inserted h fresh n v in
      let ns : n ≢ s = λ e. ground (arith, so, is.outside, ==_refl s) in
      let fn = fresh_ne n here.live in
      let fs = fresh_ne s is.sentinel.live in
      let left =
        Links-inserted h fresh v s ys n before uy (ground (arith, so, is.outside)) ny oy fs fn
          free.above free.below in
      let right =
        Links-after ys n zs before after ns (ground (arith, so, is.outside)) ny nz apart here.live
          is.sentinel.live in
      let node : IsNode h' n w = ground (arith, here) in
      (
        h',
        insert_before-inserted h fresh n v here.live here.below plive pabove,
        record {
          sentinel = ground (arith, is.sentinel);
          links =
              rw append_assoc at (Links-join h' s (ys ++ (fresh, v) ∷ []) n w zs s left node right);
          outside =
              ground (
                arith,
                so,
                has-append s ys ((fresh, v) ∷ (n, w) ∷ zs),
                is.outside,
                eq_of_== s fresh,
              );
          distinct =
              NoRepeat-insert ys ((n, w) ∷ zs) fresh v is.distinct
                (fresh-outside s (ys ++ (n, w) ∷ zs) s is.links);
        },
      )

  -- At a free address, `ll_prepend` puts its value in front of all of the list.
  pub prepend-IsList :
      (xs : Cells)
      → IsList h s xs
      → (h' : Heap) × (ll_prepend fresh s v h ≡ ok fresh h') × IsList h' s ((fresh, v) ∷ xs)
  unfolding ll_prepend ll_append
  prepend-IsList [] is =
      let (h', e, is') = append-IsList [] is in (h', rw (is.sentinel.live, is.links.0) e, is')
  prepend-IsList ((n, w) ∷ zs) is =
      let (h', e, is') = insert_before-IsList [] n w zs is in
      (h', rw (is.sentinel.live, is.links.0) e, is')

  -- At a free address, `ll_insert_after` puts its value right behind the node that it is given.
  pub insert_after-IsList :
      (ys : Cells) (n w : ℕ) (zs : Cells)
      → IsList h s (ys ++ (n, w) ∷ zs)
      → (h' : Heap) × (ll_insert_after fresh n v h ≡ ok fresh h')
        × IsList h' s (ys ++ (n, w) ∷ (fresh, v) ∷ zs)
  unfolding ll_insert_after ll_append
  insert_after-IsList ys n w [] is =
      let (_, here, after) = Links-split h s ys n w [] s is.links in
      let (h', e, is') = append-IsList (ys ++ (n, w) ∷ []) is in
      (h', rw (here.live, after.0) e, rw append_assoc at is')
  insert_after-IsList ys n w ((m, u) ∷ zs) is =
      let (_, here, after) = Links-split h s ys n w ((m, u) ∷ zs) s is.links in
      let (h', e, is') = insert_before-IsList (ys ++ (n, w) ∷ []) m u zs (rw append_assoc is) in
      (h', rw (here.live, after.0) e, rw append_assoc at is')
