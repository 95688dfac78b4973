-- ===== src/DataTypes/Dllist/Delete.antt =====
-- `ll_delete_node` unlinks and frees the one node, and the ends that `ll_first`, `ll_last` and
-- `ll_empty` read.
use g_os.Common.{==_refl, [], arith, eq_of_==, false, true, ℕ, ◌++◌, ◌∷◌, ◌≡◌}
use g_os.DataTypes.Dllist.{ll_delete_node}
use g_os.DataTypes.Dllist.Nodes.{Heap, ok, update}
use g_os.DataTypes.Dllist.Links.{
  Cells, IsList, Links, Links-frame, Links-split, NoRepeat, NoRepeat-split, has, has-append,
  live_of_has, next-mem, prev-mem,
}

-- The heap that `ll_delete_node` leaves.
abbrev pub deleted : Heap → ℕ → Heap
deleted h node = record {
  live = update h.live node false;
  next = update h.next (h.prev node) (h.next node);
  prev = update h.prev (h.next node) (h.prev node);
  val = h.val;
}

delete_node-deleted :
    (h : Heap) (n : ℕ)
    → h.live n ≡ true
    → h.live (h.prev n) ≡ true
    → h.live (h.next n) ≡ true
    → ll_delete_node n h ≡ ok tt (deleted h n)
unfolding ll_delete_node
delete_node-deleted h n live plive nlive = ground arith

-- What follows the node is linked to what preceded it.
Links-deleted_here :
    (h : Heap) (p n : ℕ) (zs : Cells) (q : ℕ)
    → h.prev n ≡ p
    → Links h n zs q
    → NoRepeat zs
    → has p zs ≡ false
    → has n zs ≡ false
    → has q zs ≡ false
    → Links (deleted h n) p zs q
Links-deleted_here h p n [] q e l u op on oq = (ground arith, ground arith)
Links-deleted_here h p n ((a, w) ∷ zs) q e l u op on oq = (
  ground arith,
  ground arith,
  ground arith,
  Links-frame h (deleted h n) a zs q l.3 (λ b m. ground (arith, eq_of_== b a, eq_of_== p b))
      (λ b m. ground (arith, eq_of_== b q, eq_of_== a b)) (λ b m. ground (arith, eq_of_== n b)),
)

Links-deleted :
    (h : Heap) (p : ℕ) (ys : Cells) (n w : ℕ) (zs : Cells) (q : ℕ)
    → Links h p (ys ++ (n, w) ∷ zs) q
    → NoRepeat (ys ++ (n, w) ∷ zs)
    → has p (ys ++ (n, w) ∷ zs) ≡ false
    → has q (ys ++ (n, w) ∷ zs) ≡ false
    → Links (deleted h n) p (ys ++ zs) q
Links-deleted h p [] n w zs q l u op oq =
    Links-deleted_here h p n zs q l.1 l.3 u.1 (ground arith) u.0 (ground arith)
Links-deleted h p ((a, v) ∷ ys) n w zs q l u op oq =
    let (before, here, after) = Links-split h a ys n w zs q l.3 in
    let ap' = has-append p ys ((n, w) ∷ zs) in
    let aa = has-append a ys ((n, w) ∷ zs) in
    (
      ground (arith, prev-mem h a ys n before, eq_of_== p (h.prev n)),
      ground (arith, next-mem h n zs q after, eq_of_== a (h.next n)),
      ground arith,
      Links-deleted h a ys n w zs q l.3 u.1 u.0 (ground arith),
    )

-- Deleting a node of the list leaves the list of the others, and frees the node.
pub delete-IsList :
    (h : Heap) (s : ℕ) (ys : Cells) (n w : ℕ) (zs : Cells)
    → IsList h s (ys ++ (n, w) ∷ zs)
    → (h' : Heap) × (ll_delete_node n h ≡ ok tt h') × IsList h' s (ys ++ zs) × (h'.live n ≡ false)
delete-IsList h s ys n w zs is =
    let (before, here, after) = Links-split h s ys n w zs s is.links in
    let (whole, uy, uz, ny, nz, apart) = NoRepeat-split ys n w zs is.distinct in
    let so = has-append s ys ((n, w) ∷ zs) in
    let plive : h.live (h.prev n) ≡ true =
      ground
        (arith, prev-mem h s ys n before, live_of_has h s ys n (h.prev n) before, is.sentinel) in
    let nlive : h.live (h.next n) ≡ true =
      ground (arith, next-mem h n zs s after, live_of_has h n zs s (h.next n) after, is.sentinel) in
    (
      deleted h n,
      delete_node-deleted h n here.live plive nlive,
      record {
        sentinel = ground (arith, is.sentinel, so, is.outside, eq_of_== n s, ==_refl s);
        links = Links-deleted h s ys n w zs s is.links is.distinct is.outside is.outside;
        outside = ground (arith, so, is.outside, has-append s ys zs);
        distinct = whole;
      },
      ground (arith, ==_refl n),
    )
