-- ===== src/DataTypes/Dllist/Walk.antt =====
-- `new_dllist`, and the loops `ll_size` and `free_llist` with the fuel that they need.
use g_os.Common.{
  ==_refl, [], ap, arith, eq_of_==, false, length, refl, suc, true, zero, ℕ, ◌+◌, ◌<◌, ◌==◌, ◌||◌,
  ◌∙◌, ◌∷◌, ◌≡◌,
}
use g_os.DataTypes.Dllist.{
  free_llist, free_loop, ll_delete_node, ll_empty, ll_size, new_dllist, size_loop,
}
use g_os.DataTypes.Dllist.Nodes.{Heap, ok, update}
use g_os.DataTypes.Dllist.Links.{Cells, IsList, IsNode, Links, has, values}
use g_os.DataTypes.Dllist.Insert.{IsFree}
use g_os.DataTypes.Dllist.Delete.{delete-IsList}

-- A new list has a live sentinel and no node.
pub new-IsList :
    (h : Heap) (fresh : ℕ)
    → IsFree h fresh
    → (h' : Heap) × (new_dllist fresh h ≡ ok fresh h') × IsList h' fresh []
unfolding new_dllist
new-IsList h fresh free = (
  record {
    live = update h.live fresh true;
    next = update h.next fresh fresh;
    prev = update h.prev fresh fresh;
    val = update h.val fresh 0;
  },
  refl,
  record {
    sentinel = ground (arith, free.above, free.below);
    links = (ground arith, ground arith);
    outside = refl;
    distinct = tt;
  },
)

size_loop-length :
    (f s p size : ℕ) (xs : Cells) (h : Heap)
    → Links h p xs s
    → has s xs ≡ false
    → length xs < f
    → size_loop f s (h.next p) size h ≡ ok (size + length xs) h
unfolding size_loop
size_loop-length zero s p size xs h l o fuel = elim fuel [ ]
size_loop-length (suc f) s p size [] h l o fuel =
    rw (l.0, ==_refl s) (ap (λ n. ok n h) (omega arith))
size_loop-length (suc f) s p size ((a, v) ∷ xs) h l o fuel =
    let ne : (a == s) ≡ false = ground (arith, eq_of_== a s, ==_refl s) in
    rw (l.0, ne, l.2.live)
      (size_loop-length f s a (size + 1) xs h l.3 (ground arith) (omega arith)
        ∙ ap (λ n. ok n h) (omega arith))

-- With more fuel than nodes `ll_size` returns their number and changes nothing.
pub size-length :
    (f s : ℕ) (xs : Cells) (h : Heap)
    → IsList h s xs
    → length xs < f
    → ll_size f s h ≡ ok (length xs) h
unfolding ll_size
size-length f s xs h is fuel =
    rw is.sentinel.live
      (size_loop-length f s s 0 xs h is.links is.outside fuel ∙ ap (λ n. ok n h) (omega arith))

-- `ll_empty` tells whether there is a node.
pub empty-cells :
    (s : ℕ) (xs : Cells) (h : Heap) → IsList h s xs → ll_empty s h ≡ ok (length xs == 0) h
unfolding ll_empty
empty-cells s [] h is = rw (is.sentinel.live, is.links.0, ==_refl s)
empty-cells s ((a, v) ∷ xs) h is =
    let ne : (a == s) ≡ false = ground (arith, is.outside, eq_of_== a s, ==_refl s) in
    rw (is.sentinel.live, is.links.0, ne) (ap (λ b. ok b h) (ground arith))

delete_kept :
    (h h' : Heap) (n b : ℕ) → ll_delete_node n h ≡ ok tt h' → h.live b ≡ false → h'.live b ≡ false
unfolding ll_delete_node
delete_kept h h' n b e d = ground arith

-- What `free_loop` leaves: every node given back, and nothing made live.
record Freed (xs : Cells) (s : ℕ) (h h' : Heap) : Type 0 where
  emptied : IsList h' s []
  dead : (a : ℕ) → has a xs ≡ true → h'.live a ≡ false
  kept : (a : ℕ) → h.live a ≡ false → h'.live a ≡ false

free_loop-Freed :
    (f s : ℕ) (xs : Cells) (h : Heap)
    → IsList h s xs
    → length xs < f
    → (h' : Heap) × (free_loop f s h ≡ ok (values xs) h') × Freed xs s h h'
unfolding free_loop
free_loop-Freed zero s xs h is fuel = elim fuel [ ]
free_loop-Freed (suc f) s [] h is fuel =
    (h, rw (empty-cells s [] h is), record { emptied = is; dead = λ a m. cc; kept = λ a d. d })
free_loop-Freed (suc f) s ((a, v) ∷ xs) h is fuel =
    let node : IsNode h a v = is.links.2 in
    let some_node : (length ((a, v) ∷ xs) == 0) ≡ false = ground arith in
    let (h₁, e₁, is₁, gone) = delete-IsList h s [] a v xs is in
    let (h', e, freed) = free_loop-Freed f s xs h₁ is₁ (omega arith) in
    (
      h',
      rw (
        empty-cells s ((a, v) ∷ xs) h is,
        some_node,
        is.sentinel.live,
        is.links.0,
        node.live,
        node.holds,
        e₁,
        e,
      ),
      record {
        emptied = freed.emptied;
        dead = λ b m. ground (arith, freed.dead b, freed.kept b, eq_of_== b a);
        kept = λ b d. freed.kept b (delete_kept h h₁ a b e₁ d);
      },
    )

-- With more fuel than nodes `free_llist` ends, hands every value to the destructor once, from the
-- first to the last, and gives back every node and the sentinel.
pub free_llist-values :
    (f s : ℕ) (xs : Cells) (h : Heap)
    → IsList h s xs
    → length xs < f
    → (h' : Heap) × (free_llist f s h ≡ ok (values xs) h')
      × ((a : ℕ) → ((a == s) || has a xs) ≡ true → h'.live a ≡ false)
unfolding free_llist
free_llist-values f s xs h is fuel =
    let (h₁, e, freed) = free_loop-Freed f s xs h is fuel in
    (
      record h₁ { live = update h₁.live s false },
      rw (e, freed.emptied.sentinel.live),
      λ a m. ground (arith, freed.dead a, eq_of_== a s, ==_refl s),
    )
