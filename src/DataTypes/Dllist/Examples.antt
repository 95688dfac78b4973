-- ===== src/DataTypes/Dllist/Examples.antt =====
-- A list of two nodes, and the operations on it.
use g_os.Common.{[], arith, false, if◌then◌else◌, refl, true, ℕ, ◌<◌, ◌==◌, ◌||◌, ◌∷◌, ◌≡◌, ◌≤◌}
use g_os.DataTypes.Dllist.{
  ll_delete_node, ll_insert_after, ll_insert_before, ll_prepend, new_dllist, node_limit,
}
use g_os.DataTypes.Dllist.Nodes.{Heap, ok}
use g_os.DataTypes.Dllist.Links.{Cells, IsList, IsNode}
use g_os.DataTypes.Dllist.Insert.{IsFree, insert_after-IsList, insert_before-IsList, prepend-IsList}
use g_os.DataTypes.Dllist.Delete.{delete-IsList}
use g_os.DataTypes.Dllist.Walk.{new-IsList}

-- The sentinel at 10, and nodes at 20 and 30.
abbrev pair_heap : Heap
pair_heap = record {
  live = λ a. (a == 10) || (a == 20) || (a == 30);
  next = λ a. if a == 10 then 20 else if a == 20 then 30 else 10;
  prev = λ a. if a == 10 then 30 else if a == 20 then 10 else 20;
  val = λ a. if a == 20 then 7 else if a == 30 then 8 else 0;
}

abbrev pair_cells : Cells
pair_cells = (20, 7) ∷ (30, 8) ∷ []

abbrev node_at :
    (a v : ℕ)
    → pair_heap.live a ≡ true
    → pair_heap.val a ≡ v
    → 0 < a
    → a ≤ node_limit
    → IsNode pair_heap a v
node_at a v live holds above below = record {
  live = live;
  holds = holds;
  above = above;
  below = below;
}

abbrev pair-IsList : IsList pair_heap 10 pair_cells
pair-IsList = record {
  sentinel = node_at 10 0 refl refl (omega arith) (omega arith);
  links = (
    refl,
    refl,
    node_at 20 7 refl refl (omega arith) (omega arith),
    (refl, refl, node_at 30 8 refl refl (omega arith) (omega arith), (refl, refl)),
  );
  outside = refl;
  distinct = (refl, (refl, tt));
}

abbrev free_40 : IsFree pair_heap 40
free_40 = record { unused = refl; above = omega arith; below = omega arith }

new-IsList_example : (h : Heap) × (new_dllist 40 pair_heap ≡ ok 40 h) × IsList h 40 []
new-IsList_example = new-IsList pair_heap 40 free_40

prepend-IsList_example :
    (h : Heap) × (ll_prepend 40 10 9 pair_heap ≡ ok 40 h)
    × IsList h 10 ((40, 9) ∷ (20, 7) ∷ (30, 8) ∷ [])
prepend-IsList_example = prepend-IsList pair_heap 10 40 9 free_40 pair_cells pair-IsList

insert_before-IsList_example :
    (h : Heap) × (ll_insert_before 40 30 9 pair_heap ≡ ok 40 h)
    × IsList h 10 ((20, 7) ∷ (40, 9) ∷ (30, 8) ∷ [])
insert_before-IsList_example =
    insert_before-IsList pair_heap 10 40 9 free_40 ((20, 7) ∷ []) 30 8 [] pair-IsList

insert_after-IsList_example :
    (h : Heap) × (ll_insert_after 40 20 9 pair_heap ≡ ok 40 h)
    × IsList h 10 ((20, 7) ∷ (40, 9) ∷ (30, 8) ∷ [])
insert_after-IsList_example =
    insert_after-IsList pair_heap 10 40 9 free_40 [] 20 7 ((30, 8) ∷ []) pair-IsList

delete-IsList_example :
    (h : Heap) × (ll_delete_node 20 pair_heap ≡ ok tt h)
    × IsList h 10 ((30, 8) ∷ [])
    × (h.live 20 ≡ false)
delete-IsList_example = delete-IsList pair_heap 10 [] 20 7 ((30, 8) ∷ []) pair-IsList
