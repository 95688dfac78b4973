-- ===== src/DataTypes/Queue/Examples.antt =====
-- A queue in which 7 waits before 8.
use g_os.Common.{[], arith, false, if◌then◌else◌, refl, true, ℕ, ◌<◌, ◌==◌, ◌||◌, ◌∷◌, ◌≡◌, ◌≤◌}
use g_os.DataTypes.Dllist.{node_limit}
use g_os.DataTypes.Dllist.Nodes.{Heap, ok}
use g_os.DataTypes.Dllist.Links.{IsNode}
use g_os.DataTypes.Dllist.Insert.{}
use g_os.DataTypes.Queue.{dequeue, new_queue}
use g_os.DataTypes.Queue.Fifo.{IsQueue, dequeue-IsQueue, new-IsQueue}

abbrev no_nodes : Heap
no_nodes = record { live = λ a. false; next = λ a. 0; prev = λ a. 0; val = λ a. 0 }

-- The sentinel at 10, a node at 20 with 7, the older, and one at 30 with 8.
abbrev two_heap : Heap
two_heap = record {
  live = λ a. (a == 10) || (a == 20) || (a == 30);
  next = λ a. if a == 10 then 30 else if a == 30 then 20 else 10;
  prev = λ a. if a == 10 then 20 else if a == 20 then 30 else 10;
  val = λ a. if a == 20 then 7 else if a == 30 then 8 else 0;
}

abbrev node_at :
    (a v : ℕ)
    → two_heap.live a ≡ true
    → two_heap.val a ≡ v
    → 0 < a
    → a ≤ node_limit
    → IsNode two_heap a v
node_at a v live holds above below = record {
  live = live;
  holds = holds;
  above = above;
  below = below;
}

abbrev two-IsQueue : IsQueue two_heap 10 (7 ∷ 8 ∷ [])
two-IsQueue = record {
  cells = (30, 8) ∷ (20, 7) ∷ [];
  ring = record {
    sentinel = node_at 10 0 refl refl (omega arith) (omega arith);
    links = (
      refl,
      refl,
      node_at 30 8 refl refl (omega arith) (omega arith),
      (refl, refl, node_at 20 7 refl refl (omega arith) (omega arith), (refl, refl)),
    );
    outside = refl;
    distinct = (refl, (refl, tt));
  };
  order = refl;
}

new-IsQueue_example : (h : Heap) × (new_queue 10 no_nodes ≡ ok 10 h) × IsQueue h 10 []
new-IsQueue_example =
    new-IsQueue no_nodes 10 (record { unused = refl; above = omega arith; below = omega arith })

dequeue-IsQueue_example : (h : Heap) × (dequeue 10 two_heap ≡ ok 7 h) × IsQueue h 10 (8 ∷ [])
dequeue-IsQueue_example = dequeue-IsQueue two_heap 10 (7 ∷ 8 ∷ []) two-IsQueue
