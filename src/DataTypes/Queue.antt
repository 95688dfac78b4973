-- ===== src/DataTypes/Queue.antt =====
-- data_types/queue.c: a queue as a list that grows at the front and shrinks at the back.
pub mod Fifo
mod Examples
use g_os.Common.{List, if◌then◌else◌, ℕ}
use g_os.DataTypes.Dllist.{free_llist, ll_delete_node, ll_empty, ll_last, ll_prepend, new_dllist}
use g_os.DataTypes.Dllist.Nodes.{Cmd, get_val, pure, ◌>>=◌, ◌>>◌}

-- `dc_new_queue`: a `t_queue` is the address of the sentinel of its `t_llist`. The data destructor of
-- the list is left out: the code chooses it by a field of the queue that is not set yet.
pub new_queue : (fresh : ℕ) → Cmd ℕ
new_queue fresh = new_dllist fresh

pub enqueue : (fresh sentinel datum : ℕ) → Cmd (Unit {0})
enqueue fresh sentinel datum = do node ← ll_prepend fresh sentinel datum; pure tt

-- NULL, which is 0, if the queue is empty.
pub dequeue : (sentinel : ℕ) → Cmd ℕ
dequeue sentinel = do
  empty ← ll_empty sentinel
  if empty
      then pure 0
      else do node ← ll_last sentinel; datum ← get_val node; ll_delete_node node; pure datum

pub free_queue : (fuel sentinel : ℕ) → Cmd (List ℕ)
free_queue fuel sentinel = free_llist fuel sentinel
