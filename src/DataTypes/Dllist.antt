-- ===== src/DataTypes/Dllist.antt =====
-- data_types/dllist.c: circular doubly linked lists with a sentinel, over an explicit heap of nodes.
-- The address of a fresh node, which `kmalloc` chooses, is an argument.
pub mod Nodes
pub mod Links
pub mod Insert
pub mod Delete
pub mod Walk
mod Examples
use g_os.Common.{Bool, List, [], if◌then◌else◌, ltb, suc, zero, ℕ, ◌+◌, ◌==◌, ◌∷◌}
use Nodes.{
  Heap, Cmd, ok, panics, hangs, pure, ◌>>=◌, ◌>>◌, get_next, get_prev, get_val, set_next, set_prev,
  store, kfree,
}

-- `node > 0xf0000000` is the guard of `ll_insert_before` against wild pointers.
abbrev pub node_limit : ℕ
node_limit = 0xf000_0000

-- `dc_new_dllist`: a sentinel that points to itself. A `t_llist` is the address of its sentinel.
unfoldable pub new_dllist : (fresh : ℕ) → Cmd ℕ
new_dllist fresh = do store fresh fresh fresh 0; pure fresh

unfoldable pub ll_insert_before : (fresh node val : ℕ) → Cmd ℕ
ll_insert_before fresh node val = if ltb node_limit node then (λ _. panics) else do
  prev_node ← get_prev node
  if prev_node == 0 then (λ _. panics) else do
    store fresh node prev_node val
    set_prev node fresh
    set_next prev_node fresh
    pure fresh

unfoldable pub ll_insert_after : (fresh node val : ℕ) → Cmd ℕ
ll_insert_after fresh node val = do n ← get_next node; ll_insert_before fresh n val

unfoldable pub ll_append : (fresh sentinel val : ℕ) → Cmd ℕ
ll_append fresh sentinel val = ll_insert_before fresh sentinel val

unfoldable pub ll_prepend : (fresh sentinel val : ℕ) → Cmd ℕ
ll_prepend fresh sentinel val = do first ← get_next sentinel; ll_insert_before fresh first val

unfoldable pub ll_delete_node : (node : ℕ) → Cmd (Unit {0})
ll_delete_node node = do
  prev_node ← get_prev node
  next_node ← get_next node
  set_next prev_node next_node
  set_prev next_node prev_node
  kfree node

unfoldable pub ll_empty : (sentinel : ℕ) → Cmd Bool
ll_empty sentinel = do first ← get_next sentinel; pure (first == sentinel)

unfoldable pub ll_first : (sentinel : ℕ) → Cmd ℕ
ll_first sentinel = get_next sentinel

unfoldable pub ll_last : (sentinel : ℕ) → Cmd ℕ
ll_last sentinel = get_prev sentinel

-- The loop of `ll_size`, with fuel for the rounds.
size_loop : (fuel sentinel next size : ℕ) → Cmd ℕ
size_loop zero sentinel next size = λ _. hangs
size_loop (suc f) sentinel next size =
    let rest = (do n ← get_next next; size_loop f sentinel n (size + 1)) in
    if next == sentinel then pure size else rest

unfoldable pub ll_size : (fuel sentinel : ℕ) → Cmd ℕ
unfolding size_loop
ll_size fuel sentinel = do first ← get_next sentinel; size_loop fuel sentinel first 0

-- The loop of `free_llist`. The values are handed to the destructor, or to `kfree`, in this order.
free_loop : (fuel sentinel : ℕ) → Cmd (List ℕ)
free_loop zero sentinel = λ _. hangs
free_loop (suc f) sentinel =
    let rest = (do
      node ← get_next sentinel
      val ← get_val node
      ll_delete_node node
      vals ← free_loop f sentinel
      pure (val ∷ vals)) in
    do empty ← ll_empty sentinel; if empty then pure [] else rest

unfoldable pub free_llist : (fuel sentinel : ℕ) → Cmd (List ℕ)
unfolding free_loop
free_llist fuel sentinel = do vals ← free_loop fuel sentinel; kfree sentinel; pure vals
