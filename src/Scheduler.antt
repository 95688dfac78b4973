-- ===== src/Scheduler.antt =====
-- scheduler/scheduler.c: ten queues of runnable processes, the choice of the next one, and the calls
-- that put a process to sleep and awake it.
pub mod Priority
pub mod Pick
pub mod Queues
pub mod RoundRobin
pub mod Turns
pub mod Semaphore
mod Examples
use g_os.Common.{
  Bool, List, Option, [], false, if◌then◌else◌, in_range, leb, none, not, some, suc, true, zero, ℕ,
  ◌%◌, ◌&&◌, ◌*◌, ◌++◌, ◌+◌, ◌-◌, ◌==◌, ◌^◌, ◌∷◌,
}

-- `t_processor_reg`
pub record ProcessorReg : Type 0 where
  pub eax : ℕ
  pub ebx : ℕ
  pub ecx : ℕ
  pub edx : ℕ
  pub esi : ℕ
  pub edi : ℕ
  pub esp : ℕ
  pub ds : ℕ
  pub es : ℕ

-- `t_proc_status`
pub data ProcStatus : Type 0 where
  running sleeping exiting : ProcStatus

-- The fields of `t_process_context` that this file uses.
pub record ProcessContext : Type 0 where
  pub processor_reg : ProcessorReg
  pub pid : ℕ
  pub sleep_time : ℕ
  pub static_priority : ℕ
  pub curr_sched_queue_index : ℕ
  pub proc_status : ProcStatus

-- A `t_llist_node`: its address, and the address of the context that its `val` points to.
pub record Node : Type 0 where
  pub address : ℕ
  pub val : ℕ

-- What the code keeps in `system`. `context` is what stands at the address of a context, and
-- `scheduler_queue` the nodes of each queue from `ll_first` on.
pub record System : Type 0 where
  pub time : ℕ
  pub force_scheduling : ℕ
  pub context : ℕ → ProcessContext
  pub scheduler_queue : ℕ → List Node
  pub current_process : Node
  pub process_0 : Node

abbrev pub set_context : System → ℕ → ProcessContext → System
set_context s a p = record s { context = λ b. if a == b then p else s.context b }

abbrev pub remove_node : ℕ → List Node → List Node
remove_node a [] = []
remove_node a (n ∷ ns) = if a == n.address then ns else n ∷ remove_node a ns

-- `ll_delete_node` of a node of one of the queues, and nothing for another.
abbrev pub delete_node : System → ℕ → System
delete_node s a = record s { scheduler_queue = λ i. remove_node a (s.scheduler_queue i) }

abbrev pub set_queue : System → ℕ → List Node → System
set_queue s i ns = record s { scheduler_queue = λ j. if i == j then ns else s.scheduler_queue j }

abbrev pub append_node : System → ℕ → Node → System
append_node s i n = set_queue s i (s.scheduler_queue i ++ n ∷ [])

abbrev pub prepend_node : System → ℕ → Node → System
prepend_node s i n = set_queue s i (n ∷ s.scheduler_queue i)

-- The `switch` of `adjust_sched_queue`. `unset` is what the uninitialised `queue_index` holds where
-- no case applies.
pub queue_index_of : (unset priority : ℕ) → ℕ
queue_index_of unset p =
    if in_range 0 99 p
    then 9
    else if in_range 100 199 p
    then 8
    else if in_range 200 299 p
    then 7
    else if in_range 300 399 p
    then 6
    else if in_range 400 499 p
    then 5
    else if in_range 500 599 p
    then 4
    else if in_range 600 699 p
    then 3
    else if in_range 700 799 p
    then 2
    else if in_range 800 899 p
    then 1
    else if in_range 900 1000 p
    then 0
    else unset

-- A sum of 2 ^ 31 and more is a negative `int`, which no case has either.
pub adjust_sched_queue : (unset : ℕ) → ProcessContext → ProcessContext
adjust_sched_queue unset p = record p {
  curr_sched_queue_index = queue_index_of unset ((p.sleep_time + p.static_priority * 10) % 2 ^ 32);
}

-- The registers of the interrupted process are saved in its context; `ds` and `es` are then read
-- back from there, and the others from the new context.
pub do_context_switch : System → (current : ℕ) → ProcessorReg → (new : ℕ) → System × ProcessorReg
do_context_switch s current reg new =
    let saved = set_context s current (record (s.context current) { processor_reg = reg }) in
    let next = (saved.context new).processor_reg in
    (
      saved,
      record next {
        ds = (saved.context current).processor_reg.ds;
        es = (saved.context current).processor_reg.es;
      },
    )

-- The test of the inner loop of `schedule`.
abbrev pub is_candidate : System → ℕ → Node → Bool
is_candidate s pid n = not (pid == (s.context n.val).pid) && not ((s.context n.val).pid == 0)

pub find_in_queue : System → ℕ → List Node → Option Node
find_in_queue s pid [] = none
find_in_queue s pid (n ∷ ns) =
    let later = find_in_queue s pid ns in if is_candidate s pid n then some n else later

-- The outer loop, from the queue `index` on.
pub find_in_queues : System → ℕ → (rounds index : ℕ) → Option Node
find_in_queues s pid zero index = none
find_in_queues s pid (suc r) index =
    let later = find_in_queues s pid r (index + 1) in
    elim (find_in_queue s pid (s.scheduler_queue index)) [ none ↦ later | some n ↦ some n ]

-- What `schedule` does with the process that it leaves, when it has found another. `fresh` is the
-- address of the node that `ll_append` allocates. What is freed keeps its bytes here.
pub leave : (unset fresh : ℕ) → Node → ProcStatus → System → System
leave unset fresh node running s =
    let p = adjust_sched_queue unset (s.context node.val) in
    append_node (delete_node (set_context s node.val p) node.address) p.curr_sched_queue_index
      (record { address = fresh; val = node.val })
leave unset fresh node sleeping s = delete_node s node.address
leave unset fresh node exiting s = delete_node s node.address

-- What it does when it has found none: `process_0`, a list node, is passed for a context.
pub stay : (unset : ℕ) → Node → ProcStatus → System → ProcessorReg → System × ProcessorReg
stay unset node running s reg =
    (set_context s node.val (adjust_sched_queue unset (s.context node.val)), reg)
stay unset node _ s reg =
    let (switched, reg') = do_context_switch s node.val reg s.process_0.address in
    (delete_node (record switched { current_process = s.process_0 }) node.address, reg')

pub schedule : (unset fresh : ℕ) → System → ProcessorReg → System × ProcessorReg
unfolding find_in_queues find_in_queue
schedule unset fresh s reg =
    let node = s.current_process in
    let p = s.context node.val in
    elim (find_in_queues s p.pid 10 0) [
      | none ↦ stay unset node p.proc_status s reg
      | some next ↦
          let (switched, reg') = do_context_switch s node.val reg next.val in
          (leave unset fresh node p.proc_status (record switched { current_process = next }), reg')
    ]

-- `_sleep` up to the switch that follows it. The lock of `_sleep_and_unlock` is NULL.
pub sleep : System → System
sleep s =
    let a = s.current_process.val in
    set_context s a (record (s.context a) { sleep_time = s.time; proc_status = sleeping })

abbrev pub is_sleeping : ProcStatus → Bool
is_sleeping sleeping = true
is_sleeping _ = false

-- `system.time-new_process->sleep_time`, cut at 1000; both are 32 bits wide.
pub time_slept : (time sleep_time : ℕ) → ℕ
time_slept time sleep_time =
    let slept = (time + 2 ^ 32 - sleep_time) % 2 ^ 32 in if leb 1000 slept then 1000 else slept

pub awake : (unset fresh : ℕ) → System → (new_process : ℕ) → System
awake unset fresh s a =
    let old = s.context a in
    let p =
      adjust_sched_queue unset (record old { sleep_time = time_slept s.time old.sleep_time }) in
    let adjusted = set_context s a p in
    let pid = (adjusted.context adjusted.current_process.val).pid in
    let queued =
      if not (pid == p.pid) && is_sleeping p.proc_status
      then prepend_node adjusted p.curr_sched_queue_index (record { address = fresh; val = a })
      else adjusted in
    record (set_context queued a (record (queued.context a) { proc_status = running })) {
      force_scheduling = 1;
    }
