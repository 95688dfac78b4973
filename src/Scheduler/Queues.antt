-- ===== src/Scheduler/Queues.antt =====
-- What `schedule` does to the queues: nothing but move the node of the process that it leaves.
use g_os.Common.{
  ==_of_ne, ==_refl, Bool, List, [], ap, arith, false, if◌then◌else◌, refl, some, sym, ℕ,
  ℕ_discrete, ◌++◌, ◌==◌, ◌||◌, ◌∙◌, ◌∷◌, ◌≡◌, ◌≢◌,
}
use g_os.Scheduler.{
  Node, ProcStatus, ProcessorReg, System, adjust_sched_queue, delete_node, do_context_switch,
  exiting, find_in_queues, leave, remove_node, running, schedule, set_context, sleeping,
}
use g_os.Scheduler.Pick.{schedule-found}

abbrev pub has_node : ℕ → List Node → Bool
has_node a [] = false
has_node a (n ∷ ns) = (a == n.address) || has_node a ns

pub remove_node-absent : (a : ℕ) (ns : List Node) → has_node a ns ≡ false → remove_node a ns ≡ ns
remove_node-absent a [] out = refl
remove_node-absent a (n ∷ ns) out = ground (arith, remove_node-absent a ns)

pub remove_node-append :
    (ys : List Node) (n : Node) (zs : List Node)
    → has_node n.address ys ≡ false
    → remove_node n.address (ys ++ n ∷ zs) ≡ ys ++ zs
remove_node-append [] n zs out = rw (==_refl n.address) refl
remove_node-append (y ∷ ys) n zs out = ground (arith, remove_node-append ys n zs)

-- The node stands in the queue `k`, after `ys` and before `zs`, and in no other.
pub record IsQueuedAt (s : System) (n : Node) (k : ℕ) (ys zs : List Node) : Type 0 where
  pub here : s.scheduler_queue k ≡ ys ++ n ∷ zs
  pub first : has_node n.address ys ≡ false
  pub elsewhere : (j : ℕ) → j ≢ k → has_node n.address (s.scheduler_queue j) ≡ false

pub delete_node-queue :
    (s : System) (n : Node) (k : ℕ) (ys zs : List Node) (j : ℕ)
    → IsQueuedAt s n k ys zs
    → (delete_node s n.address).scheduler_queue j
      ≡ (if k == j then ys ++ zs else s.scheduler_queue j)
delete_node-queue s n k ys zs j q = elim (ℕ_discrete k j) [
  | yes e ↦ rw (sym e, ==_refl k, q.here) (remove_node-append ys n zs q.first)
  | no ne ↦
      rw (==_of_ne k j ne)
        (remove_node-absent n.address (s.scheduler_queue j) (q.elsewhere j (λ e. ne (sym e))))
]

leave_running-queue :
    (unset fresh : ℕ) (n : Node) (t : System) (k : ℕ) (ys zs : List Node) (i j : ℕ)
    → IsQueuedAt t n k ys zs
    → (adjust_sched_queue unset (t.context n.val)).curr_sched_queue_index ≡ i
    → let rest = if k == j then ys ++ zs else t.scheduler_queue j in
      (leave unset fresh n running t).scheduler_queue j
      ≡ (if i == j then rest ++ record { address = fresh; val = n.val } ∷ [] else rest)
unfolding leave
leave_running-queue unset fresh n t k ys zs i j q e = elim (ℕ_discrete i j) [
  | yes same ↦
      rw (e, same, ==_refl j)
        (ap (λ l. l ++ record { address = fresh; val = n.val } ∷ [])
          (delete_node-queue t n k ys zs j q))
  | no ne ↦ rw (e, ==_of_ne i j ne) (delete_node-queue t n k ys zs j q)
]

leave_status-queue :
    (unset fresh : ℕ) (n : Node) (status : ProcStatus) (t : System) (k : ℕ) (ys zs : List Node)
    (i j : ℕ)
    → IsQueuedAt t n k ys zs
    → (adjust_sched_queue unset (t.context n.val)).curr_sched_queue_index ≡ i
    → status ≡ running
    → let rest = if k == j then ys ++ zs else t.scheduler_queue j in
      (leave unset fresh n status t).scheduler_queue j
      ≡ (if i == j then rest ++ record { address = fresh; val = n.val } ∷ [] else rest)
leave_status-queue unset fresh n status t k ys zs i j q e r =
    rw r (leave_running-queue unset fresh n t k ys zs i j q e)

leave_other-queue :
    (unset fresh : ℕ) (n : Node) (status : ProcStatus) (t : System) (k : ℕ) (ys zs : List Node)
    (j : ℕ)
    → IsQueuedAt t n k ys zs
    → status ≢ running
    → (leave unset fresh n status t).scheduler_queue j
      ≡ (if k == j then ys ++ zs else t.scheduler_queue j)
unfolding leave
leave_other-queue unset fresh n running t k ys zs j q ne = absurd (ne refl)
leave_other-queue unset fresh n sleeping t k ys zs j q ne = delete_node-queue t n k ys zs j q
leave_other-queue unset fresh n exiting t k ys zs j q ne = delete_node-queue t n k ys zs j q

-- Queues are as they were when only contexts and `current_process` change.
moved-IsQueuedAt :
    (s t : System) (n : Node) (k : ℕ) (ys zs : List Node)
    → ((j : ℕ) → t.scheduler_queue j ≡ s.scheduler_queue j)
    → IsQueuedAt s n k ys zs
    → IsQueuedAt t n k ys zs
moved-IsQueuedAt s t n k ys zs same q = record {
  here = same k ∙ q.here;
  first = q.first;
  elsewhere = λ j ne. rw (same j) (q.elsewhere j ne);
}

-- When `schedule` finds a process `n`, a running process that it leaves goes behind all of the
-- queue of its priority; one that sleeps or exits leaves the queues. Nothing else in them changes.
pub schedule-queues :
    (unset fresh : ℕ) (s : System) (reg : ProcessorReg) (n : Node) (k : ℕ) (ys zs : List Node)
    → let a = s.current_process.val in
      let p = s.context a in
      find_in_queues s p.pid 10 0 ≡ some n
      → IsQueuedAt s s.current_process k ys zs
      → let q = (schedule unset fresh s reg).0.scheduler_queue in
        let rest = λ (j : ℕ). if k == j then ys ++ zs else s.scheduler_queue j in
        let i = (adjust_sched_queue unset p).curr_sched_queue_index in
        (p.proc_status ≡ running
          → (j : ℕ)
          → q j ≡ (if i == j then rest j ++ record { address = fresh; val = a } ∷ [] else rest j))
        × (p.proc_status ≢ running → (j : ℕ) → q j ≡ rest j)
unfolding do_context_switch adjust_sched_queue
schedule-queues unset fresh s reg n k ys zs found q =
    let a = s.current_process.val in
    let p = s.context a in
    let moved : System = record (set_context s a (record p { processor_reg = reg })) {
      current_process = n;
    } in
    let q' = moved-IsQueuedAt s moved s.current_process k ys zs (λ j. refl) q in
    let i = (adjust_sched_queue unset p).curr_sched_queue_index in
    let index : (adjust_sched_queue unset (moved.context a)).curr_sched_queue_index ≡ i =
      rw (==_refl a) refl in
    rw (schedule-found unset fresh s reg n found) (
      λ e j.
          leave_status-queue unset fresh s.current_process p.proc_status moved k ys zs i j q' index
            e,
      λ ne j. leave_other-queue unset fresh s.current_process p.proc_status moved k ys zs j q' ne,
    )
