-- ===== src/Scheduler/Pick.antt =====
-- Which process `schedule` switches to.
use g_os.Common.{
  ==_of_ne, ==_refl, List, [], arith, dec_lt, false, none, refl, some, suc, true, zero, ℕ,
  ℕ_discrete, ◌++◌, ◌+◌, ◌<◌, ◌∙◌, ◌∷◌, ◌≡◌, ◌≢◌, ◌≤◌,
}
use g_os.Scheduler.{
  Node, ProcStatus, ProcessorReg, System, adjust_sched_queue, do_context_switch, exiting,
  find_in_queue, find_in_queues, is_candidate, leave, running, schedule, sleeping, stay,
}

-- No node of the list is a process to switch to.
abbrev pub NoCandidate : System → ℕ → List Node → Type 0
NoCandidate s pid [] = Unit
NoCandidate s pid (n ∷ ns) = (is_candidate s pid n ≡ false) × NoCandidate s pid ns

pub find_in_queue_first :
    (s : System) (pid : ℕ) (before : List Node) (n : Node) (after : List Node)
    → NoCandidate s pid before
    → is_candidate s pid n ≡ true
    → find_in_queue s pid (before ++ n ∷ after) ≡ some n
unfolding find_in_queue
find_in_queue_first s pid [] n after none_before fits = rw fits refl
find_in_queue_first s pid (b ∷ before) n after none_before fits =
    rw (none_before.0) (find_in_queue_first s pid before n after none_before.1 fits)

pub find_in_queue-none :
    (s : System) (pid : ℕ) (ns : List Node) → NoCandidate s pid ns → find_in_queue s pid ns ≡ none
unfolding find_in_queue
find_in_queue-none s pid [] out = refl
find_in_queue-none s pid (n ∷ ns) out = rw (out.0) (find_in_queue-none s pid ns out.1)

-- The first candidate of the first queue that has one.
pub find_in_queues_first :
    (s : System) (pid r i k : ℕ) (n : Node)
    → i ≤ k
    → k < i + r
    → ((j : ℕ) → i ≤ j → j < k → NoCandidate s pid (s.scheduler_queue j))
    → find_in_queue s pid (s.scheduler_queue k) ≡ some n
    → find_in_queues s pid r i ≡ some n
unfolding find_in_queues
find_in_queues_first s pid zero i k n low high out here = absurd (omega arith)
find_in_queues_first s pid (suc r) i k n low high out here = elim (dec_lt i k) [
  | yes l ↦
      rw (find_in_queue-none s pid (s.scheduler_queue i) (out i (omega arith) l), find_in_queues)
        (find_in_queues_first s pid r (i + 1) k n (omega arith) (omega arith)
          (λ j above below. out j (omega arith) below) here)
  | no m ↦ let same : i ≡ k = omega arith in rw (same, here, find_in_queues) refl
]

pub find_in_queues-none :
    (s : System) (pid r i : ℕ)
    → ((j : ℕ) → i ≤ j → j < i + r → NoCandidate s pid (s.scheduler_queue j))
    → find_in_queues s pid r i ≡ none
unfolding find_in_queues
find_in_queues-none s pid zero i out = refl
find_in_queues-none s pid (suc r) i out =
    rw
      (
        find_in_queue-none s pid (s.scheduler_queue i) (out i (omega arith) (omega arith)),
        find_in_queues,
      )
      (find_in_queues-none s pid r (i + 1) (λ j low high. out j (omega arith) (omega arith)))

pub leave-current :
    (unset fresh : ℕ) (n : Node) (status : ProcStatus) (s : System)
    → (leave unset fresh n status s).current_process ≡ s.current_process
unfolding leave
leave-current unset fresh n running s = refl
leave-current unset fresh n sleeping s = refl
leave-current unset fresh n exiting s = refl

leave-reg :
    (unset fresh : ℕ) (n : Node) (status : ProcStatus) (s : System) (a : ℕ)
    → ((leave unset fresh n status s).context a).processor_reg ≡ (s.context a).processor_reg
unfolding leave adjust_sched_queue
leave-reg unset fresh n running s a = elim (ℕ_discrete n.val a) [
  | yes e ↦ rw (e, ==_refl a) refl
  | no ne ↦ rw (==_of_ne n.val a ne) refl
]
leave-reg unset fresh n sleeping s a = refl
leave-reg unset fresh n exiting s a = refl

-- `schedule` once the next process is found.
pub schedule-found :
    (unset fresh : ℕ) (s : System) (reg : ProcessorReg) (n : Node)
    → let p = s.context s.current_process.val in
      find_in_queues s p.pid 10 0 ≡ some n
      → let (switched, reg') = do_context_switch s s.current_process.val reg n.val in
        schedule unset fresh s reg ≡ (
          leave unset fresh s.current_process p.proc_status
              (record switched { current_process = n }),
          reg',
        )
unfolding schedule
schedule-found unset fresh s reg n e = rw (e, schedule) refl

candidate_ne :
    (s : System) (a : ℕ) (n : Node) → is_candidate s (s.context a).pid n ≡ true → a ≢ n.val
candidate_ne s a n fits e = ground (arith, ==_refl (s.context a).pid, e)

-- `schedule` switches to the first process, in the first queue that has one, which is neither the
-- current process nor process 0: it saves the registers of the one and loads those of the
-- other, except ds and es, which stay as they are.
pub schedule-picks :
    (unset fresh : ℕ) (s : System) (reg : ProcessorReg) (k : ℕ) (before : List Node) (n : Node)
    (after : List Node)
    → k < 10
    → s.scheduler_queue k ≡ before ++ n ∷ after
    → let pid = (s.context s.current_process.val).pid in
      NoCandidate s pid before
      → is_candidate s pid n ≡ true
      → ((j : ℕ) → j < k → NoCandidate s pid (s.scheduler_queue j))
      → let (t, reg') = schedule unset fresh s reg in
        (t.current_process ≡ n)
        × ((t.context s.current_process.val).processor_reg ≡ reg)
        × (reg' ≡ record (s.context n.val).processor_reg { ds = reg.ds; es = reg.es })
unfolding schedule do_context_switch adjust_sched_queue
schedule-picks unset fresh s reg k before n after inside here out fits above =
    let a = s.current_process.val in
    let found =
      find_in_queues_first s (s.context a).pid 10 0 k n (omega arith) inside
        (λ j low below. above j below)
        (rw here (find_in_queue_first s (s.context a).pid before n after out fits)) in
    let ne = ==_of_ne a n.val (candidate_ne s a n fits) in
    rw (schedule-found unset fresh s reg n found) (
      leave-current unset fresh s.current_process (s.context a).proc_status _,
      leave-reg unset fresh s.current_process (s.context a).proc_status _ a ∙ rw (==_refl a) refl,
      rw (==_refl a, ne) refl,
    )

-- If no queue has such a process, a running process goes on, and otherwise the node kept as that of
-- process 0 becomes the current one.
pub schedule-idles :
    (unset fresh : ℕ) (s : System) (reg : ProcessorReg)
    → let p = s.context s.current_process.val in
      ((j : ℕ) → j < 10 → NoCandidate s p.pid (s.scheduler_queue j))
      → let (t, reg') = schedule unset fresh s reg in
        (p.proc_status ≡ running → (t.current_process ≡ s.current_process) × (reg' ≡ reg))
        × (p.proc_status ≢ running → t.current_process ≡ s.process_0)
unfolding schedule stay do_context_switch
schedule-idles unset fresh s reg none_left =
    let p = s.context s.current_process.val in
    let none_found = find_in_queues-none s p.pid 10 0 (λ j low high. none_left j high) in
    (
      λ e. rw (none_found, e, schedule, stay) (refl, refl),
      λ ne. rw (none_found, schedule) (idle p.proc_status ne),
    )
  where
    idle :
        (status : ProcStatus)
        → status ≢ running
        → (stay unset s.current_process status s reg).0.current_process ≡ s.process_0
    idle running ne = absurd (ne refl)
    idle sleeping ne = refl
    idle exiting ne = refl
