-- ===== src/Scheduler/Examples.antt =====
-- Three processes of the lowest priority, with pids 1 to 3, and a fourth that sleeps.
use g_os.Common.{
  ==_of_ne, List, [], arith, false, if◌then◌else◌, refl, some, ℕ, ℕ_discrete, ◌*◌, ◌++◌, ◌<◌, ◌==◌,
  ◌∷◌, ◌≡◌, ◌≢◌,
}
use g_os.Scheduler.{
  Node, ProcStatus, ProcessContext, ProcessorReg, System, adjust_sched_queue, awake, find_in_queues,
  queue_index_of, running, schedule, sleeping,
}
use g_os.Scheduler.Pick.{NoCandidate, find_in_queue_first, find_in_queues_first, schedule-picks}
use g_os.Scheduler.Queues.{IsQueuedAt, has_node, schedule-queues}
use g_os.Scheduler.RoundRobin.{IsReady, IsTurn}
use g_os.Scheduler.Turns.{Turns-current, done, turn}
use g_os.Scheduler.Semaphore.{
  Call, SemDesc, after_calls, down, sem_down, sem_down-waits, sem_up, sem_up-in_turn, up,
}

abbrev regs_of : ℕ → ProcessorReg
regs_of v = record {
  eax = v;
  ebx = v;
  ecx = v;
  edx = v;
  esi = v;
  edi = v;
  esp = v;
  ds = 16;
  es = 16;
}

abbrev process : ℕ → ProcStatus → ProcessContext
process pid status = record {
  processor_reg = regs_of pid;
  pid = pid;
  sleep_time = 0;
  static_priority = 0;
  curr_sched_queue_index = 9;
  proc_status = status;
}

abbrev node : ℕ → Node
node pid = record { address = 100 * pid; val = pid }

-- The context of the process with pid p is at p.
abbrev three : System
three = record {
  time = 250;
  force_scheduling = 0;
  context = λ a. if a == 4 then process 4 sleeping else process a running;
  scheduler_queue = λ i. if i == 9 then node 1 ∷ node 2 ∷ node 3 ∷ [] else [];
  current_process = node 1;
  process_0 = node 0;
}

none_above : (j : ℕ) → j < 9 → NoCandidate three 1 (three.scheduler_queue j)
none_above j h = rw (==_of_ne j 9 (omega arith)) tt

schedule-picks_example :
    let (t, reg') = schedule 77 900 three (regs_of 5) in
    (t.current_process ≡ node 2) × ((t.context 1).processor_reg ≡ regs_of 5) × (reg' ≡ regs_of 2)
schedule-picks_example =
    schedule-picks 77 900 three (regs_of 5) 9 (node 1 ∷ []) (node 2) (node 3 ∷ []) (omega arith)
      refl (refl, tt) refl none_above

-- The same when only the current process is left.
abbrev alone : System
alone = record three { scheduler_queue = λ i. if i == 9 then node 1 ∷ [] else [] }

none_left : (j : ℕ) → j < 10 → NoCandidate alone 1 (alone.scheduler_queue j)
none_left j h = elim (ℕ_discrete j 9) [ yes e ↦ rw e (refl, tt) | no ne ↦ rw (==_of_ne j 9 ne) tt ]

abbrev found_next : find_in_queues three 1 10 0 ≡ some (node 2)
found_next =
    find_in_queues_first three 1 10 0 9 (node 2) (omega arith) (omega arith)
      (λ j low high. none_above j high)
      (find_in_queue_first three 1 (node 1 ∷ []) (node 2) (node 3 ∷ []) (refl, tt) refl)

abbrev first_queued : IsQueuedAt three (node 1) 9 [] (node 2 ∷ node 3 ∷ [])
first_queued = record { here = refl; first = refl; elsewhere = λ j ne. rw (==_of_ne j 9 ne) refl }

schedule-queues_example :
    let q = (schedule 77 900 three (regs_of 5)).0.scheduler_queue in
    let rest = λ (j : ℕ). if 9 == j then node 2 ∷ node 3 ∷ [] else three.scheduler_queue j in
    let status = (three.context 1).proc_status in
    let i = (adjust_sched_queue 77 (three.context 1)).curr_sched_queue_index in
    (status ≡ running
      → (j : ℕ)
      → q j ≡ (if i == j then rest j ++ record { address = 900; val = 1 } ∷ [] else rest j))
    × (status ≢ running → (j : ℕ) → q j ≡ rest j)
schedule-queues_example =
    schedule-queues 77 900 three (regs_of 5) (node 2) 9 [] (node 2 ∷ node 3 ∷ []) found_next
      first_queued

abbrev ready :
    (pid : ℕ)
    → (three.context pid).proc_status ≡ running
    → pid ≢ 0
    → (three.context pid).pid ≡ pid
    → (adjust_sched_queue 77 (three.context pid)).curr_sched_queue_index ≡ 9
    → IsReady 77 three 9 (node pid)
ready pid runs positive same index = record {
  runs = runs;
  positive = rw same positive;
  index = index;
}

three-IsTurn : IsTurn 77 three 9 (node 1) (node 2 ∷ node 3 ∷ [])
unfolding adjust_sched_queue queue_index_of
three-IsTurn = record {
  inside = omega arith;
  current = refl;
  here = refl;
  others = λ j ne. rw (==_of_ne j 9 ne) refl;
  nodes = (refl, (refl, (refl, tt)));
  pids = ((omega arith, (omega arith, tt)), ((omega arith, tt), (tt, tt)));
  ready = (
    ready 1 refl (omega arith) refl refl,
    (ready 2 refl (omega arith) refl refl, (ready 3 refl (omega arith) refl refl, tt)),
  );
}

abbrev after_one : System
after_one = (schedule 77 900 three (regs_of 5)).0

abbrev after_two : System
after_two = (schedule 77 901 after_one (regs_of 6)).0

queues_after :
    (j : ℕ)
    → after_one.scheduler_queue j ≡ (
        if 9 == j
        then (if 9 == j then node 2 ∷ node 3 ∷ [] else three.scheduler_queue j)
          ++ record { address = 900; val = 1 } ∷ []
        else if 9 == j
        then node 2 ∷ node 3 ∷ []
        else three.scheduler_queue j)
unfolding adjust_sched_queue queue_index_of
queues_after =
    (schedule-queues 77 900 three (regs_of 5) (node 2) 9 [] (node 2 ∷ node 3 ∷ []) found_next
        first_queued).0
      refl

fresh_again : has_node 901 (after_one.scheduler_queue 9) ≡ false
fresh_again = rw (queues_after 9) refl

Turns-current_example : after_two.current_process ≡ node 3
Turns-current_example =
    Turns-current 77 9 three after_two (node 1) (node 2 ∷ []) (node 3) [] three-IsTurn
      (turn 900 (regs_of 5) refl (turn 901 (regs_of 6) fresh_again done))

-- Its count is used up.
abbrev taken : SemDesc
taken = record { wait_queue = []; count = 0 }

sem_down-waits_example :
    let (sem, s) = sem_down taken three in
    (sem.wait_queue ≡ 1 ∷ []) × (sem.count ≡ 0) × ((s.context 1).proc_status ≡ sleeping)
sem_down-waits_example = sem_down-waits taken three refl

-- Process 2 waits, then process 1 and then process 3; process 1 is awoken by the second call.
abbrev waited : SemDesc
waited = record { wait_queue = 2 ∷ []; count = 0 }

abbrev at_three : System
at_three = record three { current_process = node 3 }

abbrev calls : List Call
calls = down at_three ∷ up 77 950 at_three ∷ []

sem_up-in_turn_example :
    let before = after_calls calls (sem_down waited three).0 in
    let (sem', t') = sem_up 77 951 before at_three in
    (((sem_down waited three).1.context 1).proc_status ≡ sleeping)
    × (before.count ≡ 0)
    × (t' ≡ awake 77 951 at_three 1)
    × ((t'.context 1).proc_status ≡ running)
    × (sem'.count ≡ 0)
sem_up-in_turn_example = sem_up-in_turn waited three at_three 77 951 calls refl refl
