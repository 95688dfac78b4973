-- ===== src/Scheduler/Turns.antt =====
-- Every running process gets its turn.
use g_os.Common.{
  ==_of_ne, ==_refl, List, [], ap, append_assoc, arith, false, length, refl, some, suc, sym, true,
  ℕ, ◌++◌, ◌<◌, ◌∙◌, ◌∷◌, ◌≡◌,
}
use g_os.Scheduler.{
  Node, ProcessorReg, System, adjust_sched_queue, find_in_queues, is_candidate, running, schedule,
}
use g_os.Scheduler.Pick.{
  NoCandidate, find_in_queue_first, find_in_queues_first, leave-current, schedule-found,
}
use g_os.Scheduler.Queues.{IsQueuedAt, has_node, schedule-queues}
use g_os.Scheduler.RoundRobin.{
  AllReady-Keeps, AllReady-snoc, DistinctNodes-snoc, DistinctPids-Keeps, DistinctPids-snoc, IsTurn,
  schedule-Keeps,
}

-- Several calls of `schedule`, each with the registers of the process it interrupts, and with a
-- node from `ll_append` whose address no node of the queue `k` has.
pub data Turns (unset k : ℕ) : ℕ → System → System → Type 0 where
  done : {s : System} → Turns unset k 0 s s
  turn :
      {m : ℕ} {s t : System} (fresh : ℕ) (reg : ProcessorReg)
      → has_node fresh (s.scheduler_queue k) ≡ false
      → Turns unset k m (schedule unset fresh s reg).0 t
      → Turns unset k (suc m) s t

abbrev node_of : ℕ → ℕ → Node
node_of address val = record { address = address; val = val }

-- With two processes or more in the queue, the next one runs and the one before it goes to the end.
schedule-IsTurn :
    (unset fresh : ℕ) (s : System) (reg : ProcessorReg) (k : ℕ) (n m : Node) (ns : List Node)
    → IsTurn unset s k n (m ∷ ns)
    → has_node fresh (n ∷ m ∷ ns) ≡ false
    → IsTurn unset (schedule unset fresh s reg).0 k m (ns ++ node_of fresh n.val ∷ [])
schedule-IsTurn unset fresh s reg k n m ns is out =
    let a = s.current_process.val in
    let same : s.current_process.val ≡ n.val = ap (λ x. x.val) is.current in
    let mine : (s.context a).pid ≡ (s.context n.val).pid = rw same refl in
    let not_me : is_candidate s (s.context a).pid n ≡ false =
      rw (mine, ==_refl (s.context n.val).pid) refl in
    let next : is_candidate s (s.context a).pid m ≡ true =
      rw (mine, ==_of_ne _ _ is.pids.0.0, ==_of_ne _ _ is.ready.1.0.positive) refl in
    let none_above : (j : ℕ) → j < k → NoCandidate s (s.context a).pid (s.scheduler_queue j) =
      λ j l. rw (is.others j (omega arith)) tt in
    let found : find_in_queues s (s.context a).pid 10 0 ≡ some m =
      find_in_queues_first s (s.context a).pid 10 0 k m (omega arith) is.inside
        (λ j low l. none_above j l)
        (rw is.here (find_in_queue_first s (s.context a).pid (n ∷ []) m ns (not_me, tt) next)) in
    let queued : IsQueuedAt s s.current_process k [] (m ∷ ns) = record {
      here = rw is.current is.here;
      first = refl;
      elsewhere = λ j ne. rw (is.others j ne) refl;
    } in
    let runs : (s.context a).proc_status ≡ running = rw same is.ready.0.runs in
    let index : (adjust_sched_queue unset (s.context a)).curr_sched_queue_index ≡ k =
      rw same is.ready.0.index in
    let queues = (schedule-queues unset fresh s reg m k [] (m ∷ ns) found queued).0 runs in
    let t = (schedule unset fresh s reg).0 in
    let keeps = schedule-Keeps unset fresh s reg m found runs in
    record {
      inside = is.inside;
      current = current_of unset fresh s reg m found;
      here = queues k ∙ rw (index, ==_refl k, same) refl;
      others = λ j ne.
          let other = ==_of_ne k j (λ e. ne (sym e)) in
          queues j ∙ rw (index, other, is.others j ne) refl;
      nodes = DistinctNodes-snoc (node_of fresh n.val) (m ∷ ns) (ground (arith, out)) is.nodes.1;
      pids =
          let d = DistinctPids-Keeps unset s t (n ∷ m ∷ ns) keeps is.pids in
          DistinctPids-snoc t n (node_of fresh n.val) (m ∷ ns) refl d.0 d.1;
      ready =
          let r = AllReady-Keeps unset s t k (n ∷ m ∷ ns) keeps is.ready in
          AllReady-snoc unset t k n (node_of fresh n.val) (m ∷ ns) refl r.0 r.1;
    }
  where
    current_of :
        (unset fresh : ℕ) (s : System) (reg : ProcessorReg) (m : Node)
        → let p = s.context s.current_process.val in
          find_in_queues s p.pid 10 0 ≡ some m → (schedule unset fresh s reg).0.current_process ≡ m
    current_of unset fresh s reg m found =
        rw (schedule-found unset fresh s reg m found)
          (leave-current unset fresh s.current_process _ _)

none_left : {unset k : ℕ} {s t : System} → Turns unset k 0 s t → s ≡ t
none_left done = refl

-- When the current process is the first of its queue and the other queues are empty, and all
-- processes of the queue run, their pids are different from one another and none is 0, their nodes
-- have different addresses, and the queue is the one that `adjust_sched_queue` gives for each of them,
-- then each process behind the first is the current one after as many calls of `schedule` as it
-- stands places behind.
pub Turns-current :
    (unset k : ℕ) (s t : System) (n : Node) (ys : List Node) (m : Node) (zs : List Node)
    → IsTurn unset s k n (ys ++ m ∷ zs)
    → Turns unset k (suc (length ys)) s t
    → t.current_process ≡ m
Turns-current unset k s t n [] m zs is (turn fresh reg out later) =
    ap (λ u. u.current_process) (sym (none_left later))
    ∙ (schedule-IsTurn unset fresh s reg k n m zs is (rw is.here at out)).current
Turns-current unset k s t n (y ∷ ys) m zs is (turn fresh reg out later) =
    let is' = schedule-IsTurn unset fresh s reg k n y (ys ++ m ∷ zs) is (rw is.here at out) in
    Turns-current unset k (schedule unset fresh s reg).0 t y ys m (zs ++ node_of fresh n.val ∷ [])
      (rw append_assoc at is') later
