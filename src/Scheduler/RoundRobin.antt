-- ===== src/Scheduler/RoundRobin.antt =====
-- Running processes of one priority take turns.
use g_os.Common.{
  ==_of_ne, ==_refl, List, [], arith, false, refl, some, sym, ℕ, ℕ_discrete, ◌++◌, ◌<◌, ◌==◌, ◌∙◌,
  ◌∷◌, ◌≡◌, ◌≢◌,
}
use g_os.Scheduler.{
  Node, ProcessorReg, System, adjust_sched_queue, do_context_switch, find_in_queues, leave, running,
  schedule,
}
use g_os.Scheduler.Pick.{schedule-found}
use g_os.Scheduler.Queues.{has_node}

-- What decides about a process besides its place.
pub record Keeps (unset : ℕ) (s t : System) : Type 0 where
  pub same_pid : (a : ℕ) → (t.context a).pid ≡ (s.context a).pid
  pub same_status : (a : ℕ) → (t.context a).proc_status ≡ (s.context a).proc_status
  pub same_index :
      (a : ℕ)
      → (adjust_sched_queue unset (t.context a)).curr_sched_queue_index
        ≡ (adjust_sched_queue unset (s.context a)).curr_sched_queue_index

pub record IsReady (unset : ℕ) (s : System) (k : ℕ) (n : Node) : Type 0 where
  pub runs : (s.context n.val).proc_status ≡ running
  pub positive : (s.context n.val).pid ≢ 0
  pub index : (adjust_sched_queue unset (s.context n.val)).curr_sched_queue_index ≡ k

abbrev pub AllReady : ℕ → System → ℕ → List Node → Type 0
AllReady unset s k [] = Unit
AllReady unset s k (n ∷ ns) = IsReady unset s k n × AllReady unset s k ns

abbrev pub OtherPids : System → ℕ → List Node → Type 0
OtherPids s pid [] = Unit
OtherPids s pid (n ∷ ns) = (pid ≢ (s.context n.val).pid) × OtherPids s pid ns

abbrev pub DistinctPids : System → List Node → Type 0
DistinctPids s [] = Unit
DistinctPids s (n ∷ ns) = OtherPids s (s.context n.val).pid ns × DistinctPids s ns

abbrev pub DistinctNodes : List Node → Type 0
DistinctNodes [] = Unit
DistinctNodes (n ∷ ns) = (has_node n.address ns ≡ false) × DistinctNodes ns

-- The queue `k` holds the current process `n`, then `ns`, all running, and the others are empty.
pub record IsTurn (unset : ℕ) (s : System) (k : ℕ) (n : Node) (ns : List Node) : Type 0 where
  pub inside : k < 10
  pub current : s.current_process ≡ n
  pub here : s.scheduler_queue k ≡ n ∷ ns
  pub others : (j : ℕ) → j ≢ k → s.scheduler_queue j ≡ []
  pub nodes : DistinctNodes (n ∷ ns)
  pub pids : DistinctPids s (n ∷ ns)
  pub ready : AllReady unset s k (n ∷ ns)

pub schedule-Keeps :
    (unset fresh : ℕ) (s : System) (reg : ProcessorReg) (n : Node)
    → let p = s.context s.current_process.val in
      find_in_queues s p.pid 10 0 ≡ some n
      → p.proc_status ≡ running
      → Keeps unset s (schedule unset fresh s reg).0
unfolding leave do_context_switch adjust_sched_queue
schedule-Keeps unset fresh s reg n found runs =
    let a = s.current_process.val in
    rw (schedule-found unset fresh s reg n found, runs, leave)
      (record {
        same_pid = λ b. elim (ℕ_discrete a b) [
          | yes e ↦ rw (sym e, ==_refl a) refl
          | no ne ↦ rw (==_of_ne a b ne) refl
        ];
        same_status = λ b. elim (ℕ_discrete a b) [
          | yes e ↦ rw (sym e, ==_refl a) (sym runs)
          | no ne ↦ rw (==_of_ne a b ne) refl
        ];
        same_index = λ b. elim (ℕ_discrete a b) [
          | yes e ↦ rw (sym e, ==_refl a) refl
          | no ne ↦ rw (==_of_ne a b ne) refl
        ];
      })

pub AllReady-Keeps :
    (unset : ℕ) (s t : System) (k : ℕ) (ns : List Node)
    → Keeps unset s t
    → AllReady unset s k ns
    → AllReady unset t k ns
AllReady-Keeps unset s t k [] keeps r = tt
AllReady-Keeps unset s t k (n ∷ ns) keeps (r, rs) = (
  record {
    runs = keeps.same_status n.val ∙ r.runs;
    positive = rw (keeps.same_pid n.val) r.positive;
    index = keeps.same_index n.val ∙ r.index;
  },
  AllReady-Keeps unset s t k ns keeps rs,
)

OtherPids-Keeps :
    (unset : ℕ) (s t : System) (a : ℕ) (ns : List Node)
    → Keeps unset s t
    → OtherPids s (s.context a).pid ns
    → OtherPids t (t.context a).pid ns
OtherPids-Keeps unset s t a [] keeps o = tt
OtherPids-Keeps unset s t a (n ∷ ns) keeps (o, os) =
    (rw (keeps.same_pid a, keeps.same_pid n.val) o, OtherPids-Keeps unset s t a ns keeps os)

pub DistinctPids-Keeps :
    (unset : ℕ) (s t : System) (ns : List Node)
    → Keeps unset s t
    → DistinctPids s ns
    → DistinctPids t ns
DistinctPids-Keeps unset s t [] keeps d = tt
DistinctPids-Keeps unset s t (n ∷ ns) keeps (o, ds) =
    (OtherPids-Keeps unset s t n.val ns keeps o, DistinctPids-Keeps unset s t ns keeps ds)

-- A node put behind the others, with the process that stood first.
pub AllReady-snoc :
    (unset : ℕ) (s : System) (k : ℕ) (n m : Node) (ns : List Node)
    → n.val ≡ m.val
    → IsReady unset s k n
    → AllReady unset s k ns
    → AllReady unset s k (ns ++ m ∷ [])
AllReady-snoc unset s k n m [] e r rs = (
  record { runs = rw (sym e) r.runs; positive = rw (sym e) r.positive; index = rw (sym e) r.index },
  tt,
)
AllReady-snoc unset s k n m (x ∷ ns) e r (q, rs) = (q, AllReady-snoc unset s k n m ns e r rs)

OtherPids-snoc :
    (s : System) (pid : ℕ) (m : Node) (ns : List Node)
    → pid ≢ (s.context m.val).pid
    → OtherPids s pid ns
    → OtherPids s pid (ns ++ m ∷ [])
OtherPids-snoc s pid m [] ne o = (ne, tt)
OtherPids-snoc s pid m (x ∷ ns) ne (o, os) = (o, OtherPids-snoc s pid m ns ne os)

pub DistinctPids-snoc :
    (s : System) (n m : Node) (ns : List Node)
    → n.val ≡ m.val
    → OtherPids s (s.context n.val).pid ns
    → DistinctPids s ns
    → DistinctPids s (ns ++ m ∷ [])
DistinctPids-snoc s n m [] e o d = (tt, tt)
DistinctPids-snoc s n m (x ∷ ns) e (o, os) (d, ds) = (
  OtherPids-snoc s (s.context x.val).pid m ns (λ same. o (rw e (sym same))) d,
  DistinctPids-snoc s n m ns e os ds,
)

has_node-snoc :
    (a : ℕ) (m : Node) (ns : List Node)
    → (a == m.address) ≡ false
    → has_node a ns ≡ false
    → has_node a (ns ++ m ∷ []) ≡ false
has_node-snoc a m [] ne out = rw ne refl
has_node-snoc a m (x ∷ ns) ne out = ground (arith, has_node-snoc a m ns)

pub DistinctNodes-snoc :
    (m : Node) (ns : List Node)
    → has_node m.address ns ≡ false
    → DistinctNodes ns
    → DistinctNodes (ns ++ m ∷ [])
DistinctNodes-snoc m [] out d = (refl, tt)
DistinctNodes-snoc m (x ∷ ns) out (d, ds) =
    (has_node-snoc x.address m ns (ground arith) d, DistinctNodes-snoc m ns (ground arith) ds)
