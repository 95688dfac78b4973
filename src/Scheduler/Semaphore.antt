-- ===== src/Scheduler/Semaphore.antt =====
-- synchro_types/semaphore.c: counting semaphores on top of `_sleep` and `_awake`.
use g_os.Common.{
  ==_refl, List, [], ap, append_assoc, arith, if◌then◌else◌, length, refl, suc, ℕ, ◌++◌, ◌+◌, ◌-◌,
  ◌==◌, ◌∙◌, ◌∷◌, ◌≡◌,
}
use g_os.Scheduler.{System, awake, running, sleep, sleeping}

-- `t_sem_desc`, less the spinlock, which no code uses. `wait_queue` holds the contexts that the
-- nodes of the list point to, from `ll_first` on.
pub record SemDesc : Type 0 where
  pub wait_queue : List ℕ
  pub count : ℕ

pub sem_init : ℕ → SemDesc
sem_init count = record { wait_queue = []; count = count }

pub sem_down : SemDesc → System → SemDesc × System
sem_down sem s =
    if sem.count == 0
    then (record sem { wait_queue = sem.wait_queue ++ s.current_process.val ∷ [] }, sleep s)
    else (record sem { count = sem.count - 1 }, s)

pub sem_up : (unset fresh : ℕ) → SemDesc → System → SemDesc × System
sem_up unset fresh sem s = elim (sem.wait_queue) [
  | [] ↦ (record sem { count = sem.count + 1 }, s)
  | a ∷ later ↦ (record sem { wait_queue = later }, awake unset fresh s a)
]

-- A process that has to wait is put behind the others and sleeps.
pub sem_down-waits :
    (sem : SemDesc) (s : System)
    → sem.count ≡ 0
    → let (sem', s') = sem_down sem s in
      (sem'.wait_queue ≡ sem.wait_queue ++ s.current_process.val ∷ [])
      × (sem'.count ≡ 0)
      × ((s'.context s.current_process.val).proc_status ≡ sleeping)
unfolding sem_down sleep
sem_down-waits sem s e = rw e (refl, refl, rw (==_refl s.current_process.val) refl)

-- A later call on the semaphore, with the system as it is then: `sem_down` by the process that is
-- current then, or `sem_up`.
pub data Call : Type 0 where
  down : System → Call
  up : (unset fresh : ℕ) → System → Call

abbrev pub after_calls : List Call → SemDesc → SemDesc
after_calls [] sem = sem
after_calls (down t ∷ calls) sem = after_calls calls (sem_down sem t).0
after_calls (up unset fresh t ∷ calls) sem = after_calls calls (sem_up unset fresh sem t).0

abbrev pub ups : List Call → ℕ
ups [] = 0
ups (down t ∷ calls) = ups calls
ups (up unset fresh t ∷ calls) = suc (ups calls)

-- With nobody else before it in the queue.
abbrev IsNext : SemDesc → ℕ → Type 0
IsNext sem c = (sem.count ≡ 0) × (later : List ℕ) × (sem.wait_queue ≡ c ∷ later)

down_queued :
    (sem : SemDesc) (t : System) (ws later : List ℕ) (c : ℕ)
    → sem.count ≡ 0
    → sem.wait_queue ≡ ws ++ c ∷ later
    → ((sem_down sem t).0.count ≡ 0)
      × ((sem_down sem t).0.wait_queue ≡ ws ++ c ∷ (later ++ t.current_process.val ∷ []))
unfolding sem_down
down_queued sem t ws later c e q =
    rw e (refl, rw q (append_assoc ws (c ∷ later) (t.current_process.val ∷ [])))

up_queued :
    (sem : SemDesc) (unset fresh : ℕ) (t : System) (ws : List ℕ) (c : ℕ)
    → sem.wait_queue ≡ c ∷ ws
    → ((sem_up unset fresh sem t).0 ≡ record sem { wait_queue = ws })
      × ((sem_up unset fresh sem t).1 ≡ awake unset fresh t c)
unfolding sem_up
up_queued sem unset fresh t ws c q = rw (sem_up, q) (refl, refl)

after_calls-IsNext :
    (calls : List Call) (sem : SemDesc) (ws later : List ℕ) (c : ℕ)
    → sem.count ≡ 0
    → sem.wait_queue ≡ ws ++ c ∷ later
    → ups calls ≡ length ws
    → IsNext (after_calls calls sem) c
after_calls-IsNext [] sem [] later c e q n = (e, later, q)
after_calls-IsNext [] sem (w ∷ ws) later c e q n = absurd (omega arith)
after_calls-IsNext (down t ∷ calls) sem ws later c e q n =
    let (e', q') = down_queued sem t ws later c e q in
    after_calls-IsNext calls (sem_down sem t).0 ws (later ++ t.current_process.val ∷ []) c e' q' n
after_calls-IsNext (up unset fresh t ∷ calls) sem [] later c e q n = absurd (omega arith)
after_calls-IsNext (up unset fresh t ∷ calls) sem (w ∷ ws) later c e q n =
    let taken = (up_queued sem unset fresh t (ws ++ c ∷ later) w q).0 in
    let sem' = (sem_up unset fresh sem t).0 in
    after_calls-IsNext calls sem' ws later c (ap (λ (x : SemDesc). x.count) taken ∙ e)
      (ap (λ (x : SemDesc). x.wait_queue) taken) (omega arith)

awake-running :
    (unset fresh : ℕ) (s : System) (a : ℕ)
    → ((awake unset fresh s a).context a).proc_status ≡ running
unfolding awake
awake-running unset fresh s a = rw (awake, ==_refl a) refl

-- A process that calls `sem_down` while the count is 0 is put to sleep, and its turn comes after
-- the turns of those that wait already and before the turn of any that come later: once
-- `sem_up` has been called as often as others waited before it, with any calls of `sem_down` in between
-- and whatever the rest of the system is at each of the calls, the count is 0 and the next `sem_up`
-- awakes this very process: it is runnable again, and its place is not counted as free.
pub sem_up-in_turn :
    (sem : SemDesc) (s t : System) (unset fresh : ℕ) (calls : List Call)
    → sem.count ≡ 0
    → ups calls ≡ length sem.wait_queue
    → (let c = s.current_process.val in
        let before = after_calls calls (sem_down sem s).0 in
        let (sem', t') = sem_up unset fresh before t in
        (((sem_down sem s).1.context c).proc_status ≡ sleeping)
        × (before.count ≡ 0)
        × (t' ≡ awake unset fresh t c)
        × ((t'.context c).proc_status ≡ running)
        × (sem'.count ≡ 0))
sem_up-in_turn sem s t unset fresh calls e n =
    let c = s.current_process.val in
    let waits = sem_down-waits sem s e in
    let before = after_calls calls (sem_down sem s).0 in
    let (none_free, later, first) =
      after_calls-IsNext calls (sem_down sem s).0 sem.wait_queue [] c waits.1 waits.0 n in
    let (taken, woken) = up_queued before unset fresh t later c first in
    (
      waits.2,
      none_free,
      woken,
      ap (λ (x : System). (x.context c).proc_status) woken ∙ awake-running unset fresh t c,
      ap (λ (x : SemDesc). x.count) taken ∙ none_free,
    )
