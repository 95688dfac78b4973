-- ===== src/Scheduler/Priority.antt =====
-- Which queue a process belongs to.
use g_os.Common.{
  ==_of_ne, ==_refl, arith, false, refl, sym, ℕ, ◌%◌, ◌*◌, ◌+◌, ◌-◌, ◌/◌, ◌<◌, ◌==◌, ◌^◌, ◌∷◌, ◌≡◌,
  ◌≢◌, ◌≤◌,
}
use g_os.Scheduler.{
  System, adjust_sched_queue, awake, queue_index_of, running, sleeping, time_slept,
}

-- Every hundred of priority, up to 1000, is one queue.
queue_index_of-tenths : (unset p : ℕ) → p ≤ 1000 → queue_index_of unset p ≡ 9 - p / 100
unfolding queue_index_of
queue_index_of-tenths unset p h = ground arith

time_slept-bound : (time sleep_time : ℕ) → time_slept time sleep_time ≤ 1000
unfolding time_slept
time_slept-bound time sleep_time = ground arith

-- What `awake` makes of a process of static priority 0, and where it puts it.
pub awake-queue :
    (unset fresh : ℕ) (s : System) (a : ℕ)
    → (s.context a).static_priority ≡ 0
    → (s.context a).proc_status ≡ sleeping
    → (s.context a).pid ≢ (s.context s.current_process.val).pid
    → let t = awake unset fresh s a in
      let i = 9 - time_slept s.time (s.context a).sleep_time / 100 in
      (i < 10)
      × (t.scheduler_queue i ≡ record { address = fresh; val = a } ∷ s.scheduler_queue i)
      × ((j : ℕ) → j ≢ i → t.scheduler_queue j ≡ s.scheduler_queue j)
      × ((t.context a).proc_status ≡ running)
      × ((t.context a).curr_sched_queue_index ≡ i)
unfolding awake adjust_sched_queue
awake-queue unset fresh s a static asleep other =
    let old = s.context a in
    let slept = time_slept s.time old.sleep_time in
    let bound = time_slept-bound s.time old.sleep_time in
    let priority : (slept + old.static_priority * 10) % 2 ^ 32 ≡ slept = rw static (omega arith) in
    let index = queue_index_of-tenths unset slept bound in
    let cur = s.current_process.val in
    let apart : a ≢ cur = λ e. other (rw e refl) in
    let waits : ((s.context cur).pid == (s.context a).pid) ≡ false =
      ==_of_ne _ _ (λ e. other (sym e)) in
    rw (==_of_ne a cur apart, waits, asleep, priority, index)
      (
        omega arith,
        rw (==_refl (9 - slept / 100)) refl,
        λ j ne. rw (==_of_ne (9 - slept / 100) j (λ e. ne (sym e))) refl,
        rw (==_refl a) refl,
        rw (==_refl a) refl,
      )
