-- ===== src/Semaphore/Wake.antt =====
-- `signal` (Chapter7/signal.c) makes the process that has waited longest ready.
use os_design_xinu_approach.Prelude.{
  ℕ, suc, ◌+◌, ◌<◌, ◌≡◌, refl, sym, ◌≢◌, true, false, Option, none, some, List, [], ◌∷◌, arith,
  length, All-map, Apart, pos, neg_part, ◌+ℤ◌, ◌≤ℤ◌, ◌<ℤ◌, ◌>>=◌, Runs, Runs-both,
}
use os_design_xinu_approach.Queue.{nproc, nsem, dequeue}
use os_design_xinu_approach.Queue.Spans.{first}
use os_design_xinu_approach.Queue.Enqueue.{taken, dequeue-eq, Holds-taken}
use os_design_xinu_approach.Queue.Frame.{
  HeadsApart, Holds-taken_other, Clear-disjoint, HeadsApart-sym,
}
use os_design_xinu_approach.State.{
  pr_curr, pr_ready, pr_wait, Kernel, ok, is_free, state_of, set_count,
}
use os_design_xinu_approach.Sched.{resched, ready}
use os_design_xinu_approach.Sched.ReadyList.{queued, ReadyList-frame, Apart-state}
use os_design_xinu_approach.Sched.Resched.{Scheduled, Running, SomeRunning, resched-Running}
use os_design_xinu_approach.Sched.Ready.{joined, ready-eq, Scheduled-queued, joined-ne-nil}
use os_design_xinu_approach.Semaphore.{signal}
use os_design_xinu_approach.Semaphore.Waiting.{SemQueue, SemQueue-queued, resched-SemQueue}
use os_design_xinu_approach.Sched.Kept.{Active, resched-both}

-- `k` after `signal` has taken `w` from the queue of `s`
abbrev pub woken : Kernel → ℕ → ℕ → ℕ → List ℕ → Kernel
woken k s q w ws = record (set_count k s ((k.semtab s).scount +ℤ pos 1)) {
  queuetab = taken k.queuetab w q (first ws (q + 1));
}

-- With nobody waiting, `signal` adds a unit.
pub signal-idle :
    (k : Kernel) (s q : ℕ)
    → SemQueue k s q []
    → signal (pos s) k ≡ some (ok, set_count k s ((k.semtab s).scount +ℤ pos 1))
unfolding signal
signal-idle k s q m =
    let lt : s < nsem = m.in_table in
    let used = m.used in let counted : neg_part (k.semtab s).scount ≡ 0 = m.counted in ground arith

signal_run :
    (k : Kernel) (s q w : ℕ) (ws : List ℕ)
    → s < nsem
    → (k.semtab s).sused ≡ true
    → (k.semtab s).squeue ≡ pos q
    → (k.semtab s).scount <ℤ pos 0
    → dequeue (pos q) k.queuetab ≡ some (pos w, taken k.queuetab w q (first ws (q + 1)))
    → signal (pos s) k ≡ (ready (pos w) (woken k s q w ws) >>= λ (r, k2). some (ok, k2))
unfolding signal
signal_run k s q w ws lt used id below deq = ground arith

pub signal-eq :
    (k : Kernel) (s q w : ℕ) (ws : List ℕ)
    → SemQueue k s q (w ∷ ws)
    → signal (pos s) k ≡ (ready (pos w) (woken k s q w ws) >>= λ (r, k2). some (ok, k2))
signal-eq k s q w ws m =
    let counted : neg_part (k.semtab s).scount ≡ suc (length ws) = m.counted in
    signal_run k s q w ws m.in_table m.used m.queue_id (ground arith)
      (dequeue-eq k.queuetab q w ws m.holds)

module _ (k : Kernel) (s q r c w : ℕ) (ws ps : List ℕ) (m : SemQueue k s q (w ∷ ws))
    (sched : Scheduled k r ps c) (heads : HeadsApart q r) where
  woken_off_list : Apart w ps
  woken_off_list = Apart-state k w pr_wait pr_ready (λ e. cc) m.waiting.0 ps sched.list.readied

  Scheduled-woken : Scheduled (woken k s q w ws) r ps c
  Scheduled-woken = record {
    list =
        ReadyList-frame k (woken k s q w ws) r w ps sched.list refl
          (Holds-taken_other k.queuetab r ps sched.list.ordered.holds q w ws (
            Clear-disjoint sched.list.ordered.holds m.holds (HeadsApart-sym heads) (
              All-map _ _ (λ p is. Apart-state k p pr_ready pr_wait (λ e. cc) is (w ∷ ws) m.waiting)
                ps sched.list.readied)))
          refl (λ p ne. refl) refl woken_off_list;
    current = sched.current;
    in_table = sched.in_table;
    off_list = sched.off_list;
  }

  SemQueue-woken : SemQueue (woken k s q w ws) s q ws
  SemQueue-woken = record {
    in_table = m.in_table;
    used = ground (arith, m.used);
    queue_id = ground (arith, m.queue_id);
    holds = Holds-taken k.queuetab q w ws m.holds;
    counted = ground (arith, m.counted);
    waiting = m.waiting.1;
  }

  -- The rest of `signal`: `ready` of the process that was taken.
  ready_woken :
      k.ndefers ≤ℤ pos 0
      → w ≢ c
      → Apart c ws
      → Runs
          (resched (queued (woken k s q w ws) w r ps))
          (λ k'. SomeRunning k' r × SemQueue k' s q ws)
  ready_woken now ne off =
      let k1 = woken k s q w ws in
      let w_in : w < nproc = m.holds.members.0 in
      let sched1 = Scheduled-queued k1 r c w ps Scheduled-woken w_in ne woken_off_list in
      Runs-both (resched (queued k1 w r ps)) (λ k'. SomeRunning k' r) (λ k'. SemQueue k' s q ws)
        (resched-Running (queued k1 w r ps) r c (joined k1 w ps) sched1 now (joined-ne-nil k1 w ps))
        (resched-SemQueue (queued k1 w r ps) s q r c ws (joined k1 w ps)
          (SemQueue-queued k1 s q r w ws ps SemQueue-woken Scheduled-woken.list heads w_in
            m.holds.distinct.0)
          sched1 heads off (joined-ne-nil k1 w ps) now)

-- With rescheduling not deferred, a `signal` on a semaphore with waiting processes takes the one
-- that has waited longest from the queue and makes it ready: afterwards it is ready or runs. The
-- others go on waiting in order, the count is again minus their number, and the most urgent process
-- runs.
pub signal-wakes :
    (k : Kernel) (s q r c w : ℕ) (ws ps : List ℕ)
    → SemQueue k s q (w ∷ ws)
    → Running k r ps c
    → HeadsApart q r
    → k.ndefers ≤ℤ pos 0
    → Runs
        (signal (pos s) k)
        λ (st, k'). (st ≡ ok) × SomeRunning k' r × SemQueue k' s q ws × Active k' w
signal-wakes k s q r c w ws ps m run heads now =
    let k1 = woken k s q w ws in
    let off = Apart-state k c pr_curr pr_wait (λ e. cc) run.state (w ∷ ws) m.waiting in
    let live : is_free (state_of k1 w) ≡ false = rw m.waiting.0 refl in
    rw
      (
        signal-eq k s q w ws m,
        ready-eq k1 r w ps (Scheduled-woken k s q r c w ws ps m run.scheduled heads).list
            m.holds.members.0 live,
      )
      (Runs-ok (resched (queued k1 w r ps)) (
        resched-both (queued k1 w r ps) w (λ k'. SomeRunning k' r × SemQueue k' s q ws)
          (ground arith)
          (ready_woken k s q r c w ws ps m run.scheduled heads now (λ e. off.0 (sym e)) off.1)))
  where
    Runs-ok :
        (o : Option Kernel)
        → Runs o (λ k'. (SomeRunning k' r × SemQueue k' s q ws) × Active k' w)
        → Runs
            ((o >>= λ k2. some (ok, k2)) >>= λ (r, k2). some (ok, k2))
            (λ (st, k'). (st ≡ ok) × SomeRunning k' r × SemQueue k' s q ws × Active k' w)
    Runs-ok none h = h
    Runs-ok (some k') h = (refl, h.0.0, h.0.1, h.1)
