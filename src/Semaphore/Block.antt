-- ===== src/Semaphore/Block.antt =====
-- A `wait` (Chapter7/wait.c) that blocks its caller.
use os_design_xinu_approach.Prelude.{
  ℕ, ◌≡◌, refl, sym, ◌≢◌, false, List, [], ◌∷◌, ◌++◌, arith, pos, ◌≤ℤ◌, Runs,
}
use os_design_xinu_approach.Queue.Frame.{HeadsApart}
use os_design_xinu_approach.State.{pr_wait, Kernel, ok, is_curr, state_of}
use os_design_xinu_approach.Sched.Resched.{Scheduled, Running, resched-leaves, dispatched-Running}
use os_design_xinu_approach.Semaphore.{wait}
use os_design_xinu_approach.Semaphore.Waiting.{
  SemQueue, blocked, wait-eq, ReadyList-blocked, SemQueue-blocked, SemQueue-dispatched,
}

-- A `wait` on a count that is not above zero puts its caller, in state PR_WAIT, at the end of the
-- semaphore's queue; the first ready process runs, the ready list is in order, and the count
-- is again minus the number of waiting processes.
pub wait-blocks :
    (k : Kernel) (s q r c p : ℕ) (ws ps : List ℕ)
    → SemQueue k s q ws
    → Running k r (p ∷ ps) c
    → HeadsApart q r
    → k.ndefers ≤ℤ pos 0
    → (k.semtab s).scount ≤ℤ pos 0
    → Runs (wait (pos s) k) λ (st, k').
      (st ≡ ok) × Running k' r ps p × SemQueue k' s q (ws ++ c ∷ []) × (state_of k' c ≡ pr_wait)
wait-blocks k s q r c p ws ps m run heads now none_free =
    let k1 = blocked k s q c ws in
    let list = ReadyList-blocked k s q r c ws (p ∷ ps) m run heads in
    let sched : Scheduled k1 r (p ∷ ps) c = record {
      list = list;
      current = run.scheduled.current;
      in_table = run.scheduled.in_table;
      off_list = run.scheduled.off_list;
    } in
    let other : p ≢ c = λ e. run.scheduled.off_list.0 (sym e) in
    let gone : is_curr (state_of k1 c) ≡ false = ground arith in
    rw (wait-eq k s q c ws m run none_free, resched-leaves k1 r c p ps sched now gone)
      (
        refl,
        dispatched-Running k1 r p ps list,
        SemQueue-dispatched k1 s q r p (ws ++ c ∷ []) ps
            (SemQueue-blocked k s q r c ws (p ∷ ps) m run heads none_free) list heads,
        ground arith,
      )
