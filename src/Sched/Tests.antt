-- ===== src/Sched/Tests.antt =====
-- The scheduler of Chapter5 at a kernel with two ready processes.
use os_design_xinu_approach.Prelude.{◌≡◌, refl, some, [], ◌∷◌, arith, pos, ◌>>=◌, Runs}
use os_design_xinu_approach.Queue.{getitem, getfirst, dequeue}
use os_design_xinu_approach.State.{pr_susp, Kernel, ok, set_state}
use os_design_xinu_approach.Samples.{kernel, ready-Ordered, kernel-ReadyList, kernel-Running}
use os_design_xinu_approach.Sched.{dispatch, resched, ready}
use os_design_xinu_approach.Sched.ReadyList.{ReadyList-frame}
use os_design_xinu_approach.Sched.Resched.{Scheduled, SomeRunning, resched-Running}
use os_design_xinu_approach.Sched.Ready.{ready-Running}

-- The current process 4 has been suspended.
abbrev suspended : Kernel
suspended = set_state kernel 4 pr_susp

suspended-Scheduled : Scheduled suspended 110 (7 ∷ 3 ∷ []) 4
suspended-Scheduled = record {
  list =
      ReadyList-frame kernel suspended 110 4 (7 ∷ 3 ∷ []) kernel-ReadyList refl ready-Ordered.holds
        refl (λ p ne. ground arith) refl (omega arith);
  current = refl;
  in_table = omega arith;
  off_list = omega arith;
}

-- The same with rescheduling deferred.
abbrev deferring : Kernel
deferring = record kernel { ndefers = pos 1 }

deferring-Scheduled : Scheduled deferring 110 (7 ∷ 3 ∷ []) 4
deferring-Scheduled = record {
  list =
      ReadyList-frame kernel deferring 110 4 (7 ∷ 3 ∷ []) kernel-ReadyList refl ready-Ordered.holds
        refl (λ p ne. refl) refl (omega arith);
  current = refl;
  in_table = omega arith;
  off_list = omega arith;
}

resched_switches : (resched suspended >>= λ k. some k.currpid) ≡ some (pos 7)
unfolding resched dispatch dequeue getfirst getitem
resched_switches = refl

resched-Running_example : Runs (resched suspended) (λ k'. SomeRunning k' 110)
resched-Running_example =
    resched-Running suspended 110 4 (7 ∷ 3 ∷ []) suspended-Scheduled (omega arith) (λ e. cc)

ready-Running_example : Runs (ready (pos 8) kernel) (λ (s, k'). (s ≡ ok) × SomeRunning k' 110)
ready-Running_example =
    ready-Running kernel 110 4 8 (7 ∷ 3 ∷ []) kernel-Running.scheduled (omega arith) (omega arith)
      refl (omega arith) (omega arith)
