-- ===== src/Semaphore/Tests.antt =====
-- The semaphores of Chapter7 at a kernel with two waiting processes.
use os_design_xinu_approach.Prelude.{◌≡◌, refl, true, [], ◌∷◌, ◌++◌, arith, pos, Runs}
use os_design_xinu_approach.State.{pr_wait, Kernel, ok, state_of}
use os_design_xinu_approach.Samples.{vacant, kernel, kernel-Running, kernel-SemQueue, kernel-heads}
use os_design_xinu_approach.Sched.Resched.{Running, SomeRunning}
use os_design_xinu_approach.Semaphore.{wait, signal}
use os_design_xinu_approach.Semaphore.Waiting.{SemQueue}
use os_design_xinu_approach.Semaphore.Block.{wait-blocks}
use os_design_xinu_approach.Semaphore.Wake.{signal-wakes}
use os_design_xinu_approach.Queue.{empty, update}
use os_design_xinu_approach.Sched.Kept.{Active}

-- The semaphore 1 has the count 2 and nobody waits on it.
abbrev idle : Kernel
idle = record kernel {
  queuetab = record vacant {
    qnext = update (update vacant.qnext 102 (pos 103)) 103 empty;
    qprev = update (update vacant.qprev 103 (pos 102)) 102 empty;
  };
  semtab = λ s. record { sused = true; scount = pos 2; squeue = pos 102 };
}

idle-SemQueue : SemQueue idle 1 102 []
idle-SemQueue = record {
  in_table = omega arith;
  used = refl;
  queue_id = refl;
  holds = record {
    low = omega arith;
    high = omega arith;
    chain = (refl, refl);
    members = tt;
    distinct = tt;
  };
  counted = omega arith;
  waiting = tt;
}

wait-blocks_example : Runs (wait (pos 0) kernel) λ (st, k').
    (st ≡ ok)
    × Running k' 110 (3 ∷ []) 7
    × SemQueue k' 0 100 ((5 ∷ 6 ∷ []) ++ 4 ∷ [])
    × (state_of k' 4 ≡ pr_wait)
wait-blocks_example =
    wait-blocks kernel 0 100 110 4 7 (5 ∷ 6 ∷ []) (3 ∷ []) kernel-SemQueue kernel-Running
      kernel-heads (omega arith) (omega arith)

signal-wakes_example :
    Runs
      (signal (pos 0) kernel)
      λ (st, k'). (st ≡ ok) × SomeRunning k' 110 × SemQueue k' 0 100 (6 ∷ []) × Active k' 5
signal-wakes_example =
    signal-wakes kernel 0 100 110 4 5 (6 ∷ []) (7 ∷ 3 ∷ []) kernel-SemQueue kernel-Running
      kernel-heads (omega arith)
