-- ===== src/Threads/Stay.antt =====
-- A running thread keeps the processor: `th_resched` and `th_ready` (Threads/th_resched.c, th_ready.c).
use os_design_xinu_approach.Prelude.{ℕ, ◌<◌, ◌≡◌, ◌≢◌, false, arith, pos, Runs}
use os_design_xinu_approach.State.{pr_curr, pr_ready, ok, is_free}
use os_design_xinu_approach.Queue.{nproc}
use os_design_xinu_approach.Threads.{nthread, Threads, Threadops, th_resched, th_ready}

-- `th_ready` of another thread, whatever its priority, runs to its end and leaves the current thread
-- running: at the most it notes that a switch was asked for. The new thread is ready and in the list.
th_ready-stays :
    {Queues : Type 0} (ops : Threadops Queues) (s : Threads Queues) (t c p : ℕ)
    → t < nthread
    → is_free (s.threadtab t).thstate ≡ false
    → s.currtid ≡ pos c
    → c < nthread
    → t ≢ c
    → (s.threadtab c).thstate ≡ pr_curr
    → s.kernel.currpid ≡ pos p
    → p < nproc
    → Runs (th_ready ops (pos t) s) λ (r, s').
      (r ≡ ok)
      × (s'.currtid ≡ pos c)
      × ((s'.threadtab c).thstate ≡ pr_curr)
      × ((s'.threadtab t).thstate ≡ pr_ready)
      × (s'.queues ≡ ops.th_insert (pos t) (s.th_readylist p) (s.threadtab t).thprio s.queues)
unfolding th_ready th_resched
th_ready-stays ops s t c p lt live current lt_c other running proc lt_p = ground arith
