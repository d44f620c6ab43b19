-- ===== src/Semaphore/Delete.antt =====
-- What `semdelete` (Chapter7/semdelete.c) leaves behind.
use os_design_xinu_approach.Prelude.{ℕ, ◌+◌, ◌<◌, ◌≡◌, true, some, [], arith, pos, Runs}
use os_design_xinu_approach.Queue.{nsem}
use os_design_xinu_approach.State.{Kernel, ok, set_count}
use os_design_xinu_approach.Sched.{resched_cntl}
use os_design_xinu_approach.Semaphore.{wait, drain, semdelete}
use os_design_xinu_approach.Semaphore.Waiting.{SemQueue}

semdelete_run :
    (k : Kernel) (s n : ℕ)
    → s < nsem
    → (k.semtab s).sused ≡ true
    → (k.semtab s).scount ≡ pos n
    → k.ndefers ≡ pos 0
    → Runs (semdelete (pos s) k) λ (r, k').
      (r ≡ ok)
      × ((k'.semtab s).sused ≡ true)
      × ((k'.semtab s).scount ≡ pos (n + 1))
      × (wait (pos s) k' ≡ some (ok, set_count k' s (pos n)))
unfolding semdelete drain resched_cntl wait
semdelete_run k s n lt used count now = ground arith

-- `semdelete` of a semaphore without waiting processes returns OK, but the semaphore stays in use:
-- its count has one unit more, and a later `wait` on it succeeds.
semdelete-stays_used :
    (k : Kernel) (s q n : ℕ)
    → SemQueue k s q []
    → (k.semtab s).scount ≡ pos n
    → k.ndefers ≡ pos 0
    → Runs (semdelete (pos s) k) λ (r, k').
      (r ≡ ok)
      × ((k'.semtab s).sused ≡ true)
      × ((k'.semtab s).scount ≡ pos (n + 1))
      × (wait (pos s) k' ≡ some (ok, set_count k' s (pos n)))
semdelete-stays_used k s q n m count now = semdelete_run k s n m.in_table m.used count now
