-- ===== src/Semaphore.antt =====
-- Counting semaphores: Chapter7/semcreate.c, wait.c, signal.c, signaln.c, semdelete.c,
-- semreset.c, semcount.c. A call that loses the processor in `resched` has only its return
-- value left to give when it goes on, but for `signaln`, which is cut at that point.
pub mod Waiting
pub mod Block
pub mod Wake
pub mod Delete
mod Tests
use os_design_xinu_approach.Prelude.{
  ℕ, zero, suc, ◌+◌, true, not, ◌||◌, Option, none, some, leb, if◌then◌else◌, ℤ, pos, pos_part,
  neg_part, ◌+ℤ◌, ◌-ℤ◌, ltb_ℤ, leb_ℤ, eqb_ℤ, ◌>>=◌,
}
use os_design_xinu_approach.Queue.{nproc, nsem, empty, syserr, getfirst, enqueue, dequeue}
use os_design_xinu_approach.State.{
  pr_wait, Kernel, ok, free_in, proc_slot, update_proc, isbadsem, sem_slot, update_sem, set_count,
}
use os_design_xinu_approach.Sched.{resched, defer_start, defer_stop, resched_cntl, ready}

unfoldable pub semcount : ℤ → Kernel → Option ℤ
semcount sem k = if isbadsem sem then some syserr else do s ← sem_slot sem; some (k.semtab s).scount

-- The loop of `newsem`, by the rounds that are left.
unfoldable pub newsem_loop : ℕ → Kernel → Option (ℤ × Kernel)
newsem_loop zero k = some (syserr, k)
newsem_loop (suc rounds) k = do
  let sem = k.nextsem
  let k1 = record k { nextsem = if leb nsem (sem + 1) then 0 else sem + 1 }
  let rest = newsem_loop rounds k1
  s ← sem_slot (pos sem)
  if (k.semtab s).sused
      then rest
      else some (pos s, update_sem k1 s (record (k.semtab s) { sused = true }))

unfoldable pub newsem : Kernel → Option (ℤ × Kernel)
newsem k = newsem_loop nsem k

unfoldable pub semcreate : ℤ → Kernel → Option (ℤ × Kernel)
semcreate count k = if ltb_ℤ count (pos 0) then some (syserr, k) else do
  (sem, k1) ← newsem k
  if eqb_ℤ sem syserr
      then some (syserr, k1)
      else do s ← sem_slot sem; some (sem, set_count k1 s count)

unfoldable pub wait : ℤ → Kernel → Option (ℤ × Kernel)
wait sem k = if isbadsem sem then some (syserr, k) else do
  s ← sem_slot sem
  if not (k.semtab s).sused then some (syserr, k) else do
    let count = (k.semtab s).scount -ℤ pos 1
    let k1 = set_count k s count
    if ltb_ℤ count (pos 0)
        then (do
          c ← proc_slot k1.currpid
          let k2 = update_proc k1 c (record (k1.proctab c) { prstate = pr_wait; prsem = sem })
          (r, t) ← enqueue (free_in k2) k2.currpid (k2.semtab s).squeue k2.queuetab
          k3 ← resched (record k2 { queuetab = t })
          some (ok, k3))
        else some (ok, k1)

unfoldable pub signal : ℤ → Kernel → Option (ℤ × Kernel)
signal sem k = if isbadsem sem then some (syserr, k) else do
  s ← sem_slot sem
  if not (k.semtab s).sused then some (syserr, k) else do
    let count = (k.semtab s).scount
    let k1 = set_count k s (count +ℤ pos 1)
    if ltb_ℤ count (pos 0)
        then (do
          (pid, t) ← dequeue (k1.semtab s).squeue k1.queuetab
          (r, k2) ← ready pid (record k1 { queuetab = t })
          some (ok, k2))
        else some (ok, k1)

-- `signaln` after a run on the processor: it has returned, or it has `left` rounds to go when its
-- process runs again.
pub data Progress : Type 0 where
  returned : ℤ → Kernel → Progress
  paused : (left : ℕ) → Kernel → Progress

-- The loop of `signaln`. It is paused by a `ready` that gives the processor to another process.
unfoldable pub signaln_loop : ℕ → ℕ → Kernel → Option Progress
signaln_loop s zero k = resched k >>= λ k1. some (returned ok k1)
signaln_loop s (suc left) k =
    let count = (k.semtab s).scount in
    let k1 = set_count k s (count +ℤ pos 1) in
    let wake =
      (dequeue (k1.semtab s).squeue k1.queuetab >>= λ (pid, t).
      ready pid (record k1 { queuetab = t }) >>= λ (r, k2).
      let rest = signaln_loop s left k2 in
      if eqb_ℤ k2.currpid k.currpid then rest else some (paused left k2)) in
    let rest = signaln_loop s left k1 in if ltb_ℤ count (pos 0) then wake else rest

unfoldable pub signaln : ℤ → ℤ → Kernel → Option Progress
signaln sem count k =
    if isbadsem sem || leb_ℤ count (pos 0)
    then some (returned syserr k)
    else do s ← sem_slot sem; signaln_loop s (pos_part count) k

-- `while (semptr->scount++ < 0) ready(getfirst(semptr->squeue));`, on fuel
unfoldable pub drain : ℕ → ℕ → Kernel → Option Kernel
drain zero s k = none
drain (suc fuel) s k =
    let count = (k.semtab s).scount in
    let k1 = set_count k s (count +ℤ pos 1) in
    let more =
      (getfirst (k1.semtab s).squeue k1.queuetab >>= λ (pid, t).
      ready pid (record k1 { queuetab = t }) >>= λ (r, k2). drain fuel s k2) in
    if ltb_ℤ count (pos 0) then more else some k1

-- One round for each unit that the count is below zero, and the last test.
unfoldable pub semdelete : ℤ → Kernel → Option (ℤ × Kernel)
semdelete sem k = if isbadsem sem then some (syserr, k) else do
  s ← sem_slot sem
  if not (k.semtab s).sused then some (syserr, k) else do
    (r1, k1) ← resched_cntl defer_start k
    k2 ← drain (neg_part (k.semtab s).scount + 1) s k1
    (r2, k3) ← resched_cntl defer_stop k2
    some (ok, k3)

-- `while ((pid = getfirst(semqueue)) != EMPTY) ready(pid);`, on fuel
unfoldable pub release_all : ℕ → ℤ → Kernel → Option Kernel
release_all zero q k = none
release_all (suc fuel) q k = getfirst q k.queuetab >>= λ (pid, t).
    let more = (ready pid (record k { queuetab = t }) >>= λ (r, k1). release_all fuel q k1) in
    if eqb_ℤ pid empty then some (record k { queuetab = t }) else more

-- A queue holds at most `nproc` processes.
unfoldable pub semreset : ℤ → ℤ → Kernel → Option (ℤ × Kernel)
semreset sem count k = if ltb_ℤ count (pos 0) || isbadsem sem then some (syserr, k) else do
  s ← sem_slot sem
  if not (k.semtab s).sused then some (syserr, k) else do
    (r1, k1) ← resched_cntl defer_start k
    k2 ← release_all (nproc + 1) (k.semtab s).squeue k1
    (r2, k3) ← resched_cntl defer_stop (set_count k2 s count)
    some (ok, k3)
