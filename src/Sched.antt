-- ===== src/Sched.antt =====
-- The scheduler: Chapter5/resched.c and Chapter5/ready.c. `ctxsw` hands the processor to the
-- process `currpid`; the saved registers and stacks are not part of the state.
pub mod ReadyList
pub mod Resched
pub mod Ready
pub mod Kept
mod Tests
use os_design_xinu_approach.Prelude.{
  true, false, ◌&&◌, Option, some, if◌then◌else◌, ℤ, pos, ◌+ℤ◌, ◌-ℤ◌, ltb_ℤ, leb_ℤ, eqb_ℤ, ◌>>=◌,
}
use os_design_xinu_approach.Queue.{syserr, firstkey, dequeue, insert}
use os_design_xinu_approach.State.{
  pr_curr, pr_ready, Kernel, ok, quantum, is_curr, state_of, free_in, badpid, proc_slot, set_state,
}

-- The end of `resched`: the first ready process becomes the current one.
unfoldable pub dispatch : Kernel → Option Kernel
dispatch k = do
  (pid, t) ← dequeue k.readylist k.queuetab
  new ← proc_slot pid
  let k1 = record k { queuetab = t; currpid = pid }
  some (record (set_state k1 new pr_curr) { preempt = quantum })

unfoldable pub resched : Kernel → Option Kernel
resched k = if ltb_ℤ (pos 0) k.ndefers then some (record k { attempt = true }) else do
  old ← proc_slot k.currpid
  if is_curr (state_of k old)
      then (do
        top ← firstkey k.queuetab k.readylist
        if ltb_ℤ top (k.proctab old).prprio then some k else do
          let k1 = set_state k old pr_ready
          (r, t) ← insert (free_in k1) k1.currpid k1.readylist (k.proctab old).prprio k1.queuetab
          dispatch (record k1 { queuetab = t }))
      else dispatch k

-- The argument of `resched_cntl`
pub data Deferral : Type 0 where
  defer_start defer_stop : Deferral
  defer_other : Deferral

unfoldable pub resched_cntl : Deferral → Kernel → Option (ℤ × Kernel)
resched_cntl defer_start k = some (
  ok,
  record k {
    ndefers = k.ndefers +ℤ pos 1;
    attempt = if eqb_ℤ k.ndefers (pos 0) then false else k.attempt;
  },
)
resched_cntl defer_stop k =
    if leb_ℤ k.ndefers (pos 0)
    then some (syserr, k)
    else let k1 = record k { ndefers = k.ndefers -ℤ pos 1 } in
      if eqb_ℤ k1.ndefers (pos 0) && k1.attempt
      then (resched k1 >>= λ k2. some (ok, k2))
      else some (ok, k1)
resched_cntl defer_other k = some (syserr, k)

unfoldable pub ready : ℤ → Kernel → Option (ℤ × Kernel)
ready pid k = if badpid k pid then some (syserr, k) else do
  p ← proc_slot pid
  let k1 = set_state k p pr_ready
  (r, t) ← insert (free_in k1) pid k1.readylist (k1.proctab p).prprio k1.queuetab
  k2 ← resched (record k1 { queuetab = t })
  some (ok, k2)
