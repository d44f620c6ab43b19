-- ===== src/Clock.antt =====
-- Real time: Chapter13/sleep.c, unsleep.c, wakeup.c and clkhandler.c, over the delta list of
-- Chapter13/insertd.c, and `yield` of inclusions.h.
pub mod Delays
pub mod Wakeup
pub mod Rest
pub mod Ticks
pub mod Remaining
pub mod Handler
mod Tests
use os_design_xinu_approach.Prelude.{
  ℕ, zero, suc, ◌+◌, ◌-◌, ◌*◌, ◌%◌, ◌^◌, Bool, false, not, Option, none, some, ltb, ◌==◌,
  if◌then◌else◌, ℤ, pos, ◌+ℤ◌, ◌-ℤ◌, ltb_ℤ, leb_ℤ, eqb_ℤ, ◌>>=◌,
}
use os_design_xinu_approach.Queue.{
  nproc, syserr, key_of, next_of, set_key, firstid, isempty, getitem, dequeue, insertd,
}
use os_design_xinu_approach.State.{
  pr_sleep, Kernel, ok, quantum, is_delayed, state_of, free_in, badpid, proc_slot, set_state, Call,
  returned, switched, same_process, int32_of,
}
use os_design_xinu_approach.Sched.{resched, defer_start, defer_stop, resched_cntl, ready}

-- `CLKTICKS_PER_SEC` and `MAXSECONDS`
abbrev pub clkticks_per_sec : ℕ
clkticks_per_sec = 1000

abbrev pub maxseconds : ℕ
maxseconds = 4294967

unfoldable pub yield : Kernel → Option (ℤ × Kernel)
yield k = resched k >>= λ k1. some (ok, k1)

-- `delay` is a `uint32`, the key of `insertd` an `int32`. After the switch only OK is returned.
unfoldable pub sleepms : ℕ → Kernel → Option (ℤ × Kernel)
sleepms delay k = if delay == 0 then (yield k >>= λ (r, k1). some (ok, k1)) else do
  (r, t) ← insertd (free_in k) k.currpid k.sleepq (int32_of delay) k.queuetab
  if eqb_ℤ r syserr then some (syserr, k) else do
    c ← proc_slot k.currpid
    k1 ← resched (set_state (record k { queuetab = t }) c pr_sleep)
    some (ok, k1)

unfoldable pub sleep : ℕ → Kernel → Option (ℤ × Kernel)
sleep delay k =
    if ltb maxseconds delay
    then some (syserr, k)
    else do (r, k1) ← sleepms (clkticks_per_sec * delay % 2 ^ 32) k; some (ok, k1)

unfoldable pub unsleep : ℤ → Kernel → Option (ℤ × Kernel)
unsleep pid k = if badpid k pid then some (syserr, k) else do
  p ← proc_slot pid
  if not (is_delayed (state_of k p)) then some (syserr, k) else do
    pidnext ← next_of k.queuetab pid
    t1 ←
        (if ltb_ℤ pidnext (pos nproc)
          then (do
            later ← key_of k.queuetab pidnext
            key ← key_of k.queuetab pid
            set_key k.queuetab pidnext (later +ℤ key))
          else some k.queuetab)
    (r, t2) ← getitem pid t1
    some (ok, record k { queuetab = t2 })

-- `nonempty(sleepq) && (firstkey(sleepq) <= 0)`
unfoldable pub due : Kernel → Option Bool
due k = do
  i ← firstid k.queuetab k.sleepq
  if ltb_ℤ i (pos nproc)
      then (do key ← key_of k.queuetab i; some (leb_ℤ key (pos 0)))
      else some false

-- The loop of `wakeup`, on fuel.
unfoldable pub wake_due : ℕ → Kernel → Option Kernel
wake_due zero k = none
wake_due (suc fuel) k = due k >>= λ more.
    let next =
      (dequeue k.sleepq k.queuetab >>= λ (pid, t).
      ready pid (record k { queuetab = t }) >>= λ (r, k1). wake_due fuel k1) in
    if more then next else some k

-- A queue holds at most `nproc` processes.
unfoldable pub wakeup : Kernel → Option Kernel
wakeup k = do
  (r1, k1) ← resched_cntl defer_start k
  k2 ← wake_due (nproc + 1) k1
  (r2, k3) ← resched_cntl defer_stop k2
  some k3

-- The end of `clkhandler`: the time slice. `preempt` is a `uint32`.
unfoldable pub clkhandler_rest : Kernel → Option Kernel
clkhandler_rest k =
    let left = (k.preempt + (2 ^ 32 - 1)) % 2 ^ 32 in
    if left == 0
    then resched (record k { preempt = quantum })
    else some (record k { preempt = left })

-- The seconds: `count1000` is a `uint32` too.
unfoldable pub count_second : Kernel → Kernel
count_second k =
    let left = (k.count1000 + (2 ^ 32 - 1)) % 2 ^ 32 in
    if left == 0
    then record k { clktime = (k.clktime + 1) % 2 ^ 32; count1000 = clkticks_per_sec }
    else record k { count1000 = left }

-- The first part of `clkhandler`, up to the return of `wakeup`.
unfoldable pub clock_tick : Kernel → Option Kernel
clock_tick k = do
  let k1 = count_second k
  nobody ← isempty k1.queuetab k1.sleepq
  if nobody then some k1 else do
    i ← firstid k1.queuetab k1.sleepq
    key ← key_of k1.queuetab i
    t ← set_key k1.queuetab i (key -ℤ pos 1)
    let k2 = record k1 { queuetab = t }
    if leb_ℤ (key -ℤ pos 1) (pos 0) then wakeup k2 else some k2

-- A handler has no result; `returned ok` says that it ran to its end.
unfoldable pub clkhandler : Kernel → Option Call
clkhandler k = do
  k1 ← clock_tick k
  if same_process k k1
      then (do k2 ← clkhandler_rest k1; some (returned ok k2))
      else some (switched k1)
