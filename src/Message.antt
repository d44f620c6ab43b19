-- ===== src/Message.antt =====
-- Message passing: Chapter8/send.c, receive.c, recvclr.c and Chapter13/recvtime.c.
pub mod Deliver
mod Tests
use os_design_xinu_approach.Prelude.{
  ℕ, true, false, ◌||◌, Option, some, if◌then◌else◌, ℤ, pos, ltb_ℤ, eqb_ℤ, ◌>>=◌,
}
use os_design_xinu_approach.Queue.{syserr, insertd}
use os_design_xinu_approach.State.{
  Prstate, pr_free, pr_recv, pr_rectim, Kernel, ok, timeout, is_free, state_of, free_in, badpid,
  proc_slot, update_proc, set_state, Call, returned, switched, same_process, uint32_of,
}
use os_design_xinu_approach.Sched.{resched, ready}
use os_design_xinu_approach.Clock.{unsleep}

-- A message is put into the one-place buffer of its receiver.
unfoldable pub deposit : Kernel → ℕ → ℕ → Kernel
deposit k p msg = update_proc k p (record (k.proctab p) { prmsg = msg; prhasmsg = true })

-- What `send` does for a receiver that waits.
unfoldable pub notify : Prstate → ℤ → Kernel → Option Kernel
notify pr_free pid k = some k
notify pr_recv pid k = ready pid k >>= λ (r, k1). some k1
notify pr_rectim pid k = do (r1, k1) ← unsleep pid k; (r2, k2) ← ready pid k1; some k2
notify _ pid k = some k

unfoldable pub send : ℤ → ℕ → Kernel → Option (ℤ × Kernel)
unfolding deposit notify
send pid msg k = if badpid k pid then some (syserr, k) else do
  p ← proc_slot pid
  if is_free (state_of k p) || (k.proctab p).prhasmsg
      then some (syserr, k)
      else do k1 ← notify (state_of k p) pid (deposit k p msg); some (ok, k1)

-- Taking the message out of the buffer of the process `c`.
unfoldable pub take_message : ℕ → Kernel → ℤ × Kernel
take_message c k =
    (pos (k.proctab c).prmsg, update_proc k c (record (k.proctab c) { prhasmsg = false }))

-- The part of `receive` after `resched`. The message stands for its `uint32` value.
unfoldable pub receive_rest : ℕ → Kernel → ℤ × Kernel
unfolding take_message
receive_rest c k = take_message c k

unfoldable pub receive : Kernel → Option Call
unfolding receive_rest
receive k = do
  c ← proc_slot k.currpid
  if (k.proctab c).prhasmsg
      then (let (msg, k1) = receive_rest c k in some (returned msg k1))
      else do
        k1 ← resched (set_state k c pr_recv)
        let (msg, k2) = receive_rest c k1
        if same_process k k1 then some (returned msg k2) else some (switched k1)

unfoldable pub recvclr : Kernel → Option (ℤ × Kernel)
unfolding take_message
recvclr k = do
  c ← proc_slot k.currpid
  if (k.proctab c).prhasmsg then some (take_message c k) else some (ok, k)

-- `TIMEOUT` and `SYSERR` as `umsg32`
abbrev pub timeout_msg : ℤ
timeout_msg = pos (uint32_of timeout)

abbrev pub syserr_msg : ℤ
syserr_msg = pos (uint32_of syserr)

-- The part of `recvtime` after `resched`.
unfoldable pub recvtime_rest : ℕ → Kernel → ℤ × Kernel
unfolding take_message
recvtime_rest c k = if (k.proctab c).prhasmsg then take_message c k else (timeout_msg, k)

unfoldable pub recvtime : ℤ → Kernel → Option Call
unfolding recvtime_rest
recvtime maxwait k = if ltb_ℤ maxwait (pos 0) then some (returned syserr_msg k) else do
  c ← proc_slot k.currpid
  if (k.proctab c).prhasmsg
      then (let (msg, k1) = recvtime_rest c k in some (returned msg k1))
      else do
        (r, t) ← insertd (free_in k) k.currpid k.sleepq maxwait k.queuetab
        if eqb_ℤ r syserr then some (returned syserr_msg k) else do
          k1 ← resched (set_state (record k { queuetab = t }) c pr_rectim)
          let (msg, k2) = recvtime_rest c k1
          if same_process k k1 then some (returned msg k2) else some (switched k1)
