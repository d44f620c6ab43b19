-- ===== src/Threads.antt =====
-- Threads within a process: Threads/thread.h, gettid.c, th_ready.c, th_resched.c, th_suspend.c and
-- th_kill.c. The states `TH_…` are those of processes. The queues of threads and their stacks are
-- declared in thread.h and are nowhere defined: `Threadops` has them as parameters.
pub mod Stay
mod Tests
use os_design_xinu_approach.Prelude.{
  ℕ, Bool, true, false, ◌&&◌, ◌||◌, Option, none, some, ltb, leb, ◌==◌, if◌then◌else◌, ℤ, pos,
  negsuc, pos_part, ◌+ℤ◌, ◌-ℤ◌, ltb_ℤ, leb_ℤ, eqb_ℤ, ◌>>=◌,
}
use os_design_xinu_approach.Queue.{syserr}
use os_design_xinu_approach.State.{
  Prstate, pr_free, pr_curr, pr_ready, pr_recv, pr_sleep, pr_susp, pr_wait, pr_rectim, Kernel, ok,
  quantum, is_free, is_curr, is_ready, proc_slot, sem_slot, set_count, same_process,
}
use os_design_xinu_approach.Sched.{resched, Deferral, defer_start, defer_stop, defer_other}
use os_design_xinu_approach.Message.{send}

-- `NTHREAD`
abbrev pub nthread : ℕ
nthread = 100

-- `struct threadent`
pub record Threadent : Type 0 where
  pub thstate : Prstate
  pub thprio : ℤ
  pub thstkbase : ℕ
  pub thstklen : ℕ
  pub thsem : ℤ

-- The variables of thread.h, the queues, and the field `th_readylist` of the process table
pub record Threads (Queues : Type 0) : Type 0 where
  pub kernel : Kernel
  pub threadtab : ℕ → Threadent
  pub thcount : ℤ
  pub currtid : ℤ
  pub th_ndefers : ℤ
  pub th_attempt : Bool
  pub th_preempt : ℕ
  pub th_readylist : ℕ → ℤ
  pub queues : Queues

-- The functions on the queues of threads, on the list of delays and on stacks. Their results are
-- not looked at, but for the thread that `th_dequeue` returns.
pub record Threadops (Queues : Type 0) : Type 0 where
  pub th_insert : ℤ → ℤ → ℤ → Queues → Queues
  pub th_dequeue : ℤ → Queues → ℤ × Queues
  pub th_getitem : ℤ → Queues → Queues
  pub th_unsleep : ℤ → Queues → Queues
  pub th_freestk : ℕ → ℕ → Kernel → Kernel

-- `threadtab[tid]`: `none` is a subscript outside the table.
abbrev pub thread_slot : ℤ → Option ℕ
thread_slot (pos t) = if ltb t nthread then some t else none
thread_slot (negsuc t) = none

module _ {Queues : Type 0} where
  abbrev pub isbadtid : Threads Queues → ℤ → Bool
  isbadtid s (pos t) = leb nthread t || is_free (s.threadtab t).thstate
  isbadtid s (negsuc t) = true

  abbrev pub set_thread : Threads Queues → ℕ → Prstate → Threads Queues
  set_thread s t st =
      let e : Threadent = record (s.threadtab t) { thstate = st } in
      record s { threadtab = λ x. if t == x then e else s.threadtab x }

  unfoldable pub gettid : Threads Queues → ℤ
  gettid s = s.currtid

-- How a call ends: it has returned a value, or the processor went to another thread or process.
pub data ThreadCall (Queues : Type 0) : Type 0 where
  th_returned : ℤ → Threads Queues → ThreadCall Queues
  th_switched : Threads Queues → ThreadCall Queues

module _ {Queues : Type 0} (ops : Threadops Queues) where
  -- The end of `th_resched`: the first ready thread of the process becomes the current one.
  unfoldable pub th_dispatch : ℕ → Threads Queues → Option (Threads Queues)
  th_dispatch parent s =
      let next = ops.th_dequeue (s.th_readylist parent) s.queues in
      thread_slot (next.0) >>= λ t.
      some (record (set_thread (record s { queues = next.1; currtid = next.0 }) t pr_curr) {
        th_preempt = quantum;
      })

  -- The comparison of the priorities ends with a semicolon, so the `return` behind it is not under it.
  unfoldable pub th_resched : Threads Queues → Option (Threads Queues)
  th_resched s = if ltb_ℤ (pos 0) s.th_ndefers then some (record s { th_attempt = true }) else do
    old ← thread_slot s.currtid
    parent ← proc_slot s.kernel.currpid
    let switch = th_dispatch parent s
    if is_curr (s.threadtab old).thstate then some s else switch

  unfoldable pub th_resched_cntl : Deferral → Threads Queues → Option (ℤ × Threads Queues)
  th_resched_cntl defer_start s = some (
    ok,
    record s {
      th_ndefers = s.th_ndefers +ℤ pos 1;
      th_attempt = if eqb_ℤ s.th_ndefers (pos 0) then false else s.th_attempt;
    },
  )
  th_resched_cntl defer_stop s =
      let s1 = record s { th_ndefers = s.th_ndefers -ℤ pos 1 } in
      let switch = (th_resched s1 >>= λ s2. some (ok, s2)) in
      if leb_ℤ s.th_ndefers (pos 0)
      then some (syserr, s)
      else if eqb_ℤ s1.th_ndefers (pos 0) && s1.th_attempt
      then switch
      else some (ok, s1)
  th_resched_cntl defer_other s = some (syserr, s)

  -- After a switch only OK is left to return.
  unfoldable pub th_ready : ℤ → Threads Queues → Option (ℤ × Threads Queues)
  th_ready tid s = if isbadtid s tid then some (syserr, s) else do
    t ← thread_slot tid
    parent ← proc_slot s.kernel.currpid
    let s1 = set_thread s t pr_ready
    let queues = ops.th_insert tid (s1.th_readylist parent) (s1.threadtab t).thprio s1.queues
    s2 ← th_resched (record s1 { queues = queues })
    some (ok, s2)

  -- The part of `th_suspend` behind `th_resched`
  unfoldable pub th_suspend_rest : ℕ → Threads Queues → ℤ
  th_suspend_rest t s = (s.threadtab t).thprio

  unfoldable pub th_suspend : ℤ → Threads Queues → Option (ThreadCall Queues)
  th_suspend tid s = if isbadtid s tid then some (th_returned syserr s) else do
    t ← thread_slot tid
    let off_list = record (set_thread s t pr_susp) { queues = ops.th_getitem tid s.queues }
    let leave =
        (th_resched (set_thread s t pr_susp) >>= λ s1. some (
          if eqb_ℤ s1.currtid s.currtid
          then th_returned (th_suspend_rest t s1) s1
          else th_switched s1))
    if is_ready (s.threadtab t).thstate
        then some (th_returned (th_suspend_rest t off_list) off_list)
        else if is_curr (s.threadtab t).thstate
        then leave
        else some (th_returned syserr s)

  -- The case TH_SLEEP of `th_kill`, into which TH_CURR falls
  unfoldable pub kill_delayed : ℤ → ℕ → Threads Queues → ThreadCall Queues
  kill_delayed tid t s =
      th_returned ok (set_thread (record s { queues = ops.th_unsleep tid s.queues }) t pr_free)

  -- The case TH_READY, which falls into the last one
  unfoldable pub kill_ready : ℤ → ℕ → Threads Queues → ThreadCall Queues
  kill_ready tid t s =
      th_returned ok (set_thread (record s { queues = ops.th_getitem tid s.queues }) t pr_free)

  -- The cases of `th_kill`
  unfoldable pub kill_thread : ℤ → ℕ → Prstate → Threads Queues → Option (ThreadCall Queues)
  kill_thread tid t pr_curr s = th_resched (set_thread s t pr_free) >>= λ s1.
      some (if eqb_ℤ s1.currtid s.currtid then kill_delayed tid t s1 else th_switched s1)
  kill_thread tid t pr_sleep s = some (kill_delayed tid t s)
  kill_thread tid t pr_rectim s = some (kill_delayed tid t s)
  kill_thread tid t pr_wait s = do
    let sem = (s.threadtab t).thsem
    i ← sem_slot sem
    let k = set_count s.kernel i ((s.kernel.semtab i).scount +ℤ pos 1)
    some (kill_ready tid t (record s { kernel = k }))
  kill_thread tid t pr_ready s = some (kill_ready tid t s)
  kill_thread tid t pr_free s = some (th_returned ok (set_thread s t pr_free))
  kill_thread tid t pr_recv s = some (th_returned ok (set_thread s t pr_free))
  kill_thread tid t pr_susp s = some (th_returned ok (set_thread s t pr_free))

  -- `th_kill` behind the change of the count
  unfoldable pub th_kill_rest : ℤ → ℕ → Threads Queues → Option (ThreadCall Queues)
  th_kill_rest tid t s = do
    (r, k) ← send s.kernel.currpid (pos_part tid) s.kernel
    let e = s.threadtab t
    let s1 = record s { kernel = ops.th_freestk e.thstkbase e.thstklen k }
    let cases = kill_thread tid t (s1.threadtab t).thstate s1
    if same_process s.kernel k then cases else some (th_switched (record s { kernel = k }))

  unfoldable pub th_kill : ℤ → Threads Queues → Option (ThreadCall Queues)
  th_kill tid s = if isbadtid s tid then some (th_returned syserr s) else do
    t ← thread_slot tid
    let s1 = record s { thcount = s.thcount -ℤ pos 1 }
    let last =
        (resched s1.kernel >>= λ k.
        let rest = th_kill_rest tid t (record s1 { kernel = k }) in
        if same_process s1.kernel k then rest else some (th_switched (record s1 { kernel = k })))
    let rest = th_kill_rest tid t s1
    if leb_ℤ s1.thcount (pos 1) then last else rest
