-- ===== src/State.antt =====
-- The kernel's variables: the process table (Chapter5/process.h), semaphore table
-- (Chapter7/semaphore.h), deferral record, clock (Chapter13/clock.h) and the lists and memory
-- of the components below. Tables are functions of the subscript.
use os_design_xinu_approach.Prelude.{
  ℕ, ◌-◌, ◌%◌, ◌^◌, Bool, true, false, Option, none, some, List, ltb, leb, ◌==◌, if◌then◌else◌, ℤ,
  pos, negsuc, eqb_ℤ,
}
use os_design_xinu_approach.Queue.{nproc, nsem, Queuetab, isbadpid}
use os_design_xinu_approach.Memory.{Memory}

-- `PR_FREE` … `PR_RECTIM`
pub data Prstate : Type 0 where
  pr_free pr_curr pr_ready pr_recv pr_sleep pr_susp pr_wait pr_rectim : Prstate

-- `struct procent`, without the saved stack pointer and the thread list
pub record Procent : Type 0 where
  pub prstate : Prstate
  pub prprio : ℤ
  pub prstkbase : ℕ
  pub prstklen : ℕ
  pub prname : List ℕ
  pub prsem : ℤ
  pub prparent : ℤ
  pub prmsg : ℕ
  pub prhasmsg : Bool
  pub prdesc : ℕ → ℤ

-- `struct sentry`; `sused` is the test `sstate == S_USED`.
pub record Sentry : Type 0 where
  pub sused : Bool
  pub scount : ℤ
  pub squeue : ℤ

pub record Kernel : Type 0 where
  pub queuetab : Queuetab
  pub proctab : ℕ → Procent
  pub prcount : ℤ
  pub currpid : ℤ
  pub nextpid : ℕ
  pub readylist : ℤ
  pub ndefers : ℤ
  pub attempt : Bool
  pub semtab : ℕ → Sentry
  pub nextsem : ℕ
  pub sleepq : ℤ
  pub preempt : ℕ
  pub clktime : ℕ
  pub count1000 : ℕ
  pub memory : Memory

-- `OK`, `TIMEOUT`, `NULLPROC`, `QUANTUM`
abbrev pub ok : ℤ
ok = pos 1

abbrev pub timeout : ℤ
timeout = negsuc 2

abbrev pub nullproc : ℤ
nullproc = pos 0

abbrev pub quantum : ℕ
quantum = 2

abbrev pub is_free : Prstate → Bool
is_free pr_free = true
is_free _ = false

abbrev pub is_curr : Prstate → Bool
is_curr pr_free = false
is_curr pr_curr = true
is_curr _ = false

abbrev pub is_ready : Prstate → Bool
is_ready pr_free = false
is_ready pr_ready = true
is_ready _ = false

abbrev pub is_susp : Prstate → Bool
is_susp pr_free = false
is_susp pr_susp = true
is_susp _ = false

-- `prstate == PR_SLEEP || prstate == PR_RECTIM`
abbrev pub is_delayed : Prstate → Bool
is_delayed pr_free = false
is_delayed pr_sleep = true
is_delayed pr_rectim = true
is_delayed _ = false

abbrev pub state_of : Kernel → ℕ → Prstate
state_of k p = (k.proctab p).prstate

-- The test of the macro `isbadpid`, for the queue functions.
abbrev pub free_in : Kernel → ℕ → Bool
free_in k p = is_free (state_of k p)

abbrev pub badpid : Kernel → ℤ → Bool
badpid k = isbadpid (free_in k)

-- `proctab[pid]`: `none` is a subscript outside the table.
abbrev pub proc_slot : ℤ → Option ℕ
proc_slot (pos p) = if ltb p nproc then some p else none
proc_slot (negsuc p) = none

abbrev pub update_proc : Kernel → ℕ → Procent → Kernel
update_proc k p e = record k { proctab = λ x. if p == x then e else k.proctab x }

abbrev pub set_state : Kernel → ℕ → Prstate → Kernel
set_state k p s = update_proc k p (record (k.proctab p) { prstate = s })

-- `isbadsem` and `semtab[sem]`
abbrev pub isbadsem : ℤ → Bool
isbadsem (pos s) = leb nsem s
isbadsem (negsuc s) = true

abbrev pub sem_slot : ℤ → Option ℕ
sem_slot (pos s) = if ltb s nsem then some s else none
sem_slot (negsuc s) = none

abbrev pub update_sem : Kernel → ℕ → Sentry → Kernel
update_sem k s e = record k { semtab = λ x. if s == x then e else k.semtab x }

abbrev pub set_count : Kernel → ℕ → ℤ → Kernel
set_count k s n = update_sem k s (record (k.semtab s) { scount = n })

-- How a call that may give up the processor ends: it has returned a value, or it has switched to
-- another process and goes on, with the function named `…_rest`, when its caller runs again.
pub data Call : Type 0 where
  returned : ℤ → Kernel → Call
  switched : Kernel → Call

-- The caller still has the processor.
abbrev pub same_process : Kernel → Kernel → Bool
same_process k k' = eqb_ℤ k'.currpid k.currpid

-- The value of a `uint32` that is passed as an `int32`
abbrev pub int32_of : ℕ → ℤ
int32_of w = if ltb w (2 ^ 31) then pos w else negsuc (2 ^ 32 - w - 1)

-- The value of an `int32` that is returned as a `uint32`
abbrev pub uint32_of : ℤ → ℕ
uint32_of (pos n) = n
uint32_of (negsuc n) = 2 ^ 32 - n - 1

-- The value of an `int32` that is stored in an unsigned type of `w` bits
abbrev pub uint_of : ℕ → ℤ → ℕ
uint_of w (pos n) = n % 2 ^ w
uint_of w (negsuc n) = 2 ^ w - (n % 2 ^ w) - 1

-- The store of one field of the objects, by their addresses
abbrev pub set_field : (ℕ → ℕ) → ℕ → ℕ → ℕ → ℕ
set_field f a v x = if a == x then v else f x
