-- ===== src/Process.antt =====
-- Process management: Chapter6/create.c, kill.c, suspend.c, resume.c, chprio.c, getprio.c,
-- getpid.c, userret.c. The words that `create` writes on the new stack are not modelled.
pub mod Pids
pub mod Suspend
pub mod Create
mod Tests
use os_design_xinu_approach.Prelude.{
  ℕ, zero, suc, ◌+◌, ◌-◌, ◌%◌, ◌^◌, false, not, ◌&&◌, ◌||◌, Option, none, some, List, [], ◌∷◌, ltb,
  if◌then◌else◌, ℤ, pos, negsuc, ◌+ℤ◌, ◌-ℤ◌, ltb_ℤ, leb_ℤ, eqb_ℤ, ◌>>=◌,
}
use os_design_xinu_approach.Queue.{nproc, syserr, getitem}
use os_design_xinu_approach.Memory.{roundmb, getstk, freestk}
use os_design_xinu_approach.State.{
  Prstate, pr_free, pr_curr, pr_ready, pr_recv, pr_sleep, pr_susp, pr_wait, pr_rectim, Procent,
  Kernel, ok, nullproc, is_free, is_curr, is_ready, is_susp, state_of, badpid, proc_slot,
  update_proc, set_state, sem_slot, set_count, Call, returned, switched, same_process,
}
use os_design_xinu_approach.Sched.{resched, ready}
use os_design_xinu_approach.Clock.{unsleep}
use os_design_xinu_approach.Message.{send}

-- `MINSTK`, `PNMLEN`
abbrev pub minstk : ℕ
minstk = 400

abbrev pub pnmlen : ℕ
pnmlen = 16

unfoldable pub getpid : Kernel → ℤ
getpid k = k.currpid

unfoldable pub getprio : ℤ → Kernel → Option ℤ
getprio pid k =
    if badpid k pid then some syserr else do p ← proc_slot pid; some (k.proctab p).prprio

unfoldable pub chprio : ℤ → ℤ → Kernel → Option (ℤ × Kernel)
chprio pid newprio k = if badpid k pid || leb_ℤ newprio (pos 0) then some (syserr, k) else do
  p ← proc_slot pid
  let oldprio = (k.proctab p).prprio
  some (oldprio, update_proc k p (record (k.proctab p) { prprio = newprio }))

-- After the switch only the priority that was read before is returned.
unfoldable pub resume : ℤ → Kernel → Option (ℤ × Kernel)
resume pid k = if badpid k pid then some (syserr, k) else do
  p ← proc_slot pid
  if not (is_susp (state_of k p))
      then some (syserr, k)
      else do let prio = (k.proctab p).prprio; (r, k1) ← ready pid k; some (prio, k1)

-- The part of `suspend` behind `resched`.
unfoldable pub suspend_rest : ℕ → Kernel → ℤ
suspend_rest p k = (k.proctab p).prprio

unfoldable pub suspend : ℤ → Kernel → Option Call
unfolding suspend_rest
suspend pid k = if badpid k pid || eqb_ℤ pid nullproc then some (returned syserr k) else do
  p ← proc_slot pid
  if not (is_curr (state_of k p)) && not (is_ready (state_of k p))
      then some (returned syserr k)
      else if is_ready (state_of k p)
      then (do
        (r, t) ← getitem pid k.queuetab
        let k1 = set_state (record k { queuetab = t }) p pr_susp
        some (returned (suspend_rest p k1) k1))
      else (do
        k1 ← resched (set_state k p pr_susp)
        if same_process k k1 then some (returned (suspend_rest p k1) k1) else some (switched k1))

-- The loop of `newpid`, by the rounds that are left.
unfoldable pub newpid_loop : ℕ → Kernel → ℤ × Kernel
newpid_loop zero k = (syserr, k)
newpid_loop (suc rounds) k =
    let p = k.nextpid % nproc in
    let k1 = record k { nextpid = p + 1 } in
    let rest = newpid_loop rounds k1 in if is_free (state_of k p) then (pos p, k1) else rest

unfoldable pub newpid : Kernel → ℤ × Kernel
newpid k = newpid_loop nproc k

-- The copy of the name: at most `n` bytes, up to the null byte that ends the list.
unfoldable pub copy_name : ℕ → List ℕ → List ℕ
copy_name zero cs = []
copy_name (suc n) [] = []
copy_name (suc n) (c ∷ cs) = c ∷ copy_name n cs

-- `prdesc` with its first three entries set
abbrev pub standard_desc : (ℕ → ℤ) → ℕ → ℤ
standard_desc old zero = pos 0
standard_desc old (suc zero) = pos 1
standard_desc old (suc (suc zero)) = pos 2
standard_desc old (suc (suc (suc i))) = old (suc (suc (suc i)))

-- `&proctab[pid]` as `create` fills it in
unfoldable pub new_entry : Procent → ℤ → ℕ → ℕ → List ℕ → ℤ → Procent
unfolding copy_name
new_entry old priority saddr ssize name parent = record old {
  prstate = pr_susp;
  prprio = priority;
  prstkbase = saddr;
  prstklen = ssize % 2 ^ 32;
  prname = copy_name (pnmlen - 1) name;
  prsem = negsuc 0;
  prparent = parent;
  prhasmsg = false;
  prdesc = standard_desc old.prdesc;
}

unfoldable pub create : ℕ → ℤ → List ℕ → Kernel → Option (ℤ × Kernel)
create ssize0 priority name k =
    let ssize = roundmb (if ltb ssize0 minstk then minstk else ssize0) in
    if ltb_ℤ priority (pos 1)
    then some (syserr, k)
    else let (pid, k1) = newpid k in
      if eqb_ℤ pid syserr
      then some (syserr, k1)
      else let (stack, m) = getstk ssize k1.memory in
        elim stack [
          | none ↦ some (syserr, k1)
          | some saddr ↦ proc_slot pid >>= λ p. some (
            pid,
            update_proc (record k1 { memory = m; prcount = k1.prcount +ℤ pos 1 }) p
                (new_entry (k1.proctab p) priority saddr ssize name (getpid k1)),
          )
        ]

-- How `kill` ends, or where it stops.
pub data Killed : Type 0 where
  -- it has returned a value
  done : ℤ → Kernel → Killed
  -- `send` has given the processor to the parent; `kill_rest` is left to do
  waiting : Kernel → Killed
  -- a process that killed itself has left the processor
  gone : Kernel → Killed
  -- `xdone` has ended the system
  halted : Kernel → Killed

-- `close` of Chapter14 calls the routine of the device through `devtab`, here a parameter.
module _ (close : ℤ → Kernel → Option (ℤ × Kernel)) where
  -- The loop over the descriptors of `p`, by the rounds that are left
  unfoldable pub close_all : ℕ → ℕ → ℕ → Kernel → Option Kernel
  close_all zero i p k = some k
  close_all (suc rounds) i p k =
      close ((k.proctab p).prdesc i) k >>= λ (r, k1). close_all rounds (i + 1) p k1

  -- The `switch` at the end of `kill`, case by case.
  unfoldable pub kill_state : Prstate → ℕ → Kernel → Option Killed
  kill_state pr_curr p k = do
    k1 ← resched (set_state k p pr_free)
    if same_process k k1
        then (do (r, k2) ← unsleep (pos p) k1; some (done ok (set_state k2 p pr_free)))
        else some (gone k1)
  kill_state pr_sleep p k = unsleep (pos p) k >>= λ (r, k1). some (done ok (set_state k1 p pr_free))
  kill_state pr_rectim p k =
      unsleep (pos p) k >>= λ (r, k1). some (done ok (set_state k1 p pr_free))
  kill_state pr_wait p k = do
    s ← sem_slot (k.proctab p).prsem
    let k1 = set_count k s ((k.semtab s).scount +ℤ pos 1)
    (r, t) ← getitem (pos p) k1.queuetab
    some (done ok (set_state (record k1 { queuetab = t }) p pr_free))
  kill_state pr_ready p k = do
    (r, t) ← getitem (pos p) k.queuetab
    some (done ok (set_state (record k { queuetab = t }) p pr_free))
  kill_state pr_free p k = some (done ok (set_state k p pr_free))
  kill_state pr_recv p k = some (done ok (set_state k p pr_free))
  kill_state pr_susp p k = some (done ok (set_state k p pr_free))

  -- `kill` behind `send`: the descriptors, the stack and the state.
  unfoldable pub kill_rest : ℕ → Kernel → Option Killed
  unfolding kill_state close_all
  kill_rest p k = do
    k1 ← close_all 3 0 p k
    let (freed, m) = freestk (k1.proctab p).prstkbase (k1.proctab p).prstklen k1.memory
    kill_state (state_of k1 p) p (record k1 { memory = m })

  unfoldable pub kill : ℤ → Kernel → Option Killed
  unfolding kill_rest
  kill pid k = if badpid k pid || eqb_ℤ pid nullproc then some (done syserr k) else do
    p ← proc_slot pid
    let left = k.prcount -ℤ pos 1
    let k1 = record k { prcount = left }
    if leb_ℤ left (pos 1) then some (halted k1) else do
      (r, k2) ← send (k1.proctab p).prparent p k1
      if same_process k1 k2 then kill_rest p k2 else some (waiting k2)
