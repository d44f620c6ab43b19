-- ===== src/Boot.antt =====
-- The start of the system: `sysinit` and `nulluser` of Chapter22/initialize.c, and clkinit_galileo.c of
-- Chapter13. `platinit`, `initevec` and `meminit`, which leaves the memory `free`, have no source;
-- nor has `clkinit`, which is a parameter, as are the devices' functions `init`.
pub mod Start
mod Tests
use os_design_xinu_approach.Prelude.{
  ℕ, zero, suc, ◌+◌, ◌-◌, ◌^◌, false, Option, none, some, List, [], ◌∷◌, ltb, ◌==◌, if◌then◌else◌,
  ℤ, pos, ◌>>=◌,
}
use os_design_xinu_approach.Queue.{nproc, nsem, newqueue}
use os_design_xinu_approach.Memory.{Memory, getstk}
use os_design_xinu_approach.State.{pr_free, pr_curr, Procent, Kernel, quantum, update_sem}
use os_design_xinu_approach.Pool.{Pools, bufinit}
use os_design_xinu_approach.Device.{ndevs}
use os_design_xinu_approach.Process.{resume, create}

-- `NULLSTK`, `INITSTK` and `INITPRIO`
abbrev pub nullstk : ℕ
nullstk = 8192

abbrev pub initstk : ℕ
initstk = 65536

abbrev pub initprio : ℤ
initprio = pos 20

-- "prnull"
abbrev pub null_name : List ℕ
null_name = 112 ∷ 114 ∷ 110 ∷ 117 ∷ 108 ∷ 108 ∷ []

-- "Main process"
abbrev pub main_name : List ℕ
main_name = 77 ∷ 97 ∷ 105 ∷ 110 ∷ 32 ∷ 112 ∷ 114 ∷ 111 ∷ 99 ∷ 101 ∷ 115 ∷ 115 ∷ []

-- The kernel with the buffer pools, and the static variable of `newqueue`
pub record Boot : Type 0 where
  pub pools : Pools
  pub nextqid : ℤ

-- `newqueue`, and the kernel with its table
abbrev pub make_queue : ℤ → Kernel → Option (ℤ × ℤ × Kernel)
make_queue nextqid k = newqueue nextqid k.queuetab >>= λ (q, nextqid', t).
    some (q, nextqid', record k { queuetab = t })

-- What the loop over the process table stores
abbrev pub cleared : Procent → Procent
cleared e = record e { prstate = pr_free; prname = []; prstkbase = 0; prprio = pos 0 }

-- The null process
abbrev pub null_entry : Procent → Option ℕ → Procent
null_entry e stack = record e {
  prstate = pr_curr;
  prprio = pos 0;
  prname = null_name;
  prstkbase = elim stack [ none ↦ 2 ^ 64 - 1 | some saddr ↦ saddr ];
  prstklen = nullstk;
}

-- `sysinit` up to the semaphores
abbrev pub first_process : Memory → Kernel → Kernel
first_process free k =
    let (stack, m) = getstk nullstk free in
    record k {
      prcount = pos 1;
      ndefers = pos 0;
      proctab = λ p.
          if p == 0
          then null_entry (cleared (k.proctab 0)) stack
          else if ltb p nproc
          then cleared (k.proctab p)
          else k.proctab p;
      currpid = pos 0;
      memory = m;
    }

-- The loop over the semaphores, by the rounds that are left
unfoldable pub init_sems : ℕ → ℕ → ℤ → Kernel → Option (ℤ × Kernel)
init_sems zero i nextqid k = some (nextqid, k)
init_sems (suc rounds) i nextqid k = make_queue nextqid k >>= λ (q, nextqid', k1).
    init_sems rounds (i + 1) nextqid'
      (update_sem k1 i (record { sused = false; scount = pos 0; squeue = q }))

-- `clkinit_galileo`, without the clock's registers
unfoldable pub clkinit_galileo : ℤ → Kernel → Option (ℤ × Kernel)
clkinit_galileo nextqid k = make_queue nextqid k >>= λ (q, nextqid', k1).
    some (nextqid', record k1 { sleepq = q; preempt = quantum; clktime = 0 })

-- `sysinit` before the devices
unfoldable pub init_kernel : Memory → (ℤ → Kernel → Option (ℤ × Kernel)) → Boot → Option Boot
init_kernel free clkinit b =
    init_sems nsem 0 b.nextqid (first_process free b.pools.kernel) >>= λ (nextqid, k1).
    let (r, pools) = bufinit (record b.pools { kernel = k1 }) in
    make_queue nextqid pools.kernel >>= λ (q, nextqid', k2).
    clkinit nextqid' (record k2 { readylist = q }) >>= λ (nextqid'', k3).
    some (record { pools = record pools { kernel = k3 }; nextqid = nextqid'' })

-- The loop over the devices, by the rounds that are left
unfoldable pub init_devices : (ℕ → Boot → Option Boot) → ℕ → ℕ → Boot → Option Boot
init_devices init zero i b = some b
init_devices init (suc rounds) i b = init i b >>= init_devices init rounds (i + 1)

unfoldable pub sysinit :
    Memory → (ℤ → Kernel → Option (ℤ × Kernel)) → (ℕ → Boot → Option Boot) → Boot → Option Boot
sysinit free clkinit init b = init_kernel free clkinit b >>= init_devices init ndevs 0

-- `resume(create(main, …))` of `nulluser`
unfoldable pub start_main : Kernel → Option (ℤ × Kernel)
start_main k = create initstk initprio main_name k >>= λ (pid, k1). resume pid k1

-- `nulluser`, without what it prints, up to its endless loop
unfoldable pub nulluser :
    Memory → (ℤ → Kernel → Option (ℤ × Kernel)) → (ℕ → Boot → Option Boot) → Boot → Option Kernel
nulluser free clkinit init b =
    sysinit free clkinit init b >>= λ b1. start_main b1.pools.kernel >>= λ (r, k). some k
