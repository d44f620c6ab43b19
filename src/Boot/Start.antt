-- ===== src/Boot/Start.antt =====
-- The state of `sysinit` (Chapter22/initialize.c) before its loop over the devices.
use os_design_xinu_approach.Prelude.{
  ℕ, zero, suc, ◌+◌, ◌*◌, ◌≤◌, ◌<◌, ◌≡◌, refl, inr, [], arith, pos, ◌<ℤ◌, Runs,
}
use os_design_xinu_approach.Queue.{nproc, nsem, nqent, minkey, Queuetab, newqueue}
use os_design_xinu_approach.Queue.Holds.{Holds}
use os_design_xinu_approach.Memory.{Memory}
use os_design_xinu_approach.State.{pr_free, pr_curr, Kernel, state_of}
use os_design_xinu_approach.Pool.{bufinit}
use os_design_xinu_approach.Sched.ReadyList.{prio_of}
use os_design_xinu_approach.Sched.Resched.{Scheduled, Running}
use os_design_xinu_approach.Clock.Wakeup.{Asleep}
use os_design_xinu_approach.Boot.{Boot, first_process, init_sems, clkinit_galileo, init_kernel}

-- The null process runs alone: nobody is ready, sleeps, or waits for a semaphore.
pub record Started (k : Kernel) : Type 0 where
  pub running : Running k 110 [] 0
  pub sleepers : Asleep k 112 110 0 [] []
  pub free : (p : ℕ) → 0 < p → p < nproc → state_of k p ≡ pr_free
  pub semaphores :
      (i : ℕ)
      → i < nsem
      → ((k.semtab i).squeue ≡ pos (100 + 2 * i)) × Holds k.queuetab (100 + 2 * i) []
  pub deferral : k.ndefers ≡ pos 0
  pub next_sem : k.nextsem < nsem

-- The entries `q` and `q + 1` are the ends of an empty queue.
abbrev pub Vacant : Queuetab → ℕ → Type 0
Vacant t q = (t.qnext q ≡ pos (q + 1)) × (t.qprev (q + 1) ≡ pos q)

Vacant-Holds : (t : Queuetab) (q : ℕ) → Vacant t q → nproc ≤ q → q + 1 < nqent → Holds t q []
Vacant-Holds t q v low high = record {
  low = low;
  high = high;
  chain = v;
  members = tt;
  distinct = tt;
}

each_sem : (P : ℕ → Type 0) → P 0 → P 1 → P 2 → P 3 → P 4 → (i : ℕ) → i < nsem → P i
each_sem P a b c d e zero lt = a
each_sem P a b c d e (suc zero) lt = b
each_sem P a b c d e (suc (suc zero)) lt = c
each_sem P a b c d e (suc (suc (suc zero))) lt = d
each_sem P a b c d e (suc (suc (suc (suc zero)))) lt = e
each_sem P a b c d e (suc (suc (suc (suc (suc i))))) lt = absurd (omega (arith, lt))

-- What the kernel's variables have to be
record Values (k : Kernel) : Type 0 where
  list_id : k.readylist ≡ pos 110
  current : k.currpid ≡ pos 0
  delta : k.sleepq ≡ pos 112
  deferral : k.ndefers ≡ pos 0
  state : state_of k 0 ≡ pr_curr
  free : (p : ℕ) → 0 < p → p < nproc → state_of k p ≡ pr_free
  prios : (p : ℕ) → minkey <ℤ prio_of k p
  next_sem : k.nextsem < nsem
  ready_ends : Vacant k.queuetab 110
  last_key : k.queuetab.qkey 111 ≡ minkey
  delta_ends : Vacant k.queuetab 112
  sems :
      (i : ℕ)
      → i < nsem
      → ((k.semtab i).squeue ≡ pos (100 + 2 * i)) × Vacant k.queuetab (100 + 2 * i)

Values-Started : (k : Kernel) → Values k → Started k
Values-Started k v =
    let scheduled : Scheduled k 110 [] 0 = record {
      list = record {
        list_id = v.list_id;
        ordered = record {
          holds = Vacant-Holds k.queuetab 110 v.ready_ends (omega arith) (omega arith);
          descending = tt;
          tail_key = v.last_key;
        };
        readied = tt;
        keyed = tt;
        pri16 = v.prios;
      };
      current = v.current;
      in_table = omega arith;
      off_list = tt;
    } in
    record {
      running = record { scheduled = scheduled; state = v.state; highest = tt };
      sleepers = record {
        scheduled = scheduled;
        list = v.delta;
        sleeping = record {
          holds = Vacant-Holds k.queuetab 112 v.delta_ends (omega arith) (omega arith);
          delays = tt;
        };
        delayed = tt;
        awake = rw v.state refl;
        heads = inr (omega arith);
      };
      free = v.free;
      semaphores = λ i lt. (
        (v.sems i lt).0,
        Vacant-Holds k.queuetab (100 + 2 * i) (v.sems i lt).1 (omega arith) (omega (arith, lt)),
      );
      deferral = v.deferral;
      next_sem = v.next_sem;
    }

first_prios :
    (free : Memory) (k : Kernel)
    → ((p : ℕ) → minkey <ℤ prio_of k p)
    → (p : ℕ) → minkey <ℤ prio_of (first_process free k) p
first_prios free k prios p = ground (arith, prios p)

first_free :
    (free : Memory) (k : Kernel) (p : ℕ)
    → 0 < p
    → p < nproc
    → state_of (first_process free k) p ≡ pr_free
first_free free k p some_p small = ground (arith, some_p, small)

-- What `sysinit` does before its loop over the devices returns, from any contents of the tables, and
-- then the invariants of the scheduler and of the delta list hold: the null process is the current
-- one, all other processes are free, and the ready list, the delta list and the queues of the
-- semaphores are empty and in their places, provided that `newqueue` has not been called before, the
-- next semaphore to try is in the table, and priorities are 16-bit numbers. The set-up of the clock
-- is that of clkinit_galileo.c.
pub init_kernel-Started :
    (free : Memory) (b : Boot)
    → b.nextqid ≡ pos nproc
    → b.pools.kernel.nextsem < nsem
    → ((p : ℕ) → minkey <ℤ prio_of b.pools.kernel p)
    → Runs (init_kernel free clkinit_galileo b) λ b'. Started b'.pools.kernel
unfolding init_kernel init_sems clkinit_galileo newqueue bufinit
init_kernel-Started free b start sem prios = rw start (
    Values-Started _ (record {
      list_id = refl;
      current = refl;
      delta = refl;
      deferral = refl;
      state = refl;
      free = first_free free b.pools.kernel;
      prios = first_prios free b.pools.kernel prios;
      next_sem = sem;
      ready_ends = (refl, refl);
      last_key = refl;
      delta_ends = (refl, refl);
      sems =
          each_sem _ (refl, (refl, refl)) (refl, (refl, refl)) (refl, (refl, refl))
            (refl, (refl, refl)) (refl, (refl, refl));
    }))
