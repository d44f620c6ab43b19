-- ===== src/Samples.antt =====
-- A kernel for the tests of Chapters 5 to 8: the process 4 runs at priority 50, the ready list 110
-- holds 7 and 3 at the priorities 40 and 20, and the processes 5 and 6 wait on the semaphore 0,
-- whose queue is 100.
use os_design_xinu_approach.Prelude.{
  ℕ, refl, inl, true, false, [], ◌∷◌, arith, ◌==◌, if◌then◌else◌, ℤ, pos, negsuc, ◌<ℤ◌,
}
use os_design_xinu_approach.Queue.{empty, maxkey, minkey, Queuetab, update}
use os_design_xinu_approach.Queue.Spans.{splice}
use os_design_xinu_approach.Queue.Insert.{Ordered}
use os_design_xinu_approach.Queue.Frame.{HeadsApart}
use os_design_xinu_approach.Memory.{memblk, Memory}
use os_design_xinu_approach.State.{
  Prstate, pr_free, pr_curr, pr_ready, pr_susp, pr_wait, Procent, Kernel,
}
use os_design_xinu_approach.Sched.ReadyList.{prio_of, ReadyList}
use os_design_xinu_approach.Sched.Resched.{Running}
use os_design_xinu_approach.Semaphore.Waiting.{SemQueue}

abbrev pub vacant : Queuetab
vacant = record {
  qkey = update (update (update (update (λ x. pos 0) 100 maxkey) 101 minkey) 110 maxkey) 111 minkey;
  qnext =
      update (update (update (update (λ x. empty) 100 (pos 101)) 101 empty) 110 (pos 111)) 111
        empty;
  qprev =
      update (update (update (update (λ x. empty) 101 (pos 100)) 100 empty) 111 (pos 110)) 110
        empty;
}

abbrev pub two_queues : Queuetab
two_queues = record (splice (splice (splice (splice vacant 7 110 111) 3 7 111) 5 100 101) 6 5 101) {
  qkey = update (update vacant.qkey 7 (pos 40)) 3 (pos 20);
}

abbrev pub entry : Prstate → ℤ → Procent
entry s prio = record {
  prstate = s;
  prprio = prio;
  prstkbase = 0;
  prstklen = 0;
  prname = [];
  prsem = negsuc 0;
  prparent = pos 0;
  prmsg = 0;
  prhasmsg = false;
  prdesc = λ i. pos i;
}

abbrev pub processes : ℕ → Procent
processes p =
    if p == 4
    then entry pr_curr (pos 50)
    else if p == 7
    then entry pr_ready (pos 40)
    else if p == 3
    then entry pr_ready (pos 20)
    else if p == 5
    then entry pr_wait (pos 60)
    else if p == 6
    then entry pr_wait (pos 30)
    else if p == 8
    then entry pr_susp (pos 45)
    else entry pr_free (pos 0)

abbrev pub heap : Memory
heap = record {
  memlist = memblk 4096 64 ∷ memblk 8192 1024 ∷ [];
  mfree = 1088;
  minheap = 4096;
  maxheap = 65535;
}

abbrev pub kernel : Kernel
kernel = record {
  queuetab = two_queues;
  proctab = processes;
  prcount = pos 6;
  currpid = pos 4;
  nextpid = 9;
  readylist = pos 110;
  ndefers = pos 0;
  attempt = false;
  semtab = λ s.
      if s == 0
      then record { sused = true; scount = negsuc 1; squeue = pos 100 }
      else record { sused = false; scount = pos 0; squeue = pos 102 };
  nextsem = 1;
  sleepq = pos 112;
  preempt = 2;
  clktime = 0;
  count1000 = 1000;
  memory = heap;
}

pub ready-Ordered : Ordered two_queues 110 (7 ∷ 3 ∷ [])
ready-Ordered = record {
  holds = record {
    low = omega arith;
    high = omega arith;
    chain = ((refl, refl), ((refl, refl), (refl, refl)));
    members = omega arith;
    distinct = omega arith;
  };
  descending = omega arith;
  tail_key = refl;
}

prios : (p : ℕ) → minkey <ℤ prio_of kernel p
prios p = ground arith

pub kernel-ReadyList : ReadyList kernel 110 (7 ∷ 3 ∷ [])
kernel-ReadyList = record {
  list_id = refl;
  ordered = ready-Ordered;
  readied = (refl, (refl, tt));
  keyed = (refl, (refl, tt));
  pri16 = prios;
}

pub kernel-Running : Running kernel 110 (7 ∷ 3 ∷ []) 4
kernel-Running = record {
  scheduled = record {
    list = kernel-ReadyList;
    current = refl;
    in_table = omega arith;
    off_list = omega arith;
  };
  state = refl;
  highest = omega arith;
}

pub kernel-SemQueue : SemQueue kernel 0 100 (5 ∷ 6 ∷ [])
kernel-SemQueue = record {
  in_table = omega arith;
  used = refl;
  queue_id = refl;
  holds = record {
    low = omega arith;
    high = omega arith;
    chain = ((refl, refl), ((refl, refl), (refl, refl)));
    members = omega arith;
    distinct = omega arith;
  };
  counted = refl;
  waiting = (refl, (refl, tt));
}

pub kernel-heads : HeadsApart 100 110
kernel-heads = inl (omega arith)
