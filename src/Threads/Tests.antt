-- ===== src/Threads/Tests.antt =====
-- A test of threads, with queues that are lists of threads.
use os_design_xinu_approach.Prelude.{
  ◌≡◌, refl, false, some, List, [], ◌∷◌, ◌++◌, ◌==◌, if◌then◌else◌, ℤ, pos, negsuc, eqb_ℤ, ◌>>=◌,
}
use os_design_xinu_approach.State.{Prstate, pr_free, pr_curr, pr_susp}
use os_design_xinu_approach.Samples.{kernel}
use os_design_xinu_approach.Threads.{Threadent, Threads, Threadops, th_resched, th_ready}

-- One list for all queues, in the order of insertion
abbrev first_thread : List ℤ → ℤ × List ℤ
first_thread [] = (negsuc 0, [])
first_thread (t ∷ ts) = (t, ts)

abbrev without : ℤ → List ℤ → List ℤ
without t [] = []
without t (x ∷ ts) = if eqb_ℤ t x then ts else x ∷ without t ts

abbrev listed : Threadops (List ℤ)
listed = record {
  th_insert = λ t q key ts. ts ++ t ∷ [];
  th_dequeue = λ q ts. first_thread ts;
  th_getitem = without;
  th_unsleep = without;
  th_freestk = λ base len k. k;
}

abbrev thread : Prstate → ℤ → Threadent
thread st prio = record { thstate = st; thprio = prio; thstkbase = 0; thstklen = 0; thsem = pos 0 }

-- The thread 1 runs at priority 10, the thread 2 is suspended and has priority 90.
abbrev two_threads : Threads (List ℤ)
two_threads = record {
  kernel = kernel;
  threadtab = λ t.
      if t == 1
      then thread pr_curr (pos 10)
      else if t == 2
      then thread pr_susp (pos 90)
      else thread pr_free (pos 0);
  thcount = pos 2;
  currtid = pos 1;
  th_ndefers = pos 0;
  th_attempt = false;
  th_preempt = 2;
  th_readylist = λ p. pos 0;
  queues = [];
}

-- The thread 1 goes on, though the thread 2 has a higher priority.
th_ready_run : (th_ready listed (pos 2) two_threads >>= λ (r, s'). some s'.currtid) ≡ some (pos 1)
unfolding th_ready th_resched
th_ready_run = refl
