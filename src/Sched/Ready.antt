-- ===== src/Sched/Ready.antt =====
-- What `ready` of Chapter5/ready.c does with a process that is not on the ready list.
use os_design_xinu_approach.Prelude.{
  ℕ, ◌<◌, ◌≡◌, refl, sym, ◌≢◌, true, false, Option, none, some, List, [], ◌∷◌, ◌++◌, arith, Apart,
  All-insert, ℤ, pos, ◌≤ℤ◌, ◌<ℤ◌, ◌>>=◌, Runs,
}
use os_design_xinu_approach.Queue.{nproc, syserr, insert}
use os_design_xinu_approach.Queue.Insert.{ahead, behind, ahead-behind, inserted, insert-eq}
use os_design_xinu_approach.State.{
  pr_ready, Kernel, ok, is_free, state_of, free_in, badpid, set_state,
}
use os_design_xinu_approach.Sched.{resched, ready}
use os_design_xinu_approach.Sched.ReadyList.{prio_of, ReadyList, queued, ReadyList-queued}
use os_design_xinu_approach.Sched.Resched.{
  Scheduled, resched-deferred, SomeRunning, resched-Running,
}

-- The ready list after `p` has joined it.
abbrev pub joined : Kernel → ℕ → List ℕ → List ℕ
joined k p ps =
    ahead k.queuetab.qkey (prio_of k p) ps ++ p ∷ behind k.queuetab.qkey (prio_of k p) ps

ready_run :
    (k : Kernel) (r p : ℕ) (ps : List ℕ)
    → k.readylist ≡ pos r
    → p < nproc
    → is_free (state_of k p) ≡ false
    → insert (free_in (set_state k p pr_ready)) (pos p) (pos r) (prio_of k p) k.queuetab
      ≡ some (pos 0, inserted k.queuetab p r (prio_of k p) ps)
    → ready (pos p) k ≡ (resched (queued k p r ps) >>= λ k2. some (ok, k2))
unfolding ready
ready_run k r p ps list_id lt live ins = ground arith

-- `ready` queues the process behind those of at least its priority, and reschedules.
pub ready-eq :
    (k : Kernel) (r p : ℕ) (ps : List ℕ)
    → ReadyList k r ps
    → p < nproc
    → is_free (state_of k p) ≡ false
    → ready (pos p) k ≡ (resched (queued k p r ps) >>= λ k2. some (ok, k2))
ready-eq k r p ps l lt live =
    let ins =
      insert-eq (free_in (set_state k p pr_ready)) k.queuetab p r (prio_of k p) ps l.ordered.holds
        lt (ground arith) (rw l.ordered.tail_key (l.pri16 p)) in
    ready_run k r p ps l.list_id lt live ins

pub ready-bad : (k : Kernel) (pid : ℤ) → badpid k pid ≡ true → ready pid k ≡ some (syserr, k)
unfolding ready
ready-bad k pid bad = rw bad

pub Scheduled-queued :
    (k : Kernel) (r c p : ℕ) (ps : List ℕ)
    → Scheduled k r ps c
    → p < nproc
    → p ≢ c
    → Apart p ps
    → Scheduled (queued k p r ps) r (joined k p ps) c
Scheduled-queued k r c p ps s lt ne new =
    let f = k.queuetab.qkey in
    let key = prio_of k p in
    record {
      list = ReadyList-queued k r p ps s.list lt new;
      current = s.current;
      in_table = s.in_table;
      off_list =
          All-insert _ (ahead f key ps) (behind f key ps) (λ e. ne (sym e))
            (rw (ahead-behind f key ps) s.off_list);
    }

append-ne-nil : (xs : List ℕ) (b : ℕ) (ys : List ℕ) → xs ++ b ∷ ys ≢ []
append-ne-nil [] b ys e = cc
append-ne-nil (x ∷ xs) b ys e = cc

pub joined-ne-nil : (k : Kernel) (p : ℕ) (ps : List ℕ) → joined k p ps ≢ []
joined-ne-nil k p ps =
    append-ne-nil (ahead k.queuetab.qkey (prio_of k p) ps) p
      (behind k.queuetab.qkey (prio_of k p) ps)

-- With rescheduling not deferred, `ready` of a live process that is neither current nor ready
-- returns OK, and afterwards the most urgent process runs.
pub ready-Running :
    (k : Kernel) (r c p : ℕ) (ps : List ℕ)
    → Scheduled k r ps c
    → k.ndefers ≤ℤ pos 0
    → p < nproc
    → is_free (state_of k p) ≡ false
    → p ≢ c
    → Apart p ps
    → Runs (ready (pos p) k) (λ (s, k'). (s ≡ ok) × SomeRunning k' r)
ready-Running k r c p ps s now lt live ne new = rw (ready-eq k r p ps s.list lt live) (
    Runs-then (resched (queued k p r ps)) (
      resched-Running (queued k p r ps) r c (joined k p ps)
        (Scheduled-queued k r c p ps s lt ne new) now (joined-ne-nil k p ps)))
  where
    Runs-then :
        (m : Option Kernel)
        → Runs m (λ k'. SomeRunning k' r)
        → Runs (m >>= λ k2. some (ok, k2)) (λ (s, k'). (s ≡ ok) × SomeRunning k' r)
    Runs-then none h = h
    Runs-then (some k') h = (refl, h)

-- An attempt to reschedule that is noted changes no list.
pub Scheduled-noted :
    {k : Kernel} {r c : ℕ} {ps : List ℕ}
    → Scheduled k r ps c
    → Scheduled (record k { attempt = true }) r ps c
Scheduled-noted s = record {
  list = record {
    list_id = s.list.list_id;
    ordered = s.list.ordered;
    readied = s.list.readied;
    keyed = s.list.keyed;
    pri16 = s.list.pri16;
  };
  current = s.current;
  in_table = s.in_table;
  off_list = s.off_list;
}

-- While rescheduling is deferred, `ready` moves the process to the ready list and the current
-- process goes on.
ready-deferred :
    (k : Kernel) (r c p : ℕ) (ps : List ℕ)
    → Scheduled k r ps c
    → pos 0 <ℤ k.ndefers
    → p < nproc
    → is_free (state_of k p) ≡ false
    → p ≢ c
    → Apart p ps
    → Runs (ready (pos p) k) λ (s, k').
      (s ≡ ok)
      × Scheduled k' r (joined k p ps) c
      × (k'.attempt ≡ true)
      × (state_of k' c ≡ state_of k c)
ready-deferred k r c p ps s later lt live ne new =
    rw (ready-eq k r p ps s.list lt live, resched-deferred (queued k p r ps) later)
      (refl, Scheduled-noted (Scheduled-queued k r c p ps s lt ne new), refl, ground arith)
