-- ===== src/Process/Suspend.antt =====
-- `suspend`, `resume` and `chprio` of Chapter6.
use os_design_xinu_approach.Prelude.{
  ℕ, ◌+◌, ◌<◌, ◌≡◌, refl, sym, ◌∙◌, ◌≢◌, Option, none, some, List, [], ◌∷◌, ◌++◌, arith,
  All-cons_append, Distinct-remove, ℤ, pos, ◌≤ℤ◌, ◌<ℤ◌, ◌>>=◌, Runs,
}
use os_design_xinu_approach.Queue.{nproc, syserr}
use os_design_xinu_approach.State.{
  pr_ready, pr_susp, Kernel, ok, state_of, update_proc, set_state, Call, returned, switched,
}
use os_design_xinu_approach.Sched.{ready}
use os_design_xinu_approach.Sched.ReadyList.{
  prio_of, ReadyList, states_frame, keyed_frame, Apart-state,
}
use os_design_xinu_approach.Sched.Resched.{Scheduled, SomeRunning}
use os_design_xinu_approach.Sched.Ready.{ready-Running}
use os_design_xinu_approach.Process.{chprio, resume, suspend}
use os_design_xinu_approach.Queue.Spans.{last, first, relink}
use os_design_xinu_approach.Queue.Holds.{Holds-relink}
use os_design_xinu_approach.Queue.Enqueue.{getitem-eq}
use os_design_xinu_approach.Queue.Insert.{Descending}
use os_design_xinu_approach.Sched.Kept.{Active, ready-Active}

-- With rescheduling not deferred, `resume` of a suspended process other than the current one returns
-- its priority; afterwards the process is ready or runs, and the most urgent process runs.
pub resume-Running :
    (k : Kernel) (r c p : ℕ) (ps : List ℕ)
    → Scheduled k r ps c
    → k.ndefers ≤ℤ pos 0
    → p < nproc
    → p ≢ c
    → state_of k p ≡ pr_susp
    → Runs (resume (pos p) k) λ (prio, k'). (prio ≡ prio_of k p) × SomeRunning k' r × Active k' p
unfolding resume
resume-Running k r c p ps s now lt ne susp =
    let off = Apart-state k p pr_susp pr_ready (λ e. cc) susp ps s.list.readied in
    let run = ready-Running k r c p ps s now lt (ground arith) ne off in
    let eq : resume (pos p) k ≡ (ready (pos p) k >>= λ (r1, k1). some (prio_of k p, k1)) =
      ground arith in
    rw eq (finish (ready (pos p) k) refl run)
  where
    finish :
        (o : Option (ℤ × Kernel))
        → ready (pos p) k ≡ o
        → Runs o (λ (s, k'). (s ≡ ok) × SomeRunning k' r)
        → Runs
            (o >>= λ (r1, k1). some (prio_of k p, k1))
            (λ (prio, k'). (prio ≡ prio_of k p) × SomeRunning k' r × Active k' p)
    finish none e h = h
    finish (some (x, k')) e h = (refl, h.1, ready-Active k p x k' lt (rw susp refl) e)

-- `resume` of a process that is not suspended is refused and changes nothing.
pub resume-refused :
    (k : Kernel) (pid : ℤ) (p : ℕ)
    → pid ≡ pos p
    → p < nproc
    → state_of k p ≢ pr_susp
    → resume pid k ≡ some (syserr, k)
unfolding resume
resume-refused k pid p e lt other = ground arith

-- `chprio` changes the priority of a ready process and not its key, so the ready list is no
-- longer in the order of the priorities.
chprio-stale :
    (k : Kernel) (r p : ℕ) (newprio : ℤ) (ps : List ℕ)
    → ReadyList k r (p ∷ ps)
    → pos 0 <ℤ newprio
    → newprio ≢ prio_of k p
    → Runs (chprio (pos p) newprio k) λ (old, k').
      (old ≡ prio_of k p)
      × (prio_of k' p ≡ newprio)
      × (k'.queuetab ≡ k.queuetab)
      × ¬ ReadyList k' r (p ∷ ps)
unfolding chprio
chprio-stale k r p newprio ps l some_prio other =
    let lt : p < nproc = l.ordered.holds.members.0 in
    let ready = l.readied.0 in
    let key : k.queuetab.qkey p ≡ prio_of k p = l.keyed.0 in
    let eq : chprio (pos p) newprio k
        ≡ some (prio_of k p, update_proc k p (record (k.proctab p) { prprio = newprio })) =
      ground arith in
    rw eq
      (refl, ground arith, refl, λ l'. other (sym (set_prio k p newprio) ∙ sym l'.keyed.0 ∙ key))
  where
    set_prio :
        (k : Kernel) (p : ℕ) (newprio : ℤ)
        → prio_of (update_proc k p (record (k.proctab p) { prprio = newprio })) p ≡ newprio
    set_prio k p newprio = ground arith

-- `k` after the process `p` between `xs` and `ys` has left the ready list
abbrev unlinked : Kernel → ℕ → ℕ → List ℕ → List ℕ → Kernel
unlinked k r p xs ys =
    set_state (record k { queuetab = relink k.queuetab (last r xs) (first ys (r + 1)) }) p pr_susp

Descending-remove :
    (f : ℕ → ℤ) (xs ys : List ℕ) (p : ℕ) → Descending f (xs ++ p ∷ ys) → Descending f (xs ++ ys)
Descending-remove f [] ys p d = d.1
Descending-remove f (x ∷ xs) ys p d =
    ((All-cons_append (λ y. f y ≤ℤ f x) xs ys d.0).1, Descending-remove f xs ys p d.1)

ReadyList-unlinked :
    (k : Kernel) (r p : ℕ) (xs ys : List ℕ)
    → ReadyList k r (xs ++ p ∷ ys)
    → ReadyList (unlinked k r p xs ys) r (xs ++ ys)
ReadyList-unlinked k r p xs ys l =
    let off = (Distinct-remove xs ys p l.ordered.holds.distinct).0 in
    let k1 = unlinked k r p xs ys in
    record {
      list_id = l.list_id;
      ordered = record {
        holds = Holds-relink k.queuetab r xs ys p l.ordered.holds;
        descending = Descending-remove k.queuetab.qkey xs ys p l.ordered.descending;
        tail_key = l.ordered.tail_key;
      };
      readied =
          states_frame k k1 p (λ x ne. ground arith) pr_ready (xs ++ ys) off
            (All-cons_append (λ x. state_of k x ≡ pr_ready) xs ys l.readied).1;
      keyed =
          keyed_frame k k1 p (λ x ne. ground arith) (xs ++ ys) off (λ x ne. refl)
            (All-cons_append (λ x. k.queuetab.qkey x ≡ prio_of k x) xs ys l.keyed).1;
      pri16 = λ x. ground (arith, l.pri16 x, l.pri16 p);
    }

-- `suspend` has returned the priority of `p`, which is suspended; the processes `ps` are ready.
abbrev pub Suspended : Kernel → ℕ → ℕ → List ℕ → Call → Type 0
Suspended k r p ps (returned prio k') =
    (prio ≡ prio_of k p) × ReadyList k' r ps × (state_of k' p ≡ pr_susp) × (k'.currpid ≡ k.currpid)
Suspended k r p ps (switched k') = ⊥

-- `suspend` of a ready process takes it out of the ready list, wherever it stands, leaves the
-- others ready in order, and returns its priority; no switch takes place.
suspend-ready :
    (k : Kernel) (r p : ℕ) (xs ys : List ℕ)
    → ReadyList k r (xs ++ p ∷ ys)
    → p ≢ 0
    → Runs (suspend (pos p) k) (Suspended k r p (xs ++ ys))
unfolding suspend
suspend-ready k r p xs ys l not_null =
    let k1 = unlinked k r p xs ys in
    let item = getitem-eq k.queuetab r xs ys p l.ordered.holds in
    let ready = (All-cons_append (λ x. state_of k x ≡ pr_ready) xs ys l.readied).0 in
    let lt = (All-cons_append (λ x. x < nproc) xs ys l.ordered.holds.members).0 in
    let eq : suspend (pos p) k ≡ some (returned (prio_of k1 p) k1) = ground (arith, item) in
    rw eq (ground arith, ReadyList-unlinked k r p xs ys l, ground arith, refl)
