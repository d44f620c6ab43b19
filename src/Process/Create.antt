-- ===== src/Process/Create.antt =====
-- `create` (Chapter6/create.c), and `resume` of the process it has made.
use os_design_xinu_approach.Prelude.{
  ℕ, zero, suc, ◌+◌, ◌-◌, ◌%◌, ◌≤◌, ◌<◌, ◌≡◌, refl, sym, ap, ◌∙◌, ◌≢◌, inl, inr, true, false,
  Option, none, some, List, [], ◌∷◌, arith, ltb, ◌==◌, if◌then◌else◌, Bool-cases, length, Apart, ℤ,
  pos, negsuc, ◌+ℤ◌, ◌≤ℤ◌, ◌<ℤ◌, ltb_ℤ, ◌>>=◌, Runs,
}
use os_design_xinu_approach.Queue.{nproc, minkey}
use os_design_xinu_approach.Memory.{Memory, roundmb, getstk}
use os_design_xinu_approach.State.{
  Prstate, pr_free, pr_curr, pr_ready, Procent, Kernel, ok, is_free, state_of, update_proc,
}
use os_design_xinu_approach.Process.{
  minstk, pnmlen, getpid, resume, newpid_loop, newpid, copy_name, new_entry, create,
}
use os_design_xinu_approach.Process.Pids.{NewPid, newpid-NewPid}
use os_design_xinu_approach.Sched.ReadyList.{prio_of, states_frame, keyed_frame, Apart-state}
use os_design_xinu_approach.Sched.Resched.{Scheduled, Running, SomeRunning}
use os_design_xinu_approach.Sched.Kept.{ready-Kept, Active, ready-Active}
use os_design_xinu_approach.Sched.{dispatch, resched, ready}
use os_design_xinu_approach.Sched.Ready.{ready-Running}

-- Of the kernel before it, `newpid` changes the place to begin the next search at.
newpid_loop-next :
    (n : ℕ) (k : Kernel) → (next : ℕ) × ((newpid_loop n k).1 ≡ record k { nextpid = next })
unfolding newpid_loop
newpid_loop-next zero k = (k.nextpid, refl)
newpid_loop-next (suc n) k =
    let rest = newpid_loop-next n (record k { nextpid = k.nextpid % nproc + 1 }) in
    elim (Bool-cases (is_free (state_of k (k.nextpid % nproc)))) [
      | inl free ↦ (k.nextpid % nproc + 1, rw free refl)
      | inr taken ↦ (rest.0, rw taken rest.1)
    ]

-- The result of `newpid` where some slot is free
found_pid :
    (k : Kernel)
    → ((p : ℕ) × (p < nproc) × (is_free (state_of k p) ≡ true))
    → (p : ℕ) × (next : ℕ) × (newpid k ≡ (pos p, record k { nextpid = next }))
      × (p < nproc)
      × (is_free (state_of k p) ≡ true)
unfolding newpid
found_pid k (some_free, lt, free) =
    let next = newpid_loop-next nproc k in
    outcome (newpid_loop nproc k) refl (newpid-NewPid k) next.0 next.1
  where
    outcome :
        (o : ℤ × Kernel)
        → newpid k ≡ o
        → NewPid k (newpid k).0
        → (next : ℕ) → (newpid k).1 ≡ record k { nextpid = next }
        → (p : ℕ) × (next : ℕ) × (newpid k ≡ (pos p, record k { nextpid = next }))
          × (p < nproc)
          × (is_free (state_of k p) ≡ true)
    outcome (pos p, k') e h next same =
        let g : NewPid k (pos p) = rw e at h in
        let t : k' ≡ record k { nextpid = next } = ap (λ x. x.1) (sym e) ∙ same in
        (p, next, e ∙ ap (λ x. (pos p, x)) t, g.0, g.1)
    outcome (negsuc n, k') e h next same =
        let g : NewPid k (negsuc n) = rw e at h in let no = g some_free lt in absurd (cc)

-- The size of the stack that `create` asks for
abbrev pub stack_size : ℕ → ℕ
stack_size ssize = roundmb (if ltb ssize minstk then minstk else ssize)

-- The kernel after `create` has taken the slot `p`
abbrev created : Kernel → ℕ → ℤ → List ℕ → ℕ → Memory → ℕ → ℕ → Kernel
created k ssize priority name saddr m p next =
    update_proc (record k { memory = m; prcount = k.prcount +ℤ pos 1; nextpid = next }) p
      (new_entry (k.proctab p) priority saddr (stack_size ssize) name k.currpid)

create-eq :
    (ssize : ℕ) (priority : ℤ) (name : List ℕ) (k : Kernel) (saddr : ℕ) (m : Memory) (p next : ℕ)
    → pos 0 <ℤ priority
    → p < nproc
    → newpid k ≡ (pos p, record k { nextpid = next })
    → getstk (stack_size ssize) k.memory ≡ (some saddr, m)
    → create ssize priority name k ≡ some (pos p, created k ssize priority name saddr m p next)
unfolding create getpid
create-eq ssize priority name k saddr m p next above lt pid stack =
    let test : ltb_ℤ priority (pos 1) ≡ false = ground arith in
    let inside : ltb p nproc ≡ true = ground arith in simp (test, pid, stack, inside)

short_name : (n : ℕ) (name : List ℕ) → length name ≤ n → copy_name n name ≡ name
unfolding copy_name
short_name zero [] short = refl
short_name zero (c ∷ cs) short = absurd (omega (arith, short))
short_name (suc n) [] short = refl
short_name (suc n) (c ∷ cs) short =
    let rest = short_name n cs (omega (arith, short)) in rw rest refl

module _ (k : Kernel) (ssize : ℕ) (priority : ℤ) (name : List ℕ) (saddr : ℕ) (m : Memory)
    (r c p next : ℕ) (ps : List ℕ) where
  created_prios :
      pos 0 <ℤ priority
      → ((x : ℕ) → minkey <ℤ prio_of k x)
      → (x : ℕ) → minkey <ℤ prio_of (created k ssize priority name saddr m p next) x
  unfolding new_entry
  created_prios above prios x = ground (arith, prios x)

  -- The lists are as before.
  Scheduled-created :
      Scheduled k r ps c
      → pos 0 <ℤ priority
      → Apart p ps
      → Scheduled (created k ssize priority name saddr m p next) r ps c
  Scheduled-created s above off =
      let k1 = created k ssize priority name saddr m p next in
      record {
        list = record {
          list_id = s.list.list_id;
          ordered = s.list.ordered;
          readied = states_frame k k1 p (λ x ne. ground arith) pr_ready ps off s.list.readied;
          keyed = keyed_frame k k1 p (λ x ne. ground arith) ps off (λ x ne. refl) s.list.keyed;
          pri16 = created_prios above s.list.pri16;
        };
        current = s.current;
        in_table = s.in_table;
        off_list = s.off_list;
      }

-- The new process `p`: its slot was free, and it is ready or runs, with its name and priority.
pub record Begun (k : Kernel) (priority : ℤ) (name : List ℕ) (k' : Kernel) (p : ℕ) : Type 0 where
  pub was_free : is_free (state_of k p) ≡ true
  pub active : Active k' p
  pub named : (k'.proctab p).prname ≡ name
  pub priority_set : prio_of k' p ≡ priority
  pub parent : (k'.proctab p).prparent ≡ k.currpid
  pub counted : k'.prcount ≡ k.prcount +ℤ pos 1

ready-prcount :
    (pid : ℤ) (k : Kernel) (r : ℤ) (k' : Kernel)
    → ready pid k ≡ some (r, k')
    → k'.prcount ≡ k.prcount
unfolding ready resched dispatch
ready-prcount pid k r k' e = ground arith

-- With rescheduling not deferred, some slot of the process table free, and room for the stack,
-- `create` makes a process in a free slot with the name (of less than PNMLEN bytes), the priority
-- and the parent that it was asked for, counts it, and `resume` returns this priority and makes the
-- process ready; afterwards it is ready or runs, and the most urgent process runs.
pub create-resume :
    (ssize : ℕ) (priority : ℤ) (name : List ℕ) (k : Kernel) (r c : ℕ) (ps : List ℕ) (saddr : ℕ)
    (m : Memory)
    → Running k r ps c
    → k.ndefers ≤ℤ pos 0
    → pos 0 <ℤ priority
    → length name < pnmlen
    → ((p : ℕ) × (p < nproc) × (is_free (state_of k p) ≡ true))
    → getstk (stack_size ssize) k.memory ≡ (some saddr, m)
    → Runs
        (create ssize priority name k >>= λ (pid, k1). resume pid k1)
        λ (prio, k'). (prio ≡ priority) × SomeRunning k' r × ((p : ℕ) × Begun k priority name k' p)
unfolding resume new_entry
create-resume ssize priority name k r c ps saddr m run now above short some_free stack =
    let (p, next, found, lt, free) = found_pid k some_free in
    let k1 = created k ssize priority name saddr m p next in
    let other : p ≢ c = λ e. apart p e free in
    let is : state_of k p ≡ pr_free = is_free→eq (state_of k p) free in
    let off = Apart-state k p pr_free pr_ready (λ e. cc) is ps run.scheduled.list.readied in
    let s = Scheduled-created k ssize priority name saddr m r c p next ps run.scheduled above off in
    let made = create-eq ssize priority name k saddr m p next above lt found stack in
    let live : is_free (state_of k1 p) ≡ false = ground arith in
    let eq : resume (pos p) k1 ≡ (ready (pos p) k1 >>= λ (r1, k2). some (priority, k2)) =
      ground arith in
    rw (made, eq)
      (finish p next lt free live (ready (pos p) k1) refl
        (ready-Running k1 r c p ps s now lt live other off))
  where
    apart : (p : ℕ) → p ≡ c → is_free (state_of k p) ≡ true → ⊥
    apart p e free =
        let runs : state_of k c ≡ pr_curr = run.state in
        let same = ap (λ x. is_free (state_of k x)) e in
        let no : is_free (state_of k c) ≡ false = rw runs refl in cc

    is_free→eq : (s : Prstate) → is_free s ≡ true → s ≡ pr_free
    is_free→eq s h = ground arith

    finish :
        (p next : ℕ)
        → p < nproc
        → is_free (state_of k p) ≡ true
        → is_free (state_of (created k ssize priority name saddr m p next) p) ≡ false
        → (o : Option (ℤ × Kernel))
        → ready (pos p) (created k ssize priority name saddr m p next) ≡ o
        → Runs o (λ (s, k'). (s ≡ ok) × SomeRunning k' r)
        → Runs (o >>= λ (r1, k2). some (priority, k2)) (λ (prio, k').
          (prio ≡ priority) × SomeRunning k' r × ((p : ℕ) × Begun k priority name k' p))
    finish p next lt free live none e h = h
    finish p next lt free live (some (x, k')) e h =
        let k1 = created k ssize priority name saddr m p next in
        let self : (p == p) ≡ true = ground arith in
        let kept = (ready-Kept (pos p) k1 x k' e).entries p in
        (
          refl,
          h.1,
          (
            p,
            record {
              was_free = free;
              active = ready-Active k1 p x k' lt live e;
              named =
                  ap (λ (y : Procent). y.prname) kept
                  ∙ rw self (short_name (pnmlen - 1) name (omega (arith, short)));
              priority_set = ap (λ (y : Procent). y.prprio) kept ∙ rw self refl;
              parent = ap (λ (y : Procent). y.prparent) kept ∙ rw self refl;
              counted = ready-prcount (pos p) k1 x k' e;
            },
          ),
        )
