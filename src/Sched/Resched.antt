-- ===== src/Sched/Resched.antt =====
-- What `resched` of Chapter5/resched.c does: it keeps or chooses a process of highest priority.
use os_design_xinu_approach.Prelude.{
  ℕ, ◌+◌, ◌≤◌, ◌<◌, ◌≡◌, refl, subst, ◌≢◌, inl, inr, true, false, some, List, [], ◌∷◌, ◌++◌, arith,
  Bool-cases, All, All-map, Apart, ℤ, pos, ◌≤ℤ◌, ◌<ℤ◌, leb_ℤ, Runs,
}
use os_design_xinu_approach.Queue.{nproc, nqent, minkey, insert}
use os_design_xinu_approach.Queue.Insert.{ahead, behind, inserted, insert-eq}
use os_design_xinu_approach.State.{pr_curr, pr_ready, Kernel, is_curr, state_of, free_in, set_state}
use os_design_xinu_approach.Sched.{dispatch, resched}
use os_design_xinu_approach.Sched.ReadyList.{
  prio_of, ReadyList, dispatched, queued, dispatch-eq, ReadyList-dispatched, ReadyList-queued,
}

-- The current process `c` is off the ready list.
pub record Scheduled (k : Kernel) (r : ℕ) (ps : List ℕ) (c : ℕ) : Type 0 where
  pub list : ReadyList k r ps
  pub current : k.currpid ≡ pos c
  pub in_table : c < nproc
  pub off_list : Apart c ps

-- No ready process has a priority above that of `c`.
abbrev pub Highest : Kernel → List ℕ → ℕ → Type 0
Highest k ps c = All (λ p. k.queuetab.qkey p ≤ℤ prio_of k c) ps

-- `c` runs, in state PR_CURR, and no ready process is more urgent.
pub record Running (k : Kernel) (r : ℕ) (ps : List ℕ) (c : ℕ) : Type 0 where
  pub scheduled : Scheduled k r ps c
  pub state : state_of k c ≡ pr_curr
  pub highest : Highest k ps c

-- While rescheduling is deferred, `resched` only notes the attempt.
pub resched-deferred :
    (k : Kernel) → pos 0 <ℤ k.ndefers → resched k ≡ some (record k { attempt = true })
unfolding resched
resched-deferred k h = ground arith

-- A current process that is more urgent than the first ready one goes on.
pub resched-stays :
    (k : Kernel) (r c p : ℕ) (ps : List ℕ)
    → Scheduled k r (p ∷ ps) c
    → k.ndefers ≤ℤ pos 0
    → state_of k c ≡ pr_curr
    → k.queuetab.qkey p <ℤ prio_of k c
    → resched k ≡ some k
unfolding resched
resched-stays k r c p ps s now runs above =
    let head : k.queuetab.qnext r ≡ pos p = s.list.ordered.holds.chain.0.0 in
    let high : r + 1 < nqent = s.list.ordered.holds.high in
    let p_in : p < nproc = s.list.ordered.holds.members.0 in
    let c_in : c < nproc = s.in_table in rw (s.current, s.list.list_id) (ground arith)

-- With nobody ready the current process goes on.
pub resched-alone :
    (k : Kernel) (r c : ℕ)
    → Scheduled k r [] c
    → k.ndefers ≤ℤ pos 0
    → state_of k c ≡ pr_curr
    → resched k ≡ some k
unfolding resched
resched-alone k r c s now runs =
    let head : k.queuetab.qnext r ≡ pos (r + 1) = s.list.ordered.holds.chain.0 in
    let high : r + 1 < nqent = s.list.ordered.holds.high in
    let low : nproc ≤ r = s.list.ordered.holds.low in
    let last : k.queuetab.qkey (r + 1) ≡ minkey = s.list.ordered.tail_key in
    let above : minkey <ℤ prio_of k c = s.list.pri16 c in
    let c_in : c < nproc = s.in_table in rw (s.current, s.list.list_id) (ground arith)

-- The steps of `resched` that lead to a switch away from a process that could go on.
yields_run :
    (k : Kernel) (r c p : ℕ) (ps qs : List ℕ)
    → k.currpid ≡ pos c
    → k.readylist ≡ pos r
    → k.queuetab.qnext r ≡ pos p
    → r + 1 < nqent
    → p < nproc
    → c < nproc
    → k.ndefers ≤ℤ pos 0
    → state_of k c ≡ pr_curr
    → leb_ℤ (prio_of k c) (k.queuetab.qkey p) ≡ true
    → insert (free_in (set_state k c pr_ready)) (pos c) (pos r) (prio_of k c) k.queuetab
      ≡ some (pos 0, inserted k.queuetab c r (prio_of k c) ps)
    → dispatch (queued k c r ps) ≡ some (dispatched (queued k c r ps) r p qs)
    → resched k ≡ some (dispatched (queued k c r ps) r p qs)
unfolding resched
yields_run k r c p ps qs current list_id head high p_in c_in now runs test ins dis = ground arith

pub first_stays :
    (f : ℕ → ℤ) (key : ℤ) (c p : ℕ) (ps : List ℕ)
    → leb_ℤ key (f p) ≡ true
    → ahead f key (p ∷ ps) ++ c ∷ behind f key (p ∷ ps)
      ≡ p ∷ (ahead f key ps ++ c ∷ behind f key ps)
first_stays f key c p ps test = rw test

-- A current process that is not more urgent goes behind the ready ones of at least its priority,
-- and the first ready process runs.
pub resched-yields :
    (k : Kernel) (r c p : ℕ) (ps : List ℕ)
    → Scheduled k r (p ∷ ps) c
    → k.ndefers ≤ℤ pos 0
    → state_of k c ≡ pr_curr
    → prio_of k c ≤ℤ k.queuetab.qkey p
    → resched k
      ≡ some (
          dispatched
            (queued k c r (p ∷ ps))
            r
            p
            (ahead k.queuetab.qkey (prio_of k c) ps ++ c ∷ behind k.queuetab.qkey (prio_of k c) ps))
resched-yields k r c p ps s now runs below =
    let f = k.queuetab.qkey in
    let key = prio_of k c in
    let test : leb_ℤ key (f p) ≡ true = ground arith in
    let ins =
      insert-eq (free_in (set_state k c pr_ready)) k.queuetab c r key (p ∷ ps) s.list.ordered.holds
        s.in_table (ground arith) (rw s.list.ordered.tail_key (s.list.pri16 c)) in
    let queue : ReadyList (queued k c r (p ∷ ps)) r (p ∷ (ahead f key ps ++ c ∷ behind f key ps)) =
      subst (λ l. ReadyList (queued k c r (p ∷ ps)) r l) (first_stays f key c p ps test)
        (ReadyList-queued k r c (p ∷ ps) s.list s.in_table s.off_list) in
    let dis =
      dispatch-eq (queued k c r (p ∷ ps)) r p (ahead f key ps ++ c ∷ behind f key ps) queue in
    let head : k.queuetab.qnext r ≡ pos p = s.list.ordered.holds.chain.0.0 in
    let high : r + 1 < nqent = s.list.ordered.holds.high in
    let p_in : p < nproc = s.list.ordered.holds.members.0 in
    let c_in : c < nproc = s.in_table in
    yields_run k r c p (p ∷ ps) (ahead f key ps ++ c ∷ behind f key ps) s.current s.list.list_id
      head high p_in c_in now runs test ins dis

-- A current process in any other state leaves the processor to the first ready one.
pub resched-leaves :
    (k : Kernel) (r c p : ℕ) (ps : List ℕ)
    → Scheduled k r (p ∷ ps) c
    → k.ndefers ≤ℤ pos 0
    → is_curr (state_of k c) ≡ false
    → resched k ≡ some (dispatched k r p ps)
unfolding resched
resched-leaves k r c p ps s now gone =
    let dis = dispatch-eq k r p ps s.list in
    let c_in : c < nproc = s.in_table in let current = s.current in ground (arith, dis)

Highest-below :
    (k k' : Kernel) (p : ℕ) (ps : List ℕ)
    → k'.queuetab.qkey ≡ k.queuetab.qkey
    → prio_of k' p ≡ prio_of k p
    → k.queuetab.qkey p ≡ prio_of k p
    → All (λ y. k.queuetab.qkey y ≤ℤ k.queuetab.qkey p) ps
    → Highest k' ps p
Highest-below k k' p [] keys prio key h = tt
Highest-below k k' p (y ∷ ps) keys prio key h =
    (rw (keys, prio, ← key) h.0, Highest-below k k' p ps keys prio key h.1)

-- The first of an ordered ready list is a process of highest priority.
pub dispatched-Running :
    (k : Kernel) (r p : ℕ) (ps : List ℕ)
    → ReadyList k r (p ∷ ps)
    → Running (dispatched k r p ps) r ps p
dispatched-Running k r p ps l = record {
  scheduled = record {
    list = ReadyList-dispatched k r p ps l;
    current = refl;
    in_table = l.ordered.holds.members.0;
    off_list = l.ordered.holds.distinct.0;
  };
  state = ground arith;
  highest =
      Highest-below k (dispatched k r p ps) p ps refl (ground arith) l.keyed.0
        l.ordered.descending.0;
}

Highest-stays :
    (k : Kernel) (c p : ℕ) (ps : List ℕ)
    → k.queuetab.qkey p <ℤ prio_of k c
    → All (λ y. k.queuetab.qkey y ≤ℤ k.queuetab.qkey p) ps
    → Highest k ps c
Highest-stays k c p ps above h =
    All-map (λ y. k.queuetab.qkey y ≤ℤ k.queuetab.qkey p) (λ y. k.queuetab.qkey y ≤ℤ prio_of k c)
      (λ y le. omega arith) ps h

-- Somebody runs: some current process and ready list of `k'`.
abbrev pub SomeRunning : Kernel → ℕ → Type 0
SomeRunning k' r = (c : ℕ) × (ps : List ℕ) × Running k' r ps c

-- With rescheduling not deferred and a process ready, `resched` ends with some process in state
-- PR_CURR that is off the ready list, at least as urgent as every ready process, and the ready
-- list in order; it accesses no table outside its bounds.
pub resched-Running :
    (k : Kernel) (r c : ℕ) (ps : List ℕ)
    → Scheduled k r ps c
    → k.ndefers ≤ℤ pos 0
    → ps ≢ []
    → Runs (resched k) (λ k'. SomeRunning k' r)
resched-Running k r c [] s now some_ready = absurd (some_ready refl)
resched-Running k r c (p ∷ ps) s now some_ready =
    let f = k.queuetab.qkey in
    let key = prio_of k c in
    let qs = ahead f key ps ++ c ∷ behind f key ps in
    elim (Bool-cases (is_curr (state_of k c))) [
      | inr gone ↦
          rw (resched-leaves k r c p ps s now gone) (p, ps, dispatched-Running k r p ps s.list)
      | inl runs ↦ elim (Bool-cases (leb_ℤ key (f p))) [
        | inl le ↦ rw (resched-yields k r c p ps s now (ground arith) (ground arith)) (
          p,
          qs,
          dispatched-Running (queued k c r (p ∷ ps)) r p qs (
              subst (λ l. ReadyList (queued k c r (p ∷ ps)) r l) (first_stays f key c p ps le)
                (ReadyList-queued k r c (p ∷ ps) s.list s.in_table s.off_list)),
        )
        | inr gt ↦
            let above : f p <ℤ key = ground arith in
            let state : state_of k c ≡ pr_curr = ground arith in
            rw (resched-stays k r c p ps s now state above) (
              c,
              p ∷ ps,
              record {
                scheduled = s;
                state = state;
                highest = (omega arith, Highest-stays k c p ps above s.list.ordered.descending.0);
              },
            )
      ]
    ]
