-- ===== src/Sched/ReadyList.antt =====
-- The ready list as the scheduler of Chapter5 keeps it.
use os_design_xinu_approach.Prelude.{
  ℕ, ◌+◌, ◌<◌, ◌≡◌, refl, sym, ap, ◌∙◌, subst, ◌≢◌, inl, inr, some, List, [], ◌∷◌, ◌++◌, arith,
  ◌==◌, Bool-cases, All, Apart, All-insert, ℤ, pos, ◌<ℤ◌,
}
use os_design_xinu_approach.Queue.{nproc, minkey}
use os_design_xinu_approach.Queue.Spans.{first, update-ne}
use os_design_xinu_approach.Queue.Enqueue.{taken, dequeue-eq, Holds-taken}
use os_design_xinu_approach.Queue.Insert.{
  ahead, behind, ahead-behind, Descending, inserted, Ordered, Ordered-inserted,
}
use os_design_xinu_approach.State.{
  Prstate, pr_curr, pr_ready, Procent, Kernel, quantum, state_of, set_state,
}
use os_design_xinu_approach.Sched.{dispatch}
use os_design_xinu_approach.Queue.Holds.{Holds}

abbrev pub prio_of : Kernel → ℕ → ℤ
prio_of k p = (k.proctab p).prprio

-- The queue `r` holds the ready processes `ps`, in descending order of their priorities, which
-- are their keys. Priorities are 16-bit numbers, far above MINKEY.
pub record ReadyList (k : Kernel) (r : ℕ) (ps : List ℕ) : Type 0 where
  pub list_id : k.readylist ≡ pos r
  pub ordered : Ordered k.queuetab r ps
  pub readied : All (λ p. state_of k p ≡ pr_ready) ps
  pub keyed : All (λ p. k.queuetab.qkey p ≡ prio_of k p) ps
  pub pri16 : (p : ℕ) → minkey <ℤ prio_of k p

-- `k` after the dispatch of `p`, the first of the list
abbrev pub dispatched : Kernel → ℕ → ℕ → List ℕ → Kernel
dispatched k r p ps =
    record (set_state
      (record k { queuetab = taken k.queuetab p r (first ps (r + 1)); currpid = pos p }) p
      pr_curr) { preempt = quantum }

-- `k` after `c` has become ready
abbrev pub queued : Kernel → ℕ → ℕ → List ℕ → Kernel
queued k c r ps = record (set_state k c pr_ready) {
  queuetab = inserted k.queuetab c r (prio_of k c) ps;
}

pub dispatch-eq :
    (k : Kernel) (r p : ℕ) (ps : List ℕ)
    → ReadyList k r (p ∷ ps)
    → dispatch k ≡ some (dispatched k r p ps)
unfolding dispatch
dispatch-eq k r p ps l =
    rw (l.list_id, dequeue-eq k.queuetab r p ps l.ordered.holds)
      (let in_table : p < nproc = l.ordered.holds.members.0 in ground arith)

-- The entries of other processes than `c` are as they were.
module _ (k k' : Kernel) (c : ℕ) (same : (p : ℕ) → c ≢ p → k'.proctab p ≡ k.proctab p) where
  pub states_frame :
      (s : Prstate) (ps : List ℕ)
      → Apart c ps
      → All (λ p. state_of k p ≡ s) ps
      → All (λ p. state_of k' p ≡ s) ps
  states_frame s [] a h = tt
  states_frame s (p ∷ ps) a h =
      (ap (λ (e : Procent). e.prstate) (same p a.0) ∙ h.0, states_frame s ps a.1 h.1)

  pub keyed_frame :
      (ps : List ℕ)
      → Apart c ps
      → ((p : ℕ) → c ≢ p → k'.queuetab.qkey p ≡ k.queuetab.qkey p)
      → All (λ p. k.queuetab.qkey p ≡ prio_of k p) ps
      → All (λ p. k'.queuetab.qkey p ≡ prio_of k' p) ps
  keyed_frame [] a keys h = tt
  keyed_frame (p ∷ ps) a keys h = (
    keys p a.0 ∙ h.0 ∙ ap (λ (e : Procent). e.prprio) (sym (same p a.0)),
    keyed_frame ps a.1 keys h.1,
  )

pub ReadyList-dispatched :
    (k : Kernel) (r p : ℕ) (ps : List ℕ)
    → ReadyList k r (p ∷ ps)
    → ReadyList (dispatched k r p ps) r ps
ReadyList-dispatched k r p ps l = record {
  list_id = l.list_id;
  ordered = record {
    holds = Holds-taken k.queuetab r p ps l.ordered.holds;
    descending = l.ordered.descending.1;
    tail_key = l.ordered.tail_key;
  };
  readied =
      states_frame k (dispatched k r p ps) p (λ x ne. ground arith) pr_ready ps
        l.ordered.holds.distinct.0 l.readied.1;
  keyed =
      keyed_frame k (dispatched k r p ps) p (λ x ne. ground arith) ps l.ordered.holds.distinct.0
        (λ x ne. refl) l.keyed.1;
  pri16 = λ x. ground (arith, l.pri16 x, l.pri16 p);
}

pub ReadyList-queued :
    (k : Kernel) (r c : ℕ) (ps : List ℕ)
    → ReadyList k r ps
    → c < nproc
    → Apart c ps
    → ReadyList
        (queued k c r ps)
        r
        (ahead k.queuetab.qkey (prio_of k c) ps ++ c ∷ behind k.queuetab.qkey (prio_of k c) ps)
ReadyList-queued k r c ps l lt new =
    let f = k.queuetab.qkey in
    let key = prio_of k c in
    let parts : ahead f key ps ++ behind f key ps ≡ ps = ahead-behind f key ps in
    let frame : (x : ℕ) → c ≢ x → (queued k c r ps).proctab x ≡ k.proctab x =
      λ x ne. ground arith in
    record {
      list_id = l.list_id;
      ordered = Ordered-inserted k.queuetab c r key ps l.ordered lt new;
      readied =
          All-insert _ (ahead f key ps) (behind f key ps) (ground arith)
            (rw parts (states_frame k (queued k c r ps) c frame pr_ready ps new l.readied));
      keyed = All-insert _ (ahead f key ps) (behind f key ps) (ground arith) (
          rw parts (
            keyed_frame k (queued k c r ps) c frame ps new (λ x ne. update-ne f c key x ne)
              l.keyed));
      pri16 = λ x. ground (arith, l.pri16 x, l.pri16 c);
    }

-- The ready list stands while its queue holds the same processes under the same keys, and no entry
-- but that of a process `c` off the list changes, which keeps its priority.
pub ReadyList-frame :
    (k k' : Kernel) (r c : ℕ) (ps : List ℕ)
    → ReadyList k r ps
    → k'.readylist ≡ k.readylist
    → Holds k'.queuetab r ps
    → k'.queuetab.qkey ≡ k.queuetab.qkey
    → ((p : ℕ) → c ≢ p → k'.proctab p ≡ k.proctab p)
    → prio_of k' c ≡ prio_of k c
    → Apart c ps
    → ReadyList k' r ps
ReadyList-frame k k' r c ps l id holds keys same prio off = record {
  list_id = id ∙ l.list_id;
  ordered = record {
    holds = holds;
    descending = subst (λ f. Descending f ps) (sym keys) l.ordered.descending;
    tail_key = ap (λ (f : ℕ → ℤ). f (r + 1)) keys ∙ l.ordered.tail_key;
  };
  readied = states_frame k k' c same pr_ready ps off l.readied;
  keyed = keyed_frame k k' c same ps off (λ x ne. ap (λ (f : ℕ → ℤ). f x) keys) l.keyed;
  pri16 = λ x. elim (Bool-cases (c == x)) [
    | inl e ↦
        let eq : c ≡ x = ground arith in
        subst (λ y. minkey <ℤ prio_of k' y) eq (rw prio (l.pri16 c))
    | inr ne ↦ subst (λ (e : Procent). minkey <ℤ e.prprio) (sym (same x (ground arith))) (l.pri16 x)
  ];
}

-- A process in another state than the members of a list is not one of them.
pub Apart-state :
    (k : Kernel) (c : ℕ) (s s' : Prstate)
    → s ≢ s'
    → state_of k c ≡ s
    → (ps : List ℕ) → All (λ p. state_of k p ≡ s') ps
    → Apart c ps
Apart-state k c s s' ne is [] h = tt
Apart-state k c s s' ne is (p ∷ ps) h =
    ((λ e. ne (sym is ∙ ap (state_of k) e ∙ h.0)), Apart-state k c s s' ne is ps h.1)
