-- ===== src/Clock/Wakeup.antt =====
-- Waking up: the loop of `wakeup` (Chapter13/wakeup.c) under deferral, with `ready` and `resched` of
-- Chapter5.
use os_design_xinu_approach.Prelude.{
  ℕ, zero, suc, ◌+◌, ◌-◌, ◌≤◌, ◌<◌, ◌≡◌, refl, sym, ap, ◌∙◌, ◌≢◌, true, false, Option, none, some,
  List, [], ◌∷◌, arith, leb, length, All, Apart, Apart-flip, ℤ, pos, ◌<ℤ◌, ◌>>=◌, Runs,
}
use os_design_xinu_approach.Queue.Spans.{first, All-update}
use os_design_xinu_approach.Queue.Holds.{nodes}
use os_design_xinu_approach.Queue.Enqueue.{taken, dequeue-eq, Holds-taken}
use os_design_xinu_approach.Queue.Frame.{
  Clear, HeadsApart, Holds-taken_other, Holds-inserted_other, Clear-disjoint, Clear-cons,
  HeadsApart-sym,
}
use os_design_xinu_approach.Queue.Delta.{procs, within, beyond, Due-frame, Sleeping}
use os_design_xinu_approach.State.{Prstate, pr_ready, Kernel, ok, is_free, is_delayed, state_of}
use os_design_xinu_approach.Sched.ReadyList.{prio_of, queued, ReadyList-frame}
use os_design_xinu_approach.Sched.Resched.{Scheduled, resched-deferred}
use os_design_xinu_approach.Sched.Ready.{
  joined, ready-eq, Scheduled-queued, joined-ne-nil, Scheduled-noted,
}
use os_design_xinu_approach.Queue.{nproc, nqent, Queuetab, dequeue}
use os_design_xinu_approach.Clock.{due, wake_due}
use os_design_xinu_approach.Sched.{ready}
use os_design_xinu_approach.Sched.Kept.{Active}

-- The processes `xs` sleep, `ps` are ready, and `c` is the current one.
pub record Asleep (k : Kernel) (q r c : ℕ) (ps : List ℕ) (xs : List (ℕ × ℕ)) : Type 0 where
  pub scheduled : Scheduled k r ps c
  pub list : k.sleepq ≡ pos q
  pub sleeping : Sleeping k.queuetab q xs
  pub delayed : All (λ p. is_delayed (state_of k p) ≡ true) (procs xs)
  pub awake : is_delayed (state_of k c) ≡ false
  pub heads : HeadsApart q r

-- Other processes than those of a list have other states.
pub Apart-delayed :
    (k : Kernel) (p : ℕ) (xs : List ℕ)
    → is_delayed (state_of k p) ≡ false
    → All (λ x. is_delayed (state_of k x) ≡ true) xs
    → Apart p xs
Apart-delayed k p [] awake h = tt
Apart-delayed k p (x ∷ xs) awake h = (
  (λ e. absurd (true_false (sym h.0 ∙ ap (λ y. is_delayed (state_of k y)) (sym e) ∙ awake))),
  Apart-delayed k p xs awake h.1,
)
  where
    true_false : true ≡ false → ⊥
    true_false e = cc

ready_awake : (k : Kernel) (p : ℕ) → state_of k p ≡ pr_ready → is_delayed (state_of k p) ≡ false
ready_awake k p is = rw is refl

-- No sleeping process is ready.
Apart-ready :
    (k : Kernel) (x : ℕ) (ps : List ℕ)
    → is_delayed (state_of k x) ≡ true
    → All (λ p. state_of k p ≡ pr_ready) ps
    → Apart x ps
Apart-ready k x [] asleep h = tt
Apart-ready k x (p ∷ ps) asleep h = (
  (λ e.
      let same = ap (λ y. is_delayed (state_of k y)) e in
      let no = ready_awake k p h.0 in absurd (cc)),
  Apart-ready k x ps asleep h.1,
)

pub disjoint :
    (k : Kernel) (xs ps : List ℕ)
    → All (λ x. is_delayed (state_of k x) ≡ true) xs
    → All (λ p. state_of k p ≡ pr_ready) ps
    → All (λ x. Apart x ps) xs
disjoint k [] ps d h = tt
disjoint k (x ∷ xs) ps d h = (Apart-ready k x ps d.0 h, disjoint k xs ps d.1 h)

pub delayed_frame :
    (k k' : Kernel) (p : ℕ) (xs : List ℕ)
    → ((x : ℕ) → p ≢ x → state_of k' x ≡ state_of k x)
    → Apart p xs
    → All (λ x. is_delayed (state_of k x) ≡ true) xs
    → All (λ x. is_delayed (state_of k' x) ≡ true) xs
delayed_frame k k' p [] same off h = tt
delayed_frame k k' p (x ∷ xs) same off h =
    (ap is_delayed (same x off.0) ∙ h.0, delayed_frame k k' p xs same off.1 h.1)

-- Without the first sleeper
abbrev unlisted : Kernel → ℕ → ℕ → List (ℕ × ℕ) → Kernel
unlisted k q x xs = record k { queuetab = taken k.queuetab x q (first (procs xs) (q + 1)) }

-- The kernel after one round of `wakeup`
abbrev woken : Kernel → ℕ → ℕ → ℕ → List ℕ → List (ℕ × ℕ) → Kernel
woken k q r x ps xs = record (queued (unlisted k q x xs) x r ps) { attempt = true }

module _ (k : Kernel) (q r c x : ℕ) (ps : List ℕ) (xs : List (ℕ × ℕ))
    (a : Asleep k q r c ps ((x, 0) ∷ xs)) where
  sleeper_off : Apart x ps
  sleeper_off = Apart-ready k x ps a.delayed.0 a.scheduled.list.readied

  sleepers_off : All (λ w. Apart w ps) (procs ((x, 0) ∷ xs))
  sleepers_off = disjoint k (procs ((x, 0) ∷ xs)) ps a.delayed a.scheduled.list.readied

  queue-Clear : Clear q (procs ((x, 0) ∷ xs)) (nodes r ps)
  queue-Clear = Clear-disjoint a.sleeping.holds a.scheduled.list.ordered.holds a.heads sleepers_off

  ready-Clear : Clear r ps (nodes q (procs ((x, 0) ∷ xs)))
  ready-Clear =
      Clear-disjoint a.scheduled.list.ordered.holds a.sleeping.holds (HeadsApart-sym a.heads)
        (Apart-flip (procs ((x, 0) ∷ xs)) ps sleepers_off)

  Scheduled-unlisted : Scheduled (unlisted k q x xs) r ps c
  Scheduled-unlisted = record {
    list =
        ReadyList-frame k (unlisted k q x xs) r c ps a.scheduled.list refl
          (Holds-taken_other k.queuetab r ps a.scheduled.list.ordered.holds q x (procs xs)
            ready-Clear)
          refl (λ p ne. refl) refl a.scheduled.off_list;
    current = a.scheduled.current;
    in_table = a.scheduled.in_table;
    off_list = a.scheduled.off_list;
  }

  other_than : x ≢ c
  other_than e =
      let no = a.awake in
      let yes = a.delayed.0 in let same = ap (λ y. is_delayed (state_of k y)) e in absurd (cc)

  Asleep-woken : Asleep (woken k q r x ps xs) q r c (joined (unlisted k q x xs) x ps) xs
  Asleep-woken =
      let t = taken k.queuetab x q (first (procs xs) (q + 1)) in
      let h = Holds-taken k.queuetab q x (procs xs) a.sleeping.holds in
      let clear : Clear q (procs xs) (nodes r ps) =
        (queue-Clear.0, (queue-Clear.1.0, queue-Clear.1.1.1)) in
      let all_clear =
        Clear-cons x (nodes r ps) h a.sleeping.holds.members.0 a.sleeping.holds.distinct.0 clear in
      let off : Apart x (procs xs) = a.sleeping.holds.distinct.0 in
      record {
        scheduled = Scheduled-noted (
            Scheduled-queued (unlisted k q x xs) r c x ps Scheduled-unlisted
              a.sleeping.holds.members.0 other_than sleeper_off);
        list = a.list;
        sleeping = record {
          holds = Holds-inserted_other t q (procs xs) h r x (prio_of k x) ps all_clear;
          delays =
              Due-frame t.qkey _ 0 xs a.sleeping.delays.2
                (All-update t.qkey x (prio_of k x) (procs xs) off);
        };
        delayed =
            delayed_frame k (woken k q r x ps xs) x (procs xs) (λ y ne. ground arith) off
              a.delayed.1;
        awake = let ne = other_than in ground (arith, a.awake);
        heads = a.heads;
      }

  due_first : due k ≡ some true
  unfolding due
  due_first =
      let h = a.sleeping.holds in
      let head : k.queuetab.qnext q ≡ pos x = h.chain.0.0 in
      let high : q + 1 < nqent = h.high in
      let small : x < nproc = h.members.0 in
      let key : k.queuetab.qkey x ≡ pos 0 = a.sleeping.delays.1 in
      let list : k.sleepq ≡ pos q = a.list in ground arith

  sleeper_live : (s : Prstate) → is_delayed s ≡ true → is_free s ≡ false
  sleeper_live s d = ground arith

  ready-woken :
      pos 0 <ℤ k.ndefers → ready (pos x) (unlisted k q x xs) ≡ some (ok, woken k q r x ps xs)
  ready-woken deferred =
      ready-eq (unlisted k q x xs) r x ps Scheduled-unlisted.list a.sleeping.holds.members.0
        (sleeper_live (state_of k x) a.delayed.0)
      ∙ ap (λ o. o >>= λ k2. some (ok, k2))
          (resched-deferred (queued (unlisted k q x xs) x r ps) deferred)

  dequeue_woken : dequeue k.sleepq k.queuetab ≡ some (pos x, (unlisted k q x xs).queuetab)
  dequeue_woken =
      ap (λ l. dequeue l k.queuetab) a.list ∙ dequeue-eq k.queuetab q x (procs xs) a.sleeping.holds

-- One round of the loop
wake_run :
    (fuel : ℕ) (k : Kernel) (pid : ℤ) (t : Queuetab) (r : ℤ) (k' : Kernel)
    → due k ≡ some true
    → dequeue k.sleepq k.queuetab ≡ some (pid, t)
    → ready pid (record k { queuetab = t }) ≡ some (r, k')
    → wake_due (suc fuel) k ≡ wake_due fuel k'
unfolding wake_due
wake_run fuel k pid t r k' some_due removed run = ground (arith, some_due, removed, run)

wake_stop-nil :
    (k : Kernel) (q r c fuel : ℕ) (ps : List ℕ)
    → Asleep k q r c ps []
    → wake_due (suc fuel) k ≡ some k
unfolding wake_due due
wake_stop-nil k q r c fuel ps a =
    let head : k.queuetab.qnext q ≡ pos (q + 1) = a.sleeping.holds.chain.0 in
    let high : q + 1 < nqent = a.sleeping.holds.high in
    let low : nproc ≤ q = a.sleeping.holds.low in let list = a.list in ground arith

wake_stop-cons :
    (k : Kernel) (q r c fuel x d : ℕ) (ps : List ℕ) (xs : List (ℕ × ℕ))
    → Asleep k q r c ps ((x, d) ∷ xs)
    → 0 < d
    → wake_due (suc fuel) k ≡ some k
unfolding wake_due due
wake_stop-cons k q r c fuel x d ps xs a later =
    let head : k.queuetab.qnext q ≡ pos x = a.sleeping.holds.chain.0.0 in
    let high : q + 1 < nqent = a.sleeping.holds.high in
    let small : x < nproc = a.sleeping.holds.members.0 in
    let key : k.queuetab.qkey x ≡ pos (d - 0) = a.sleeping.delays.1 in
    let list = a.list in ground arith

-- How the loop of `wakeup` ends from `k`: those who are due have left the list and are active, and
-- nobody who was active has ceased to be.
pub record Roused (k : Kernel) (q r c : ℕ) (xs : List (ℕ × ℕ)) (k' : Kernel) : Type 0 where
  pub readied : List ℕ
  pub asleep : Asleep k' q r c readied (beyond 0 xs)
  pub some_ready : readied ≢ []
  pub noted : k'.attempt ≡ true
  pub deferred : k'.ndefers ≡ k.ndefers
  pub active : (p : ℕ) → Active k p → Active k' p
  pub roused : All (Active k') (procs (within 0 xs))

pub wake_due-Roused :
    (fuel : ℕ) (k : Kernel) (q r c : ℕ) (ps : List ℕ) (xs : List (ℕ × ℕ))
    → Asleep k q r c ps xs
    → pos 0 <ℤ k.ndefers
    → (procs (within 0 xs) ≡ [] → (k.attempt ≡ true) × (ps ≢ []))
    → length (procs xs) < fuel
    → Runs (wake_due fuel k) (Roused k q r c xs)
wake_due-Roused zero k q r c ps xs a deferred before few = absurd (omega (arith, few))
wake_due-Roused (suc fuel) k q r c ps [] a deferred before few =
    let none_due : procs (within 0 []) ≡ [] = refl in
    rw (wake_stop-nil k q r c fuel ps a) (record {
      readied = ps;
      asleep = a;
      some_ready = (before none_due).1;
      noted = (before none_due).0;
      deferred = refl;
      active = λ p h. h;
      roused = tt;
    })
wake_due-Roused (suc fuel) k q r c ps ((x, suc d) ∷ xs) a deferred before few =
    let later : leb (suc d) 0 ≡ false = ground arith in
    let none_due : procs (within 0 ((x, suc d) ∷ xs)) ≡ [] = rw later refl in
    rw (wake_stop-cons k q r c fuel x (suc d) ps xs a (omega arith)) (record {
      readied = ps;
      asleep = rw later a;
      some_ready = (before none_due).1;
      noted = (before none_due).0;
      deferred = refl;
      active = λ p h. h;
      roused = rw later tt;
    })
wake_due-Roused (suc fuel) k q r c ps ((x, zero) ∷ xs) a deferred before few =
    let k1 = woken k q r x ps xs in
    let step =
      wake_run fuel k (pos x) _ ok k1 (due_first k q r c x ps xs a)
        (dequeue_woken k q r c x ps xs a) (ready-woken k q r c x ps xs a deferred) in
    let rest =
      wake_due-Roused fuel k1 q r c (joined (unlisted k q x xs) x ps) xs
        (Asleep-woken k q r c x ps xs a) deferred
        (λ e. (refl, joined-ne-nil (unlisted k q x xs) x ps)) (omega (arith, few)) in
    rw step (after (wake_due fuel k1) rest)
  where
    after :
        (m : Option Kernel)
        → Runs m (Roused (woken k q r x ps xs) q r c xs)
        → Runs m (Roused k q r c ((x, zero) ∷ xs))
    after none h = h
    after (some k') h = record {
      readied = h.readied;
      asleep = h.asleep;
      some_ready = h.some_ready;
      noted = h.noted;
      deferred = h.deferred;
      active = λ p was. h.active p (ground (arith, was));
      roused = (h.active x (ground arith), h.roused);
    }
