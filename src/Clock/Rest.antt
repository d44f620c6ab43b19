-- ===== src/Clock/Rest.antt =====
-- What `resched` (Chapter5/resched.c) leaves of the sleepers, and `wakeup` (Chapter13/wakeup.c) as a
-- whole.
use os_design_xinu_approach.Prelude.{
  ℕ, ◌+◌, ◌<◌, ◌≡◌, refl, ◌∙◌, subst, ◌≢◌, inl, inr, Bool, true, false, Option, none, some, List,
  [], ◌∷◌, ◌++◌, arith, Bool-cases, All, All-map, Apart, ℤ, pos, ◌≤ℤ◌, leb_ℤ, ◌>>=◌, Runs, Runs-map,
}
use os_design_xinu_approach.Queue.{nproc}
use os_design_xinu_approach.Queue.Spans.{All-update}
use os_design_xinu_approach.Queue.Holds.{nodes}
use os_design_xinu_approach.Queue.Insert.{ahead, behind}
use os_design_xinu_approach.Queue.Frame.{
  Clear, HeadsApart, Holds-taken_other, Holds-inserted_other, Clear-disjoint, Clear-cons,
}
use os_design_xinu_approach.Queue.Delta.{procs, within, beyond, Due-frame, Sleeping}
use os_design_xinu_approach.State.{pr_curr, Kernel, ok, is_curr, is_delayed, state_of}
use os_design_xinu_approach.Sched.{resched, defer_stop, resched_cntl}
use os_design_xinu_approach.Sched.ReadyList.{
  prio_of, ReadyList, dispatched, queued, ReadyList-queued,
}
use os_design_xinu_approach.Sched.Resched.{
  resched-stays, resched-alone, first_stays, resched-yields, resched-leaves, dispatched-Running,
}
use os_design_xinu_approach.Sched.Ready.{joined}
use os_design_xinu_approach.Clock.Wakeup.{
  Asleep, Apart-delayed, disjoint, delayed_frame, Roused, wake_due-Roused,
}
use os_design_xinu_approach.Clock.{wake_due, wakeup}
use os_design_xinu_approach.Sched.Kept.{resched-Kept, Active, resched-Active}
use os_design_xinu_approach.Queue.Bound.{length-le-nproc}

-- The processes `xs` sleep and `ps` are ready.
record Rested (k : Kernel) (q r : ℕ) (ps : List ℕ) (xs : List (ℕ × ℕ)) : Type 0 where
  ready_list : ReadyList k r ps
  list : k.sleepq ≡ pos q
  sleeping : Sleeping k.queuetab q xs
  delayed : All (λ p. is_delayed (state_of k p) ≡ true) (procs xs)
  heads : HeadsApart q r

Rested-Clear :
    {k : Kernel} {q r : ℕ} {ps : List ℕ} {xs : List (ℕ × ℕ)}
    → Rested k q r ps xs
    → Clear q (procs xs) (nodes r ps)
Rested-Clear {k} {q} {r} {ps} {xs} a =
    Clear-disjoint a.sleeping.holds a.ready_list.ordered.holds a.heads
      (disjoint k (procs xs) ps a.delayed a.ready_list.readied)

Rested-queued :
    (k : Kernel) (q r c : ℕ) (ps : List ℕ) (xs : List (ℕ × ℕ))
    → Rested k q r ps xs
    → c < nproc
    → Apart c ps
    → is_delayed (state_of k c) ≡ false
    → Rested (queued k c r ps) q r (joined k c ps) xs
Rested-queued k q r c ps xs a lt new awake =
    let off = Apart-delayed k c (procs xs) awake a.delayed in
    record {
      ready_list = ReadyList-queued k r c ps a.ready_list lt new;
      list = a.list;
      sleeping = record {
        holds =
            Holds-inserted_other k.queuetab q (procs xs) a.sleeping.holds r c (prio_of k c) ps
              (Clear-cons c (nodes r ps) a.sleeping.holds lt off (Rested-Clear a));
        delays =
            Due-frame k.queuetab.qkey _ 0 xs a.sleeping.delays
              (All-update k.queuetab.qkey c (prio_of k c) (procs xs) off);
      };
      delayed = delayed_frame k (queued k c r ps) c (procs xs) (λ y ne. ground arith) off a.delayed;
      heads = a.heads;
    }

-- After the dispatch of the first ready process
Asleep-dispatched :
    (k : Kernel) (q r p : ℕ) (ps : List ℕ) (xs : List (ℕ × ℕ))
    → Rested k q r (p ∷ ps) xs
    → Asleep (dispatched k r p ps) q r p ps xs
Asleep-dispatched k q r p ps xs a =
    let awake : is_delayed (state_of k p) ≡ false = rw a.ready_list.readied.0 refl in
    let off = Apart-delayed k p (procs xs) awake a.delayed in
    record {
      scheduled = (dispatched-Running k r p ps a.ready_list).scheduled;
      list = a.list;
      sleeping = record {
        holds = Holds-taken_other k.queuetab q (procs xs) a.sleeping.holds r p ps (Rested-Clear a);
        delays = a.sleeping.delays;
      };
      delayed =
          delayed_frame k (dispatched k r p ps) p (procs xs) (λ y ne. ground arith) off a.delayed;
      awake = ground arith;
      heads = a.heads;
    }

Asleep-Rested :
    {k : Kernel} {q r c : ℕ} {ps : List ℕ} {xs : List (ℕ × ℕ)}
    → Asleep k q r c ps xs
    → Rested k q r ps xs
Asleep-Rested a = record {
  ready_list = a.scheduled.list;
  list = a.list;
  sleeping = a.sleeping;
  delayed = a.delayed;
  heads = a.heads;
}

-- The same sleepers, with some current process, which runs, and some ready ones
abbrev pub SomeAsleep : Kernel → ℕ → ℕ → List (ℕ × ℕ) → Type 0
SomeAsleep k q r xs =
    (c : ℕ) × (ps : List ℕ) × Asleep k q r c ps xs × (is_curr (state_of k c) ≡ true)

resched-Asleep :
    (k : Kernel) (q r c p : ℕ) (ps : List ℕ) (xs : List (ℕ × ℕ))
    → Asleep k q r c (p ∷ ps) xs
    → k.ndefers ≤ℤ pos 0
    → Runs (resched k) (λ k'. SomeAsleep k' q r xs)
resched-Asleep k q r c p ps xs a now =
    let f = k.queuetab.qkey in
    let key = prio_of k c in
    let s = a.scheduled in
    let qs = ahead f key ps ++ c ∷ behind f key ps in
    elim (Bool-cases (is_curr (state_of k c))) [
      | inr gone ↦
          rw (resched-leaves k r c p ps s now gone)
            (p, ps, Asleep-dispatched k q r p ps xs (Asleep-Rested a), ground arith)
      | inl runs ↦ elim (Bool-cases (leb_ℤ key (f p))) [
        | inl le ↦
            let full =
              Rested-queued k q r c (p ∷ ps) xs (Asleep-Rested a) s.in_table s.off_list a.awake in
            rw (resched-yields k r c p ps s now (ground arith) (ground arith)) (
              p,
              qs,
              Asleep-dispatched (queued k c r (p ∷ ps)) q r p qs xs (
                  subst (λ l. Rested (queued k c r (p ∷ ps)) q r l xs) (first_stays f key c p ps le)
                    full),
              ground arith,
            )
        | inr gt ↦
            rw (resched-stays k r c p ps s now (ground arith) (ground arith)) (c, p ∷ ps, a, runs)
      ]
    ]

-- How things stand when `resched` returns: the same processes sleep, and nobody who was ready or ran
-- has ceased to be.
pub record Settled (k : Kernel) (q r : ℕ) (xs : List (ℕ × ℕ)) (k' : Kernel) : Type 0 where
  pub asleep : SomeAsleep k' q r xs
  pub active : (p : ℕ) → Active k p → Active k' p
  pub deferral : k'.ndefers ≡ k.ndefers

pub resched-Settled :
    (k : Kernel) (q r c : ℕ) (ps : List ℕ) (xs : List (ℕ × ℕ))
    → Asleep k q r c ps xs
    → is_curr (state_of k c) ≡ true
    → k.ndefers ≤ℤ pos 0
    → Runs (resched k) (Settled k q r xs)
resched-Settled k q r c [] xs a runs now =
    let current : state_of k c ≡ pr_curr = ground arith in
    rw (resched-alone k r c a.scheduled now current)
      (record { asleep = (c, [], a, runs); active = λ p was. was; deferral = refl })
resched-Settled k q r c (p ∷ ps) xs a runs now =
    go (resched k) refl (resched-Asleep k q r c p ps xs a now)
  where
    go :
        (m : Option Kernel)
        → resched k ≡ m
        → Runs m (λ k'. SomeAsleep k' q r xs)
        → Runs m (Settled k q r xs)
    go none e h = h
    go (some k') e h = record {
      asleep = h;
      active = λ x was. resched-Active k k' x e was;
      deferral = (resched-Kept k k' e).ndefers;
    }

-- Deferral is none of the lists' business.
Asleep-deferral :
    {k : Kernel} {q r c : ℕ} {ps : List ℕ} {xs : List (ℕ × ℕ)} (n : ℤ) (b : Bool)
    → Asleep k q r c ps xs
    → Asleep (record k { ndefers = n; attempt = b }) q r c ps xs
Asleep-deferral n b a = record {
  scheduled = record {
    list = record {
      list_id = a.scheduled.list.list_id;
      ordered = a.scheduled.list.ordered;
      readied = a.scheduled.list.readied;
      keyed = a.scheduled.list.keyed;
      pri16 = a.scheduled.list.pri16;
    };
    current = a.scheduled.current;
    in_table = a.scheduled.in_table;
    off_list = a.scheduled.off_list;
  };
  list = a.list;
  sleeping = a.sleeping;
  delayed = a.delayed;
  awake = a.awake;
  heads = a.heads;
}

-- Whoever is due at `k` is active at `k'`, whoever was active still is, and the others sleep.
pub record Woken (k : Kernel) (q r : ℕ) (xs : List (ℕ × ℕ)) (k' : Kernel) : Type 0 where
  pub asleep : SomeAsleep k' q r (beyond 0 xs)
  pub active : (p : ℕ) → Active k p → Active k' p
  pub roused : All (Active k') (procs (within 0 xs))
  pub deferral : k'.ndefers ≡ pos 0

pub All-Active :
    (k k' : Kernel) (xs : List ℕ)
    → ((p : ℕ) → Active k p → Active k' p)
    → All (Active k) xs
    → All (Active k') xs
All-Active k k' xs mono h = All-map (Active k) (Active k') mono xs h

-- The last step of `wakeup`
stop-Woken :
    (k k2 : Kernel) (q r c : ℕ) (xs : List (ℕ × ℕ))
    → Roused k q r c xs k2
    → k.ndefers ≡ pos 1
    → Runs (resched_cntl defer_stop k2 >>= λ (v, k3). some k3) (Woken k q r xs)
unfolding resched_cntl
stop-Woken k k2 q r c xs h one = go h.readied h.asleep h.some_ready
  where
    noted : k2.attempt ≡ true
    noted = h.noted

    count : k2.ndefers ≡ pos 1
    count = h.deferred ∙ one

    free : Kernel
    free = record k2 { ndefers = pos 0; attempt = k2.attempt }

    finish :
        (m : Option Kernel)
        → resched free ≡ m
        → Runs m (λ k'. SomeAsleep k' q r (beyond 0 xs))
        → Runs ((m >>= λ k'. some (ok, k')) >>= λ (v, k3). some k3) (Woken k q r xs)
    finish none e asleep = asleep
    finish (some k') e asleep = record {
      asleep = asleep;
      active = λ p was. resched-Active free k' p e (h.active p was);
      roused = All-Active k2 k' (procs (within 0 xs)) (λ p. resched-Active free k' p e) h.roused;
      deferral = (resched-Kept free k' e).ndefers;
    }

    go :
        (ps : List ℕ)
        → Asleep k2 q r c ps (beyond 0 xs)
        → ps ≢ []
        → Runs (resched_cntl defer_stop k2 >>= λ (v, k3). some k3) (Woken k q r xs)
    go [] a some_ready = absurd (some_ready refl)
    go (p ∷ ps) a some_ready =
        let run : resched_cntl defer_stop k2 ≡ (resched free >>= λ k3. some (ok, k3)) =
          ground (arith, noted, count) in
        rw run (
          finish (resched free) refl (
            resched-Asleep free q r c p ps (beyond 0 xs) (Asleep-deferral (pos 0) k2.attempt a)
              (omega arith)))

wakeup_run :
    (k : Kernel)
    → k.ndefers ≡ pos 0
    → wakeup k ≡ (
        wake_due (nproc + 1) (record k { ndefers = pos 1; attempt = false }) >>= λ k2.
        resched_cntl defer_stop k2 >>= λ (v, k3). some k3)
unfolding wakeup resched_cntl
wakeup_run k none_deferred = ground (arith, none_deferred)

-- `wakeup` where the first sleeper is due
pub wakeup-Woken :
    (k : Kernel) (q r c x : ℕ) (ps : List ℕ) (xs : List (ℕ × ℕ))
    → Asleep k q r c ps ((x, 0) ∷ xs)
    → k.ndefers ≡ pos 0
    → Runs (wakeup k) (Woken k q r ((x, 0) ∷ xs))
wakeup-Woken k q r c x ps xs a none_deferred =
    let k1 = record k { ndefers = pos 1; attempt = false } in
    let few = length-le-nproc a.sleeping.holds in
    let rest =
      wake_due-Roused (nproc + 1) k1 q r c ps ((x, 0) ∷ xs) (Asleep-deferral (pos 1) false a)
        (omega arith) (λ e. absurd (cc)) (omega (arith, few)) in
    rw (wakeup_run k none_deferred) (
      Runs-map _ (Woken k1 q r ((x, 0) ∷ xs)) (Woken k q r ((x, 0) ∷ xs))
        (λ k' w. record {
          asleep = w.asleep;
          active = w.active;
          roused = w.roused;
          deferral = w.deferral;
        })
        (stop k1 (wake_due (nproc + 1) k1) rest refl))
  where
    stop :
        (k1 : Kernel) (m : Option Kernel)
        → Runs m (Roused k1 q r c ((x, 0) ∷ xs))
        → k1.ndefers ≡ pos 1
        → Runs
            (m >>= λ k2. resched_cntl defer_stop k2 >>= λ (v, k3). some k3)
            (Woken k1 q r ((x, 0) ∷ xs))
    stop k1 none h one = h
    stop k1 (some k2) h one = stop-Woken k1 k2 q r c ((x, 0) ∷ xs) h one
