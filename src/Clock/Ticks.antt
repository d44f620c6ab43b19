-- ===== src/Clock/Ticks.antt =====
-- The first part of `clkhandler` (Chapter13/clkhandler.c), a tick on the delta list, with `wakeup`
-- (Chapter13/wakeup.c).
use os_design_xinu_approach.Prelude.{
  ℕ, zero, suc, ◌+◌, ◌-◌, ◌≤◌, ◌<◌, ◌≡◌, refl, ◌∙◌, true, false, some, List, [], ◌∷◌, arith, leb,
  Apart, pos, ◌-ℤ◌, Runs, Runs-map,
}
use os_design_xinu_approach.Queue.{nproc, nqent, update}
use os_design_xinu_approach.Queue.Spans.{update-ne}
use os_design_xinu_approach.Queue.Holds.{Holds-key}
use os_design_xinu_approach.Queue.Insert.{Descending-update}
use os_design_xinu_approach.Queue.Delta.{procs, beyond}
use os_design_xinu_approach.State.{Kernel, is_curr, state_of}
use os_design_xinu_approach.Sched.ReadyList.{ReadyList, keyed_frame}
use os_design_xinu_approach.Clock.{wakeup, count_second, clock_tick}
use os_design_xinu_approach.Clock.Delays.{ticked, procs-ticked, Sleeping-ticked}
use os_design_xinu_approach.Clock.Wakeup.{Asleep, disjoint}
use os_design_xinu_approach.Clock.Rest.{Woken, wakeup-Woken}

-- The delay of the first sleeper is not over.
abbrev pub Later : List (ℕ × ℕ) → Type 0
Later [] = Unit
Later ((x, d) ∷ xs) = 0 < d

pub Later-beyond : (xs : List (ℕ × ℕ)) → Later (beyond 0 xs)
Later-beyond [] = tt
Later-beyond ((x, zero) ∷ xs) = Later-beyond xs
Later-beyond ((x, suc d) ∷ xs) =
    let no : leb (suc d) 0 ≡ false = ground arith in rw no (omega arith)

-- The key of `x` is one less.
abbrev shorter : Kernel → ℕ → Kernel
shorter k x = record k {
  queuetab = record k.queuetab { qkey = update k.queuetab.qkey x (k.queuetab.qkey x -ℤ pos 1) };
}

ReadyList-rekeyed :
    (k : Kernel) (r x : ℕ) (ps : List ℕ)
    → ReadyList k r ps
    → x < nproc
    → Apart x ps
    → ReadyList (shorter k x) r ps
ReadyList-rekeyed k r x ps l lt off =
    let low : nproc ≤ r = l.ordered.holds.low in
    record {
      list_id = l.list_id;
      ordered = record {
        holds = Holds-key _ l.ordered.holds;
        descending = Descending-update k.queuetab.qkey x _ ps l.ordered.descending off;
        tail_key = update-ne k.queuetab.qkey x _ (r + 1) (λ e. omega arith) ∙ l.ordered.tail_key;
      };
      readied = l.readied;
      keyed =
          keyed_frame k (shorter k x) x (λ p ne. refl) ps off
            (λ p ne. update-ne k.queuetab.qkey x _ p ne) l.keyed;
      pri16 = l.pri16;
    }

Asleep-shorter :
    (k : Kernel) (q r c x d : ℕ) (ps : List ℕ) (xs : List (ℕ × ℕ))
    → Asleep k q r c ps ((x, d) ∷ xs)
    → 0 < d
    → Asleep (shorter k x) q r c ps (ticked ((x, d) ∷ xs))
Asleep-shorter k q r c x d ps xs a some_left =
    let off = (disjoint k (procs ((x, d) ∷ xs)) ps a.delayed a.scheduled.list.readied).0 in
    record {
      scheduled = record {
        list = ReadyList-rekeyed k r x ps a.scheduled.list a.sleeping.holds.members.0 off;
        current = a.scheduled.current;
        in_table = a.scheduled.in_table;
        off_list = a.scheduled.off_list;
      };
      list = a.list;
      sleeping = Sleeping-ticked k.queuetab q x d xs a.sleeping some_left;
      delayed = rw (procs-ticked xs) a.delayed;
      awake = a.awake;
      heads = a.heads;
    }

-- The time of day and the time slice are none of the lists' business.
pub Asleep-time :
    {k : Kernel} {q r c : ℕ} {ps : List ℕ} {xs : List (ℕ × ℕ)} (l m n : ℕ)
    → Asleep k q r c ps xs
    → Asleep (record k { clktime = l; count1000 = m; preempt = n }) q r c ps xs
Asleep-time l m n a = record {
  scheduled = record {
    list = record {
      list_id = a.scheduled.list.list_id;
      ordered = a.scheduled.list.ordered;
      readied = a.scheduled.list.readied;
      keyed = a.scheduled.list.keyed;
      pri16 = a.scheduled.list.pri16;
    };
    current = a.scheduled.current;
    in_table = a.scheduled.in_table;
    off_list = a.scheduled.off_list;
  };
  list = a.list;
  sleeping = a.sleeping;
  delayed = a.delayed;
  awake = a.awake;
  heads = a.heads;
}

-- `count_second` changes the time only.
timed : Kernel → Kernel → Kernel
timed k k1 = record k1 {
  clktime = (count_second k).clktime;
  count1000 = (count_second k).count1000;
}

tick-nil :
    (k : Kernel) (q : ℕ)
    → k.sleepq ≡ pos q
    → q + 1 < nqent
    → nproc ≤ q
    → k.queuetab.qnext q ≡ pos (q + 1)
    → clock_tick k ≡ some (timed k k)
unfolding clock_tick count_second timed
tick-nil k q list high low head = ground arith

tick-later :
    (k : Kernel) (q x d : ℕ)
    → k.sleepq ≡ pos q
    → q + 1 < nqent
    → k.queuetab.qnext q ≡ pos x
    → x < nproc
    → k.queuetab.qkey x ≡ pos d
    → 1 < d
    → clock_tick k ≡ some (timed k (shorter k x))
unfolding clock_tick count_second timed
tick-later k q x d list high head small key more = ground arith

tick-due :
    (k : Kernel) (q x : ℕ)
    → k.sleepq ≡ pos q
    → q + 1 < nqent
    → k.queuetab.qnext q ≡ pos x
    → x < nproc
    → k.queuetab.qkey x ≡ pos 1
    → clock_tick k ≡ wakeup (timed k (shorter k x))
unfolding clock_tick count_second timed
tick-due k q x list high head small key = ground arith

-- A tick makes those active whose delay it ends, and all others sleep on with one tick less.
pub clock_tick-Woken :
    (k : Kernel) (q r c : ℕ) (ps : List ℕ) (xs : List (ℕ × ℕ))
    → Asleep k q r c ps xs
    → is_curr (state_of k c) ≡ true
    → Later xs
    → k.ndefers ≡ pos 0
    → Runs (clock_tick k) (Woken k q r (ticked xs))
unfolding timed
clock_tick-Woken k q r c ps [] a runs later now =
    let h = a.sleeping.holds in
    rw (tick-nil k q a.list h.high h.low h.chain.0) (record {
      asleep = (c, ps, Asleep-time _ _ k.preempt a, runs);
      active = λ p was. was;
      roused = tt;
      deferral = now;
    })
clock_tick-Woken k q r c ps ((x, zero) ∷ xs) a runs later now = absurd (omega (arith, later))
clock_tick-Woken k q r c ps ((x, suc zero) ∷ xs) a runs later now =
    let h = a.sleeping.holds in
    let k1 = timed k (shorter k x) in
    let key : k.queuetab.qkey x ≡ pos 1 = a.sleeping.delays.1 in
    let a1 : Asleep k1 q r c ps ((x, 0) ∷ ticked xs) =
      Asleep-time _ _ k.preempt (Asleep-shorter k q r c x 1 ps xs a (omega arith)) in
    rw (tick-due k q x a.list h.high h.chain.0.0 h.members.0 key) (
      Runs-map (wakeup k1) (Woken k1 q r ((x, 0) ∷ ticked xs)) (Woken k q r ((x, 0) ∷ ticked xs))
        (λ k' w. record {
          asleep = w.asleep;
          active = w.active;
          roused = w.roused;
          deferral = w.deferral;
        })
        (wakeup-Woken k1 q r c x ps (ticked xs) a1 now))
clock_tick-Woken k q r c ps ((x, suc (suc d)) ∷ xs) a runs later now =
    let h = a.sleeping.holds in
    let key : k.queuetab.qkey x ≡ pos (suc (suc d)) = a.sleeping.delays.1 ∙ ground arith in
    let on : leb (suc (suc d) - 1) 0 ≡ false = ground arith in
    let a1 : Asleep (timed k (shorter k x)) q r c ps (ticked ((x, suc (suc d)) ∷ xs)) =
      Asleep-time _ _ k.preempt (Asleep-shorter k q r c x (suc (suc d)) ps xs a (omega arith)) in
    rw (tick-later k q x (suc (suc d)) a.list h.high h.chain.0.0 h.members.0 key (omega arith))
      (record {
        asleep = (c, ps, rw on a1, runs);
        active = λ p was. was;
        roused = rw on tt;
        deferral = now;
      })
