-- ===== src/Clock/Tests.antt =====
-- The theorems on delays at a kernel where two processes sleep.
use os_design_xinu_approach.Prelude.{
  ℕ, ◌≡◌, refl, inr, false, ◌||◌, some, [], ◌∷◌, ◌++◌, arith, ◌==◌, if◌then◌else◌, pos, ◌<ℤ◌, ◌>>=◌,
  Runs,
}
use os_design_xinu_approach.Queue.{empty, minkey, Queuetab, update, key_of, insertd_scan, insertd}
use os_design_xinu_approach.Queue.Spans.{splice}
use os_design_xinu_approach.Queue.Delta.{within, beyond, Sleeping, insertd-Sleeping}
use os_design_xinu_approach.State.{pr_sleep, Kernel, ok}
use os_design_xinu_approach.Samples.{two_queues, entry, processes, kernel}
use os_design_xinu_approach.Clock.{unsleep}
use os_design_xinu_approach.Sched.ReadyList.{prio_of}
use os_design_xinu_approach.Clock.Delays.{unsleep-Sleeping}
use os_design_xinu_approach.Clock.Wakeup.{Asleep}
use os_design_xinu_approach.Clock.Handler.{interrupt, rest, run_events, Rung, run_events-Rung}

abbrev no_sleepers : Queuetab
no_sleepers = record {
  qkey = λ x. pos 0;
  qnext = update (update (λ x. empty) 112 (pos 113)) 113 empty;
  qprev = update (update (λ x. empty) 113 (pos 112)) 112 empty;
}

-- The process 11 wakes up in 5 ticks, the process 12 in 7 ticks.
abbrev sleepers : Queuetab
sleepers = record (splice (splice no_sleepers 11 112 113) 12 11 113) {
  qkey = update (update (λ x. pos 0) 11 (pos 5)) 12 (pos 2);
}

abbrev asleep : Kernel
asleep = record kernel { queuetab = sleepers; proctab = λ p. entry pr_sleep (pos 20) }

sleepers-Sleeping : Sleeping sleepers 112 ((11, 5) ∷ (12, 7) ∷ [])
sleepers-Sleeping = record {
  holds = record {
    low = omega arith;
    high = omega arith;
    chain = ((refl, refl), ((refl, refl), (refl, refl)));
    members = omega arith;
    distinct = omega arith;
  };
  delays = (omega arith, refl, (omega arith, refl, tt));
}

insertd-Sleeping_example : Runs (insertd (λ p. false) (pos 4) (pos 112) (pos 6) sleepers) λ (r, t').
    (r ≡ pos 1)
    × Sleeping t' 112
        (within 6 ((11, 5) ∷ (12, 7) ∷ []) ++ (4, 6) ∷ beyond 6 ((11, 5) ∷ (12, 7) ∷ []))
insertd-Sleeping_example =
    insertd-Sleeping (λ p. false) sleepers 4 112 6 ((11, 5) ∷ (12, 7) ∷ []) sleepers-Sleeping
      (omega arith) refl (omega arith)

-- The key of the process behind the new one is shortened to 1.
insertd_run :
    (insertd (λ p. false) (pos 4) (pos 112) (pos 6) sleepers >>= λ (r, t). key_of t (pos 12))
    ≡ some (pos 1)
unfolding insertd insertd_scan
insertd_run = refl

unsleep-Sleeping_example :
    Runs
      (unsleep (pos 11) asleep)
      λ (r, k'). (r ≡ ok) × Sleeping k'.queuetab 112 ([] ++ (12, 7) ∷ [])
unsleep-Sleeping_example = unsleep-Sleeping asleep 112 11 5 [] ((12, 7) ∷ []) sleepers-Sleeping refl

abbrev crowded : Queuetab
crowded =
    record (splice
      (splice
        (record two_queues {
          qnext = update (update two_queues.qnext 112 (pos 113)) 113 empty;
          qprev = update (update two_queues.qprev 113 (pos 112)) 112 empty;
        })
        11 112 113)
      12 11 113) { qkey = update (update two_queues.qkey 11 (pos 5)) 12 (pos 2) }

-- The kernel of the samples with two sleepers
abbrev resting : Kernel
resting = record kernel {
  queuetab = crowded;
  proctab = λ p. if (p == 11) || (p == 12) then entry pr_sleep (pos 30) else processes p;
}

resting_prios : (p : ℕ) → minkey <ℤ prio_of resting p
resting_prios p = ground arith

resting-Asleep : Asleep resting 112 110 4 (7 ∷ 3 ∷ []) ((11, 5) ∷ (12, 7) ∷ [])
resting-Asleep = record {
  scheduled = record {
    list = record {
      list_id = refl;
      ordered = record {
        holds = record {
          low = omega arith;
          high = omega arith;
          chain = ((refl, refl), ((refl, refl), (refl, refl)));
          members = omega arith;
          distinct = omega arith;
        };
        descending = omega arith;
        tail_key = refl;
      };
      readied = (refl, (refl, tt));
      keyed = (refl, (refl, tt));
      pri16 = resting_prios;
    };
    current = refl;
    in_table = omega arith;
    off_list = omega arith;
  };
  list = refl;
  sleeping = record {
    holds = record {
      low = omega arith;
      high = omega arith;
      chain = ((refl, refl), ((refl, refl), (refl, refl)));
      members = omega arith;
      distinct = omega arith;
    };
    delays = (omega arith, refl, (omega arith, refl, tt));
  };
  delayed = (refl, (refl, tt));
  awake = refl;
  heads = inr (omega arith);
}

run_events-Rung_example :
    Runs
      (run_events (interrupt ∷ interrupt ∷ interrupt ∷ interrupt ∷ interrupt ∷ rest ∷ []) resting)
      (Rung 5 resting 112 110 ((11, 5) ∷ (12, 7) ∷ []))
run_events-Rung_example =
    run_events-Rung (interrupt ∷ interrupt ∷ interrupt ∷ interrupt ∷ interrupt ∷ rest ∷ []) resting
      112 110 4 (7 ∷ 3 ∷ []) ((11, 5) ∷ (12, 7) ∷ []) resting-Asleep refl (omega arith) refl
