-- ===== src/Clock/Handler.antt =====
-- Clock interrupts: `clkhandler` (Chapter13/clkhandler.c) as a whole, its tick and its time slice.
use os_design_xinu_approach.Prelude.{
  ℕ, suc, ◌+◌, ◌-◌, ◌%◌, ◌^◌, ◌≡◌, refl, ◌∙◌, inl, inr, true, Option, some, List, [], ◌∷◌, arith,
  ◌==◌, Bool-cases, pos, ◌>>=◌, Runs, Runs-map, Runs-bind,
}
use os_design_xinu_approach.Queue.Delta.{procs, within, beyond}
use os_design_xinu_approach.State.{
  Kernel, ok, quantum, is_curr, state_of, Call, returned, switched, same_process,
}
use os_design_xinu_approach.Clock.{clkhandler_rest, clock_tick, clkhandler}
use os_design_xinu_approach.Clock.Delays.{ticked}
use os_design_xinu_approach.Clock.Wakeup.{Asleep}
use os_design_xinu_approach.Clock.Rest.{SomeAsleep, Settled, resched-Settled, Woken, All-Active}
use os_design_xinu_approach.Sched.{resched}
use os_design_xinu_approach.Sched.Kept.{Active}
use os_design_xinu_approach.Clock.Ticks.{Later, Later-beyond, Asleep-time, clock_tick-Woken}
use os_design_xinu_approach.Clock.Remaining.{
  remaining, Waked, remaining-ticked, remaining-beyond, remaining-Later, Waked-zero, Waked-ticked,
  Waked-within,
}

-- `clkhandler` behind the return of `wakeup` takes the time slice.
clkhandler_rest-Settled :
    (k : Kernel) (q r c : ℕ) (ps : List ℕ) (xs : List (ℕ × ℕ))
    → Asleep k q r c ps xs
    → is_curr (state_of k c) ≡ true
    → k.ndefers ≡ pos 0
    → Runs (clkhandler_rest k) (Settled k q r xs)
unfolding clkhandler_rest
clkhandler_rest-Settled k q r c ps xs a runs now =
    let left = (k.preempt + (2 ^ 32 - 1)) % 2 ^ 32 in
    elim (Bool-cases (left == 0)) [
      | inl over ↦ rw over (
          Runs-map (resched (record k { preempt = quantum }))
            (Settled (record k { preempt = quantum }) q r xs) (Settled k q r xs)
            (λ k' h. record { asleep = h.asleep; active = h.active; deferral = h.deferral })
            (resched-Settled (record k { preempt = quantum }) q r c ps xs
              (Asleep-time k.clktime k.count1000 quantum a) runs (rw now (omega arith))))
      | inr more ↦ rw more (record {
        asleep = (c, ps, Asleep-time k.clktime k.count1000 left a, runs);
        active = λ p was. was;
        deferral = refl;
      })
    ]

-- The kernel when `clkhandler` has returned or given the processor away
abbrev after : Call → Kernel
after (returned r k) = k
after (switched k) = k

-- The whole handler does what its tick does.
clkhandler-Woken :
    (k : Kernel) (q r c : ℕ) (ps : List ℕ) (xs : List (ℕ × ℕ))
    → Asleep k q r c ps xs
    → is_curr (state_of k c) ≡ true
    → Later xs
    → k.ndefers ≡ pos 0
    → Runs (clkhandler k) (λ o. Woken k q r (ticked xs) (after o))
unfolding clkhandler
clkhandler-Woken k q r c ps xs a runs later now =
    Runs-bind (clock_tick k) _ (Woken k q r (ticked xs)) (λ o. Woken k q r (ticked xs) (after o))
      (clock_tick-Woken k q r c ps xs a runs later now)
      (λ k1 w. elim (Bool-cases (same_process k k1)) [
        | inr gone ↦ rw gone w
        | inl same ↦ rw same (
            Runs-bind (clkhandler_rest k1) (λ k2. some (returned ok k2))
              (Settled k1 q r (beyond 0 (ticked xs))) (λ o. Woken k q r (ticked xs) (after o))
              (clkhandler_rest-Settled k1 q r w.asleep.0 w.asleep.1 (beyond 0 (ticked xs))
                w.asleep.2 w.asleep.3 w.deferral)
              (λ k2 h. record {
                asleep = h.asleep;
                active = λ p was. h.active p (w.active p was);
                roused = All-Active k1 k2 (procs (within 0 (ticked xs))) h.active w.roused;
                deferral = h.deferral ∙ w.deferral;
              }))
      ])

-- A clock interrupt, or the end of an earlier one: where `wakeup` has given the processor away, the
-- rest of that call of `clkhandler`, the time slice, runs when the interrupted process goes on.
pub data Event : Type 0 where
  interrupt rest : Event

-- Events one after the other, with nothing in between
unfoldable pub run_events : List Event → Kernel → Option Kernel
run_events [] k = some k
run_events (interrupt ∷ es) k = clkhandler k >>= λ o. run_events es (after o)
run_events (rest ∷ es) k = clkhandler_rest k >>= run_events es

abbrev pub ticks : List Event → ℕ
ticks [] = 0
ticks (interrupt ∷ es) = suc (ticks es)
ticks (rest ∷ es) = ticks es

-- How things stand after `n` interrupts from `k`
pub record Rung (n : ℕ) (k : Kernel) (q r : ℕ) (xs : List (ℕ × ℕ)) (k' : Kernel) : Type 0 where
  pub asleep : SomeAsleep k' q r (remaining n xs)
  pub waked : Waked n k' xs
  pub active : (p : ℕ) → Active k p → Active k' p

-- Sleepers wake up in time. With rescheduling not deferred, the current process in the state PR_CURR
-- and the first delay not over, any sequence of clock interrupts, each a call of `clkhandler`, runs to
-- its end, whichever processes they switch between, with the rests of calls that were left by a switch
-- anywhere among them; and if there are `n` interrupts, then everyone whose delay is at most `n` is
-- ready or runs, everyone else sleeps on with `n` ticks less, and nobody who was ready or ran has
-- ceased to be. The lists stay in order, and the current process is in the state PR_CURR.
pub run_events-Rung :
    (es : List Event) (k : Kernel) (q r c : ℕ) (ps : List ℕ) (xs : List (ℕ × ℕ))
    → Asleep k q r c ps xs
    → is_curr (state_of k c) ≡ true
    → Later xs
    → k.ndefers ≡ pos 0
    → Runs (run_events es k) (Rung (ticks es) k q r xs)
unfolding run_events
run_events-Rung [] k q r c ps xs a runs later now = record {
  asleep = (c, ps, rw (remaining-Later k.queuetab.qkey xs a.sleeping.delays later) a, runs);
  waked = Waked-zero k xs k.queuetab.qkey a.sleeping.delays later;
  active = λ p was. was;
}
run_events-Rung (rest ∷ es) k q r c ps xs a runs later now =
    Runs-bind (clkhandler_rest k) (run_events es) (Settled k q r xs) (Rung (ticks es) k q r xs)
      (clkhandler_rest-Settled k q r c ps xs a runs now)
      (λ k1 w.
        Runs-map (run_events es k1) (Rung (ticks es) k1 q r xs) (Rung (ticks es) k q r xs)
          (λ k' h. record {
            asleep = h.asleep;
            waked = h.waked;
            active = λ p was. h.active p (w.active p was);
          })
          (run_events-Rung es k1 q r w.asleep.0 w.asleep.1 xs w.asleep.2 w.asleep.3 later
            (w.deferral ∙ now)))
run_events-Rung (interrupt ∷ es) k q r c ps xs a runs later now =
    let n = ticks es in
    Runs-bind (clkhandler k) (λ o. run_events es (after o)) (λ o. Woken k q r (ticked xs) (after o))
      (Rung (suc n) k q r xs) (clkhandler-Woken k q r c ps xs a runs later now)
      (λ o w.
        let k1 = after o in
        Runs-map (run_events es k1) (Rung n k1 q r (beyond 0 (ticked xs))) (Rung (suc n) k q r xs)
          (λ k' h. record {
            asleep = rw (← remaining-ticked n xs, ← remaining-beyond n (ticked xs)) h.asleep;
            waked = Waked-ticked n k' xs (
                Waked-within n k' (ticked xs)
                  (All-Active k1 k' (procs (within 0 (ticked xs))) h.active w.roused) h.waked);
            active = λ p was. h.active p (w.active p was);
          })
          (run_events-Rung es k1 q r w.asleep.0 w.asleep.1 (beyond 0 (ticked xs)) w.asleep.2
            w.asleep.3 (Later-beyond (ticked xs)) w.deferral))
