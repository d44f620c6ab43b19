-- ===== src/Semaphore/Waiting.antt =====
-- The queue of a semaphore, and how `wait` (Chapter7/wait.c) and `signal` (Chapter7/signal.c)
-- keep it in step with the count.
use os_design_xinu_approach.Prelude.{
  ℕ, ◌+◌, ◌<◌, ◌≡◌, refl, subst, ◌≢◌, inl, inr, Bool, true, false, some, List, [], ◌∷◌, ◌++◌, arith,
  Bool-cases, length, length-append, All, All-map, All-append, Apart, Apart-flip, pos, neg_part,
  ◌-ℤ◌, ◌≤ℤ◌, ◌<ℤ◌, leb_ℤ, ◌>>=◌, Runs,
}
use os_design_xinu_approach.Queue.{nproc, nsem, enqueue}
use os_design_xinu_approach.Queue.Spans.{last, splice}
use os_design_xinu_approach.Queue.Holds.{Holds, nodes}
use os_design_xinu_approach.State.{
  pr_curr, pr_ready, pr_wait, Kernel, ok, is_curr, state_of, free_in, update_proc, set_count,
}
use os_design_xinu_approach.Sched.{resched}
use os_design_xinu_approach.Semaphore.{wait}
use os_design_xinu_approach.Queue.Enqueue.{enqueue-eq, Holds-enqueue}
use os_design_xinu_approach.Queue.Frame.{
  Clear, HeadsApart, Holds-taken_other, Holds-enqueue_other, Holds-inserted_other, Clear-disjoint,
  Clear-cons,
}
use os_design_xinu_approach.Sched.ReadyList.{
  prio_of, ReadyList, dispatched, queued, states_frame, ReadyList-queued, ReadyList-frame,
  Apart-state,
}
use os_design_xinu_approach.Sched.Resched.{
  Scheduled, Running, resched-stays, first_stays, resched-yields, resched-leaves,
}
use os_design_xinu_approach.Queue.Insert.{ahead, behind}

-- The semaphore `s` is in use and its queue `q` holds the waiting processes `ws`, as many as the
-- count is below zero.
pub record SemQueue (k : Kernel) (s q : ℕ) (ws : List ℕ) : Type 0 where
  pub in_table : s < nsem
  pub used : (k.semtab s).sused ≡ true
  pub queue_id : (k.semtab s).squeue ≡ pos q
  pub holds : Holds k.queuetab q ws
  pub counted : neg_part (k.semtab s).scount ≡ length ws
  pub waiting : All (λ p. state_of k p ≡ pr_wait) ws

-- A `wait` on a count above zero takes one unit, and the caller goes on.
wait-available :
    (k : Kernel) (s q : ℕ) (ws : List ℕ)
    → SemQueue k s q ws
    → pos 0 <ℤ (k.semtab s).scount
    → wait (pos s) k ≡ some (ok, set_count k s ((k.semtab s).scount -ℤ pos 1))
unfolding wait
wait-available k s q ws m free = let lt : s < nsem = m.in_table in let used = m.used in ground arith

-- `k` after the process `c` has begun to wait on `s`, before the next one is dispatched
abbrev pub blocked : Kernel → ℕ → ℕ → ℕ → List ℕ → Kernel
blocked k s q c ws =
    let k1 = set_count k s ((k.semtab s).scount -ℤ pos 1) in
    record (update_proc k1 c (record (k1.proctab c) { prstate = pr_wait; prsem = pos s })) {
      queuetab = splice k.queuetab c (last q ws) (q + 1);
    }

wait_run :
    (k : Kernel) (s q c : ℕ) (ws : List ℕ)
    → s < nsem
    → (k.semtab s).sused ≡ true
    → (k.semtab s).squeue ≡ pos q
    → k.currpid ≡ pos c
    → c < nproc
    → (k.semtab s).scount ≤ℤ pos 0
    → ((free : ℕ → Bool)
        → free c ≡ false
        → enqueue free (pos c) (pos q) k.queuetab
          ≡ some (pos c, splice k.queuetab c (last q ws) (q + 1)))
    → wait (pos s) k ≡ (resched (blocked k s q c ws) >>= λ k3. some (ok, k3))
unfolding wait
wait_run k s q c ws lt used id current in_table none_free enq =
    let k1 = set_count k s ((k.semtab s).scount -ℤ pos 1) in
    let e =
      enq (free_in (update_proc k1 c (record (k1.proctab c) { prstate = pr_wait; prsem = pos s })))
        (ground arith) in
    ground (arith, e)

pub wait-eq :
    (k : Kernel) (s q c : ℕ) (ws : List ℕ) {r : ℕ} {ps : List ℕ}
    → SemQueue k s q ws
    → Running k r ps c
    → (k.semtab s).scount ≤ℤ pos 0
    → wait (pos s) k ≡ (resched (blocked k s q c ws) >>= λ k3. some (ok, k3))
wait-eq k s q c ws m run none_free =
    wait_run k s q c ws m.in_table m.used m.queue_id run.scheduled.current run.scheduled.in_table
      none_free (λ free live. enqueue-eq free k.queuetab c q ws m.holds run.scheduled.in_table live)

module _ (k : Kernel) (s q r c : ℕ) (ws ps : List ℕ) (m : SemQueue k s q ws)
    (run : Running k r ps c) (heads : HeadsApart q r) where
  running_Apart : Apart c ws
  running_Apart = Apart-state k c pr_curr pr_wait (λ e. cc) run.state ws m.waiting

  ready_Apart : All (λ p. Apart p ws) ps
  ready_Apart =
      All-map _ _ (λ p is. Apart-state k p pr_ready pr_wait (λ e. cc) is ws m.waiting) ps
        run.scheduled.list.readied

  queues-Clear : Clear q ws (nodes r ps)
  queues-Clear =
      Clear-disjoint m.holds run.scheduled.list.ordered.holds heads (Apart-flip ps ws ready_Apart)

  ready-Clear : Clear r ps (nodes q ws)
  ready-Clear = Clear-disjoint run.scheduled.list.ordered.holds m.holds (swap heads) ready_Apart
    where
      swap : HeadsApart q r → HeadsApart r q
      swap (inl a) = inr a
      swap (inr b) = inl b

  pub ReadyList-blocked : ReadyList (blocked k s q c ws) r ps
  ReadyList-blocked =
      ReadyList-frame k (blocked k s q c ws) r c ps run.scheduled.list refl
        (Holds-enqueue_other k.queuetab r ps run.scheduled.list.ordered.holds q c ws (
          Clear-cons c (nodes q ws) run.scheduled.list.ordered.holds run.scheduled.in_table
            run.scheduled.off_list ready-Clear))
        refl (λ p ne. ground arith) (ground arith) run.scheduled.off_list

  pub SemQueue-blocked :
      (k.semtab s).scount ≤ℤ pos 0 → SemQueue (blocked k s q c ws) s q (ws ++ c ∷ [])
  SemQueue-blocked none_free = record {
    in_table = m.in_table;
    used = ground (arith, m.used);
    queue_id = ground (arith, m.queue_id);
    holds = Holds-enqueue k.queuetab c q ws m.holds run.scheduled.in_table running_Apart;
    counted = ground (arith, m.counted, length-append ws (c ∷ []));
    waiting =
        All-append _ ws (c ∷ [])
          (states_frame k (blocked k s q c ws) c (λ p ne. ground arith) pr_wait ws running_Apart
            m.waiting)
          (ground arith, tt);
  }

-- Waiting processes are not ready ones, so the two queues share no entry.
pub SemQueue-Clear :
    (k : Kernel) (s q r : ℕ) (ws ps : List ℕ)
    → SemQueue k s q ws
    → ReadyList k r ps
    → HeadsApart q r
    → Clear q ws (nodes r ps)
SemQueue-Clear k s q r ws ps m l heads =
    Clear-disjoint m.holds l.ordered.holds heads (
      All-map _ _ (λ w is. Apart-state k w pr_wait pr_ready (λ e. cc) is ps l.readied) ws m.waiting)

pub SemQueue-frame :
    (k k' : Kernel) (s q c : ℕ) (ws : List ℕ)
    → SemQueue k s q ws
    → k'.semtab s ≡ k.semtab s
    → Holds k'.queuetab q ws
    → ((p : ℕ) → c ≢ p → k'.proctab p ≡ k.proctab p)
    → Apart c ws
    → SemQueue k' s q ws
SemQueue-frame k k' s q c ws m sem holds same off = record {
  in_table = m.in_table;
  used = rw sem m.used;
  queue_id = rw sem m.queue_id;
  holds = holds;
  counted = rw sem m.counted;
  waiting = states_frame k k' c same pr_wait ws off m.waiting;
}

-- The queue of a semaphore stands while the ready list loses or gains a process.
pub SemQueue-dispatched :
    (k : Kernel) (s q r p : ℕ) (ws ps : List ℕ)
    → SemQueue k s q ws
    → ReadyList k r (p ∷ ps)
    → HeadsApart q r
    → SemQueue (dispatched k r p ps) s q ws
SemQueue-dispatched k s q r p ws ps m l heads =
    SemQueue-frame k (dispatched k r p ps) s q p ws m refl
      (Holds-taken_other k.queuetab q ws m.holds r p ps
        (SemQueue-Clear k s q r ws (p ∷ ps) m l heads))
      (λ x ne. ground arith) (Apart-state k p pr_ready pr_wait (λ e. cc) l.readied.0 ws m.waiting)

pub SemQueue-queued :
    (k : Kernel) (s q r c : ℕ) (ws ps : List ℕ)
    → SemQueue k s q ws
    → ReadyList k r ps
    → HeadsApart q r
    → c < nproc
    → Apart c ws
    → SemQueue (queued k c r ps) s q ws
SemQueue-queued k s q r c ws ps m l heads lt off =
    SemQueue-frame k (queued k c r ps) s q c ws m refl
      (Holds-inserted_other k.queuetab q ws m.holds r c (prio_of k c) ps
        (Clear-cons c (nodes r ps) m.holds lt off (SemQueue-Clear k s q r ws ps m l heads)))
      (λ x ne. ground arith) off

-- `resched` moves only the current process and the ready ones, so waiting ones go on waiting.
pub resched-SemQueue :
    (k : Kernel) (s q r c : ℕ) (ws ps : List ℕ)
    → SemQueue k s q ws
    → Scheduled k r ps c
    → HeadsApart q r
    → Apart c ws
    → ps ≢ []
    → k.ndefers ≤ℤ pos 0
    → Runs (resched k) (λ k'. SemQueue k' s q ws)
resched-SemQueue k s q r c ws [] m run heads off some_ready now = absurd (some_ready refl)
resched-SemQueue k s q r c ws (p ∷ ps) m run heads off some_ready now =
    let f = k.queuetab.qkey in
    let key = prio_of k c in
    let qs = ahead f key ps ++ c ∷ behind f key ps in
    elim (Bool-cases (is_curr (state_of k c))) [
      | inr gone ↦
          rw (resched-leaves k r c p ps run now gone)
            (SemQueue-dispatched k s q r p ws ps m run.list heads)
      | inl runs ↦ elim (Bool-cases (leb_ℤ key (f p))) [
        | inr gt ↦ rw (resched-stays k r c p ps run now (ground arith) (ground arith)) m
        | inl le ↦ rw (resched-yields k r c p ps run now (ground arith) (ground arith)) (
            SemQueue-dispatched (queued k c r (p ∷ ps)) s q r p ws qs
              (SemQueue-queued k s q r c ws (p ∷ ps) m run.list heads run.in_table off)
              (subst (λ l. ReadyList (queued k c r (p ∷ ps)) r l) (first_stays f key c p ps le)
                (ReadyList-queued k r c (p ∷ ps) run.list run.in_table run.off_list))
              heads)
      ]
    ]
