-- ===== src/Message/Deliver.antt =====
-- How a message goes from `send` (Chapter8/send.c) to its receiver (Chapter8/receive.c).
use os_design_xinu_approach.Prelude.{
  ℕ, ◌<◌, ◌≡◌, refl, ◌≢◌, true, false, Option, none, some, List, arith, ℤ, pos, ◌≤ℤ◌, ◌>>=◌, Runs,
}
use os_design_xinu_approach.Queue.{nproc, syserr}
use os_design_xinu_approach.State.{
  pr_ready, pr_recv, pr_rectim, Kernel, ok, is_free, state_of, Call, returned, switched,
}
use os_design_xinu_approach.Message.{deposit, send, receive_rest, receive, recvclr}
use os_design_xinu_approach.Sched.{ready}
use os_design_xinu_approach.Sched.Kept.{Kept, ready-Kept}
use os_design_xinu_approach.Sched.ReadyList.{ReadyList, ReadyList-frame, Apart-state}
use os_design_xinu_approach.Sched.Resched.{Scheduled, SomeRunning}
use os_design_xinu_approach.Sched.Ready.{ready-Running}

-- The buffer holds one message: a second `send` is refused and changes nothing.
send-full :
    (k : Kernel) (p msg : ℕ)
    → p < nproc
    → (k.proctab p).prhasmsg ≡ true
    → send (pos p) msg k ≡ some (syserr, k)
unfolding send
send-full k p msg lt full = ground arith

-- `receive` has returned the message `msg` to the process `p`, whose buffer is empty.
abbrev pub Delivered : ℕ → ℕ → Call → Type 0
Delivered p msg (returned m k) = (m ≡ pos msg) × ((k.proctab p).prhasmsg ≡ false)
Delivered p msg (switched k) = ⊥

-- A message that is sent to a process that neither waits for one nor has one is what the process
-- gets from its next `recvclr`, or from its next `receive` without a switch, and it is then gone.
pub send-recvclr :
    (k : Kernel) (p msg : ℕ)
    → p < nproc
    → is_free (state_of k p) ≡ false
    → (k.proctab p).prhasmsg ≡ false
    → state_of k p ≢ pr_recv
    → state_of k p ≢ pr_rectim
    → Runs (send (pos p) msg k) λ (s, k1).
      (s ≡ ok)
      × Runs
          (recvclr (record k1 { currpid = pos p }))
          (λ (m, k2). (m ≡ pos msg) × ((k2.proctab p).prhasmsg ≡ false))
      × Runs (receive (record k1 { currpid = pos p })) (Delivered p msg)
unfolding send recvclr receive
send-recvclr k p msg lt live free not_recv not_timed = ground arith

-- A process that waits in `receive` is made ready by `send`: the most urgent process runs, and
-- the message is in the buffer of its receiver for the rest of `receive`.
send-wakes :
    (k : Kernel) (r c p msg : ℕ) (ps : List ℕ)
    → Scheduled k r ps c
    → k.ndefers ≤ℤ pos 0
    → p < nproc
    → state_of k p ≡ pr_recv
    → (k.proctab p).prhasmsg ≡ false
    → p ≢ c
    → Runs (send (pos p) msg k) λ (s, k').
      (s ≡ ok)
      × SomeRunning k' r
      × ((receive_rest p k').0 ≡ pos msg)
      × (((receive_rest p k').1.proctab p).prhasmsg ≡ false)
unfolding send receive_rest
send-wakes k r c p msg ps s now lt waits free ne =
    let k1 = deposit k p msg in
    let off = Apart-state k p pr_recv pr_ready (λ e. cc) waits ps s.list.readied in
    let list : ReadyList k1 r ps =
      ReadyList-frame k k1 r p ps s.list refl s.list.ordered.holds refl (λ x o. ground arith)
        (ground arith) off in
    let sched : Scheduled k1 r ps c = record {
      list = list;
      current = s.current;
      in_table = s.in_table;
      off_list = s.off_list;
    } in
    let run = ready-Running k1 r c p ps sched now lt (ground arith) ne off in
    let sent : send (pos p) msg k ≡ (ready (pos p) k1 >>= λ (r1, k2). some (ok, k2)) =
      ground arith in
    rw sent
      (finish k1 (ready (pos p) k1) (ground arith) run (λ x k' e. ready-Kept (pos p) k1 x k' e))
  where
    finish :
        (k1 : Kernel) (o : Option (ℤ × Kernel))
        → (k1.proctab p).prmsg ≡ msg
        → Runs o (λ (s, k'). (s ≡ ok) × SomeRunning k' r)
        → ((x : ℤ) (k' : Kernel) → o ≡ some (x, k') → Kept k1 k')
        → Runs (o >>= λ (r1, k2). some (ok, k2)) λ (s, k').
          (s ≡ ok)
          × SomeRunning k' r
          × ((receive_rest p k').0 ≡ pos msg)
          × (((receive_rest p k').1.proctab p).prhasmsg ≡ false)
    finish k1 none got h kept = h
    finish k1 (some (x, k')) got h kept =
        let same = (kept x k' refl).entries p in (refl, h.1, ground (arith, same), ground arith)
