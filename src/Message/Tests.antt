-- ===== src/Message/Tests.antt =====
-- The messages of Chapter8 at a kernel whose process 8 has an empty buffer.
use os_design_xinu_approach.Prelude.{
  ◌≡◌, refl, true, false, [], ◌∷◌, arith, ◌==◌, if◌then◌else◌, pos, Runs,
}
use os_design_xinu_approach.State.{pr_recv, pr_susp, Kernel, ok}
use os_design_xinu_approach.Samples.{entry, processes, kernel, ready-Ordered}
use os_design_xinu_approach.Sched.Resched.{Scheduled}
use os_design_xinu_approach.Message.{send, receive, recvclr}
use os_design_xinu_approach.Message.Deliver.{Delivered, send-recvclr}

-- The process 9 waits for a message, and the process 8 has one.
abbrev mailbox : Kernel
mailbox = record kernel {
  proctab = λ p.
      if p == 9
      then entry pr_recv (pos 70)
      else if p == 8
      then record (entry pr_susp (pos 45)) { prmsg = 77; prhasmsg = true }
      else processes p;
}

mailbox-Scheduled : Scheduled mailbox 110 (7 ∷ 3 ∷ []) 4
mailbox-Scheduled = record {
  list = record {
    list_id = refl;
    ordered = ready-Ordered;
    readied = (refl, (refl, tt));
    keyed = (refl, (refl, tt));
    pri16 = λ p. ground arith;
  };
  current = refl;
  in_table = omega arith;
  off_list = omega arith;
}

send-recvclr_example : Runs (send (pos 8) 5 kernel) λ (s, k1).
    (s ≡ ok)
    × Runs
        (recvclr (record k1 { currpid = pos 8 }))
        (λ (m, k2). (m ≡ pos 5) × ((k2.proctab 8).prhasmsg ≡ false))
    × Runs (receive (record k1 { currpid = pos 8 })) (Delivered 8 5)
send-recvclr_example = send-recvclr kernel 8 5 (omega arith) refl refl (λ e. cc) (λ e. cc)
