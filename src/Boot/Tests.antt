-- ===== src/Boot/Tests.antt =====
-- The start of the system from tables that are all 0.
use os_design_xinu_approach.Prelude.{refl, false, [], ◌∷◌, arith, pos, Runs}
use os_design_xinu_approach.Boot.{Boot, clkinit_galileo, init_kernel}
use os_design_xinu_approach.Memory.{memblk, Memory}
use os_design_xinu_approach.State.{pr_free, Kernel}
use os_design_xinu_approach.Samples.{entry, kernel}
use os_design_xinu_approach.Boot.Start.{Started, init_kernel-Started}

abbrev free_memory : Memory
free_memory = record {
  memlist = memblk 4096 1000000 ∷ [];
  mfree = 1000000;
  minheap = 4096;
  maxheap = 1004096;
}

abbrev cold : Kernel
cold = record kernel {
  queuetab = record { qkey = λ x. pos 0; qnext = λ x. pos 0; qprev = λ x. pos 0 };
  proctab = λ p. entry pr_free (pos 0);
  nextpid = 1;
  semtab = λ s. record { sused = false; scount = pos 0; squeue = pos 0 };
}

abbrev cold_boot : Boot
cold_boot = record {
  pools = record {
    kernel = cold;
    buftab = λ p. record { bpnext = 0; bpsem = pos 0; bpsize = 0 };
    nbpools = 0;
    cells = λ a. 0;
  };
  nextqid = pos 100;
}

init_kernel-Started_example :
    Runs (init_kernel free_memory clkinit_galileo cold_boot) λ b'. Started b'.pools.kernel
init_kernel-Started_example =
    init_kernel-Started free_memory cold_boot refl (omega arith) (λ p. omega arith)
