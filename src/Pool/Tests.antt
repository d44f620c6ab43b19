-- ===== src/Pool/Tests.antt =====
-- Tests of the buffer pools, and their theorems at a small kernel.
use os_design_xinu_approach.Prelude.{
  ◌+◌, ◌*◌, ◌≡◌, refl, true, some, [], ◌∷◌, arith, ◌==◌, if◌then◌else◌, length, pos, Runs,
}
use os_design_xinu_approach.Memory.{memblk, Memory, first_fit, getmem}
use os_design_xinu_approach.State.{Kernel, ok, set_count}
use os_design_xinu_approach.Samples.{heap, kernel}
use os_design_xinu_approach.Semaphore.{newsem_loop, newsem, semcreate, signal}
use os_design_xinu_approach.Pool.{Pools, id_size, round4, mkbufpool}
use os_design_xinu_approach.Pool.Make.{buffers, Made, mkbufpool-Made}

-- The pool 0 has the buffers 8192 and 8216 of 20 bytes.
abbrev sample : Pools
sample = record {
  kernel = record kernel {
    semtab = λ s. record { sused = true; scount = pos 2; squeue = pos 102 };
  };
  buftab = λ p. record { bpnext = 8192; bpsem = pos 1; bpsize = 20 };
  nbpools = 1;
  cells = λ a. if a == 8192 then 8216 else 0;
}

signal_pool : signal (pos 1) sample.kernel ≡ some (ok, set_count sample.kernel 1 (pos 3))
unfolding signal
signal_pool = refl

abbrev rest_heap : Memory
rest_heap = record heap { memlist = memblk 4096 64 ∷ memblk 8264 952 ∷ []; mfree = 1016 }

-- Three buffers of 17 bytes, which are rounded to 20, take 72 bytes of the second block.
abbrev empty_pools : Pools
empty_pools = record sample { kernel = kernel; nbpools = 0; cells = λ a. 0 }

memory_for_three : getmem ((2 + 1) * (round4 17 + id_size)) heap ≡ (some 8192, rest_heap)
unfolding getmem first_fit
memory_for_three = refl

abbrev taken_one : Kernel
taken_one = record kernel {
  memory = rest_heap;
  nextsem = 2;
  semtab = λ s.
      if 1 == s then record { sused = true; scount = pos 0; squeue = pos 102 } else kernel.semtab s;
}

abbrev made : Kernel
made = set_count taken_one 1 (pos 3)

semaphore_of_three : semcreate (pos 3) (record kernel { memory = rest_heap }) ≡ some (pos 1, made)
unfolding semcreate newsem newsem_loop
semaphore_of_three = refl

mkbufpool-Made_example : Runs (mkbufpool (pos 17) (pos (2 + 1)) empty_pools) λ (v, s').
    Made empty_pools 0 (buffers 2 8192 (round4 17 + id_size)) (pos 1) v s'
    × (length (buffers 2 8192 (round4 17 + id_size)) ≡ 2 + 1)
mkbufpool-Made_example =
    mkbufpool-Made empty_pools 17 2 8192 rest_heap (pos 1) made (omega arith) (omega arith)
      (omega arith) (omega arith) memory_for_three (omega arith) semaphore_of_three (ground arith)
