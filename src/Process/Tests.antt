-- ===== src/Process/Tests.antt =====
-- Process management of Chapter6 at a kernel with two ready processes and a suspended one.
use os_design_xinu_approach.Prelude.{ℕ, ◌≡◌, refl, some, List, [], ◌∷◌, arith, pos, ◌>>=◌, Runs}
use os_design_xinu_approach.Samples.{kernel, kernel-Running}
use os_design_xinu_approach.Sched.ReadyList.{prio_of}
use os_design_xinu_approach.Sched.Resched.{SomeRunning}
use os_design_xinu_approach.Process.{resume, newpid_loop, newpid, create}
use os_design_xinu_approach.Process.Pids.{NewPid, newpid-NewPid}
use os_design_xinu_approach.Process.Suspend.{resume-Running}
use os_design_xinu_approach.Sched.Kept.{Active}
use os_design_xinu_approach.Process.Create.{stack_size, Begun, create-resume}
use os_design_xinu_approach.Memory.{memblk, last_fit, cut_high, getstk}

next_pid : (newpid kernel).0 ≡ pos 9
unfolding newpid newpid_loop
next_pid = refl

newpid-NewPid_example : NewPid kernel (newpid kernel).0
newpid-NewPid_example = newpid-NewPid kernel

resume-Running_example :
    Runs
      (resume (pos 8) kernel)
      λ (prio, k'). (prio ≡ prio_of kernel 8) × SomeRunning k' 110 × Active k' 8
resume-Running_example =
    resume-Running kernel 110 4 8 (7 ∷ 3 ∷ []) kernel-Running.scheduled (omega arith) (omega arith)
      (omega arith) refl

abbrev shell : List ℕ
shell = 115 ∷ 104 ∷ []

shell_stack : getstk (stack_size 300) kernel.memory ≡ (
  some 9208,
  record kernel.memory { memlist = memblk 4096 64 ∷ memblk 8192 624 ∷ []; mfree = 688 },
)
unfolding getstk last_fit cut_high
shell_stack = refl

create-resume_example :
    Runs (create 300 (pos 45) shell kernel >>= λ (pid, k1). resume pid k1) λ (prio, k').
      (prio ≡ pos 45) × SomeRunning k' 110 × ((p : ℕ) × Begun kernel (pos 45) shell k' p)
create-resume_example =
    create-resume 300 (pos 45) shell kernel 110 4 (7 ∷ 3 ∷ []) 9208
      (record kernel.memory { memlist = memblk 4096 64 ∷ memblk 8192 624 ∷ []; mfree = 688 })
      kernel-Running (omega arith) (omega arith) (omega arith) (9, omega arith, refl) shell_stack
