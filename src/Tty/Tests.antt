-- ===== src/Tty/Tests.antt =====
-- Tests of the terminal driver, and its theorems at a small console.
use os_design_xinu_approach.Prelude.{
  ◌-◌, ◌≡◌, refl, true, false, none, some, [], ◌∷◌, ◌++◌, arith, ◌==◌, if◌then◌else◌, length, pos,
  negsuc, ◌>>=◌, Runs,
}
use os_design_xinu_approach.State.{Kernel, ok, set_count}
use os_design_xinu_approach.Samples.{kernel}
use os_design_xinu_approach.Sched.{resched}
use os_design_xinu_approach.Semaphore.{
  semcount, newsem_loop, newsem, semcreate, Progress, signaln_loop, signaln,
}
use os_design_xinu_approach.Tty.{
  ty_imcooked, Console, ty_backsp, ty_backsp2, ty_bell, ty_eofch, ty_stopch, ty_strtch, ty_killch,
  ttykickout, eputc,
}
use os_design_xinu_approach.Tty.Output.{ttyhandle_out}
use os_design_xinu_approach.Tty.Output.Ring.{OutHolds, Ended, ttyhandle_out-sends}
use os_design_xinu_approach.Tty.Read.{ttyinit}

-- The semaphore 1 counts the free places of the output buffer.
abbrev writers : Kernel
writers = record kernel {
  semtab = λ s.
      if 1 == s
      then record { sused = true; scount = pos 62; squeue = pos 102 }
      else kernel.semtab s;
}

-- Two characters wait at the end of the output buffer and at its start. Two processes wait for
-- input on the semaphore 0.
abbrev console : Console
console = record {
  kernel = writers;
  tty = record {
    tyihead = 0;
    tyitail = 0;
    tyibuff = λ x. pos 0;
    tyisem = pos 0;
    tyohead = 63;
    tyotail = 1;
    tyobuff = λ x. if x == 63 then pos 104 else pos 105;
    tyosem = pos 1;
    tyehead = some 0;
    tyetail = some 0;
    tyebuff = λ x. pos 0;
    tyimode = ty_imcooked;
    tyiecho = true;
    tyieback = true;
    tyevis = true;
    tyecrlf = true;
    tyicrlf = true;
    tyierase = true;
    tyierasec = ty_backsp;
    tyierasec2 = ty_backsp2;
    tyeof = true;
    tyeofch = ty_eofch;
    tyikill = true;
    tyikillc = ty_killch;
    tyicursor = pos 0;
    tyoflow = true;
    tyoheld = false;
    tyostop = ty_stopch;
    tyostart = ty_strtch;
    tyocrlf = true;
    tyifullc = ty_bell;
  };
  ier = 1;
  sent = [];
}

console-OutHolds : OutHolds console.tty (pos 104 ∷ pos 105 ∷ [])
console-OutHolds = record {
  head_in = omega arith;
  fits = omega arith;
  tail = refl;
  chars = (refl, (refl, tt));
}

abbrev signalled : Kernel
signalled = set_count (set_count writers 1 (pos 63)) 1 (pos 64)

free_places : semcount (pos 1) writers ≡ some (pos (64 - length (pos 104 ∷ pos 105 ∷ [])))
unfolding semcount
free_places = refl

signal_writers : signaln (pos 1) (pos 2) writers ≡ some (Progress.returned ok signalled)
unfolding signaln signaln_loop resched
signal_writers = refl

ttyhandle_out-sends_example : Runs (ttyhandle_out console) λ call.
    Ended call
      λ c'. (c'.sent ≡ [] ++ pos 104 ∷ pos 105 ∷ []) × OutHolds c'.tty [] × (c'.kernel ≡ signalled)
ttyhandle_out-sends_example =
    ttyhandle_out-sends console (pos 104 ∷ pos 105 ∷ []) ok signalled console-OutHolds (omega arith)
      refl refl free_places signal_writers

two_readers : semcount (pos 0) writers ≡ some (negsuc 1)
unfolding semcount
two_readers = refl

-- After `ttyinit` of a terminal that was never used the echo queue has no place.
abbrev unused : Console
unused = record console { tty = record console.tty { tyehead = none; tyetail = none } }

no_echo_queue : (ttyinit unused >>= λ (r, c). eputc (pos 120) c) ≡ none
unfolding ttyinit semcreate newsem newsem_loop ttykickout eputc
no_echo_queue = refl
