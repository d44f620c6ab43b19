-- ===== src/Mark/Tests.antt =====
-- Tests of memory marking, and its theorem at a small table.
use os_design_xinu_approach.Prelude.{
  ◌≡◌, refl, true, false, none, some, arith, ◌==◌, if◌then◌else◌, pos, ◌>>=◌, Runs,
}
use os_design_xinu_approach.State.{Kernel, ok, set_count}
use os_design_xinu_approach.Samples.{kernel}
use os_design_xinu_approach.Semaphore.{wait, signal}
use os_design_xinu_approach.Mark.{Marks, notmarked, mark_rest, marked, mark}
use os_design_xinu_approach.Mark.Kept.{Returned, mark-kept}

-- The location 500 has the only mark. The semaphore 1 is the mutex.
abbrev one_mark : Marks
one_mark = record {
  kernel = record kernel {
    semtab = λ s. record { sused = true; scount = pos 1; squeue = pos 102 };
  };
  memory = λ a. pos 0;
  marks = λ i. if i == 0 then 500 else 0;
  nmarks = 1;
  mkmutex = pos 1;
}

abbrev entered : Kernel
entered = set_count one_mark.kernel 1 (pos 0)

abbrev left : Kernel
left = set_count entered 1 (pos 1)

enter_mutex : wait (pos 1) one_mark.kernel ≡ some (ok, entered)
unfolding wait
enter_mutex = refl

leave_mutex : signal (pos 1) entered ≡ some (ok, left)
unfolding signal
leave_mutex = refl

mark-kept_example : Runs (mark 600 one_mark) (
    Returned λ s'.
      (notmarked s' 600 ≡ false)
      × (notmarked s' 500 ≡ false)
      × (s'.nmarks ≡ 2)
      × (s'.kernel ≡ left)
      × (mark 600 s' ≡ some (marked ok s')))
mark-kept_example =
    mark-kept one_mark 600 500 ok ok entered left refl refl (omega arith) enter_mutex refl
      leave_mutex

-- Two processes that both found the last place free: the one that enters second writes behind the
-- table.
abbrev last_place : Marks
last_place = record one_mark { nmarks = 19 }

second_overruns : (mark_rest 600 last_place >>= λ (r, s). mark_rest 700 s) ≡ none
unfolding mark_rest signal
second_overruns = refl
