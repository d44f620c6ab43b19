-- ===== src/Mark.antt =====
-- Memory marking: Chapter23/mark.h and mark.c. A location is its address, and `memory` has the word
-- at each address. `none` is an access outside `marks`.
mod Kept
mod Tests
use os_design_xinu_approach.Prelude.{
  ℕ, ◌+◌, Bool, false, not, ◌&&◌, Option, none, some, ltb, leb, ◌==◌, if◌then◌else◌, ℤ, pos, negsuc,
  ◌>>=◌,
}
use os_design_xinu_approach.Queue.{syserr}
use os_design_xinu_approach.State.{Kernel, ok, same_process}
use os_design_xinu_approach.Semaphore.{semcreate, wait, signal}

-- `MAXMARK`
abbrev pub maxmark : ℕ
maxmark = 20

-- `marks`, `nmarks` and `mkmutex`
pub record Marks : Type 0 where
  pub kernel : Kernel
  pub memory : ℕ → ℤ
  pub marks : ℕ → ℕ
  pub nmarks : ℕ
  pub mkmutex : ℤ

-- `(w >= 0) && (w < nmarks) && (marks[w] == loc)`, for the word `w` of the location
abbrev pub marked_as : Marks → ℕ → ℤ → Bool
marked_as s loc (pos w) = ltb w s.nmarks && (s.marks w == loc)
marked_as s loc (negsuc w) = false

-- `notmarked`
abbrev pub notmarked : Marks → ℕ → Bool
notmarked s loc = not (marked_as s loc (s.memory loc))

unfoldable pub markinit : Marks → Option Marks
markinit s = do
  (sem, k) ← semcreate (pos 1) s.kernel
  some (record s { kernel = k; nmarks = 0; mkmutex = sem })

-- `mark` after `wait`
unfoldable pub mark_rest : ℕ → Marks → Option (ℤ × Marks)
mark_rest loc s =
    let n = s.nmarks in
    let s1 = record s {
      memory = λ a. if loc == a then pos n else s.memory a;
      marks = λ i. if n == i then loc else s.marks i;
      nmarks = n + 1;
    } in
    if ltb n maxmark
    then (signal s.mkmutex s.kernel >>= λ (r, k). some (ok, record s1 { kernel = k }))
    else none

-- `mark` has returned, or it goes on with `mark_rest` when its process runs again.
pub data MarkCall : Type 0 where
  marked : ℤ → Marks → MarkCall
  delayed : Marks → MarkCall

unfoldable pub mark : ℕ → Marks → Option MarkCall
unfolding mark_rest
mark loc s =
    let enter = (do
      (r, k) ← wait s.mkmutex s.kernel
      let s1 = record s { kernel = k }
      let rest = (mark_rest loc s1 >>= λ (v, s2). some (marked v s2))
      if same_process s.kernel k then rest else some (delayed s1)) in
    if not (notmarked s loc)
    then some (marked ok s)
    else if leb maxmark s.nmarks
    then some (marked syserr s)
    else enter
