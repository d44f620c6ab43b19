-- ===== src/Clock/Delays.antt =====
-- What `unsleep` (Chapter13/unsleep.c) and a tick of `clkhandler` (Chapter13/clkhandler.c) do to
-- the delays of the processes that sleep.
use os_design_xinu_approach.Prelude.{
  ℕ, ◌+◌, ◌-◌, ◌≤◌, ◌<◌, ◌≡◌, refl, ap, ◌∙◌, true, some, List, [], ◌∷◌, ◌++◌, arith, All,
  All-append_right, Apart, Distinct, All-cons_append, ℤ, pos, ◌+ℤ◌, ◌-ℤ◌, Runs,
}
use os_design_xinu_approach.Queue.{nproc, nqent, Queuetab, update, getitem}
use os_design_xinu_approach.Queue.Spans.{last, first, relink, All-update, Spans-neighbours}
use os_design_xinu_approach.Queue.Delta.{procs, Due, procs-append, Due-frame, Sleeping}
use os_design_xinu_approach.State.{Kernel, ok, is_delayed, state_of}
use os_design_xinu_approach.Clock.{unsleep, due, count_second, clock_tick}
use os_design_xinu_approach.Queue.Holds.{Holds, Holds-key, Holds-relink}
use os_design_xinu_approach.Queue.Enqueue.{getitem-eq}

-- The keys after `unsleep` of `p`, when `ys` are the processes behind it.
abbrev lengthened : (ℕ → ℤ) → ℕ → List ℕ → ℕ → ℤ
lengthened f p [] = f
lengthened f p (y ∷ ys) = update f y (f y +ℤ f p)

lengthened-ne : (f : ℕ → ℤ) (p x : ℕ) (ys : List ℕ) → Apart x ys → lengthened f p ys x ≡ f x
lengthened-ne f p x [] off = refl
lengthened-ne f p x (y ∷ ys) off = ground (arith, off.0)

Due-lengthened :
    (f : ℕ → ℤ) (p d b : ℕ) (xs ys : List (ℕ × ℕ))
    → Due f b (xs ++ (p, d) ∷ ys)
    → Distinct (procs (xs ++ (p, d) ∷ ys))
    → Due (lengthened f p (procs ys)) b (xs ++ ys)
Due-lengthened f p d b [] [] due dist = tt
Due-lengthened f p d b [] ((y, e) ∷ ys) due dist = (
  omega (arith, due.0, due.2.0),
  ground (arith, due.0, due.1, due.2.0, due.2.1),
  Due-frame f (update f y (f y +ℤ f p)) e ys due.2.2 (All-update f y _ (procs ys) dist.1.0),
)
Due-lengthened f p d b ((x, c) ∷ xs) ys due dist =
    let off : Apart x (procs xs ++ procs ((p, d) ∷ ys)) =
      rw (procs-append xs ((p, d) ∷ ys)) at dist.0 in
    let far = All-append_right _ (procs xs) (p ∷ procs ys) off in
    (due.0, lengthened-ne f p x (procs ys) far.1 ∙ due.1, Due-lengthened f p d c xs ys due.2 dist.1)

-- The writes of `unsleep`.
unsleep_links :
    (k : Kernel) (p c l : ℕ) (ys : List ℕ) (q : ℕ)
    → p < nproc
    → is_delayed (state_of k p) ≡ true
    → k.queuetab.qnext p ≡ pos (first ys (q + 1))
    → nproc ≤ q
    → All (λ y. y < nproc) ys
    → getitem (pos p) (record k.queuetab { qkey = lengthened k.queuetab.qkey p ys })
      ≡ some (pos p, relink (record k.queuetab { qkey = lengthened k.queuetab.qkey p ys }) l c)
    → unsleep (pos p) k
      ≡ some (
        ok,
        record k {
          queuetab = relink (record k.queuetab { qkey = lengthened k.queuetab.qkey p ys }) l c;
        },
      )
unfolding unsleep
unsleep_links k p c l [] q lt asleep next low small e = ground arith
unsleep_links k p c l (y ∷ ys) q lt asleep next low small e = ground (arith, small.0)

-- `unsleep` takes a delayed process out of the delta list, wherever it stands, returns OK, and every
-- other process in the list keeps its own delay.
pub unsleep-Sleeping :
    (k : Kernel) (q p d : ℕ) (xs ys : List (ℕ × ℕ))
    → Sleeping k.queuetab q (xs ++ (p, d) ∷ ys)
    → is_delayed (state_of k p) ≡ true
    → Runs (unsleep (pos p) k) λ (r, k'). (r ≡ ok) × Sleeping k'.queuetab q (xs ++ ys)
unsleep-Sleeping k q p d xs ys s asleep =
    let t = k.queuetab in
    let keys = lengthened t.qkey p (procs ys) in
    let split = procs-append xs ((p, d) ∷ ys) in
    let h : Holds t q (procs xs ++ p ∷ procs ys) = rw split at s.holds in
    let h' : Holds (record t { qkey = keys }) q (procs xs ++ p ∷ procs ys) = Holds-key keys h in
    let low : nproc ≤ q = h.low in
    let members = All-cons_append (λ x. x < nproc) (procs xs) (procs ys) h.members in
    let behind = All-append_right _ (procs xs) (procs ys) members.1 in
    let next = (Spans-neighbours t q (procs xs) (procs ys) (q + 1) p h.chain).1 in
    let item = getitem-eq (record t { qkey = keys }) q (procs xs) (procs ys) p h' in
    let l = last q (procs xs) in
    let c = first (procs ys) (q + 1) in
    rw (unsleep_links k p c l (procs ys) q members.0 asleep next low behind item) (
      refl,
      record {
        holds =
            rw (procs-append xs ys)
              (Holds-relink (record t { qkey = keys }) q (procs xs) (procs ys) p h');
        delays = Due-lengthened t.qkey p d 0 xs ys s.delays s.holds.distinct;
      },
    )

-- One tick less for every process
abbrev pub ticked : List (ℕ × ℕ) → List (ℕ × ℕ)
ticked [] = []
ticked ((x, d) ∷ xs) = (x, d - 1) ∷ ticked xs

pub procs-ticked : (xs : List (ℕ × ℕ)) → procs (ticked xs) ≡ procs xs
procs-ticked [] = refl
procs-ticked ((x, d) ∷ xs) = ap (λ l. x ∷ l) (procs-ticked xs)

-- Behind the first process the differences stay as they are.
Due-ticked :
    (f : ℕ → ℤ) (b : ℕ) (xs : List (ℕ × ℕ)) → 0 < b → Due f b xs → Due f (b - 1) (ticked xs)
Due-ticked f b [] some_left due = tt
Due-ticked f b ((x, d) ∷ xs) some_left due = (
  omega (arith, due.0),
  ground (arith, due.0, due.1),
  Due-ticked f d xs (omega (arith, due.0)) due.2,
)

pub Sleeping-ticked :
    (t : Queuetab) (q x d : ℕ) (xs : List (ℕ × ℕ))
    → Sleeping t q ((x, d) ∷ xs)
    → 0 < d
    → Sleeping (record t { qkey = update t.qkey x (t.qkey x -ℤ pos 1) }) q (ticked ((x, d) ∷ xs))
Sleeping-ticked t q x d xs s some_left =
    let keys = update t.qkey x (t.qkey x -ℤ pos 1) in
    let others =
      Due-frame t.qkey keys d xs s.delays.2 (All-update t.qkey x _ (procs xs) s.holds.distinct.0) in
    record {
      holds = rw (procs-ticked xs) (Holds-key keys s.holds);
      delays = (omega arith, ground (arith, s.delays.1), Due-ticked keys d xs some_left others);
    }

-- The first part of a tick, when somebody sleeps.
clock_tick-eq :
    (k : Kernel) (q x d : ℕ)
    → k.sleepq ≡ pos q
    → q + 1 < nqent
    → k.queuetab.qnext q ≡ pos x
    → x < nproc
    → k.queuetab.qkey x ≡ pos d
    → 1 < d
    → clock_tick k
      ≡ some (record (count_second k) {
        queuetab = record k.queuetab {
          qkey = update k.queuetab.qkey x (k.queuetab.qkey x -ℤ pos 1);
        };
      })
unfolding clock_tick count_second
clock_tick-eq k q x d list high head small key more = ground arith

-- A tick that wakes nobody up shortens the delay of every sleeping process by one, and the current
-- process goes on.
clock_tick-Sleeping :
    (k : Kernel) (q x d : ℕ) (xs : List (ℕ × ℕ))
    → k.sleepq ≡ pos q
    → Sleeping k.queuetab q ((x, d) ∷ xs)
    → 1 < d
    → Runs
        (clock_tick k)
        λ k'. Sleeping k'.queuetab q (ticked ((x, d) ∷ xs)) × (k'.currpid ≡ k.currpid)
unfolding count_second
clock_tick-Sleeping k q x d xs list s more =
    let h = s.holds in
    let whole : d - 0 ≡ d = omega arith in
    let key : k.queuetab.qkey x ≡ pos d = rw whole at s.delays.1 in
    rw (clock_tick-eq k q x d list h.high h.chain.0.0 h.members.0 key more)
      (Sleeping-ticked k.queuetab q x d xs s (omega (arith, more)), ground arith)
