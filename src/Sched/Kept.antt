-- ===== src/Sched/Kept.antt =====
-- What `resched` and `ready` of Chapter5 leave alone.
use os_design_xinu_approach.Prelude.{
  ℕ, ◌<◌, ◌≡◌, refl, ◌∙◌, true, false, ◌||◌, Option, none, some, arith, ℤ, pos, Runs,
}
use os_design_xinu_approach.State.{Procent, Kernel, is_free, is_curr, is_ready, state_of}
use os_design_xinu_approach.Sched.{dispatch, resched, ready}
use os_design_xinu_approach.Queue.{nproc}

-- The two entries differ in their state at most.
abbrev pub SameEntry : Procent → Procent → Type 0
SameEntry e e' = e' ≡ record e { prstate = e'.prstate }

-- Everything but the links and keys of the lists, the states of the processes, the choice of the
-- current one and the scheduler's own variables is the same.
pub record Kept (k k' : Kernel) : Type 0 where
  pub entries : (p : ℕ) → SameEntry (k.proctab p) (k'.proctab p)
  pub semtab : k'.semtab ≡ k.semtab
  pub memory : k'.memory ≡ k.memory
  pub readylist : k'.readylist ≡ k.readylist
  pub sleepq : k'.sleepq ≡ k.sleepq
  pub ndefers : k'.ndefers ≡ k.ndefers

pub dispatch-Kept : (k k' : Kernel) → dispatch k ≡ some k' → Kept k k'
unfolding dispatch
dispatch-Kept k k' e = record {
  entries = λ p. ground arith;
  semtab = ground arith;
  memory = ground arith;
  readylist = ground arith;
  sleepq = ground arith;
  ndefers = ground arith;
}

pub Kept-trans : (k k1 k2 : Kernel) → Kept k k1 → Kept k1 k2 → Kept k k2
Kept-trans k k1 k2 a b = record {
  entries = λ p. ground (arith, a.entries p, b.entries p);
  semtab = b.semtab ∙ a.semtab;
  memory = b.memory ∙ a.memory;
  readylist = b.readylist ∙ a.readylist;
  sleepq = b.sleepq ∙ a.sleepq;
  ndefers = b.ndefers ∙ a.ndefers;
}

pub resched-Kept : (k k' : Kernel) → resched k ≡ some k' → Kept k k'
unfolding resched dispatch
resched-Kept k k' e = record {
  entries = λ p. ground arith;
  semtab = ground arith;
  memory = ground arith;
  readylist = ground arith;
  sleepq = ground arith;
  ndefers = ground arith;
}

pub ready-Kept :
    (pid : ℤ) (k : Kernel) (r : ℤ) (k' : Kernel) → ready pid k ≡ some (r, k') → Kept k k'
unfolding ready resched dispatch
ready-Kept pid k r k' e = record {
  entries = λ p. ground arith;
  semtab = ground arith;
  memory = ground arith;
  readylist = ground arith;
  sleepq = ground arith;
  ndefers = ground arith;
}

-- The process is ready or runs.
abbrev pub Active : Kernel → ℕ → Type 0
Active k p = (is_ready (state_of k p) || is_curr (state_of k p)) ≡ true

pub resched-Active : (k k' : Kernel) (p : ℕ) → resched k ≡ some k' → Active k p → Active k' p
unfolding resched dispatch
resched-Active k k' p e was = ground arith

-- Whoever is ready or runs before `resched` is so after it.
pub resched-both :
    (k : Kernel) (p : ℕ) (P : Kernel → Type 0)
    → Active k p
    → Runs (resched k) P
    → Runs (resched k) (λ k'. P k' × Active k' p)
resched-both k p P was run = go (resched k) refl run
  where
    go : (m : Option Kernel) → resched k ≡ m → Runs m P → Runs m (λ k'. P k' × Active k' p)
    go none e h = h
    go (some k') e h = (h, resched-Active k k' p e was)

-- A process that `ready` has accepted is ready or runs.
pub ready-Active :
    (k : Kernel) (p : ℕ) (r : ℤ) (k' : Kernel)
    → p < nproc
    → is_free (state_of k p) ≡ false
    → ready (pos p) k ≡ some (r, k')
    → Active k' p
unfolding ready resched dispatch
ready-Active k p r k' lt live e = ground arith
