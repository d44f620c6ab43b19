-- ===== src/Process/Pids.antt =====
-- Which slot of the process table `newpid` and `create` (Chapter6/create.c) take.
use os_design_xinu_approach.Prelude.{
  ℕ, zero, suc, ◌+◌, ◌-◌, ◌%◌, ◌<◌, ◌≡◌, refl, subst, inl, inr, true, false, arith, Bool-cases, ℤ,
  pos, negsuc,
}
use os_design_xinu_approach.Queue.{nproc}
use os_design_xinu_approach.State.{Kernel, is_free, state_of}
use os_design_xinu_approach.Process.{newpid_loop, newpid}

-- A process id that the search returns is that of a free slot of the table.
newpid_loop-free :
    (n : ℕ) (k : Kernel) (p : ℕ)
    → (newpid_loop n k).0 ≡ pos p
    → (p < nproc) × (is_free (state_of k p) ≡ true)
unfolding newpid_loop
newpid_loop-free zero k p e = cc
newpid_loop-free (suc n) k p e = elim (Bool-cases (is_free (state_of k (k.nextpid % nproc)))) [
  | inl free ↦ let same : k.nextpid % nproc ≡ p = ground arith in (omega arith, rw (← same) free)
  | inr taken ↦ newpid_loop-free n (record k { nextpid = k.nextpid % nproc + 1 }) p (rw taken at e)
]

-- A search that fails has seen a taken slot in each round.
newpid_loop-taken :
    (n : ℕ) (k : Kernel) (m : ℕ)
    → (newpid_loop n k).0 ≡ negsuc m
    → (i : ℕ) → i < n
    → is_free (state_of k ((k.nextpid + i) % nproc)) ≡ false
unfolding newpid_loop
newpid_loop-taken zero k m e i lt = absurd (omega arith)
newpid_loop-taken (suc n) k m e i lt =
    elim (Bool-cases (is_free (state_of k (k.nextpid % nproc)))) [
      | inl free ↦ ground arith
      | inr taken ↦
          each i lt taken
            (newpid_loop-taken n (record k { nextpid = k.nextpid % nproc + 1 }) m (rw taken at e))
    ]
  where
    each :
        (i : ℕ)
        → i < suc n
        → is_free (state_of k (k.nextpid % nproc)) ≡ false
        → ((j : ℕ) → j < n → is_free (state_of k ((k.nextpid % nproc + 1 + j) % nproc)) ≡ false)
        → is_free (state_of k ((k.nextpid + i) % nproc)) ≡ false
    each zero lt taken rest =
        let same : (k.nextpid + 0) % nproc ≡ k.nextpid % nproc = omega arith in rw same taken
    each (suc j) lt taken rest =
        let same : (k.nextpid + suc j) % nproc ≡ (k.nextpid % nproc + 1 + j) % nproc =
          omega arith in
        rw same (rest j (omega arith))

abbrev pub NewPid : Kernel → ℤ → Type 0
NewPid k (pos p) = (p < nproc) × (is_free (state_of k p) ≡ true)
NewPid k (negsuc n) = (p : ℕ) → p < nproc → is_free (state_of k p) ≡ false

-- `newpid` returns a free slot of the process table whenever there is one: what it returns is free,
-- and if it returns SYSERR every slot is taken. Its rounds visit the whole table.
pub newpid-NewPid : (k : Kernel) → NewPid k (newpid k).0
unfolding newpid
newpid-NewPid k = outcome (newpid_loop nproc k).0 refl
  where
    outcome : (r : ℤ) → (newpid_loop nproc k).0 ≡ r → NewPid k r
    outcome (pos p) e = newpid_loop-free nproc k p e
    outcome (negsuc m) e = λ p lt.
        let i = (p + nproc - k.nextpid % nproc) % nproc in
        let same : (k.nextpid + i) % nproc ≡ p = omega arith in
        subst (λ x. is_free (state_of k x) ≡ false) same
          (newpid_loop-taken nproc k m e i (omega arith))
