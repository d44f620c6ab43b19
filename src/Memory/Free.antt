-- ===== src/Memory/Free.antt =====
-- `freemem` and `freestk` of Chapter9, and how they undo `getmem` and `getstk`.
use os_design_xinu_approach.Prelude.{
  ℕ, ◌+◌, ◌-◌, ◌%◌, ◌^◌, ◌≤◌, ◌<◌, ◌≡◌, refl, sym, ◌∙◌, subst, inl, inr, Bool, true, false, not,
  ◌&&◌, ◌||◌, Option, none, some, List, arith, ltb, ◌==◌, if◌then◌else◌, Bool-cases,
}
use os_design_xinu_approach.Memory.{
  Memblk, Memory, word, roundmb, add64, sub64, grow32, getmem, getstk, release, freemem, freestk,
}
use os_design_xinu_approach.Memory.Chain.{inside, covers, Taken}
use os_design_xinu_approach.Memory.Alloc.{
  IsHeap, total-lt, Allocated, getmem-Allocated, stack_base, StackAllocated, getstk-StackAllocated,
}
use os_design_xinu_approach.Memory.Release.{Joined, Overlap, Releases, release-Releases}

-- The outcome of a release of `n` bytes at `a`: refused, nothing changed and some of the bytes
-- free already; or those bytes are free now, and all others as before.
abbrev pub Freed : ℕ → Memory → ℕ → Bool → Memory → Type 0
Freed n m a false m' = (m' ≡ m) × Overlap n a m.memlist
Freed n m a true m' = IsHeap m' × Joined m.minheap n m.memlist a m'.memlist

IsHeap-Joined :
    (m : Memory) (n a : ℕ) (rest : List Memblk)
    → IsHeap m
    → n % 16 ≡ 0
    → a + n ≤ m.maxheap + 1
    → Joined m.minheap n m.memlist a rest
    → IsHeap (record m { memlist = rest; mfree = grow32 m.mfree n })
IsHeap-Joined m n a rest h al le j = record {
  chain = j.chain;
  aligned = j.aligned al h.aligned;
  counted = omega (arith, h.counted, j.more, total-lt m.minheap rest j.chain h.small);
  not_null = h.not_null;
  small = h.small;
  top = h.top;
  bounded = λ x e. elim (Bool-cases (covers m.memlist x)) [
    | inl old ↦ h.bounded x old
    | inr new ↦ ground (arith, j.now_free x)
  ];
}

-- In a heap whose free blocks are multiples of 16 bytes, `freemem` of a region inside the heap, with
-- a size that rounds up to such a multiple, refuses it exactly if some byte of it is free already,
-- and then changes nothing; otherwise exactly the bytes of the region become free, and the free
-- list stays in order, counted and of such blocks.
pub freemem-Freed :
    (blkaddr nbytes : ℕ) (m : Memory)
    → IsHeap m
    → 0 < nbytes
    → nbytes ≤ 2 ^ 32
    → roundmb nbytes % 16 ≡ 0
    → m.minheap ≤ blkaddr
    → blkaddr + roundmb nbytes ≤ m.maxheap + 1
    → Freed (roundmb nbytes) m blkaddr (freemem blkaddr nbytes m).0 (freemem blkaddr nbytes m).1
unfolding freemem
freemem-Freed a nbytes m h some_bytes small al low high =
    let n = roundmb nbytes in
    let top = h.top in
    let some_n : 0 < n = omega arith in
    let guard : (nbytes == 0 || ltb a m.minheap || ltb m.maxheap a) ≡ false =
      inside_heap n some_n high in
    rw guard (outcome (release a n m.memlist) (released n some_n high top))
  where
    inside_heap :
        (n : ℕ)
        → 0 < n
        → a + n ≤ m.maxheap + 1
        → (nbytes == 0 || ltb a m.minheap || ltb m.maxheap a) ≡ false
    inside_heap n some_n high = ground arith

    released :
        (n : ℕ)
        → 0 < n
        → a + n ≤ m.maxheap + 1
        → m.maxheap + 1 < 2 ^ 32
        → Releases m.minheap n m.memlist a (release a n m.memlist)
    released n some_n high top =
        release-Releases a n some_n (omega arith) m.minheap m.memlist h.chain low

    outcome :
        (o : Option (List Memblk))
        → Releases m.minheap (roundmb nbytes) m.memlist a o
        → let r : Bool × Memory = elim o [
          | none ↦ (false, m)
          | some chain ↦ (
            true,
            if a == 0
                then record m { mfree = grow32 (grow32 m.mfree (roundmb nbytes)) (roundmb nbytes) }
                else record m { memlist = chain; mfree = grow32 m.mfree (roundmb nbytes) },
          )
        ] in
          Freed (roundmb nbytes) m a r.0 r.1
    outcome none r = (refl, r)
    outcome (some chain) j =
        let not_null : 0 < m.minheap = h.not_null in
        let test : (a == 0) ≡ false = ground arith in
        rw test (IsHeap-Joined m (roundmb nbytes) a chain h al high j, j)

-- What has been taken from the heap lies in it.
Taken-in_heap :
    (m : Memory) (n a : ℕ) (rest : List Memblk)
    → IsHeap m
    → 0 < n
    → Taken m.minheap n m.memlist a rest
    → a + n ≤ m.maxheap + 1
Taken-in_heap m n a rest h some_n t =
    let last : inside a n (a + (n - 1)) ≡ true = ground arith in
    omega (arith, h.bounded (a + (n - 1)) (t.were_free (a + (n - 1)) last))

-- A region that was taken and is released: it is accepted, and the same bytes are free as before.
restored :
    (n a : ℕ) (m m1 : Memory) (done : Bool) (m2 : Memory)
    → Taken m.minheap n m.memlist a m1.memlist
    → Freed n m1 a done m2
    → (done ≡ true) × IsHeap m2 × ((x : ℕ) → covers m2.memlist x ≡ covers m.memlist x)
restored n a m m1 false m2 t (same, (x, i, c)) = cc (sym c ∙ t.still_free x ∙ taken_out x i)
  where
    taken_out : (x : ℕ) → inside a n x ≡ true → (covers m.memlist x && not (inside a n x)) ≡ false
    taken_out x i = ground arith
restored n a m m1 true m2 t (h, j) =
    (refl, h, λ x. ground (arith, j.now_free x, t.still_free x, t.were_free x))

-- `freemem` undoes `getmem`: in a heap whose free blocks are multiples of 16 bytes, the release of a
-- block that `getmem` has returned for a size that rounds up to such a multiple is accepted, and
-- then exactly the bytes are free that were free before.
pub getmem-freemem :
    (nbytes a : ℕ) (m m1 : Memory)
    → IsHeap m
    → 0 < nbytes
    → nbytes ≤ 2 ^ 32
    → roundmb nbytes % 16 ≡ 0
    → getmem nbytes m ≡ (some a, m1)
    → let r = freemem a nbytes m1 in
      (r.0 ≡ true) × IsHeap r.1 × ((x : ℕ) → covers r.1.memlist x ≡ covers m.memlist x)
getmem-freemem nbytes a m m1 h some_bytes small al got =
    let some_n : 0 < roundmb nbytes = omega arith in
    let outcome : Allocated (roundmb nbytes) m (some a) m1 =
      subst (λ (r : Option ℕ × Memory). Allocated (roundmb nbytes) m r.0 r.1) got
        (getmem-Allocated nbytes m h some_bytes small al).1 in
    let t = outcome.1 in
    restored (roundmb nbytes) a m m1 (freemem a nbytes m1).0 (freemem a nbytes m1).1 t (
      freemem-Freed a nbytes m1 outcome.0 some_bytes small al (rw outcome.2.0 t.above)
        (rw outcome.2.1 (Taken-in_heap m (roundmb nbytes) a m1.memlist h some_n t)))

-- `freestk` undoes `getstk`: in a heap whose free blocks are multiples of 16 bytes, the release of a
-- stack that `getstk` has returned for a size that rounds up to such a multiple is accepted, and
-- then exactly the bytes are free that were free before.
pub getstk-freestk :
    (nbytes base : ℕ) (m m1 : Memory)
    → IsHeap m
    → 0 < nbytes
    → nbytes ≤ 2 ^ 32
    → roundmb nbytes % 16 ≡ 0
    → getstk nbytes m ≡ (some base, m1)
    → let r = freestk base nbytes m1 in
      (r.0 ≡ true) × IsHeap r.1 × ((x : ℕ) → covers r.1.memlist x ≡ covers m.memlist x)
unfolding freestk
getstk-freestk nbytes base m m1 h some_bytes small al got =
    let outcome : StackAllocated (roundmb nbytes) m (some base) m1 =
      subst (λ (r : Option ℕ × Memory). StackAllocated (roundmb nbytes) m r.0 r.1) got
        (getstk-StackAllocated nbytes m h some_bytes small al) in
    let a = outcome.0 in
    let t = outcome.3 in
    let some_n : 0 < roundmb nbytes = omega arith in
    let fixed : roundmb (roundmb nbytes) ≡ roundmb nbytes = omega arith in
    let back = address (roundmb nbytes) a outcome.1 (omega arith) t.below in
    let low : m1.minheap ≤ a = rw outcome.4.0 t.above in
    let high : a + roundmb nbytes ≤ m1.maxheap + 1 =
      rw outcome.4.1 (Taken-in_heap m (roundmb nbytes) a m1.memlist h some_n t) in
    rw back (
      restored (roundmb nbytes) a m m1 (freemem a (roundmb nbytes) m1).0
        (freemem a (roundmb nbytes) m1).1 t
        (subst
          (λ k. Freed k m1 a (freemem a (roundmb nbytes) m1).0 (freemem a (roundmb nbytes) m1).1)
          fixed
          (freemem-Freed a (roundmb nbytes) m1 outcome.2 some_n (omega arith) (rw fixed al) low
            (rw fixed high))))
  where
    address :
        (n a : ℕ)
        → base ≡ stack_base a n
        → word ≤ n
        → a + n < 2 ^ 32
        → add64 (sub64 base n) word ≡ a
    address n a e large below = omega arith
