-- ===== src/Memory/Alloc.antt =====
-- Allocation, Chapter9/getmem.c and Chapter9/getstk.c.
use os_design_xinu_approach.Prelude.{
  ℕ, ◌+◌, ◌-◌, ◌%◌, ◌^◌, ◌≤◌, ◌<◌, ◌≡◌, refl, true, false, Option, none, some, List, [], ◌∷◌, arith,
  ◌==◌, All, ◌>>=◌,
}
use os_design_xinu_approach.Memory.{
  Memblk, Memory, word, roundmb, add64, sub64, shrink32, first_fit, getmem, last_fit, cut_high,
  getstk,
}
use os_design_xinu_approach.Memory.Chain.{covers, total, IsChain, Aligned, Taken}
use os_design_xinu_approach.Memory.Fit.{
  Search, first_fit-Search, LastFit, StackSearch, last_fit-Search,
}

-- The free chain lies in the heap, which is below 2^32 and does not begin at NULL,
-- `memlist.mlength` counts its bytes, and every block is a multiple of the 16 bytes of its header.
pub record IsHeap (m : Memory) : Type 0 where
  pub chain : IsChain m.minheap m.memlist
  pub aligned : Aligned m.memlist
  pub counted : m.mfree ≡ total m.memlist
  pub not_null : 0 < m.minheap
  pub small : m.minheap < 2 ^ 32
  pub top : m.maxheap + 1 < 2 ^ 32
  pub bounded : (x : ℕ) → covers m.memlist x ≡ true → x ≤ m.maxheap

pub total-lt : (lo : ℕ) (bs : List Memblk) → IsChain lo bs → lo < 2 ^ 32 → lo + total bs < 2 ^ 32
total-lt lo [] h lt = omega arith
total-lt lo (b ∷ bs) h lt = omega (arith, total-lt (b.addr + b.mlength) bs h.3 h.2)

pub IsHeap-Taken :
    (m : Memory) (n a : ℕ) (rest : List Memblk)
    → IsHeap m
    → n % 16 ≡ 0
    → Taken m.minheap n m.memlist a rest
    → IsHeap (record m { memlist = rest; mfree = shrink32 m.mfree n })
IsHeap-Taken m n a rest h al t = record {
  chain = t.chain;
  aligned = t.aligned al h.aligned;
  counted = omega (arith, h.counted, t.less, total-lt m.minheap m.memlist h.chain h.small);
  not_null = h.not_null;
  small = h.small;
  top = h.top;
  bounded = λ x e. h.bounded x (ground (arith, t.still_free x));
}

abbrev pub SameBounds : Memory → Memory → Type 0
SameBounds m m' = (m'.minheap ≡ m.minheap) × (m'.maxheap ≡ m.maxheap)

-- The outcome of an allocation of `n` bytes: refused, nothing changed and every free block too
-- short; or a region of free bytes at `a`, which are no longer free, all others as before.
abbrev pub Allocated : ℕ → Memory → Option ℕ → Memory → Type 0
Allocated n m none m' = (m' ≡ m) × All (λ b. b.mlength < n) m.memlist
Allocated n m (some a) m' = IsHeap m' × Taken m.minheap n m.memlist a m'.memlist × SameBounds m m'

-- `getmem` of up to 2^32 bytes, in a heap whose free blocks are multiples of 16 bytes and with a
-- size that rounds up to such a multiple: it refuses only if no free block is large enough, and
-- then changes nothing; otherwise it returns a region of free bytes that are free no more, leaves
-- every other byte as it was, and keeps the free list in order, counted and of such blocks.
pub getmem-Allocated :
    (nbytes : ℕ) (m : Memory)
    → IsHeap m
    → 0 < nbytes
    → nbytes ≤ 2 ^ 32
    → roundmb nbytes % 16 ≡ 0
    → (nbytes ≤ roundmb nbytes)
      × Allocated (roundmb nbytes) m (getmem nbytes m).0 (getmem nbytes m).1
unfolding getmem
getmem-Allocated nbytes m h some_bytes small al =
    let n = roundmb nbytes in
    let test : (nbytes == 0) ≡ false = ground arith in
    (
      omega arith,
      rw test (
          outcome (first_fit n m.memlist)
            (first_fit-Search m.minheap n m.memlist h.chain (omega arith))),
    )
  where
    outcome :
        (o : Option (ℕ × List Memblk))
        → Search m.minheap (roundmb nbytes) m.memlist o
        → let r : Option ℕ × Memory = elim o [
          | none ↦ (none, m)
          | some (a, rest) ↦
              (some a, record m { memlist = rest; mfree = shrink32 m.mfree (roundmb nbytes) })
        ] in
          Allocated (roundmb nbytes) m r.0 r.1
    outcome none s = (refl, s)
    outcome (some (a, rest)) t = (IsHeap-Taken m (roundmb nbytes) a rest h al t, t, (refl, refl))

-- The address of the last word of a region of `n` bytes at `a`, as `getstk` returns it.
abbrev pub stack_base : ℕ → ℕ → ℕ
stack_base a n = a + n - word

-- The outcome of `getstk`: the region is the high end of the last block that is large enough, and
-- the result is its last word.
abbrev pub StackAllocated : ℕ → Memory → Option ℕ → Memory → Type 0
StackAllocated n m none m' = (m' ≡ m) × All (λ b. b.mlength < n) m.memlist
StackAllocated n m (some base) m' =
    (a : ℕ) × (base ≡ stack_base a n)
    × IsHeap m'
    × Taken m.minheap n m.memlist a m'.memlist
    × SameBounds m m'
    × LastFit n m.memlist a

-- `getstk` of up to 2^32 bytes, in a heap whose free blocks are multiples of 16 bytes and with a
-- size that rounds up to such a multiple: it refuses only if no free block is large enough, and
-- then changes nothing; otherwise it takes the high end of the last block that is large enough, all
-- blocks behind it being too short, keeps every other byte and the free list as `getmem` does, and
-- returns the address of the region's last word.
pub getstk-StackAllocated :
    (nbytes : ℕ) (m : Memory)
    → IsHeap m
    → 0 < nbytes
    → nbytes ≤ 2 ^ 32
    → roundmb nbytes % 16 ≡ 0
    → StackAllocated (roundmb nbytes) m (getstk nbytes m).0 (getstk nbytes m).1
unfolding getstk
getstk-StackAllocated nbytes m h some_bytes small al =
    let n = roundmb nbytes in
    let test : (nbytes == 0) ≡ false = ground arith in
    rw test (
      outcome (last_fit n m.memlist 0 none >>= cut_high n m.memlist)
        (last_fit-Search m.minheap n m.memlist h.chain (omega arith)))
  where
    base :
        (a : ℕ) (rest : List Memblk)
        → Taken m.minheap (roundmb nbytes) m.memlist a rest
        → sub64 (add64 a (roundmb nbytes)) word ≡ stack_base a (roundmb nbytes)
    base a rest t =
        let below : a + roundmb nbytes < 2 ^ 32 = t.below in
        let large : word ≤ roundmb nbytes = omega arith in fits a (roundmb nbytes) below large
      where
        fits : (a n : ℕ) → a + n < 2 ^ 32 → word ≤ n → sub64 (add64 a n) word ≡ stack_base a n
        fits a n below large = omega arith

    outcome :
        (o : Option (ℕ × List Memblk))
        → StackSearch m.minheap (roundmb nbytes) m.memlist o
        → let r : Option ℕ × Memory = elim o [
          | none ↦ (none, m)
          | some (a, rest) ↦ (
            some (sub64 (add64 a (roundmb nbytes)) word),
            record m { memlist = rest; mfree = shrink32 m.mfree (roundmb nbytes) },
          )
        ] in
          StackAllocated (roundmb nbytes) m r.0 r.1
    outcome none s = (refl, s)
    outcome (some (a, rest)) (t, last) =
        (a, base a rest t, IsHeap-Taken m (roundmb nbytes) a rest h al t, t, (refl, refl), last)
