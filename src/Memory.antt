-- ===== src/Memory.antt =====
-- The free memory of Chapter9: memory.h, getmem.c, getstk.c, freemem.c. `memlist` is the chain of
-- free blocks in the order of the `mnext` links. Addresses and sizes are `uint64`, `mlength` is
-- `uint32`, and both wrap. `mnext` and `mlength` of a block stand in its own first bytes, at 0 and
-- at 8 (pointers have eight bytes, the low byte first, and `sizeof(struct memblk)` is 16). So the
-- chain tells what is in the memory as long as no free block is shorter than 16 bytes; what a
-- header does to the bytes behind a block of 8 is not modelled.
pub mod Chain
pub mod Fit
pub mod Alloc
pub mod Release
pub mod Free
mod Tests
use os_design_xinu_approach.Prelude.{
  ℕ, zero, suc, ◌+◌, ◌-◌, ◌*◌, ◌/◌, ◌%◌, ◌^◌, Bool, true, false, ◌||◌, Option, none, some, List, [],
  ◌∷◌, ltb, leb, ◌==◌, if◌then◌else◌, ◌>>=◌,
}

-- `struct memblk`, at its address
pub record Memblk : Type 0 where
  pub addr : ℕ
  pub mlength : ℕ

abbrev pub memblk : ℕ → ℕ → Memblk
memblk a n = record { addr = a; mlength = n }

-- `memlist.mnext` as the chain, `memlist.mlength`, `minheap` and `maxheap`
pub record Memory : Type 0 where
  pub memlist : List Memblk
  pub mfree : ℕ
  pub minheap : ℕ
  pub maxheap : ℕ

-- `sizeof(uint64)`
abbrev pub word : ℕ
word = 8

-- `roundmb`: `(7 + (uint64)(x)) & (~7)`
abbrev pub roundmb : ℕ → ℕ
roundmb x = (7 + x) % 2 ^ 64 / 8 * 8

abbrev pub add64 : ℕ → ℕ → ℕ
add64 a b = (a + b) % 2 ^ 64

abbrev pub sub64 : ℕ → ℕ → ℕ
sub64 a b = (a + (2 ^ 64 - b % 2 ^ 64)) % 2 ^ 64

-- `m += n` and `m -= n` for a `uint32` m and a `uint64` n
abbrev pub grow32 : ℕ → ℕ → ℕ
grow32 m n = (m + n) % 2 ^ 32

abbrev pub shrink32 : ℕ → ℕ → ℕ
shrink32 m n = (m + (2 ^ 32 - n % 2 ^ 32)) % 2 ^ 32

-- The address that `mnext` holds before the blocks `bs`
abbrev pub link_to : List Memblk → ℕ
link_to [] = 0
link_to (b ∷ bs) = b.addr

-- `curr->mlength` after `leftover->mnext` has been written `n` bytes behind `curr`: at 8 bytes it has
-- the link written over it.
abbrev pub length_read : ℕ → Memblk → List Memblk → ℕ
length_read n curr rest = if n == 8 then link_to rest % 2 ^ 32 else curr.mlength

-- The loop of `getmem`: the first block that is large enough gives its low end. The result is the
-- block's address and the chain after it.
unfoldable pub first_fit : ℕ → List Memblk → Option (ℕ × List Memblk)
first_fit n [] = none
first_fit n (curr ∷ rest) =
    let later = (first_fit n rest >>= λ (a, rest'). some (a, curr ∷ rest')) in
    if curr.mlength == n
    then some (curr.addr, rest)
    else if ltb n curr.mlength
    then some (curr.addr, memblk (add64 curr.addr n) (shrink32 (length_read n curr rest) n) ∷ rest)
    else later

-- `none` is the return value SYSERR.
unfoldable pub getmem : ℕ → Memory → Option ℕ × Memory
getmem nbytes m = if nbytes == 0 then (none, m) else elim (first_fit (roundmb nbytes) m.memlist) [
  | none ↦ (none, m)
  | some (a, rest) ↦
      (some a, record m { memlist = rest; mfree = shrink32 m.mfree (roundmb nbytes) })
]

-- The loop of `getstk` runs through the whole chain and keeps the last block that is large enough,
-- as its place in the chain.
unfoldable pub last_fit : ℕ → List Memblk → ℕ → Option ℕ → Option ℕ
last_fit n [] i fits = fits
last_fit n (curr ∷ rest) i fits =
    last_fit n rest (i + 1) (if leb n curr.mlength then some i else fits)

-- What follows the loop: the block at that place gives its high end, or leaves the chain.
unfoldable pub cut_high : ℕ → List Memblk → ℕ → Option (ℕ × List Memblk)
cut_high n [] i = none
cut_high n (fits ∷ rest) zero =
    if n == fits.mlength
    then some (fits.addr, rest)
    else some (add64 fits.addr (fits.mlength - n), memblk fits.addr (fits.mlength - n) ∷ rest)
cut_high n (b ∷ rest) (suc i) = cut_high n rest i >>= λ (a, rest'). some (a, b ∷ rest')

unfoldable pub getstk : ℕ → Memory → Option ℕ × Memory
getstk nbytes m =
    if nbytes == 0
    then (none, m)
    else elim (last_fit (roundmb nbytes) m.memlist 0 none >>= cut_high (roundmb nbytes) m.memlist) [
      | none ↦ (none, m)
      | some (a, rest) ↦ (
        some (sub64 (add64 a (roundmb nbytes)) word),
        record m { memlist = rest; mfree = shrink32 m.mfree (roundmb nbytes) },
      )
    ]

-- `freemem` behind its loop, with a free block `prev` before the released one: an overlap is
-- refused; a block that begins where `prev` ends is joined to it.
unfoldable pub release_after : ℕ → ℕ → Memblk → List Memblk → Option (List Memblk)
release_after block n prev [] =
    let top = add64 prev.addr prev.mlength in
    if ltb block top
    then none
    else if top == block
    then some (memblk prev.addr (grow32 prev.mlength n) ∷ [])
    else some (prev ∷ memblk block (n % 2 ^ 32) ∷ [])
release_after block n prev (next ∷ rest) =
    let later = (release_after block n next rest >>= λ chain. some (prev ∷ chain)) in
    let top = add64 prev.addr prev.mlength in
    if ltb next.addr block
    then later
    else if ltb block top || ltb next.addr (add64 block n)
    then none
    else if top == block
    then some (memblk prev.addr (grow32 prev.mlength n) ∷ next ∷ rest)
    else some (prev ∷ memblk block (n % 2 ^ 32) ∷ next ∷ rest)

-- The loop of `freemem`. While `prev` is `&memlist` itself, `top` is NULL.
unfoldable pub release : ℕ → ℕ → List Memblk → Option (List Memblk)
release block n [] = some (memblk block (n % 2 ^ 32) ∷ [])
release block n (next ∷ rest) =
    if ltb next.addr block
    then release_after block n next rest
    else if ltb next.addr (add64 block n)
    then none
    else some (memblk block (n % 2 ^ 32) ∷ next ∷ rest)

-- The Boolean is true for OK. A block at address NULL in front of the chain equals `top`: then the
-- length is added to `memlist.mlength` once more, and no block is put into the chain.
unfoldable pub freemem : ℕ → ℕ → Memory → Bool × Memory
freemem blkaddr nbytes m =
    if nbytes == 0 || ltb blkaddr m.minheap || ltb m.maxheap blkaddr
    then (false, m)
    else elim (release blkaddr (roundmb nbytes) m.memlist) [
      | none ↦ (false, m)
      | some chain ↦ (
        true,
        if blkaddr == 0
            then record m { mfree = grow32 (grow32 m.mfree (roundmb nbytes)) (roundmb nbytes) }
            else record m { memlist = chain; mfree = grow32 m.mfree (roundmb nbytes) },
      )
    ]

-- The macro `freestk`
unfoldable pub freestk : ℕ → ℕ → Memory → Bool × Memory
freestk p len m = freemem (add64 (sub64 p (roundmb len)) word) (roundmb len) m
