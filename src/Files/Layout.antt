-- ===== src/Files/Layout.antt =====
-- Index blocks on the disk: what `lfibput` (Chapter19/lfibput.c) writes is what `lfibget`
-- (Chapter19/lfibget.c) reads.
use os_design_xinu_approach.Prelude.{
  ℕ, ◌+◌, ◌-◌, ◌*◌, ◌/◌, ◌%◌, ◌^◌, ◌≤◌, ◌<◌, ◌≡◌, refl, sym, ap, ◌∙◌, subst, ◌≢◌, ◌⊎◌, inl, inr,
  true, false, ◌&&◌, some, arith, ltb, leb, ◌==◌, if◌then◌else◌, Bool-cases, ℤ, pos, negsuc,
  pos_part, neg_part, eqb_ℤ, ◌>>=◌, Runs,
}
use os_design_xinu_approach.State.{ok, int32_of, uint_of}
use os_design_xinu_approach.Files.{
  lf_iblen, Lfiblk, Disk, write_sector, get32, byte_of, ib2sect, iblk_word, iblk_byte, lfibget,
  lfibput,
}

eqb_ℤ_self : (z : ℤ) → eqb_ℤ z z ≡ true
eqb_ℤ_self (pos n) = ground arith
eqb_ℤ_self (negsuc n) = ground arith

-- The integer is the value of an `int32`.
abbrev pub Int32 : ℤ → Type 0
Int32 z = (pos_part z < 2 ^ 31) × (neg_part z ≤ 2 ^ 31)

-- Every field has a value of its C type.
pub record Fits (b : Lfiblk) : Type 0 where
  pub next : Int32 b.ib_next
  pub offset : b.ib_offset < 2 ^ 32
  pub blocks : (i : ℕ) → Int32 (b.ib_dba i)

-- The same fields, with the sixteen data blocks
pub record SameBlock (b b' : Lfiblk) : Type 0 where
  pub next : b'.ib_next ≡ b.ib_next
  pub offset : b'.ib_offset ≡ b.ib_offset
  pub blocks : (i : ℕ) → i < lf_iblen → b'.ib_dba i ≡ b.ib_dba i

int32_of-uint_of : (z : ℤ) → Int32 z → int32_of (uint_of 32 z) ≡ z
int32_of-uint_of (pos n) h = ground (arith, h.0)
int32_of-uint_of (negsuc n) h = ground (arith, h.1)

uint_small : (z : ℤ) → uint_of 32 z < 2 ^ 32
uint_small (pos n) = omega arith
uint_small (negsuc n) = omega arith

get32-bytes :
    (f : ℕ → ℕ) (o w : ℕ)
    → w < 2 ^ 32
    → f o ≡ byte_of w 0
    → f (o + 1) ≡ byte_of w 1
    → f (o + 2) ≡ byte_of w 2
    → f (o + 3) ≡ byte_of w 3
    → get32 f o ≡ w
get32-bytes f o w lt e0 e1 e2 e3 = omega (arith, e0, e1, e2, e3)

word_small : (b : Lfiblk) (w : ℕ) → Fits b → iblk_word b w < 2 ^ 32
word_small b w h = ground (arith, uint_small b.ib_next, h.offset, uint_small (b.ib_dba (w - 2)))

-- The sector with the block at the displacement `o`
abbrev placed : (ℕ → ℕ) → ℕ → Lfiblk → ℕ → ℕ
placed old o b x = if leb o x && ltb x (o + 72) then iblk_byte b (x - o) else old x

placed_byte :
    (old : ℕ → ℕ) (o : ℕ) (b : Lfiblk) (w j : ℕ)
    → w < 18
    → j < 4
    → placed old o b (o + 4 * w + j) ≡ byte_of (iblk_word b w) j
placed_byte old o b w j lt_w lt_j =
    let inside : (leb o (o + 4 * w + j) && ltb (o + 4 * w + j) (o + 72)) ≡ true = ground arith in
    let place : o + 4 * w + j - o ≡ 4 * w + j = omega arith in
    let word : (4 * w + j) / 4 ≡ w = omega arith in
    let rest : (4 * w + j) % 4 ≡ j = omega arith in rw (inside, place, word, rest) refl

placed_word :
    (old : ℕ → ℕ) (o : ℕ) (b : Lfiblk) (w : ℕ)
    → Fits b
    → w < 18
    → get32 (placed old o b) (o + 4 * w) ≡ iblk_word b w
placed_word old o b w h lt =
    let first : o + 4 * w ≡ o + 4 * w + 0 = omega arith in
    get32-bytes (placed old o b) (o + 4 * w) (iblk_word b w) (word_small b w h)
      (ap (placed old o b) first ∙ placed_byte old o b w 0 lt (omega arith))
      (placed_byte old o b w 1 lt (omega arith)) (placed_byte old o b w 2 lt (omega arith))
      (placed_byte old o b w 3 lt (omega arith))

get32-same :
    (f g : ℕ → ℕ) (o : ℕ)
    → f o ≡ g o
    → f (o + 1) ≡ g (o + 1)
    → f (o + 2) ≡ g (o + 2)
    → f (o + 3) ≡ g (o + 3)
    → get32 f o ≡ get32 g o
get32-same f g o e0 e1 e2 e3 = omega (arith, e0, e1, e2, e3)

placed_out :
    (old : ℕ → ℕ) (o : ℕ) (b : Lfiblk) (x : ℕ) → (x < o) ⊎ (o + 72 ≤ x) → placed old o b x ≡ old x
placed_out old o b x off =
    let test : (leb o x && ltb x (o + 72)) ≡ false = ground (arith, off) in rw test refl

-- Outside the block's bytes the sector is as it was.
placed_else :
    (old : ℕ → ℕ) (o : ℕ) (b : Lfiblk) (x : ℕ)
    → (x + 3 < o) ⊎ (o + 72 ≤ x)
    → get32 (placed old o b) x ≡ get32 old x
placed_else old o b x off =
    get32-same (placed old o b) old x (placed_out old o b x (ground (arith, off)))
      (placed_out old o b (x + 1) (ground (arith, off)))
      (placed_out old o b (x + 2) (ground (arith, off)))
      (placed_out old o b (x + 3) (ground (arith, off)))

-- The block that `lfibget` decodes at the displacement `o`
abbrev decoded : (ℕ → ℕ) → ℕ → Lfiblk
decoded from o = record {
  ib_next = int32_of (get32 from o);
  ib_offset = get32 from (o + 4);
  ib_dba = λ i. int32_of (get32 from (o + (8 + 4 * i)));
}

decoded-placed :
    (old : ℕ → ℕ) (o : ℕ) (b : Lfiblk) → Fits b → SameBlock b (decoded (placed old o b) o)
decoded-placed old o b h =
    let at0 : o + 4 * 0 ≡ o = omega arith in
    let next =
      ap int32_of (ap (get32 (placed old o b)) (sym at0) ∙ placed_word old o b 0 h (omega arith)) in
    let offset = placed_word old o b 1 h (omega arith) in
    record {
      next = next ∙ int32_of-uint_of b.ib_next h.next;
      offset = offset;
      blocks = λ i lt.
          let place : o + (8 + 4 * i) ≡ o + 4 * (i + 2) = omega arith in
          let word : iblk_word b (i + 2) ≡ uint_of 32 (b.ib_dba i) = block_word i in
          ap int32_of (
            ap (get32 (placed old o b)) place
            ∙ placed_word old o b (i + 2) h (omega (arith, lt))
            ∙ word)
          ∙ int32_of-uint_of (b.ib_dba i) (h.blocks i);
    }
  where
    block_word : (i : ℕ) → iblk_word b (i + 2) ≡ uint_of 32 (b.ib_dba i)
    block_word i =
        let first : ((i + 2) == 0) ≡ false = ground arith in
        let second : ((i + 2) == 1) ≡ false = ground arith in
        let index : i + 2 - 2 ≡ i = omega arith in rw (first, second, index) refl

decoded_else :
    (old : ℕ → ℕ) (o o' : ℕ) (b : Lfiblk)
    → (o' + 72 ≤ o) ⊎ (o + 72 ≤ o')
    → SameBlock (decoded old o') (decoded (placed old o b) o')
decoded_else old o o' b off = record {
  next = ap int32_of (placed_else old o b o' (ground (arith, off)));
  offset = placed_else old o b (o' + 4) (ground (arith, off));
  blocks = λ i lt. ap int32_of (placed_else old o b (o' + (8 + 4 * i)) (ground (arith, off)));
}

written_self :
    (z : ℤ) (bytes : ℕ → ℕ) (d : Disk)
    → d.bad z ≡ false
    → (write_sector z bytes d).sectors z ≡ bytes
written_self z bytes d good = let self = eqb_ℤ_self z in rw (self, good) refl

written_else :
    (z y : ℤ) (bytes : ℕ → ℕ) (d : Disk)
    → eqb_ℤ z y ≡ false
    → (write_sector z bytes d).sectors y ≡ d.sectors y
written_else z y bytes d ne = rw ne refl

SameBlock-refl : (b : Lfiblk) → SameBlock b b
SameBlock-refl b = record { next = refl; offset = refl; blocks = λ i lt. refl }

ib2sect-eq : (n : ℕ) → ib2sect (pos n) ≡ pos (n / 7 + 1)
ib2sect-eq n = ground arith

-- The disk after `lfibput`
abbrev rewritten : Disk → ℕ → Lfiblk → Disk
rewritten d n b =
    write_sector (ib2sect (pos n)) (placed (d.sectors (ib2sect (pos n))) (n % 7 * 72) b) d

-- The blocks that another write to the sector of `n` leaves alone
other_block :
    (d : Disk) (n m : ℕ) (b : Lfiblk)
    → d.bad (ib2sect (pos n)) ≡ false
    → m ≢ n
    → SameBlock
        (decoded (d.sectors (ib2sect (pos m))) (m % 7 * 72))
        (decoded ((rewritten d n b).sectors (ib2sect (pos m))) (m % 7 * 72))
other_block d n m b good ne =
    let new = placed (d.sectors (ib2sect (pos n))) (n % 7 * 72) b in
    elim (Bool-cases (n / 7 == m / 7)) [
      | inl e ↦
          let same : ib2sect (pos m) ≡ ib2sect (pos n) =
            ib2sect-eq m ∙ ground (arith, e) ∙ sym (ib2sect-eq n) in
          rw (same, written_self (ib2sect (pos n)) new d good)
            (decoded_else (d.sectors (ib2sect (pos n))) (n % 7 * 72) (m % 7 * 72) b
              (ground (arith, e, ne)))
      | inr e ↦
          let differ : eqb_ℤ (ib2sect (pos n)) (ib2sect (pos m)) ≡ false =
            rw (ib2sect-eq n, ib2sect-eq m) (ground (arith, e)) in
          rw (written_else (ib2sect (pos n)) (ib2sect (pos m)) new d differ) (SameBlock-refl _)
    ]

lfibput-eq :
    (d : Disk) (n : ℕ) (b : Lfiblk)
    → d.bad (ib2sect (pos n)) ≡ false
    → lfibput d (pos n) b ≡ some (ok, rewritten d n b)
unfolding lfibput
lfibput-eq d n b good = rw good refl

-- A block that `lfibput` writes to a good sector is read back by `lfibget` with the same fields, and
-- every other index block of the disk keeps its fields.
pub lfibput-lfibget :
    (d : Disk) (n m : ℕ) (b : Lfiblk)
    → Fits b
    → d.bad (ib2sect (pos n)) ≡ false
    → m ≢ n
    → Runs (lfibput d (pos n) b) λ (r, d').
      (r ≡ ok)
      × Runs (lfibget d' (pos n)) (λ b'. SameBlock b b')
      × Runs
          (lfibget d (pos m) >>= λ c. lfibget d' (pos m) >>= λ c'. some (c, c'))
          λ (c, c'). SameBlock c c'
unfolding lfibget
lfibput-lfibget d n m b h good ne =
    let o = n % 7 * 72 in
    let new = placed (d.sectors (ib2sect (pos n))) o b in
    let read_back = decoded-placed (d.sectors (ib2sect (pos n))) o b h in
    let whole = written_self (ib2sect (pos n)) new d good in
    rw (lfibput-eq d n b good) (
      refl,
      subst (λ f. SameBlock b (decoded f o)) (sym whole) read_back,
      other_block d n m b good ne,
    )
