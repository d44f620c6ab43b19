-- ===== src/Files/Make.antt =====
-- Setting up and emptying: lfsinit.c, lflinit.c, lfscreate.c and lftruncate.c of Chapter19.
use os_design_xinu_approach.Prelude.{
  ℕ, zero, suc, ◌+◌, ◌-◌, ◌*◌, ◌/◌, ◌%◌, ◌^◌, true, false, ◌||◌, Option, none, some, [], ◌∷◌, ltb,
  ◌==◌, if◌then◌else◌, take, ℤ, pos, eqb_ℤ, ◌>>=◌,
}
use os_design_xinu_approach.Queue.{syserr}
use os_design_xinu_approach.State.{ok, uint_of}
use os_design_xinu_approach.Files.{
  lf_blksiz, lf_name_len, lf_iblen, lf_area_dir, lf_inull, lf_dnull, Lfiblk, Lfdir, Lflcblk, Disk,
  Lfdata, write_sector, byte_of, lfibclear, lfibget, lfibput, dir_byte, lfdbfree,
}
use os_design_xinu_approach.Files.Access.{Openfile, set_entry, lfflush}

abbrev pub zero_dir : Lfdir
zero_dir = record {
  lfd_dfree = pos 0;
  lfd_ifree = pos 0;
  lfd_nfiles = pos 0;
  lfd_files = λ i. record {
    ld_size = 0;
    ld_ilist = pos 0;
    ld_name = take lf_name_len (0 ∷ 0 ∷ 0 ∷ 0 ∷ 0 ∷ 0 ∷ 0 ∷ 0 ∷ 0 ∷ 0 ∷ 0 ∷ 0 ∷ 0 ∷ 0 ∷ 0 ∷ 0 ∷ []);
  };
}

unfoldable pub lfsinit : Lfdata → ℤ × Lfdata
lfsinit d = (ok, record d { lf_dir = zero_dir; lf_dirpresent = false; lf_dirdirty = false })

-- `dvnum` is the device's number. `lfmode` keeps its value.
unfoldable pub lflinit : ℤ → Lflcblk → ℤ × Lflcblk
lflinit dvnum f = (
  ok,
  record f {
    lfused = false;
    lfdev = dvnum;
    lfdirptr = none;
    lfpos = 0;
    lfname = 0 ∷ 0 ∷ 0 ∷ 0 ∷ 0 ∷ 0 ∷ 0 ∷ 0 ∷ 0 ∷ 0 ∷ 0 ∷ 0 ∷ 0 ∷ 0 ∷ 0 ∷ 0 ∷ [];
    lfinum = lf_inull;
    lfiblock = record { ib_next = pos 0; ib_offset = 0; ib_dba = λ i. pos 0 };
    lfdnum = pos 0;
    lfdblock = λ i. 0;
    lfbyte = lf_blksiz;
    lfibdirty = false;
    lfdbdirty = false;
  },
)

-- The free list of index blocks, by the blocks that are left before the last one
unfoldable pub make_iblocks : ℕ → ℕ → Disk → Option Disk
make_iblocks zero i d =
    lfibput d (pos i) (record (lfibclear 0) { ib_next = lf_inull }) >>= λ (r, d'). some d'
make_iblocks (suc left) i d = do
  (r, d') ← lfibput d (pos i) (record (lfibclear 0) { ib_next = pos (i + 1) })
  make_iblocks left (i + 1) d'

-- The bytes of a `struct lfdbfree` that was cleared
abbrev pub link_bytes : ℤ → ℕ → ℕ
link_bytes next i = if ltb i 4 then byte_of (uint_of 32 next) i else 0

-- The free list of data blocks
unfoldable pub make_dblocks : ℕ → ℕ → Disk → Disk
make_dblocks zero n d = write_sector (pos n) (link_bytes lf_dnull) d
make_dblocks (suc left) n d =
    make_dblocks left (n + 1) (write_sector (pos n) (link_bytes (pos (n + 1))) d)

-- The number of data blocks is a `uint32`; the directory takes `lfd_ifree` from the cleared memory.
-- Closing the disk is left out. `lfiblks` is not below zero.
unfoldable pub lfscreate : ℕ → ℕ → Disk → Option (ℤ × Disk)
lfscreate lfiblks dsiz d =
    let sectors = dsiz / lf_blksiz in
    let ibsectors = (lfiblks + 6) / 7 in
    let dir = record zero_dir { lfd_dfree = pos (ibsectors + 1) } in
    let dblks = (sectors + 2 ^ 32 - ibsectors - 1) % 2 ^ 32 in
    let make =
      (make_iblocks (ibsectors * 7 - 1) 0 (write_sector lf_area_dir (dir_byte dir) d) >>= λ d1.
      some (ok, make_dblocks ((dblks + 2 ^ 32 - 1) % 2 ^ 32) (ibsectors + 1) d1)) in
    if ltb (sectors / 2) ibsectors
    then some (syserr, d)
    else if d.bad lf_area_dir
    then some (syserr, d)
    else make

-- `unset` is an uninitialised buffer.
module _ (unset : ℕ → ℕ) where
  -- The data blocks of an index block go to the free list, from the place `i` on, by the rounds that
  -- are left.
  unfoldable pub free_blocks : ℕ → ℕ → Lfiblk → Lfdata → Lfdata
  free_blocks zero i b d = d
  free_blocks (suc rounds) i b d =
      let block = b.ib_dba i in
      free_blocks rounds (i + 1) b (if eqb_ℤ block lf_dnull then d else lfdbfree unset block d)

  -- The index block `b` after its data blocks are free
  abbrev pub emptied : ℤ → Lfiblk → Lfiblk
  emptied ifree b = record {
    ib_next = if eqb_ℤ b.ib_next lf_inull then ifree else b.ib_next;
    ib_offset = 0;
    ib_dba = λ i. if ltb i lf_iblen then lf_dnull else b.ib_dba i;
  }

  -- The walk along the index blocks of the file, on fuel
  unfoldable pub free_indexes : ℕ → ℤ → ℤ → Lfdata → Option Lfdata
  free_indexes zero ifree nextib d = if eqb_ℤ nextib ifree then some d else none
  free_indexes (suc fuel) ifree nextib d =
      let round = (do
        b ← lfibget d.disk nextib
        let d1 = free_blocks lf_iblen 0 b d
        (r, disk) ← lfibput d1.disk nextib (emptied ifree b)
        free_indexes fuel ifree (emptied ifree b).ib_next (record d1 { disk = disk })) in
      if eqb_ℤ nextib ifree then some d else round

  -- `fuel` bounds the number of the file's index blocks.
  unfoldable pub lftruncate : ℕ → Openfile → Option (ℤ × Openfile)
  lftruncate fuel s = do
    i ← s.file.lfdirptr
    let whole = s.fs.lf_dir.lfd_files i
    let clear = (do
      s1 ←
          (if s.file.lfibdirty || s.file.lfdbdirty
            then (lfflush s >>= λ (r, t). some t)
            else some s)
      let ifree = s1.fs.lf_dir.lfd_ifree
      let e = s1.fs.lf_dir.lfd_files i
      let d = record (set_entry s1.fs i (record e { ld_ilist = lf_inull; ld_size = 0 })) {
        lf_dirdirty = true;
      }
      d1 ← free_indexes fuel ifree e.ld_ilist d
      some (
        ok,
        record {
          fs = record d1 {
            lf_dir = record d1.lf_dir { lfd_ifree = e.ld_ilist };
            lf_dirdirty = true;
          };
          file = record s1.file {
            lfpos = 0;
            lfinum = lf_inull;
            lfdnum = lf_dnull;
            lfbyte = lf_blksiz;
          };
        },
      ))
    if whole.ld_size == 0 then some (ok, s) else clear
