-- ===== src/Files.antt =====
-- The local file system, Chapter19: lfilesys.h, its index blocks on the disk (lfibclear.c, lfibget.c,
-- lfibput.c) and the free lists (lfiballoc.c, lfdballoc.c, lfdbfree.c). One process uses the file
-- system at a time, so the waits for its mutexes are left out. `none` is a `panic`, or an access
-- outside an array.
pub mod Layout
pub mod Access
pub mod Open
pub mod Make
mod Tests
use os_design_xinu_approach.Prelude.{
  ℕ, zero, suc, ◌+◌, ◌-◌, ◌*◌, ◌/◌, ◌%◌, Bool, false, not, ◌&&◌, ◌||◌, Option, none, some, List, [],
  ◌∷◌, ltb, leb, ◌==◌, if◌then◌else◌, take, ℤ, pos, negsuc, ◌+ℤ◌, eqb_ℤ, quot_ℤ, ◌>>=◌,
}
use os_design_xinu_approach.Queue.{syserr}
use os_design_xinu_approach.State.{ok, int32_of, uint_of}

-- `LF_BLKSIZ`, `LF_NAME_LEN`, `LF_NUM_DIR_ENT`, `LF_IBLEN`, `LF_IDATA` and `LF_AREA_DIR`
abbrev pub lf_blksiz : ℕ
lf_blksiz = 512

abbrev pub lf_name_len : ℕ
lf_name_len = 16

abbrev pub lf_num_dir_ent : ℕ
lf_num_dir_ent = 20

abbrev pub lf_iblen : ℕ
lf_iblen = 16

abbrev pub lf_idata : ℕ
lf_idata = 8192

abbrev pub lf_area_dir : ℤ
lf_area_dir = pos 0

-- `LF_INULL` and `LF_DNULL`
abbrev pub lf_inull : ℤ
lf_inull = negsuc 0

abbrev pub lf_dnull : ℤ
lf_dnull = negsuc 0

-- `struct lfiblk`, `struct ldentry` and `struct lfdir`
pub record Lfiblk : Type 0 where
  pub ib_next : ℤ
  pub ib_offset : ℕ
  pub ib_dba : ℕ → ℤ

pub record Ldentry : Type 0 where
  pub ld_size : ℕ
  pub ld_ilist : ℤ
  pub ld_name : List ℕ

pub record Lfdir : Type 0 where
  pub lfd_dfree : ℤ
  pub lfd_ifree : ℤ
  pub lfd_nfiles : ℤ
  pub lfd_files : ℕ → Ldentry

-- `struct lflcblk`. `lfused` is the test `lfstate == LF_USED`; `lfdirptr` is the place of the entry in
-- the directory, or NULL; `lfbyte` is an index into `lfdblock`.
pub record Lflcblk : Type 0 where
  pub lfused : Bool
  pub lfdev : ℤ
  pub lfdirptr : Option ℕ
  pub lfmode : ℕ
  pub lfpos : ℕ
  pub lfname : List ℕ
  pub lfinum : ℤ
  pub lfiblock : Lfiblk
  pub lfdnum : ℤ
  pub lfdblock : ℕ → ℕ
  pub lfbyte : ℕ
  pub lfibdirty : Bool
  pub lfdbdirty : Bool

-- A disk: the bytes of its sectors, and the sectors for which a `read` or a `write` returns SYSERR
-- and changes nothing. What a buffer holds after a `read` that fails is arbitrary: the model takes
-- the bytes of the table for it.
pub record Disk : Type 0 where
  pub sectors : ℤ → ℕ → ℕ
  pub bad : ℤ → Bool

-- The disk and `struct lfdata`
pub record Lfdata : Type 0 where
  pub disk : Disk
  pub lf_dir : Lfdir
  pub lf_dirpresent : Bool
  pub lf_dirdirty : Bool

abbrev pub write_sector : ℤ → (ℕ → ℕ) → Disk → Disk
write_sector n bytes d = record d {
  sectors = λ x. if eqb_ℤ n x && not (d.bad n) then bytes else d.sectors x;
}

-- The four bytes of an integer, the low one first
abbrev pub get32 : (ℕ → ℕ) → ℕ → ℕ
get32 f o = f o + 256 * f (o + 1) + 65536 * f (o + 2) + 16777216 * f (o + 3)

abbrev pub byte_of : ℕ → ℕ → ℕ
byte_of w i =
    if i == 0
    then w % 256
    else if i == 1
    then w / 256 % 256
    else if i == 2
    then w / 65536 % 256
    else w / 16777216 % 256

-- `ib2sect` and `ib2disp`, for seven blocks of 72 bytes in a sector
abbrev pub ib2sect : ℤ → ℤ
ib2sect ib = quot_ℤ ib 7 +ℤ pos 1

-- The displacement as a `size_t`; a remainder below zero gives an access in front of the buffer.
abbrev pub ib2disp : ℤ → Option ℕ
ib2disp (pos ib) = some (ib % 7 * 72)
ib2disp (negsuc ib) = if (ib + 1) % 7 == 0 then some 0 else none

-- The words of a `struct lfiblk`, and its bytes
abbrev pub iblk_word : Lfiblk → ℕ → ℕ
iblk_word b w =
    if w == 0
    then uint_of 32 b.ib_next
    else if w == 1
    then b.ib_offset
    else uint_of 32 (b.ib_dba (w - 2))

abbrev pub iblk_byte : Lfiblk → ℕ → ℕ
iblk_byte b i = byte_of (iblk_word b (i / 4)) (i % 4)

unfoldable pub lfibclear : ℕ → Lfiblk
lfibclear offset = record { ib_next = lf_inull; ib_offset = offset; ib_dba = λ i. lf_dnull }

unfoldable pub lfibget : Disk → ℤ → Option Lfiblk
lfibget d inum = ib2disp inum >>= λ o.
    let from = d.sectors (ib2sect inum) in
    some (record {
      ib_next = int32_of (get32 from o);
      ib_offset = get32 from (o + 4);
      ib_dba = λ i. int32_of (get32 from (o + (8 + 4 * i)));
    })

unfoldable pub lfibput : Disk → ℤ → Lfiblk → Option (ℤ × Disk)
lfibput d inum b = ib2disp inum >>= λ o.
    let old = d.sectors (ib2sect inum) in
    let new = (λ (x : ℕ). if leb o x && ltb x (o + 72) then iblk_byte b (x - o) else old x) in
    if d.bad (ib2sect inum) then some (syserr, d) else some (ok, write_sector (ib2sect inum) new d)

-- `p[i]`; a name has `LF_NAME_LEN` bytes.
abbrev pub byte_at : List ℕ → ℕ → ℕ
byte_at [] i = 0
byte_at (c ∷ cs) zero = c
byte_at (c ∷ cs) (suc i) = byte_at cs i

-- The words of a `struct lfdir`, and the bytes of its sector
abbrev pub entry_byte : Ldentry → ℕ → ℕ
entry_byte e i =
    if ltb i 4
    then byte_of e.ld_size i
    else if ltb i 8
    then byte_of (uint_of 32 e.ld_ilist) (i - 4)
    else byte_at e.ld_name (i - 8)

abbrev pub dir_byte : Lfdir → ℕ → ℕ
dir_byte d i =
    if ltb i 4
    then byte_of (uint_of 32 d.lfd_dfree) i
    else if ltb i 8
    then byte_of (uint_of 32 d.lfd_ifree) (i - 4)
    else if ltb i 12
    then byte_of (uint_of 32 d.lfd_nfiles) (i - 8)
    else if ltb i 492
    then entry_byte (d.lfd_files ((i - 12) / 24)) ((i - 12) % 24)
    else 0

-- `write(Lf_data.lf_dskdev, (char *)&Lf_data.lf_dir, LF_AREA_DIR)`
abbrev pub write_dir : Lfdata → Lfdata
write_dir s = record s { disk = write_sector lf_area_dir (dir_byte s.lf_dir) s.disk }

unfoldable pub lfiballoc : Lfdata → Option (ℤ × Lfdata)
lfiballoc s =
    let ibnum = s.lf_dir.lfd_ifree in
    let take =
      (lfibget s.disk ibnum >>= λ b. some (
        ibnum,
        record (write_dir (record s { lf_dir = record s.lf_dir { lfd_ifree = b.ib_next } })) {
          lf_dirdirty = false;
        },
      )) in
    if eqb_ℤ ibnum lf_inull then none else take

-- The caller's buffer is filled with DFILL, which is 0.
unfoldable pub lfdballoc : Lfdata → Option (ℤ × (ℕ → ℕ) × Lfdata)
lfdballoc s =
    let dnum = s.lf_dir.lfd_dfree in
    let next = int32_of (get32 (s.disk.sectors dnum) 0) in
    if eqb_ℤ dnum lf_inull || s.disk.bad dnum
    then none
    else some (
      dnum,
      (λ i. 0),
      record (write_dir (record s { lf_dir = record s.lf_dir { lfd_dfree = next } })) {
        lf_dirdirty = false;
      },
    )

-- The bytes behind the link are those of an uninitialised buffer, `unset`.
unfoldable pub lfdbfree : (ℕ → ℕ) → ℤ → Lfdata → Lfdata
lfdbfree unset dnum s =
    let link = uint_of 32 s.lf_dir.lfd_dfree in
    let bytes = (λ (i : ℕ). if ltb i 4 then byte_of link i else unset i) in
    write_dir (record s {
      lf_dir = record s.lf_dir { lfd_dfree = dnum };
      disk = write_sector dnum bytes s.disk;
    })
