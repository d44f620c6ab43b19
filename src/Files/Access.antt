-- ===== src/Files/Access.antt =====
-- Reading and writing an open file: lfflush.c, lfsetup.c, lflgetc.c, lflputc.c, lflread.c, lflwrite.c,
-- lflseek.c and lflclose.c of Chapter19.
use os_design_xinu_approach.Prelude.{
  ℕ, zero, suc, ◌+◌, ◌*◌, ◌/◌, ◌%◌, ◌^◌, true, false, not, ◌||◌, Option, none, some, List, [], ◌∷◌,
  ◌++◌, ltb, leb, ◌==◌, if◌then◌else◌, length, ℤ, pos, pos_part, ltb_ℤ, eqb_ℤ, ◌>>=◌,
}
use os_design_xinu_approach.Queue.{syserr}
use os_design_xinu_approach.State.{ok}
use os_design_xinu_approach.Tty.Read.{eof}
use os_design_xinu_approach.Files.{
  lf_blksiz, lf_idata, lf_inull, lf_dnull, Ldentry, Lflcblk, Lfdata, write_sector, lfibclear,
  lfibget, lfibput, write_dir, lfiballoc, lfdballoc,
}

-- The data of the file system and the control block of one file
pub record Openfile : Type 0 where
  pub fs : Lfdata
  pub file : Lflcblk

abbrev pub with_file : Openfile → Lflcblk → Openfile
with_file s f = record s { file = f }

-- `*ldptr` of the file: `none` is NULL.
abbrev pub dir_entry : Openfile → Option Ldentry
dir_entry s = s.file.lfdirptr >>= λ i. some (s.fs.lf_dir.lfd_files i)

abbrev pub set_entry : Lfdata → ℕ → Ldentry → Lfdata
set_entry d i e = record d {
  lf_dir = record d.lf_dir { lfd_files = λ x. if i == x then e else d.lf_dir.lfd_files x };
}

-- The three parts of `lfflush`. The second clears the flag of the directory.
unfoldable pub flush_dir : Openfile → Openfile
flush_dir s =
    if s.fs.lf_dirdirty
    then record s { fs = record (write_dir s.fs) { lf_dirdirty = false } }
    else s

unfoldable pub flush_data : Openfile → Openfile
flush_data s =
    if s.file.lfdbdirty
    then record s {
      fs = record s.fs {
        disk = write_sector s.file.lfdnum s.file.lfdblock s.fs.disk;
        lf_dirdirty = false;
      };
    }
    else s

unfoldable pub flush_index : Openfile → Option Openfile
flush_index s =
    let put =
      (lfibput s.fs.disk s.file.lfinum s.file.lfiblock >>= λ (r, d).
      some
        (record s { fs = record s.fs { disk = d }; file = record s.file { lfibdirty = false } })) in
    if s.file.lfibdirty then put else some s

unfoldable pub lfflush : Openfile → Option (ℤ × Openfile)
lfflush s =
    let flush = (flush_index (flush_data (flush_dir s)) >>= λ s1. some (ok, s1)) in
    if s.file.lfused then flush else some (syserr, s)

-- The index block `ibnum` becomes the one in memory.
unfoldable pub load_index : ℤ → Openfile → Option Openfile
load_index ibnum s = lfibget s.fs.disk ibnum >>= λ b.
    some (with_file s (record s.file { lfiblock = b; lfinum = ibnum }))

-- No index block is in memory: the first one of the file, or a new one
unfoldable pub first_index : Openfile → Option Openfile
first_index s = do
  i ← s.file.lfdirptr
  let e = s.fs.lf_dir.lfd_files i
  let fresh = (do
    (ibnum, d) ← lfiballoc s.fs
    some (record {
      fs = set_entry d i (record (d.lf_dir.lfd_files i) { ld_ilist = ibnum });
      file = record s.file { lfiblock = lfibclear 0; lfibdirty = true; lfinum = ibnum };
    }))
  if eqb_ℤ e.ld_ilist lf_inull then fresh else load_index e.ld_ilist s

-- The choice before the loop of `lfsetup`
unfoldable pub start_index : Openfile → Option Openfile
start_index s =
    let rewind = (dir_entry s >>= λ e. load_index e.ld_ilist s) in
    if eqb_ℤ s.file.lfinum lf_inull
    then first_index s
    else if ltb s.file.lfpos s.file.lfiblock.ib_offset
    then rewind
    else some s

-- `lfpos & ~LF_IMASK` and `lfpos & LF_IMASK`; the mask is 8191, and `LF_DMASK` is the same.
abbrev pub index_base : ℕ → ℕ
index_base n = n / 8192 * 8192

abbrev pub index_rest : ℕ → ℕ
index_rest n = n % 8192

-- A new index block at the end of the file's list
unfoldable pub extend_index : Openfile → Option Openfile
extend_index s = do
  (ibnum, d) ← lfiballoc s.fs
  (r, disk) ← lfibput d.disk s.file.lfinum (record s.file.lfiblock { ib_next = ibnum })
  some (record {
    fs = record d { disk = disk };
    file = record s.file {
      lfinum = ibnum;
      lfiblock = lfibclear ((s.file.lfiblock.ib_offset + lf_idata) % 2 ^ 32);
      lfibdirty = true;
      lfdnum = lf_dnull;
    };
  })

-- The loop of `lfsetup`, on fuel
unfoldable pub seek_index : ℕ → Openfile → Option Openfile
seek_index zero s = none
seek_index (suc fuel) s =
    let next = s.file.lfiblock.ib_next in
    let load =
      (load_index next s >>= λ s1. some (with_file s1 (record s1.file { lfdnum = lf_dnull }))) in
    let step = (if eqb_ℤ next lf_inull then extend_index s else load) in
    let more = (step >>= λ s1. seek_index fuel s1) in
    if ltb s.file.lfiblock.ib_offset (index_base s.file.lfpos) then more else some s

-- The data block of the position
unfoldable pub load_data : Openfile → Option Openfile
load_data s =
    let dindex = index_rest s.file.lfpos / 512 in
    let dnum = s.file.lfiblock.ib_dba dindex in
    let b = s.file.lfiblock in
    let fresh = (do
      (new, bytes, d) ← lfdballoc s.fs
      some (record {
        fs = d;
        file = record s.file {
          lfdblock = bytes;
          lfiblock = record b { ib_dba = λ i. if dindex == i then new else b.ib_dba i };
          lfibdirty = true;
          lfdnum = new;
        };
      })) in
    if eqb_ℤ dnum lf_dnull
    then fresh
    else if eqb_ℤ dnum s.file.lfdnum
    then some s
    else some (
        with_file s
          (record s.file { lfdblock = s.fs.disk.sectors dnum; lfdbdirty = false; lfdnum = dnum }))

-- The fuel is the number of index blocks that a position of 32 bits can have, and one round more.
-- `lfbyte` is the position within the index block's data.
unfoldable pub lfsetup : Openfile → Option (ℤ × Openfile)
lfsetup s = do
  s1 ← (if s.file.lfibdirty || s.file.lfdbdirty then (lfflush s >>= λ (r, t). some t) else some s)
  s2 ← start_index s1
  s3 ← seek_index (2 ^ 19 + 1) s2
  s4 ← load_data s3
  some (ok, with_file s4 (record s4.file { lfbyte = index_rest s4.file.lfpos }))

-- `lfsetup` where the byte pointer is behind the block
unfoldable pub at_byte : Openfile → Option Openfile
at_byte s =
    let setup = (lfsetup s >>= λ (r, s1). some s1) in
    if leb lf_blksiz s.file.lfbyte then setup else some s

-- `lflgetc`, whose definition is spelled `lflget`
unfoldable pub lflgetc : Openfile → Option (ℤ × Openfile)
lflgetc s = if not s.file.lfused then some (syserr, s) else do
  e ← dir_entry s
  let read = (do
    s1 ← at_byte s
    let i = s1.file.lfbyte
    let byte = s1.file.lfdblock i
    let s2 = with_file s1 (record s1.file { lfbyte = i + 1; lfpos = (s1.file.lfpos + 1) % 2 ^ 32 })
    if leb lf_blksiz i then none else some (pos byte, s2))
  if leb e.ld_size s.file.lfpos then some (eof, s) else read

-- The end of `lflputc`
unfoldable pub put_byte : ℕ → Openfile → Option (ℤ × Openfile)
put_byte ch s =
    let i = s.file.lfbyte in
    let s1 = with_file s (record s.file {
      lfdblock = λ x. if i == x then ch else s.file.lfdblock x;
      lfbyte = i + 1;
      lfpos = (s.file.lfpos + 1) % 2 ^ 32;
      lfdbdirty = true;
    }) in
    if leb lf_blksiz i then none else some (ok, s1)

-- The size of a file that gets a byte at its end
unfoldable pub grow : Openfile → Option Openfile
grow s = do
  i ← s.file.lfdirptr
  let e = s.fs.lf_dir.lfd_files i
  let larger = set_entry s.fs i (record e { ld_size = (e.ld_size + 1) % 2 ^ 32 })
  if leb e.ld_size s.file.lfpos
      then some (record s { fs = record larger { lf_dirdirty = true } })
      else some s

unfoldable pub lflputc : ℕ → Openfile → Option (ℤ × Openfile)
lflputc ch s = if not s.file.lfused then some (syserr, s) else do
  e ← dir_entry s
  let write = (do s1 ← at_byte s; s2 ← grow s1; put_byte ch s2)
  if leb e.ld_size s.file.lfpos then some (syserr, s) else write

-- The loop of `lflread`, by the bytes that are left to read
unfoldable pub read_bytes : ℕ → List ℕ → Openfile → Option (ℤ × List ℕ × Openfile)
read_bytes zero bytes s = some (pos (length bytes), bytes, s)
read_bytes (suc left) bytes s = do
  (r, s1) ← lflgetc s
  let next = read_bytes left (bytes ++ pos_part r % 256 ∷ []) s1
  if eqb_ℤ r syserr
      then some (syserr, bytes, s1)
      else if eqb_ℤ r eof
      then (if length bytes == 0
          then some (eof, bytes, s1)
          else some (pos (length bytes), bytes, s1))
      else next

-- The bytes for the caller's buffer are returned too.
unfoldable pub lflread : ℤ → Openfile → Option (ℤ × List ℕ × Openfile)
lflread count s =
    if ltb_ℤ count (pos 0) then some (syserr, [], s) else read_bytes (pos_part count) [] s

-- The loop of `lflwrite`, by the bytes that are left to write. `bytes` are those of the caller's
-- buffer.
unfoldable pub write_bytes : ℕ → ℤ → List ℕ → Openfile → Option (ℤ × Openfile)
write_bytes zero count bytes s = some (count, s)
write_bytes (suc left) count [] s = none
write_bytes (suc left) count (ch ∷ bytes) s = do
  (r, s1) ← lflputc ch s
  let next = write_bytes left count bytes s1
  if eqb_ℤ r syserr then some (syserr, s1) else next

unfoldable pub lflwrite : ℤ → List ℕ → Openfile → Option (ℤ × Openfile)
lflwrite count bytes s =
    if ltb_ℤ count (pos 0) then some (syserr, s) else write_bytes (pos_part count) count bytes s

unfoldable pub lflseek : ℕ → Openfile → Option (ℤ × Openfile)
lflseek offset s = if not s.file.lfused then some (syserr, s) else do
  e ← dir_entry s
  if ltb e.ld_size offset
      then some (syserr, s)
      else some (ok, with_file s (record s.file { lfpos = offset; lfbyte = lf_blksiz }))

unfoldable pub lflclose : Openfile → Option (ℤ × Openfile)
lflclose s = if not s.file.lfused then some (syserr, s) else do
  s1 ←
      (if s.fs.lf_dirdirty || s.file.lfdbdirty || s.file.lfibdirty
        then (lfflush s >>= λ (r, t). some t)
        else some s)
  some (ok, with_file s1 (record s1.file { lfused = false }))
