-- ===== src/Files/Tests.antt =====
-- Tests of the local file system, and its theorems at a small disk.
use os_design_xinu_approach.Prelude.{
  ◌≡◌, refl, true, false, none, some, [], ◌∷◌, arith, ◌==◌, if◌then◌else◌, pos, ◌>>=◌, Runs,
}
use os_design_xinu_approach.Queue.{syserr}
use os_design_xinu_approach.State.{ok}
use os_design_xinu_approach.Files.{
  lf_blksiz, lf_inull, lf_dnull, Lfiblk, Lfdir, Lflcblk, Disk, lfibget, lfibput,
}
use os_design_xinu_approach.Files.Layout.{Fits, SameBlock, lfibput-lfibget}
use os_design_xinu_approach.Files.Access.{
  Openfile, with_file, at_byte, put_byte, grow, lflputc, write_bytes, lflwrite,
}
use os_design_xinu_approach.Files.Open.{
  mode_loop, lfgetmode, Filesystem, too_long, same_name, find_free, find_file, need_dir, open_case,
  open_found, open_slave, open_with, open_mode, lfsopen,
}
use os_design_xinu_approach.Files.Make.{zero_dir}

abbrev blank : Disk
blank = record { sectors = λ z x. 0; bad = λ z. false }

-- The second index block of a file
abbrev second : Lfiblk
second = record {
  ib_next = lf_inull;
  ib_offset = 8192;
  ib_dba = λ i. if i == 0 then pos 9 else lf_dnull;
}

second-Fits : Fits second
second-Fits = record {
  next = (omega arith, omega arith);
  offset = omega arith;
  blocks = λ i. ground arith;
}

lfibput-lfibget_example : Runs (lfibput blank (pos 8) second) λ (r, d').
    (r ≡ ok)
    × Runs (lfibget d' (pos 8)) (λ b'. SameBlock second b')
    × Runs
        (lfibget blank (pos 9) >>= λ c. lfibget d' (pos 9) >>= λ c'. some (c, c'))
        λ (c, c'). SameBlock c c'
lfibput-lfibget_example =
    lfibput-lfibget blank 8 9 second second-Fits refl (λ e. absurd (omega (arith, e)))

abbrev unused_file : Lflcblk
unused_file = record {
  lfused = false;
  lfdev = pos 11;
  lfdirptr = none;
  lfmode = 0;
  lfpos = 0;
  lfname = 0 ∷ 0 ∷ 0 ∷ 0 ∷ 0 ∷ 0 ∷ 0 ∷ 0 ∷ 0 ∷ 0 ∷ 0 ∷ 0 ∷ 0 ∷ 0 ∷ 0 ∷ 0 ∷ [];
  lfinum = lf_inull;
  lfiblock = second;
  lfdnum = pos 0;
  lfdblock = λ i. 0;
  lfbyte = lf_blksiz;
  lfibdirty = false;
  lfdbdirty = false;
}

-- The first file of the directory has three bytes.
abbrev small_dir : Lfdir
small_dir = record zero_dir {
  lfd_nfiles = pos 1;
  lfd_files = λ i. record (zero_dir.lfd_files i) { ld_size = if i == 0 then 3 else 0 };
}

-- The file is open at its second byte, in its first block.
abbrev opened : Openfile
opened = record {
  fs = record { disk = blank; lf_dir = small_dir; lf_dirpresent = true; lf_dirdirty = false };
  file = record unused_file {
    lfused = true;
    lfdirptr = some 0;
    lfpos = 1;
    lfinum = pos 0;
    lfiblock = record second { ib_offset = 0 };
    lfdnum = pos 9;
    lfbyte = 1;
  };
}

-- The file after the first of the bytes 65 and 66, and after both
abbrev one_written : Openfile
one_written = with_file opened (record opened.file {
  lfdblock = λ x. if 1 == x then 65 else 0;
  lfbyte = 2;
  lfpos = 2;
  lfdbdirty = true;
})

abbrev both_written : Openfile
both_written = with_file opened (record opened.file {
  lfdblock = λ x. if 2 == x then 66 else one_written.file.lfdblock x;
  lfbyte = 3;
  lfpos = 3;
  lfdbdirty = true;
})

write_both : lflwrite (pos 2) (65 ∷ 66 ∷ []) opened ≡ some (pos 2, both_written)
unfolding lflwrite write_bytes lflputc at_byte grow put_byte
write_both = refl

-- The third byte is refused: the file has three.
write_past : lflputc 67 both_written ≡ some (syserr, both_written)
unfolding lflputc
write_past = refl

abbrev closed_files : Filesystem
closed_files = record { fs = opened.fs; lfltab = λ i. unused_file }

-- The file `b` is opened to be made, with the mode `n`.
open_b : lfsopen (98 ∷ 0 ∷ []) (110 ∷ 0 ∷ []) closed_files ≡ some (syserr, closed_files)
unfolding lfsopen too_long lfgetmode mode_loop open_mode find_free open_with open_slave need_dir
    open_found find_file open_case same_name
open_b = refl
