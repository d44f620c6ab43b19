-- ===== src/Files/Open.antt =====
-- Opening a file: lfgetmode.c and lfsopen.c of Chapter19. A mode string and a name are the bytes
-- up to the end of their arrays.
use Prim.Native.Nat.{bit_and, bit_or}
use os_design_xinu_approach.Prelude.{
  ℕ, zero, suc, ◌+◌, ◌-◌, ◌*◌, Bool, true, false, not, ◌||◌, Option, none, some, List, [], ◌∷◌,
  ◌++◌, ltb, ◌==◌, if◌then◌else◌, length, ℤ, pos, pos_part, ◌+ℤ◌, ltb_ℤ, leb_ℤ, eqb_ℤ, ◌>>=◌,
}
use os_design_xinu_approach.Queue.{syserr}
use os_design_xinu_approach.State.{int32_of}
use os_design_xinu_approach.Files.{
  lf_blksiz, lf_name_len, lf_num_dir_ent, lf_area_dir, lf_inull, lf_dnull, Ldentry, Lfdir, Lflcblk,
  Lfdata, get32, byte_at,
}

-- `LF_MODE_R` … `LF_MODE_N`: lfilesys.h is included after file.h, so its values count.
abbrev pub lf_mode_r : ℕ
lf_mode_r = 0

abbrev pub lf_mode_w : ℕ
lf_mode_w = 1

abbrev pub lf_mode_rw : ℕ
lf_mode_rw = 2

abbrev pub lf_mode_o : ℕ
lf_mode_o = 3

abbrev pub lf_mode_n : ℕ
lf_mode_n = 4

-- `mbits & mask`, as a test
abbrev pub has_bits : ℕ → ℕ → Bool
has_bits mbits mask = not (bit_and mbits mask == 0)

-- `mbits` after one character, or SYSERR as `none`
abbrev pub add_mode : ℕ → ℕ → Option ℕ
add_mode ch mbits =
    if ch == 114
    then (if has_bits mbits lf_mode_r then none else some (bit_or mbits lf_mode_r))
    else if ch == 119
    then (if has_bits mbits lf_mode_w then none else some (bit_or mbits lf_mode_w))
    else if ch == 111
    then (if has_bits mbits lf_mode_o || has_bits mbits lf_mode_n
        then none
        else some (bit_or mbits lf_mode_o))
    else if ch == 110
    then (if has_bits mbits lf_mode_o || has_bits mbits lf_mode_n
        then none
        else some (bit_or mbits lf_mode_n))
    else none

abbrev pub end_mode : ℕ → ℕ
end_mode mbits = if has_bits mbits lf_mode_rw then mbits else bit_or mbits lf_mode_rw

-- The loop of `lfgetmode`
unfoldable pub mode_loop : List ℕ → ℕ → Option ℤ
mode_loop [] mbits = none
mode_loop (ch ∷ mode) mbits =
    let next : Option ℤ = elim (add_mode ch mbits) [
      | none ↦ some syserr
      | some mbits' ↦ mode_loop mode mbits'
    ] in
    if ch == 0 then some (pos (end_mode mbits)) else next

unfoldable pub lfgetmode : List ℕ → Option ℤ
lfgetmode mode = mode_loop mode 0

-- The file system with the control blocks of its `Nlfl` files
pub record Filesystem : Type 0 where
  pub fs : Lfdata
  pub lfltab : ℕ → Lflcblk

abbrev pub nlfl : ℕ
nlfl = 6

-- `i >= LF_NAME_LEN` after the search for the end of the name, by the rounds that are left
unfoldable pub too_long : ℕ → List ℕ → Option Bool
too_long zero name = some true
too_long (suc rounds) [] = none
too_long (suc rounds) (c ∷ name) =
    let rest = too_long rounds name in if c == 0 then some false else rest

-- The comparison of a name with that of an open file. The bytes are compared with the first byte of
-- the name.
unfoldable pub same_open : ℕ → List ℕ → List ℕ → Option Bool
same_open first [] cmp = none
same_open first (n ∷ nam) [] = none
same_open first (n ∷ nam) (c ∷ cmp) =
    let rest = same_open first nam cmp in
    if n == 0 then some (c == 0) else if first == c then rest else some false

-- The comparison with a name of the directory
unfoldable pub same_name : List ℕ → List ℕ → Option Bool
same_name [] cmp = none
same_name (n ∷ nam) [] = none
same_name (n ∷ nam) (c ∷ cmp) =
    let rest = same_name nam cmp in
    if n == 0 then some (c == 0) else if n == c then rest else some false

-- The search for a free control block, by the rounds that are left: `none` inside is the return of
-- SYSERR since the file is open.
unfoldable pub find_free : ℕ → ℕ → ℤ → List ℕ → (ℕ → Lflcblk) → Option (Option ℤ)
find_free zero i lfnext name tab = some (some lfnext)
find_free (suc rounds) i lfnext name tab =
    let free = find_free rounds (i + 1) (if eqb_ℤ lfnext syserr then pos i else lfnext) name tab in
    let used =
      (same_open (byte_at name 0) name (tab i).lfname >>= λ same.
      let rest = find_free rounds (i + 1) lfnext name tab in if same then some none else rest) in
    if (tab i).lfused then used else free

-- The search of the directory, by the entries that are left: the place of the entry
unfoldable pub find_file : ℕ → ℕ → List ℕ → Lfdir → Option (Option ℕ)
find_file zero i name d = some none
find_file (suc left) i name d =
    let rest = find_file left (i + 1) name d in
    let next =
      (same_name name (d.lfd_files i).ld_name >>= λ same. if same then some (some i) else rest) in
    if ltb i lf_num_dir_ent then next else none

-- The fields of a directory from the bytes of its sector
abbrev pub bytes_from : (ℕ → ℕ) → ℕ → ℕ → List ℕ
bytes_from f o zero = []
bytes_from f o (suc n) = f o ∷ bytes_from f (o + 1) n

abbrev pub get_dir : (ℕ → ℕ) → Lfdir
get_dir f = record {
  lfd_dfree = int32_of (get32 f 0);
  lfd_ifree = int32_of (get32 f 4);
  lfd_nfiles = int32_of (get32 f 8);
  lfd_files = λ i. record {
    ld_size = get32 f (12 + 24 * i);
    ld_ilist = int32_of (get32 f (12 + 24 * i + 4));
    ld_name = bytes_from f (12 + 24 * i + 8) lf_name_len;
  };
}

-- The directory is read where it is not in memory: `none` inside is SYSERR.
unfoldable pub need_dir : Lfdata → Option Lfdata
need_dir d =
    if d.lf_dirpresent
    then some d
    else if d.disk.bad lf_area_dir
    then none
    else some (record d { lf_dir = get_dir (d.disk.sectors lf_area_dir); lf_dirpresent = true })

-- The bytes up to the null byte
abbrev pub text_of : List ℕ → List ℕ
text_of [] = []
text_of (c ∷ cs) = if c == 0 then [] else c ∷ text_of cs

-- A new entry of the directory, with the name copied once
unfoldable pub new_entry_of : List ℕ → Lfdata → Option (ℕ × Lfdata)
new_entry_of name d =
    let n = pos_part d.lf_dir.lfd_nfiles in
    let text = text_of name in
    let e : Ldentry = record {
      ld_size = 0;
      ld_ilist = lf_inull;
      ld_name =
          text
          ++ 0
            ∷ bytes_from (byte_at (d.lf_dir.lfd_files n).ld_name) (length text + 1)
                (lf_name_len - length text - 1);
    } in
    let dir = record d.lf_dir {
      lfd_nfiles = d.lf_dir.lfd_nfiles +ℤ pos 1;
      lfd_files = λ x. if n == x then e else d.lf_dir.lfd_files x;
    } in
    if ltb_ℤ d.lf_dir.lfd_nfiles (pos 0) then none else some (n, record d { lf_dir = dir })

-- The name is copied to where `to` points, behind the first copy: `none` where it does not fit into
-- the entry's name.
unfoldable pub copy_behind : ℕ → List ℕ → Lfdata → Option Lfdata
copy_behind n name d =
    let text = text_of name in
    let e = d.lf_dir.lfd_files n in
    let k = length text + 1 in
    let twice =
      text ++ 0 ∷ text ++ 0 ∷ bytes_from (byte_at e.ld_name) (k + k) (lf_name_len - k - k) in
    if ltb lf_name_len (k + k)
    then none
    else some (record d {
      lf_dir = record d.lf_dir {
        lfd_files = λ x. if n == x then record e { ld_name = twice } else d.lf_dir.lfd_files x;
      };
    })

-- The control block of the file that is opened
unfoldable pub open_block : ℕ → ℕ → Lflcblk → Lflcblk
open_block n mbits f = record f {
  lfused = true;
  lfdirptr = some n;
  lfmode = bit_and mbits lf_mode_rw;
  lfpos = 0;
  lfinum = lf_inull;
  lfdnum = lf_dnull;
  lfbyte = lf_blksiz;
  lfibdirty = false;
  lfdbdirty = false;
}

-- A file is made that was not in the directory.
unfoldable pub open_new : ℕ → ℕ → List ℕ → Filesystem → Option (ℤ × Filesystem)
open_new lfnext mbits name s = do
  (n, d) ← new_entry_of name s.fs
  d' ← copy_behind n name d
  let f = open_block n mbits (s.lfltab lfnext)
  some (f.lfdev, record { fs = d'; lfltab = λ x. if lfnext == x then f else s.lfltab x })

-- `lfsopen` after the search of the directory. For a file that exists the copy of the name goes
-- through a pointer that was never set.
unfoldable pub open_case : ℕ → ℕ → List ℕ → Filesystem → Option ℕ → Option (ℤ × Filesystem)
open_case lfnext mbits name s none =
    if has_bits mbits lf_mode_o || leb_ℤ (pos lf_num_dir_ent) s.fs.lf_dir.lfd_nfiles
    then some (syserr, s)
    else open_new lfnext mbits name s
open_case lfnext mbits name s (some i) = if has_bits mbits lf_mode_n then some (syserr, s) else none

-- `lfsopen` once the directory is there
unfoldable pub open_found : ℕ → ℕ → List ℕ → Filesystem → Option (ℤ × Filesystem)
open_found lfnext mbits name s =
    find_file (pos_part s.fs.lf_dir.lfd_nfiles) 0 name s.fs.lf_dir >>= open_case lfnext mbits name s

-- `lfsopen` once it has a free control block
unfoldable pub open_slave : ℕ → ℕ → List ℕ → Filesystem → Option (ℤ × Filesystem)
open_slave lfnext mbits name s = elim (need_dir s.fs) [
  | none ↦ some (syserr, s)
  | some d ↦ open_found lfnext mbits name (record s { fs = d })
]

-- `lfsopen` after the search for a free control block
unfoldable pub open_with : ℕ → List ℕ → Filesystem → Option ℤ → Option (ℤ × Filesystem)
open_with mbits name s none = some (syserr, s)
open_with mbits name s (some lfnext) =
    if eqb_ℤ lfnext syserr then some (syserr, s) else open_slave (pos_part lfnext) mbits name s

-- `lfsopen` once it has the mode
unfoldable pub open_mode : ℕ → List ℕ → Filesystem → Option (ℤ × Filesystem)
open_mode mbits name s = find_free nlfl 0 syserr name s.lfltab >>= open_with mbits name s

unfoldable pub lfsopen : List ℕ → List ℕ → Filesystem → Option (ℤ × Filesystem)
lfsopen name mode s = do
  long ← too_long lf_name_len name
  let rest =
      (lfgetmode mode >>= λ mbits.
      if eqb_ℤ mbits syserr then some (syserr, s) else open_mode (pos_part mbits) name s)
  if long then some (syserr, s) else rest
