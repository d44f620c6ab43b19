-- ===== src/Names.antt =====
-- The name space: Chapter21/name.h, mount.c and nammap.c. A `char *` is the list of the bytes from
-- the pointer to the end of its array; `none` is an access behind that end.
pub mod Strings
mod Tests
use os_design_xinu_approach.Device.{isbaddev, open_dev}
use os_design_xinu_approach.Prelude.{
  ℕ, zero, suc, ◌+◌, ◌-◌, ◌&&◌, ◌||◌, Option, none, some, List, [], ◌∷◌, ◌++◌, leb, ◌==◌,
  if◌then◌else◌, length, take, ℤ, pos, pos_part, ◌+ℤ◌, ◌-ℤ◌, ltb_ℤ, eqb_ℤ, ◌>>=◌,
}
use os_design_xinu_approach.Queue.{syserr}
use os_design_xinu_approach.State.{ok}

-- `NM_PRELEN`, `NM_REPLLEN`, `NM_MAXLEN` and `NNAMES`
abbrev pub nm_prelen : ℕ
nm_prelen = 64

abbrev pub nm_repllen : ℕ
nm_repllen = 96

abbrev pub nm_maxlen : ℕ
nm_maxlen = 256

abbrev pub nnames_max : ℕ
nnames_max = 40

-- `struct nmentry`
pub record Nmentry : Type 0 where
  pub nprefix : List ℕ
  pub nreplace : List ℕ
  pub ndevice : ℤ

-- The loop of `namlen` at the index `i`, by the rounds that are left.
unfoldable pub namlen_loop : ℕ → List ℕ → ℕ → Option ℤ
namlen_loop zero name i = some syserr
namlen_loop (suc rounds) [] i = none
namlen_loop (suc rounds) (c ∷ name) i =
    let rest = namlen_loop rounds name (i + 1) in if c == 0 then some (pos (i + 1)) else rest

unfoldable pub namlen : List ℕ → ℕ → Option ℤ
unfolding namlen_loop
namlen name maxlen = namlen_loop maxlen name 0

-- `*nptr++ = *optr++` for `n` bytes
unfoldable pub copy_bytes : ℕ → List ℕ → List ℕ → Option (List ℕ)
copy_bytes zero from to = some to
copy_bytes (suc n) (c ∷ from) (d ∷ to) = copy_bytes n from to >>= λ rest. some (c ∷ rest)
copy_bytes (suc n) _ _ = none

-- The bytes behind the first `n`
unfoldable pub skip : ℕ → List ℕ → List ℕ
skip zero cs = cs
skip (suc n) [] = []
skip (suc n) (c ∷ cs) = skip n cs

unfoldable pub namcpy : List ℕ → List ℕ → ℕ → Option (ℤ × List ℕ)
namcpy newname oldname zero = some (syserr, newname)
namcpy (d ∷ newname) (c ∷ oldname) (suc cnt) =
    let rest = (namcpy newname oldname cnt >>= λ (r, copied). some (r, c ∷ copied)) in
    if c == 0 then some (ok, 0 ∷ newname) else rest
namcpy _ _ (suc cnt) = none

-- The entries of `nametab` in use, `nnames` in number. An entry has the bytes that were
-- copied; `namlen` has read all of them.
unfoldable pub mount : List ℕ → List ℕ → ℤ → List Nmentry → Option (ℤ × List Nmentry)
mount prefix replace device nametab = do
  psiz ← namlen prefix nm_prelen
  rsiz ← namlen replace nm_repllen
  if eqb_ℤ psiz syserr || eqb_ℤ rsiz syserr || isbaddev device || leb nnames_max (length nametab)
      then some (syserr, nametab)
      else some (
        ok,
        nametab
            ++ record {
              nprefix = take (pos_part psiz) prefix;
              nreplace = take (pos_part rsiz) replace;
              ndevice = device;
            }
              ∷ [],
      )

-- The comparison with one prefix: `*pptr`, `optr` and `plen` where it ends.
unfoldable pub match_prefix : List ℕ → List ℕ → ℕ → Option (ℕ × List ℕ × ℕ)
match_prefix [] name plen = none
match_prefix (p ∷ prefix) [] plen = if p == 0 then some (0, [], plen) else none
match_prefix (p ∷ prefix) (c ∷ name) plen =
    let rest = match_prefix prefix name (plen + 1) in
    if p == 0 then some (0, c ∷ name, plen) else if p == c then rest else some (p, c ∷ name, plen)

-- `olen` is a `char`: how a compiler converts a number to that type is a parameter.
module _ (char_of : ℤ → ℤ) where
  -- The body of the loop of `namrepl` behind the comparison.
  unfoldable pub substitute : Nmentry → List ℕ → List ℕ → ℕ → List ℕ → Option (ℤ × List ℕ)
  substitute e name optr plen newname = do
    len ← namlen name nm_maxlen
    rsiz ← namlen e.nreplace nm_maxlen
    let rlen = rsiz -ℤ pos 1
    let remain = char_of len -ℤ pos plen
    if ltb_ℤ (pos nm_maxlen) (rlen +ℤ remain) then some (syserr, newname) else do
      head ← copy_bytes (pos_part rlen) e.nreplace newname
      let front = take (pos_part rlen) head
      back ← copy_bytes (pos_part remain) optr (skip (pos_part rlen) head)
      some (e.ndevice, front ++ back)

  unfoldable pub namrepl : List Nmentry → List ℕ → List ℕ → Option (ℤ × List ℕ)
  namrepl [] name newname = some (syserr, newname)
  namrepl (e ∷ entries) name newname = match_prefix e.nprefix name 0 >>= λ (p, optr, plen).
      let next = namrepl entries name newname in
      if p == 0 then substitute e name optr plen newname else next

  -- The loop of `nammap`, by the rounds that are left. `tmpname` is not read after the copy at the
  -- end, whose result is not looked at.
  unfoldable pub nammap_loop : ℕ → List Nmentry → List ℕ → List ℕ → ℤ → Option (ℤ × List ℕ)
  nammap_loop zero nametab tmpname newname namdev = some (syserr, newname)
  nammap_loop (suc rounds) nametab tmpname newname namdev =
      namrepl nametab tmpname newname >>= λ (newdev, newname').
      let next = nammap_loop rounds nametab tmpname newname' namdev in
      let back = (namcpy tmpname newname' nm_maxlen >>= λ (r, tmp). some (newdev, newname')) in
      if eqb_ℤ newdev namdev then next else back

  -- `tmpname` is a local array: its first contents are an argument.
  unfoldable pub nammap : List Nmentry → List ℕ → List ℕ → List ℕ → ℤ → Option (ℤ × List ℕ)
  nammap nametab tmpname name newname namdev = namcpy tmpname name nm_maxlen >>= λ (r, tmp).
      let map = nammap_loop (length nametab) nametab tmp newname namdev in
      if eqb_ℤ r syserr then some (syserr, newname) else map

  -- `open` of Chapter14 is a parameter, and so are the local arrays.
  unfoldable pub namopen :
      {S : Type 0}
      → (ℤ → List ℕ → S → Option (ℤ × S))
      → List Nmentry
      → List ℕ
      → List ℕ
      → ℤ
      → List ℕ
      → S
      → Option (ℤ × S)
  namopen open_dev nametab tmpname newname dvnum name s =
      nammap nametab tmpname name newname dvnum >>= λ (newdev, newname').
      let opened = open_dev newdev newname' s in
      if eqb_ℤ newdev syserr then some (syserr, s) else opened

-- `ch += 'a' - 'A'` for an upper-case letter
abbrev pub lower : ℕ → ℕ
lower c = if leb 65 c && leb c 90 then c + 32 else c

-- The loop of `naminit` that appends a device's name, by the rounds that are left. A name that
-- fills `tmpstr` stays without a null byte.
unfoldable pub append_name : ℕ → List ℕ → Option (List ℕ)
append_name zero name = some []
append_name (suc rounds) [] = none
append_name (suc rounds) (c ∷ name) =
    let rest = (append_name rounds name >>= λ cs. some (lower c ∷ cs)) in
    if lower c == 0 then some (0 ∷ []) else rest

-- `"/dev/"` without its null byte
abbrev pub devprefix : List ℕ
devprefix = 47 ∷ 100 ∷ 101 ∷ 118 ∷ 47 ∷ []

-- The loop of `naminit` over the devices, each one its name and number.
unfoldable pub mount_devices : List (List ℕ × ℤ) → List Nmentry → Option (List Nmentry)
mount_devices [] nametab = some nametab
mount_devices ((name, dvnum) ∷ devs) nametab = do
  cs ← append_name (nm_maxlen - 6) name
  (r, nametab') ← mount (devprefix ++ cs) (0 ∷ []) dvnum nametab
  mount_devices devs nametab'

-- The mounts at the end of `naminit`, as a list of arguments.
unfoldable pub mount_all : List (List ℕ × List ℕ × ℤ) → List Nmentry → Option (List Nmentry)
mount_all [] nametab = some nametab
mount_all ((prefix, replace, device) ∷ more) nametab =
    mount prefix replace device nametab >>= λ (r, nametab'). mount_all more nametab'

-- The devices of the build's configuration are parameters.
abbrev pub prefixes : ℤ → ℤ → ℤ → List (List ℕ × List ℕ × ℤ)
prefixes nulldev rfilesys lfilesys =
    (devprefix ++ 110 ∷ 117 ∷ 108 ∷ 108 ∷ 0 ∷ [], 0 ∷ [], nulldev)
    ∷ (
      47 ∷ 114 ∷ 101 ∷ 109 ∷ 111 ∷ 116 ∷ 101 ∷ 47 ∷ 0 ∷ [],
      114 ∷ 101 ∷ 109 ∷ 111 ∷ 116 ∷ 101 ∷ 58 ∷ 0 ∷ [],
      rfilesys,
    )
    ∷ (47 ∷ 108 ∷ 111 ∷ 99 ∷ 97 ∷ 108 ∷ 47 ∷ 0 ∷ [], 0 ∷ [], lfilesys)
    ∷ (devprefix ++ 0 ∷ [], 0 ∷ [], syserr)
    ∷ (126 ∷ 47 ∷ 0 ∷ [], 0 ∷ [], lfilesys)
    ∷ (47 ∷ 0 ∷ [], 114 ∷ 111 ∷ 111 ∷ 116 ∷ 58 ∷ 0 ∷ [], rfilesys)
    ∷ (0 ∷ [], 0 ∷ [], lfilesys)
    ∷ []

unfoldable pub naminit : List (List ℕ × ℤ) → ℤ → ℤ → ℤ → Option (ℤ × List Nmentry)
unfolding mount_devices mount_all
naminit devtab nulldev rfilesys lfilesys = do
  nametab ← mount_devices devtab []
  nametab' ← mount_all (prefixes nulldev rfilesys lfilesys) nametab
  some (ok, nametab')
