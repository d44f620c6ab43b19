-- ===== src/Device.antt =====
-- The device switch: Chapter14/conf.h, device.h, open.c, close.c, read.c, write.c, seek.c, getc.c,
-- putc.c, control.c, init.c, ioerr.c and ionull.c. A driver's functions act on a state `S`, which is
-- a parameter; a `char *` that a driver fills or reads is its address.
use os_design_xinu_approach.Prelude.{
  ℕ, Bool, not, ◌&&◌, Option, none, some, List, ltb, if◌then◌else◌, ℤ, pos, negsuc, ltb_ℤ, leb_ℤ,
  ◌>>=◌,
}
use os_design_xinu_approach.Queue.{syserr}
use os_design_xinu_approach.State.{ok, int32_of, uint_of}

-- `NDEVS`
abbrev pub ndevs : ℕ
ndevs = 24

abbrev pub isbaddev : ℤ → Bool
isbaddev f = not (leb_ℤ (pos 0) f && ltb_ℤ f (pos ndevs))

-- `struct dentry`: the name, the number and the functions of a device
pub record Dentry (S : Type 0) : Type 0 where
  pub dvname : List ℕ
  pub dvnum : ℤ
  pub dvinit : S → Option (ℤ × S)
  pub dvopen : List ℕ → List ℕ → S → Option (ℤ × S)
  pub dvclose : S → Option (ℤ × S)
  pub dvread : ℕ → ℕ → S → Option (ℤ × S)
  pub dvwrite : ℕ → ℕ → S → Option (ℤ × S)
  pub dvseek : ℤ → S → Option (ℤ × S)
  pub dvgetc : S → Option (ℤ × S)
  pub dvputc : ℤ → S → Option (ℤ × S)
  pub dvcntl : ℤ → ℤ → ℤ → S → Option (ℤ × S)

-- `devtab[descrp]`: `none` is a subscript outside the table.
abbrev pub dev_slot : ℤ → Option ℕ
dev_slot (pos d) = if ltb d ndevs then some d else none
dev_slot (negsuc d) = none

-- An `int64` that is passed as an `int32`
abbrev pub narrow : ℤ → ℤ
narrow z = int32_of (uint_of 32 z)

module _ {S : Type 0} (devtab : ℕ → Dentry S) where
  unfoldable pub init_dev : ℤ → S → Option (ℤ × S)
  init_dev descrp s =
      let call = (dev_slot descrp >>= λ d. (devtab d).dvinit s) in
      if isbaddev descrp then some (syserr, s) else call

  unfoldable pub open_dev : ℤ → List ℕ → List ℕ → S → Option (ℤ × S)
  open_dev descrp name mode s =
      let call = (dev_slot descrp >>= λ d. (devtab d).dvopen name mode s) in
      if isbaddev descrp then some (syserr, s) else call

  unfoldable pub close_dev : ℤ → S → Option (ℤ × S)
  close_dev descrp s =
      let call = (dev_slot descrp >>= λ d. (devtab d).dvclose s) in
      if isbaddev descrp then some (syserr, s) else call

  unfoldable pub read_dev : ℤ → ℕ → ℕ → S → Option (ℤ × S)
  read_dev descrp buffer count s =
      let call = (dev_slot descrp >>= λ d. (devtab d).dvread buffer count s) in
      if isbaddev descrp then some (syserr, s) else call

  unfoldable pub write_dev : ℤ → ℕ → ℕ → S → Option (ℤ × S)
  write_dev descrp buffer count s =
      let call = (dev_slot descrp >>= λ d. (devtab d).dvwrite buffer count s) in
      if isbaddev descrp then some (syserr, s) else call

  unfoldable pub seek_dev : ℤ → ℕ → S → Option (ℤ × S)
  seek_dev descrp offset s =
      let call = (dev_slot descrp >>= λ d. (devtab d).dvseek (int32_of offset) s) in
      if isbaddev descrp then some (syserr, s) else call

  unfoldable pub getc_dev : ℤ → S → Option (ℤ × S)
  getc_dev descrp s =
      let call = (dev_slot descrp >>= λ d. (devtab d).dvgetc s) in
      if isbaddev descrp then some (syserr, s) else call

  unfoldable pub putc_dev : ℤ → ℤ → S → Option (ℤ × S)
  putc_dev descrp ch s =
      let call = (dev_slot descrp >>= λ d. (devtab d).dvputc ch s) in
      if isbaddev descrp then some (syserr, s) else call

  unfoldable pub control_dev : ℤ → ℤ → ℤ → ℤ → S → Option (ℤ × S)
  control_dev descrp func arg1 arg2 s =
      let call =
        (dev_slot descrp >>= λ d. (devtab d).dvcntl (narrow func) (narrow arg1) (narrow arg2) s) in
      if isbaddev descrp then some (syserr, s) else call

-- The driver functions for what a device does not have, and for the null device
unfoldable pub ioerr : {S : Type 0} → S → Option (ℤ × S)
ioerr s = some (syserr, s)

unfoldable pub ionull : {S : Type 0} → S → Option (ℤ × S)
ionull s = some (ok, s)
