-- ===== src/Tty/Read.antt =====
-- The upper half of the terminal driver for input and control: ttygetc.c, ttyread.c, ttycontrol.c and
-- ttyinit.c of Chapter15.
use os_design_xinu_approach.Prelude.{
  ℕ, zero, suc, ◌-◌, Bool, true, false, not, ◌&&◌, Option, some, List, [], ◌∷◌, ◌++◌, ◌==◌,
  if◌then◌else◌, length, ℤ, pos, negsuc, eqb_ℤ, ◌>>=◌,
}
use os_design_xinu_approach.Queue.{syserr}
use os_design_xinu_approach.State.{ok, same_process}
use os_design_xinu_approach.Semaphore.{semcount, semcreate, wait, signal}
use os_design_xinu_approach.Tty.{
  ty_ibuflen, ty_obuflen, Inputmode, ty_imraw, ty_imcooked, ty_imcbreak, Console, ty_backsp,
  ty_backsp2, ty_bell, ty_eofch, ty_newline, ty_return, ty_stopch, ty_strtch, ty_killch, load_char,
  advance, ttykickout,
}
use os_design_xinu_approach.Tty.Input.{available, with_kernel, with_tty}

-- `EOF`
abbrev pub eof : ℤ
eof = negsuc 1

-- A call has its result, or it waits and goes on with `ttygetc_rest`.
pub data CharCall : Type 0 where
  got : ℤ → Console → CharCall
  blocked : Console → CharCall

abbrev pub is_cooked : Inputmode → Bool
is_cooked ty_imcooked = true
is_cooked _ = false

-- `ttygetc` after `wait`
unfoldable pub ttygetc_rest : Console → Option (ℤ × Console)
ttygetc_rest c = do
  ch ← load_char ty_ibuflen c.tty.tyibuff c.tty.tyihead
  let c1 = with_tty c (record c.tty { tyihead = advance ty_ibuflen c.tty.tyihead })
  if is_cooked c.tty.tyimode && c.tty.tyeof && eqb_ℤ ch c.tty.tyeofch
      then some (eof, c1)
      else some (ch, c1)

unfoldable pub ttygetc : Console → Option CharCall
ttygetc c = do
  (r, k) ← wait c.tty.tyisem c.kernel
  let c1 = with_kernel c k
  let next = (ttygetc_rest c1 >>= λ (ch, c2). some (got ch c2))
  if same_process c.kernel k then next else some (blocked c1)

-- `ttyread` has returned a result and the characters for the caller's buffer, or it waits: then it
-- has these characters and goes on with the character that it waits for, up to `left` in all.
pub data ReadCall : Type 0 where
  finished : ℤ → List ℤ → Console → ReadCall
  suspended : (so_far : List ℤ) → (left : ℕ) → Console → ReadCall

-- The loop outside cooked mode, by the characters that are left to read
unfoldable pub read_raw : (ℤ → ℤ) → ℕ → ℕ → List ℤ → Console → Option ReadCall
read_raw char_of count zero chs c = some (finished (pos count) chs c)
read_raw char_of count (suc left) chs c = ttygetc c >>= λ r. elim r [
  | got ch c1 ↦ read_raw char_of count left (chs ++ char_of ch ∷ []) c1
  | blocked c1 ↦ some (suspended chs (suc left) c1)
]

-- `(ch != TY_NEWLINE) && (ch != TY_RETURN)`
abbrev pub goes_on : ℤ → Bool
goes_on ch = not (eqb_ℤ ch ty_newline) && not (eqb_ℤ ch ty_return)

-- The loop in cooked mode, after the character `ch`
unfoldable pub read_line : (ℤ → ℤ) → ℕ → ℤ → List ℤ → Console → Option ReadCall
read_line char_of zero ch chs c = some (finished (pos (length chs)) chs c)
read_line char_of (suc left) ch chs c =
    let more =
      (ttygetc c >>= λ r. elim r [
        | got next c1 ↦ read_line char_of left (char_of next) (chs ++ char_of next ∷ []) c1
        | blocked c1 ↦ some (suspended chs (suc left) c1)
      ]) in
    if goes_on ch then more else some (finished (pos (length chs)) chs c)

-- The first character of a line is read whatever `count` says.
unfoldable pub ttyread : (ℤ → ℤ) → ℕ → Console → Option ReadCall
ttyread char_of count c =
    let all = (available c >>= λ avail. read_raw char_of avail avail [] c) in
    let line =
      (ttygetc c >>= λ r. elim r [
        | got first c1 ↦
            if eqb_ℤ first eof
            then some (finished eof [] c1)
            else read_line char_of (count - 1) (char_of first) (char_of first ∷ []) c1
        | blocked c1 ↦ some (suspended [] count c1)
      ]) in
    if is_cooked c.tty.tyimode
    then line
    else if count == 0
    then all
    else read_raw char_of count count [] c

-- `TC_NEXTC` waits, then looks at the next slot for input, and signals.
unfoldable pub next_char : Console → Option CharCall
next_char c = do
  (r, k) ← wait c.tty.tyisem c.kernel
  let c1 = with_kernel c k
  let next = (do
    ch ← load_char ty_ibuflen c1.tty.tyibuff c1.tty.tyitail
    (r2, k2) ← signal c1.tty.tyisem c1.kernel
    some (got ch (with_kernel c1 k2)))
  if same_process c.kernel k then next else some (blocked c1)

-- The functions are the numbers `TC_NEXTC` … `TC_NOECHO`.
unfoldable pub ttycontrol : ℤ → Console → Option CharCall
ttycontrol func c =
    let chars = (semcount c.tty.tyisem c.kernel >>= λ n. some (got n c)) in
    if eqb_ℤ func (pos 3)
    then next_char c
    else if eqb_ℤ func (pos 4)
    then some (got ok (with_tty c (record c.tty { tyimode = ty_imraw })))
    else if eqb_ℤ func (pos 5)
    then some (got ok (with_tty c (record c.tty { tyimode = ty_imcooked })))
    else if eqb_ℤ func (pos 6)
    then some (got ok (with_tty c (record c.tty { tyimode = ty_imcbreak })))
    else if eqb_ℤ func (pos 8)
    then chars
    else if eqb_ℤ func (pos 9)
    then some (got ok (with_tty c (record c.tty { tyiecho = true })))
    else if eqb_ℤ func (pos 10)
    then some (got ok (with_tty c (record c.tty { tyiecho = false })))
    else some (got syserr c)

-- The writes to the UART's other registers and to the interrupt vector are not modelled. `tyehead`,
-- `tyetail` and `tyeof` keep what they have: NULL, NULL and false in a static table.
unfoldable pub ttyinit : Console → Option (ℤ × Console)
ttyinit c = do
  (isem, k1) ← semcreate (pos 0) c.kernel
  (osem, k2) ← semcreate (pos ty_obuflen) k1
  some (
    ok,
    ttykickout (record c {
      kernel = k2;
      tty = record c.tty {
        tyihead = 0;
        tyitail = 0;
        tyisem = isem;
        tyohead = 0;
        tyotail = 0;
        tyosem = osem;
        tyimode = ty_imcooked;
        tyiecho = true;
        tyieback = true;
        tyevis = true;
        tyecrlf = true;
        tyicrlf = true;
        tyierase = true;
        tyierasec = ty_backsp;
        tyierasec2 = ty_backsp2;
        tyeofch = ty_eofch;
        tyikill = true;
        tyikillc = ty_killch;
        tyicursor = pos 0;
        tyoflow = true;
        tyoheld = false;
        tyostop = ty_stopch;
        tyostart = ty_strtch;
        tyocrlf = true;
        tyifullc = ty_bell;
      };
    }),
  )
