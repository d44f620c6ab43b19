-- ===== src/Tty.antt =====
-- The terminal driver, Chapter15: its control block and the echo queue (tty.h, uart.h and the
-- functions erase1, echoch and eputc of ttyhandle_in.c, ttykickout.c). A pointer into a buffer is its
-- index; `none` is an access outside a buffer. The pointers of the echo queue can be NULL, which is
-- `none` too. A character is the value of a `char`.
pub mod Input
pub mod Output
pub mod Read
mod Tests
use os_design_xinu_approach.Prelude.{
  ℕ, ◌+◌, ◌-◌, Bool, true, false, not, ◌&&◌, ◌||◌, Option, none, some, List, [], ◌∷◌, ◌++◌, ltb,
  leb, ◌==◌, if◌then◌else◌, ℤ, pos, ◌+ℤ◌, ltb_ℤ, eqb_ℤ, ◌>>=◌,
}
use os_design_xinu_approach.State.{Kernel}

-- `TY_IBUFLEN`, `TY_OBUFLEN`, `TY_EBUFLEN` and `UART_FIFO_LEN`
abbrev pub ty_ibuflen : ℕ
ty_ibuflen = 128

abbrev pub ty_obuflen : ℕ
ty_obuflen = 64

abbrev pub ty_ebuflen : ℕ
ty_ebuflen = 20

abbrev pub uart_fifo_len : ℕ
uart_fifo_len = 64

-- `TY_IMRAW`, `TY_IMCOOKED` and `TY_IMCBREAK`
pub data Inputmode : Type 0 where
  ty_imraw ty_imcooked ty_imcbreak : Inputmode

-- `struct ttycblk`
pub record Ttycblk : Type 0 where
  pub tyihead : ℕ
  pub tyitail : ℕ
  pub tyibuff : ℕ → ℤ
  pub tyisem : ℤ
  pub tyohead : ℕ
  pub tyotail : ℕ
  pub tyobuff : ℕ → ℤ
  pub tyosem : ℤ
  pub tyehead : Option ℕ
  pub tyetail : Option ℕ
  pub tyebuff : ℕ → ℤ
  pub tyimode : Inputmode
  pub tyiecho : Bool
  pub tyieback : Bool
  pub tyevis : Bool
  pub tyecrlf : Bool
  pub tyicrlf : Bool
  pub tyierase : Bool
  pub tyierasec : ℤ
  pub tyierasec2 : ℤ
  pub tyeof : Bool
  pub tyeofch : ℤ
  pub tyikill : Bool
  pub tyikillc : ℤ
  pub tyicursor : ℤ
  pub tyoflow : Bool
  pub tyoheld : Bool
  pub tyostop : ℤ
  pub tyostart : ℤ
  pub tyocrlf : Bool
  pub tyifullc : ℤ

-- The kernel with the control block of the console, the interrupt enable register of its UART and
-- the characters that were written to the UART, the oldest first.
pub record Console : Type 0 where
  pub kernel : Kernel
  pub tty : Ttycblk
  pub ier : ℕ
  pub sent : List ℤ

-- `TY_BACKSP`, `TY_BACKSP2`, `TY_BELL`, `TY_EOFCH`, `TY_BLANK`, `TY_NEWLINE`, `TY_RETURN`,
-- `TY_STOPCH`, `TY_STRTCH`, `TY_KILLCH` and `TY_UPARROW`
abbrev pub ty_backsp : ℤ
ty_backsp = pos 8

abbrev pub ty_backsp2 : ℤ
ty_backsp2 = pos 127

abbrev pub ty_bell : ℤ
ty_bell = pos 7

abbrev pub ty_eofch : ℤ
ty_eofch = pos 4

abbrev pub ty_blank : ℤ
ty_blank = pos 32

abbrev pub ty_newline : ℤ
ty_newline = pos 10

abbrev pub ty_return : ℤ
ty_return = pos 13

abbrev pub ty_stopch : ℤ
ty_stopch = pos 19

abbrev pub ty_strtch : ℤ
ty_strtch = pos 17

abbrev pub ty_killch : ℤ
ty_killch = pos 21

abbrev pub ty_uparrow : ℤ
ty_uparrow = pos 94

-- `*p = ch` for the index `i` of a buffer of `len` characters
abbrev pub store_char : ℕ → (ℕ → ℤ) → ℕ → ℤ → Option (ℕ → ℤ)
store_char len buf i ch = if ltb i len then some (λ x. if i == x then ch else buf x) else none

abbrev pub load_char : ℕ → (ℕ → ℤ) → ℕ → Option ℤ
load_char len buf i = if ltb i len then some (buf i) else none

-- The comparison of two pointers into the same buffer
abbrev pub same_pointer : Option ℕ → Option ℕ → Bool
same_pointer none none = true
same_pointer none (some j) = false
same_pointer (some i) none = false
same_pointer (some i) (some j) = i == j

-- `p++` with the test for the end of the buffer
abbrev pub advance : ℕ → ℕ → ℕ
advance len i = if leb len (i + 1) then 0 else i + 1

-- `UART_IER_ERBFI | UART_IER_ETBEI`
unfoldable pub ttykickout : Console → Console
ttykickout c = record c { ier = 3 }

unfoldable pub eputc : ℤ → Console → Option Console
eputc ch c = do
  tail ← c.tty.tyetail
  buf ← store_char ty_ebuflen c.tty.tyebuff tail ch
  some (
      ttykickout (record c {
        tty = record c.tty { tyebuff = buf; tyetail = some (advance ty_ebuflen tail) };
      }))

-- Several calls of `eputc` in a row
unfoldable pub eputs : List ℤ → Console → Option Console
eputs [] c = some c
eputs (ch ∷ chs) c = eputc ch c >>= λ c1. eputs chs c1

-- `ch < TY_BLANK || ch == 0177`
abbrev pub unprintable : ℤ → Bool
unprintable ch = ltb_ℤ ch ty_blank || eqb_ℤ ch (pos 127)

-- A backspace, and two more characters where a backspace erases
abbrev pub back : Bool → List ℤ
back erases = if erases then ty_backsp ∷ ty_blank ∷ ty_backsp ∷ [] else ty_backsp ∷ []

unfoldable pub erase1 : Console → Option Console
erase1 c = do
  let tail = if c.tty.tyitail == 0 then ty_ibuflen - 1 else c.tty.tyitail - 1
  let c1 = record c { tty = record c.tty { tyitail = tail } }
  ch ← load_char ty_ibuflen c.tty.tyibuff tail
  let once = back c.tty.tyieback
  if not c.tty.tyiecho
      then some c1
      else if unprintable ch && c.tty.tyevis
      then eputs (once ++ once) c1
      else eputs once c1

-- `ch + 0100` is an `int` that becomes a `char`, in the way of the compiler.
unfoldable pub echoch : (ℤ → ℤ) → ℤ → Console → Option Console
echoch char_of ch c =
    if (eqb_ℤ ch ty_newline || eqb_ℤ ch ty_return) && c.tty.tyecrlf
    then eputs (ty_return ∷ ty_newline ∷ []) c
    else if unprintable ch && c.tty.tyevis
    then eputs (ty_uparrow ∷ char_of (ch +ℤ pos 64) ∷ []) c
    else eputs (ch ∷ []) c
