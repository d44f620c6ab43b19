-- ===== src/Tty/Input.antt =====
-- The lower half of the terminal driver for input: Chapter15/ttyhandle_in.c and the loop of
-- ttyhandler.c that calls it.
use os_design_xinu_approach.Prelude.{
  ℕ, ◌+◌, ◌%◌, ◌^◌, Bool, true, false, ◌&&◌, ◌||◌, Option, none, some, List, [], ◌∷◌, leb,
  if◌then◌else◌, ℤ, pos, ◌+ℤ◌, ◌-ℤ◌, ltb_ℤ, eqb_ℤ, ◌>>=◌,
}
use os_design_xinu_approach.State.{Kernel, uint_of}
use os_design_xinu_approach.Semaphore.{semcount, signal, Progress, signaln}
use os_design_xinu_approach.Tty.{
  ty_ibuflen, ty_obuflen, ty_imraw, ty_imcooked, ty_imcbreak, Ttycblk, Console, ty_newline,
  ty_return, store_char, advance, ttykickout, eputc, eputs, erase1, echoch,
}

-- `avail = semcount(typtr->tyisem)` for a `uint32`; the test `avail < 0` that follows is false.
unfoldable pub available : Console → Option ℕ
available c = semcount c.tty.tyisem c.kernel >>= λ n. some (uint_of 32 n)

abbrev pub is_full : ℕ → Bool
is_full avail = leb ty_ibuflen avail

-- A call has ended, or it has given up the processor in the `signaln` of a line's end, with `left`
-- rounds of it to go; then `ttyhandle_in_rest` follows, and the bytes that had arrived.
pub data InputCall : Type 0 where
  handled : Console → InputCall
  signalling : (left : ℕ) → (arrived : List ℕ) → Console → InputCall

abbrev pub with_kernel : Console → Kernel → Console
with_kernel c k = record c { kernel = k }

abbrev pub with_tty : Console → Ttycblk → Console
with_tty c t = record c { tty = t }

-- `*typtr->tyitail++ = ch` and the wrap-around
unfoldable pub put_input : ℤ → Console → Option Console
put_input ch c = do
  buf ← store_char ty_ibuflen c.tty.tyibuff c.tty.tyitail ch
  some (with_tty c (record c.tty { tyibuff = buf; tyitail = advance ty_ibuflen c.tty.tyitail }))

-- `*typtr->tyitail++ = ch` without it
unfoldable pub put_last : ℤ → Console → Option Console
put_last ch c = do
  buf ← store_char ty_ibuflen c.tty.tyibuff c.tty.tyitail ch
  some (with_tty c (record c.tty { tyibuff = buf; tyitail = c.tty.tyitail + 1 }))

-- Raw mode. It is the output pointer that is wrapped around.
unfoldable pub raw_input : ℤ → Console → Option InputCall
raw_input ch c = do
  avail ← available c
  if is_full avail then some (handled c) else do
    c1 ← put_last ch c
    let tail = if leb ty_obuflen c1.tty.tyotail then 0 else c1.tty.tyotail
    let c2 = with_tty c1 (record c1.tty { tyotail = tail })
    (r, k) ← signal c2.tty.tyisem c2.kernel
    some (handled (with_kernel c2 k))

-- Flow control: `some` is the end of the call.
unfoldable pub flow_control : ℤ → Console → Option Console
flow_control ch c =
    if c.tty.tyoflow && eqb_ℤ ch c.tty.tyostart
    then some (ttykickout (with_tty c (record c.tty { tyoheld = false })))
    else if c.tty.tyoflow && eqb_ℤ ch c.tty.tyostop
    then some (with_tty c (record c.tty { tyoheld = true }))
    else none

-- The end of `ttyhandle_in` for a line's end
unfoldable pub ttyhandle_in_rest : Console → Console
ttyhandle_in_rest c = with_tty c (record c.tty { tyicursor = pos 0 })

module _ (char_of : ℤ → ℤ) where
  -- `if (typtr->tyiecho) echoch(ch, typtr, csrptr)`
  unfoldable pub echo : ℤ → Console → Option Console
  echo ch c = if c.tty.tyiecho then echoch char_of ch c else some c

  unfoldable pub cbreak_input : ℤ → Console → Option InputCall
  cbreak_input ch c = do
    avail ← available c
    if is_full avail
        then (do c1 ← eputc c.tty.tyifullc c; some (handled c1))
        else do c1 ← put_input ch c; c2 ← echo ch c1; some (handled c2)

  unfoldable pub end_of_line : ℤ → Console → Option InputCall
  end_of_line ch c = do
    c1 ← echo ch c
    c2 ← put_input ch c1
    p ← signaln c2.tty.tyisem (c2.tty.tyicursor +ℤ pos 1) c2.kernel
    elim p [
      | Progress.returned r k ↦ some (handled (ttyhandle_in_rest (with_kernel c2 k)))
      | Progress.paused left k ↦ some (signalling left [] (with_kernel c2 k))
    ]

  unfoldable pub eof_input : ℤ → Console → Option InputCall
  eof_input ch c = do
    c1 ← echo ch c
    let deliver = (do
      c2 ← put_last ch c1
      (r, k) ← signal c2.tty.tyisem c2.kernel
      some (handled (with_kernel c2 k)))
    if eqb_ℤ c1.tty.tyicursor (pos 0) then deliver else some (handled c1)

  -- A character for the line, in cooked mode. The sum of `avail` and the cursor is a `uint32`.
  unfoldable pub insert_input : ℤ → Console → Option InputCall
  insert_input ch c = do
    avail ← available c
    let place = (do
      c1 ← echo ch c
      c2 ← put_input ch (with_tty c1 (record c1.tty { tyicursor = c1.tty.tyicursor +ℤ pos 1 }))
      some (handled c2))
    if is_full ((avail + uint_of 32 c.tty.tyicursor) % 2 ^ 32)
        then (do c1 ← eputc c.tty.tyifullc c; some (handled c1))
        else if eqb_ℤ ch c.tty.tyeofch && c.tty.tyeof
        then eof_input ch c
        else place

  -- Cooked mode. The pointer `tyitail` is never before its buffer, so the test for that after a line
  -- kill is false.
  unfoldable pub cooked_input : ℤ → Console → Option InputCall
  cooked_input ch c =
      let t = c.tty in
      let kill = (do
        c1 ← eputs (ty_return ∷ ty_newline ∷ []) (with_tty c (record t { tyicursor = pos 0 }))
        some (handled c1)) in
      let erase = (do
        c1 ← erase1 (with_tty c (record t { tyicursor = t.tyicursor -ℤ pos 1 }))
        some (handled c1)) in
      if eqb_ℤ ch t.tyikillc && t.tyikill
      then kill
      else if (eqb_ℤ ch t.tyierasec || eqb_ℤ ch t.tyierasec2) && t.tyierase
      then (if ltb_ℤ (pos 0) t.tyicursor then erase else some (handled c))
      else if eqb_ℤ ch ty_newline || eqb_ℤ ch ty_return
      then end_of_line ch c
      else insert_input ch c

  -- The cooked and cbreak modes
  unfoldable pub edited_input : ℤ → Console → Option InputCall
  edited_input ch0 c =
      let ch = if eqb_ℤ ch0 ty_return && c.tty.tyicrlf then ty_newline else ch0 in
      let c1 = with_tty c (record c.tty { tyoheld = false }) in
      let edit : Option InputCall = elim c.tty.tyimode [
        | ty_imcbreak ↦ cbreak_input ch c1
        | ty_imraw ↦ cooked_input ch c1
        | ty_imcooked ↦ cooked_input ch c1
      ] in
      elim (flow_control ch c) [ some c2 ↦ some (handled c2) | none ↦ edit ]

  -- `byte` is what the UART's buffer register gives.
  unfoldable pub ttyhandle_in : ℕ → Console → Option InputCall
  ttyhandle_in byte c =
      let ch = char_of (pos byte) in
      available c >>= λ avail. elim c.tty.tyimode [
        | ty_imraw ↦ raw_input ch c
        | ty_imcooked ↦ edited_input ch c
        | ty_imcbreak ↦ edited_input ch c
      ]

  -- The loop of `ttyhandler`: `bytes` are what the UART has received.
  unfoldable pub handle_bytes : List ℕ → Console → Option InputCall
  handle_bytes [] c = some (handled c)
  handle_bytes (byte ∷ bytes) c = ttyhandle_in byte c >>= λ r. elim r [
    | handled c1 ↦ handle_bytes bytes c1
    | signalling left rest c1 ↦ some (signalling left bytes c1)
  ]
