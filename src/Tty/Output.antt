-- ===== src/Tty/Output.antt =====
-- Output to the terminal: ttyputc.c and ttywrite.c, the upper half, and ttyhandle_out.c, the lower
-- half, of Chapter15, with the dispatch of ttyhandler.c.
pub mod Ring
use os_design_xinu_approach.Prelude.{
  ℕ, zero, suc, ◌+◌, ◌-◌, ◌*◌, ◌/◌, ◌%◌, ◌&&◌, ◌||◌, Option, some, List, [], ◌∷◌, ◌++◌, ◌==◌,
  if◌then◌else◌, ℤ, pos, ◌-ℤ◌, leb_ℤ, eqb_ℤ, ◌>>=◌,
}
use os_design_xinu_approach.State.{same_process, uint_of}
use os_design_xinu_approach.Sched.{defer_start, defer_stop, resched_cntl}
use os_design_xinu_approach.Semaphore.{semcount, wait, Progress, signaln}
use os_design_xinu_approach.Tty.{
  ty_obuflen, ty_ebuflen, uart_fifo_len, Console, ty_newline, ty_return, store_char, load_char,
  same_pointer, advance, ttykickout,
}
use os_design_xinu_approach.Tty.Input.{InputCall, handled, with_kernel, with_tty, handle_bytes}

-- A call has written all its characters, or it waits for a place in the buffer: then `now` are the
-- characters, as they go to the buffer, that the call has still to put there, the first of which
-- needs no further `wait`, and `later` are those of its argument that follow.
pub data OutputCall : Type 0 where
  written : Console → OutputCall
  waiting : (now later : List ℤ) → Console → OutputCall

-- `ttyputc` after `wait`
unfoldable pub put_char : ℤ → Console → Option Console
put_char ch c = do
  buf ← store_char ty_obuflen c.tty.tyobuff c.tty.tyotail ch
  some (
      ttykickout
        (with_tty c (record c.tty { tyobuff = buf; tyotail = advance ty_obuflen c.tty.tyotail })))

-- One character after the other
unfoldable pub put_chars : List ℤ → Console → Option OutputCall
put_chars [] c = some (written c)
put_chars (ch ∷ chs) c = do
  (r, k) ← wait c.tty.tyosem c.kernel
  let c1 = with_kernel c k
  let next = (put_char ch c1 >>= λ c2. put_chars chs c2)
  if same_process c.kernel k then next else some (waiting (ch ∷ chs) [] c1)

-- A newline has a return before it where the terminal wants that.
unfoldable pub ttyputc : ℤ → Console → Option OutputCall
ttyputc ch c =
    put_chars (if eqb_ℤ ch ty_newline && c.tty.tyocrlf then ty_return ∷ ch ∷ [] else ch ∷ []) c

-- `buffer` has the `count` characters. The result is OK where the call returns.
unfoldable pub ttywrite : List ℤ → Console → Option OutputCall
ttywrite [] c = some (written c)
ttywrite (ch ∷ chs) c = ttyputc ch c >>= λ r. elim r [
  | written c1 ↦ ttywrite chs c1
  | waiting now later c1 ↦ some (waiting now chs c1)
]

-- The loop of `ttyhandle_out` over the echo queue, by the room in the FIFO, which is returned.
unfoldable pub send_echo : ℕ → Console → Option (ℕ × Console)
send_echo zero c = some (0, c)
send_echo (suc uspace) c =
    let next =
      (c.tty.tyehead >>= λ head. load_char ty_ebuflen c.tty.tyebuff head >>= λ ch.
      send_echo uspace (record c {
        tty = record c.tty { tyehead = some (advance ty_ebuflen head) };
        sent = c.sent ++ ch ∷ [];
      })) in
    if same_pointer c.tty.tyehead c.tty.tyetail then some (suc uspace, c) else next

-- The loop over the output queue, by the room in the FIFO, the characters that are there, and the
-- number of those that were sent.
unfoldable pub send_output : ℕ → ℕ → ℕ → Console → Option (ℕ × Console)
send_output zero avail ochars c = some (ochars, c)
send_output (suc uspace) avail ochars c =
    let next =
      (load_char ty_obuflen c.tty.tyobuff c.tty.tyohead >>= λ ch.
      send_output uspace (avail - 1) (ochars + 1) (record c {
        tty = record c.tty { tyohead = advance ty_obuflen c.tty.tyohead };
        sent = c.sent ++ ch ∷ [];
      })) in
    if avail == 0 then some (ochars, c) else next

-- A handler has ended, or it has given up the processor in `signaln`, its last action.
pub data SendCall : Type 0 where
  sent_all : Console → SendCall
  signalling : (left : ℕ) → Console → SendCall

-- The end of `ttyhandle_out`
unfoldable pub signal_sent : ℕ → Console → Option SendCall
signal_sent ochars c = if ochars == 0 then some (sent_all c) else do
  p ← signaln c.tty.tyosem (pos ochars) c.kernel
  elim p [
    | Progress.returned r k ↦ some (sent_all (with_kernel c k))
    | Progress.paused left k ↦ some (signalling left (with_kernel c k))
  ]

-- Both loops, for a FIFO of the length `fifo`. `avail` is a `uint32`.
unfoldable pub send_queues : ℕ → Console → Option SendCall
send_queues fifo c = do
  (uspace, c1) ← send_echo fifo c
  n ← semcount c1.tty.tyosem c1.kernel
  (ochars, c2) ← send_output uspace (uint_of 32 (pos ty_obuflen -ℤ n)) 0 c1
  signal_sent ochars c2

-- `ier & ~UART_IER_ETBEI` for a byte
abbrev pub without_etbei : ℕ → ℕ
without_etbei ier = ier / 4 * 4 + ier % 2

unfoldable pub ttyhandle_out : Console → Option SendCall
ttyhandle_out c = if c.tty.tyoheld then some (sent_all c) else do
  n ← semcount c.tty.tyosem c.kernel
  if same_pointer c.tty.tyehead c.tty.tyetail && leb_ℤ (pos ty_obuflen) n
      then some (sent_all (record c { ier = without_etbei c.ier }))
      else send_queues uart_fifo_len c

-- How `ttyhandler` ends.
pub data HandlerCall : Type 0 where
  ended : Console → HandlerCall
  in_input : InputCall → HandlerCall
  in_output : SendCall → HandlerCall

-- `iir` is the UART's interrupt identification, `bytes` are what it has received. Rescheduling is
-- deferred while they are handled.
unfoldable pub ttyhandler : (ℤ → ℤ) → ℕ → List ℕ → Console → Option HandlerCall
ttyhandler char_of iir bytes c =
    let cause = iir % 16 / 2 * 2 in
    let receive = (do
      (r1, k1) ← resched_cntl defer_start c.kernel
      r ← handle_bytes char_of bytes (with_kernel c k1)
      elim r [
        | handled c1 ↦
            resched_cntl defer_stop c1.kernel >>= λ (r2, k2). some (ended (with_kernel c1 k2))
        | InputCall.signalling left rest c1 ↦ some (in_input (InputCall.signalling left rest c1))
      ]) in
    if iir % 2 == 1
    then some (ended c)
    else if cause == 12 || cause == 4
    then receive
    else if cause == 2
    then (ttyhandle_out c >>= λ r. some (in_output r))
    else some (ended c)
