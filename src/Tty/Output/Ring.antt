-- ===== src/Tty/Output/Ring.antt =====
-- The output buffer of the terminal is a queue: `ttyputc` (Chapter15/ttyputc.c) adds characters
-- and `ttyhandle_out` (Chapter15/ttyhandle_out.c) sends them in the same order.
use os_design_xinu_approach.Prelude.{
  ℕ, zero, suc, ◌+◌, ◌-◌, ◌%◌, ◌≤◌, ◌<◌, ◌≡◌, refl, ◌∙◌, inl, inr, true, false, Option, none, some,
  List, [], ◌∷◌, ◌++◌, append-nil, append_assoc, arith, ◌==◌, if◌then◌else◌, Bool-cases, length,
  length-append, ℤ, pos, ◌-ℤ◌, leb_ℤ, Runs,
}
use os_design_xinu_approach.Tty.{
  ty_obuflen, uart_fifo_len, Ttycblk, Console, same_pointer, advance, ttykickout,
}
use os_design_xinu_approach.Tty.Output.{
  put_char, send_echo, send_output, SendCall, sent_all, signalling, signal_sent, send_queues,
  ttyhandle_out,
}
use os_design_xinu_approach.State.{Kernel, uint_of}
use os_design_xinu_approach.Semaphore.{semcount, Progress, signaln}
use os_design_xinu_approach.Tty.Input.{with_kernel}

-- From the index `h` on, going round, the buffer has the characters `xs`.
abbrev pub Window : (ℕ → ℤ) → ℕ → List ℤ → Type 0
Window buf h [] = Unit
Window buf h (x ∷ xs) = (buf h ≡ x) × Window buf (advance ty_obuflen h) xs

-- The index behind `n` characters
abbrev pub behind : ℕ → ℕ → ℕ
behind h n = (h + n) % ty_obuflen

-- The output buffer holds the characters `xs`.
pub record OutHolds (t : Ttycblk) (xs : List ℤ) : Type 0 where
  pub head_in : t.tyohead < ty_obuflen
  pub fits : length xs ≤ ty_obuflen
  pub tail : t.tyotail ≡ behind t.tyohead (length xs)
  pub chars : Window t.tyobuff t.tyohead xs

-- A write behind the window leaves it as it is.
Window-frame :
    (buf : ℕ → ℤ) (h m i : ℕ) (ch : ℤ) (xs : List ℤ)
    → h < ty_obuflen
    → m < ty_obuflen
    → length xs ≤ m
    → i ≡ behind h m
    → Window buf h xs
    → Window (λ x. if i == x then ch else buf x) h xs
Window-frame buf h m i ch [] lt few short e w = tt
Window-frame buf h m i ch (x ∷ xs) lt few short e w =
    let rest =
      Window-frame buf (advance ty_obuflen h) (m - 1) i ch xs (ground arith) (omega (arith, few))
        (omega (arith, short)) (ground (arith, e, short)) w.1 in
    (ground (arith, e, short, w.0), rest)

-- A write just behind the window makes it longer.
Window-append :
    (buf : ℕ → ℤ) (h i : ℕ) (ch : ℤ) (xs : List ℤ)
    → h < ty_obuflen
    → length xs < ty_obuflen
    → i ≡ behind h (length xs)
    → Window buf h xs
    → Window (λ x. if i == x then ch else buf x) h (xs ++ ch ∷ [])
Window-append buf h i ch [] lt few e w = (ground (arith, e), tt)
Window-append buf h i ch (x ∷ xs) lt few e w =
    let rest =
      Window-append buf (advance ty_obuflen h) i ch xs (ground arith) (omega (arith, few))
        (ground (arith, e)) w.1 in
    (ground (arith, e, w.0), rest)

put_char-eq :
    (ch : ℤ) (c : Console)
    → c.tty.tyotail < ty_obuflen
    → put_char ch c
      ≡ some (record c {
        tty = record c.tty {
          tyobuff = λ x. if c.tty.tyotail == x then ch else c.tty.tyobuff x;
          tyotail = advance ty_obuflen c.tty.tyotail;
        };
        ier = 3;
      })
unfolding put_char ttykickout
put_char-eq ch c lt = ground arith

-- A character that is put into a buffer with room is behind the others, and the UART is asked for an
-- interrupt.
pub put_char-OutHolds :
    (ch : ℤ) (c : Console) (xs : List ℤ)
    → OutHolds c.tty xs
    → length xs < ty_obuflen
    → Runs (put_char ch c) λ c'.
      OutHolds c'.tty (xs ++ ch ∷ []) × (c'.ier ≡ 3) × (c'.sent ≡ c.sent) × (c'.kernel ≡ c.kernel)
put_char-OutHolds ch c xs h room =
    let tail : c.tty.tyotail ≡ behind c.tty.tyohead (length xs) = h.tail in
    rw (put_char-eq ch c (omega (arith, tail))) (
      record {
        head_in = h.head_in;
        fits = rw (length-append xs (ch ∷ [])) (omega (arith, room));
        tail = rw (length-append xs (ch ∷ [])) (ground (arith, tail, h.head_in));
        chars =
            Window-append c.tty.tyobuff c.tty.tyohead c.tty.tyotail ch xs h.head_in room tail
              h.chars;
      },
      refl,
      refl,
      refl,
    )

-- The loop sends what it finds, at most as much as the FIFO takes.
send_output-eq :
    (uspace ochars : ℕ) (c : Console) (xs : List ℤ)
    → c.tty.tyohead < ty_obuflen
    → Window c.tty.tyobuff c.tty.tyohead xs
    → length xs ≤ uspace
    → send_output uspace (length xs) ochars c
      ≡ some (
        ochars + length xs,
        record c {
          tty = record c.tty { tyohead = behind c.tty.tyohead (length xs) };
          sent = c.sent ++ xs;
        },
      )
unfolding send_output
send_output-eq zero ochars c [] lt w room = rw append-nil (ground (arith, lt))
send_output-eq (suc uspace) ochars c [] lt w room = rw append-nil (ground (arith, lt))
send_output-eq zero ochars c (x ∷ xs) lt w room = absurd (omega (arith, room))
send_output-eq (suc uspace) ochars c (x ∷ xs) lt w room =
    let c1 = record c {
      tty = record c.tty { tyohead = advance ty_obuflen c.tty.tyohead };
      sent = c.sent ++ x ∷ [];
    } in
    let rest = send_output-eq uspace (ochars + 1) c1 xs (ground arith) w.1 (omega (arith, room)) in
    let place : behind (advance ty_obuflen c.tty.tyohead) (length xs)
        ≡ behind c.tty.tyohead (suc (length xs)) =
      ground (arith, lt) in
    let total : ochars + 1 + length xs ≡ ochars + suc (length xs) = omega arith in
    let order : (c.sent ++ x ∷ []) ++ xs ≡ c.sent ++ x ∷ xs = append_assoc c.sent (x ∷ []) xs in
    step (length xs) ∙ rest ∙ rw (place, total, order) refl
  where
    step :
        (n : ℕ)
        → send_output (suc uspace) (suc n) ochars c
          ≡ send_output uspace n (ochars + 1) (record c {
            tty = record c.tty { tyohead = advance ty_obuflen c.tty.tyohead };
            sent = c.sent ++ x ∷ [];
          })
    step n = ground (arith, lt, w.0)

same_pointer_self : (p : Option ℕ) → same_pointer p p ≡ true
same_pointer_self none = refl
same_pointer_self (some i) = ground arith

send_echo-nil :
    (uspace : ℕ) (c : Console)
    → c.tty.tyehead ≡ c.tty.tyetail
    → send_echo uspace c ≡ some (uspace, c)
unfolding send_echo
send_echo-nil zero c same = refl
send_echo-nil (suc uspace) c same =
    let test = same_pointer_self c.tty.tyetail in rw (same, test) refl

-- `c` after its output buffer has been sent
abbrev emptied : Console → List ℤ → Console
emptied c xs = record c {
  tty = record c.tty { tyohead = behind c.tty.tyohead (length xs) };
  sent = c.sent ++ xs;
}

signal_sent-eq :
    (c : Console) (n : ℕ) (r : ℤ) (k : Kernel)
    → 0 < n
    → signaln c.tty.tyosem (pos n) c.kernel ≡ some (Progress.returned r k)
    → signal_sent n c ≡ some (sent_all (with_kernel c k))
unfolding signal_sent
signal_sent-eq c n r k some_left e = let test : (n == 0) ≡ false = ground arith in rw (test, e) refl

send_queues-eq :
    (fifo : ℕ) (c : Console) (xs : List ℤ) (r : ℤ) (k : Kernel)
    → OutHolds c.tty xs
    → length xs ≤ fifo
    → 0 < length xs
    → c.tty.tyehead ≡ c.tty.tyetail
    → semcount c.tty.tyosem c.kernel ≡ some (pos (ty_obuflen - length xs))
    → signaln c.tty.tyosem (pos (length xs)) c.kernel ≡ some (Progress.returned r k)
    → send_queues fifo c ≡ some (sent_all (with_kernel (emptied c xs) k))
unfolding send_queues
send_queues-eq fifo c xs r k h short some_left no_echo free e =
    let count : uint_of 32 (pos ty_obuflen -ℤ pos (ty_obuflen - length xs)) ≡ length xs =
      ground (arith, h.fits) in
    let silent = send_echo-nil fifo c no_echo in
    let out = send_output-eq fifo 0 c xs h.head_in h.chars short in
    let total : 0 + length xs ≡ length xs = omega arith in
    rw (silent, free, count, out, total) (signal_sent-eq (emptied c xs) (length xs) r k some_left e)

not_all_free :
    (n : ℕ) → 0 < n → n ≤ ty_obuflen → leb_ℤ (pos ty_obuflen) (pos (ty_obuflen - n)) ≡ false
not_all_free n some_left fits = ground arith

ttyhandle_out-eq :
    (c : Console) (n : ℤ)
    → c.tty.tyoheld ≡ false
    → semcount c.tty.tyosem c.kernel ≡ some n
    → leb_ℤ (pos ty_obuflen) n ≡ false
    → ttyhandle_out c ≡ send_queues uart_fifo_len c
unfolding ttyhandle_out
ttyhandle_out-eq c n free count queued =
    elim (Bool-cases (same_pointer c.tty.tyehead c.tty.tyetail)) [
      | inl e ↦ rw (free, count, e, queued) refl
      | inr e ↦ rw (free, count, e) refl
    ]

emptied-OutHolds :
    (t : Ttycblk) (xs : List ℤ)
    → OutHolds t xs
    → OutHolds (record t { tyohead = behind t.tyohead (length xs) }) []
emptied-OutHolds t xs h = record {
  head_in = omega arith;
  fits = omega arith;
  tail = ground (arith, h.tail);
  chars = tt;
}

-- A handler's call that has ended, with a console of which `P` holds
abbrev pub Ended : SendCall → (Console → Type 0) → Type 0
Ended (sent_all c) P = P c
Ended (signalling left c) P = ⊥

-- With output not held, nothing to echo and characters in the buffer, as many as the output
-- semaphore says, `ttyhandle_out` sends all of them in the order in which they were put there, if
-- the signals to the writers do not give up the processor; then the buffer is empty.
pub ttyhandle_out-sends :
    (c : Console) (xs : List ℤ) (r : ℤ) (k : Kernel)
    → OutHolds c.tty xs
    → 0 < length xs
    → c.tty.tyoheld ≡ false
    → c.tty.tyehead ≡ c.tty.tyetail
    → semcount c.tty.tyosem c.kernel ≡ some (pos (ty_obuflen - length xs))
    → signaln c.tty.tyosem (pos (length xs)) c.kernel ≡ some (Progress.returned r k)
    → Runs
        (ttyhandle_out c)
        λ call. Ended call λ c'. (c'.sent ≡ c.sent ++ xs) × OutHolds c'.tty [] × (c'.kernel ≡ k)
ttyhandle_out-sends c xs r k h some_left free no_echo count e =
    let run = send_queues-eq uart_fifo_len c xs r k h h.fits some_left no_echo count e in
    let queued = not_all_free (length xs) some_left h.fits in
    rw (ttyhandle_out-eq c (pos (ty_obuflen - length xs)) free count queued, run)
      (refl, emptied-OutHolds c.tty xs h, refl)
