-- ===== src/Remote/Kept.antt =====
-- What a read or a write changes: rflread.c and rflwrite.c of Chapter20.
use Prim.Native.Nat.{bit_and, bit_and-bitwise, digits, min}
use os_design_xinu_approach.Prelude.{
  ℕ, zero, suc, ◌+◌, ◌-◌, ◌/◌, ◌%◌, ◌^◌, ◌≤◌, ◌<◌, ◌≡◌, refl, ap, ◌∙◌, ◌≢◌, ◌⊎◌, inl, inr, true,
  false, ◌||◌, some, [], arith, ltb, ◌==◌, if◌then◌else◌, Bool-cases, ℤ, pos, ltb_ℤ, leb_ℤ, eqb_ℤ,
  Runs,
}
use os_design_xinu_approach.Queue.{syserr}
use os_design_xinu_approach.Arp.{Byteorder}
use os_design_xinu_approach.Remote.{
  rf_namlen, rf_datalen, rf_mode_r, rf_mode_w, rf_msg_wreq, unopened, Rflcblk, Rfmsg, rreq_size,
  rres_size, Remote, Endpoints, copy_string, allows, rf_wait, rf_signal, rfscomm,
}
use os_design_xinu_approach.Remote.Access.{succeeded, advance, rflread, end_write, rflwrite}
use os_design_xinu_approach.State.{timeout, int32_of}
use os_design_xinu_approach.Remote.Exchange.{eqb_ℤ→eq, eqb_ℤ-refl, rfscomm-Exchanged}

-- No bit is in common with 0.
digits-zero : (n a : ℕ) → digits (λ b. zero) min n a 0 ≡ 0
digits-zero zero a = refl
digits-zero (suc n) zero = refl
digits-zero (suc n) (suc a) = let rest = digits-zero n (suc a / 2) in rw rest (ground arith)

nothing_allowed : (m : ℕ) → allows m rf_mode_r ≡ false
nothing_allowed m =
    let nothing : bit_and m 0 ≡ 0 = bit_and-bitwise m 0 ∙ digits-zero m m in rw nothing refl

-- A string with a 0 at the place `j` ends at `j` or before.
copy_string-ends :
    (left i j : ℕ) (from to : ℕ → ℕ)
    → i ≤ j
    → j < i + left
    → from j ≡ 0
    → (end : ℕ) × ((copy_string left i from to).0 ≡ some end) × (end ≤ j)
unfolding copy_string
copy_string-ends zero i j from to ge lt e = absurd (omega (arith, ge, lt))
copy_string-ends (suc left) i j from to ge lt e = elim (Bool-cases (from i == 0)) [
  | inl end ↦ (i, rw end refl, ge)
  | inr more ↦
      let on : i + 1 ≤ j = elim (Bool-cases (i == j)) [
        | inl here ↦
            let same : i ≡ j = ground (arith, here) in
            absurd (ground (arith, ap from same, e, more))
        | inr apart ↦ ground (arith, apart, ge)
      ] in
      rw more (copy_string-ends left (i + 1) j from _ on (omega (arith, lt)) e)
]

-- Only the position of one file has moved, by `len`, the rest of the table is the same, and the mutex
-- is free.
pub record Moved {W : Type 0} (minor len : ℕ) (t : ℕ → Rflcblk) (s' : Remote W) : Type 0 where
  pub position : (s'.rfltab minor).rfpos ≡ ((t minor).rfpos + len) % 2 ^ 32
  pub state : (s'.rfltab minor).rfstate ≡ (t minor).rfstate
  pub name : (s'.rfltab minor).rfname ≡ (t minor).rfname
  pub mode : (s'.rfltab minor).rfmode ≡ (t minor).rfmode
  pub others : (i : ℕ) → minor ≢ i → s'.rfltab i ≡ t i
  pub unlocked : s'.mutex_count ≡ pos 1

module _ {W : Type 0} (order : Byteorder) (net : Endpoints W) where
  -- `rflread` never reads: whatever the file, its mode and the count, it returns SYSERR without a
  -- message to the server, and leaves the control blocks and the mutex as they were.
  pub rflread-refuses :
      (junk : Rfmsg) (minor : ℕ) (count : ℤ) (s : Remote W)
      → s.mutex_count ≡ pos 1
      → Runs (rflread order net junk minor count s) λ (r, bytes, s').
        (r ≡ syserr)
        × (bytes ≡ [])
        × (s'.rfltab ≡ s.rfltab)
        × (s'.network ≡ s.network)
        × (s'.mutex_count ≡ pos 1)
  unfolding rflread rf_wait
  rflread-refuses junk minor count s free =
      let no = nothing_allowed (s.rfltab minor).rfmode in
      let one : leb_ℤ (pos 1) (pos 0) ≡ false = refl in
      rw free (elim (Bool-cases (leb_ℤ count (pos 0) || ltb_ℤ (pos rf_datalen) count)) [
        | inl bad ↦ rw bad (refl, refl, refl, refl, refl)
        | inr good ↦ elim (Bool-cases (unopened (s.rfltab minor).rfstate)) [
          | inl closed ↦ rw (good, closed) (refl, refl, refl, refl, refl)
          | inr opened ↦ rw (good, opened, no) (refl, refl, refl, refl, refl)
        ]
      ])

  advanced :
      (minor len : ℕ) (s s' : Remote W)
      → s'.rfltab ≡ s.rfltab
      → s'.mutex_count ≡ pos 0
      → Moved minor len s.rfltab (rf_signal (advance order net minor len s'))
  advanced minor len s s' same locked =
      let self : (minor == minor) ≡ true = ground arith in
      record {
        position = rw (self, same) refl;
        state = rw (self, same) refl;
        name = rw (self, same) refl;
        mode = rw (self, same) refl;
        others = λ i ne. let no : (minor == i) ≡ false = ground (arith, ne) in rw (no, same) refl;
        unlocked = rw locked refl;
      }

  -- The exchange brought no good news.
  abbrev pub Failed : ℤ → Rfmsg → Type 0
  Failed r resp = (r ≡ syserr) ⊎ ((r ≡ timeout) ⊎ (order.ntohs resp.rf_status ≢ 0))

  abbrev pub Done : ℤ → Rfmsg → Type 0
  Done r resp = (r ≢ syserr) × (r ≢ timeout) × (order.ntohs resp.rf_status ≡ 0)

  eqb-ne : (a b : ℤ) → eqb_ℤ a b ≡ false → a ≢ b
  eqb-ne a b h e = let same = eqb_ℤ-refl b in let other : eqb_ℤ b b ≡ false = rw e at h in cc

  verdict :
      (r : ℤ) (resp : Rfmsg)
      → ((succeeded order net r resp ≡ true) × Done r resp)
        ⊎ ((succeeded order net r resp ≡ false) × Failed r resp)
  verdict r resp = elim (Bool-cases (eqb_ℤ r syserr)) [
    | inl bad ↦ inr (rw bad refl, inl (eqb_ℤ→eq r syserr bad))
    | inr fine ↦ elim (Bool-cases (eqb_ℤ r timeout)) [
      | inl late ↦ inr (rw (fine, late) refl, inr (inl (eqb_ℤ→eq r timeout late)))
      | inr soon ↦ elim (Bool-cases (order.ntohs resp.rf_status == 0)) [
        | inl zero_status ↦ inl (
          rw (fine, soon, zero_status) refl,
          (eqb-ne r syserr fine, eqb-ne r timeout soon, ground arith),
        )
        | inr other ↦ inr (rw (fine, soon, other) refl, inr (inr (λ e. ground arith)))
      ]
    ]
  ]

  -- The request for a write: the position and the length, and the bytes of the caller
  pub record Request (f : Rflcblk) (buff : ℕ → ℕ) (count : ℕ) (msg : Rfmsg) : Type 0 where
    pub typed : msg.rf_type ≡ order.htons rf_msg_wreq
    pub position : msg.rf_pos ≡ order.htonl f.rfpos
    pub length : msg.rf_len ≡ order.htonl count
    pub bytes : (i : ℕ) → i < count → msg.rf_data i ≡ buff i

  -- The outcome of a write whose exchange has given `e`: the length in the reply, added to the position,
  -- where the exchange was a success, and SYSERR with nothing changed where it was not.
  abbrev pub Written : ℕ → (ℕ → Rflcblk) → ℤ × Rfmsg × Remote W → ℤ × Remote W → Type 0
  Written minor t e (r, s') =
      (Done e.0 e.1
        × (r ≡ int32_of (order.ntohl e.1.rf_len))
        × Moved minor (order.ntohl e.1.rf_len) t s')
      ⊎ (Failed e.0 e.1 × (r ≡ syserr) × (s'.rfltab ≡ t) × (s'.mutex_count ≡ pos 1))

  end_write-Written :
      (minor : ℕ) (s : Remote W) (r : ℤ) (resp : Rfmsg) (s' : Remote W)
      → s'.rfltab ≡ s.rfltab
      → s'.mutex_count ≡ pos 0
      → Runs (end_write order net minor (r, resp, s')) (Written minor s.rfltab (r, resp, s'))
  unfolding end_write
  end_write-Written minor s r resp s' same locked = elim (verdict r resp) [
    | inl (done, good) ↦ rw done (inl (good, refl, advanced minor _ s s' same locked))
    | inr (failed, bad) ↦ rw failed (inr (bad, refl, same, rw locked refl))
  ]

  -- A write of at most RF_DATALEN bytes to a used file in a mode that allows it, when the mutex is
  -- free and the name of the file leaves the last two bytes of its array 0, always returns. It sends
  -- one request with the position of the file, the number of bytes and the bytes themselves to
  -- `rfscomm`. If this gives neither SYSERR nor TIMEOUT and the status in the reply is 0, it returns
  -- the length in the reply and has moved the position of this file by it; if not, it returns SYSERR
  -- and no control block has changed. The mutex is free again.
  pub rflwrite-Written :
      (junk : Rfmsg) (minor : ℕ) (buff : ℕ → ℕ) (count : ℕ) (s : Remote W)
      → s.mutex_count ≡ pos 1
      → 0 < count
      → count ≤ rf_datalen
      → unopened (s.rfltab minor).rfstate ≡ false
      → allows (s.rfltab minor).rfmode rf_mode_w ≡ true
      → (s.rfltab minor).rfname 126 ≡ 0
      → (s.rfltab minor).rfname 127 ≡ 0
      → (msg : Rfmsg) × Request (s.rfltab minor) buff count msg
        × Runs (rflwrite order net junk minor buff (pos count) s) (
            Written minor s.rfltab
              (rfscomm order net msg rres_size junk rreq_size (record s { mutex_count = pos 0 })))
  unfolding rflwrite rf_wait
  rflwrite-Written junk minor buff count s free some_bytes few used allowed e1 e2 =
      let f = s.rfltab minor in
      let first =
        copy_string-ends rf_namlen 0 126 f.rfname (λ i. 0) (omega arith) (omega arith) e1 in
      let second =
        copy_string-ends (rf_namlen - (first.0 + 1)) (first.0 + 1) 127 f.rfname
          (copy_string rf_namlen 0 f.rfname (λ i. 0)).1 (omega (arith, first.2))
          (omega (arith, first.2)) e2 in
      let good : (leb_ℤ (pos count) (pos 0) || ltb_ℤ (pos rf_datalen) (pos count)) ≡ false =
        ground arith in
      let msg = record junk {
        rf_type = order.htons rf_msg_wreq;
        rf_status = order.htons 0;
        rf_seqno = 0;
        rf_name =
            (copy_string (rf_namlen - (first.0 + 1)) (first.0 + 1) f.rfname
              (copy_string rf_namlen 0 f.rfname (λ i. 0)).1).1;
        rf_pos = order.htonl f.rfpos;
        rf_len = order.htonl count;
        rf_data = λ i. if ltb i count then buff i else 0;
      } in
      let e =
        rfscomm-Exchanged order net msg rres_size junk rreq_size
          (record s { mutex_count = pos 0 }) in
      (
        msg,
        record { typed = refl; position = refl; length = refl; bytes = λ i lt. ground (arith, lt) },
        rw (free, good, used, allowed, first.1, second.1)
            (end_write-Written minor s _ _ _ e.table e.count),
      )
