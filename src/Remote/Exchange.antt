-- ===== src/Remote/Exchange.antt =====
-- The exchange of `rfscomm` (Chapter20/rfscomm.c): what a caller gets, and after how many messages.
use Prim.Native.Nat.{bit_or}
use os_design_xinu_approach.Prelude.{
  ℕ, zero, suc, ◌+◌, ◌%◌, ◌^◌, ◌≤◌, ◌<◌, ◌≡◌, refl, ap, ◌∙◌, ◌⊎◌, inl, inr, Bool, true, false,
  arith, ◌==◌, if◌then◌else◌, Bool-cases, ℤ, pos, negsuc, eqb_ℤ,
}
use os_design_xinu_approach.Queue.{syserr}
use os_design_xinu_approach.State.{timeout}
use os_design_xinu_approach.Arp.{Byteorder, known}
use os_design_xinu_approach.Remote.{
  rf_retries, rf_timeout, rf_msg_response, Rfmsg, Remote, Endpoints, int16_of, fits, comm_loop,
  exchange, rfscomm,
}

pub eqb_ℤ→eq : (a b : ℤ) → eqb_ℤ a b ≡ true → a ≡ b
eqb_ℤ→eq (pos a) (pos b) h = ap pos (ground (arith, h))
eqb_ℤ→eq (negsuc a) (negsuc b) h = ap negsuc (ground (arith, h))
eqb_ℤ→eq (pos a) (negsuc b) h = absurd (ground (arith, h))
eqb_ℤ→eq (negsuc a) (pos b) h = absurd (ground (arith, h))

pub eqb_ℤ-refl : (a : ℤ) → eqb_ℤ a a ≡ true
eqb_ℤ-refl (pos a) = ground arith
eqb_ℤ-refl (negsuc a) = ground arith

if-true : {A : Type 0} (b : Bool) (x y : A) → b ≡ true → (if b then x else y) ≡ x
if-true b x y h = rw h refl

module _ {W : Type 0} (order : Byteorder) (net : Endpoints W) where
  -- The reply belongs to the request with the number `seq`.
  pub record Answer (seq : ℕ) (msg reply : Rfmsg) : Type 0 where
    pub numbered : order.ntohl reply.rf_seqno ≡ seq
    pub typed :
        int16_of (order.ntohs reply.rf_type)
        ≡ pos (bit_or (order.ntohs msg.rf_type) rf_msg_response)

  fits-Answer :
      (seq : ℕ) (msg reply : Rfmsg) → fits order net seq msg reply ≡ true → Answer seq msg reply
  fits-Answer seq msg reply h = record {
    numbered = ground (arith, h);
    typed = eqb_ℤ→eq _ _ (ground (arith, h));
  }

  Answer-fits :
      (seq : ℕ) (msg reply : Rfmsg) → Answer seq msg reply → fits order net seq msg reply ≡ true
  Answer-fits seq msg reply a =
      let number : (order.ntohl reply.rf_seqno == seq) ≡ true = ground (arith, a.numbered) in
      rw (number, a.typed) (eqb_ℤ-refl (pos (bit_or (order.ntohs msg.rf_type) rf_msg_response)))

  other-fits :
      (seq : ℕ) (msg reply : Rfmsg) → ¬ Answer seq msg reply → fits order net seq msg reply ≡ false
  other-fits seq msg reply differs = elim (Bool-cases (fits order net seq msg reply)) [
    | inl same ↦ absurd (differs (fits-Answer seq msg reply same))
    | inr other ↦ other
  ]

  -- An error, silence, or an answer
  abbrev pub Outcome : ℕ → Rfmsg → ℤ → Rfmsg → Type 0
  Outcome seq msg r reply = (r ≡ syserr) ⊎ ((r ≡ timeout) ⊎ Answer seq msg reply)

  loop-Outcome :
      (rounds seq : ℕ) (place : ℤ) (msg : Rfmsg) (mlen : ℕ) (reply : Rfmsg) (rlen : ℕ) (w : W)
      → let o = comm_loop order net rounds seq place msg mlen reply rlen w in
        Outcome seq msg o.0 o.1
  unfolding comm_loop
  loop-Outcome zero seq place msg mlen reply rlen w = inr (inl refl)
  loop-Outcome (suc rounds) seq place msg mlen reply rlen w =
      let sent = net.udp_send place msg mlen w in
      let got = net.udp_recv place reply rlen rf_timeout sent.1 in
      let rest = loop-Outcome rounds seq place msg mlen got.1 rlen got.2 in
      elim (Bool-cases (eqb_ℤ sent.0 syserr)) [
        | inl unsent ↦ rw unsent (inl refl)
        | inr sent_out ↦ elim (Bool-cases (eqb_ℤ got.0 timeout)) [
          | inl late ↦ rw (sent_out, late) rest
          | inr in_time ↦ elim (Bool-cases (eqb_ℤ got.0 syserr)) [
            | inl failed ↦ rw (sent_out, in_time, failed) (inl refl)
            | inr fine ↦ elim (Bool-cases (fits order net seq msg got.1)) [
              | inl match ↦
                  rw (sent_out, in_time, fine, match) (inr (inr (fits-Answer seq msg got.1 match)))
              | inr other ↦ rw (sent_out, in_time, fine, other) rest
            ]
          ]
        ]
      ]

  -- How things stand when `rfscomm` returns
  pub record Exchanged (msg : Rfmsg) (s : Remote W) (r : ℤ) (reply : Rfmsg) (s' : Remote W)
      : Type 0 where
    pub outcome : Outcome s.rf_info.rf_seq msg r reply
    pub table : s'.rfltab ≡ s.rfltab
    pub count : s'.mutex_count ≡ s.mutex_count
    pub number :
        (s'.rf_info.rf_seq ≡ (s.rf_info.rf_seq + 1) % 2 ^ 32)
        ⊎ ((r ≡ syserr) × (s'.rf_info.rf_seq ≡ s.rf_info.rf_seq))

  exchange-Exchanged :
      (msg : Rfmsg) (mlen : ℕ) (reply : Rfmsg) (rlen : ℕ) (s : Remote W)
      → let o = exchange order net msg mlen reply rlen s in Exchanged msg s o.0 o.1 o.2
  unfolding exchange
  exchange-Exchanged msg mlen reply rlen s = record {
    outcome = go (
        loop-Outcome rf_retries s.rf_info.rf_seq s.rf_info.rf_udp_slot _ mlen reply rlen s.network);
    table = refl;
    count = refl;
    number = inl refl;
  }
    where
      go :
          {r : ℤ} {reply : Rfmsg}
          → Outcome s.rf_info.rf_seq
              (record msg { rf_seqno = order.htonl s.rf_info.rf_seq })
              r
              reply
          → Outcome s.rf_info.rf_seq msg r reply
      go (inl failed) = inl failed
      go (inr (inl late)) = inr (inl late)
      go (inr (inr a)) = inr (inr (record { numbered = a.numbered; typed = a.typed }))

  -- One of three ends
  choice :
      (msg : Rfmsg) (s : Remote W) (known full : Bool) (x y z : ℤ × Rfmsg × Remote W)
      → Exchanged msg s x.0 x.1 x.2
      → Exchanged msg s y.0 y.1 y.2
      → Exchanged msg s z.0 z.1 z.2
      → let o = if known then x else if full then y else z in Exchanged msg s o.0 o.1 o.2
  choice msg s true full x y z ex ey ez = ex
  choice msg s false true x y z ex ey ez = ey
  choice msg s false false x y z ex ey ez = ez

  -- Every exchange ends, with SYSERR, with TIMEOUT, or with a reply that has the number of the request
  -- and the type of an answer to it. The control blocks and the mutex are as before, and the next
  -- exchange has the next number, unless the port cannot be registered.
  pub rfscomm-Exchanged :
      (msg : Rfmsg) (mlen : ℕ) (reply : Rfmsg) (rlen : ℕ) (s : Remote W)
      → let o = rfscomm order net msg mlen reply rlen s in Exchanged msg s o.0 o.1 o.2
  unfolding rfscomm
  rfscomm-Exchanged msg mlen reply rlen s =
      let info = s.rf_info in
      let r = net.udp_register info.rf_ser_ip info.rf_ser_port info.rf_local s.network in
      let e = exchange-Exchanged msg mlen reply rlen (record s {
        rf_info = record info { rf_udp_slot = r.0; rf_registered = true };
        network = r.1;
      }) in
      choice msg s info.rf_registered (eqb_ℤ r.0 syserr) _ _ _
        (exchange-Exchanged msg mlen reply rlen s)
        (record { outcome = inl refl; table = refl; count = refl; number = inr (refl, refl) })
        (record { outcome = e.outcome; table = e.table; count = e.count; number = e.number })

  module _ (seq : ℕ) (place : ℤ) (msg : Rfmsg) (mlen rlen : ℕ) where
    abbrev pub sent_at : Rfmsg × W → ℤ × W
    sent_at at = net.udp_send place msg mlen at.1

    abbrev pub received_at : Rfmsg × W → ℤ × Rfmsg × W
    received_at at = net.udp_recv place at.0 rlen rf_timeout (sent_at at).1

    -- The reply buffer and the network before the round `k`
    abbrev pub before : ℕ → Rfmsg × W → Rfmsg × W
    before zero at = at
    before (suc k) at = before k ((received_at at).1, (received_at at).2)

    -- Something came in time that is not the answer.
    abbrev pub Missed : ℤ × Rfmsg × W → Type 0
    Missed got =
        (eqb_ℤ got.0 timeout ≡ false) × (eqb_ℤ got.0 syserr ≡ false) × (¬ Answer seq msg got.1)

    -- The round `k` is the first that brings the answer, and no message fails to be sent up to then.
    pub record Heard (k : ℕ) (at : Rfmsg × W) : Type 0 where
      pub sent : (i : ℕ) → i ≤ k → eqb_ℤ (sent_at (before i at)).0 syserr ≡ false
      pub missed : (i : ℕ) → i < k → Missed (received_at (before i at))
      pub in_time : eqb_ℤ (received_at (before k at)).0 timeout ≡ false
      pub fine : eqb_ℤ (received_at (before k at)).0 syserr ≡ false
      pub match : Answer seq msg (received_at (before k at)).1

    Heard-tail :
        (k : ℕ) (at : Rfmsg × W)
        → Heard (suc k) at
        → Heard k ((received_at at).1, (received_at at).2)
    Heard-tail k at h = record {
      sent = λ i le. h.sent (suc i) (omega (arith, le));
      missed = λ i lt. h.missed (suc i) (omega (arith, lt));
      in_time = h.in_time;
      fine = h.fine;
      match = h.match;
    }

    loop-Heard :
        (rounds k : ℕ) (at : Rfmsg × W)
        → k < rounds
        → Heard k at
        → comm_loop order net rounds seq place msg mlen at.0 rlen at.1 ≡ received_at (before k at)
    unfolding comm_loop
    loop-Heard zero k at lt h = absurd (omega (arith, lt))
    loop-Heard (suc rounds) zero at lt h =
        let match = Answer-fits seq msg (received_at at).1 h.match in
        rw (h.sent 0 (omega arith), h.in_time, h.fine, match) refl
    loop-Heard (suc rounds) (suc k) at lt h =
        let rest =
          loop-Heard rounds k ((received_at at).1, (received_at at).2) (omega (arith, lt))
            (Heard-tail k at h) in
        let m = h.missed 0 (omega arith) in
        let other = other-fits seq msg (received_at at).1 m.2 in
        rw (h.sent 0 (omega arith), m.0, m.1, other) rest

  -- An answer gets through. The port is registered; in one of the `RF_RETRIES` rounds a reply comes
  -- in time that has the number of the request and the type of an answer to it; in each round before
  -- something else comes in time; and all messages up to then can be sent. Then the exchange returns
  -- what that round received.
  pub rfscomm-Heard :
      (msg : Rfmsg) (mlen : ℕ) (reply : Rfmsg) (rlen : ℕ) (s : Remote W) (k : ℕ)
      → s.rf_info.rf_registered ≡ true
      → k < rf_retries
      → let seq = s.rf_info.rf_seq in
        let place = s.rf_info.rf_udp_slot in
        let sent = record msg { rf_seqno = order.htonl seq } in
        Heard seq place sent mlen rlen k (reply, s.network)
        → let seq = s.rf_info.rf_seq in
          let place = s.rf_info.rf_udp_slot in
          let sent = record msg { rf_seqno = order.htonl seq } in
          let got =
            received_at seq place sent mlen rlen
              (before seq place sent mlen rlen k (reply, s.network)) in
          let o = rfscomm order net msg mlen reply rlen s in
          (o.0 ≡ got.0) × ((o.1 ≡ got.1) × (o.2.network ≡ got.2))
  unfolding rfscomm exchange
  rfscomm-Heard msg mlen reply rlen s k known lt h =
      let seq = s.rf_info.rf_seq in
      let loop =
        loop-Heard seq s.rf_info.rf_udp_slot (record msg { rf_seqno = order.htonl seq }) mlen rlen
          rf_retries k (reply, s.network) lt h in
      let o : rfscomm order net msg mlen reply rlen s ≡ exchange order net msg mlen reply rlen s =
        if-true s.rf_info.rf_registered _ _ known in
      (
        ap (λ x. x.0) o ∙ ap (λ x. x.0) loop,
        (ap (λ x. x.1) o ∙ ap (λ x. x.1) loop, ap (λ x. x.2.network) o ∙ ap (λ x. x.2) loop),
      )
