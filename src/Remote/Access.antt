-- ===== src/Remote/Access.antt =====
-- Reading, writing, moving and closing a remote file: rflread.c, rflwrite.c, rflseek.c, rflclose.c,
-- rflgetc.c, rflputc.c and rflinit.c of Chapter20.
use os_design_xinu_approach.Prelude.{
  ℕ, zero, suc, ◌+◌, ◌-◌, ◌%◌, ◌^◌, Bool, not, ◌&&◌, ◌||◌, Option, none, some, List, [], ◌∷◌, ltb,
  ◌==◌, if◌then◌else◌, ℤ, pos, pos_part, ltb_ℤ, leb_ℤ, eqb_ℤ, ◌>>=◌,
}
use os_design_xinu_approach.Queue.{syserr}
use os_design_xinu_approach.State.{ok, timeout, int32_of}
use os_design_xinu_approach.Arp.{Byteorder}
use os_design_xinu_approach.Remote.{
  rf_namlen, rf_datalen, rf_mode_r, rf_mode_w, rf_msg_rreq, rf_msg_wreq, rf_free, unopened, Rfmsg,
  rreq_size, rres_size, Remote, Endpoints, copy_string, allows, set_block, rf_wait, rf_signal,
  leave, rfscomm,
}

module _ {W : Type 0} (order : Byteorder) (net : Endpoints W) where
  -- Whether the caller of `rfscomm` goes on
  abbrev pub succeeded : ℤ → Rfmsg → Bool
  succeeded r resp =
      not (eqb_ℤ r syserr) && not (eqb_ℤ r timeout) && (order.ntohs resp.rf_status == 0)

  -- A position that `len` bytes are added to
  abbrev pub advance : ℕ → ℕ → Remote W → Remote W
  advance minor len s =
      let f = s.rfltab minor in set_block minor (record f { rfpos = (f.rfpos + len) % 2 ^ 32 }) s

  -- The bytes that `rflread` stores for its caller
  unfoldable pub read_data : ℕ → ℕ → (ℕ → ℕ) → List ℕ
  read_data zero i data_of = []
  read_data (suc n) i data_of = data_of i ∷ read_data n (i + 1) data_of

  -- The end of `rflread`, with the outcome of `rfscomm`
  unfoldable pub end_read : ℕ → ℤ × Rfmsg × Remote W → Option (ℤ × List ℕ × Remote W)
  end_read minor (r, resp, s) =
      let len = order.htonl resp.rf_len in
      if not (succeeded r resp)
      then some (syserr, [], rf_signal s)
      else if ltb rf_datalen len
      then none
      else some (int32_of len, read_data len 0 resp.rf_data, rf_signal (advance minor len s))

  -- `junk` is what the variables for the messages hold at first.
  unfoldable pub rflread : Rfmsg → ℕ → ℤ → Remote W → Option (ℤ × List ℕ × Remote W)
  rflread junk minor count s = rf_wait s >>= λ s1.
      let f = s1.rfltab minor in
      let name = copy_string rf_namlen 0 f.rfname (λ i. 0) in
      let msg = record junk {
        rf_type = order.htons rf_msg_rreq;
        rf_status = order.htons 0;
        rf_seqno = 0;
        rf_name = name.1;
        rf_pos = order.htonl f.rfpos;
        rf_len = order.htonl (pos_part count);
      } in
      if leb_ℤ count (pos 0) || ltb_ℤ (pos rf_datalen) count
      then some (syserr, [], rf_signal s1)
      else if unopened f.rfstate
      then some (syserr, [], rf_signal s1)
      else if not (allows f.rfmode rf_mode_r)
      then some (syserr, [], rf_signal s1)
      else elim name.0 [
        | none ↦ some (syserr, [], rf_signal s1)
        | some end ↦ end_read minor (rfscomm order net msg rreq_size junk rres_size s1)
      ]

  -- The end of `rflwrite`, with the outcome of `rfscomm`
  unfoldable pub end_write : ℕ → ℤ × Rfmsg × Remote W → Option (ℤ × Remote W)
  end_write minor (r, resp, s) =
      let len = order.ntohl resp.rf_len in
      if succeeded r resp then leave (int32_of len) (advance minor len s) else leave syserr s

  -- `rflwrite` goes on copying behind the end of the name.
  unfoldable pub rflwrite : Rfmsg → ℕ → (ℕ → ℕ) → ℤ → Remote W → Option (ℤ × Remote W)
  rflwrite junk minor buff count s = rf_wait s >>= λ s1.
      let f = s1.rfltab minor in
      let name = copy_string rf_namlen 0 f.rfname (λ i. 0) in
      if leb_ℤ count (pos 0) || ltb_ℤ (pos rf_datalen) count
      then leave syserr s1
      else if unopened f.rfstate || not (allows f.rfmode rf_mode_w)
      then leave syserr s1
      else elim name.0 [
        | none ↦ leave syserr s1
        | some end ↦
            let more = copy_string (rf_namlen - (end + 1)) (end + 1) f.rfname name.1 in
            more.0 >>= λ end2.
            let msg = record junk {
              rf_type = order.htons rf_msg_wreq;
              rf_status = order.htons 0;
              rf_seqno = 0;
              rf_name = more.1;
              rf_pos = order.htonl f.rfpos;
              rf_len = order.htonl (pos_part count);
              rf_data = λ i. if ltb i (pos_part count) then buff i else 0;
            } in
            end_write minor (rfscomm order net msg rres_size junk rreq_size s1)
      ]

  unfoldable pub rflseek : ℕ → ℕ → Remote W → Option (ℤ × Remote W)
  rflseek minor position s = rf_wait s >>= λ s1.
      let f = s1.rfltab minor in
      if unopened f.rfstate
      then leave syserr s1
      else leave ok (set_block minor (record f { rfpos = position }) s1)

  unfoldable pub rflclose : ℕ → Remote W → Option (ℤ × Remote W)
  rflclose minor s = rf_wait s >>= λ s1.
      let f = s1.rfltab minor in
      if unopened f.rfstate
      then leave syserr s1
      else leave ok (set_block minor (record f { rfstate = rf_free }) s1)

  unfoldable pub rflgetc : Rfmsg → ℕ → Remote W → Option (ℤ × Remote W)
  rflgetc junk minor s = rflread junk minor (pos 1) s >>= λ (retval, bytes, s').
      if not (eqb_ℤ retval (pos 1))
      then some (syserr, s')
      else elim bytes [ [] ↦ none | ch ∷ others ↦ some (pos ch, s') ]

  unfoldable pub rflputc : Rfmsg → ℕ → ℕ → Remote W → Option (ℤ × Remote W)
  rflputc junk minor ch s = rflwrite junk minor (λ i. ch) (pos 1) s >>= λ (retval, s').
      if not (eqb_ℤ retval (pos 1)) then some (syserr, s') else some (ok, s')

  unfoldable pub rflinit : ℕ → ℤ → Remote W → ℤ × Remote W
  rflinit minor dvnum s =
      let f = record (s.rfltab minor) {
        rfstate = rf_free;
        rfdev = dvnum;
        rfname = λ i. if ltb i rf_namlen then 0 else (s.rfltab minor).rfname i;
        rfpos = 0;
        rfmode = 0;
      } in
      (ok, set_block minor f s)
