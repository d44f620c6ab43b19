-- ===== src/Disk/Server.antt =====
-- The remote disk and its server: rdscomm.c and rdsopen.c of Chapter18. The network is an interface.
use Prim.Native.Nat.{bit_or}
use os_design_xinu_approach.Prelude.{
  ℕ, zero, suc, ◌+◌, ◌%◌, ◌^◌, Bool, true, false, not, ◌||◌, none, some, ltb, ◌==◌, if◌then◌else◌,
  ℤ, pos, eqb_ℤ,
}
use os_design_xinu_approach.Queue.{syserr}
use os_design_xinu_approach.State.{ok, timeout}
use os_design_xinu_approach.Arp.{Byteorder}
use os_design_xinu_approach.Remote.{copy_string, int16_of}
use os_design_xinu_approach.Disk.{Rdstate, rd_free, rd_open, rd_pend, Rdscblk}

-- `RD_IDLEN`, `RD_RETRIES`, `RD_TIMEOUT`, `RD_MSG_RESPONSE` and `RD_MSG_OREQ`
abbrev pub rd_idlen : ℕ
rd_idlen = 64

abbrev pub rd_retries : ℕ
rd_retries = 3

abbrev pub rd_timeout : ℕ
rd_timeout = 2000

abbrev pub rd_msg_response : ℕ
rd_msg_response = 256

abbrev pub rd_msg_oreq : ℕ
rd_msg_oreq = 48

abbrev pub is_idle : Rdstate → Bool
is_idle rd_free = true
is_idle rd_open = false
is_idle rd_pend = false

-- The header of a message, as it is sent, and its data
pub record Rdmsg : Type 0 where
  pub rd_type : ℕ
  pub rd_status : ℕ
  pub rd_seqno : ℕ
  pub rd_disk : ℕ → ℕ
  pub rd_blk : ℕ
  pub rd_data : ℕ → ℕ

-- `udp_register`, `udp_sendto`, which has no source, `udp_recv`, and whether there is a local address,
-- after `getlocalip` if need be
pub record Diskserver (W : Type 0) : Type 0 where
  pub register : ℕ → ℕ → ℕ → W → ℤ × W
  pub send_to : ℤ → ℕ → ℕ → Rdmsg → ℕ → W → ℤ × W
  pub receive_from : ℤ → Rdmsg → ℕ → ℕ → W → ℤ × Rdmsg × W
  pub located : W → Bool × W

-- The size of the messages to open a disk
abbrev pub rd_oreq_size : ℕ
rd_oreq_size = 72

module _ {W : Type 0} (order : Byteorder) (net : Diskserver W) where
  -- The type of the reply belongs to the request.
  abbrev pub fits_type : Rdmsg → Rdmsg → Bool
  fits_type msg reply =
      eqb_ℤ (int16_of (order.ntohs reply.rd_type))
        (pos (bit_or (order.ntohs msg.rd_type) rd_msg_response))

  abbrev pub reply_status : Rdmsg → ℤ
  reply_status reply = if order.ntohs reply.rd_status == 0 then ok else syserr

  -- The loop of `rdscomm`, by the rounds that are left. A reply to an earlier request only keeps the next
  -- round from sending; its type is looked at as if it were the answer.
  unfoldable pub retry_loop : ℕ → Bool → Rdscblk → ℕ → Rdmsg → ℕ → Rdmsg → ℕ → W → ℤ × Rdmsg × W
  retry_loop zero xmit d seq msg mlen reply rlen w = (timeout, reply, w)
  retry_loop (suc rounds) xmit d seq msg mlen reply rlen w =
      let sent =
        if xmit then net.send_to d.rd_udpslot d.rd_ser_ip d.rd_ser_port msg mlen w else (ok, w) in
      let got = net.receive_from d.rd_udpslot reply rlen rd_timeout sent.1 in
      let again = retry_loop rounds true d seq msg mlen got.1 rlen got.2 in
      let listen = retry_loop rounds false d seq msg mlen got.1 rlen got.2 in
      let number = order.ntohl got.1.rd_seqno in
      if eqb_ℤ sent.0 syserr
      then (syserr, reply, sent.1)
      else if eqb_ℤ got.0 timeout
      then again
      else if eqb_ℤ got.0 syserr
      then (syserr, got.1, got.2)
      else if ltb number seq
      then (if fits_type msg got.1 then (reply_status got.1, got.1, got.2) else listen)
      else if not (number == seq)
      then again
      else if fits_type msg got.1
      then (reply_status got.1, got.1, got.2)
      else again

  -- `rdscomm` behind the registration of the port
  unfoldable pub ask : Rdmsg → ℕ → Rdmsg → ℕ → Rdscblk → W → ℤ × Rdmsg × Rdscblk × W
  ask msg mlen reply rlen d w =
      let here = net.located w in
      let seq = d.rd_seq in
      let msg' = record msg { rd_seqno = order.htonl seq } in
      let r = retry_loop rd_retries true d seq msg' mlen reply rlen here.1 in
      if not here.0
      then (syserr, reply, d, here.1)
      else (r.0, r.1, record d { rd_seq = (seq + 1) % 2 ^ 32 }, r.2)

  unfoldable pub rdscomm : Rdmsg → ℕ → Rdmsg → ℕ → Rdscblk → W → ℤ × Rdmsg × Rdscblk × W
  rdscomm msg mlen reply rlen d w =
      let r = net.register 0 d.rd_ser_port d.rd_loc_port w in
      let registered = record d { rd_udpslot = r.0; rd_registered = true } in
      if d.rd_registered
      then ask msg mlen reply rlen d w
      else if eqb_ℤ r.0 syserr
      then (syserr, reply, d, r.1)
      else ask msg mlen reply rlen registered r.1

  -- `junk` is what the variables for the messages hold at first. An ID that is too long, or empty, leaves
  -- the device in the state RD_PEND.
  unfoldable pub rdsopen : Rdmsg → ℤ → (ℕ → ℕ) → Rdscblk → W → ℤ × Rdscblk × W
  rdsopen junk dvnum diskid d w =
      let copied = copy_string rd_idlen 0 diskid d.rd_id in
      let opening = record d { rd_state = rd_pend; rd_id = copied.1 } in
      let msg = record junk {
        rd_type = order.htons rd_msg_oreq;
        rd_status = order.htons 0;
        rd_seqno = 0;
        rd_disk = (copy_string rd_idlen 0 diskid (λ i. 0)).1;
      } in
      let r = rdscomm msg rd_oreq_size junk rd_oreq_size opening w in
      if not (is_idle d.rd_state) then (syserr, d, w) else elim copied.0 [
        | none ↦ (syserr, opening, w)
        | some end ↦
            if end == 0
            then (syserr, opening, w)
            else if eqb_ℤ r.0 syserr || eqb_ℤ r.0 timeout || not (order.ntohs r.1.rd_status == 0)
            then (syserr, record r.2 { rd_state = rd_free }, r.3)
            else (dvnum, record r.2 { rd_state = rd_open }, r.3)
      ]
