-- ===== src/Udp/Receive.antt =====
-- Receiving: `udp_recv` and `udp_recvaddr` of Chapter17/udp.c.
use os_design_xinu_approach.Prelude.{
  ℕ, zero, suc, ◌+◌, not, ◌||◌, Option, none, some, List, [], ◌∷◌, leb, if◌then◌else◌, ℤ, pos,
  pos_part, ◌-ℤ◌, ltb_ℤ, eqb_ℤ, ◌>>=◌,
}
use os_design_xinu_approach.Queue.{syserr}
use os_design_xinu_approach.State.{ok, timeout, returned, switched, int32_of}
use os_design_xinu_approach.Message.{recvclr, timeout_msg, recvtime_rest, recvtime}
use os_design_xinu_approach.Udp.{
  udp_slots, udp_hdr_len, ud_used, ud_recv, is_used, Udp, set_udp, udp_kernel, free_packet,
  dequeue_packet,
}

-- A call has its result, with the address of the sender and the bytes for the caller's buffer, or it
-- waits for a message and goes on with `recv_rest` or `recvaddr_rest`.
pub data UdpCall : Type 0 where
  received : ℤ → Option (ℕ × ℕ) → List ℕ → Udp → UdpCall
  listening : Udp → UdpCall

-- The bytes of a packet from the place `i` on
unfoldable pub copy_data : (ℕ → ℕ) → ℕ → ℕ → List ℕ
copy_data from zero i = []
copy_data from (suc left) i = from i ∷ copy_data from left (i + 1)

-- What both functions do once a packet has arrived
unfoldable pub take_packet : ℕ → ℤ → Udp → Option (ℤ × (ℕ × ℕ) × List ℕ × Udp)
take_packet i len s = do
  (buf, s1) ← dequeue_packet i s
  let p = s.packet buf
  let whole = pos p.net_udplen -ℤ pos udp_hdr_len
  let msglen = if ltb_ℤ len whole then len else whole
  s2 ← free_packet buf s1
  some (msglen, (p.net_ipsrc, p.net_udpsport), copy_data p.net_udpdata (pos_part msglen) 0, s2)

-- The entry waits for a packet.
abbrev pub expect : ℕ → Udp → Udp
expect i s = set_udp i (record (s.udptab i) { udstate = ud_recv; udpid = s.pools.kernel.currpid }) s

-- `udp_recv` behind `recvtime`
unfoldable pub recv_msg : ℕ → ℤ → ℤ → Udp → Option UdpCall
recv_msg i len msg s =
    let taken = (take_packet i len s >>= λ (n, from, bytes, s1). some (received n none bytes s1)) in
    if eqb_ℤ msg timeout_msg
    then some (received timeout none [] s)
    else if eqb_ℤ msg ok
    then taken
    else some (received syserr none [] s)

unfoldable pub recv_rest : ℕ → ℕ → ℤ → Udp → Option UdpCall
recv_rest c i len s =
    let (m, k) = recvtime_rest c s.pools.kernel in recv_msg i len m (udp_kernel k s)

unfoldable pub udp_recv : ℕ → ℤ → ℕ → Udp → Option UdpCall
udp_recv i len maxwait s =
    let wait_for = (do
      (m, k) ← recvclr s.pools.kernel
      call ← recvtime (int32_of maxwait) k
      elim call [
        | returned msg k' ↦ recv_msg i len msg (udp_kernel k' (expect i s))
        | switched k' ↦ some (listening (udp_kernel k' (expect i s)))
      ]) in
    let taken = (take_packet i len s >>= λ (n, from, bytes, s1). some (received n none bytes s1)) in
    if leb udp_slots i || not (is_used (s.udptab i).udstate)
    then some (received syserr none [] s)
    else if eqb_ℤ (s.udptab i).udcount (pos 0)
    then wait_for
    else taken

-- `udp_recvaddr` behind `recvtime`
unfoldable pub recvaddr_msg : ℕ → ℤ → ℤ → Udp → Option UdpCall
recvaddr_msg i len msg s =
    let s1 = set_udp i (record (s.udptab i) { udstate = ud_used }) s in
    let taken =
      (take_packet i len s1 >>= λ (n, from, bytes, s2). some (received n (some from) bytes s2)) in
    if eqb_ℤ msg timeout_msg
    then some (received timeout none [] s1)
    else if eqb_ℤ msg ok
    then taken
    else some (received syserr none [] s1)

unfoldable pub recvaddr_rest : ℕ → ℕ → ℤ → Udp → Option UdpCall
recvaddr_rest c i len s =
    let (m, k) = recvtime_rest c s.pools.kernel in recvaddr_msg i len m (udp_kernel k s)

unfoldable pub udp_recvaddr : ℕ → ℤ → ℕ → Udp → Option UdpCall
udp_recvaddr i len maxwait s =
    let wait_for = (do
      (m, k) ← recvclr s.pools.kernel
      call ← recvtime (int32_of maxwait) k
      elim call [
        | returned msg k' ↦ recvaddr_msg i len msg (udp_kernel k' (expect i s))
        | switched k' ↦ some (listening (udp_kernel k' (expect i s)))
      ]) in
    let taken =
      (take_packet i len s >>= λ (n, from, bytes, s1). some (received n (some from) bytes s1)) in
    if leb udp_slots i || not (is_used (s.udptab i).udstate)
    then some (received syserr none [] s)
    else if eqb_ℤ (s.udptab i).udcount (pos 0)
    then wait_for
    else taken
