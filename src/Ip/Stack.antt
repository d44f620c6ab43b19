-- ===== src/Ip/Stack.antt =====
-- Receiving and sending IP packets: `ip_in`, `ip_send`, `ip_local`, `ip_out`, `ip_ntoh`, `ip_hton` and
-- `ipout` of Chapter17/ip.c. A packet is the address of its buffer; the words of its IP header stand in
-- memory as on a little-endian machine. What lies above and below IP is an interface.
use Prim.Native.Nat.{bit_and}
use os_design_xinu_approach.Prelude.{
  ℕ, ◌+◌, ◌*◌, ◌/◌, ◌%◌, Bool, false, not, ◌||◌, Option, none, some, List, leb, ◌==◌, if◌then◌else◌,
  ℤ, pos, ◌-ℤ◌, eqb_ℤ, ◌>>=◌,
}
use os_design_xinu_approach.Queue.{syserr}
use os_design_xinu_approach.State.{ok}
use os_design_xinu_approach.Arp.{ip_bcast, Byteorder}
use os_design_xinu_approach.Ip.{ip_oqsiz, ipcksum, Iqentry}

-- `IP_ICMP`, `IP_UDP`, `IP_HDR_LEN`, `IP_VH` and `ETH_HDR_LEN`
abbrev pub ip_icmp : ℕ
ip_icmp = 1

abbrev pub ip_udp : ℕ
ip_udp = 17

abbrev pub ip_hdr_len : ℕ
ip_hdr_len = 20

abbrev pub ip_vh : ℕ
ip_vh = 69

abbrev pub eth_hdr_len : ℕ
eth_hdr_len = 14

-- The addresses of `struct network` that IP reads
pub record Ipnet : Type 0 where
  pub ip_ucast : ℕ
  pub net_bcast : ℕ
  pub ip_mask : ℕ
  pub ip_prefix : ℕ
  pub ip_router : ℕ
  pub ip_valid : Bool
  pub eth_ucast : List ℕ
  pub eth_bcast : List ℕ

-- `struct netpacket`: `body` is what follows the IP header.
pub record Frame : Type 0 where
  pub net_ethdst : List ℕ
  pub net_ethsrc : List ℕ
  pub net_ethtype : ℕ
  pub words : ℕ → ℕ
  pub body : ℕ → ℕ

abbrev pub long_at : ℕ → Frame → ℕ
long_at i f = f.words i + 65536 * f.words (i + 1)

abbrev pub net_ipvh : Frame → ℕ
net_ipvh f = f.words 0 % 256

abbrev pub net_iplen : Frame → ℕ
net_iplen f = f.words 1

abbrev pub net_ipproto : Frame → ℕ
net_ipproto f = f.words 4 / 256

abbrev pub net_ipdst : Frame → ℕ
net_ipdst f = long_at 8 f

-- The words of a header whose fields of more than a byte are converted
abbrev pub converted : (ℕ → ℕ) → (ℕ → ℕ) → Frame → ℕ → ℕ
converted short long f i =
    if (i == 1) || (i == 2) || (i == 3)
    then short (f.words i)
    else if i == 6
    then long (long_at 6 f) % 65536
    else if i == 7
    then long (long_at 6 f) / 65536
    else if i == 8
    then long (long_at 8 f) % 65536
    else if i == 9
    then long (long_at 8 f) / 65536
    else f.words i

unfoldable pub ip_ntoh : Byteorder → Frame → Frame
ip_ntoh order f = record f { words = converted order.ntohs order.ntohl f }

unfoldable pub ip_hton : Byteorder → Frame → Frame
ip_hton order f = record f { words = converted order.htons order.htonl f }

-- `pktptr->net_ipcksum = c`
abbrev pub set_cksum : ℕ → Frame → Frame
set_cksum c f = record f { words = λ i. if i == 5 then c else f.words i }

-- The header in network byte order, with its checksum
unfoldable pub sealed : Byteorder → Frame → Frame
sealed order f =
    let blank = set_cksum 0 (ip_hton order f) in
    set_cksum (order.htons (ipcksum order blank.words) % 65536) blank

-- `interrupts` is the mask that `disable` and `restore` change.
pub record Ipstate (W : Type 0) : Type 0 where
  pub netdata : Ipnet
  pub packets : ℕ → Frame
  pub output : Iqentry
  pub interrupts : Bool
  pub others : W

-- `udp_in`, `arp_resolve`, `freebuf`, the conversions of UDP and Ethernet headers, `write(ETHER0, …)`, and
-- the functions for ICMP, which have no source
pub record Stack (W : Type 0) : Type 0 where
  pub release : ℕ → Ipstate W → Option (Ipstate W)
  pub to_udp : ℕ → Ipstate W → Option (Ipstate W)
  pub to_icmp : ℕ → Ipstate W → Option (Ipstate W)
  pub resolve : ℕ → ℕ → Ipstate W → Option (ℤ × Ipstate W)
  pub transmit : ℕ → ℤ → Ipstate W → Option (ℤ × Ipstate W)
  pub eth_conv : Frame → Frame
  pub udp_to_host : Frame → Frame
  pub udp_to_net : Frame → Frame
  pub icmp_to_host : Frame → Frame
  pub icmp_to_net : Frame → Frame
  pub icmp_cksum : Frame → ℤ → ℕ
  pub set_iccksum : ℕ → Frame → Frame
  pub set_udpcksum : ℕ → Frame → Frame

abbrev pub set_packet : {W : Type 0} → ℕ → Frame → Ipstate W → Ipstate W
set_packet buf f s = record s { packets = λ x. if buf == x then f else s.packets x }

module _ {W : Type 0} (order : Byteorder) (stack : Stack W) where
  unfoldable pub ip_local : ℕ → Ipstate W → Option (Ipstate W)
  ip_local buf s =
      let proto = net_ipproto (s.packets buf) in
      if proto == ip_udp
      then stack.to_udp buf s
      else if proto == ip_icmp
      then stack.to_icmp buf s
      else stack.release buf s

  -- Who takes a packet that is in host byte order
  unfoldable pub accept_in : ℕ → Ipstate W → Option (Ipstate W)
  accept_in buf s =
      let f = s.packets buf in
      let dest = net_ipdst f in
      let net = s.netdata in
      if dest == ip_bcast
      then ip_local buf s
      else if not net.ip_valid
      then (if net_ipproto f == ip_udp then ip_local buf s else stack.release buf s)
      else if (dest == net.ip_ucast) || (dest == net.net_bcast) || (dest == ip_bcast)
      then ip_local buf s
      else stack.release buf s

  unfoldable pub ip_in : ℕ → Ipstate W → Option (Ipstate W)
  ip_in buf s =
      let f = ip_ntoh order (s.packets buf) in
      let s1 = set_packet buf f s in
      let proto = net_ipproto f in
      if not (ipcksum order (s.packets buf).words == 0)
      then stack.release buf s
      else if not (net_ipvh f == ip_vh)
      then stack.release buf s1
      else if proto == ip_udp
      then accept_in buf (set_packet buf (stack.udp_to_host f) s)
      else if proto == ip_icmp
      then (if not (stack.icmp_cksum f (pos (net_iplen f) -ℤ pos ip_hdr_len) == 0)
          then stack.release buf s1
          else accept_in buf (set_packet buf (stack.icmp_to_host f) s))
      else accept_in buf s1

  -- The packet with what it carries in network byte order
  unfoldable pub outgoing : Frame → Frame
  outgoing f =
      let proto = net_ipproto f in
      let icmp = stack.set_iccksum 0 (stack.icmp_to_net f) in
      if proto == ip_udp
      then stack.udp_to_net (stack.set_udpcksum 0 f)
      else if proto == ip_icmp
      then stack.set_iccksum
          (order.htons (stack.icmp_cksum icmp (pos (net_iplen f) -ℤ pos ip_hdr_len)) % 65536) icmp
      else f

  unfoldable pub ip_out : ℕ → Ipstate W → Option (ℤ × Ipstate W)
  ip_out buf s =
      let f = s.packets buf in
      let g = stack.eth_conv (sealed order (outgoing f)) in
      stack.transmit buf (pos (net_iplen f + eth_hdr_len)) (set_packet buf g s) >>= λ (retval, s1).
      stack.release buf s1 >>= λ s2.
      if eqb_ℤ retval syserr then some (syserr, s2) else some (ok, s2)

  -- Where to send a packet for another computer; 0 is nowhere.
  abbrev pub next_hop : Ipnet → ℕ → ℕ
  next_hop net dest = if bit_and dest net.ip_mask == net.ip_prefix then dest else net.ip_router

  abbrev pub restore_to : Bool → ℤ × Ipstate W → ℤ × Ipstate W
  restore_to mask (r, s) = (r, record s { interrupts = mask })

  -- The part of `ip_send` for other computers; where it gives up, it does not restore the mask.
  unfoldable pub send_on : Bool → ℕ → Ipstate W → Option (ℤ × Ipstate W)
  send_on mask buf s =
      let nxthop = next_hop s.netdata (net_ipdst (s.packets buf)) in
      if nxthop == 0
      then (stack.release buf s >>= λ s1. some (syserr, s1))
      else stack.resolve nxthop buf s >>= λ (retval, s1).
          if not (eqb_ℤ retval ok)
          then (stack.release buf s1 >>= λ s2. some (syserr, s2))
          else ip_out buf s1 >>= λ o. some (restore_to mask o)

  unfoldable pub ip_send : ℕ → Ipstate W → Option (ℤ × Ipstate W)
  ip_send buf s =
      let dest = net_ipdst (s.packets buf) in
      let off = record s { interrupts = false } in
      let everyone = record (s.packets buf) { net_ethdst = s.netdata.eth_bcast } in
      if (bit_and dest 4278190080 == 2130706432) || (dest == s.netdata.ip_ucast)
      then (ip_local buf off >>= λ s1. some (restore_to s.interrupts (ok, s1)))
      else if (dest == ip_bcast) || (dest == s.netdata.net_bcast)
      then (ip_out buf (set_packet buf everyone off) >>= λ o. some (restore_to s.interrupts o))
      else send_on s.interrupts buf off

  -- One round of `ipout`, when its wait for a packet has returned
  unfoldable pub ipout_round : Ipstate W → Option (Ipstate W)
  ipout_round s =
      let head = s.output.iqhead + 1 in
      let buf = s.output.iqbuf s.output.iqhead in
      let f = record (s.packets buf) { net_ethsrc = s.netdata.eth_ucast } in
      let taken = record s {
        output = record s.output { iqhead = if leb ip_oqsiz head then 0 else head };
      } in
      let s1 = set_packet buf f taken in
      let dest = net_ipdst f in
      let nxthop = next_hop s.netdata dest in
      if leb ip_oqsiz s.output.iqhead
      then none
      else if (dest == ip_bcast) || (dest == s.netdata.net_bcast)
      then stack.release buf s1
      else if dest == s.netdata.ip_ucast
      then ip_local buf s1
      else if nxthop == 0
      then stack.release buf s1
      else stack.resolve nxthop buf s1 >>= λ (retval, s2).
          if not (eqb_ℤ retval ok)
          then stack.release buf s2
          else ip_out buf s2 >>= λ (r, s3). some s3
