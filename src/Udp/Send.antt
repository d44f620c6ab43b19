-- ===== src/Udp/Send.antt =====
-- Sending UDP packets: `udp_send` and `udp_sento` of Chapter17/udp.c over `ip_send`. `take_buffer` is
-- `getbuf(netbufpool)`; it may wait for a buffer, with `none` for a wait without an end.
use os_design_xinu_approach.Prelude.{
  ℕ, ◌+◌, ◌-◌, ◌*◌, ◌/◌, ◌%◌, ◌||◌, Option, none, some, ltb, leb, ◌==◌, if◌then◌else◌, ℤ, pos,
  pos_part, ◌+ℤ◌, ltb_ℤ, eqb_ℤ, ◌>>=◌,
}
use os_design_xinu_approach.Queue.{syserr}
use os_design_xinu_approach.State.{ok, uint_of}
use os_design_xinu_approach.Arp.{Byteorder}
use os_design_xinu_approach.Ip.Stack.{ip_udp, ip_vh, Frame, Ipstate, Stack, set_packet, ip_send}
use os_design_xinu_approach.Udp.{udp_slots, udp_hdr_len, is_unused, Udpentry}

-- The endpoints, the static variable `ident` of the function, and IP
pub record Sender (W : Type 0) : Type 0 where
  pub endpoints : ℕ → Udpentry
  pub ident : ℕ
  pub below : Ipstate W

-- The bytes in `net_udpdata`
abbrev pub udp_data_size : ℕ
udp_data_size = 1472

-- The words of the IP header of a new packet
abbrev pub new_words : ℕ → ℤ → ℕ → ℕ → ℕ → ℕ
new_words ident len src dst i =
    if i == 0
    then ip_vh
    else if i == 1
    then uint_of 16 (pos 28 +ℤ len)
    else if i == 2
    then ident
    else if i == 4
    then 255 + 256 * ip_udp
    else if i == 6
    then src % 65536
    else if i == 7
    then src / 65536
    else if i == 8
    then dst % 65536
    else if i == 9
    then dst / 65536
    else 0

-- A word, as one of the bytes `at` and `at + 1`
abbrev pub byte_of : ℕ → ℕ → ℕ → ℕ
byte_of at w i = if i == at then w % 256 else w / 256

-- The UDP header and the data, behind the IP header
abbrev pub new_body : ℕ → ℕ → ℤ → (ℕ → ℕ) → (ℕ → ℕ) → ℕ → ℕ
new_body sport dport len buff old i =
    if ltb i 2
    then byte_of 0 sport i
    else if ltb i 4
    then byte_of 2 dport i
    else if ltb i 6
    then byte_of 4 (uint_of 16 (pos udp_hdr_len +ℤ len)) i
    else if ltb i 8
    then 0
    else if ltb (i - 8) (pos_part len)
    then buff (i - 8)
    else old i

abbrev pub new_packet : {W : Type 0} → Sender W → ℕ → ℕ → ℕ → ℕ → (ℕ → ℕ) → ℤ → Frame → Frame
new_packet s src dst sport dport buff len old = record old {
  net_ethsrc = s.below.netdata.eth_ucast;
  net_ethtype = 2048;
  words = new_words s.ident len src dst;
  body = new_body sport dport len buff old.body;
}

module _ {W : Type 0} (order : Byteorder) (stack : Stack W)
    (take_buffer : Ipstate W → Option (ℤ × Ipstate W)) where
  -- The packet is made in a new buffer and sent; what `ip_send` returns is not looked at.
  unfoldable pub send_new : ℕ → ℕ → ℕ → ℕ → (ℕ → ℕ) → ℤ → Sender W → Option (ℤ × Sender W)
  send_new src dst sport dport buff len s = take_buffer s.below >>= λ (got, below).
      let buf = pos_part got in
      let f = new_packet s src dst sport dport buff len (below.packets buf) in
      if eqb_ℤ got syserr
      then some (syserr, record s { below = below })
      else if ltb_ℤ (pos udp_data_size) len
      then none
      else ip_send order stack buf (set_packet buf f below) >>= λ (r, below').
          some (ok, record s { ident = (s.ident + 1) % 65536; below = below' })

  -- `locip` has 16 bits.
  unfoldable pub udp_send : ℕ → (ℕ → ℕ) → ℤ → Sender W → Option (ℤ × Sender W)
  udp_send i buff len s =
      let e = s.endpoints i in
      let locip = s.below.netdata.ip_ucast % 65536 in
      if leb udp_slots i || is_unused e.udstate || (e.udremip == 0)
      then some (syserr, s)
      else send_new locip e.udremip e.udlocport e.udremport buff len s

  unfoldable pub udp_sento : ℕ → ℕ → ℕ → (ℕ → ℕ) → ℤ → Sender W → Option (ℤ × Sender W)
  udp_sento i remip remport buff len s =
      let e = s.endpoints i in
      if leb udp_slots i || is_unused e.udstate
      then some (syserr, s)
      else send_new s.below.netdata.ip_ucast remip e.udlocport remport buff len s
