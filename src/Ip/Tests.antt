-- ===== src/Ip/Tests.antt =====
-- Tests of the IP checksum, and its theorem at a header.
use os_design_xinu_approach.Prelude.{
  ℕ, ◌+◌, ◌*◌, ◌/◌, ◌%◌, ◌<◌, ◌≡◌, refl, ◌≢◌, true, some, [], arith, ◌==◌, if◌then◌else◌, pos,
  ◌>>=◌,
}
use os_design_xinu_approach.Arp.{Byteorder}
use os_design_xinu_approach.Ip.{sum_words, ipcksum}
use os_design_xinu_approach.State.{ok}
use os_design_xinu_approach.Ip.Stack.{
  Frame, ip_ntoh, sealed, Ipstate, Stack, set_packet, ip_local, ip_in, ip_send,
}
use os_design_xinu_approach.Ip.Transfer.{Inverse, ip_in-sealed}
use os_design_xinu_approach.Ip.Checksum.{Htons, with_cksum, ipcksum-verifies}

-- The conversions of a machine whose numbers have the order of the network
abbrev big_endian : Byteorder
big_endian = record {
  htons = λ n. n % 65536;
  htonl = λ n. n % 4294967296;
  ntohs = λ n. n % 65536;
  ntohl = λ n. n % 4294967296;
}

big_endian-Htons : Htons big_endian
big_endian-Htons = record {
  small = λ w. omega arith;
  keeps_zero = refl;
  twice = λ w lt. omega (arith, lt);
}

-- The header of a packet of 115 bytes from 192.168.0.1 to 192.168.0.199
abbrev header : ℕ → ℕ
header i =
    if i == 0
    then 17664
    else if i == 1
    then 115
    else if i == 3
    then 16384
    else if i == 4
    then 16401
    else if i == 6
    then 49320
    else if i == 7
    then 1
    else if i == 8
    then 49320
    else if i == 9
    then 199
    else 0

header_cksum : ipcksum big_endian (with_cksum 0 header) ≡ 47201
unfolding ipcksum sum_words
header_cksum = refl

ipcksum-verifies_example :
    ipcksum big_endian
      (with_cksum (big_endian.htons (ipcksum big_endian (with_cksum 0 header))) header)
    ≡ 0
ipcksum-verifies_example = ipcksum-verifies big_endian header big_endian-Htons

abbrev swap_short : ℕ → ℕ
swap_short n = n % 256 * 256 + n / 256 % 256

abbrev swap_long : ℕ → ℕ
swap_long n =
    n % 256 * 16777216 + n / 256 % 256 * 65536 + n / 65536 % 256 * 256 + n / 16777216 % 256

-- The conversions of a little-endian machine
abbrev little_endian : Byteorder
little_endian = record {
  htons = swap_short;
  htonl = swap_long;
  ntohs = swap_short;
  ntohl = swap_long;
}

swap_short-back : (w : ℕ) → w < 65536 → swap_short (swap_short w) ≡ w
swap_short-back w lt = omega (arith, lt)

swap_long-back : (w : ℕ) → w < 4294967296 → swap_long (swap_long w) ≡ w
swap_long-back w lt = omega (arith, lt)

little_endian-Inverse : Inverse little_endian
little_endian-Inverse = record {
  shorts = record { small = λ w. omega arith; keeps_zero = refl; twice = swap_short-back };
  short_back = swap_short-back;
  long_small = λ w. omega arith;
  long_back = swap_long-back;
}

-- A packet of 115 bytes to 192.168.0.199, in host byte order
abbrev datagram : Frame
datagram = record {
  net_ethdst = [];
  net_ethsrc = [];
  net_ethtype = 2048;
  words = λ i.
      if i == 0
      then 69
      else if i == 1
      then 115
      else if i == 4
      then 4416
      else if i == 6
      then 1
      else if i == 7
      then 49320
      else if i == 8
      then 199
      else if i == 9
      then 49320
      else 0;
  body = λ i. 0;
}

-- `others` counts the packets that have been handed to UDP.
abbrev receiver : Ipstate ℕ
receiver = record {
  netdata = record {
    ip_ucast = 3232235719;
    net_bcast = 3232235775;
    ip_mask = 4294967040;
    ip_prefix = 3232235520;
    ip_router = 3232235521;
    ip_valid = true;
    eth_ucast = [];
    eth_bcast = [];
  };
  packets = λ buf. sealed little_endian datagram;
  output = record { iqhead = 0; iqtail = 0; iqsem = pos 0; iqbuf = λ i. 0 };
  interrupts = true;
  others = 0;
}

abbrev stack : Stack ℕ
stack = record {
  release = λ buf s. some s;
  to_udp = λ buf s. some (record s { others = s.others + 1 });
  to_icmp = λ buf s. some s;
  resolve = λ hop buf s. some (ok, s);
  transmit = λ buf len s. some (len, s);
  eth_conv = λ f. f;
  udp_to_host = λ f. f;
  udp_to_net = λ f. f;
  icmp_to_host = λ f. f;
  icmp_to_net = λ f. f;
  icmp_cksum = λ f len. 0;
  set_iccksum = λ c f. f;
  set_udpcksum = λ c f. f;
}

datagram_small : (i : ℕ) → datagram.words i < 65536
datagram_small i = ground arith

ip_in-sealed_example :
    let h = ip_ntoh little_endian (sealed little_endian datagram) in
    (ip_in little_endian stack 0 receiver ≡ stack.to_udp 0 (set_packet 0 h receiver))
    × ((i : ℕ) → i < 10 → i ≢ 5 → h.words i ≡ datagram.words i)
ip_in-sealed_example =
    ip_in-sealed little_endian stack datagram 0 receiver little_endian-Inverse datagram_small refl
      refl refl refl refl (λ g. refl)

-- A packet to the own address is handed to UDP at once.
ip_send_run :
    (ip_send little_endian stack 0 (set_packet 0 datagram receiver) >>= λ (r, s). some s.others)
    ≡ some 1
unfolding ip_send ip_local
ip_send_run = refl
