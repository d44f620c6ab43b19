-- ===== src/Arp/Tests.antt =====
-- Tests of the ARP cache, and its theorem at a small cache.
use os_design_xinu_approach.Prelude.{
  ℕ, ◌≡◌, refl, true, false, some, [], ◌∷◌, ◌++◌, ◌==◌, if◌then◌else◌, pos, Runs,
}
use os_design_xinu_approach.State.{ok, set_count, set_field}
use os_design_xinu_approach.Samples.{kernel}
use os_design_xinu_approach.Semaphore.{signal}
use os_design_xinu_approach.Pool.{Pools, freebuf}
use os_design_xinu_approach.Tables.{search}
use os_design_xinu_approach.Arp.{
  ip_bcast, ar_pending, Arppacket, Arp, Byteorder, pending, blank_entry, free_slot, arp_ntoh,
}
use os_design_xinu_approach.Arp.Resolve.{answered, arp_resolve}
use os_design_xinu_approach.Arp.Receive.{reply, arp_in}
use os_design_xinu_approach.Arp.Learn.{Asks, Handled, arp_in-arp_resolve}

-- The conversions of a machine whose numbers have the order of the network
abbrev big_endian : Byteorder
big_endian = record { htons = λ n. n; htonl = λ n. n; ntohs = λ n. n; ntohl = λ n. n }

-- The pool 0 has the buffer 8192 of a packet in its first eight bytes.
abbrev packets : Pools
packets = record {
  kernel = record kernel {
    semtab = λ s. record { sused = true; scount = pos 2; squeue = pos 102 };
  };
  buftab = λ p. record { bpnext = 9000; bpsem = pos 1; bpsize = 512 };
  nbpools = 1;
  cells = λ a. 0;
}

-- The first entry is pending, the others are free.
abbrev interface : Arp
interface = record {
  pools = packets;
  arpcache = λ i.
      if i == 0
      then record { arstate = ar_pending; arpaddr = 77; arpid = pos 3; arhaddr = [] }
      else blank_entry;
  netdata = record {
    ipucast = 20;
    ipbcast = 255;
    ipvalid = true;
    ethucast = 2 ∷ 2 ∷ 2 ∷ 2 ∷ 2 ∷ 2 ∷ [];
    ethbcast = 255 ∷ 255 ∷ 255 ∷ 255 ∷ 255 ∷ 255 ∷ [];
  };
  sent = [];
}

abbrev no_packet : Arppacket
no_packet = record {
  arp_ethdst = [];
  arp_ethsrc = [];
  arp_ethtype = 0;
  arp_htype = 0;
  arp_ptype = 0;
  arp_hlen = 0;
  arp_plen = 0;
  arp_op = 0;
  arp_sndha = [];
  arp_sndpa = 0;
  arp_tarha = [];
  arp_tarpa = 0;
}

-- The machine 30 asks for the hardware address of 20.
abbrev question : Arppacket
question = record no_packet {
  arp_htype = 1;
  arp_ptype = 2048;
  arp_op = 1;
  arp_sndha = 3 ∷ 3 ∷ 3 ∷ 3 ∷ 3 ∷ 3 ∷ [];
  arp_sndpa = 30;
  arp_tarpa = 20;
}

question-Asks : Asks (arp_ntoh big_endian question) interface
unfolding arp_ntoh search
question-Asks = record {
  hardware = refl;
  protocol = refl;
  no_reply = refl;
  valid = refl;
  target = refl;
  stranger = refl;
}

second_free : free_slot interface.arpcache ≡ some 1
unfolding search
second_free = refl

abbrev returned_packets : Pools
returned_packets = record packets {
  kernel = set_count packets.kernel 1 (pos 3);
  cells = set_field packets.cells 8192 9000;
}

drop_question : freebuf 8196 packets ≡ some (ok, returned_packets)
unfolding freebuf signal
drop_question = refl

known_address : ((arp_ntoh big_endian question).arp_sndpa == ip_bcast) ≡ false
unfolding arp_ntoh
known_address = refl

local_address : ((arp_ntoh big_endian question).arp_sndpa == interface.netdata.ipbcast) ≡ false
unfolding arp_ntoh
local_address = refl

arp_in-arp_resolve_example : Runs (arp_in big_endian no_packet 8196 question interface) (
    Handled λ s'.
      (arp_resolve big_endian (arp_ntoh big_endian question).arp_sndpa s'
        ≡ some (answered ok (some question.arp_sndha) s'))
      × (s'.sent
          ≡ interface.sent
            ++ reply big_endian no_packet 8196 (arp_ntoh big_endian question) interface ∷ [])
      × ((x : ℕ)
          → pending (interface.arpcache x).arstate ≡ true
          → s'.arpcache x ≡ interface.arpcache x))
arp_in-arp_resolve_example =
    arp_in-arp_resolve big_endian no_packet question 8196 1 interface ok returned_packets
      question-Asks second_free drop_question known_address local_address
