-- ===== src/Udp/Tests.antt =====
-- Tests of the UDP endpoints, and their theorems at a table with one endpoint.
use os_design_xinu_approach.Prelude.{
  ℕ, ◌≡◌, refl, sym, ◌∙◌, true, some, arith, ◌==◌, if◌then◌else◌, pos,
}
use os_design_xinu_approach.State.{ok, set_count, set_field}
use os_design_xinu_approach.Samples.{kernel}
use os_design_xinu_approach.Semaphore.{signal}
use os_design_xinu_approach.Tables.{search}
use os_design_xinu_approach.Pool.{Pools, freebuf}
use os_design_xinu_approach.Udp.{
  Udstate, ud_free, ud_used, Udpentry, Udp, udp_in, no_slot, register_in, udp_register,
}
use os_design_xinu_approach.Udp.Endpoints.{UsedFor, Separate, udp_register-Separate}
use os_design_xinu_approach.Udp.Dropped.{Short, udp_in-drops}

abbrev packets : Pools
packets = record {
  kernel = record kernel {
    semtab = λ s. record { sused = true; scount = pos 2; squeue = pos 102 };
  };
  buftab = λ p. record { bpnext = 9000; bpsem = pos 1; bpsize = 512 };
  nbpools = 1;
  cells = λ a. 0;
}

abbrev endpoint : Udstate → Udpentry
endpoint st = record {
  udstate = st;
  udremip = 0;
  udremport = 0;
  udlocport = 68;
  udhead = 0;
  udtail = 0;
  udcount = pos 0;
  udpid = pos 4;
  udqueue = λ x. 0;
}

-- The first endpoint receives whatever comes to the port 68, and the packet 8196 goes there.
abbrev endpoints : Udp
endpoints = record {
  pools = packets;
  udptab = λ i. if i == 0 then endpoint ud_used else endpoint ud_free;
  packet = λ b. record {
    net_ipsrc = 30;
    net_udpsport = 67;
    net_udpdport = 68;
    net_udplen = 12;
    net_udpdata = λ i. i;
  };
}

endpoints-Short : Short endpoints
endpoints-Short i lt used = ground arith

abbrev returned_packets : Pools
returned_packets = record packets {
  kernel = set_count packets.kernel 1 (pos 3);
  cells = set_field packets.cells 8192 9000;
}

drop_packet_8196 : freebuf 8196 packets ≡ some (ok, returned_packets)
unfolding freebuf signal
drop_packet_8196 = refl

udp_in-drops_example : udp_in 8196 endpoints ≡ some (record endpoints { pools = returned_packets })
udp_in-drops_example =
    udp_in-drops endpoints 8196 ok returned_packets endpoints-Short drop_packet_8196

only_first : (x a b c : ℕ) → UsedFor endpoints x a b c → 0 ≡ x
only_first x a b c used = let con = used.1 in ground (arith, con)

endpoints-Separate : Separate endpoints
endpoints-Separate i j a b c ui uj = sym (only_first i a b c ui) ∙ only_first j a b c uj

udp_register-Separate_example : Separate ((udp_register 30 67 1024 endpoints).1)
udp_register-Separate_example = udp_register-Separate 30 67 1024 endpoints endpoints-Separate

second_slot : (udp_register 30 67 1024 endpoints).0 ≡ pos 1
unfolding udp_register register_in search
second_slot = refl

-- A second endpoint for the same connection is refused.
registered_again : (udp_register 0 0 68 endpoints).0 ≡ no_slot
unfolding udp_register register_in search
registered_again = refl
