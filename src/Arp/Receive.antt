-- ===== src/Arp/Receive.antt =====
-- Incoming packets: `arp_in` of Chapter17/arp.c.
use os_design_xinu_approach.Prelude.{
  ℕ, Bool, true, false, not, ◌||◌, Option, none, some, [], ◌∷◌, ◌++◌, ◌==◌, if◌then◌else◌, pos_part,
  ◌>>=◌,
}
use os_design_xinu_approach.State.{ok, same_process}
use os_design_xinu_approach.Message.{send}
use os_design_xinu_approach.Pool.{freebuf}
use os_design_xinu_approach.Tables.{search}
use os_design_xinu_approach.Arp.{
  arp_siz, arp_htype_eth, arp_ptype_ip, arp_op_rply, arp_halen, arp_palen, eth_arp, ar_resolved,
  Arpentry, Arppacket, Arp, Byteorder, pending, set_entry, with_kernel, serves, arp_alloc, arp_ntoh,
  arp_hton, eth_hton,
}

-- `freebuf` and the return. After a switch in `freebuf` only the return is left.
unfoldable pub drop_packet : ℕ → Arp → Option Arp
drop_packet buf s = freebuf buf s.pools >>= λ (r, p). some (record s { pools = p })

-- `arp_in` has returned, or it goes on with `arp_in_rest` when its process runs again.
pub data ArpCall : Type 0 where
  handled : Arp → ArpCall
  held : Arp → ArpCall

-- `unset` is the uninitialised packet of `arp_in`, `buf` the buffer of the packet.
module _ (order : Byteorder) (unset : Arppacket) (buf : ℕ) where
  -- The answer: its target fields are never set.
  abbrev pub reply : Arppacket → Arp → Arppacket
  reply pkt s = eth_hton order (
      arp_hton order (record unset {
        arp_ethdst = pkt.arp_sndha;
        arp_ethsrc = s.netdata.ethucast;
        arp_ethtype = eth_arp;
        arp_htype = arp_htype_eth;
        arp_ptype = arp_ptype_ip;
        arp_hlen = arp_halen;
        arp_plen = arp_palen;
        arp_op = arp_op_rply;
        arp_sndha = s.netdata.ethucast;
        arp_sndpa = s.netdata.ipucast;
      }))

  abbrev pub send_reply : Arppacket → Arp → Option Arp
  send_reply pkt s = drop_packet buf (record s { sent = s.sent ++ reply pkt s ∷ [] })

  -- A new entry for the sender
  unfoldable pub learn_new : Arppacket → Arp → Option Arp
  learn_new pkt s = elim (arp_alloc s) [
    | none ↦ drop_packet buf s
    | some (j, s1) ↦
        (let e : Arpentry = record (s1.arpcache j) {
          arpaddr = pkt.arp_sndpa;
          arhaddr = pkt.arp_sndha;
          arstate = ar_resolved;
        } in
          send_reply pkt (set_entry j e s1))
  ]

  -- `arp_in` behind the update of an entry that was found
  unfoldable pub arp_in_rest : Arppacket → Bool → Arp → Option Arp
  arp_in_rest pkt found s =
      let fresh = learn_new pkt s in
      let answer = send_reply pkt s in
      if pkt.arp_op == arp_op_rply
      then drop_packet buf s
      else if not s.netdata.ipvalid || not (pkt.arp_tarpa == s.netdata.ipucast)
      then drop_packet buf s
      else if found
      then answer
      else fresh

  -- The entry of the sender gets its hardware address. Where it was pending, its process gets a
  -- message.
  unfoldable pub arp_update : Arppacket → Option ℕ → Arp → Option ArpCall
  arp_update pkt none s = arp_in_rest pkt false s >>= λ s1. some (handled s1)
  arp_update pkt (some j) s =
      let e : Arpentry = record (s.arpcache j) { arhaddr = pkt.arp_sndha } in
      let s1 = set_entry j e s in
      let s2 = set_entry j (record e { arstate = ar_resolved }) s in
      let informed =
        (send e.arpid (pos_part ok) s.pools.kernel >>= λ (r, k).
        let rest = (arp_in_rest pkt true (with_kernel k s2) >>= λ s3. some (handled s3)) in
        if same_process s.pools.kernel k then rest else some (held (with_kernel k s2))) in
      let refreshed = (arp_in_rest pkt true s1 >>= λ s3. some (handled s3)) in
      if pending e.arstate then informed else refreshed

  unfoldable pub arp_in : Arppacket → Arp → Option ArpCall
  arp_in packet s =
      let pkt = arp_ntoh order packet in
      let wrong = (drop_packet buf s >>= λ s1. some (handled s1)) in
      let right = arp_update pkt (search (serves pkt.arp_sndpa) arp_siz 0 s.arpcache) s in
      if not (pkt.arp_htype == arp_htype_eth) || not (pkt.arp_ptype == arp_ptype_ip)
      then wrong
      else right
