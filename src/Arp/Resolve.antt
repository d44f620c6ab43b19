-- ===== src/Arp/Resolve.antt =====
-- Resolving an address: `arp_resolve` of Chapter17/arp.c, where its name is spelled `arp_resove`.
use os_design_xinu_approach.Prelude.{
  ℕ, zero, suc, Option, none, some, List, [], ◌∷◌, ◌++◌, ◌==◌, if◌then◌else◌, ℤ, pos_part, eqb_ℤ,
  ◌>>=◌,
}
use os_design_xinu_approach.Queue.{syserr}
use os_design_xinu_approach.State.{Kernel, ok, timeout, returned, switched, int32_of}
use os_design_xinu_approach.Message.{recvclr, recvtime_rest, recvtime}
use os_design_xinu_approach.Tables.{search}
use os_design_xinu_approach.Arp.{
  arp_siz, arp_retry, arp_timeout, arp_htype_eth, arp_ptype_ip, arp_op_req, arp_halen, arp_palen,
  eth_arp, ip_bcast, ar_free, ar_pending, Arpentry, Arppacket, Arp, Byteorder, pending, known,
  set_entry, with_kernel, serves, arp_alloc, arp_hton, eth_hton,
}

-- A call has its result, with the bytes that it stores in `mac`, or it waits for a message and goes
-- on with `resolve_rest`.
pub data ResolveCall : Type 0 where
  answered : ℤ → Option (List ℕ) → Arp → ResolveCall
  awaiting : Arp → ResolveCall

-- What follows a message: `more` is the next round.
unfoldable pub resolve_msg : Option ResolveCall → ℤ → ℕ → Arp → Option ResolveCall
resolve_msg more msg place s =
    if eqb_ℤ msg timeout
    then more
    else if eqb_ℤ msg syserr
    then some (answered syserr none s)
    else some (answered ok (some (s.arpcache place).arhaddr) s)

-- The loop of the retries, by the rounds that are left. The message is an `int32`.
unfoldable pub resolve_loop : ℕ → ℕ → Arppacket → Arp → Option ResolveCall
resolve_loop zero place pkt s =
    some
      (answered timeout none (set_entry place (record (s.arpcache place) { arstate = ar_free }) s))
resolve_loop (suc rounds) place pkt s = do
  let s1 = record s { sent = s.sent ++ pkt ∷ [] }
  call ← recvtime arp_timeout s.pools.kernel
  let more : Kernel → Option ResolveCall = λ k. resolve_loop rounds place pkt (with_kernel k s1)
  elim call [
    | returned m k ↦ resolve_msg (more k) (int32_of (pos_part m)) place (with_kernel k s1)
    | switched k ↦ some (awaiting (with_kernel k s1))
  ]

-- `arp_resolve` of the process `c` behind the switch in `recvtime`
unfoldable pub resolve_rest : ℕ → ℕ → ℕ → Arppacket → Arp → Option ResolveCall
resolve_rest c rounds place pkt s =
    let (m, k) = recvtime_rest c s.pools.kernel in
    resolve_msg (resolve_loop rounds place pkt (with_kernel k s)) (int32_of (pos_part m)) place
      (with_kernel k s)

module _ (order : Byteorder) where
  abbrev pub request : ℕ → Arp → Arppacket
  request nxthop s = eth_hton order (
      arp_hton order (record {
        arp_ethdst = s.netdata.ethbcast;
        arp_ethsrc = s.netdata.ethucast;
        arp_ethtype = eth_arp;
        arp_htype = arp_htype_eth;
        arp_ptype = arp_ptype_ip;
        arp_hlen = arp_halen;
        arp_plen = arp_palen;
        arp_op = arp_op_req;
        arp_sndha = s.netdata.ethucast;
        arp_sndpa = s.netdata.ipucast;
        arp_tarha = 0 ∷ 0 ∷ 0 ∷ 0 ∷ 0 ∷ 0 ∷ [];
        arp_tarpa = nxthop;
      }))

  -- A new entry waits for the answer.
  unfoldable pub resolve_new : ℕ → Arp → Option ResolveCall
  resolve_new nxthop s = elim (arp_alloc s) [
    | none ↦ some (answered syserr none s)
    | some (place, s1) ↦
        (let e : Arpentry = record (s1.arpcache place) {
          arstate = ar_pending;
          arpaddr = nxthop;
          arpid = s.pools.kernel.currpid;
        } in
          recvclr s.pools.kernel >>= λ (m, k).
          resolve_loop arp_retry place (request nxthop s) (with_kernel k (set_entry place e s1)))
  ]

  -- The cache has an entry for the address, or none.
  unfoldable pub resolve_found : ℕ → Option ℕ → Arp → Option ResolveCall
  resolve_found nxthop none s = resolve_new nxthop s
  resolve_found nxthop (some j) s =
      let e = s.arpcache j in
      if known e.arstate
      then some (answered ok (some e.arhaddr) s)
      else if pending e.arstate
      then some (answered syserr none s)
      else resolve_new nxthop s

  unfoldable pub arp_resolve : ℕ → Arp → Option ResolveCall
  arp_resolve nxthop s =
      if nxthop == ip_bcast
      then some (answered ok (some s.netdata.ethbcast) s)
      else if nxthop == s.netdata.ipbcast
      then some (answered ok (some s.netdata.ethbcast) s)
      else resolve_found nxthop (search (serves nxthop) arp_siz 0 s.arpcache) s
