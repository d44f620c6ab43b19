-- ===== src/Arp/Learn.antt =====
-- What `arp_in` learns from a request, and `arp_resolve` gives out: Chapter17/arp.c.
use os_design_xinu_approach.Prelude.{
  ℕ, ◌<◌, ◌≡◌, refl, sym, ap, ◌∙◌, ◌⊎◌, inl, inr, true, false, Option, none, some, [], ◌∷◌, ◌++◌,
  arith, ◌==◌, Bool-cases, ℤ, Runs,
}
use os_design_xinu_approach.State.{ok}
use os_design_xinu_approach.Pool.{Pools, freebuf}
use os_design_xinu_approach.Tables.{search, First, search-eq, search-First, search-fails}
use os_design_xinu_approach.Arp.{
  arp_siz, arp_htype_eth, arp_ptype_ip, arp_op_rply, ip_bcast, Arstate, ar_free, ar_pending,
  ar_resolved, Arpentry, Arppacket, Arp, Byteorder, unused, pending, known, set_entry, serves,
  blank_entry, either_slot, free_slot, arp_alloc, arp_ntoh,
}
use os_design_xinu_approach.Arp.Resolve.{answered, resolve_found, arp_resolve}
use os_design_xinu_approach.Arp.Receive.{
  drop_packet, ArpCall, handled, held, reply, learn_new, arp_in_rest, arp_update, arp_in,
}

-- A packet that `arp_in` takes, that asks for this machine's address, from a sender who has no entry
-- in the cache
pub record Asks (pkt : Arppacket) (s : Arp) : Type 0 where
  pub hardware : pkt.arp_htype ≡ arp_htype_eth
  pub protocol : pkt.arp_ptype ≡ arp_ptype_ip
  pub no_reply : (pkt.arp_op == arp_op_rply) ≡ false
  pub valid : s.netdata.ipvalid ≡ true
  pub target : pkt.arp_tarpa ≡ s.netdata.ipucast
  pub stranger : search (serves pkt.arp_sndpa) arp_siz 0 s.arpcache ≡ none

-- The call of `arp_in` has returned.
abbrev pub Handled : (Arp → Type 0) → ArpCall → Type 0
Handled P (handled s) = P s
Handled P (held s) = ⊥

-- The cache with the sender in the place `j`
abbrev learned : ℕ → Arppacket → Arp → Arp
learned j pkt s =
    set_entry j
      (record blank_entry {
        arpaddr = pkt.arp_sndpa;
        arhaddr = pkt.arp_sndha;
        arstate = ar_resolved;
      })
      (set_entry j blank_entry s)

not_pending : (st : Arstate) → (unused st ≡ true) ⊎ (known st ≡ true) → pending st ≡ false
not_pending ar_free either = refl
not_pending ar_pending either = absurd (ground (arith, either))
not_pending ar_resolved either = refl

-- A place that `arp_alloc` gives is in the cache, and is not pending.
pub free_slot-Given :
    (cache : ℕ → Arpentry) (j : ℕ)
    → free_slot cache ≡ some j
    → (j < arp_siz) × (pending (cache j).arstate ≡ false)
free_slot-Given cache j e = go (search (λ x. unused x.arstate) arp_siz 0 cache) refl e
  where
    go :
        (first : Option ℕ)
        → search (λ x. unused x.arstate) arp_siz 0 cache ≡ first
        → either_slot first (search (λ x. known x.arstate) arp_siz 0 cache) ≡ some j
        → (j < arp_siz) × (pending (cache j).arstate ≡ false)
    go none same d =
        let f = search-First (λ x. known x.arstate) arp_siz 0 j cache d in
        (omega (arith, f.below), not_pending (cache j).arstate (inr f.passes))
    go (some i) same d =
        let eq : i ≡ j = ground (arith, d) in
        let f = search-First (λ x. unused x.arstate) arp_siz 0 j cache (same ∙ ap some eq) in
        (omega (arith, f.below), not_pending (cache j).arstate (inl f.passes))

learned-First :
    (j : ℕ) (pkt : Arppacket) (s : Arp)
    → j < arp_siz
    → search (serves pkt.arp_sndpa) arp_siz 0 s.arpcache ≡ none
    → First (serves pkt.arp_sndpa) (learned j pkt s).arpcache 0 arp_siz j
learned-First j pkt s lt stranger = record {
  from = omega arith;
  below = omega (arith, lt);
  passes =
      let self : (j == j) ≡ true = ground arith in
      let own : (pkt.arp_sndpa == pkt.arp_sndpa) ≡ true = ground arith in rw (self, own) refl;
  others = λ x ge less.
      let apart : (j == x) ≡ false = ground (arith, less) in
      rw apart (
        search-fails (serves pkt.arp_sndpa) arp_siz 0 x s.arpcache stranger ge
          (omega (arith, less, lt)));
}

arp_in_run :
    (order : Byteorder) (unset packet : Arppacket) (buf j : ℕ) (s : Arp) (r : ℤ) (p : Pools)
    → Asks (arp_ntoh order packet) s
    → free_slot s.arpcache ≡ some j
    → freebuf buf s.pools ≡ some (r, p)
    → arp_in order unset buf packet s
      ≡ some (
          handled (record (learned j (arp_ntoh order packet) s) {
            pools = p;
            sent = s.sent ++ reply order unset buf (arp_ntoh order packet) s ∷ [];
          }))
unfolding arp_in arp_update arp_in_rest learn_new arp_alloc drop_packet
arp_in_run order unset packet buf j s r p asks free drop =
    let a = asks in
    ground (arith, a.hardware, a.protocol, a.no_reply, a.valid, a.target, a.stranger, free, drop)

resolve_known :
    (order : Byteorder) (a j : ℕ) (s : Arp)
    → (a == ip_bcast) ≡ false
    → (a == s.netdata.ipbcast) ≡ false
    → search (serves a) arp_siz 0 s.arpcache ≡ some j
    → known (s.arpcache j).arstate ≡ true
    → arp_resolve order a s ≡ some (answered ok (some (s.arpcache j).arhaddr) s)
unfolding arp_resolve resolve_found
resolve_known order a j s all net found is = rw (all, net, found, is) refl

learned_entry :
    (j : ℕ) (pkt : Arppacket) (s : Arp)
    → (known ((learned j pkt s).arpcache j).arstate ≡ true)
      × (((learned j pkt s).arpcache j).arhaddr ≡ pkt.arp_sndha)
learned_entry j pkt s = let self : (j == j) ≡ true = ground arith in rw self (refl, refl)

same_sender :
    (order : Byteorder) (packet : Arppacket) → (arp_ntoh order packet).arp_sndha ≡ packet.arp_sndha
unfolding arp_ntoh
same_sender order packet = refl

-- A request for this machine's address from an unknown sender is answered with one packet, and the
-- sender is known from then on: `arp_resolve` of its address returns at once with its hardware
-- address. This holds where not every entry is pending and the address is no broadcast address. No
-- pending entry is lost.
pub arp_in-arp_resolve :
    (order : Byteorder) (unset packet : Arppacket) (buf j : ℕ) (s : Arp) (r : ℤ) (p : Pools)
    → Asks (arp_ntoh order packet) s
    → free_slot s.arpcache ≡ some j
    → freebuf buf s.pools ≡ some (r, p)
    → ((arp_ntoh order packet).arp_sndpa == ip_bcast) ≡ false
    → ((arp_ntoh order packet).arp_sndpa == s.netdata.ipbcast) ≡ false
    → Runs (arp_in order unset buf packet s) (
        Handled λ s'.
          (arp_resolve order (arp_ntoh order packet).arp_sndpa s'
            ≡ some (answered ok (some packet.arp_sndha) s'))
          × (s'.sent ≡ s.sent ++ reply order unset buf (arp_ntoh order packet) s ∷ [])
          × ((x : ℕ) → pending (s.arpcache x).arstate ≡ true → s'.arpcache x ≡ s.arpcache x))
arp_in-arp_resolve order unset packet buf j s r p asks free drop all net =
    let pkt = arp_ntoh order packet in
    let given = free_slot-Given s.arpcache j free in
    let found =
      search-eq (serves pkt.arp_sndpa) arp_siz 0 j (learned j pkt s).arpcache
        (learned-First j pkt s given.0 asks.stranger) in
    let entry = learned_entry j pkt s in
    let after = record (learned j pkt s) {
      pools = p;
      sent = s.sent ++ reply order unset buf pkt s ∷ [];
    } in
    rw (arp_in_run order unset packet buf j s r p asks free drop) (
      resolve_known order pkt.arp_sndpa j after all net found entry.0
          ∙ ap (λ mac. some (answered ok (some mac) after)) (entry.1 ∙ same_sender order packet),
      refl,
      (λ x wait.
          let apart : (j == x) ≡ false = elim (Bool-cases (j == x)) [
            | inl same ↦
                let eq : j ≡ x = ground (arith, same) in
                let free_one : pending (s.arpcache x).arstate ≡ false =
                  ap (λ y. pending (s.arpcache y).arstate) (sym eq) ∙ given.1 in
                absurd (cc)
            | inr other ↦ other
          ] in
          rw apart refl),
    )
