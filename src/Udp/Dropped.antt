-- ===== src/Udp/Dropped.antt =====
-- No packet reaches an endpoint: `udp_in` of Chapter17/udp.c.
use os_design_xinu_approach.Prelude.{
  ℕ, zero, suc, ◌+◌, ◌≤◌, ◌<◌, ◌≡◌, refl, inl, inr, false, some, arith, Bool-cases, ℤ, pos, leb_ℤ,
}
use os_design_xinu_approach.Pool.{Pools, freebuf}
use os_design_xinu_approach.Udp.{
  udp_slots, udp_qsiz, is_unused, Udp, free_packet, accepts, udp_in_loop, udp_in,
}

-- No endpoint in use has a full queue, as after `udp_init`.
abbrev pub Short : Udp → Type 0
Short s =
    (i : ℕ)
    → i < udp_slots
    → is_unused (s.udptab i).udstate ≡ false
    → leb_ℤ (pos udp_qsiz) (s.udptab i).udcount ≡ false

loop-drops :
    (s : Udp) (buf : ℕ) (r : ℤ) (p : Pools) (rounds i : ℕ)
    → Short s
    → i + rounds ≤ udp_slots
    → freebuf buf s.pools ≡ some (r, p)
    → udp_in_loop rounds i buf s ≡ some (record s { pools = p })
unfolding udp_in_loop free_packet
loop-drops s buf r p zero i short le free = rw free refl
loop-drops s buf r p (suc rounds) i short le free =
    let rest = loop-drops s buf r p rounds (i + 1) short (omega (arith, le)) free in
    elim (Bool-cases (is_unused (s.udptab i).udstate)) [
      | inl unused_one ↦ rw unused_one rest
      | inr in_use ↦
          let few = short i (omega (arith, le)) in_use in
          elim (Bool-cases (accepts (s.packet buf) (s.udptab i))) [
            | inl match_one ↦ rw (in_use, match_one, few) rest
            | inr other ↦ rw (in_use, other) rest
          ]
    ]

-- Every packet is dropped: where no queue is full `udp_in` frees the packet's buffer and changes no
-- endpoint, whatever the packet is, so no queue is ever filled.
pub udp_in-drops :
    (s : Udp) (buf : ℕ) (r : ℤ) (p : Pools)
    → Short s
    → freebuf buf s.pools ≡ some (r, p)
    → udp_in buf s ≡ some (record s { pools = p })
unfolding udp_in
udp_in-drops s buf r p short free = loop-drops s buf r p udp_slots 0 short (omega arith) free
