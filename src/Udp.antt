-- ===== src/Udp.antt =====
-- UDP endpoints: Chapter17/udp.h and udp.c. A packet is the address of
-- its buffer, and `packet` has the fields of the packets. The byte order is converted by the functions
-- of <arpa/inet.h>, which are parameters.
pub mod Receive
pub mod Endpoints
pub mod Dropped
pub mod Send
mod Tests
use os_design_xinu_approach.Prelude.{
  ℕ, zero, suc, ◌+◌, Bool, true, false, not, ◌&&◌, ◌||◌, Option, none, some, ltb, leb, ◌==◌,
  if◌then◌else◌, ℤ, pos, negsuc, pos_part, ◌+ℤ◌, ◌-ℤ◌, ltb_ℤ, leb_ℤ, ◌>>=◌,
}
use os_design_xinu_approach.Queue.{syserr}
use os_design_xinu_approach.State.{Kernel, ok, uint32_of}
use os_design_xinu_approach.Tables.{search}
use os_design_xinu_approach.Sched.{defer_start, defer_stop, resched_cntl}
use os_design_xinu_approach.Message.{send}
use os_design_xinu_approach.Pool.{Pools, freebuf}
use os_design_xinu_approach.Arp.{Byteorder}

-- `UDP_SLOTS`, `UDP_QSIZ` and `UDP_HDR_LEN`
abbrev pub udp_slots : ℕ
udp_slots = 6

abbrev pub udp_qsiz : ℕ
udp_qsiz = 8

abbrev pub udp_hdr_len : ℕ
udp_hdr_len = 8

-- `UDP_FREE`, `UDP_USED` and `UDP_RECV`
pub data Udstate : Type 0 where
  ud_free ud_used ud_recv : Udstate

abbrev pub is_unused : Udstate → Bool
is_unused ud_free = true
is_unused ud_used = false
is_unused ud_recv = false

abbrev pub is_used : Udstate → Bool
is_used ud_free = false
is_used ud_used = true
is_used ud_recv = false

abbrev pub is_receiving : Udstate → Bool
is_receiving ud_free = false
is_receiving ud_used = false
is_receiving ud_recv = true

-- `struct udpentry`
pub record Udpentry : Type 0 where
  pub udstate : Udstate
  pub udremip : ℕ
  pub udremport : ℕ
  pub udlocport : ℕ
  pub udhead : ℕ
  pub udtail : ℕ
  pub udcount : ℤ
  pub udpid : ℤ
  pub udqueue : ℕ → ℕ

-- The fields of `struct netpacket` that the functions read
pub record Netpacket : Type 0 where
  pub net_ipsrc : ℕ
  pub net_udpsport : ℕ
  pub net_udpdport : ℕ
  pub net_udplen : ℕ
  pub net_udpdata : ℕ → ℕ

pub record Udp : Type 0 where
  pub pools : Pools
  pub udptab : ℕ → Udpentry
  pub packet : ℕ → Netpacket

abbrev pub set_udp : ℕ → Udpentry → Udp → Udp
set_udp i e s = record s { udptab = λ x. if i == x then e else s.udptab x }

abbrev pub udp_kernel : Kernel → Udp → Udp
udp_kernel k s = record s { pools = record s.pools { kernel = k } }

-- `freebuf` for a packet
unfoldable pub free_packet : ℕ → Udp → Option Udp
free_packet buf s = freebuf buf s.pools >>= λ (r, p). some (record s { pools = p })

unfoldable pub udp_init : Udp → Udp
udp_init s =
    let clear : ℕ → Udpentry = λ x. record (s.udptab x) { udstate = ud_free } in
    record s { udptab = λ x. if ltb x udp_slots then clear x else s.udptab x }

-- The test of `udp_in` for an entry that is in use
abbrev pub accepts : Netpacket → Udpentry → Bool
accepts p e =
    (p.net_udpdport == e.udlocport)
    && (e.udremport == 0 || p.net_udpsport == e.udremport)
    && (e.udremip == 0 || p.net_ipsrc == e.udremip)

-- A packet is put into the queue of the entry. The test behind the store compares with -8. After
-- `send` only the return is left.
unfoldable pub enqueue_packet : ℕ → ℕ → Udp → Option Udp
enqueue_packet i buf s =
    let e = s.udptab i in
    let tail = e.udtail + 1 in
    let e1 = record e {
      udcount = e.udcount +ℤ pos 1;
      udqueue = λ x. if e.udtail == x then buf else e.udqueue x;
      udtail = if ltb_ℤ (negsuc 7) (pos tail) then 0 else tail;
    } in
    let informed =
      (send e.udpid (pos_part ok) s.pools.kernel >>= λ (r, k).
      some (udp_kernel k (set_udp i (record e1 { udstate = ud_used }) s))) in
    if leb udp_qsiz e.udtail
    then none
    else if is_receiving e.udstate
    then informed
    else some (set_udp i e1 s)

-- The loop of `udp_in`, by the rounds that are left
unfoldable pub udp_in_loop : ℕ → ℕ → ℕ → Udp → Option Udp
udp_in_loop zero i buf s = free_packet buf s
udp_in_loop (suc rounds) i buf s =
    let e = s.udptab i in
    let rest = udp_in_loop rounds (i + 1) buf s in
    let queued = enqueue_packet i buf s in
    if not (is_unused e.udstate) && accepts (s.packet buf) e && leb_ℤ (pos udp_qsiz) e.udcount
    then queued
    else rest

unfoldable pub udp_in : ℕ → Udp → Option Udp
udp_in buf s = udp_in_loop udp_slots 0 buf s

-- An entry in use for the two ends of a connection
abbrev pub connects : ℕ → ℕ → ℕ → Udpentry → Bool
connects remip remport locport e =
    not (is_unused e.udstate)
    && (remport == e.udremport)
    && (locport == e.udlocport)
    && (remip == e.udremip)

-- SYSERR as a `uid32`
abbrev pub no_slot : ℤ
no_slot = pos (uint32_of syserr)

-- The endpoint that has the connection already, and a free one
unfoldable pub register_in : ℕ → ℕ → ℕ → Udp → Option ℕ → Option ℕ → ℤ × Udp
register_in remip remport locport s (some j) free = (no_slot, s)
register_in remip remport locport s none none = (no_slot, s)
register_in remip remport locport s none (some i) =
    let e : Udpentry = record (s.udptab i) {
      udstate = ud_used;
      udremip = remip;
      udremport = remport;
      udlocport = locport;
      udhead = 0;
      udtail = 0;
      udcount = pos 0;
      udpid = s.pools.kernel.currpid;
    } in
    (pos i, set_udp i e s)

unfoldable pub udp_register : ℕ → ℕ → ℕ → Udp → ℤ × Udp
udp_register remip remport locport s =
    register_in remip remport locport s
      (search (connects remip remport locport) udp_slots 0 s.udptab)
      (search (λ e. is_unused e.udstate) udp_slots 0 s.udptab)

-- The packet at the head of a queue leaves it.
unfoldable pub dequeue_packet : ℕ → Udp → Option (ℕ × Udp)
dequeue_packet i s =
    let e = s.udptab i in
    let head = e.udhead + 1 in
    let e1 = record e {
      udhead = if leb udp_qsiz head then 0 else head;
      udcount = e.udcount -ℤ pos 1;
    } in
    if leb udp_qsiz e.udhead then none else some (e.udqueue e.udhead, set_udp i e1 s)

-- The loop of `udp_release`, by the rounds that are left
unfoldable pub release_packets : ℕ → ℕ → Udp → Option Udp
release_packets zero i s = some s
release_packets (suc rounds) i s = do
  (buf, s1) ← dequeue_packet i s
  s2 ← free_packet buf s1
  release_packets rounds i s2

unfoldable pub udp_release : ℕ → Udp → Option (ℤ × Udp)
udp_release i s =
    let release = (do
      (r, k) ← resched_cntl defer_start s.pools.kernel
      s1 ← release_packets (pos_part (s.udptab i).udcount) i (udp_kernel k s)
      let s2 = set_udp i (record (s1.udptab i) { udstate = ud_free }) s1
      (v, k') ← resched_cntl defer_stop s2.pools.kernel
      some (ok, udp_kernel k' s2)) in
    if leb udp_slots i || is_unused (s.udptab i).udstate then some (syserr, s) else release

module _ (order : Byteorder) where
  unfoldable pub udp_ntoh : Netpacket → Netpacket
  udp_ntoh p = record p {
    net_udpsport = order.ntohs p.net_udpsport;
    net_udpdport = order.ntohs p.net_udpdport;
    net_udplen = order.ntohs p.net_udplen;
  }

  unfoldable pub udp_hton : Netpacket → Netpacket
  udp_hton p = record p {
    net_udpsport = order.htons p.net_udpsport;
    net_udpdport = order.htons p.net_udpdport;
    net_udplen = order.htons p.net_udplen;
  }
