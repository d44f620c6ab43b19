-- ===== src/Arp.antt =====
-- The ARP cache, Chapter17: arp.h, arp.c and the byte order of the Ethernet type (net.c). `sent` has
-- the packets that were written to the Ethernet device, in network byte order; what its driver does
-- with them is left out. The functions of <arpa/inet.h> are parameters.
pub mod Resolve
pub mod Receive
pub mod Learn
mod Tests
use os_design_xinu_approach.Prelude.{
  ℕ, Bool, true, false, not, ◌&&◌, Option, none, some, List, [], ◌∷◌, ltb, leb, ◌==◌, if◌then◌else◌,
  ℤ, pos, ◌>>=◌,
}
use os_design_xinu_approach.Tables.{search}
use os_design_xinu_approach.State.{Kernel}
use os_design_xinu_approach.Pool.{Pools}

-- `ARP_SIZ`, `ARP_RETRY` and `ARP_TIMEOUT`
abbrev pub arp_siz : ℕ
arp_siz = 16

abbrev pub arp_retry : ℕ
arp_retry = 3

abbrev pub arp_timeout : ℤ
arp_timeout = pos 300

-- `ARP_HTYPE`, `ARP_PTYPE`, `ARP_OP_REQ`, `ARP_OP_RPLY`, `ARP_HALEN` and `ARP_PALEN`
abbrev pub arp_htype_eth : ℕ
arp_htype_eth = 1

abbrev pub arp_ptype_ip : ℕ
arp_ptype_ip = 2048

abbrev pub arp_op_req : ℕ
arp_op_req = 1

abbrev pub arp_op_rply : ℕ
arp_op_rply = 2

abbrev pub arp_halen : ℕ
arp_halen = 6

abbrev pub arp_palen : ℕ
arp_palen = 4

-- `ETH_ARP` and `IP_BCAST`
abbrev pub eth_arp : ℕ
eth_arp = 2054

abbrev pub ip_bcast : ℕ
ip_bcast = 4294967295

-- `AR_FREE`, `AR_PENDING` and `AR_RESOLVED`
pub data Arstate : Type 0 where
  ar_free ar_pending ar_resolved : Arstate

-- `struct arpentry` and `struct arppacket`
pub record Arpentry : Type 0 where
  pub arstate : Arstate
  pub arpaddr : ℕ
  pub arpid : ℤ
  pub arhaddr : List ℕ

pub record Arppacket : Type 0 where
  pub arp_ethdst : List ℕ
  pub arp_ethsrc : List ℕ
  pub arp_ethtype : ℕ
  pub arp_htype : ℕ
  pub arp_ptype : ℕ
  pub arp_hlen : ℕ
  pub arp_plen : ℕ
  pub arp_op : ℕ
  pub arp_sndha : List ℕ
  pub arp_sndpa : ℕ
  pub arp_tarha : List ℕ
  pub arp_tarpa : ℕ

-- The fields of `NetData` that the ARP functions read
pub record Network : Type 0 where
  pub ipucast : ℕ
  pub ipbcast : ℕ
  pub ipvalid : Bool
  pub ethucast : List ℕ
  pub ethbcast : List ℕ

pub record Arp : Type 0 where
  pub pools : Pools
  pub arpcache : ℕ → Arpentry
  pub netdata : Network
  pub sent : List Arppacket

-- `htons`, `htonl`, `ntohs` and `ntohl`
pub record Byteorder : Type 0 where
  pub htons : ℕ → ℕ
  pub htonl : ℕ → ℕ
  pub ntohs : ℕ → ℕ
  pub ntohl : ℕ → ℕ

abbrev pub unused : Arstate → Bool
unused ar_free = true
unused ar_pending = false
unused ar_resolved = false

abbrev pub pending : Arstate → Bool
pending ar_free = false
pending ar_pending = true
pending ar_resolved = false

abbrev pub known : Arstate → Bool
known ar_free = false
known ar_pending = false
known ar_resolved = true

abbrev pub set_entry : ℕ → Arpentry → Arp → Arp
set_entry j e s = record s { arpcache = λ x. if j == x then e else s.arpcache x }

abbrev pub with_kernel : Kernel → Arp → Arp
with_kernel k s = record s { pools = record s.pools { kernel = k } }

-- The loop begins with the second entry.
unfoldable pub arp_init : Arp → Arp
arp_init s =
    let clear : ℕ → Arpentry = λ x. record (s.arpcache x) { arstate = ar_free } in
    record s { arpcache = λ x. if leb 1 x && ltb x arp_siz then clear x else s.arpcache x }

-- An entry that is in use for the address
abbrev pub serves : ℕ → Arpentry → Bool
serves addr e = not (unused e.arstate) && (e.arpaddr == addr)

abbrev pub blank_entry : Arpentry
blank_entry = record {
  arstate = ar_free;
  arpaddr = 0;
  arpid = pos 0;
  arhaddr = 0 ∷ 0 ∷ 0 ∷ 0 ∷ 0 ∷ 0 ∷ [];
}

-- A free slot, or else a resolved one: `none` is SYSERR.
abbrev pub either_slot : Option ℕ → Option ℕ → Option ℕ
either_slot (some j) other = some j
either_slot none other = other

abbrev pub free_slot : (ℕ → Arpentry) → Option ℕ
free_slot cache =
    either_slot (search (λ e. unused e.arstate) arp_siz 0 cache)
      (search (λ e. known e.arstate) arp_siz 0 cache)

unfoldable pub arp_alloc : Arp → Option (ℕ × Arp)
arp_alloc s = free_slot s.arpcache >>= λ j. some (j, set_entry j blank_entry s)

module _ (order : Byteorder) where
  unfoldable pub arp_ntoh : Arppacket → Arppacket
  arp_ntoh p = record p {
    arp_htype = order.ntohs p.arp_htype;
    arp_ptype = order.ntohs p.arp_ptype;
    arp_op = order.ntohs p.arp_op;
    arp_sndpa = order.ntohl p.arp_sndpa;
    arp_tarpa = order.ntohl p.arp_tarpa;
  }

  unfoldable pub arp_hton : Arppacket → Arppacket
  arp_hton p = record p {
    arp_htype = order.htons p.arp_htype;
    arp_ptype = order.htons p.arp_ptype;
    arp_op = order.htons p.arp_op;
    arp_sndpa = order.htonl p.arp_sndpa;
    arp_tarpa = order.htonl p.arp_tarpa;
  }

  unfoldable pub eth_hton : Arppacket → Arppacket
  eth_hton p = record p { arp_ethtype = order.htons p.arp_ethtype }
