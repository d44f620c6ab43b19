-- ===== src/Ip.antt =====
-- IP headers and the IP output queue: `ipcksum` and `ip_enqueue` of Chapter17/ip.c, and ip.h. A header
-- is its ten 16-bit words, as they stand in memory. A packet in the queue is the address of its buffer.
pub mod Checksum
pub mod Stack
pub mod Transfer
mod Tests
use os_design_xinu_approach.Prelude.{
  ℕ, zero, suc, ◌+◌, ◌-◌, ◌/◌, ◌%◌, ◌^◌, Option, none, some, leb, ◌==◌, if◌then◌else◌, ℤ, pos,
  leb_ℤ, ◌>>=◌,
}
use os_design_xinu_approach.Queue.{syserr}
use os_design_xinu_approach.State.{ok}
use os_design_xinu_approach.Semaphore.{semcount, signal}
use os_design_xinu_approach.Pool.{Pools, freebuf}
use os_design_xinu_approach.Arp.{Byteorder}

-- `IP_OQSIZ`
abbrev pub ip_oqsiz : ℕ
ip_oqsiz = 8

-- The loop of `ipcksum`, by the words that are left
unfoldable pub sum_words : Byteorder → ℕ → ℕ → ℕ → (ℕ → ℕ) → ℕ
sum_words order zero i cksum header = cksum
sum_words order (suc left) i cksum header =
    sum_words order left (i + 1) ((cksum + order.htons (header i)) % 2 ^ 32) header

-- The end of `ipcksum`: the complement of a `uint32`, cut to its low half
abbrev pub fold_sum : ℕ → ℕ
fold_sum sum =
    let folded = (sum + sum / 65536) % 2 ^ 32 in
    let cksum = (2 ^ 32 - 1 - folded) % 65536 in if cksum == 65535 then 0 else cksum

unfoldable pub ipcksum : Byteorder → (ℕ → ℕ) → ℕ
ipcksum order header = fold_sum (sum_words order 10 0 0 header)

-- `struct iqentry`
pub record Iqentry : Type 0 where
  pub iqhead : ℕ
  pub iqtail : ℕ
  pub iqsem : ℤ
  pub iqbuf : ℕ → ℕ

pub record Ip : Type 0 where
  pub pools : Pools
  pub ipoqueue : Iqentry

-- After `freebuf` and after `signal` only the return is left.
unfoldable pub ip_enqueue : ℕ → Ip → Option (ℤ × Ip)
ip_enqueue buf s = do
  let q = s.ipoqueue
  let tail = q.iqtail + 1
  let q1 = record q {
    iqbuf = λ x. if q.iqtail == x then buf else q.iqbuf x;
    iqtail = if leb ip_oqsiz tail then 0 else tail;
  }
  let overflow = (freebuf buf s.pools >>= λ (r, p). some (syserr, record s { pools = p }))
  let queued =
      (signal q.iqsem s.pools.kernel >>= λ (r, k).
      some (ok, record { pools = record s.pools { kernel = k }; ipoqueue = q1 }))
  count ← semcount q.iqsem s.pools.kernel
  if leb_ℤ (pos ip_oqsiz) count then overflow else if leb ip_oqsiz q.iqtail then none else queued
