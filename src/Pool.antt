-- ===== src/Pool.antt =====
-- Buffer pools: Chapter10/bufpool.h, bufinit.c, mkbufpool.c, getbuf.c, freebuf.c. `cells` has the
-- first eight bytes of each buffer by its address: the link to the next free buffer, or, in the low
-- half, the pool that the buffer belongs to. The byte order is little-endian; 0 is NULL.
pub mod Make
pub mod Leak
mod Tests
use os_design_xinu_approach.Prelude.{
  ℕ, zero, suc, ◌+◌, ◌-◌, ◌*◌, ◌/◌, ◌%◌, ◌^◌, Bool, true, ◌||◌, Option, none, some, ltb, leb, ◌==◌,
  if◌then◌else◌, ℤ, pos, negsuc, pos_part, ltb_ℤ, eqb_ℤ, ◌>>=◌,
}
use os_design_xinu_approach.Queue.{syserr}
use os_design_xinu_approach.Memory.{getmem}
use os_design_xinu_approach.State.{Kernel, ok, same_process, int32_of, set_field}
use os_design_xinu_approach.Semaphore.{semcreate, wait, signal}

-- `NBPOOLS`, `BP_MAXB` and `BP_MINB`
abbrev pub nbpools_max : ℕ
nbpools_max = 20

abbrev pub bp_maxb : ℤ
bp_maxb = pos 8192

abbrev pub bp_minb : ℤ
bp_minb = pos 8

-- `struct bpentry` in the table
pub record Bpentry : Type 0 where
  pub bpnext : ℕ
  pub bpsem : ℤ
  pub bpsize : ℕ

pub record Pools : Type 0 where
  pub kernel : Kernel
  pub buftab : ℕ → Bpentry
  pub nbpools : ℕ
  pub cells : ℕ → ℕ

abbrev pub update_pool : Pools → ℕ → Bpentry → Pools
update_pool s p e = record s { buftab = λ x. if p == x then e else s.buftab x }

-- `poolid < 0 || poolid >= nbpools`
abbrev pub badpool : Pools → ℤ → Bool
badpool s (pos p) = leb s.nbpools p
badpool s (negsuc p) = true

abbrev pub pool_slot : ℤ → Option ℕ
pool_slot (pos p) = if ltb p nbpools_max then some p else none
pool_slot (negsuc p) = none

-- `sizeof(bpid32)`
abbrev pub id_size : ℕ
id_size = 4

unfoldable pub bufinit : Pools → ℤ × Pools
bufinit s = (ok, record s { nbpools = 0 })

-- The loop of `mkbufpool` that links the buffers, by the rounds that are left, and the end of the
-- list.
unfoldable pub link_buffers : ℕ → ℕ → ℕ → (ℕ → ℕ) → ℕ → ℕ
link_buffers zero buf size cells = set_field cells buf 0
link_buffers (suc rounds) buf size cells =
    link_buffers rounds (buf + size) size (set_field cells buf (buf + size))

-- `mkbufpool` after `getmem` has given the memory `buf`
unfoldable pub fill_pool : ℕ → ℕ → ℕ → Pools → Option (ℤ × Pools)
unfolding link_buffers
fill_pool buf bufsiz numbufs s = do
  p ← pool_slot (pos s.nbpools)
  (sem, k) ← semcreate (pos numbufs) s.kernel
  let e : Bpentry = record { bpnext = buf; bpsize = bufsiz; bpsem = sem }
  let s1 = record (update_pool s p e) { kernel = k }
  if eqb_ℤ sem syserr
      then some (syserr, s1)
      else some (
        pos p,
        record s1 {
          nbpools = s.nbpools + 1;
          cells = link_buffers (numbufs - 1) buf (bufsiz + id_size) s.cells;
        },
      )

-- `mkbufpool` behind its tests, for a rounded size
unfoldable pub make_pool : ℕ → ℕ → Pools → Option (ℤ × Pools)
unfolding fill_pool
make_pool bufsiz numbufs s =
    let (a, m) = getmem (numbufs * (bufsiz + id_size)) s.kernel.memory in
    let s1 = record s { kernel = record s.kernel { memory = m } } in
    elim a [ none ↦ some (syserr, s1) | some buf ↦ fill_pool buf bufsiz numbufs s1 ]

-- `(bufsiz + 3) & (~3)`
abbrev pub round4 : ℕ → ℕ
round4 n = (n + 3) / 4 * 4

unfoldable pub mkbufpool : ℤ → ℤ → Pools → Option (ℤ × Pools)
unfolding make_pool
mkbufpool bufsiz numbufs s =
    if ltb_ℤ bufsiz bp_minb
      || ltb_ℤ bp_maxb bufsiz
      || ltb_ℤ numbufs (pos 1)
      || ltb_ℤ bp_maxb numbufs
      || leb nbpools_max s.nbpools
    then some (syserr, s)
    else make_pool (round4 (pos_part bufsiz)) (pos_part numbufs) s

-- `getbuf` after `wait`, whose result it does not look at
unfoldable pub getbuf_rest : ℕ → Pools → Option (ℤ × Pools)
getbuf_rest p s =
    let buf = (s.buftab p).bpnext in
    let cell = s.cells buf in
    if buf == 0
    then none
    else some (
      pos (buf + id_size),
      record (update_pool s p (record (s.buftab p) { bpnext = cell })) {
        cells = set_field s.cells buf (cell / 2 ^ 32 * 2 ^ 32 + p);
      },
    )

-- `getbuf` has returned, or it goes on with `getbuf_rest` when its process runs again.
pub data PoolCall : Type 0 where
  obtained : ℤ → Pools → PoolCall
  delayed : Pools → PoolCall

unfoldable pub getbuf : ℤ → Pools → Option PoolCall
unfolding getbuf_rest
getbuf poolid s = if badpool s poolid then some (obtained syserr s) else do
  p ← pool_slot poolid
  (r, k) ← wait (s.buftab p).bpsem s.kernel
  let s1 = record s { kernel = k }
  let get = (getbuf_rest p s1 >>= λ (a, s2). some (obtained a s2))
  if same_process s.kernel k then get else some (delayed s1)

unfoldable pub freebuf : ℕ → Pools → Option (ℤ × Pools)
freebuf bufaddr s =
    let buf = bufaddr - id_size in
    let poolid = int32_of (s.cells buf % 2 ^ 32) in
    if badpool s poolid then some (syserr, s) else do
      p ← pool_slot poolid
      (r, k) ← signal (s.buftab p).bpsem s.kernel
      some (ok, record s { kernel = k; cells = set_field s.cells buf (s.buftab p).bpnext })
