-- ===== src/Disk.antt =====
-- The buffers of the remote disk: rdsclose.c, rdsbufalloc.c and rdswrite.c of Chapter18. A buffer
-- is its address, and the four ends of the lists are addresses too, since the code treats the
-- pointers in the control block as buffers. Loops run on a number of rounds.
pub mod Close
pub mod Server
mod Tests
use os_design_xinu_approach.Prelude.{
  ℕ, zero, suc, Bool, true, false, not, ◌&&◌, Option, none, some, ltb, ◌==◌, if◌then◌else◌, ℤ, pos,
  ◌+ℤ◌, ◌-ℤ◌, leb_ℤ, ◌>>=◌,
}
use os_design_xinu_approach.Queue.{syserr}
use os_design_xinu_approach.State.{ok}

-- `RD_BLKSIZ`
abbrev pub rd_blksiz : ℕ
rd_blksiz = 512

-- `RD_FREE`, `RD_OPEN` and `RD_PEND`
pub data Rdstate : Type 0 where
  rd_free rd_open rd_pend : Rdstate

abbrev pub is_open : Rdstate → Bool
is_open rd_free = false
is_open rd_open = true
is_open rd_pend = false

-- `RD_OP_READ`, `RD_OP_WRITE` and `RD_OP_SYNC`
pub data Rdop : Type 0 where
  rd_op_read rd_op_write rd_op_sync : Rdop

abbrev pub is_write : Rdop → Bool
is_write rd_op_read = false
is_write rd_op_write = true
is_write rd_op_sync = false

-- `struct rdbuff` without its links; `rd_valid` is the test `rd_status == RD_VALID`.
pub record Rdbuff : Type 0 where
  pub rd_op : Rdop
  pub rd_refcnt : ℤ
  pub rd_blknum : ℕ
  pub rd_valid : Bool
  pub rd_pid : ℤ
  pub rd_block : ℕ → ℕ

-- `struct rdscblk` with its buffers and their links. `rd_avail` and `rd_req` are the counts of the two
-- semaphores; the addresses of the ends of the request queue and of the cache are given.
pub record Rdscblk : Type 0 where
  pub rd_state : Rdstate
  pub rd_id : ℕ → ℕ
  pub rd_seq : ℕ
  pub rd_first_free : ℕ
  pub rd_avail : ℤ
  pub rd_req : ℤ
  pub rd_ser_ip : ℕ
  pub rd_ser_port : ℕ
  pub rd_loc_port : ℕ
  pub rd_registered : Bool
  pub rd_udpslot : ℤ
  pub rd_next : ℕ → ℕ
  pub rd_prev : ℕ → ℕ
  pub buffers : ℕ → Rdbuff
  pub request_head : ℕ
  pub request_tail : ℕ
  pub cache_head : ℕ
  pub cache_tail : ℕ

abbrev pub point : (ℕ → ℕ) → ℕ → ℕ → ℕ → ℕ
point links b v x = if b == x then v else links x

-- `(b->rd_prev)->rd_next = b->rd_next` and the converse
abbrev pub unlink : ℕ → Rdscblk → Rdscblk
unlink b d = record d {
  rd_next = point d.rd_next (d.rd_prev b) (d.rd_next b);
  rd_prev = point d.rd_prev (d.rd_next b) (d.rd_prev b);
}

abbrev pub set_buffer : ℕ → Rdbuff → Rdscblk → Rdscblk
set_buffer b e d = record d { buffers = λ x. if b == x then e else d.buffers x }

-- The search of `rdsbufalloc` through the cache, from its end
unfoldable pub oldest_unused : ℕ → ℕ → Rdscblk → Option ℕ
oldest_unused zero b d = none
oldest_unused (suc rounds) b d =
    let rest = oldest_unused rounds (d.rd_prev b) d in
    if b == d.cache_head
    then none
    else if leb_ℤ (d.buffers b).rd_refcnt (pos 0)
    then some b
    else rest

-- `bptr` is what the variable of that name holds, which is not set before its test. `none` is a wait that
-- blocks, or the panic.
unfoldable pub rdsbufalloc : ℕ → ℕ → Rdscblk → Option (ℕ × Rdscblk)
rdsbufalloc rounds bptr d =
    let d1 = record d { rd_avail = d.rd_avail -ℤ pos 1 } in
    if leb_ℤ d.rd_avail (pos 0)
    then none
    else if not (bptr == 0)
    then some (bptr, record d1 { rd_first_free = d.rd_next bptr })
    else oldest_unused rounds (d.rd_prev d.cache_tail) d >>= λ b. some (b, unlink b d1)

-- A new request goes behind the others.
unfoldable pub insert_request : ℕ → Rdscblk → Rdscblk
insert_request b d =
    let p = d.rd_prev d.request_tail in
    let prev1 = point d.rd_prev d.request_tail b in
    record d { rd_next = point (point d.rd_next b (d.rd_next p)) p b; rd_prev = point prev1 b p }

-- The first loop of `rdswrite`, which does not move on: `some true` is a request found
unfoldable pub pending_write : ℕ → ℕ → ℕ → Rdscblk → Option Bool
pending_write zero b blk d = none
pending_write (suc rounds) b blk d =
    let rest = pending_write rounds b blk d in
    if b == d.request_tail
    then some false
    else if ((d.buffers b).rd_blknum == blk) && is_write (d.buffers b).rd_op
    then some true
    else rest

-- The search for a block in the cache: `some none` is a block that is not there
unfoldable pub cached : ℕ → ℕ → ℕ → Rdscblk → Option (Option ℕ)
cached zero b blk d = none
cached (suc rounds) b blk d =
    let rest = cached rounds (d.rd_next b) blk d in
    if b == d.cache_tail
    then some none
    else if (d.buffers b).rd_blknum == blk
    then some (some b)
    else rest

-- The request of `rdswrite`, in the buffer `b`
unfoldable pub write_request : ℤ → (ℕ → ℕ) → ℕ → ℕ → Rdscblk → ℤ × Rdscblk
write_request pid buff blk b d =
    let e = record (d.buffers b) {
      rd_block = λ i. if ltb i rd_blksiz then buff i else (d.buffers b).rd_block i;
      rd_op = rd_op_write;
      rd_refcnt = pos 0;
      rd_blknum = blk;
      rd_valid = true;
      rd_pid = pid;
    } in
    let d1 = insert_request b (set_buffer b e d) in (ok, record d1 { rd_req = d1.rd_req +ℤ pos 1 })

-- A block in the cache that nobody reads is taken out; else there is a new buffer. `semreset` makes the
-- count of buffers one less.
unfoldable pub write_buffer : ℕ → ℕ → Option ℕ → Rdscblk → Option (ℕ × Rdscblk)
write_buffer rounds bptr none d = rdsbufalloc rounds bptr d
write_buffer rounds bptr (some b) d =
    if leb_ℤ (d.buffers b).rd_refcnt (pos 0)
    then some (b, unlink b (record d { rd_avail = d.rd_avail -ℤ pos 1 }))
    else rdsbufalloc rounds bptr d

unfoldable pub rdswrite : ℕ → ℕ → ℤ → (ℕ → ℕ) → ℕ → Rdscblk → Option (ℤ × Rdscblk)
rdswrite rounds bptr pid buff blk d =
    let head = d.rd_next d.request_head in
    let e = d.buffers head in
    let replaced = record e { rd_block = λ i. if ltb i rd_blksiz then buff i else e.rd_block i } in
    if not (is_open d.rd_state)
    then some (syserr, d)
    else pending_write rounds head blk d >>= λ found.
        if found
        then some (ok, set_buffer head replaced d)
        else cached rounds (d.rd_next d.cache_head) blk d >>= λ place.
            write_buffer rounds bptr place d >>= λ (b, d1). some (write_request pid buff blk b d1)

-- The loop of `rdsclose`
unfoldable pub empty_cache : ℕ → ℕ → Rdscblk → Option Rdscblk
empty_cache zero b d = none
empty_cache (suc rounds) b d =
    let d1 = unlink b d in
    let d2 = record d1 { rd_next = point d1.rd_next b d.rd_first_free; rd_first_free = b } in
    let d3 = set_buffer b (record (d.buffers b) { rd_valid = false }) d2 in
    let rest = empty_cache rounds (d.rd_next b) d3 in if b == d.cache_tail then some d else rest

unfoldable pub rdsclose : ℕ → Rdscblk → Option (ℤ × Rdscblk)
rdsclose rounds d =
    if not (is_open d.rd_state)
    then some (syserr, d)
    else if not (d.rd_next d.request_head == d.request_tail)
    then some (syserr, d)
    else empty_cache rounds (d.rd_next d.cache_head) d >>= λ d1.
        some (ok, record d1 { rd_state = rd_free })
