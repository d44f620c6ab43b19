-- ===== src/Queue.antt =====
-- The table of linked lists: Chapter4/queue.h, queue.c, getitem.c, insert.c, newqueue.c and, for
-- delta lists, Chapter13/insertd.c. Entries below `nproc` are processes, the others are the heads
-- and tails of the lists. `none` is an access outside `queuetab`, or a search that does not end.
pub mod Spans
pub mod Holds
pub mod Enqueue
pub mod Insert
pub mod Bound
pub mod Frame
pub mod Fresh
pub mod Delta
mod Tests
use os_design_xinu_approach.Prelude.{
  ℕ, zero, suc, ◌+◌, ◌-◌, Bool, true, ◌||◌, Option, none, some, ltb, leb, ◌==◌, if◌then◌else◌, ℤ,
  pos, negsuc, ◌+ℤ◌, ◌-ℤ◌, ltb_ℤ, leb_ℤ, eqb_ℤ, ◌>>=◌,
}

-- `NPROC`, `NSEM` and `NQENT`
abbrev pub nproc : ℕ
nproc = 100

abbrev pub nsem : ℕ
nsem = 5

abbrev pub nqent : ℕ
nqent = nproc + 4 + nsem + nsem

-- `EMPTY` and `SYSERR` are both -1.
abbrev pub empty : ℤ
empty = negsuc 0

abbrev pub syserr : ℤ
syserr = negsuc 0

abbrev pub maxkey : ℤ
maxkey = pos 0x7FFFFFFF

-- `MINKEY`, 0x80000000 stored in an `int`
abbrev pub minkey : ℤ
minkey = negsuc 0x7FFFFFFF

-- `queuetab`, an array of `struct qentry`, kept as one function for each field.
pub record Queuetab : Type 0 where
  pub qkey : ℕ → ℤ
  pub qnext : ℕ → ℤ
  pub qprev : ℕ → ℤ

abbrev pub update : (ℕ → ℤ) → ℕ → ℤ → ℕ → ℤ
update f i v j = if i == j then v else f j

-- The subscript of an access `queuetab[i]`.
abbrev pub slot : ℤ → Option ℕ
slot (pos i) = if ltb i nqent then some i else none
slot (negsuc i) = none

-- Reads and writes of one field.
abbrev pub key_of : Queuetab → ℤ → Option ℤ
key_of t i = slot i >>= λ j. some (t.qkey j)

abbrev pub next_of : Queuetab → ℤ → Option ℤ
next_of t i = slot i >>= λ j. some (t.qnext j)

abbrev pub prev_of : Queuetab → ℤ → Option ℤ
prev_of t i = slot i >>= λ j. some (t.qprev j)

abbrev pub set_key : Queuetab → ℤ → ℤ → Option Queuetab
set_key t i v = slot i >>= λ j. some (record t { qkey = update t.qkey j v })

abbrev pub set_next : Queuetab → ℤ → ℤ → Option Queuetab
set_next t i v = slot i >>= λ j. some (record t { qnext = update t.qnext j v })

abbrev pub set_prev : Queuetab → ℤ → ℤ → Option Queuetab
set_prev t i v = slot i >>= λ j. some (record t { qprev = update t.qprev j v })

-- `queuehead`, `queuetail`, `firstid`, `isempty`, `firstkey` and `isbadqid`
abbrev pub queuehead : ℤ → ℤ
queuehead q = q

abbrev pub queuetail : ℤ → ℤ
queuetail q = q +ℤ pos 1

abbrev pub firstid : Queuetab → ℤ → Option ℤ
firstid t q = next_of t (queuehead q)

abbrev pub lastid : Queuetab → ℤ → Option ℤ
lastid t q = prev_of t (queuetail q)

abbrev pub isempty : Queuetab → ℤ → Option Bool
isempty t q = firstid t q >>= λ i. some (leb_ℤ (pos nproc) i)

abbrev pub firstkey : Queuetab → ℤ → Option ℤ
firstkey t q = firstid t q >>= λ i. key_of t i

abbrev pub isbadqid : ℤ → Bool
isbadqid q = ltb_ℤ q (pos 0) || leb_ℤ (pos (nqent - 1)) q

-- `isbadpid` of Chapter5/process.h; `free` is the test `proctab[x].prstate == PR_FREE`.
abbrev pub isbadpid : (ℕ → Bool) → ℤ → Bool
isbadpid free (pos p) = leb nproc p || free p
isbadpid free (negsuc p) = true

unfoldable pub getitem : ℤ → Queuetab → Option (ℤ × Queuetab)
getitem pid t = do
  next ← next_of t pid
  prev ← prev_of t pid
  t1 ← set_next t prev next
  t2 ← set_prev t1 next prev
  some (pid, t2)

unfoldable pub getfirst : ℤ → Queuetab → Option (ℤ × Queuetab)
getfirst q t = do
  none_left ← isempty t q
  if none_left then some (empty, t) else (do first ← firstid t q; getitem first t)

unfoldable pub getlast : ℤ → Queuetab → Option (ℤ × Queuetab)
getlast q t = do
  none_left ← isempty t q
  if none_left then some (empty, t) else (do last ← lastid t q; getitem last t)

module _ (free : ℕ → Bool) where
  unfoldable pub enqueue : ℤ → ℤ → Queuetab → Option (ℤ × Queuetab)
  enqueue pid q t = if isbadqid q || isbadpid free pid then some (syserr, t) else do
    let tail = queuetail q
    prev ← prev_of t tail
    t1 ← set_next t pid tail
    t2 ← set_prev t1 pid prev
    t3 ← set_next t2 prev pid
    t4 ← set_prev t3 tail pid
    some (pid, t4)

unfoldable pub dequeue : ℤ → Queuetab → Option (ℤ × Queuetab)
dequeue q t = if isbadqid q then some (syserr, t) else do
  none_left ← isempty t q
  if none_left then some (empty, t) else do
    (pid, t1) ← getfirst q t
    t2 ← set_prev t1 pid empty
    t3 ← set_next t2 pid empty
    some (pid, t3)

-- `while (queuetab[curr].qkey >= key) curr = queuetab[curr].qnext`, on fuel.
unfoldable pub insert_scan : ℕ → Queuetab → ℤ → ℤ → Option ℤ
insert_scan zero t curr key = none
insert_scan (suc fuel) t curr key = key_of t curr >>= λ k.
    let rest = (next_of t curr >>= λ n. insert_scan fuel t n key) in
    if leb_ℤ key k then rest else some curr

-- A list has at most `nproc` members and a tail, so `nqent` rounds are enough.
module _ (free : ℕ → Bool) where
  unfoldable pub insert : ℤ → ℤ → ℤ → Queuetab → Option (ℤ × Queuetab)
  insert pid q key t = if isbadqid q || isbadpid free pid then some (negsuc 0, t) else do
    first ← firstid t q
    curr ← insert_scan nqent t first key
    prev ← prev_of t curr
    t1 ← set_next t pid curr
    t2 ← set_prev t1 pid prev
    t3 ← set_key t2 pid key
    t4 ← set_next t3 prev pid
    t5 ← set_prev t4 curr pid
    some (pos 0, t5)

-- The search of `insertd`: `prev`, `next` and the ticks that are left.
unfoldable pub insertd_scan : ℕ → Queuetab → ℤ → ℤ → ℤ → ℤ → Option (ℤ × ℤ × ℤ)
insertd_scan zero t tail prev next key = none
insertd_scan (suc fuel) t tail prev next key =
    if eqb_ℤ next tail
    then some (prev, next, key)
    else key_of t next >>= λ k.
        let rest = (next_of t next >>= λ n. insertd_scan fuel t tail next n (key -ℤ k)) in
        if leb_ℤ k key then rest else some (prev, next, key)

module _ (free : ℕ → Bool) where
  unfoldable pub insertd : ℤ → ℤ → ℤ → Queuetab → Option (ℤ × Queuetab)
  insertd pid q key0 t = if isbadqid q || isbadpid free pid then some (syserr, t) else do
    first ← next_of t (queuehead q)
    (prev, next, key) ← insertd_scan nqent t (queuetail q) (queuehead q) first key0
    t1 ← set_next t pid next
    t2 ← set_prev t1 pid prev
    t3 ← set_key t2 pid key
    t4 ← set_next t3 prev pid
    t5 ← set_prev t4 next pid
    if eqb_ℤ next (queuetail q)
        then some (pos 1, t5)
        else do k ← key_of t5 next; t6 ← set_key t5 next (k -ℤ key); some (pos 1, t6)

-- `newqueue` with its static variable `nextqid`, which starts at `NPROC`.
unfoldable pub newqueue : ℤ → Queuetab → Option (ℤ × ℤ × Queuetab)
newqueue nextqid t = if ltb_ℤ (pos nqent) nextqid then some (negsuc 0, nextqid, t) else do
  let q = nextqid
  t1 ← set_next t (queuehead q) (queuetail q)
  t2 ← set_prev t1 (queuehead q) empty
  t3 ← set_key t2 (queuehead q) maxkey
  t4 ← set_next t3 (queuetail q) empty
  t5 ← set_prev t4 (queuetail q) (queuehead q)
  t6 ← set_key t5 (queuetail q) minkey
  some (q, nextqid +ℤ pos 2, t6)
