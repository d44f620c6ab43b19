-- ===== src/Queue/Fresh.antt =====
-- The queues that `newqueue` of Chapter4/newqueue.c sets up.
use os_design_xinu_approach.Prelude.{
  ℕ, ◌+◌, ◌≤◌, ◌<◌, ◌≡◌, refl, none, some, List, [], ◌∷◌, arith, leb, if◌then◌else◌, All, Apart,
  pos, negsuc, Runs,
}
use os_design_xinu_approach.Queue.{nproc, nqent, empty, maxkey, minkey, Queuetab, update, newqueue}
use os_design_xinu_approach.Queue.Holds.{Holds, nodes, Apart-ge, SameLinks, Holds-frame}
use os_design_xinu_approach.Queue.Insert.{Ordered}
use os_design_xinu_approach.Queue.Frame.{HeadsApart}

-- `t` after the entries `n` and `n + 1` have become the head and the tail of a queue
abbrev fresh : Queuetab → ℕ → Queuetab
fresh t n = record {
  qkey = update (update t.qkey n maxkey) (n + 1) minkey;
  qnext = update (update t.qnext n (pos (n + 1))) (n + 1) empty;
  qprev = update (update t.qprev n empty) (n + 1) (pos n);
}

-- Below the end of the table `newqueue` returns the next pair of entries as an empty ordered queue,
-- moves on by two, and leaves every queue that is made of other entries as it was.
newqueue-Ordered :
    (t : Queuetab) (n q : ℕ) (ws : List ℕ)
    → nproc ≤ n
    → n + 1 < nqent
    → Holds t q ws
    → HeadsApart q n
    → Runs (newqueue (pos n) t) λ (qid, nextqid, t').
      (qid ≡ pos n) × (nextqid ≡ pos (n + 2)) × Ordered t' n [] × Holds t' q ws
unfolding newqueue
newqueue-Ordered t n q ws low high h heads =
    let eq : newqueue (pos n) t ≡ some (pos n, pos (n + 2), fresh t n) = ground arith in
    rw eq (refl, refl, ordered, Holds-frame h (same (nodes q ws) away away'))
  where
    low_q : nproc ≤ q
    low_q = h.low

    away : Apart n (nodes q ws)
    away = ((λ e. omega arith), ((λ e. omega arith), Apart-ge h n low))

    away' : Apart (n + 1) (nodes q ws)
    away' = ((λ e. omega arith), ((λ e. omega arith), Apart-ge h (n + 1) (omega arith)))

    same : (xs : List ℕ) → Apart n xs → Apart (n + 1) xs → All (SameLinks t (fresh t n)) xs
    same [] a b = tt
    same (x ∷ xs) a b = ((ground arith, ground arith), same xs a.1 b.1)

    ordered : Ordered (fresh t n) n []
    ordered = record {
      holds = record {
        low = low;
        high = high;
        chain = (ground arith, ground arith);
        members = tt;
        distinct = tt;
      };
      descending = tt;
      tail_key = ground arith;
    }

-- At the end of the table `newqueue` refuses only when `nextqid` is above `NQENT`: one step before,
-- and with fewer than two entries left, it writes behind the table.
newqueue-overruns :
    (t : Queuetab) (n : ℕ)
    → nqent ≤ n + 1
    → newqueue (pos n) t ≡ (if leb n nqent then none else some (negsuc 0, pos n, t))
unfolding newqueue
newqueue-overruns t n h = ground arith
