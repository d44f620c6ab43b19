-- ===== src/Queue/Enqueue.antt =====
-- What `enqueue` and `dequeue` of Chapter4/queue.c do to the lists that the queues hold, with
-- `getfirst` and `getitem` of Chapter4/getitem.c.
use os_design_xinu_approach.Prelude.{
  ℕ, ◌+◌, ◌≤◌, ◌<◌, ◌≡◌, refl, Bool, false, some, List, [], ◌∷◌, ◌++◌, append-nil, arith, All,
  All-map, All-append_left, All-append_right, Apart, All-cons_append, ℤ, pos, Runs,
}
use os_design_xinu_approach.Queue.{
  nproc, nqent, empty, Queuetab, update, getitem, getfirst, enqueue, dequeue,
}
use os_design_xinu_approach.Queue.Spans.{
  last, first, Spans-last, All-last, All-first, relink, splice, update-ne, Spans-neighbours,
}
use os_design_xinu_approach.Queue.Holds.{
  Holds, nodes, members_in, SameLinks, Holds-frame, AgreeOutside, Holds-splice, Holds-relink,
}

-- `t` after the first process `p` has left the queue `q`, with `c` next.
abbrev pub taken : Queuetab → ℕ → ℕ → ℕ → Queuetab
taken t p q c = record t {
  qnext = update (update t.qnext q (pos c)) p empty;
  qprev = update (update t.qprev c (pos q)) p empty;
}

pub last-lt : {t : Queuetab} {q : ℕ} {ps : List ℕ} → Holds t q ps → last q ps < nqent
last-lt {q} {ps} h = All-last (λ x. x < nqent) q ps (omega (arith, h.high), members_in h)

pub first-lt :
    {t : Queuetab} (q : ℕ) (xs ys : List ℕ) → Holds t q (xs ++ ys) → first ys (q + 1) < nqent
first-lt q xs ys h =
    All-first (λ x. x < nqent) ys (q + 1) (All-append_right _ xs ys (members_in h)) h.high

-- What `enqueue` returns and writes.
pub enqueue-eq :
    (free : ℕ → Bool) (t : Queuetab) (p q : ℕ) (ps : List ℕ)
    → Holds t q ps
    → p < nproc
    → free p ≡ false
    → enqueue free (pos p) (pos q) t ≡ some (pos p, splice t p (last q ps) (q + 1))
unfolding enqueue
enqueue-eq free t p q ps h lt live =
    let end : t.qprev (q + 1) ≡ pos (last q ps) = (Spans-last t q ps (q + 1) h.chain).1 in
    let in_range : last q ps < nqent = last-lt h in
    let high : q + 1 < nqent = h.high in ground arith

-- What `getitem` returns and writes, wherever in a queue the process stands.
pub getitem-eq :
    (t : Queuetab) (q : ℕ) (xs ys : List ℕ) (p : ℕ)
    → Holds t q (xs ++ p ∷ ys)
    → getitem (pos p) t ≡ some (pos p, relink t (last q xs) (first ys (q + 1)))
unfolding getitem
getitem-eq t q xs ys p h =
    let near = Spans-neighbours t q xs ys (q + 1) p h.chain in
    let before : t.qprev p ≡ pos (last q xs) = near.0 in
    let after : t.qnext p ≡ pos (first ys (q + 1)) = near.1 in
    let in_range = members_in h in
    let p_in : p < nqent = (All-cons_append (λ x. x < nqent) xs ys in_range).0 in
    let c_in : first ys (q + 1) < nqent =
      All-first (λ x. x < nqent) ys (q + 1)
        (All-append_right _ xs ys (All-cons_append (λ x. x < nqent) xs ys in_range).1) h.high in
    let l_in : last q xs < nqent =
      All-last (λ x. x < nqent) q xs
        (omega (arith, h.high), All-append_left _ xs (p ∷ ys) in_range) in
    ground arith

-- What `dequeue` returns and writes.
pub dequeue-eq :
    (t : Queuetab) (q p : ℕ) (ps : List ℕ)
    → Holds t q (p ∷ ps)
    → dequeue (pos q) t ≡ some (pos p, taken t p q (first ps (q + 1)))
unfolding dequeue getfirst
dequeue-eq t q p ps h =
    let item = getitem-eq t q [] ps p h in
    let head : t.qnext q ≡ pos p = h.chain.0.0 in
    let member : p < nproc = h.members.0 in
    let high : q + 1 < nqent = h.high in ground (arith, item)

pub dequeue-nil : (t : Queuetab) (q : ℕ) → Holds t q [] → dequeue (pos q) t ≡ some (empty, t)
unfolding dequeue getfirst
dequeue-nil t q h =
    let head : t.qnext q ≡ pos (q + 1) = h.chain.0 in
    let low : nproc ≤ q = h.low in let high : q + 1 < nqent = h.high in ground arith

pub Holds-enqueue :
    (t : Queuetab) (p q : ℕ) (ps : List ℕ)
    → Holds t q ps
    → p < nproc
    → Apart p ps
    → Holds (splice t p (last q ps) (q + 1)) q (ps ++ p ∷ [])
Holds-enqueue t p q ps h lt new = Holds-splice t q ps [] p (rw append-nil h) lt (rw append-nil new)

pub Holds-taken :
    (t : Queuetab) (q p : ℕ) (ps : List ℕ)
    → Holds t q (p ∷ ps)
    → Holds (taken t p q (first ps (q + 1))) q ps
Holds-taken t q p ps h =
    Holds-frame (Holds-relink t q [] ps p h)
      (same (nodes q ps) ((λ e. omega arith), ((λ e. omega arith), h.distinct.0)))
  where
    low : nproc ≤ q
    low = h.low

    member : p < nproc
    member = h.members.0

    c : ℕ
    c = first ps (q + 1)

    same : (xs : List ℕ) → Apart p xs → All (SameLinks (relink t q c) (taken t p q c)) xs
    same xs =
        All-map _ _
          (λ x ne. (
            update-ne (relink t q c).qnext p empty x ne,
            update-ne (relink t q c).qprev p empty x ne,
          ))
          xs

pub splice-AgreeOutside :
    (t : Queuetab) (p l c : ℕ) → AgreeOutside (p ∷ l ∷ c ∷ []) t (splice t p l c)
splice-AgreeOutside t p l c x apart = ground arith

pub taken-AgreeOutside :
    (t : Queuetab) (p q c : ℕ) → AgreeOutside (p ∷ q ∷ c ∷ []) t (taken t p q c)
taken-AgreeOutside t p q c x apart = ground arith

-- The outcome of `dequeue` on a queue that holds `ps`.
abbrev Dequeued : Queuetab → ℕ → List ℕ → ℤ → Queuetab → Type 0
Dequeued t q [] r t' = (r ≡ empty) × (t' ≡ t)
Dequeued t q (p ∷ ps) r t' =
    (r ≡ pos p)
    × Holds t' q ps
    × (t'.qnext p ≡ empty)
    × (t'.qprev p ≡ empty)
    × AgreeOutside (p ∷ q ∷ first ps (q + 1) ∷ []) t t'
    × (t'.qkey ≡ t.qkey)

-- `enqueue` puts a live process at the end of a queue that it is not in, and returns it.
-- It reads and writes inside `queuetab` only, changes no key, and no link of any other entry than
-- the process, the last member and the tail.
pub enqueue-Holds :
    (free : ℕ → Bool) (t : Queuetab) (p q : ℕ) (ps : List ℕ)
    → Holds t q ps
    → p < nproc
    → free p ≡ false
    → Apart p ps
    → Runs (enqueue free (pos p) (pos q) t) λ (r, t').
      (r ≡ pos p)
      × Holds t' q (ps ++ p ∷ [])
      × AgreeOutside (p ∷ last q ps ∷ (q + 1) ∷ []) t t'
      × (t'.qkey ≡ t.qkey)
enqueue-Holds free t p q ps h lt live new =
    rw (enqueue-eq free t p q ps h lt live)
      (refl, Holds-enqueue t p q ps h lt new, splice-AgreeOutside t p (last q ps) (q + 1), refl)

-- `dequeue` takes the first process of a queue that holds one, marks its links EMPTY, and leaves
-- the rest in order. On a queue that holds none it returns EMPTY and changes nothing.
dequeue-Holds :
    (t : Queuetab) (q : ℕ) (ps : List ℕ)
    → Holds t q ps
    → Runs (dequeue (pos q) t) λ (r, t'). Dequeued t q ps r t'
dequeue-Holds t q [] h = rw (dequeue-nil t q h) (refl, refl)
dequeue-Holds t q (p ∷ ps) h = rw (dequeue-eq t q p ps h) (
  refl,
  Holds-taken t q p ps h,
  ground arith,
  ground arith,
  taken-AgreeOutside t p q (first ps (q + 1)),
  refl,
)

-- `getitem` takes a process out of the queue that it is in, wherever it stands, and leaves the
-- others in order. It reads and writes inside `queuetab` only and changes no key.
pub getitem-Holds :
    (t : Queuetab) (q : ℕ) (xs ys : List ℕ) (p : ℕ)
    → Holds t q (xs ++ p ∷ ys)
    → Runs (getitem (pos p) t) λ (r, t'). (r ≡ pos p) × Holds t' q (xs ++ ys) × (t'.qkey ≡ t.qkey)
getitem-Holds t q xs ys p h = rw (getitem-eq t q xs ys p h) (refl, Holds-relink t q xs ys p h, refl)
