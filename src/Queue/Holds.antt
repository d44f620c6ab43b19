-- ===== src/Queue/Holds.antt =====
-- The list of processes that a queue of Chapter4/queue.h stands for.
use os_design_xinu_approach.Prelude.{
  ℕ, ◌+◌, ◌≤◌, ◌<◌, ◌≡◌, refl, false, some, List, [], ◌∷◌, ◌++◌, arith, All, All-map, Apart,
  Distinct, All-cons_append, All-insert, Distinct-insert, Distinct-remove, ℤ, pos,
}
use os_design_xinu_approach.Queue.{nproc, nqent, Queuetab, slot, queuetail, isbadqid}
use os_design_xinu_approach.Queue.Spans.{
  Spans, last, first, Spans-frame, relink, splice, Spans-insert, Spans-remove,
}

-- The queue with head `q` holds the processes `ps`, first to last.
pub record Holds (t : Queuetab) (q : ℕ) (ps : List ℕ) : Type 0 where
  pub low : nproc ≤ q
  pub high : q + 1 < nqent
  pub chain : Spans t q ps (q + 1)
  pub members : All (λ p. p < nproc) ps
  pub distinct : Distinct ps

-- the entries that a queue uses
abbrev pub nodes : ℕ → List ℕ → List ℕ
nodes q ps = q ∷ (q + 1) ∷ ps

pub queuetail-pos : (q : ℕ) → queuetail (pos q) ≡ pos (q + 1)
queuetail-pos q = ground arith

pub slot-pos : (i : ℕ) → i < nqent → slot (pos i) ≡ some i
slot-pos i h = ground arith

pub isbadqid-pos : (q : ℕ) → q + 1 < nqent → isbadqid (pos q) ≡ false
isbadqid-pos q h = ground arith

module _ {t : Queuetab} {q : ℕ} {ps : List ℕ} (h : Holds t q ps) where
  -- no member is the head or the tail
  pub Apart-ge : (a : ℕ) → nproc ≤ a → Apart a ps
  Apart-ge a le = All-map _ _ (λ p lt e. omega arith) ps h.members

  pub Distinct-head : Distinct (q ∷ ps)
  Distinct-head = (Apart-ge q h.low, h.distinct)

  pub Distinct-nodes : Distinct (nodes q ps)
  Distinct-nodes =
      let low : nproc ≤ q = h.low in
      ((λ e. omega arith, Apart-ge q low), (Apart-ge (q + 1) (omega arith), h.distinct))

  -- Every link of the list stays inside `queuetab`.
  pub members_in : All (λ p. p < nqent) ps
  members_in = All-map _ _ (λ p lt. omega arith) ps h.members

-- Keys are no part of what a queue holds.
pub Holds-key :
    {t : Queuetab} {q : ℕ} {ps : List ℕ} (f : ℕ → ℤ)
    → Holds t q ps
    → Holds (record t { qkey = f }) q ps
Holds-key {t} {q} {ps} f h = record {
  low = h.low;
  high = h.high;
  chain =
      Spans-frame t (record t { qkey = f }) q ps (q + 1) h.chain (same_next (q ∷ ps))
        (same_prev ((q + 1) ∷ ps));
  members = h.members;
  distinct = h.distinct;
}
  where
    same_next : (xs : List ℕ) → All (λ x. t.qnext x ≡ t.qnext x) xs
    same_next = elim [ [] ↦ tt | x ∷ (xs → ih) ↦ (refl, ih) ]

    same_prev : (xs : List ℕ) → All (λ x. t.qprev x ≡ t.qprev x) xs
    same_prev = elim [ [] ↦ tt | x ∷ (xs → ih) ↦ (refl, ih) ]

-- Links of the entry `x` are the same in both tables.
abbrev pub SameLinks : Queuetab → Queuetab → ℕ → Type 0
SameLinks t t' x = (t'.qnext x ≡ t.qnext x) × (t'.qprev x ≡ t.qprev x)

-- A queue keeps its list while its own entries keep their links.
pub Holds-frame :
    {t t' : Queuetab} {q : ℕ} {ps : List ℕ}
    → Holds t q ps
    → All (SameLinks t t') (nodes q ps)
    → Holds t' q ps
Holds-frame {t} {t'} {q} {ps} h same = record {
  low = h.low;
  high = h.high;
  chain =
      Spans-frame t t' q ps (q + 1) h.chain (same.0.0, All-map _ _ (λ x s. s.0) ps same.1.1)
        (same.1.0.1, All-map _ _ (λ x s. s.1) ps same.1.1);
  members = h.members;
  distinct = h.distinct;
}

-- Tables that agree outside the entries `touched`.
abbrev pub AgreeOutside : List ℕ → Queuetab → Queuetab → Type 0
AgreeOutside touched t t' = (x : ℕ) → Apart x touched → SameLinks t t' x

pub Holds-other :
    {t t' : Queuetab} {r : ℕ} {rs : List ℕ} (touched : List ℕ)
    → AgreeOutside touched t t'
    → Holds t r rs
    → All (λ x. Apart x touched) (nodes r rs)
    → Holds t' r rs
Holds-other {r} {rs} touched same h apart = Holds-frame h (All-map _ _ same (nodes r rs) apart)

-- Splicing `p` in between `xs` and `ys`.
pub Holds-splice :
    (t : Queuetab) (q : ℕ) (xs ys : List ℕ) (p : ℕ)
    → Holds t q (xs ++ ys)
    → p < nproc
    → Apart p (xs ++ ys)
    → Holds (splice t p (last q xs) (first ys (q + 1))) q (xs ++ p ∷ ys)
Holds-splice t q xs ys p h lt new =
    let low : nproc ≤ q = h.low in
    record {
      low = h.low;
      high = h.high;
      chain =
          Spans-insert t q xs ys (q + 1) p h.chain (Distinct-head h)
            (Apart-ge h (q + 1) (omega arith)) ((λ e. omega arith), new) (λ e. omega arith);
      members = All-insert _ xs ys lt h.members;
      distinct = Distinct-insert xs ys p h.distinct new;
    }

-- Unlinking `p`.
pub Holds-relink :
    (t : Queuetab) (q : ℕ) (xs ys : List ℕ) (p : ℕ)
    → Holds t q (xs ++ p ∷ ys)
    → Holds (relink t (last q xs) (first ys (q + 1))) q (xs ++ ys)
Holds-relink t q xs ys p h =
    let low : nproc ≤ q = h.low in
    let members = (All-cons_append (λ x. x < nproc) xs ys h.members).1 in
    let distinct = (Distinct-remove xs ys p h.distinct).1 in
    let off : (a : ℕ) → nproc ≤ a → Apart a (xs ++ ys) =
      λ a le. All-map _ _ (λ x lt e. omega arith) (xs ++ ys) members in
    record {
      low = h.low;
      high = h.high;
      chain =
          Spans-remove t q xs ys (q + 1) p h.chain (off q h.low, distinct)
            (off (q + 1) (omega arith));
      members = members;
      distinct = distinct;
    }
