-- ===== src/Queue/Insert.antt =====
-- `insert` of Chapter4/insert.c keeps a queue in descending order of keys, first in first out
-- among equal keys.
use os_design_xinu_approach.Queue.Enqueue.{first-lt}
use os_design_xinu_approach.Queue.Bound.{length-le-nproc}
use os_design_xinu_approach.Prelude.{
  ℕ, zero, suc, ◌+◌, ◌≤◌, ◌<◌, ◌≡◌, refl, ◌∙◌, inl, inr, Bool, false, some, List, [], ◌∷◌, ◌++◌,
  arith, if◌then◌else◌, Bool-cases, length, All, All-map, All-append_left, Apart, All-insert, ℤ,
  pos, ◌≤ℤ◌, ◌<ℤ◌, leb_ℤ, Runs,
}
use os_design_xinu_approach.Queue.{nproc, nqent, minkey, Queuetab, update, insert_scan, insert}
use os_design_xinu_approach.Queue.Spans.{
  Spans, last, first, Spans-first, All-last, splice, update-ne, update_self, Spans-gap,
}
use os_design_xinu_approach.Queue.Holds.{Holds, slot-pos, members_in, Holds-key, Holds-splice}

-- The members that stay before a process of the key `key`, and those that come after it.
abbrev pub ahead : (ℕ → ℤ) → ℤ → List ℕ → List ℕ
ahead f key [] = []
ahead f key (x ∷ xs) = if leb_ℤ key (f x) then x ∷ ahead f key xs else []

abbrev pub behind : (ℕ → ℤ) → ℤ → List ℕ → List ℕ
behind f key [] = []
behind f key (x ∷ xs) = if leb_ℤ key (f x) then behind f key xs else x ∷ xs

pub ahead-behind : (f : ℕ → ℤ) (key : ℤ) (xs : List ℕ) → ahead f key xs ++ behind f key xs ≡ xs
ahead-behind f key [] = refl
ahead-behind f key (x ∷ xs) = elim (Bool-cases (leb_ℤ key (f x))) [
  | inl e ↦ rw (e, ahead-behind f key xs)
  | inr e ↦ rw e
]

-- Keys do not rise along the list.
abbrev pub Descending : (ℕ → ℤ) → List ℕ → Type 0
Descending f [] = Unit
Descending f (x ∷ xs) = All (λ y. f y ≤ℤ f x) xs × Descending f xs

-- `t` after `insert` has put `p` into the queue that holds `ps`.
abbrev pub inserted : Queuetab → ℕ → ℕ → ℤ → List ℕ → Queuetab
inserted t p q key ps =
    record (splice t p (last q (ahead t.qkey key ps)) (first (behind t.qkey key ps) (q + 1))) {
      qkey = update t.qkey p key;
    }

-- The search ends at the first member of a smaller key, or at the tail.
insert_scan-eq :
    (t : Queuetab) (key : ℤ) (a : ℕ) (ps : List ℕ) (b fuel : ℕ)
    → Spans t a ps b
    → All (λ p. p < nqent) ps
    → b < nqent
    → t.qkey b <ℤ key
    → length ps < fuel
    → insert_scan fuel t (pos (first ps b)) key ≡ some (pos (first (behind t.qkey key ps) b))
unfolding insert_scan
insert_scan-eq t key a ps b zero h m hb low enough = absurd (omega arith)
insert_scan-eq t key a [] b (suc fuel) h m hb low enough = ground arith
insert_scan-eq t key a (x ∷ xs) b (suc fuel) h m hb low enough =
    let rest = insert_scan-eq t key x xs b fuel h.1 m.1 hb low (omega arith) in
    let next : t.qnext x ≡ pos (first xs b) = (Spans-first t x xs b h.1).0 in
    let inside : x < nqent = m.0 in
    elim (Bool-cases (leb_ℤ key (t.qkey x))) [
      | inl e ↦ rw (slot-pos x inside, e, next) rest
      | inr e ↦ rw (slot-pos x inside, e)
    ]

-- The writes of `insert`, once the search has ended at `c`.
insert_links :
    (free : ℕ → Bool) (t : Queuetab) (p q f l c : ℕ) (key : ℤ)
    → free p ≡ false
    → t.qnext q ≡ pos f
    → insert_scan nqent t (pos f) key ≡ some (pos c)
    → t.qprev c ≡ pos l
    → c < nqent
    → l < nqent
    → p < nproc
    → q + 1 < nqent
    → insert free (pos p) (pos q) key t
      ≡ some (pos 0, record (splice t p l c) { qkey = update t.qkey p key })
unfolding insert
insert_links free t p q f l c key live head found before c_in l_in lt high = ground arith

-- What `insert` returns and writes.
pub insert-eq :
    (free : ℕ → Bool) (t : Queuetab) (p q : ℕ) (key : ℤ) (ps : List ℕ)
    → Holds t q ps
    → p < nproc
    → free p ≡ false
    → t.qkey (q + 1) <ℤ key
    → insert free (pos p) (pos q) key t ≡ some (pos 0, inserted t p q key ps)
insert-eq free t p q key ps h lt live low =
    let high : q + 1 < nqent = h.high in
    let head : t.qnext q ≡ pos (first ps (q + 1)) = (Spans-first t q ps (q + 1) h.chain).0 in
    let few = length-le-nproc h in
    let found =
      insert_scan-eq t key q ps (q + 1) nqent h.chain (members_in h) high low
        (omega (arith, few)) in
    let parts : ahead t.qkey key ps ++ behind t.qkey key ps ≡ ps = ahead-behind t.qkey key ps in
    let h' : Holds t q (ahead t.qkey key ps ++ behind t.qkey key ps) = rw parts h in
    let l = last q (ahead t.qkey key ps) in
    let c = first (behind t.qkey key ps) (q + 1) in
    let before : t.qprev c ≡ pos l =
      (Spans-gap t q (ahead t.qkey key ps) (behind t.qkey key ps) (q + 1) h'.chain).1 in
    let c_in : c < nqent = first-lt q (ahead t.qkey key ps) (behind t.qkey key ps) h' in
    let l_in : l < nqent =
      All-last (λ x. x < nqent) q (ahead t.qkey key ps)
        (
          omega arith,
          All-append_left _ (ahead t.qkey key ps) (behind t.qkey key ps) (members_in h'),
        ) in
    insert_links free t p q (first ps (q + 1)) l c key live head found before c_in l_in lt high

Descending-keys :
    (f : ℕ → ℤ) (p : ℕ) (key k : ℤ) (xs : List ℕ)
    → All (λ y. f y ≤ℤ k) xs
    → Apart p xs
    → All (λ y. update f p key y ≤ℤ k) xs
Descending-keys f p key k [] h a = tt
Descending-keys f p key k (x ∷ xs) h a =
    (rw (update-ne f p key x a.0) h.0, Descending-keys f p key k xs h.1 a.1)

pub Descending-update :
    (f : ℕ → ℤ) (p : ℕ) (key : ℤ) (xs : List ℕ)
    → Descending f xs
    → Apart p xs
    → Descending (update f p key) xs
Descending-update f p key [] d a = tt
Descending-update f p key (x ∷ xs) d a = (
  rw (update-ne f p key x a.0) (Descending-keys f p key (f x) xs d.0 a.1),
  Descending-update f p key xs d.1 a.1,
)

below_new :
    (f : ℕ → ℤ) (p : ℕ) (key : ℤ) (xs : List ℕ)
    → All (λ y. update f p key y ≤ℤ key) xs
    → All (λ y. update f p key y ≤ℤ update f p key p) xs
below_new f p key [] h = tt
below_new f p key (x ∷ xs) h = (rw (update_self f p key) h.0, below_new f p key xs h.1)

-- The new member leaves the order of keys as it was.
pub Descending-insert :
    (f : ℕ → ℤ) (p : ℕ) (key : ℤ) (xs : List ℕ)
    → Descending f xs
    → Apart p xs
    → Descending (update f p key) (ahead f key xs ++ p ∷ behind f key xs)
Descending-insert f p key [] d a = (tt, tt)
Descending-insert f p key (x ∷ xs) d a = elim (Bool-cases (leb_ℤ key (f x))) [
  | inl e ↦ rw e (
    All-insert _ (ahead f key xs) (behind f key xs) (ground arith) (
        rw (ahead-behind f key xs, update-ne f p key x a.0)
          (Descending-keys f p key (f x) xs d.0 a.1)),
    Descending-insert f p key xs d.1 a.1,
  )
  | inr e ↦ rw e (
    (
      ground arith,
      below_new f p key xs (
          Descending-keys f p key key xs
            (All-map (λ y. f y ≤ℤ f x) (λ y. f y ≤ℤ key) (λ y le. ground arith) xs d.0) a.1),
    ),
    Descending-update f p key (x ∷ xs) d a,
  )
]

-- A queue ordered by keys: its tail has the least key.
pub record Ordered (t : Queuetab) (q : ℕ) (ps : List ℕ) : Type 0 where
  pub holds : Holds t q ps
  pub descending : Descending t.qkey ps
  pub tail_key : t.qkey (q + 1) ≡ minkey

pub Ordered-inserted :
    (t : Queuetab) (p q : ℕ) (key : ℤ) (ps : List ℕ)
    → Ordered t q ps
    → p < nproc
    → Apart p ps
    → Ordered (inserted t p q key ps) q (ahead t.qkey key ps ++ p ∷ behind t.qkey key ps)
Ordered-inserted t p q key ps o lt new =
    let parts : ahead t.qkey key ps ++ behind t.qkey key ps ≡ ps = ahead-behind t.qkey key ps in
    let low : nproc ≤ q = o.holds.low in
    record {
      holds = Holds-key (update t.qkey p key) (
          Holds-splice t q (ahead t.qkey key ps) (behind t.qkey key ps) p (rw parts o.holds) lt
            (rw parts new));
      descending = Descending-insert t.qkey p key ps o.descending new;
      tail_key = update-ne t.qkey p key (q + 1) (λ e. omega arith) ∙ o.tail_key;
    }

-- `insert` puts a live process with a key above MINKEY behind all members of at least that key
-- and before all others, so the queue stays in descending order. It returns 0, reads and writes
-- inside `queuetab` only, and its search ends.
pub insert-Ordered :
    (free : ℕ → Bool) (t : Queuetab) (p q : ℕ) (key : ℤ) (ps : List ℕ)
    → Ordered t q ps
    → p < nproc
    → free p ≡ false
    → Apart p ps
    → minkey <ℤ key
    → Runs (insert free (pos p) (pos q) key t) λ (r, t').
      (r ≡ pos 0)
      × Ordered t' q (ahead t.qkey key ps ++ p ∷ behind t.qkey key ps)
      × (t'.qkey ≡ update t.qkey p key)
insert-Ordered free t p q key ps o lt live new low =
    rw (insert-eq free t p q key ps o.holds lt live (rw o.tail_key low))
      (refl, Ordered-inserted t p q key ps o lt new, refl)
