-- ===== src/Queue/Spans.antt =====
-- Doubly linked paths through `queuetab`, and what relinking does to them.
use os_design_xinu_approach.Prelude.{
  ℕ, ◌≡◌, sym, ◌∙◌, ◌≢◌, List, [], ◌∷◌, ◌++◌, arith, All, All-map, All-append_left,
  All-append_right, Apart, Distinct, ℤ, pos,
}
use os_design_xinu_approach.Queue.{Queuetab, update}

-- `b` follows `a`.
abbrev pub Linked : Queuetab → ℕ → ℕ → Type 0
Linked t a b = (t.qnext a ≡ pos b) × (t.qprev b ≡ pos a)

-- From `a` the links lead through `xs` to `b`, and back.
abbrev pub Spans : Queuetab → ℕ → List ℕ → ℕ → Type 0
Spans t a [] b = Linked t a b
Spans t a (x ∷ xs) b = Linked t a x × Spans t x xs b

-- the node before the end of a path, and the node after its start
abbrev pub last : ℕ → List ℕ → ℕ
last a [] = a
last a (x ∷ xs) = last x xs

abbrev pub first : List ℕ → ℕ → ℕ
first [] b = b
first (x ∷ xs) b = x

pub Spans-last :
    (t : Queuetab) (a : ℕ) (xs : List ℕ) (b : ℕ) → Spans t a xs b → Linked t (last a xs) b
Spans-last t a [] b h = h
Spans-last t a (x ∷ xs) b h = Spans-last t x xs b h.1

pub Spans-first :
    (t : Queuetab) (a : ℕ) (xs : List ℕ) (b : ℕ) → Spans t a xs b → Linked t a (first xs b)
Spans-first t a [] b h = h
Spans-first t a (x ∷ xs) b h = h.0

pub All-last {κ} : (P : ℕ → Type κ) (a : ℕ) (xs : List ℕ) → All P (a ∷ xs) → P (last a xs)
All-last P a [] h = h.0
All-last P a (x ∷ xs) h = All-last P x xs h.1

pub All-first {κ} : (P : ℕ → Type κ) (xs : List ℕ) (b : ℕ) → All P xs → P b → P (first xs b)
All-first P [] b h hb = hb
All-first P (x ∷ xs) b h hb = h.0

-- A path stands while the links along it stand.
pub Spans-frame :
    (t t' : Queuetab) (a : ℕ) (xs : List ℕ) (b : ℕ)
    → Spans t a xs b
    → All (λ x. t'.qnext x ≡ t.qnext x) (a ∷ xs)
    → All (λ x. t'.qprev x ≡ t.qprev x) (b ∷ xs)
    → Spans t' a xs b
Spans-frame t t' a [] b h n p = (n.0 ∙ h.0, p.0 ∙ h.1)
Spans-frame t t' a (x ∷ xs) b h n p =
    ((n.0 ∙ h.0.0, p.1.0 ∙ h.0.1), Spans-frame t t' x xs b h.1 n.1 (p.0, p.1.1))

-- `l` and `c` become neighbours, as `getitem` writes.
abbrev pub relink : Queuetab → ℕ → ℕ → Queuetab
relink t l c = record t { qnext = update t.qnext l (pos c); qprev = update t.qprev c (pos l) }

-- `p` goes between `l` and `c`, as `enqueue`, `insert` and `insertd` write.
abbrev pub splice : Queuetab → ℕ → ℕ → ℕ → Queuetab
splice t p l c = record t {
  qnext = update (update t.qnext p (pos c)) l (pos p);
  qprev = update (update t.qprev p (pos l)) c (pos p);
}

pub update-ne : (f : ℕ → ℤ) (i : ℕ) (v : ℤ) (j : ℕ) → i ≢ j → update f i v j ≡ f j
update-ne f i v j ne = ground arith

pub update_self : (f : ℕ → ℤ) (i : ℕ) (v : ℤ) → update f i v i ≡ v
update_self f i v = ground arith

pub All-update :
    (f : ℕ → ℤ) (i : ℕ) (v : ℤ) (xs : List ℕ) → Apart i xs → All (λ x. update f i v x ≡ f x) xs
All-update f i v xs = All-map _ _ (λ x ne. update-ne f i v x ne) xs

pub All-update-update :
    (f : ℕ → ℤ) (i j : ℕ) (v w : ℤ) (xs : List ℕ)
    → Apart i xs
    → Apart j xs
    → All (λ x. update (update f i v) j w x ≡ f x) xs
All-update-update f i j v w [] hi hj = tt
All-update-update f i j v w (x ∷ xs) hi hj = (
  update-ne (update f i v) j w x hj.0 ∙ update-ne f i v x hi.0,
  All-update-update f i j v w xs hi.1 hj.1,
)

pub ne_sym : {a b : ℕ} → a ≢ b → b ≢ a
ne_sym ne e = ne (sym e)

-- The links of a path survive writes to the links of nodes that are elsewhere.
Spans-update :
    (t : Queuetab) (a : ℕ) (xs : List ℕ) (b : ℕ) (i j k l : ℕ) (v w v' w' : ℤ)
    → Spans t a xs b
    → Apart i (a ∷ xs)
    → Apart j (a ∷ xs)
    → Apart k (b ∷ xs)
    → Apart l (b ∷ xs)
    → Spans
        (record t {
          qnext = update (update t.qnext i v) j w;
          qprev = update (update t.qprev k v') l w';
        })
        a
        xs
        b
Spans-update t a xs b i j k l v w v' w' h hi hj hk hl =
    Spans-frame t
      (record t {
        qnext = update (update t.qnext i v) j w;
        qprev = update (update t.qprev k v') l w';
      })
      a xs b h (All-update-update t.qnext i j v w (a ∷ xs) hi hj)
      (All-update-update t.qprev k l v' w' (b ∷ xs) hk hl)

Spans-update_one :
    (t : Queuetab) (a : ℕ) (xs : List ℕ) (b : ℕ) (i k : ℕ) (v v' : ℤ)
    → Spans t a xs b
    → Apart i (a ∷ xs)
    → Apart k (b ∷ xs)
    → Spans (record t { qnext = update t.qnext i v; qprev = update t.qprev k v' }) a xs b
Spans-update_one t a xs b i k v v' h hi hk =
    Spans-frame t (record t { qnext = update t.qnext i v; qprev = update t.qprev k v' }) a xs b h
      (All-update t.qnext i v (a ∷ xs) hi) (All-update t.qprev k v' (b ∷ xs) hk)

-- A new node `p` between the nodes `xs` and `ys` of a path.
pub Spans-insert :
    (t : Queuetab) (a : ℕ) (xs ys : List ℕ) (b p : ℕ)
    → Spans t a (xs ++ ys) b
    → Distinct (a ∷ (xs ++ ys))
    → Apart b (xs ++ ys)
    → Apart p (a ∷ (xs ++ ys))
    → p ≢ b
    → Spans (splice t p (last a xs) (first ys b)) a (xs ++ p ∷ ys) b
Spans-insert t a [] [] b p h d out new ne = ground arith
Spans-insert t a [] (y ∷ ys) b p h d out new ne = (
  (ground arith),
  (
    (ground arith),
    Spans-update t y ys b p a p y (pos y) (pos p) (pos a) (pos p) h.1 new.1 d.0 (ne, new.1.1)
        ((λ e. out.0 (sym e)), d.1.0),
  ),
)
Spans-insert t a (x ∷ xs) ys b p h d out new ne =
    let far = All-last (λ y. a ≢ y) x xs (d.0.0, All-append_left _ xs ys d.0.1) in
    let far' = All-first (λ y. x ≢ y) ys b (All-append_right _ xs ys d.1.0) (ne_sym out.0) in
    (
      (
        update-ne (update t.qnext p (pos (first ys b))) (last x xs) (pos p) a (ne_sym far)
            ∙ update-ne t.qnext p (pos (first ys b)) a new.0
            ∙ h.0.0,
        update-ne (update t.qprev p (pos (last x xs))) (first ys b) (pos p) x (ne_sym far')
            ∙ update-ne t.qprev p (pos (last x xs)) x new.1.0
            ∙ h.0.1,
      ),
      Spans-insert t x xs ys b p h.1 d.1 out.1 new.1 ne,
    )

-- The node `p` of a path is unlinked.
pub Spans-remove :
    (t : Queuetab) (a : ℕ) (xs ys : List ℕ) (b p : ℕ)
    → Spans t a (xs ++ p ∷ ys) b
    → Distinct (a ∷ (xs ++ ys))
    → Apart b (xs ++ ys)
    → Spans (relink t (last a xs) (first ys b)) a (xs ++ ys) b
Spans-remove t a [] [] b p h d out = ground arith
Spans-remove t a [] (y ∷ ys) b p h d out = (
  ground arith,
  Spans-update_one t y ys b a y (pos y) (pos a) h.1.1 d.0 ((λ e. out.0 (sym e)), d.1.0),
)
Spans-remove t a (x ∷ xs) ys b p h d out =
    let far = All-last (λ y. a ≢ y) x xs (d.0.0, All-append_left _ xs ys d.0.1) in
    let far' = All-first (λ y. x ≢ y) ys b (All-append_right _ xs ys d.1.0) (ne_sym out.0) in
    (
      (
        update-ne t.qnext (last x xs) _ a (ne_sym far) ∙ h.0.0,
        update-ne t.qprev (first ys b) _ x (ne_sym far') ∙ h.0.1,
      ),
      Spans-remove t x xs ys b p h.1 d.1 out.1,
    )

-- The neighbours of a node of a path.
pub Spans-neighbours :
    (t : Queuetab) (a : ℕ) (xs ys : List ℕ) (b p : ℕ)
    → Spans t a (xs ++ p ∷ ys) b
    → (t.qprev p ≡ pos (last a xs)) × (t.qnext p ≡ pos (first ys b))
Spans-neighbours t a [] ys b p h = (h.0.1, (Spans-first t p ys b h.1).0)
Spans-neighbours t a (x ∷ xs) ys b p h = Spans-neighbours t x xs ys b p h.1

-- The two nodes round a gap of a path.
pub Spans-gap :
    (t : Queuetab) (a : ℕ) (xs ys : List ℕ) (b : ℕ)
    → Spans t a (xs ++ ys) b
    → Linked t (last a xs) (first ys b)
Spans-gap t a [] ys b h = Spans-first t a ys b h
Spans-gap t a (x ∷ xs) ys b h = Spans-gap t x xs ys b h.1
