-- ===== src/Disk/Close.antt =====
-- Closing the remote disk: `rdsclose` (Chapter18/rdsclose.c) on the lists of its buffers.
use os_design_xinu_approach.Prelude.{
  ℕ, zero, suc, ◌<◌, ◌≡◌, refl, sym, ap, ◌∙◌, subst, ◌≢◌, true, false, some, List, [], ◌∷◌, arith,
  ◌==◌, length, All, Apart, Distinct, ◌>>=◌, Runs, Runs-map, Runs-bind,
}
use os_design_xinu_approach.Disk.{
  rd_free, rd_open, Rdscblk, point, unlink, set_buffer, empty_cache, rdsclose,
}
use os_design_xinu_approach.State.{ok}

-- The nodes `xs` stand between `p` and `tail`, linked both ways.
abbrev pub Linked : (ℕ → ℕ) → (ℕ → ℕ) → ℕ → List ℕ → ℕ → Type 0
Linked next prev p [] tail = (next p ≡ tail) × (prev tail ≡ p)
Linked next prev p (x ∷ xs) tail = (next p ≡ x) × (prev x ≡ p) × Linked next prev x xs tail

-- The nodes `fs` are linked one way, from `f` to NULL.
abbrev pub FreeFrom : (ℕ → ℕ) → ℕ → List ℕ → Type 0
FreeFrom next f [] = f ≡ 0
FreeFrom next f (y ∷ ys) = (f ≡ y) × FreeFrom next (next y) ys

-- `xs` put in front of `fs` one by one
abbrev pub onto : List ℕ → List ℕ → List ℕ
onto [] fs = fs
onto (x ∷ xs) fs = onto xs (x ∷ fs)

point-ne : (f : ℕ → ℕ) (a v x : ℕ) → a ≢ x → point f a v x ≡ f x
point-ne f a v x ne = ground (arith, ne)

point-eq : (f : ℕ → ℕ) (a v : ℕ) → point f a v a ≡ v
point-eq f a v = ground arith

FreeFrom-point :
    (next : ℕ → ℕ) (a v f : ℕ) (fs : List ℕ)
    → Apart a fs
    → FreeFrom next f fs
    → FreeFrom (point next a v) f fs
FreeFrom-point next a v f [] off h = h
FreeFrom-point next a v f (y ∷ ys) off h = (
  h.0,
  subst (λ z. FreeFrom (point next a v) z ys) (sym (point-ne next a v y off.0))
      (FreeFrom-point next a v (next y) ys off.1 h.1),
)

-- Two links change outside the list.
FreeFrom-freed :
    (next : ℕ → ℕ) (a v b f : ℕ) (fs : List ℕ)
    → Apart a fs
    → Apart b fs
    → FreeFrom next f fs
    → FreeFrom (point (point next a v) b f) (point (point next a v) b f b) fs
FreeFrom-freed next a v b f fs off_a off_b h =
    subst (λ z. FreeFrom (point (point next a v) b f) z fs) (sym (point-eq (point next a v) b f))
      (FreeFrom-point (point next a v) b f f fs off_b (FreeFrom-point next a v f fs off_a h))

Linked-next :
    (next prev : ℕ → ℕ) (a v p tail : ℕ) (xs : List ℕ)
    → a ≢ p
    → Apart a xs
    → Linked next prev p xs tail
    → Linked (point next a v) prev p xs tail
Linked-next next prev a v p tail [] ne off h = (point-ne next a v p ne ∙ h.0, h.1)
Linked-next next prev a v p tail (x ∷ xs) ne off h =
    (point-ne next a v p ne ∙ h.0, h.1, Linked-next next prev a v x tail xs off.0 off.1 h.2)

Linked-prev :
    (next prev : ℕ → ℕ) (a v p tail : ℕ) (xs : List ℕ)
    → a ≢ tail
    → Apart a xs
    → Linked next prev p xs tail
    → Linked next (point prev a v) p xs tail
Linked-prev next prev a v p tail [] ne off h = (h.0, point-ne prev a v tail ne ∙ h.1)
Linked-prev next prev a v p tail (x ∷ xs) ne off h =
    (h.0, point-ne prev a v x off.0 ∙ h.1, Linked-prev next prev a v x tail xs ne off.1 h.2)

-- The first node is taken out.
Linked-unlink :
    (next prev : ℕ → ℕ) (head b tail : ℕ) (xs : List ℕ)
    → Linked next prev head (b ∷ xs) tail
    → Apart head xs
    → Apart tail xs
    → Distinct xs
    → Linked (point next head (next b)) (point prev (next b) head) head xs tail
Linked-unlink next prev head b tail [] h off_head off_tail distinct =
    let last = h.2.0 in (point-eq next head (next b) ∙ last, rw last (point-eq prev tail head))
Linked-unlink next prev head b tail (x ∷ xs) h off_head off_tail distinct =
    let following = h.2.0 in
    (
      point-eq next head (next b) ∙ following,
      rw following (point-eq prev x head),
      Linked-next next (point prev (next b) head) head (next b) x tail xs off_head.0 off_head.1 (
          rw following
            (Linked-prev next prev x head x tail xs (λ e. off_tail.0 (sym e)) distinct.0 h.2.2)),
    )

-- The cache holds the buffers `xs`, and the free list `fs`; no buffer is in both or twice.
pub record Caching (d : Rdscblk) (xs fs : List ℕ) : Type 0 where
  pub cache : Linked d.rd_next d.rd_prev d.cache_head xs d.cache_tail
  pub free : FreeFrom d.rd_next d.rd_first_free fs
  pub off_head : Apart d.cache_head xs
  pub off_tail : Apart d.cache_tail xs
  pub distinct : Distinct xs
  pub disjoint : All (λ x. Apart x fs) xs
  pub head_free : Apart d.cache_head fs

-- One round of the loop
abbrev freed : ℕ → Rdscblk → Rdscblk
freed b d =
    let d1 = unlink b d in
    let d2 = record d1 { rd_next = point d1.rd_next b d.rd_first_free; rd_first_free = b } in
    set_buffer b (record (d.buffers b) { rd_valid = false }) d2

still_disjoint :
    (b : ℕ) (xs fs : List ℕ)
    → Apart b xs
    → All (λ x. Apart x fs) xs
    → All (λ x. Apart x (b ∷ fs)) xs
still_disjoint b [] fs off h = tt
still_disjoint b (x ∷ xs) fs off h = (((λ e. off.0 (sym e)), h.0), still_disjoint b xs fs off.1 h.1)

Caching-freed :
    (d : Rdscblk) (b : ℕ) (xs fs : List ℕ) → Caching d (b ∷ xs) fs → Caching (freed b d) xs (b ∷ fs)
Caching-freed d b xs fs c =
    let before : d.rd_prev b ≡ d.cache_head = c.cache.1 in
    let off : b ≢ d.cache_head = λ e. c.off_head.0 (sym e) in
    record {
      cache = rw before (
          Linked-next _ _ b d.rd_first_free d.cache_head d.cache_tail xs off c.distinct.0 (
            Linked-unlink d.rd_next d.rd_prev d.cache_head b d.cache_tail xs c.cache c.off_head.1
              c.off_tail.1 c.distinct.1));
      free = (
        refl,
        subst
            (λ p.
              FreeFrom (point (point d.rd_next p (d.rd_next b)) b d.rd_first_free)
                (point (point d.rd_next p (d.rd_next b)) b d.rd_first_free b) fs)
            (sym before)
            (FreeFrom-freed d.rd_next d.cache_head (d.rd_next b) b d.rd_first_free fs c.head_free
              c.disjoint.0 c.free),
      );
      off_head = c.off_head.1;
      off_tail = c.off_tail.1;
      distinct = c.distinct.1;
      disjoint = still_disjoint b xs fs c.distinct.0 c.disjoint.1;
      head_free = (c.off_head.0, c.head_free);
    }

-- How things stand when the loop ends
pub record Emptied (d : Rdscblk) (xs fs : List ℕ) (d' : Rdscblk) : Type 0 where
  pub caching : Caching d' [] (onto xs fs)
  pub invalid : All (λ x. (d'.buffers x).rd_valid ≡ false) xs
  pub kept : (y : ℕ) → (d.buffers y).rd_valid ≡ false → (d'.buffers y).rd_valid ≡ false

freed_invalid :
    (d : Rdscblk) (b y : ℕ)
    → (d.buffers y).rd_valid ≡ false
    → ((freed b d).buffers y).rd_valid ≡ false
freed_invalid d b y h = ground (arith, h)

freed_itself : (d : Rdscblk) (b : ℕ) → ((freed b d).buffers b).rd_valid ≡ false
freed_itself d b = ground arith

empty_cache-Emptied :
    (rounds : ℕ) (d : Rdscblk) (xs fs : List ℕ)
    → Caching d xs fs
    → length xs < rounds
    → Runs (empty_cache rounds (d.rd_next d.cache_head) d) (Emptied d xs fs)
unfolding empty_cache
empty_cache-Emptied zero d xs fs c lt = absurd (omega (arith, lt))
empty_cache-Emptied (suc rounds) d [] fs c lt =
    let end : (d.rd_next d.cache_head == d.cache_tail) ≡ true = ground (arith, c.cache.0) in
    rw end (record { caching = c; invalid = tt; kept = λ y h. h })
empty_cache-Emptied (suc rounds) d (b ∷ xs) fs c lt =
    let on : (b == d.cache_tail) ≡ false = ground (arith, c.off_tail.0) in
    let c1 = Caching-freed d b xs fs c in
    let rest = empty_cache-Emptied rounds (freed b d) xs (b ∷ fs) c1 (omega (arith, lt)) in
    let same : (freed b d).rd_next d.cache_head ≡ d.rd_next b =
      point-ne (unlink b d).rd_next b d.rd_first_free d.cache_head (λ e. c.off_head.0 (sym e))
      ∙ ap (λ p. point d.rd_next p (d.rd_next b) d.cache_head) c.cache.1
      ∙ point-eq d.rd_next d.cache_head (d.rd_next b) in
    rw (c.cache.0, on)
      (Runs-map (empty_cache rounds (d.rd_next b) (freed b d)) (Emptied (freed b d) xs (b ∷ fs))
        (Emptied d (b ∷ xs) fs)
        (λ d' e. record {
          caching = e.caching;
          invalid = (e.kept b (freed_itself d b), e.invalid);
          kept = λ y h. e.kept y (freed_invalid d b y h);
        })
        (rw same at rest))

-- The device is closed, its cache is empty, and its buffers are free.
pub record Closed (xs fs : List ℕ) (d' : Rdscblk) : Type 0 where
  pub state : d'.rd_state ≡ rd_free
  pub cache : Linked d'.rd_next d'.rd_prev d'.cache_head [] d'.cache_tail
  pub free : FreeFrom d'.rd_next d'.rd_first_free (onto xs fs)
  pub invalid : All (λ x. (d'.buffers x).rd_valid ≡ false) xs

-- Closing an open disk without requests ends after as many rounds as there are buffers in the cache, and
-- returns OK: the device is closed, and all buffers of the cache, which hold nothing valid any more, have
-- been put in front of the free list, the last one first, provided that the lists are linked
-- properly and share no buffer.
pub rdsclose-Closed :
    (rounds : ℕ) (d : Rdscblk) (xs fs : List ℕ)
    → d.rd_state ≡ rd_open
    → d.rd_next d.request_head ≡ d.request_tail
    → Caching d xs fs
    → length xs < rounds
    → Runs (rdsclose rounds d) λ (r, d'). (r ≡ ok) × Closed xs fs d'
unfolding rdsclose
rdsclose-Closed rounds d xs fs opened idle c lt =
    let no_request : (d.rd_next d.request_head == d.request_tail) ≡ true = ground (arith, idle) in
    let run : rdsclose rounds d ≡ (
        empty_cache rounds (d.rd_next d.cache_head) d >>= λ d1.
        some (ok, record d1 { rd_state = rd_free })) =
      ground (arith, opened, no_request) in
    rw run (
      Runs-bind (empty_cache rounds (d.rd_next d.cache_head) d)
        (λ d1. some (ok, record d1 { rd_state = rd_free })) (Emptied d xs fs)
        (λ (r, d'). (r ≡ ok) × Closed xs fs d') (empty_cache-Emptied rounds d xs fs c lt)
        (λ d1 e. (
          refl,
          record {
            state = refl;
            cache = e.caching.cache;
            free = e.caching.free;
            invalid = e.invalid;
          },
        )))
