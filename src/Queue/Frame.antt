-- ===== src/Queue/Frame.antt =====
-- A write to one queue leaves the other queues as they are.
use os_design_xinu_approach.Prelude.{
  ℕ, ◌+◌, ◌≤◌, ◌<◌, sym, ◌≢◌, ◌⊎◌, inl, inr, List, [], ◌∷◌, ◌++◌, arith, All, All-map,
  All-append_left, All-append_right, Apart, ℤ,
}
use os_design_xinu_approach.Queue.{nproc, Queuetab, update}
use os_design_xinu_approach.Queue.Spans.{last, first, All-last, All-first, splice}
use os_design_xinu_approach.Queue.Holds.{Holds, nodes, Apart-ge, Holds-key, Holds-other}
use os_design_xinu_approach.Queue.Enqueue.{taken, splice-AgreeOutside, taken-AgreeOutside}
use os_design_xinu_approach.Queue.Insert.{ahead, behind, ahead-behind, inserted}

-- The queue `q` of the processes `ws` uses none of the entries `touched`.
abbrev pub Clear : ℕ → List ℕ → List ℕ → Type 0
Clear q ws touched = All (λ x. Apart x touched) (nodes q ws)

abbrev pub HeadsApart : ℕ → ℕ → Type 0
HeadsApart q r = (q + 1 < r) ⊎ (r + 1 < q)

module _ (t : Queuetab) (q : ℕ) (ws : List ℕ) (h : Holds t q ws) where
  pub Holds-spliced_other : (p l c : ℕ) → Clear q ws (p ∷ l ∷ c ∷ []) → Holds (splice t p l c) q ws
  Holds-spliced_other p l c clear =
      Holds-other (p ∷ l ∷ c ∷ []) (splice-AgreeOutside t p l c) h clear

  -- A dequeue from the queue `r`.
  pub Holds-taken_other :
      (r p : ℕ) (ps : List ℕ)
      → Clear q ws (nodes r (p ∷ ps))
      → Holds (taken t p r (first ps (r + 1))) q ws
  Holds-taken_other r p ps clear =
      Holds-other (p ∷ r ∷ first ps (r + 1) ∷ []) (taken-AgreeOutside t p r (first ps (r + 1))) h (
        All-map _ _ (λ x a. (a.1.1.0, (a.0, (All-first (λ y. x ≢ y) ps (r + 1) a.1.1.1 a.1.0, tt))))
          (nodes q ws) clear)

  -- An `enqueue` of `p` in the queue `r`.
  pub Holds-enqueue_other :
      (r p : ℕ) (ps : List ℕ)
      → Clear q ws (p ∷ nodes r ps)
      → Holds (splice t p (last r ps) (r + 1)) q ws
  Holds-enqueue_other r p ps clear = Holds-spliced_other p (last r ps) (r + 1) (
      All-map _ _ (λ x a. (a.0, (All-last (λ y. x ≢ y) r ps (a.1.0, a.1.1.1), (a.1.1.0, tt))))
        (nodes q ws) clear)

  -- An `insert` of `p` in the queue `r`.
  pub Holds-inserted_other :
      (r p : ℕ) (key : ℤ) (ps : List ℕ)
      → Clear q ws (p ∷ nodes r ps)
      → Holds (inserted t p r key ps) q ws
  Holds-inserted_other r p key ps clear = Holds-key (update f p key) (
      Holds-spliced_other p (last r (ahead f key ps)) (first (behind f key ps) (r + 1)) (
        All-map _ _ (λ x a. ends x (a.0, (a.1.0, (a.1.1.0, rw (ahead-behind f key ps) a.1.1.1))))
          (nodes q ws) clear))
    where
      f : ℕ → ℤ
      f = t.qkey

      ends :
          (x : ℕ)
          → Apart x (p ∷ nodes r (ahead f key ps ++ behind f key ps))
          → Apart x (p ∷ last r (ahead f key ps) ∷ first (behind f key ps) (r + 1) ∷ [])
      ends x a = (
        a.0,
        (
          All-last (λ y. x ≢ y) r (ahead f key ps)
              (a.1.0, All-append_left _ (ahead f key ps) (behind f key ps) a.1.1.1),
          (
            All-first (λ y. x ≢ y) (behind f key ps) (r + 1)
                (All-append_right _ (ahead f key ps) (behind f key ps) a.1.1.1) a.1.1.0,
            tt,
          ),
        ),
      )

-- Queues of disjoint processes are clear of one another.
pub Clear-disjoint :
    {t : Queuetab} {q r : ℕ} {ws ps : List ℕ}
    → Holds t q ws
    → Holds t r ps
    → HeadsApart q r
    → All (λ w. Apart w ps) ws
    → Clear q ws (nodes r ps)
Clear-disjoint {t} {q} {r} {ws} {ps} hq hr heads disjoint =
    let low_q : nproc ≤ q = hq.low in
    let low_r : nproc ≤ r = hr.low in
    (
      ((λ e. omega arith), ((λ e. omega arith), Apart-ge hr q low_q)),
      (
        ((λ e. omega arith), ((λ e. omega arith), Apart-ge hr (q + 1) (omega arith))),
        members ws hq.members disjoint,
      ),
    )
  where
    members :
        (xs : List ℕ)
        → All (λ w. w < nproc) xs
        → All (λ w. Apart w ps) xs
        → All (λ x. Apart x (nodes r ps)) xs
    members [] m d = tt
    members (x ∷ xs) m d =
        let low_r : nproc ≤ r = hr.low in
        let small : x < nproc = m.0 in
        (((λ e. omega arith), ((λ e. omega arith), d.0)), members xs m.1 d.1)

pub Clear-cons :
    {t : Queuetab} {q : ℕ} {ws : List ℕ} (c : ℕ) (touched : List ℕ)
    → Holds t q ws
    → c < nproc
    → Apart c ws
    → Clear q ws touched
    → Clear q ws (c ∷ touched)
Clear-cons {t} {q} {ws} c touched h lt off clear =
    let low : nproc ≤ q = h.low in
    (((λ e. omega arith), clear.0), (((λ e. omega arith), clear.1.0), members ws off clear.1.1))
  where
    members :
        (xs : List ℕ)
        → Apart c xs
        → All (λ x. Apart x touched) xs
        → All (λ x. Apart x (c ∷ touched)) xs
    members [] a h = tt
    members (x ∷ xs) a h = (((λ e. a.0 (sym e)), h.0), members xs a.1 h.1)

pub HeadsApart-sym : {q r : ℕ} → HeadsApart q r → HeadsApart r q
HeadsApart-sym (inl a) = inr a
HeadsApart-sym (inr b) = inl b
