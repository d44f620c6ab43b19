-- ===== src/Queue/Delta.antt =====
-- `insertd` (Chapter13/insertd.c) on a delta list: a key is the delay after the process before it.
use os_design_xinu_approach.Prelude.{
  ℕ, zero, suc, ◌+◌, ◌-◌, ◌≤◌, ◌<◌, ◌≡◌, refl, ap, ◌∙◌, ◌≢◌, inl, inr, Bool, true, false, some,
  List, [], ◌∷◌, ◌++◌, arith, leb, if◌then◌else◌, Bool-cases, length, All, All-append_left,
  All-append_right, Apart, Distinct, ℤ, pos, ◌-ℤ◌, leb_ℤ, Runs,
}
use os_design_xinu_approach.Queue.{nproc, nqent, Queuetab, update, insertd_scan, insertd}
use os_design_xinu_approach.Queue.Spans.{
  Spans, last, first, Spans-first, All-last, splice, All-update-update,
}
use os_design_xinu_approach.Queue.Holds.{Holds, members_in, Holds-key, Holds-splice}
use os_design_xinu_approach.Queue.Bound.{length-le-nproc}

-- Processes with the ticks that are left for each, the first to wake up first.
abbrev pub procs : List (ℕ × ℕ) → List ℕ
procs [] = []
procs ((x, d) ∷ xs) = x ∷ procs xs

-- The keys are the differences of the delays, from `b` on.
abbrev pub Due : (ℕ → ℤ) → ℕ → List (ℕ × ℕ) → Type 0
Due f b [] = Unit
Due f b ((x, d) ∷ xs) = (b ≤ d) × (f x ≡ pos (d - b)) × Due f d xs

-- Those who wake up within `n` ticks, the others, and the delay of the last one of the first.
abbrev pub within : ℕ → List (ℕ × ℕ) → List (ℕ × ℕ)
within n [] = []
within n ((x, d) ∷ xs) = if leb d n then (x, d) ∷ within n xs else []

abbrev pub beyond : ℕ → List (ℕ × ℕ) → List (ℕ × ℕ)
beyond n [] = []
beyond n ((x, d) ∷ xs) = if leb d n then beyond n xs else (x, d) ∷ xs

abbrev pub last_delay : ℕ → ℕ → List (ℕ × ℕ) → ℕ
last_delay b n [] = b
last_delay b n ((x, d) ∷ xs) = if leb d n then last_delay d n xs else b

pub procs-append : (xs ys : List (ℕ × ℕ)) → procs (xs ++ ys) ≡ procs xs ++ procs ys
procs-append [] ys = refl
procs-append ((x, d) ∷ xs) ys = ap (λ l. x ∷ l) (procs-append xs ys)

pub within-beyond :
    (n : ℕ) (xs : List (ℕ × ℕ)) → procs (within n xs) ++ procs (beyond n xs) ≡ procs xs
within-beyond n [] = refl
within-beyond n ((x, d) ∷ xs) = elim (Bool-cases (leb d n)) [
  | inl e ↦ rw e (ap (λ l. x ∷ l) (within-beyond n xs))
  | inr e ↦ rw e refl
]

pub Due-frame :
    (f g : ℕ → ℤ) (b : ℕ) (xs : List (ℕ × ℕ))
    → Due f b xs
    → All (λ x. g x ≡ f x) (procs xs)
    → Due g b xs
Due-frame f g b [] h same = tt
Due-frame f g b ((x, d) ∷ xs) h same = (h.0, same.0 ∙ h.1, Due-frame f g d xs h.2 same.1)

scan_on :
    (t : Queuetab) (e a x m fuel : ℕ) (k key : ℤ)
    → x ≢ e
    → x < nqent
    → t.qkey x ≡ k
    → t.qnext x ≡ pos m
    → leb_ℤ k key ≡ true
    → insertd_scan (suc fuel) t (pos e) (pos a) (pos x) key
      ≡ insertd_scan fuel t (pos e) (pos x) (pos m) (key -ℤ k)
unfolding insertd_scan
scan_on t e a x m fuel k key ne lt ek em le = ground arith

scan_ends :
    (t : Queuetab) (e a x fuel : ℕ) (k key : ℤ)
    → x ≢ e
    → x < nqent
    → t.qkey x ≡ k
    → leb_ℤ k key ≡ false
    → insertd_scan (suc fuel) t (pos e) (pos a) (pos x) key ≡ some (pos a, pos x, key)
unfolding insertd_scan
scan_ends t e a x fuel k key ne lt ek le = ground arith

-- The search ends behind those who wake up within the delay.
insertd_scan-eq :
    (t : Queuetab) (n b a : ℕ) (xs : List (ℕ × ℕ)) (e fuel : ℕ)
    → Spans t a (procs xs) e
    → All (λ p. p < nproc) (procs xs)
    → nproc ≤ e
    → Due t.qkey b xs
    → b ≤ n
    → length (procs xs) < fuel
    → insertd_scan fuel t (pos e) (pos a) (pos (first (procs xs) e)) (pos (n - b))
      ≡ some (
        pos (last a (procs (within n xs))),
        pos (first (procs (beyond n xs)) e),
        pos (n - last_delay b n xs),
      )
unfolding insertd_scan
insertd_scan-eq t n b a xs e zero h m he due le enough = absurd (omega arith)
insertd_scan-eq t n b a [] e (suc fuel) h m he due le enough = ground arith
insertd_scan-eq t n b a ((x, d) ∷ xs) e (suc fuel) h m he due le enough =
    let small : x < nproc = m.0 in
    let next : t.qnext x ≡ pos (first (procs xs) e) = (Spans-first t x (procs xs) e h.1).0 in
    let key : t.qkey x ≡ pos (d - b) = due.1 in
    elim (Bool-cases (leb d n)) [
      | inl l ↦
          let rest =
            insertd_scan-eq t n d x xs e fuel h.1 m.1 he due.2 (ground arith)
              (omega (arith, enough)) in
          let before : pos (n - b) -ℤ pos (d - b) ≡ pos (n - d) = ground arith in
          rw
            (
              l,
              scan_on t e a x (first (procs xs) e) fuel (pos (d - b)) (pos (n - b))
                  (λ same. omega arith) (omega arith) key next (ground arith),
              before,
            )
            rest
      | inr g ↦
          rw
            (
              g,
              scan_ends t e a x fuel (pos (d - b)) (pos (n - b)) (λ same. omega arith) (omega arith)
                  key (ground arith),
            )
            refl
    ]

-- The keys after the writes of `insertd`, when `cs` are the processes behind `p`.
abbrev shortened : (ℕ → ℤ) → ℤ → List ℕ → ℕ → ℤ
shortened g key [] = g
shortened g key (c ∷ cs) = update g c (g c -ℤ key)

-- The writes of `insertd`, once the search has ended.
insertd_links :
    (free : ℕ → Bool) (t : Queuetab) (p q f l : ℕ) (cs : List ℕ) (key0 key : ℤ)
    → free p ≡ false
    → t.qnext q ≡ pos f
    → insertd_scan nqent t (pos (q + 1)) (pos q) (pos f) key0
      ≡ some (pos l, pos (first cs (q + 1)), key)
    → All (λ c. c < nproc) cs
    → l < nqent
    → p < nproc
    → nproc ≤ q
    → q + 1 < nqent
    → insertd free (pos p) (pos q) key0 t
      ≡ some (
        pos 1,
        record (splice t p l (first cs (q + 1))) { qkey = shortened (update t.qkey p key) key cs },
      )
unfolding insertd
insertd_links free t p q f l [] key0 key live head found small l_in lt low high = ground arith
insertd_links free t p q f l (c ∷ cs) key0 key live head found small l_in lt low high =
    ground (arith, small.0)

-- The keys of the list with `p` in its place.
Due-shortened :
    (f : ℕ → ℤ) (p n b : ℕ) (xs : List (ℕ × ℕ))
    → Due f b xs
    → b ≤ n
    → Apart p (procs xs)
    → Distinct (procs xs)
    → Due
        (shortened
          (update f p (pos (n - last_delay b n xs)))
          (pos (n - last_delay b n xs))
          (procs (beyond n xs)))
        b
        (within n xs ++ (p, n) ∷ beyond n xs)
Due-shortened f p n b [] due le new dist = (le, ground arith, tt)
Due-shortened f p n b ((x, d) ∷ xs) due le new dist = elim (Bool-cases (leb d n)) [
  | inl e ↦
      let key = pos (n - last_delay d n xs) in
      let rest = Due-shortened f p n d xs due.2 (ground arith) new.1 dist.1 in
      let off : Apart x (procs (beyond n xs)) =
        All-append_right _ (procs (within n xs)) (procs (beyond n xs))
          (rw (within-beyond n xs) dist.0) in
      rw e (due.0, kept key (beyond n xs) off ∙ due.1, rest)
  | inr e ↦ rw e (
    le,
    ground (arith, new.0),
    (
      ground arith,
      ground (arith, new.0, due.1),
      Due-frame f _ d xs due.2 (All-update-update f p x (pos (n - b)) _ (procs xs) new.1 dist.0),
    ),
  )
]
  where
    kept :
        (key : ℤ) (cs : List (ℕ × ℕ))
        → Apart x (procs cs)
        → shortened (update f p key) key (procs cs) x ≡ f x
    kept key [] off = ground (arith, new.0)
    kept key ((c, e) ∷ cs) off = ground (arith, new.0, off.0)

-- The delta list with the head `q` holds the sleepers `xs` with their delays.
pub record Sleeping (t : Queuetab) (q : ℕ) (xs : List (ℕ × ℕ)) : Type 0 where
  pub holds : Holds t q (procs xs)
  pub delays : Due t.qkey 0 xs

insertd-eq :
    (free : ℕ → Bool) (t : Queuetab) (p q n : ℕ) (xs : List (ℕ × ℕ))
    → Sleeping t q xs
    → p < nproc
    → free p ≡ false
    → insertd free (pos p) (pos q) (pos n) t
      ≡ some (
        pos 1,
        record (splice t p (last q (procs (within n xs))) (first (procs (beyond n xs)) (q + 1))) {
          qkey =
              shortened
                (update t.qkey p (pos (n - last_delay 0 n xs)))
                (pos (n - last_delay 0 n xs))
                (procs (beyond n xs));
        },
      )
insertd-eq free t p q n xs s lt live =
    let h = s.holds in
    let low : nproc ≤ q = h.low in
    let high : q + 1 < nqent = h.high in
    let head : t.qnext q ≡ pos (first (procs xs) (q + 1)) =
      (Spans-first t q (procs xs) (q + 1) h.chain).0 in
    let few = length-le-nproc h in
    let whole : n - 0 ≡ n = omega arith in
    let found = rw whole at (
      insertd_scan-eq t n 0 q xs (q + 1) nqent h.chain h.members (omega (arith, low)) s.delays
        (omega arith) (omega (arith, few))) in
    let parts = within-beyond n xs in
    let small : All (λ c. c < nproc) (procs (beyond n xs)) =
      All-append_right _ (procs (within n xs)) (procs (beyond n xs)) (rw parts h.members) in
    let l_in : last q (procs (within n xs)) < nqent =
      All-last (λ x. x < nqent) q (procs (within n xs))
        (
          omega (arith, high),
          All-append_left _ (procs (within n xs)) (procs (beyond n xs)) (rw parts (members_in h)),
        ) in
    insertd_links free t p q (first (procs xs) (q + 1)) (last q (procs (within n xs)))
      (procs (beyond n xs)) (pos n) (pos (n - last_delay 0 n xs)) live head found small l_in lt low
      high

-- `insertd` puts a process that is to wake up in `n` ticks behind all those that wake up by then and
-- before the others. Every process in the list keeps its own delay, and the call returns OK, reads
-- and writes inside `queuetab` only, and its search ends.
pub insertd-Sleeping :
    (free : ℕ → Bool) (t : Queuetab) (p q n : ℕ) (xs : List (ℕ × ℕ))
    → Sleeping t q xs
    → p < nproc
    → free p ≡ false
    → Apart p (procs xs)
    → Runs
        (insertd free (pos p) (pos q) (pos n) t)
        λ (r, t'). (r ≡ pos 1) × Sleeping t' q (within n xs ++ (p, n) ∷ beyond n xs)
insertd-Sleeping free t p q n xs s lt live new =
    let parts = within-beyond n xs in
    let placed =
      Holds-splice t q (procs (within n xs)) (procs (beyond n xs)) p (rw parts s.holds) lt
        (rw parts new) in
    let listed = procs-append (within n xs) ((p, n) ∷ beyond n xs) in
    rw (insertd-eq free t p q n xs s lt live) (
      refl,
      record {
        holds = rw listed (Holds-key _ placed);
        delays = Due-shortened t.qkey p n 0 xs s.delays (omega arith) new s.holds.distinct;
      },
    )
