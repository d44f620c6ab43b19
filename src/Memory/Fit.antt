-- ===== src/Memory/Fit.antt =====
-- What `getmem` and `getstk` of Chapter9 take out of the free chain.
use os_design_xinu_approach.Prelude.{
  ℕ, zero, suc, ◌+◌, ◌-◌, ◌^◌, ◌≤◌, ◌<◌, ◌≡◌, refl, subst, ◌⊎◌, inl, inr, false, Option, none, some,
  List, [], ◌∷◌, arith, ltb, leb, ◌==◌, ltb→lt, leb→le, Bool-cases, All, ◌>>=◌, Runs,
}
use os_design_xinu_approach.Memory.{Memblk, memblk, add64, shrink32, first_fit, last_fit, cut_high}
use os_design_xinu_approach.Memory.Chain.{IsChain, Taken, covers-lo, IsChain-lo, Taken-cons}

-- The outcome of a search: a request that is refused found every block too short.
abbrev pub Search : ℕ → ℕ → List Memblk → Option (ℕ × List Memblk) → Type 0
Search lo n bs none = All (λ b. b.mlength < n) bs
Search lo n bs (some (a, rest)) = Taken lo n bs a rest

whole :
    (lo n : ℕ) (b : Memblk) (bs : List Memblk)
    → IsChain lo (b ∷ bs)
    → b.mlength ≡ n
    → Taken lo n (b ∷ bs) b.addr bs
whole lo n b bs h e = record {
  above = h.0;
  below = omega arith;
  chain = IsChain-lo (b.addr + b.mlength) lo bs (omega arith) h.3;
  were_free = λ x i. ground arith;
  still_free = λ x. ground (arith, covers-lo (b.addr + b.mlength) bs x h.3);
  less = omega arith;
  aligned = λ d al. al.1;
}

low_end :
    (lo n : ℕ) (b : Memblk) (bs : List Memblk)
    → IsChain lo (b ∷ bs)
    → 0 < n
    → n < b.mlength
    → Taken lo n (b ∷ bs) b.addr (memblk (add64 b.addr n) (b.mlength - n) ∷ bs)
low_end lo n b bs h p lt =
    let e : add64 b.addr n ≡ b.addr + n = omega arith in
    rw e (record {
      above = h.0;
      below = omega arith;
      chain = (
        omega arith,
        omega arith,
        omega arith,
        IsChain-lo (b.addr + b.mlength) _ bs (omega arith) h.3,
      );
      were_free = λ x i. ground arith;
      still_free = λ x. ground (arith, covers-lo (b.addr + b.mlength) bs x h.3);
      less = omega arith;
      aligned = λ d al. (omega (arith, d, al.0), al.1);
    })

pub first_fit-Search :
    (lo n : ℕ) (bs : List Memblk) → IsChain lo bs → 16 ≤ n → Search lo n bs (first_fit n bs)
unfolding first_fit
first_fit-Search lo n [] h p = tt
first_fit-Search lo n (b ∷ bs) h p = elim (Bool-cases (b.mlength == n)) [
  | inl e ↦ rw e (whole lo n b bs h (ground arith))
  | inr ne ↦ elim (Bool-cases (ltb n b.mlength)) [
    | inl lt ↦
        let other : (n == 8) ≡ false = ground arith in
        let left = remainder n b.mlength (ltb→lt n b.mlength lt) (omega arith) in
        rw (ne, lt, other, left) (low_end lo n b bs h (omega arith) (ltb→lt n b.mlength lt))
    | inr ge ↦
        rw (ne, ge)
          (later (first_fit n bs) (ground arith) (first_fit-Search (b.addr + b.mlength) n bs h.3 p))
  ]
]
  where
    remainder : (n m : ℕ) → n < m → m < 2 ^ 32 → shrink32 m n ≡ m - n
    remainder n m lt small = omega arith

    later :
        (o : Option (ℕ × List Memblk))
        → b.mlength < n
        → Search (b.addr + b.mlength) n bs o
        → Search lo n (b ∷ bs) (o >>= λ (a, rest'). some (a, b ∷ rest'))
    later none short s = (short, s)
    later (some (a, rest)) short t = Taken-cons lo n b bs a rest h t

-- The high end of a block.
high_end :
    (lo n : ℕ) (b : Memblk) (bs : List Memblk)
    → IsChain lo (b ∷ bs)
    → 0 < n
    → n < b.mlength
    → Taken lo n (b ∷ bs) (add64 b.addr (b.mlength - n)) (memblk b.addr (b.mlength - n) ∷ bs)
high_end lo n b bs h p lt =
    let e : add64 b.addr (b.mlength - n) ≡ b.addr + (b.mlength - n) = omega arith in
    rw e (record {
      above = omega arith;
      below = omega arith;
      chain = (
        omega arith,
        omega arith,
        omega arith,
        IsChain-lo (b.addr + b.mlength) _ bs (omega arith) h.3,
      );
      were_free = λ x i. ground arith;
      still_free = λ x. ground (arith, covers-lo (b.addr + b.mlength) bs x h.3);
      less = omega arith;
      aligned = λ d al. (omega (arith, d, al.0), al.1);
    })

-- The `n` bytes from `a` on are the high end of the last block that is large enough.
abbrev pub LastFit : ℕ → List Memblk → ℕ → Type 0
LastFit n [] a = ⊥
LastFit n (b ∷ bs) a =
    ((n ≤ b.mlength) × (a + n ≡ b.addr + b.mlength) × All (λ b. b.mlength < n) bs) ⊎ LastFit n bs a

-- The outcome of the search of `getstk`
abbrev pub StackSearch : ℕ → ℕ → List Memblk → Option (ℕ × List Memblk) → Type 0
StackSearch lo n bs none = All (λ b. b.mlength < n) bs
StackSearch lo n bs (some (a, rest)) = Taken lo n bs a rest × LastFit n bs a

-- The place of the last block that is large enough
abbrev FitAt : ℕ → List Memblk → ℕ → Type 0
FitAt n [] j = ⊥
FitAt n (b ∷ bs) zero = (n ≤ b.mlength) × All (λ b. b.mlength < n) bs
FitAt n (b ∷ bs) (suc j) = FitAt n bs j

ending : (n a m : ℕ) → n ≤ m → a + m < 2 ^ 32 → add64 a (m - n) + n ≡ a + m
ending n a m le lt = omega arith

cut_high-Taken :
    (lo n : ℕ) (bs : List Memblk) (j : ℕ)
    → IsChain lo bs
    → 0 < n
    → FitAt n bs j
    → Runs (cut_high n bs j) (λ (a, rest). Taken lo n bs a rest × LastFit n bs a)
unfolding cut_high
cut_high-Taken lo n [] j h p fit = absurd fit
cut_high-Taken lo n (b ∷ bs) zero h p fit = elim (Bool-cases (n == b.mlength)) [
  | inl e ↦ rw e (whole lo n b bs h (ground arith), inl (fit.0, ground arith, fit.1))
  | inr ne ↦
      let end : add64 b.addr (b.mlength - n) + n ≡ b.addr + b.mlength =
        ending n b.addr b.mlength fit.0 h.2 in
      rw ne (high_end lo n b bs h p (ground arith), inl (fit.0, end, fit.1))
]
cut_high-Taken lo n (b ∷ bs) (suc j) h p fit =
    behind_first (cut_high n bs j) (cut_high-Taken (b.addr + b.mlength) n bs j h.3 p fit)
  where
    behind_first :
        (o : Option (ℕ × List Memblk))
        → Runs o (λ (a, rest). Taken (b.addr + b.mlength) n bs a rest × LastFit n bs a)
        → Runs
            (o >>= λ (a, rest'). some (a, b ∷ rest'))
            (λ (a, rest). Taken lo n (b ∷ bs) a rest × LastFit n (b ∷ bs) a)
    behind_first none r = r
    behind_first (some (a, rest)) t = (Taken-cons lo n b bs a rest h t.0, inr t.1)

-- The outcome of the loop of `getstk` at the place `i`, with `fits` found before.
abbrev Found : ℕ → List Memblk → ℕ → Option ℕ → Option ℕ → Type 0
Found n bs i fits none = (fits ≡ none) × All (λ b. b.mlength < n) bs
Found n bs i fits (some j) =
    ((fits ≡ some j) × All (λ b. b.mlength < n) bs) ⊎ ((d : ℕ) × (j ≡ i + d) × FitAt n bs d)

last_fit-Found :
    (n : ℕ) (bs : List Memblk) (i : ℕ) (fits : Option ℕ) → Found n bs i fits (last_fit n bs i fits)
unfolding last_fit
last_fit-Found n [] i none = (refl, tt)
last_fit-Found n [] i (some j) = inl (refl, tt)
last_fit-Found n (b ∷ bs) i fits = elim (Bool-cases (leb n b.mlength)) [
  | inl le ↦ rw le (
      hit (last_fit n bs (i + 1) (some i)) (leb→le n b.mlength le)
        (last_fit-Found n bs (i + 1) (some i)))
  | inr gt ↦
      rw gt (miss (last_fit n bs (i + 1) fits) (ground arith) (last_fit-Found n bs (i + 1) fits))
]
  where
    hit : (o : Option ℕ) → n ≤ b.mlength → Found n bs (i + 1) (some i) o → Found n (b ∷ bs) i fits o
    hit none le f = cc f.0
    hit (some j) le (inl (e, short)) = inr (0, ground arith, (le, short))
    hit (some j) le (inr (d, e, fit)) = inr (suc d, omega arith, fit)

    miss : (o : Option ℕ) → b.mlength < n → Found n bs (i + 1) fits o → Found n (b ∷ bs) i fits o
    miss none lt f = (f.0, (lt, f.1))
    miss (some j) lt (inl (e, short)) = inl (e, (lt, short))
    miss (some j) lt (inr (d, e, fit)) = inr (suc d, omega arith, fit)

-- The search of `getstk` and what it takes.
pub last_fit-Search :
    (lo n : ℕ) (bs : List Memblk)
    → IsChain lo bs
    → 0 < n
    → StackSearch lo n bs (last_fit n bs 0 none >>= cut_high n bs)
last_fit-Search lo n bs h p = conclude (last_fit n bs 0 none) (last_fit-Found n bs 0 none)
  where
    found :
        (o : Option (ℕ × List Memblk))
        → Runs o (λ (a, rest). Taken lo n bs a rest × LastFit n bs a)
        → StackSearch lo n bs o
    found none r = absurd r
    found (some (a, rest)) t = t

    conclude : (o : Option ℕ) → Found n bs 0 none o → StackSearch lo n bs (o >>= cut_high n bs)
    conclude none f = f.1
    conclude (some j) (inl (e, short)) = cc
    conclude (some j) (inr (d, e, fit)) =
        let same : d ≡ j = omega arith in
        found (cut_high n bs j) (cut_high-Taken lo n bs j h p (subst (FitAt n bs) same fit))
