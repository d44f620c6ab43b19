-- ===== src/Queue/Bound.antt =====
-- How long a queue can be: its members are distinct process ids.
use os_design_xinu_approach.Prelude.{
  ℕ, zero, suc, ◌≤◌, ◌<◌, ◌≡◌, refl, ap, ◌⊎◌, inl, inr, true, List, [], ◌∷◌, ◌++◌, arith, ◌==◌,
  Bool-cases, length, All, Apart, Distinct, All-cons_append, Distinct-remove,
}
use os_design_xinu_approach.Queue.{nproc, Queuetab}
use os_design_xinu_approach.Queue.Holds.{Holds}

-- `m` is in the list, at a place of its own, or apart from it.
pub locate :
    (m : ℕ) (xs : List ℕ) → Apart m xs ⊎ ((us : List ℕ) × (vs : List ℕ) × (xs ≡ us ++ m ∷ vs))
locate m [] = inl tt
locate m (x ∷ xs) = elim (Bool-cases (m == x)) [
  | inl e ↦ inr ([], xs, ap (λ y. y ∷ xs) (omega_eq e))
  | inr ne ↦ elim (locate m xs) [
    | inl a ↦ inl ((λ e. ground arith), a)
    | inr (us, vs, e) ↦ inr (x ∷ us, vs, ap (λ ys. x ∷ ys) e)
  ]
]
  where
    omega_eq : (m == x) ≡ true → x ≡ m
    omega_eq e = ground arith

length-cons_append : (us vs : List ℕ) (m : ℕ) → length (us ++ m ∷ vs) ≡ suc (length (us ++ vs))
length-cons_append [] vs m = refl
length-cons_append (a ∷ us) vs m = ap suc (length-cons_append us vs m)

-- Distinct numbers below `n` are at most `n`.
pub pigeonhole : (n : ℕ) (xs : List ℕ) → All (λ x. x < n) xs → Distinct xs → length xs ≤ n
pigeonhole zero [] h d = omega arith
pigeonhole zero (x ∷ xs) h d = absurd (omega arith)
pigeonhole (suc n) xs h d = elim (locate n xs) [
  | inl out ↦
      let below : All (λ x. x < n) xs = narrow n xs h out in omega (arith, pigeonhole n xs below d)
  | inr (us, vs, e) ↦ with_member n us vs xs e h d (pigeonhole n (us ++ vs))
]
  where
    narrow : (n : ℕ) (xs : List ℕ) → All (λ x. x < suc n) xs → Apart n xs → All (λ x. x < n) xs
    narrow n = elim [ [] ↦ λ h a. tt | x ∷ (xs → ih) ↦ λ h a. (ground arith, ih h.1 a.1) ]

    with_member :
        (n : ℕ) (us vs xs : List ℕ)
        → xs ≡ us ++ n ∷ vs
        → All (λ x. x < suc n) xs
        → Distinct xs
        → (All (λ x. x < n) (us ++ vs) → Distinct (us ++ vs) → length (us ++ vs) ≤ n)
        → length xs ≤ suc n
    with_member n us vs xs e h d ih =
        let h' = rw e at h in
        let r = Distinct-remove us vs n (rw e at d) in
        let small = narrow n (us ++ vs) (All-cons_append (λ x. x < suc n) us vs h').1 r.0 in
        rw (e, length-cons_append us vs n) (omega (arith, ih small r.1))

-- A queue holds at most `nproc` processes.
pub length-le-nproc : {t : Queuetab} {q : ℕ} {ps : List ℕ} → Holds t q ps → length ps ≤ nproc
length-le-nproc {ps} h = pigeonhole nproc ps h.members h.distinct
