-- ===== src/Prelude/Lists.antt =====
-- Lists measured and indexed by native numbers, under the library's names, and predicates on them.
use Prim.Native.Nat.{ℕ, zero, suc, ◌+◌}
use mathlib.Core.Path.{◌≡◌, sym}
use mathlib.Core.List.{List, [], ◌∷◌, ◌++◌}
use mathlib.Core.Logic.{◌≢◌}
use native.Mathlib.Omega.{arith}

module _ {ℓ} {A : Type ℓ} where
  abbrev pub length : List A → ℕ
  length [] = 0
  length (x ∷ xs) = suc (length xs)

  pub length-append : (xs ys : List A) → length (xs ++ ys) ≡ length xs + length ys
  length-append [] ys = omega arith
  length-append (x ∷ xs) ys = omega (arith, length-append xs ys)

  abbrev pub take : ℕ → List A → List A
  take zero xs = []
  take (suc n) [] = []
  take (suc n) (x ∷ xs) = x ∷ take n xs

  -- A predicate by recursion computes to tuples, which the tactics read and build.
  abbrev pub All {κ} : (A → Type κ) → List A → Type κ
  All P [] = Unit
  All P (x ∷ xs) = P x × All P xs

  pub All-map {κ μ} :
      (P : A → Type κ) (Q : A → Type μ)
      → ((x : A) → P x → Q x)
      → (xs : List A) → All P xs
      → All Q xs
  All-map P Q f [] h = tt
  All-map P Q f (x ∷ xs) h = (f x h.0, All-map P Q f xs h.1)

  pub All-append {κ} : (P : A → Type κ) (xs ys : List A) → All P xs → All P ys → All P (xs ++ ys)
  All-append P [] ys here there = there
  All-append P (x ∷ xs) ys here there = (here.0, All-append P xs ys here.1 there)

  pub All-append_left {κ} : (P : A → Type κ) (xs ys : List A) → All P (xs ++ ys) → All P xs
  All-append_left P [] ys h = tt
  All-append_left P (x ∷ xs) ys h = (h.0, All-append_left P xs ys h.1)

  pub All-append_right {κ} : (P : A → Type κ) (xs ys : List A) → All P (xs ++ ys) → All P ys
  All-append_right P [] ys h = h
  All-append_right P (x ∷ xs) ys h = All-append_right P xs ys h.1

-- `x` is none of the members.
abbrev pub Apart : ℕ → List ℕ → Type 0
Apart x xs = All (λ y. x ≢ y) xs

abbrev pub Distinct : List ℕ → Type 0
Distinct [] = Unit
Distinct (x ∷ xs) = Apart x xs × Distinct xs

pub All-cons_append :
    (P : ℕ → Type 0) (xs ys : List ℕ) {y : ℕ} → All P (xs ++ y ∷ ys) → P y × All P (xs ++ ys)
All-cons_append P [] ys h = h
All-cons_append P (x ∷ xs) ys h = let r = All-cons_append P xs ys h.1 in (r.0, (h.0, r.1))

pub All-insert :
    (P : ℕ → Type 0) (xs ys : List ℕ) {y : ℕ} → P y → All P (xs ++ ys) → All P (xs ++ y ∷ ys)
All-insert P [] ys hy h = (hy, h)
All-insert P (x ∷ xs) ys hy h = (h.0, All-insert P xs ys hy h.1)

pub Distinct-left : (xs ys : List ℕ) → Distinct (xs ++ ys) → Distinct xs
Distinct-left [] ys d = tt
Distinct-left (x ∷ xs) ys d = (All-append_left _ xs ys d.0, Distinct-left xs ys d.1)

pub Distinct-right : (xs ys : List ℕ) → Distinct (xs ++ ys) → Distinct ys
Distinct-right [] ys d = d
Distinct-right (x ∷ xs) ys d = Distinct-right xs ys d.1

pub Distinct-cross : (xs ys : List ℕ) → Distinct (xs ++ ys) → All (λ x. Apart x ys) xs
Distinct-cross [] ys d = tt
Distinct-cross (x ∷ xs) ys d = (All-append_right _ xs ys d.0, Distinct-cross xs ys d.1)

pub Apart-flip : (xs ys : List ℕ) → All (λ x. Apart x ys) xs → All (λ y. Apart y xs) ys
Apart-flip xs [] h = tt
Apart-flip xs (y ∷ ys) h =
    (All-map _ _ (λ x a e. a.0 (sym e)) xs h, Apart-flip xs ys (All-map _ _ (λ x a. a.1) xs h))

pub Distinct-insert :
    (xs ys : List ℕ) (p : ℕ) → Distinct (xs ++ ys) → Apart p (xs ++ ys) → Distinct (xs ++ p ∷ ys)
Distinct-insert [] ys p d a = (a, d)
Distinct-insert (x ∷ xs) ys p d a =
    (All-insert _ xs ys (λ e. a.0 (sym e)) d.0, Distinct-insert xs ys p d.1 a.1)

pub Distinct-remove :
    (xs ys : List ℕ) (p : ℕ) → Distinct (xs ++ p ∷ ys) → Apart p (xs ++ ys) × Distinct (xs ++ ys)
Distinct-remove [] ys p d = d
Distinct-remove (x ∷ xs) ys p d =
    let h = All-cons_append _ xs ys d.0 in
    let r = Distinct-remove xs ys p d.1 in ((λ e. h.0 (sym e), r.0), (h.1, r.1))
