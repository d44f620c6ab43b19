-- ===== src/Clock/Remaining.antt =====
-- Who sleeps on after some clock interrupts (Chapter13/clkhandler.c), and who has woken up.
use os_design_xinu_approach.Prelude.{
  ℕ, zero, suc, ◌-◌, ◌<◌, ◌≡◌, refl, ap, inl, inr, true, false, List, [], ◌∷◌, arith, leb,
  if◌then◌else◌, Bool-cases, All, ℤ,
}
use os_design_xinu_approach.Queue.Delta.{procs, Due, within, beyond}
use os_design_xinu_approach.State.{Kernel}
use os_design_xinu_approach.Clock.Delays.{ticked}
use os_design_xinu_approach.Sched.Kept.{Active}
use os_design_xinu_approach.Clock.Ticks.{Later}

-- The sleepers after `n` ticks, with what is left of their delays
abbrev pub remaining : ℕ → List (ℕ × ℕ) → List (ℕ × ℕ)
remaining n [] = []
remaining n ((x, d) ∷ xs) = if leb d n then remaining n xs else (x, d - n) ∷ remaining n xs

-- Everyone whose delay is at most `n` ticks is active.
abbrev pub Waked : ℕ → Kernel → List (ℕ × ℕ) → Type 0
Waked n k [] = Unit
Waked n k ((x, d) ∷ xs) = (leb d n ≡ true → Active k x) × Waked n k xs

pub remaining-ticked : (n : ℕ) (xs : List (ℕ × ℕ)) → remaining n (ticked xs) ≡ remaining (suc n) xs
remaining-ticked n [] = refl
remaining-ticked n ((x, d) ∷ xs) = elim (Bool-cases (leb d (suc n))) [
  | inl over ↦
      let over' : leb (d - 1) n ≡ true = ground (arith, over) in
      rw (over, over') (remaining-ticked n xs)
  | inr later ↦
      let later' : leb (d - 1) n ≡ false = ground (arith, later) in
      let left : d - 1 - n ≡ d - suc n = omega arith in
      rw (later, later', left) (ap (λ l. (x, d - suc n) ∷ l) (remaining-ticked n xs))
]

pub remaining-beyond : (n : ℕ) (xs : List (ℕ × ℕ)) → remaining n (beyond 0 xs) ≡ remaining n xs
remaining-beyond n [] = refl
remaining-beyond n ((x, zero) ∷ xs) =
    let over : leb 0 n ≡ true = ground arith in rw over (remaining-beyond n xs)
remaining-beyond n ((x, suc d) ∷ xs) = let on : leb (suc d) 0 ≡ false = ground arith in rw on refl

-- In a list where nobody is due, nothing changes without a tick.
pub remaining-zero :
    (f : ℕ → ℤ) (b : ℕ) (xs : List (ℕ × ℕ)) → Due f b xs → 0 < b → remaining 0 xs ≡ xs
remaining-zero f b [] due some_left = refl
remaining-zero f b ((x, d) ∷ xs) due some_left =
    let on : leb d 0 ≡ false = ground (arith, due.0, some_left) in
    let whole : d - 0 ≡ d = omega arith in
    rw (on, whole)
      (ap (λ l. (x, d) ∷ l) (remaining-zero f d xs due.2 (omega (arith, due.0, some_left))))

pub remaining-Later : (f : ℕ → ℤ) (xs : List (ℕ × ℕ)) → Due f 0 xs → Later xs → remaining 0 xs ≡ xs
remaining-Later f [] due later = refl
remaining-Later f ((x, d) ∷ xs) due later =
    let on : leb d 0 ≡ false = ground (arith, later) in
    let whole : d - 0 ≡ d = omega arith in
    rw (on, whole) (ap (λ l. (x, d) ∷ l) (remaining-zero f d xs due.2 later))

nobody-Due :
    (k : Kernel) (xs : List (ℕ × ℕ)) (f : ℕ → ℤ) (b : ℕ) → Due f b xs → 0 < b → Waked 0 k xs
nobody-Due k [] f b due some_left = tt
nobody-Due k ((x, d) ∷ xs) f b due some_left = (
  (λ e. absurd (ground (arith, e, due.0, some_left))),
  nobody-Due k xs f d due.2 (omega (arith, due.0, some_left)),
)

pub Waked-zero : (k : Kernel) (xs : List (ℕ × ℕ)) (f : ℕ → ℤ) → Due f 0 xs → Later xs → Waked 0 k xs
Waked-zero k [] f due later = tt
Waked-zero k ((x, d) ∷ xs) f due later =
    ((λ e. absurd (ground (arith, e, later))), nobody-Due k xs f d due.2 later)

pub Waked-ticked :
    (n : ℕ) (k : Kernel) (xs : List (ℕ × ℕ)) → Waked n k (ticked xs) → Waked (suc n) k xs
Waked-ticked n k [] h = tt
Waked-ticked n k ((x, d) ∷ xs) h = ((λ e. h.0 (ground (arith, e))), Waked-ticked n k xs h.1)

-- Those who are due at once, and the others
pub Waked-within :
    (n : ℕ) (k : Kernel) (xs : List (ℕ × ℕ))
    → All (Active k) (procs (within 0 xs))
    → Waked n k (beyond 0 xs)
    → Waked n k xs
Waked-within n k [] now later = tt
Waked-within n k ((x, zero) ∷ xs) now later = ((λ e. now.0), Waked-within n k xs now.1 later)
Waked-within n k ((x, suc d) ∷ xs) now later =
    let on : leb (suc d) 0 ≡ false = ground arith in rw on at later
