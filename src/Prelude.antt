-- ===== src/Prelude.antt =====
-- The names that the other modules share: the libraries', passed on, and those of the children:
-- tests on native numbers, lists indexed by native numbers, signed integers.
mod Tests
mod Lists
mod Int
pub use Tests.*
pub use Lists.*
pub use Int.*
pub use Prim.Native.Nat.{ℕ, zero, suc, ◌+◌, ◌-◌, ◌*◌, ◌/◌, ◌%◌, ◌^◌, ◌≤◌, ◌<◌}
pub use mathlib.Core.Path.{◌≡◌, refl, sym, ap, ◌∙◌, fun_ext, subst}
pub use mathlib.Core.Logic.{◌≢◌, ◌↔◌, ◌⊎◌, inl, inr}
pub use mathlib.Core.Bool.{Bool, true, false, not, ◌&&◌, ◌||◌}
pub use mathlib.Core.Option.{Option, none, some}
pub use mathlib.Core.List.{List, [], ◌∷◌, ◌++◌, append-nil, append_assoc}
pub use native.Mathlib.Omega.{arith}

-- A C expression that may read or write outside an array: `none` is that fault.
infixl 5 ◌>>=◌
abbrev pub ◌>>=◌ {ℓ κ} : {A : Type ℓ} {B : Type κ} → Option A → (A → Option B) → Option B
none >>= f = none
some a >>= f = f a

-- The value returned by a call that runs to its end.
abbrev pub Runs {ℓ} : {A : Type ℓ} → Option A → (A → Type 0) → Type 0
Runs none P = ⊥
Runs (some a) P = P a

pub Runs-both {ℓ} :
    {A : Type ℓ} (m : Option A) (P Q : A → Type 0) → Runs m P → Runs m Q → Runs m (λ a. P a × Q a)
Runs-both none P Q p q = p
Runs-both (some a) P Q p q = (p, q)

pub Runs-map {ℓ} :
    {A : Type ℓ} (m : Option A) (P Q : A → Type 0) → ((a : A) → P a → Q a) → Runs m P → Runs m Q
Runs-map none P Q f p = p
Runs-map (some a) P Q f p = f a p

pub Runs-bind {ℓ κ} :
    {A : Type ℓ} {B : Type κ} (m : Option A) (f : A → Option B) (P : A → Type 0) (Q : B → Type 0)
    → Runs m P
    → ((a : A) → P a → Runs (f a) Q)
    → Runs (m >>= f) Q
Runs-bind none f P Q p next = p
Runs-bind (some a) f P Q p next = next a p

-- A chain that has a result, taken apart at its first step.
pub bind_cases {ℓ κ μ} :
    {A : Type ℓ} {B : Type κ} (m : Option A) (f : A → Option B) (b : B) (P : Type μ)
    → (m >>= f) ≡ some b
    → ((a : A) → m ≡ some a → f a ≡ some b → P)
    → P
bind_cases none f b P e k = absurd (ground arith)
bind_cases (some a) f b P e k = k a refl e
