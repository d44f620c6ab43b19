-- ===== src/Links.antt =====
-- Singly linked lists through a field of the objects (Chapter10, Chapter11).
use os_design_xinu_approach.Prelude.{ℕ, ◌≡◌, subst, ◌≢◌, List, [], ◌∷◌, arith, Apart}
use os_design_xinu_approach.State.{set_field}

-- The links lead from `h` through the objects `ws` to NULL.
abbrev pub Leads : (ℕ → ℕ) → ℕ → List ℕ → Type 0
Leads next h [] = h ≡ 0
Leads next h (w ∷ ws) = (h ≡ w) × (w ≢ 0) × Leads next (next w) ws

pub Leads-frame :
    (next : ℕ → ℕ) (a v h : ℕ) (ws : List ℕ)
    → Apart a ws
    → Leads next h ws
    → Leads (set_field next a v) h ws
Leads-frame next a v h [] apart l = l
Leads-frame next a v h (w ∷ ws) apart l =
    let rest = Leads-frame next a v (next w) ws apart.1 l.2 in
    (l.0, l.1, subst (λ x. Leads (set_field next a v) x ws) (ground (arith, apart.0)) rest)
