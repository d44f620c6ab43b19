-- ===== src/Udp/Endpoints.antt =====
-- The endpoints in use: `udp_register` of Chapter17/udp.c.
use os_design_xinu_approach.Prelude.{
  ℕ, ◌<◌, ◌≡◌, refl, sym, ◌∙◌, ◌⊎◌, inl, inr, true, false, Option, none, some, arith, ◌==◌,
  Bool-cases, ℤ, pos,
}
use os_design_xinu_approach.Udp.{
  udp_slots, is_unused, Udpentry, Udp, set_udp, connects, no_slot, register_in, udp_register,
}
use os_design_xinu_approach.Tables.{search, search-First, search-fails}

-- The entry `i` is in use for the connection.
abbrev pub UsedFor : Udp → ℕ → ℕ → ℕ → ℕ → Type 0
UsedFor s i remip remport locport =
    (i < udp_slots) × (connects remip remport locport (s.udptab i) ≡ true)

-- No two entries are in use for the same connection.
abbrev pub Separate : Udp → Type 0
Separate s =
    (i j remip remport locport : ℕ)
    → UsedFor s i remip remport locport
    → UsedFor s j remip remport locport
    → i ≡ j

-- How `udp_register` ends: it has refused and changed nothing, or it has put the connection into an
-- entry that was free.
data Registered (remip remport locport : ℕ) (s : Udp) : ℤ × Udp → Type 0 where
  refused : Registered remip remport locport s (no_slot, s)
  entered :
      (i : ℕ) (e : Udpentry)
      → i < udp_slots
      → is_unused (s.udptab i).udstate ≡ true
      → ((a b c : ℕ) → connects a b c e ≡ true → (a ≡ remip) × (b ≡ remport) × (c ≡ locport))
      → ((x : ℕ) → x < udp_slots → connects remip remport locport (s.udptab x) ≡ false)
      → Registered remip remport locport s (pos i, set_udp i e s)

udp_register-Registered :
    (remip remport locport : ℕ) (s : Udp)
    → Registered remip remport locport s (udp_register remip remport locport s)
unfolding udp_register register_in
udp_register-Registered remip remport locport s =
    go (search (connects remip remport locport) udp_slots 0 s.udptab)
      (search (λ e. is_unused e.udstate) udp_slots 0 s.udptab) refl refl
  where
    go :
        (same free : Option ℕ)
        → search (connects remip remport locport) udp_slots 0 s.udptab ≡ same
        → search (λ e. is_unused e.udstate) udp_slots 0 s.udptab ≡ free
        → Registered remip remport locport s (register_in remip remport locport s same free)
    go (some j) free es ef = refused
    go none none es ef = refused
    go none (some i) es ef =
        let f = search-First (λ e. is_unused e.udstate) udp_slots 0 i s.udptab ef in
        entered i _ (omega (arith, f.below)) f.passes
          (λ a b c con. (ground (arith, con), ground (arith, con), ground (arith, con)))
          (λ x lt.
            search-fails (connects remip remport locport) udp_slots 0 x s.udptab es (omega arith)
              (omega (arith, lt)))

Separate-Registered :
    (remip remport locport : ℕ) (s : Udp) (r : ℤ × Udp)
    → Separate s
    → Registered remip remport locport s r
    → Separate (r.1)
Separate-Registered remip remport locport s r sep refused = sep
Separate-Registered remip remport locport s r sep (entered i e lt free own others) = join
  where
    -- An entry of the table is the new one, or it was there before.
    which :
        (x a b c : ℕ)
        → UsedFor (set_udp i e s) x a b c
        → ((i ≡ x) × (a ≡ remip) × (b ≡ remport) × (c ≡ locport)) ⊎ UsedFor s x a b c
    which x a b c used = elim (Bool-cases (i == x)) [
      | inl here ↦
          let con : connects a b c e ≡ true = rw here at used.1 in
          inl (ground (arith, here), (own a b c con).0, (own a b c con).1, (own a b c con).2)
      | inr apart ↦ inr (used.0, rw apart at used.1)
    ]

    clash : (x a b c : ℕ) → (a ≡ remip) × (b ≡ remport) × (c ≡ locport) → UsedFor s x a b c → ⊥
    clash x a b c is used =
        let con : connects remip remport locport (s.udptab x) ≡ true =
          rw (is.0, is.1, is.2) at used.1 in
        let no = others x used.0 in absurd (cc)

    join : Separate (set_udp i e s)
    join x y a b c ux uy = elim (which x a b c ux) [
      | inl (at_x, ex, px, lx) ↦ elim (which y a b c uy) [
        | inl (at_y, ey, py, ly) ↦ sym at_x ∙ at_y
        | inr uy' ↦ absurd (clash y a b c (ex, px, lx) uy')
      ]
      | inr ux' ↦ elim (which y a b c uy) [
        | inl (at_y, ey, py, ly) ↦ absurd (clash x a b c (ey, py, ly) ux')
        | inr uy' ↦ sep x y a b c ux' uy'
      ]
    ]

-- `udp_register` keeps the connections of the endpoints apart: where no two entries are in use for the
-- same connection before the call, no two are after it.
pub udp_register-Separate :
    (remip remport locport : ℕ) (s : Udp)
    → Separate s
    → Separate ((udp_register remip remport locport s).1)
udp_register-Separate remip remport locport s sep =
    Separate-Registered remip remport locport s (udp_register remip remport locport s) sep
      (udp_register-Registered remip remport locport s)
