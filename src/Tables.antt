-- ===== src/Tables.antt =====
-- Loops that search a table for the first entry that passes a test, as in `arp_resolve` and `arp_alloc`
-- (Chapter17/arp.c) and `udp_register` (Chapter17/udp.c).
use os_design_xinu_approach.Prelude.{
  ℕ, zero, suc, ◌+◌, ◌≤◌, ◌<◌, ◌≡◌, sym, ap, ◌∙◌, inl, inr, Bool, true, false, Option, none, some,
  arith, ◌==◌, if◌then◌else◌, Bool-cases,
}

-- The first entry that passes, by the rounds that are left
unfoldable pub search : {A : Type 0} → (A → Bool) → ℕ → ℕ → (ℕ → A) → Option ℕ
search test zero i table = none
search test (suc rounds) i table =
    let rest = search test rounds (i + 1) table in if test (table i) then some i else rest

-- `j` is the first place from `i` on, among `rounds` places, whose entry passes the test.
pub record First {A : Type 0} (test : A → Bool) (table : ℕ → A) (i rounds j : ℕ) : Type 0 where
  pub from : i ≤ j
  pub below : j < i + rounds
  pub passes : test (table j) ≡ true
  pub others : (x : ℕ) → i ≤ x → x < j → test (table x) ≡ false

pub search-eq :
    {A : Type 0} (test : A → Bool) (rounds i j : ℕ) (table : ℕ → A)
    → First test table i rounds j
    → search test rounds i table ≡ some j
unfolding search
search-eq test zero i j table f = absurd (omega (arith, f.from, f.below))
search-eq test (suc rounds) i j table f = elim (Bool-cases (i == j)) [
  | inl here ↦
      let eq : i ≡ j = ground (arith, here) in
      let pass : test (table i) ≡ true = ap (λ x. test (table x)) eq ∙ f.passes in
      rw pass (ap some eq)
  | inr apart ↦
      let later : i + 1 ≤ j = ground (arith, apart, f.from) in
      let fails : test (table i) ≡ false = f.others i (omega arith) (omega (arith, later)) in
      let rest = search-eq test rounds (i + 1) j table (record {
        from = later;
        below = omega (arith, f.below);
        passes = f.passes;
        others = λ x ge lt. f.others x (omega (arith, ge)) lt;
      }) in
      rw fails rest
]

pub search-First :
    {A : Type 0} (test : A → Bool) (rounds i j : ℕ) (table : ℕ → A)
    → search test rounds i table ≡ some j
    → First test table i rounds j
unfolding search
search-First test zero i j table e = absurd (ground (arith, e))
search-First test (suc rounds) i j table e = elim (Bool-cases (test (table i))) [
  | inl pass ↦
      let eq : i ≡ j = ground (arith, e, pass) in
      record {
        from = omega (arith, eq);
        below = omega (arith, eq);
        passes = ap (λ x. test (table x)) (sym eq) ∙ pass;
        others = λ x ge lt. absurd (omega (arith, eq, ge, lt));
      }
  | inr fails ↦
      let rest = search-First test rounds (i + 1) j table (rw fails at e) in
      record {
        from = omega (arith, rest.from);
        below = omega (arith, rest.below);
        passes = rest.passes;
        others = λ x ge lt. elim (Bool-cases (i == x)) [
          | inl here ↦ let eq : x ≡ i = ground (arith, here) in ap (λ y. test (table y)) eq ∙ fails
          | inr apart ↦ rest.others x (ground (arith, ge, apart)) lt
        ];
      }
]

pub search-fails :
    {A : Type 0} (test : A → Bool) (rounds i x : ℕ) (table : ℕ → A)
    → search test rounds i table ≡ none
    → i ≤ x
    → x < i + rounds
    → test (table x) ≡ false
unfolding search
search-fails test zero i x table e ge lt = absurd (omega (arith, ge, lt))
search-fails test (suc rounds) i x table e ge lt = elim (Bool-cases (test (table i))) [
  | inl pass ↦ absurd (ground (arith, e, pass))
  | inr fails ↦ elim (Bool-cases (i == x)) [
    | inl here ↦ let eq : x ≡ i = ground (arith, here) in ap (λ y. test (table y)) eq ∙ fails
    | inr apart ↦
        search-fails test rounds (i + 1) x table (rw fails at e) (ground (arith, ge, apart))
          (omega (arith, lt))
  ]
]
