-- ===== src/Remote/Modes.antt =====
-- `rfsgetmode` (Chapter20/rfsgetmode.c) beside `lfgetmode` (Chapter19/lfgetmode.c).
use Prim.Native.Nat.{bit_or}
use os_design_xinu_approach.Prelude.{
  ℕ, ◌≡◌, refl, fun_ext, inl, inr, ◌||◌, Option, none, some, List, [], ◌∷◌, arith, ◌==◌,
  if◌then◌else◌, Bool-cases, ℤ,
}
use os_design_xinu_approach.Queue.{syserr}
use os_design_xinu_approach.Files.Open.{add_mode, mode_loop, lfgetmode}
use os_design_xinu_approach.Remote.{
  rf_mode_r, rf_mode_w, rf_mode_o, rf_mode_n, allows, rf_mode_loop, rfsgetmode,
}

-- The two tests of a character, over the same rest
same_step :
    (ch m : ℕ) (rest : ℕ → Option ℤ)
    → (if ch == 114
        then (if allows m rf_mode_r then some syserr else rest (bit_or m rf_mode_r))
        else if ch == 119
        then (if allows m rf_mode_w then some syserr else rest (bit_or m rf_mode_w))
        else if ch == 111
        then (if allows m rf_mode_o || allows m rf_mode_n
            then some syserr
            else rest (bit_or m rf_mode_o))
        else if ch == 110
        then (if allows m rf_mode_o || allows m rf_mode_n
            then some syserr
            else rest (bit_or m rf_mode_n))
        else some syserr)
      ≡ (elim (add_mode ch m) as (λ x. Option ℤ) [ none ↦ some syserr | some m' ↦ rest m' ])
same_step ch m rest = ground arith

loops : (mode : List ℕ) (mbits : ℕ) → rf_mode_loop mode mbits ≡ mode_loop mode mbits
unfolding rf_mode_loop mode_loop
loops [] mbits = refl
loops (ch ∷ mode) mbits =
    let same : rf_mode_loop mode ≡ mode_loop mode = fun_ext (loops mode) in
    elim (Bool-cases (ch == 0)) [
      | inl end ↦ rw end refl
      | inr on ↦ rw (on, same) (same_step ch mbits (mode_loop mode))
    ]

-- Both file systems read a mode string in the same way, whatever the string.
pub rfsgetmode-lfgetmode : (mode : List ℕ) → rfsgetmode mode ≡ lfgetmode mode
unfolding rfsgetmode lfgetmode
rfsgetmode-lfgetmode mode = loops mode 0
