-- ===== src/Memory/Chain.antt =====
-- The free chain of Chapter9 as a set of free bytes.
use os_design_xinu_approach.Prelude.{
  ℕ, ◌+◌, ◌%◌, ◌^◌, ◌≤◌, ◌<◌, ◌≡◌, refl, Bool, true, false, not, ◌&&◌, ◌||◌, List, [], ◌∷◌, arith,
  ltb, leb, All,
}
use os_design_xinu_approach.Memory.{Memblk}

-- The address `x` is one of the `n` bytes from `a` on.
abbrev pub inside : ℕ → ℕ → ℕ → Bool
inside a n x = leb a x && ltb x (a + n)

-- The byte at `x` is free.
abbrev pub covers : List Memblk → ℕ → Bool
covers [] x = false
covers (b ∷ bs) x = inside b.addr b.mlength x || covers bs x

-- the free bytes, counted
abbrev pub total : List Memblk → ℕ
total [] = 0
total (b ∷ bs) = b.mlength + total bs

-- The blocks are not empty, do not overlap, and stand in the order of their addresses from `lo`
-- on, below 2^32.
abbrev pub IsChain : ℕ → List Memblk → Type 0
IsChain lo [] = Unit
IsChain lo (b ∷ bs) =
    (lo ≤ b.addr)
    × (0 < b.mlength)
    × (b.addr + b.mlength < 2 ^ 32)
    × IsChain (b.addr + b.mlength) bs

-- The blocks have room for their headers of 16 bytes, and keep it when 16 bytes or a multiple are
-- taken or given.
abbrev pub Aligned : List Memblk → Type 0
Aligned bs = All (λ b. b.mlength % 16 ≡ 0) bs

-- The bytes from `a` on have been taken out of the chain `bs`, which leaves `rest`.
pub record Taken (lo n : ℕ) (bs : List Memblk) (a : ℕ) (rest : List Memblk) : Type 0 where
  pub above : lo ≤ a
  pub below : a + n < 2 ^ 32
  pub chain : IsChain lo rest
  pub were_free : (x : ℕ) → inside a n x ≡ true → covers bs x ≡ true
  pub still_free : (x : ℕ) → covers rest x ≡ (covers bs x && not (inside a n x))
  pub less : total rest + n ≡ total bs
  pub aligned : n % 16 ≡ 0 → Aligned bs → Aligned rest

pub covers-lo : (lo : ℕ) (bs : List Memblk) (x : ℕ) → IsChain lo bs → x < lo → covers bs x ≡ false
covers-lo lo [] x h lt = refl
covers-lo lo (b ∷ bs) x h lt = ground (arith, covers-lo (b.addr + b.mlength) bs x h.3 (omega arith))

pub IsChain-lo : (lo lo' : ℕ) (bs : List Memblk) → lo' ≤ lo → IsChain lo bs → IsChain lo' bs
IsChain-lo lo lo' [] le h = tt
IsChain-lo lo lo' (b ∷ bs) le h = (omega arith, h.1, h.2, h.3)

-- A chain with one more block in front.
pub Taken-cons :
    (lo n : ℕ) (b : Memblk) (bs : List Memblk) (a : ℕ) (rest : List Memblk)
    → IsChain lo (b ∷ bs)
    → Taken (b.addr + b.mlength) n bs a rest
    → Taken lo n (b ∷ bs) a (b ∷ rest)
Taken-cons lo n b bs a rest h t =
    let above = t.above in
    record {
      above = omega arith;
      below = t.below;
      chain = (h.0, h.1, h.2, t.chain);
      were_free = λ x e. ground (arith, t.were_free x e);
      still_free = λ x. ground (arith, t.still_free x);
      less = omega (arith, t.less);
      aligned = λ e al. (al.0, t.aligned e al.1);
    }
