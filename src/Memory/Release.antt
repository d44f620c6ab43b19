-- ===== src/Memory/Release.antt =====
-- What `freemem` of Chapter9/freemem.c puts back into the free chain.
use os_design_xinu_approach.Prelude.{
  ℕ, ◌+◌, ◌%◌, ◌^◌, ◌≤◌, ◌<◌, ◌≡◌, inl, inr, true, ◌||◌, Option, none, some, List, [], ◌∷◌, arith,
  ltb, ◌==◌, ltb→lt, Bool-cases, ◌>>=◌,
}
use os_design_xinu_approach.Memory.{Memblk, memblk, add64, grow32, release_after, release}
use os_design_xinu_approach.Memory.Chain.{inside, covers, total, IsChain, Aligned, IsChain-lo}

-- The bytes from `a` on have joined the chain `bs`, which becomes `rest`.
pub record Joined (lo n : ℕ) (bs : List Memblk) (a : ℕ) (rest : List Memblk) : Type 0 where
  pub chain : IsChain lo rest
  pub now_free : (x : ℕ) → covers rest x ≡ (covers bs x || inside a n x)
  pub more : total rest ≡ total bs + n
  pub aligned : n % 16 ≡ 0 → Aligned bs → Aligned rest

-- A byte that is free already.
abbrev pub Overlap : ℕ → ℕ → List Memblk → Type 0
Overlap n a bs = (x : ℕ) × (inside a n x ≡ true) × (covers bs x ≡ true)

-- The outcome of a release: it is refused exactly where it overlaps a free block.
abbrev pub Releases : ℕ → ℕ → List Memblk → ℕ → Option (List Memblk) → Type 0
Releases lo n bs a none = Overlap n a bs
Releases lo n bs a (some rest) = Joined lo n bs a rest

module _ (a n : ℕ) (pos_n : 0 < n) (fits : a + n < 2 ^ 32) where
  -- The block that is released, in front of a chain that begins behind it.
  in_front :
      (lo : ℕ) (bs : List Memblk)
      → lo ≤ a
      → IsChain (a + n) bs
      → Joined lo n bs a (memblk a (n % 2 ^ 32) ∷ bs)
  in_front lo bs le h =
      let e : n % 2 ^ 32 ≡ n = omega arith in
      rw e (record {
        chain = (le, pos_n, fits, h);
        now_free = λ x. ground arith;
        more = omega arith;
        aligned = λ d al. (d, al);
      })

  -- Joined to the block before it.
  merged :
      (lo : ℕ) (prev : Memblk) (bs : List Memblk)
      → lo ≤ prev.addr
      → 0 < prev.mlength
      → prev.addr + prev.mlength ≡ a
      → IsChain (a + n) bs
      → Joined lo n (prev ∷ bs) a (memblk prev.addr (grow32 prev.mlength n) ∷ bs)
  merged lo prev bs le some_len e h =
      let g : grow32 prev.mlength n ≡ prev.mlength + n = omega arith in
      rw g (record {
        chain = (le, omega arith, omega arith, IsChain-lo (a + n) _ bs (omega arith) h);
        now_free = λ x. ground arith;
        more = omega arith;
        aligned = λ d al. (omega (arith, d, al.0), al.1);
      })

  -- Behind a block that ends before it.
  apart_from :
      (lo : ℕ) (prev : Memblk) (bs : List Memblk)
      → lo ≤ prev.addr
      → 0 < prev.mlength
      → prev.addr + prev.mlength ≤ a
      → IsChain (a + n) bs
      → Joined lo n (prev ∷ bs) a (prev ∷ memblk a (n % 2 ^ 32) ∷ bs)
  apart_from lo prev bs le some_len before h =
      let j = in_front (prev.addr + prev.mlength) bs before h in
      record {
        chain = (le, some_len, omega arith, j.chain);
        now_free = λ x. ground (arith, j.now_free x);
        more = omega (arith, j.more);
        aligned = λ d al. (al.0, j.aligned d al.1);
      }

  Overlap-before :
      (prev : Memblk) (bs : List Memblk)
      → prev.addr < a
      → a < prev.addr + prev.mlength
      → Overlap n a (prev ∷ bs)
  Overlap-before prev bs lt within = (a, ground arith, ground arith)

  Overlap-next :
      (next : Memblk) (bs : List Memblk)
      → a ≤ next.addr
      → 0 < next.mlength
      → next.addr < a + n
      → Overlap n a (next ∷ bs)
  Overlap-next next bs le some_len lt = (next.addr, ground arith, ground arith)

  Overlap-cons : (b : Memblk) (bs : List Memblk) → Overlap n a bs → Overlap n a (b ∷ bs)
  Overlap-cons b bs (x, i, c) = (x, i, ground arith)

  Joined-cons :
      (lo : ℕ) (b : Memblk) (bs rest : List Memblk)
      → IsChain lo (b ∷ bs)
      → Joined (b.addr + b.mlength) n bs a rest
      → Joined lo n (b ∷ bs) a (b ∷ rest)
  Joined-cons lo b bs rest h j = record {
    chain = (h.0, h.1, h.2, j.chain);
    now_free = λ x. ground (arith, j.now_free x);
    more = omega (arith, j.more);
    aligned = λ d al. (al.0, j.aligned d al.1);
  }

  pub release_after-Releases :
      (lo : ℕ) (prev : Memblk) (bs : List Memblk)
      → IsChain lo (prev ∷ bs)
      → prev.addr < a
      → Releases lo n (prev ∷ bs) a (release_after a n prev bs)
  unfolding release_after
  release_after-Releases lo prev [] h lt =
      let t : add64 prev.addr prev.mlength ≡ prev.addr + prev.mlength = omega arith in
      elim (Bool-cases (ltb a (prev.addr + prev.mlength))) [
        | inl o ↦ rw (t, o) (Overlap-before prev [] lt (ltb→lt a _ o))
        | inr past ↦ elim (Bool-cases ((prev.addr + prev.mlength) == a)) [
          | inl e ↦ rw (t, past, e) (merged lo prev [] h.0 h.1 (ground arith) tt)
          | inr ne ↦ rw (t, past, ne) (apart_from lo prev [] h.0 h.1 (ground arith) tt)
        ]
      ]
  release_after-Releases lo prev (next ∷ bs) h lt =
      let t : add64 prev.addr prev.mlength ≡ prev.addr + prev.mlength = omega arith in
      let u : add64 a n ≡ a + n = omega arith in
      elim (Bool-cases (ltb next.addr a)) [
        | inl on ↦ rw on (
            later (release_after a n next bs)
              (release_after-Releases (prev.addr + prev.mlength) next bs h.3 (ltb→lt _ a on)))
        | inr here ↦ elim (Bool-cases (ltb a (prev.addr + prev.mlength))) [
          | inl o ↦ rw (here, t, o) (Overlap-before prev (next ∷ bs) lt (ltb→lt a _ o))
          | inr past ↦ elim (Bool-cases (ltb next.addr (a + n))) [
            | inl o ↦
                rw (here, t, past, u, o)
                  (Overlap-cons prev (next ∷ bs)
                    (Overlap-next next bs (ground arith) h.3.1 (ltb→lt next.addr _ o)))
            | inr clear ↦
                let behind : IsChain (a + n) (next ∷ bs) = (ground arith, h.3.1, h.3.2, h.3.3) in
                elim (Bool-cases ((prev.addr + prev.mlength) == a)) [
                  | inl e ↦
                      rw (here, t, past, u, clear, e)
                        (merged lo prev (next ∷ bs) h.0 h.1 (ground arith) behind)
                  | inr ne ↦
                      rw (here, t, past, u, clear, ne)
                        (apart_from lo prev (next ∷ bs) h.0 h.1 (ground arith) behind)
                ]
          ]
        ]
      ]
    where
      later :
          (o : Option (List Memblk))
          → Releases (prev.addr + prev.mlength) n (next ∷ bs) a o
          → Releases lo n (prev ∷ next ∷ bs) a (o >>= λ chain. some (prev ∷ chain))
      later none r = Overlap-cons prev (next ∷ bs) r
      later (some rest) j = Joined-cons lo prev (next ∷ bs) rest h j

  pub release-Releases :
      (lo : ℕ) (bs : List Memblk) → IsChain lo bs → lo ≤ a → Releases lo n bs a (release a n bs)
  unfolding release
  release-Releases lo [] h le = in_front lo [] le tt
  release-Releases lo (next ∷ bs) h le =
      let u : add64 a n ≡ a + n = omega arith in
      elim (Bool-cases (ltb next.addr a)) [
        | inl on ↦ rw on (release_after-Releases lo next bs h (ltb→lt next.addr a on))
        | inr here ↦ elim (Bool-cases (ltb next.addr (a + n))) [
          | inl o ↦ rw (here, u, o) (Overlap-next next bs (ground arith) h.1 (ltb→lt next.addr _ o))
          | inr clear ↦
              rw (here, u, clear) (in_front lo (next ∷ bs) le (ground arith, h.1, h.2, h.3))
        ]
      ]
