-- ===== src/Names/Strings.antt =====
-- The string functions of the name space: `namcpy` (Chapter21/nammap.c), `namlen` and `mount`
-- (Chapter21/mount.c).
use os_design_xinu_approach.Prelude.{
  ℕ, zero, suc, ◌+◌, ◌<◌, ◌≡◌, refl, ◌∙◌, ◌≢◌, false, some, List, [], ◌∷◌, ◌++◌, arith, length,
  take, All, ℤ, pos,
}
use os_design_xinu_approach.State.{ok}
use os_design_xinu_approach.Names.{
  nm_prelen, nm_repllen, nnames_max, Nmentry, namlen_loop, namlen, skip, namcpy, mount,
}
use os_design_xinu_approach.Device.{isbaddev}

-- The bytes of a string before its null byte
abbrev pub Text : List ℕ → Type 0
Text s = All (λ c. c ≢ 0) s

-- A string that fits into the limit and into the array is copied with its null byte, and the array
-- is as it was behind it.
pub namcpy-Text :
    (to s rest : List ℕ) (cnt : ℕ)
    → Text s
    → length s < cnt
    → length s < length to
    → namcpy to (s ++ 0 ∷ rest) cnt ≡ some (ok, s ++ 0 ∷ skip (length s + 1) to)
unfolding namcpy skip
namcpy-Text [] s rest cnt t few room = ground arith
namcpy-Text (d ∷ to) [] rest zero t few room = ground arith
namcpy-Text (d ∷ to) [] rest (suc cnt) t few room = refl
namcpy-Text (d ∷ to) (c ∷ s) rest zero t few room = ground arith
namcpy-Text (d ∷ to) (c ∷ s) rest (suc cnt) t few room =
    let ih = namcpy-Text to s rest cnt t.1 (omega (arith, few)) (omega (arith, room)) in
    rw ih ground (arith, t.0)

namlen_loop-Text :
    (s rest : List ℕ) (rounds i : ℕ)
    → Text s
    → length s < rounds
    → namlen_loop rounds (s ++ 0 ∷ rest) i ≡ some (pos (i + length s + 1))
unfolding namlen_loop
namlen_loop-Text s rest zero i t few = ground arith
namlen_loop-Text [] rest (suc rounds) i t few = ground arith
namlen_loop-Text (c ∷ s) rest (suc rounds) i t few =
    let ih = namlen_loop-Text s rest rounds (i + 1) t.1 (omega (arith, few)) in
    rw ih ground (arith, t.0)

-- The length of a string below the limit counts its null byte.
pub namlen-Text :
    (s rest : List ℕ) (maxlen : ℕ)
    → Text s
    → length s < maxlen
    → namlen (s ++ 0 ∷ rest) maxlen ≡ some (pos (length s + 1))
unfolding namlen
namlen-Text s rest maxlen t few = namlen_loop-Text s rest maxlen 0 t few ∙ ground arith

take-Text : (s rest : List ℕ) → take (length s + 1) (s ++ 0 ∷ rest) ≡ s ++ 0 ∷ []
take-Text [] rest = refl
take-Text (c ∷ s) rest = let ih = take-Text s rest in ground arith

-- A `mount` of two strings below their limits on a device of the table, with room for an entry, adds
-- an entry with exactly these strings behind the others.
mount-Text :
    (p p_rest r r_rest : List ℕ) (device : ℤ) (nametab : List Nmentry)
    → Text p
    → length p < nm_prelen
    → Text r
    → length r < nm_repllen
    → isbaddev device ≡ false
    → length nametab < nnames_max
    → mount (p ++ 0 ∷ p_rest) (r ++ 0 ∷ r_rest) device nametab
      ≡ some (
        ok,
        nametab ++ record { nprefix = p ++ 0 ∷ []; nreplace = r ++ 0 ∷ []; ndevice = device } ∷ [],
      )
unfolding mount
mount-Text p p_rest r r_rest device nametab tp lp tr lr good room =
    rw
      (
        namlen-Text p p_rest nm_prelen tp lp,
        namlen-Text r r_rest nm_repllen tr lr,
        take-Text p p_rest,
        take-Text r r_rest,
        good,
      )
      ground arith
