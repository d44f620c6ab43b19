-- ===== src/Names/Tests.antt =====
-- Tests of the name space, and the theorems on strings at short ones.
use os_design_xinu_approach.Prelude.{ℕ, ◌≡◌, refl, some, List, [], ◌∷◌, pos}
use os_design_xinu_approach.Names.{
  Nmentry, namlen_loop, namlen, copy_bytes, skip, match_prefix, substitute, namrepl,
}

-- "/l" stands for "x" on the device 5.
abbrev table : List Nmentry
table = record { nprefix = 47 ∷ 108 ∷ 0 ∷ []; nreplace = 120 ∷ 0 ∷ []; ndevice = pos 5 } ∷ []

abbrev buffer : List ℕ
buffer = 9 ∷ 9 ∷ 9 ∷ 9 ∷ 9 ∷ 9 ∷ []

-- "/lab" becomes "xab".
replaced :
    namrepl (λ n. n) table (47 ∷ 108 ∷ 97 ∷ 98 ∷ 0 ∷ []) buffer
    ≡ some (pos 5, 120 ∷ 97 ∷ 98 ∷ 0 ∷ 9 ∷ 9 ∷ [])
unfolding namrepl match_prefix substitute namlen namlen_loop copy_bytes skip
replaced = refl
