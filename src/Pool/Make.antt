-- ===== src/Pool/Make.antt =====
-- The list of buffers that `mkbufpool` (Chapter10/mkbufpool.c) makes.
use os_design_xinu_approach.Prelude.{
  ℕ, zero, suc, ◌+◌, ◌-◌, ◌*◌, ◌≤◌, ◌<◌, ◌≡◌, refl, sym, ◌∙◌, subst, ◌≢◌, some, List, [], ◌∷◌,
  arith, length, ℤ, pos, Runs,
}
use os_design_xinu_approach.State.{Kernel, set_field}
use os_design_xinu_approach.Pool.{
  nbpools_max, Pools, update_pool, id_size, link_buffers, fill_pool, make_pool, round4, mkbufpool,
}
use os_design_xinu_approach.Links.{Leads}
use os_design_xinu_approach.Semaphore.{semcreate}
use os_design_xinu_approach.Memory.{Memory, getmem}
use os_design_xinu_approach.Queue.{syserr}

-- `n + 1` buffers of `size` bytes from the address `buf` on
abbrev pub buffers : ℕ → ℕ → ℕ → List ℕ
buffers zero buf size = buf ∷ []
buffers (suc n) buf size = buf ∷ buffers n (buf + size) size

link_below :
    (n buf size : ℕ) (cells : ℕ → ℕ) (a : ℕ) → a < buf → link_buffers n buf size cells a ≡ cells a
unfolding link_buffers
link_below zero buf size cells a lt = ground arith
link_below (suc n) buf size cells a lt =
    let rest =
      link_below n (buf + size) size (set_field cells buf (buf + size)) a (omega (arith, lt)) in
    rest ∙ ground arith

-- The loop links the buffers one behind the other.
pub link_buffers-Leads :
    (n buf size : ℕ) (cells : ℕ → ℕ)
    → 0 < buf
    → 0 < size
    → Leads (link_buffers n buf size cells) buf (buffers n buf size)
unfolding link_buffers
link_buffers-Leads zero buf size cells lt pos_size = (refl, (λ e. omega arith), ground arith)
link_buffers-Leads (suc n) buf size cells lt pos_size =
    let cells' = set_field cells buf (buf + size) in
    let rest = link_buffers-Leads n (buf + size) size cells' (omega (arith, lt)) pos_size in
    let here : link_buffers n (buf + size) size cells' buf ≡ buf + size =
      link_below n (buf + size) size cells' buf (omega (arith, pos_size)) ∙ ground arith in
    (
      refl,
      (λ e. omega arith),
      subst (λ x. Leads (link_buffers n (buf + size) size cells') x (buffers n (buf + size) size))
          (sym here) rest,
    )

pub length-buffers : (n buf size : ℕ) → length (buffers n buf size) ≡ n + 1
length-buffers zero buf size = refl
length-buffers (suc n) buf size =
    let rest = length-buffers n (buf + size) size in omega (arith, rest)

-- The new pool `p` has the buffers `bs` in its list, and its semaphore counts them.
pub record Made (s : Pools) (p : ℕ) (bs : List ℕ) (sem : ℤ) (v : ℤ) (s' : Pools) : Type 0 where
  pub result : v ≡ pos p
  pub listed : Leads s'.cells (s'.buftab p).bpnext bs
  pub semaphore : (s'.buftab p).bpsem ≡ sem
  pub number : s'.nbpools ≡ p + 1

make_pool-eq :
    (s : Pools) (size n a : ℕ) (m : Memory) (sem : ℤ) (k : Kernel)
    → s.nbpools < nbpools_max
    → getmem (n * (size + id_size)) s.kernel.memory ≡ (some a, m)
    → semcreate (pos n) (record s.kernel { memory = m }) ≡ some (sem, k)
    → sem ≢ syserr
    → make_pool size n s
      ≡ some (
        pos s.nbpools,
        record (update_pool s s.nbpools (record { bpnext = a; bpsize = size; bpsem = sem })) {
          kernel = k;
          nbpools = s.nbpools + 1;
          cells = link_buffers (n - 1) a (size + id_size) s.cells;
        },
      )
unfolding make_pool fill_pool
make_pool-eq s size n a m sem k lt em es ne = rw (make_pool, em) ground arith

-- A call of `mkbufpool` with sizes in its range, for which there is memory at an address above 0, a
-- semaphore and a place in the table, returns the next pool. The pool's list holds exactly as many
-- buffers as were asked for, at distances of the rounded size and the four bytes of the pool's
-- number, and the semaphore is the one that was created with that count.
pub mkbufpool-Made :
    (s : Pools) (bufsiz n a : ℕ) (m : Memory) (sem : ℤ) (k : Kernel)
    → 8 ≤ bufsiz
    → bufsiz ≤ 8192
    → n < 8192
    → s.nbpools < nbpools_max
    → getmem ((n + 1) * (round4 bufsiz + id_size)) s.kernel.memory ≡ (some a, m)
    → 0 < a
    → semcreate (pos (n + 1)) (record s.kernel { memory = m }) ≡ some (sem, k)
    → sem ≢ syserr
    → Runs (mkbufpool (pos bufsiz) (pos (n + 1)) s) λ (v, s').
      Made s s.nbpools (buffers n a (round4 bufsiz + id_size)) sem v s'
      × (length (buffers n a (round4 bufsiz + id_size)) ≡ n + 1)
unfolding mkbufpool
mkbufpool-Made s bufsiz n a m sem k low high few lt em nz es ne =
    let eq : mkbufpool (pos bufsiz) (pos (n + 1)) s ≡ make_pool (round4 bufsiz) (n + 1) s =
      ground arith in
    let run = make_pool-eq s (round4 bufsiz) (n + 1) a m sem k lt em es ne in
    let same_n : n + 1 - 1 ≡ n = omega arith in
    let size = round4 bufsiz + id_size in
    let leads = link_buffers-Leads n a size s.cells nz (omega arith) in
    rw (eq, run, same_n)
      (
        record {
          result = refl;
          listed =
              subst (λ x. Leads (link_buffers n a size s.cells) x (buffers n a size)) (ground arith)
                leads;
          semaphore = ground arith;
          number = refl;
        },
        length-buffers n a (round4 bufsiz + id_size),
      )
