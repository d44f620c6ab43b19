-- ===== src/Pool/Leak.antt =====
-- What `freebuf` (Chapter10/freebuf.c) does to the list of its pool.
use os_design_xinu_approach.Prelude.{ℕ, ◌≤◌, ◌<◌, ◌≡◌, ◌≢◌, some, arith, ℤ, pos_part, ◌>>=◌, Runs}
use os_design_xinu_approach.State.{Kernel, ok}
use os_design_xinu_approach.Semaphore.{signal}
use os_design_xinu_approach.Pool.{nbpools_max, Pools, getbuf_rest, freebuf}

-- A buffer that `getbuf` took from a pool, given back by `freebuf`, is not in the pool's list again:
-- the list still begins behind it, while the pool's semaphore has been signalled.
getbuf-freebuf :
    (s : Pools) (p buf : ℕ) (r : ℤ) (k : Kernel)
    → p < s.nbpools
    → s.nbpools ≤ nbpools_max
    → (s.buftab p).bpnext ≡ buf
    → buf ≢ 0
    → signal (s.buftab p).bpsem s.kernel ≡ some (r, k)
    → Runs (getbuf_rest p s >>= λ (a, s1). freebuf (pos_part a) s1) λ (v, s').
      (v ≡ ok)
      × ((s'.buftab p).bpnext ≡ s.cells buf)
      × (s'.cells buf ≡ s.cells buf)
      × (s'.kernel ≡ k)
unfolding getbuf_rest freebuf
getbuf-freebuf s p buf r k lt le head nz e = ground arith
