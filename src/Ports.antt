-- ===== src/Ports.antt =====
-- Message ports: Chapter11/ports.h, ptinit.c, ptcreate.c, ptsend.c, ptrecv.c, ptdelete.c, ptreset.c
-- and ptclear.c. A node is its address, 0 is NULL. `none` is also a `panic`.
pub mod Fifo
mod Tests
use os_design_xinu_approach.Prelude.{
  ℕ, zero, suc, ◌+◌, ◌*◌, ◌%◌, ◌^◌, Bool, true, false, not, ◌&&◌, Option, none, some, ltb, leb,
  ◌==◌, if◌then◌else◌, ℤ, pos, negsuc, pos_part, ◌-ℤ◌, ltb_ℤ, eqb_ℤ, ◌>>=◌,
}
use os_design_xinu_approach.Queue.{syserr}
use os_design_xinu_approach.Memory.{getmem}
use os_design_xinu_approach.State.{Kernel, ok, same_process, int32_of, uint_of, set_field}
use os_design_xinu_approach.Semaphore.{semcreate, wait, signal, semdelete, semreset}

-- `NPORTS` and the states of a port
abbrev pub nports : ℕ
nports = 30

pub data Ptstate : Type 0 where
  pt_free pt_limbo pt_alloc : Ptstate

pub record Ptentry : Type 0 where
  pub ptssem : ℤ
  pub ptrsem : ℤ
  pub ptstate : Ptstate
  pub ptmaxcnt : ℕ
  pub ptseq : ℕ
  pub pthead : ℕ
  pub pttail : ℕ

-- The kernel with the variables of the ports: the fields of all nodes, the list of free nodes, the
-- table and the place where `ptcreate` looks first.
pub record Ports : Type 0 where
  pub kernel : Kernel
  pub ptmsg : ℕ → ℕ
  pub ptnext : ℕ → ℕ
  pub ptfree : ℕ
  pub porttab : ℕ → Ptentry
  pub ptnextid : ℕ

abbrev pub is_alloc : Ptstate → Bool
is_alloc pt_free = false
is_alloc pt_alloc = true
is_alloc _ = false

abbrev pub is_unused : Ptstate → Bool
is_unused pt_free = true
is_unused _ = false

abbrev pub isbadport : ℤ → Bool
isbadport (pos p) = leb nports p
isbadport (negsuc p) = true

abbrev pub port_slot : ℤ → Option ℕ
port_slot (pos p) = if ltb p nports then some p else none
port_slot (negsuc p) = none

abbrev pub update_port : Ports → ℕ → Ptentry → Ports
update_port s p e = record s { porttab = λ x. if p == x then e else s.porttab x }

-- `sizeof(struct ptnode)`: a `uint32` and a pointer of eight bytes, aligned
abbrev pub node_size : ℕ
node_size = 16

-- The loop that links the nodes, by the rounds that are left, and the end of the list.
unfoldable pub link_nodes : ℕ → ℕ → (ℕ → ℕ) → ℕ → ℕ
link_nodes zero curr next = set_field next curr 0
link_nodes (suc rounds) curr next =
    link_nodes rounds (curr + node_size) (set_field next curr (curr + node_size))

unfoldable pub ptinit : ℤ → Ports → Option (ℤ × Ports)
unfolding link_nodes
ptinit maxmsgs s =
    let bytes = uint_of 64 maxmsgs * node_size % 2 ^ 64 in
    let (a, m) = getmem bytes s.kernel.memory in
    a >>= λ nodes. some (
      ok,
      record s {
        kernel = record s.kernel { memory = m };
        ptfree = nodes;
        porttab = λ p.
            if ltb p nports
            then record (s.porttab p) { ptstate = pt_free; ptseq = 0 }
            else s.porttab p;
        ptnextid = 0;
        ptnext = link_nodes (pos_part (maxmsgs -ℤ pos 1)) nodes s.ptnext;
      },
    )

-- The loop of `ptcreate`, by the rounds that are left.
unfoldable pub ptcreate_loop : ℕ → ℤ → Ports → Option (ℤ × Ports)
ptcreate_loop zero count s = some (syserr, s)
ptcreate_loop (suc rounds) count s =
    let ptnum = s.ptnextid in
    let s1 = record s { ptnextid = if leb nports (ptnum + 1) then 0 else ptnum + 1 } in
    let rest = ptcreate_loop rounds count s1 in
    let create = (do
      (ssem, k1) ← semcreate count s1.kernel
      (rsem, k2) ← semcreate (pos 0) k1
      some (
        pos ptnum,
        update_port (record s1 { kernel = k2 }) ptnum
            (record {
              ptssem = ssem;
              ptrsem = rsem;
              ptstate = pt_alloc;
              ptmaxcnt = uint_of 16 count;
              ptseq = ((s1.porttab ptnum).ptseq + 1) % 2 ^ 32;
              pthead = 0;
              pttail = 0;
            }),
      )) in
    port_slot (pos ptnum) >>= λ p. if is_unused (s.porttab p).ptstate then create else rest

unfoldable pub ptcreate : ℤ → Ports → Option (ℤ × Ports)
unfolding ptcreate_loop
ptcreate count s = if ltb_ℤ count (pos 0) then some (syserr, s) else ptcreate_loop nports count s

-- A call that waits on a semaphore of the port: it has returned, or its process has left the
-- processor and goes on with the function named `…_rest`.
pub data PortCall : Type 0 where
  finished : ℤ → Ports → PortCall
  waiting : Ports → PortCall

-- The port is the one that the caller has begun to wait for.
abbrev pub unchanged : Ports → ℕ → ℕ → Bool
unchanged s p seq = is_alloc (s.porttab p).ptstate && (s.porttab p).ptseq == seq

-- `ptsend` after `wait`
unfoldable pub ptsend_rest : ℕ → ℕ → ℕ → Ports → Option (ℤ × Ports)
ptsend_rest p seq msg s =
    let node = s.ptfree in
    let port = s.porttab p in
    let empty_port = port.pttail == 0 in
    let next = set_field s.ptnext node 0 in
    let s1 = record s {
      ptfree = s.ptnext node;
      ptnext = if empty_port then next else set_field next port.pttail node;
      ptmsg = set_field s.ptmsg node msg;
    } in
    let s2 =
      update_port s1 p
        (record port { pthead = if empty_port then node else port.pthead; pttail = node }) in
    let send =
      (signal (s2.porttab p).ptrsem s2.kernel >>= λ (r, k). some (ok, record s2 { kernel = k })) in
    if not (unchanged s p seq) then some (syserr, s) else if node == 0 then none else send

unfoldable pub ptsend : ℤ → ℕ → Ports → Option PortCall
unfolding ptsend_rest
ptsend portid msg s = if isbadport portid then some (finished syserr s) else do
  p ← port_slot portid
  let seq = (s.porttab p).ptseq
  if not (is_alloc (s.porttab p).ptstate) then some (finished syserr s) else do
    (r, k) ← wait (s.porttab p).ptssem s.kernel
    let s1 = record s { kernel = k }
    let send = (ptsend_rest p seq msg s1 >>= λ (v, s2). some (finished v s2))
    if eqb_ℤ r syserr
        then some (finished syserr s1)
        else if same_process s.kernel k
        then send
        else some (waiting s1)

-- `ptrecv` after `wait`. The message stands for its `uint32` value, SYSERR for itself.
unfoldable pub ptrecv_rest : ℕ → ℕ → Ports → Option (ℤ × Ports)
ptrecv_rest p seq s =
    let port = s.porttab p in
    let node = port.pthead in
    let single = node == port.pttail in
    let s1 =
      update_port (record s { ptnext = set_field s.ptnext node s.ptfree; ptfree = node }) p
        (record port {
          pthead = if single then 0 else s.ptnext node;
          pttail = if single then 0 else port.pttail;
        }) in
    let recv =
      (signal (s1.porttab p).ptssem s1.kernel >>= λ (r, k).
      some (pos (s.ptmsg node), record s1 { kernel = k })) in
    if not (unchanged s p seq) then some (syserr, s) else if node == 0 then none else recv

unfoldable pub ptrecv : ℤ → Ports → Option PortCall
unfolding ptrecv_rest
ptrecv portid s = if isbadport portid then some (finished syserr s) else do
  p ← port_slot portid
  let seq = (s.porttab p).ptseq
  if not (is_alloc (s.porttab p).ptstate) then some (finished syserr s) else do
    (r, k) ← wait (s.porttab p).ptrsem s.kernel
    let s1 = record s { kernel = k }
    let recv = (ptrecv_rest p seq s1 >>= λ (v, s2). some (finished v s2))
    if eqb_ℤ r syserr
        then some (finished syserr s1)
        else if same_process s.kernel k
        then recv
        else some (waiting s1)

-- `dispose` is the caller's function for a message that is thrown away; `nodes` is the number of
-- the nodes that exist, a bound on the length of a port's list.
module _ (dispose : ℤ → Ports → Option Ports) (nodes : ℕ) where
  unfoldable pub walk_list : ℕ → ℕ → Ports → Option Ports
  walk_list zero walk s = if walk == 0 then some s else none
  walk_list (suc fuel) walk s =
      let next =
        (dispose (int32_of (s.ptmsg walk)) s >>= λ s1. walk_list fuel (s1.ptnext walk) s1) in
      if walk == 0 then some s else next

  -- The semaphores of a port that is cleared.
  unfoldable pub clear_sems : ℕ → Ptstate → Ports → Option Ports
  clear_sems p pt_alloc s = do
    let port = record (s.porttab p) { pthead = 0; pttail = 0 }
    (r1, k1) ← semreset port.ptssem (pos port.ptmaxcnt) s.kernel
    (r2, k2) ← semreset port.ptrsem (pos 0) k1
    some (update_port (record s { kernel = k2 }) p port)
  clear_sems p _ s = do
    (r1, k1) ← semdelete (s.porttab p).ptssem s.kernel
    (r2, k2) ← semdelete (s.porttab p).ptrsem k1
    some (record s { kernel = k2 })

  unfoldable pub ptclear : ℕ → Ptstate → Ports → Option Ports
  unfolding walk_list clear_sems
  ptclear p newstate s = do
    let port = record (s.porttab p) {
      ptstate = pt_limbo;
      ptseq = ((s.porttab p).ptseq + 1) % 2 ^ 32;
    }
    let s1 = update_port s p port
    s2 ← walk_list nodes port.pthead s1
    let port2 = s2.porttab p
    let freed = record s2 {
      ptnext = set_field s2.ptnext port2.pttail s2.ptfree;
      ptfree = port2.pthead;
    }
    s3 ← clear_sems p newstate (if port.pthead == 0 then s2 else freed)
    some (update_port s3 p (record (s3.porttab p) { ptstate = newstate }))

  unfoldable pub ptreset : ℤ → Ports → Option (ℤ × Ports)
  unfolding ptclear
  ptreset portid s = if isbadport portid then some (syserr, s) else do
    p ← port_slot portid
    if not (is_alloc (s.porttab p).ptstate)
        then some (syserr, s)
        else do s1 ← ptclear p pt_alloc s; some (ok, s1)

  unfoldable pub ptdelete : ℤ → Ports → Option (ℤ × Ports)
  unfolding ptclear
  ptdelete portid s = if isbadport portid then some (syserr, s) else do
    p ← port_slot portid
    if not (is_alloc (s.porttab p).ptstate)
        then some (syserr, s)
        else do s1 ← ptclear p pt_free s; some (ok, record s1 { ptnextid = p })
