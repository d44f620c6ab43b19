-- ===== src/Ports/Tests.antt =====
-- Tests of the ports, and their theorems at a port with two messages.
use os_design_xinu_approach.Prelude.{
  ◌+◌, ◌≡◌, refl, true, some, [], ◌∷◌, arith, ◌==◌, if◌then◌else◌, pos, ◌>>=◌, Runs,
}
use os_design_xinu_approach.State.{Kernel, ok, set_count}
use os_design_xinu_approach.Samples.{kernel}
use os_design_xinu_approach.Semaphore.{signal}
use os_design_xinu_approach.Ports.{pt_alloc, Ports, link_nodes, ptinit, ptsend_rest, ptrecv_rest}
use os_design_xinu_approach.Ports.Fifo.{PortHolds, Sent, Received, ptrecv-Received, ptsend-Sent}
use os_design_xinu_approach.Memory.{first_fit, getmem}

abbrev calm : Kernel
calm = record kernel { semtab = λ s. record { sused = true; scount = pos 2; squeue = pos 102 } }

-- The port 3 holds the messages 70 and 80 in the nodes 160 and 192; the node 176 is free.
abbrev sample : Ports
sample = record {
  kernel = calm;
  ptmsg = λ a. if a == 160 then 70 else if a == 192 then 80 else 0;
  ptnext = λ a. if a == 160 then 192 else 0;
  ptfree = 176;
  porttab = λ p. record {
    ptssem = pos 1;
    ptrsem = pos 2;
    ptstate = pt_alloc;
    ptmaxcnt = 5;
    ptseq = 9;
    pthead = 160;
    pttail = 192;
  };
  ptnextid = 0;
}

sample-PortHolds : PortHolds sample 3 (160 ∷ 192 ∷ [])
sample-PortHolds = record {
  allocated = refl;
  linked = (refl, (λ e. omega arith), (refl, (λ e. omega arith), refl));
  tail = refl;
  distinct = (((λ e. omega arith), tt), (tt, tt));
}

signal_sender : signal (pos 1) calm ≡ some (ok, set_count calm 1 (pos 3))
unfolding signal
signal_sender = refl

signal_receiver : signal (pos 2) calm ≡ some (ok, set_count calm 2 (pos 3))
unfolding signal
signal_receiver = refl

ptrecv-Received_example :
    Runs (ptrecv_rest 3 9 sample) λ (v, s'). Received sample 3 160 (192 ∷ []) v s'
ptrecv-Received_example =
    ptrecv-Received sample 3 160 (192 ∷ []) ok (set_count calm 1 (pos 3)) sample-PortHolds
      signal_sender

ptsend-Sent_example :
    Runs (ptsend_rest 3 9 90 sample) λ (v, s'). Sent sample 3 176 90 (160 ∷ 192 ∷ []) v s'
ptsend-Sent_example =
    ptsend-Sent sample 3 176 90 (160 ∷ 192 ∷ []) ok (set_count calm 2 (pos 3)) sample-PortHolds refl
      (λ e. omega arith) ((λ e. omega arith), ((λ e. omega arith), tt)) signal_receiver

-- The port system with room for three messages: the first node is linked to the second.
init_links : (ptinit (pos 3) sample >>= λ (r, s). some (s.ptnext s.ptfree)) ≡ some (4096 + 16)
unfolding ptinit getmem first_fit link_nodes
init_links = ground arith
