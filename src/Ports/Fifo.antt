-- ===== src/Ports/Fifo.antt =====
-- A port's list of message nodes is a queue: `ptsend` (Chapter11/ptsend.c) adds at its end and
-- `ptrecv` (Chapter11/ptrecv.c) takes from its front.
use os_design_xinu_approach.Prelude.{
  ℕ, ◌≡◌, refl, ap, subst, ◌≢◌, some, List, [], ◌∷◌, ◌++◌, append-nil, arith, ◌==◌, if◌then◌else◌,
  Apart, Distinct, Distinct-insert, ℤ, pos, Runs,
}
use os_design_xinu_approach.Queue.Spans.{last}
use os_design_xinu_approach.Ports.{pt_alloc, Ports, update_port, ptsend_rest, ptrecv_rest}
use os_design_xinu_approach.State.{Kernel, ok, set_field}
use os_design_xinu_approach.Semaphore.{signal}
use os_design_xinu_approach.Links.{Leads, Leads-frame}

-- The messages of the nodes, the oldest one first.
abbrev pub messages : (ℕ → ℕ) → List ℕ → List ℕ
messages msg [] = []
messages msg (w ∷ ws) = msg w ∷ messages msg ws

-- The port `p` holds the nodes `ws`, none of which is the first free node.
pub record PortHolds (s : Ports) (p : ℕ) (ws : List ℕ) : Type 0 where
  pub allocated : (s.porttab p).ptstate ≡ pt_alloc
  pub linked : Leads s.ptnext (s.porttab p).pthead ws
  pub tail : (s.porttab p).pttail ≡ last 0 ws
  pub distinct : Distinct ws

pub Apart-last : (x w : ℕ) (ws : List ℕ) → Apart x (w ∷ ws) → x ≢ last w ws
Apart-last x w [] apart = apart.0
Apart-last x w (v ∷ ws) apart = Apart-last x v ws apart.1

pub Leads-last : (next : ℕ → ℕ) (h w : ℕ) (ws : List ℕ) → Leads next h (w ∷ ws) → last w ws ≢ 0
Leads-last next h w [] l = l.1
Leads-last next h w (v ∷ ws) l = Leads-last next (next w) v ws l.2

-- A node that ends with NULL is added behind the last one.
pub Leads-append :
    (next : ℕ → ℕ) (h w f : ℕ) (ws : List ℕ)
    → Distinct (w ∷ ws)
    → Apart f (w ∷ ws)
    → f ≢ 0
    → next f ≡ 0
    → Leads next h (w ∷ ws)
    → Leads (set_field next (last w ws) f) h ((w ∷ ws) ++ f ∷ [])
Leads-append next h w f [] d apart nz end l =
    (l.0, l.1, (ground arith, nz, ground (arith, apart.0)))
Leads-append next h w f (v ∷ ws) d apart nz end l =
    let rest = Leads-append next (next w) v f ws d.1 apart.1 nz end l.2 in
    let other = Apart-last w v ws d.0 in
    (
      l.0,
      l.1,
      subst (λ x. Leads (set_field next (last v ws) f) x ((v ∷ ws) ++ f ∷ []))
          (ground (arith, other)) rest,
    )

pub messages-frame :
    (msg : ℕ → ℕ) (a v : ℕ) (ws : List ℕ)
    → Apart a ws
    → messages (set_field msg a v) ws ≡ messages msg ws
messages-frame msg a v [] apart = refl
messages-frame msg a v (w ∷ ws) apart =
    let e = messages-frame msg a v ws apart.1 in ground (arith, apart.0)

-- What `ptsend` leaves: the node `f` at the end of the port's list, with the message.
pub record Sent (s : Ports) (p f msg : ℕ) (ws : List ℕ) (v : ℤ) (s' : Ports) : Type 0 where
  pub result : v ≡ ok
  pub holds : PortHolds s' p (ws ++ f ∷ [])
  pub queued : messages s'.ptmsg (ws ++ f ∷ []) ≡ messages s.ptmsg ws ++ msg ∷ []
  pub next_free : s'.ptfree ≡ s.ptnext f

-- What `ptrecv` leaves when `w` was the first node: the node is the first free one.
pub record Received (s : Ports) (p w : ℕ) (ws : List ℕ) (v : ℤ) (s' : Ports) : Type 0 where
  pub result : v ≡ pos (s.ptmsg w)
  pub holds : PortHolds s' p ws
  pub queued : messages s'.ptmsg ws ≡ messages s.ptmsg ws
  pub next_free : s'.ptfree ≡ w
  pub behind_it : s'.ptnext w ≡ s.ptfree

abbrev taken : Ports → ℕ → ℕ → ℕ → ℕ → Kernel → Ports
taken s p w head tail k =
    update_port (record s { ptnext = set_field s.ptnext w s.ptfree; ptfree = w; kernel = k }) p
      (record (s.porttab p) { pthead = head; pttail = tail })

ptrecv-eq :
    (s : Ports) (p w : ℕ) (r : ℤ) (k : Kernel)
    → (s.porttab p).ptstate ≡ pt_alloc
    → (s.porttab p).pthead ≡ w
    → w ≢ 0
    → signal (s.porttab p).ptssem s.kernel ≡ some (r, k)
    → ptrecv_rest p (s.porttab p).ptseq s
      ≡ some (
        pos (s.ptmsg w),
        taken s p w
            (if w == (s.porttab p).pttail then 0 else s.ptnext w)
            (if w == (s.porttab p).pttail then 0 else (s.porttab p).pttail)
            k,
      )
unfolding ptrecv_rest
ptrecv-eq s p w r k a h nz e = ground arith

-- When the wait of `ptrecv` is over and the port is as it was, with a message at least, the call
-- returns the oldest message, keeps the others in their order and gives its node back, if the
-- signal to a sender succeeds.
pub ptrecv-Received :
    (s : Ports) (p w : ℕ) (ws : List ℕ) (r : ℤ) (k : Kernel)
    → PortHolds s p (w ∷ ws)
    → signal (s.porttab p).ptssem s.kernel ≡ some (r, k)
    → Runs (ptrecv_rest p (s.porttab p).ptseq s) λ (v, s'). Received s p w ws v s'
unfolding ptrecv_rest
ptrecv-Received s p w [] r k h e =
    rw (ptrecv-eq s p w r k h.allocated h.linked.0 h.linked.1 e) record {
      result = refl;
      holds = record {
        allocated = ground (arith, h.allocated);
        linked = ground (arith, h.tail);
        tail = ground (arith, h.tail);
        distinct = tt;
      };
      queued = refl;
      next_free = refl;
      behind_it = ground arith;
    }
ptrecv-Received s p w (u ∷ ws) r k h e =
    let apart = h.distinct.0 in
    let other = Apart-last w u ws apart in
    let leads = Leads-frame s.ptnext w s.ptfree (s.ptnext w) (u ∷ ws) apart h.linked.2 in
    rw (ptrecv-eq s p w r k h.allocated h.linked.0 h.linked.1 e) record {
      result = refl;
      holds = record {
        allocated = ground (arith, h.allocated);
        linked =
            subst (λ x. Leads (set_field s.ptnext w s.ptfree) x (u ∷ ws))
              (ground (arith, other, h.tail)) leads;
        tail = ground (arith, other, h.tail);
        distinct = h.distinct.1;
      };
      queued = refl;
      next_free = refl;
      behind_it = ground arith;
    }

-- `s` after `ptsend` has put the node `f` behind the last one
abbrev sent : Ports → ℕ → ℕ → ℕ → (ℕ → ℕ) → Kernel → Ports
sent s p f msg next k =
    update_port
      (record s { ptfree = s.ptnext f; ptnext = next; ptmsg = set_field s.ptmsg f msg; kernel = k })
      p
      (record (s.porttab p) {
        pthead = if (s.porttab p).pttail == 0 then f else (s.porttab p).pthead;
        pttail = f;
      })

ptsend-eq :
    (s : Ports) (p f msg : ℕ) (r : ℤ) (k : Kernel)
    → (s.porttab p).ptstate ≡ pt_alloc
    → s.ptfree ≡ f
    → f ≢ 0
    → signal (s.porttab p).ptrsem s.kernel ≡ some (r, k)
    → ptsend_rest p (s.porttab p).ptseq msg s
      ≡ some (
        ok,
        sent s p f msg
            (if (s.porttab p).pttail == 0
              then set_field s.ptnext f 0
              else set_field (set_field s.ptnext f 0) (s.porttab p).pttail f)
            k,
      )
unfolding ptsend_rest
ptsend-eq s p f msg r k a h nz e = ground arith

messages-append :
    (msg : ℕ → ℕ) (ws : List ℕ) (f : ℕ)
    → messages msg (ws ++ f ∷ []) ≡ messages msg ws ++ msg f ∷ []
messages-append msg [] f = refl
messages-append msg (w ∷ ws) f = ap (λ xs. msg w ∷ xs) (messages-append msg ws f)

queued_after :
    (msg : ℕ → ℕ) (f v : ℕ) (ws : List ℕ)
    → Apart f ws
    → messages (set_field msg f v) (ws ++ f ∷ []) ≡ messages msg ws ++ v ∷ []
queued_after msg f v ws apart =
    rw (messages-append (set_field msg f v) ws f, messages-frame msg f v ws apart) ground arith

last-append : (a : ℕ) (ws : List ℕ) (f : ℕ) → last a (ws ++ f ∷ []) ≡ f
last-append a [] f = refl
last-append a (w ∷ ws) f = last-append w ws f

Distinct-append : (ws : List ℕ) (f : ℕ) → Distinct ws → Apart f ws → Distinct (ws ++ f ∷ [])
Distinct-append ws f d apart =
    Distinct-insert ws [] f (rw (append-nil ws) d) (rw (append-nil ws) apart)

-- When the wait of `ptsend` is over, the port is as it was and a node is free, the call puts the
-- message behind those in the port, if the signal to a receiver succeeds.
pub ptsend-Sent :
    (s : Ports) (p f msg : ℕ) (ws : List ℕ) (r : ℤ) (k : Kernel)
    → PortHolds s p ws
    → s.ptfree ≡ f
    → f ≢ 0
    → Apart f ws
    → signal (s.porttab p).ptrsem s.kernel ≡ some (r, k)
    → Runs (ptsend_rest p (s.porttab p).ptseq msg s) λ (v, s'). Sent s p f msg ws v s'
ptsend-Sent s p f msg [] r k h free nz apart e =
    rw (ptsend-eq s p f msg r k h.allocated free nz e) record {
      result = refl;
      holds = record {
        allocated = ground (arith, h.allocated);
        linked = ground (arith, h.tail);
        tail = ground arith;
        distinct = (tt, tt);
      };
      queued = ground arith;
      next_free = refl;
    }
ptsend-Sent s p f msg (w ∷ ws) r k h free nz apart e =
    let used = Leads-last s.ptnext (s.porttab p).pthead w ws h.linked in
    let ended = Leads-frame s.ptnext f 0 (s.porttab p).pthead (w ∷ ws) apart h.linked in
    let leads =
      Leads-append (set_field s.ptnext f 0) (s.porttab p).pthead w f ws h.distinct apart nz
        (ground arith) ended in
    rw (ptsend-eq s p f msg r k h.allocated free nz e) record {
      result = refl;
      holds = record {
        allocated = ground (arith, h.allocated);
        linked =
            subst (λ x. Leads x ((sent s p f msg x k).porttab p).pthead ((w ∷ ws) ++ f ∷ []))
              (ground (arith, h.tail, used))
              (subst
                (λ x.
                  Leads (set_field (set_field s.ptnext f 0) (last w ws) f) x ((w ∷ ws) ++ f ∷ []))
                (ground (arith, h.tail, used)) leads);
        tail = ground (arith, last-append w ws f);
        distinct = Distinct-append (w ∷ ws) f h.distinct apart;
      };
      queued = queued_after s.ptmsg f msg (w ∷ ws) apart;
      next_free = refl;
    }
