-- ===== src/Remote/Control.antt =====
-- Opening and controlling remote files: rfsopen.c, rfsndmsg.c, rfscontrol.c and rfsinit.c of Chapter20.
use os_design_xinu_approach.Prelude.{
  ℕ, ◌-◌, false, not, ◌||◌, Option, none, some, List, ◌==◌, if◌then◌else◌, ℤ, pos, eqb_ℤ, ◌>>=◌,
}
use os_design_xinu_approach.Queue.{syserr}
use os_design_xinu_approach.State.{ok, timeout, int32_of, uint32_of}
use os_design_xinu_approach.Tables.{search}
use os_design_xinu_approach.Arp.{Byteorder}
use os_design_xinu_approach.Remote.{
  nrfl, rf_namlen, rf_server_port, rf_loc_port, rf_msg_oreq, rf_msg_treq, rf_msg_sreq, rf_msg_mreq,
  rf_msg_xreq, rf_used, unopened, Rfmsg, hdr_size, oreq_size, Remote, Endpoints, copy_string,
  rfsgetmode, set_block, rf_wait, leave, rfscomm,
}
use os_design_xinu_approach.Remote.Access.{succeeded}

-- `Rf_data` at the start of the system: `dot2zip` has parsed the address of the server, or not, and
-- `semcreate` has returned `sem`.
unfoldable pub rfsinit : {W : Type 0} → Option ℕ → ℤ → Remote W → Option (ℤ × Remote W)
rfsinit parsed sem s = parsed >>= λ ip.
    if eqb_ℤ sem syserr
    then none
    else some (
      ok,
      record s {
        rf_info = record s.rf_info {
          rf_seq = 1;
          rf_ser_ip = ip;
          rf_ser_port = rf_server_port;
          rf_local = rf_loc_port;
          rf_mutex = sem;
          rf_registered = false;
        };
        mutex_count = pos 1;
      },
    )

-- `F_CTL_DEL` … `F_CTL_SIZE`
abbrev pub rfs_ctl_del : ℤ
rfs_ctl_del = pos 1

abbrev pub rfs_ctl_trunc : ℤ
rfs_ctl_trunc = pos 2

abbrev pub rfs_ctl_mkdir : ℤ
rfs_ctl_mkdir = pos 3

abbrev pub rfs_ctl_rmdir : ℤ
rfs_ctl_rmdir = pos 4

abbrev pub rfs_ctl_size : ℤ
rfs_ctl_size = pos 5

module _ {W : Type 0} (order : Byteorder) (net : Endpoints W) where
  -- The end of `rfsndmsg`, with the outcome of `rfscomm`
  unfoldable pub sent_result : ℤ × Rfmsg × Remote W → ℤ × Remote W
  sent_result (r, resp, s) =
      if eqb_ℤ r syserr || eqb_ℤ r timeout || not (order.ntohl resp.rf_status == 0)
      then (syserr, s)
      else (ok, s)

  -- `none`: the name does not fit into the request.
  unfoldable pub rfsndmsg : Rfmsg → ℕ → (ℕ → ℕ) → Remote W → Option (ℤ × Remote W)
  rfsndmsg junk type_of name s =
      let copied = copy_string rf_namlen 0 name junk.rf_name in
      let req = record junk {
        rf_type = order.htons type_of;
        rf_status = order.htons 0;
        rf_seqno = 0;
        rf_name = copied.1;
      } in
      copied.0 >>= λ end. some (sent_result (rfscomm order net req hdr_size junk hdr_size s))

  -- The end of `rfsopen`, with the outcome of `rfscomm`
  unfoldable pub end_open : ℕ → ℤ × Rfmsg × Remote W → Option (ℤ × Remote W)
  end_open i (r, resp, s) =
      let f = s.rfltab i in
      if succeeded order net r resp
      then leave f.rfdev (set_block i (record f { rfstate = rf_used; rfpos = 0 }) s)
      else leave syserr s

  -- `rfsopen` with the free entry `i`, whose name has been copied up to `end`
  unfoldable pub open_entry : Rfmsg → ℕ → ℕ → (ℕ → ℕ) → List ℕ → Remote W → Option (ℤ × Remote W)
  open_entry junk i end name mode s =
      if end == 0
      then leave syserr s
      else rfsgetmode mode >>= λ mbits.
          let f = record (s.rfltab i) { rfmode = uint32_of mbits } in
          let s1 = set_block i f s in
          let msg = record junk {
            rf_type = order.htons rf_msg_oreq;
            rf_status = order.htons 0;
            rf_seqno = 0;
            rf_name = (copy_string rf_namlen 0 name (λ j. 0)).1;
            rf_mode = order.htonl (uint32_of mbits);
          } in
          if eqb_ℤ mbits syserr
          then leave syserr s1
          else end_open i (rfscomm order net msg oreq_size junk oreq_size s1)

  unfoldable pub rfsopen : Rfmsg → (ℕ → ℕ) → List ℕ → Remote W → Option (ℤ × Remote W)
  rfsopen junk name mode s = rf_wait s >>= λ s1.
      elim (search (λ f. unopened f.rfstate) nrfl 0 s1.rfltab) [
        | none ↦ leave syserr s1
        | some i ↦
            let f = s1.rfltab i in
            let copied = copy_string rf_namlen 0 name f.rfname in
            let s2 = set_block i (record f { rfname = copied.1 }) s1 in
            elim copied.0 [ none ↦ leave syserr s2 | some end ↦ open_entry junk i end name mode s2 ]
      ]

  -- The case `RFS_CTL_SIZE`; the status field of the request is not set.
  unfoldable pub control_size : Rfmsg → (ℕ → ℕ) → Remote W → Option (ℤ × Remote W)
  control_size junk name s =
      let msg = record junk { rf_type = order.htons rf_msg_sreq; rf_seqno = 0; rf_name = name } in
      let (r, resp, s') = rfscomm order net msg hdr_size junk oreq_size s in
      if eqb_ℤ r syserr || eqb_ℤ r timeout
      then leave syserr s'
      else leave (int32_of (order.ntohl resp.rf_size)) s'

  -- A case that sends one message, and what comes behind its `if`
  unfoldable pub control_send :
      Rfmsg → ℕ → (ℕ → ℕ) → (Remote W → Option (ℤ × Remote W)) → Remote W → Option (ℤ × Remote W)
  control_send junk type_of arg behind s = rfsndmsg junk type_of arg s >>= λ (r, s').
      if eqb_ℤ r syserr then leave syserr s' else behind s'

  -- `delete` is `rfsnmsg`, which the repository does not define. Behind the case `RFS_CTL_RMDIR` comes
  -- that of `RFS_CTL_SIZE`.
  unfoldable pub rfscontrol :
      Rfmsg → (Remote W → ℤ × Remote W) → ℕ → ℤ → (ℕ → ℕ) → Remote W → Option (ℤ × Remote W)
  rfscontrol junk delete minor func arg s = rf_wait s >>= λ s1.
      let name = copy_string (rf_namlen - 1) 0 (s1.rfltab minor).rfname (λ i. 0) in
      let (r, s2) = delete s1 in
      if eqb_ℤ (elim name.0 [ none ↦ syserr | some end ↦ ok ]) syserr
      then leave syserr s1
      else if eqb_ℤ func rfs_ctl_del
      then (if eqb_ℤ r syserr then leave syserr s2 else leave ok s2)
      else if eqb_ℤ func rfs_ctl_trunc
      then control_send junk rf_msg_treq arg (leave ok) s1
      else if eqb_ℤ func rfs_ctl_mkdir
      then control_send junk rf_msg_mreq arg (leave ok) s1
      else if eqb_ℤ func rfs_ctl_rmdir
      then control_send junk rf_msg_xreq arg (control_size junk name.1) s1
      else if eqb_ℤ func rfs_ctl_size
      then control_size junk name.1 s1
      else leave syserr s1
