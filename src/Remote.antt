-- ===== src/Remote.antt =====
-- Remote files: the functions of Chapter20, with rfilesys.h. A request is sent by `rfscomm` over UDP
-- endpoints, which are a parameter. Only one call at a time is in the system, so the wait for
-- `rf_mutex` either passes or blocks: `none` is a wait that blocks, a panic, or an access outside an
-- array.
pub mod Access
pub mod Control
pub mod Modes
pub mod Exchange
pub mod Kept
mod Tests
use Prim.Native.Nat.{bit_and, bit_or}
use os_design_xinu_approach.Prelude.{
  ℕ, zero, suc, ◌+◌, ◌-◌, ◌%◌, ◌^◌, Bool, true, false, not, ◌&&◌, ◌||◌, Option, none, some, List,
  [], ◌∷◌, ltb, ◌==◌, if◌then◌else◌, ℤ, pos, negsuc, ◌+ℤ◌, ◌-ℤ◌, leb_ℤ, eqb_ℤ,
}
use os_design_xinu_approach.Queue.{syserr}
use os_design_xinu_approach.State.{timeout}
use os_design_xinu_approach.Arp.{Byteorder}

-- The constants of rfilesys.h; lfilesys.h is included after file.h, so its `F_MODE_R` counts.
abbrev pub nrfl : ℕ
nrfl = 10

abbrev pub rf_namlen : ℕ
rf_namlen = 128

abbrev pub rf_datalen : ℕ
rf_datalen = 1024

abbrev pub rf_mode_r : ℕ
rf_mode_r = 0

abbrev pub rf_mode_w : ℕ
rf_mode_w = 1

abbrev pub rf_mode_rw : ℕ
rf_mode_rw = 2

abbrev pub rf_mode_o : ℕ
rf_mode_o = 3

abbrev pub rf_mode_n : ℕ
rf_mode_n = 4

abbrev pub rf_server_port : ℕ
rf_server_port = 33123

abbrev pub rf_loc_port : ℕ
rf_loc_port = 33123

abbrev pub rf_retries : ℕ
rf_retries = 3

abbrev pub rf_timeout : ℕ
rf_timeout = 3000

abbrev pub rf_msg_response : ℕ
rf_msg_response = 256

-- `RF_MSG_RREQ` … `RF_MSG_XREQ`
abbrev pub rf_msg_rreq : ℕ
rf_msg_rreq = 1

abbrev pub rf_msg_wreq : ℕ
rf_msg_wreq = 2

abbrev pub rf_msg_oreq : ℕ
rf_msg_oreq = 3

abbrev pub rf_msg_treq : ℕ
rf_msg_treq = 5

abbrev pub rf_msg_sreq : ℕ
rf_msg_sreq = 6

abbrev pub rf_msg_mreq : ℕ
rf_msg_mreq = 7

abbrev pub rf_msg_xreq : ℕ
rf_msg_xreq = 8

-- `struct rfdata`; `rf_seq` stands for the bits of the int32.
pub record Rfdata : Type 0 where
  pub rf_seq : ℕ
  pub rf_ser_ip : ℕ
  pub rf_ser_port : ℕ
  pub rf_local : ℕ
  pub rf_udp_slot : ℤ
  pub rf_mutex : ℤ
  pub rf_registered : Bool

-- `RF_FREE` and `RF_USED`
pub data Rfstate : Type 0 where
  rf_free rf_used : Rfstate

abbrev pub unopened : Rfstate → Bool
unopened rf_free = true
unopened rf_used = false

-- `struct rflcblk`
pub record Rflcblk : Type 0 where
  pub rfstate : Rfstate
  pub rfdev : ℤ
  pub rfname : ℕ → ℕ
  pub rfpos : ℕ
  pub rfmode : ℕ

-- The header of a message, and the fields that follow it in some messages, as they are sent
pub record Rfmsg : Type 0 where
  pub rf_type : ℕ
  pub rf_status : ℕ
  pub rf_seqno : ℕ
  pub rf_name : ℕ → ℕ
  pub rf_pos : ℕ
  pub rf_len : ℕ
  pub rf_data : ℕ → ℕ
  pub rf_mode : ℕ
  pub rf_size : ℕ

-- The sizes of the messages
abbrev pub hdr_size : ℕ
hdr_size = 136

abbrev pub rreq_size : ℕ
rreq_size = 144

abbrev pub rres_size : ℕ
rres_size = 1168

abbrev pub oreq_size : ℕ
oreq_size = 140

-- `Rf_data`, `rfltab`, the count of the semaphore `rf_mutex`, and the network
pub record Remote (W : Type 0) : Type 0 where
  pub rf_info : Rfdata
  pub rfltab : ℕ → Rflcblk
  pub mutex_count : ℤ
  pub network : W

-- The UDP endpoints: `udp_register`, `udp_send`, and `udp_recv`, which fills in the reply
pub record Endpoints (W : Type 0) : Type 0 where
  pub udp_register : ℕ → ℕ → ℕ → W → ℤ × W
  pub udp_send : ℤ → Rfmsg → ℕ → W → ℤ × W
  pub udp_recv : ℤ → Rfmsg → ℕ → ℕ → W → ℤ × Rfmsg × W

-- The bytes of `from` up to the first 0, copied to the same places of `to`: the place of the 0, unless
-- there are `left` other bytes before it.
unfoldable pub copy_string : ℕ → ℕ → (ℕ → ℕ) → (ℕ → ℕ) → Option ℕ × (ℕ → ℕ)
copy_string zero i from to = (none, to)
copy_string (suc left) i from to =
    let to' : ℕ → ℕ = λ j. if i == j then from i else to j in
    let rest = copy_string left (i + 1) from to' in if from i == 0 then (some i, to') else rest

-- `mbits & mask`, as a test
abbrev pub allows : ℕ → ℕ → Bool
allows mbits mask = not (bit_and mbits mask == 0)

-- The loop of `rfsgetmode`; `none` is a string without an end
unfoldable pub rf_mode_loop : List ℕ → ℕ → Option ℤ
rf_mode_loop [] mbits = none
rf_mode_loop (ch ∷ mode) mbits =
    let with_r = rf_mode_loop mode (bit_or mbits rf_mode_r) in
    let with_w = rf_mode_loop mode (bit_or mbits rf_mode_w) in
    let with_o = rf_mode_loop mode (bit_or mbits rf_mode_o) in
    let with_n = rf_mode_loop mode (bit_or mbits rf_mode_n) in
    if ch == 0
    then some (pos (if allows mbits rf_mode_rw then mbits else bit_or mbits rf_mode_rw))
    else if ch == 114
    then (if allows mbits rf_mode_r then some syserr else with_r)
    else if ch == 119
    then (if allows mbits rf_mode_w then some syserr else with_w)
    else if ch == 111
    then (if allows mbits rf_mode_o || allows mbits rf_mode_n then some syserr else with_o)
    else if ch == 110
    then (if allows mbits rf_mode_o || allows mbits rf_mode_n then some syserr else with_n)
    else some syserr

unfoldable pub rfsgetmode : List ℕ → Option ℤ
rfsgetmode mode = rf_mode_loop mode 0

-- The value of a `uint16` that is stored in an `int16`
abbrev pub int16_of : ℕ → ℤ
int16_of w = if ltb w (2 ^ 15) then pos w else negsuc (2 ^ 16 - w - 1)

abbrev pub set_block : {W : Type 0} → ℕ → Rflcblk → Remote W → Remote W
set_block minor f s = record s { rfltab = λ i. if minor == i then f else s.rfltab i }

-- `wait(Rf_data.rf_mutex)` and `signal(Rf_data.rf_mutex)`, when nobody waits
unfoldable pub rf_wait : {W : Type 0} → Remote W → Option (Remote W)
rf_wait s =
    if leb_ℤ s.mutex_count (pos 0)
    then none
    else some (record s { mutex_count = s.mutex_count -ℤ pos 1 })

abbrev pub rf_signal : {W : Type 0} → Remote W → Remote W
rf_signal s = record s { mutex_count = s.mutex_count +ℤ pos 1 }

-- Signal and return
abbrev pub leave : {W : Type 0} → ℤ → Remote W → Option (ℤ × Remote W)
leave r s = some (r, rf_signal s)

-- `Rf_data.rf_seq++`, with the wrap-around of its type
abbrev pub next_seq : {W : Type 0} → Remote W → Remote W
next_seq s = record s { rf_info = record s.rf_info { rf_seq = (s.rf_info.rf_seq + 1) % 2 ^ 32 } }

module _ {W : Type 0} (order : Byteorder) (net : Endpoints W) where
  -- Whether a reply has the sequence number and the type that belong to the request
  abbrev pub fits : ℕ → Rfmsg → Rfmsg → Bool
  fits seq msg reply =
      (order.ntohl reply.rf_seqno == seq)
      && eqb_ℤ (int16_of (order.ntohs reply.rf_type))
          (pos (bit_or (order.ntohs msg.rf_type) rf_msg_response))

  -- The loop of `rfscomm`, by the rounds that are left
  unfoldable pub comm_loop : ℕ → ℕ → ℤ → Rfmsg → ℕ → Rfmsg → ℕ → W → ℤ × Rfmsg × W
  comm_loop zero seq place msg mlen reply rlen w = (timeout, reply, w)
  comm_loop (suc rounds) seq place msg mlen reply rlen w =
      let sent = net.udp_send place msg mlen w in
      let got = net.udp_recv place reply rlen rf_timeout sent.1 in
      let rest = comm_loop rounds seq place msg mlen got.1 rlen got.2 in
      if eqb_ℤ sent.0 syserr
      then (syserr, reply, sent.1)
      else if eqb_ℤ got.0 timeout
      then rest
      else if eqb_ℤ got.0 syserr
      then (syserr, got.1, got.2)
      else if fits seq msg got.1
      then got
      else rest

  -- The exchange with the next sequence number
  unfoldable pub exchange : Rfmsg → ℕ → Rfmsg → ℕ → Remote W → ℤ × Rfmsg × Remote W
  exchange msg mlen reply rlen s =
      let seq = s.rf_info.rf_seq in
      let msg' = record msg { rf_seqno = order.htonl seq } in
      let r = comm_loop rf_retries seq s.rf_info.rf_udp_slot msg' mlen reply rlen s.network in
      (r.0, r.1, record (next_seq s) { network = r.2 })

  unfoldable pub rfscomm : Rfmsg → ℕ → Rfmsg → ℕ → Remote W → ℤ × Rfmsg × Remote W
  rfscomm msg mlen reply rlen s =
      let info = s.rf_info in
      let r = net.udp_register info.rf_ser_ip info.rf_ser_port info.rf_local s.network in
      let s' = record s {
        rf_info = record info { rf_udp_slot = r.0; rf_registered = true };
        network = r.1;
      } in
      if info.rf_registered
      then exchange msg mlen reply rlen s
      else if eqb_ℤ r.0 syserr
      then (syserr, reply, record s { network = r.1 })
      else exchange msg mlen reply rlen s'
