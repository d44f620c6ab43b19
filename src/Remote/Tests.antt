-- ===== src/Remote/Tests.antt =====
-- The theorems on remote files with a server that has two replies to give: a late one, and the answer.
use os_design_xinu_approach.Prelude.{
  ℕ, zero, suc, ◌+◌, ◌%◌, ◌<◌, ◌≡◌, refl, true, some, List, [], ◌∷◌, arith, ◌==◌, if◌then◌else◌, ℤ,
  pos, ◌>>=◌, Runs,
}
use os_design_xinu_approach.Queue.{syserr}
use os_design_xinu_approach.State.{timeout}
use os_design_xinu_approach.Arp.{Byteorder}
use os_design_xinu_approach.Tables.{search}
use os_design_xinu_approach.Files.Open.{lfgetmode}
use os_design_xinu_approach.Remote.{
  rf_server_port, rf_loc_port, rf_free, rf_used, Rflcblk, Rfmsg, rreq_size, rres_size, Remote,
  Endpoints, copy_string, rf_mode_loop, rfsgetmode, rf_wait, comm_loop, exchange, rfscomm,
}
use os_design_xinu_approach.Remote.Access.{rflread, end_write, rflwrite}
use os_design_xinu_approach.Remote.Control.{end_open, open_entry, rfsopen}
use os_design_xinu_approach.Remote.Modes.{rfsgetmode-lfgetmode}
use os_design_xinu_approach.Remote.Exchange.{
  Exchanged, rfscomm-Exchanged, received_at, before, Missed, Heard, rfscomm-Heard,
}
use os_design_xinu_approach.Remote.Kept.{rflread-refuses, Request, Written, rflwrite-Written}

abbrev network_order : Byteorder
network_order = record {
  htons = λ n. n % 65536;
  htonl = λ n. n % 4294967296;
  ntohs = λ n. n % 65536;
  ntohl = λ n. n % 4294967296;
}

abbrev Replies : Type 0
Replies = List (ℤ × Rfmsg)

abbrev next_reply : Rfmsg → Replies → ℤ × Rfmsg × Replies
next_reply reply [] = (timeout, reply, [])
next_reply reply ((r, m) ∷ rest) = (r, m, rest)

abbrev server : Endpoints Replies
server = record {
  udp_register = λ ip port local w. (pos 0, w);
  udp_send = λ place msg mlen w. (pos mlen, w);
  udp_recv = λ place reply rlen patience w. next_reply reply w;
}

abbrev message : ℕ → ℕ → ℕ → Rfmsg
message type_of seq len = record {
  rf_type = type_of;
  rf_status = 0;
  rf_seqno = seq;
  rf_name = λ i. 0;
  rf_pos = 0;
  rf_len = len;
  rf_data = λ i. 0;
  rf_mode = 0;
  rf_size = 0;
}

abbrev file_f : ℕ → Rflcblk
file_f i = record {
  rfstate = if i == 0 then rf_used else rf_free;
  rfdev = pos (20 + i);
  rfname = λ j. if j == 0 then 102 else 0;
  rfpos = 1000;
  rfmode = 3;
}

abbrev remote : Remote Replies
remote = record {
  rf_info = record {
    rf_seq = 7;
    rf_ser_ip = 2148151091;
    rf_ser_port = rf_server_port;
    rf_local = rf_loc_port;
    rf_udp_slot = pos 0;
    rf_mutex = pos 3;
    rf_registered = true;
  };
  rfltab = file_f;
  mutex_count = pos 1;
  network = (pos 144, message 258 6 9) ∷ (pos 144, message 258 7 5) ∷ [];
}

rfsgetmode-lfgetmode_example : rfsgetmode (114 ∷ 119 ∷ 0 ∷ []) ≡ lfgetmode (114 ∷ 119 ∷ 0 ∷ [])
rfsgetmode-lfgetmode_example = rfsgetmode-lfgetmode (114 ∷ 119 ∷ 0 ∷ [])

rfscomm-Exchanged_example :
    let o = rfscomm network_order server (message 2 0 5) 1168 (message 0 0 0) 144 remote in
    Exchanged network_order server (message 2 0 5) remote o.0 o.1 o.2
rfscomm-Exchanged_example =
    rfscomm-Exchanged network_order server (message 2 0 5) 1168 (message 0 0 0) 144 remote

abbrev round : ℕ → ℤ × Rfmsg × Replies
round i = received_at network_order server 7 (pos 0) (message 2 7 5) 1168 144 (
    before network_order server 7 (pos 0) (message 2 7 5) 1168 144 i
      (message 0 0 0, remote.network))

first-Missed :
    (i : ℕ) → i < 1 → Missed network_order server 7 (pos 0) (message 2 7 5) 1168 144 (round i)
first-Missed zero below = (refl, refl, λ a. let n = a.numbered in omega (arith, n))
first-Missed (suc i) below = absurd (omega (arith, below))

-- The second message is answered.
second-Heard :
    Heard network_order server 7 (pos 0) (message 2 7 5) 1168 144 1 (message 0 0 0, remote.network)
second-Heard = record {
  sent = λ i le. refl;
  missed = first-Missed;
  in_time = refl;
  fine = refl;
  match = record { numbered = refl; typed = refl };
}

rfscomm-Heard_example :
    let o = rfscomm network_order server (message 2 0 5) 1168 (message 0 0 0) 144 remote in
    (o.0 ≡ pos 144) × ((o.1 ≡ message 258 7 5) × (o.2.network ≡ []))
rfscomm-Heard_example =
    rfscomm-Heard network_order server (message 2 0 5) 1168 (message 0 0 0) 144 remote 1 refl
      (omega arith) second-Heard

rflread-refuses_example :
    Runs (rflread network_order server (message 0 0 0) 0 (pos 5) remote) λ (r, bytes, s').
      (r ≡ syserr)
      × (bytes ≡ [])
      × (s'.rfltab ≡ remote.rfltab)
      × (s'.network ≡ remote.network)
      × (s'.mutex_count ≡ pos 1)
rflread-refuses_example = rflread-refuses network_order server (message 0 0 0) 0 (pos 5) remote refl

rflwrite-Written_example :
    (msg : Rfmsg) × Request network_order server (file_f 0) (λ i. i) 5 msg
    × Runs (rflwrite network_order server (message 0 0 0) 0 (λ i. i) (pos 5) remote) (
        Written network_order server 0 remote.rfltab (
          rfscomm network_order server msg rres_size
            (message 0 0 0)
            rreq_size
            (record remote { mutex_count = pos 0 })))
rflwrite-Written_example =
    rflwrite-Written network_order server (message 0 0 0) 0 (λ i. i) 5 remote refl (omega arith)
      (omega arith) refl refl refl refl

-- The 5 bytes that the server reports move the position.
rflwrite_run :
    (rflwrite network_order server (message 0 0 0) 0 (λ i. i) (pos 5) remote >>= λ (r, s').
    some (s'.rfltab 0).rfpos)
    ≡ some 1005
unfolding rflwrite rf_wait copy_string rfscomm exchange comm_loop end_write
rflwrite_run = refl

-- An opened file is the device of its entry.
rfsopen_run :
    (rfsopen network_order server
        (message 0 0 0)
        (λ i. if i == 0 then 103 else 0)
        (119 ∷ 0 ∷ [])
        (record remote { network = (pos 140, message 259 7 0) ∷ [] })
      >>= λ (r, s'). some r)
    ≡ some (pos 21)
unfolding rfsopen rf_wait copy_string open_entry rfsgetmode rf_mode_loop rfscomm exchange comm_loop
    end_open search
rfsopen_run = refl
