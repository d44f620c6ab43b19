-- ===== src/Disk/Tests.antt =====
-- The remote disk with two buffers in its cache and one free buffer: the requests lie between 1 and 2, the
-- cache between 3 and 4, and the buffers are 10, 11 and 12.
use os_design_xinu_approach.Prelude.{
  ℕ, ◌+◌, ◌≡◌, refl, true, some, [], ◌∷◌, arith, pos, ◌>>=◌, Runs,
}
use os_design_xinu_approach.Disk.{
  rd_open, rd_op_read, Rdbuff, Rdscblk, point, insert_request, pending_write, cached, write_request,
  write_buffer, rdswrite, rdsclose,
}
use os_design_xinu_approach.Disk.Close.{Caching, Closed, rdsclose-Closed}
use os_design_xinu_approach.State.{ok}

abbrev buffer : ℕ → Rdbuff
buffer b = record {
  rd_op = rd_op_read;
  rd_refcnt = pos 0;
  rd_blknum = b;
  rd_valid = true;
  rd_pid = pos 4;
  rd_block = λ i. 0;
}

abbrev disk : Rdscblk
disk = record {
  rd_state = rd_open;
  rd_id = λ i. 0;
  rd_seq = 1;
  rd_first_free = 12;
  rd_avail = pos 3;
  rd_req = pos 0;
  rd_ser_ip = 0;
  rd_ser_port = 33124;
  rd_loc_port = 33124;
  rd_registered = true;
  rd_udpslot = pos 0;
  rd_next = point (point (point (point (λ x. 0) 1 2) 3 10) 10 11) 11 4;
  rd_prev = point (point (point (point (λ x. 0) 2 1) 10 3) 11 10) 4 11;
  buffers = buffer;
  request_head = 1;
  request_tail = 2;
  cache_head = 3;
  cache_tail = 4;
}

disk-Caching : Caching disk (10 ∷ 11 ∷ []) (12 ∷ [])
disk-Caching = record {
  cache = (refl, refl, (refl, refl, (refl, refl)));
  free = (refl, refl);
  off_head = omega arith;
  off_tail = omega arith;
  distinct = omega arith;
  disjoint = omega arith;
  head_free = omega arith;
}

rdsclose-Closed_example :
    Runs (rdsclose 3 disk) λ (r, d'). (r ≡ ok) × Closed (10 ∷ 11 ∷ []) (12 ∷ []) d'
rdsclose-Closed_example =
    rdsclose-Closed 3 disk (10 ∷ 11 ∷ []) (12 ∷ []) refl refl disk-Caching (omega arith)

-- A write of the block 10 takes its buffer out of the cache and makes it the only request.
rdswrite_run :
    (rdswrite 4 12 (pos 4) (λ i. 7) 10 disk >>= λ (r, d'). some (d'.rd_next 1 + d'.rd_next 3))
    ≡ some 21
unfolding rdswrite pending_write cached write_buffer write_request insert_request
rdswrite_run = refl
