-- ===== src/Memory/Tests.antt =====
-- The allocator of Chapter9 at a heap with two free blocks.
use os_design_xinu_approach.Prelude.{ℕ, ◌≤◌, ◌≡◌, refl, true, some, [], ◌∷◌, arith}
use os_design_xinu_approach.Memory.{
  memblk, Memory, roundmb, first_fit, getmem, last_fit, cut_high, getstk, freemem, freestk,
}
use os_design_xinu_approach.Memory.Chain.{covers}
use os_design_xinu_approach.Memory.Alloc.{
  IsHeap, Allocated, getmem-Allocated, StackAllocated, getstk-StackAllocated,
}
use os_design_xinu_approach.Memory.Free.{Freed, freemem-Freed, getmem-freemem, getstk-freestk}

abbrev heap : Memory
heap = record {
  memlist = memblk 4096 64 ∷ memblk 8192 1024 ∷ [];
  mfree = 1088;
  minheap = 4096;
  maxheap = 65535;
}

abbrev after_get : Memory
after_get = record heap { memlist = memblk 4096 64 ∷ memblk 8304 912 ∷ []; mfree = 976 }

abbrev after_stk : Memory
after_stk = record heap { memlist = memblk 4096 64 ∷ memblk 8192 912 ∷ []; mfree = 976 }

heap-IsHeap : IsHeap heap
heap-IsHeap = record {
  chain = omega arith;
  aligned = (refl, (refl, tt));
  counted = refl;
  not_null = omega arith;
  small = omega arith;
  top = omega arith;
  bounded = λ x e. ground arith;
}

get_112 : getmem 112 heap ≡ (some 8192, after_get)
unfolding getmem first_fit
get_112 = refl

-- The link to the next block is written over the length, which is read afterwards.
get_8 :
    getmem 8 heap
    ≡ (some 4096, record heap { memlist = memblk 4104 8184 ∷ memblk 8192 1024 ∷ []; mfree = 1080 })
unfolding getmem first_fit
get_8 = refl

stk_112 : getstk 112 heap ≡ (some 9208, after_stk)
unfolding getstk last_fit cut_high
stk_112 = refl

getmem-Allocated_example :
    (112 ≤ roundmb 112) × Allocated (roundmb 112) heap (getmem 112 heap).0 (getmem 112 heap).1
getmem-Allocated_example = getmem-Allocated 112 heap heap-IsHeap (omega arith) (omega arith) refl

getstk-StackAllocated_example :
    StackAllocated (roundmb 112) heap (getstk 112 heap).0 (getstk 112 heap).1
getstk-StackAllocated_example =
    getstk-StackAllocated 112 heap heap-IsHeap (omega arith) (omega arith) refl

freemem-Freed_example :
    Freed (roundmb 32) heap 4160 (freemem 4160 32 heap).0 (freemem 4160 32 heap).1
freemem-Freed_example =
    freemem-Freed 4160 32 heap heap-IsHeap (omega arith) (omega arith) refl (omega arith)
      (omega arith)

getmem-freemem_example :
    let r = freemem 8192 112 after_get in
    (r.0 ≡ true) × IsHeap r.1 × ((x : ℕ) → covers r.1.memlist x ≡ covers heap.memlist x)
getmem-freemem_example =
    getmem-freemem 112 8192 heap after_get heap-IsHeap (omega arith) (omega arith) refl get_112

getstk-freestk_example :
    let r = freestk 9208 112 after_stk in
    (r.0 ≡ true) × IsHeap r.1 × ((x : ℕ) → covers r.1.memlist x ≡ covers heap.memlist x)
getstk-freestk_example =
    getstk-freestk 112 9208 heap after_stk heap-IsHeap (omega arith) (omega arith) refl stk_112
