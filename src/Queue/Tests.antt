-- ===== src/Queue/Tests.antt =====
-- Tests of the queue functions of Chapter4, and their theorems at a queue of three processes.
use os_design_xinu_approach.Prelude.{
  ℕ, ◌≡◌, refl, Bool, false, some, [], ◌∷◌, ◌++◌, arith, pos, ◌>>=◌, Runs,
}
use os_design_xinu_approach.Queue.{
  empty, maxkey, minkey, Queuetab, update, next_of, getitem, getfirst, dequeue, insert_scan, insert,
}
use os_design_xinu_approach.Queue.Spans.{splice}
use os_design_xinu_approach.Queue.Holds.{Holds}
use os_design_xinu_approach.Queue.Enqueue.{getitem-Holds}
use os_design_xinu_approach.Queue.Insert.{ahead, behind, Ordered, insert-Ordered}

-- The queue 110 is empty in `vacant`; in `sample` it holds 7, 3 and 5 with the keys 40, 20 and 20.
abbrev vacant : Queuetab
vacant = record {
  qkey = update (update (λ x. pos 0) 110 maxkey) 111 minkey;
  qnext = update (update (λ x. empty) 110 (pos 111)) 111 empty;
  qprev = update (update (λ x. empty) 111 (pos 110)) 110 empty;
}

abbrev sample : Queuetab
sample = record (splice (splice (splice vacant 7 110 111) 3 7 111) 5 3 111) {
  qkey = update (update (update vacant.qkey 7 (pos 40)) 3 (pos 20)) 5 (pos 20);
}

abbrev live : ℕ → Bool
live p = false

sample-Holds : Holds sample 110 (7 ∷ 3 ∷ 5 ∷ [])
sample-Holds = record {
  low = omega arith;
  high = omega arith;
  chain = ((refl, refl), ((refl, refl), ((refl, refl), (refl, refl))));
  members = omega arith;
  distinct = omega arith;
}

vacant-Holds : Holds vacant 110 []
vacant-Holds = record {
  low = omega arith;
  high = omega arith;
  chain = (refl, refl);
  members = tt;
  distinct = tt;
}

sample-Ordered : Ordered sample 110 (7 ∷ 3 ∷ 5 ∷ [])
sample-Ordered = record { holds = sample-Holds; descending = omega arith; tail_key = refl }

-- 9 at priority 20 goes behind 3 and 5.
insert_behind_equals :
    (insert live (pos 9) (pos 110) (pos 20) sample >>= λ (r, t). next_of t (pos 5)) ≡ some (pos 9)
unfolding insert insert_scan
insert_behind_equals = refl

dequeue_first : (dequeue (pos 110) sample >>= λ (r, t). some r) ≡ some (pos 7)
unfolding dequeue getfirst getitem
dequeue_first = refl

insert-Ordered_example : Runs (insert live (pos 9) (pos 110) (pos 30) sample) λ (r, t').
    (r ≡ pos 0)
    × Ordered t' 110 (
        ahead sample.qkey (pos 30) (7 ∷ 3 ∷ 5 ∷ [])
        ++ 9 ∷ behind sample.qkey (pos 30) (7 ∷ 3 ∷ 5 ∷ []))
    × (t'.qkey ≡ update sample.qkey 9 (pos 30))
insert-Ordered_example =
    insert-Ordered live sample 9 110 (pos 30) (7 ∷ 3 ∷ 5 ∷ []) sample-Ordered (omega arith) refl
      (omega arith) (omega arith)

getitem-Holds_example :
    Runs
      (getitem (pos 3) sample)
      λ (r, t'). (r ≡ pos 3) × Holds t' 110 ((7 ∷ []) ++ 5 ∷ []) × (t'.qkey ≡ sample.qkey)
getitem-Holds_example = getitem-Holds sample 110 (7 ∷ []) (5 ∷ []) 3 sample-Holds
