-- ===== src/Mark/Kept.antt =====
-- Marked locations stay marked: `mark` (Chapter23/mark.c).
use os_design_xinu_approach.Prelude.{
  ℕ, ◌+◌, ◌<◌, ◌≡◌, refl, ap, ◌∙◌, inl, inr, true, false, some, arith, ◌==◌, if◌then◌else◌,
  Bool-cases, ℤ, pos, negsuc, Runs,
}
use os_design_xinu_approach.State.{Kernel, ok, same_process}
use os_design_xinu_approach.Semaphore.{wait, signal}
use os_design_xinu_approach.Mark.{
  maxmark, Marks, marked_as, notmarked, mark_rest, MarkCall, marked, delayed, mark,
}

-- `mark` has returned to its caller.
abbrev pub Returned : (Marks → Type 0) → MarkCall → Type 0
Returned P (marked r s) = (r ≡ ok) × P s
Returned P (delayed s) = ⊥

-- The table after `loc` has its mark
abbrev placed : ℕ → Kernel → Marks → Marks
placed loc k s = record s {
  kernel = k;
  memory = λ a. if loc == a then pos s.nmarks else s.memory a;
  marks = λ i. if s.nmarks == i then loc else s.marks i;
  nmarks = s.nmarks + 1;
}

placed_marked : (loc : ℕ) (k : Kernel) (s : Marks) → notmarked (placed loc k s) loc ≡ false
placed_marked loc k s = let self : (loc == loc) ≡ true = ground arith in ground (arith, self)

word_kept :
    (s : Marks) (other : ℕ) (w : ℤ) (loc : ℕ) (k : Kernel)
    → marked_as s other w ≡ true
    → marked_as (placed loc k s) other w ≡ true
word_kept s other (pos w) loc k kept = ground arith
word_kept s other (negsuc w) loc k kept = absurd (ground arith)

placed_kept :
    (s : Marks) (loc other : ℕ) (k : Kernel)
    → notmarked s loc ≡ true
    → notmarked s other ≡ false
    → notmarked (placed loc k s) other ≡ false
placed_kept s loc other k fresh kept = elim (Bool-cases (loc == other)) [
  | inl same ↦
      let eq : loc ≡ other = ground (arith, same) in
      let own : notmarked s loc ≡ false = ap (notmarked s) eq ∙ kept in absurd (cc)
  | inr apart ↦
      let word = word_kept s other (s.memory other) loc k (ground (arith, kept)) in
      rw (apart, word) refl
]

mark_run :
    (s : Marks) (loc : ℕ) (r v : ℤ) (k k' : Kernel)
    → notmarked s loc ≡ true
    → s.nmarks < maxmark
    → wait s.mkmutex s.kernel ≡ some (r, k)
    → same_process s.kernel k ≡ true
    → signal s.mkmutex k ≡ some (v, k')
    → mark loc s ≡ some (marked ok (placed loc k' s))
unfolding mark mark_rest
mark_run s loc r v k k' fresh room enter same leave =
    ground (arith, fresh, room, enter, same, leave)

mark_again : (s : Marks) (loc : ℕ) → notmarked s loc ≡ false → mark loc s ≡ some (marked ok s)
unfolding mark
mark_again s loc kept = rw kept refl

-- Where the mutex is free and there is room, `mark` marks its location, takes one place of the table
-- and keeps every mark of another location; a second `mark` of the location then changes nothing.
pub mark-kept :
    (s : Marks) (loc other : ℕ) (r v : ℤ) (k k' : Kernel)
    → notmarked s loc ≡ true
    → notmarked s other ≡ false
    → s.nmarks < maxmark
    → wait s.mkmutex s.kernel ≡ some (r, k)
    → same_process s.kernel k ≡ true
    → signal s.mkmutex k ≡ some (v, k')
    → Runs (mark loc s) (
        Returned λ s'.
          (notmarked s' loc ≡ false)
          × (notmarked s' other ≡ false)
          × (s'.nmarks ≡ s.nmarks + 1)
          × (s'.kernel ≡ k')
          × (mark loc s' ≡ some (marked ok s')))
mark-kept s loc other r v k k' fresh kept room enter same leave =
    let own = placed_marked loc k' s in
    rw (mark_run s loc r v k k' fresh room enter same leave) (
      refl,
      (
        own,
        placed_kept s loc other k' fresh kept,
        refl,
        refl,
        mark_again (placed loc k' s) loc own,
      ),
    )
