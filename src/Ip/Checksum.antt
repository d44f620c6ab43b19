-- ===== src/Ip/Checksum.antt =====
-- The checksum of an IP header: `ipcksum` of Chapter17/ip.c, as `ip_out` stores it and `ip_in` tests it.
use os_design_xinu_approach.Prelude.{ℕ, ◌+◌, ◌<◌, ◌≡◌, ap, ◌∙◌, arith, ◌==◌, if◌then◌else◌}
use os_design_xinu_approach.Arp.{Byteorder}
use os_design_xinu_approach.Ip.{sum_words, fold_sum, ipcksum}

-- What <arpa/inet.h> documents of `htons`: its values have 16 bits, it keeps 0 and it undoes itself.
pub record Htons (order : Byteorder) : Type 0 where
  pub small : (w : ℕ) → order.htons w < 65536
  pub keeps_zero : order.htons 0 ≡ 0
  pub twice : (w : ℕ) → w < 65536 → order.htons (order.htons w) ≡ w

fold_sum-zero : (s : ℕ) → s < 655360 → fold_sum (s + fold_sum s) ≡ 0
fold_sum-zero s lt = ground (arith, lt)

-- The header with the word `c` as its checksum, the sixth word
abbrev pub with_cksum : ℕ → (ℕ → ℕ) → ℕ → ℕ
with_cksum c header i = if i == 5 then c else header i

-- The sum of the words that are not the checksum
abbrev others : Byteorder → (ℕ → ℕ) → ℕ
others order h =
    order.htons (h 0)
    + order.htons (h 1)
    + order.htons (h 2)
    + order.htons (h 3)
    + order.htons (h 4)
    + order.htons (h 6)
    + order.htons (h 7)
    + order.htons (h 8)
    + order.htons (h 9)

others-small : (order : Byteorder) (h : ℕ → ℕ) → Htons order → others order h < 589824
others-small order h o = omega (
  arith,
  o.small (h 0),
  o.small (h 1),
  o.small (h 2),
  o.small (h 3),
  o.small (h 4),
  o.small (h 6),
  o.small (h 7),
  o.small (h 8),
  o.small (h 9),
)

sum_words-eq :
    (order : Byteorder) (h : ℕ → ℕ) (c : ℕ)
    → Htons order
    → sum_words order 10 0 0 (with_cksum c h) ≡ others order h + order.htons c
unfolding sum_words
sum_words-eq order h c o = omega (
  arith,
  o.small (h 0),
  o.small (h 1),
  o.small (h 2),
  o.small (h 3),
  o.small (h 4),
  o.small (h 6),
  o.small (h 7),
  o.small (h 8),
  o.small (h 9),
  o.small c,
)

fold_sum-small : (s : ℕ) → fold_sum s < 65536
fold_sum-small s = ground arith

-- The checksum holds: the checksum of a header whose checksum field is 0, stored in network byte
-- order, gives a header for which `ipcksum` is 0.
pub ipcksum-verifies :
    (order : Byteorder) (header : ℕ → ℕ)
    → Htons order
    → ipcksum order (with_cksum (order.htons (ipcksum order (with_cksum 0 header))) header) ≡ 0
unfolding ipcksum
ipcksum-verifies order header h =
    let sum = others order header in
    let c = fold_sum (sum_words order 10 0 0 (with_cksum 0 header)) in
    let first : c ≡ fold_sum sum =
      ap fold_sum (sum_words-eq order header 0 h ∙ omega (arith, h.keeps_zero)) in
    let back : order.htons (order.htons c) ≡ fold_sum sum = h.twice c (fold_sum-small _) ∙ first in
    ap fold_sum (sum_words-eq order header (order.htons c) h ∙ ap (λ x. sum + x) back)
    ∙ fold_sum-zero sum (omega (arith, others-small order header h))
