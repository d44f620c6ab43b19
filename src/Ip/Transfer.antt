-- ===== src/Ip/Transfer.antt =====
-- From one computer to another: what `ip_out` sends and what `ip_in` makes of it (Chapter17/ip.c).
use os_design_xinu_approach.Prelude.{
  ℕ, zero, suc, ◌+◌, ◌*◌, ◌/◌, ◌%◌, ◌<◌, ◌≡◌, refl, ap, ◌∙◌, fun_ext, ◌≢◌, true, arith, ◌==◌,
  if◌then◌else◌,
}
use os_design_xinu_approach.Arp.{Byteorder}
use os_design_xinu_approach.Ip.{ipcksum}
use os_design_xinu_approach.Ip.Checksum.{Htons, with_cksum, ipcksum-verifies}
use os_design_xinu_approach.Ip.Stack.{
  ip_udp, ip_vh, Frame, long_at, net_ipvh, net_ipproto, net_ipdst, converted, ip_ntoh, ip_hton,
  set_cksum, sealed, Ipstate, Stack, set_packet, ip_local, accept_in, ip_in,
}

-- What <arpa/inet.h> documents besides: `ntohs` and `ntohl` undo `htons` and `htonl`.
pub record Inverse (order : Byteorder) : Type 0 where
  pub shorts : Htons order
  pub short_back : (w : ℕ) → w < 65536 → order.ntohs (order.htons w) ≡ w
  pub long_small : (w : ℕ) → order.htonl w < 4294967296
  pub long_back : (w : ℕ) → w < 4294967296 → order.ntohl (order.htonl w) ≡ w

twice :
    (c : ℕ) (h : ℕ → ℕ) (i : ℕ)
    → (if i == 5 then c else if i == 5 then 0 else h i) ≡ with_cksum c h i
twice c h i = ground arith

halves : (v : ℕ) → v % 65536 + 65536 * (v / 65536) ≡ v
halves v = omega arith

low_half : (a b : ℕ) → a < 65536 → (a + 65536 * b) % 65536 ≡ a
low_half a b lt = omega (arith, lt)

high_half : (a b : ℕ) → a < 65536 → (a + 65536 * b) / 65536 ≡ b
high_half a b lt = omega (arith, lt)

module _ (order : Byteorder) (o : Inverse order) (f : Frame)
    (small : (i : ℕ) → f.words i < 65536) where
  -- The header that goes out passes the test of its checksum.
  sealed-verifies : ipcksum order (sealed order f).words ≡ 0
  unfolding sealed
  sealed-verifies =
      let blank = set_cksum 0 (ip_hton order f) in
      let cut : order.htons (ipcksum order blank.words) % 65536
          ≡ order.htons (ipcksum order blank.words) =
        omega (arith, o.shorts.small (ipcksum order blank.words)) in
      let same : (set_cksum (order.htons (ipcksum order blank.words)) blank).words
          ≡ with_cksum (order.htons (ipcksum order blank.words)) (ip_hton order f).words =
        fun_ext (twice (order.htons (ipcksum order blank.words)) (ip_hton order f).words) in
      rw cut (ap (ipcksum order) same ∙ ipcksum-verifies order (ip_hton order f).words o.shorts)

  long_back-at :
      (i : ℕ)
      → (let v = order.htonl (long_at i f) in order.ntohl (v % 65536 + 65536 * (v / 65536)))
        ≡ long_at i f
  long_back-at i =
      ap order.ntohl (halves (order.htonl (long_at i f)))
      ∙ o.long_back (long_at i f) (omega (arith, small i, small (i + 1)))

  -- Every word but the checksum comes back.
  sealed-back : (i : ℕ) → i < 10 → i ≢ 5 → (ip_ntoh order (sealed order f)).words i ≡ f.words i
  unfolding sealed ip_ntoh ip_hton
  sealed-back zero lt ne = refl
  sealed-back (suc zero) lt ne = o.short_back (f.words 1) (small 1)
  sealed-back (suc (suc zero)) lt ne = o.short_back (f.words 2) (small 2)
  sealed-back (suc (suc (suc zero))) lt ne = o.short_back (f.words 3) (small 3)
  sealed-back (suc (suc (suc (suc zero)))) lt ne = refl
  sealed-back (suc (suc (suc (suc (suc zero))))) lt ne = absurd (ne refl)
  sealed-back (suc (suc (suc (suc (suc (suc zero)))))) lt ne =
      ap (λ v. v % 65536) (long_back-at 6) ∙ low_half (f.words 6) (f.words 7) (small 6)
  sealed-back (suc (suc (suc (suc (suc (suc (suc zero))))))) lt ne =
      ap (λ v. v / 65536) (long_back-at 6) ∙ high_half (f.words 6) (f.words 7) (small 6)
  sealed-back (suc (suc (suc (suc (suc (suc (suc (suc zero)))))))) lt ne =
      ap (λ v. v % 65536) (long_back-at 8) ∙ low_half (f.words 8) (f.words 9) (small 8)
  sealed-back (suc (suc (suc (suc (suc (suc (suc (suc (suc zero))))))))) lt ne =
      ap (λ v. v / 65536) (long_back-at 8) ∙ high_half (f.words 8) (f.words 9) (small 8)
  sealed-back (suc (suc (suc (suc (suc (suc (suc (suc (suc (suc i)))))))))) lt ne =
      absurd (omega (arith, lt))

module _ {W : Type 0} (order : Byteorder) (stack : Stack W) where
  accept-own :
      (buf : ℕ) (s : Ipstate W)
      → s.netdata.ip_valid ≡ true
      → net_ipdst (s.packets buf) ≡ s.netdata.ip_ucast
      → net_ipproto (s.packets buf) ≡ ip_udp
      → accept_in order stack buf s ≡ stack.to_udp buf s
  unfolding accept_in ip_local
  accept-own buf s valid own udp = ground (arith, valid, own, udp)

  ip_in-udp :
      (buf : ℕ) (s : Ipstate W)
      → ipcksum order (s.packets buf).words ≡ 0
      → net_ipvh (ip_ntoh order (s.packets buf)) ≡ ip_vh
      → net_ipproto (ip_ntoh order (s.packets buf)) ≡ ip_udp
      → ip_in order stack buf s
        ≡ accept_in order stack buf
            (set_packet buf (stack.udp_to_host (ip_ntoh order (s.packets buf))) s)
  unfolding ip_in
  ip_in-udp buf s cksum version udp = rw (cksum, version, udp) refl

  -- What one computer sends, another takes: when a packet arrives whose header is what `ip_out` made of
  -- the header `f`, for a UDP packet to the receiver's own address, `ip_in` accepts it and hands it to
  -- `udp_in` with every word of the header as the sender had it, except the checksum. The
  -- receiver has a valid address, and the conversion of the UDP header leaves the IP header alone.
  pub ip_in-sealed :
      (f : Frame) (buf : ℕ) (s : Ipstate W)
      → Inverse order
      → ((i : ℕ) → f.words i < 65536)
      → (s.packets buf).words ≡ (sealed order f).words
      → net_ipvh f ≡ ip_vh
      → net_ipproto f ≡ ip_udp
      → net_ipdst f ≡ s.netdata.ip_ucast
      → s.netdata.ip_valid ≡ true
      → ((g : Frame) → (stack.udp_to_host g).words ≡ g.words)
      → let h = stack.udp_to_host (ip_ntoh order (s.packets buf)) in
        (ip_in order stack buf s ≡ stack.to_udp buf (set_packet buf h s))
        × ((i : ℕ) → i < 10 → i ≢ 5 → h.words i ≡ f.words i)
  unfolding ip_ntoh
  ip_in-sealed f buf s o small same version udp own valid keeps =
      let p = s.packets buf in
      let h = stack.udp_to_host (ip_ntoh order p) in
      let start : (ip_ntoh order p).words ≡ (ip_ntoh order (sealed order f)).words =
        ap (λ w. converted order.ntohs order.ntohl (record f { words = w })) same in
      let back : (i : ℕ) → i < 10 → i ≢ 5 → (ip_ntoh order p).words i ≡ f.words i =
        λ i lt ne. ap (λ w. w i) start ∙ sealed-back order o f small i lt ne in
      let kept : (i : ℕ) → i < 10 → i ≢ 5 → h.words i ≡ f.words i =
        λ i lt ne. ap (λ w. w i) (keeps (ip_ntoh order p)) ∙ back i lt ne in
      let first = back 0 (omega arith) (λ e. omega arith) in
      let fourth = back 4 (omega arith) (λ e. omega arith) in
      let kept4 = kept 4 (omega arith) (λ e. omega arith) in
      let kept8 = kept 8 (omega arith) (λ e. omega arith) in
      let kept9 = kept 9 (omega arith) (λ e. omega arith) in
      let cksum = ap (ipcksum order) same ∙ sealed-verifies order o f small in
      let run =
        ip_in-udp buf s cksum (ap (λ w. w % 256) first ∙ version)
          (ap (λ w. w / 256) fourth ∙ udp) in
      let here : (buf == buf) ≡ true = ground arith in
      (
        run
            ∙ accept-own buf (set_packet buf h s) valid (rw (here, kept8, kept9) own)
                (rw (here, kept4) udp),
        kept,
      )
