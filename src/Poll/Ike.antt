-- ===== src/Poll/Ike.antt =====
-- Packets of IKE go to the kernel: filter_ike_packets of ipsec-secgw.c.
use ipsec_secgw_old.Prelude.{
  ℕ, ◌+◌, ◌⊎◌, ◌*◌, ◌/◌, ◌%◌, ◌≡◌, refl, sym, subst, ◌∙◌, append-nil, append_assoc, Bool, true,
  false, ◌||◌, not, ◌==◌, if◌then◌else◌, Bool-cases, inl, inr, List, [], ◌∷◌, ◌++◌, length,
  length-append, count_if, count_if-append, arith,
}
use ipsec_secgw_old.Packet.{Mbuf, be16_at}

-- kni_stats[0] and the packets that left: to the kernel, and to the pool.
pub record Kni : Type 0 where
  pub sent : List Mbuf
  pub freed : List Mbuf
  pub rx_packets : ℕ
  pub rx_dropped : ℕ

-- The packets that stay, pkts_new, and the others.
pub record Filtered : Type 0 where
  pub pkts_new : List Mbuf
  pub kni : Kni

-- The Ethernet header is 14 octets. The packet is one of UDP over IPv4, to or from port 500 or 4500.
unfoldable pub is_ike : Mbuf → Bool
is_ike m =
    if not (be16_at m 12 == 0x0800)
    then false
    else if not (m.bytes 14 / 16 == 4) || not (m.bytes 23 == 17)
    then false
    else let udp = 14 + m.bytes 14 % 16 * 4 in
      let sport = be16_at m udp in
      let dport = be16_at m (udp + 2) in
      (sport == 500) || (dport == 500) || (sport == 4500) || (dport == 4500)

-- rte_kni_tx_burst for one packet: `takes n` says whether the kernel takes the one that comes after
-- `n` others that were offered.
unfoldable pub to_kernel : (ℕ → Bool) → Mbuf → Kni → Kni
to_kernel takes m k =
    if takes (length k.sent + length k.freed)
    then record k { sent = k.sent ++ m ∷ []; rx_packets = k.rx_packets + 1 }
    else record k { freed = k.freed ++ m ∷ []; rx_dropped = k.rx_dropped + 1 }

-- The body of the loop.
unfoldable pub filter_one : (ℕ → Bool) → Mbuf → Filtered → Filtered
unfolding is_ike to_kernel
filter_one takes m f =
    if is_ike m
    then record f { kni = to_kernel takes m f.kni }
    else record f { pkts_new = f.pkts_new ++ m ∷ [] }

unfoldable pub filter_loop : (ℕ → Bool) → List Mbuf → Filtered → Filtered
unfolding filter_one
filter_loop takes [] f = f
filter_loop takes (m ∷ ms) f = filter_loop takes ms (filter_one takes m f)

-- pkts_new is written from its first place on.
unfoldable pub filter_ike_packets : (ℕ → Bool) → List Mbuf → Kni → Filtered
unfolding filter_loop
filter_ike_packets takes ms k = filter_loop takes ms (record { pkts_new = []; kni = k })

-- A port of IKE, or of IKE in NAT traversal.
abbrev pub IsIkePort : ℕ → Type 0
IsIkePort port = (port ≡ 500) ⊎ (port ≡ 4500)

-- An Ethernet frame of type IPv4 whose header says version 4 and UDP, from or to a port of IKE. The
-- length of the header of IPv4 is given in words of 4 octets.
pub record IsIke (m : Mbuf) : Type 0 where
  pub ether_type : m.bytes 12 * 256 + m.bytes 13 ≡ 2048
  pub version : m.bytes 14 / 16 ≡ 4
  pub protocol : m.bytes (14 + 9) ≡ 17
  pub port :
      let udp = 14 + 4 * (m.bytes 14 % 16) in
      IsIkePort (m.bytes udp * 256 + m.bytes (udp + 1))
      ⊎ IsIkePort (m.bytes (udp + 2) * 256 + m.bytes (udp + 3))

-- What was sent to the kernel and what was freed, with the counts of both.
abbrev pub left : (Mbuf → Bool) → Kni → ℕ
left p k = count_if p k.sent + count_if p k.freed

to_kernel-left :
    (takes : ℕ → Bool) (p : Mbuf → Bool) (m : Mbuf) (k : Kni)
    → left p (to_kernel takes m k) ≡ left p k + (if p m then 1 else 0)
unfolding to_kernel
to_kernel-left takes p m k = elim (Bool-cases (takes (length k.sent + length k.freed))) [
  | inl e ↦ rw (e) (omega (arith, count_if-append p k.sent (m ∷ [])))
  | inr e ↦ rw (e) (omega (arith, count_if-append p k.freed (m ∷ [])))
]

-- The counters are those of the packets that left.
pub record IsCounted (k : Kni) : Type 0 where
  pub packets : k.rx_packets ≡ length k.sent
  pub dropped : k.rx_dropped ≡ length k.freed

to_kernel-IsCounted :
    (takes : ℕ → Bool) (m : Mbuf) (k : Kni) → IsCounted k → IsCounted (to_kernel takes m k)
unfolding to_kernel
to_kernel-IsCounted takes m k counted = elim (Bool-cases (takes (length k.sent + length k.freed))) [
  | inl e ↦ rw (e) (record {
    packets = omega (arith, length-append k.sent (m ∷ []), counted.packets);
    dropped = counted.dropped;
  })
  | inr e ↦ rw (e) (record {
    packets = counted.packets;
    dropped = omega (arith, length-append k.freed (m ∷ []), counted.dropped);
  })
]

data Judged (m : Mbuf) : Bool → Type 0 where
  of_ike : {b : Bool} → b ≡ true → IsIke m → Judged m b
  of_others : {b : Bool} → b ≡ false → (IsIke m → ⊥) → Judged m b

is_ike-Judged : (m : Mbuf) → Judged m (is_ike m)
unfolding is_ike
is_ike-Judged m = elim (Bool-cases (is_ike m)) [
  | inl e ↦ of_ike e (record {
    ether_type = ground arith;
    version = ground arith;
    protocol = ground arith;
    port = ground arith;
  })
  | inr e ↦ of_others e (λ h. ground (arith, h.port, h.protocol, h.version, h.ether_type))
]

-- The packets that are none of IKE, and those of IKE, each in their order.
pub data Parts : List Mbuf → List Mbuf → List Mbuf → Type 0 where
  ended : Parts [] [] []
  leaves :
      {m : Mbuf} {ms others ike : List Mbuf}
      → IsIke m
      → Parts ms others ike
      → Parts (m ∷ ms) others (m ∷ ike)
  stays :
      {m : Mbuf} {ms others ike : List Mbuf}
      → (IsIke m → ⊥)
      → Parts ms others ike
      → Parts (m ∷ ms) (m ∷ others) ike

-- What the loop leaves, from `f`.
pub record IsFiltered (ms : List Mbuf) (f f' : Filtered) : Type 0 where
  pub others : List Mbuf
  pub ike : List Mbuf
  pub parts : Parts ms others ike
  pub stay : f'.pkts_new ≡ f.pkts_new ++ others
  pub leave : (p : Mbuf → Bool) → left p f'.kni ≡ left p f.kni + count_if p ike
  pub counted : IsCounted f'.kni

next-IsFiltered :
    (takes : ℕ → Bool) (m : Mbuf) (ms : List Mbuf) (f : Filtered)
    → IsCounted f.kni
    → ((g : Filtered) → IsCounted g.kni → IsFiltered ms g (filter_loop takes ms g))
    → IsFiltered (m ∷ ms) f (filter_loop takes (m ∷ ms) f)
unfolding filter_loop filter_one
next-IsFiltered takes m ms f counted rest = judged (is_ike m) refl (is_ike-Judged m)
  where
    judged :
        (b : Bool)
        → is_ike m ≡ b
        → Judged m b
        → IsFiltered (m ∷ ms) f (filter_loop takes (m ∷ ms) f)
    judged b e (of_ike yes_ike ike) =
        let one : is_ike m ≡ true = e ∙ yes_ike in
        let r =
          rest (record f { kni = to_kernel takes m f.kni })
            (to_kernel-IsCounted takes m f.kni counted) in
        rw (one, filter_loop, filter_one)
          (record {
            others = r.others;
            ike = m ∷ r.ike;
            parts = leaves ike r.parts;
            stay = r.stay;
            leave = λ p. omega (arith, r.leave p, to_kernel-left takes p m f.kni);
            counted = r.counted;
          })
    judged b e (of_others no_ike other) =
        let one : is_ike m ≡ false = e ∙ no_ike in
        let r = rest (record f { pkts_new = f.pkts_new ++ m ∷ [] }) counted in
        rw (one, filter_loop, filter_one)
          (record {
            others = m ∷ r.others;
            ike = r.ike;
            parts = stays other r.parts;
            stay = r.stay ∙ append_assoc f.pkts_new (m ∷ []) r.others;
            leave = r.leave;
            counted = r.counted;
          })

filter_loop-IsFiltered :
    (takes : ℕ → Bool) (ms : List Mbuf) (f : Filtered)
    → IsCounted f.kni
    → IsFiltered ms f (filter_loop takes ms f)
unfolding filter_loop
filter_loop-IsFiltered takes [] f counted = record {
  others = [];
  ike = [];
  parts = ended;
  stay = sym (append-nil f.pkts_new);
  leave = λ p. omega arith;
  counted = counted;
}
filter_loop-IsFiltered takes (m ∷ ms) f counted =
    next-IsFiltered takes m ms f counted (filter_loop-IsFiltered takes ms)

-- Where the counters are right: pkts_new has the packets that are none of IKE, in their order; each
-- packet of IKE is sent to the kernel or freed, once; and the counters are right again. A packet is
-- one of IKE where its Ethernet type is IPv4, its header has version 4 and protocol UDP, and a port,
-- behind a header of the length given there, is 500 or 4500.
pub filter_ike_packets-Parts :
    (takes : ℕ → Bool) (ms : List Mbuf) (k : Kni)
    → IsCounted k
    → let f = filter_ike_packets takes ms k in
      (ike : List Mbuf) × Parts ms f.pkts_new ike
      × ((p : Mbuf → Bool) → left p f.kni ≡ left p k + count_if p ike)
      × IsCounted f.kni
unfolding filter_ike_packets
filter_ike_packets-Parts takes ms k counted =
    let f = filter_loop-IsFiltered takes ms (record { pkts_new = []; kni = k }) counted in
    (f.ike, subst (λ o. Parts ms o f.ike) (sym f.stay) f.parts, f.leave, f.counted)
