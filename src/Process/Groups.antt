-- ===== src/Process/Groups.antt =====
-- The groups of sa_group, cut out of the array of packets, hold every packet once.
use ipsec_secgw_old.Prelude.{
  ℕ, zero, suc, ◌+◌, ◌-◌, ◌≡◌, refl, ap, ◌∙◌, sym, List, [], ◌∷◌, Bool, arith, length,
  length-append, length-drop, count_if, count_if-take-drop, count_if-empty, take, drop,
}
use ipsec_secgw_old.Packet.{Mbuf}
use ipsec_secgw_old.SaGroup.{Group, sa_group}
use ipsec_secgw_old.SaGroup.Runs.{replicate, pointers, Covers, sa_group-runs}

-- The packets of the groups that pass the test.
abbrev pub in_groups : (Mbuf → Bool) → List Mbuf → List Group → ℕ
in_groups p pkts [] = 0
in_groups p pkts (g ∷ gs) = count_if p (take g.cnt (drop g.m pkts)) + in_groups p pkts gs

length-replicate : (n a : ℕ) → length (replicate n a) ≡ n
length-replicate zero a = refl
length-replicate (suc n) a = ap suc (length-replicate n a)

drop-nil : (n : ℕ) → drop {A = Mbuf} n [] ≡ []
drop-nil zero = refl
drop-nil (suc n) = refl

drop-add : (i n : ℕ) (xs : List Mbuf) → drop n (drop i xs) ≡ drop (i + n) xs
drop-add zero n xs = let e : n ≡ 0 + n = omega arith in ap (λ k. drop k xs) e
drop-add (suc i) n [] = drop-nil n ∙ sym (drop-nil (suc i + n))
drop-add (suc i) n (x ∷ xs) =
    let e : suc (i + n) ≡ suc i + n = omega arith in drop-add i n xs ∙ ap (λ k. drop k (x ∷ xs)) e

Covers-in_groups :
    (p : Mbuf → Bool) (pkts : List Mbuf) (i : ℕ) (gs : List Group)
    → Covers i gs
    → length (pointers gs) ≡ length pkts - i
    → in_groups p pkts gs ≡ count_if p (drop i pkts)
Covers-in_groups p pkts i [] h e =
    sym (count_if-empty p (drop i pkts) (omega (arith, length-drop i pkts)))
Covers-in_groups p pkts i (g ∷ gs) (at, some_cnt, rest) e =
    let ih = Covers-in_groups p pkts (i + g.cnt) gs rest (
      omega
        (arith, length-append (replicate g.cnt g.id) (pointers gs), length-replicate g.cnt g.id)) in
    rw at (
      omega (
        arith,
        ih,
        ap (count_if p) (drop-add i g.cnt pkts),
        count_if-take-drop p g.cnt (drop i pkts),
      ))

pub sa_group-in_groups :
    (p : Mbuf → Bool) (pkts : List Mbuf) (saptr : List ℕ)
    → length saptr ≡ length pkts
    → in_groups p pkts (sa_group saptr) ≡ count_if p pkts
sa_group-in_groups p pkts saptr e =
    let (ptrs, covers, _) = sa_group-runs saptr in
    Covers-in_groups p pkts 0 (sa_group saptr) covers (omega (arith, ap length ptrs))
