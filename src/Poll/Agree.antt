-- ===== src/Poll/Agree.antt =====
-- The outbound policies of the poll mode agree with those of the event mode.
use ipsec_secgw_old.Prelude.{
  ℕ, ◌+◌, ◌-◌, ◌≤◌, ◌≡◌, ◌⊎◌, refl, ap, ◌∙◌, inl, inr, List, [], ◌∷◌, ◌++◌, Option, none, some,
  ◌==◌, arith, length, length-append, Bool-cases,
}
use ipsec_secgw_old.Packet.{Mbuf, Freed, free_pkts, u32}
use ipsec_secgw_old.Packet.Tally.{packets}
use ipsec_secgw_old.Worker.Policy.{Acl, discard, bypass}
use ipsec_secgw_old.Worker.Bulk.{Split, place, place_all, sp_verdict, check_sp_bulk}
use ipsec_secgw_old.Poll.{SpdStats, Checked, spd_place, spd_loop, outbound_spd_lookup}
use ipsec_secgw_old.Poll.Policies.{counted}

-- The same packets in the same places.
abbrev pub SamePlaces : Checked → Split → Type 0
SamePlaces c s = (packets c.ip ≡ s.ip) × (c.ipsec ≡ s.ipsec) × (c.freed ≡ s.freed)

packets-snoc :
    (xs : List (Mbuf × ℕ)) (m : Mbuf) (ofs : ℕ)
    → packets (xs ++ ((m, ofs) ∷ [])) ≡ packets xs ++ (m ∷ [])
packets-snoc [] m ofs = refl
packets-snoc (x ∷ xs) m ofs = ap (λ l. x.0 ∷ l) (packets-snoc xs m ofs)

spd_place-SamePlaces :
    (acl : Acl) (m : Mbuf) (ofs : ℕ) (c : Checked) (s : Split)
    → SamePlaces c s
    → let res = u32 (acl m ofs) in
      SamePlaces (spd_place res m ofs c) (place (sp_verdict acl m ofs) m s)
      × (counted (spd_place res m ofs c).stats ≡ counted c.stats + 1)
unfolding spd_place place sp_verdict free_pkts
spd_place-SamePlaces acl m ofs c s (a, b, f) =
    let res = u32 (acl m ofs) in
    elim (Bool-cases (res == discard)) [
      | inl d ↦ rw d ((a, b, rw f refl), omega arith)
      | inr d ↦ elim (Bool-cases (res == bypass)) [
        | inl e ↦ rw (d, e) ((packets-snoc c.ip m ofs ∙ rw a refl, b, f), omega arith)
        | inr e ↦ rw (d, e) ((a, rw b refl, f), omega arith)
      ]
    ]

spd_loop-SamePlaces :
    (acl : Acl) (ip : List (Mbuf × ℕ)) (c : Checked) (s : Split)
    → SamePlaces c s
    → SamePlaces (spd_loop acl ip c) (place_all (sp_verdict acl) ip s)
      × (counted (spd_loop acl ip c).stats ≡ counted c.stats + length ip)
unfolding spd_loop place_all
spd_loop-SamePlaces acl [] c s h = (h, omega arith)
spd_loop-SamePlaces acl ((m, ofs) ∷ rest) c s h =
    let (one, count) = spd_place-SamePlaces acl m ofs c s h in
    let (all, counts) =
      spd_loop-SamePlaces acl rest (spd_place (u32 (acl m ofs)) m ofs c)
        (place (sp_verdict acl m ofs) m s) one in
    (all, omega (arith, counts, count))

-- outbound_spd_lookup of the poll mode and check_sp_bulk of the event mode put the same packets in
-- the same places, in the same order, with a policy database and without one; with one, the
-- statistics of the poll mode count every packet once.
pub outbound_spd_lookup-check_sp_bulk :
    (sp : Option Acl) (ip ipsec : List (Mbuf × ℕ)) (freed : Freed) (stats : SpdStats)
    → let c = outbound_spd_lookup sp ip ipsec freed stats in
      SamePlaces c (check_sp_bulk sp ip ipsec freed)
      × ((sp ≡ none) ⊎ (counted c.stats ≡ counted stats + length ip))
unfolding outbound_spd_lookup check_sp_bulk
outbound_spd_lookup-check_sp_bulk none ip ipsec freed stats = ((refl, refl, refl), inl refl)
outbound_spd_lookup-check_sp_bulk (some acl) ip ipsec freed stats =
    let start : Checked = record { ip = []; ipsec = ipsec; freed = freed; stats = stats } in
    let (same, count) =
      spd_loop-SamePlaces acl ip start (record { ip = []; ipsec = ipsec; freed = freed })
        (refl, refl, refl) in
    (same, inr count)

spd_place-le :
    (res : ℕ) (m : Mbuf) (ofs : ℕ) (c : Checked)
    → length (spd_place res m ofs c).ipsec ≤ length c.ipsec + 1
unfolding spd_place
spd_place-le res m ofs c = ground (arith, length-append c.ipsec ((m, res - 1) ∷ []))

spd_loop-le :
    (acl : Acl) (ip : List (Mbuf × ℕ)) (c : Checked)
    → length (spd_loop acl ip c).ipsec ≤ length ip + length c.ipsec
unfolding spd_loop
spd_loop-le acl [] c = omega arith
spd_loop-le acl ((m, ofs) ∷ rest) c =
    let res = u32 (acl m ofs) in
    omega (arith, spd_loop-le acl rest (spd_place res m ofs c), spd_place-le res m ofs c)

-- The policies send at most the packets of the burst to IPsec.
pub outbound_spd_lookup-le :
    (sp : Option Acl) (ip ipsec : List (Mbuf × ℕ)) (freed : Freed) (stats : SpdStats)
    → length (outbound_spd_lookup sp ip ipsec freed stats).ipsec ≤ length ip + length ipsec
unfolding outbound_spd_lookup
outbound_spd_lookup-le none ip ipsec freed stats = omega arith
outbound_spd_lookup-le (some acl) ip ipsec freed stats =
    spd_loop-le acl ip (record { ip = []; ipsec = ipsec; freed = freed; stats = stats })
