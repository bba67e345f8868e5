-- ===== src/Process/Held.antt =====
-- The packets that a context holds, and what queueing and handing on do to them.
use ipsec_secgw_old.Prelude.{
  ℕ, ◌+◌, ◌≡◌, refl, ap, List, [], ◌∷◌, ◌++◌, Option, some, Bool, ◌==◌, arith, length, get_elem?,
  set, count_if, count_if-append, count_if-empty, Bool-cases, Option-cases, inl, inr,
}
use ipsec_secgw_old.Packet.{Mbuf}
use ipsec_secgw_old.Packet.Tally.{by_id, packets, count_if-packets}
use ipsec_secgw_old.CryptoQueue.{Pmd}
use ipsec_secgw_old.CryptoQueue.Bulk.{enqueue_cop_bulk-conserves}
use ipsec_secgw_old.CryptoQueue.Table.{waiting, AllRoom, AllRoom-get, AllRoom-set, waiting-set}
use ipsec_secgw_old.IpsecLib.{SaType, RteIpsec}
use ipsec_secgw_old.Process.{State, to_ip4, copy_to_trf, enqueue_prepared, with_ofs}

-- The packets that the context holds: accepted by the device, waiting, freed, or handed on as IPv4
-- or IPv6 traffic.
abbrev pub held_by : {D : Type 0} → (ℕ → Bool) → State D → ℕ
held_by q s =
    count_if (by_id q) s.w.accepted
    + waiting (by_id q) s.qs.tbl
    + count_if (by_id q) s.w.freed.mbufs
    + count_if (by_id q) (packets s.ip4)
    + count_if (by_id q) (packets s.ip6)

packets-with_ofs : (ofs : ℕ) (ms : List Mbuf) → packets (with_ofs ofs ms) ≡ ms
packets-with_ofs ofs [] = refl
packets-with_ofs ofs (m ∷ ms) = ap (λ l. m ∷ l) (packets-with_ofs ofs ms)

module _ {D : Type 0} (pmd : Pmd D) (lib : RteIpsec) (q : ℕ → Bool) where
  -- A step on the packets `ms` ends in a state, with packets that are left over; none is lost.
  abbrev pub Steps : State D → List Mbuf → Option (State D × List Mbuf) → Type 0
  Steps s ms o =
      (r : State D × List Mbuf) × (o ≡ some r)
      × AllRoom r.0.qs.tbl
      × (held_by q r.0 + count_if (by_id q) r.1 ≡ held_by q s + count_if (by_id q) ms)

  pub copy_to_trf-held_by :
      (s : State D) (satp : SaType) (ms : List Mbuf)
      → held_by q (copy_to_trf pmd lib s satp ms) ≡ held_by q s + count_if (by_id q) ms
  unfolding copy_to_trf
  copy_to_trf-held_by s satp ms = elim (Bool-cases (to_ip4 satp)) [
    | inl e ↦ rw e (
        omega (
          arith,
          count_if-packets (by_id q) s.ip4 (with_ofs 9 ms),
          ap (count_if (by_id q)) (packets-with_ofs 9 ms),
        ))
    | inr e ↦ rw e (
        omega (
          arith,
          count_if-packets (by_id q) s.ip6 (with_ofs 6 ms),
          ap (count_if (by_id q)) (packets-with_ofs 6 ms),
        ))
  ]

  pub copy_to_trf-tbl :
      (s : State D) (satp : SaType) (ms : List Mbuf) → (copy_to_trf pmd lib s satp ms).qs ≡ s.qs
  unfolding copy_to_trf
  copy_to_trf-tbl s satp ms = ground arith

  pub enqueue_prepared-Steps :
      (s : State D) (i : ℕ) (good bad : List Mbuf)
      → AllRoom s.qs.tbl
      → Steps s (good ++ bad) (enqueue_prepared pmd lib s i (good, bad))
  unfolding enqueue_prepared
  enqueue_prepared-Steps s i good bad h = elim (Option-cases (get_elem? s.qs.tbl i)) [
    | inl e ↦ rw (e, enqueue_prepared) ((s, good ++ bad), refl, h, refl)
    | inr (cqp, e) ↦
        let split = count_if-append (by_id q) good bad in
        elim (Bool-cases (length good == 0)) [
          | inl z ↦
              rw (e, z, enqueue_prepared)
                ((s, bad), refl, h, grind (arith, split, count_if-empty (by_id q) good))
          | inr z ↦
              let ((cqp', w'), done, room, kept) =
                enqueue_cop_bulk-conserves pmd (by_id q) cqp s.w good
                  (AllRoom-get s.qs.tbl i cqp h e) in
              rw (e, z, done, enqueue_prepared)
                (
                  (record s { qs = record s.qs { tbl = set s.qs.tbl i cqp' }; w = w' }, bad),
                  refl,
                  AllRoom-set s.qs.tbl i cqp' h room,
                  omega (arith, kept, split, waiting-set (by_id q) s.qs.tbl i cqp cqp' e),
                )
        ]
  ]
