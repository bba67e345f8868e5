-- ===== src/Tests/Bursts.antt =====
-- Bursts and event vectors.
use ipsec_secgw_old.Prelude.{
  ◌++◌, ℕ, ◌≡◌, ◌↔◌, refl, some, true, arith, List, [], ◌∷◌, Bool, ◌==◌, inr,
}
use ipsec_secgw_old.Packet.{Mbuf}
use ipsec_secgw_old.Worker.Event.{inbound_admits}
use ipsec_secgw_old.Worker.Bulk.{keep, check_sp_bulk, sp_sa_verdict}
use ipsec_secgw_old.Worker.Bulk.Agree.{
  checked, is_bypass, protected_by, is_refused, check_sp_bulk-check_sp,
}
use ipsec_secgw_old.Worker.Bulk.Inbound.{sp_sa_verdict-inbound_admits}
use ipsec_secgw_old.Worker.Vector.{
  EventVector, DrvModeData, process_ipsec_ev_inbound_vector, process_ipsec_ev_outbound_vector,
  process_ipsec_ev_drv_mode_outbound_vector,
}
use ipsec_secgw_old.Worker.Vector.Routes.{vec_tally}
use ipsec_secgw_old.Worker.Vector.Handlers.{vector-conserves}
use ipsec_secgw_old.Tests.Fixtures.{
  plain4, decrypted4, protect_all, with_policy, ports, routes, nothing_freed, sa_table,
}

abbrev is_first : Mbuf → Bool
is_first m = m.id == 1

abbrev burst_of_two : List (Mbuf × ℕ)
burst_of_two = (plain4 1, 23) ∷ (plain4 2, 23) ∷ []

-- A packet for IPsec from before.
abbrev one_before : List (Mbuf × ℕ)
one_before = (plain4 9, 3) ∷ []

check_sp_bulk-check_sp_example :
    let s = check_sp_bulk (some protect_all) burst_of_two one_before nothing_freed in
    (s.ip ≡ checked is_bypass (some protect_all) burst_of_two)
    × (s.ipsec ≡ one_before ++ protected_by (some protect_all) burst_of_two)
    × (s.freed.mbufs ≡ checked is_refused (some protect_all) burst_of_two)
check_sp_bulk-check_sp_example =
    check_sp_bulk-check_sp protect_all burst_of_two one_before nothing_freed

sp_sa_verdict-inbound_admits_example :
    (sp_sa_verdict sa_table protect_all (decrypted4 1) 23 ≡ keep)
    ↔ (inbound_admits (with_policy protect_all) (decrypted4 1) ≡ true)
sp_sa_verdict-inbound_admits_example =
    sp_sa_verdict-inbound_admits (with_policy protect_all) protect_all (decrypted4 1) refl refl refl
      refl refl (inr (inr (omega arith, omega arith)))

abbrev two_packets : EventVector
two_packets = record { attr_valid = 1; port = 0; queue = 0; mbufs = plain4 1 ∷ decrypted4 2 ∷ [] }

abbrev sessions : ℕ → DrvModeData
sessions = λ p. record { sess = some 9; ctx = 0 }

abbrev has_id_2 : ℕ → Bool
has_id_2 i = i == 2

vector-conserves_example :
    (vec_tally has_id_2 (
        process_ipsec_ev_inbound_vector ports
          (with_policy protect_all)
          routes
          two_packets
          nothing_freed)
      ≡ 1)
    × (vec_tally has_id_2 (
          process_ipsec_ev_outbound_vector ports
            (with_policy protect_all)
            routes
            two_packets
            nothing_freed)
        ≡ 1)
    × (vec_tally has_id_2
          (process_ipsec_ev_drv_mode_outbound_vector sessions two_packets nothing_freed)
        ≡ 1)
vector-conserves_example =
    vector-conserves has_id_2 ports (with_policy protect_all) routes sessions two_packets
      nothing_freed
