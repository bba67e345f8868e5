-- ===== src/Tests/Processing.antt =====
-- IPsec processing, by groups and by the legacy path, the SA lookups, and the poll mode.
use ipsec_secgw_old.Prelude.{
  ℕ, ◌+◌, ◌≤◌, ◌≡◌, ◌⊎◌, refl, List, [], ◌∷◌, none, some, Bool, true, false, ◌==◌, arith, length,
  count_if,
}
use ipsec_secgw_old.Packet.{Mbuf}
use ipsec_secgw_old.Packet.Tally.{by_id, packets}
use ipsec_secgw_old.CryptoQueue.{ctx_dequeue}
use ipsec_secgw_old.CryptoQueue.Table.{AllRoom}
use ipsec_secgw_old.SaLookup.{inbound_sa_lookup}
use ipsec_secgw_old.Process.{State, ipsec_process, ipsec_cqp_process}
use ipsec_secgw_old.Process.Held.{held_by}
use ipsec_secgw_old.Process.Conserve.{ipsec_process-conserves, ipsec_cqp_process-conserves}
use ipsec_secgw_old.Legacy.{ipsec_enqueue, ipsec_inbound}
use ipsec_secgw_old.Legacy.Enqueue.{ctx_held}
use ipsec_secgw_old.Legacy.Inline.{ipsec_inbound-conserves}
use ipsec_secgw_old.Worker.Bulk.{check_sp_bulk}
use ipsec_secgw_old.Poll.{inbound_sp_sa, outbound_spd_lookup}
use ipsec_secgw_old.Poll.Policies.{Sifted, check_held, counted, inbound_sp_sa-admits}
use ipsec_secgw_old.Poll.Agree.{SamePlaces, outbound_spd_lookup-check_sp_bulk}
use ipsec_secgw_old.Poll.Handlers.{
  process_pkts_inbound, process_pkts_inbound_nosp, process_pkts_outbound,
  process_pkts_outbound_nosp,
}
use ipsec_secgw_old.Poll.Handlers.Conserve.{
  Ends, process_pkts_inbound-conserves, process_pkts_outbound-conserves,
}
use ipsec_secgw_old.Tests.Fixtures.{
  plain4, sa_table, sad5, empty_cache, protect_all, bypass_all, nothing_freed, two_at_a_time,
}
use ipsec_secgw_old.Tests.Engines.{
  all_succeed, no_fill, no_create, fresh_state, fresh_ctx, keep_all, no_stats, engine, with_plain,
}

abbrev is_first : ℕ → Bool
is_first i = i == 1

abbrev two_packets : List Mbuf
two_packets = plain4 1 ∷ plain4 2 ∷ []

ipsec_process-conserves_example :
    (r : State ℕ) × (ipsec_process two_at_a_time all_succeed no_fill fresh_state
        (1000 ∷ 0 ∷ [])
        two_packets
      ≡ some r)
    × AllRoom r.qs.tbl
    × (held_by is_first r ≡ held_by is_first fresh_state + count_if (by_id is_first) two_packets)
ipsec_process-conserves_example =
    ipsec_process-conserves two_at_a_time all_succeed is_first no_fill fresh_state (1000 ∷ 0 ∷ [])
      two_packets refl (omega arith, tt)

ipsec_cqp_process-conserves_example :
    let (cop, qs', w') = ctx_dequeue two_at_a_time fresh_state.qs fresh_state.w 64 in
    (r : State ℕ) × (ipsec_cqp_process two_at_a_time all_succeed fresh_state ≡ some r)
    × (held_by is_first r
        ≡ held_by is_first (record fresh_state { qs = qs'; w = w'; ip4 = []; ip6 = [] })
          + count_if (by_id is_first) cop)
ipsec_cqp_process-conserves_example =
    ipsec_cqp_process-conserves two_at_a_time all_succeed is_first fresh_state refl

ipsec_inbound-conserves_example :
    let sas = (inbound_sa_lookup sad5 empty_cache two_packets).0 in
    let (out, c', _) =
      ipsec_inbound two_at_a_time no_create keep_all keep_all sad5 empty_cache fresh_ctx two_packets
        32 in
    (length (ipsec_enqueue two_at_a_time no_create keep_all fresh_ctx two_packets sas).ol_pkts
      ≤ length two_packets)
    × (c'.ol_pkts ≡ [])
    × AllRoom c'.qs.tbl
    × (length out ≤ 32)
    × (ctx_held is_first c' + count_if (by_id is_first) out
        ≡ ctx_held is_first fresh_ctx + count_if (by_id is_first) two_packets)
ipsec_inbound-conserves_example =
    ipsec_inbound-conserves two_at_a_time no_create keep_all keep_all is_first sad5 empty_cache
      fresh_ctx two_packets 32 refl (omega arith, tt) (omega arith)

abbrev with_offsets : List (Mbuf × ℕ)
with_offsets = (plain4 1, 9) ∷ (plain4 2, 9) ∷ []

inbound_sp_sa-admits_example :
    let c' = inbound_sp_sa (some protect_all) sa_table with_offsets 1 nothing_freed no_stats in
    Sifted sa_table protect_all 1 with_offsets c'.ip
    × (check_held (by_id is_first) c'
        ≡ count_if (by_id is_first) nothing_freed.mbufs
          + count_if (by_id is_first) (packets with_offsets))
    × (counted c'.stats ≡ counted no_stats + length with_offsets)
    × (length c'.ip + no_stats.protect + no_stats.bypass ≡ c'.stats.protect + c'.stats.bypass)
inbound_sp_sa-admits_example =
    inbound_sp_sa-admits (by_id is_first) protect_all sa_table with_offsets 1 nothing_freed no_stats

outbound_spd_lookup-check_sp_bulk_example :
    let c = outbound_spd_lookup (some bypass_all) with_offsets [] nothing_freed no_stats in
    SamePlaces c (check_sp_bulk (some bypass_all) with_offsets [] nothing_freed)
    × ((some bypass_all ≡ none) ⊎ (counted c.stats ≡ counted no_stats + length with_offsets))
outbound_spd_lookup-check_sp_bulk_example =
    outbound_spd_lookup-check_sp_bulk (some bypass_all) with_offsets [] nothing_freed no_stats

process_pkts_inbound-conserves_example :
    Ends engine is_first (with_plain []) two_packets (
      process_pkts_inbound engine true
        (some bypass_all)
        none
        sa_table
        sad5
        empty_cache
        (with_plain [])
        two_packets)
    × Ends engine is_first
        (with_plain [])
        two_packets
        (process_pkts_inbound_nosp engine true sad5 empty_cache (with_plain []) two_packets)
process_pkts_inbound-conserves_example =
    process_pkts_inbound-conserves engine is_first true (some bypass_all) none sa_table sad5
      empty_cache (with_plain []) two_packets ((omega arith, tt), refl) (omega arith)

process_pkts_outbound-conserves_example :
    Ends engine is_first (with_plain with_offsets) [] (
      process_pkts_outbound engine false
        (some protect_all)
        none
        sa_table
        (with_plain with_offsets)
        [])
    × Ends engine is_first
        (with_plain with_offsets)
        []
        (process_pkts_outbound_nosp engine false 0 sa_table (with_plain with_offsets) [])
process_pkts_outbound-conserves_example =
    process_pkts_outbound-conserves engine is_first false (some protect_all) none sa_table 0
      (with_plain with_offsets) [] ((omega arith, tt), refl) (omega arith)
