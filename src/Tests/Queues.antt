-- ===== src/Tests/Queues.antt =====
-- The crypto device queues and the groups of a burst.
use ipsec_secgw_old.Prelude.{
  ℕ, ◌+◌, ◌≤◌, ◌<◌, ◌≡◌, refl, List, [], ◌∷◌, some, Bool, ◌==◌, length, map, arith, count_if,
}
use ipsec_secgw_old.Packet.{Mbuf, max_pkt_burst}
use ipsec_secgw_old.CryptoQueue.{Cqp, Queues, World, enqueue_cop_bulk, ctx_dequeue}
use ipsec_secgw_old.CryptoQueue.Bulk.{tally, enqueue_cop_bulk-conserves}
use ipsec_secgw_old.CryptoQueue.Dequeue.{fixed, ctx_dequeue-last_qp-le}
use ipsec_secgw_old.SaGroup.{sa_group}
use ipsec_secgw_old.SaGroup.Runs.{pointers, Covers, Neighbours, sa_group-runs}
use ipsec_secgw_old.Tests.Fixtures.{plain4, two_at_a_time, idle_queue, fresh_device}

abbrev is_first : Mbuf → Bool
is_first m = m.id == 1

abbrev three_ops : List Mbuf
three_ops = plain4 1 ∷ plain4 2 ∷ plain4 3 ∷ []

enqueue_cop_bulk-conserves_example :
    (r : Cqp × World ℕ) × (enqueue_cop_bulk two_at_a_time idle_queue fresh_device three_ops
      ≡ some r)
    × (length r.0.buf < max_pkt_burst)
    × (tally is_first r.0 r.1
        ≡ tally is_first idle_queue fresh_device + count_if is_first three_ops)
enqueue_cop_bulk-conserves_example =
    enqueue_cop_bulk-conserves two_at_a_time is_first idle_queue fresh_device three_ops
      (omega arith)

abbrev two_queues : Queues
two_queues = record {
  nb_qps = 2;
  last_qp = 1;
  tbl = idle_queue ∷ record idle_queue { in_flight = 4 } ∷ [];
}

ctx_dequeue-last_qp-le_example :
    let (cop, qs, w) = ctx_dequeue two_at_a_time two_queues fresh_device 8 in
    (length cop ≤ 8)
    × (map fixed qs.tbl ≡ map fixed two_queues.tbl)
    × (qs.nb_qps ≡ 2)
    × (qs.last_qp ≤ 1)
ctx_dequeue-last_qp-le_example = ctx_dequeue-last_qp-le two_at_a_time two_queues fresh_device 8

sa_group_test :
    sa_group (7 ∷ 7 ∷ 9 ∷ 7 ∷ [])
    ≡ record { id = 7; m = 0; cnt = 2 }
      ∷ record { id = 9; m = 2; cnt = 1 }
      ∷ record { id = 7; m = 3; cnt = 1 }
      ∷ []
unfolding sa_group
sa_group_test = refl

sa_group-runs_example :
    let groups = sa_group (7 ∷ 7 ∷ 9 ∷ []) in
    (pointers groups ≡ 7 ∷ 7 ∷ 9 ∷ []) × Covers 0 groups × Neighbours groups
sa_group-runs_example = sa_group-runs (7 ∷ 7 ∷ 9 ∷ [])
