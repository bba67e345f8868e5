-- ===== src/Tests/Cores.antt =====
-- The queues of two cores, and packets of IKE among others.
use ipsec_secgw_old.Prelude.{
  ℕ, ◌+◌, count_if, ◌≡◌, refl, Bool, true, ◌==◌, if◌then◌else◌, List, [], ◌∷◌, none, some, ◌⊎◌,
  arith,
}
use ipsec_secgw_old.Packet.{Mbuf}
use ipsec_secgw_old.Lcores.{
  LcoreParams, RxQueues, init_lcore_rx_queues, get_port_nb_rx_queues, highest_queue,
  check_flow_params,
}
use ipsec_secgw_old.Lcores.Queues.{IsWithin, IsSpread, IsOver, init_lcore_rx_queues-IsSpread}
use ipsec_secgw_old.Poll.Ike.{
  Kni, is_ike, filter_one, filter_loop, filter_ike_packets, to_kernel, IsCounted, Parts, left,
  filter_ike_packets-Parts,
}
use ipsec_secgw_old.Tests.Fixtures.{plain4}

abbrev three_params : List LcoreParams
three_params =
    record { port_id = 0; queue_id = 0; lcore_id = 1 }
    ∷ record { port_id = 1; queue_id = 0; lcore_id = 2 }
    ∷ record { port_id = 0; queue_id = 1; lcore_id = 1 }
    ∷ []

abbrev no_queues : RxQueues
no_queues lcore = []

no_queues-IsWithin : IsWithin no_queues
unfolding IsWithin
no_queues-IsWithin = λ lcore. omega arith

init_lcore_rx_queues-IsSpread_example :
    ((conf : RxQueues) × (init_lcore_rx_queues three_params no_queues ≡ some conf)
      × IsSpread no_queues three_params conf)
    ⊎ ((init_lcore_rx_queues three_params no_queues ≡ none) × IsOver no_queues three_params)
init_lcore_rx_queues-IsSpread_example =
    init_lcore_rx_queues-IsSpread three_params no_queues no_queues-IsWithin

two_queues : get_port_nb_rx_queues three_params 0 ≡ 2
unfolding get_port_nb_rx_queues highest_queue
two_queues = refl

-- Queue 255 leaves its port without a queue.
no_queue_left :
    get_port_nb_rx_queues (record { port_id = 0; queue_id = 255; lcore_id = 1 } ∷ []) 0 ≡ 0
unfolding get_port_nb_rx_queues highest_queue
no_queue_left = refl

-- Without parameters every queue passes.
all_pass : check_flow_params [] 3 4 ≡ true
unfolding check_flow_params
all_pass = refl

-- UDP over IPv4, from port 500.
abbrev ike : ℕ → Mbuf
ike id = record (plain4 id) {
  bytes = λ i.
      if i == 12
      then 8
      else if i == 14
      then 69
      else if i == 23
      then 17
      else if i == 34
      then 1
      else if i == 35
      then 244
      else 0;
}

abbrev nothing_sent : Kni
nothing_sent = record { sent = []; freed = []; rx_packets = 0; rx_dropped = 0 }

abbrev four_packets : List Mbuf
four_packets = ike 1 ∷ plain4 2 ∷ ike 3 ∷ plain4 4 ∷ []

-- A kernel that takes the first packet only.
abbrev takes_first : ℕ → Bool
takes_first n = n == 0

one_dropped : filter_ike_packets takes_first four_packets nothing_sent ≡ record {
  pkts_new = plain4 2 ∷ plain4 4 ∷ [];
  kni = record { sent = ike 1 ∷ []; freed = ike 3 ∷ []; rx_packets = 1; rx_dropped = 1 };
}
unfolding filter_ike_packets filter_loop filter_one is_ike to_kernel
one_dropped = refl

filter_ike_packets-Parts_example :
    let f = filter_ike_packets takes_first four_packets nothing_sent in
    (gone : List Mbuf) × Parts four_packets f.pkts_new gone
    × ((p : Mbuf → Bool) → left p f.kni ≡ left p nothing_sent + count_if p gone)
    × IsCounted f.kni
filter_ike_packets-Parts_example =
    filter_ike_packets-Parts takes_first four_packets nothing_sent
      (record { packets = refl; dropped = refl })
