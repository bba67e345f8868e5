-- ===== src/Tests/Helper.antt =====
-- The event helper on a machine with four cores and two ports, and its theorems there.
use ipsec_secgw_old.Prelude.{
  ℕ, ◌+◌, ◌%◌, ◌≤◌, ◌<◌, ◌≡◌, refl, arith, Bool, true, false, ◌==◌, ltb, if◌then◌else◌, List, [],
  ◌∷◌, some, count_if,
}
use ipsec_secgw_old.EventHelper.{ℤ, pos, negsuc, EventmodeConf, Platform}
use ipsec_secgw_old.EventHelper.Cores.{
  eh_get_enabled_cores, eh_get_next_eth_core, eh_get_next_active_core, IsNextLcore, IsReservedCore,
  enabled_below,
}
use ipsec_secgw_old.EventHelper.Cores.Search.{eh_get_next_eth_core-IsReservedCore}
use ipsec_secgw_old.EventHelper.Calls.{Call, is_error, port_link, tx_start}
use ipsec_secgw_old.EventHelper.Setup.{
  Library, EhConf, init_devs, eh_initialize_eventdev, eh_initialize_rx_adapter,
  eh_rx_adapter_configure, eh_initialize_tx_adapter, eh_tx_adapter_configure, eh_start_eventdev,
}
use ipsec_secgw_old.EventHelper.Devices.{eh_get_eventdev_params}
use ipsec_secgw_old.EventHelper.Conf.{Allocations, default_mode, zeroed}
use ipsec_secgw_old.EventHelper.Links.{eh_set_default_conf_link}
use ipsec_secgw_old.EventHelper.Links.Cover.{IsWorkerCore}
use ipsec_secgw_old.EventHelper.Launch.Match.{HasOwnPort, default_links-HasOwnPort}
use ipsec_secgw_old.EventHelper.Teardown.{release_devs}
use ipsec_secgw_old.EventHelper.Teardown.Collect.{collect, rx_added}

program : Unit {0}
unfolding init_devs eh_initialize_eventdev eh_initialize_rx_adapter eh_rx_adapter_configure
    eh_initialize_tx_adapter eh_tx_adapter_configure eh_get_eventdev_params eh_start_eventdev zeroed
    release_devs
program = tt

abbrev four : ℕ → Bool
four j = ltb j 4

-- Cores 0 to 3, of which 0 is the main core.
abbrev next_of_four : ℕ → Bool → Bool → ℕ
next_of_four i skip_main wrap =
    let a = (i + 1) % 4_294_967_296 in
    let b = if skip_main then (if a == 0 then 1 else a) else a in
    if wrap then (if ltb (b % 128) 4 then b % 128 else 0) else (if ltb b 4 then b else 128)

abbrev machine : Platform
machine = record {
  lcore_is_enabled = four;
  next_lcore = next_of_four;
  lcore_count = 4;
  event_dev_count = 1;
  eth_dev_count = 2;
  eth_devs = 0 ∷ 1 ∷ [];
  dev_info = λ id. record {
    ret = pos 0;
    max_event_queues = 3;
    max_event_ports = 4;
    max_num_events = 1024;
    max_event_queue_flows = 64;
    max_event_port_dequeue_depth = 16;
    max_event_port_enqueue_depth = 16;
    burst_mode = true;
  };
  rx_caps = λ id port. record { ret = pos 0; internal_port = false };
  tx_caps = λ id port. record { ret = pos 0; internal_port = false };
}

machine-IsNextLcore : IsNextLcore machine
machine-IsNextLcore = record {
  next-after = λ i small. ground arith;
  next-le = λ i. ground arith;
  next-enabled = λ i lt. ground arith;
  next-least = λ i j from below. ground arith;
  wrap-lt = λ i t lt on. ground arith;
  wrap-enabled = λ i t lt on. ground arith;
  wrap-least = λ i t lt on. ground arith;
}

-- Cores 1 and 2 are reserved.
abbrev reserved : ℕ → Bool
reserved core = if core == 1 then true else core == 2

next_active_core_skips : eh_get_next_active_core machine reserved 0 ≡ some 3
unfolding eh_get_next_active_core
next_active_core_skips = refl

some_reserved : 0 < eh_get_enabled_cores machine reserved
unfolding enabled_below
some_reserved = omega arith

eh_get_next_eth_core-IsReservedCore_example :
    (core : ℕ) × (eh_get_next_eth_core machine reserved 2 ≡ some (core, core))
    × IsReservedCore machine reserved core
eh_get_next_eth_core-IsReservedCore_example =
    eh_get_next_eth_core-IsReservedCore machine-IsNextLcore reserved 2 some_reserved

-- Every call succeeds.
abbrev answers : List Call → Call → ℤ
answers t (port_link id port queue) = pos 1
answers t _ = pos 0

abbrev library : Library
library = record {
  answer = answers;
  vector_limits = λ dev eth. record {
    ret = pos 0;
    min_sz = 4;
    max_sz = 64;
    log2_sz = true;
    min_timeout_ns = 0;
    max_timeout_ns = 1_000_000;
  };
  is_power_of_2 = λ n. n == 16;
  tx_event_port = λ adapter. 0;
  nb_bufs_in_pool = 8192;
}

abbrev allocations : Allocations
allocations = record {
  conf = true;
  mode_params = true;
  footprint = true;
  bitmap = true;
  bitmap_init = true;
}

abbrev event_conf : EhConf
event_conf = record {
  event_mode = true;
  eth_portmask = λ port. true;
  mode_params = some (default_mode machine);
}

-- Four event ports, and cores 0 and 3 for them.
abbrev four_ports : EventmodeConf
four_ports = record (default_mode machine) {
  eventdev_config = λ i. record {
    eventdev_id = 0;
    nb_eventqueue = 3;
    nb_eventport = 4;
    ev_queue_mode = 1;
    all_internal_ports = false;
  };
  eth_core_mask = reserved;
  nb_rx_adapter = 1;
  rx_adapter = λ i. record {
    eventdev_id = 0;
    adapter_id = 0;
    rx_core_id = 1;
    nb_connections = 2;
    conn = λ j. record { ethdev_id = j; eventq_id = j; ethdev_rx_qid = negsuc 0 };
  };
  nb_tx_adapter = 1;
  tx_adapter = λ i. record {
    eventdev_id = 0;
    adapter_id = 0;
    tx_core_id = 2;
    nb_connections = 2;
    conn = λ j. record { ethdev_id = j; ethdev_tx_qid = negsuc 0 };
    tx_ev_queue = 2;
  };
  nb_eventdev = 1;
}

none_linked : four_ports.nb_link ≡ 0
unfolding zeroed
none_linked = refl

default_links-HasOwnPort_example :
    (d : EventmodeConf) × (eh_set_default_conf_link machine four_ports ≡ some d)
    × (d.nb_link ≤ 4)
    × ((core : ℕ)
        → IsWorkerCore machine reserved core
        → d.nb_link < 4
        → (k : ℕ) × HasOwnPort d core k)
default_links-HasOwnPort_example =
    default_links-HasOwnPort machine four_ports machine-IsNextLcore none_linked (omega arith)

abbrev is_tx_start : Call → Bool
is_tx_start (tx_start id) = true
is_tx_start _ = false

-- Rx comes in by queues 0 and 1 of the two ports.
added_by_start : collect rx_added (init_devs machine library four_ports []).1 ≡ (0, 0) ∷ (0, 1) ∷ []
unfolding program
added_by_start = refl

-- Where rte_event_port_link links nothing for Tx and answers 0, the start reports success, and the
-- adapter is not started.
abbrev unlinking : Library
unlinking = record library { answer = λ t c. pos 0 }

success_without_tx :
    (is_error (init_devs machine unlinking four_ports []).0 ≡ false)
    × (count_if is_tx_start (init_devs machine unlinking four_ports []).1 ≡ 0)
unfolding program
success_without_tx = (refl, refl)
