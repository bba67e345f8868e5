-- ===== src/EventHelper/Conf.antt =====
-- eh_conf_init of event_helper.c: the configuration that the application starts from.
use ipsec_secgw_old.Prelude.{Bool, true, false, not, if◌then◌else◌, Option, none, some}
use ipsec_secgw_old.EventHelper.{pos, update, EventmodeConf, Platform}
use ipsec_secgw_old.EventHelper.Setup.{EhConf}

-- Which of the allocations succeed: the configuration, the parameters of the mode, the footprint of the
-- bitmap, its memory, and its initialization.
pub record Allocations : Type 0 where
  pub conf : Bool
  pub mode_params : Bool
  pub footprint : Bool
  pub bitmap : Bool
  pub bitmap_init : Bool

-- Memory from calloc, and an empty bitmap.
unfoldable pub zeroed : EventmodeConf
zeroed = record {
  nb_eventdev = 0;
  eventdev_config = λ i. record {
    eventdev_id = 0;
    nb_eventqueue = 0;
    nb_eventport = 0;
    ev_queue_mode = 0;
    all_internal_ports = false;
  };
  nb_rx_adapter = 0;
  rx_adapter = λ i. record {
    eventdev_id = 0;
    adapter_id = 0;
    rx_core_id = 0;
    nb_connections = 0;
    conn = λ j. record { ethdev_id = 0; eventq_id = 0; ethdev_rx_qid = pos 0 };
  };
  nb_tx_adapter = 0;
  tx_adapter = λ i. record {
    eventdev_id = 0;
    adapter_id = 0;
    tx_core_id = 0;
    nb_connections = 0;
    conn = λ j. record { ethdev_id = 0; ethdev_tx_qid = pos 0 };
    tx_ev_queue = 0;
  };
  nb_link = 0;
  link = λ i. record { eventdev_id = 0; event_port_id = 0; eventq_id = 0; lcore_id = 0 };
  eth_core_mask = λ core. false;
  eth_portmask = λ port. false;
  sched_type = 0;
  all_ev_queue_to_ev_port = false;
  event_vector = false;
  vector_size = 0;
  vector_tmo_ns = 0;
}

-- SCHED_TYPE_NOT_SET is 3, DEFAULT_VECTOR_SIZE is 16, and DEFAULT_VECTOR_TMO is 102400. The first two
-- cores after core 0 that are not the main core are reserved.
abbrev pub default_mode : Platform → EventmodeConf
default_mode p =
    let rx_core = p.next_lcore 0 true false in
    let tx_core = p.next_lcore rx_core true false in
    record zeroed {
      sched_type = 3;
      eth_core_mask = update (update (λ core. false) rx_core true) tx_core true;
      vector_size = 16;
      vector_tmo_ns = 102_400;
    }

-- The poll mode, and every port. A null pointer where an allocation fails.
unfoldable pub eh_conf_init : Platform → Allocations → Option EhConf
unfolding zeroed
eh_conf_init p a =
    if not a.conf
    then none
    else if not a.mode_params
    then none
    else if not a.footprint
    then none
    else if not a.bitmap
    then none
    else if not a.bitmap_init
    then none
    else some (record {
      event_mode = false;
      eth_portmask = λ port. true;
      mode_params = some (default_mode p);
    })
