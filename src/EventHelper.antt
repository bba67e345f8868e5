-- ===== src/EventHelper.antt =====
-- event_helper.c and event_helper.h: the configuration of the event mode. The cores and the
-- capabilities of the devices are parameters. An array is a function of the index, with the counter
-- that the code keeps beside it.
pub mod Cores
pub mod Devices
pub mod Links
pub mod Adapters
pub mod Validate
pub mod Launch
pub mod Calls
pub mod Setup
pub mod Conf
pub mod Teardown
pub mod Startup
use ipsec_secgw_old.Prelude.{
  ℕ, zero, suc, ◌+◌, ◌-◌, ◌%◌, ◌≡◌, Bool, true, false, ◌==◌, ltb, if◌then◌else◌, List, [], ◌∷◌,
}

pub data ℤ : Type 0 where
  pos negsuc : ℕ → ℤ

abbrev pub is_negative : ℤ → Bool
is_negative (pos n) = false
is_negative (negsuc n) = true

-- EINVAL is 22, ENOMEM is 12.
abbrev pub einval : ℤ
einval = negsuc 21

abbrev pub enomem : ℤ
enomem = negsuc 11

-- RTE_MAX_LCORE, and -1 as an `unsigned int` or a `uint32_t`.
abbrev pub max_lcore : ℕ
max_lcore = 128

abbrev pub no_core : ℕ
no_core = 4_294_967_295

abbrev pub update {ℓ} : {A : Type ℓ} → (ℕ → A) → ℕ → A → ℕ → A
update a i v j = if j == i then v else a j

-- The first entries of an array, from index `i` on.
abbrev pub entries {ℓ} : {A : Type ℓ} → (ℕ → A) → ℕ → ℕ → List A
entries a i zero = []
entries a i (suc n) = a i ∷ entries a (suc i) n

pub record EventdevParams : Type 0 where
  pub eventdev_id : ℕ
  pub nb_eventqueue : ℕ
  pub nb_eventport : ℕ
  pub ev_queue_mode : ℕ
  pub all_internal_ports : Bool

pub record EhEventLinkInfo : Type 0 where
  pub eventdev_id : ℕ
  pub event_port_id : ℕ
  pub eventq_id : ℕ
  pub lcore_id : ℕ

pub record RxAdapterConnectionInfo : Type 0 where
  pub ethdev_id : ℕ
  pub eventq_id : ℕ
  pub ethdev_rx_qid : ℤ

pub record RxAdapterConf : Type 0 where
  pub eventdev_id : ℕ
  pub adapter_id : ℕ
  pub rx_core_id : ℕ
  pub nb_connections : ℕ
  pub conn : ℕ → RxAdapterConnectionInfo

pub record TxAdapterConnectionInfo : Type 0 where
  pub ethdev_id : ℕ
  pub ethdev_tx_qid : ℤ

pub record TxAdapterConf : Type 0 where
  pub eventdev_id : ℕ
  pub adapter_id : ℕ
  pub tx_core_id : ℕ
  pub nb_connections : ℕ
  pub conn : ℕ → TxAdapterConnectionInfo
  pub tx_ev_queue : ℕ

-- The masks are tests on the core and on the port.
pub record EventmodeConf : Type 0 where
  pub nb_eventdev : ℕ
  pub eventdev_config : ℕ → EventdevParams
  pub nb_rx_adapter : ℕ
  pub rx_adapter : ℕ → RxAdapterConf
  pub nb_tx_adapter : ℕ
  pub tx_adapter : ℕ → TxAdapterConf
  pub nb_link : ℕ
  pub link : ℕ → EhEventLinkInfo
  pub eth_core_mask : ℕ → Bool
  pub eth_portmask : ℕ → Bool
  pub sched_type : ℕ
  pub all_ev_queue_to_ev_port : Bool
  pub event_vector : Bool
  pub vector_size : ℕ
  pub vector_tmo_ns : ℕ

-- What rte_event_dev_info_get writes, with its result.
pub record RteEventDevInfo : Type 0 where
  pub ret : ℤ
  pub max_event_queues : ℕ
  pub max_event_ports : ℕ
  pub max_num_events : ℕ
  pub max_event_queue_flows : ℕ
  pub max_event_port_dequeue_depth : ℕ
  pub max_event_port_enqueue_depth : ℕ
  pub burst_mode : Bool

-- A reply to a question about the Rx or Tx capabilities of an event device and an Ethernet device:
-- the result of the call, and whether there is an internal port.
pub record AdapterCaps : Type 0 where
  pub ret : ℤ
  pub internal_port : Bool

-- rte_lcore_is_enabled; rte_get_next_lcore with its two flags, to skip the main core and to wrap;
-- rte_lcore_count, rte_event_dev_count and rte_eth_dev_count_avail; the ports that
-- RTE_ETH_FOREACH_DEV goes through; and the questions about the devices.
pub record Platform : Type 0 where
  pub lcore_is_enabled : ℕ → Bool
  pub next_lcore : ℕ → Bool → Bool → ℕ
  pub lcore_count : ℕ
  pub event_dev_count : ℕ
  pub eth_dev_count : ℕ
  pub eth_devs : List ℕ
  pub dev_info : ℕ → RteEventDevInfo
  pub rx_caps : ℕ → ℕ → AdapterCaps
  pub tx_caps : ℕ → ℕ → AdapterCaps
