-- ===== src/EventHelper/Devices.antt =====
-- What event_helper.c asks of the devices: eh_get_eventdev_params, eh_dev_has_rx_internal_port,
-- eh_dev_has_tx_internal_port, eh_dev_has_burst_mode, eh_set_default_conf_eventdev and
-- eh_do_capability_check.
use ipsec_secgw_old.Prelude.{
  ℕ, zero, suc, ◌+◌, ◌%◌, Bool, true, false, ◌&&◌, not, ◌==◌, ltb, if◌then◌else◌, List, [], ◌∷◌,
  Option, none, some,
}
use ipsec_secgw_old.EventHelper.{
  ℤ, pos, is_negative, einval, update, EventdevParams, EventmodeConf, AdapterCaps, Platform,
}

-- The first entry from index `i` on with the id.
params_from : (ℕ → EventdevParams) → ℕ → ℕ → ℕ → Option EventdevParams
params_from config id i zero = none
params_from config id i (suc n) =
    let rest = params_from config id (suc i) n in
    if (config i).eventdev_id == id then some (config i) else rest

unfoldable pub eh_get_eventdev_params : EventmodeConf → ℕ → Option EventdevParams
unfolding params_from
eh_get_eventdev_params c id = params_from c.eventdev_config id 0 c.nb_eventdev

-- The loop of the two functions below.
unfoldable pub all_internal : (ℕ → AdapterCaps) → List ℕ → Bool → Bool
all_internal caps [] flag = flag
all_internal caps (j ∷ js) flag =
    let rest = all_internal caps js (flag && (caps j).internal_port) in
    if is_negative (caps j).ret then false else rest

abbrev pub eh_dev_has_rx_internal_port : Platform → ℕ → Bool
eh_dev_has_rx_internal_port p id = all_internal (p.rx_caps id) p.eth_devs true

abbrev pub eh_dev_has_tx_internal_port : Platform → ℕ → Bool
eh_dev_has_tx_internal_port p id = all_internal (p.tx_caps id) p.eth_devs true

abbrev pub eh_dev_has_burst_mode : Platform → ℕ → Bool
eh_dev_has_burst_mode p id = (p.dev_info id).burst_mode

-- No more queues than one for each Ethernet device and one for Tx, no more ports than cores. The
-- counters are octets. RTE_EVENT_QUEUE_CFG_ALL_TYPES is 1.
abbrev pub default_params : Platform → EventdevParams → EventdevParams
default_params p e =
    let queues = (p.dev_info 0).max_event_queues % 256 in
    let ports = (p.dev_info 0).max_event_ports % 256 in
    record e {
      eventdev_id = 0;
      nb_eventqueue =
          if ltb (p.eth_dev_count + 1) queues then (p.eth_dev_count + 1) % 256 else queues;
      nb_eventport = if ltb p.lcore_count ports then p.lcore_count % 256 else ports;
      ev_queue_mode = 1;
    }

unfoldable pub eh_set_default_conf_eventdev : Platform → EventmodeConf → ℤ × EventmodeConf
eh_set_default_conf_eventdev p c =
    if p.event_dev_count == 0
    then (einval, c)
    else if not (p.event_dev_count == 1)
    then (einval, c)
    else if p.eth_dev_count == 0
    then (einval, c)
    else if is_negative (p.dev_info 0).ret
    then ((p.dev_info 0).ret, c)
    else if ltb (p.dev_info 0).max_event_ports 2
    then (einval, c)
    else (
      pos 0,
      record c {
        eventdev_config = update c.eventdev_config 0 (default_params p (c.eventdev_config 0));
        nb_eventdev = c.nb_eventdev + 1;
      },
    )

abbrev pub has_internal_ports : Platform → ℕ → Bool
has_internal_ports p id = eh_dev_has_rx_internal_port p id && eh_dev_has_tx_internal_port p id

-- The first loop: whether every event device has internal ports, and the devices marked.
unfoldable pub mark_internal :
    Platform → ℕ → ℕ → (ℕ → EventdevParams) → Bool → Bool × (ℕ → EventdevParams)
mark_internal p i zero config all = (all, config)
mark_internal p i (suc n) config all =
    let internal = has_internal_ports p (config i).eventdev_id in
    let marked = record (config i) { all_internal_ports = true } in
    mark_internal p (suc i) n (if internal then update config i marked else config)
      (all && internal)

-- The second loop.
unfoldable pub without_tx_queue : ℕ → ℕ → (ℕ → EventdevParams) → ℕ → EventdevParams
without_tx_queue i zero config = config
without_tx_queue i (suc n) config =
    without_tx_queue (suc i) n (
      update config i
        (record (config i) { nb_eventqueue = ((config i).nb_eventqueue + 255) % 256 }))

unfoldable pub eh_do_capability_check : Platform → EventmodeConf → EventmodeConf
unfolding mark_internal without_tx_queue
eh_do_capability_check p c =
    let (all, config) = mark_internal p 0 c.nb_eventdev c.eventdev_config true in
    if all
    then record c {
      eth_core_mask = λ core. false;
      eventdev_config = without_tx_queue 0 c.nb_eventdev config;
    }
    else record c { eventdev_config = config }
