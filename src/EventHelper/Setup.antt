-- ===== src/EventHelper/Setup.antt =====
-- Setting the devices up in event_helper.c: eh_initialize_eventdev, eh_start_eventdev,
-- eh_event_vector_limits_validate, eh_rx_adapter_configure, eh_initialize_rx_adapter,
-- eh_tx_adapter_configure, eh_initialize_tx_adapter and eh_devs_init.
pub mod Plan
pub mod Refines
use ipsec_secgw_old.Prelude.{
  ℕ, zero, suc, ◌+◌, ◌-◌, ◌/◌, ◌≡◌, Bool, true, false, ◌&&◌, ◌||◌, not, ◌==◌, ltb, if◌then◌else◌,
  List, [], ◌∷◌, Option, none, some,
}
use ipsec_secgw_old.EventHelper.{
  ℤ, pos, negsuc, is_negative, einval, enomem, no_core, EventdevParams, EhEventLinkInfo,
  RxAdapterConf, TxAdapterConf, EventmodeConf, Platform,
}
use ipsec_secgw_old.EventHelper.Devices.{eh_get_eventdev_params}
use ipsec_secgw_old.EventHelper.Adapters.{Configured}
use ipsec_secgw_old.EventHelper.Validate.{eh_validate_conf}
use ipsec_secgw_old.EventHelper.Calls.{
  dev_configure, queue_setup, port_setup, port_link, port_unlink, dev_start, vector_pool_create,
  rx_create, tx_create, rx_queue_add, tx_queue_add, tx_event_port_get, rx_service_id_get,
  tx_service_id_get, rx_runstate_check, tx_runstate_check, rx_start, tx_start, eth_stop, eth_start,
  End, returned, Answers, Step, not_negative, is_zero, is_one, found_or_esrch, any, finish, fault,
  perform, allocate, require, for_each, for_all, and_then, Call,
}

-- What rte_event_eth_rx_adapter_vector_limits_get writes, with its result.
pub record VectorLimits : Type 0 where
  pub ret : ℤ
  pub min_sz : ℕ
  pub max_sz : ℕ
  pub log2_sz : Bool
  pub min_timeout_ns : ℕ
  pub max_timeout_ns : ℕ

-- What setting up reads beside the platform: the answers, the limits of vectors for an event device
-- and an Ethernet device, rte_is_power_of_2, the event port of a Tx adapter, and
-- `nb_bufs_in_pool`.
pub record Library : Type 0 where
  pub answer : Answers
  pub vector_limits : ℕ → ℕ → VectorLimits
  pub is_power_of_2 : ℕ → Bool
  pub tx_event_port : ℕ → ℕ
  pub nb_bufs_in_pool : ℕ

-- RTE_SCHED_TYPE_ATOMIC is 1. The last queue of a device without internal ports is for Tx.
abbrev pub schedule_type : EventmodeConf → EventdevParams → ℕ → ℕ
schedule_type c e j =
    if not e.all_internal_ports && (j + 1 == e.nb_eventqueue) then 1 else c.sched_type

unfoldable pub setup_eventdev : Platform → Library → EventmodeConf → ℕ → Step → Step
unfolding perform require for_each
setup_eventdev p l c i next =
    let e = c.eventdev_config i in
    let ports =
      for_each (λ j. perform l.answer not_negative (port_setup e.eventdev_id j)) 0 e.nb_eventport
        next in
    let queues =
      for_each
        (λ j.
          perform l.answer not_negative
            (queue_setup e.eventdev_id j e.ev_queue_mode (schedule_type c e j)))
        0 e.nb_eventqueue ports in
    require not_negative (p.dev_info e.eventdev_id).ret (
      perform l.answer not_negative (dev_configure e.eventdev_id e.nb_eventqueue e.nb_eventport)
        queues)

abbrev pub queue_of : EventmodeConf → EhEventLinkInfo → Option ℕ
queue_of c link = if c.all_ev_queue_to_ev_port then none else some link.eventq_id

abbrev pub link_call : EventmodeConf → ℕ → Call
link_call c j =
    let link = c.link j in port_link link.eventdev_id link.event_port_id (queue_of c link)

unfoldable pub eh_initialize_eventdev : Platform → Library → EventmodeConf → Step
unfolding setup_eventdev perform for_each finish
eh_initialize_eventdev p l c =
    for_each (setup_eventdev p l c) 0 c.nb_eventdev
      (for_each (λ j. perform l.answer not_negative (link_call c j)) 0 c.nb_link (finish (pos 0)))

unfoldable pub eh_start_eventdev : Library → EventmodeConf → Step
unfolding perform for_each finish
eh_start_eventdev l c =
    for_each (λ i. perform l.answer not_negative (dev_start (c.eventdev_config i).eventdev_id)) 0
      c.nb_eventdev (finish (pos 0))

unfoldable pub eh_event_vector_limits_validate : Library → EventmodeConf → ℕ → ℕ → ℤ
eh_event_vector_limits_validate l c ev_dev_id ethdev_id =
    let limits = l.vector_limits ev_dev_id ethdev_id in
    if not (is_zero limits.ret)
    then limits.ret
    else if ltb c.vector_size limits.min_sz || ltb limits.max_sz c.vector_size
    then einval
    else if limits.log2_sz && not (l.is_power_of_2 c.vector_size)
    then einval
    else if ltb limits.max_timeout_ns c.vector_tmo_ns || ltb c.vector_tmo_ns limits.min_timeout_ns
    then einval
    else pos 0

-- The limits are checked where vectors are used.
abbrev pub vectors_allowed : Library → EventmodeConf → RxAdapterConf → ℕ → ℤ
vectors_allowed l c a j =
    if c.event_vector
    then eh_event_vector_limits_validate l c a.eventdev_id (a.conn j).ethdev_id
    else pos 0

abbrev pub rx_add_call : RxAdapterConf → ℕ → Call
rx_add_call a j =
    let conn = a.conn j in
    rx_queue_add a.adapter_id conn.ethdev_id conn.ethdev_rx_qid conn.eventq_id

abbrev pub pool_call : Library → EventmodeConf → Call
pool_call l c = vector_pool_create (l.nb_bufs_in_pool / c.vector_size + 1) c.vector_size

unfoldable pub with_pool : Library → EventmodeConf → Step → Step
unfolding allocate
with_pool l c next = if c.event_vector then allocate l.answer enomem (pool_call l c) next else next

unfoldable pub eh_rx_adapter_configure : Platform → Library → EventmodeConf → RxAdapterConf → Step
unfolding perform require for_each finish with_pool
eh_rx_adapter_configure p l c a =
    let start = perform l.answer found_or_esrch (rx_service_id_get a.adapter_id) (
      perform l.answer any (rx_runstate_check a.adapter_id)
        (perform l.answer not_negative (rx_start a.adapter_id) (finish (pos 0)))) in
    let connect =
      for_each
        (λ j k.
          require is_zero (vectors_allowed l c a j)
            (perform l.answer not_negative (rx_add_call a j) k))
        0 a.nb_connections start in
    require not_negative (p.dev_info a.eventdev_id).ret
      (with_pool l c (perform l.answer not_negative (rx_create a.adapter_id a.eventdev_id) connect))

unfoldable pub eh_initialize_rx_adapter : Platform → Library → EventmodeConf → Step
unfolding for_each and_then finish
eh_initialize_rx_adapter p l c =
    for_each (λ i. and_then (eh_rx_adapter_configure p l c (c.rx_adapter i))) 0 c.nb_rx_adapter
      (finish (pos 0))

abbrev pub tx_add_call : TxAdapterConf → ℕ → Call
tx_add_call a j = let conn = a.conn j in tx_queue_add a.adapter_id conn.ethdev_id conn.ethdev_tx_qid

-- The Tx event queue is taken from all ports of the device, whose parameters may be null.
unfoldable pub unlink_tx_queue : Library → TxAdapterConf → Option EventdevParams → Step → Step
unfolding perform for_each fault
unlink_tx_queue l a none next = fault
unlink_tx_queue l a (some e) next =
    for_each (λ j. perform l.answer any (port_unlink a.eventdev_id j a.tx_ev_queue)) 0
      e.nb_eventport next

-- It is given to the port of the adapter.
unfoldable pub setup_tx_queue : Library → EventmodeConf → TxAdapterConf → Step → Step
unfolding perform unlink_tx_queue
setup_tx_queue l c a next =
    let serve =
      perform l.answer is_one
        (port_link a.eventdev_id (l.tx_event_port a.adapter_id) (some a.tx_ev_queue))
        (perform l.answer found_or_esrch (tx_service_id_get a.adapter_id)
          (perform l.answer any (tx_runstate_check a.adapter_id) next)) in
    perform l.answer is_zero (tx_event_port_get a.adapter_id)
      (unlink_tx_queue l a (eh_get_eventdev_params c a.eventdev_id) serve)

unfoldable pub eh_tx_adapter_configure : Platform → Library → EventmodeConf → TxAdapterConf → Step
unfolding perform require for_each finish setup_tx_queue
eh_tx_adapter_configure p l c a =
    let start = perform l.answer not_negative (tx_start a.adapter_id) (finish (pos 0)) in
    let serve = if a.tx_core_id == no_core then start else setup_tx_queue l c a start in
    let connect =
      for_each (λ j. perform l.answer not_negative (tx_add_call a j)) 0 a.nb_connections serve in
    require not_negative (p.dev_info a.eventdev_id).ret
      (perform l.answer not_negative (tx_create a.adapter_id a.eventdev_id) connect)

unfoldable pub eh_initialize_tx_adapter : Platform → Library → EventmodeConf → Step
unfolding for_each and_then finish
eh_initialize_tx_adapter p l c =
    for_each (λ i. and_then (eh_tx_adapter_configure p l c (c.tx_adapter i))) 0 c.nb_tx_adapter
      (finish (pos 0))

-- A loop through the ports that are enabled.
unfoldable pub for_ports : (ℕ → Bool) → (ℕ → Step → Step) → List ℕ → Step → Step
unfolding for_all
for_ports mask body = for_all (λ port k. if mask port then body port k else k)

-- eh_devs_init from the validated configuration on.
unfoldable pub init_devs : Platform → Library → EventmodeConf → Step
unfolding for_ports and_then perform finish
init_devs p l c =
    let start =
      for_ports c.eth_portmask (λ port. perform l.answer not_negative (eth_start port)) p.eth_devs
        (finish (pos 0)) in
    for_ports c.eth_portmask (λ port. perform l.answer is_zero (eth_stop port)) p.eth_devs
      (and_then (eh_initialize_eventdev p l c) (
        and_then (eh_initialize_rx_adapter p l c)
          (and_then (eh_initialize_tx_adapter p l c) (and_then (eh_start_eventdev l c) start))))

-- The configuration of the application: whether packets are moved by events, the mask of the ports,
-- and the parameters of the mode.
pub record EhConf : Type 0 where
  pub event_mode : Bool
  pub eth_portmask : ℕ → Bool
  pub mode_params : Option EventmodeConf

-- `none` where validation does not end.
unfoldable pub eh_devs_init : Platform → Library → Option EhConf → ℕ → Option (End × List Call)
unfolding init_devs
eh_devs_init p l none prev = some (returned einval, [])
eh_devs_init p l (some conf) prev =
    if not conf.event_mode then some (returned (pos 0), []) else elim conf.mode_params [
      | none ↦ some (returned einval, [])
      | some c ↦ elim (eh_validate_conf p (record c { eth_portmask = conf.eth_portmask }) prev) [
        | none ↦ none
        | some s ↦ elim (is_negative s.ret) [
          | true ↦ some (returned s.ret, [])
          | false ↦ some (init_devs p l s.conf [])
        ]
      ]
    ]
