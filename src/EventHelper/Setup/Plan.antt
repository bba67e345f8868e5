-- ===== src/EventHelper/Setup/Plan.antt =====
-- The calls that set the devices up, in order: the plan that eh_devs_init follows.
use ipsec_secgw_old.Prelude.{
  ℕ, ◌≡◌, ◌⊎◌, Bool, true, false, ◌==◌, if◌then◌else◌, List, [], ◌∷◌, ◌++◌, Option, none, some,
}
use ipsec_secgw_old.EventHelper.{
  ℤ, pos, is_negative, no_core, RxAdapterConf, TxAdapterConf, EventmodeConf, Platform,
  EventdevParams,
}
use ipsec_secgw_old.EventHelper.Devices.{eh_get_eventdev_params}
use ipsec_secgw_old.EventHelper.Calls.{
  Call, dev_configure, queue_setup, port_setup, port_link, port_unlink, dev_start, rx_create,
  tx_create, tx_event_port_get, rx_service_id_get, tx_service_id_get, rx_runstate_check,
  tx_runstate_check, rx_start, tx_start, eth_stop, eth_start, is_zero,
}
use ipsec_secgw_old.EventHelper.Calls.Follows.{each, all}
use ipsec_secgw_old.EventHelper.Setup.{
  Library, schedule_type, link_call, rx_add_call, pool_call, tx_add_call,
}

-- The answer to a call that succeeds: the number of queues linked, 0 for the others.
abbrev pub success : Call → ℤ
success (port_link id port queue) = pos 1
success _ = pos 0

-- The library fails with a negative number, and succeeds with the number that it documents. Of
-- rte_event_port_link this leaves out that it links nothing and answers 0.
pub record IsAnswering (l : Library) : Type 0 where
  pub answered :
      (t : List Call) (c : Call) → (is_negative (l.answer t c) ≡ true) ⊎ (l.answer t c ≡ success c)
  pub limits :
      (dev eth : ℕ)
      → is_zero (l.vector_limits dev eth).ret ≡ false
      → is_negative (l.vector_limits dev eth).ret ≡ true

abbrev pub eventdev_plan : EventmodeConf → ℕ → List Call → List Call
eventdev_plan c i rest =
    let e = c.eventdev_config i in
    dev_configure e.eventdev_id e.nb_eventqueue e.nb_eventport
    ∷ each (λ j cs. queue_setup e.eventdev_id j e.ev_queue_mode (schedule_type c e j) ∷ cs) 0
        e.nb_eventqueue (each (λ j cs. port_setup e.eventdev_id j ∷ cs) 0 e.nb_eventport rest)

abbrev pub eventdevs_plan : EventmodeConf → List Call
eventdevs_plan c =
    each (eventdev_plan c) 0 c.nb_eventdev (each (λ j cs. link_call c j ∷ cs) 0 c.nb_link [])

abbrev pub rx_adapter_plan : Library → EventmodeConf → RxAdapterConf → List Call
rx_adapter_plan l c a =
    let create =
      rx_create a.adapter_id a.eventdev_id
      ∷ each (λ j cs. rx_add_call a j ∷ cs) 0 a.nb_connections
          (rx_service_id_get a.adapter_id
            ∷ rx_runstate_check a.adapter_id
            ∷ rx_start a.adapter_id
            ∷ []) in
    if c.event_vector then pool_call l c ∷ create else create

abbrev pub unlink_plan : TxAdapterConf → Option EventdevParams → List Call → List Call
unlink_plan a none rest = []
unlink_plan a (some e) rest =
    each (λ j cs. port_unlink a.eventdev_id j a.tx_ev_queue ∷ cs) 0 e.nb_eventport rest

-- Where the adapter needs a core, the Tx queue is unlinked from each port of the device and linked to
-- the port of the adapter.
abbrev pub tx_queue_plan : Library → EventmodeConf → TxAdapterConf → List Call → List Call
tx_queue_plan l c a rest =
    let serve =
      port_link a.eventdev_id (l.tx_event_port a.adapter_id) (some a.tx_ev_queue)
      ∷ tx_service_id_get a.adapter_id
      ∷ tx_runstate_check a.adapter_id
      ∷ rest in
    tx_event_port_get a.adapter_id ∷ unlink_plan a (eh_get_eventdev_params c a.eventdev_id) serve

abbrev pub tx_adapter_plan : Library → EventmodeConf → TxAdapterConf → List Call
tx_adapter_plan l c a =
    let start = tx_start a.adapter_id ∷ [] in
    tx_create a.adapter_id a.eventdev_id
    ∷ each (λ j cs. tx_add_call a j ∷ cs) 0 a.nb_connections
        (if a.tx_core_id == no_core then start else tx_queue_plan l c a start)

abbrev pub ports_plan : (ℕ → Bool) → (ℕ → Call) → List ℕ → List Call → List Call
ports_plan mask call ports rest =
    all (λ port cs. if mask port then call port ∷ cs else cs) ports rest

-- The enabled ports are stopped, the event devices and the adapters set up, the event devices started,
-- and the ports started.
unfoldable pub init_plan : Platform → Library → EventmodeConf → List Call
init_plan p l c = ports_plan c.eth_portmask eth_stop p.eth_devs (
    eventdevs_plan c
    ++ (each (λ i cs. rx_adapter_plan l c (c.rx_adapter i) ++ cs) 0 c.nb_rx_adapter []
        ++ (each (λ i cs. tx_adapter_plan l c (c.tx_adapter i) ++ cs) 0 c.nb_tx_adapter []
            ++ (each (λ i cs. dev_start (c.eventdev_config i).eventdev_id ∷ cs) 0 c.nb_eventdev []
                ++ ports_plan c.eth_portmask eth_start p.eth_devs []))))
