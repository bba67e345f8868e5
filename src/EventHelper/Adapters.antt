-- ===== src/EventHelper/Adapters.antt =====
-- eh_set_default_conf_rx_adapter and eh_set_default_conf_tx_adapter of event_helper.c. A bit of
-- `eth_portmask` is a test on the port, and RTE_MAX_ETHPORTS is 32.
pub mod Spread
use ipsec_secgw_old.Prelude.{
  ℕ, zero, suc, ◌+◌, ◌%◌, ◌≡◌, Bool, true, false, ◌&&◌, not, ◌==◌, ltb, if◌then◌else◌, Option, none,
  some,
}
use ipsec_secgw_old.EventHelper.{
  ℤ, pos, negsuc, is_negative, einval, no_core, update, RxAdapterConnectionInfo, RxAdapterConf,
  TxAdapterConnectionInfo, TxAdapterConf, EventmodeConf, AdapterCaps, Platform,
}
use ipsec_secgw_old.EventHelper.Cores.{eh_get_next_eth_core}

-- What a configuration function leaves: its result, the configuration, and the static variable
-- `prev_core` of eh_get_next_eth_core.
pub record Configured : Type 0 where
  pub ret : ℤ
  pub conf : EventmodeConf
  pub prev_core : ℕ

-- A loop through the ports: its error if one stopped it, the adapter so far, and whether each port
-- connected so far has an internal port.
pub record RxLoop : Type 0 where
  pub error : Option ℤ
  pub adapter : RxAdapterConf
  pub internal_port : Bool

pub record TxLoop : Type 0 where
  pub error : Option ℤ
  pub adapter : TxAdapterConf
  pub internal_port : Bool

-- EVENT_MODE_MAX_CONNECTIONS_PER_ADAPTER and EVENT_MODE_MAX_CONNECTIONS_PER_TX_ADAPTER.
abbrev pub max_connections_per_adapter : ℕ
max_connections_per_adapter = 16

-- One round for port `i`. The connection is written before the capabilities are asked for, and
-- counted after. `conn` has 16 entries, and the source does not test for its end: the rounds are those
-- of the source for at most 16 ports, and for more it writes past the array.
unfoldable pub rx_connect : Platform → EventmodeConf → Bool → ℕ → RxLoop → RxLoop
rx_connect p c single_ev_queue i r =
    let a = r.adapter in
    let caps = p.rx_caps (c.eventdev_config 0).eventdev_id i in
    let written = record a {
      conn = update a.conn a.nb_connections (record {
        ethdev_id = i % 256;
        eventq_id = if single_ev_queue then 0 else i % 256;
        ethdev_rx_qid = negsuc 0;
      });
    } in
    if not (c.eth_portmask i)
    then r
    else if is_negative caps.ret
    then record r { error = some caps.ret; adapter = written }
    else record r {
      adapter = record written { nb_connections = (a.nb_connections + 1) % 256 };
      internal_port = r.internal_port && caps.internal_port;
    }

unfoldable pub tx_connect : Platform → EventmodeConf → ℕ → TxLoop → TxLoop
tx_connect p c i r =
    let a = r.adapter in
    let caps = p.tx_caps (c.eventdev_config 0).eventdev_id i in
    let written = record a {
      conn =
          update a.conn a.nb_connections (record { ethdev_id = i % 256; ethdev_tx_qid = negsuc 0 });
    } in
    if not (c.eth_portmask i)
    then r
    else if is_negative caps.ret
    then record r { error = some caps.ret; adapter = written }
    else record r {
      adapter = record written { nb_connections = (a.nb_connections + 1) % 256 };
      internal_port = r.internal_port && caps.internal_port;
    }

-- A loop goes on unless there was an error.
abbrev pub unless_error {ℓ} : {A : Type ℓ} → Option ℤ → A → A → A
unless_error none old rest = rest
unless_error (some e) old rest = old

-- The loops through the ports from `i` on, `n` of them, up to the first error.
unfoldable pub rx_connect_ports : Platform → EventmodeConf → Bool → ℕ → ℕ → RxLoop → RxLoop
rx_connect_ports p c single_ev_queue i zero r = r
rx_connect_ports p c single_ev_queue i (suc n) r =
    let rest =
      rx_connect_ports p c single_ev_queue (suc i) n (rx_connect p c single_ev_queue i r) in
    unless_error r.error r rest

unfoldable pub tx_connect_ports : Platform → EventmodeConf → ℕ → ℕ → TxLoop → TxLoop
tx_connect_ports p c i zero r = r
tx_connect_ports p c i (suc n) r =
    let rest = tx_connect_ports p c (suc i) n (tx_connect p c i r) in unless_error r.error r rest

-- More Ethernet devices than event queues for Rx. Where one queue is for Tx, there may be none left,
-- which the source counts as -1 or 0.
abbrev pub single_ev_queue : Platform → EventmodeConf → Bool
single_ev_queue p c =
    let e = c.eventdev_config 0 in
    if e.all_internal_ports
    then ltb e.nb_eventqueue p.eth_dev_count
    else ltb e.nb_eventqueue (p.eth_dev_count + 1)

unfoldable pub rx_loop : Platform → EventmodeConf → RxLoop
rx_loop p c = rx_connect_ports p c (single_ev_queue p c) 0 p.eth_dev_count (record {
  error = none;
  adapter = record (c.rx_adapter 0) {
    eventdev_id = (c.eventdev_config 0).eventdev_id;
    adapter_id = 0;
  };
  internal_port = true;
})

abbrev pub unfinished : ℤ → EventmodeConf → ℕ → Configured
unfinished e c prev = record { ret = e; conf = c; prev_core = prev }

-- The adapter is complete: the core for it is set, and it is counted.
abbrev pub with_rx_adapter : EventmodeConf → RxAdapterConf → ℕ → ℕ → Configured
with_rx_adapter c a core prev = record {
  ret = pos 0;
  conf = record c {
    rx_adapter = update c.rx_adapter 0 (record a { rx_core_id = core });
    nb_rx_adapter = 1;
  };
  prev_core = prev;
}

unfoldable pub eh_set_default_conf_rx_adapter : Platform → EventmodeConf → ℕ → Option Configured
eh_set_default_conf_rx_adapter p c prev =
    let r = rx_loop p c in
    let kept = record c { rx_adapter = update c.rx_adapter 0 r.adapter } in
    if c.nb_eventdev == 0 then some (unfinished einval c prev) else elim r.error [
      | some e ↦ some (unfinished e kept prev)
      | none ↦ elim r.internal_port [
        | true ↦ some (with_rx_adapter c r.adapter no_core prev)
        | false ↦ elim (eh_get_next_eth_core p c.eth_core_mask prev) [
          | none ↦ none
          | some (core, now) ↦ some (with_rx_adapter c r.adapter core now)
        ]
      ]
    ]

unfoldable pub tx_loop : Platform → EventmodeConf → TxLoop
tx_loop p c = tx_connect_ports p c 0 p.eth_dev_count (record {
  error = none;
  adapter = record (c.tx_adapter 0) {
    eventdev_id = (c.eventdev_config 0).eventdev_id;
    adapter_id = 0;
  };
  internal_port = true;
})

abbrev pub with_tx_adapter : EventmodeConf → TxAdapterConf → ℕ → Configured
with_tx_adapter c a prev = record {
  ret = pos 0;
  conf = record c { tx_adapter = update c.tx_adapter 0 a; nb_tx_adapter = 1 };
  prev_core = prev;
}

-- Where a core is needed for Tx, the last event queue is reserved. The number of the queue is an octet.
abbrev pub reserve : EventmodeConf → TxAdapterConf → ℕ → TxAdapterConf
reserve c a core = record a {
  tx_core_id = core;
  tx_ev_queue = ((c.eventdev_config 0).nb_eventqueue + 255) % 256;
}

unfoldable pub eh_set_default_conf_tx_adapter : Platform → EventmodeConf → ℕ → Option Configured
eh_set_default_conf_tx_adapter p c prev =
    let r = tx_loop p c in
    let kept = record c { tx_adapter = update c.tx_adapter 0 r.adapter } in
    if c.nb_eventdev == 0 then some (unfinished einval c prev) else elim r.error [
      | some e ↦ some (unfinished e kept prev)
      | none ↦ elim r.internal_port [
        | true ↦ some (with_tx_adapter c (record r.adapter { tx_core_id = no_core }) prev)
        | false ↦ elim (eh_get_next_eth_core p c.eth_core_mask prev) [
          | none ↦ none
          | some (core, now) ↦ some (with_tx_adapter c (reserve c r.adapter core) now)
        ]
      ]
    ]
