-- ===== src/EventHelper/Validate/Separate.antt =====
-- A configuration that the user left open is validated, and keeps what comes from Rx off the event
-- queue that is reserved for Tx.
use ipsec_secgw_old.Prelude.{
  ℕ, ◌≤◌, ◌<◌, ◌≡◌, ◌≢◌, inl, inr, refl, subst, sym, ◌∙◌, true, false, ◌==◌, Bool-cases, Option,
  some, arith,
}
use ipsec_secgw_old.EventHelper.{ℤ, pos, negsuc, no_core, entries, EventmodeConf, Platform}
use ipsec_secgw_old.EventHelper.Cores.{IsNextLcore}
use ipsec_secgw_old.EventHelper.Devices.{
  all_internal, has_internal_ports, eh_dev_has_tx_internal_port, mark_internal, without_tx_queue,
  eh_set_default_conf_eventdev, eh_do_capability_check,
}
use ipsec_secgw_old.EventHelper.Links.Cover.{default_conf_link-Linked}
use ipsec_secgw_old.EventHelper.Adapters.{
  max_connections_per_adapter, Configured, eh_set_default_conf_rx_adapter,
  eh_set_default_conf_tx_adapter,
}
use ipsec_secgw_old.EventHelper.Adapters.Spread.{
  rx_queues, IsSpread, IsReserved, TxKept, rx_adapter-IsSpread, tx_adapter-IsReserved,
}
use ipsec_secgw_old.EventHelper.Validate.{
  is_zero, or_default, default_eventdev, default_link, validate_tx, validate_rx, validate_link,
  eh_validate_conf,
}

-- What the user can give is not given, and the rest is as eh_conf_init allocates it.
pub record IsUnset (c : EventmodeConf) : Type 0 where
  pub no_eventdev : c.nb_eventdev ≡ 0
  pub no_link : c.nb_link ≡ 0
  pub no_rx_adapter : c.nb_rx_adapter ≡ 0
  pub no_tx_adapter : c.nb_tx_adapter ≡ 0
  pub no_connection : (c.rx_adapter 0).nb_connections ≡ 0
  pub not_internal : (c.eventdev_config 0).all_internal_ports ≡ false

-- The ports are numbered from 0 on, there are no more than an adapter has connections, and the event
-- device has two queues at least. The counters are octets.
pub record IsReady (p : Platform) : Type 0 where
  pub laws : IsNextLcore p
  pub in_order : p.eth_devs ≡ entries (λ j. j) 0 p.eth_dev_count
  pub few_ports : p.eth_dev_count ≤ max_connections_per_adapter
  pub some_queues : 2 ≤ (p.dev_info 0).max_event_queues
  pub queues_small : (p.dev_info 0).max_event_queues ≤ 255
  pub ports_small : (p.dev_info 0).max_event_ports ≤ 255

-- The Rx connections lead to event queues of the device, and to none that is reserved for Tx.
pub record IsSeparated (c : EventmodeConf) : Type 0 where
  pub in_range :
      (j : ℕ)
      → j < (c.rx_adapter 0).nb_connections
      → ((c.rx_adapter 0).conn j).eventq_id < (c.eventdev_config 0).nb_eventqueue
  pub not_reserved :
      (j : ℕ)
      → j < (c.rx_adapter 0).nb_connections
      → (c.tx_adapter 0).tx_core_id ≢ no_core
      → ((c.rx_adapter 0).conn j).eventq_id ≢ (c.tx_adapter 0).tx_ev_queue

-- What the Tx adapter is made from: some event queue for Rx, and internal ports for Tx where the
-- device is marked.
record CanReserve (p : Platform) (d : EventmodeConf) : Type 0 where
  some_queues : 0 < rx_queues d
  queues_small : (d.eventdev_config 0).nb_eventqueue ≤ 255
  internal :
      (d.eventdev_config 0).all_internal_ports ≡ true
      → eh_dev_has_tx_internal_port p (d.eventdev_config 0).eventdev_id ≡ true

-- After the event device is set up, and after the capability check.
record IsProbed (d : EventmodeConf) : Type 0 where
  one_eventdev : d.nb_eventdev ≡ 1
  no_link : d.nb_link ≡ 0
  no_rx_adapter : d.nb_rx_adapter ≡ 0
  no_tx_adapter : d.nb_tx_adapter ≡ 0
  no_connection : (d.rx_adapter 0).nb_connections ≡ 0
  not_internal : (d.eventdev_config 0).all_internal_ports ≡ false
  some_queues : 2 ≤ (d.eventdev_config 0).nb_eventqueue
  queues_small : (d.eventdev_config 0).nb_eventqueue ≤ 255
  ports_small : (d.eventdev_config 0).nb_eventport ≤ 255

record IsChecked (p : Platform) (d : EventmodeConf) : Type 0 where
  no_link : d.nb_link ≡ 0
  ports_small : (d.eventdev_config 0).nb_eventport ≤ 255
  no_rx_adapter : d.nb_rx_adapter ≡ 0
  no_connection : (d.rx_adapter 0).nb_connections ≡ 0
  no_tx_adapter : d.nb_tx_adapter ≡ 0
  can_reserve : CanReserve p d

is_zero-eq : (z : ℤ) → is_zero z ≡ true → z ≡ pos 0
is_zero-eq (pos n) h = ground arith
is_zero-eq (negsuc n) h = cc h

module _ (p : Platform) (c : EventmodeConf) where
  default_conf_eventdev-IsProbed :
      IsReady p
      → IsUnset c
      → (eh_set_default_conf_eventdev p c).0 ≡ pos 0
      → IsProbed (eh_set_default_conf_eventdev p c).1
  unfolding eh_set_default_conf_eventdev
  default_conf_eventdev-IsProbed ready unset ok = ground arith

  capability_check-IsChecked : IsProbed c → IsChecked p (eh_do_capability_check p c)
  unfolding eh_do_capability_check mark_internal without_tx_queue
  capability_check-IsChecked probed =
      elim (Bool-cases (has_internal_ports p (c.eventdev_config 0).eventdev_id)) [
        | inl e ↦
            rw (probed.one_eventdev, e)
              (record {
                no_link = probed.no_link;
                ports_small = probed.ports_small;
                no_rx_adapter = probed.no_rx_adapter;
                no_connection = probed.no_connection;
                no_tx_adapter = probed.no_tx_adapter;
                can_reserve = record {
                  some_queues = omega (arith, probed.some_queues, probed.queues_small);
                  queues_small = omega arith;
                  internal = λ yes. ground (arith, e);
                };
              })
        | inr e ↦
            rw (probed.one_eventdev, e)
              (record {
                no_link = probed.no_link;
                ports_small = probed.ports_small;
                no_rx_adapter = probed.no_rx_adapter;
                no_connection = probed.no_connection;
                no_tx_adapter = probed.no_tx_adapter;
                can_reserve = record {
                  some_queues = ground (arith, probed.some_queues, probed.not_internal);
                  queues_small = probed.queues_small;
                  internal = λ yes. absurd (cc (yes, probed.not_internal));
                };
              })
      ]

-- A step that has to make its default, and the rest after it.
or_default-returns {ℓ κ} :
    (Q : Configured → Type ℓ) (R : Configured → Type κ) (given : ℕ)
    (default : EventmodeConf → ℕ → Option Configured) (s : Configured)
    (next : Configured → Option Configured)
    → given ≡ 0
    → (t : Configured) × (default s.conf s.prev_core ≡ some t) × Q t
    → ((t : Configured)
        → Q t
        → t.ret ≡ pos 0
        → (u : Configured) × (next t ≡ some u) × (u.ret ≡ pos 0 → R u))
    → (u : Configured) × (or_default given default s next ≡ some u) × (u.ret ≡ pos 0 → R u)
or_default-returns Q R given default s next open_ (t, e, q) rest =
    let test : (given == 0) ≡ true = ground arith in
    elim (Bool-cases (is_zero t.ret)) [
      | inl z ↦
          let (u, found, r) = rest t q (is_zero-eq t.ret z) in
          (u, rw (test, e, z, or_default) found, r)
      | inr nz ↦ (t, rw (test, e, nz, or_default) refl, λ ok. absurd (cc (ok, nz)))
    ]

CanReserve-cong :
    (p : Platform) (c d : EventmodeConf)
    → d.eventdev_config ≡ c.eventdev_config
    → CanReserve p c
    → CanReserve p d
CanReserve-cong p c d e can = record {
  some_queues = rw (e) can.some_queues;
  queues_small = rw (e) can.queues_small;
  internal = rw (e) can.internal;
}

reserved-IsSeparated :
    (c d : EventmodeConf)
    → IsSpread (rx_queues c) (c.rx_adapter 0)
    → IsReserved c (d.tx_adapter 0)
    → TxKept c d
    → IsSeparated d
reserved-IsSeparated c d spread reserved (devs, rx) = record {
  in_range = rw (devs, rx) (λ j j_lt. ground (arith, spread j j_lt));
  not_reserved = rw (rx) (λ j j_lt no e. omega (arith, spread j j_lt, e, (reserved no).1));
}

module _ (p : Platform) (ready : IsReady p) where
  -- Where validation goes, it ends, and what it accepts is separated.
  Validates : Option Configured → Type 0
  Validates o = (s : Configured) × (o ≡ some s) × (s.ret ≡ pos 0 → IsSeparated s.conf)

  validate_tx-IsSeparated :
      (s : Configured)
      → s.conf.nb_tx_adapter ≡ 0
      → IsSpread (rx_queues s.conf) (s.conf.rx_adapter 0)
      → CanReserve p s.conf
      → Validates (validate_tx p s)
  unfolding Validates
  validate_tx-IsSeparated s open_ spread can =
      let (t, e, reserved, kept) =
        tx_adapter-IsReserved p s.conf s.prev_core ready.laws can.some_queues can.queues_small (
          subst
            (λ js.
              (s.conf.eventdev_config 0).all_internal_ports ≡ true
              → all_internal (p.tx_caps (s.conf.eventdev_config 0).eventdev_id) js true ≡ true)
            ready.in_order can.internal) in
      or_default-returns (λ t. t.ret ≡ pos 0 → IsSeparated t.conf) (λ t. IsSeparated t.conf)
        s.conf.nb_tx_adapter (eh_set_default_conf_tx_adapter p) s some open_
        (t, e, λ ok. reserved-IsSeparated s.conf t.conf spread (reserved ok) kept)
        (λ u separated ok. (u, refl, separated))

  validate_rx-IsSeparated :
      (s : Configured)
      → s.conf.nb_rx_adapter ≡ 0
      → s.conf.nb_tx_adapter ≡ 0
      → (s.conf.rx_adapter 0).nb_connections ≡ 0
      → CanReserve p s.conf
      → Validates (validate_rx p s)
  unfolding Validates
  validate_rx-IsSeparated s open_rx open_tx no_connection can =
      let (t, e, spread, (devs, devs_nb, tx_nb, tx)) =
        rx_adapter-IsSpread p s.conf s.prev_core ready.laws no_connection can.some_queues in
      let spread_t : IsSpread (rx_queues t.conf) (t.conf.rx_adapter 0) = rw (devs) spread in
      or_default-returns (λ u. u ≡ t) (λ u. IsSeparated u.conf) s.conf.nb_rx_adapter
        (eh_set_default_conf_rx_adapter p) s (validate_tx p) open_rx (t, e, refl)
        (λ u same ok.
          subst (λ v. Validates (validate_tx p v)) (sym same)
            (validate_tx-IsSeparated t (tx_nb ∙ open_tx) spread_t
              (CanReserve-cong p s.conf t.conf devs can)))

  link_done : Configured → EventmodeConf → Configured
  link_done s conf = record { ret = pos 0; conf = conf; prev_core = s.prev_core }

  validate_link-IsSeparated : (s : Configured) → IsProbed s.conf → Validates (validate_link p s)
  unfolding Validates link_done
  validate_link-IsSeparated s probed =
      let checked = capability_check-IsChecked p s.conf probed in
      let (d, e, ((mask, devs, devs_nb, rx_nb, rx, tx_nb, tx), _, _)) =
        default_conf_link-Linked (eh_do_capability_check p s.conf) ready.laws checked.no_link
          checked.ports_small in
      or_default-returns (λ u. u ≡ link_done s d) (λ u. IsSeparated u.conf)
        (eh_do_capability_check p s.conf).nb_link (default_link p)
        (record s { conf = eh_do_capability_check p s.conf }) (validate_rx p) checked.no_link
        (link_done s d, rw (e, default_link) refl, refl)
        (λ u same ok.
          subst (λ v. Validates (validate_rx p v)) (sym same)
            (validate_rx-IsSeparated (link_done s d) (rx_nb ∙ checked.no_rx_adapter)
              (tx_nb ∙ checked.no_tx_adapter) (rw (rx) checked.no_connection)
              (CanReserve-cong p (eh_do_capability_check p s.conf) d devs checked.can_reserve)))

  -- Validation ends, and a configuration that it accepts is separated.
  pub validate_conf-IsSeparated :
      (c : EventmodeConf) (prev : ℕ)
      → IsUnset c
      → (s : Configured) × (eh_validate_conf p c prev ≡ some s)
        × (s.ret ≡ pos 0 → IsSeparated s.conf)
  unfolding eh_validate_conf Validates
  validate_conf-IsSeparated c prev unset =
      or_default-returns (λ s. s.ret ≡ pos 0 → IsProbed s.conf) (λ s. IsSeparated s.conf)
        c.nb_eventdev (default_eventdev p) _ (validate_link p) unset.no_eventdev
        (_, refl, default_conf_eventdev-IsProbed p c ready unset)
        (λ s probed ok. validate_link-IsSeparated s (probed ok))
