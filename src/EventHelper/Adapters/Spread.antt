-- ===== src/EventHelper/Adapters/Spread.antt =====
-- The event queues of the default adapters: those for Rx, and the one reserved for Tx.
use ipsec_secgw_old.Prelude.{
  ℕ, zero, suc, ◌+◌, ◌-◌, ◌≤◌, ◌<◌, ◌≡◌, ◌≢◌, inl, inr, refl, subst, Bool, true, false, ◌&&◌, ◌==◌,
  Bool-cases, Option-cases, if◌then◌else◌, List, [], ◌∷◌, Option, none, some, arith,
}
use ipsec_secgw_old.EventHelper.{
  ℤ, pos, is_negative, einval, no_core, update, entries, RxAdapterConf, TxAdapterConf,
  EventmodeConf, AdapterCaps, Platform, max_lcore,
}
use ipsec_secgw_old.EventHelper.Cores.{eh_get_enabled_cores, eh_get_next_eth_core, IsNextLcore}
use ipsec_secgw_old.EventHelper.Cores.Search.{eh_get_next_eth_core-IsReservedCore}
use ipsec_secgw_old.EventHelper.Devices.{all_internal}
use ipsec_secgw_old.EventHelper.Adapters.{
  Configured, unfinished, with_rx_adapter, with_tx_adapter, reserve, unless_error, RxLoop, TxLoop,
  rx_connect, tx_connect, rx_connect_ports, tx_connect_ports, rx_loop, tx_loop, single_ev_queue,
  eh_set_default_conf_rx_adapter, eh_set_default_conf_tx_adapter,
}

-- The event queues that are left for Rx.
abbrev pub rx_queues : EventmodeConf → ℕ
rx_queues c =
    let e = c.eventdev_config 0 in
    if e.all_internal_ports then e.nb_eventqueue else e.nb_eventqueue - 1

-- The connections lead to event queues below the bound.
abbrev pub IsSpread : ℕ → RxAdapterConf → Type 0
IsSpread bound a = (j : ℕ) → j < a.nb_connections → (a.conn j).eventq_id < bound

unless_error-cases {ℓ κ} :
    {A : Type ℓ} (P : A → Type κ) (e : Option ℤ) {old rest : A}
    → P old
    → P rest
    → P (unless_error e old rest)
unless_error-cases P none old rest = rest
unless_error-cases P (some e) old rest = old

all_internal-flag :
    (caps : ℕ → AdapterCaps) (js : List ℕ) (flag : Bool)
    → all_internal caps js flag ≡ true
    → flag ≡ true
unfolding all_internal
all_internal-flag caps [] flag all = all
all_internal-flag caps (j ∷ js) flag all =
    ground (arith, all_internal-flag caps js (flag && (caps j).internal_port))

all_internal-rest :
    (caps : ℕ → AdapterCaps) (j : ℕ) (js : List ℕ) (flag : Bool)
    → all_internal caps (j ∷ js) flag ≡ true
    → all_internal caps js (flag && (caps j).internal_port) ≡ true
unfolding all_internal
all_internal-rest caps j js flag all = ground arith

abbrev pub RxKept : EventmodeConf → EventmodeConf → Type 0
RxKept c d =
    (d.eventdev_config ≡ c.eventdev_config)
    × (d.nb_eventdev ≡ c.nb_eventdev)
    × (d.nb_tx_adapter ≡ c.nb_tx_adapter)
    × (d.tx_adapter ≡ c.tx_adapter)

abbrev pub TxKept : EventmodeConf → EventmodeConf → Type 0
TxKept c d = (d.eventdev_config ≡ c.eventdev_config) × (d.rx_adapter ≡ c.rx_adapter)

-- Where the adapter has a core, the device has a port that is not internal, and the adapter the queue
-- after those for Rx.
abbrev pub IsReserved : EventmodeConf → TxAdapterConf → Type 0
IsReserved c a =
    a.tx_core_id ≢ no_core
    → ((c.eventdev_config 0).all_internal_ports ≡ false) × (a.tx_ev_queue ≡ rx_queues c)

-- An error is a negative number.
abbrev IsError : Option ℤ → Type 0
IsError none = Unit {0}
IsError (some e) = is_negative e ≡ true

module _ (p : Platform) (c : EventmodeConf) where
  rx_connect-IsSpread :
      (single : Bool) (bound i : ℕ) (r : RxLoop)
      → 0 < bound
      → (single ≡ false → i < bound)
      → IsSpread bound r.adapter
      → IsSpread bound (rx_connect p c single i r).adapter
  unfolding rx_connect
  rx_connect-IsSpread single bound i r some_queue fits spread j j_lt = ground (arith, spread j)

  rx_connect_ports-IsSpread :
      (single : Bool) (bound n i : ℕ) (r : RxLoop)
      → 0 < bound
      → (single ≡ false → i + n ≤ bound)
      → IsSpread bound r.adapter
      → IsSpread bound (rx_connect_ports p c single i n r).adapter
  unfolding rx_connect_ports
  rx_connect_ports-IsSpread single bound zero i r some_queue fits spread = spread
  rx_connect_ports-IsSpread single bound (suc n) i r some_queue fits spread =
      unless_error-cases (λ (s : RxLoop). IsSpread bound s.adapter) r.error spread
        (rx_connect_ports-IsSpread single bound n (suc i) (rx_connect p c single i r) some_queue
          (λ f. omega (arith, fits f))
          (rx_connect-IsSpread single bound i r some_queue (λ f. omega (arith, fits f)) spread))

  rx_loop-IsSpread :
      (c.rx_adapter 0).nb_connections ≡ 0
      → 0 < rx_queues c
      → IsSpread (rx_queues c) (rx_loop p c).adapter
  unfolding rx_loop
  rx_loop-IsSpread none_yet some_queue =
      rx_connect_ports-IsSpread (single_ev_queue p c) (rx_queues c) p.eth_dev_count 0 _ some_queue
        (λ f. ground arith) (λ j j_lt. absurd (omega arith))

  tx_connect-internal :
      (i : ℕ) (flag : Bool) (r : TxLoop)
      → (flag && (p.tx_caps (c.eventdev_config 0).eventdev_id i).internal_port) ≡ true
      → r.internal_port ≡ true
      → (tx_connect p c i r).internal_port ≡ true
  unfolding tx_connect
  tx_connect-internal i flag r here internal = ground arith

  -- Where the device has internal ports for Tx everywhere, the loop finds no other port.
  tx_connect_ports-internal :
      (n i : ℕ) (flag : Bool) (r : TxLoop)
      → all_internal (p.tx_caps (c.eventdev_config 0).eventdev_id) (entries (λ j. j) i n) flag
        ≡ true
      → r.internal_port ≡ true
      → (tx_connect_ports p c i n r).internal_port ≡ true
  unfolding tx_connect_ports
  tx_connect_ports-internal zero i flag r all internal = internal
  tx_connect_ports-internal (suc n) i flag r all internal =
      unless_error-cases (λ (s : TxLoop). s.internal_port ≡ true) r.error internal
        (tx_connect_ports-internal n (suc i) (flag && (caps i).internal_port) (tx_connect p c i r)
          rest
          (tx_connect-internal i flag r (all_internal-flag caps (entries (λ j. j) (suc i) n) _ rest)
            internal))
    where
      caps : ℕ → AdapterCaps
      caps = p.tx_caps (c.eventdev_config 0).eventdev_id

      rest : all_internal caps (entries (λ j. j) (suc i) n) (flag && (caps i).internal_port) ≡ true
      rest = all_internal-rest caps i (entries (λ j. j) (suc i) n) flag all

  -- A core for the adapter is looked for, and the search ends.
  next_eth_core-returns :
      (mask : ℕ → Bool) (prev : ℕ)
      → IsNextLcore p
      → (r : ℕ × ℕ) × (eh_get_next_eth_core p mask prev ≡ some r)
  unfolding eh_get_next_eth_core
  next_eth_core-returns mask prev laws = elim (Bool-cases (eh_get_enabled_cores p mask == 0)) [
    | inl e ↦ ((max_lcore, prev), rw (e) refl)
    | inr e ↦
        let (core, found, is_eth) =
          eh_get_next_eth_core-IsReservedCore laws mask prev (ground arith) in
        ((core, core), found)
  ]

  -- The default Rx adapter is made, and spreads its connections over the queues for Rx.
  pub rx_adapter-IsSpread :
      (prev : ℕ)
      → IsNextLcore p
      → (c.rx_adapter 0).nb_connections ≡ 0
      → 0 < rx_queues c
      → (s : Configured) × (eh_set_default_conf_rx_adapter p c prev ≡ some s)
        × IsSpread (rx_queues c) (s.conf.rx_adapter 0)
        × RxKept c s.conf
  unfolding eh_set_default_conf_rx_adapter
  rx_adapter-IsSpread prev laws none_yet some_queue = elim (Bool-cases (c.nb_eventdev == 0)) [
    | inl e ↦ (unfinished einval c prev, rw (e) refl, untouched, (refl, refl, refl, refl))
    | inr some_dev ↦ elim (Option-cases (rx_loop p c).error) [
      | inr (x, e) ↦ (
        unfinished x (record c { rx_adapter = update c.rx_adapter 0 (rx_loop p c).adapter }) prev,
        rw (some_dev, e) refl,
        spread,
        (refl, refl, refl, refl),
      )
      | inl no_error ↦ elim (Bool-cases (rx_loop p c).internal_port) [
        | inl e ↦ (
          with_rx_adapter c (rx_loop p c).adapter no_core prev,
          rw (some_dev, no_error, e) refl,
          spread,
          (refl, refl, refl, refl),
        )
        | inr e ↦
            let ((core, now), found) = next_eth_core-returns c.eth_core_mask prev laws in
            (
              with_rx_adapter c (rx_loop p c).adapter core now,
              rw (some_dev, no_error, e, found) refl,
              spread,
              (refl, refl, refl, refl),
            )
      ]
    ]
  ]
    where
      untouched : IsSpread (rx_queues c) (c.rx_adapter 0)
      untouched j j_lt = absurd (omega arith)

      spread : IsSpread (rx_queues c) (rx_loop p c).adapter
      spread = rx_loop-IsSpread none_yet some_queue

  tx_connect-IsError : (i : ℕ) (r : TxLoop) → IsError r.error → IsError (tx_connect p c i r).error
  unfolding tx_connect
  tx_connect-IsError i r error = elim (Bool-cases (c.eth_portmask i)) [
    | inr off ↦ rw (off) error
    | inl on ↦ elim (Bool-cases (is_negative (p.tx_caps (c.eventdev_config 0).eventdev_id i).ret)) [
      | inl e ↦ rw (on, e) e
      | inr e ↦ rw (on, e) error
    ]
  ]

  tx_connect_ports-IsError :
      (n i : ℕ) (r : TxLoop) → IsError r.error → IsError (tx_connect_ports p c i n r).error
  unfolding tx_connect_ports
  tx_connect_ports-IsError zero i r error = error
  tx_connect_ports-IsError (suc n) i r error =
      unless_error-cases (λ (s : TxLoop). IsError s.error) r.error error
        (tx_connect_ports-IsError n (suc i) (tx_connect p c i r) (tx_connect-IsError i r error))

  tx_loop-IsError : IsError (tx_loop p c).error
  unfolding tx_loop
  tx_loop-IsError = tx_connect_ports-IsError p.eth_dev_count 0 _ tt

  tx_loop-internal :
      all_internal
          (p.tx_caps (c.eventdev_config 0).eventdev_id)
          (entries (λ j. j) 0 p.eth_dev_count)
          true
        ≡ true
      → (tx_loop p c).internal_port ≡ true
  unfolding tx_loop
  tx_loop-internal all = tx_connect_ports-internal p.eth_dev_count 0 true _ all refl

  -- The default Tx adapter is made. Where it needs a core, it has the queue after those for Rx.
  pub tx_adapter-IsReserved :
      (prev : ℕ)
      → IsNextLcore p
      → 0 < rx_queues c
      → (c.eventdev_config 0).nb_eventqueue ≤ 255
      → ((c.eventdev_config 0).all_internal_ports ≡ true
          → all_internal
              (p.tx_caps (c.eventdev_config 0).eventdev_id)
              (entries (λ j. j) 0 p.eth_dev_count)
              true
            ≡ true)
      → (s : Configured) × (eh_set_default_conf_tx_adapter p c prev ≡ some s)
        × (s.ret ≡ pos 0 → IsReserved c (s.conf.tx_adapter 0))
        × TxKept c s.conf
  unfolding eh_set_default_conf_tx_adapter
  tx_adapter-IsReserved prev laws some_queue small internal =
      elim (Bool-cases (c.nb_eventdev == 0)) [
        | inl e ↦ (unfinished einval c prev, rw (e) refl, (λ ok. absurd (cc ok)), (refl, refl))
        | inr some_dev ↦ elim (Option-cases (tx_loop p c).error) [
          | inr (x, e) ↦ (
            unfinished x (record c { tx_adapter = update c.tx_adapter 0 (tx_loop p c).adapter })
                prev,
            rw (some_dev, e) refl,
            (λ ok. absurd (not_ok x e ok)),
            (refl, refl),
          )
          | inl no_error ↦ elim (Bool-cases (tx_loop p c).internal_port) [
            | inl e ↦ (
              with_tx_adapter c (record (tx_loop p c).adapter { tx_core_id = no_core }) prev,
              rw (some_dev, no_error, e) refl,
              (λ ok no. absurd (no refl)),
              (refl, refl),
            )
            | inr e ↦
                let ((core, now), found) = next_eth_core-returns c.eth_core_mask prev laws in
                (
                  with_tx_adapter c (reserve c (tx_loop p c).adapter core) now,
                  rw (some_dev, no_error, e, found) refl,
                  (λ ok no. (external e, ground (arith, external e))),
                  (refl, refl),
                )
          ]
        ]
      ]
    where
      not_ok : (x : ℤ) → (tx_loop p c).error ≡ some x → x ≡ pos 0 → ⊥
      not_ok x e ok = cc (subst IsError e tx_loop-IsError, ok)

      external :
          (tx_loop p c).internal_port ≡ false → (c.eventdev_config 0).all_internal_ports ≡ false
      external e = elim (Bool-cases (c.eventdev_config 0).all_internal_ports) [
        | inl all ↦ absurd (cc (e, tx_loop-internal (internal all)))
        | inr f ↦ f
      ]
