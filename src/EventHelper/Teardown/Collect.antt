-- ===== src/EventHelper/Teardown/Collect.antt =====
-- The queues that the plans of setting up and of releasing add and remove.
use ipsec_secgw_old.Prelude.{
  ℕ, zero, suc, ◌≡◌, refl, sym, ap, ◌∙◌, Bool, ◌==◌, if◌then◌else◌, Bool-cases, inl, inr, List, [],
  ◌∷◌, ◌++◌, append-nil, append_assoc, Option, none, some,
}
use ipsec_secgw_old.EventHelper.{
  no_core, EventdevParams, RxAdapterConf, TxAdapterConf, EventmodeConf, Platform,
}
use ipsec_secgw_old.EventHelper.Devices.{eh_get_eventdev_params}
use ipsec_secgw_old.EventHelper.Calls.{
  Call, dev_configure, queue_setup, port_setup, port_link, rx_queue_add, rx_queue_del, tx_queue_add,
  tx_queue_del, eth_stop, eth_start, dev_start, rx_service_id_get, rx_runstate_check, rx_start,
  tx_start, tx_create, tx_event_port_get, port_unlink, tx_service_id_get, tx_runstate_check,
}
use ipsec_secgw_old.EventHelper.Calls.Follows.{each}
use ipsec_secgw_old.EventHelper.Setup.{
  Library, schedule_type, queue_of, rx_add_call, tx_add_call, link_call,
}
use ipsec_secgw_old.EventHelper.Setup.Plan.{
  eventdev_plan, eventdevs_plan, rx_adapter_plan, unlink_plan, tx_queue_plan, tx_adapter_plan,
  ports_plan, init_plan,
}

-- The adapter and the Ethernet device of a call that adds a queue, or removes one.
abbrev pub rx_added : Call → List (ℕ × ℕ)
rx_added (rx_queue_add adapter eth qid queue) = (adapter, eth) ∷ []
rx_added _ = []

abbrev pub rx_removed : Call → List (ℕ × ℕ)
rx_removed (rx_queue_del adapter eth) = (adapter, eth) ∷ []
rx_removed _ = []

abbrev pub tx_added : Call → List (ℕ × ℕ)
tx_added (tx_queue_add adapter eth qid) = (adapter, eth) ∷ []
tx_added _ = []

abbrev pub tx_removed : Call → List (ℕ × ℕ)
tx_removed (tx_queue_del adapter eth) = (adapter, eth) ∷ []
tx_removed _ = []

abbrev pub collect : (Call → List (ℕ × ℕ)) → List Call → List (ℕ × ℕ)
collect f [] = []
collect f (c ∷ cs) = f c ++ collect f cs

collect-append :
    (f : Call → List (ℕ × ℕ)) (cs ds : List Call)
    → collect f (cs ++ ds) ≡ collect f cs ++ collect f ds
collect-append f [] ds = refl
collect-append f (c ∷ cs) ds =
    ap (λ qs. f c ++ qs) (collect-append f cs ds)
    ∙ sym (append_assoc (f c) (collect f cs) (collect f ds))

-- What a loop collects, from what a round does.
abbrev pub gather : (ℕ → List (ℕ × ℕ)) → ℕ → ℕ → List (ℕ × ℕ) → List (ℕ × ℕ)
gather g i zero rest = rest
gather g i (suc n) rest = g i ++ gather g (suc i) n rest

gather-none : (n i : ℕ) → gather (λ j. []) i n [] ≡ []
gather-none zero i = refl
gather-none (suc n) i = gather-none n (suc i)

pub gather-append :
    (g : ℕ → List (ℕ × ℕ)) (n i : ℕ) (rest : List (ℕ × ℕ))
    → gather g i n rest ≡ gather g i n [] ++ rest
gather-append g zero i rest = refl
gather-append g (suc n) i rest =
    ap (λ qs. g i ++ qs) (gather-append g n (suc i) rest)
    ∙ sym (append_assoc (g i) (gather g (suc i) n []) rest)

module _ (f : Call → List (ℕ × ℕ)) where
  pub collect-each :
      (plan : ℕ → List Call → List Call) (g : ℕ → List (ℕ × ℕ)) (n i : ℕ) (rest : List Call)
      → ((j : ℕ) (cs : List Call) → collect f (plan j cs) ≡ g j ++ collect f cs)
      → collect f (each plan i n rest) ≡ gather g i n (collect f rest)
  collect-each plan g zero i rest round = refl
  collect-each plan g (suc n) i rest round =
      round i (each plan (suc i) n rest)
      ∙ ap (λ qs. g i ++ qs) (collect-each plan g n (suc i) rest round)

  pub collect-each-none :
      (plan : ℕ → List Call → List Call) (n i : ℕ) (rest : List Call)
      → ((j : ℕ) (cs : List Call) → collect f (plan j cs) ≡ collect f cs)
      → collect f (each plan i n rest) ≡ collect f rest
  collect-each-none plan zero i rest round = refl
  collect-each-none plan (suc n) i rest round =
      round i (each plan (suc i) n rest) ∙ collect-each-none plan n (suc i) rest round

  collect-ports :
      (mask : ℕ → Bool) (call : ℕ → Call) (ports : List ℕ) (rest : List Call)
      → ((port : ℕ) → f (call port) ≡ [])
      → collect f (ports_plan mask call ports rest) ≡ collect f rest
  collect-ports mask call [] rest round = refl
  collect-ports mask call (x ∷ xs) rest round = elim (Bool-cases (mask x)) [
    | inl e ↦ rw (e, round x) (collect-ports mask call xs rest round)
    | inr e ↦ rw (e) (collect-ports mask call xs rest round)
  ]

  pub collect-calls :
      (call : ℕ → Call) (n i : ℕ) (rest : List Call)
      → ((j : ℕ) → f (call j) ≡ [])
      → collect f (each (λ j cs. call j ∷ cs) i n rest) ≡ collect f rest
  collect-calls call n i rest silent =
      collect-each-none (λ j cs. call j ∷ cs) n i rest
        (λ j cs. ap (λ qs. qs ++ collect f cs) (silent j))

-- Nothing is collected from the event devices and the ports.
record IsSilent (f : Call → List (ℕ × ℕ)) : Type 0 where
  configure : (id queues ports : ℕ) → f (dev_configure id queues ports) ≡ []
  queue : (id j mode sched : ℕ) → f (queue_setup id j mode sched) ≡ []
  port : (id j : ℕ) → f (port_setup id j) ≡ []
  link : (id port : ℕ) (queue : Option ℕ) → f (port_link id port queue) ≡ []
  start : (id : ℕ) → f (dev_start id) ≡ []
  create_tx : (id dev : ℕ) → f (tx_create id dev) ≡ []
  get_port : (id : ℕ) → f (tx_event_port_get id) ≡ []
  unlink : (id port queue : ℕ) → f (port_unlink id port queue) ≡ []
  get_service : (id : ℕ) → f (tx_service_id_get id) ≡ []
  run_service : (id : ℕ) → f (tx_runstate_check id) ≡ []
  start_tx : (id : ℕ) → f (tx_start id) ≡ []
  stop_eth : (id : ℕ) → f (eth_stop id) ≡ []
  start_eth : (id : ℕ) → f (eth_start id) ≡ []

rx_added-IsSilent : IsSilent rx_added
rx_added-IsSilent = record {
  configure = λ id queues ports. refl;
  queue = λ id j mode sched. refl;
  port = λ id j. refl;
  link = λ id port queue. refl;
  start = λ id. refl;
  create_tx = λ id dev. refl;
  get_port = λ id. refl;
  unlink = λ id port queue. refl;
  get_service = λ id. refl;
  run_service = λ id. refl;
  start_tx = λ id. refl;
  stop_eth = λ id. refl;
  start_eth = λ id. refl;
}

tx_added-IsSilent : IsSilent tx_added
tx_added-IsSilent = record {
  configure = λ id queues ports. refl;
  queue = λ id j mode sched. refl;
  port = λ id j. refl;
  link = λ id port queue. refl;
  start = λ id. refl;
  create_tx = λ id dev. refl;
  get_port = λ id. refl;
  unlink = λ id port queue. refl;
  get_service = λ id. refl;
  run_service = λ id. refl;
  start_tx = λ id. refl;
  stop_eth = λ id. refl;
  start_eth = λ id. refl;
}

module _ (f : Call → List (ℕ × ℕ)) (silent : IsSilent f) (c : EventmodeConf) where
  collect-eventdev : (i : ℕ) (cs : List Call) → collect f (eventdev_plan c i cs) ≡ collect f cs
  collect-eventdev i cs =
      let e = c.eventdev_config i in
      rw (silent.configure e.eventdev_id e.nb_eventqueue e.nb_eventport) (
        collect-calls f (λ j. queue_setup e.eventdev_id j e.ev_queue_mode (schedule_type c e j))
          e.nb_eventqueue 0 _
          (λ j. silent.queue e.eventdev_id j e.ev_queue_mode (schedule_type c e j))
        ∙ collect-calls f (λ j. port_setup e.eventdev_id j) e.nb_eventport 0 cs
            (λ j. silent.port e.eventdev_id j))

  collect-eventdevs : collect f (eventdevs_plan c) ≡ []
  collect-eventdevs =
      collect-each-none f (eventdev_plan c) c.nb_eventdev 0 _ collect-eventdev
      ∙ collect-calls f (link_call c) c.nb_link 0 []
          (λ j. silent.link (c.link j).eventdev_id (c.link j).event_port_id (queue_of c (c.link j)))

  -- What setting up adds comes from the adapters.
  collect-init_plan :
      (p : Platform) (l : Library) (rx tx : List (ℕ × ℕ))
      → collect f (each (λ i cs. rx_adapter_plan l c (c.rx_adapter i) ++ cs) 0 c.nb_rx_adapter [])
        ≡ rx
      → collect f (each (λ i cs. tx_adapter_plan l c (c.tx_adapter i) ++ cs) 0 c.nb_tx_adapter [])
        ≡ tx
      → collect f (init_plan p l c) ≡ rx ++ tx
  unfolding init_plan
  collect-init_plan p l rx tx of_rx of_tx =
      collect-ports f c.eth_portmask eth_stop p.eth_devs _ silent.stop_eth
      ∙ collect-append f (eventdevs_plan c) _
      ∙ rw (collect-eventdevs) (
          collect-append f rx_plan _
          ∙ rw (of_rx) (
              ap (λ qs. rx ++ qs)
                (collect-append f tx_plan (starts ++ ports)
                  ∙ rw (of_tx) (ap (λ qs. tx ++ qs) none_after ∙ append-nil tx))))
    where
      rx_plan : List Call
      rx_plan = each (λ i cs. rx_adapter_plan l c (c.rx_adapter i) ++ cs) 0 c.nb_rx_adapter []

      tx_plan : List Call
      tx_plan = each (λ i cs. tx_adapter_plan l c (c.tx_adapter i) ++ cs) 0 c.nb_tx_adapter []

      starts : List Call
      starts = each (λ i cs. dev_start (c.eventdev_config i).eventdev_id ∷ cs) 0 c.nb_eventdev []

      ports : List Call
      ports = ports_plan c.eth_portmask eth_start p.eth_devs []

      none_after : collect f (starts ++ ports) ≡ []
      none_after =
          collect-append f starts ports
          ∙ rw
              (collect-calls f (λ i. dev_start (c.eventdev_config i).eventdev_id) c.nb_eventdev 0 []
                (λ i. silent.start (c.eventdev_config i).eventdev_id))
              (collect-ports f c.eth_portmask eth_start p.eth_devs [] silent.start_eth)

-- The queues of an adapter, and of all adapters.
abbrev pub rx_queues_of : RxAdapterConf → List (ℕ × ℕ)
rx_queues_of a = gather (λ j. (a.adapter_id, (a.conn j).ethdev_id) ∷ []) 0 a.nb_connections []

abbrev pub tx_queues_of : TxAdapterConf → List (ℕ × ℕ)
tx_queues_of a = gather (λ j. (a.adapter_id, (a.conn j).ethdev_id) ∷ []) 0 a.nb_connections []

module _ (l : Library) (c : EventmodeConf) where
  rx_of_rx_adapter : (a : RxAdapterConf) → collect rx_added (rx_adapter_plan l c a) ≡ rx_queues_of a
  rx_of_rx_adapter a = elim (Bool-cases c.event_vector) [
    | inl e ↦ rw (e) create
    | inr e ↦ rw (e) create
  ]
    where
      create :
          collect rx_added (
            each
              (λ j cs. rx_add_call a j ∷ cs)
              0
              a.nb_connections
              (rx_service_id_get a.adapter_id
                ∷ rx_runstate_check a.adapter_id
                ∷ rx_start a.adapter_id
                ∷ []))
          ≡ rx_queues_of a
      create =
          collect-each rx_added (λ j cs. rx_add_call a j ∷ cs)
            (λ j. (a.adapter_id, (a.conn j).ethdev_id) ∷ []) a.nb_connections 0 _ (λ j cs. refl)

  tx_of_rx_adapter : (a : RxAdapterConf) → collect tx_added (rx_adapter_plan l c a) ≡ []
  tx_of_rx_adapter a = elim (Bool-cases c.event_vector) [
    | inl e ↦ rw (e) create
    | inr e ↦ rw (e) create
  ]
    where
      create :
          collect tx_added (
            each
              (λ j cs. rx_add_call a j ∷ cs)
              0
              a.nb_connections
              (rx_service_id_get a.adapter_id
                ∷ rx_runstate_check a.adapter_id
                ∷ rx_start a.adapter_id
                ∷ []))
          ≡ []
      create = collect-calls tx_added (rx_add_call a) a.nb_connections 0 _ (λ j. refl)

  -- What comes after the queues of a Tx adapter adds none.
  module _ (f : Call → List (ℕ × ℕ)) (silent : IsSilent f) (a : TxAdapterConf) where
    collect-start : collect f (tx_start a.adapter_id ∷ []) ≡ []
    collect-start = rw (silent.start_tx a.adapter_id) refl

    collect-unlink :
        (params : Option EventdevParams) (rest : List Call)
        → collect f rest ≡ []
        → collect f (unlink_plan a params rest) ≡ []
    collect-unlink none rest e = refl
    collect-unlink (some x) rest e =
        collect-calls f (λ j. port_unlink a.eventdev_id j a.tx_ev_queue) x.nb_eventport 0 rest
          (λ j. silent.unlink a.eventdev_id j a.tx_ev_queue)
        ∙ e

    collect-tx_queue : collect f (tx_queue_plan l c a (tx_start a.adapter_id ∷ [])) ≡ []
    collect-tx_queue = rw (silent.get_port a.adapter_id) (
        collect-unlink (eh_get_eventdev_params c a.eventdev_id) _ (
          rw
            (
              silent.link a.eventdev_id (l.tx_event_port a.adapter_id) (some a.tx_ev_queue),
              silent.get_service a.adapter_id,
              silent.run_service a.adapter_id,
            )
            collect-start))

    collect-serve :
        collect f (
          if a.tx_core_id == no_core
          then tx_start a.adapter_id ∷ []
          else tx_queue_plan l c a (tx_start a.adapter_id ∷ []))
        ≡ []
    collect-serve = elim (Bool-cases (a.tx_core_id == no_core)) [
      | inl e ↦ rw (e) collect-start
      | inr e ↦ rw (e) collect-tx_queue
    ]

  rx_of_tx_adapter : (a : TxAdapterConf) → collect rx_added (tx_adapter_plan l c a) ≡ []
  rx_of_tx_adapter a =
      collect-calls rx_added (tx_add_call a) a.nb_connections 0 _ (λ j. refl)
      ∙ collect-serve rx_added rx_added-IsSilent a

  tx_of_tx_adapter : (a : TxAdapterConf) → collect tx_added (tx_adapter_plan l c a) ≡ tx_queues_of a
  tx_of_tx_adapter a =
      collect-each tx_added (λ j cs. tx_add_call a j ∷ cs)
        (λ j. (a.adapter_id, (a.conn j).ethdev_id) ∷ []) a.nb_connections 0 _ (λ j cs. refl)
      ∙ ap (gather (λ j. (a.adapter_id, (a.conn j).ethdev_id) ∷ []) 0 a.nb_connections)
          (collect-serve tx_added tx_added-IsSilent a)

  -- Loops through the adapters, of which each is a part of the plan.
  collect-adapters :
      (f : Call → List (ℕ × ℕ)) (plan : ℕ → List Call) (g : ℕ → List (ℕ × ℕ)) (n : ℕ)
      → ((i : ℕ) → collect f (plan i) ≡ g i)
      → collect f (each (λ i cs. plan i ++ cs) 0 n []) ≡ gather g 0 n []
  collect-adapters f plan g n of_adapter =
      collect-each f (λ i cs. plan i ++ cs) g n 0 []
        (λ i cs. collect-append f (plan i) cs ∙ ap (λ qs. qs ++ collect f cs) (of_adapter i))

  pub rx_of_init_plan :
      (p : Platform)
      → collect rx_added (init_plan p l c)
        ≡ gather (λ i. rx_queues_of (c.rx_adapter i)) 0 c.nb_rx_adapter []
  rx_of_init_plan p =
      collect-init_plan rx_added rx_added-IsSilent c p l
        (gather (λ i. rx_queues_of (c.rx_adapter i)) 0 c.nb_rx_adapter []) []
        (collect-adapters rx_added (λ i. rx_adapter_plan l c (c.rx_adapter i)) _ c.nb_rx_adapter
          (λ i. rx_of_rx_adapter (c.rx_adapter i)))
        (collect-adapters rx_added (λ i. tx_adapter_plan l c (c.tx_adapter i)) (λ i. [])
            c.nb_tx_adapter (λ i. rx_of_tx_adapter (c.tx_adapter i))
          ∙ gather-none c.nb_tx_adapter 0)
      ∙ append-nil (gather (λ i. rx_queues_of (c.rx_adapter i)) 0 c.nb_rx_adapter [])

  pub tx_of_init_plan :
      (p : Platform)
      → collect tx_added (init_plan p l c)
        ≡ gather (λ i. tx_queues_of (c.tx_adapter i)) 0 c.nb_tx_adapter []
  tx_of_init_plan p =
      collect-init_plan tx_added tx_added-IsSilent c p l []
        (gather (λ i. tx_queues_of (c.tx_adapter i)) 0 c.nb_tx_adapter [])
        (collect-adapters tx_added (λ i. rx_adapter_plan l c (c.rx_adapter i)) (λ i. [])
            c.nb_rx_adapter (λ i. tx_of_rx_adapter (c.rx_adapter i))
          ∙ gather-none c.nb_rx_adapter 0)
        (collect-adapters tx_added (λ i. tx_adapter_plan l c (c.tx_adapter i)) _ c.nb_tx_adapter
          (λ i. tx_of_tx_adapter (c.tx_adapter i)))
