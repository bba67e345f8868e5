-- ===== src/EventHelper/Setup/Refines.antt =====
-- eh_devs_init follows its plan: the calls are those of the plan, in order, up to the first that fails.
use ipsec_secgw_old.Prelude.{
  ℕ, ◌≡◌, refl, ap, ◌∙◌, inl, inr, Bool, true, false, ◌==◌, if◌then◌else◌, Bool-cases, List, [],
  ◌∷◌, ◌++◌, Option, none, some, arith,
}
use ipsec_secgw_old.EventHelper.{
  ℤ, pos, negsuc, is_negative, enomem, no_core, RxAdapterConf, TxAdapterConf, EventmodeConf,
  Platform, EventdevParams,
}
use ipsec_secgw_old.EventHelper.Devices.{eh_get_eventdev_params}
use ipsec_secgw_old.EventHelper.Calls.{
  Answers, Call, dev_configure, queue_setup, port_setup, port_link, port_unlink, dev_start,
  rx_create, tx_create, tx_event_port_get, rx_service_id_get, tx_service_id_get, rx_runstate_check,
  tx_runstate_check, rx_start, tx_start, eth_stop, eth_start, Step, not_negative, is_zero, is_one,
  found_or_esrch, any, finish, perform, require, for_each,
}
use ipsec_secgw_old.EventHelper.Calls.Follows.{
  Follows, Fits, accepts, not_negative-accepts, each, finish-Follows, perform-Follows,
  allocate-Follows, fault-Follows, require-Follows, for_each-Follows, for_all-Follows,
  and_then-Follows,
}
use ipsec_secgw_old.EventHelper.Setup.{
  Library, schedule_type, setup_eventdev, link_call, eh_initialize_eventdev, eh_start_eventdev,
  eh_event_vector_limits_validate, vectors_allowed, rx_add_call, pool_call, unlink_tx_queue,
  with_pool, eh_rx_adapter_configure, eh_initialize_rx_adapter, tx_add_call, setup_tx_queue,
  eh_tx_adapter_configure, eh_initialize_tx_adapter, for_ports, init_devs,
}
use ipsec_secgw_old.EventHelper.Setup.Plan.{
  success, IsAnswering, eventdev_plan, eventdevs_plan, rx_adapter_plan, unlink_plan, tx_queue_plan,
  tx_adapter_plan, ports_plan, init_plan,
}

pub negative : (z : ℤ) → not_negative z ≡ false → is_negative z ≡ true
negative (pos n) e = cc e
negative (negsuc n) e = refl

negative_or_esrch : (z : ℤ) → found_or_esrch z ≡ false → is_negative z ≡ true
negative_or_esrch (pos n) e = cc e
negative_or_esrch (negsuc n) e = refl

zero-not_negative : (z : ℤ) → is_zero z ≡ true → not_negative z ≡ true
zero-not_negative (pos n) e = refl
zero-not_negative (negsuc n) e = cc e

one-not_negative : (z : ℤ) → is_one z ≡ true → not_negative z ≡ true
one-not_negative (pos n) e = refl
one-not_negative (negsuc n) e = cc e

pub negative-Fits : (answer : Answers) (x : Call) → Fits answer not_negative x
negative-Fits answer x = record {
  failing = λ t. negative (answer t x);
  passing = λ t. not_negative-accepts x (answer t x);
}

-- A call whose answer is not tested.
pub any-Fits : (answer : Answers) (x : Call) → ((r : ℤ) → accepts x r ≡ true) → Fits answer any x
any-Fits answer x all_pass = record {
  failing = λ t e. cc e;
  passing = λ t e. all_pass (answer t x);
}

module _ (p : Platform) (l : Library) (laws : IsAnswering l) (c : EventmodeConf) where
  call-Follows :
      (x : Call) {next : Step} {plan : List Call}
      → Follows l.answer next plan
      → Follows l.answer (perform l.answer not_negative x next) (x ∷ plan)
  call-Follows x follows =
      perform-Follows l.answer not_negative x (negative-Fits l.answer x) follows

  -- A test that the documented answer passes.
  success-Fits :
      (ok : ℤ → Bool) (x : Call)
      → ok (success x) ≡ true
      → ((r : ℤ) → ok r ≡ true → not_negative r ≡ true)
      → Fits l.answer ok x
  success-Fits ok x good positive = record {
    failing = λ t failed. elim (laws.answered t x) [
      | inl e ↦ e
      | inr e ↦ absurd (cc (good, failed, ap ok e))
    ];
    passing = λ t passed. not_negative-accepts x (l.answer t x) (positive (l.answer t x) passed);
  }

  service_id-Follows :
      (x : Call) {next : Step} {plan : List Call}
      → ((r : ℤ) → accepts x r ≡ found_or_esrch r)
      → Follows l.answer next plan
      → Follows l.answer (perform l.answer found_or_esrch x next) (x ∷ plan)
  service_id-Follows x same follows =
      perform-Follows l.answer found_or_esrch x
        (record {
          failing = λ t. negative_or_esrch (l.answer t x);
          passing = λ t passed. same (l.answer t x) ∙ passed;
        })
        follows

  any-Follows :
      (x : Call) {next : Step} {plan : List Call}
      → ((r : ℤ) → accepts x r ≡ true)
      → Follows l.answer next plan
      → Follows l.answer (perform l.answer any x next) (x ∷ plan)
  any-Follows x all_pass follows =
      perform-Follows l.answer any x (any-Fits l.answer x all_pass) follows

  calls-Follows :
      (call : ℕ → Call) (n : ℕ) {next : Step} {plan : List Call}
      → Follows l.answer next plan
      → Follows l.answer
          (for_each (λ j. perform l.answer not_negative (call j)) 0 n next)
          (each (λ j cs. call j ∷ cs) 0 n plan)
  calls-Follows call n follows =
      for_each-Follows l.answer (λ j. perform l.answer not_negative (call j)) (λ j cs. call j ∷ cs)
        n 0 (λ j k q f. call-Follows (call j) f) follows

  info-Follows :
      (id : ℕ) {next : Step} {plan : List Call}
      → Follows l.answer next plan
      → Follows l.answer (require not_negative (p.dev_info id).ret next) plan
  info-Follows id follows =
      require-Follows l.answer not_negative (p.dev_info id).ret (negative (p.dev_info id).ret)
        follows

  setup_eventdev-Follows :
      (i : ℕ) (next : Step) (plan : List Call)
      → Follows l.answer next plan
      → Follows l.answer (setup_eventdev p l c i next) (eventdev_plan c i plan)
  unfolding setup_eventdev
  setup_eventdev-Follows i next plan follows =
      let e = c.eventdev_config i in
      info-Follows e.eventdev_id (
        call-Follows (dev_configure e.eventdev_id e.nb_eventqueue e.nb_eventport) (
          calls-Follows (λ j. queue_setup e.eventdev_id j e.ev_queue_mode (schedule_type c e j))
            e.nb_eventqueue
            (calls-Follows (λ j. port_setup e.eventdev_id j) e.nb_eventport follows)))

  initialize_eventdev-Follows : Follows l.answer (eh_initialize_eventdev p l c) (eventdevs_plan c)
  unfolding eh_initialize_eventdev
  initialize_eventdev-Follows =
      for_each-Follows l.answer (setup_eventdev p l c) (eventdev_plan c) c.nb_eventdev 0
        setup_eventdev-Follows
        (calls-Follows (link_call c) c.nb_link (finish-Follows l.answer (pos 0)))

  start_eventdev-Follows :
      Follows l.answer
        (eh_start_eventdev l c)
        (each (λ i cs. dev_start (c.eventdev_config i).eventdev_id ∷ cs) 0 c.nb_eventdev [])
  unfolding eh_start_eventdev
  start_eventdev-Follows =
      calls-Follows (λ i. dev_start (c.eventdev_config i).eventdev_id) c.nb_eventdev
        (finish-Follows l.answer (pos 0))

  limits-negative :
      (a : RxAdapterConf) (j : ℕ)
      → is_zero (vectors_allowed l c a j) ≡ false
      → is_negative (vectors_allowed l c a j) ≡ true
  unfolding eh_event_vector_limits_validate
  limits-negative a j failed = ground (arith, laws.limits a.eventdev_id (a.conn j).ethdev_id)

  rx_connect-Follows :
      (a : RxAdapterConf) (j : ℕ) (next : Step) (plan : List Call)
      → Follows l.answer next plan
      → Follows l.answer
          (require is_zero
            (vectors_allowed l c a j)
            (perform l.answer not_negative (rx_add_call a j) next))
          (rx_add_call a j ∷ plan)
  rx_connect-Follows a j next plan follows =
      require-Follows l.answer is_zero (vectors_allowed l c a j) (limits-negative a j)
        (call-Follows (rx_add_call a j) follows)

  with_pool-Follows :
      {next : Step} {plan : List Call}
      → Follows l.answer next plan
      → Follows l.answer
          (with_pool l c next)
          (if c.event_vector then pool_call l c ∷ plan else plan)
  unfolding with_pool
  with_pool-Follows {next} {plan} follows = elim (Bool-cases c.event_vector) [
    | inl e ↦ rw (e) (allocate-Follows l.answer enomem (pool_call l c) refl follows)
    | inr e ↦ rw (e) follows
  ]

  rx_adapter-Follows :
      (a : RxAdapterConf)
      → Follows l.answer (eh_rx_adapter_configure p l c a) (rx_adapter_plan l c a)
  unfolding eh_rx_adapter_configure
  rx_adapter-Follows a = info-Follows a.eventdev_id (
      with_pool-Follows (
        call-Follows (rx_create a.adapter_id a.eventdev_id) (
          for_each-Follows l.answer _ (λ j cs. rx_add_call a j ∷ cs) a.nb_connections 0
            (rx_connect-Follows a)
            (service_id-Follows (rx_service_id_get a.adapter_id) (λ r. refl)
              (any-Follows (rx_runstate_check a.adapter_id) (λ r. refl)
                (call-Follows (rx_start a.adapter_id) (finish-Follows l.answer (pos 0))))))))

  unlink-Follows :
      (a : TxAdapterConf) (params : Option EventdevParams) {next : Step} {plan : List Call}
      → Follows l.answer next plan
      → Follows l.answer (unlink_tx_queue l a params next) (unlink_plan a params plan)
  unfolding unlink_tx_queue
  unlink-Follows a none follows = fault-Follows l.answer []
  unlink-Follows a (some e) follows =
      for_each-Follows l.answer _ (λ j cs. port_unlink a.eventdev_id j a.tx_ev_queue ∷ cs)
        e.nb_eventport 0
        (λ j k q f. any-Follows (port_unlink a.eventdev_id j a.tx_ev_queue) (λ r. refl) f) follows

  tx_queue-Follows :
      (a : TxAdapterConf) {next : Step} {plan : List Call}
      → Follows l.answer next plan
      → Follows l.answer (setup_tx_queue l c a next) (tx_queue_plan l c a plan)
  unfolding setup_tx_queue
  tx_queue-Follows a {next} {plan} follows =
      perform-Follows l.answer is_zero (tx_event_port_get a.adapter_id)
        (success-Fits is_zero (tx_event_port_get a.adapter_id) refl zero-not_negative)
        (unlink-Follows a (eh_get_eventdev_params c a.eventdev_id) (
          perform-Follows l.answer is_one link (success-Fits is_one link refl one-not_negative) (
            service_id-Follows (tx_service_id_get a.adapter_id) (λ r. refl)
              (any-Follows (tx_runstate_check a.adapter_id) (λ r. refl) follows))))
    where
      link : Call
      link = port_link a.eventdev_id (l.tx_event_port a.adapter_id) (some a.tx_ev_queue)

  tx_adapter-Follows :
      (a : TxAdapterConf)
      → Follows l.answer (eh_tx_adapter_configure p l c a) (tx_adapter_plan l c a)
  unfolding eh_tx_adapter_configure
  tx_adapter-Follows a = info-Follows a.eventdev_id (
      call-Follows (tx_create a.adapter_id a.eventdev_id)
        (calls-Follows (tx_add_call a) a.nb_connections serve))
    where
      start :
          Follows l.answer
            (perform l.answer not_negative (tx_start a.adapter_id) (finish (pos 0)))
            (tx_start a.adapter_id ∷ [])
      start = call-Follows (tx_start a.adapter_id) (finish-Follows l.answer (pos 0))

      serve :
          Follows l.answer
            (if a.tx_core_id == no_core
              then perform l.answer not_negative (tx_start a.adapter_id) (finish (pos 0))
              else setup_tx_queue l c a
                  (perform l.answer not_negative (tx_start a.adapter_id) (finish (pos 0))))
            (if a.tx_core_id == no_core
              then tx_start a.adapter_id ∷ []
              else tx_queue_plan l c a (tx_start a.adapter_id ∷ []))
      serve = elim (Bool-cases (a.tx_core_id == no_core)) [
        | inl e ↦ rw (e) start
        | inr e ↦ rw (e) (tx_queue-Follows a start)
      ]

  rx_adapters-Follows :
      Follows l.answer
        (eh_initialize_rx_adapter p l c)
        (each (λ i cs. rx_adapter_plan l c (c.rx_adapter i) ++ cs) 0 c.nb_rx_adapter [])
  unfolding eh_initialize_rx_adapter
  rx_adapters-Follows =
      for_each-Follows l.answer _ (λ i cs. rx_adapter_plan l c (c.rx_adapter i) ++ cs)
        c.nb_rx_adapter 0
        (λ i k q f. and_then-Follows l.answer (rx_adapter-Follows (c.rx_adapter i)) f)
        (finish-Follows l.answer (pos 0))

  tx_adapters-Follows :
      Follows l.answer
        (eh_initialize_tx_adapter p l c)
        (each (λ i cs. tx_adapter_plan l c (c.tx_adapter i) ++ cs) 0 c.nb_tx_adapter [])
  unfolding eh_initialize_tx_adapter
  tx_adapters-Follows =
      for_each-Follows l.answer _ (λ i cs. tx_adapter_plan l c (c.tx_adapter i) ++ cs)
        c.nb_tx_adapter 0
        (λ i k q f. and_then-Follows l.answer (tx_adapter-Follows (c.tx_adapter i)) f)
        (finish-Follows l.answer (pos 0))

  for_ports-Follows :
      (mask : ℕ → Bool) (ok : ℤ → Bool) (call : ℕ → Call) (ports : List ℕ) {next : Step}
      {plan : List Call}
      → ((port : ℕ) → Fits l.answer ok (call port))
      → Follows l.answer next plan
      → Follows l.answer
          (for_ports mask (λ port. perform l.answer ok (call port)) ports next)
          (ports_plan mask call ports plan)
  unfolding for_ports
  for_ports-Follows mask ok call ports {next} {plan} fits follows =
      for_all-Follows l.answer
        (λ port k. if mask port then perform l.answer ok (call port) k else k)
        (λ port cs. if mask port then call port ∷ cs else cs) ports round follows
    where
      round :
          (port : ℕ) (k : Step) (q : List Call)
          → Follows l.answer k q
          → Follows l.answer
              (if mask port then perform l.answer ok (call port) k else k)
              (if mask port then call port ∷ q else q)
      round port k q f = elim (Bool-cases (mask port)) [
        | inl e ↦ rw (e) (perform-Follows l.answer ok (call port) (fits port) f)
        | inr e ↦ rw (e) f
      ]

  pub init_devs-Follows : Follows l.answer (init_devs p l c) (init_plan p l c)
  unfolding init_devs init_plan
  init_devs-Follows =
      for_ports-Follows c.eth_portmask is_zero eth_stop p.eth_devs
        (λ port. success-Fits is_zero (eth_stop port) refl zero-not_negative)
        (and_then-Follows l.answer initialize_eventdev-Follows (
          and_then-Follows l.answer rx_adapters-Follows (
            and_then-Follows l.answer tx_adapters-Follows (
              and_then-Follows l.answer start_eventdev-Follows (
                for_ports-Follows c.eth_portmask not_negative eth_start p.eth_devs
                  (λ port. negative-Fits l.answer (eth_start port))
                  (finish-Follows l.answer (pos 0)))))))
