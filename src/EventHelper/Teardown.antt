-- ===== src/EventHelper/Teardown.antt =====
-- Releasing the devices in event_helper.c: eh_devs_uninit, and the plan that it follows.
pub mod Collect
pub mod Undo
use ipsec_secgw_old.Prelude.{
  ℕ, ◌≡◌, refl, Bool, not, if◌then◌else◌, List, [], ◌∷◌, Option, none, some,
}
use ipsec_secgw_old.EventHelper.{ℤ, pos, einval, RxAdapterConf, TxAdapterConf, EventmodeConf}
use ipsec_secgw_old.EventHelper.Calls.{
  Call, rx_stop, rx_queue_del, rx_free, tx_stop, tx_queue_del, tx_free, dev_stop, dev_close, End,
  returned, Answers, Step, not_negative, any, finish, perform, for_each,
}
use ipsec_secgw_old.EventHelper.Calls.Follows.{
  Follows, each, finish-Follows, perform-Follows, for_each-Follows,
}
use ipsec_secgw_old.EventHelper.Setup.{EhConf}
use ipsec_secgw_old.EventHelper.Setup.Refines.{negative-Fits, any-Fits}

unfoldable pub release_rx : Answers → RxAdapterConf → Step → Step
unfolding perform for_each
release_rx answer a next = perform answer not_negative (rx_stop a.adapter_id) (
    for_each (λ j. perform answer not_negative (rx_queue_del a.adapter_id (a.conn j).ethdev_id)) 0
      a.nb_connections (perform answer not_negative (rx_free a.adapter_id) next))

unfoldable pub release_tx : Answers → TxAdapterConf → Step → Step
unfolding perform for_each
release_tx answer a next = perform answer not_negative (tx_stop a.adapter_id) (
    for_each (λ j. perform answer not_negative (tx_queue_del a.adapter_id (a.conn j).ethdev_id)) 0
      a.nb_connections (perform answer not_negative (tx_free a.adapter_id) next))

unfoldable pub release_eventdev : Answers → EventmodeConf → ℕ → Step → Step
unfolding perform
release_eventdev answer c i next =
    let id = (c.eventdev_config i).eventdev_id in
    perform answer any (dev_stop id) (perform answer not_negative (dev_close id) next)

unfoldable pub release_devs : Answers → EventmodeConf → Step
unfolding release_rx release_tx release_eventdev for_each finish
release_devs answer c =
    for_each (λ i. release_rx answer (c.rx_adapter i)) 0 c.nb_rx_adapter
      (for_each (release_eventdev answer c) 0 c.nb_eventdev
        (for_each (λ i. release_tx answer (c.tx_adapter i)) 0 c.nb_tx_adapter (finish (pos 0))))

unfoldable pub eh_devs_uninit : Answers → Option EhConf → End × List Call
unfolding release_devs
eh_devs_uninit answer none = (returned einval, [])
eh_devs_uninit answer (some conf) =
    if not conf.event_mode
    then (returned (pos 0), [])
    else elim conf.mode_params [ none ↦ (returned einval, []) | some c ↦ release_devs answer c [] ]

abbrev pub release_rx_plan : RxAdapterConf → List Call → List Call
release_rx_plan a rest =
    rx_stop a.adapter_id
    ∷ each (λ j cs. rx_queue_del a.adapter_id (a.conn j).ethdev_id ∷ cs) 0 a.nb_connections
        (rx_free a.adapter_id ∷ rest)

abbrev pub release_tx_plan : TxAdapterConf → List Call → List Call
release_tx_plan a rest =
    tx_stop a.adapter_id
    ∷ each (λ j cs. tx_queue_del a.adapter_id (a.conn j).ethdev_id ∷ cs) 0 a.nb_connections
        (tx_free a.adapter_id ∷ rest)

-- The Rx adapters, the event devices, and the Tx adapters.
unfoldable pub release_plan : EventmodeConf → List Call
release_plan c =
    each (λ i. release_rx_plan (c.rx_adapter i)) 0 c.nb_rx_adapter
      (each
        (λ i cs.
          dev_stop (c.eventdev_config i).eventdev_id
          ∷ dev_close (c.eventdev_config i).eventdev_id
          ∷ cs)
        0 c.nb_eventdev (each (λ i. release_tx_plan (c.tx_adapter i)) 0 c.nb_tx_adapter []))

module _ (answer : Answers) where
  call-Follows :
      (x : Call) {next : Step} {plan : List Call}
      → Follows answer next plan
      → Follows answer (perform answer not_negative x next) (x ∷ plan)
  call-Follows x follows = perform-Follows answer not_negative x (negative-Fits answer x) follows

  release_rx-Follows :
      (a : RxAdapterConf) (next : Step) (plan : List Call)
      → Follows answer next plan
      → Follows answer (release_rx answer a next) (release_rx_plan a plan)
  unfolding release_rx
  release_rx-Follows a next plan follows = call-Follows (rx_stop a.adapter_id) (
      for_each-Follows answer _ (λ j cs. rx_queue_del a.adapter_id (a.conn j).ethdev_id ∷ cs)
        a.nb_connections 0
        (λ j k q f. call-Follows (rx_queue_del a.adapter_id (a.conn j).ethdev_id) f)
        (call-Follows (rx_free a.adapter_id) follows))

  release_tx-Follows :
      (a : TxAdapterConf) (next : Step) (plan : List Call)
      → Follows answer next plan
      → Follows answer (release_tx answer a next) (release_tx_plan a plan)
  unfolding release_tx
  release_tx-Follows a next plan follows = call-Follows (tx_stop a.adapter_id) (
      for_each-Follows answer _ (λ j cs. tx_queue_del a.adapter_id (a.conn j).ethdev_id ∷ cs)
        a.nb_connections 0
        (λ j k q f. call-Follows (tx_queue_del a.adapter_id (a.conn j).ethdev_id) f)
        (call-Follows (tx_free a.adapter_id) follows))

  -- The devices are released in order, up to the first call that fails.
  pub release_devs-Follows :
      (c : EventmodeConf) → Follows answer (release_devs answer c) (release_plan c)
  unfolding release_devs release_eventdev release_plan
  release_devs-Follows c =
      for_each-Follows answer _ (λ i. release_rx_plan (c.rx_adapter i)) c.nb_rx_adapter 0
        (λ i. release_rx-Follows (c.rx_adapter i))
        (for_each-Follows answer _ _ c.nb_eventdev 0
          (λ i k q f.
            perform-Follows answer any (dev_stop (c.eventdev_config i).eventdev_id)
              (any-Fits answer (dev_stop (c.eventdev_config i).eventdev_id) (λ r. refl))
              (call-Follows (dev_close (c.eventdev_config i).eventdev_id) f))
          (for_each-Follows answer _ (λ i. release_tx_plan (c.tx_adapter i)) c.nb_tx_adapter 0
            (λ i. release_tx-Follows (c.tx_adapter i)) (finish-Follows answer (pos 0))))
