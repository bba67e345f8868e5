-- ===== src/EventHelper/Teardown/Undo.antt =====
-- Releasing the devices removes the queues that setting them up has added.
use ipsec_secgw_old.Prelude.{ℕ, List, ◌∷◌}
use ipsec_secgw_old.EventHelper.{EventmodeConf}
use ipsec_secgw_old.EventHelper.Calls.{Call, dev_stop, dev_close}

module _ (c : EventmodeConf) where
  closing : ℕ → List Call → List Call
  closing i cs =
      dev_stop (c.eventdev_config i).eventdev_id ∷ dev_close (c.eventdev_config i).eventdev_id ∷ cs
