-- ===== src/EventHelper/Startup.antt =====
-- From eh_conf_init through eh_devs_init.
use ipsec_secgw_old.Prelude.{◌≡◌, refl, arith, true, false, List, [], some}
use ipsec_secgw_old.EventHelper.{pos, is_negative, EventmodeConf, Platform}
use ipsec_secgw_old.EventHelper.Adapters.{Configured}
use ipsec_secgw_old.EventHelper.Validate.Separate.{IsUnset, IsSeparated}
use ipsec_secgw_old.EventHelper.Calls.{Call, End, returned}
use ipsec_secgw_old.EventHelper.Calls.Follows.{FollowsFrom}
use ipsec_secgw_old.EventHelper.Setup.{Library, EhConf}
use ipsec_secgw_old.EventHelper.Setup.Plan.{init_plan}
use ipsec_secgw_old.EventHelper.Conf.{Allocations, default_mode, zeroed, eh_conf_init}

pub default_mode-IsUnset : (p : Platform) → IsUnset (default_mode p)
unfolding zeroed
default_mode-IsUnset p = record {
  no_eventdev = refl;
  no_link = refl;
  no_rx_adapter = refl;
  no_tx_adapter = refl;
  no_connection = refl;
  not_internal = refl;
}

-- The configuration that a start begins with leaves everything open.
pub conf_init-IsUnset :
    (p : Platform) (a : Allocations) (conf : EhConf)
    → eh_conf_init p a ≡ some conf
    → (c : EventmodeConf) × (conf.mode_params ≡ some c) × IsUnset c
unfolding eh_conf_init
conf_init-IsUnset p a conf e = (default_mode p, ground arith, default_mode-IsUnset p)

-- The mode's parameters with the mask of the ports.
abbrev pub with_ports : EhConf → EventmodeConf → EventmodeConf
with_ports conf c = record c { eth_portmask = conf.eth_portmask }

-- What eh_devs_init does, by what validation gives.
pub record IsStarted (p : Platform) (l : Library) (s : Configured) (run : End × List Call)
    : Type 0 where
  pub separated : s.ret ≡ pos 0 → IsSeparated s.conf
  pub follows : is_negative s.ret ≡ false → FollowsFrom l.answer [] run (init_plan p l s.conf)
  pub refused : is_negative s.ret ≡ true → run ≡ (returned s.ret, [])
