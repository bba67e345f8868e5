-- ===== src/EventHelper/Validate.antt =====
-- eh_validate_conf of event_helper.c: what the user left out of the configuration gets its defaults.
pub mod Separate
use ipsec_secgw_old.Prelude.{ℕ, ◌≡◌, Bool, true, false, ◌==◌, if◌then◌else◌, Option, none, some}
use ipsec_secgw_old.EventHelper.{ℤ, pos, negsuc, is_negative, EventmodeConf, Platform}
use ipsec_secgw_old.EventHelper.Devices.{eh_set_default_conf_eventdev, eh_do_capability_check}
use ipsec_secgw_old.EventHelper.Links.{eh_set_default_conf_link}
use ipsec_secgw_old.EventHelper.Adapters.{
  Configured, eh_set_default_conf_rx_adapter, eh_set_default_conf_tx_adapter,
}

abbrev pub is_zero : ℤ → Bool
is_zero (pos n) = n == 0
is_zero (negsuc n) = false

-- A step of eh_validate_conf: it is done where the configuration has none of what it gives, and its
-- error ends the function.
abbrev pub or_default :
    ℕ
    → (EventmodeConf → ℕ → Option Configured)
    → Configured
    → (Configured → Option Configured)
    → Option Configured
or_default given default s next = elim (given == 0) [
  | false ↦ next s
  | true ↦ elim (default s.conf s.prev_core) [
    | none ↦ none
    | some t ↦ elim (is_zero t.ret) [ false ↦ some t | true ↦ next t ]
  ]
]

abbrev pub default_eventdev : Platform → EventmodeConf → ℕ → Option Configured
default_eventdev p c prev =
    let (ret, conf) = eh_set_default_conf_eventdev p c in
    some (record { ret = ret; conf = conf; prev_core = prev })

abbrev pub default_link : Platform → EventmodeConf → ℕ → Option Configured
default_link p c prev = elim (eh_set_default_conf_link p c) [
  | none ↦ none
  | some conf ↦ some (record { ret = pos 0; conf = conf; prev_core = prev })
]

-- The rest of the function from each of its steps on.
abbrev pub validate_tx : Platform → Configured → Option Configured
validate_tx p s = or_default s.conf.nb_tx_adapter (eh_set_default_conf_tx_adapter p) s some

abbrev pub validate_rx : Platform → Configured → Option Configured
validate_rx p s =
    or_default s.conf.nb_rx_adapter (eh_set_default_conf_rx_adapter p) s (validate_tx p)

abbrev pub validate_link : Platform → Configured → Option Configured
validate_link p s =
    let checked = record s { conf = eh_do_capability_check p s.conf } in
    or_default checked.conf.nb_link (default_link p) checked (validate_rx p)

unfoldable pub eh_validate_conf : Platform → EventmodeConf → ℕ → Option Configured
eh_validate_conf p c prev =
    or_default c.nb_eventdev (default_eventdev p)
      (record { ret = pos 0; conf = c; prev_core = prev }) (validate_link p)
