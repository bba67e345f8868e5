-- ===== src/EventHelper/Links.antt =====
-- eh_set_default_conf_link of event_helper.c.
pub mod Cover
use ipsec_secgw_old.Prelude.{
  ℕ, zero, suc, ◌+◌, ◌%◌, ◌≡◌, true, false, ◌==◌, if◌then◌else◌, Option, some, none,
}
use ipsec_secgw_old.EventHelper.{
  max_lcore, no_core, update, EhEventLinkInfo, EventmodeConf, Platform,
}
use ipsec_secgw_old.EventHelper.Cores.{eh_get_next_active_core}

-- The link of event port `i` and the core is put after those there are. The ids are octets, and so
-- is the counter.
abbrev pub add_link : EventmodeConf → ℕ → ℕ → EventmodeConf
add_link c i lcore = record c {
  link = update c.link c.nb_link (record (c.link c.nb_link) {
    eventdev_id = (c.eventdev_config 0).eventdev_id;
    event_port_id = i % 256;
    lcore_id = lcore % 256;
  });
  nb_link = (c.nb_link + 1) % 256;
}

-- The loop through the event ports from `i` on, `n` of them.
unfoldable pub link_ports : Platform → ℕ → ℕ → ℕ → EventmodeConf → Option EventmodeConf
link_ports p i zero lcore c = some c
link_ports p i (suc n) lcore c = elim (eh_get_next_active_core p c.eth_core_mask lcore) [
  | none ↦ none
  | some next ↦ elim (next == max_lcore) [
    | true ↦ some c
    | false ↦ link_ports p (suc i) n next (add_link c i next)
  ]
]

unfoldable pub eh_set_default_conf_link : Platform → EventmodeConf → Option EventmodeConf
unfolding link_ports
eh_set_default_conf_link p c =
    link_ports p 0 (c.eventdev_config 0).nb_eventport no_core
      (record c { all_ev_queue_to_ev_port = true })
