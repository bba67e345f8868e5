-- ===== src/EventHelper/Links/Cover.antt =====
-- The default links give each worker core an event port of its own.
use ipsec_secgw_old.Prelude.{
  ℕ, zero, suc, ◌+◌, ◌≤◌, ◌<◌, ◌≡◌, ◌⊎◌, inl, inr, refl, ◌∙◌, sym, subst, Bool, true, false, ◌==◌,
  Bool-cases, some, arith,
}
use native.Mathlib.Decide.{dec_lt, ℕ_discrete}
use ipsec_secgw_old.EventHelper.{max_lcore, no_core, EventmodeConf, Platform}
use ipsec_secgw_old.EventHelper.Cores.{after, IsNextLcore, IsFreeCore}
use ipsec_secgw_old.EventHelper.Cores.Search.{eh_get_next_active_core-IsFreeCore}
use ipsec_secgw_old.EventHelper.Links.{add_link, link_ports, eh_set_default_conf_link}

-- A core that runs a worker: enabled, and not reserved.
pub record IsWorkerCore (p : Platform) (mask : ℕ → Bool) (core : ℕ) : Type 0 where
  pub lt_max : core < max_lcore
  pub enabled : p.lcore_is_enabled core ≡ true
  pub free : mask core ≡ false

-- The links are those of the worker cores below `bound`, in order, and the event port of a link has
-- the link's index.
pub record IsLinked (p : Platform) (c : EventmodeConf) (bound : ℕ) : Type 0 where
  pub port : (k : ℕ) → k < c.nb_link → (c.link k).event_port_id ≡ k
  pub worker : (k : ℕ) → k < c.nb_link → IsWorkerCore p c.eth_core_mask (c.link k).lcore_id
  pub below : (k : ℕ) → k < c.nb_link → (c.link k).lcore_id < bound
  pub ascending : (j k : ℕ) → j < k → k < c.nb_link → (c.link j).lcore_id < (c.link k).lcore_id
  pub complete :
      (core : ℕ)
      → IsWorkerCore p c.eth_core_mask core
      → core < bound
      → (k : ℕ) × (k < c.nb_link) × ((c.link k).lcore_id ≡ core)

-- The links there were stay, and the new one is of the core given.
lcore_id-add_link-before :
    (c : EventmodeConf) (i next k : ℕ)
    → k < c.nb_link
    → ((add_link c i next).link k).lcore_id ≡ (c.link k).lcore_id
lcore_id-add_link-before c i next k before = ground arith

lcore_id-add_link :
    (c : EventmodeConf) (i next : ℕ)
    → next < max_lcore
    → ((add_link c i next).link c.nb_link).lcore_id ≡ next
lcore_id-add_link c i next small = ground arith

-- The rest of the configuration that the adapters are made from is as it was.
abbrev pub Kept : EventmodeConf → EventmodeConf → Type 0
Kept c d =
    (d.eth_core_mask ≡ c.eth_core_mask)
    × (d.eventdev_config ≡ c.eventdev_config)
    × (d.nb_eventdev ≡ c.nb_eventdev)
    × (d.nb_rx_adapter ≡ c.nb_rx_adapter)
    × (d.rx_adapter ≡ c.rx_adapter)
    × (d.nb_tx_adapter ≡ c.nb_tx_adapter)
    × (d.tx_adapter ≡ c.tx_adapter)

Kept-refl : (c : EventmodeConf) → Kept c c
Kept-refl c = (refl, refl, refl, refl, refl, refl, refl)

-- What the loop gives: the links up to some core, which are all where the ports do not run out.
abbrev pub Linked : Platform → (c : EventmodeConf) (ports : ℕ) (result : EventmodeConf) → Type 0
Linked p c ports d =
    Kept c d
    × (d.nb_link ≤ ports)
    × ((bound : ℕ) × IsLinked p d bound × ((bound ≡ max_lcore) ⊎ (d.nb_link ≡ ports)))

module _ {p : Platform} where
  add_link-IsLinked :
      (c : EventmodeConf) (i lcore next : ℕ)
      → c.nb_link ≡ i
      → IsLinked p c (after lcore)
      → IsFreeCore p c.eth_core_mask lcore next
      → next < max_lcore
      → c.nb_link < 255
      → IsLinked p (add_link c i next) (after next)
  add_link-IsLinked c i lcore next at linked found lt room = record {
    port = λ k k_lt. ground (arith, linked.port k);
    worker = λ k k_lt. worker k (omega arith);
    below = λ k k_lt. ground (arith, linked.below k, found.from_after);
    ascending =
        λ j k j_lt k_lt. ground (arith, linked.ascending j k, linked.below j, found.from_after);
    complete = λ core is_worker core_lt. complete core is_worker (omega arith);
  }
    where
      added : EventmodeConf
      added = add_link c i next

      worker : (k : ℕ) → k ≤ c.nb_link → IsWorkerCore p c.eth_core_mask (added.link k).lcore_id
      worker k k_le = elim (ℕ_discrete k c.nb_link) [
        | yes e ↦
            subst (λ j. IsWorkerCore p c.eth_core_mask (added.link j).lcore_id) (sym e)
              (subst (IsWorkerCore p c.eth_core_mask) (sym (lcore_id-add_link c i next lt))
                (record { lt_max = lt; enabled = found.enabled lt; free = found.free lt }))
        | no ne ↦
            subst (IsWorkerCore p c.eth_core_mask)
              (sym (lcore_id-add_link-before c i next k (omega arith)))
              (linked.worker k (omega arith))
      ]

      complete :
          (core : ℕ)
          → IsWorkerCore p c.eth_core_mask core
          → core ≤ next
          → (k : ℕ) × (k < added.nb_link) × ((added.link k).lcore_id ≡ core)
      complete core is_worker core_le = elim (ℕ_discrete core next) [
        | yes e ↦ (c.nb_link, omega arith, lcore_id-add_link c i next lt ∙ sym e)
        | no ne ↦ elim (dec_lt core (after lcore)) [
          | yes old ↦
              let (k, k_lt, e) = linked.complete core is_worker old in
              (k, omega arith, lcore_id-add_link-before c i next k k_lt ∙ e)
          | no new ↦
              absurd (
                cc
                  (found.passed core (omega arith) (omega arith) is_worker.enabled, is_worker.free))
        ]
      ]

  -- Where the search reaches the end, no worker core is left.
  last-IsLinked :
      (c : EventmodeConf) (lcore : ℕ)
      → IsLinked p c (after lcore)
      → IsFreeCore p c.eth_core_mask lcore max_lcore
      → IsLinked p c max_lcore
  last-IsLinked c lcore linked found = record {
    port = linked.port;
    worker = linked.worker;
    below = λ k k_lt. omega (arith, linked.below k k_lt, found.from_after);
    ascending = linked.ascending;
    complete = λ core is_worker core_lt. elim (dec_lt core (after lcore)) [
      | yes old ↦ linked.complete core is_worker old
      | no new ↦
          absurd (cc (found.passed core (omega arith) core_lt is_worker.enabled, is_worker.free))
    ];
  }

  link_ports-Linked :
      IsNextLcore p
      → (ports n i lcore : ℕ) (c : EventmodeConf) → c.nb_link ≡ i
      → i + n ≡ ports
      → ports ≤ 255
      → after lcore ≤ max_lcore
      → IsLinked p c (after lcore)
      → (d : EventmodeConf) × (link_ports p i n lcore c ≡ some d) × Linked p c ports d
  unfolding link_ports
  link_ports-Linked laws ports zero i lcore c at sum room small linked =
      (c, refl, (Kept-refl c, omega arith, (after lcore, linked, inr (omega arith))))
  link_ports-Linked laws ports (suc n) i lcore c at sum room small linked =
      let (next, e, found) = eh_get_next_active_core-IsFreeCore laws c.eth_core_mask lcore small in
      elim (Bool-cases (next == max_lcore)) [
        | inl last ↦
            let at_max : next ≡ max_lcore = ground arith in
            let found_last : IsFreeCore p c.eth_core_mask lcore max_lcore =
              subst (IsFreeCore p c.eth_core_mask lcore) at_max found in
            (
              c,
              rw (e, last, link_ports) refl,
              (
                Kept-refl c,
                omega arith,
                (max_lcore, last-IsLinked c lcore linked found_last, inl refl),
              ),
            )
        | inr more ↦
            let lt : next < max_lcore = ground (arith, found.le_max) in
            let (d, r, linked_d) =
              link_ports-Linked laws ports n (suc i) next (add_link c i next) (omega arith)
                (omega arith) (omega arith) (omega arith)
                (add_link-IsLinked c i lcore next at linked found lt (omega arith)) in
            (d, rw (e, more, link_ports) r, linked_d)
      ]

  -- The links are made, as many as there are event ports or worker cores, whichever are fewer.
  pub default_conf_link-Linked :
      (c : EventmodeConf)
      → IsNextLcore p
      → c.nb_link ≡ 0
      → (c.eventdev_config 0).nb_eventport ≤ 255
      → (d : EventmodeConf) × (eh_set_default_conf_link p c ≡ some d)
        × Linked p c (c.eventdev_config 0).nb_eventport d
  unfolding eh_set_default_conf_link
  default_conf_link-Linked c laws none_yet few =
      link_ports-Linked laws (c.eventdev_config 0).nb_eventport (c.eventdev_config 0).nb_eventport 0
        no_core (record c { all_ev_queue_to_ev_port = true }) none_yet (omega arith) few
        (omega arith)
        (record {
          port = λ k k_lt. absurd (omega arith);
          worker = λ k k_lt. absurd (omega arith);
          below = λ k k_lt. absurd (omega arith);
          ascending = λ j k j_lt k_lt. absurd (omega arith);
          complete = λ core is_worker core_lt. absurd (omega arith);
        })
