-- ===== src/EventHelper/Launch.antt =====
-- Starting the workers in event_helper.c: eh_find_worker, eh_verify_match_worker,
-- eh_get_event_lcore_links, eh_get_tx_queue and eh_launch_worker up to the call of the worker.
pub mod Match
use ipsec_secgw_old.Prelude.{
  ℕ, zero, suc, ◌+◌, ◌%◌, ◌≡◌, Bool, true, false, ◌&&◌, ◌||◌, not, ◌==◌, if◌then◌else◌, List, [],
  ◌∷◌, Option, none, some, length,
}
use ipsec_secgw_old.EventHelper.{EhEventLinkInfo, EventmodeConf, Platform, EventdevParams, entries}
use ipsec_secgw_old.EventHelper.Devices.{
  eh_dev_has_tx_internal_port, eh_dev_has_burst_mode, eh_get_eventdev_params,
}

-- The bits of `cap`: EH_RX_TYPE_BURST is 1, EH_TX_TYPE_NO_INTERNAL_PORT is 1, and
-- EH_IPSEC_MODE_TYPE_DRIVER is 1.
pub record EhWorkerCap : Type 0 where
  pub burst : Bool
  pub tx_no_internal_port : Bool
  pub ipsec_driver_mode : Bool

-- A worker: its capabilities, and the number of its thread function, where there is one.
pub record EhAppWorkerParams : Type 0 where
  pub cap : EhWorkerCap
  pub worker_thread : Option ℕ

abbrev pub same_bit : Bool → Bool → Bool
same_bit true b = b
same_bit false b = not b

-- `cap.u64` is the same.
abbrev pub same_cap : EhWorkerCap → EhWorkerCap → Bool
same_cap a b =
    same_bit a.burst b.burst
    && same_bit a.tx_no_internal_port b.tx_no_internal_port
    && same_bit a.ipsec_driver_mode b.ipsec_driver_mode

-- The link that the first loop of eh_find_worker ends at, of the links from `i` on, `n` of them: the
-- first of the core, or else the last that the loop looked at.
unfoldable pub find_link :
    (ℕ → EhEventLinkInfo) → ℕ → ℕ → ℕ → Option EhEventLinkInfo → Option EhEventLinkInfo
find_link link lcore i zero last = last
find_link link lcore i (suc n) last =
    let rest = find_link link lcore (suc i) n (some (link i)) in
    if (link i).lcore_id == lcore then some (link i) else rest

abbrev pub cap_of : Platform → Bool → ℕ → EhWorkerCap
cap_of p driver_mode eventdev_id = record {
  burst = eh_dev_has_burst_mode p eventdev_id;
  tx_no_internal_port = not (eh_dev_has_tx_internal_port p eventdev_id);
  ipsec_driver_mode = driver_mode;
}

unfoldable pub first_match : EhWorkerCap → List EhAppWorkerParams → Option EhAppWorkerParams
first_match cap [] = none
first_match cap (w ∷ ws) =
    let rest = first_match cap ws in if same_cap w.cap cap then some w else rest

unfoldable pub eh_find_worker :
    Platform → ℕ → Bool → EventmodeConf → List EhAppWorkerParams → Option EhAppWorkerParams
unfolding find_link first_match
eh_find_worker p lcore driver_mode c workers = elim (find_link c.link lcore 0 c.nb_link none) [
  | none ↦ none
  | some link ↦ first_match (cap_of p driver_mode link.eventdev_id) workers
]

abbrev pub eh_verify_match_worker : EhAppWorkerParams → Bool
eh_verify_match_worker w = elim w.worker_thread [ none ↦ false | some thread ↦ true ]

-- The first loop of eh_get_event_lcore_links: the count, an octet.
unfoldable pub count_links : (ℕ → EhEventLinkInfo) → ℕ → ℕ → ℕ → ℕ → ℕ
count_links link lcore i zero count = count
count_links link lcore i (suc n) count =
    count_links link lcore (suc i) n
      (if (link i).lcore_id == lcore then (count + 1) % 256 else count)

-- The second loop: the links copied, in order.
unfoldable pub cache_links : (ℕ → EhEventLinkInfo) → ℕ → ℕ → ℕ → List EhEventLinkInfo
cache_links link lcore i zero = []
cache_links link lcore i (suc n) =
    let rest = cache_links link lcore (suc i) n in
    if (link i).lcore_id == lcore then link i ∷ rest else rest

-- The links of the core, and their number. There is a configuration and a place for the links.
unfoldable pub eh_get_event_lcore_links : ℕ → EventmodeConf → List EhEventLinkInfo × ℕ
unfolding count_links cache_links
eh_get_event_lcore_links lcore c =
    (cache_links c.link lcore 0 c.nb_link, count_links c.link lcore 0 c.nb_link 0)

-- -EINVAL as an octet.
abbrev pub einval_octet : ℕ
einval_octet = 234

unfoldable pub eh_get_tx_queue : Option EventmodeConf → ℕ → ℕ
eh_get_tx_queue none eventdev_id = einval_octet
eh_get_tx_queue (some c) eventdev_id = elim (eh_get_eventdev_params c eventdev_id) [
  | none ↦ einval_octet
  | some e ↦ (e.nb_eventqueue + 255) % 256
]

-- What eh_launch_worker does on a core: the services of the adapters, a worker on its links, or
-- nothing after an error. It tells the cores that run services to stop after a worker or no_worker.
pub data Launched : Type 0 where
  eth_core : Launched
  worker : ℕ → List EhEventLinkInfo → ℕ → Launched
  no_worker : Launched
  invalid_args : Launched

unfoldable pub eh_launch_worker :
    Platform → ℕ → Bool → EventmodeConf → List EhAppWorkerParams → Launched
unfolding eh_find_worker eh_get_event_lcore_links
eh_launch_worker p lcore driver_mode c workers =
    let (links, nb_links) = eh_get_event_lcore_links lcore c in
    if c.eth_core_mask lcore
    then eth_core
    else if length workers == 0
    then invalid_args
    else elim (eh_find_worker p lcore driver_mode c workers) [
      | none ↦ no_worker
      | some w ↦ elim w.worker_thread [
        | none ↦ no_worker
        | some thread ↦ worker thread links nb_links
      ]
    ]
