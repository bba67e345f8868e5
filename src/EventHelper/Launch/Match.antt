-- ===== src/EventHelper/Launch/Match.antt =====
-- The links that a worker is started with, and the worker that is started.
use ipsec_secgw_old.Prelude.{
  ℕ, zero, suc, ◌+◌, ◌%◌, ◌≤◌, ◌<◌, ◌≡◌, ◌≢◌, inl, inr, refl, sym, subst, ◌⊎◌, ap, ◌∙◌, Bool, true,
  false, ◌==◌, Bool-cases, List, [], ◌∷◌, Option, none, some, length, arith,
}
use native.Mathlib.Decide.{dec_lt, ℕ_discrete}
use ipsec_secgw_old.EventHelper.{EhEventLinkInfo, EventmodeConf, Platform, max_lcore}
use ipsec_secgw_old.EventHelper.Cores.{IsNextLcore}
use ipsec_secgw_old.EventHelper.Links.{eh_set_default_conf_link}
use ipsec_secgw_old.EventHelper.Links.Cover.{IsWorkerCore, IsLinked, default_conf_link-Linked}
use ipsec_secgw_old.EventHelper.Launch.{
  EhAppWorkerParams, find_link, cap_of, first_match, eh_find_worker, count_links, cache_links,
  eh_get_event_lcore_links,
}

module _ (link : ℕ → EhEventLinkInfo) (lcore : ℕ) where
  count_links-eq :
      (n i count : ℕ)
      → count + n ≤ 255
      → count_links link lcore i n count ≡ count + length (cache_links link lcore i n)
  unfolding count_links cache_links
  count_links-eq zero i count small = omega arith
  count_links-eq (suc n) i count small = elim (Bool-cases ((link i).lcore_id == lcore)) [
    | inl e ↦ rw (e) (omega (arith, count_links-eq n (suc i) ((count + 1) % 256) (omega arith)))
    | inr e ↦ rw (e) (count_links-eq n (suc i) count (omega arith))
  ]

  cache_links-none :
      (n i : ℕ)
      → ((j : ℕ) → i ≤ j → j < i + n → (link j).lcore_id ≢ lcore)
      → cache_links link lcore i n ≡ []
  unfolding cache_links
  cache_links-none zero i others = refl
  cache_links-none (suc n) i others =
      let e : ((link i).lcore_id == lcore) ≡ false =
        ground (arith, others i (omega arith) (omega arith)) in
      rw (e) (cache_links-none n (suc i) (λ j le lt. others j (omega arith) (omega arith)))

  cache_links-one :
      (n i k : ℕ)
      → i ≤ k
      → k < i + n
      → (link k).lcore_id ≡ lcore
      → ((j : ℕ) → i ≤ j → j < i + n → j ≢ k → (link j).lcore_id ≢ lcore)
      → cache_links link lcore i n ≡ link k ∷ []
  unfolding cache_links
  cache_links-one zero i k le lt own others = absurd (omega arith)
  cache_links-one (suc n) i k le lt own others = elim (ℕ_discrete i k) [
    | yes same ↦
        let e : ((link i).lcore_id == lcore) ≡ true =
          ground (arith, ap (λ j. (link j).lcore_id) same) in
        rw (e) (
          ap (λ j. link j ∷ cache_links link lcore (suc i) n) same
          ∙ ap (λ ls. link k ∷ ls)
              (cache_links-none n (suc i)
                (λ j le_j lt_j. others j (omega arith) (omega arith) (omega arith))))
    | no ne ↦
        let e : ((link i).lcore_id == lcore) ≡ false =
          ground (arith, others i (omega arith) (omega arith) ne) in
        rw (e) (
          cache_links-one n (suc i) k (omega arith) (omega arith) own
            (λ j le_j lt_j. others j (omega arith) (omega arith)))
  ]

-- The number that comes with the links is how many there are: the buffer is as large as its contents.
pub lcore_links-length :
    (lcore : ℕ) (c : EventmodeConf)
    → c.nb_link ≤ 255
    → (eh_get_event_lcore_links lcore c).1 ≡ length (eh_get_event_lcore_links lcore c).0
unfolding eh_get_event_lcore_links
lcore_links-length lcore c small =
    omega (arith, count_links-eq c.link lcore c.nb_link 0 0 (omega arith))

-- A core of the default links has exactly one.
lcore_links-one :
    (p : Platform) (bound : ℕ) (c : EventmodeConf) (k : ℕ)
    → IsLinked p c bound
    → c.nb_link ≤ 255
    → k < c.nb_link
    → eh_get_event_lcore_links (c.link k).lcore_id c ≡ (c.link k ∷ [], 1)
unfolding eh_get_event_lcore_links
lcore_links-one p bound c k linked small lt =
    rw (count_links-eq c.link (c.link k).lcore_id c.nb_link 0 0 (omega arith), one) refl
  where
    others : (j : ℕ) → 0 ≤ j → j < 0 + c.nb_link → j ≢ k → (c.link j).lcore_id ≢ (c.link k).lcore_id
    others j le lt_j ne = elim (dec_lt j k) [
      | yes below ↦ λ e. omega (arith, linked.ascending j k below lt, e)
      | no above ↦ λ e. omega (arith, linked.ascending k j (omega arith) (omega arith), e)
    ]

    one : cache_links c.link (c.link k).lcore_id 0 c.nb_link ≡ c.link k ∷ []
    one =
        cache_links-one c.link (c.link k).lcore_id c.nb_link 0 k (omega arith) (omega arith) refl
          others

-- The core's worker is started with one link, that of the core, and with no other core's event port.
pub record HasOwnPort (d : EventmodeConf) (core k : ℕ) : Type 0 where
  pub counted : k < d.nb_link
  pub own_core : (d.link k).lcore_id ≡ core
  pub own_port : (d.link k).event_port_id ≡ k
  pub one_link : eh_get_event_lcore_links core d ≡ (d.link k ∷ [], 1)

pub default_links-HasOwnPort :
    (p : Platform) (c : EventmodeConf)
    → IsNextLcore p
    → c.nb_link ≡ 0
    → (c.eventdev_config 0).nb_eventport ≤ 255
    → (d : EventmodeConf) × (eh_set_default_conf_link p c ≡ some d)
      × (d.nb_link ≤ (c.eventdev_config 0).nb_eventport)
      × ((core : ℕ)
          → IsWorkerCore p c.eth_core_mask core
          → d.nb_link < (c.eventdev_config 0).nb_eventport
          → (k : ℕ) × HasOwnPort d core k)
default_links-HasOwnPort p c laws none_yet few =
    let (d, e, (kept, le, (bound, linked, ends))) = default_conf_link-Linked c laws none_yet few in
    (d, e, le, λ core is_worker more. own_port d bound core le kept.0 linked ends is_worker more)
  where
    own_port :
        (d : EventmodeConf) (bound core : ℕ)
        → d.nb_link ≤ (c.eventdev_config 0).nb_eventport
        → d.eth_core_mask ≡ c.eth_core_mask
        → IsLinked p d bound
        → (bound ≡ max_lcore) ⊎ (d.nb_link ≡ (c.eventdev_config 0).nb_eventport)
        → IsWorkerCore p c.eth_core_mask core
        → d.nb_link < (c.eventdev_config 0).nb_eventport
        → (k : ℕ) × HasOwnPort d core k
    own_port d bound core le mask linked (inr out) is_worker more = absurd (omega arith)
    own_port d bound core le mask linked (inl all) is_worker more =
        let (k, lt, own) =
          linked.complete core (subst (λ m. IsWorkerCore p m core) (sym mask) is_worker)
            (omega (arith, is_worker.lt_max)) in
        (
          k,
          record {
            counted = lt;
            own_core = own;
            own_port = linked.port k lt;
            one_link =
                subst (λ l. eh_get_event_lcore_links l d ≡ (d.link k ∷ [], 1)) own
                  (lcore_links-one p bound d k linked (omega arith) lt);
          },
        )

-- On a core without a link, the search ends at the last link, which is another core's.
find_link-last :
    (link : ℕ → EhEventLinkInfo) (lcore n i : ℕ) (last : Option EhEventLinkInfo)
    → ((j : ℕ) → i ≤ j → j < i + suc n → (link j).lcore_id ≢ lcore)
    → find_link link lcore i (suc n) last ≡ some (link (i + n))
unfolding find_link
find_link-last link lcore zero i last others =
    let e : ((link i).lcore_id == lcore) ≡ false =
      ground (arith, others i (omega arith) (omega arith)) in
    rw (e) (ap (λ j. some (link j)) (omega arith))
find_link-last link lcore (suc n) i last others =
    let e : ((link i).lcore_id == lcore) ≡ false =
      ground (arith, others i (omega arith) (omega arith)) in
    rw (e) (
      find_link-last link lcore n (suc i) (some (link i))
        (λ j le lt. others j (omega arith) (omega arith))
      ∙ ap (λ j. some (link j)) (omega arith))

-- So a core without a link is given a worker by the event device of the last link.
pub find_worker-unlinked :
    (p : Platform) (lcore n : ℕ) (driver_mode : Bool) (c : EventmodeConf)
    (workers : List EhAppWorkerParams)
    → c.nb_link ≡ suc n
    → ((j : ℕ) → j < suc n → (c.link j).lcore_id ≢ lcore)
    → eh_find_worker p lcore driver_mode c workers
      ≡ first_match (cap_of p driver_mode (c.link n).eventdev_id) workers
unfolding eh_find_worker
find_worker-unlinked p lcore n driver_mode c workers some_links others =
    rw
      (
        some_links,
        find_link-last c.link lcore n 0 none (λ j le lt. others j (omega arith)),
        eh_find_worker,
      )
      (ap (λ j. first_match (cap_of p driver_mode (c.link j).eventdev_id) workers) (omega arith))
