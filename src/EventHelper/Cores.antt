-- ===== src/EventHelper/Cores.antt =====
-- eh_get_enabled_cores, eh_get_next_eth_core and eh_get_next_active_core of event_helper.c. A loop
-- runs on fuel, and has none left when there is no result.
pub mod Search
use ipsec_secgw_old.Prelude.{
  ℕ, zero, suc, ◌≢◌, ◌+◌, ◌-◌, ◌%◌, ◌≤◌, ◌<◌, ◌≡◌, refl, Bool, true, false, ◌&&◌, ◌==◌, ==_iff,
  Bool-cases, subst, sym, if◌then◌else◌, Option, none, some, inl, inr, arith,
}
use native.Mathlib.Decide.{dec_lt, ℕ_discrete}
use ipsec_secgw_old.EventHelper.{max_lcore, no_core, Platform}

-- The cores below `n` that are marked in the mask.
unfoldable pub enabled_below : Platform → (ℕ → Bool) → ℕ → ℕ
enabled_below p mask zero = 0
enabled_below p mask (suc n) =
    enabled_below p mask n + (if p.lcore_is_enabled n && mask n then 1 else 0)

abbrev pub eh_get_enabled_cores : Platform → (ℕ → Bool) → ℕ
eh_get_enabled_cores p mask = enabled_below p mask max_lcore

unfoldable eth_loop : Platform → (ℕ → Bool) → ℕ → ℕ → Option (ℕ × ℕ)
eth_loop p mask zero prev = none
eth_loop p mask (suc fuel) prev =
    let next = p.next_lcore prev false true in
    let rest = eth_loop p mask fuel next in
    if next == max_lcore then some (next, prev) else if mask next then some (next, next) else rest

-- The core, and the new value of the static variable `prev_core`.
unfoldable pub eh_get_next_eth_core : Platform → (ℕ → Bool) → ℕ → Option (ℕ × ℕ)
unfolding eth_loop
eh_get_next_eth_core p mask prev =
    if eh_get_enabled_cores p mask == 0
    then some (max_lcore, prev)
    else eth_loop p mask max_lcore prev

unfoldable active_loop : Platform → (ℕ → Bool) → ℕ → ℕ → Option ℕ
active_loop p mask zero prev = none
active_loop p mask (suc fuel) prev =
    let next = p.next_lcore prev false false in
    let rest = active_loop p mask fuel next in
    if next == max_lcore then some next else if mask next then rest else some next

unfoldable pub eh_get_next_active_core : Platform → (ℕ → Bool) → ℕ → Option ℕ
unfolding active_loop
eh_get_next_active_core p mask prev = active_loop p mask (suc max_lcore) prev

-- The core after `i`: `i + 1` as an `unsigned int`, which is 0 after -1.
abbrev pub after : ℕ → ℕ
after i = (i + 1) % 4_294_967_296

-- How many cores the search from `after i`, past the last core to core 0, comes by before `t`.
abbrev pub ahead : ℕ → ℕ → ℕ
ahead i t = (t + max_lcore - after i % max_lcore) % max_lcore

-- The documented behaviour of rte_get_next_lcore: the first enabled core after the given one, or
-- RTE_MAX_LCORE where there is none; with the wrap, the first in cyclic order.
pub record IsNextLcore (p : Platform) : Type 0 where
  pub next-after : (i : ℕ) → after i ≤ max_lcore → after i ≤ p.next_lcore i false false
  pub next-le : (i : ℕ) → p.next_lcore i false false ≤ max_lcore
  pub next-enabled :
      (i : ℕ)
      → p.next_lcore i false false < max_lcore
      → p.lcore_is_enabled (p.next_lcore i false false) ≡ true
  pub next-least :
      (i j : ℕ) → after i ≤ j → j < p.next_lcore i false false → p.lcore_is_enabled j ≡ false
  pub wrap-lt :
      (i t : ℕ)
      → t < max_lcore
      → p.lcore_is_enabled t ≡ true
      → p.next_lcore i false true < max_lcore
  pub wrap-enabled :
      (i t : ℕ)
      → t < max_lcore
      → p.lcore_is_enabled t ≡ true
      → p.lcore_is_enabled (p.next_lcore i false true) ≡ true
  pub wrap-least :
      (i t : ℕ)
      → t < max_lcore
      → p.lcore_is_enabled t ≡ true
      → ahead i (p.next_lcore i false true) ≤ ahead i t

-- The core after `i` that is not reserved, RTE_MAX_LCORE where there is none.
pub record IsFreeCore (p : Platform) (mask : ℕ → Bool) (i core : ℕ) : Type 0 where
  pub from_after : after i ≤ core
  pub le_max : core ≤ max_lcore
  pub enabled : core < max_lcore → p.lcore_is_enabled core ≡ true
  pub free : core < max_lcore → mask core ≡ false
  pub passed : (j : ℕ) → after i ≤ j → j < core → p.lcore_is_enabled j ≡ true → mask j ≡ true

-- A core that is marked in the mask and enabled.
pub record IsReservedCore (p : Platform) (mask : ℕ → Bool) (core : ℕ) : Type 0 where
  pub lt_max : core < max_lcore
  pub enabled : p.lcore_is_enabled core ≡ true
  pub marked : mask core ≡ true
