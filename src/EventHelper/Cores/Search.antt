-- ===== src/EventHelper/Cores/Search.antt =====
-- The loops of eh_get_next_eth_core and eh_get_next_active_core end, and find the core they look for.
use ipsec_secgw_old.Prelude.{
  ℕ, zero, suc, ◌≢◌, ◌+◌, ◌≤◌, ◌<◌, ◌≡◌, refl, Bool, true, false, ◌==◌, Bool-cases, subst, sym,
  some, inl, inr, arith,
}
use native.Mathlib.Decide.{dec_lt, ℕ_discrete}
use ipsec_secgw_old.EventHelper.{max_lcore, Platform}
use ipsec_secgw_old.EventHelper.Cores.{
  enabled_below, eh_get_enabled_cores, eth_loop, eh_get_next_eth_core, active_loop,
  eh_get_next_active_core, after, ahead, IsNextLcore, IsFreeCore, IsReservedCore,
}

ahead-lt :
    (i next t : ℕ)
    → next < max_lcore
    → t < max_lcore
    → next ≢ t
    → ahead i next ≤ ahead i t
    → ahead next t < ahead i t
ahead-lt i next t next_lt t_lt other le = omega arith

module _ {p : Platform} (laws : IsNextLcore p) (mask : ℕ → Bool) where
  -- The loop stops at the core that the library gives, or goes on from it.
  stop-IsFreeCore :
      (i : ℕ)
      → after i ≤ max_lcore
      → (p.next_lcore i false false < max_lcore → mask (p.next_lcore i false false) ≡ false)
      → IsFreeCore p mask i (p.next_lcore i false false)
  stop-IsFreeCore i small free = record {
    from_after = laws.next-after i small;
    le_max = laws.next-le i;
    enabled = laws.next-enabled i;
    free = free;
    passed = λ j from below on. absurd (cc (laws.next-least i j from below, on));
  }

  skip-IsFreeCore :
      (i core : ℕ)
      → after i ≤ max_lcore
      → p.next_lcore i false false < max_lcore
      → mask (p.next_lcore i false false) ≡ true
      → IsFreeCore p mask (p.next_lcore i false false) core
      → IsFreeCore p mask i core
  skip-IsFreeCore i core small lt reserved found = record {
    from_after = omega (arith, found.from_after, laws.next-after i small);
    le_max = found.le_max;
    enabled = found.enabled;
    free = found.free;
    passed = λ j from below on. passed j from below on;
  }
    where
      passed : (j : ℕ) → after i ≤ j → j < core → p.lcore_is_enabled j ≡ true → mask j ≡ true
      passed j from below on = elim (dec_lt j (p.next_lcore i false false)) [
        | yes before ↦ absurd (cc (laws.next-least i j from before, on))
        | no not_before ↦ elim (ℕ_discrete j (p.next_lcore i false false)) [
          | yes e ↦ subst (λ k. mask k ≡ true) (sym e) reserved
          | no ne ↦ found.passed j (omega arith) below on
        ]
      ]

  active_loop-returns :
      (fuel i : ℕ)
      → after i ≤ max_lcore
      → suc max_lcore ≤ fuel + after i
      → (core : ℕ) × (active_loop p mask fuel i ≡ some core) × IsFreeCore p mask i core
  unfolding active_loop
  active_loop-returns zero i small enough = absurd (omega arith)
  active_loop-returns (suc fuel) i small enough =
      elim (Bool-cases (p.next_lcore i false false == max_lcore)) [
        | inl last ↦ (
          p.next_lcore i false false,
          rw (last) refl,
          stop-IsFreeCore i small (λ lt. absurd (ground arith)),
        )
        | inr more ↦ elim (Bool-cases (mask (p.next_lcore i false false))) [
          | inl reserved ↦
              let lt : p.next_lcore i false false < max_lcore = ground (arith, laws.next-le i) in
              let (core, e, found) =
                active_loop-returns fuel (p.next_lcore i false false) (omega (arith, lt))
                  (omega (arith, lt, laws.next-after i small)) in
              (core, rw (more, reserved) e, skip-IsFreeCore i core small lt reserved found)
          | inr free ↦ (
            p.next_lcore i false false,
            rw (more, free) refl,
            stop-IsFreeCore i small (λ lt. free),
          )
        ]
      ]

  enabled_below-IsReservedCore :
      (n : ℕ) → n ≤ max_lcore → 0 < enabled_below p mask n → (core : ℕ) × IsReservedCore p mask core
  unfolding enabled_below
  enabled_below-IsReservedCore zero le h = absurd (omega arith)
  enabled_below-IsReservedCore (suc n) le h = elim (Bool-cases (p.lcore_is_enabled n)) [
    | inl on ↦ elim (Bool-cases (mask n)) [
      | inl marked ↦ (n, record { lt_max = omega arith; enabled = on; marked = marked })
      | inr free ↦ enabled_below-IsReservedCore n (omega arith) (ground arith)
    ]
    | inr off ↦ enabled_below-IsReservedCore n (omega arith) (ground arith)
  ]

  eth_loop-IsReservedCore :
      (t fuel i : ℕ)
      → IsReservedCore p mask t
      → ahead i t < fuel
      → (core : ℕ) × (eth_loop p mask fuel i ≡ some (core, core)) × IsReservedCore p mask core
  unfolding eth_loop
  eth_loop-IsReservedCore t zero i target enough = absurd (omega arith)
  eth_loop-IsReservedCore t (suc fuel) i target enough =
      let lt = laws.wrap-lt i t target.lt_max target.enabled in
      let first : (next == max_lcore) ≡ false = ground (arith, lt) in
      elim (Bool-cases (mask next)) [
        | inl marked ↦ (
          next,
          rw (first, marked) refl,
          record {
            lt_max = lt;
            enabled = laws.wrap-enabled i t target.lt_max target.enabled;
            marked = marked;
          },
        )
        | inr free ↦
            let other : next ≢ t = λ e. cc (e, free, target.marked) in
            let nearer =
              ahead-lt i next t lt target.lt_max other
                (laws.wrap-least i t target.lt_max target.enabled) in
            let (core, e, found) =
              eth_loop-IsReservedCore t fuel next target (omega (arith, nearer)) in
            (core, rw (first, free) e, found)
      ]
    where
      next : ℕ
      next = p.next_lcore i false true

  -- Where a core is marked, the next one is found, however the static variable stands.
  pub eh_get_next_eth_core-IsReservedCore :
      (prev : ℕ)
      → 0 < eh_get_enabled_cores p mask
      → (core : ℕ) × (eh_get_next_eth_core p mask prev ≡ some (core, core))
        × IsReservedCore p mask core
  unfolding eh_get_next_eth_core
  eh_get_next_eth_core-IsReservedCore prev some_core =
      let (t, target) = enabled_below-IsReservedCore max_lcore (omega arith) some_core in
      let (core, e, found) = eth_loop-IsReservedCore t max_lcore prev target (omega arith) in
      let test : (eh_get_enabled_cores p mask == 0) ≡ false = ground arith in
      (core, rw (test) e, found)

  -- The next core that is not reserved is found: the loop ends.
  pub eh_get_next_active_core-IsFreeCore :
      (prev : ℕ)
      → after prev ≤ max_lcore
      → (core : ℕ) × (eh_get_next_active_core p mask prev ≡ some core) × IsFreeCore p mask prev core
  unfolding eh_get_next_active_core
  eh_get_next_active_core-IsFreeCore prev small =
      active_loop-returns (suc max_lcore) prev small (omega arith)
