-- ===== src/Unprotected/Width.antt =====
-- The result of is_unprotected_port has 8 bits.
use ipsec_secgw_old.Prelude.{
  ℕ, zero, suc, ◌+◌, ◌*◌, ◌/◌, ◌%◌, ◌^◌, ◌≤◌, ◌<◌, ◌≡◌, ◌↔◌, ap, ◌-◌, true, false, arith,
}
use native.Mathlib.Numerals.{towards_suc}
use ipsec_secgw_old.Packet.{u8}
use ipsec_secgw_old.Unprotected.{tests_unprotected}

pow-low : (k : ℕ) → 2 ^ (k + 8) ≡ 256 * 2 ^ k
pow-low k = simp towards_suc (omega arith)

vanishes : (b p : ℕ) → 8 ≤ p → u8 (b * 2 ^ p) ≡ 0
vanishes b p h =
    let split : p ≡ p - 8 + 8 = omega arith in
    omega (arith, ap (λ (q : ℕ). b * 2 ^ q) split, ap (λ (q : ℕ). b * q) (pow-low (p - 8)))

-- Below port 8 the result is nonzero exactly when the bit of the port is set in the mask.
pub tests_unprotected-bit :
    (mask p : ℕ) → p < 8 → (tests_unprotected mask p ≡ true) ↔ (mask / 2 ^ p % 2 ≡ 1)
unfolding tests_unprotected
tests_unprotected-bit mask zero h = (λ e. ground arith, λ e. ground arith)
tests_unprotected-bit mask (suc zero) h = (λ e. ground arith, λ e. ground arith)
tests_unprotected-bit mask (suc (suc zero)) h = (λ e. ground arith, λ e. ground arith)
tests_unprotected-bit mask (suc (suc (suc zero))) h = (λ e. ground arith, λ e. ground arith)
tests_unprotected-bit mask (suc (suc (suc (suc zero)))) h = (λ e. ground arith, λ e. ground arith)
tests_unprotected-bit mask (suc (suc (suc (suc (suc zero))))) h =
    (λ e. ground arith, λ e. ground arith)
tests_unprotected-bit mask (suc (suc (suc (suc (suc (suc zero)))))) h =
    (λ e. ground arith, λ e. ground arith)
tests_unprotected-bit mask (suc (suc (suc (suc (suc (suc (suc zero))))))) h =
    (λ e. ground arith, λ e. ground arith)
tests_unprotected-bit mask (suc (suc (suc (suc (suc (suc (suc (suc p)))))))) h =
    absurd (omega arith)

-- From port 8 up to port 31 the result is zero whatever the mask, since it is cut to 8 bits: no such
-- port counts as unprotected.
pub tests_unprotected-wide : (mask p : ℕ) → 8 ≤ p → p < 32 → tests_unprotected mask p ≡ false
unfolding tests_unprotected
tests_unprotected-wide mask p h lt =
    let same : p % 32 ≡ p = omega arith in
    rw (same) (ground (arith, vanishes (mask / 2 ^ p % 2) p h))
