-- ===== src/Prelude/Counts.antt =====
-- How often a list holds an item that passes a test. Two lists that agree on every test hold the
-- same items, each as often.
use Prim.Native.Nat.{ℕ, ◌+◌}
use mathlib.Core.Path.{◌≡◌, refl, ap, ◌∙◌, sym}
use mathlib.Core.Bool.{Bool}
use mathlib.Core.List.{List, [], ◌∷◌, ◌++◌}
use native.Mathlib.Omega.{arith}
use ipsec_secgw_old.Prelude.Tests.{if◌then◌else◌}
use ipsec_secgw_old.Prelude.Lists.{length, take, drop, take-append-drop}

module _ {ℓ} {A : Type ℓ} where
  abbrev pub count_if : (A → Bool) → List A → ℕ
  count_if p [] = 0
  count_if p (x ∷ xs) = (if p x then 1 else 0) + count_if p xs

  pub count_if-append :
      (p : A → Bool) (xs ys : List A) → count_if p (xs ++ ys) ≡ count_if p xs + count_if p ys
  count_if-append p [] ys = omega arith
  count_if-append p (x ∷ xs) ys = omega (arith, count_if-append p xs ys)

  pub count_if-take-drop :
      (p : A → Bool) (n : ℕ) (xs : List A)
      → count_if p (take n xs) + count_if p (drop n xs) ≡ count_if p xs
  count_if-take-drop p n xs =
      sym (count_if-append p (take n xs) (drop n xs)) ∙ ap (count_if p) (take-append-drop n xs)

  pub count_if-empty : (p : A → Bool) (xs : List A) → length xs ≡ 0 → count_if p xs ≡ 0
  count_if-empty p [] e = refl
  count_if-empty p (x ∷ xs) e = absurd (omega arith)
