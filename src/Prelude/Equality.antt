-- ===== src/Prelude/Equality.antt =====
-- A test for equality as an instance: numbers, texts, options and pairs of such. The keys of the
-- source's dictionaries have one.
use Prim.Native.Nat.{ℕ}
use Prim.Native.String.{String}
use mathlib.Core.Path.{◌≡◌, refl, ap}
use mathlib.Core.Logic.{◌↔◌}
use mathlib.Core.Bool.{Bool, true, false, ◌&&◌}
use mathlib.Core.Option.{Option, none, some}
use native.Mathlib.Omega.{arith}
use text.Mathlib.Text.{◌==◌ as same_text}
use text.Mathlib.TextEquality.{eq_iff}
use midicrt.Prelude.Tests.{eqb, eqb_iff}

pub record HasTest {ℓ} (K : Type ℓ) : Type ℓ where
  pub test : K → K → Bool
  pub test_iff : (j k : K) → (test j k ≡ true) ↔ (j ≡ k)

instance abbrev pub text_test : HasTest String
text_test = record { test = same_text; test_iff = eq_iff }

instance abbrev pub number_test : HasTest ℕ
number_test = record { test = eqb; test_iff = eqb_iff }

module _ {ℓ} {K : Type ℓ} ⦃t : HasTest K⦄ where
  infix 50 ◌==◌
  abbrev pub ◌==◌ : K → K → Bool
  j == k = t.test j k

  pub ==_iff : (j k : K) → ((j == k) ≡ true) ↔ (j ≡ k)
  ==_iff j k = t.test_iff j k

  pub ==_refl : (k : K) → (k == k) ≡ true
  ==_refl k = (t.test_iff k k).1 refl

  abbrev pub same_option : Option K → Option K → Bool
  same_option none none = true
  same_option (some j) (some k) = j == k
  same_option _ _ = false

  pub same_option_iff : (j k : Option K) → (same_option j k ≡ true) ↔ (j ≡ k)
  same_option_iff none none = ((λ _. refl), (λ _. refl))
  same_option_iff none (some k) = ((λ h. cc), (λ h. cc))
  same_option_iff (some j) none = ((λ h. cc), (λ h. cc))
  same_option_iff (some j) (some k) =
      ((λ h. ap some ((t.test_iff j k).0 h)), (λ h. (t.test_iff j k).1 (cc)))

  instance abbrev pub option_test : HasTest (Option K)
  option_test = record { test = same_option; test_iff = same_option_iff }

module _ {ℓ} {J K : Type ℓ} ⦃s : HasTest J⦄ ⦃t : HasTest K⦄ where
  abbrev pub same_pair : J × K → J × K → Bool
  same_pair (i, k) (i', k') = s.test i i' && t.test k k'

  pub same_pair_iff : (p q : J × K) → (same_pair p q ≡ true) ↔ (p ≡ q)
  same_pair_iff (i, k) (i', k') = ground (arith, s.test_iff i i', t.test_iff k k')

  instance abbrev pub pair_test : HasTest (J × K)
  pair_test = record { test = same_pair; test_iff = same_pair_iff }
