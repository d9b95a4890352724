-- ===== src/Common/Enum.antt =====
-- String enumerations: `E(value)` looks a member up by its value, and raises for an unknown one.
use Prim.Native.String.{String}
use mathlib.Core.Path.{◌≡◌}
use mathlib.Core.List.{List, [], ◌∷◌}
use mathlib.Core.Option.{Option, none, some}
use native.Mathlib.Omega.{arith}
use text.Mathlib.Text.{◌==◌}
use text.Mathlib.TextEquality.{eq_iff}
use depthfusion.Common.Tests.{if◌then◌else◌}

module _ {ℓ} {A : Type ℓ} where
  -- The member with a value; `none` stands for the `ValueError`.
  unfoldable pub member_of : (A → String) → List A → String → Option A
  member_of value [] s = none
  member_of value (a ∷ all) s = if value a == s then some a else member_of value all s

  pub value-member_of :
      (value : A → String) (all : List A) (s : String) (a : A)
      → member_of value all s ≡ some a
      → value a ≡ s
  unfolding member_of
  value-member_of value [] s a h = absurd (cc)
  value-member_of value (b ∷ all) s a h =
      ground (arith, eq_iff (value b) s, value-member_of value all s a)
