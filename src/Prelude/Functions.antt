-- ===== src/Prelude/Functions.antt =====
-- Tables as functions of a native number.
use Prim.Native.Nat.{ℕ}
use mathlib.Core.Path.{◌≡◌}
use mathlib.Core.Logic.{◌≢◌}
use mathlib.Core.Bool.{false, true}
use native.Mathlib.Omega.{arith}
use hostable_32v.Prelude.Tests.{◌==◌, if◌then◌else◌}

module _ {ℓ} {A : Type ℓ} where
  unfoldable pub override : (ℕ → A) → ℕ → A → ℕ → A
  override f i v j = if j == i then v else f j

  pub override_self : (f : ℕ → A) (i : ℕ) (v : A) → override f i v i ≡ v
  unfolding override
  override_self f i v = let here : (i == i) ≡ true = ground arith in rw here

  pub override_ne : (f : ℕ → A) (i : ℕ) (v : A) (j : ℕ) → j ≢ i → override f i v j ≡ f j
  unfolding override
  override_ne f i v j n = let there : (j == i) ≡ false = ground (arith, n) in rw there
