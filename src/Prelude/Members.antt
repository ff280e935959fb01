-- ===== src/Prelude/Members.antt =====
-- Membership in a list of native numbers, as a test.
use Prim.Native.Nat.{ℕ}
use mathlib.Core.Path.{◌≡◌, refl}
use mathlib.Core.Bool.{Bool, true, false, not, ◌&&◌, ◌||◌}
use mathlib.Core.List.{List, [], ◌∷◌, ◌++◌}
use native.Mathlib.Omega.{arith}
use hostable_32v.Prelude.Tests.{◌==◌, if◌then◌else◌}

abbrev pub member : ℕ → List ℕ → Bool
member a [] = false
member a (b ∷ bs) = (a == b) || member a bs

-- The list without the number, wherever it stands.
unfoldable pub remove : ℕ → List ℕ → List ℕ
remove a [] = []
remove a (b ∷ bs) = if b == a then remove a bs else b ∷ remove a bs

-- No number stands twice in the list.
unfoldable pub distinct : List ℕ → Bool
distinct [] = true
distinct (a ∷ bs) = not (member a bs) && distinct bs

pub member-remove : (a b : ℕ) (bs : List ℕ) → member a (remove b bs) ≡ (member a bs && not (a == b))
unfolding remove
member-remove a b [] = refl
member-remove a b (c ∷ cs) = ground (arith, member-remove a b cs)

pub member-append : (a : ℕ) (bs cs : List ℕ) → member a (bs ++ cs) ≡ (member a bs || member a cs)
member-append a [] cs = refl
member-append a (b ∷ bs) cs = ground (arith, member-append a bs cs)
