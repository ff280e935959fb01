-- ===== src/ResourceMap/Tests.antt =====
-- The resource map at concrete inputs.
use hostable_32v.Prelude.{ℕ, ◌<◌, ◌≡◌, ◌⊎◌, inl, inr, refl, none, some, [], ◌∷◌, arith}
use hostable_32v.ResourceMap.{Map, entry, malloc, mfree}
use hostable_32v.ResourceMap.Invariant.{covered, IsMap, spare}
use hostable_32v.ResourceMap.Malloc.{NoFit, Taken, malloc_lem}
use hostable_32v.ResourceMap.Insert.{Given, IsFreeable}
use hostable_32v.ResourceMap.Mfree.{mfree_lem}

-- Units 10 to 14 and 30 to 37, and three slots with size 0.
abbrev two_runs : Map
two_runs = entry 5 10 ∷ entry 8 30 ∷ entry 0 0 ∷ entry 0 0 ∷ entry 0 0 ∷ []

two_runs-IsMap : IsMap two_runs
two_runs-IsMap = inr (
  omega arith,
  omega arith,
  omega arith,
  omega arith,
  inr (omega arith, omega arith, omega arith, omega arith, inl (refl, (refl, (refl, tt)))),
)

malloc_first_fit :
    malloc two_runs 6 ≡ some (30, entry 5 10 ∷ entry 2 36 ∷ entry 0 0 ∷ entry 0 0 ∷ entry 0 0 ∷ [])
unfolding malloc
malloc_first_fit = refl

malloc_whole_entry :
    malloc two_runs 5 ≡ some (10, entry 8 30 ∷ entry 0 0 ∷ entry 0 0 ∷ entry 0 0 ∷ entry 0 0 ∷ [])
unfolding malloc
malloc_whole_entry = refl

mfree_joins_both_sides :
    mfree two_runs 15 15 ≡ some (entry 28 10 ∷ entry 0 0 ∷ entry 0 0 ∷ entry 0 0 ∷ entry 0 0 ∷ [])
unfolding mfree
mfree_joins_both_sides = refl

-- Without a slot to spare the terminator is overwritten, and the next call walks off the array.
mfree_without_room : mfree (entry 5 10 ∷ entry 0 0 ∷ []) 2 20 ≡ some (entry 5 10 ∷ entry 2 20 ∷ [])
unfolding mfree
mfree_without_room = refl

walks_off : malloc (entry 5 10 ∷ entry 2 20 ∷ []) 6 ≡ none
unfolding malloc
walks_off = refl

malloc_lem_example :
    (a : ℕ) × (m' : Map) × (malloc two_runs 6 ≡ some (a, m'))
    × (((a ≡ 0) × (m' ≡ two_runs) × NoFit two_runs 6) ⊎ Taken 0 6 a two_runs m')
malloc_lem_example = malloc_lem two_runs 6 two_runs-IsMap

spare-two_runs : 0 < spare two_runs
unfolding spare
spare-two_runs = omega arith

gap-IsFreeable : IsFreeable 4 20 two_runs
unfolding covered
gap-IsFreeable = record {
  some_units = omega arith;
  small = omega arith;
  below = omega arith;
  apart = λ x h. ground arith;
}

mfree_lem_example : (m' : Map) × (mfree two_runs 4 20 ≡ some m') × Given 0 4 20 two_runs m'
mfree_lem_example =
    mfree_lem two_runs 4 20 two_runs-IsMap (omega arith) gap-IsFreeable spare-two_runs
