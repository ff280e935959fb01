-- ===== src/ResourceMap/Roundtrip.antt =====
-- UNIX_malloc followed by UNIX_mfree of what it returned.
use hostable_32v.Prelude.{ℕ, ◌<◌, ◌^◌, ◌≡◌, ◌≢◌, inl, inr, some, arith, Bool-cases, sym}
use hostable_32v.ResourceMap.{Map, malloc, mfree}
use hostable_32v.ResourceMap.Invariant.{in_range, covered, IsMap, spare}
use hostable_32v.ResourceMap.Malloc.{Taken, malloc_lem}
use hostable_32v.ResourceMap.Insert.{Given, IsFreeable}
use hostable_32v.ResourceMap.Mfree.{mfree_lem}

IsFreeable-Taken :
    (m m' : Map) (size a : ℕ)
    → 0 < size
    → size < 2 ^ 15
    → Taken 0 size a m m'
    → IsFreeable size a m'
IsFreeable-Taken m m' size a p s t = record {
  some_units = p;
  small = s;
  below = t.below;
  apart = λ x h. ground (arith, t.left x);
}

-- A unit that was handed out and given back is free, as before.
regained :
    (m m' m'' : Map) (size a : ℕ)
    → Taken 0 size a m m'
    → Given 0 size a m' m''
    → (x : ℕ) → covered m'' x ≡ covered m x
regained m m' m'' size a t g x = elim (Bool-cases (in_range a size x)) [
  | inl h ↦ ground (arith, t.left x, g.more x, t.had x h)
  | inr h ↦ ground (arith, t.left x, g.more x)
]

-- On a well-formed map with a slot to spare, units that UNIX_malloc hands out can be given back:
-- UNIX_mfree succeeds on them, and leaves a well-formed map that offers exactly the units that the
-- map offered before.
mfree-malloc :
    (m : Map) (size : ℕ)
    → IsMap m
    → 0 < size
    → size < 2 ^ 15
    → 0 < spare m
    → (a : ℕ) (m' : Map) → malloc m size ≡ some (a, m')
    → a ≢ 0
    → (m'' : Map) × (mfree m' size a ≡ some m'')
      × IsMap m''
      × ((x : ℕ) → covered m'' x ≡ covered m x)
mfree-malloc m size w p s room a m' eq ne =
    let (b, n, eq', out) = malloc_lem m size w in
    let same : (b ≡ a) × (n ≡ m') = ground (arith, eq, eq') in
    elim out [
      | inl (z, _, _) ↦ absurd (ground (arith, same))
      | inr t ↦
          let t' : Taken 0 size a m m' = rw (sym same.0, sym same.1) t in
          let (m'', freed, g) =
            mfree_lem m' size a t'.valid t'.above (IsFreeable-Taken m m' size a p s t')
              (omega (arith, t'.room)) in
          (m'', freed, g.valid, regained m m' m'' size a t' g)
    ]
