-- ===== src/ResourceMap/Malloc.antt =====
-- UNIX_malloc: first fit, the units handed out, and the invariant.
use hostable_32v.Prelude.{
  ℕ, ◌+◌, ◌-◌, ◌%◌, ◌≤◌, ◌<◌, ◌^◌, ◌≡◌, ◌⊎◌, inl, inr, refl, true, not, ◌&&◌, some, [], ◌∷◌, arith,
  leb, ◌==◌, Bool-cases, ap,
}
use hostable_32v.ResourceMap.{Entry, entry, Map, cut, malloc}
use hostable_32v.ResourceMap.Invariant.{
  in_range, covered, covered-below, IsMapFrom, IsMapFrom-mono, IsMap, spare, close_gap-Closed,
}

-- No entry before the terminator has `size` units.
unfoldable pub NoFit : Map → ℕ → Type 0
NoFit [] size = Unit
NoFit (e ∷ rest) size = (e.m_size ≡ 0) ⊎ ((e.m_size < size) × NoFit rest size)

-- The call took the units from `a` on out of the free ones, and nothing else.
pub record Taken (lo size a : ℕ) (m m' : Map) : Type 0 where
  pub above : lo < a
  pub below : a + size ≤ 2 ^ 15
  pub valid : IsMapFrom lo m'
  pub had : (x : ℕ) → in_range a size x ≡ true → covered m x ≡ true
  pub left : (x : ℕ) → covered m' x ≡ (covered m x && not (in_range a size x))
  pub room : spare m ≤ spare m'

cut-Taken :
    (e : Entry) (rest : Map) (lo size : ℕ)
    → 0 < e.m_size
    → e.m_size < 2 ^ 15
    → lo < e.m_addr
    → e.m_addr + e.m_size ≤ 2 ^ 15
    → IsMapFrom (e.m_addr + e.m_size) rest
    → size ≤ e.m_size
    → (m' : Map) × (cut e rest size ≡ some (e.m_addr, m')) × Taken lo size e.m_addr (e ∷ rest) m'
unfolding cut covered spare
cut-Taken e rest lo size p s l u r f = elim (Bool-cases (e.m_size == size)) [
  | inl all ↦
      let (m', eq, c) = close_gap-Closed rest (e.m_addr + e.m_size) r in
      (
        m',
        ground arith,
        record {
          above = l;
          below = omega arith;
          valid = IsMapFrom-mono m' (omega arith) c.valid;
          had = λ x. ground arith;
          left = λ x. ground (arith, c.same x, covered-below rest x r);
          room = ground (arith, c.room);
        },
      )
  | inr part ↦ (
    entry ((e.m_size + 2 ^ 16 - size % 2 ^ 16) % 2 ^ 16) ((e.m_addr + size) % 2 ^ 16) ∷ rest,
    ground arith,
    record {
      above = l;
      below = omega arith;
      valid = inr (
        ground arith,
        omega arith,
        omega arith,
        omega arith,
        IsMapFrom-mono rest (omega arith) r,
      );
      had = λ x. ground arith;
      left = λ x. ground (arith, covered-below rest x r);
      room = ground arith;
    },
  )
]

pub malloc-from :
    (m : Map) (lo size : ℕ)
    → IsMapFrom lo m
    → (a : ℕ) × (m' : Map) × (malloc m size ≡ some (a, m'))
      × (((a ≡ 0) × (m' ≡ m) × NoFit m size) ⊎ Taken lo size a m m')
unfolding malloc NoFit covered spare
malloc-from [] lo size w = absurd w
malloc-from (e ∷ rest) lo size (inl (z, az)) = (0, e ∷ rest, ground arith, inl (refl, refl, inl z))
malloc-from (e ∷ rest) lo size (inr (p, s, l, u, r)) = elim (Bool-cases (leb size e.m_size)) [
  | inl f ↦
      let (m', eq, t) = cut-Taken e rest lo size p s l u r (ground arith) in
      (e.m_addr, m', ground arith, inr t)
  | inr f ↦
      let (a, m', eq, out) = malloc-from rest (e.m_addr + e.m_size) size r in
      (
        a,
        e ∷ m',
        ground arith,
        elim out [
          | inl (z, same, nf) ↦ inl (z, ap (λ k. e ∷ k) same, inr (ground arith, nf))
          | inr t ↦ inr (record {
            above = omega (arith, t.above);
            below = t.below;
            valid = inr (p, s, l, u, t.valid);
            had = λ x h. ground (arith, t.had x h);
            left = λ x. ground (arith, t.left x, t.above);
            room = ground (arith, t.room);
          })
        ],
      )
]

-- On a well-formed map UNIX_malloc returns, and either every entry is too small, the result is 0
-- and the map is unchanged; or the `size` units from the result on were free, are free no longer,
-- every other unit is as it was, the map is well formed, and no slot of it was lost.
pub malloc_lem :
    (m : Map) (size : ℕ)
    → IsMap m
    → (a : ℕ) × (m' : Map) × (malloc m size ≡ some (a, m'))
      × (((a ≡ 0) × (m' ≡ m) × NoFit m size) ⊎ Taken 0 size a m m')
malloc_lem m size w = malloc-from m 0 size w
