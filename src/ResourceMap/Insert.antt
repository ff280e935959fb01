-- ===== src/ResourceMap/Insert.antt =====
-- Where the for loop of UNIX_mfree has stopped and the units do not touch the entry before.
use hostable_32v.Prelude.{
  ℕ, ◌+◌, ◌-◌, ◌%◌, ◌≤◌, ◌<◌, ◌^◌, ◌≡◌, inl, inr, true, false, ◌||◌, some, [], ◌∷◌, arith, ◌==◌,
  Bool-cases, suc,
}
use hostable_32v.ResourceMap.{Entry, entry, Map, shift_in, insert_at, goes_on}
use hostable_32v.ResourceMap.Invariant.{in_range, covered, IsMapFrom, IsMapFrom-mono, spare}

-- The call added the units from `a` on to the free ones, and nothing else.
pub record Given (lo size a : ℕ) (m m' : Map) : Type 0 where
  pub valid : IsMapFrom lo m'
  pub more : (x : ℕ) → covered m' x ≡ (covered m x || in_range a size x)
  pub room : spare m ≤ suc (spare m')

-- A range that is freed: it is not empty, lies below 2^15, and no unit of it is free.
pub record IsFreeable (size a : ℕ) (m : Map) : Type 0 where
  pub some_units : 0 < size
  pub small : size < 2 ^ 15
  pub below : a + size ≤ 2 ^ 15
  pub apart : (x : ℕ) → in_range a size x ≡ true → covered m x ≡ false

pub shift_in-Given :
    (m : Map) (lo size a : ℕ)
    → IsMapFrom (a + size) m
    → lo < a
    → 0 < size
    → size < 2 ^ 15
    → a + size ≤ 2 ^ 15
    → 0 < spare m
    → (m' : Map) × (shift_in m size a ≡ some m') × Given lo size a m m'
unfolding shift_in covered spare
shift_in-Given [] lo size a w l p s b room = absurd w
shift_in-Given (e ∷ []) lo size a (inl (z, az)) l p s b room = absurd (ground arith)
shift_in-Given (e ∷ f ∷ rest) lo size a (inl (z, (fz, az))) l p s b room = (
  entry (size % 2 ^ 16) (a % 2 ^ 16) ∷ f ∷ rest,
  ground arith,
  record {
    valid = inr (omega arith, omega arith, omega arith, omega arith, inl (fz, az));
    more = λ x. ground arith;
    room = ground arith;
  },
)
shift_in-Given (e ∷ rest) lo size a (inr (q, t, k, u, r)) l p s b room =
    let (m', eq, g) = shift_in-Given rest (a + size) e.m_size e.m_addr r k q t u (ground arith) in
    (
      entry (size % 2 ^ 16) (a % 2 ^ 16) ∷ m',
      ground arith,
      record {
        valid = inr (
          omega arith,
          omega arith,
          omega arith,
          omega arith,
          IsMapFrom-mono m' (omega arith) g.valid,
        );
        more = λ x. ground (arith, g.more x);
        room = ground (arith, g.room);
      },
    )

-- A freed range that begins below an entry ends below it.
pub ends_below :
    (b : Entry) (rest : Map) (size a : ℕ)
    → IsFreeable size a (b ∷ rest)
    → 0 < b.m_size
    → a < b.m_addr
    → a + size ≤ b.m_addr
unfolding covered
ends_below b rest size a f p h = ground (arith, f.apart b.m_addr)

pub insert_at-Given :
    (b : Entry) (rest : Map) (lo size a : ℕ)
    → IsMapFrom lo (b ∷ rest)
    → lo < a
    → IsFreeable size a (b ∷ rest)
    → goes_on b a ≡ false
    → 0 < spare (b ∷ rest)
    → (m' : Map) × (insert_at b rest size a ≡ some m') × Given lo size a (b ∷ rest) m'
unfolding insert_at
insert_at-Given b rest lo size a (inl z) l f stop room =
    let (m', eq, g) =
      shift_in-Given (b ∷ rest) lo size a (inl z) l f.some_units f.small f.below room in
    (m', ground (arith, f.some_units), g)
insert_at-Given b rest lo size a (inr (q, t, k, u, r)) l f stop room =
    let over : a + size ≤ b.m_addr = ends_below b rest size a f q (ground arith) in
    elim (Bool-cases ((a + size) == b.m_addr)) [
      | inl meets ↦ (
        entry ((b.m_size + size) % 2 ^ 16) ((b.m_addr + 2 ^ 16 - size % 2 ^ 16) % 2 ^ 16) ∷ rest,
        ground (arith, f.below),
        grown (ground arith),
      )
      | inr misses ↦
          let (m', eq, g) =
            shift_in-Given (b ∷ rest) lo size a (inr (q, t, ground arith, u, r)) l f.some_units
              f.small f.below room in
          (m', ground (arith, f.some_units, f.below), g)
    ]
  where
    grown :
        a + size ≡ b.m_addr
        → Given lo size a (b ∷ rest) (
            entry ((b.m_size + size) % 2 ^ 16) ((b.m_addr + 2 ^ 16 - size % 2 ^ 16) % 2 ^ 16)
            ∷ rest)
    grown e = record {
      valid =
          inr (
            omega arith,
            omega arith,
            omega arith,
            omega arith,
            IsMapFrom-mono rest (omega arith) r,
          );
      more = λ x. unfold covered in ground arith;
      room = unfold spare in ground arith;
    }
