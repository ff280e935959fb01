-- ===== src/ResourceMap/Mfree.antt =====
-- UNIX_mfree: the units freed, coalescing, and the invariant.
use hostable_32v.Prelude.{
  ℕ, ◌+◌, ◌%◌, ◌≤◌, ◌<◌, ◌^◌, ◌≡◌, inl, inr, true, false, some, [], ◌∷◌, arith, ◌==◌, Bool-cases,
}
use hostable_32v.ResourceMap.{Entry, entry, Map, extend, goes_on, mfree_behind, mfree}
use hostable_32v.ResourceMap.Invariant.{
  covered, IsMapFrom, IsMapFrom-mono, IsMap, spare, Closed, close_gap-Closed,
}
use hostable_32v.ResourceMap.Insert.{Given, IsFreeable, ends_below, insert_at-Given}

-- An entry of a map whose first `lo` units are passed over, and what follows it.
record IsEntry (lo : ℕ) (p : Entry) (rest : Map) : Type 0 where
  size_pos : 0 < p.m_size
  size_short : p.m_size < 2 ^ 15
  above : lo < p.m_addr
  below : p.m_addr + p.m_size ≤ 2 ^ 15
  follows : IsMapFrom (p.m_addr + p.m_size) rest

-- A freed range that begins at or behind the start of an entry begins behind its end.
begins_behind :
    (p : Entry) (rest : Map) (lo size a : ℕ)
    → IsEntry lo p rest
    → IsFreeable size a (p ∷ rest)
    → p.m_addr ≤ a
    → p.m_addr + p.m_size ≤ a
unfolding covered
begins_behind p rest lo size a e f h = ground (arith, f.apart a, f.some_units, e.size_pos)

IsFreeable-tail :
    (p : Entry) (rest : Map) (lo size a : ℕ)
    → IsEntry lo p rest
    → IsFreeable size a (p ∷ rest)
    → IsFreeable size a rest
unfolding covered
IsFreeable-tail p rest lo size a e f = record {
  some_units = f.some_units;
  small = f.small;
  below = f.below;
  apart = λ x h. ground (arith, f.apart x h, e.size_pos);
}

Given-cons :
    (p : Entry) (m m' : Map) (lo size a : ℕ)
    → IsEntry lo p m
    → Given (p.m_addr + p.m_size) size a m m'
    → Given lo size a (p ∷ m) (p ∷ m')
unfolding covered spare
Given-cons p m m' lo size a e g = record {
  valid = inr (e.size_pos, e.size_short, e.above, e.below, g.valid);
  more = λ x. ground (arith, g.more x, e.size_pos);
  room = ground (arith, g.room, e.size_pos);
}

-- An entry that the for loop passes over is before the terminator.
IsEntry-goes_on :
    (b : Entry) (rest : Map) (lo a : ℕ)
    → IsMapFrom lo (b ∷ rest)
    → goes_on b a ≡ true
    → IsEntry lo b rest
IsEntry-goes_on b rest lo a (inl z) go = absurd (ground arith)
IsEntry-goes_on b rest lo a (inr (q, t, k, u, r)) go = record {
  size_pos = q;
  size_short = t;
  above = k;
  below = u;
  follows = r;
}

spare-cons : (b : Entry) (rest : Map) → 0 < b.m_size → spare (b ∷ rest) ≡ spare rest
unfolding spare
spare-cons b rest q = ground arith

module _ (p b : Entry) (rest : Map) (lo size a : ℕ) where
  extend-Given :
      IsEntry lo p (b ∷ rest)
      → IsFreeable size a (p ∷ b ∷ rest)
      → p.m_addr + p.m_size ≡ a
      → goes_on b a ≡ false
      → (m' : Map) × (extend p b rest size a ≡ some m') × Given lo size a (p ∷ b ∷ rest) m'
  extend-Given e f meets stop = go e.follows
    where
      alone :
          IsMapFrom (a + size) (b ∷ rest)
          → Given lo size a (p ∷ b ∷ rest) (entry ((p.m_size + size) % 2 ^ 16) p.m_addr ∷ b ∷ rest)
      alone w = record {
        valid = inr (
          omega (arith, f.below, e.size_pos),
          omega (arith, f.below, e.above),
          e.above,
          omega (arith, f.below),
          IsMapFrom-mono (b ∷ rest) (omega (arith, f.below)) w,
        );
        more = λ x. unfold covered in ground (arith, f.below, e.size_pos, e.above);
        room = unfold spare in ground (arith, f.below, e.size_pos, e.above);
      }

      joined :
          0 < b.m_size
          → b.m_size < 2 ^ 15
          → b.m_addr + b.m_size ≤ 2 ^ 15
          → IsMapFrom (b.m_addr + b.m_size) rest
          → a + size ≡ b.m_addr
          → (m' : Map) → Closed (b.m_addr + b.m_size) rest m'
          → Given lo size a
              (p ∷ b ∷ rest)
              (entry (((p.m_size + size) % 2 ^ 16 + b.m_size) % 2 ^ 16) p.m_addr ∷ m')
      joined q t u r k m' c = record {
        valid = inr (
          omega (arith, e.size_pos),
          omega (arith, e.above),
          e.above,
          omega arith,
          IsMapFrom-mono m' (omega arith) c.valid,
        );
        more = λ x. unfold covered in ground (arith, e.size_pos, e.above, c.same x);
        room = unfold spare in ground (arith, e.size_pos, e.above, c.room);
      }

      go :
          IsMapFrom (p.m_addr + p.m_size) (b ∷ rest)
          → (m' : Map) × (extend p b rest size a ≡ some m') × Given lo size a (p ∷ b ∷ rest) m'
      go (inl z) = (
        entry ((p.m_size + size) % 2 ^ 16) p.m_addr ∷ b ∷ rest,
        unfold extend in ground arith,
        alone (inl z),
      )
      go (inr (q, t, k, u, r)) =
          let behind : IsFreeable size a (b ∷ rest) = IsFreeable-tail p (b ∷ rest) lo size a e f in
          let over : a + size ≤ b.m_addr = ends_below b rest size a behind q (ground arith) in
          elim (Bool-cases ((a + size) == b.m_addr)) [
            | inl both ↦
                let (m', eq, c) = close_gap-Closed rest (b.m_addr + b.m_size) r in
                (
                  entry (((p.m_size + size) % 2 ^ 16 + b.m_size) % 2 ^ 16) p.m_addr ∷ m',
                  unfold extend in ground (arith, f.below),
                  joined q t u r (ground arith) m' c,
                )
            | inr one ↦ (
              entry ((p.m_size + size) % 2 ^ 16) p.m_addr ∷ b ∷ rest,
              unfold extend in ground (arith, f.below),
              alone (inr (q, t, ground arith, u, r)),
            )
          ]

mfree_behind-Given :
    (m : Map) (p : Entry) (lo size a : ℕ)
    → IsEntry lo p m
    → p.m_addr ≤ a
    → IsFreeable size a (p ∷ m)
    → 0 < spare m
    → (m' : Map) × (mfree_behind p m size a ≡ some m') × Given lo size a (p ∷ m) m'
unfolding mfree_behind
mfree_behind-Given [] p lo size a e h f room = absurd e.follows
mfree_behind-Given (b ∷ rest) p lo size a e h f room =
    let past = begins_behind p (b ∷ rest) lo size a e f h in
    let tail = IsFreeable-tail p (b ∷ rest) lo size a e f in
    elim (Bool-cases (goes_on b a)) [
      | inl more ↦
          let e' = IsEntry-goes_on b rest (p.m_addr + p.m_size) a e.follows more in
          let (m', eq, g) =
            mfree_behind-Given rest b (p.m_addr + p.m_size) size a e' (ground arith) tail
              (omega (arith, spare-cons b rest e'.size_pos)) in
          (p ∷ m', ground arith, Given-cons p (b ∷ rest) m' lo size a e g)
      | inr stop ↦ elim (Bool-cases ((p.m_addr + p.m_size) == a)) [
        | inl meets ↦
            let (m', eq, g) = extend-Given p b rest lo size a e f (ground arith) stop in
            (m', ground (arith, e.size_short, e.below), g)
        | inr misses ↦
            let (m', eq, g) =
              insert_at-Given b rest (p.m_addr + p.m_size) size a e.follows (ground arith) tail stop
                room in
            (
              p ∷ m',
              ground (arith, e.size_short, e.below),
              Given-cons p (b ∷ rest) m' lo size a e g,
            )
      ]
    ]

-- Freeing a range of units that are in use, into a well-formed map with a slot to spare, succeeds:
-- exactly those units become free besides those that were, and the map is well formed, so that no
-- two of its entries touch.
pub mfree_lem :
    (m : Map) (size a : ℕ)
    → IsMap m
    → 0 < a
    → IsFreeable size a m
    → 0 < spare m
    → (m' : Map) × (mfree m size a ≡ some m') × Given 0 size a m m'
mfree_lem [] size a w l f room = absurd w
mfree_lem (b ∷ rest) size a w l f room = elim (Bool-cases (goes_on b a)) [
  | inl more ↦
      let e = IsEntry-goes_on b rest 0 a w more in
      let (m', eq, g) =
        mfree_behind-Given rest b 0 size a e (ground arith) f
          (omega (arith, spare-cons b rest e.size_pos)) in
      (m', unfold mfree in ground arith, g)
  | inr stop ↦
      let (m', eq, g) = insert_at-Given b rest 0 size a w l f stop room in
      (m', unfold mfree in ground arith, g)
]
