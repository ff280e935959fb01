-- ===== src/ResourceMap/Invariant.antt =====
-- The invariant of a resource map, and the set of units that a map offers.
use hostable_32v.Prelude.{
  ℕ, suc, ◌+◌, ◌≤◌, ◌<◌, ◌^◌, ◌≡◌, ◌⊎◌, inl, inr, refl, Bool, false, ◌&&◌, ◌||◌, some, [], ◌∷◌,
  arith, ltb, leb, ◌==◌, if◌then◌else◌, length,
}
use hostable_32v.ResourceMap.{Map, close_gap}

abbrev pub in_range : ℕ → ℕ → ℕ → Bool
in_range a size x = leb a x && ltb x (a + size)

-- Whether unit `x` is free: it lies in an entry before the terminator.
unfoldable pub covered : Map → ℕ → Bool
covered [] x = false
covered (e ∷ rest) x =
    if e.m_size == 0 then false else in_range e.m_addr e.m_size x || covered rest x

-- Every slot behind the terminator has size 0 too.
abbrev pub AllZero : Map → Type 0
AllZero [] = Unit
AllZero (e ∷ rest) = (e.m_size ≡ 0) × AllZero rest

-- The entries lie above `lo`, in increasing order, with a gap between neighbours, and a terminator
-- follows them. All units lie below 2^15, so that no sum of sizes overflows a short.
abbrev pub IsMapFrom : ℕ → Map → Type 0
IsMapFrom lo [] = ⊥
IsMapFrom lo (e ∷ rest) =
    ((e.m_size ≡ 0) × AllZero rest)
    ⊎ ((0 < e.m_size)
        × (e.m_size < 2 ^ 15)
        × (lo < e.m_addr)
        × (e.m_addr + e.m_size ≤ 2 ^ 15)
        × IsMapFrom (e.m_addr + e.m_size) rest)

-- Unit 0 is never offered, so that address 0 can stand for failure.
abbrev pub IsMap : Map → Type 0
IsMap = IsMapFrom 0

-- The slots behind the terminator.
unfoldable pub spare : Map → ℕ
spare [] = 0
spare (e ∷ rest) = if e.m_size == 0 then length rest else spare rest

pub IsMapFrom-mono : (m : Map) {lo hi : ℕ} → lo ≤ hi → IsMapFrom hi m → IsMapFrom lo m
IsMapFrom-mono [] h w = w
IsMapFrom-mono (e ∷ rest) h (inl z) = inl z
IsMapFrom-mono (e ∷ rest) h (inr (p, s, l, u, r)) = inr (p, s, omega arith, u, r)

-- Nothing at or below `lo` is covered.
pub covered-below : (m : Map) {lo : ℕ} (x : ℕ) → IsMapFrom lo m → x ≤ lo → covered m x ≡ false
unfolding covered
covered-below [] x w h = refl
covered-below (e ∷ rest) x (inl z) h = ground arith
covered-below (e ∷ rest) x (inr (p, s, l, u, r)) h = ground (arith, covered-below rest x r)

-- What closing a gap leaves.
pub record Closed (lo : ℕ) (m m' : Map) : Type 0 where
  pub valid : IsMapFrom lo m'
  pub same : (x : ℕ) → covered m' x ≡ covered m x
  pub room : spare m' ≡ suc (spare m)

pub close_gap-Closed :
    (m : Map) (lo : ℕ) → IsMapFrom lo m → (m' : Map) × (close_gap m ≡ some m') × Closed lo m m'
unfolding close_gap covered spare
close_gap-Closed [] lo w = absurd w
close_gap-Closed (e ∷ rest) lo (inl (z, az)) = (
  e ∷ e ∷ rest,
  ground arith,
  record { valid = inl (z, (z, az)); same = λ x. ground arith; room = ground arith },
)
close_gap-Closed (e ∷ rest) lo (inr (p, s, l, u, r)) =
    let (m', eq, c) = close_gap-Closed rest (e.m_addr + e.m_size) r in
    (
      e ∷ m',
      ground arith,
      record {
        valid = inr (p, s, l, u, c.valid);
        same = λ x. ground (arith, c.same x);
        room = ground (arith, c.room);
      },
    )
