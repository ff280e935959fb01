-- ===== src/FileIo/Rounds.antt =====
-- How many bytes a round of UNIX_readi and UNIX_writei moves, and how many rounds are left.
use hostable_32v.Prelude.{
  ℕ, suc, ◌+◌, ◌-◌, ◌/◌, ◌%◌, ◌<◌, ◌≤◌, ◌≡◌, subst, arith, ltb, Bool-cases, inl, inr, ◌⊎◌,
}
use hostable_32v.FileIo.{min_of, up_to}

-- Why a round moves no more.
pub round_ends :
    (size offset count : ℕ)
    → offset < size
    → let n = up_to (size - offset) (min_of (512 - offset % 512) count) in
      (count ≡ n) ⊎ (offset + n ≡ size) ⊎ ((offset + n) % 512 ≡ 0)
round_ends size offset count inside =
    let room = 512 - offset % 512 in
    let n = up_to (size - offset) (min_of room count) in
    elim (Bool-cases (ltb (size - offset) (min_of room count))) [
      | inl y ↦ inr (inl (ground (arith, y, inside)))
      | inr o ↦ elim (Bool-cases (ltb room count)) [
        | inl y' ↦ let e : n ≡ room = ground (arith, y', o) in inr (inr (omega (arith, e)))
        | inr o' ↦ inl (ground (arith, o', o))
      ]
    ]

-- What is left to move behind `n` bytes.
pub left_split :
    (size offset count n size' offset' count' : ℕ)
    → size' ≡ size
    → offset' ≡ offset + n
    → count' + n ≡ count
    → offset + n ≤ size
    → up_to (size - offset) count ≡ n + up_to (size' - offset') count'
left_split size offset count n size' offset' count' s o c inside = ground (arith, s, o, c, inside)

-- Enough rounds for the bytes that are left.
unfoldable pub Enough : ℕ → ℕ → ℕ → ℕ → Type 0
Enough size offset count fuel =
    (0 < fuel) × (offset < size → (offset + count) / 512 + 2 ≤ fuel + offset / 512)

pub fuel_left :
    (size offset count n size' offset' count' fuel : ℕ)
    → size' ≡ size
    → offset' ≡ offset + n
    → count' + n ≡ count
    → 0 < n
    → 0 < count'
    → (count ≡ n) ⊎ (offset + n ≡ size) ⊎ ((offset + n) % 512 ≡ 0)
    → (offset + count) / 512 + 2 ≤ suc fuel + offset / 512
    → Enough size' offset' count' fuel
unfolding Enough
fuel_left size offset count n size' offset' count' fuel s o c pos more ends enough =
    let some_fuel : 0 < fuel = omega (arith, enough, c, pos) in
    let whole : offset + count ≡ offset' + count' = omega (arith, o, c) in
    (
      some_fuel,
      λ before. elim ends [
        | inl all ↦ absurd (omega (arith, all, c, more))
        | inr (inl last) ↦ absurd (omega (arith, last, before, o, s))
        | inr (inr next) ↦
            let line : offset / 512 + 1 ≤ offset' / 512 = omega (arith, next, pos, o) in
            subst (λ e. e / 512 + 2 ≤ fuel + offset' / 512) whole (omega (arith, enough, line))
      ],
    )

pub write_ends :
    (offset count : ℕ)
    → let n = min_of (512 - offset % 512) count in (count ≡ n) ⊎ ((offset + n) % 512 ≡ 0)
write_ends offset count =
    let room = 512 - offset % 512 in
    let n = min_of room count in
    elim (Bool-cases (ltb room count)) [
      | inl y ↦ let e : n ≡ room = ground (arith, y) in inr (omega (arith, e))
      | inr o ↦ inl (ground (arith, o))
    ]

pub write_fuel :
    (offset count n offset' count' fuel : ℕ)
    → offset' ≡ offset + n
    → count' + n ≡ count
    → 0 < n
    → 0 < count'
    → (count ≡ n) ⊎ ((offset + n) % 512 ≡ 0)
    → (offset + count) / 512 + 1 ≤ suc fuel + offset / 512
    → (offset' + count') / 512 + 1 ≤ fuel + offset' / 512
write_fuel offset count n offset' count' fuel o c pos more ends enough =
    let whole : offset + count ≡ offset' + count' = omega (arith, o, c) in
    elim ends [
      | inl all ↦ absurd (omega (arith, all, c, more))
      | inr next ↦
          let line : offset / 512 + 1 ≤ offset' / 512 = omega (arith, next, pos, o) in
          subst (λ e. e / 512 + 1 ≤ fuel + offset' / 512) whole (omega (arith, enough, line))
    ]
