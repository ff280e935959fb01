-- ===== src/Frames/Count.antt =====
-- How many page frames are free.
use hostable_32v.Prelude.{
  ℕ, zero, suc, ◌+◌, ◌<◌, ◌≤◌, ◌≡◌, refl, ◌∙◌, ap, Bool, true, false, arith, if◌then◌else◌,
  Bool-cases, inl, inr, ℕ_discrete, override, override_self, override_ne,
}

-- The free frames among the `n` from `lo` on.
unfoldable pub count_free : (ℕ → Bool) → ℕ → ℕ → ℕ
count_free memmap lo zero = 0
count_free memmap lo (suc n) = (if memmap (lo + n) then 0 else 1) + count_free memmap lo n

count_free-override_out :
    (m : ℕ → Bool) (lo n pos : ℕ) (b : Bool)
    → lo + n ≤ pos
    → count_free (override m pos b) lo n ≡ count_free m lo n
unfolding count_free
count_free-override_out m lo zero pos b h = refl
count_free-override_out m lo (suc n) pos b h =
    rw
      (
        override_ne m pos b (lo + n) (λ e. omega (arith, e, h)),
        count_free-override_out m lo n pos b (omega (arith, h)),
      )
      refl

pub count_free-override :
    (m : ℕ → Bool) (lo n pos : ℕ)
    → lo ≤ pos
    → pos < lo + n
    → m pos ≡ false
    → suc (count_free (override m pos true) lo n) ≡ count_free m lo n
unfolding count_free
count_free-override m lo zero pos from to h = absurd (omega (arith, from, to))
count_free-override m lo (suc n) pos from to h = elim (ℕ_discrete (lo + n) pos) [
  | yes e ↦
      let was : m (lo + n) ≡ false = ap m e ∙ h in
      let now : override m pos true (lo + n) ≡ true =
        ap (override m pos true) e ∙ override_self m pos true in
      rw (was, now, count_free-override_out m lo n pos true (omega (arith, e))) (omega arith)
  | no d ↦
      let r = count_free-override m lo n pos from (omega (arith, to, d)) h in
      rw (override_ne m pos true (lo + n) d) (omega (arith, r))
]

pub some_free :
    (m : ℕ → Bool) (lo n : ℕ)
    → 0 < count_free m lo n
    → (p : ℕ) × (lo ≤ p) × (p < lo + n) × (m p ≡ false)
unfolding count_free
some_free m lo zero h = absurd (omega (arith, h))
some_free m lo (suc n) h = elim (Bool-cases (m (lo + n))) [
  | inr f ↦ (lo + n, omega arith, omega arith, f)
  | inl u ↦
      let (p, from, to, f) = some_free m lo n (ground (arith, u, h)) in
      (p, from, omega (arith, to), f)
]
