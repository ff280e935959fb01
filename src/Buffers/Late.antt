-- ===== src/Buffers/Late.antt =====
-- A delayed write is started, so that the buffer can be used for another block.
use hostable_32v.Prelude.{
  ℕ, ◌≤◌, ◌<◌, ◌≡◌, ◌≢◌, refl, true, false, List, [], ◌∷◌, arith, ◌==◌, member, remove, inl, sym,
  ◌∙◌, ap, ℕ_discrete,
}
use hostable_32v.Buffers.{Buffer, Cache, Devices, returned, put, bwrite_start, bwrite}
use hostable_32v.Buffers.Invariant.{
  IsCache, IsDriver, count_delayed, delayed, assign_self, assign_ne, assign-same, IsCache-put,
}

count_delayed_mono :
    (f f' : ℕ → Buffer) (bs : List ℕ)
    → ((b : ℕ) → (f' b).b_delwri ≡ true → (f b).b_delwri ≡ true)
    → count_delayed f' bs ≤ count_delayed f bs
unfolding count_delayed
count_delayed_mono f f' [] h = omega arith
count_delayed_mono f f' (b ∷ bs) h = ground (arith, count_delayed_mono f f' bs h, h b)

count_delayed-remove :
    (f : ℕ → Buffer) (bp : ℕ) (bs : List ℕ) → count_delayed f (remove bp bs) ≤ count_delayed f bs
unfolding count_delayed remove
count_delayed-remove f bp [] = omega arith
count_delayed-remove f bp (b ∷ bs) = ground (arith, count_delayed-remove f bp bs)

count_delayed-member :
    (f : ℕ → Buffer) (bp : ℕ) (bs : List ℕ)
    → member bp bs ≡ true
    → (f bp).b_delwri ≡ true
    → count_delayed f (remove bp bs) < count_delayed f bs
unfolding count_delayed remove
count_delayed-member f bp [] h t = absurd (ground (arith, h))
count_delayed-member f bp (b ∷ bs) h t = elim (ℕ_discrete b bp) [
  | yes e ↦
      let same : (b == bp) ≡ true = ground arith in
      let t' : (f b).b_delwri ≡ true = ap (λ x. (f x).b_delwri) e ∙ t in
      rw (same, t') (omega (arith, count_delayed-remove f bp bs))
  | no n ↦ ground (arith, count_delayed-member f bp bs, h, t, n)
]

-- The buffer `bp` is taken from the available ones, in either order with its B_ASYNC, and
-- otherwise the cache `c₀` is as `c` was.
pub record IsTaken (bp : ℕ) (c c₀ : Cache) : Type 0 where
  pub cache : IsCache c₀
  pub number : bp < 32
  pub busy : (c₀.buffer bp).b_busy ≡ true
  pub async : (c₀.buffer bp).b_async ≡ true
  pub late : (c₀.buffer bp).b_delwri ≡ true
  pub avail : c₀.avail ≡ remove bp c.avail
  pub was_there : member bp c.avail ≡ true
  pub same : (b : ℕ) → (c₀.buffer b).b_delwri ≡ (c.buffer b).b_delwri

-- UNIX_bwrite of such a buffer.
module _ (d : Devices) (drives : IsDriver d) (bp : ℕ) (c c₀ : Cache) (taken : IsTaken bp c c₀) where
  started : Cache
  started = bwrite_start bp c₀

  pub after_write : Cache
  after_write =
      put bp (record ((d.strategy bp started).buffer bp) { b_age = true }) (d.strategy bp started)

  started_busy : (started.buffer bp).b_busy ≡ true
  unfolding started
  started_busy = ap Buffer.b_busy (assign_self c₀.buffer bp _) ∙ taken.busy

  IsCache-started : IsCache started
  unfolding started
  IsCache-started = IsCache-put bp _ c₀ refl (inl refl) refl refl taken.cache

  pub bwrite-late : bwrite d bp c₀ ≡ returned bp after_write
  unfolding bwrite after_write started
  bwrite-late = rw (taken.async, taken.late, bwrite) refl

  pub IsCache-after_write : IsCache after_write
  unfolding after_write
  IsCache-after_write =
      IsCache-put bp _ (d.strategy bp started) refl (inl refl) refl refl
        (drives.keeps bp started IsCache-started taken.number started_busy)

  started_late : (started.buffer bp).b_delwri ≡ false
  unfolding started
  started_late = ap Buffer.b_delwri (assign_self c₀.buffer bp _)

  started_only : (b : ℕ) → (started.buffer b).b_delwri ≡ true → (c.buffer b).b_delwri ≡ true
  unfolding started
  started_only b t = elim (ℕ_discrete b bp) [
    | yes e ↦ absurd (ground (arith, ap (λ x. (started.buffer x).b_delwri) e, started_late, t))
    | no n ↦ sym (taken.same b) ∙ sym (started_ne b n) ∙ t
  ]
    where
      started_ne : (b : ℕ) → b ≢ bp → (started.buffer b).b_delwri ≡ (c₀.buffer b).b_delwri
      started_ne b n = ap Buffer.b_delwri (assign_ne c₀.buffer bp _ b n)

  started_fewer : count_delayed started.buffer started.avail < delayed c
  unfolding started
  started_fewer = omega (
    arith,
    count_delayed_mono c.buffer started.buffer started.avail started_only,
    ap (count_delayed c.buffer) taken.avail,
    count_delayed-member c.buffer bp c.avail taken.was_there (sym (taken.same bp) ∙ taken.late),
  )

  aged : (b : ℕ) → (after_write.buffer b).b_delwri ≡ ((d.strategy bp started).buffer b).b_delwri
  unfolding after_write
  aged b = assign-same Buffer.b_delwri (d.strategy bp started).buffer bp _ b refl

  pub delayed-after_write : delayed after_write < delayed c
  unfolding after_write
  delayed-after_write = omega (
    arith,
    count_delayed_mono (d.strategy bp started).buffer after_write.buffer
        (d.strategy bp started).avail (λ b t. sym (aged b) ∙ t),
    drives.quiet bp started started_late,
    started_fewer,
  )
