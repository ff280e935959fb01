-- ===== src/Buffers/Flush.antt =====
-- UNIX_bflush writes all delayed writes of a device, and ends.
use hostable_32v.Prelude.{
  ℕ, zero, suc, ◌<◌, ◌≡◌, refl, true, false, none, some, List, [], ◌∷◌, arith, member, remove,
  Bool-cases, Option-cases, ◌⊎◌, inl, inr, sym, ◌∙◌, ap, fun_ext, ℕ_discrete,
}
use hostable_32v.Buffers.{
  Buffer, Cache, Devices, returned, and_then, nodev, assign, notavail, bwrite, set_async,
}
use hostable_32v.Buffers.Invariant.{IsCache, IsDriver, delayed, assign_self, assign_ne}
use hostable_32v.Buffers.Late.{
  IsTaken, after_write, bwrite-late, IsCache-after_write, delayed-after_write,
}
use hostable_32v.Buffers.Getblk.{IsTaken-set_async}
use hostable_32v.Buffers.Io.{to_flush, first_to_flush, bflush}

assign_twice :
    (f : ℕ → Buffer) (bp : ℕ) (v v' : Buffer) → assign (assign f bp v) bp v' ≡ assign f bp v'
assign_twice f bp v v' = fun_ext (λ b. elim (ℕ_discrete b bp) [
  | yes e ↦
      ap (assign (assign f bp v) bp v') e
      ∙ assign_self (assign f bp v) bp v'
      ∙ sym (ap (assign f bp v') e ∙ assign_self f bp v')
  | no n ↦ assign_ne (assign f bp v) bp v' b n ∙ assign_ne f bp v b n ∙ sym (assign_ne f bp v' b n)
])

-- B_ASYNC may be set before or after the buffer is made unavailable.
notavail-set_async :
    (bp : ℕ) (c : Cache) → notavail bp (set_async bp c) ≡ set_async bp (notavail bp c)
notavail-set_async bp c =
    ap (λ f. record c { buffer = f; avail = remove bp c.avail }) (one ∙ sym other)
  where
    both : Buffer
    both = record (c.buffer bp) { b_busy = true; b_async = true }

    one : (notavail bp (set_async bp c)).buffer ≡ assign c.buffer bp both
    one =
        assign_twice c.buffer bp _ _
        ∙ ap (λ x. assign c.buffer bp (record x { b_busy = true })) (assign_self c.buffer bp _)

    other : (set_async bp (notavail bp c)).buffer ≡ assign c.buffer bp both
    other =
        assign_twice c.buffer bp _ _
        ∙ ap (λ x. assign c.buffer bp (record x { b_async = true })) (assign_self c.buffer bp _)

first_to_flush-some :
    (dev : ℕ) (c : Cache) (q : List ℕ) (bp : ℕ)
    → first_to_flush dev c q ≡ some bp
    → (member bp q ≡ true) × ((c.buffer bp).b_delwri ≡ true)
unfolding first_to_flush
first_to_flush-some dev c [] bp e = absurd (ground (arith, e))
first_to_flush-some dev c (b ∷ q) bp e = elim (Bool-cases (to_flush dev c b)) [
  | inl t ↦
      let same : b ≡ bp = ground (arith, e, t) in
      (ground (arith, same), ap (λ x. (c.buffer x).b_delwri) (sym same) ∙ ground (arith, t))
  | inr f ↦
      let (h, t) = first_to_flush-some dev c q bp (ground (arith, e, f)) in (ground (arith, h), t)
]

first_to_flush-none :
    (dev : ℕ) (c : Cache) (q : List ℕ)
    → first_to_flush dev c q ≡ none
    → (bp : ℕ) → member bp q ≡ true
    → to_flush dev c bp ≡ false
unfolding first_to_flush
first_to_flush-none dev c [] e bp h = absurd (ground (arith, h))
first_to_flush-none dev c (b ∷ q) e bp h = elim (Bool-cases (to_flush dev c b)) [
  | inl t ↦ absurd (ground (arith, e, t))
  | inr f ↦ elim (ℕ_discrete bp b) [
    | yes same ↦ ap (to_flush dev c) same ∙ f
    | no n ↦ first_to_flush-none dev c q (ground (arith, e, f)) bp (ground (arith, h, n))
  ]
]

-- No test passes only where there is no delayed write.
not_late :
    (dev : ℕ) (c : Cache) (bp : ℕ)
    → (dev ≡ nodev) ⊎ ((c.buffer bp).b_dev ≡ dev)
    → to_flush dev c bp ≡ false
    → (c.buffer bp).b_delwri ≡ false
not_late dev c bp (inl all) e = ground (arith, all, e)
not_late dev c bp (inr own) e = ground (arith, own, e)

-- The first delayed write is started.
bflush-next :
    (fuel : ℕ) (d : Devices) (drives : IsDriver d) (dev bp : ℕ) (c : Cache)
    (k : IsTaken bp c (set_async bp (notavail bp c)))
    → first_to_flush dev c c.avail ≡ some bp
    → bflush (suc fuel) d dev c
      ≡ bflush fuel d dev (after_write d drives bp c (set_async bp (notavail bp c)) k)
unfolding bflush
bflush-next fuel d drives dev bp c k e =
    rw (e, bflush)
      (ap (λ r. and_then (bwrite d bp r) (λ _ c'. bflush fuel d dev c')) (notavail-set_async bp c)
        ∙ ap (λ r. and_then r (λ _ c'. bflush fuel d dev c'))
            (bwrite-late d drives bp c (set_async bp (notavail bp c)) k))

-- With as many rounds as there are delayed writes among the available buffers, and one more,
-- UNIX_bflush returns. Then no available buffer of the device (of any, for NODEV) has a delayed
-- write.
pub bflush_lem :
    (fuel : ℕ) (d : Devices) (dev : ℕ) (c : Cache)
    → IsDriver d
    → IsCache c
    → delayed c < fuel
    → (c' : Cache) × (bflush fuel d dev c ≡ returned 0 c')
      × IsCache c'
      × ((bp : ℕ)
          → member bp c'.avail ≡ true
          → (dev ≡ nodev) ⊎ ((c'.buffer bp).b_dev ≡ dev)
          → (c'.buffer bp).b_delwri ≡ false)
unfolding bflush
bflush_lem zero d dev c drives w less = absurd (omega arith)
bflush_lem (suc fuel) d dev c drives w less = elim (Option-cases (first_to_flush dev c c.avail)) [
  | inl e ↦ (
    c,
    rw (e, bflush) refl,
    w,
    λ bp h of. not_late dev c bp of (first_to_flush-none dev c c.avail e bp h),
  )
  | inr (bp, e) ↦
      let (h, t) = first_to_flush-some dev c c.avail bp e in
      let c₀ = set_async bp (notavail bp c) in
      let k = IsTaken-set_async bp c w h t in
      let (c', eq, w', done) =
        bflush_lem fuel d dev (after_write d drives bp c c₀ k) drives
          (IsCache-after_write d drives bp c c₀ k)
          (omega (arith, delayed-after_write d drives bp c c₀ k)) in
      (c', bflush-next fuel d drives dev bp c k e ∙ eq, w', done)
]
