-- ===== src/Buffers/Reassign.antt =====
-- A buffer that is given to another block.
use hostable_32v.Prelude.{
  ℕ, ◌<◌, ◌≡◌, ◌≢◌, true, false, not, arith, ◌==◌, if◌then◌else◌, member, member-remove, Bool-cases,
  inl, inr, ◌⊎◌, sym, ◌∙◌, ap, ℕ_discrete,
}
use hostable_32v.Buffers.{Buffer, Cache, nodev, major, reassign}
use hostable_32v.Buffers.Invariant.{IsCache, assign_self, assign_ne}

-- A busy buffer is given to a block that no buffer of the device stands for.
module _ (bp dev blkno : ℕ) (c : Cache) (w : IsCache c) (l : bp < 32)
    (busy : (c.buffer bp).b_busy ≡ true) (real : dev ≢ nodev)
    (absent : (b : ℕ)
      → member b (c.tab (major dev)) ≡ true
      → (c.buffer b).b_dev ≡ dev
      → (c.buffer b).b_blkno ≢ blkno) where
  given : Cache
  given = reassign bp dev blkno c

  on_new :
      (m b : ℕ) → member b (given.tab m) ≡ (if b == bp then m == major dev else member b (c.tab m))
  unfolding given
  on_new m b = elim (Bool-cases (m == major dev)) [
    | inl t ↦ rw t (ground (arith, member-remove b bp (c.tab m)))
    | inr f ↦ rw f (ground (arith, member-remove b bp (c.tab m)))
  ]

  given_self : (given.buffer bp).b_dev ≡ dev
  unfolding given
  given_self = ap Buffer.b_dev (assign_self c.buffer bp _)

  given_blkno : (given.buffer bp).b_blkno ≡ blkno
  unfolding given
  given_blkno = ap Buffer.b_blkno (assign_self c.buffer bp _)

  given_ne : (b : ℕ) → b ≢ bp → given.buffer b ≡ c.buffer b
  unfolding given
  given_ne b n = assign_ne c.buffer bp _ b n

  given_busy : (given.buffer bp).b_busy ≡ true
  unfolding given
  given_busy = ap Buffer.b_busy (assign_self c.buffer bp _)

  pub IsCache-reassign : IsCache (reassign bp dev blkno c)
  unfolding given
  IsCache-reassign = record {
    in_pool = w.in_pool;
    busy_or_not = busy_now;
    settled = settled;
    on_list = λ m b h. ground (arith, on_new m b, w.on_list m b, h);
    of_device = device;
    one_list = λ m m' b h h'. ground (arith, on_new m b, on_new m' b, w.one_list m m' b, h, h');
    one_buffer = one;
  }
    where
      busy_now : (b : ℕ) → b < 32 → member b c.avail ≡ not (given.buffer b).b_busy
      busy_now b h = elim (ℕ_discrete b bp) [
        | yes e ↦
            w.busy_or_not b h
            ∙ ap not (
                ap (λ x. (c.buffer x).b_busy) e
                ∙ busy
                ∙ sym given_busy
                ∙ ap (λ x. (given.buffer x).b_busy) (sym e))
        | no n ↦ w.busy_or_not b h ∙ ap (λ x. not x.b_busy) (sym (given_ne b n))
      ]

      settled : (b : ℕ) → (given.buffer b).b_busy ≡ false → (given.buffer b).b_async ≡ false
      settled b h = elim (ℕ_discrete b bp) [
        | yes e ↦ absurd (ground (arith, h, given_busy, ap (λ x. (given.buffer x).b_busy) e))
        | no n ↦
            let at = given_ne b n in
            ap Buffer.b_async at ∙ w.settled b (sym (ap Buffer.b_busy at) ∙ h)
      ]

      device :
          (m b : ℕ)
          → member b (given.tab m) ≡ true
          → ((given.buffer b).b_dev ≡ nodev) ⊎ (major (given.buffer b).b_dev ≡ m)
      device m b h = elim (ℕ_discrete b bp) [
        | yes e ↦
            let d : (given.buffer b).b_dev ≡ dev =
              ap (λ x. (given.buffer x).b_dev) e ∙ given_self in
            inr (ap major d ∙ ground (arith, on_new m b, h))
        | no n ↦
            let same = ap Buffer.b_dev (given_ne b n) in
            ground (arith, on_new m b, h, w.of_device m b, same)
      ]

      -- A second buffer for the block would have been found.
      alone :
          (m b : ℕ)
          → member b (given.tab m) ≡ true
          → m ≡ major dev
          → (given.buffer b).b_dev ≡ dev
          → (given.buffer b).b_blkno ≡ blkno
          → b ≡ bp
      alone m b h e d n = elim (ℕ_discrete b bp) [
        | yes same ↦ same
        | no other ↦
            let there : member b (c.tab m) ≡ true = ground (arith, on_new m b, h) in
            absurd (
              absent b (ap (λ x. member b (c.tab x)) (sym e) ∙ there)
                (sym (ap Buffer.b_dev (given_ne b other)) ∙ d)
                (sym (ap Buffer.b_blkno (given_ne b other)) ∙ n))
      ]

      one :
          (m b b' : ℕ)
          → member b (given.tab m) ≡ true
          → member b' (given.tab m) ≡ true
          → (given.buffer b).b_dev ≢ nodev
          → (given.buffer b).b_dev ≡ (given.buffer b').b_dev
          → (given.buffer b).b_blkno ≡ (given.buffer b').b_blkno
          → b ≡ b'
      one m b b' h h' n e e' = elim (ℕ_discrete b bp) [
        | yes s ↦
            let d = ap (λ x. (given.buffer x).b_dev) s ∙ given_self in
            let k = ap (λ x. (given.buffer x).b_blkno) s ∙ given_blkno in
            s ∙ sym (alone m b' h' (ground (arith, on_new m b, h)) (sym e ∙ d) (sym e' ∙ k))
        | no o ↦ elim (ℕ_discrete b' bp) [
          | yes s ↦
              let d = ap (λ x. (given.buffer x).b_dev) s ∙ given_self in
              let k = ap (λ x. (given.buffer x).b_blkno) s ∙ given_blkno in
              alone m b h (ground (arith, on_new m b', h')) (e ∙ d) (e' ∙ k) ∙ sym s
          | no o' ↦
              let p = given_ne b o in
              let p' = given_ne b' o' in
              w.one_buffer m b b' (ground (arith, on_new m b, h)) (ground (arith, on_new m b', h'))
                (λ z. n (ap Buffer.b_dev p ∙ z)) (sym (ap Buffer.b_dev p) ∙ e ∙ ap Buffer.b_dev p')
                (sym (ap Buffer.b_blkno p) ∙ e' ∙ ap Buffer.b_blkno p')
        ]
      ]
