-- ===== src/Buffers/Invariant.antt =====
-- What holds of the buffers between two calls, and what is asked of a driver.
use hostable_32v.Prelude.{
  ℕ, suc, ◌≤◌, ◌<◌, ◌≡◌, ◌≢◌, refl, true, false, not, ◌&&◌, ◌||◌, none, some, List, [], ◌∷◌, arith,
  ◌==◌, if◌then◌else◌, member, member-remove, member-append, Bool-cases, inl, inr, ◌⊎◌, sym, ◌∙◌,
  ap, ℕ_discrete,
}
use hostable_32v.Buffers.{Buffer, Cache, Devices, nodev, major, assign, put, notavail, brelse, find}

-- A buffer is available exactly if it is not busy, and then it is not in an asynchronous transfer. It is on the list of one device at most, that
-- of its `b_dev` unless an error has cut it off, and no two stand for the same block.
pub record IsPool (buffer : ℕ → Buffer) (tab : ℕ → List ℕ) (avail : List ℕ) : Type 0 where
  pub in_pool : (b : ℕ) → member b avail ≡ true → b < 32
  pub busy_or_not : (b : ℕ) → b < 32 → member b avail ≡ not (buffer b).b_busy
  pub settled : (b : ℕ) → (buffer b).b_busy ≡ false → (buffer b).b_async ≡ false
  pub on_list : (m b : ℕ) → member b (tab m) ≡ true → b < 32
  pub of_device :
      (m b : ℕ)
      → member b (tab m) ≡ true
      → ((buffer b).b_dev ≡ nodev) ⊎ (major (buffer b).b_dev ≡ m)
  pub one_list : (m m' b : ℕ) → member b (tab m) ≡ true → member b (tab m') ≡ true → m ≡ m'
  pub one_buffer :
      (m b b' : ℕ)
      → member b (tab m) ≡ true
      → member b' (tab m) ≡ true
      → (buffer b).b_dev ≢ nodev
      → (buffer b).b_dev ≡ (buffer b').b_dev
      → (buffer b).b_blkno ≡ (buffer b').b_blkno
      → b ≡ b'

abbrev pub IsCache : Cache → Type 0
IsCache c = IsPool c.buffer c.tab c.avail

-- How many of the buffers have to be written before they can be used for another block.
unfoldable pub count_delayed : (ℕ → Buffer) → List ℕ → ℕ
count_delayed f [] = 0
count_delayed f (b ∷ bs) = if (f b).b_delwri then suc (count_delayed f bs) else count_delayed f bs

abbrev pub delayed : Cache → ℕ
delayed c = count_delayed c.buffer c.avail

-- A strategy routine is called with a busy buffer. It may leave it busy until the transfer is done,
-- or finish the transfer at once. It makes no delayed write, and if nobody else releases the buffer
-- it stays its caller's.
pub record IsDriver (d : Devices) : Type 0 where
  pub keeps :
      (bp : ℕ) (c : Cache)
      → IsCache c
      → bp < 32
      → (c.buffer bp).b_busy ≡ true
      → IsCache (d.strategy bp c)
  pub quiet :
      (bp : ℕ) (c : Cache) → (c.buffer bp).b_delwri ≡ false → delayed (d.strategy bp c) ≤ delayed c
  pub stays :
      (bp : ℕ) (c : Cache)
      → (c.buffer bp).b_busy ≡ true
      → (c.buffer bp).b_async ≡ false
      → ((d.strategy bp c).tab ≡ c.tab)
        × (((d.strategy bp c).buffer bp).b_busy ≡ true)
        × (((d.strategy bp c).buffer bp).b_dev ≡ (c.buffer bp).b_dev)
        × (((d.strategy bp c).buffer bp).b_blkno ≡ (c.buffer bp).b_blkno)

pub assign_self : (f : ℕ → Buffer) (bp : ℕ) (v : Buffer) → assign f bp v bp ≡ v
unfolding assign
assign_self f bp v = let same : (bp == bp) ≡ true = ground arith in rw same refl

pub assign_ne : (f : ℕ → Buffer) (bp : ℕ) (v : Buffer) (b : ℕ) → b ≢ bp → assign f bp v b ≡ f b
unfolding assign
assign_ne f bp v b n = let other : (b == bp) ≡ false = ground arith in rw other refl

pub assign_field {ℓ} :
    {A : Type ℓ} (field : Buffer → A) (f : ℕ → Buffer) (bp : ℕ) (v : Buffer) (b : ℕ)
    → field (assign f bp v b) ≡ (if b == bp then field v else field (f b))
unfolding assign
assign_field field f bp v b = elim (Bool-cases (b == bp)) [ inl t ↦ rw t refl | inr t ↦ rw t refl ]

-- A field that `v` leaves as it was in `bp` is as it was everywhere.
pub assign-same {ℓ} :
    {A : Type ℓ} (field : Buffer → A) (f : ℕ → Buffer) (bp : ℕ) (v : Buffer) (b : ℕ)
    → field v ≡ field (f bp)
    → field (assign f bp v b) ≡ field (f b)
assign-same field f bp v b e = elim (ℕ_discrete b bp) [
  | yes same ↦
      ap (λ x. field (assign f bp v x)) same
      ∙ ap field (assign_self f bp v)
      ∙ e
      ∙ ap (λ x. field (f x)) (sym same)
  | no n ↦ ap field (assign_ne f bp v b n)
]

-- A step that leaves the lists of the devices and the block numbers as they are, and cuts off a
-- buffer from its device at most.
pub IsCache-change :
    (c c' : Cache)
    → c'.tab ≡ c.tab
    → ((b : ℕ) → member b c'.avail ≡ true → b < 32)
    → ((b : ℕ) → b < 32 → member b c'.avail ≡ not (c'.buffer b).b_busy)
    → ((b : ℕ) → (c'.buffer b).b_busy ≡ false → (c'.buffer b).b_async ≡ false)
    → ((b : ℕ) → ((c'.buffer b).b_dev ≡ (c.buffer b).b_dev) ⊎ ((c'.buffer b).b_dev ≡ nodev))
    → ((b : ℕ) → (c'.buffer b).b_blkno ≡ (c.buffer b).b_blkno)
    → IsCache c
    → IsCache c'
IsCache-change c c' tab pool busy settled dev blkno w = record {
  settled = settled;
  in_pool = pool;
  busy_or_not = busy;
  on_list = λ m b h. w.on_list m b (was m b h);
  of_device = λ m b h. ground (arith, w.of_device m b (was m b h), dev b);
  one_list = λ m m' b h h'. w.one_list m m' b (was m b h) (was m' b h');
  one_buffer = λ m b b' h h' n e e'.
      let d : (c'.buffer b).b_dev ≡ (c.buffer b).b_dev = ground (arith, dev b, n) in
      let n' : (c'.buffer b').b_dev ≢ nodev = λ z. n (e ∙ z) in
      let d' : (c'.buffer b').b_dev ≡ (c.buffer b').b_dev = ground (arith, dev b', n') in
      w.one_buffer m b b' (was m b h) (was m b' h') (λ z. n (d ∙ z)) (sym d ∙ e ∙ d')
        (sym (blkno b) ∙ e' ∙ blkno b');
}
  where
    was : (m b : ℕ) → member b (c'.tab m) ≡ true → member b (c.tab m) ≡ true
    was m b h = ap (λ t. member b (t m)) (sym tab) ∙ h

-- The other flags may change.
pub IsCache-put :
    (bp : ℕ) (v : Buffer) (c : Cache)
    → v.b_busy ≡ (c.buffer bp).b_busy
    → ((v.b_async ≡ (c.buffer bp).b_async) ⊎ (v.b_busy ≡ true))
    → v.b_dev ≡ (c.buffer bp).b_dev
    → v.b_blkno ≡ (c.buffer bp).b_blkno
    → IsCache c
    → IsCache (put bp v c)
IsCache-put bp v c busy async dev blkno w =
    IsCache-change c (put bp v c) refl w.in_pool
      (λ b h. w.busy_or_not b h ∙ ap not (sym (assign-same Buffer.b_busy c.buffer bp v b busy)))
      settled (λ b. inl (assign-same Buffer.b_dev c.buffer bp v b dev))
      (λ b. assign-same Buffer.b_blkno c.buffer bp v b blkno) w
  where
    settled :
        (b : ℕ) → (assign c.buffer bp v b).b_busy ≡ false → (assign c.buffer bp v b).b_async ≡ false
    settled b h = elim (ℕ_discrete b bp) [
      | yes e ↦
          let at : assign c.buffer bp v b ≡ v =
            ap (assign c.buffer bp v) e ∙ assign_self c.buffer bp v in
          elim async [
            | inl same ↦
                ap Buffer.b_async at
                ∙ same
                ∙ w.settled bp (sym busy ∙ sym (ap Buffer.b_busy at) ∙ h)
            | inr t ↦ absurd (ground (arith, t, h, ap Buffer.b_busy at))
          ]
      | no n ↦
          let at = assign_ne c.buffer bp v b n in
          ap Buffer.b_async at ∙ w.settled b (sym (ap Buffer.b_busy at) ∙ h)
    ]

pub IsCache-notavail : (bp : ℕ) (c : Cache) → IsCache c → IsCache (notavail bp c)
IsCache-notavail bp c w =
    IsCache-change c (notavail bp c) refl
      (λ b h. w.in_pool b (ground (arith, member-remove b bp c.avail, h))) busy settled
      (λ b. inl (assign-same Buffer.b_dev c.buffer bp taken b refl))
      (λ b. assign-same Buffer.b_blkno c.buffer bp taken b refl) w
  where
    taken : Buffer
    taken = record (c.buffer bp) { b_busy = true }

    busy : (b : ℕ) → b < 32 → member b (notavail bp c).avail ≡ not ((notavail bp c).buffer b).b_busy
    busy b h = ground (
      arith,
      member-remove b bp c.avail,
      assign_field Buffer.b_busy c.buffer bp taken b,
      w.busy_or_not b h,
    )

    settled :
        (b : ℕ)
        → (assign c.buffer bp taken b).b_busy ≡ false
        → (assign c.buffer bp taken b).b_async ≡ false
    settled b h = elim (ℕ_discrete b bp) [
      | yes e ↦ absurd (ground (arith, assign_field Buffer.b_busy c.buffer bp taken b, h, e))
      | no n ↦
          let at = assign_ne c.buffer bp taken b n in
          ap Buffer.b_async at ∙ w.settled b (sym (ap Buffer.b_busy at) ∙ h)
    ]

-- UNIX_brelse makes a busy buffer available.
pub IsCache-brelse :
    (bp : ℕ) (c : Cache) → IsCache c → bp < 32 → (c.buffer bp).b_busy ≡ true → IsCache (brelse bp c)
unfolding brelse
IsCache-brelse bp c w l t =
    IsCache-change c (brelse bp c) refl pool busy settled dev
      (λ b. assign-same Buffer.b_blkno c.buffer bp free b refl) w
  where
    free : Buffer
    free = record (c.buffer bp) {
      b_dev = if (c.buffer bp).b_error then nodev else (c.buffer bp).b_dev;
      b_wanted = false;
      b_busy = false;
      b_async = false;
      b_age = false;
    }

    settled :
        (b : ℕ)
        → (assign c.buffer bp free b).b_busy ≡ false
        → (assign c.buffer bp free b).b_async ≡ false
    settled b h = elim (ℕ_discrete b bp) [
      | yes e ↦
          ap (λ x. (assign c.buffer bp free x).b_async) e
          ∙ ap Buffer.b_async (assign_self c.buffer bp free)
      | no n ↦
          let at = assign_ne c.buffer bp free b n in
          ap Buffer.b_async at ∙ w.settled b (sym (ap Buffer.b_busy at) ∙ h)
    ]

    now : (b : ℕ) → member b (brelse bp c).avail ≡ ((b == bp) || member b c.avail)
    now b = ground (arith, member-append b c.avail (bp ∷ []))

    pool : (b : ℕ) → member b (brelse bp c).avail ≡ true → b < 32
    pool b h = ground (arith, w.in_pool b, now b, h)

    busy : (b : ℕ) → b < 32 → member b (brelse bp c).avail ≡ not ((brelse bp c).buffer b).b_busy
    busy b h =
        ground (arith, now b, assign_field Buffer.b_busy c.buffer bp free b, w.busy_or_not b h)

    dev :
        (b : ℕ)
        → (((brelse bp c).buffer b).b_dev ≡ (c.buffer b).b_dev)
          ⊎ (((brelse bp c).buffer b).b_dev ≡ nodev)
    dev b = elim (ℕ_discrete b bp) [
      | yes e ↦
          ground
            (arith, assign_field Buffer.b_dev c.buffer bp free b, ap (λ x. (c.buffer x).b_dev) e)
      | no n ↦ ground (arith, assign_field Buffer.b_dev c.buffer bp free b)
    ]

pub find-none :
    (c : Cache) (dev blkno : ℕ) (q : List ℕ) (b : ℕ)
    → find c dev blkno q ≡ none
    → member b q ≡ true
    → (c.buffer b).b_dev ≡ dev
    → (c.buffer b).b_blkno ≢ blkno
unfolding find
find-none c dev blkno [] b e h d = cc
find-none c dev blkno (a ∷ q) b e h d =
    elim (Bool-cases (((c.buffer a).b_blkno == blkno) && ((c.buffer a).b_dev == dev))) [
      | inl t ↦ absurd (ground (arith, e, t))
      | inr f ↦ elim (ℕ_discrete b a) [
        | yes same ↦ λ n.
            ground (
              arith,
              f,
              n,
              d,
              ap (λ x. (c.buffer x).b_blkno) same,
              ap (λ x. (c.buffer x).b_dev) same,
            )
        | no other ↦ find-none c dev blkno q b (ground (arith, e, f)) (ground (arith, h)) d
      ]
    ]

pub find-some :
    (c : Cache) (dev blkno : ℕ) (q : List ℕ) (b : ℕ)
    → find c dev blkno q ≡ some b
    → (member b q ≡ true) × ((c.buffer b).b_dev ≡ dev) × ((c.buffer b).b_blkno ≡ blkno)
unfolding find
find-some c dev blkno [] b e = cc
find-some c dev blkno (a ∷ q) b e =
    elim (Bool-cases (((c.buffer a).b_blkno == blkno) && ((c.buffer a).b_dev == dev))) [
      | inl t ↦
          let same : a ≡ b = ground (arith, e, t) in
          (
            ground (arith, same),
            ground (arith, t, ap (λ x. (c.buffer x).b_dev) same),
            ground (arith, t, ap (λ x. (c.buffer x).b_blkno) same),
          )
      | inr f ↦
          let (h, d, n) = find-some c dev blkno q b (ground (arith, e, f)) in
          (ground (arith, h), d, n)
    ]
