-- ===== src/Buffers/Release.antt =====
-- A buffer that was released is found again.
use hostable_32v.Prelude.{
  ℕ, suc, ◌<◌, ◌≡◌, ◌≢◌, refl, true, false, some, arith, leb, if◌then◌else◌, member, Option-cases,
  inl, inr, sym, ◌∙◌, ap,
}
use hostable_32v.Buffers.{
  Buffer, Cache, Devices, returned, nodev, major, notavail, brelse, find, behind, count_hit,
  take_cached, getblk,
}
use hostable_32v.Buffers.Invariant.{
  IsCache, assign_self, IsCache-notavail, IsCache-brelse, find-none, find-some,
}
use hostable_32v.Buffers.Getblk.{IsHeld}

-- Only one buffer stands for the block.
find-one :
    (dev blkno bp : ℕ) (c : Cache)
    → IsCache c
    → dev ≢ nodev
    → member bp (c.tab (major dev)) ≡ true
    → (c.buffer bp).b_dev ≡ dev
    → (c.buffer bp).b_blkno ≡ blkno
    → find c dev blkno (c.tab (major dev)) ≡ some bp
find-one dev blkno bp c w real h d n = elim (Option-cases (find c dev blkno (c.tab (major dev)))) [
  | inl e ↦ absurd (find-none c dev blkno (c.tab (major dev)) bp e h d n)
  | inr (b, e) ↦
      let (h', d', n') = find-some c dev blkno (c.tab (major dev)) b e in
      e
      ∙ ap some
          (w.one_buffer (major dev) b bp h' h (λ z. real (sym d' ∙ z)) (d' ∙ sym d) (n' ∙ sym n))
]

getblk-cached :
    (fuel : ℕ) (d : Devices) (dev blkno bp : ℕ) (c : Cache)
    → leb d.nblkdev (major dev) ≡ false
    → d.d_tab (major dev) ≡ true
    → find c dev blkno (c.tab (major dev)) ≡ some bp
    → (c.buffer bp).b_busy ≡ false
    → getblk (suc fuel) d dev blkno c ≡ returned bp (notavail bp (count_hit (behind bp c.avail) c))
unfolding getblk take_cached
getblk-cached fuel d dev blkno bp c t table e free = rw (t, table, e, free, take_cached) refl

-- A buffer that UNIX_brelse released without an error is what UNIX_getblk returns for its block,
-- at once, with its words, and with B_DONE and B_DELWRI as they were.
pub getblk-brelse :
    (fuel : ℕ) (d : Devices) (dev blkno bp : ℕ) (c : Cache)
    → IsHeld dev blkno bp c
    → (c.buffer bp).b_error ≡ false
    → major dev < d.nblkdev
    → d.d_tab (major dev) ≡ true
    → dev ≢ nodev
    → (c' : Cache) × (getblk (suc fuel) d dev blkno (brelse bp c) ≡ returned bp c')
      × IsHeld dev blkno bp c'
      × ((c'.buffer bp).b_words ≡ (c.buffer bp).b_words)
      × ((c'.buffer bp).b_done ≡ (c.buffer bp).b_done)
      × ((c'.buffer bp).b_delwri ≡ (c.buffer bp).b_delwri)
unfolding brelse
getblk-brelse fuel d dev blkno bp c h good in_range table real =
    let r = brelse bp c in
    let w = IsCache-brelse bp c h.cache h.number h.busy in
    let t : leb d.nblkdev (major dev) ≡ false = ground arith in
    let device : (r.buffer bp).b_dev ≡ dev =
      ap Buffer.b_dev (assign_self c.buffer bp _)
      ∙ ap (λ x. if x then nodev else (c.buffer bp).b_dev) good
      ∙ h.device in
    let block : (r.buffer bp).b_blkno ≡ blkno =
      ap Buffer.b_blkno (assign_self c.buffer bp _) ∙ h.block in
    let e = find-one dev blkno bp r w real h.listed device block in
    let free : (r.buffer bp).b_busy ≡ false = ap Buffer.b_busy (assign_self c.buffer bp _) in
    (
      notavail bp (count_hit (behind bp r.avail) r),
      getblk-cached fuel d dev blkno bp r t table e free,
      record {
        cache = IsCache-notavail bp r w;
        number = h.number;
        busy = ap Buffer.b_busy (assign_self r.buffer bp _);
        device = ap Buffer.b_dev (assign_self r.buffer bp _) ∙ device;
        block = ap Buffer.b_blkno (assign_self r.buffer bp _) ∙ block;
        listed = h.listed;
      },
      ap Buffer.b_words (assign_self r.buffer bp _) ∙ ap Buffer.b_words (assign_self c.buffer bp _),
      ap Buffer.b_done (assign_self r.buffer bp _) ∙ ap Buffer.b_done (assign_self c.buffer bp _),
      ap Buffer.b_delwri (assign_self r.buffer bp _)
          ∙ ap Buffer.b_delwri (assign_self c.buffer bp _),
    )
