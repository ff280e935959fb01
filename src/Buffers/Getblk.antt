-- ===== src/Buffers/Getblk.antt =====
-- UNIX_getblk: a busy buffer for the block, or a sleep that is due to end.
use hostable_32v.Prelude.{
  ℕ, zero, suc, ◌<◌, ◌≡◌, ◌≢◌, refl, true, false, none, some, List, [], ◌∷◌, arith, leb, ◌==◌,
  if◌then◌else◌, member, Bool-cases, Option-cases, inl, inr, sym, ◌∙◌, ap, subst,
}
use hostable_32v.Buffers.{
  Buffer, Cache, Devices, Call, returned, waits, and_then, nodev, major, put, notavail, bwrite,
  find, behind, count_hit, take_cached, reassign, set_async, take_first, getblk,
}
use hostable_32v.Buffers.Invariant.{
  IsCache, IsDriver, delayed, assign_self, assign-same, IsCache-put, IsCache-notavail, find-none,
  find-some,
}
use hostable_32v.Buffers.Late.{
  IsTaken, after_write, bwrite-late, IsCache-after_write, delayed-after_write,
}
use hostable_32v.Buffers.Reassign.{IsCache-reassign}

-- The buffer `bp` stands for the block, is on the list of the device, and belongs to the caller.
pub record IsHeld (dev blkno bp : ℕ) (c : Cache) : Type 0 where
  pub cache : IsCache c
  pub number : bp < 32
  pub busy : (c.buffer bp).b_busy ≡ true
  pub device : (c.buffer bp).b_dev ≡ dev
  pub block : (c.buffer bp).b_blkno ≡ blkno
  pub listed : member bp (c.tab (major dev)) ≡ true

pub data Ended (dev blkno : ℕ) (r : Call ℕ) : Type 0 where
  gets :
      (bp : ℕ) (c' : Cache)
      → r ≡ returned bp c'
      → IsHeld dev blkno bp c'
      → (c'.buffer bp).b_async ≡ false
      → Ended dev blkno r
  waits_for_buffer :
      (bp : ℕ) (c' : Cache)
      → r ≡ waits (some bp) c'
      → IsHeld dev blkno bp c'
      → (c'.buffer bp).b_wanted ≡ true
      → Ended dev blkno r
  waits_for_any :
      (c' : Cache)
      → r ≡ waits none c'
      → IsCache c'
      → c'.avail ≡ []
      → c'.free_wanted ≡ true
      → Ended dev blkno r

pub IsTaken-set_async :
    (bp : ℕ) (c : Cache)
    → IsCache c
    → member bp c.avail ≡ true
    → (c.buffer bp).b_delwri ≡ true
    → IsTaken bp c (set_async bp (notavail bp c))
IsTaken-set_async bp c w h t = record {
  cache =
      IsCache-put bp _ (notavail bp c) refl (inr (ap Buffer.b_busy (assign_self c.buffer bp _)))
        refl refl (IsCache-notavail bp c w);
  number = w.in_pool bp h;
  busy = ap Buffer.b_busy (assign_self _ bp _) ∙ ap Buffer.b_busy (assign_self c.buffer bp _);
  async = ap Buffer.b_async (assign_self _ bp _);
  late =
      ap Buffer.b_delwri (assign_self _ bp _) ∙ ap Buffer.b_delwri (assign_self c.buffer bp _) ∙ t;
  avail = refl;
  was_there = h;
  same = λ b.
      assign-same Buffer.b_delwri (notavail bp c).buffer bp _ b refl
      ∙ assign-same Buffer.b_delwri c.buffer bp _ b refl;
}

take_first-late :
    (d : Devices) (drives : IsDriver d) (bp : ℕ) (c : Cache)
    (k : IsTaken bp c (set_async bp (notavail bp c))) (dev blkno : ℕ) (again : Cache → Call ℕ)
    (rest : List ℕ)
    → (c.buffer bp).b_delwri ≡ true
    → take_first d dev blkno again (bp ∷ rest) c
      ≡ again (after_write d drives bp c (set_async bp (notavail bp c)) k)
unfolding take_first
take_first-late d drives bp c k dev blkno again rest late =
    ap
      (λ t.
        if t
        then and_then (bwrite d bp (set_async bp (notavail bp c))) (λ _ c''. again c'')
        else returned bp (reassign bp dev blkno (notavail bp c)))
      late
    ∙ ap (λ r. and_then r (λ _ c''. again c''))
        (bwrite-late d drives bp c (set_async bp (notavail bp c)) k)

-- The buffer that holds the block.
take_cached-Ended :
    (dev blkno bp : ℕ) (c : Cache)
    → IsCache c
    → find c dev blkno (c.tab (major dev)) ≡ some bp
    → Ended dev blkno (take_cached bp c)
unfolding take_cached
take_cached-Ended dev blkno bp c w e =
    let (h, dv, bl) = find-some c dev blkno (c.tab (major dev)) bp e in
    elim (Bool-cases (c.buffer bp).b_busy) [
      | inl t ↦
          let v : Buffer = record (c.buffer bp) { b_wanted = true } in
          waits_for_buffer bp (put bp v c) (rw t refl)
            (record {
              cache = IsCache-put bp v c refl (inl refl) refl refl w;
              number = w.on_list (major dev) bp h;
              busy = ap Buffer.b_busy (assign_self c.buffer bp v) ∙ t;
              device = ap Buffer.b_dev (assign_self c.buffer bp v) ∙ dv;
              block = ap Buffer.b_blkno (assign_self c.buffer bp v) ∙ bl;
              listed = h;
            })
            (ap Buffer.b_wanted (assign_self c.buffer bp v))
      | inr f ↦
          gets bp (notavail bp (count_hit (behind bp c.avail) c)) (rw f refl)
            (record {
              cache = IsCache-notavail bp c w;
              number = w.on_list (major dev) bp h;
              busy = ap Buffer.b_busy (assign_self c.buffer bp _);
              device = ap Buffer.b_dev (assign_self c.buffer bp _) ∙ dv;
              block = ap Buffer.b_blkno (assign_self c.buffer bp _) ∙ bl;
              listed = h;
            })
            (ap Buffer.b_async (assign_self c.buffer bp _) ∙ w.settled bp f)
    ]

-- No buffer holds the block: the first available one is taken, or written first.
take_first-Ended :
    (fuel : ℕ) (d : Devices) (dev blkno : ℕ) (again : Cache → Call ℕ) (avail : List ℕ) (c : Cache)
    → IsDriver d
    → IsCache c
    → dev ≢ nodev
    → find c dev blkno (c.tab (major dev)) ≡ none
    → c.avail ≡ avail
    → delayed c < suc fuel
    → ((c' : Cache) → IsCache c' → delayed c' < fuel → Ended dev blkno (again c'))
    → Ended dev blkno (take_first d dev blkno again avail c)
unfolding take_first
take_first-Ended fuel d dev blkno again [] c drives w real absent empty less ih =
    waits_for_any (record c { free_wanted = true }) refl w empty refl
take_first-Ended fuel d dev blkno again (bp ∷ rest) c drives w real absent first less ih =
    let number : bp < 32 = w.in_pool bp (rw first (ground arith)) in
    elim (Bool-cases (c.buffer bp).b_delwri) [
      | inl t ↦
          let c₀ = set_async bp (notavail bp c) in
          let k = IsTaken-set_async bp c w (rw first (ground arith)) t in
          subst (Ended dev blkno) (sym (take_first-late d drives bp c k dev blkno again rest t)) (
            ih (after_write d drives bp c c₀ k) (IsCache-after_write d drives bp c c₀ k)
              (omega (arith, delayed-after_write d drives bp c c₀ k)))
      | inr f ↦
          let c' = notavail bp c in
          let free =
            assign-same Buffer.b_dev c.buffer bp (record (c.buffer bp) { b_busy = true }) in
          let same =
            assign-same Buffer.b_blkno c.buffer bp (record (c.buffer bp) { b_busy = true }) in
          gets bp (reassign bp dev blkno c') (rw f refl)
            (record {
              cache =
                  IsCache-reassign bp dev blkno c' (IsCache-notavail bp c w) number
                    (ap Buffer.b_busy (assign_self c.buffer bp _)) real
                    (λ b h e n.
                      find-none c dev blkno (c.tab (major dev)) b absent h (sym (free b refl) ∙ e)
                        (sym (same b refl) ∙ n));
              number = number;
              busy = ap Buffer.b_busy (assign_self c'.buffer bp _);
              device = ap Buffer.b_dev (assign_self c'.buffer bp _);
              block = ap Buffer.b_blkno (assign_self c'.buffer bp _);
              listed =
                  let t : (major dev == major dev) ≡ true = ground arith in rw t (ground arith);
            })
            (ap Buffer.b_async (assign_self c'.buffer bp _))
    ]

-- With as many rounds as there are delayed writes among the available buffers, and one more,
-- UNIX_getblk comes to an end: it returns a busy buffer for the block, or sleeps on the one buffer
-- for it, which is busy and now marked as wanted, or sleeps because none is available. What holds of
-- the cache is kept.
pub getblk-Ended :
    (fuel : ℕ) (d : Devices) (dev blkno : ℕ) (c : Cache)
    → IsDriver d
    → IsCache c
    → major dev < d.nblkdev
    → d.d_tab (major dev) ≡ true
    → dev ≢ nodev
    → delayed c < fuel
    → Ended dev blkno (getblk fuel d dev blkno c)
unfolding getblk
getblk-Ended zero d dev blkno c drives w in_range table real less = absurd (omega arith)
getblk-Ended (suc fuel) d dev blkno c drives w in_range table real less =
    let t : leb d.nblkdev (major dev) ≡ false = ground arith in
    elim (Option-cases (find c dev blkno (c.tab (major dev)))) [
      | inr (bp, e) ↦ rw (t, table, e) (take_cached-Ended dev blkno bp c w e)
      | inl e ↦
          rw (t, table, e)
            (take_first-Ended fuel d dev blkno (λ c'. getblk fuel d dev blkno c') c.avail c drives w
              real e refl less
              (λ c' w' l. getblk-Ended fuel d dev blkno c' drives w' in_range table real l))
    ]
