-- ===== src/Buffers/Read.antt =====
-- UNIX_bread: the buffer of the block once its words are there.
use hostable_32v.Prelude.{
  ℕ, ◌+◌, ◌<◌, ◌≡◌, ◌≢◌, refl, true, false, Option, none, some, arith, if◌then◌else◌, member,
  Bool-cases, inl, inr, sym, ◌∙◌, ap, subst,
}
use hostable_32v.Buffers.{
  Buffer, Cache, Devices, Call, returned, waits, and_then, nodev, major, geterror, iowait,
}
use hostable_32v.Buffers.Invariant.{IsCache, IsDriver, delayed, assign_self, assign_ne, IsCache-put}
use hostable_32v.Buffers.Getblk.{IsHeld, Ended, gets, waits_for_buffer, waits_for_any, getblk-Ended}
use hostable_32v.Buffers.Io.{read_start, bread_held, bread}
use hostable_32v.Buffers.{getblk}

-- The strategy routine was called to read the whole block to the buffer, and nothing else was changed
-- before that.
pub record Requested (d : Devices) (bp : ℕ) (c₀ c' : Cache) : Type 0 where
  pub asked : Cache
  pub read : (asked.buffer bp).b_read ≡ true
  pub whole : (asked.buffer bp).b_bcount ≡ 512
  pub device : (asked.buffer bp).b_dev ≡ (c₀.buffer bp).b_dev
  pub block : (asked.buffer bp).b_blkno ≡ (c₀.buffer bp).b_blkno
  pub others : (b : ℕ) → b ≢ bp → asked.buffer b ≡ c₀.buffer b
  pub started : c'.buffer ≡ (d.strategy bp asked).buffer

-- What UNIX_bread ends in, where UNIX_getblk ends in `g`. Where it waits for the transfer, the buffer is
-- the caller's.
pub data Obtained (d : Devices) (dev blkno : ℕ) (g r : Call ℕ) : Type 0 where
  has_it :
      (bp : ℕ) (c₀ c' : Cache)
      → g ≡ returned bp c₀
      → (c₀.buffer bp).b_done ≡ true
      → c'.buffer ≡ c₀.buffer
      → r ≡ returned bp c'
      → IsHeld dev blkno bp c'
      → Obtained d dev blkno g r
  obtains :
      (bp : ℕ) (c₀ c' : Cache)
      → g ≡ returned bp c₀
      → (c₀.buffer bp).b_done ≡ false
      → Requested d bp c₀ c'
      → r ≡ returned bp c'
      → IsHeld dev blkno bp c'
      → (c'.buffer bp).b_done ≡ true
      → Obtained d dev blkno g r
  waits_for_transfer :
      (bp : ℕ) (c₀ c' : Cache)
      → g ≡ returned bp c₀
      → (c₀.buffer bp).b_done ≡ false
      → Requested d bp c₀ c'
      → r ≡ waits (some bp) c'
      → IsHeld dev blkno bp c'
      → (c'.buffer bp).b_done ≡ false
      → Obtained d dev blkno g r
  waits_for_other :
      Ended dev blkno r → ((bp : ℕ) (c' : Cache) → r ≢ returned bp c') → Obtained d dev blkno g r

iowait-Obtained :
    (d : Devices) (dev blkno bp : ℕ) (g : Call ℕ) (c₀ c : Cache)
    → g ≡ returned bp c₀
    → (c₀.buffer bp).b_done ≡ false
    → Requested d bp c₀ c
    → IsHeld dev blkno bp c
    → Obtained d dev blkno g (iowait bp c)
unfolding iowait
iowait-Obtained d dev blkno bp g c₀ c got late q h = elim (Bool-cases (c.buffer bp).b_done) [
  | inl t ↦
      obtains bp c₀ (geterror bp c) got late
        (record {
          asked = q.asked;
          read = q.read;
          whole = q.whole;
          device = q.device;
          block = q.block;
          others = q.others;
          started = q.started;
        })
        (rw t refl)
        (record {
          cache = h.cache;
          number = h.number;
          busy = h.busy;
          device = h.device;
          block = h.block;
          listed = h.listed;
        })
        t
  | inr f ↦ waits_for_transfer bp c₀ c got late q (rw f refl) h f
]

-- The transfer is started, and the buffer stays the caller's.
module _ (d : Devices) (drives : IsDriver d) (dev blkno bp : ℕ) (c : Cache)
    (h : IsHeld dev blkno bp c) (sync : (c.buffer bp).b_async ≡ false) where
  asked : Cache
  asked = read_start bp c

  sent : Cache
  sent = d.strategy bp asked

  asked_busy : (asked.buffer bp).b_busy ≡ true
  unfolding asked
  asked_busy = ap Buffer.b_busy (assign_self c.buffer bp _) ∙ h.busy

  IsCache-asked : IsCache asked
  unfolding asked
  IsCache-asked = IsCache-put bp _ c refl (inl refl) refl refl h.cache

  stays_held :
      ((d.strategy bp asked).tab ≡ c.tab)
      × (((d.strategy bp asked).buffer bp).b_busy ≡ true)
      × (((d.strategy bp asked).buffer bp).b_dev ≡ dev)
      × (((d.strategy bp asked).buffer bp).b_blkno ≡ blkno)
  unfolding asked
  stays_held =
      let (tab, busy, device, block) =
        drives.stays bp (read_start bp c) (ap Buffer.b_busy (assign_self c.buffer bp _) ∙ h.busy)
          (ap Buffer.b_async (assign_self c.buffer bp _) ∙ sync) in
      (
        tab,
        busy,
        device ∙ ap Buffer.b_dev (assign_self c.buffer bp _) ∙ h.device,
        block ∙ ap Buffer.b_blkno (assign_self c.buffer bp _) ∙ h.block,
      )

  IsHeld-sent : (n : ℕ) → IsHeld dev blkno bp (record sent { nread = n })
  unfolding sent
  IsHeld-sent n =
      let (tab, busy, device, block) = stays_held in
      record {
        cache = drives.keeps bp asked IsCache-asked h.number asked_busy;
        number = h.number;
        busy = busy;
        device = device;
        block = block;
        listed = ap (λ t. member bp (t (major dev))) tab ∙ h.listed;
      }

  asked-Requested : (n : ℕ) → Requested d bp c (record sent { nread = n })
  unfolding sent asked
  asked-Requested n =
      let self = assign_self c.buffer bp (record (c.buffer bp) { b_read = true; b_bcount = 512 }) in
      record {
        asked = read_start bp c;
        read = ap (λ x. x.b_read) self;
        whole = ap (λ x. x.b_bcount) self;
        device = ap (λ x. x.b_dev) self;
        block = ap (λ x. x.b_blkno) self;
        others = λ b ne. assign_ne c.buffer bp _ b ne;
        started = refl;
      }

  pub bread_held-Obtained :
      (g : Call ℕ) → g ≡ returned bp c → Obtained d dev blkno g (bread_held d bp c)
  unfolding bread_held sent asked
  bread_held-Obtained g got = elim (Bool-cases (c.buffer bp).b_done) [
    | inl t ↦
        has_it bp c (record c { ncache = c.ncache + 1 }) got t refl
          (ap
            (λ x.
              if x
              then returned bp (record c { ncache = c.ncache + 1 })
              else iowait bp (record sent { nread = sent.nread + 1 }))
            t)
          (record {
            cache = h.cache;
            number = h.number;
            busy = h.busy;
            device = h.device;
            block = h.block;
            listed = h.listed;
          })
    | inr f ↦
        subst (Obtained d dev blkno g)
          (sym (
            ap
              (λ x.
                if x
                then returned bp (record c { ncache = c.ncache + 1 })
                else iowait bp (record sent { nread = sent.nread + 1 }))
              f))
          (iowait-Obtained d dev blkno bp g c (record sent { nread = sent.nread + 1 }) got f
            (asked-Requested (sent.nread + 1)) (IsHeld-sent (sent.nread + 1)))
  ]

returned-ne-waits : (bp : ℕ) (c c' : Cache) (ch : Option ℕ) → waits ch c ≢ returned bp c'
returned-ne-waits bp c c' ch e = ground (arith, e)

-- Under the conditions of `getblk-Ended`: UNIX_bread returns the busy buffer that UNIX_getblk has returned
-- for the block, if its words are there; else it calls the strategy routine to read the block to it,
-- and returns it when the transfer is done or sleeps until it is; or it sleeps as UNIX_getblk does.
pub bread-Obtained :
    (fuel : ℕ) (d : Devices) (dev blkno : ℕ) (c : Cache)
    → IsDriver d
    → IsCache c
    → major dev < d.nblkdev
    → d.d_tab (major dev) ≡ true
    → dev ≢ nodev
    → delayed c < fuel
    → Obtained d dev blkno (getblk fuel d dev blkno c) (bread fuel d dev blkno c)
unfolding bread
bread-Obtained fuel d dev blkno c drives w in_range table real less =
    elim (getblk-Ended fuel d dev blkno c drives w in_range table real less) [
      | gets bp c' e h sync ↦
          subst (λ r. Obtained d dev blkno r (and_then r (bread_held d))) (sym e)
            (bread_held-Obtained d drives dev blkno bp c' h sync (returned bp c') refl)
      | waits_for_buffer bp c' e h want ↦
          subst (λ r. Obtained d dev blkno r (and_then r (bread_held d))) (sym e)
            (waits_for_other (waits_for_buffer bp c' refl h want)
              (λ b c''. returned-ne-waits b c' c'' (some bp)))
      | waits_for_any c' e w' empty want ↦
          subst (λ r. Obtained d dev blkno r (and_then r (bread_held d))) (sym e)
            (waits_for_other (waits_for_any c' refl w' empty want)
              (λ b c''. returned-ne-waits b c' c'' none))
    ]
