-- ===== src/Buffers/Io.antt =====
-- The functions of bio.c that use the cache: reading, reading ahead, buffers of no block, the end of
-- a transfer, and the writing of all delayed writes of a device.
use hostable_32v.Prelude.{
  ℕ, zero, suc, ◌+◌, Bool, true, false, ◌&&◌, ◌||◌, Option, none, some, List, [], ◌∷◌, ◌==◌,
  if◌then◌else◌, replicate, remove,
}
use hostable_32v.Buffers.{
  Cache, Devices, Call, returned, waits, out_of_fuel, and_then, bsize, nodev, put, notavail, brelse,
  iowait, bwrite, incore, set_async, getblk,
}

-- The request to read, up to the strategy routine.
abbrev pub read_start : ℕ → Cache → Cache
read_start bp c = put bp (record (c.buffer bp) { b_read = true; b_bcount = bsize }) c

-- UNIX_bread after the call of getblk.
unfoldable pub bread_held : Devices → ℕ → Cache → Call ℕ
bread_held d bp c =
    let c' = d.strategy bp (read_start bp c) in
    if (c.buffer bp).b_done
    then returned bp (record c { ncache = c.ncache + 1 })
    else iowait bp (record c' { nread = c'.nread + 1 })

-- UNIX_bread, with the rounds that getblk may take.
unfoldable pub bread : ℕ → Devices → ℕ → ℕ → Cache → Call ℕ
bread fuel d dev blkno c = and_then (getblk fuel d dev blkno c) (bread_held d)

-- What UNIX_breada does first: `none` where the block is in core.
unfoldable pub breada_block : ℕ → Devices → ℕ → ℕ → Cache → Call (Option ℕ)
breada_block fuel d dev blkno c =
    if incore c dev blkno
    then returned none c
    else and_then (getblk fuel d dev blkno c) (λ bp c'.
      let c'' = d.strategy bp (read_start bp c') in
      if (c'.buffer bp).b_done
      then returned (some bp) c'
      else returned (some bp) (record c'' { nread = c''.nread + 1 }))

-- The request to read ahead, up to the strategy routine.
abbrev pub read_async : ℕ → Cache → Cache
read_async bp c =
    put bp (record (c.buffer bp) { b_read = true; b_async = true; b_bcount = bsize }) c

-- The read-ahead of UNIX_breada.
unfoldable pub breada_ahead : ℕ → Devices → ℕ → ℕ → Cache → Call ℕ
breada_ahead fuel d dev rablkno c =
    if (rablkno == 0) || incore c dev rablkno
    then returned 0 c
    else and_then (getblk fuel d dev rablkno c) (λ bp c'.
      let c'' = d.strategy bp (read_async bp c') in
      if (c'.buffer bp).b_done
      then returned bp (brelse bp c')
      else returned bp (record c'' { nreada = c''.nreada + 1 }))

-- UNIX_breada after the read-ahead.
abbrev pub breada_end : ℕ → Devices → ℕ → ℕ → Option ℕ → Cache → Call ℕ
breada_end fuel d dev blkno none c = bread fuel d dev blkno c
breada_end fuel d dev blkno (some bp) c = iowait bp c

-- UNIX_breada. Each of the calls of getblk may take `fuel` rounds.
unfoldable pub breada : ℕ → Devices → ℕ → ℕ → ℕ → Cache → Call ℕ
breada fuel d dev blkno rablkno c = and_then (breada_block fuel d dev blkno c) (λ bp c'.
    and_then (breada_ahead fuel d dev rablkno c') (λ _ c''. breada_end fuel d dev blkno bp c''))

-- UNIX_geteblk: the buffer goes to the list that begins at `bfreelist`.
abbrev pub set_free : ℕ → Cache → Cache
set_free bp c =
    record (put bp
      (record (c.buffer bp) {
        b_read = false;
        b_done = false;
        b_error = false;
        b_busy = true;
        b_wanted = false;
        b_age = false;
        b_async = false;
        b_delwri = false;
        b_dev = nodev;
      })
      c) { tab = λ m. remove bp (c.tab m); spare = bp ∷ remove bp c.spare }

unfoldable pub take_any : Devices → (Cache → Call ℕ) → List ℕ → Cache → Call ℕ
take_any d again [] c = waits none (record c { free_wanted = true })
take_any d again (bp ∷ _) c =
    let c' = notavail bp c in
    if (c.buffer bp).b_delwri
    then and_then (bwrite d bp (set_async bp c')) (λ _ c''. again c'')
    else returned bp (set_free bp c')

unfoldable pub geteblk : ℕ → Devices → Cache → Call ℕ
geteblk zero d c = out_of_fuel
geteblk (suc fuel) d c = take_any d (λ c'. geteblk fuel d c') c.avail c

-- UNIX_iodone.
unfoldable pub iodone : ℕ → Cache → Cache
iodone bp c =
    let c' = put bp (record (c.buffer bp) { b_done = true }) c in
    if (c.buffer bp).b_async
    then brelse bp c'
    else record (put bp (record (c.buffer bp) { b_done = true; b_wanted = false }) c) {
      woken = some bp ∷ c.woken;
    }

-- UNIX_clrbuf.
abbrev pub clrbuf : ℕ → Cache → Cache
clrbuf bp c = put bp (record (c.buffer bp) { b_words = replicate 128 0; b_resid = 0 }) c

-- The test in the loop of UNIX_bflush.
abbrev pub to_flush : ℕ → Cache → ℕ → Bool
to_flush dev c bp = (c.buffer bp).b_delwri && ((dev == nodev) || (dev == (c.buffer bp).b_dev))

-- The loop over the available buffers up to the first that has to be written.
unfoldable pub first_to_flush : ℕ → Cache → List ℕ → Option ℕ
first_to_flush dev c [] = none
first_to_flush dev c (bp ∷ bps) = if to_flush dev c bp then some bp else first_to_flush dev c bps

-- UNIX_bflush, with the rounds of its outer loop.
unfoldable pub bflush : ℕ → Devices → ℕ → Cache → Call ℕ
unfolding first_to_flush
bflush zero d dev c = out_of_fuel
bflush (suc fuel) d dev c = elim (first_to_flush dev c c.avail) [
  | none ↦ returned 0 c
  | some bp ↦ and_then (bwrite d bp (notavail bp (set_async bp c))) (λ _ c'. bflush fuel d dev c')
]
