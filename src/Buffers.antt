-- ===== src/Buffers.antt =====
-- The buffer cache of bio.c, over `struct buf` of h/buf.h: the buffers of each device, and the list
-- of those that are available.
pub mod Invariant
pub mod Reassign
pub mod Late
pub mod Getblk
pub mod Io
pub mod Read
pub mod Flush
pub mod Release
mod Tests
use hostable_32v.Prelude.{
  ℕ, zero, suc, ◌+◌, ◌/◌, ◌%◌, Bool, true, false, not, ◌&&◌, ◌||◌, Option, none, some, List, [],
  ◌∷◌, ◌++◌, ltb, leb, ◌==◌, if◌then◌else◌, length, get_or, set, replicate, remove,
}

-- `struct buf`: the flags that these functions use, and the words of its block.
pub record Buffer : Type 0 where
  pub b_read : Bool
  pub b_done : Bool
  pub b_error : Bool
  pub b_busy : Bool
  pub b_wanted : Bool
  pub b_age : Bool
  pub b_async : Bool
  pub b_delwri : Bool
  pub b_dev : ℕ
  pub b_blkno : ℕ
  pub b_bcount : ℕ
  pub error_code : ℕ
  pub b_resid : ℕ
  pub b_words : List ℕ

-- The buffers by number; for each major device the list from its `b_forw` on; the list that begins
-- at `bfreelist.b_forw`; the one that begins at `bfreelist.av_forw`; the B_WANTED flag of
-- `bfreelist`; the calls of UNIX_wakeup, newest first (`none` is `bfreelist`); and `io_info`.
pub record Cache : Type 0 where
  pub buffer : ℕ → Buffer
  pub tab : ℕ → List ℕ
  pub spare : List ℕ
  pub avail : List ℕ
  pub free_wanted : Bool
  pub woken : List (Option ℕ)
  pub u_error : ℕ
  pub nread : ℕ
  pub nreada : ℕ
  pub ncache : ℕ
  pub nwrite : ℕ
  pub bufcount : List ℕ

-- The block devices: their number, which of them have a `d_tab`, which are magtapes, and the
-- `d_strategy` of the device of a buffer.
pub record Devices : Type 0 where
  pub nblkdev : ℕ
  pub d_tab : ℕ → Bool
  pub b_tape : ℕ → Bool
  pub strategy : ℕ → Cache → Cache

-- A call returns, sleeps on a buffer or (`none`) on `bfreelist`, panics, or needs more rounds.
pub data Call {ℓ} (A : Type ℓ) : Type ℓ where
  returned : A → Cache → Call A
  waits : Option ℕ → Cache → Call A
  panics : Call A
  out_of_fuel : Call A

abbrev pub and_then {ℓ κ} : {A : Type ℓ} {B : Type κ} → Call A → (A → Cache → Call B) → Call B
and_then (returned a c) k = k a c
and_then (waits ch c) k = waits ch c
and_then panics k = panics
and_then out_of_fuel k = out_of_fuel

abbrev pub nbuf : ℕ
nbuf = 32

abbrev pub bsize : ℕ
bsize = 512

abbrev pub eio : ℕ
eio = 5

abbrev pub nodev : ℕ
nodev = 65535

abbrev pub major : ℕ → ℕ
major dev = dev / 256 % 256

unfoldable pub assign : (ℕ → Buffer) → ℕ → Buffer → ℕ → Buffer
assign f bp v b = if b == bp then v else f b

abbrev pub put : ℕ → Buffer → Cache → Cache
put bp v c = record c { buffer = assign c.buffer bp v }

-- UNIX_notavail.
abbrev pub notavail : ℕ → Cache → Cache
notavail bp c = record (put bp (record (c.buffer bp) { b_busy = true }) c) {
  avail = remove bp c.avail;
}

-- UNIX_brelse.
unfoldable pub brelse : ℕ → Cache → Cache
brelse bp c =
    let b = c.buffer bp in
    let woken₁ = if b.b_wanted then some bp ∷ c.woken else c.woken in
    record c {
      woken = if c.free_wanted then none ∷ woken₁ else woken₁;
      free_wanted = false;
      avail = if b.b_age then bp ∷ c.avail else c.avail ++ (bp ∷ []);
      buffer = assign c.buffer bp (record b {
        b_dev = if b.b_error then nodev else b.b_dev;
        b_wanted = false;
        b_busy = false;
        b_async = false;
        b_age = false;
      });
    }

-- UNIX_geterror.
abbrev pub geterror : ℕ → Cache → Cache
geterror bp c =
    let b = c.buffer bp in
    record c {
      u_error = if b.b_error then (if b.error_code == 0 then eio else b.error_code) else c.u_error;
    }

-- UNIX_iowait, up to its sleep.
unfoldable pub iowait : ℕ → Cache → Call ℕ
iowait bp c = if (c.buffer bp).b_done then returned bp (geterror bp c) else waits (some bp) c

-- What follows the call of the strategy routine in UNIX_bwrite where it waits.
abbrev pub bwrite_end : ℕ → Cache → Call ℕ
bwrite_end bp c = and_then (iowait bp c) (λ _ c'. returned bp (brelse bp c'))

-- UNIX_bwrite up to the call of the strategy routine.
abbrev pub bwrite_start : ℕ → Cache → Cache
bwrite_start bp c =
    record (put bp
      (record (c.buffer bp) {
        b_read = false;
        b_done = false;
        b_error = false;
        b_delwri = false;
        b_age = false;
        b_bcount = bsize;
      })
      c) { nwrite = c.nwrite + 1 }

-- UNIX_bwrite.
unfoldable pub bwrite : Devices → ℕ → Cache → Call ℕ
bwrite d bp c =
    let flag = c.buffer bp in
    let c' = d.strategy bp (bwrite_start bp c) in
    if not flag.b_async
    then bwrite_end bp c'
    else if flag.b_delwri
    then returned bp (put bp (record (c'.buffer bp) { b_age = true }) c')
    else returned bp (geterror bp c')

-- UNIX_bawrite.
unfoldable pub bawrite : Devices → ℕ → Cache → Call ℕ
bawrite d bp c = bwrite d bp (put bp (record (c.buffer bp) { b_async = true }) c)

-- UNIX_bdwrite.
unfoldable pub bdwrite : Devices → ℕ → Cache → Call ℕ
bdwrite d bp c =
    if d.b_tape (major (c.buffer bp).b_dev)
    then bawrite d bp c
    else returned bp
        (brelse bp (put bp (record (c.buffer bp) { b_delwri = true; b_done = true }) c))

-- The search of UNIX_getblk and UNIX_incore along the list of a device.
pub find : Cache → ℕ → ℕ → List ℕ → Option ℕ
find c dev blkno [] = none
find c dev blkno (bp ∷ bps) =
    if ((c.buffer bp).b_blkno == blkno) && ((c.buffer bp).b_dev == dev)
    then some bp
    else find c dev blkno bps

-- UNIX_incore.
unfoldable pub incore : Cache → ℕ → ℕ → Bool
incore c dev blkno = elim (find c dev blkno (c.tab (major dev))) [ none ↦ false | some bp ↦ true ]

-- How many buffers stand behind `bp` in the list of available ones.
pub behind : ℕ → List ℕ → ℕ
behind bp [] = 0
behind bp (b ∷ bs) = if b == bp then length bs else behind bp bs

-- `if (i<NBUF) io_info.bufcount[i]++;`
abbrev pub count_hit : ℕ → Cache → Cache
count_hit i c = record c {
  bufcount = if ltb i nbuf then set c.bufcount i (get_or c.bufcount i 0 + 1) else c.bufcount;
}

-- What UNIX_getblk does with the buffer that holds the block.
pub take_cached : ℕ → Cache → Call ℕ
take_cached bp c =
    if (c.buffer bp).b_busy
    then waits (some bp) (put bp (record (c.buffer bp) { b_wanted = true }) c)
    else returned bp (notavail bp (count_hit (behind bp c.avail) c))

-- The buffer leaves the list that it is on for the front of its new device's, with no flag but
-- B_BUSY.
abbrev pub reassign : ℕ → ℕ → ℕ → Cache → Cache
reassign bp dev blkno c =
    record (put bp
      (record (c.buffer bp) {
        b_read = false;
        b_done = false;
        b_error = false;
        b_busy = true;
        b_wanted = false;
        b_age = false;
        b_async = false;
        b_delwri = false;
        b_dev = dev;
        b_blkno = blkno;
      })
      c) {
        tab = λ m. if m == major dev then bp ∷ remove bp (c.tab m) else remove bp (c.tab m);
        spare = remove bp c.spare;
      }

-- `bp->b_flags |= B_ASYNC`
abbrev pub set_async : ℕ → Cache → Cache
set_async bp c = put bp (record (c.buffer bp) { b_async = true }) c

-- UNIX_getblk from the search on, with the first available buffer; `again` is its `goto loop`.
pub take_first : Devices → ℕ → ℕ → (Cache → Call ℕ) → List ℕ → Cache → Call ℕ
take_first d dev blkno again [] c = waits none (record c { free_wanted = true })
take_first d dev blkno again (bp ∷ _) c =
    let c' = notavail bp c in
    if (c.buffer bp).b_delwri
    then and_then (bwrite d bp (set_async bp c')) (λ _ c''. again c'')
    else returned bp (reassign bp dev blkno c')

abbrev pub search_cache : Devices → ℕ → ℕ → (Cache → Call ℕ) → Option ℕ → Cache → Call ℕ
search_cache d dev blkno again (some bp) c = take_cached bp c
search_cache d dev blkno again none c = take_first d dev blkno again c.avail c

-- UNIX_getblk, with the rounds of its loop.
pub getblk : ℕ → Devices → ℕ → ℕ → Cache → Call ℕ
getblk zero d dev blkno c = out_of_fuel
getblk (suc fuel) d dev blkno c =
    if leb d.nblkdev (major dev) || not (d.d_tab (major dev))
    then panics
    else search_cache d dev blkno (λ c'. getblk fuel d dev blkno c')
        (find c dev blkno (c.tab (major dev))) c
