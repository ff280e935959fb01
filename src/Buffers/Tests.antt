-- ===== src/Buffers/Tests.antt =====
-- The buffer cache at concrete inputs.
use hostable_32v.Prelude.{
  ℕ, ◌≡◌, refl, true, false, [], ◌∷◌, arith, ◌==◌, if◌then◌else◌, member, remove, replicate,
}
use hostable_32v.Buffers.{
  Buffer, Cache, Devices, Call, notavail, returned, nodev, assign, brelse, bwrite, find, take_first,
  getblk,
}
use hostable_32v.Buffers.Invariant.{IsCache, IsDriver, count_delayed, IsCache-notavail}
use hostable_32v.Buffers.Getblk.{IsHeld, Ended, getblk-Ended}
use hostable_32v.Buffers.Io.{bread, bflush}
use hostable_32v.Prelude.{◌⊎◌}
use hostable_32v.Buffers.{nodev}
use hostable_32v.Buffers.Read.{Obtained, bread-Obtained}
use hostable_32v.Buffers.Flush.{bflush_lem}
use hostable_32v.Buffers.Release.{getblk-brelse}

abbrev idle : Buffer
idle = record {
  b_read = false;
  b_done = false;
  b_error = false;
  b_busy = false;
  b_wanted = false;
  b_age = false;
  b_async = false;
  b_delwri = false;
  b_dev = nodev;
  b_blkno = 0;
  b_bcount = 0;
  error_code = 0;
  b_resid = 0;
  b_words = [];
}

-- Buffer 0 has a delayed write for block 7 of device 0, buffer 1 stands for nothing; all others are
-- busy.
abbrev buffers : ℕ → Buffer
buffers b =
    if b == 0
    then record idle { b_done = true; b_delwri = true; b_dev = 0; b_blkno = 7 }
    else if b == 1
    then idle
    else record idle { b_busy = true }

abbrev cache : Cache
cache = record {
  buffer = buffers;
  tab = λ m. if m == 0 then 0 ∷ [] else [];
  spare = 1 ∷ [];
  avail = 0 ∷ 1 ∷ [];
  free_wanted = false;
  woken = [];
  u_error = 0;
  nread = 0;
  nreada = 0;
  ncache = 0;
  nwrite = 0;
  bufcount = replicate 32 0;
}

-- One device, whose driver queues its requests.
abbrev devices : Devices
devices = record { nblkdev = 1; d_tab = λ m. true; b_tape = λ m. false; strategy = λ bp c. c }

devices-IsDriver : IsDriver devices
devices-IsDriver = record {
  keeps = λ bp c w l busy. w;
  quiet = λ bp c late. omega arith;
  stays = λ bp c busy sync. (refl, busy, refl, refl);
}

cache-IsCache : IsCache cache
cache-IsCache = record {
  in_pool = λ b h. ground (arith, h);
  busy_or_not = λ b h. ground arith;
  settled = λ b h. ground arith;
  on_list = λ m b h. ground (arith, h);
  of_device = λ m b h. ground (arith, h);
  one_list = λ m m' b h h'. ground (arith, h, h');
  one_buffer = λ m b b' h h' n e e'. ground (arith, h, h');
}

getblk-Ended_example : Ended 0 3 (getblk 2 devices 0 3 cache)
unfolding count_delayed
getblk-Ended_example =
    getblk-Ended 2 devices 0 3 cache devices-IsDriver cache-IsCache (omega arith) refl (omega arith)
      (omega arith)

bread-Obtained_example :
    Obtained devices 0 3 (getblk 2 devices 0 3 cache) (bread 2 devices 0 3 cache)
unfolding count_delayed
bread-Obtained_example =
    bread-Obtained 2 devices 0 3 cache devices-IsDriver cache-IsCache (omega arith) refl
      (omega arith) (omega arith)

bflush_lem_example :
    (c' : Cache) × (bflush 2 devices 0 cache ≡ returned 0 c')
    × IsCache c'
    × ((bp : ℕ)
        → member bp c'.avail ≡ true
        → (0 ≡ nodev) ⊎ ((c'.buffer bp).b_dev ≡ 0)
        → (c'.buffer bp).b_delwri ≡ false)
unfolding count_delayed
bflush_lem_example = bflush_lem 2 devices 0 cache devices-IsDriver cache-IsCache (omega arith)

-- The delayed write of buffer 0 is started, and buffer 1 is taken.
number_got : Call ℕ → ℕ
number_got (returned bp c) = bp
number_got _ = 99

getblk_takes_one : number_got (getblk 2 devices 0 3 cache) ≡ 1
unfolding number_got getblk find take_first bwrite assign remove
getblk_takes_one = refl

-- Buffer 0 in use.
abbrev in_use : Cache
in_use = notavail 0 cache

in_use-IsHeld : IsHeld 0 7 0 in_use
unfolding assign
in_use-IsHeld = record {
  cache = IsCache-notavail 0 cache cache-IsCache;
  number = omega arith;
  busy = refl;
  device = refl;
  block = refl;
  listed = refl;
}

getblk-brelse_example :
    (c' : Cache) × (getblk 1 devices 0 7 (brelse 0 in_use) ≡ returned 0 c')
    × IsHeld 0 7 0 c'
    × ((c'.buffer 0).b_words ≡ (in_use.buffer 0).b_words)
    × ((c'.buffer 0).b_done ≡ (in_use.buffer 0).b_done)
    × ((c'.buffer 0).b_delwri ≡ (in_use.buffer 0).b_delwri)
unfolding assign
getblk-brelse_example =
    getblk-brelse 0 devices 0 7 0 in_use in_use-IsHeld refl (omega arith) refl (omega arith)
