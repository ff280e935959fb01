-- ===== src/Frames/Tests.antt =====
-- Page frames at concrete inputs.
use hostable_32v.Prelude.{distinct, inl, inr, false, ◌≡◌, refl, [], ◌==◌, arith}
use hostable_32v.Frames.{Frames, memall, meminit}
use hostable_32v.Frames.Count.{count_free}
use hostable_32v.Frames.Alloc.{IsFrames}
use hostable_32v.Frames.Boot.{IsFresh}
use hostable_32v.Frames.Free.{Lent, memfree-memall}

-- Of the frames 10 to 13, the frame 11 is in use, and none is in the cache.
abbrev frames : Frames
frames = record {
  memmap = λ p. p == 11;
  m_pnum = [];
  firstfree = 10;
  maxfree = 14;
  lastpos = 12;
  freemem = 3;
}

frames-IsFrames : IsFrames frames
unfolding distinct count_free
frames-IsFrames = record {
  low = omega arith;
  high = omega arith;
  free = λ p h. ground (arith, h);
  once = refl;
  few = omega arith;
  counted = refl;
}

memfree-memall_example : Lent 2 frames (memall 4 2 frames)
memfree-memall_example =
    memfree-memall 4 2 frames (inl frames-IsFrames) (omega arith) (omega arith) (omega arith)
      (omega arith)

-- As UNIX_meminit leaves 190 frames.
abbrev boot : Frames
boot = record {
  memmap = λ _. false;
  m_pnum = [];
  firstfree = 10;
  maxfree = 200;
  lastpos = 200;
  freemem = 190;
}

boot_test : meminit 10 200 (record boot { lastpos = 0; freemem = 0 }) ≡ boot
unfolding meminit
boot_test = refl

boot-IsFresh : IsFresh boot
unfolding distinct count_free
boot-IsFresh = record {
  behind = refl;
  none_cached = refl;
  many = omega arith;
  clear = λ p low high. refl;
  frames = record {
    low = omega arith;
    high = omega arith;
    free = λ p h. ground (arith, h);
    once = refl;
    few = omega arith;
    counted = refl;
  };
}

boot-Lent : Lent 3 boot (memall 190 3 boot)
boot-Lent =
    memfree-memall 190 3 boot (inr boot-IsFresh) (omega arith) (omega arith) (omega arith)
      (omega arith)
