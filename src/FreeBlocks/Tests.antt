-- ===== src/FreeBlocks/Tests.antt =====
-- The free list at concrete inputs.
use hostable_32v.Prelude.{ℕ, ◌≤◌, ◌<◌, ◌≢◌, refl, false, List, [], ◌∷◌, ◌++◌, arith, replicate}
use hostable_32v.FreeBlocks.{Filsys, Volume, write, alloc, free}
use hostable_32v.FreeBlocks.Chain.{IsData, end, next, link, Holds}
use hostable_32v.FreeBlocks.Alloc.{Allocated, alloc-cons}
use hostable_32v.FreeBlocks.Free.{Freed, free-cons}

abbrev super : ℕ → List ℕ → Filsys
super n a = record {
  s_isize = 10;
  s_fsize = 100;
  s_nfree = n;
  s_free = a ++ replicate 48 0;
  s_ninode = 0;
  s_inode = replicate 100 0;
  s_flock = false;
  s_ilock = false;
  s_fmod = false;
}

-- Blocks 21 and 20 are free, and block 20 names 30.
abbrev volume : Volume
volume = record {
  fs = super 2 (20 ∷ 21 ∷ []);
  block = write (λ b. replicate 128 7) 20 (2 ∷ 0 ∷ 30 ∷ replicate 125 0);
  u_error = 0;
}

IsData-block : (b : ℕ) → b ≢ 0 → 10 ≤ b → b < 100 → IsData 10 100 b
IsData-block b n f t = record { not_zero = n; from = f; to = t }

volume-Holds : Holds volume (21 ∷ 20 ∷ 30 ∷ [])
unfolding write
volume-Holds = record {
  chain = next {k = 0} refl refl (IsData-block 21 (omega arith) (omega arith) (omega arith)) refl (
      link refl refl (IsData-block 20 (omega arith) (omega arith) (omega arith)) refl refl
        (omega arith) (omega arith) refl
        (next {k = 0} refl refl (IsData-block 30 (omega arith) (omega arith) (omega arith)) refl
          (end refl refl)));
  size = refl;
  count = omega arith;
  inodes = omega arith;
  unlocked = refl;
}

-- The one address in core is that of block 20.
abbrev last_address : Volume
last_address = record volume { fs = super 1 (20 ∷ 21 ∷ []) }

last_address-Holds : Holds last_address (20 ∷ 30 ∷ [])
unfolding write
last_address-Holds = record {
  chain =
      link refl refl (IsData-block 20 (omega arith) (omega arith) (omega arith)) refl refl
        (omega arith) (omega arith) refl
        (next {k = 0} refl refl (IsData-block 30 (omega arith) (omega arith) (omega arith)) refl
          (end refl refl));
  size = refl;
  count = omega arith;
  inodes = omega arith;
  unlocked = refl;
}

abbrev exhausted : Volume
exhausted = record volume { fs = super 1 (0 ∷ 21 ∷ []) }

exhausted-Holds : Holds exhausted []
exhausted-Holds = record {
  chain = end refl refl;
  size = refl;
  count = omega arith;
  inodes = omega arith;
  unlocked = refl;
}

alloc-cons_example : Allocated volume 21 (20 ∷ 30 ∷ []) (alloc (λ b. false) volume)
alloc-cons_example = alloc-cons (λ b. false) volume 21 (20 ∷ 30 ∷ []) volume-Holds refl

free-cons_example : Freed volume 50 (21 ∷ 20 ∷ 30 ∷ []) (free volume 50)
free-cons_example =
    free-cons volume 50 (21 ∷ 20 ∷ 30 ∷ []) volume-Holds
      (IsData-block 50 (omega arith) (omega arith) (omega arith)) refl
