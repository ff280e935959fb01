-- ===== src/BlockMap/Tests.antt =====
-- The block map at concrete inputs.
use hostable_32v.Prelude.{
  ℕ, ◌≤◌, ◌<◌, ◌≡◌, ◌≢◌, refl, Bool, true, false, List, [], ◌∷◌, ◌++◌, arith, ◌==◌, if◌then◌else◌,
  replicate, inl, get_or,
}
use hostable_32v.FreeBlocks.{Volume, done}
use hostable_32v.FreeBlocks.Chain.{IsData, end, next, Holds}
use hostable_32v.BlockMap.{
  File, block_at, failed, bmap, walk, fetch, with_new, indirect, find_level,
}
use hostable_32v.BlockMap.Position.{double, single, number, slot, indices, follow, IsPosition}
use hostable_32v.BlockMap.Read.{Found, bmap-follow, bmap-too_big}
use hostable_32v.BlockMap.Write.{Mapped, bmap-Mapped}

-- Free are 23, 22, 21 and 20, in this order. Block 40 is a single indirect block whose address at
-- index 1 is 41.
abbrev volume : Volume
volume = record {
  fs = record {
    s_isize = 10;
    s_fsize = 100;
    s_nfree = 5;
    s_free = 0 ∷ 20 ∷ 21 ∷ 22 ∷ 23 ∷ replicate 45 0;
    s_ninode = 0;
    s_inode = replicate 100 0;
    s_flock = false;
    s_ilock = false;
    s_fmod = false;
  };
  block = λ b. if b == 40 then 0 ∷ 41 ∷ replicate 126 0 else replicate 128 0;
  u_error = 0;
}

abbrev file : File
file = record {
  i_addr = replicate 10 0 ++ (40 ∷ 0 ∷ 0 ∷ []);
  i_changed = false;
  rablock = 0;
  volume = volume;
}

IsData-block : (b : ℕ) → b ≢ 0 → 10 ≤ b → b < 100 → IsData 10 100 b
IsData-block b n f t = record { not_zero = n; from = f; to = t }

abbrev free_blocks : List ℕ
free_blocks = 23 ∷ 22 ∷ 21 ∷ 20 ∷ []

volume-Holds : Holds volume free_blocks
volume-Holds = record {
  chain = next {k = 3} refl refl (IsData-block 23 (omega arith) (omega arith) (omega arith)) refl (
      next {k = 2} refl refl (IsData-block 22 (omega arith) (omega arith) (omega arith)) refl (
        next {k = 1} refl refl (IsData-block 21 (omega arith) (omega arith) (omega arith)) refl (
          next {k = 0} refl refl (IsData-block 20 (omega arith) (omega arith) (omega arith)) refl
            (end refl refl))));
  size = refl;
  count = omega arith;
  inodes = omega arith;
  unlocked = refl;
}

no_errors : ℕ → Bool
no_errors b = false

-- Block 11 of the file is the one at index 1 of the single indirect block.
reads_single : bmap no_errors true 11 file ≡ done (block_at 41, file)
unfolding bmap fetch with_new indirect find_level walk no_errors
reads_single = refl

bmap-follow_example :
    Found file
      (follow no_errors volume.block (get_or file.i_addr (slot (single 1)) 0) (indices (single 1)))
      (bmap no_errors true (number (single 1)) file)
bmap-follow_example = bmap-follow no_errors (single 1) file (is_position)
  where
    is_position : IsPosition (single 1)
    is_position = unfold IsPosition in omega arith

bmap-too_big_example :
    (ra : ℕ) × (bmap no_errors false 3000000 file
      ≡ done (failed, record file { rablock = ra; volume = record volume { u_error = 27 } }))
bmap-too_big_example = bmap-too_big no_errors false 3000000 file (omega arith)

bmap-Mapped_example :
    Mapped no_errors file free_blocks
      (slot (double 3 5))
      (indices (double 3 5))
      (bmap no_errors false (number (double 3 5)) file)
unfolding no_errors IsPosition slot indices
bmap-Mapped_example =
    bmap-Mapped no_errors (λ b. refl) (double 3 5) file free_blocks (omega arith, omega arith)
      volume-Holds refl (inl refl) (omega arith)
