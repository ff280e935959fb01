-- ===== src/BlockMap/Position.antt =====
-- Where a block of a file stands in the tree of its addresses, described without UNIX_bmap.
use hostable_32v.Prelude.{ℕ, ◌+◌, ◌*◌, ◌<◌, Bool, List, [], ◌∷◌, ◌==◌, if◌then◌else◌, get_or}
use hostable_32v.BlockMap.{Answer, block_at, no_block, failed}

-- A direct block, or the indices in the one, two or three indirect blocks on the way.
pub data Position : Type 0 where
  direct : ℕ → Position
  single : ℕ → Position
  double : ℕ → ℕ → Position
  triple : ℕ → ℕ → ℕ → Position

unfoldable pub IsPosition : Position → Type 0
IsPosition (direct i) = i < 10
IsPosition (single i) = i < 128
IsPosition (double i j) = (i < 128) × (j < 128)
IsPosition (triple i j k) = (i < 128) × (j < 128) × (k < 128)

-- The number of the block in the file.
unfoldable pub number : Position → ℕ
number (direct i) = i
number (single i) = 10 + i
number (double i j) = 10 + 128 + (128 * i + j)
number (triple i j k) = 10 + 128 + 16384 + (16384 * i + 128 * j + k)

-- The index of the address in the inode.
unfoldable pub slot : Position → ℕ
slot (direct i) = i
slot (single _) = 10
slot (double _ _) = 11
slot (triple _ _ _) = 12

unfoldable pub indices : Position → List ℕ
indices (direct _) = []
indices (single i) = i ∷ []
indices (double i j) = i ∷ j ∷ []
indices (triple i j k) = i ∷ j ∷ k ∷ []

-- What is found from the address `nb` on: an address 0 is no block.
unfoldable pub follow : (ℕ → Bool) → (ℕ → List ℕ) → ℕ → List ℕ → Answer
follow error block nb [] = if nb == 0 then no_block else block_at nb
follow error block nb (i ∷ is) =
    let next = follow error block (get_or (block nb) i 0) is in
    if nb == 0 then no_block else if error nb then failed else next
