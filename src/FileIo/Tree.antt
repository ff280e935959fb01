-- ===== src/FileIo/Tree.antt =====
-- The blocks of a file by UNIX_bmap, where no block has read errors: they can be read as UNIX_readi wants.
use hostable_32v.Prelude.{
  ℕ, ◌+◌, ◌-◌, ◌*◌, ◌/◌, ◌%◌, ◌<◌, ◌≡◌, refl, sym, ap, ◌∙◌, Bool, true, false, List, [], ◌∷◌,
  length, replicate, length-replicate, get_or, arith, ltb, ◌==◌, if◌then◌else◌, Bool-cases, inl,
  inr,
}
use hostable_32v.FreeBlocks.{Ran, sleeps, done}
use hostable_32v.BlockMap.{File, Answer, block_at, no_block, failed, bmap}
use hostable_32v.BlockMap.Position.{
  Position, direct, single, double, triple, IsPosition, number, slot, indices, follow,
}
use hostable_32v.BlockMap.Read.{bmap-follow, with_error}
use hostable_32v.FileIo.{Disk}
use hostable_32v.FileIo.Store.{good, Shows, hole, block, Reads, IsReadable}

abbrev pub no_errors : ℕ → Bool
no_errors _ = false

-- The bytes of a block of words of four bytes, the low one first.
unfoldable pub bytes_of : List ℕ → List ℕ
bytes_of [] = []
bytes_of (w ∷ ws) = w % 256 ∷ w / 256 % 256 ∷ w / 65536 % 256 ∷ w / 16777216 % 256 ∷ bytes_of ws

length-bytes_of : (ws : List ℕ) → length (bytes_of ws) ≡ 4 * length ws
unfolding bytes_of
length-bytes_of [] = refl
length-bytes_of (w ∷ ws) = omega (arith, length-bytes_of ws)

-- What UNIX_bmap answers, its error, and the file afterwards.
abbrev pub answered : File → Ran (Answer × File) → Answer × ℕ × File
answered f sleeps = (failed, 0, f)
answered f (done (a, f')) = (a, f'.volume.u_error, f')

-- The position of a block's number.
unfoldable pub place_of : ℕ → Position
place_of bn =
    if ltb bn 10
    then direct bn
    else if ltb bn 138
    then single (bn - 10)
    else if ltb bn 16522
    then double ((bn - 138) / 128) ((bn - 138) % 128)
    else triple ((bn - 16522) / 16384) ((bn - 16522) / 128 % 128) ((bn - 16522) % 128)

pub place_of-IsPosition :
    (bn : ℕ)
    → bn < 10 + 128 + 16384 + 2097152
    → IsPosition (place_of bn) × (number (place_of bn) ≡ bn)
unfolding place_of IsPosition number
place_of-IsPosition bn h = elim (Bool-cases (ltb bn 10)) [
  | inl y ↦ rw y (ground (arith, y), refl)
  | inr o ↦ elim (Bool-cases (ltb bn 138)) [
    | inl y ↦ rw (o, y) (ground (arith, y), ground (arith, o))
    | inr o₂ ↦ elim (Bool-cases (ltb bn 16522)) [
      | inl y ↦ rw (o, o₂, y) ((ground (arith, y, o₂), omega arith), ground (arith, y, o₂))
      | inr o₃ ↦
          rw (o, o₂, o₃) ((ground (arith, h, o₃), omega arith, omega arith), ground (arith, h, o₃))
    ]
  ]
]

-- Blocks of 128 words, and no error yet.
unfoldable pub IsWhole : File → Type 0
IsWhole f = ((b : ℕ) → length (f.volume.block b) ≡ 128) × (f.volume.u_error ≡ 0)

-- The bytes that an answer of UNIX_bmap stands for.
abbrev pub shown_by : (ℕ → List ℕ) → Answer → List ℕ
shown_by blocks no_block = replicate 512 0
shown_by blocks (block_at bn) = bytes_of (blocks bn)
shown_by blocks failed = replicate 512 0

-- The block of a number, by the tree of addresses.
unfoldable pub tree : File → ℕ → List ℕ
tree f lbn = shown_by f.volume.block (
    follow no_errors f.volume.block (get_or f.i_addr (slot (place_of lbn)) 0)
      (indices (place_of lbn)))

-- A disk whose files UNIX_bmap maps, and whose blocks UNIX_bread shows.
pub record IsMapped (d : Disk File) : Type 0 where
  pub bmap_reads : (lbn : ℕ) (f : File) → d.bmap true lbn f ≡ answered f (bmap no_errors true lbn f)
  pub bread_shows : (bn : ℕ) (f : File) → d.bread bn f ≡ good (bytes_of (f.volume.block bn))

-- Without read errors there is a block, or none.
data Leads (d : Disk File) (f : File) : Answer → Type 0 where
  to_block : (bn : ℕ) → Leads d f (block_at bn)
  to_none : Leads d f no_block

Leads-with_error : (d : Disk File) (f g : File) (a : Answer) → Leads d f a → with_error a g ≡ g
Leads-with_error d f g _ (to_block bn) = refl
Leads-with_error d f g _ to_none = refl

follow-Leads :
    (d : Disk File) (f : File) (blocks : ℕ → List ℕ) (nb : ℕ) (is : List ℕ)
    → Leads d f (follow no_errors blocks nb is)
unfolding follow
follow-Leads d f blocks nb [] = elim (Bool-cases (nb == 0)) [
  | inl y ↦ rw y to_none
  | inr o ↦ rw o (to_block nb)
]
follow-Leads d f blocks nb (i ∷ is) = elim (Bool-cases (nb == 0)) [
  | inl y ↦ rw y to_none
  | inr o ↦ rw o (follow-Leads d f blocks (get_or (blocks nb) i 0) is)
]

Leads-Shows :
    (d : Disk File) (f : File) (a : Answer)
    → IsMapped d
    → Leads d f a
    → Shows d f (shown_by f.volume.block a) a
Leads-Shows d f _ m (to_block bn) = block bn (m.bread_shows bn f)
Leads-Shows d f _ m to_none = hole refl

Leads-length :
    (d : Disk File) (f : File) (a : Answer)
    → ((b : ℕ) → length (f.volume.block b) ≡ 128)
    → Leads d f a
    → length (shown_by f.volume.block a) ≡ 512
Leads-length d f _ whole (to_block bn) =
    omega (arith, length-bytes_of (f.volume.block bn), whole bn)
Leads-length d f _ whole to_none = length-replicate {A = ℕ} 512 0

tree-Reads :
    (d : Disk File) (f : File) (lbn : ℕ)
    → IsMapped d
    → IsWhole f
    → lbn < 10 + 128 + 16384 + 2097152
    → Reads d IsWhole tree f lbn
unfolding IsWhole tree
tree-Reads d f lbn m (whole, fine) small =
    let (is_position, at) = place_of-IsPosition lbn small in
    let p = place_of lbn in
    let (ra, e) = bmap-follow no_errors p f is_position in
    let a = follow no_errors f.volume.block (get_or f.i_addr (slot p) 0) (indices p) in
    let f' = record f { rablock = ra } in
    let leads = follow-Leads d f' f.volume.block (get_or f.i_addr (slot p) 0) (indices p) in
    record {
      after = f';
      answer = a;
      mapped =
          m.bmap_reads lbn f
          ∙ ap (λ n. answered f (bmap no_errors true n f)) (sym at)
          ∙ ap (answered f) (e ∙ ap (λ g. done (a, g)) (Leads-with_error d f' f' a leads))
          ∙ ap (λ k. (a, k, f')) fine;
      inv = (whole, fine);
      same = λ _. refl;
      shown = Leads-Shows d f' a m leads;
    }

-- On a disk whose files `UNIX_bmap` maps, where no block has read errors: a file can be read, up to the
-- last block that its addresses can name, and shows what its tree of addresses leads to.
pub tree-IsReadable :
    (d : Disk File) → IsMapped d → IsReadable d IsWhole tree (10 + 128 + 16384 + 2097152)
unfolding IsWhole tree
tree-IsReadable d m = record {
  sized = λ f lbn whole.
      Leads-length d f _ (whole.0) (follow-Leads d f f.volume.block _ (indices (place_of lbn)));
  reads = λ f lbn whole small. tree-Reads d f lbn m whole small;
}
