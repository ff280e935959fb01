-- ===== src/BlockMap/Read.antt =====
-- UNIX_bmap for B_READ: it follows the tree of addresses.
use hostable_32v.Prelude.{
  ℕ, suc, ◌+◌, ◌-◌, ◌*◌, ◌/◌, ◌%◌, ◌^◌, ◌≤◌, ◌<◌, ◌≡◌, ◌≢◌, refl, Bool, true, false, List, [], ◌∷◌,
  arith, ltb, leb, ◌==◌, none, some, get_or, Bool-cases, dec_lt, inl, inr, if◌then◌else◌,
}
use hostable_32v.FreeBlocks.{Ran, done}
use hostable_32v.BlockMap.{
  File, Answer, block_at, no_block, failed, with_new, fetch, find_level, walk, read_ahead, indirect,
  bmap,
}
use hostable_32v.BlockMap.Position.{
  Position, direct, single, double, triple, IsPosition, number, slot, indices, follow,
}

-- The digits of `bn` that the rounds of the second loop take, for the rounds left and `sh`.
pub data Digits (bn : ℕ) : ℕ → ℕ → List ℕ → Type 0 where
  last : {sh : ℕ} → Digits bn 0 sh []
  digit :
      {n sh i : ℕ} {is : List ℕ}
      → bn / 2 ^ (sh - 7) % 128 ≡ i
      → Digits bn n (sh - 7) is
      → Digits bn (suc n) sh (i ∷ is)

-- The error that comes with the answer 0, that of an indirect block.
abbrev pub with_error : Answer → File → File
with_error failed f = record f { volume = record (f.volume) { u_error = 5 } }
with_error no_block f = f
with_error (block_at b) f = f

-- The answer with its error, on a file that is otherwise the same.
abbrev pub Found : File → Answer → Ran (Answer × File) → Type 0
Found f a r = (ra : ℕ) × (r ≡ done (a, with_error a (record f { rablock = ra })))

Found-ahead :
    (f : File) (t : Bool) (nb ra : ℕ)
    → Found f (block_at nb) (done (block_at nb, if t then record f { rablock = ra } else f))
Found-ahead f true nb ra = (ra, refl)
Found-ahead f false nb ra = (f.rablock, refl)

follow-hole :
    (error : ℕ → Bool) (block : ℕ → List ℕ) (is : List ℕ) → follow error block 0 is ≡ no_block
unfolding follow
follow-hole error block [] = refl
follow-hole error block (i ∷ is) = refl

walk-follow :
    {bn : ℕ} {n sh : ℕ} {is : List ℕ} (error : ℕ → Bool) (i : ℕ) (bap : List ℕ) (nb : ℕ) (f : File)
    → Digits bn n sh is
    → nb ≢ 0
    → Found f (follow error f.volume.block nb is) (walk n error true sh bn i bap nb f)
unfolding walk follow with_new
walk-follow error i bap nb f last ne =
    let t : (nb == 0) ≡ false = ground arith in
    rw t (Found-ahead f (ltb i 127) nb (get_or bap (i + 1) 0))
walk-follow error _ bap nb f (digit {i} {is} d ds) ne =
    let t : (nb == 0) ≡ false = ground arith in
    elim (Bool-cases (error nb)) [
      | inl bad ↦ (f.rablock, rw (t, bad) refl)
      | inr fine ↦ elim (Bool-cases (get_or (f.volume.block nb) i 0 == 0)) [
        | inl hole ↦
            let z : get_or (f.volume.block nb) i 0 ≡ 0 = ground arith in
            (f.rablock, rw (t, fine, d, z, follow-hole error f.volume.block is) refl)
        | inr on ↦
            rw (t, fine, d, on)
              (walk-follow error i (f.volume.block nb) (get_or (f.volume.block nb) i 0) f ds
                (ground arith))
      ]
    ]

fetch-follow :
    {bn : ℕ} {n sh : ℕ} {is : List ℕ} (error : ℕ → Bool) (s : ℕ) (f : File)
    → Digits bn n sh is
    → Found f
        (follow error f.volume.block (get_or f.i_addr s 0) is)
        (fetch error true s f (λ nb f'. walk n error true sh bn 0 [] nb f'))
unfolding fetch with_new
fetch-follow {is} error s f d = elim (Bool-cases (get_or f.i_addr s 0 == 0)) [
  | inl hole ↦
      let z : get_or f.i_addr s 0 ≡ 0 = ground arith in
      (f.rablock, rw (hole, z, follow-hole error f.volume.block is) refl)
  | inr on ↦ rw on (walk-follow error 0 [] (get_or f.i_addr s 0) f d (ground arith))
]

fetch-direct :
    (error : ℕ → Bool) (i : ℕ) (f : File)
    → Found f
        (follow error f.volume.block (get_or f.i_addr i 0) [])
        (fetch error true i f (read_ahead i))
unfolding fetch with_new follow
fetch-direct error i f = elim (Bool-cases (get_or f.i_addr i 0 == 0)) [
  | inl hole ↦ (f.rablock, rw hole refl)
  | inr on ↦ rw on (Found-ahead f (ltb i 9) (get_or f.i_addr i 0) (get_or f.i_addr (i + 1) 0))
]

pub find-single : (i : ℕ) → i < 128 → find_level 3 0 1 i ≡ some (3, 7, i)
unfolding find_level
find-single i h = ground arith

pub find-double :
    (i j : ℕ)
    → i < 128
    → j < 128
    → find_level 3 0 1 (128 + (128 * i + j)) ≡ some (2, 14, 128 * i + j)
unfolding find_level
find-double i j h k = ground arith

pub find-triple :
    (i j k : ℕ)
    → i < 128
    → j < 128
    → k < 128
    → find_level 3 0 1 (128 + 16384 + (16384 * i + 128 * j + k))
      ≡ some (1, 21, 16384 * i + 128 * j + k)
unfolding find_level
find-triple i j k h l o = ground arith

pub single-Digits : (i : ℕ) → i < 128 → Digits i 1 7 (i ∷ [])
single-Digits i h = digit (omega arith) last

pub double-Digits : (i j : ℕ) → i < 128 → j < 128 → Digits (128 * i + j) 2 14 (i ∷ j ∷ [])
double-Digits i j h k = digit (omega arith) (digit (omega arith) last)

pub triple-Digits :
    (i j k : ℕ)
    → i < 128
    → j < 128
    → k < 128
    → Digits (16384 * i + 128 * j + k) 3 21 (i ∷ j ∷ k ∷ [])
triple-Digits i j k h l o = digit (omega arith) (digit (omega arith) (digit (omega arith) last))

number-small : (p : Position) → IsPosition p → number p < 2113674
unfolding number IsPosition
number-small (direct i) h = omega (arith, h)
number-small (single i) h = omega (arith, h)
number-small (double i j) (h, k) = omega (arith, h, k)
number-small (triple i j k) (h, l, o) = omega (arith, h, l, o)

-- For a position in the tree, UNIX_bmap with B_READ and the number of the block returns what the
-- addresses on the way lead to: the block, -1 where an address is 0, or 0 where an indirect block
-- cannot be read, which sets EIO. Else the file and the volume are as they were, but for `rablock`.
pub bmap-follow :
    (error : ℕ → Bool) (p : Position) (f : File)
    → IsPosition p
    → Found f
        (follow error f.volume.block (get_or f.i_addr (slot p) 0) (indices p))
        (bmap error true (number p) f)
unfolding bmap indirect number IsPosition slot indices
bmap-follow error (direct i) f h =
    let n : leb (2 ^ 31) i ≡ false = ground arith in
    let t : ltb i 10 ≡ true = ground arith in
    rw (n, t) (fetch-direct error i (record f { rablock = 0 }))
bmap-follow error (single i) f h =
    let n : leb (2 ^ 31) (10 + i) ≡ false = ground arith in
    let t : ltb (10 + i) 10 ≡ false = ground arith in
    let s : 10 + i - 10 ≡ i = omega arith in
    rw (n, t, s, find-single i h)
      (fetch-follow error 10 (record f { rablock = 0 }) (single-Digits i h))
bmap-follow error (double i j) f (h, k) =
    let n : leb (2 ^ 31) (10 + 128 + (128 * i + j)) ≡ false = ground arith in
    let t : ltb (10 + 128 + (128 * i + j)) 10 ≡ false = ground arith in
    let s : 10 + 128 + (128 * i + j) - 10 ≡ 128 + (128 * i + j) = omega arith in
    rw (n, t, s, find-double i j h k)
      (fetch-follow error 11 (record f { rablock = 0 }) (double-Digits i j h k))
bmap-follow error (triple i j k) f (h, l, o) =
    let x = 16384 * i + 128 * j + k in
    let n : leb (2 ^ 31) (10 + 128 + 16384 + x) ≡ false = ground arith in
    let t : ltb (10 + 128 + 16384 + x) 10 ≡ false = ground arith in
    let s : 10 + 128 + 16384 + x - 10 ≡ 128 + 16384 + x = omega arith in
    rw (n, t, s, find-triple i j k h l o)
      (fetch-follow error 12 (record f { rablock = 0 }) (triple-Digits i j k h l o))

-- A number that is negative, or behind the last block of the triple indirect tree, is an error: 0 is
-- returned and the error set is EFBIG, and nothing else changes but `rablock`.
pub bmap-too_big :
    (error : ℕ → Bool) (reading : Bool) (bn : ℕ) (f : File)
    → 10 + 128 + 16384 + 2097152 ≤ bn
    → (ra : ℕ) × (bmap error reading bn f
        ≡ done (failed, record f { rablock = ra; volume = record (f.volume) { u_error = 27 } }))
unfolding bmap find_level indirect
bmap-too_big error reading bn f h = elim (Bool-cases (leb (2 ^ 31) bn)) [
  | inl neg ↦ (f.rablock, rw neg refl)
  | inr pos ↦
      let t : ltb bn 10 ≡ false = ground arith in
      let s : find_level 3 0 1 (bn - 10) ≡ none = ground arith in (0, rw (pos, t, s) refl)
]

-- Every number that is no error is that of a position.
pub position_of :
    (bn : ℕ) → bn < 10 + 128 + 16384 + 2097152 → (p : Position) × IsPosition p × (number p ≡ bn)
unfolding number IsPosition
position_of bn h = elim (dec_lt bn 10) [
  | yes d ↦ (direct bn, d, refl)
  | no n ↦ elim (dec_lt bn 138) [
    | yes d ↦ (single (bn - 10), omega arith, omega arith)
    | no n₂ ↦ elim (dec_lt bn 16522) [
      | yes d ↦
          (double ((bn - 138) / 128) ((bn - 138) % 128), (omega arith, omega arith), omega arith)
      | no n₃ ↦
          let k = bn - 16522 in
          (
            triple (k / 16384) (k / 128 % 128) (k % 128),
            (omega arith, omega arith, omega arith),
            omega arith,
          )
    ]
  ]
]
