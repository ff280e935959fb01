-- ===== src/BlockMap.antt =====
-- The block map of a file, in subr.c: UNIX_bmap, over the free block list of alloc.c.
-- A disk inode has ten direct addresses, then the addresses of a single, a double and a triple
-- indirect block. An indirect block holds 128 addresses.
pub mod Position
pub mod Read
pub mod Grow
pub mod Placed
pub mod Write
mod Tests
use hostable_32v.Prelude.{
  ℕ, zero, suc, ◌+◌, ◌-◌, ◌*◌, ◌/◌, ◌%◌, ◌^◌, Bool, true, false, Option, none, some, List, [], ◌∷◌,
  ltb, leb, ◌==◌, if◌then◌else◌, get_or, set,
}
use hostable_32v.FreeBlocks.{Volume, Ran, sleeps, done, write, alloc}

abbrev pub naddr : ℕ
naddr = 13

abbrev pub nshift : ℕ
nshift = 7

abbrev pub nindir : ℕ
nindir = 128

abbrev pub efbig : ℕ
efbig = 27

abbrev pub eio : ℕ
eio = 5

-- What UNIX_bmap works on: the addresses of the inode, whether it has set IUPD|ICHG, the global
-- `rablock`, and the volume.
pub record File : Type 0 where
  pub i_addr : List ℕ
  pub i_changed : Bool
  pub rablock : ℕ
  pub volume : Volume

-- What UNIX_bmap returns: a block, -1 where there is none, or 0 on an error.
pub data Answer : Type 0 where
  block_at : ℕ → Answer
  no_block : Answer
  failed : Answer

-- `rwflg==B_READ || (bp = UNIX_alloc(dev))==NULL`, and the block that was got.
abbrev pub supply : (ℕ → Bool) → Bool → Volume → Ran (Option ℕ × Volume)
supply error reading v = if reading then done (none, v) else alloc error v

-- What follows `supply`: the return of -1, or `k` with the new block.
pub with_new :
    File → Ran (Option ℕ × Volume) → (ℕ → File → Ran (Answer × File)) → Ran (Answer × File)
with_new f sleeps k = sleeps
with_new f (done (none, v)) k = done (no_block, record f { volume = v })
with_new f (done (some nb, v)) k = k nb (record f { volume = v })

-- The address at `i` of the inode, which is first supplied if it is 0; `k` is what follows.
unfoldable pub fetch :
    (ℕ → Bool) → Bool → ℕ → File → (ℕ → File → Ran (Answer × File)) → Ran (Answer × File)
fetch error reading i f k =
    let nb = get_or f.i_addr i 0 in
    if nb == 0
    then with_new f (supply error reading f.volume)
        (λ nb' f'. k nb' (record f' { i_addr = set f'.i_addr i nb'; i_changed = true }))
    else k nb f

-- The branch for a direct block.
abbrev pub read_ahead : ℕ → ℕ → File → Ran (Answer × File)
read_ahead i nb f =
    done (
      block_at nb,
      if ltb i (naddr - 4) then record f { rablock = get_or f.i_addr (i + 1) 0 } else f,
    )

-- The first for loop: the `j`, `sh` and `bn` with which it is left, or `none` where `j` gets 0.
pub find_level : ℕ → ℕ → ℕ → ℕ → Option (ℕ × ℕ × ℕ)
find_level zero sh nb bn = none
find_level (suc j) sh nb bn =
    let next = find_level j (sh + nshift) (nb * 2 ^ nshift) (bn - nb * 2 ^ nshift) in
    if ltb bn (nb * 2 ^ nshift) then some (suc j, sh + nshift, bn) else next

-- The second for loop, with the rounds left, and the read-ahead behind it. `i` and `bap` are from
-- the round before. On a block with an error, which no driver gives a number, UNIX_bread sets EIO.
pub walk : ℕ → (ℕ → Bool) → Bool → ℕ → ℕ → ℕ → List ℕ → ℕ → File → Ran (Answer × File)
walk zero error reading sh bn i bap nb f =
    done
      (block_at nb, if ltb i (nindir - 1) then record f { rablock = get_or bap (i + 1) 0 } else f)
walk (suc rounds) error reading sh bn i bap nb f =
    let sh' = sh - nshift in
    let i' = bn / 2 ^ sh' % nindir in
    let ws = f.volume.block nb in
    let nb' = get_or ws i' 0 in
    let there = walk rounds error reading sh' bn i' ws nb' f in
    if error nb
    then done (failed, record f { volume = record (f.volume) { u_error = eio } })
    else if nb' == 0
    then with_new f (supply error reading f.volume) (λ new f'.
      let ws' = set ws i' new in
      let v = f'.volume in
      walk rounds error reading sh' bn i' ws' new
        (record f' { volume = record v { block = write v.block nb ws' } }))
    else there

abbrev pub too_big : File → Ran (Answer × File)
too_big f = done (failed, record f { volume = record (f.volume) { u_error = efbig } })

-- What follows the first for loop.
pub indirect : (ℕ → Bool) → Bool → Option (ℕ × ℕ × ℕ) → File → Ran (Answer × File)
indirect error reading none f = too_big f
indirect error reading (some (j, sh, bn)) f =
    fetch error reading (naddr - j) f (λ nb f'. walk (4 - j) error reading sh bn 0 [] nb f')

-- UNIX_bmap; `bn` is the 32-bit pattern of a signed number.
unfoldable pub bmap : (ℕ → Bool) → Bool → ℕ → File → Ran (Answer × File)
bmap error reading bn f =
    let f' = record f { rablock = 0 } in
    if leb (2 ^ 31) bn
    then too_big f
    else if ltb bn (naddr - 3)
    then fetch error reading bn f' (read_ahead bn)
    else indirect error reading (find_level 3 0 1 (bn - (naddr - 3))) f'
