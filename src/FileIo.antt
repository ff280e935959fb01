-- ===== src/FileIo.antt =====
-- Reading and writing of files by bytes, of rdwri.c: UNIX_readi, UNIX_writei and UNIX_iomove, over
-- the blocks that UNIX_bmap, UNIX_bread and UNIX_bdwrite show.
mod Tests
pub mod Store
pub mod Rounds
pub mod Moved
pub mod Stored
pub mod Read
pub mod Write
pub mod Roundtrip
pub mod OneFile
pub mod Tree
pub mod Placed
use hostable_32v.Prelude.{
  ℕ, zero, suc, ◌+◌, ◌-◌, ◌*◌, ◌/◌, ◌%◌, ◌^◌, Bool, true, false, not, ◌&&◌, ◌||◌, List, [], ◌∷◌,
  ltb, leb, ◌==◌, if◌then◌else◌, get_or, replicate, Outcome, done, out_of_fuel, panics, and_then,
}
use hostable_32v.BlockMap.{Answer, block_at, no_block, failed}
use hostable_32v.Inodes.{Inode, ifmt, ifdir, ifchr, ifblk, ifreg, ifmpc, ifmpb, i_rdev}

-- The arguments in the user structure, and the memory at their `u_base`. `u_offset` is the 32-bit
-- pattern of a signed number.
pub record Args : Type 0 where
  pub u_base : ℕ
  pub u_offset : ℕ
  pub u_count : ℕ
  pub u_segflg : ℕ
  pub u_error : ℕ
  pub memory : ℕ → ℕ

-- What UNIX_bread returns: the bytes of the block, its `b_resid`, and the error if there was one.
pub record Fetched : Type 0 where
  pub bytes : List ℕ
  pub b_resid : ℕ
  pub error : ℕ

-- The blocks of a file, in a state `S` of the disk and its buffers. `bmap` is UNIX_bmap for reading
-- or for writing, with the error that it sets; `bread` is UNIX_bread, or UNIX_breada, which returns
-- the same; `getblk` gives the bytes in the buffer that UNIX_getblk returns. `bdwrite` and `brelse`
-- leave the bytes in the buffer of the block, to be written or not. `faults` is whether UNIX_copyout
-- fails on these many bytes at the address; `device` is the routine of a character device,
-- `mem_no` the major number of the memory's.
pub record Disk (S : Type 0) : Type 0 where
  pub bmap : Bool → ℕ → S → Answer × ℕ × S
  pub bread : ℕ → S → Fetched
  pub getblk : ℕ → S → List ℕ
  pub bdwrite : ℕ → List ℕ → S → S
  pub brelse : ℕ → List ℕ → S → S
  pub faults : ℕ → ℕ → Bool
  pub device : Bool → Inode → Args → S → Args × S
  pub mem_no : ℕ

pub record State (S : Type 0) : Type 0 where
  pub ip : Inode
  pub u : Args
  pub disk : S

abbrev pub bsize : ℕ
bsize = 512

abbrev pub efault : ℕ
efault = 14

abbrev pub einval : ℕ
einval = 22

-- UNIX_min.
abbrev pub min_of : ℕ → ℕ → ℕ
min_of a b = if ltb a b then a else b

-- The arguments moved on by `n` bytes.
abbrev pub moved_on : ℕ → Args → Args
moved_on n u = record u {
  u_base = u.u_base + n;
  u_offset = (u.u_offset + n) % 2 ^ 32;
  u_count = u.u_count - n;
}

-- The memory with `n` bytes of the block, from the byte `on` on, put at `base`.
unfoldable pub copied_out : List ℕ → ℕ → ℕ → ℕ → (ℕ → ℕ) → ℕ → ℕ
copied_out bytes on n base memory a =
    if leb base a && ltb a (base + n) then get_or bytes (on + (a - base)) 0 else memory a

-- The bytes of a block from the byte `i` on, with `n` bytes at `base` put at the byte `on`.
unfoldable pub copied_in : ℕ → ℕ → ℕ → ℕ → (ℕ → ℕ) → List ℕ → List ℕ
copied_in i on n base memory [] = []
copied_in i on n base memory (b ∷ bytes) =
    (if leb on i && ltb i (on + n) then memory (base + (i - on)) else b)
    ∷ copied_in (suc i) on n base memory bytes

-- Whether UNIX_iomove moves nothing and sets EFAULT.
abbrev pub move_faults : {S : Type 0} → Disk S → ℕ → Args → Bool
move_faults d n u = not (u.u_segflg == 1) && d.faults u.u_base n

-- UNIX_iomove from a block to memory.
unfoldable pub iomove_read : {S : Type 0} → Disk S → List ℕ → ℕ → ℕ → Args → Args
iomove_read d bytes on n u =
    if n == 0
    then u
    else if move_faults d n u
    then record u { u_error = efault }
    else moved_on n (record u { memory = copied_out bytes on n u.u_base u.memory })

-- Whether UNIX_iomove panics when it moves from memory to a block: UNIX_copyin, which gets the bytes
-- that are not the kernel's, does nothing else.
abbrev pub write_panics : ℕ → Args → Bool
write_panics n u = not (n == 0) && not (u.u_segflg == 1)

-- UNIX_iomove from the kernel's memory to a block: the block's bytes after it.
unfoldable pub iomove_write : List ℕ → ℕ → ℕ → Args → List ℕ × Args
iomove_write bytes on n u =
    if n == 0 then (bytes, u) else (copied_in 0 on n u.u_base u.memory bytes, moved_on n u)

-- Whether the blocks are those of a device.
abbrev pub is_block_device : Inode → Bool
is_block_device ip = (ifmt ip == ifblk) || (ifmt ip == ifmpb)

abbrev pub is_character : Inode → Bool
is_character ip = (ifmt ip == ifchr) || (ifmt ip == ifmpc)

-- Whether a negative offset is for this file: that of the memory.
abbrev pub is_memory : {S : Type 0} → Disk S → Inode → Bool
is_memory d ip = (ifmt ip == ifchr) && (d.mem_no == i_rdev ip / 256 % 256)

-- `u.u_error` after a call that may have set an error.
abbrev pub set_error : ℕ → Args → Args
set_error error u = record u { u_error = if error == 0 then u.u_error else error }

-- How a round of a loop ends: it returns, has moved `n` bytes, or panics.
pub data Round (S : Type 0) : Type 0 where
  returns : State S → Round S
  moved : ℕ → State S → Round S
  panicked : Round S

-- A block from its UNIX_bread to its UNIX_brelse, of UNIX_readi.
abbrev pub read_block : {S : Type 0} → Disk S → List ℕ → ℕ → ℕ → ℕ → ℕ → State S → Round S
read_block d bytes resid error on n t =
    let n' = min_of n (bsize - resid) in
    moved n' (record t { u = iomove_read d bytes on n' (set_error error t.u) })

-- What UNIX_readi does with the answer of UNIX_bmap. Where it is -1 the block is one of zeros.
unfoldable pub read_at : {S : Type 0} → Disk S → Answer → ℕ → ℕ → State S → Round S
read_at d no_block on n t = read_block d (replicate bsize 0) 0 0 on n t
read_at d (block_at bn) on n t =
    let b = d.bread bn t.disk in read_block d b.bytes b.b_resid b.error on n t
read_at d failed on n t = let b = d.bread 0 t.disk in read_block d b.bytes b.b_resid b.error on n t

abbrev pub last_read : {S : Type 0} → ℕ → State S → State S
last_read lbn t = record t { ip = record (t.ip) { i_lastr = lbn } }

-- `n` after the test against the size.
abbrev pub up_to : ℕ → ℕ → ℕ
up_to diff n = if ltb diff n then diff else n

-- One round of the loop of UNIX_readi.
unfoldable pub read_round : {S : Type 0} → Disk S → State S → Round S
read_round d t =
    let lbn = t.u.u_offset / bsize in
    let on = t.u.u_offset % bsize in
    let n = min_of (bsize - on) t.u.u_count in
    let (answer, error, disk') = d.bmap true lbn t.disk in
    let t' = record t { disk = disk'; u = set_error error t.u } in
    if is_block_device t.ip
    then read_at d (block_at lbn) on n (last_read lbn t)
    else if leb t.ip.i_size t.u.u_offset
    then returns t
    else if not (t'.u.u_error == 0)
    then returns t'
    else read_at d answer on (up_to (t.ip.i_size - t.u.u_offset) n) (last_read lbn t')

-- The loop of UNIX_readi.
unfoldable pub read_loop : {S : Type 0} → ℕ → Disk S → State S → Outcome (State S)
read_loop zero d t = out_of_fuel
read_loop (suc fuel) d t = elim (read_round d t) [
  | returns t' ↦ done t'
  | moved n t' ↦
      let rest = read_loop fuel d t' in
      if (t'.u.u_error == 0) && not (t'.u.u_count == 0) && not (n == 0) then rest else done t'
  | panicked ↦ panics
]

-- UNIX_readi.
unfoldable pub readi : {S : Type 0} → ℕ → Disk S → State S → Outcome (State S)
readi fuel d t =
    let t' = record t { ip = record (t.ip) { i_acc = true } } in
    if t.u.u_count == 0
    then done t
    else if leb (2 ^ 31) t.u.u_offset && not (is_memory d t.ip)
    then done (record t { u = record (t.u) { u_error = einval } })
    else if is_character t.ip
    then (let (u', disk') = d.device true t'.ip t.u t.disk in
        done (record t' { u = u'; disk = disk' }))
    else read_loop fuel d t'

-- What UNIX_writei does with a block, from its UNIX_bread or UNIX_getblk on.
unfoldable pub write_block : {S : Type 0} → Disk S → ℕ → ℕ → ℕ → State S → Round S
write_block d bn on n t =
    let b = d.bread bn t.disk in
    let whole = n == bsize in
    let old = if whole then d.getblk bn t.disk else b.bytes in
    let u₁ = if whole then t.u else set_error b.error t.u in
    let (bytes, u₂) = iomove_write old on n u₁ in
    let grows = ltb t.ip.i_size u₂.u_offset && ((ifmt t.ip == ifdir) || (ifmt t.ip == ifreg)) in
    if write_panics n t.u
    then panicked
    else moved n (record t {
      u = u₂;
      disk = if u₂.u_error == 0 then d.bdwrite bn bytes t.disk else d.brelse bn bytes t.disk;
      ip = record (t.ip) {
        i_size = if grows then u₂.u_offset else t.ip.i_size;
        i_upd = true;
        i_chg = true;
      };
    })

-- What it does with the answer of UNIX_bmap: -1 ends it, and 0 is a block like any other.
unfoldable pub write_at : {S : Type 0} → Disk S → Answer → ℕ → ℕ → State S → Round S
write_at d no_block on n t = returns t
write_at d (block_at bn) on n t = write_block d bn on n t
write_at d failed on n t = write_block d 0 on n t

-- One round of the loop of UNIX_writei.
unfoldable pub write_round : {S : Type 0} → Disk S → State S → Round S
write_round d t =
    let bn = t.u.u_offset / bsize in
    let on = t.u.u_offset % bsize in
    let n = min_of (bsize - on) t.u.u_count in
    let (answer, error, disk') = d.bmap false bn t.disk in
    if is_block_device t.ip
    then write_block d bn on n t
    else write_at d answer on n (record t { disk = disk'; u = set_error error t.u })

-- The loop of UNIX_writei.
unfoldable pub write_loop : {S : Type 0} → ℕ → Disk S → State S → Outcome (State S)
write_loop zero d t = out_of_fuel
write_loop (suc fuel) d t = elim (write_round d t) [
  | returns t' ↦ done t'
  | moved n t' ↦
      let rest = write_loop fuel d t' in
      if (t'.u.u_error == 0) && not (t'.u.u_count == 0) then rest else done t'
  | panicked ↦ panics
]

-- UNIX_writei.
unfoldable pub writei : {S : Type 0} → ℕ → Disk S → State S → Outcome (State S)
writei fuel d t =
    let changed = record (t.ip) { i_upd = true; i_chg = true } in
    if leb (2 ^ 31) t.u.u_offset && not (is_memory d t.ip)
    then done (record t { u = record (t.u) { u_error = einval } })
    else if is_character t.ip
    then (let (u', disk') = d.device false changed t.u t.disk in
        done (record t { ip = changed; u = u'; disk = disk' }))
    else if t.u.u_count == 0
    then done t
    else write_loop fuel d t
