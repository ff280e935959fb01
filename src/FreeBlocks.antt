-- ===== src/FreeBlocks.antt =====
-- The free block list of a volume, in alloc.c: UNIX_alloc, UNIX_free, UNIX_badblock, UNIX_ifree, and
-- the count check of UNIX_getfs; `struct filsys` of h/filsys.h and `struct fblk` of h/fblk.h.
pub mod Chain
pub mod Alloc
pub mod Free
mod Tests
use hostable_32v.Prelude.{
  ℕ, zero, suc, ◌+◌, ◌-◌, ◌%◌, ◌^◌, Bool, true, false, not, ◌&&◌, ◌||◌, Option, none, some, List,
  [], ◌∷◌, ◌++◌, ltb, leb, ◌==◌, if◌then◌else◌, get_or, set, take, drop, replicate,
}

abbrev pub nicfree : ℕ
nicfree = 50

abbrev pub nicinod : ℕ
nicinod = 100

-- The words of a block.
abbrev pub nindir : ℕ
nindir = 128

abbrev pub enospc : ℕ
enospc = 28

-- `struct filsys`, what alloc.c uses of it. The counts are the 16-bit patterns of shorts.
pub record Filsys : Type 0 where
  pub s_isize : ℕ
  pub s_fsize : ℕ
  pub s_nfree : ℕ
  pub s_free : List ℕ
  pub s_ninode : ℕ
  pub s_inode : List ℕ
  pub s_flock : Bool
  pub s_ilock : Bool
  pub s_fmod : Bool

-- A mounted volume: the super block in core, the words of each block as the buffer cache shows
-- them, and the caller's `u.u_error`.
pub record Volume : Type 0 where
  pub fs : Filsys
  pub block : ℕ → List ℕ
  pub u_error : ℕ

-- What a call ends in: it has to sleep on a lock first, or it is done.
pub data Ran {ℓ} (A : Type ℓ) : Type ℓ where
  sleeps : Ran A
  done : A → Ran A

unfoldable pub write : (ℕ → List ℕ) → ℕ → List ℕ → ℕ → List ℕ
write f a v b = if b == a then v else f b

-- `n <= 0` for a short.
abbrev pub non_positive : ℕ → Bool
non_positive n = (n == 0) || leb (2 ^ 15) n

-- UNIX_badblock.
abbrev pub badblock : Filsys → ℕ → Bool
badblock fp bn = ltb bn fp.s_isize || leb fp.s_fsize bn

-- The check that UNIX_getfs makes of the counts. They are compared as shorts.
abbrev pub too_many : ℕ → ℕ → Bool
too_many n limit = ltb limit n && ltb n (2 ^ 15)

unfoldable pub getfs : Filsys → Filsys
getfs fp =
    if too_many fp.s_nfree nicfree || too_many fp.s_ninode nicinod
    then record fp { s_nfree = 0; s_ninode = 0 }
    else fp

-- The do loop of UNIX_alloc from a count on: the block and the count left; `none` is nospace.
pub pick : Filsys → ℕ → Option (ℕ × ℕ)
pick fp zero = none
pick fp (suc n) =
    let bno = get_or fp.s_free n 0 in
    let next = pick fp n in
    if bno == 0 then none else if badblock fp bno then next else some (bno, n)

-- The label nospace.
abbrev pub nospace : Volume → Option ℕ × Volume
nospace v = (none, record v { fs = record (v.fs) { s_nfree = 0 }; u_error = enospc })

-- What follows a successful reading of the count: the block is cleared and handed out.
abbrev pub hand_out : Volume → ℕ → Option ℕ × Volume
hand_out v bno = (
  some bno,
  record v { fs = record (v.fs) { s_fmod = true }; block = write v.block bno (replicate nindir 0) },
)

-- The first word of a block that holds a `struct fblk` is `df_nfree`, NICFREE words follow.
abbrev pub refilled : Filsys → List ℕ → Filsys
refilled fp ws = record fp {
  s_nfree = get_or ws 0 0 % 2 ^ 16;
  s_free = take nicfree (drop 1 ws);
  s_flock = false;
}

-- The rest of UNIX_alloc for the block and the count left. `error` says whether the device
-- reports an error on reading a block.
pub alloc_from : (ℕ → Bool) → Volume → ℕ → ℕ → Option ℕ × Volume
alloc_from error v bno n =
    let v₁ = record v { fs = record (v.fs) { s_nfree = n } } in
    let v₂ = if error bno then v₁ else record v { fs = refilled v.fs (v.block bno) } in
    if n == 0
    then (if non_positive v₂.fs.s_nfree then nospace v₂ else hand_out v₂ bno)
    else hand_out v₁ bno

-- UNIX_alloc after the do loop.
pub alloc_picked : (ℕ → Bool) → Volume → Option (ℕ × ℕ) → Option ℕ × Volume
alloc_picked error v none = nospace v
alloc_picked error v (some (bno, n)) = alloc_from error v bno n

-- UNIX_alloc after the call of getfs.
pub alloc_at : (ℕ → Bool) → Volume → Ran (Option ℕ × Volume)
alloc_at error v =
    if v.fs.s_flock
    then sleeps
    else if non_positive v.fs.s_nfree || ltb nicfree v.fs.s_nfree
    then done (nospace v)
    else done (alloc_picked error v (pick v.fs v.fs.s_nfree))

-- UNIX_alloc.
unfoldable pub alloc : (ℕ → Bool) → Volume → Ran (Option ℕ × Volume)
alloc error v = alloc_at error (record v { fs = getfs v.fs })

-- `s_free[s_nfree++] = bno`, with the flag.
abbrev pub put_free : Volume → ℕ → Volume
put_free v bno = record v {
  fs = record (v.fs) {
    s_free = set v.fs.s_free v.fs.s_nfree bno;
    s_nfree = v.fs.s_nfree + 1;
    s_fmod = true;
  };
}

-- The addresses of the super block go to block `bno` as a `struct fblk`, and none stay.
abbrev pub spill : Volume → ℕ → Volume
spill v bno = record v {
  fs = record (v.fs) { s_nfree = 0; s_flock = false };
  block =
      write v.block bno
        (v.fs.s_nfree ∷ (take nicfree v.fs.s_free ++ drop (nicfree + 1) (v.block bno)));
}

-- A list with no address gets the one that ends the chain.
abbrev pub opened : Volume → Volume
opened v =
    if non_positive v.fs.s_nfree
    then record v { fs = record (v.fs) { s_nfree = 1; s_free = set v.fs.s_free 0 0 } }
    else v

-- UNIX_free after the call of getfs and the setting of `s_fmod`.
pub free_at : Volume → ℕ → Ran Volume
free_at v bno =
    let v' = opened v in
    if v.fs.s_flock
    then sleeps
    else if badblock v.fs bno
    then done v
    else if leb nicfree v'.fs.s_nfree
    then done (put_free (spill v' bno) bno)
    else done (put_free v' bno)

-- UNIX_free.
unfoldable pub free : Volume → ℕ → Ran Volume
free v bno = free_at (record v { fs = record (getfs v.fs) { s_fmod = true } }) bno

-- UNIX_ifree.
unfoldable pub ifree : Filsys → ℕ → Filsys
ifree fs ino =
    let fp = getfs fs in
    if fp.s_ilock
    then fp
    else if leb nicinod fp.s_ninode && ltb fp.s_ninode (2 ^ 15)
    then fp
    else record fp {
      s_inode = set fp.s_inode fp.s_ninode ino;
      s_ninode = fp.s_ninode + 1;
      s_fmod = true;
    }
