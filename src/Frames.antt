-- ===== src/Frames.antt =====
-- The page frames of malloc.c: the bit map of those in use, and the cache of free ones.
mod Scan
mod Count
mod Alloc
mod Boot
mod Free
mod Tests
pub use hostable_32v.Prelude.{Outcome, done, panics, out_of_fuel, and_then}
use hostable_32v.Prelude.{
  ℕ, zero, suc, ◌+◌, ◌-◌, ◌%◌, ◌^◌, Bool, true, false, not, ◌&&◌, ◌||◌, Option, none, some, List,
  [], ◌∷◌, ltb, leb, ◌==◌, if◌then◌else◌, length, override,
}

-- `memmap`, where a bit is set for a frame in use, `mem` with its last entry first, so that
-- `mem.m_free` is the length, and the variables beside them. `m_pnum` has shorts, which hold the
-- frame numbers below 2^15.
pub record Frames : Type 0 where
  pub memmap : ℕ → Bool
  pub m_pnum : List ℕ
  pub firstfree : ℕ
  pub maxfree : ℕ
  pub lastpos : ℕ
  pub freemem : ℕ

abbrev pub nicmem : ℕ
nicmem = 100

-- The position behind another, back to the first one at the end.
abbrev pub next_pos : Frames → ℕ → ℕ
next_pos f pos = if leb f.maxfree (pos + 1) then f.firstfree else pos + 1

-- A look at one position.
abbrev pub look_at : Frames → ℕ → List ℕ → List ℕ
look_at f pos cache = if f.memmap pos then cache else pos ∷ cache

-- The loop of UNIX_memall that looks for free frames from `pos` on, for at most `fuel` positions:
-- the cache and `pos` after it.
unfoldable pub refill : ℕ → Frames → ℕ → List ℕ → Outcome (List ℕ × ℕ)
refill zero f pos cache = out_of_fuel
refill (suc fuel) f pos cache =
    let cache' = look_at f pos cache in
    let rest = refill fuel f (next_pos f pos) cache' in
    if leb nicmem (length cache)
    then done (cache, pos)
    else if pos == f.lastpos
    then done (cache', pos)
    else rest

-- The frame at the end of the cache is taken.
unfoldable pub pop_frame : Frames → Outcome (ℕ × Frames)
pop_frame f = elim f.m_pnum [
  | [] ↦ panics
  | pos ∷ cache ↦
      if f.memmap pos
      then panics
      else done (
        pos,
        record f { memmap = override f.memmap pos true; m_pnum = cache; freemem = f.freemem - 1 },
      )
]

-- One round of UNIX_memall.
unfoldable pub take_frame : ℕ → Frames → Outcome (ℕ × Frames)
take_frame fuel f =
    if length f.m_pnum == 0
    then and_then (refill fuel f (next_pos f f.lastpos) [])
        (λ (cache, pos). pop_frame (record f { m_pnum = cache; lastpos = pos }))
    else pop_frame f

-- The loop of UNIX_memall, with `size` frames to go.
unfoldable pub take_frames : ℕ → ℕ → Frames → Outcome (List ℕ × Frames)
take_frames fuel zero f = done ([], f)
take_frames fuel (suc size) f =
    and_then (take_frame fuel f)
      (λ (pos, f₁). and_then (take_frames fuel size f₁) (λ (base, f₂). done (pos ∷ base, f₂)))

-- UNIX_memall: the frames; none where it returns 0.
unfoldable pub memall : ℕ → ℕ → Frames → Outcome (List ℕ × Frames)
memall fuel size f =
    if (size == 0) || ltb f.freemem size then done ([], f) else take_frames fuel size f

-- UNIX_memfree; PG_PFNUM has 21 bits.
unfoldable pub memfree : List ℕ → Frames → Outcome Frames
memfree [] f = done f
memfree (b ∷ base) f =
    let pos = b % 2 ^ 21 in
    let rest = memfree base (record f {
      memmap = override f.memmap pos false;
      m_pnum = if ltb (length f.m_pnum) nicmem then pos ∷ f.m_pnum else f.m_pnum;
      freemem = f.freemem + 1;
    }) in
    if ltb pos f.firstfree || leb f.maxfree pos
    then panics
    else if not (f.memmap pos)
    then panics
    else rest

-- UNIX_meminit.
unfoldable pub meminit : ℕ → ℕ → Frames → Frames
meminit first last f = record f {
  firstfree = first;
  maxfree = last;
  lastpos = last;
  freemem = last - first;
  m_pnum = [];
}
