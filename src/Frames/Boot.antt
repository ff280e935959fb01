-- ===== src/Frames/Boot.antt =====
-- The first search of UNIX_memall after UNIX_meminit, which has put `lastpos` behind the frames.
use hostable_32v.Prelude.{
  ℕ, zero, suc, ◌+◌, ◌-◌, ◌<◌, ◌≤◌, ◌≡◌, refl, ap, true, false, List, [], ◌∷◌, arith, leb, ◌==◌,
  ◌||◌, length, ltb,
}
use hostable_32v.Frames.{
  Frames, Outcome, and_then, refill, pop_frame, take_frame, take_frames, memall,
}
use hostable_32v.Frames.Alloc.{IsFrames, Allocated}

-- As if the last frame were the last position.
abbrev pub at_last : Frames → Frames
at_last f = record f { lastpos = f.maxfree - 1 }

-- There are more frames than the cache holds, and the first ones are free.
pub record IsFresh (f : Frames) : Type 0 where
  pub behind : f.lastpos ≡ f.maxfree
  pub none_cached : f.m_pnum ≡ []
  pub many : f.firstfree + 100 < f.maxfree
  pub clear : (p : ℕ) → f.firstfree ≤ p → p < f.firstfree + 100 → f.memmap p ≡ false
  pub frames : IsFrames (at_last f)

-- The cache is full before the search comes to the end of the frames.
refill-at_last :
    (fuel k : ℕ) (f : Frames) (pos : ℕ) (cache : List ℕ)
    → f.lastpos ≡ f.maxfree
    → length cache + k ≡ 100
    → pos + k < f.maxfree
    → ((p : ℕ) → pos ≤ p → p < pos + k → f.memmap p ≡ false)
    → refill fuel f pos cache ≡ refill fuel (at_last f) pos cache
unfolding refill
refill-at_last zero k f pos cache behind held ahead clear = refl
refill-at_last (suc fuel) zero f pos cache behind held ahead clear =
    let full : leb 100 (length cache) ≡ true = ground (arith, held) in rw full refl
refill-at_last (suc fuel) (suc k) f pos cache behind held ahead clear =
    let room : leb 100 (length cache) ≡ false = ground (arith, held) in
    let off : (pos == f.lastpos) ≡ false = ground (arith, behind, ahead) in
    let off' : (pos == f.maxfree - 1) ≡ false = ground (arith, ahead) in
    let within : leb f.maxfree (pos + 1) ≡ false = ground (arith, ahead) in
    rw (room, off, off', clear pos (omega arith) (omega arith), within)
      (refill-at_last fuel k f (pos + 1) (pos ∷ cache) behind (omega (arith, held))
        (omega (arith, ahead)) (λ p l h. clear p (omega (arith, l)) (omega (arith, h))))

take_frame-at_last :
    (fuel : ℕ) (f : Frames) → IsFresh f → take_frame fuel f ≡ take_frame fuel (at_last f)
unfolding take_frame
take_frame-at_last fuel f fresh =
    let empty : (length f.m_pnum == 0) ≡ true = ap (λ ps. length ps == 0) fresh.none_cached in
    let wraps : leb f.maxfree (f.lastpos + 1) ≡ true = ground (arith, fresh.behind) in
    let wraps' : leb f.maxfree (f.maxfree - 1 + 1) ≡ true = ground arith in
    rw (empty, wraps, wraps')
      (ap (λ o. and_then o (λ (cache, pos). pop_frame (record f { m_pnum = cache; lastpos = pos })))
        (refill-at_last fuel 100 f f.firstfree [] fresh.behind refl fresh.many fresh.clear))

take_frames-at_last :
    (fuel size : ℕ) (f : Frames)
    → IsFresh f
    → take_frames fuel (suc size) f ≡ take_frames fuel (suc size) (at_last f)
unfolding take_frames
take_frames-at_last fuel size f fresh = rw (take_frame-at_last fuel f fresh) refl

pub memall-at_last :
    (fuel size : ℕ) (f : Frames)
    → IsFresh f
    → 0 < size
    → size ≤ f.freemem
    → memall fuel size f ≡ memall fuel size (at_last f)
unfolding memall
memall-at_last fuel zero f fresh some_size left = absurd (omega (arith, some_size))
memall-at_last fuel (suc size) f fresh some_size left =
    let goes_on : ((suc size == 0) || ltb f.freemem (suc size)) ≡ false = ground (arith, left) in
    rw goes_on (take_frames-at_last fuel size f fresh)

-- The position of the last search is not part of what is handed out.
pub Allocated-at_last :
    (size : ℕ) (f : Frames) (o : Outcome (List ℕ × Frames))
    → Allocated size (at_last f) o
    → Allocated size f o
Allocated-at_last size f o a = record {
  base = a.base;
  after = a.after;
  returns = a.returns;
  all = a.all;
  were_free = a.were_free;
  once = a.once;
  used = a.used;
  frames = a.frames;
  same_first = a.same_first;
  same_max = a.same_max;
}
