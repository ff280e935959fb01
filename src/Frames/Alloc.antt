-- ===== src/Frames/Alloc.antt =====
-- UNIX_memall: which frames it hands out.
use hostable_32v.Prelude.{
  distinct, ℕ, zero, suc, ◌-◌, ◌<◌, ◌≤◌, ◌≡◌, refl, ◌∙◌, ap, Bool, true, false, not, ◌&&◌, ◌||◌,
  List, [], ◌∷◌, arith, ltb, ◌==◌, length, member, Bool-cases, inl, inr, ℕ_discrete, override,
}
use hostable_32v.Frames.{
  Frames, Outcome, done, nicmem, next_pos, refill, pop_frame, take_frame, take_frames, memall,
}
use hostable_32v.Frames.Scan.{ahead, free_in, Scanned, refill-Scanned}
use hostable_32v.Frames.Count.{count_free, count_free-override, some_free}

-- The cache has different free frames, and `freemem` counts the free ones.
pub record IsFrames (f : Frames) : Type 0 where
  pub low : f.firstfree ≤ f.lastpos
  pub high : f.lastpos < f.maxfree
  pub free : (p : ℕ) → member p f.m_pnum ≡ true → free_in f p ≡ true
  pub once : distinct f.m_pnum ≡ true
  pub few : length f.m_pnum ≤ nicmem
  pub counted : f.freemem ≡ count_free f.memmap f.firstfree (f.maxfree - f.firstfree)

-- One free frame is in use now, and nothing else.
pub record Taken (f : Frames) (o : Outcome (ℕ × Frames)) : Type 0 where
  pub pos : ℕ
  pub after : Frames
  pub taken : o ≡ done (pos, after)
  pub frames : IsFrames after
  pub was_free : free_in f pos ≡ true
  pub used : (p : ℕ) → after.memmap p ≡ (f.memmap p || (p == pos))
  pub bounds : (p : ℕ) → free_in after p ≡ (free_in f p && not (p == pos))
  pub less : suc after.freemem ≡ f.freemem
  pub same_first : after.firstfree ≡ f.firstfree
  pub same_max : after.maxfree ≡ f.maxfree

override_used : (m : ℕ → Bool) (pos p : ℕ) → override m pos true p ≡ (m p || (p == pos))
unfolding override
override_used m pos p = ground arith

pop_frame-Taken :
    (f : Frames) (pos : ℕ) (cache : List ℕ)
    → IsFrames (record f { m_pnum = pos ∷ cache })
    → Taken f (pop_frame (record f { m_pnum = pos ∷ cache }))
unfolding pop_frame distinct
pop_frame-Taken f pos cache t =
    let here : free_in f pos ≡ true = t.free pos (ground arith) in
    let clear : f.memmap pos ≡ false = ground (arith, here) in
    let used : (p : ℕ) → override f.memmap pos true p ≡ (f.memmap p || (p == pos)) =
      override_used f.memmap pos in
    let count =
      count_free-override f.memmap f.firstfree (f.maxfree - f.firstfree) pos (ground (arith, here))
        (ground (arith, here)) clear in
    rw clear record {
      pos = pos;
      after = record f {
        memmap = override f.memmap pos true;
        m_pnum = cache;
        freemem = f.freemem - 1;
      };
      taken = refl;
      frames = record {
        low = t.low;
        high = t.high;
        free = λ p h. ground (arith, used p, t.free p, t.once, h);
        once = ground (arith, t.once);
        few = omega (arith, t.few);
        counted = omega (arith, t.counted, count);
      };
      was_free = here;
      used = used;
      bounds = λ p. ground (arith, used p);
      less = omega (arith, t.counted, count);
      same_first = refl;
      same_max = refl;
    }

member-length : (p : ℕ) (ps : List ℕ) → member p ps ≡ true → (length ps == 0) ≡ false
member-length p [] h = absurd (ground (arith, h))
member-length p (q ∷ ps) h = ground arith

-- With an empty cache the search fills it, since some frame is free.
module _ (fuel : ℕ) (f : Frames) (t : IsFrames f) (left : 0 < f.freemem)
    (enough : f.maxfree - f.firstfree ≤ fuel) where
  from_next : (f.firstfree ≤ next_pos f f.lastpos) × (next_pos f f.lastpos < f.maxfree)
  from_next = (ground (arith, t.low, t.high), ground (arith, t.low, t.high))

  all_ahead : (p : ℕ) → free_in f p ≡ true → ahead f (next_pos f f.lastpos) p ≡ true
  unfolding ahead
  all_ahead p h = ground (arith, t.low, t.high, h)

  scan : Scanned f (next_pos f f.lastpos) [] (refill fuel f (next_pos f f.lastpos) [])
  unfolding distinct
  scan =
      refill-Scanned fuel f (next_pos f f.lastpos) [] t.low t.high from_next.0 from_next.1
        record {
          free = λ p h. ground (arith, h);
          once = refl;
          behind = λ p h. ground (arith, h);
          few = omega arith;
        }
        (ground (arith, t.low, t.high, enough))

  found_some : (length scan.cache == 0) ≡ false
  found_some =
      let (p, from, to, clear) =
        some_free f.memmap f.firstfree (f.maxfree - f.firstfree) (omega (arith, t.counted, left)) in
      let here : free_in f p ≡ true = ground (arith, from, to, clear, t.low, t.high) in
      elim scan.all [
        | inl full ↦ ground (arith, full)
        | inr all ↦ member-length p scan.cache (all p here (all_ahead p here))
      ]

  filled-IsFrames : IsFrames (record f { m_pnum = scan.cache; lastpos = scan.last })
  filled-IsFrames = record {
    low = scan.inside.0;
    high = scan.inside.1;
    free = scan.free;
    once = scan.once;
    few = scan.few;
    counted = t.counted;
  }

pop_frame_some :
    (f : Frames) (cache : List ℕ)
    → IsFrames (record f { m_pnum = cache })
    → (length cache == 0) ≡ false
    → Taken f (pop_frame (record f { m_pnum = cache }))
pop_frame_some f [] t h = absurd (ground (arith, h))
pop_frame_some f (pos ∷ cache) t h = pop_frame-Taken f pos cache t

pub take_frame-Taken :
    (fuel : ℕ) (f : Frames)
    → IsFrames f
    → 0 < f.freemem
    → f.maxfree - f.firstfree ≤ fuel
    → Taken f (take_frame fuel f)
unfolding take_frame
take_frame-Taken fuel f t left enough = elim (Bool-cases (length f.m_pnum == 0)) [
  | inr some_cached ↦ rw some_cached (pop_frame_some f f.m_pnum t some_cached)
  | inl empty ↦
      let s = scan fuel f t left enough in
      let r : Taken (record f { lastpos = s.last })
          (pop_frame (record f { m_pnum = s.cache; lastpos = s.last })) =
        pop_frame_some (record f { lastpos = s.last }) s.cache
          (filled-IsFrames fuel f t left enough) (found_some fuel f t left enough) in
      rw (empty, s.scanned)
        record {
          pos = r.pos;
          after = r.after;
          taken = r.taken;
          frames = r.frames;
          was_free = r.was_free;
          used = r.used;
          bounds = r.bounds;
          less = r.less;
          same_first = r.same_first;
          same_max = r.same_max;
        }
]

-- The call returns different frames that were free, these are in use now, and no others changed.
pub record Allocated (size : ℕ) (f : Frames) (o : Outcome (List ℕ × Frames)) : Type 0 where
  pub base : List ℕ
  pub after : Frames
  pub returns : o ≡ done (base, after)
  pub all : length base ≡ size
  pub were_free : (p : ℕ) → member p base ≡ true → free_in f p ≡ true
  pub once : distinct base ≡ true
  pub used : (p : ℕ) → after.memmap p ≡ (f.memmap p || member p base)
  pub frames : IsFrames after
  pub same_first : after.firstfree ≡ f.firstfree
  pub same_max : after.maxfree ≡ f.maxfree

take_frames-Allocated :
    (fuel size : ℕ) (f : Frames)
    → IsFrames f
    → size ≤ f.freemem
    → f.maxfree - f.firstfree ≤ fuel
    → Allocated size f (take_frames fuel size f)
unfolding take_frames distinct
take_frames-Allocated fuel zero f t left enough = record {
  base = [];
  after = f;
  returns = refl;
  all = refl;
  were_free = λ p h. ground (arith, h);
  once = refl;
  used = λ p. ground arith;
  frames = t;
  same_first = refl;
  same_max = refl;
}
take_frames-Allocated fuel (suc size) f t left enough =
    let r = take_frame-Taken fuel f t (omega (arith, left)) enough in
    let s =
      take_frames-Allocated fuel size r.after r.frames (omega (arith, r.less, left))
        (omega (arith, r.same_first, r.same_max, enough)) in
    let fresh : member r.pos s.base ≡ false = ground (arith, s.were_free r.pos, r.bounds r.pos) in
    rw (r.taken, s.returns)
      record {
        base = r.pos ∷ s.base;
        after = s.after;
        returns = refl;
        all = omega (arith, s.all);
        were_free = λ p h. elim (ℕ_discrete p r.pos) [
          | yes e ↦ ap (free_in f) e ∙ r.was_free
          | no n ↦ ground (arith, s.were_free p, r.bounds p, h, n)
        ];
        once = ground (arith, fresh, s.once);
        used = λ p. s.used p ∙ ground (arith, r.used p);
        frames = s.frames;
        same_first = s.same_first ∙ r.same_first;
        same_max = s.same_max ∙ r.same_max;
      }

pub memall-Allocated :
    (fuel size : ℕ) (f : Frames)
    → IsFrames f
    → 0 < size
    → size ≤ f.freemem
    → f.maxfree - f.firstfree ≤ fuel
    → Allocated size f (memall fuel size f)
unfolding memall
memall-Allocated fuel size f t some_size left enough =
    let goes_on : ((size == 0) || ltb f.freemem size) ≡ false = ground (arith, some_size, left) in
    rw goes_on (take_frames-Allocated fuel size f t left enough)
