-- ===== src/Frames/Free.antt =====
-- UNIX_memfree, of frames that UNIX_memall handed out.
use hostable_32v.Prelude.{
  distinct, ℕ, zero, suc, ◌+◌, ◌-◌, ◌%◌, ◌^◌, ◌<◌, ◌≤◌, ◌≡◌, refl, sym, ◌∙◌, ap, Bool, true, false,
  not, ◌&&◌, ◌||◌, List, [], ◌∷◌, arith, ltb, leb, ◌==◌, if◌then◌else◌, length, member, ℕ_discrete,
  override, override_self, ◌⊎◌, inl, inr, subst,
}
use hostable_32v.Frames.{Frames, Outcome, done, nicmem, memall, memfree}
use hostable_32v.Frames.Scan.{free_in}
use hostable_32v.Frames.Count.{count_free, count_free-override}
use hostable_32v.Frames.Boot.{IsFresh, at_last, memall-at_last, Allocated-at_last}
use hostable_32v.Frames.Alloc.{IsFrames, Allocated, memall-Allocated}

count_free-same :
    (m m' : ℕ → Bool) (lo n : ℕ) → ((p : ℕ) → m p ≡ m' p) → count_free m lo n ≡ count_free m' lo n
unfolding count_free
count_free-same m m' lo zero h = refl
count_free-same m m' lo (suc n) h = rw (h (lo + n), count_free-same m m' lo n h) refl

override_unused : (m : ℕ → Bool) (pos p : ℕ) → override m pos false p ≡ (m p && not (p == pos))
unfolding override
override_unused m pos p = ground arith

override_again :
    (m : ℕ → Bool) (pos p : ℕ) → m pos ≡ true → override (override m pos false) pos true p ≡ m p
unfolding override
override_again m pos p h = elim (ℕ_discrete p pos) [
  | yes e ↦ ground (arith, e, h, ap m e)
  | no n ↦ ground (arith, n)
]

count_free-unused :
    (m : ℕ → Bool) (lo n pos : ℕ)
    → lo ≤ pos
    → pos < lo + n
    → m pos ≡ true
    → count_free (override m pos false) lo n ≡ suc (count_free m lo n)
count_free-unused m lo n pos from to h =
    sym (count_free-override (override m pos false) lo n pos from to (override_self m pos false))
    ∙ ap suc (
        count_free-same (override (override m pos false) pos true) m lo n
          (λ p. override_again m pos p h))

-- A list of different frames that are in use.
record IsLent (f : Frames) (base : List ℕ) : Type 0 where
  inside : (p : ℕ) → member p base ≡ true → (f.firstfree ≤ p) × (p < f.maxfree)
  in_use : (p : ℕ) → member p base ≡ true → f.memmap p ≡ true
  once : distinct base ≡ true

-- The call returns, and the frames of the list are free.
pub record Restored (f : Frames) (base : List ℕ) (o : Outcome Frames) : Type 0 where
  pub after : Frames
  pub returns : o ≡ done after
  pub frames : IsFrames after
  pub free : (p : ℕ) → after.memmap p ≡ (f.memmap p && not (member p base))

-- One frame is given back.
abbrev pub give : ℕ → Frames → Frames
give pos f = record f {
  memmap = override f.memmap pos false;
  m_pnum = if ltb (length f.m_pnum) nicmem then pos ∷ f.m_pnum else f.m_pnum;
  freemem = f.freemem + 1;
}

IsFrames-give :
    (pos : ℕ) (f : Frames)
    → IsFrames f
    → f.firstfree ≤ pos
    → pos < f.maxfree
    → f.memmap pos ≡ true
    → IsFrames (give pos f)
unfolding distinct
IsFrames-give pos f t from to used =
    let now : (p : ℕ) → override f.memmap pos false p ≡ (f.memmap p && not (p == pos)) =
      override_unused f.memmap pos in
    let count =
      count_free-unused f.memmap f.firstfree (f.maxfree - f.firstfree) pos from
        (omega (arith, from, to)) used in
    let fresh : member pos f.m_pnum ≡ false = ground (arith, t.free pos, used) in
    record {
      low = t.low;
      high = t.high;
      free = λ p h. elim (ℕ_discrete p pos) [
        | yes e ↦ ground (arith, now p, e, from, to)
        | no n ↦ ground (arith, now p, t.free p, n, h)
      ];
      once = ground (arith, t.once, fresh);
      few = ground (arith, t.few);
      counted = omega (arith, count, t.counted);
    }

memfree-Restored :
    (f : Frames) (base : List ℕ)
    → IsFrames f
    → f.maxfree ≤ 2 ^ 21
    → IsLent f base
    → Restored f base (memfree base f)
unfolding memfree distinct
memfree-Restored f [] t small l = record {
  after = f;
  returns = refl;
  frames = t;
  free = λ p. ground arith;
}
memfree-Restored f (b ∷ base) t small l =
    let (from, to) = l.inside b (ground arith) in
    let used : f.memmap b ≡ true = l.in_use b (ground arith) in
    let number : b % 2 ^ 21 ≡ b = omega (arith, to, small) in
    let in_range : (ltb b f.firstfree || leb f.maxfree b) ≡ false = ground (arith, from, to) in
    let now = override_unused f.memmap b in
    let r = memfree-Restored (give b f) base (IsFrames-give b f t from to used) small record {
      inside = λ p h. l.inside p (ground (arith, h));
      in_use = λ p h. ground (arith, now p, l.in_use p, l.once, h);
      once = ground (arith, l.once);
    } in
    rw (number, in_range, used)
      record {
        after = r.after;
        returns = r.returns;
        frames = r.frames;
        free = λ p. r.free p ∙ ground (arith, now p);
      }

free_range : (f : Frames) (p : ℕ) → free_in f p ≡ true → (f.firstfree ≤ p) × (p < f.maxfree)
free_range f p h = (ground (arith, h), ground (arith, h))

-- The frames that UNIX_memall returns, and what UNIX_memfree does with them.
pub record Lent (size : ℕ) (f : Frames) (o : Outcome (List ℕ × Frames)) : Type 0 where
  pub lent : Allocated size f o
  pub back : Restored lent.after lent.base (memfree lent.base lent.after)
  pub as_before : (p : ℕ) → back.after.memmap p ≡ f.memmap p

allocated :
    (fuel size : ℕ) (f : Frames)
    → IsFrames f ⊎ IsFresh f
    → 0 < size
    → size ≤ f.freemem
    → f.maxfree - f.firstfree ≤ fuel
    → Allocated size f (memall fuel size f)
allocated fuel size f (inl t) some_size left enough =
    memall-Allocated fuel size f t some_size left enough
allocated fuel size f (inr fresh) some_size left enough =
    subst (Allocated size f) (sym (memall-at_last fuel size f fresh some_size left)) (
      Allocated-at_last size f _
        (memall-Allocated fuel size (at_last f) fresh.frames some_size left enough))

-- Of a memory of at most 2^15 frames, where the cache of free frames and their count are in order and the
-- position of the last search lies among the frames, or behind them as UNIX_meminit leaves it, with
-- nothing cached, more than 100 frames and the first 100 of them free: UNIX_memall of at least one
-- frame and no more than are free returns, with one round of its search for each position at most. It
-- hands out that many different frames that were free, and just these are marked as in use.
-- UNIX_memfree takes them back, and the map is as before. Each time the cache of free frames and their
-- count are in order.
pub memfree-memall :
    (fuel size : ℕ) (f : Frames)
    → IsFrames f ⊎ IsFresh f
    → f.maxfree ≤ 2 ^ 15
    → 0 < size
    → size ≤ f.freemem
    → f.maxfree - f.firstfree ≤ fuel
    → Lent size f (memall fuel size f)
memfree-memall fuel size f t small some_size left enough =
    let a = allocated fuel size f t some_size left enough in
    let r : Restored a.after a.base (memfree a.base a.after) =
      memfree-Restored a.after a.base a.frames (omega (arith, a.same_max, small)) record {
        inside = λ p h. (
          (omega (arith, a.same_first, (free_range f p (a.were_free p h)).0)),
          (omega (arith, a.same_max, (free_range f p (a.were_free p h)).1)),
        );
        in_use = λ p h. ground (arith, a.used p, h);
        once = a.once;
      } in
    record {
      lent = a;
      back = r;
      as_before = λ p. r.free p ∙ ground (arith, a.used p, a.were_free p);
    }
