-- ===== src/Frames/Scan.antt =====
-- The search for free frames.
use hostable_32v.Prelude.{
  distinct, ℕ, zero, suc, ◌+◌, ◌-◌, ◌<◌, ◌≤◌, ◌≡◌, ◌≢◌, refl, sym, ◌∙◌, ap, Bool, true, false, not,
  ◌&&◌, ◌||◌, List, arith, ltb, leb, ◌==◌, if◌then◌else◌, length, member, Bool-cases, inl, inr, ◌⊎◌,
  ℕ_discrete,
}
use hostable_32v.Frames.{Frames, Outcome, done, nicmem, next_pos, look_at, refill}

-- The frame is still to be looked at by a scan that is at `pos`.
unfoldable pub ahead : Frames → ℕ → ℕ → Bool
ahead f pos p =
    leb f.firstfree p
    && ltb p f.maxfree
    && (if ltb f.lastpos pos then leb pos p || leb p f.lastpos else leb pos p && leb p f.lastpos)

-- How many positions are ahead.
abbrev pub to_go : Frames → ℕ → ℕ
to_go f pos =
    if ltb f.lastpos pos
    then (f.maxfree - pos) + (f.lastpos + 1 - f.firstfree)
    else f.lastpos + 1 - pos

abbrev pub free_in : Frames → ℕ → Bool
free_in f p = leb f.firstfree p && ltb p f.maxfree && not (f.memmap p)

-- The cache has different free frames, none of them still ahead.
pub record IsScan (f : Frames) (pos : ℕ) (cache : List ℕ) : Type 0 where
  pub free : (p : ℕ) → member p cache ≡ true → free_in f p ≡ true
  pub once : distinct cache ≡ true
  pub behind : (p : ℕ) → member p cache ≡ true → ahead f pos p ≡ false
  pub few : length cache ≤ nicmem

-- Afterwards it also has all the free frames that were ahead, or is full.
pub record Scanned (f : Frames) (pos : ℕ) (before : List ℕ) (o : Outcome (List ℕ × ℕ))
    : Type 0 where
  pub cache : List ℕ
  pub last : ℕ
  pub scanned : o ≡ done (cache, last)
  pub free : (p : ℕ) → member p cache ≡ true → free_in f p ≡ true
  pub once : distinct cache ≡ true
  pub few : length cache ≤ nicmem
  pub all :
      (nicmem ≤ length cache)
      ⊎ ((p : ℕ) → free_in f p ≡ true → ahead f pos p ≡ true → member p cache ≡ true)
  pub keeps : (p : ℕ) → member p before ≡ true → member p cache ≡ true
  pub inside : (f.firstfree ≤ last) × (last < f.maxfree)

ahead_step :
    (f : Frames) (pos p : ℕ)
    → f.firstfree ≤ f.lastpos
    → f.lastpos < f.maxfree
    → f.firstfree ≤ pos
    → pos < f.maxfree
    → pos ≢ f.lastpos
    → ahead f (next_pos f pos) p ≡ (ahead f pos p && not (p == pos))
unfolding ahead
ahead_step f pos p lo hi from to ne = ground (arith, lo, hi, from, to, ne)

ahead_last : (f : Frames) (p : ℕ) → ahead f f.lastpos p ≡ true → p ≡ f.lastpos
unfolding ahead
ahead_last f p h = ground (arith, h)

to_go_step :
    (f : Frames) (pos : ℕ)
    → f.firstfree ≤ f.lastpos
    → f.lastpos < f.maxfree
    → f.firstfree ≤ pos
    → pos < f.maxfree
    → pos ≢ f.lastpos
    → suc (to_go f (next_pos f pos)) ≡ to_go f pos
to_go_step f pos lo hi from to ne = ground (arith, lo, hi, from, to, ne)

next_inside :
    (f : Frames) (pos : ℕ)
    → f.firstfree ≤ pos
    → pos < f.maxfree
    → (f.firstfree ≤ next_pos f pos) × (next_pos f pos < f.maxfree)
next_inside f pos from to = (ground (arith, from, to), ground (arith, from, to))

ahead_self :
    (f : Frames) (pos : ℕ)
    → f.firstfree ≤ pos
    → pos < f.maxfree
    → (pos ≤ f.lastpos → pos ≤ f.lastpos)
    → ahead f pos pos ≡ true
unfolding ahead
ahead_self f pos from to h = ground (arith, from, to)

module _ (f : Frames) (pos : ℕ) (cache : List ℕ) (lo : f.firstfree ≤ f.lastpos)
    (hi : f.lastpos < f.maxfree) (from : f.firstfree ≤ pos) (to : pos < f.maxfree)
    (room : length cache < nicmem) (scan : IsScan f pos cache) where
  fresh : member pos cache ≡ false
  fresh = ground (arith, scan.behind pos, ahead_self f pos from to (λ h. h))

  found_free : (p : ℕ) → member p (look_at f pos cache) ≡ true → free_in f p ≡ true
  found_free p h = elim (ℕ_discrete p pos) [
    | yes e ↦ elim (Bool-cases (f.memmap pos)) [
      | inl u ↦ scan.free p (ground (arith, h, u))
      | inr u ↦ ground (arith, u, from, to, ap f.memmap e)
    ]
    | no n ↦ scan.free p (ground (arith, h, n))
  ]

  found_once : distinct (look_at f pos cache) ≡ true
  unfolding distinct
  found_once = ground (arith, scan.once, fresh)

  found_keeps : (p : ℕ) → member p cache ≡ true → member p (look_at f pos cache) ≡ true
  found_keeps p h = ground (arith, h)

  found_few : length (look_at f pos cache) ≤ nicmem
  found_few = ground (arith, room)

  found_here : f.memmap pos ≡ false → member pos (look_at f pos cache) ≡ true
  found_here u = rw u (ground arith)

  found-IsScan : pos ≢ f.lastpos → IsScan f (next_pos f pos) (look_at f pos cache)
  found-IsScan ne = record {
    free = found_free;
    once = found_once;
    behind = λ p h. ahead_step f pos p lo hi from to ne ∙ ground (arith, h, scan.behind p);
    few = found_few;
  }

pub refill-Scanned :
    (fuel : ℕ) (f : Frames) (pos : ℕ) (cache : List ℕ)
    → f.firstfree ≤ f.lastpos
    → f.lastpos < f.maxfree
    → f.firstfree ≤ pos
    → pos < f.maxfree
    → IsScan f pos cache
    → to_go f pos ≤ fuel
    → Scanned f pos cache (refill fuel f pos cache)
unfolding refill
refill-Scanned zero f pos cache lo hi from to scan enough =
    absurd (ground (arith, lo, hi, from, to, enough))
refill-Scanned (suc fuel) f pos cache lo hi from to scan enough =
    elim (Bool-cases (leb nicmem (length cache))) [
      | inl full ↦ rw full record {
        cache = cache;
        last = pos;
        scanned = refl;
        free = scan.free;
        once = scan.once;
        few = scan.few;
        all = inl (ground (arith, full));
        keeps = λ p h. h;
        inside = (from, to);
      }
      | inr room ↦
          let less : length cache < nicmem = ground (arith, room) in
          elim (ℕ_discrete pos f.lastpos) [
            | yes e ↦
                let here : (pos == f.lastpos) ≡ true = ground (arith, e) in
                rw (room, here)
                  record {
                    cache = look_at f pos cache;
                    last = pos;
                    scanned = refl;
                    free = found_free f pos cache lo hi from to less scan;
                    once = found_once f pos cache lo hi from to less scan;
                    few = found_few f pos cache lo hi from to less scan;
                    all = inr (λ p h a.
                        let same : p ≡ pos =
                          ahead_last f p (ap (λ x. ahead f x p) (sym e) ∙ a) ∙ sym e in
                        ap (λ x. member x (look_at f pos cache)) same
                        ∙ found_here f pos cache lo hi from to less scan
                            (ap f.memmap (sym same) ∙ ground (arith, h)));
                    keeps = found_keeps f pos cache lo hi from to less scan;
                    inside = (from, to);
                  }
            | no n ↦
                let there : (pos == f.lastpos) ≡ false = ground (arith, n) in
                let (from', to') = next_inside f pos from to in
                let r =
                  refill-Scanned fuel f (next_pos f pos) (look_at f pos cache) lo hi from' to'
                    (found-IsScan f pos cache lo hi from to less scan n)
                    (omega (arith, to_go_step f pos lo hi from to n, enough)) in
                rw (room, there)
                  record {
                    cache = r.cache;
                    last = r.last;
                    scanned = r.scanned;
                    free = r.free;
                    once = r.once;
                    few = r.few;
                    all = elim r.all [
                      | inl full ↦ inl full
                      | inr a ↦ inr (λ p h here. elim (ℕ_discrete p pos) [
                        | yes same ↦ r.keeps p (
                            ap (λ x. member x (look_at f pos cache)) same
                            ∙ found_here f pos cache lo hi from to less scan
                                (ap f.memmap (sym same) ∙ ground (arith, h)))
                        | no other ↦
                            a p h (ahead_step f pos p lo hi from to n ∙ ground (arith, here, other))
                      ])
                    ];
                    keeps = λ p h. r.keeps p (found_keeps f pos cache lo hi from to less scan p h);
                    inside = r.inside;
                  }
          ]
    ]
