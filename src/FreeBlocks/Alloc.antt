-- ===== src/FreeBlocks/Alloc.antt =====
-- UNIX_alloc hands out the first free block, cleared, and says when there is none.
use hostable_32v.Prelude.{
  ℕ, suc, ◌%◌, ◌≤◌, ◌<◌, ◌^◌, ◌≡◌, ◌≢◌, refl, Bool, true, false, ◌||◌, List, [], ◌∷◌, arith, ltb,
  get_or, take, drop, length, sym, subst, ap, ◌∙◌, Option, none, some, replicate, ==-suc_zero,
}
use hostable_32v.FreeBlocks.{
  Filsys, Volume, Ran, done, nicfree, nindir, write, non_positive, pick, nospace, hand_out,
  refilled, alloc_from, alloc_picked, alloc_at, alloc,
}
use hostable_32v.FreeBlocks.Chain.{
  has, IsData, Chain, used_up, end, next, link, Holds, getfs-same, Chain-write,
}

-- alloc on a volume whose counts are in order and that is not locked.
alloc-open :
    (error : ℕ → Bool) (v : Volume) (bs : List ℕ)
    → Holds v bs
    → 0 < v.fs.s_nfree
    → alloc error v ≡ done (alloc_picked error v (pick v.fs v.fs.s_nfree))
unfolding alloc
alloc-open error v bs h p =
    ap (λ fp. alloc_at error (record v { fs = fp })) (getfs-same v.fs h.count h.inodes) ∙ at
  where
    t : (non_positive v.fs.s_nfree || ltb nicfree v.fs.s_nfree) ≡ false
    t = ground (arith, h.count)

    at : alloc_at error v ≡ done (alloc_picked error v (pick v.fs v.fs.s_nfree))
    at = unfold alloc_at in rw (h.unlocked, t) refl

pick-some :
    (fp : Filsys) (n b : ℕ)
    → get_or fp.s_free n 0 ≡ b
    → IsData fp.s_isize fp.s_fsize b
    → pick fp (suc n) ≡ some (b, n)
unfolding pick
pick-some fp n b g d = ground (arith, d.not_zero, d.from, d.to)

-- The first free block was handed out.
pub record Allocated (v : Volume) (b : ℕ) (bs : List ℕ) (r : Ran (Option ℕ × Volume)) : Type 0 where
  pub after : Volume
  pub equation : r ≡ done (some b, after)
  pub holds : Holds after bs
  pub cleared : after.block b ≡ replicate 128 0
  pub others : (a : ℕ) → a ≢ b → after.block a ≡ v.block a
  pub modified : after.fs.s_fmod ≡ true
  pub no_error : after.u_error ≡ v.u_error

alloc-next :
    (error : ℕ → Bool) (v : Volume) (k b : ℕ) (bs : List ℕ)
    → Holds v (b ∷ bs)
    → v.fs.s_nfree ≡ suc (suc k)
    → get_or v.fs.s_free (suc k) 0 ≡ b
    → IsData v.fs.s_isize v.fs.s_fsize b
    → has b bs ≡ false
    → Chain v.fs.s_isize v.fs.s_fsize v.block (suc k) v.fs.s_free bs
    → Allocated v b bs (alloc error v)
alloc-next error v k b bs h e g d n c = record {
  after = (hand_out (record v { fs = record (v.fs) { s_nfree = suc k } }) b).1;
  equation =
      alloc-open error v (b ∷ bs) h (omega arith)
      ∙ ap done
          (ap (alloc_picked error v) (ap (pick v.fs) e ∙ pick-some v.fs (suc k) b g d) ∙ from);
  holds = record {
    chain = Chain-write b (replicate nindir 0) n c;
    size = h.size;
    count = omega (arith, h.count);
    inodes = h.inodes;
    unlocked = h.unlocked;
  };
  cleared = unfold write in ground arith;
  others = λ a ne. unfold write in ground arith;
  modified = refl;
  no_error = refl;
}
  where
    from :
        alloc_picked error v (some (b, suc k))
        ≡ hand_out (record v { fs = record (v.fs) { s_nfree = suc k } }) b
    from = unfold alloc_picked alloc_from in rw (==-suc_zero k) refl

alloc-link :
    (error : ℕ → Bool) (v : Volume) (m b : ℕ) (bs : List ℕ)
    → Holds v (b ∷ bs)
    → v.fs.s_nfree ≡ 1
    → get_or v.fs.s_free 0 0 ≡ b
    → IsData v.fs.s_isize v.fs.s_fsize b
    → has b bs ≡ false
    → get_or (v.block b) 0 0 ≡ m
    → 0 < m
    → m ≤ 50
    → length (take 50 (drop 1 (v.block b))) ≡ 50
    → Chain v.fs.s_isize v.fs.s_fsize v.block m (take 50 (drop 1 (v.block b))) bs
    → error b ≡ false
    → Allocated v b bs (alloc error v)
alloc-link error v m b bs h e g d n w p l len c ok = record {
  after = (hand_out (record v { fs = refilled v.fs (v.block b) }) b).1;
  equation =
      alloc-open error v (b ∷ bs) h (omega arith)
      ∙ ap done (ap (alloc_picked error v) (ap (pick v.fs) e ∙ pick-some v.fs 0 b g d) ∙ from);
  holds = record {
    chain = Chain-write b (replicate nindir 0) n (
        subst (λ i. Chain v.fs.s_isize v.fs.s_fsize v.block i (take 50 (drop 1 (v.block b))) bs)
          (sym small) c);
    size = len;
    count = omega (arith, small);
    inodes = h.inodes;
    unlocked = refl;
  };
  cleared = unfold write in ground arith;
  others = λ a ne. unfold write in ground arith;
  modified = refl;
  no_error = refl;
}
  where
    small : get_or (v.block b) 0 0 % 2 ^ 16 ≡ m
    small = omega arith

    some_left : non_positive (get_or (v.block b) 0 0 % 2 ^ 16) ≡ false
    some_left = ground (arith, small)

    from :
        alloc_picked error v (some (b, 0))
        ≡ hand_out (record v { fs = refilled v.fs (v.block b) }) b
    from = unfold alloc_picked alloc_from in rw (ok, some_left) refl

alloc-Chain :
    (error : ℕ → Bool) (v : Volume) (b : ℕ) (bs : List ℕ)
    → Holds v (b ∷ bs)
    → error b ≡ false
    → {n : ℕ} → n ≡ v.fs.s_nfree
    → {a : List ℕ} → a ≡ v.fs.s_free
    → Chain v.fs.s_isize v.fs.s_fsize v.block n a (b ∷ bs)
    → Allocated v b bs (alloc error v)
alloc-Chain error v b bs h ok en ea (next e g d x c) =
    alloc-next error v _ b bs h (sym en ∙ e) (rw (sym ea) g) d x (rw (sym ea) c)
alloc-Chain error v b bs h ok en ea (link e g d x w p l len c) =
    alloc-link error v _ b bs h (sym en ∙ e) (rw (sym ea) g) d x w p l len c ok

-- Where the device can read the first free block, alloc hands that block out, cleared. The free
-- blocks are then the others, in the same order; no other block changed; and the super block is
-- marked as modified.
pub alloc-cons :
    (error : ℕ → Bool) (v : Volume) (b : ℕ) (bs : List ℕ)
    → Holds v (b ∷ bs)
    → error b ≡ false
    → Allocated v b bs (alloc error v)
alloc-cons error v b bs h ok = alloc-Chain error v b bs h ok refl refl h.chain

-- No block was handed out, and no address is left in core.
pub record Refused (v : Volume) (r : Ran (Option ℕ × Volume)) : Type 0 where
  pub after : Volume
  pub equation : r ≡ done (none, after)
  pub holds : Holds after []
  pub kept : (a : ℕ) → after.block a ≡ v.block a
  pub u_error : after.u_error ≡ 28

Refused-nospace :
    (v : Volume) (bs : List ℕ) (r : Ran (Option ℕ × Volume))
    → Holds v bs
    → r ≡ done (nospace v)
    → Refused v r
Refused-nospace v bs r h e = record {
  after = (nospace v).1;
  equation = e;
  holds = record {
    chain = used_up refl;
    size = h.size;
    count = omega arith;
    inodes = h.inodes;
    unlocked = h.unlocked;
  };
  kept = λ a. refl;
  u_error = refl;
}

alloc-empty :
    (error : ℕ → Bool) (v : Volume)
    → Holds v []
    → {n : ℕ} → n ≡ v.fs.s_nfree
    → {a : List ℕ} → a ≡ v.fs.s_free
    → Chain v.fs.s_isize v.fs.s_fsize v.block n a []
    → alloc error v ≡ done (nospace v)
unfolding alloc alloc_at
alloc-empty error v h en ea (used_up e) =
    ap (λ fp. alloc_at error (record v { fs = fp })) (getfs-same v.fs h.count h.inodes)
    ∙ rw (h.unlocked, sym en ∙ e) refl
alloc-empty error v h en ea (end e z) =
    alloc-open error v [] h (omega (arith, en, e))
    ∙ ap done (
        ap (alloc_picked error v) (ap (pick v.fs) (sym en ∙ e) ∙ none_there)
        ∙ (unfold alloc_picked in refl))
  where
    zero_there : get_or v.fs.s_free 0 0 ≡ 0
    zero_there = rw (sym ea) z

    none_there : pick v.fs 1 ≡ none
    none_there = unfold pick in rw zero_there refl

-- Where no block is free, alloc hands out none and sets the error to ENOSPC; the blocks are as
-- they were.
alloc-nil : (error : ℕ → Bool) (v : Volume) → Holds v [] → Refused v (alloc error v)
alloc-nil error v h =
    Refused-nospace v [] (alloc error v) h (alloc-empty error v h refl refl h.chain)

-- Where the only address in core is that of a block that the device cannot read, alloc hands out
-- none and sets the error to ENOSPC, and the free blocks behind that one are no longer reached.
alloc-error :
    (error : ℕ → Bool) (v : Volume) (b : ℕ) (bs : List ℕ)
    → Holds v (b ∷ bs)
    → v.fs.s_nfree ≡ 1
    → get_or v.fs.s_free 0 0 ≡ b
    → IsData v.fs.s_isize v.fs.s_fsize b
    → error b ≡ true
    → Refused v (alloc error v)
alloc-error error v b bs h e g d bad = Refused-nospace v (b ∷ bs) (alloc error v) h (
    alloc-open error v (b ∷ bs) h (omega arith)
    ∙ ap done (ap (alloc_picked error v) (ap (pick v.fs) e ∙ pick-some v.fs 0 b g d) ∙ from))
  where
    from : alloc_picked error v (some (b, 0)) ≡ nospace v
    from = unfold alloc_picked alloc_from in rw bad refl
