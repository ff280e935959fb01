-- ===== src/FreeBlocks/Free.antt =====
-- UNIX_free puts a block in front of the free ones, so that the next alloc hands it out again.
use hostable_32v.Prelude.{
  ℕ, zero, suc, ◌≤◌, ◌<◌, ◌≡◌, ◌≢◌, refl, Bool, true, false, List, [], ◌∷◌, ◌++◌, arith, leb,
  if◌then◌else◌, get_or, set, take, drop, length, sym, subst, ap, ◌∙◌, get_or-set_self,
  get_or-set_ne, take-append, take-all, length-set, ◌⊎◌, ℕ_discrete,
}
use hostable_32v.FreeBlocks.{
  Volume, Ran, done, nicfree, badblock, write, non_positive, put_free, spill, opened, free_at, free,
  alloc,
}
use hostable_32v.FreeBlocks.Chain.{
  has, IsData, Chain, used_up, end, next, link, Holds, getfs-same, Chain-write,
}
use hostable_32v.FreeBlocks.Alloc.{Allocated, alloc-cons}

-- An address behind those in use does not matter.
Chain-set :
    {lo hi : ℕ} {block : ℕ → List ℕ} {n : ℕ} {a bs : List ℕ} (i v : ℕ)
    → n ≤ i
    → Chain lo hi block n a bs
    → Chain lo hi block n (set a i v) bs
Chain-set i v h (used_up e) = used_up e
Chain-set {a} i v h (end e z) = end e (get_or-set_ne a i 0 v 0 (omega arith) ∙ z)
Chain-set {a} i v h (next {k} e g d x c) =
    next e (get_or-set_ne a i (suc k) v 0 (omega arith) ∙ g) d x (Chain-set i v (omega arith) c)
Chain-set {a} i v h (link e g d x w p l len c) =
    link e (get_or-set_ne a i 0 v 0 (omega arith) ∙ g) d x w p l len c

-- With no address in core no block is free.
Chain-zero :
    {lo hi : ℕ} {block : ℕ → List ℕ} {n : ℕ} {a bs : List ℕ}
    → Chain lo hi block n a bs
    → n ≡ 0
    → bs ≡ []
Chain-zero (used_up e) z = refl
Chain-zero (end e g) z = absurd (omega arith)
Chain-zero (next e g d x c) z = absurd (omega arith)
Chain-zero (link e g d x w p l len c) z = absurd (omega arith)

-- The block is the first free one.
pub record Freed (v : Volume) (b : ℕ) (bs : List ℕ) (r : Ran Volume) : Type 0 where
  pub after : Volume
  pub equation : r ≡ done after
  pub holds : Holds after (b ∷ bs)
  pub others : (a : ℕ) → a ≢ b → after.block a ≡ v.block a
  pub modified : after.fs.s_fmod ≡ true

-- free on a volume whose counts are in order, that is not locked, and with a block in range.
module _ (v : Volume) (b : ℕ) (bs : List ℕ) (h : Holds v bs)
    (d : IsData v.fs.s_isize v.fs.s_fsize b) (fresh : has b bs ≡ false) where
  w : Volume
  w = record v { fs = record (v.fs) { s_fmod = true } }

  in_range : badblock v.fs b ≡ false
  in_range = ground (arith, d.from, d.to)

  free-open : free v b ≡ (
      if leb nicfree (opened w).fs.s_nfree
      then done (put_free (spill (opened w) b) b)
      else done (put_free (opened w) b))
  unfolding free w
  free-open =
      ap (λ fp. free_at (record v { fs = record fp { s_fmod = true } }) b)
        (getfs-same v.fs h.count h.inodes)
      ∙ (unfold free_at in rw (h.unlocked, in_range) refl)

  -- With no address in core the block ends the chain, behind the address 0.
  emptied : Volume
  emptied = record v {
    fs = record (v.fs) { s_nfree = 1; s_free = set v.fs.s_free 0 0; s_fmod = true };
  }

  free-none : v.fs.s_nfree ≡ 0 → Freed v b bs (free v b)
  unfolding w emptied
  free-none z = record {
    after = put_free emptied b;
    equation =
        let t : non_positive v.fs.s_nfree ≡ true = ground (arith, z) in free-open ∙ rw t refl;
    holds = record {
      chain = rw (Chain-zero h.chain z) (
          next {k = 0} (omega arith) (get_or-set_self fr 1 b 0 in_array) d refl
            (end refl zero_there));
      size = length-set fr 1 b ∙ length-set v.fs.s_free 0 0 ∙ h.size;
      count = omega arith;
      inodes = h.inodes;
      unlocked = h.unlocked;
    };
    others = λ a ne. refl;
    modified = refl;
  }
    where
      fr : List ℕ
      fr = set v.fs.s_free 0 0

      in_array : 1 < length fr
      in_array = omega (arith, length-set v.fs.s_free 0 0, h.size)

      zero_there : get_or (set fr 1 b) 0 0 ≡ 0
      zero_there =
          get_or-set_ne fr 1 0 b 0 (omega arith)
          ∙ get_or-set_self v.fs.s_free 0 0 0 (omega (arith, h.size))

  free-room : (k : ℕ) → v.fs.s_nfree ≡ suc k → suc k < 50 → Freed v b bs (free v b)
  unfolding w
  free-room k e l = record {
    after = put_free w b;
    equation =
        let t : non_positive v.fs.s_nfree ≡ false = ground arith in
        let u : leb nicfree v.fs.s_nfree ≡ false = ground arith in free-open ∙ rw (t, u) refl;
    holds = record {
      chain =
          next {k = k} (omega arith)
            (ap (λ j. get_or (set v.fs.s_free v.fs.s_nfree b) j 0) (sym e)
              ∙ get_or-set_self v.fs.s_free v.fs.s_nfree b 0 (omega (arith, h.size)))
            d fresh
            (subst
              (λ i. Chain v.fs.s_isize v.fs.s_fsize v.block i (set v.fs.s_free v.fs.s_nfree b) bs) e
              (Chain-set v.fs.s_nfree b (omega arith) h.chain));
      size = length-set v.fs.s_free v.fs.s_nfree b ∙ h.size;
      count = omega arith;
      inodes = h.inodes;
      unlocked = h.unlocked;
    };
    others = λ a ne. refl;
    modified = refl;
  }

  -- With no room in the array its addresses go to the block.
  words : List ℕ
  words = v.fs.s_nfree ∷ (take 50 v.fs.s_free ++ drop 51 (v.block b))

  spilled : take 50 (drop 1 words) ≡ v.fs.s_free
  unfolding words
  spilled =
      rw (take-all 50 v.fs.s_free h.size) (take-append 50 v.fs.s_free (drop 51 (v.block b)) h.size)

  free-full : v.fs.s_nfree ≡ 50 → Freed v b bs (free v b)
  unfolding w words
  free-full e = record {
    after = put_free (spill w b) b;
    equation =
        let t : non_positive v.fs.s_nfree ≡ false = ground arith in
        let u : leb nicfree v.fs.s_nfree ≡ true = ground arith in free-open ∙ rw (t, u) refl;
    holds = record {
      chain =
          link refl (get_or-set_self v.fs.s_free 0 b 0 (omega (arith, h.size))) d fresh
            (ap (λ ws. get_or ws 0 0) there ∙ (e)) (omega arith) (omega arith)
            (ap length array ∙ h.size)
            (subst (λ a. Chain v.fs.s_isize v.fs.s_fsize full 50 a bs) (sym array)
              (subst (λ i. Chain v.fs.s_isize v.fs.s_fsize full i v.fs.s_free bs) e
                (Chain-write b words fresh h.chain)));
      size = length-set v.fs.s_free 0 b ∙ h.size;
      count = omega arith;
      inodes = h.inodes;
      unlocked = refl;
    };
    others = λ a ne. unfold write in ground arith;
    modified = refl;
  }
    where
      full : ℕ → List ℕ
      full = write v.block b words

      there : full b ≡ words
      there = unfold write in ground arith

      array : take 50 (drop 1 (full b)) ≡ v.fs.s_free
      array = ap (λ ws. take 50 (drop 1 ws)) there ∙ spilled

  free-count : (n : ℕ) → v.fs.s_nfree ≡ n → Freed v b bs (free v b)
  free-count zero e = free-none e
  free-count (suc k) e = elim (ℕ_discrete v.fs.s_nfree 50) [
    | yes full ↦ free-full full
    | no room ↦ free-room k e (omega (arith, h.count))
  ]

  -- Freeing a data block that is not free makes it the first free one, before those that were free,
  -- in their order. No block but the freed one is written, and the super block is marked as
  -- modified. That holds also where the array of addresses is full and goes to the freed block.
  pub free-cons : Freed v b bs (free v b)
  free-cons = free-count v.fs.s_nfree refl

  -- A block that was just freed is what alloc hands out next, if the device can read it; then the
  -- free blocks are those from before.
  alloc-free :
      (error : ℕ → Bool)
      → error b ≡ false
      → (v' : Volume) × (free v b ≡ done v') × Allocated v' b bs (alloc error v')
  alloc-free error ok =
      let f = free-cons in (f.after, f.equation, alloc-cons error f.after b bs f.holds ok)

-- A block that lies outside the data area is not freed: the free blocks stay.
free-bad :
    (v : Volume) (b : ℕ) (bs : List ℕ)
    → Holds v bs
    → ((b < v.fs.s_isize) ⊎ (v.fs.s_fsize ≤ b))
    → (v' : Volume) × (free v b ≡ done v') × Holds v' bs × (v'.block ≡ v.block)
free-bad v b bs h bad = (
  record v { fs = record (v.fs) { s_fmod = true } },
  unfold free in
      ap (λ fp. free_at (record v { fs = record fp { s_fmod = true } }) b)
        (getfs-same v.fs h.count h.inodes)
      ∙ (unfold free_at in rw (h.unlocked, out) refl),
  record {
    chain = h.chain;
    size = h.size;
    count = h.count;
    inodes = h.inodes;
    unlocked = h.unlocked;
  },
  refl,
)
  where
    out : badblock v.fs b ≡ true
    out = ground arith
