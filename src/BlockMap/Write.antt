-- ===== src/BlockMap/Write.antt =====
-- Writing: UNIX_bmap for B_WRITE supplies the blocks that are missing on the way to a block.
use hostable_32v.Prelude.{
  ℕ, ◌+◌, ◌-◌, ◌*◌, ◌^◌, ◌≤◌, ◌<◌, ◌≡◌, ◌≢◌, Bool, true, false, List, [], ◌∷◌, arith, ltb, leb,
  ◌==◌, length, get_or, set, Bool-cases, ◌∙◌, ap, ◌⊎◌, inl, inr, get_or-set_self, get_or-set_ne,
  sym,
}
use hostable_32v.FreeBlocks.{Volume, Ran, done, alloc}
use hostable_32v.FreeBlocks.Chain.{has, Holds}
use hostable_32v.FreeBlocks.Alloc.{Allocated, alloc-cons}
use hostable_32v.BlockMap.{
  File, Answer, block_at, with_new, fetch, walk, indirect, bmap, read_ahead,
}
use hostable_32v.BlockMap.Position.{
  Position, direct, single, double, triple, IsPosition, number, slot, indices, follow,
}
use hostable_32v.BlockMap.Read.{with_error, Digits, last, digit}
use hostable_32v.BlockMap.Read.{
  bmap-follow, find-single, find-double, find-triple, single-Digits, double-Digits, triple-Digits,
}
use hostable_32v.BlockMap.Grow.{
  IsReady, Grown, linked, linked-Holds, linked-IsReady, Grown-on, Grown-new, Grown-here,
  IsReady-new, Chain-first,
}

-- The way begins in the inode: no address, or one whose blocks are ready.
abbrev pub IsReadyAt : File → List ℕ → ℕ → List ℕ → Type 0
IsReadyAt f bs s is = (get_or f.i_addr s 0 ≡ 0) ⊎ IsReady f.volume.block bs (get_or f.i_addr s 0) is

-- The way from the address at `s` of the inode leads to a block, which is not free. What was an
-- address stays the same address, in the inode and outside the blocks that were free.
pub record Mapped (error : ℕ → Bool) (f : File) (bs : List ℕ) (s : ℕ) (is : List ℕ)
    (r : Ran (Answer × File)) : Type 0 where
  pub found : ℕ
  pub after : File
  pub rest : List ℕ
  pub equation : r ≡ done (block_at found, after)
  pub leads : follow error after.volume.block (get_or after.i_addr s 0) is ≡ block_at found
  pub holds : Holds after.volume rest
  pub used : has found rest ≡ false
  pub kept_addr : (j : ℕ) → get_or f.i_addr j 0 ≢ 0 → get_or after.i_addr j 0 ≡ get_or f.i_addr j 0
  pub kept :
      (a j : ℕ)
      → has a bs ≡ false
      → get_or (f.volume.block a) j 0 ≢ 0
      → get_or (after.volume.block a) j 0 ≡ get_or (f.volume.block a) j 0

module _ (error : ℕ → Bool) (fine : (b : ℕ) → error b ≡ false) where
  walk-Grown :
      {bn : ℕ} {n sh : ℕ} {is : List ℕ} (i : ℕ) (bap : List ℕ) (nb : ℕ) (f : File) (bs : List ℕ)
      → Digits bn n sh is
      → nb ≢ 0
      → Holds f.volume bs
      → IsReady f.volume.block bs nb is
      → n ≤ length bs
      → Grown error f bs nb is (walk n error false sh bn i bap nb f)
  unfolding walk with_new IsReady linked
  walk-Grown i bap nb f bs last ne h r s =
      Grown-here error f bs nb (ltb i 127) (get_or bap (i + 1) 0) ne h r
  walk-Grown _ bap nb f [] (digit {i} d ds) ne h (u, l, r) s = absurd (omega arith)
  walk-Grown {bn} _ bap nb f (b ∷ bs) (digit {n} {sh} {i} {is} d ds) ne h (u, l, r) s =
      elim (Bool-cases (get_or (f.volume.block nb) i 0 == 0)) [
        | inl z ↦
            let a = alloc-cons error f.volume b bs h (fine b) in
            let (nz, x) = Chain-first h.chain in
            let hole : get_or (f.volume.block nb) i 0 ≡ 0 = ground arith in
            Grown-new error fine f b bs nb i is _ a ne nz u (omega (arith, d, l)) hole (
              rw (fine nb, d, z, a.equation)
                (walk-Grown i (set (f.volume.block nb) i b) b (linked f nb i b a.after) bs ds nz
                  (linked-Holds f a nb i u) (linked-IsReady f a nb i is u x) (omega arith)))
        | inr on ↦ Grown-on error fine f (b ∷ bs) nb i is _ ne u (ground arith) (
            rw (fine nb, d, on)
              (walk-Grown i (f.volume.block nb) (get_or (f.volume.block nb) i 0) f (b ∷ bs) ds
                (ground arith) h (elim r [ inl z ↦ absurd (ground arith) | inr r' ↦ r' ])
                (omega arith)))
      ]

  entered : File → ℕ → ℕ → Volume → File
  entered f s b v = record f { i_addr = set f.i_addr s b; i_changed = true; volume = v }

  Mapped-on :
      (f : File) (bs : List ℕ) (s : ℕ) (is : List ℕ) (r : Ran (Answer × File))
      → Grown error f bs (get_or f.i_addr s 0) is r
      → Mapped error f bs s is r
  Mapped-on f bs s is r g = record {
    found = g.found;
    after = g.after;
    rest = g.rest;
    equation = g.equation;
    leads = ap (λ ad. follow error g.after.volume.block (get_or ad s 0) is) g.addresses ∙ g.leads;
    holds = g.holds;
    used = g.used;
    kept_addr = λ j on. ap (λ ad. get_or ad j 0) g.addresses;
    kept = g.kept;
  }

  Mapped-rablock :
      (f : File) (bs : List ℕ) (s : ℕ) (is : List ℕ) (r : Ran (Answer × File))
      → Mapped error (record f { rablock = 0 }) bs s is r
      → Mapped error f bs s is r
  Mapped-rablock f bs s is r g = record {
    found = g.found;
    after = g.after;
    rest = g.rest;
    equation = g.equation;
    leads = g.leads;
    holds = g.holds;
    used = g.used;
    kept_addr = g.kept_addr;
    kept = g.kept;
  }

  Mapped-new :
      (f : File) (b : ℕ) (bs : List ℕ) (s : ℕ) (is : List ℕ) (r : Ran (Answer × File))
      → (a : Allocated f.volume b bs (alloc error f.volume)) → s < length f.i_addr
      → get_or f.i_addr s 0 ≡ 0
      → Grown error (entered f s b a.after) bs b is r
      → Mapped error f (b ∷ bs) s is r
  unfolding entered
  Mapped-new f b bs s is r a l hole g = record {
    found = g.found;
    after = g.after;
    rest = g.rest;
    equation = g.equation;
    leads =
        ap (λ ad. follow error g.after.volume.block (get_or ad s 0) is) g.addresses
        ∙ ap (λ d. follow error g.after.volume.block d is) (get_or-set_self f.i_addr s b 0 l)
        ∙ g.leads;
    holds = g.holds;
    used = g.used;
    kept_addr = λ j on.
        ap (λ ad. get_or ad j 0) g.addresses
        ∙ get_or-set_ne f.i_addr s j b 0 (λ k. on (ap (λ d. get_or f.i_addr d 0) (sym k) ∙ hole));
    kept = λ c j y on.
        let e : get_or (a.after.block c) j 0 ≡ get_or (f.volume.block c) j 0 =
          ap (λ ws. get_or ws j 0) (a.others c (ground arith)) in
        g.kept c j (ground arith) (λ z. on (sym e ∙ z)) ∙ e;
  }

  -- Whatever follows the fetch of the address in the inode, if it grows the way from there on.
  fetch-Mapped :
      (n s : ℕ) (is : List ℕ) (k : ℕ → File → Ran (Answer × File)) (f : File) (bs : List ℕ)
      → ((nb : ℕ) (f' : File) (bs' : List ℕ)
          → nb ≢ 0
          → Holds f'.volume bs'
          → IsReady f'.volume.block bs' nb is
          → n ≤ length bs'
          → Grown error f' bs' nb is (k nb f'))
      → Holds f.volume bs
      → s < length f.i_addr
      → IsReadyAt f bs s is
      → n < length bs
      → Mapped error f bs s is (fetch error false s f k)
  unfolding fetch with_new entered
  fetch-Mapped n s is k f [] go h l r m = absurd (omega arith)
  fetch-Mapped n s is k f (b ∷ bs) go h l r m = elim (Bool-cases (get_or f.i_addr s 0 == 0)) [
    | inl z ↦
        let a = alloc-cons error f.volume b bs h (fine b) in
        let (nz, x) = Chain-first h.chain in
        let hole : get_or f.i_addr s 0 ≡ 0 = ground arith in
        Mapped-new f b bs s is _ a l hole (
          rw (z, a.equation)
            (go b (entered f s b a.after) bs nz a.holds (IsReady-new a.after bs b is x a.cleared)
              (omega arith)))
    | inr on ↦ Mapped-on f (b ∷ bs) s is _ (
        rw on (
          go (get_or f.i_addr s 0) f (b ∷ bs) (ground arith) h
            (elim r [ inl z ↦ absurd (ground arith) | inr r' ↦ r' ]) (omega arith)))
  ]

  walk-Mapped :
      {bn n sh : ℕ} {is : List ℕ} (s : ℕ) (f : File) (bs : List ℕ)
      → Digits bn n sh is
      → Holds f.volume bs
      → s < length f.i_addr
      → IsReadyAt f bs s is
      → n < length bs
      → Mapped error f bs s is
          (fetch error false s f (λ nb f'. walk n error false sh bn 0 [] nb f'))
  walk-Mapped {bn} {n} {sh} {is} s f bs d h l r m =
      fetch-Mapped n s is (λ nb f'. walk n error false sh bn 0 [] nb f') f bs
        (λ nb f' bs' ne h' r' m'. walk-Grown 0 [] nb f' bs' d ne h' r' m') h l r m

  -- Where no block has read errors, the blocks on the way are not free, and more blocks are free
  -- than the way has indirect blocks, UNIX_bmap with B_WRITE returns a block for every position.
  -- The block is not free. The way of the position then leads to it, as the reading of the tree
  -- describes; and no address that was in the inode or in a block in use has changed.
  pub bmap-Mapped :
      (p : Position) (f : File) (bs : List ℕ)
      → IsPosition p
      → Holds f.volume bs
      → length f.i_addr ≡ 13
      → IsReadyAt f bs (slot p) (indices p)
      → length (indices p) < length bs
      → Mapped error f bs (slot p) (indices p) (bmap error false (number p) f)
  unfolding bmap indirect number IsPosition slot indices IsReady
  bmap-Mapped (direct i) f bs h v l r m =
      let n : leb (2 ^ 31) i ≡ false = ground arith in
      let t : ltb i 10 ≡ true = ground arith in
      rw (n, t)
        (Mapped-rablock f bs i [] _ (
          fetch-Mapped 0 i [] (read_ahead i) (record f { rablock = 0 }) bs
            (λ nb f' bs' ne h' r' m'.
              Grown-here error f' bs' nb (ltb i 9) (get_or f'.i_addr (i + 1) 0) ne h' r')
            v (omega (arith, h)) r m))
  bmap-Mapped (single i) f bs h v l r m =
      let n : leb (2 ^ 31) (10 + i) ≡ false = ground arith in
      let t : ltb (10 + i) 10 ≡ false = ground arith in
      let s : 10 + i - 10 ≡ i = omega arith in
      rw (n, t, s, find-single i h)
        (Mapped-rablock f bs 10 (i ∷ []) _ (
          walk-Mapped 10 (record f { rablock = 0 }) bs (single-Digits i h) v (omega arith) r
            (omega arith)))
  bmap-Mapped (double i j) f bs (h, k) v l r m =
      let n : leb (2 ^ 31) (10 + 128 + (128 * i + j)) ≡ false = ground arith in
      let t : ltb (10 + 128 + (128 * i + j)) 10 ≡ false = ground arith in
      let s : 10 + 128 + (128 * i + j) - 10 ≡ 128 + (128 * i + j) = omega arith in
      rw (n, t, s, find-double i j h k)
        (Mapped-rablock f bs 11 (i ∷ j ∷ []) _ (
          walk-Mapped 11 (record f { rablock = 0 }) bs (double-Digits i j h k) v (omega arith) r
            (omega arith)))
  bmap-Mapped (triple i j k) f bs (h, o, q) v l r m =
      let x = 16384 * i + 128 * j + k in
      let n : leb (2 ^ 31) (10 + 128 + 16384 + x) ≡ false = ground arith in
      let t : ltb (10 + 128 + 16384 + x) 10 ≡ false = ground arith in
      let s : 10 + 128 + 16384 + x - 10 ≡ 128 + 16384 + x = omega arith in
      rw (n, t, s, find-triple i j k h o q)
        (Mapped-rablock f bs 12 (i ∷ j ∷ k ∷ []) _ (
          walk-Mapped 12 (record f { rablock = 0 }) bs (triple-Digits i j k h o q) v (omega arith) r
            (omega arith)))

  -- Under the same conditions, reading the number afterwards returns the block that writing returned,
  -- and changes nothing but `rablock`.
  bmap-bmap :
      (p : Position) (f : File) (bs : List ℕ)
      → IsPosition p
      → Holds f.volume bs
      → length f.i_addr ≡ 13
      → IsReadyAt f bs (slot p) (indices p)
      → length (indices p) < length bs
      → (b : ℕ) × (f' : File) × (ra : ℕ) × (bmap error false (number p) f ≡ done (block_at b, f'))
        × (bmap error true (number p) f' ≡ done (block_at b, record f' { rablock = ra }))
  bmap-bmap p f bs h v l r m =
      let g = bmap-Mapped p f bs h v l r m in
      let (ra, eq) = bmap-follow error p g.after h in
      (
        g.found,
        g.after,
        ra,
        g.equation,
        eq ∙ ap (λ a. done (a, with_error a (record (g.after) { rablock = ra }))) g.leads,
      )
