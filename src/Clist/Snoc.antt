-- ===== src/Clist/Snoc.antt =====
-- A character is added behind a run of blocks.
use hostable_32v.Prelude.{
  ℕ, ◌+◌, ◌-◌, ◌%◌, ◌≡◌, ◌≢◌, true, false, ◌||◌, List, [], ◌∷◌, ◌++◌, arith, ◌==◌, ◌∙◌, sym, ap,
}
use hostable_32v.Clist.{Pool, update}
use hostable_32v.Clist.Chain.{
  has, IsBlock, IsIn, Run, last, within, across, Run-end, block_unique, Run-across-ne,
}

pub has-snoc : (a f : ℕ) (bs : List ℕ) → has a (bs ++ (f ∷ [])) ≡ (has a bs || (a == f))
has-snoc a f [] = ground arith
has-snoc a f (b ∷ bs) = ground (arith, has-snoc a f bs)

-- The end of a run that is not at the end of a block lies in the last block, behind the run.
pub Run-end-ne :
    {m : Pool} {cl p b : ℕ} {bs xs : List ℕ} → Run m cl p bs xs → cl % 16 ≢ 0 → IsIn b p → p ≢ cl
Run-end-ne {cl} {b} r z i e =
    let (b', i', h, pos, f) = Run-end r in
    let j : IsIn b' cl = record {
      block = i'.block;
      from = omega (arith, i'.from);
      to = omega (arith, i'.to, i'.block.aligned);
    } in
    let i'' : IsIn b cl = rw (← e) i in omega (arith, f b i (block_unique i'' j))

-- A character is added behind a run whose last block has room.
pub Run-snoc :
    {m : Pool} {cl p : ℕ} {bs xs : List ℕ} (c : ℕ)
    → Run m cl p bs xs
    → cl % 16 ≢ 0
    → Run (record m { c_info = update m.c_info cl c }) (cl + 1) p bs (xs ++ (c ∷ []))
unfolding update
Run-snoc {m} {cl} c (last {p} {b} {x} i e l) z =
    within i (ground arith) (omega (arith, i.to, i.block.aligned)) (
      last
        (record {
          block = i.block;
          from = omega (arith, i.from);
          to = omega (arith, i.to, i.block.aligned);
        })
        (ground arith) (omega arith))
Run-snoc {m} {cl} c (within {p} {b} i e s r) z =
    within i (ground (arith, Run-end-ne (within i e s r) z i)) s (Run-snoc c r z)
Run-snoc {m} {cl} c (across {p} {b} i e s d r) z =
    across i (ground (arith, Run-end-ne (across i e s d r) z i)) s d (Run-snoc c r z)

-- One character at the start of a block.
pub Run-one :
    {m : Pool} (f c : ℕ)
    → IsBlock f
    → m.c_info (f + 4) ≡ c
    → Run m (f + 5) (f + 4) (f ∷ []) (c ∷ [])
Run-one f c blk put =
    last (record { block = blk; from = omega arith; to = omega arith }) put (omega arith)

-- A character is added behind a run whose last block is full, on the block `f` that is linked in.
module _ {m m' : Pool} {cl : ℕ} (f c : ℕ) (blk : IsBlock f) (full : cl % 16 ≡ 0)
    (linked : m'.c_next (cl - 16) ≡ f) (put : m'.c_info (f + 4) ≡ c) where
  pub Run-snoc_new :
      {p : ℕ} {bs xs : List ℕ}
      → Run m cl p bs xs
      → has f bs ≡ false
      → ((b a : ℕ) → IsIn b a → has b bs ≡ true → m'.c_info a ≡ m.c_info a)
      → ((b : ℕ) → has b bs ≡ true → b + 16 ≢ cl → m'.c_next b ≡ m.c_next b)
      → Run m' (f + 5) p (bs ++ (f ∷ [])) (xs ++ (c ∷ []))
  Run-snoc_new (last {p} {b} {x} i e l) n info next =
      let at : cl - 16 ≡ b = omega (arith, i.from, i.to, i.block.aligned) in
      across {bs = f ∷ []} {xs = c ∷ []} i (info b p i (ground arith) ∙ e)
        (omega (arith, i.from, i.to, i.block.aligned)) (ground arith)
        (rw (ap m'.c_next (sym at) ∙ linked) (Run-one f c blk put))
  Run-snoc_new (within {p} {b} i e s r) n info next =
      within i (info b p i (ground arith) ∙ e) s (Run-snoc_new r n info next)
  Run-snoc_new (across {p} {b} {bs} {xs} i e s d r) n info next =
      across {bs = bs ++ (f ∷ [])} {xs = xs ++ (c ∷ [])} i (info b p i (ground arith) ∙ e) s
        (ground (arith, has-snoc b f bs))
        (rw (next b (ground arith) (Run-across-ne i s d r)) (
          Run-snoc_new r (ground arith) (λ b' a i' h. info b' a i' (ground arith))
            (λ b' h. next b' (ground arith))))

pub first-IsIn : {f : ℕ} → IsBlock f → IsIn f (f + 4)
first-IsIn blk = record { block = blk; from = omega arith; to = omega arith }
