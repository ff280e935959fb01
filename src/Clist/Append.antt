-- ===== src/Clist/Append.antt =====
-- A character behind those that a list holds: in its last block, or on the first free block.
-- The steps that putc and b_to_q share.
use hostable_32v.Prelude.{
  ℕ, ◌+◌, ◌-◌, ◌%◌, ◌≡◌, ◌≢◌, refl, true, false, List, [], ◌∷◌, ◌++◌, arith, ◌==◌, subst,
  length-append, ap,
}
use hostable_32v.Clist.{Pool, update}
use hostable_32v.Clist.Chain.{
  has, IsIn, Run, last, FreeFrom, Frame, Run-frame, FreeFrom-frame, Run-end, block_unique,
}
use hostable_32v.Clist.Snoc.{Run-snoc_new, has-snoc, Run-snoc, first-IsIn}

-- `c` is put on the first free block; before that, the block that ends at `cl` is made to point to
-- it.
abbrev pub start_on : Pool → ℕ → Pool
start_on m c = record m {
  c_next = update m.c_next m.cfreelist 0;
  c_info = update m.c_info (m.cfreelist + 4) c;
  cfreelist = m.c_next m.cfreelist;
}

abbrev pub extend_on : Pool → ℕ → ℕ → Pool
extend_on m cl c = start_on (record m { c_next = update m.c_next (cl - 16) m.cfreelist }) c

-- A list that holds characters, but for its count: `Run` with the free blocks.
pub record Filled (m : Pool) (cl p : ℕ) (bs fs xs : List ℕ) : Type 0 where
  pub run : Run m cl p bs xs
  pub free : FreeFrom m m.cfreelist fs
  pub apart : (a : ℕ) → has a bs ≡ true → has a fs ≡ false

-- The first free block is linked behind the blocks of the list and holds the character.
module _ (m : Pool) (c f : ℕ) (bs fs : List ℕ) (free : FreeFrom m m.cfreelist (f ∷ fs))
    (apart : (a : ℕ) → has a bs ≡ true → has a (f ∷ fs) ≡ false) (m' : Pool)
    (next' : (a : ℕ) → has a fs ≡ true → m'.c_next a ≡ m.c_next a)
    (head' : m'.cfreelist ≡ m.c_next f)
    (other : (a : ℕ) → has a bs ≡ false → a ≢ f → m'.c_next a ≡ m.c_next a)
    (info' : (a : ℕ) → a ≢ f + 4 → m'.c_info a ≡ m.c_info a) where
  IsIn-first : IsIn f (f + 4)
  IsIn-first = record { block = free.1; from = omega arith; to = omega arith }

  FreeFrom-take : FreeFrom m' m'.cfreelist fs
  FreeFrom-take = rw head' (FreeFrom-frame m m' (m.c_next f) fs free.3 next')

  apart-take : (a : ℕ) → has a (bs ++ (f ∷ [])) ≡ true → has a fs ≡ false
  apart-take a h = ground (arith, has-snoc a f bs, apart a, free.2)

  Frame-take : Frame m bs (f ∷ fs) m' (bs ++ (f ∷ [])) fs
  Frame-take = record {
    same_blocks = λ a. ground (arith, has-snoc a f bs);
    as_many = omega (arith, length-append bs (f ∷ []));
    next_kept = λ a h k. other a h (ground arith);
    info_kept =
        λ b p i h k. info' p (λ e. ground (arith, block_unique {c = f} i (rw e IsIn-first), k));
  }

  not_first : has f bs ≡ false
  not_first = ground (arith, apart f)

pub push_first :
    (m : Pool) (c f : ℕ) (fs : List ℕ)
    → FreeFrom m m.cfreelist (f ∷ fs)
    → Filled (start_on m c) (m.cfreelist + 4 + 1) (m.cfreelist + 4) (f ∷ []) fs (c ∷ [])
      × Frame m [] (f ∷ fs) (start_on m c) (f ∷ []) fs
push_first m c f fs free = (
  record {
    run =
        last {p = m.cfreelist + 4} {x = c}
          (record { block = free.1; from = omega (arith, free.0); to = omega (arith, free.0) })
          (unfold update in ground arith) (omega arith);
    free = FreeFrom-take m c f [] fs free (λ a h. cc) m' kept head other info;
    apart = apart-take m c f [] fs free (λ a h. cc) m' kept head other info;
  },
  Frame-take m c f [] fs free (λ a h. cc) m' kept head other info,
)
  where
    m' : Pool
    m' = start_on m c

    kept : (a : ℕ) → has a fs ≡ true → m'.c_next a ≡ m.c_next a
    kept a h = unfold update in ground (arith, free.0, free.2)

    head : m'.cfreelist ≡ m.c_next f
    head = ap m.c_next free.0

    other : (a : ℕ) → has a [] ≡ false → a ≢ f → m'.c_next a ≡ m.c_next a
    other a h ne = unfold update in ground (arith, free.0)

    info : (a : ℕ) → a ≢ f + 4 → m'.c_info a ≡ m.c_info a
    info a ne = unfold update in ground (arith, free.0)

pub push_room :
    {m : Pool} {cl p : ℕ} {bs fs xs : List ℕ} (c : ℕ)
    → Filled m cl p bs fs xs
    → cl % 16 ≢ 0
    → let m' : Pool = record m { c_info = update m.c_info cl c } in
      Filled m' (cl + 1) p bs fs (xs ++ (c ∷ [])) × Frame m bs fs m' bs fs
push_room {m} {cl} {p} {bs} {fs} c h z = (
  record {
    run = Run-snoc c h.run z;
    free = FreeFrom-frame m m' m.cfreelist fs h.free (λ b e. refl);
    apart = h.apart;
  },
  record { same_blocks = λ a. refl; as_many = refl; next_kept = λ a e k. refl; info_kept = kept },
)
  where
    m' : Pool
    m' = record m { c_info = update m.c_info cl c }

    kept :
        (b a : ℕ)
        → IsIn b a
        → has b bs ≡ false
        → has b fs ≡ false
        → update m.c_info cl c a ≡ m.c_info a
    kept b a i e k =
        let (b', i', h', pos, f) = Run-end h.run in
        let j : IsIn b' cl = record {
          block = i'.block;
          from = omega (arith, i'.from);
          to = omega (arith, i'.to, i'.block.aligned);
        } in
        let ne : a ≢ cl = λ eq. ground (arith, block_unique {c = b'} i (rw eq j), h', e) in
        unfold update in ground (arith, ne)

pub push_new :
    {m : Pool} {cl p f : ℕ} {bs fs xs : List ℕ} (c : ℕ)
    → Filled m cl p bs (f ∷ fs) xs
    → cl % 16 ≡ 0
    → Filled (extend_on m cl c) (m.cfreelist + 4 + 1) p (bs ++ (f ∷ [])) fs (xs ++ (c ∷ []))
      × Frame m bs (f ∷ fs) (extend_on m cl c) (bs ++ (f ∷ [])) fs
push_new {m} {cl} {p} {f} {bs} {fs} {xs} c h z = (
  record {
    run =
        subst (λ k. Run m' k p (bs ++ (f ∷ [])) (xs ++ (c ∷ []))) (omega (arith, h.free.0))
          (Run-snoc_new f c h.free.1 z linked put h.run
            (not_first m c f bs fs h.free h.apart m' kept head other info) info_run next_run);
    free = FreeFrom-take m c f bs fs h.free h.apart m' kept head other info;
    apart = apart-take m c f bs fs h.free h.apart m' kept head other info;
  },
  Frame-take m c f bs fs h.free h.apart m' kept head other info,
)
  where
    m' : Pool
    m' = extend_on m cl c

    -- the last block
    at_end : (b : ℕ) × (cl ≡ b + 16) × (has b bs ≡ true)
    at_end =
        let (b, i, e, pos, g) = Run-end h.run in
        (b, omega (arith, i.from, i.to, i.block.aligned), e)

    linked : m'.c_next (cl - 16) ≡ f
    linked = unfold update in ground (arith, h.free.0, at_end.1, at_end.2, h.apart at_end.0)

    put : m'.c_info (f + 4) ≡ c
    put = unfold update in ground (arith, h.free.0)

    kept : (a : ℕ) → has a fs ≡ true → m'.c_next a ≡ m.c_next a
    kept a e =
        unfold update in ground (arith, h.free.0, h.free.2, at_end.1, at_end.2, h.apart at_end.0)

    head : m'.cfreelist ≡ m.c_next f
    head = unfold update in ground (arith, h.free.0, at_end.1, at_end.2, h.apart at_end.0)

    other : (a : ℕ) → has a bs ≡ false → a ≢ f → m'.c_next a ≡ m.c_next a
    other a e ne = unfold update in ground (arith, h.free.0, at_end.1, at_end.2)

    info : (a : ℕ) → a ≢ f + 4 → m'.c_info a ≡ m.c_info a
    info a ne = unfold update in ground (arith, h.free.0)

    info_run : (b a : ℕ) → IsIn b a → has b bs ≡ true → m'.c_info a ≡ m.c_info a
    info_run b a i e =
        info a λ eq. ground (arith, h.apart b, block_unique {c = f} i (rw eq (first-IsIn h.free.1)))

    next_run : (b : ℕ) → has b bs ≡ true → b + 16 ≢ cl → m'.c_next b ≡ m.c_next b
    next_run b e ne = unfold update in ground (arith, h.free.0, h.apart b, at_end.1)

-- Where the last block is full and no block is free, only its pointer is written.
pub Filled-full :
    (m : Pool) (cl cf : ℕ) (bs xs : List ℕ)
    → cl % 16 ≡ 0
    → Filled m cl cf bs [] xs
    → Filled (record m { c_next = update m.c_next (cl - 16) m.cfreelist }) cl cf bs [] xs
Filled-full m cl cf bs xs full h = record {
  run = Run-frame h.run (λ b a i e. refl) next;
  free = h.free;
  apart = h.apart;
}
  where
    next :
        (b : ℕ)
        → has b bs ≡ true
        → b + 16 ≢ cl
        → update m.c_next (cl - 16) m.cfreelist b ≡ m.c_next b
    next b e ne =
        let (b', i, e', pos, g) = Run-end h.run in unfold update in ground (arith, i.from, full)

pub Frame-full :
    (m : Pool) (cl cf : ℕ) (bs xs : List ℕ)
    → cl % 16 ≡ 0
    → Filled m cl cf bs [] xs
    → Frame m bs [] (record m { c_next = update m.c_next (cl - 16) m.cfreelist }) bs []
Frame-full m cl cf bs xs full h = record {
  same_blocks = λ a. refl;
  as_many = refl;
  next_kept = next;
  info_kept = λ b p i e k. refl;
}
  where
    next :
        (a : ℕ)
        → has a bs ≡ false
        → has a [] ≡ false
        → update m.c_next (cl - 16) m.cfreelist a ≡ m.c_next a
    next a e k =
        let (b', i, e', pos, g) = Run-end h.run in
        unfold update in ground (arith, i.from, i.to, i.block.aligned, full)

pub cl-set : {m : Pool} {cl p : ℕ} {bs xs : List ℕ} → Run m cl p bs xs → (cl == 0) ≡ false
cl-set r = let (b, i, e, pos, g) = Run-end r in ground (arith, pos)
