-- ===== src/Clist/Get.antt =====
-- UNIX_getc takes the first character, and gives an emptied block back.
use hostable_32v.Prelude.{
  ℕ, suc, ◌+◌, ◌%◌, ◌<◌, ◌≡◌, refl, true, false, List, [], ◌∷◌, arith, ◌==◌, length, some, none,
  sym, subst,
}
use hostable_32v.Clist.{Clist, clist, Pool, update, release, block_of, advance, getc}
use hostable_32v.Clist.Chain.{
  has, IsBlock, IsIn, Run, last, within, across, Shape, empty, filled, FreeFrom, Holds, Frame,
  Run-nonempty, Run-frame, FreeFrom-frame,
}

-- An operation that ends in this pool and list has left the characters `xs`, and has kept to its
-- blocks.
pub record Leaves (m : Pool) (bs fs xs : List ℕ) (r : Pool × Clist) : Type 0 where
  pub blocks : List ℕ
  pub frees : List ℕ
  pub holds : Holds r.0 r.1 blocks frees xs
  pub frame : Frame m bs fs r.0 blocks frees

block_of-IsIn : (b p : ℕ) → IsIn b p → block_of p ≡ b
block_of-IsIn b p i = omega (arith, i.from, i.to, i.block.aligned)

pub Frame-refl : (m : Pool) (bs fs : List ℕ) → Frame m bs fs m bs fs
Frame-refl m bs fs = record {
  same_blocks = λ a. refl;
  as_many = refl;
  next_kept = λ a h k. refl;
  info_kept = λ b p i h k. refl;
}

-- The first block goes over to the free ones.
module _ (m : Pool) (b : ℕ) (bs fs : List ℕ) (blk : IsBlock b) (d : has b bs ≡ false)
    (free : FreeFrom m m.cfreelist fs)
    (apart : (a : ℕ) → has a (b ∷ bs) ≡ true → has a fs ≡ false) where
  kept : (a : ℕ) → has a fs ≡ true → update m.c_next b m.cfreelist a ≡ m.c_next a
  unfolding update
  kept a h = ground (arith, apart a)

  chain_kept : (a : ℕ) → has a bs ≡ true → (release m b).c_next a ≡ m.c_next a
  unfolding update
  chain_kept a h = ground arith

  FreeFrom-release : FreeFrom (release m b) b (b ∷ fs)
  FreeFrom-release = (
    refl,
    blk,
    apart b (ground arith),
    rw head (FreeFrom-frame m (release m b) m.cfreelist fs free kept),
  )
    where
      head : (release m b).c_next b ≡ m.cfreelist
      head = unfold update in ground arith

  Frame-release : Frame m (b ∷ bs) fs (release m b) bs (b ∷ fs)
  unfolding update
  Frame-release = record {
    same_blocks = λ a. ground arith;
    as_many = omega arith;
    next_kept = λ a h k. ground arith;
    info_kept = λ c p i h k. refl;
  }

  apart-release : (a : ℕ) → has a bs ≡ true → has a (b ∷ fs) ≡ false
  apart-release a h = ground (arith, apart a)

module _ (m : Pool) (cl p b k : ℕ) (i : IsIn b p) where
  advance-last : advance m (clist 1 p cl) ≡ (release m b, clist 0 0 0)
  unfolding advance
  advance-last = ground (arith, i.from, i.to, i.block.aligned)

  advance-across :
      suc p ≡ b + 16
      → advance m (clist (suc (suc k)) p cl) ≡ (release m b, clist (suc k) (m.c_next b + 4) cl)
  unfolding advance
  advance-across s = ground (arith, i.block.aligned)

  advance-within :
      suc p < b + 16 → advance m (clist (suc (suc k)) p cl) ≡ (m, clist (suc k) (suc p) cl)
  unfolding advance
  advance-within s = ground (arith, i.from, i.block.aligned)

advance-Run :
    (m : Pool) (cl : ℕ) {p x : ℕ} {bs xs : List ℕ} (fs : List ℕ)
    → Run m cl p bs (x ∷ xs)
    → FreeFrom m m.cfreelist fs
    → ((a : ℕ) → has a bs ≡ true → has a fs ≡ false)
    → (m.c_info p ≡ x) × Leaves m bs fs xs (advance m (clist (suc (length xs)) p cl))
advance-Run m cl {p} fs (last {b} i e l) free apart = (
  e,
  rw (advance-last m cl p b 0 i) (record {
    blocks = [];
    frees = b ∷ fs;
    holds = record {
      shape = empty refl;
      count = refl;
      free = FreeFrom-release m b [] fs i.block refl free apart;
      apart = λ a h. cc;
    };
    frame = Frame-release m b [] fs i.block refl free apart;
  }),
)
advance-Run m cl fs (within {xs = []} i e s r) free apart = absurd (Run-nonempty r)
advance-Run m cl {p} fs (within {b} {bs} {xs = y ∷ ys} i e s r) free apart = (
  e,
  rw (advance-within m cl p b (length ys) i s) (record {
    blocks = b ∷ bs;
    frees = fs;
    holds = record { shape = filled r; count = refl; free = free; apart = apart };
    frame = Frame-refl m (b ∷ bs) fs;
  }),
)
advance-Run m cl fs (across {xs = []} i e s d r) free apart = absurd (Run-nonempty r)
advance-Run m cl {p} fs (across {b} {bs} {xs = y ∷ ys} i e s d r) free apart = (
  e,
  rw (advance-across m cl p b (length ys) i s) (record {
    blocks = bs;
    frees = b ∷ fs;
    holds = record {
      shape =
          filled (
            Run-frame r (λ c a j h. refl)
              (λ c h ne. chain_kept m b bs fs i.block d free apart c h));
      count = refl;
      free = FreeFrom-release m b bs fs i.block d free apart;
      apart = apart-release m b bs fs i.block d free apart;
    };
    frame = Frame-release m b bs fs i.block d free apart;
  }),
)

Shape-Run :
    {m : Pool} {q : Clist} {bs xs : List ℕ} {x : ℕ}
    → Shape m q bs (x ∷ xs)
    → Run m q.c_cl q.c_cf bs (x ∷ xs)
Shape-Run (filled r) = r

-- The step that getc and q_to_b share.
pub advance_lem :
    {m : Pool} {q : Clist} {bs fs xs : List ℕ} {x : ℕ}
    → Holds m q bs fs (x ∷ xs)
    → (m.c_info q.c_cf ≡ x) × Leaves m bs fs xs (advance m q)
advance_lem {m} {q} {bs} {fs} {xs} {x} h =
    subst (λ n. (m.c_info q.c_cf ≡ x) × Leaves m bs fs xs (advance m (clist n q.c_cf q.c_cl)))
      (sym h.count) (advance-Run m q.c_cl fs (Shape-Run h.shape) h.free h.apart)

-- From a list that holds characters getc takes the first one. The others stay, in order; the
-- blocks of the list and the free ones are the same ones together as before, and nothing was
-- written outside them.
pub getc-cons :
    {m : Pool} {q : Clist} {bs fs xs : List ℕ} {x : ℕ}
    → Holds m q bs fs (x ∷ xs)
    → let (c, m', q') = getc m q in (c ≡ some (x % 256)) × Leaves m bs fs xs (m', q')
unfolding getc
getc-cons {m} {q} h =
    let (first, rest) = advance_lem h in
    let n : (q.c_cc == 0) ≡ false = ground (arith, h.count) in rw n (rw first refl, rest)

-- From an empty list it takes nothing, and the list stays empty.
pub getc-nil :
    {m : Pool} {q : Clist} {bs fs : List ℕ}
    → Holds m q bs fs []
    → let (c, m', q') = getc m q in (c ≡ none) × (m' ≡ m) × Holds m' q' [] fs []
unfolding getc
getc-nil {m} {q} h =
    let n : (q.c_cc == 0) ≡ true = ground (arith, h.count) in
    rw n (refl, refl, record { shape = empty refl; count = refl; free = h.free; apart = λ a e. cc })
