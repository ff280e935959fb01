-- ===== src/Clist/Chain.antt =====
-- What a character list and the pool hold: the blocks of a list, the characters on them in order,
-- and the chain of free blocks.
use hostable_32v.Prelude.{
  ℕ, suc, ◌+◌, ◌-◌, ◌%◌, ◌≤◌, ◌<◌, ◌≡◌, ◌≢◌, refl, Bool, true, false, ◌||◌, List, [], ◌∷◌, arith,
  ◌==◌, length, ◌∙◌,
}
use hostable_32v.Clist.{Clist, Pool}

abbrev pub has : ℕ → List ℕ → Bool
has a [] = false
has a (b ∷ bs) = (a == b) || has a bs

-- The address of a cblock.
pub record IsBlock (b : ℕ) : Type 0 where
  pub not_null : 0 < b
  pub aligned : b % 16 ≡ 0

-- `p` points at a character of block `b`.
pub record IsIn (b p : ℕ) : Type 0 where
  pub block : IsBlock b
  pub from : b + 4 ≤ p
  pub to : p < b + 16

-- From `p` on, the blocks `bs` hold the characters `xs`, the last of them just before `cl`.
pub data Run (m : Pool) (cl : ℕ) : ℕ → List ℕ → List ℕ → Type 0 where
  last : {p b x : ℕ} → IsIn b p → m.c_info p ≡ x → cl ≡ suc p → Run m cl p (b ∷ []) (x ∷ [])
  within :
      {p b x : ℕ} {bs xs : List ℕ}
      → IsIn b p
      → m.c_info p ≡ x
      → suc p < b + 16
      → Run m cl (suc p) (b ∷ bs) xs
      → Run m cl p (b ∷ bs) (x ∷ xs)
  across :
      {p b x : ℕ} {bs xs : List ℕ}
      → IsIn b p
      → m.c_info p ≡ x
      → suc p ≡ b + 16
      → has b bs ≡ false
      → Run m cl (m.c_next b + 4) bs xs
      → Run m cl p (b ∷ bs) (x ∷ xs)

-- A list that holds nothing has no block, and its `c_cl` is NULL.
pub data Shape (m : Pool) (q : Clist) : List ℕ → List ℕ → Type 0 where
  empty : q.c_cl ≡ 0 → Shape m q [] []
  filled : {bs xs : List ℕ} → Run m q.c_cl q.c_cf bs xs → Shape m q bs xs

-- The chain of free blocks from `p` on.
abbrev pub FreeFrom : Pool → ℕ → List ℕ → Type 0
FreeFrom m p [] = p ≡ 0
FreeFrom m p (f ∷ fs) = (p ≡ f) × IsBlock f × (has f fs ≡ false) × FreeFrom m (m.c_next f) fs

-- The list holds the characters `xs` on the blocks `bs`, and `fs` are the free blocks.
pub record Holds (m : Pool) (q : Clist) (bs fs xs : List ℕ) : Type 0 where
  pub shape : Shape m q bs xs
  pub count : q.c_cc ≡ length xs
  pub free : FreeFrom m m.cfreelist fs
  pub apart : (a : ℕ) → has a bs ≡ true → has a fs ≡ false

-- An operation on the blocks `bs` and `fs` has left as many, the same ones, and has not written to
-- any other block.
pub record Frame (m : Pool) (bs fs : List ℕ) (m' : Pool) (bs' fs' : List ℕ) : Type 0 where
  pub same_blocks : (a : ℕ) → (has a bs' || has a fs') ≡ (has a bs || has a fs)
  pub as_many : length bs' + length fs' ≡ length bs + length fs
  pub next_kept : (a : ℕ) → has a bs ≡ false → has a fs ≡ false → m'.c_next a ≡ m.c_next a
  pub info_kept :
      (b p : ℕ) → IsIn b p → has b bs ≡ false → has b fs ≡ false → m'.c_info p ≡ m.c_info p

pub block_unique : {b c p : ℕ} → IsIn b p → IsIn c p → b ≡ c
block_unique i j = omega (arith, i.from, i.to, i.block.aligned, j.from, j.to, j.block.aligned)

module _ {m : Pool} {cl : ℕ} where
  -- The block of the last character is among the blocks, and in that block the characters end at
  -- `cl`.
  pub Run-end :
      {p : ℕ} {bs xs : List ℕ}
      → Run m cl p bs xs
      → (b : ℕ) × IsIn b (cl - 1)
        × (has b bs ≡ true)
        × (0 < cl)
        × ((c : ℕ) → IsIn c p → c ≡ b → p < cl)
  Run-end (last {p} {b} i e l) = (
    b,
    record { block = i.block; from = omega (arith, i.from); to = omega (arith, i.to) },
    ground arith,
    omega arith,
    λ c ic eq. omega arith,
  )
  Run-end (within {p} {b} i e s r) =
      let (b', i', h, pos, f) = Run-end r in
      (
        b',
        i',
        h,
        pos,
        λ c ic eq.
            let j : IsIn b (suc p) = record {
              block = i.block;
              from = omega (arith, i.from);
              to = s;
            } in
            omega (arith, f b j (block_unique i ic ∙ eq)),
      )
  Run-end (across {p} {b} i e s d r) =
      let (b', i', h, pos, f) = Run-end r in
      (b', i', ground arith, pos, λ c ic eq. absurd (ground (arith, block_unique i ic, h, d)))

  pub Run-nonempty : {p : ℕ} {bs : List ℕ} → Run m cl p bs [] → ⊥
  Run-nonempty r = go r refl
    where
      go : {p : ℕ} {bs xs : List ℕ} → Run m cl p bs xs → xs ≡ [] → ⊥
      go (last i e l) h = cc
      go (within i e s r) h = cc
      go (across i e s d r) h = cc

  -- The last block ends at `cl` or holds it, and no other block does.
  pub Run-across-ne :
      {p b : ℕ} {bs xs : List ℕ}
      → IsIn b p
      → suc p ≡ b + 16
      → has b bs ≡ false
      → Run m cl (m.c_next b + 4) bs xs
      → b + 16 ≢ cl
  Run-across-ne {p} {b} i s d r e =
      let (b', i', h, pos, f) = Run-end r in
      let j : IsIn b (cl - 1) = record {
        block = i.block;
        from = omega (arith, i.from);
        to = omega arith;
      } in
      ground (arith, block_unique j i', h, d)

  -- A run keeps what it holds where its blocks are as they were, but for the pointer of a last
  -- block that is full.
  pub Run-frame :
      {m' : Pool} {p : ℕ} {bs xs : List ℕ}
      → Run m cl p bs xs
      → ((b a : ℕ) → IsIn b a → has b bs ≡ true → m'.c_info a ≡ m.c_info a)
      → ((b : ℕ) → has b bs ≡ true → b + 16 ≢ cl → m'.c_next b ≡ m.c_next b)
      → Run m' cl p bs xs
  Run-frame (last {p} {b} i e l) info next = last i (info b p i (ground arith) ∙ e) l
  Run-frame (within {p} {b} i e s r) info next =
      within i (info b p i (ground arith) ∙ e) s (Run-frame r info next)
  Run-frame {m'} (across {p} {b} {bs} {xs} i e s d r) info next =
      across i (info b p i (ground arith) ∙ e) s d (
        rw (next b (ground arith) (Run-across-ne i s d r))
          (Run-frame r (λ b' a i' h. info b' a i' (ground arith)) (λ b' h. next b' (ground arith))))

-- The chain of free blocks is kept where its blocks' pointers are.
pub FreeFrom-frame :
    (m m' : Pool) (p : ℕ) (fs : List ℕ)
    → FreeFrom m p fs
    → ((b : ℕ) → has b fs ≡ true → m'.c_next b ≡ m.c_next b)
    → FreeFrom m' p fs
FreeFrom-frame m m' p [] z next = z
FreeFrom-frame m m' p (f ∷ fs) (e, blk, d, r) next = (
  e,
  blk,
  d,
  rw (next f (ground arith)) (FreeFrom-frame m m' (m.c_next f) fs r λ b h. next b (ground arith)),
)
