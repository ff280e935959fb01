-- ===== src/BlockMap/Grow.antt =====
-- One step of UNIX_bmap for B_WRITE on the way to a block: an address is there, or a block is
-- supplied and entered.
use hostable_32v.Prelude.{
  ℕ, zero, suc, ◌<◌, ◌≡◌, ◌≢◌, refl, Bool, true, false, List, [], ◌∷◌, arith, ◌==◌, Option, length,
  get_or, set, replicate, ◌∙◌, ap, ◌⊎◌, inl, if◌then◌else◌, get_or-set_self, get_or-set_ne,
  length-replicate, sym, ℕ_discrete,
}
use hostable_32v.FreeBlocks.{Volume, Ran, done, write, alloc}
use hostable_32v.FreeBlocks.Chain.{has, Chain, next, link, Holds, Chain-write}
use hostable_32v.FreeBlocks.Alloc.{Allocated}
use hostable_32v.BlockMap.{File, Answer, block_at}
use hostable_32v.BlockMap.Position.{follow}

-- None of the blocks that are on the way is free, and the indirect ones hold 128 addresses each.
unfoldable pub IsReady : (ℕ → List ℕ) → List ℕ → ℕ → List ℕ → Type 0
IsReady block bs nb [] = has nb bs ≡ false
IsReady block bs nb (i ∷ is) =
    (has nb bs ≡ false)
    × (length (block nb) ≡ 128)
    × ((get_or (block nb) i 0 ≡ 0) ⊎ IsReady block bs (get_or (block nb) i 0) is)

-- The block that the way from `nb` on now leads to. What was an address stays the same address,
-- outside the blocks that were free.
pub record Grown (error : ℕ → Bool) (f : File) (bs : List ℕ) (nb : ℕ) (is : List ℕ)
    (r : Ran (Answer × File)) : Type 0 where
  pub found : ℕ
  pub after : File
  pub rest : List ℕ
  pub equation : r ≡ done (block_at found, after)
  pub leads : follow error after.volume.block nb is ≡ block_at found
  pub holds : Holds after.volume rest
  pub used : has found rest ≡ false
  pub addresses : after.i_addr ≡ f.i_addr
  pub kept :
      (a j : ℕ)
      → has a bs ≡ false
      → get_or (f.volume.block a) j 0 ≢ 0
      → get_or (after.volume.block a) j 0 ≡ get_or (f.volume.block a) j 0

pub Chain-first :
    {lo hi : ℕ} {block : ℕ → List ℕ} {n : ℕ} {a bs : List ℕ} {b : ℕ}
    → Chain lo hi block n a (b ∷ bs)
    → (b ≢ 0) × (has b bs ≡ false)
Chain-first (next e g d x c) = (d.not_zero, x)
Chain-first (link e g d x w p l len c) = (d.not_zero, x)

get_or-zeros : (n i : ℕ) → let z : ℕ = 0 in get_or (replicate n z) i z ≡ z
get_or-zeros zero i = refl
get_or-zeros (suc n) zero = refl
get_or-zeros (suc n) (suc i) = get_or-zeros n i

-- A block that was just handed out is a leaf, or an indirect block with no address.
pub IsReady-new :
    (v : Volume) (bs : List ℕ) (b : ℕ) (is : List ℕ)
    → has b bs ≡ false
    → v.block b ≡ replicate 128 0
    → IsReady v.block bs b is
unfolding IsReady
IsReady-new v bs b [] x z = x
IsReady-new v bs b (i ∷ is) x z =
    (x, ap length z ∙ length-replicate {A = ℕ} 128 0, inl (rw z (get_or-zeros 128 i)))

pub Grown-here :
    (error : ℕ → Bool) (f : File) (bs : List ℕ) (nb : ℕ) (t : Bool) (ra : ℕ)
    → nb ≢ 0
    → Holds f.volume bs
    → has nb bs ≡ false
    → Grown error f bs nb [] (done (block_at nb, if t then record f { rablock = ra } else f))
unfolding follow
Grown-here error f bs nb true ra ne h x = record {
  found = nb;
  after = record f { rablock = ra };
  rest = bs;
  equation = refl;
  leads = let z : (nb == 0) ≡ false = ground arith in rw z refl;
  holds = h;
  used = x;
  addresses = refl;
  kept = λ a j n o. refl;
}
Grown-here error f bs nb false ra ne h x = record {
  found = nb;
  after = f;
  rest = bs;
  equation = refl;
  leads = let z : (nb == 0) ≡ false = ground arith in rw z refl;
  holds = h;
  used = x;
  addresses = refl;
  kept = λ a j n o. refl;
}

write_self : (block : ℕ → List ℕ) (b : ℕ) (ws : List ℕ) → write block b ws b ≡ ws
unfolding write
write_self block b ws = let same : (b == b) ≡ true = ground arith in rw same refl

write_ne : (block : ℕ → List ℕ) (b : ℕ) (ws : List ℕ) (c : ℕ) → c ≢ b → write block b ws c ≡ block c
unfolding write
write_ne block b ws c ne = let other : (c == b) ≡ false = ground arith in rw other refl

unfoldable pub linked : (f : File) (nb i b : ℕ) → Volume → File
linked f nb i b v = record f {
  volume = record v { block = write v.block nb (set (f.volume.block nb) i b) };
}

linked-kept :
    (f : File) (v : Volume) (nb i b c j : ℕ)
    → ((d : ℕ) → d ≢ b → v.block d ≡ f.volume.block d)
    → c ≢ b
    → get_or (f.volume.block nb) i 0 ≡ 0
    → get_or (f.volume.block c) j 0 ≢ 0
    → get_or ((linked f nb i b v).volume.block c) j 0 ≡ get_or (f.volume.block c) j 0
unfolding linked
linked-kept f v nb i b c j others ne hole on = elim (ℕ_discrete c nb) [
  | yes e ↦
      let away : i ≢ j = λ k. on (
        ap (λ d. get_or (f.volume.block d) j 0) e
        ∙ ap (λ d. get_or (f.volume.block nb) d 0) (sym k)
        ∙ hole) in
      ap (λ d. get_or (write v.block nb (set (f.volume.block nb) i b) d) j 0) e
      ∙ ap (λ ws. get_or ws j 0) (write_self v.block nb (set (f.volume.block nb) i b))
      ∙ get_or-set_ne (f.volume.block nb) i j b 0 away
      ∙ ap (λ d. get_or (f.volume.block d) j 0) (sym e)
  | no n ↦
      ap (λ ws. get_or ws j 0) (write_ne v.block nb (set (f.volume.block nb) i b) c n ∙ others c ne)
]

pub linked-Holds :
    (f : File) {b : ℕ} {bs : List ℕ} {r : Ran (Option ℕ × Volume)} (a : Allocated f.volume b bs r)
    (nb i : ℕ)
    → has nb (b ∷ bs) ≡ false
    → Holds (linked f nb i b a.after).volume bs
unfolding linked
linked-Holds f {b} a nb i u = record {
  chain = Chain-write nb (set (f.volume.block nb) i b) (ground arith) a.holds.chain;
  size = a.holds.size;
  count = a.holds.count;
  inodes = a.holds.inodes;
  unlocked = a.holds.unlocked;
}

pub linked-IsReady :
    (f : File) {b : ℕ} {bs : List ℕ} {r : Ran (Option ℕ × Volume)} (a : Allocated f.volume b bs r)
    (nb i : ℕ) (is : List ℕ)
    → has nb (b ∷ bs) ≡ false
    → has b bs ≡ false
    → IsReady (linked f nb i b a.after).volume.block bs b is
unfolding linked
linked-IsReady f {b} {bs} a nb i is u x =
    IsReady-new (linked f nb i b a.after).volume bs b is x
      (write_ne a.after.block nb (set (f.volume.block nb) i b) b (ground arith) ∙ a.cleared)

module _ (error : ℕ → Bool) (fine : (b : ℕ) → error b ≡ false) where
  -- One round finds the address `b` in place.
  pub Grown-on :
      (f : File) (bs : List ℕ) (nb i : ℕ) (is : List ℕ) (r : Ran (Answer × File))
      → nb ≢ 0
      → has nb bs ≡ false
      → get_or (f.volume.block nb) i 0 ≢ 0
      → Grown error f bs (get_or (f.volume.block nb) i 0) is r
      → Grown error f bs nb (i ∷ is) r
  unfolding follow
  Grown-on f bs nb i is r ne x on g = record {
    found = g.found;
    after = g.after;
    rest = g.rest;
    equation = g.equation;
    holds = g.holds;
    used = g.used;
    addresses = g.addresses;
    kept = g.kept;
    leads = let z : (nb == 0) ≡ false = ground arith in rw (z, fine nb, g.kept nb i x on) g.leads;
  }

  -- One round supplies the block `b` and enters it.
  pub Grown-new :
      (f : File) (b : ℕ) (bs : List ℕ) (nb i : ℕ) (is : List ℕ) (r : Ran (Answer × File))
      → (a : Allocated f.volume b bs (alloc error f.volume)) → nb ≢ 0
      → b ≢ 0
      → has nb (b ∷ bs) ≡ false
      → i < length (f.volume.block nb)
      → get_or (f.volume.block nb) i 0 ≡ 0
      → Grown error (linked f nb i b a.after) bs b is r
      → Grown error f (b ∷ bs) nb (i ∷ is) r
  unfolding follow linked
  Grown-new f b bs nb i is r a ne nz x l hole g = record {
    found = g.found;
    after = g.after;
    rest = g.rest;
    equation = g.equation;
    leads =
        let z : (nb == 0) ≡ false = ground arith in
        let here : get_or ((linked f nb i b a.after).volume.block nb) i 0 ≡ b =
          ap (λ ws. get_or ws i 0) (write_self a.after.block nb (set (f.volume.block nb) i b))
          ∙ get_or-set_self (f.volume.block nb) i b 0 l in
        let k : get_or (g.after.volume.block nb) i 0 ≡ b =
          g.kept nb i (ground arith) (λ e. nz (sym here ∙ e)) ∙ here in
        rw (z, fine nb, k) g.leads;
    holds = g.holds;
    used = g.used;
    addresses = g.addresses;
    kept = λ c j y on.
        let e = linked-kept f a.after nb i b c j a.others (ground arith) hole on in
        g.kept c j (ground arith) (λ z. on (sym e ∙ z)) ∙ e;
  }
