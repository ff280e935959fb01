-- ===== src/Terminals/Lists.antt =====
-- The three lists of a terminal share the pool of blocks: what is done to one leaves the others.
use hostable_32v.Prelude.{ℕ, ◌≡◌, refl, true, false, List, [], arith}
use hostable_32v.Clist.{Clist, Pool}
use hostable_32v.Clist.Chain.{has, Holds, Shape, empty, filled, Run-frame, Run-nonempty}
use hostable_32v.Clist.Get.{Leaves}

-- Three lists with their blocks, apart from each other.
pub record Lists (m : Pool) (q r s : Clist) (bs cs ds fs xs ys zs : List ℕ) : Type 0 where
  pub first : Holds m q bs fs xs
  pub second : Holds m r cs fs ys
  pub third : Holds m s ds fs zs
  pub one_two : (a : ℕ) → has a bs ≡ true → has a cs ≡ false
  pub one_three : (a : ℕ) → has a bs ≡ true → has a ds ≡ false
  pub two_three : (a : ℕ) → has a cs ≡ true → has a ds ≡ false

pub Lists-rotate :
    {m : Pool} {q r s : Clist} {bs cs ds fs xs ys zs : List ℕ}
    → Lists m q r s bs cs ds fs xs ys zs
    → Lists m r s q cs ds bs fs ys zs xs
Lists-rotate l = record {
  first = l.second;
  second = l.third;
  third = l.first;
  one_two = l.two_three;
  one_three = λ a h. ground (arith, l.one_two a, h);
  two_three = λ a h. ground (arith, l.one_three a, h);
}

-- A list that an operation on another one does not touch.
Shape-other :
    {m : Pool} {q r : Clist} {bs cs fs xs ys : List ℕ} {m' : Pool}
    → Holds m r cs fs ys
    → ((a : ℕ) → has a bs ≡ true → has a cs ≡ false)
    → (l : Leaves m bs fs xs (m', q)) → Shape m' r cs ys
Shape-other {m} {q} {r} {bs} {cs} {fs} {m'} h d l = go h.shape h.apart d
  where
    go :
        {cs ys : List ℕ}
        → Shape m r cs ys
        → ((a : ℕ) → has a cs ≡ true → has a fs ≡ false)
        → ((a : ℕ) → has a bs ≡ true → has a cs ≡ false)
        → Shape m' r cs ys
    go (empty z) apart d' = empty z
    go (filled run) apart d' = filled (
        Run-frame run (λ b a i t. l.frame.info_kept b a i (ground (arith, d' b, t)) (apart b t))
          (λ b t n. l.frame.next_kept b (ground (arith, d' b, t)) (apart b t)))

Holds-other :
    {m : Pool} {q r : Clist} {bs cs fs xs ys : List ℕ} {m' : Pool}
    → Holds m r cs fs ys
    → ((a : ℕ) → has a bs ≡ true → has a cs ≡ false)
    → (l : Leaves m bs fs xs (m', q)) → Holds m' r cs l.frees ys
Holds-other h d l = record {
  shape = Shape-other h d l;
  count = h.count;
  free = l.holds.free;
  apart = λ a t. ground (arith, l.frame.same_blocks a, d a, h.apart a, t);
}

pub Lists-Leaves :
    {m m' : Pool} {q q' r s : Clist} {bs cs ds fs xs xs' ys zs : List ℕ}
    → Lists m q r s bs cs ds fs xs ys zs
    → (l : Leaves m bs fs xs' (m', q')) → Lists m' q' r s l.blocks cs ds l.frees xs' ys zs
Lists-Leaves lists l = record {
  first = l.holds;
  second = Holds-other lists.second lists.one_two l;
  third = Holds-other lists.third lists.one_three l;
  one_two = λ a h. ground (arith, l.frame.same_blocks a, lists.one_two a, lists.second.apart a, h);
  one_three =
      λ a h. ground (arith, l.frame.same_blocks a, lists.one_three a, lists.third.apart a, h);
  two_three = lists.two_three;
}

-- A list that holds nothing has no blocks.
pub Holds-nil : {m : Pool} {q : Clist} {bs fs : List ℕ} → Holds m q bs fs [] → bs ≡ []
Holds-nil {m} {q} h = go h.shape
  where
    go : {bs : List ℕ} → Shape m q bs [] → bs ≡ []
    go (empty z) = refl
    go (filled run) = absurd (Run-nonempty run)
