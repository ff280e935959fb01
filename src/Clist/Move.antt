-- ===== src/Clist/Move.antt =====
-- UNIX_q_to_b: many characters at once, from a list to a buffer.
use hostable_32v.Prelude.{
  ℕ, zero, suc, ◌≡◌, refl, true, false, List, [], ◌∷◌, arith, ◌==◌, ◌∙◌, ap, take, drop,
  ==-suc_zero,
}
use hostable_32v.Clist.{Clist, clist, Pool, advance, q_to_b_loop, q_to_b}
use hostable_32v.Clist.Chain.{Shape, empty, filled, Holds, Frame, Run-nonempty}
use hostable_32v.Clist.Get.{Leaves, Frame-refl, advance_lem}

pub Frame-trans :
    {m m' m'' : Pool} {bs fs bs' fs' bs'' fs'' : List ℕ}
    → Frame m bs fs m' bs' fs'
    → Frame m' bs' fs' m'' bs'' fs''
    → Frame m bs fs m'' bs'' fs''
Frame-trans f g = record {
  same_blocks = λ a. g.same_blocks a ∙ f.same_blocks a;
  as_many = g.as_many ∙ f.as_many;
  next_kept = λ a h k.
      g.next_kept a (ground (arith, f.same_blocks a)) (ground (arith, f.same_blocks a))
      ∙ f.next_kept a h k;
  info_kept = λ b p i h k.
      g.info_kept b p i (ground (arith, f.same_blocks b)) (ground (arith, f.same_blocks b))
      ∙ f.info_kept b p i h k;
}

pub Leaves-trans :
    {m : Pool} {bs fs xs ys : List ℕ} {r r' : Pool × Clist}
    → (l : Leaves m bs fs xs r) → Leaves r.0 l.blocks l.frees ys r'
    → Leaves m bs fs ys r'
Leaves-trans l k = record {
  blocks = k.blocks;
  frees = k.frees;
  holds = k.holds;
  frame = Frame-trans l.frame k.frame;
}

take-nil : (n : ℕ) → take {A = ℕ} n [] ≡ []
take-nil zero = refl
take-nil (suc n) = refl

drop-nil : (n : ℕ) → drop {A = ℕ} n [] ≡ []
drop-nil zero = refl
drop-nil (suc n) = refl

q_to_b_loop_lem :
    (n : ℕ) {m : Pool} {q : Clist} {bs fs : List ℕ} (x : ℕ) (xs : List ℕ)
    → Holds m q bs fs (x ∷ xs)
    → let (cs, m', q') = q_to_b_loop n m q in
      (cs ≡ take n (x ∷ xs)) × Leaves m bs fs (drop n (x ∷ xs)) (m', q')
unfolding q_to_b_loop
q_to_b_loop_lem zero {m} {bs} {fs} x xs h =
    (refl, record { blocks = bs; frees = fs; holds = h; frame = Frame-refl m bs fs })
q_to_b_loop_lem (suc n) {m} {q} x [] h =
    let (first, l) = advance_lem h in
    let t : ((advance m q).1.c_cc == 0) ≡ true = ground (arith, l.holds.count) in
    rw (t, first, take-nil n, drop-nil n) (refl, l)
q_to_b_loop_lem (suc n) {m} {q} x (y ∷ ys) h =
    let (first, l) = advance_lem h in
    let t : ((advance m q).1.c_cc == 0) ≡ false = ground (arith, l.holds.count) in
    let (rest, k) = q_to_b_loop_lem n y ys l.holds in
    rw (t, first) (ap (λ cs. x ∷ cs) rest, Leaves-trans l k)

emptied : {m : Pool} {q : Clist} {bs : List ℕ} → Shape m q bs [] → Shape m (clist 0 0 0) bs []
emptied (empty z) = empty refl
emptied (filled r) = absurd (Run-nonempty r)

-- q_to_b moves the first `n` characters of the list, or all it has if they are fewer, to the
-- buffer, in order. The others stay, on the blocks that the list and the free ones had together,
-- and nothing was written outside them.
pub q_to_b_lem :
    (n : ℕ) {m : Pool} {q : Clist} {bs fs : List ℕ} (xs : List ℕ)
    → Holds m q bs fs xs
    → let (cs, m', q') = q_to_b n m q in (cs ≡ take n xs) × Leaves m bs fs (drop n xs) (m', q')
unfolding q_to_b
q_to_b_lem zero {m} {bs} {fs} xs h =
    (refl, record { blocks = bs; frees = fs; holds = h; frame = Frame-refl m bs fs })
q_to_b_lem (suc n) {m} {q} {bs} {fs} [] h =
    let t : (q.c_cc == 0) ≡ true = ground (arith, h.count) in
    rw (==-suc_zero n, t)
      (
        refl,
        record {
          blocks = bs;
          frees = fs;
          holds = record { shape = emptied h.shape; count = refl; free = h.free; apart = h.apart };
          frame = Frame-refl m bs fs;
        },
      )
q_to_b_lem (suc n) {m} {q} {bs} {fs} (x ∷ xs) h =
    let t : (q.c_cc == 0) ≡ false = ground (arith, h.count) in
    rw (==-suc_zero n, t) (q_to_b_loop_lem (suc n) x xs h)
