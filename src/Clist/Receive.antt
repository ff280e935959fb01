-- ===== src/Clist/Receive.antt =====
-- UNIX_b_to_q: many characters at once, from a buffer to a list.
use hostable_32v.Prelude.{
  ℕ, ◌+◌, ◌%◌, ◌≡◌, refl, true, false, List, [], ◌∷◌, ◌++◌, arith, ◌==◌, length, sym, subst, ◌⊎◌,
  inl, inr, length-append, ap, ℕ_discrete,
}
use mathlib.Core.List.{append-nil, append_assoc}
use hostable_32v.Clist.{Clist, Pool, b_to_q_loop, b_to_q_out, b_to_q}
use hostable_32v.Clist.Chain.{has, Shape, empty, filled, FreeFrom, Holds, Frame, Run}
use hostable_32v.Clist.Get.{Leaves, Frame-refl}
use hostable_32v.Clist.Append.{
  Filled, push_first, push_room, push_new, cl-set, Filled-full, Frame-full,
}
use hostable_32v.Clist.Move.{Frame-trans}

-- What the loop of b_to_q leaves, having moved the characters `cs` but for the last ones.
record Moved (m : Pool) (p : ℕ) (bs fs xs cs : List ℕ) (r : List ℕ × Pool × ℕ) : Type 0 where
  moved : List ℕ
  parts : cs ≡ moved ++ r.0
  blocks : List ℕ
  frees : List ℕ
  filled_by : Filled r.1 r.2 p blocks frees (xs ++ moved)
  frame : Frame m bs fs r.1 blocks frees
  stuck : (r.0 ≡ []) ⊎ ((frees ≡ []) × (r.2 % 16 ≡ 0))

Moved-cons :
    {m m' : Pool} {p : ℕ} {bs fs bs' fs' xs cs : List ℕ} (c : ℕ) {r : List ℕ × Pool × ℕ}
    → Frame m bs fs m' bs' fs'
    → Moved m' p bs' fs' (xs ++ (c ∷ [])) cs r
    → Moved m p bs fs xs (c ∷ cs) r
Moved-cons {p} {xs} c {r} f l = record {
  moved = c ∷ l.moved;
  parts = ap (λ k. c ∷ k) l.parts;
  blocks = l.blocks;
  frees = l.frees;
  filled_by =
      subst (λ k. Filled r.1 r.2 p l.blocks l.frees k) (append_assoc xs (c ∷ []) l.moved)
        l.filled_by;
  frame = Frame-trans f l.frame;
  stuck = l.stuck;
}

b_to_q_loop_lem :
    (cs : List ℕ) {m : Pool} {cl p : ℕ} (bs fs xs : List ℕ)
    → Filled m cl p bs fs xs
    → Moved m p bs fs xs cs (b_to_q_loop cs m cl)
unfolding b_to_q_loop
b_to_q_loop_lem [] {m} {cl} {p} bs fs xs h = record {
  moved = [];
  parts = refl;
  blocks = bs;
  frees = fs;
  filled_by = rw append-nil h;
  frame = Frame-refl m bs fs;
  stuck = inl refl;
}
b_to_q_loop_lem (c ∷ cs) {m} {cl} {p} bs [] xs h = elim (ℕ_discrete (cl % 16) 0) [
  | no room ↦
      let u : (cl % 16 == 0) ≡ false = ground (arith, room) in
      let (h', fr) = push_room c h room in
      rw u (Moved-cons c fr (b_to_q_loop_lem cs bs [] (xs ++ (c ∷ [])) h'))
  | yes full ↦
      let u : (cl % 16 == 0) ≡ true = ground (arith, full) in
      let t : (m.cfreelist == 0) ≡ true = ground (arith, h.free) in
      rw (u, t)
        (record {
          moved = [];
          parts = refl;
          blocks = bs;
          frees = [];
          filled_by = rw append-nil (Filled-full m cl p bs xs full h);
          frame = Frame-full m cl p bs xs full h;
          stuck = inr (refl, full);
        })
]
b_to_q_loop_lem (c ∷ cs) {m} {cl} {p} bs (f ∷ fs) xs h = elim (ℕ_discrete (cl % 16) 0) [
  | no room ↦
      let u : (cl % 16 == 0) ≡ false = ground (arith, room) in
      let (h', fr) = push_room c h room in
      rw u (Moved-cons c fr (b_to_q_loop_lem cs bs (f ∷ fs) (xs ++ (c ∷ [])) h'))
  | yes full ↦
      let u : (cl % 16 == 0) ≡ true = ground (arith, full) in
      let t : (m.cfreelist == 0) ≡ false = ground (arith, h.free.0, h.free.1) in
      let (h', fr) = push_new c h full in
      rw (u, t) (Moved-cons c fr (b_to_q_loop_lem cs (bs ++ (f ∷ [])) fs (xs ++ (c ∷ [])) h'))
]

-- What b_to_q leaves: it moved a first part of the characters behind those that the list held,
-- keeping to the blocks of the list and the free ones, and returns the rest; and if it left any,
-- no block is free and the list has no room in its last block.
pub record Received (m : Pool) (bs fs xs cs : List ℕ) (r : List ℕ × Pool × Clist) : Type 0 where
  pub moved : List ℕ
  pub parts : cs ≡ moved ++ r.0
  pub leaves : Leaves m bs fs (xs ++ moved) (r.1, r.2)
  pub stuck : (r.0 ≡ []) ⊎ ((leaves.frees ≡ []) × (r.2.c_cl % 16 ≡ 0))

Received-out :
    {m : Pool} {p : ℕ} {bs fs xs cs : List ℕ} (q : Clist) {r : List ℕ × Pool × ℕ}
    → q.c_cf ≡ p
    → q.c_cc ≡ length xs
    → Moved m p bs fs xs cs r
    → Received m bs fs xs cs (b_to_q_out cs q r)
unfolding b_to_q_out
Received-out {m} {p} {xs} {cs} q {r} e n l = record {
  moved = l.moved;
  parts = l.parts;
  leaves = record {
    blocks = l.blocks;
    frees = l.frees;
    holds = record {
      shape = filled (subst (λ k. Run r.1 r.2 k l.blocks (xs ++ l.moved)) (sym e) l.filled_by.run);
      count =
          omega (arith, n, ap length l.parts, length-append l.moved r.0, length-append xs l.moved);
      free = l.filled_by.free;
      apart = l.filled_by.apart;
    };
    frame = l.frame;
  };
  stuck = l.stuck;
}

b_to_q-Shape :
    (cs : List ℕ) {m : Pool} {q : Clist} {bs : List ℕ} (fs : List ℕ) {xs : List ℕ}
    → Shape m q bs xs
    → q.c_cc ≡ length xs
    → FreeFrom m m.cfreelist fs
    → ((a : ℕ) → has a bs ≡ true → has a fs ≡ false)
    → Received m bs fs xs cs (b_to_q cs m q)
unfolding b_to_q
b_to_q-Shape [] {m} {q} {bs} fs s n free apart = record {
  moved = [];
  parts = refl;
  leaves = record {
    blocks = bs;
    frees = fs;
    holds = record { shape = rw append-nil s; count = rw append-nil n; free = free; apart = apart };
    frame = Frame-refl m bs fs;
  };
  stuck = inl refl;
}
b_to_q-Shape (c ∷ cs) {m} {q} fs (filled r) n free apart = rw (cl-set r) (
    Received-out q refl n
      (b_to_q_loop_lem (c ∷ cs) _ fs _ (record { run = r; free = free; apart = apart })))
b_to_q-Shape (c ∷ cs) {m} {q} [] (empty z) n free apart =
    let u : (q.c_cl == 0) ≡ true = ground (arith, z) in
    let t : (m.cfreelist == 0) ≡ true = ground (arith, free) in
    rw (u, t)
      (record {
        moved = [];
        parts = refl;
        leaves = record {
          blocks = [];
          frees = [];
          holds = record { shape = empty refl; count = n; free = free; apart = apart };
          frame = Frame-refl m [] [];
        };
        stuck = inr (refl, refl);
      })
b_to_q-Shape (c ∷ cs) {m} {q} (f ∷ fs) (empty z) n free apart =
    let u : (q.c_cl == 0) ≡ true = ground (arith, z) in
    let t : (m.cfreelist == 0) ≡ false = ground (arith, free.0, free.1) in
    let v : ((m.cfreelist + 4) % 16 == 0) ≡ false = ground (arith, free.0, free.1.aligned) in
    let (h, fr) = push_first m c f fs free in
    let l = Moved-cons {xs = []} c fr (b_to_q_loop_lem cs (f ∷ []) fs (c ∷ []) h) in
    rw (u, t, v) (Received-out (record q { c_cf = m.cfreelist + 4 }) refl n l)

-- b_to_q moves a first part of the characters to the end of the list, in order, and reports the
-- others; if it reports any, no block was free and the list's last block had no room. It writes
-- into the blocks of the list and the free ones only.
pub b_to_q_lem :
    (cs : List ℕ) {m : Pool} {q : Clist} {bs fs xs : List ℕ}
    → Holds m q bs fs xs
    → Received m bs fs xs cs (b_to_q cs m q)
b_to_q_lem cs {fs} h = b_to_q-Shape cs fs h.shape h.count h.free h.apart
