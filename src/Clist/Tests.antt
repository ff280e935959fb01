-- ===== src/Clist/Tests.antt =====
-- Character lists at concrete inputs.
use hostable_32v.Prelude.{ℕ, ◌%◌, ◌<◌, ◌≡◌, refl, List, [], ◌∷◌, arith, some}
use hostable_32v.Clist.{Clist, clist, Pool, update, getc, putc, q_to_b, b_to_q}
use hostable_32v.Clist.Chain.{IsBlock, last, empty, filled, Holds}
use hostable_32v.Clist.Get.{Leaves, getc-cons}
use hostable_32v.Clist.Put.{Appended, putc_lem}
use hostable_32v.Clist.Move.{q_to_b_lem}
use hostable_32v.Clist.Receive.{Received, b_to_q_lem}

-- Free blocks at 32 and 64. The list's one block, at 16, is full but for the character at 31, and
-- its first character stands at 30.
abbrev pool : Pool
pool = record {
  c_next = update (update (λ b. 0) 32 64) 64 0;
  c_info = update (λ p. 0) 30 65;
  cfreelist = 32;
}

abbrev one : Clist
one = clist 1 30 31

block : (b : ℕ) → 0 < b → b % 16 ≡ 0 → IsBlock b
block b p a = record { not_null = p; aligned = a }

one-Holds : Holds pool one (16 ∷ []) (32 ∷ 64 ∷ []) (65 ∷ [])
unfolding update
one-Holds = record {
  shape = filled (
      last (record { block = block 16 (omega arith) refl; from = omega arith; to = omega arith })
        refl refl);
  count = refl;
  free = (refl, block 32 (omega arith) refl, refl, (refl, block 64 (omega arith) refl, refl, refl));
  apart = λ a e. ground arith;
}

abbrev two_free : List ℕ
two_free = 32 ∷ 64 ∷ []

nothing : Clist
nothing = clist 0 0 0

nothing-Holds : Holds pool nothing [] (32 ∷ 64 ∷ []) []
unfolding nothing
nothing-Holds = record {
  shape = empty refl;
  count = refl;
  free = one-Holds.free;
  apart = λ a e. cc;
}

-- Three characters: the third one goes to the block at 32.
three_put : (putc 67 (putc 66 pool one).1 (putc 66 pool one).2).2 ≡ clist 3 30 37
unfolding putc
three_put = refl

moved_across : (b_to_q (1 ∷ 2 ∷ 3 ∷ []) pool one).2 ≡ clist 4 30 38
unfolding b_to_q
moved_across = refl

read_across :
    let (left, m, q) = b_to_q (1 ∷ 2 ∷ 3 ∷ []) pool one in (q_to_b 9 m q).0 ≡ 65 ∷ 1 ∷ 2 ∷ 3 ∷ []
unfolding b_to_q q_to_b
read_across = refl

getc-cons_example :
    let (c, m', q') = getc pool one in
    (c ≡ some 65) × Leaves pool (16 ∷ []) (32 ∷ 64 ∷ []) [] (m', q')
getc-cons_example = getc-cons one-Holds

putc_lem_example : Appended pool (16 ∷ []) (32 ∷ 64 ∷ []) (65 ∷ []) 66 31 (putc 66 pool one)
putc_lem_example = putc_lem 66 one-Holds

q_to_b_lem_example :
    let (cs, m', q') = q_to_b 3 pool one in
    (cs ≡ 65 ∷ []) × Leaves pool (16 ∷ []) (32 ∷ 64 ∷ []) [] (m', q')
q_to_b_lem_example = q_to_b_lem 3 (65 ∷ []) one-Holds

b_to_q_lem_example :
    Received pool
      (16 ∷ [])
      (32 ∷ 64 ∷ [])
      (65 ∷ [])
      (1 ∷ 2 ∷ 3 ∷ [])
      (b_to_q (1 ∷ 2 ∷ 3 ∷ []) pool one)
b_to_q_lem_example = b_to_q_lem (1 ∷ 2 ∷ 3 ∷ []) one-Holds
