-- ===== src/Terminals/Flush.antt =====
-- UNIX_flushtty: the lists of a terminal are emptied, and their blocks are free.
use hostable_32v.Prelude.{
  ℕ, zero, suc, ◌+◌, ◌<◌, ◌≡◌, refl, sym, ap, false, ◌||◌, Option, some, List, [], ◌∷◌, arith,
  length, subst,
}
use hostable_32v.Clist.{Clist, Pool, getc}
use hostable_32v.Clist.Chain.{Holds, Frame, has}
use hostable_32v.Clist.Get.{Leaves, Frame-refl, getc-cons, getc-nil}
use hostable_32v.Clist.Move.{Leaves-trans}
use hostable_32v.Terminals.{Tty, wakes_raw, wakes_out, drain, flushtty}
use hostable_32v.Terminals.Lists.{Lists, Lists-rotate, Lists-Leaves, Holds-nil}

-- The loop has emptied the list.
record Drained (m : Pool) (bs fs : List ℕ) (o : Option (Pool × Clist)) : Type 0 where
  pool : Pool
  list : Clist
  drained : o ≡ some (pool, list)
  leaves : Leaves m bs fs [] (pool, list)

drain-Drained :
    (fuel : ℕ) (m : Pool) (q : Clist) {bs fs xs : List ℕ}
    → Holds m q bs fs xs
    → length xs < fuel
    → Drained m bs fs (drain fuel m q)
unfolding drain
drain-Drained zero m q h lt = absurd (omega (arith, lt))
drain-Drained (suc fuel) m q {bs} {fs} {xs = []} h lt =
    let (got, same, h') = getc-nil h in
    rw (got, drain)
      record {
        pool = (getc m q).1;
        list = (getc m q).2;
        drained = refl;
        leaves = record {
          blocks = [];
          frees = fs;
          holds = h';
          frame =
              subst (λ n. Frame m bs fs n [] fs) (sym same)
                (subst (λ cs. Frame m bs fs m cs fs) (Holds-nil h) (Frame-refl m bs fs));
        };
      }
drain-Drained (suc fuel) m q {bs} {fs} {xs = x ∷ xs} h lt =
    let (got, l) = getc-cons h in
    let r = drain-Drained fuel (getc m q).1 (getc m q).2 l.holds (omega (arith, lt)) in
    rw (got, drain)
      record { pool = r.pool; list = r.list; drained = r.drained; leaves = Leaves-trans l r.leaves }

-- The terminal's lists, `t_canq` first.
abbrev pub TtyLists : Tty → List ℕ → List ℕ → List ℕ → List ℕ → List ℕ → List ℕ → List ℕ → Type 0
TtyLists tp bs cs ds fs xs ys zs = Lists tp.pool tp.t_canq tp.t_outq tp.t_rawq bs cs ds fs xs ys zs

-- The call returns, the lists hold nothing, and all their blocks are free.
pub record Flushed (tp : Tty) (bs cs ds fs : List ℕ) (o : Option Tty) : Type 0 where
  pub after : Tty
  pub returns : o ≡ some after
  pub frees : List ℕ
  pub lists : TtyLists after [] [] [] frees [] [] []
  pub freed : (a : ℕ) → has a frees ≡ (has a bs || has a cs || has a ds || has a fs)
  pub all_free : length frees ≡ length bs + length cs + length ds + length fs
  pub no_line : after.t_delct ≡ 0

no_blocks :
    {m : Pool} {q r s : Clist} {bs cs ds fs : List ℕ}
    → bs ≡ []
    → cs ≡ []
    → ds ≡ []
    → Lists m q r s bs cs ds fs [] [] []
    → Lists m q r s [] [] [] fs [] [] []
no_blocks {m} {q} {r} {s} {bs} {cs} {ds} {fs} e f g l =
    subst (λ x. Lists m q r s x [] [] fs [] [] []) e
      (subst (λ x. Lists m q r s bs x [] fs [] [] []) f
        (subst (λ x. Lists m q r s bs cs x fs [] [] []) g l))

-- Each loop frees the blocks of its list.
freed_blocks :
    (bs cs ds fs fs₁ fs₂ fs₃ : List ℕ) {bs' cs' ds' : List ℕ}
    → bs' ≡ []
    → cs' ≡ []
    → ds' ≡ []
    → ((a : ℕ) → (has a bs' || has a fs₁) ≡ (has a bs || has a fs))
    → ((a : ℕ) → (has a cs' || has a fs₂) ≡ (has a cs || has a fs₁))
    → ((a : ℕ) → (has a ds' || has a fs₃) ≡ (has a ds || has a fs₂))
    → (a : ℕ) → has a fs₃ ≡ (has a bs || has a cs || has a ds || has a fs)
freed_blocks bs cs ds fs fs₁ fs₂ fs₃ {bs'} {cs'} {ds'} e f g first second third a =
    let e' : has a bs' ≡ false = rw e refl in
    let f' : has a cs' ≡ false = rw f refl in
    let g' : has a ds' ≡ false = rw g refl in ground (arith, e', f', g', first a, second a, third a)

-- UNIX_flushtty returns, once more rounds than there are characters in any list of the terminal are
-- allowed. Then the three lists hold nothing and have no blocks, the free blocks are those that were
-- free and those that the lists had, each once, and no line is waiting.
pub flushtty-Flushed :
    (fuel : ℕ) (tp : Tty) {bs cs ds fs xs ys zs : List ℕ}
    → TtyLists tp bs cs ds fs xs ys zs
    → length xs < fuel
    → length ys < fuel
    → length zs < fuel
    → Flushed tp bs cs ds fs (flushtty fuel tp)
unfolding flushtty
flushtty-Flushed fuel tp {bs} {cs} {ds} {fs} l lx ly lz =
    let can = drain-Drained fuel tp.pool tp.t_canq l.first lx in
    let l₁ = Lists-rotate (Lists-Leaves l can.leaves) in
    let out = drain-Drained fuel can.pool tp.t_outq l₁.first ly in
    let l₂ = Lists-rotate (Lists-Leaves l₁ out.leaves) in
    let raw = drain-Drained fuel out.pool tp.t_rawq l₂.first lz in
    let l₃ = Lists-rotate (Lists-Leaves l₂ raw.leaves) in
    rw (can.drained, out.drained, raw.drained)
      record {
        after = record tp {
          pool = raw.pool;
          t_canq = can.list;
          t_outq = out.list;
          t_rawq = raw.list;
          t_delct = 0;
          events = wakes_out ∷ wakes_raw ∷ tp.events;
        };
        returns = refl;
        frees = raw.leaves.frees;
        lists = no_blocks (Holds-nil l₃.first) (Holds-nil l₃.second) (Holds-nil l₃.third) l₃;
        freed =
            freed_blocks bs cs ds fs can.leaves.frees out.leaves.frees raw.leaves.frees
              (Holds-nil l₃.first) (Holds-nil l₃.second) (Holds-nil l₃.third)
              can.leaves.frame.same_blocks out.leaves.frame.same_blocks
              raw.leaves.frame.same_blocks;
        all_free = omega (
          arith,
          can.leaves.frame.as_many,
          out.leaves.frame.as_many,
          raw.leaves.frame.as_many,
          ap length (Holds-nil l₃.first),
          ap length (Holds-nil l₃.second),
          ap length (Holds-nil l₃.third),
        );
        no_line = refl;
      }
