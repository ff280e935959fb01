-- ===== src/Clist/Pair.antt =====
-- UNIX_putw and UNIX_getw: two characters for a 16-bit number, the low one first.
use hostable_32v.Prelude.{
  ℕ, ◌+◌, ◌*◌, ◌/◌, ◌%◌, ◌≤◌, ◌≡◌, ◌≢◌, refl, true, false, List, [], ◌∷◌, ◌++◌, arith, ◌==◌, leb,
  length, ◌∙◌, subst, ◌⊎◌, inl, inr, none, some, ap,
}
use mathlib.Core.List.{append_assoc}
use hostable_32v.Clist.{Clist, Pool, putc, getw, putw}
use hostable_32v.Clist.Chain.{Holds}
use hostable_32v.Clist.Get.{Leaves, getc-cons}
use hostable_32v.Clist.Put.{putc_lem}
use hostable_32v.Clist.Move.{Leaves-trans}

abbrev pub bytes_of : ℕ → List ℕ
bytes_of c = c % 256 ∷ c / 256 % 256 ∷ []

-- With no free block putw fails and changes nothing, although the last block may have room. With a
-- free block it never fails: both characters are appended, so that no half of a number is lost.
putw_lem :
    {m : Pool} {q : Clist} {bs fs xs : List ℕ} (c : ℕ)
    → Holds m q bs fs xs
    → let (done, m', q') = putw c m q in
      ((fs ≡ []) × (done ≡ false) × (m' ≡ m) × (q' ≡ q))
      ⊎ ((fs ≢ []) × (done ≡ true) × Leaves m bs fs (xs ++ bytes_of c) (m', q'))
unfolding putw
putw_lem {m} {q} {fs = []} c h =
    let t : (m.cfreelist == 0) ≡ true = ground (arith, h.free) in
    rw t (inl (refl, refl, refl, refl))
putw_lem {m} {q} {bs} {fs = f ∷ fs} {xs} c h =
    let t : (m.cfreelist == 0) ≡ false = ground (arith, h.free.0, h.free.1) in
    rw t (elim (putc_lem c h) [
      | inl (no_more, none_free, full, rest) ↦ absurd (ground (arith, none_free))
      | inr (done, (l, how)) ↦ elim (putc_lem (c / 256) l.holds) [
        | inl (no_more, none_free, full, rest) ↦ absurd (ground (arith, how, none_free, full))
        | inr (done', (l', how')) ↦ inr (
          λ e. cc,
          refl,
          subst
              (λ k. Leaves m bs (f ∷ fs) k (
                (putc (c / 256) (putc c m q).1 (putc c m q).2).1,
                (putc (c / 256) (putc c m q).1 (putc c m q).2).2,
              ))
              (append_assoc xs (c % 256 ∷ []) (c / 256 % 256 ∷ [])) (Leaves-trans l l'),
        )
      ]
    ])

-- From a list of two characters or more getw takes the first two, as one number; from a shorter
-- list it takes nothing and changes nothing.
pub getw-cons :
    {m : Pool} {q : Clist} {bs fs xs : List ℕ} {x y : ℕ}
    → Holds m q bs fs (x ∷ y ∷ xs)
    → let (c, m', q') = getw m q in
      (c ≡ some (x % 256 + 256 * (y % 256))) × Leaves m bs fs xs (m', q')
unfolding getw
getw-cons {m} {q} h =
    let t : leb q.c_cc 1 ≡ false = ground (arith, h.count) in
    let (first, l) = getc-cons h in
    let (second, l') = getc-cons l.holds in rw (t, first, second) (refl, Leaves-trans l l')

pub getw-short :
    {m : Pool} {q : Clist} {bs fs xs : List ℕ}
    → Holds m q bs fs xs
    → length xs ≤ 1
    → getw m q ≡ (none, m, q)
unfolding getw
getw-short {m} {q} h s = let t : leb q.c_cc 1 ≡ true = ground (arith, h.count) in rw t

-- A number that putw puts on an empty list comes back from getw, modulo 2^16, and leaves the list
-- empty.
getw-putw :
    {m : Pool} {q : Clist} {fs : List ℕ} (c : ℕ)
    → Holds m q [] fs []
    → fs ≢ []
    → let (done, m', q') = putw c m q in
      let (c', m'', q'') = getw m' q' in
      (done ≡ true) × (c' ≡ some (c % 65536)) × Leaves m [] fs [] (m'', q'')
getw-putw {m} {q} {fs} c h ne = elim (putw_lem c h) [
  | inl (e, _, _, _) ↦ absurd (ne e)
  | inr (_, done, l) ↦
      let (got, l') = getw-cons l.holds in (done, got ∙ ap some (omega arith), Leaves-trans l l')
]
