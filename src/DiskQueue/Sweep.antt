-- ===== src/DiskQueue/Sweep.antt =====
-- One sweep of the disk: among requests of one kind, in the order of their cylinders, UNIX_disksort
-- inserts by cylinder.
use hostable_32v.Prelude.{
  ℕ, suc, ◌+◌, ◌≤◌, ◌<◌, ◌≡◌, refl, Bool, true, false, not, ◌&&◌, none, some, List, [], ◌∷◌, arith,
  leb, if◌then◌else◌, Bool-cases, inl, inr, ap, ◌∙◌,
}
use hostable_32v.DiskQueue.{
  Buf, Tp, not_below, step, position, scan, link_behind, link_in, or_last, disksort,
}

-- Requests of the kind `t` from cylinder `c` on, in the order of their cylinders.
unfoldable pub IsSweep : Bool → ℕ → List Buf → Type 0
IsSweep t c [] = 0 ≤ c
IsSweep t c (e ∷ q) = (e.b_read ≡ t) × (c ≤ e.b_cylin) × IsSweep t e.b_cylin q

-- Insertion behind the requests for the same cylinder and for lower ones.
pub insert : Buf → List Buf → List Buf
insert bp [] = bp ∷ []
insert bp (e ∷ q) = if leb e.b_cylin bp.b_cylin then e ∷ insert bp q else bp ∷ e ∷ q

-- How many requests at the front are for the same cylinder or for a lower one.
passed : Buf → List Buf → ℕ
passed bp [] = 0
passed bp (e ∷ q) = if leb e.b_cylin bp.b_cylin then suc (passed bp q) else 0

same_kind : (bp e : Buf) → e.b_read ≡ bp.b_read → (bp.b_read && not e.b_read) ≡ false
same_kind bp e s = rw s (elim (Bool-cases bp.b_read) [ inl t ↦ rw t refl | inr f ↦ rw f refl ])

same_kind' : (bp e : Buf) → e.b_read ≡ bp.b_read → (not bp.b_read && e.b_read) ≡ false
same_kind' bp e s = rw s (elim (Bool-cases bp.b_read) [ inl t ↦ rw t refl | inr f ↦ rw f refl ])

-- Behind a cylinder that is too high nothing is chosen.
scan-high :
    (bp : Buf) (i c : ℕ) (tp : Tp) (q : List Buf)
    → bp.b_cylin < c
    → IsSweep bp.b_read c q
    → scan bp i tp q ≡ position tp
unfolding scan step IsSweep
scan-high bp i c tp [] h s = refl
scan-high bp i c tp (e ∷ q) h (k, l, s) =
    let high : leb e.b_cylin bp.b_cylin ≡ false = ground (arith, l) in
    rw (same_kind bp e k, same_kind' bp e k, high)
      (scan-high bp (i + 1) e.b_cylin tp q (omega (arith, h, l)) s)

-- With `tp` at the entry before position `i`, the loop ends at the last entry that is passed.
scan-passed :
    (bp : Buf) (i c : ℕ) (q : List Buf)
    → IsSweep bp.b_read c q
    → scan bp (suc i) (some (i, c)) q ≡ some (i + passed bp q)
unfolding scan step IsSweep passed position not_below
scan-passed bp i c [] s = ap some (omega arith)
scan-passed bp i c (e ∷ q) (k, l, s) = elim (Bool-cases (leb e.b_cylin bp.b_cylin)) [
  | inl low ↦
      let up : leb c e.b_cylin ≡ true = ground (arith, l) in
      rw (same_kind bp e k, same_kind' bp e k, low, up)
        (ap (λ n. scan bp n (some (suc i, e.b_cylin)) q) (omega arith)
          ∙ scan-passed bp (suc i) e.b_cylin q s
          ∙ ap some (omega arith))
  | inr high ↦
      rw (same_kind bp e k, same_kind' bp e k, high)
        (scan-high bp (suc i + 1) e.b_cylin (some (i, c)) q (ground arith) s
          ∙ ap some (omega arith))
]

link_behind-passed :
    (bp e : Buf) (q : List Buf) → link_behind (passed bp q) bp (e ∷ q) ≡ e ∷ insert bp q
unfolding link_behind passed insert
link_behind-passed bp e [] = refl
link_behind-passed bp e (e' ∷ q) = elim (Bool-cases (leb e'.b_cylin bp.b_cylin)) [
  | inl low ↦ rw low (ap (λ t. e ∷ t) (link_behind-passed bp e' q))
  | inr high ↦ rw high refl
]

IsSweep-insert :
    (bp : Buf) (c : ℕ) (q : List Buf)
    → c ≤ bp.b_cylin
    → IsSweep bp.b_read c q
    → IsSweep bp.b_read c (insert bp q)
unfolding IsSweep insert
IsSweep-insert bp c [] h s = (refl, h, omega arith)
IsSweep-insert bp c (e ∷ q) h (k, l, s) = elim (Bool-cases (leb e.b_cylin bp.b_cylin)) [
  | inl low ↦ rw low (k, l, IsSweep-insert bp e.b_cylin q (ground arith) s)
  | inr high ↦ rw high (refl, h, (k, ground arith, s))
]

scan-first :
    (bp e : Buf) (q : List Buf)
    → e.b_read ≡ bp.b_read
    → e.b_cylin ≤ bp.b_cylin
    → IsSweep bp.b_read e.b_cylin q
    → scan bp 0 none (e ∷ q) ≡ some (passed bp q)
unfolding scan step not_below
scan-first bp e q k h s =
    let low : leb e.b_cylin bp.b_cylin ≡ true = ground arith in
    rw (same_kind bp e k, same_kind' bp e k, low)
      (scan-passed bp 0 e.b_cylin q s ∙ ap some (omega arith))

-- Where all requests are of one kind, reads or writes, and wait in the order of their cylinders, and
-- the new one is for the first one's cylinder or a higher one, UNIX_disksort inserts it behind those
-- for the same cylinder and for lower ones, so that the order stays.
pub disksort-insert :
    (bp e : Buf) (q : List Buf) (last : ℕ)
    → e.b_read ≡ bp.b_read
    → e.b_cylin ≤ bp.b_cylin
    → IsSweep bp.b_read e.b_cylin q
    → ((disksort (record { b_actf = e ∷ q; b_actl = last }) bp).b_actf ≡ e ∷ insert bp q)
      × IsSweep bp.b_read e.b_cylin (insert bp q)
unfolding disksort link_in or_last
disksort-insert bp e q last k h s = (
  ap (λ r. link_behind (or_last r last) bp (e ∷ q)) (scan-first bp e q k h s)
      ∙ link_behind-passed bp e q,
  IsSweep-insert bp e.b_cylin q h s,
)
