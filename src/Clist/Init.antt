-- ===== src/Clist/Init.antt =====
-- UNIX_cinit links the whole blocks of the array `cfree` into the free chain.
use hostable_32v.Prelude.{
  ℕ, zero, suc, ◌+◌, ◌-◌, ◌*◌, ◌%◌, ◌≤◌, ◌<◌, ◌≡◌, refl, Bool, true, false, List, [], ◌∷◌, arith,
  ◌==◌, leb, if◌then◌else◌, length, Bool-cases, inl, inr, ◌⊎◌,
}
use hostable_32v.Clist.{clist, Pool, update, release, init_loop, cinit}
use hostable_32v.Clist.Chain.{has, IsBlock, FreeFrom, FreeFrom-frame, Holds, empty}

-- The free chain is `fs`, all of it blocks between the addresses `lo` and `hi`.
pub record Chained (m : Pool) (lo hi : ℕ) (fs : List ℕ) : Type 0 where
  pub free : FreeFrom m m.cfreelist fs
  pub inside : (b : ℕ) → has b fs ≡ true → (lo ≤ b) × (b + 16 ≤ hi)

Chained-release :
    (m : Pool) (lo cp : ℕ) (fs : List ℕ)
    → lo ≤ cp
    → IsBlock cp
    → Chained m lo cp fs
    → Chained (release m cp) lo (cp + 16) (cp ∷ fs)
Chained-release m lo cp fs l blk h = record {
  free = (
    refl,
    blk,
    fresh (Bool-cases (has cp fs)),
    rw head (FreeFrom-frame m (release m cp) m.cfreelist fs h.free kept),
  );
  inside = λ b e. within b e (Bool-cases (has b fs));
}
  where
    fresh : (has cp fs ≡ true) ⊎ (has cp fs ≡ false) → has cp fs ≡ false
    fresh (inl e) = absurd (omega (arith, (h.inside cp e).1))
    fresh (inr e) = e

    head : (release m cp).c_next cp ≡ m.cfreelist
    head = unfold update in ground arith

    kept : (b : ℕ) → has b fs ≡ true → (release m cp).c_next b ≡ m.c_next b
    kept b e = unfold update in ground (arith, h.inside b e)

    within :
        (b : ℕ)
        → has b (cp ∷ fs) ≡ true
        → (has b fs ≡ true) ⊎ (has b fs ≡ false)
        → (lo ≤ b) × (b + 16 ≤ cp + 16)
    within b e (inl k) = omega (arith, h.inside b k)
    within b e (inr k) = ground arith

init_loop_lem :
    (n k : ℕ) {m : Pool} {lo cp last : ℕ} (fs : List ℕ)
    → k ≤ n
    → cp + 16 * k ≤ last + 16
    → last < cp + 16 * k
    → lo ≤ cp
    → IsBlock cp
    → Chained m lo cp fs
    → (fs' : List ℕ) × Chained (init_loop n cp last m) lo (cp + 16 * k) fs'
      × (length fs' ≡ length fs + k)
unfolding init_loop
init_loop_lem zero zero {m} {lo} {cp} fs le a b l blk h =
    (fs, record { free = h.free; inside = λ c e. omega (arith, h.inside c e) }, omega arith)
init_loop_lem zero (suc k) fs le a b l blk h = absurd (omega arith)
init_loop_lem (suc n) zero {m} {lo} {cp} {last} fs le a b l blk h =
    let t : leb cp last ≡ false = ground arith in
    (fs, rw t (record { free = h.free; inside = λ c e. omega (arith, h.inside c e) }), omega arith)
init_loop_lem (suc n) (suc k) {m} {lo} {cp} {last} fs le a b l blk h =
    let t : leb cp last ≡ true = ground arith in
    let blk' : IsBlock (cp + 16) = record {
      not_null = omega arith;
      aligned = omega (arith, blk.aligned);
    } in
    let (fs', c, len) =
      init_loop_lem n k {last = last} (cp ∷ fs) (omega arith) (omega arith) (omega arith)
        (omega arith) blk' (Chained-release m lo cp fs l blk h) in
    (
      fs',
      rw t (record { free = c.free; inside = λ d e. omega (arith, c.inside d e) }),
      omega (arith, len),
    )

-- After cinit, from an empty free chain, the chain holds every whole aligned block of the array of
-- NCLIST cblocks and nothing outside the array: all 200, or 199 if the array does not begin at a
-- multiple of 16. A list that holds nothing can be used with it.
cinit-Holds :
    (cfree : ℕ) (devices : List Bool) (m : Pool)
    → 0 < cfree
    → m.cfreelist ≡ 0
    → (fs : List ℕ) × Holds (cinit cfree devices m).0 (clist 0 0 0) [] fs []
      × (length fs ≡ (if cfree % 16 == 0 then 200 else 199))
      × ((b : ℕ) → has b fs ≡ true → (cfree ≤ b) × (b + 16 ≤ cfree + 16 * 200))
unfolding cinit
cinit-Holds cfree devices m pos z =
    let start = (cfree + 15) - (cfree + 15) % 16 in
    let k : ℕ = if cfree % 16 == 0 then 200 else 199 in
    let (fs, c, len) =
      init_loop_lem 200 k {lo = start} {cp = start} {last = cfree + 16 * 199} [] (ground arith)
        (ground arith) (ground arith) (omega arith)
        (record { not_null = omega arith; aligned = omega arith })
        (record { free = z; inside = λ b e. cc }) in
    (
      fs,
      record { shape = empty refl; count = refl; free = c.free; apart = λ a e. cc },
      ground (arith, len),
      λ b e. ground (arith, c.inside b e),
    )
