-- ===== src/BlockMap/Placed.antt =====
-- UNIX_bmap for writing, of a block that the file has: nothing is allocated.
use hostable_32v.Prelude.{
  ℕ, ◌+◌, ◌-◌, ◌*◌, ◌^◌, ◌≡◌, refl, Bool, true, false, List, [], ◌∷◌, arith, ltb, leb, ◌==◌, get_or,
  Bool-cases, inl, inr,
}
use hostable_32v.BlockMap.{
  File, Answer, block_at, no_block, failed, with_new, fetch, walk, read_ahead, indirect, bmap,
}
use hostable_32v.BlockMap.Position.{
  Position, direct, single, double, triple, IsPosition, number, slot, indices, follow,
}
use hostable_32v.BlockMap.Read.{
  Digits, last, digit, find-single, find-double, find-triple, single-Digits, double-Digits,
  triple-Digits,
}

unfoldable pub is_block : Answer → Bool
is_block (block_at b) = true
is_block no_block = false
is_block failed = false

follow-nowhere :
    (error : ℕ → Bool) (block : ℕ → List ℕ) (nb : ℕ) (is : List ℕ)
    → (nb == 0) ≡ true
    → is_block (follow error block nb is) ≡ false
unfolding follow is_block
follow-nowhere error block nb [] z = rw z refl
follow-nowhere error block nb (i ∷ is) z = rw z refl

walk-placed :
    {bn : ℕ} {n sh : ℕ} {is : List ℕ} (error : ℕ → Bool) (i : ℕ) (bap : List ℕ) (nb : ℕ) (f : File)
    → Digits bn n sh is
    → (nb == 0) ≡ false
    → is_block (follow error f.volume.block nb is) ≡ true
    → walk n error false sh bn i bap nb f ≡ walk n error true sh bn i bap nb f
unfolding walk follow with_new
walk-placed error i bap nb f last some_block placed = refl
walk-placed error _ bap nb f (digit {i} {is} d ds) some_block placed =
    elim (Bool-cases (error nb)) [
      | inl bad ↦ rw bad refl
      | inr fine ↦ elim (Bool-cases (get_or (f.volume.block nb) i 0 == 0)) [
        | inl hole ↦
            let none =
              follow-nowhere error f.volume.block (get_or (f.volume.block nb) i 0) is hole in
            absurd (ground (arith, some_block, fine, placed, none))
        | inr on ↦
            let placed' : is_block (follow error f.volume.block (get_or (f.volume.block nb) i 0) is)
                ≡ true =
              ground (arith, some_block, fine, placed) in
            rw (fine, d, on)
              (walk-placed error i (f.volume.block nb) (get_or (f.volume.block nb) i 0) f ds on
                placed')
      ]
    ]

fetch-placed :
    {bn : ℕ} {n sh : ℕ} {is : List ℕ} (error : ℕ → Bool) (s : ℕ) (f : File)
    → Digits bn n sh is
    → is_block (follow error f.volume.block (get_or f.i_addr s 0) is) ≡ true
    → fetch error false s f (λ nb f'. walk n error false sh bn 0 [] nb f')
      ≡ fetch error true s f (λ nb f'. walk n error true sh bn 0 [] nb f')
unfolding fetch with_new
fetch-placed {is} error s f d placed = elim (Bool-cases (get_or f.i_addr s 0 == 0)) [
  | inl hole ↦
      let none = follow-nowhere error f.volume.block (get_or f.i_addr s 0) is hole in
      absurd (ground (arith, none, placed))
  | inr on ↦ rw on (walk-placed error 0 [] (get_or f.i_addr s 0) f d on placed)
]

fetch_direct-placed :
    (error : ℕ → Bool) (i : ℕ) (f : File)
    → is_block (follow error f.volume.block (get_or f.i_addr i 0) []) ≡ true
    → fetch error false i f (read_ahead i) ≡ fetch error true i f (read_ahead i)
unfolding fetch with_new
fetch_direct-placed error i f placed = elim (Bool-cases (get_or f.i_addr i 0 == 0)) [
  | inl hole ↦
      let none = follow-nowhere error f.volume.block (get_or f.i_addr i 0) [] hole in
      absurd (ground (arith, none, placed))
  | inr on ↦ rw on refl
]

-- For a position whose addresses lead to a block, UNIX_bmap does the same for writing as for reading.
pub bmap-placed :
    (error : ℕ → Bool) (p : Position) (f : File)
    → IsPosition p
    → is_block (follow error f.volume.block (get_or f.i_addr (slot p) 0) (indices p)) ≡ true
    → bmap error false (number p) f ≡ bmap error true (number p) f
unfolding bmap indirect number IsPosition slot indices
bmap-placed error (direct i) f h placed =
    let n : leb (2 ^ 31) i ≡ false = ground arith in
    let t : ltb i 10 ≡ true = ground arith in
    rw (n, t) (fetch_direct-placed error i (record f { rablock = 0 }) placed)
bmap-placed error (single i) f h placed =
    let n : leb (2 ^ 31) (10 + i) ≡ false = ground arith in
    let t : ltb (10 + i) 10 ≡ false = ground arith in
    let s : 10 + i - 10 ≡ i = omega arith in
    rw (n, t, s, find-single i h)
      (fetch-placed error 10 (record f { rablock = 0 }) (single-Digits i h) placed)
bmap-placed error (double i j) f (h, k) placed =
    let n : leb (2 ^ 31) (10 + 128 + (128 * i + j)) ≡ false = ground arith in
    let t : ltb (10 + 128 + (128 * i + j)) 10 ≡ false = ground arith in
    let s : 10 + 128 + (128 * i + j) - 10 ≡ 128 + (128 * i + j) = omega arith in
    rw (n, t, s, find-double i j h k)
      (fetch-placed error 11 (record f { rablock = 0 }) (double-Digits i j h k) placed)
bmap-placed error (triple i j k) f (h, l, o) placed =
    let x = 16384 * i + 128 * j + k in
    let n : leb (2 ^ 31) (10 + 128 + 16384 + x) ≡ false = ground arith in
    let t : ltb (10 + 128 + 16384 + x) 10 ≡ false = ground arith in
    let s : 10 + 128 + 16384 + x - 10 ≡ 128 + 16384 + x = omega arith in
    rw (n, t, s, find-triple i j k h l o)
      (fetch-placed error 12 (record f { rablock = 0 }) (triple-Digits i j k h l o) placed)
