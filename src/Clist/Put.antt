-- ===== src/Clist/Put.antt =====
-- UNIX_putc appends a character, on a free block where the last one is full.
use hostable_32v.Prelude.{
  ℕ, ◌%◌, ◌≡◌, ◌≢◌, refl, Bool, true, false, List, [], ◌∷◌, ◌++◌, arith, ◌==◌, length, sym, subst,
  ◌⊎◌, inl, inr, length-append, ℕ_discrete,
}
use hostable_32v.Clist.{Clist, clist, Pool, putc}
use hostable_32v.Clist.Chain.{has, Shape, empty, filled, FreeFrom, Holds}
use hostable_32v.Clist.Get.{Leaves}
use hostable_32v.Clist.Append.{Filled, push_first, push_room, push_new, cl-set, Filled-full}

Holds-Filled :
    {m : Pool} {cl p : ℕ} {bs fs xs : List ℕ}
    → Filled m cl p bs fs xs
    → Holds m (clist (length xs) p cl) bs fs xs
Holds-Filled h = record { shape = filled h.run; count = refl; free = h.free; apart = h.apart }

-- What putc leaves: it fails where no block is free and the list has no room in its last block,
-- and then the list holds what it held; or it appends the character, and takes a free block only
-- to begin it.
abbrev pub Appended : Pool → List ℕ → List ℕ → List ℕ → ℕ → ℕ → Bool × Pool × Clist → Type 0
Appended m bs fs xs c cl (done, m', q') =
    ((done ≡ false) × (fs ≡ []) × (cl % 16 ≡ 0) × Holds m' q' bs [] xs)
    ⊎ ((done ≡ true)
        × ((l : Leaves m bs fs (xs ++ (c % 256 ∷ [])) (m', q')) × ((l.frees ≡ fs)
              ⊎ (q'.c_cl % 16 ≡ 5))))

putc-empty :
    (m : Pool) (c cc cf : ℕ) (fs : List ℕ)
    → cc ≡ 0
    → FreeFrom m m.cfreelist fs
    → Appended m [] fs [] c 0 (putc c m (clist cc cf 0))
unfolding putc
putc-empty m c n cf [] count z =
    let t : (m.cfreelist == 0) ≡ true = ground (arith, z) in
    rw t (
      inl (
        refl,
        refl,
        refl,
        record { shape = empty refl; count = count; free = z; apart = λ a h. cc },
      ))
putc-empty m c n cf (f ∷ fs) count z =
    let (h, fr) = push_first m (c % 256) f fs z in
    let t : (m.cfreelist == 0) ≡ false = ground (arith, z.0, z.1) in
    rw t (
      inr (
        refl,
        (
          record {
            blocks = f ∷ [];
            frees = fs;
            holds = record {
              shape = filled h.run;
              count = omega arith;
              free = h.free;
              apart = h.apart;
            };
            frame = fr;
          },
          inr (omega (arith, z.0, z.1.aligned)),
        ),
      ))

module _ (m : Pool) (c cl cf : ℕ) (bs xs : List ℕ) where
  putc-full :
      cl % 16 ≡ 0
      → Filled m cl cf bs [] xs
      → Appended m bs [] xs c cl (putc c m (clist (length xs) cf cl))
  unfolding putc
  putc-full full h =
      let t : (m.cfreelist == 0) ≡ true = ground (arith, h.free) in
      let u : (cl % 16 == 0) ≡ true = ground (arith, full) in
      rw (cl-set h.run, u, t)
        (inl (refl, refl, full, Holds-Filled (Filled-full m cl cf bs xs full h)))

  putc-new :
      (f : ℕ) (fs : List ℕ)
      → cl % 16 ≡ 0
      → Filled m cl cf bs (f ∷ fs) xs
      → Appended m bs (f ∷ fs) xs c cl (putc c m (clist (length xs) cf cl))
  unfolding putc
  putc-new f fs full h =
      let t : (m.cfreelist == 0) ≡ false = ground (arith, h.free.0, h.free.1) in
      let u : (cl % 16 == 0) ≡ true = ground (arith, full) in
      let (h', fr) = push_new (c % 256) h full in
      rw (cl-set h.run, u, t)
        (inr (
          refl,
          (
            record {
              blocks = bs ++ (f ∷ []);
              frees = fs;
              holds = record {
                shape = filled h'.run;
                count = omega (arith, length-append xs (c % 256 ∷ []));
                free = h'.free;
                apart = h'.apart;
              };
              frame = fr;
            },
            inr (omega (arith, h.free.0, h.free.1.aligned)),
          ),
        ))

  putc-room :
      (fs : List ℕ)
      → cl % 16 ≢ 0
      → Filled m cl cf bs fs xs
      → Appended m bs fs xs c cl (putc c m (clist (length xs) cf cl))
  unfolding putc
  putc-room fs room h =
      let u : (cl % 16 == 0) ≡ false = ground (arith, room) in
      let (h', fr) = push_room (c % 256) h room in
      rw (cl-set h.run, u)
        (inr (
          refl,
          (
            record {
              blocks = bs;
              frees = fs;
              holds = record {
                shape = filled h'.run;
                count = omega (arith, length-append xs (c % 256 ∷ []));
                free = h'.free;
                apart = h'.apart;
              };
              frame = fr;
            },
            inl refl,
          ),
        ))

  putc-Run :
      (fs : List ℕ)
      → Filled m cl cf bs fs xs
      → Appended m bs fs xs c cl (putc c m (clist (length xs) cf cl))
  putc-Run [] h = elim (ℕ_discrete (cl % 16) 0) [
    | yes full ↦ putc-full full h
    | no room ↦ putc-room [] room h
  ]
  putc-Run (f ∷ fs) h = elim (ℕ_discrete (cl % 16) 0) [
    | yes full ↦ putc-new f fs full h
    | no room ↦ putc-room (f ∷ fs) room h
  ]

putc-Shape :
    {m : Pool} {q : Clist} (c : ℕ) {bs fs xs : List ℕ}
    → Shape m q bs xs
    → q.c_cc ≡ length xs
    → FreeFrom m m.cfreelist fs
    → ((a : ℕ) → has a bs ≡ true → has a fs ≡ false)
    → Appended m bs fs xs c q.c_cl (putc c m q)
putc-Shape {m} {q} c {fs} (empty z) n free apart =
    subst (λ k. Appended m [] fs [] c k (putc c m (clist q.c_cc q.c_cf k))) (sym z)
      (putc-empty m c q.c_cc q.c_cf fs n free)
putc-Shape {m} {q} c {bs} {fs} {xs} (filled r) n free apart =
    subst (λ k. Appended m bs fs xs c q.c_cl (putc c m (clist k q.c_cf q.c_cl))) (sym n)
      (putc-Run m c q.c_cl q.c_cf bs xs fs (record { run = r; free = free; apart = apart }))

-- putc either appends the character (its low eight bits) behind those that the list held, keeping
-- to the blocks of the list and the free ones; or it reports failure, the list holds what it held,
-- and there was neither a free block nor room in the list's last block.
pub putc_lem :
    {m : Pool} {q : Clist} {bs fs xs : List ℕ} (c : ℕ)
    → Holds m q bs fs xs
    → Appended m bs fs xs c q.c_cl (putc c m q)
putc_lem c h = putc-Shape c h.shape h.count h.free h.apart
