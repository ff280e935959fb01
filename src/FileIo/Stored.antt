-- ===== src/FileIo/Stored.antt =====
-- The bytes that a round of UNIX_writei puts in a block.
use hostable_32v.Prelude.{
  ℕ, zero, suc, ◌+◌, ◌-◌, ◌*◌, ◌/◌, ◌%◌, ◌^◌, ◌<◌, ◌≤◌, ◌≡◌, refl, sym, subst, ◌∙◌, ap, Bool, true,
  false, ◌&&◌, ◌||◌, List, [], ◌∷◌, length, get_or, arith, ltb, leb, ◌==◌, if◌then◌else◌,
  Bool-cases, inl, inr, ◌⊎◌,
}
use hostable_32v.FileIo.{Disk, State, moved, moved_on}
use hostable_32v.FileIo.Store.{good, byte}
use hostable_32v.FileIo.{copied_in, iomove_write, write_block}
use hostable_32v.Inodes.{Inode, ifmt, ifdir, ifreg}
use hostable_32v.FileIo.Store.{Writes, IsStore}

copied_in-get :
    (i on n base : ℕ) (memory : ℕ → ℕ) (bytes : List ℕ) (j : ℕ)
    → j < length bytes
    → get_or (copied_in i on n base memory bytes) j 0 ≡ (
        if leb on (i + j) && ltb (i + j) (on + n)
        then memory (base + (i + j - on))
        else get_or bytes j 0)
unfolding copied_in
copied_in-get i on n base memory [] j l = absurd (omega (arith, l))
copied_in-get i on n base memory (b ∷ bytes) zero l =
    let here : i + 0 ≡ i = omega arith in rw here refl
copied_in-get i on n base memory (b ∷ bytes) (suc j) l =
    let next : suc i + j ≡ i + suc j = omega arith in
    subst
      (λ p.
        get_or (copied_in (suc i) on n base memory bytes) j 0
        ≡ (if leb on p && ltb p (on + n) then memory (base + (p - on)) else get_or bytes j 0))
      next (copied_in-get (suc i) on n base memory bytes j (omega (arith, l)))

pub length-copied_in :
    (i on n base : ℕ) (memory : ℕ → ℕ) (bytes : List ℕ)
    → length (copied_in i on n base memory bytes) ≡ length bytes
unfolding copied_in
length-copied_in i on n base memory [] = refl
length-copied_in i on n base memory (b ∷ bytes) =
    ap suc (length-copied_in (suc i) on n base memory bytes)

-- Whether the size of the inode grows.
abbrev pub has_size : Inode → Bool
has_size ip = (ifmt ip == ifdir) || (ifmt ip == ifreg)

module _ {S : Type 0} (d : Disk S) (Inv : S → Type 0) (look : S → ℕ → List ℕ) where
  -- From `t` to `t'` these many bytes of memory have gone to the file.
  pub record IsWritten (k : ℕ) (t t' : State S) : Type 0 where
    pub inv : Inv t'.disk
    pub base : t'.u.u_base ≡ t.u.u_base + k
    pub offset : t'.u.u_offset ≡ t.u.u_offset + k
    pub count : t'.u.u_count + k ≡ t.u.u_count
    pub segflg : t'.u.u_segflg ≡ t.u.u_segflg
    pub error : t'.u.u_error ≡ 0
    pub size :
        t'.ip.i_size
        ≡ (if ltb t.ip.i_size (t.u.u_offset + k) then t.u.u_offset + k else t.ip.i_size)
    pub mode : t'.ip.i_mode ≡ t.ip.i_mode
    pub memory : t'.u.memory ≡ t.u.memory
    pub bytes :
        (p : ℕ)
        → byte look t'.disk p ≡ (
            if leb t.u.u_offset p && ltb p (t.u.u_offset + k)
            then t.u.memory (t.u.u_base + (p - t.u.u_offset))
            else byte look t.disk p)

  pub IsWritten-trans :
      (k l : ℕ) (t t₁ t' : State S)
      → 0 < l
      → IsWritten k t t₁
      → IsWritten l t₁ t'
      → IsWritten (k + l) t t'
  IsWritten-trans k l t t₁ t' pos m m' = record {
    inv = m'.inv;
    base = omega (arith, m'.base, m.base);
    offset = omega (arith, m'.offset, m.offset);
    count = omega (arith, m'.count, m.count);
    segflg = m'.segflg ∙ m.segflg;
    error = m'.error;
    size = ground (arith, m.size, m'.size, m.offset);
    mode = m'.mode ∙ m.mode;
    memory = m'.memory ∙ m.memory;
    bytes = λ p. m'.bytes p ∙ elim (Bool-cases (leb t₁.u.u_offset p)) [
      | inl y ↦
          let at : t₁.u.u_base + (p - t₁.u.u_offset) ≡ t.u.u_base + (p - t.u.u_offset) =
            ground (arith, y, m.base, m.offset) in
          let e : t₁.u.memory (t₁.u.u_base + (p - t₁.u.u_offset))
              ≡ t.u.memory (t.u.u_base + (p - t.u.u_offset)) =
            ap t₁.u.memory at ∙ ap (λ g. g (t.u.u_base + (p - t.u.u_offset))) m.memory in
          ground (arith, y, e, m.offset, m.bytes p)
      | inr o ↦ ground (arith, o, m.offset, m.bytes p)
    ];
  }

  -- The bytes of the file where a block has taken `n` others.
  pub bytes_stored :
      (s s' : S) (lbn on n base : ℕ) (memory : ℕ → ℕ) (old : List ℕ)
      → length old ≡ 512
      → on < 512
      → (n ≡ 512) ⊎ (old ≡ look s lbn)
      → on + n ≤ 512
      → ((l : ℕ) → look s' l ≡ (if l == lbn then copied_in 0 on n base memory old else look s l))
      → (p : ℕ)
      → byte look s' p ≡ (
          if leb (lbn * 512 + on) p && ltb p (lbn * 512 + on + n)
          then memory (base + (p - (lbn * 512 + on)))
          else byte look s p)
  bytes_stored s s' lbn on n base memory old l r full fits looks p =
      elim (Bool-cases (p / 512 == lbn)) [
        | inl y ↦
            let e : byte look s' p ≡ get_or (copied_in 0 on n base memory old) (p % 512) 0 =
              ap (λ bs. get_or bs (p % 512) 0) (looks (p / 512))
              ∙ ap
                  (λ b.
                    get_or (if b then copied_in 0 on n base memory old else look s (p / 512))
                      (p % 512) 0)
                  y in
            let g = copied_in-get 0 on n base memory old (p % 512) (omega (arith, l)) in
            let at : p / 512 ≡ lbn = ground (arith, y) in
            e ∙ g ∙ elim (Bool-cases (leb on (p % 512) && ltb (p % 512) (on + n))) [
              | inl within ↦
                  let place : base + (0 + p % 512 - on) ≡ base + (p - (lbn * 512 + on)) =
                    omega (arith, at) in
                  ground (arith, within, at, place)
              | inr outside ↦ elim full [
                | inl all ↦ absurd (ground (arith, outside, all, fits))
                | inr kept ↦
                    let same : get_or old (p % 512) 0 ≡ byte look s p =
                      ap (λ bs. get_or bs (p % 512) 0) (kept ∙ ap (look s) (sym at)) in
                    ground (arith, outside, at, same)
              ]
            ]
        | inr o ↦
            let e : byte look s' p ≡ byte look s p =
              ap (λ bs. get_or bs (p % 512) 0) (looks (p / 512))
              ∙ ap
                  (λ b.
                    get_or (if b then copied_in 0 on n base memory old else look s (p / 512))
                      (p % 512) 0)
                  o in
            e ∙ ground (arith, o, fits)
      ]

  -- What a block has taken when its round ends.
  unfoldable pub old_bytes : S → ℕ → ℕ → List ℕ → List ℕ
  old_bytes s bn n bytes = if n == 512 then d.getblk bn s else bytes

  unfoldable pub stored : ℕ → ℕ → ℕ → List ℕ → State S → State S
  stored bn on n bytes t = record t {
    u = moved_on n t.u;
    disk =
        d.bdwrite bn (copied_in 0 on n t.u.u_base t.u.memory (old_bytes t.disk bn n bytes)) t.disk;
    ip = record (t.ip) {
      i_size =
          if ltb t.ip.i_size ((t.u.u_offset + n) % 2 ^ 32)
          then (t.u.u_offset + n) % 2 ^ 32
          else t.ip.i_size;
      i_upd = true;
      i_chg = true;
    };
  }

  pub write_block-stored :
      (t : State S) (bn on n : ℕ) (bytes : List ℕ)
      → d.bread bn t.disk ≡ good bytes
      → (t.u.u_error == 0) ≡ true
      → (n == 0) ≡ false
      → (t.u.u_segflg == 1) ≡ true
      → has_size t.ip ≡ true
      → write_block d bn on n t ≡ moved n (stored bn on n bytes t)
  unfolding write_block iomove_write stored old_bytes
  write_block-stored t bn on n bytes got fine some_bytes kernel sized =
      elim (Bool-cases (n == 512)) [
        | inl whole ↦ rw (whole, some_bytes, kernel, fine, sized) (ground arith)
        | inr part ↦ rw (got, part, some_bytes, kernel, fine, sized) (ground arith)
      ]

  pub old_kept : (s : S) (bn n : ℕ) (bytes : List ℕ) → (n ≡ 512) ⊎ (old_bytes s bn n bytes ≡ bytes)
  unfolding old_bytes
  old_kept s bn n bytes = elim (Bool-cases (n == 512)) [
    | inl whole ↦ inl (ground (arith, whole))
    | inr part ↦ inr (rw part refl)
  ]

  pub length-old_bytes :
      {limit : ℕ}
      → IsStore d Inv look limit
      → (t : State S) (lbn n : ℕ) → Inv t.disk
      → (w : Writes d Inv look t.disk lbn)
      → length (old_bytes w.after w.bn n (look t.disk lbn)) ≡ 512
  unfolding old_bytes
  length-old_bytes store t lbn n inv w = elim (Bool-cases (n == 512)) [
    | inl whole ↦ rw whole w.taken
    | inr part ↦ rw part (store.readable.sized t.disk lbn inv)
  ]
