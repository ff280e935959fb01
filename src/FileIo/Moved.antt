-- ===== src/FileIo/Moved.antt =====
-- The bytes that a round of UNIX_readi moves.
use hostable_32v.Prelude.{
  ℕ, ◌+◌, ◌-◌, ◌/◌, ◌%◌, ◌<◌, ◌≤◌, ◌≡◌, refl, ◌∙◌, ap, false, not, ◌&&◌, List, get_or, arith, ltb,
  leb, ◌==◌, if◌then◌else◌, Bool-cases, inl, inr,
}
use hostable_32v.BlockMap.{Answer}
use hostable_32v.FileIo.{Disk, State, moved, min_of, copied_out, iomove_read, read_at}
use hostable_32v.FileIo.Store.{Shows, hole, block, byte, IsReady}

module _ {S : Type 0} (d : Disk S) (Inv : S → Type 0) (look : S → ℕ → List ℕ) where
  -- From `t` to `t'` these many bytes of the file have gone to memory.
  pub record IsMoved (k : ℕ) (t t' : State S) : Type 0 where
    pub inv : Inv t'.disk
    pub same : (l : ℕ) → look t'.disk l ≡ look t.disk l
    pub base : t'.u.u_base ≡ t.u.u_base + k
    pub offset : t'.u.u_offset ≡ t.u.u_offset + k
    pub count : t'.u.u_count + k ≡ t.u.u_count
    pub segflg : t'.u.u_segflg ≡ t.u.u_segflg
    pub error : t'.u.u_error ≡ 0
    pub size : t'.ip.i_size ≡ t.ip.i_size
    pub mode : t'.ip.i_mode ≡ t.ip.i_mode
    pub memory :
        (a : ℕ)
        → t'.u.memory a ≡ (
            if leb t.u.u_base a && ltb a (t.u.u_base + k)
            then byte look t.disk (t.u.u_offset + (a - t.u.u_base))
            else t.u.memory a)

  same_byte :
      (s s' : S) → ((l : ℕ) → look s l ≡ look s' l) → (p : ℕ) → byte look s p ≡ byte look s' p
  same_byte s s' e p = ap (λ bs. get_or bs (p % 512) 0) (e (p / 512))

  pub IsMoved-trans :
      (k l : ℕ) (t t₁ t' : State S) → IsMoved k t t₁ → IsMoved l t₁ t' → IsMoved (k + l) t t'
  IsMoved-trans k l t t₁ t' m m' = record {
    inv = m'.inv;
    same = λ b. m'.same b ∙ m.same b;
    base = omega (arith, m'.base, m.base);
    offset = omega (arith, m'.offset, m.offset);
    count = omega (arith, m'.count, m.count);
    segflg = m'.segflg ∙ m.segflg;
    error = m'.error;
    size = m'.size ∙ m.size;
    mode = m'.mode ∙ m.mode;
    memory = λ a. m'.memory a ∙ elim (Bool-cases (leb t₁.u.u_base a)) [
      | inl y ↦
          let at : t₁.u.u_offset + (a - t₁.u.u_base) ≡ t.u.u_offset + (a - t.u.u_base) =
            ground (arith, y, m.base, m.offset) in
          let e : byte look t₁.disk (t₁.u.u_offset + (a - t₁.u.u_base))
              ≡ byte look t.disk (t.u.u_offset + (a - t.u.u_base)) =
            ap (byte look t₁.disk) at ∙ same_byte t₁.disk t.disk m.same _ in
          ground (arith, y, e, m.base, m.memory a)
      | inr n ↦ ground (arith, n, m.base, m.memory a)
    ];
  }

  -- A round that has got the bytes of the block moves `n` of them.
  pub IsMoved-bytes :
      (t t₁ : State S) (n : ℕ)
      → IsReady d t
      → 0 < n
      → n ≤ t.u.u_count
      → t.u.u_offset % 512 + n ≤ 512
      → Inv t₁.disk
      → ((l : ℕ) → look t₁.disk l ≡ look t.disk l)
      → t₁.u ≡ t.u
      → t₁.ip.i_size ≡ t.ip.i_size
      → t₁.ip.i_mode ≡ t.ip.i_mode
      → IsMoved n t (record t₁ {
        u = iomove_read d (look t.disk (t.u.u_offset / 512)) (t.u.u_offset % 512) n t₁.u;
      })
  unfolding iomove_read copied_out
  IsMoved-bytes t t₁ n ready pos room fits inv same u size mode =
      let some_bytes : (n == 0) ≡ false = ground (arith, pos) in
      let free : (not (t.u.u_segflg == 1) && d.faults t.u.u_base n) ≡ false =
        ready.allowed t.u.u_base n (omega arith) (omega (arith, room)) in
      rw (u, some_bytes, free)
        record {
          inv = inv;
          same = same;
          base = refl;
          offset = omega (arith, ready.small_offset, room);
          count = omega (arith, room);
          segflg = refl;
          error = ready.no_error;
          size = size;
          mode = mode;
          memory = λ a. elim (Bool-cases (leb t.u.u_base a && ltb a (t.u.u_base + n))) [
            | inl y ↦
                let i = a - t.u.u_base in
                let small : t.u.u_offset % 512 + i < 512 = ground (arith, y, fits) in
                let q : (t.u.u_offset + i) / 512 ≡ t.u.u_offset / 512 = omega (arith, small) in
                let r : (t.u.u_offset + i) % 512 ≡ t.u.u_offset % 512 + i = omega (arith, small) in
                rw (y, q, r) refl
            | inr o ↦ rw o refl
          ];
        }

  pub read_at_shown :
      (t t₁ : State S) (answer : Answer) (n : ℕ)
      → IsReady d t
      → 0 < n
      → n ≤ t.u.u_count
      → t.u.u_offset % 512 + n ≤ 512
      → Inv t₁.disk
      → ((l : ℕ) → look t₁.disk l ≡ look t.disk l)
      → t₁.u ≡ t.u
      → t₁.ip.i_size ≡ t.ip.i_size
      → t₁.ip.i_mode ≡ t.ip.i_mode
      → Shows d t₁.disk (look t.disk (t.u.u_offset / 512)) answer
      → read_at d answer (t.u.u_offset % 512) n t₁
        ≡ moved n (record t₁ {
          u = iomove_read d (look t.disk (t.u.u_offset / 512)) (t.u.u_offset % 512) n t₁.u;
        })
  unfolding read_at
  read_at_shown t t₁ answer n ready pos room fits inv same u size mode (hole e) =
      let whole : min_of n 512 ≡ n = ground (arith, fits) in rw (e, whole) refl
  read_at_shown t t₁ answer n ready pos room fits inv same u size mode (block bn e) =
      let whole : min_of n 512 ≡ n = ground (arith, fits) in rw (e, whole) refl

  pub IsMoved-none : (t : State S) → Inv t.disk → t.u.u_error ≡ 0 → IsMoved 0 t t
  IsMoved-none t inv fine = record {
    inv = inv;
    same = λ _. refl;
    base = omega arith;
    offset = omega arith;
    count = omega arith;
    segflg = refl;
    error = fine;
    size = refl;
    mode = refl;
    memory = λ a. ground arith;
  }
