-- ===== src/Pipes/Content.antt =====
-- The bytes in a pipe, and what UNIX_readp takes off them.
use hostable_32v.Prelude.{
  ℕ, ◌+◌, ◌-◌, ◌/◌, ◌%◌, ◌^◌, ◌<◌, ◌≤◌, ◌≡◌, refl, sym, subst, ◌∙◌, ap, Bool, true, false, not,
  ◌&&◌, List, [], ◌∷◌, ◌++◌, arith, ltb, ◌==◌, get_or, if◌then◌else◌, Outcome, done, Bool-cases,
  inl, inr,
}
use hostable_32v.Inodes.{Inode}
use hostable_32v.FileIo.{Disk, State, Args, readi, up_to, is_character}
use hostable_32v.FileIo.Store.{IsReadable, byte, IsReady}
use hostable_32v.FileIo.Moved.{IsMoved}
use hostable_32v.FileIo.Read.{readi-IsRead}
use hostable_32v.Pipes.{
  Pipe, Passed, readp, readp_end, readp_empty, locked_out, iwrite, iread, bit_set, with_bit,
  without_bit, leaves, waits_on, on_inode, on_bytes, on_room, released, taken_lock-locked,
  taken_lock-free,
}
use hostable_32v.Pipes.Span.{span, span-append, span-cong}

-- Arguments that a process may call with.
pub record MayMove {S : Type 0} (d : Disk S) (u : Args) : Type 0 where
  pub no_error : u.u_error ≡ 0
  pub small_count : u.u_count + 2 ^ 13 < 2 ^ 31
  pub allowed :
      (b n : ℕ)
      → u.u_base ≤ b
      → b + n ≤ u.u_base + u.u_count
      → (not (u.u_segflg == 1) && d.faults b n) ≡ false

pub MayMove-IsReady :
    {S : Type 0} (d : Disk S) (ip : Inode) (u : Args) (offset : ℕ) (s : S)
    → MayMove d u
    → ip.i_mode / 4096 % 16 ≡ 8
    → offset < 2 ^ 13
    → IsReady d (record { ip = ip; u = record u { u_offset = offset }; disk = s })
MayMove-IsReady d ip u offset s may regular small = record {
  no_device = ground (arith, regular);
  no_error = may.no_error;
  small_offset = omega (arith, may.small_count, small);
  allowed = may.allowed;
}

-- The bits of IREAD and IWRITE are not those of the type.
pub type-bit :
    (test : Bool) (mode : ℕ)
    → (if test && bit_set iwrite mode then without_bit iwrite mode else mode) / 4096 % 16
      ≡ mode / 4096 % 16
type-bit true mode = ground arith
type-bit false mode = refl

-- Nothing is left between equal offsets, which may go to 0.
span-reset :
    (g : ℕ → ℕ) (offset size : ℕ)
    → let caught_up = offset == size in
      span g offset (size - offset)
      ≡ span g
          (if caught_up then 0 else offset)
          ((if caught_up then 0 else size) - (if caught_up then 0 else offset))
unfolding span
span-reset g offset size = elim (Bool-cases (offset == size)) [
  | inl y ↦ let none_left : size - offset ≡ 0 = ground (arith, y) in rw (y, none_left) refl
  | inr o ↦ rw o refl
]

pub bit-type :
    (test : Bool) (mode : ℕ)
    → (if test then mode else with_bit iread mode) / 4096 % 16 ≡ mode / 4096 % 16
bit-type true mode = refl
bit-type false mode = ground arith

turn_alone :
    (alone : Bool)
    → (if alone then leaves else waits_on on_bytes)
      ≡ (if not alone then waits_on on_bytes else leaves)
turn_alone true = refl
turn_alone false = refl

-- A reader that is to sleep has left its mark.
marked_alone :
    (alone : Bool) (mode : ℕ)
    → (if not alone then bit_set iread (if alone then mode else with_bit iread mode) else true)
      ≡ true
marked_alone true mode = refl
marked_alone false mode = ground arith

and_false : (b : Bool) → (b && false) ≡ false
and_false true = refl
and_false false = refl

module _ {S : Type 0} (d : Disk S) (Inv : S → Type 0) (look : S → ℕ → List ℕ) where
  pub record IsPipe (p : Pipe S) : Type 0 where
    pub inv : Inv p.disk
    pub regular : p.ip.i_mode / 4096 % 16 ≡ 8
    pub within : p.f_offset ≤ p.ip.i_size
    pub small : p.ip.i_size < 2 ^ 13

  -- The bytes from the reader's offset to the size.
  unfoldable pub content : Pipe S → List ℕ
  content p = span (byte look p.disk) p.f_offset (p.ip.i_size - p.f_offset)

  -- The reader has taken all the bytes that there were.
  abbrev pub makes_room : Pipe S → ℕ → Bool
  makes_room p n = not p.ip.i_lock && not (p.ip.i_size == 0) && (p.f_offset + n == p.ip.i_size)

  -- A call of UNIX_readp moves the first bytes of the pipe to memory.
  pub record Taken (u : Args) (p : Pipe S) (o : Outcome (Passed S)) : Type 0 where
    pub after : Passed S
    pub equation : o ≡ done after
    pub is_pipe : IsPipe after.pipe
    pub n : ℕ
    pub number : n ≡ (if p.ip.i_lock then 0 else up_to (p.ip.i_size - p.f_offset) u.u_count)
    pub count : after.u.u_count + n ≡ u.u_count
    pub error : after.u.u_error ≡ 0
    pub bytes : content p ≡ span after.u.memory u.u_base n ++ content after.pipe
    pub turn : after.turn ≡ (
        if p.ip.i_lock
        then waits_on on_inode
        else if (p.ip.i_size == 0) && not (ltb p.ip.i_count 2)
        then waits_on on_bytes
        else leaves)
    pub marked :
        (if (p.ip.i_size == 0) && not p.ip.i_lock && not (ltb p.ip.i_count 2)
          then bit_set iread after.pipe.ip.i_mode
          else true)
        ≡ true
    pub unlocked_too : Bool
    pub woken : after.woken ≡ (
        (if makes_room p n && bit_set iwrite p.ip.i_mode then on_room ∷ [] else [])
        ++ released unlocked_too)

  -- The state in which UNIX_readi is called.
  abbrev pub started : Args → Pipe S → State S
  started u p = record {
    ip = record (p.ip) { i_lock = true };
    u = record u { u_offset = p.f_offset };
    disk = p.disk;
  }

  taken_bytes :
      (u : Args) (p : Pipe S) (t' : State S) (n : ℕ)
      → n ≡ up_to (p.ip.i_size - p.f_offset) u.u_count
      → p.f_offset ≤ p.ip.i_size
      → IsMoved d Inv look n (started u p) t'
      → content p
        ≡ span t'.u.memory u.u_base n
          ++ span (byte look t'.disk) t'.u.u_offset (t'.ip.i_size - t'.u.u_offset)
  unfolding content
  taken_bytes u p t' n number within m =
      let g = byte look p.disk in
      let rest = t'.ip.i_size - t'.u.u_offset in
      let both : p.ip.i_size - p.f_offset ≡ n + rest =
        ground (arith, number, within, m.size, m.offset) in
      let first : span g p.f_offset n ≡ span t'.u.memory u.u_base n =
        span-cong g t'.u.memory p.f_offset u.u_base n (λ i l.
          let at : u.u_base + i - u.u_base ≡ i = omega arith in
          ground (arith, at, l, m.memory (u.u_base + i))) in
      let second : span g (p.f_offset + n) rest ≡ span (byte look t'.disk) t'.u.u_offset rest =
        span-cong g (byte look t'.disk) (p.f_offset + n) t'.u.u_offset rest (λ i l.
          let q = t'.u.u_offset + i in
          let at : p.f_offset + n + i ≡ q = omega (arith, m.offset) in
          ap g at ∙ ap (λ bs. get_or bs (q % 512) 0) (sym (m.same (q / 512)))) in
      ap (span g p.f_offset) both
      ∙ span-append g p.f_offset n rest
      ∙ ap (λ l. l ++ span g (p.f_offset + n) rest) first
      ∙ ap (λ l. span t'.u.memory u.u_base n ++ l) second

  readp_end-IsPipe :
      (u : Args) (p : Pipe S) (t' : State S) (n : ℕ)
      → n ≡ up_to (p.ip.i_size - p.f_offset) u.u_count
      → IsPipe p
      → IsMoved d Inv look n (started u p) t'
      → IsPipe (readp_end t').pipe
  unfolding readp_end
  readp_end-IsPipe u p t' n number pipe m =
      let type_kept = type-bit (t'.u.u_offset == t'.ip.i_size) t'.ip.i_mode in
      record {
        inv = m.inv;
        regular = type_kept ∙ ap (λ mode. mode / 4096 % 16) m.mode ∙ pipe.regular;
        within = ground (arith, m.offset, m.size, number, pipe.within);
        small = ground (arith, m.size, pipe.small);
      }

  readp_end-Taken :
      (u : Args) (p : Pipe S) (t' : State S) (n : ℕ)
      → n ≡ up_to (p.ip.i_size - p.f_offset) u.u_count
      → p.ip.i_lock ≡ false
      → (p.ip.i_size == 0) ≡ false
      → IsPipe p
      → IsMoved d Inv look n (started u p) t'
      → Taken u p (done (readp_end t'))
  unfolding readp_end content
  readp_end-Taken u p t' n number lock some_bytes pipe m = record {
    after = readp_end t';
    equation = refl;
    is_pipe = readp_end-IsPipe u p t' n number pipe m;
    n = n;
    number = rw lock number;
    count = m.count;
    error = m.error;
    bytes =
        taken_bytes u p t' n number pipe.within m
        ∙ ap (λ l. span t'.u.memory u.u_base n ++ l)
            (span-reset (byte look t'.disk) t'.u.u_offset t'.ip.i_size);
    turn = rw (lock, some_bytes) refl;
    marked = rw some_bytes refl;
    unlocked_too = t'.ip.i_want;
    woken = rw (lock, some_bytes, m.offset, m.size, m.mode) refl;
  }

  readp_empty-Taken :
      (u : Args) (p : Pipe S)
      → p.ip.i_lock ≡ false
      → (p.ip.i_size == 0) ≡ true
      → IsPipe p
      → u.u_error ≡ 0
      → Taken u p (done (readp_empty (record p { ip = record (p.ip) { i_lock = true } }) u))
  unfolding readp_empty content span
  readp_empty-Taken u p lock empty pipe fine =
      let type_kept = bit-type (ltb p.ip.i_count 2) p.ip.i_mode in
      record {
        after = readp_empty (record p { ip = record (p.ip) { i_lock = true } }) u;
        equation = refl;
        is_pipe = record {
          inv = pipe.inv;
          regular = type_kept ∙ pipe.regular;
          within = pipe.within;
          small = pipe.small;
        };
        n = 0;
        number = rw lock (ground (arith, empty));
        count = omega arith;
        error = fine;
        bytes = refl;
        turn = rw (lock, empty) (turn_alone (ltb p.ip.i_count 2));
        marked = rw (lock, empty) (marked_alone (ltb p.ip.i_count 2) p.ip.i_mode);
        unlocked_too = p.ip.i_want;
        woken = rw (lock, empty) refl;
      }

  locked_out-Taken :
      (u : Args) (p : Pipe S)
      → p.ip.i_lock ≡ true
      → IsPipe p
      → u.u_error ≡ 0
      → Taken u p (done (locked_out 0 p u))
  unfolding locked_out content span
  locked_out-Taken u p lock pipe fine = record {
    after = locked_out 0 p u;
    equation = refl;
    is_pipe = record {
      inv = pipe.inv;
      regular = pipe.regular;
      within = pipe.within;
      small = pipe.small;
    };
    n = 0;
    number = rw lock refl;
    count = omega arith;
    error = fine;
    bytes = refl;
    turn = rw lock refl;
    marked = rw (lock, and_false) refl;
    unlocked_too = false;
    woken = rw lock refl;
  }

  readp-locked :
      (fuel : ℕ) (u : Args) (p : Pipe S)
      → p.ip.i_lock ≡ true
      → readp fuel d u p ≡ done (locked_out 0 p u)
  unfolding readp
  readp-locked fuel u p lock = rw (readp, taken_lock-locked p.ip lock) refl

  readp-nothing :
      (fuel : ℕ) (u : Args) (p : Pipe S)
      → p.ip.i_lock ≡ false
      → (p.ip.i_size == 0) ≡ true
      → readp fuel d u p ≡ done (readp_empty (record p { ip = record (p.ip) { i_lock = true } }) u)
  unfolding readp
  readp-nothing fuel u p free empty = rw (readp, taken_lock-free p.ip free, empty) refl

  readp-bytes :
      (fuel : ℕ) (u : Args) (p : Pipe S) (t' : State S)
      → p.ip.i_lock ≡ false
      → (p.ip.i_size == 0) ≡ false
      → readi fuel d (started u p) ≡ done t'
      → readp fuel d u p ≡ done (readp_end t')
  unfolding readp
  readp-bytes fuel u p t' free some_bytes e =
      rw (readp, taken_lock-free p.ip free, some_bytes, e) refl

  -- On a well-formed pipe whose file has 16 blocks that can be read, for a process without an error whose
  -- memory has no fault, a call of `UNIX_readp` ends with no error: it sleeps for the lock of a locked
  -- pipe, sleeps for bytes with IREAD set where the pipe has size 0 and another process has it open, and
  -- returns otherwise. The bytes that it has put in memory, followed by those in the pipe afterwards,
  -- are those that were in the pipe, in order. Where the pipe is not locked, it takes as many as are
  -- asked for or are there; those who wait for room, as IWRITE says, are woken exactly when it takes the
  -- last bytes of a pipe whose size is not 0.
  pub readp-Taken :
      (limit : ℕ)
      → IsReadable d Inv look limit
      → 16 ≤ limit
      → (fuel : ℕ) (u : Args) (p : Pipe S) → IsPipe p
      → MayMove d u
      → u.u_count / 512 + 3 ≤ fuel
      → Taken u p (readp fuel d u p)
  readp-Taken limit readable long fuel u p pipe may enough = elim (Bool-cases p.ip.i_lock) [
    | inl lock ↦
        subst (Taken u p) (sym (readp-locked fuel u p lock))
          (locked_out-Taken u p lock pipe may.no_error)
    | inr free ↦ elim (Bool-cases (p.ip.i_size == 0)) [
      | inl empty ↦
          subst (Taken u p) (sym (readp-nothing fuel u p free empty))
            (readp_empty-Taken u p free empty pipe may.no_error)
      | inr some_bytes ↦
          let file : is_character p.ip ≡ false = ground (arith, pipe.regular) in
          let r =
            readi-IsRead d Inv look limit readable fuel (started u p) pipe.inv
              (MayMove-IsReady d (record (p.ip) { i_lock = true }) u p.f_offset p.disk may
                pipe.regular (omega (arith, pipe.within, pipe.small)))
              file (omega (arith, pipe.small, long)) enough in
          subst (Taken u p) (sym (readp-bytes fuel u p r.after free some_bytes r.equation))
            (readp_end-Taken u p r.after _ refl free some_bytes pipe r.is_moved)
    ]
  ]
