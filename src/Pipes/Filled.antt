-- ===== src/Pipes/Filled.antt =====
-- What UNIX_writep adds to the bytes in a pipe.
use mathlib.Core.List.{append-nil}
use hostable_32v.Prelude.{
  ℕ, ◌+◌, ◌-◌, ◌/◌, ◌%◌, ◌≤◌, ◌≡◌, refl, sym, ◌∙◌, ap, Bool, true, false, not, ◌&&◌, ◌||◌, List,
  ◌++◌, arith, ltb, leb, ◌==◌, if◌then◌else◌, Outcome, done,
}
use hostable_32v.Inodes.{Inode}
use hostable_32v.FileIo.{Disk, State, Args, writei, min_of}
use hostable_32v.FileIo.Store.{byte}
use hostable_32v.FileIo.Stored.{IsWritten}
use hostable_32v.Pipes.{
  Pipe, Passed, Turn, leaves, again, waits_on, on_inode, on_room, writep, writep_end, writep_rest,
  locked_out, taken_lock-locked, taken_lock-free, iwrite, iread, bit_set, with_bit, without_bit,
  epipe, pipsiz,
}
use hostable_32v.Pipes.Span.{span, span-append, span-cong}
use hostable_32v.Pipes.Content.{IsPipe, content}

type-read :
    (mode : ℕ)
    → (if bit_set iread mode then without_bit iread mode else mode) / 4096 % 16 ≡ mode / 4096 % 16
type-read mode = ground arith

pub type-write : (mode : ℕ) → with_bit iwrite mode / 4096 % 16 ≡ mode / 4096 % 16
type-write mode = ground arith

-- How many bytes go to the pipe at once.
abbrev pub put_now : ℕ → Inode → ℕ
put_now left ip =
    if ip.i_lock || ltb ip.i_count 2 || leb pipsiz ip.i_size then 0 else min_of left pipsiz

-- How the round ends.
abbrev pub turn_of : ℕ → Inode → Turn
turn_of left ip =
    if ip.i_lock
    then waits_on on_inode
    else if (left == 0) || ltb ip.i_count 2
    then leaves
    else if leb pipsiz ip.i_size
    then waits_on on_room
    else again

-- Whether no one is there to read.
abbrev pub is_broken : ℕ → Inode → Bool
is_broken left ip = not ip.i_lock && not (left == 0) && ltb ip.i_count 2

grown :
    {size' : ℕ} (size n : ℕ)
    → size' ≡ (if ltb size (size + n) then size + n else size)
    → size' ≡ size + n
grown size n e = ground (arith, e)

none_added : (l : List ℕ) (g : ℕ → ℕ) (base : ℕ) → l ++ span g base 0 ≡ l
unfolding span
none_added l g base = append-nil l

module _ {S : Type 0} (d : Disk S) (Inv : S → Type 0) (look : S → ℕ → List ℕ) where
  -- A round of UNIX_writep puts bytes behind those of the pipe.
  pub record Put (left : ℕ) (u : Args) (p : Pipe S) (o : Outcome (Passed S)) : Type 0 where
    pub after : Passed S
    pub equation : o ≡ done after
    pub is_pipe : IsPipe d Inv look after.pipe
    pub left_over : after.left + put_now left p.ip ≡ left
    pub base : after.u.u_base ≡ u.u_base + put_now left p.ip
    pub segflg : after.u.u_segflg ≡ u.u_segflg
    pub size : after.pipe.ip.i_size ≡ p.ip.i_size + put_now left p.ip
    pub memory : after.u.memory ≡ u.memory
    pub error : after.u.u_error ≡ (if is_broken left p.ip then epipe else 0)
    pub sigpipe : after.sigpipe ≡ is_broken left p.ip
    pub turn : after.turn ≡ turn_of left p.ip
    pub bytes :
        content d Inv look after.pipe
        ≡ content d Inv look p ++ span u.memory u.u_base (put_now left p.ip)

  -- The state in which UNIX_writei is called.
  abbrev pub putting : ℕ → Args → Pipe S → State S
  putting n u p = record {
    ip = record (p.ip) { i_lock = true };
    u = record u { u_offset = p.ip.i_size; u_count = n };
    disk = p.disk;
  }

  put_bytes :
      (n : ℕ) (u : Args) (p : Pipe S) (t' : State S)
      → p.f_offset ≤ p.ip.i_size
      → IsWritten d Inv look n (putting n u p) t'
      → span (byte look t'.disk) p.f_offset (t'.ip.i_size - p.f_offset)
        ≡ content d Inv look p ++ span u.memory u.u_base n
  unfolding content
  put_bytes n u p t' within m =
      let g = byte look t'.disk in
      let held = p.ip.i_size - p.f_offset in
      let both : t'.ip.i_size - p.f_offset ≡ held + n = ground (arith, within, m.size) in
      let first : span g p.f_offset held ≡ span (byte look p.disk) p.f_offset held =
        span-cong g (byte look p.disk) p.f_offset p.f_offset held (λ i l.
          let before : leb p.ip.i_size (p.f_offset + i) ≡ false = ground (arith, l) in
          ground (arith, before, m.bytes (p.f_offset + i))) in
      let second : span g (p.f_offset + held) n ≡ span u.memory u.u_base n =
        span-cong g u.memory (p.f_offset + held) u.u_base n (λ i l.
          let q = p.f_offset + held + i in
          let at : u.u_base + (q - p.ip.i_size) ≡ u.u_base + i = omega (arith, within) in
          let e = ap u.memory at in
          let here : (leb p.ip.i_size q && ltb q (p.ip.i_size + n)) ≡ true =
            ground (arith, l, within) in
          ground (arith, here, e, m.bytes q)) in
      ap (span g p.f_offset) both
      ∙ span-append g p.f_offset held n
      ∙ ap (λ l. l ++ span g (p.f_offset + held) n) first
      ∙ ap (λ l. span (byte look p.disk) p.f_offset held ++ l) second

  pub writep_end-Put :
      (left : ℕ) (u : Args) (p : Pipe S) (t' : State S)
      → p.ip.i_lock ≡ false
      → (left == 0) ≡ false
      → ltb p.ip.i_count 2 ≡ false
      → leb pipsiz p.ip.i_size ≡ false
      → IsPipe d Inv look p
      → IsWritten d Inv look (min_of left pipsiz) (putting (min_of left pipsiz) u p) t'
      → Put left u p (done (writep_end (left - min_of left pipsiz) p.f_offset t'))
  unfolding writep_end content
  writep_end-Put left u p t' lock some_left readers room pipe m =
      let n = min_of left pipsiz in
      let all : put_now left p.ip ≡ n = rw (lock, readers, room) refl in
      record {
        after = writep_end (left - n) p.f_offset t';
        equation = refl;
        is_pipe = record {
          inv = m.inv;
          regular = type-read t'.ip.i_mode ∙ ap (λ mode. mode / 4096 % 16) m.mode ∙ pipe.regular;
          within = ground (arith, m.size, pipe.within);
          small = ground (arith, m.size, room);
        };
        left_over = ap (λ k. left - n + k) all ∙ ground arith;
        base = m.base ∙ ap (λ k. u.u_base + k) (sym all);
        segflg = m.segflg;
        size = grown p.ip.i_size n m.size ∙ ap (λ k. p.ip.i_size + k) (sym all);
        memory = m.memory;
        error = rw (lock, some_left, readers) m.error;
        sigpipe = rw (lock, some_left, readers) refl;
        turn = rw (lock, some_left, readers, room) refl;
        bytes =
            put_bytes n u p t' pipe.within m
            ∙ ap (λ k. content d Inv look p ++ span u.memory u.u_base k) (sym all);
      }

  -- A round that writes nothing.
  pub writep_rest-Put :
      (left : ℕ) (u : Args) (p : Pipe S) (turn : Turn) (error : ℕ) (sigpipe : Bool) (mode count : ℕ)
      → IsPipe d Inv look p
      → mode / 4096 % 16 ≡ p.ip.i_mode / 4096 % 16
      → put_now left p.ip ≡ 0
      → error ≡ (if is_broken left p.ip then epipe else 0)
      → sigpipe ≡ is_broken left p.ip
      → turn ≡ turn_of left p.ip
      → Put left u p (
          done (
            writep_rest left turn error sigpipe
              (record (p.ip) { i_lock = true; i_mode = mode })
              p
              (record u { u_count = count })))
  unfolding writep_rest content
  writep_rest-Put left u p turn error sigpipe mode count pipe type none_put e s t = record {
    after =
        writep_rest left turn error sigpipe (record (p.ip) { i_lock = true; i_mode = mode }) p
          (record u { u_count = count });
    equation = refl;
    is_pipe = record {
      inv = pipe.inv;
      regular = type ∙ pipe.regular;
      within = pipe.within;
      small = pipe.small;
    };
    left_over = ap (λ k. left + k) none_put ∙ omega arith;
    base = omega arith ∙ ap (λ k. u.u_base + k) (sym none_put);
    segflg = refl;
    size = omega arith ∙ ap (λ k. p.ip.i_size + k) (sym none_put);
    memory = refl;
    error = e;
    sigpipe = s;
    turn = t;
    bytes = sym (
        ap (λ k. content d Inv look p ++ span u.memory u.u_base k) none_put
        ∙ none_added (content d Inv look p) u.memory u.u_base);
  }

  pub locked_out-Put :
      (left : ℕ) (u : Args) (p : Pipe S)
      → p.ip.i_lock ≡ true
      → IsPipe d Inv look p
      → u.u_error ≡ 0
      → Put left u p (done (locked_out left p u))
  unfolding locked_out content
  locked_out-Put left u p lock pipe fine =
      let none_put : put_now left p.ip ≡ 0 = rw lock refl in
      record {
        after = locked_out left p u;
        equation = refl;
        is_pipe = record {
          inv = pipe.inv;
          regular = pipe.regular;
          within = pipe.within;
          small = pipe.small;
        };
        left_over = ap (λ k. left + k) none_put ∙ omega arith;
        base = omega arith ∙ ap (λ k. u.u_base + k) (sym none_put);
        segflg = refl;
        size = omega arith ∙ ap (λ k. p.ip.i_size + k) (sym none_put);
        memory = refl;
        error = rw lock fine;
        sigpipe = rw lock refl;
        turn = rw lock refl;
        bytes = sym (
            ap (λ k. content d Inv look p ++ span u.memory u.u_base k) none_put
            ∙ none_added (content d Inv look p) u.memory u.u_base);
      }

  -- Where UNIX_writep has the lock: all is written, no one reads, or the pipe is full.
  pub writep-all :
      (fuel : ℕ) (u : Args) (p : Pipe S) (left : ℕ)
      → p.ip.i_lock ≡ false
      → (left == 0) ≡ true
      → writep fuel d left u p
        ≡ done (
            writep_rest left leaves u.u_error false
              (record (p.ip) { i_lock = true })
              p
              (record u { u_count = 0 }))
  unfolding writep
  writep-all fuel u p left free none_left = rw (writep, taken_lock-free p.ip free, none_left) refl

  pub writep-broken :
      (fuel : ℕ) (u : Args) (p : Pipe S) (left : ℕ)
      → p.ip.i_lock ≡ false
      → (left == 0) ≡ false
      → ltb p.ip.i_count 2 ≡ true
      → writep fuel d left u p
        ≡ done (writep_rest left leaves epipe true (record (p.ip) { i_lock = true }) p u)
  unfolding writep
  writep-broken fuel u p left free some_left alone =
      rw (writep, taken_lock-free p.ip free, some_left, alone) refl

  pub writep-full :
      (fuel : ℕ) (u : Args) (p : Pipe S) (left : ℕ)
      → p.ip.i_lock ≡ false
      → (left == 0) ≡ false
      → ltb p.ip.i_count 2 ≡ false
      → leb pipsiz p.ip.i_size ≡ true
      → writep fuel d left u p
        ≡ done (
            writep_rest left
              (waits_on on_room)
              u.u_error
              false
              (record (p.ip) { i_lock = true; i_mode = with_bit iwrite p.ip.i_mode })
              p
              u)
  unfolding writep
  writep-full fuel u p left free some_left readers full =
      rw (writep, taken_lock-free p.ip free, some_left, readers, full) refl

  pub writep-bytes :
      (fuel : ℕ) (u : Args) (p : Pipe S) (left : ℕ) (t' : State S)
      → p.ip.i_lock ≡ false
      → (left == 0) ≡ false
      → ltb p.ip.i_count 2 ≡ false
      → leb pipsiz p.ip.i_size ≡ false
      → writei fuel d (putting (min_of left pipsiz) u p) ≡ done t'
      → writep fuel d left u p ≡ done (writep_end (left - min_of left pipsiz) p.f_offset t')
  unfolding writep
  writep-bytes fuel u p left t' free some_left readers room e =
      rw (writep, taken_lock-free p.ip free, some_left, readers, room, e) refl

  pub writep-locked :
      (fuel : ℕ) (u : Args) (p : Pipe S) (left : ℕ)
      → p.ip.i_lock ≡ true
      → writep fuel d left u p ≡ done (locked_out left p u)
  unfolding writep
  writep-locked fuel u p left lock = rw (writep, taken_lock-locked p.ip lock) refl
