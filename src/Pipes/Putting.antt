-- ===== src/Pipes/Putting.antt =====
-- UNIX_writep, a round of it and its loop.
use mathlib.Core.List.{append_assoc}
use hostable_32v.Prelude.{
  ℕ, suc, ◌+◌, ◌-◌, ◌≤◌, ◌≡◌, ◌≢◌, refl, sym, subst, ◌∙◌, ap, true, false, not, ◌&&◌, ◌||◌, List,
  ◌++◌, arith, ltb, leb, ◌==◌, if◌then◌else◌, Outcome, done, Bool-cases, inl, inr,
}
use hostable_32v.Inodes.{Inode}
use hostable_32v.FileIo.{Disk, Args, min_of}
use hostable_32v.FileIo.Store.{IsStore}
use hostable_32v.FileIo.Write.{writei-IsDone}
use hostable_32v.Pipes.{
  Pipe, Passed, leaves, waits_on, on_room, writep, writep_loop, is_again, iwrite, with_bit, epipe,
  pipsiz,
}
use hostable_32v.Pipes.Span.{span, span-append}
use hostable_32v.Pipes.Content.{MayMove, MayMove-IsReady, IsPipe, content}
use hostable_32v.Pipes.Filled.{
  put_now, turn_of, is_broken, Put, putting, writep_end-Put, writep_rest-Put, locked_out-Put,
  writep-all, writep-broken, writep-full, writep-bytes, writep-locked, type-write,
}

-- A caller that may write these many bytes, from the kernel's memory.
abbrev pub MayPut : {S : Type 0} → Disk S → ℕ → Args → Type 0
MayPut d left u = MayMove d (record u { u_count = left }) × ((u.u_segflg == 1) ≡ true)

MayMove-fewer :
    {S : Type 0} (d : Disk S) (left n : ℕ) (u : Args)
    → n ≤ left
    → MayMove d (record u { u_count = left })
    → MayMove d (record u { u_count = n })
MayMove-fewer d left n u fewer may = record {
  no_error = may.no_error;
  small_count = omega (arith, may.small_count, fewer);
  allowed = λ b k low high. may.allowed b k low (omega (arith, high, fewer));
}

writep_loop-stops :
    {S : Type 0} (d : Disk S) (rounds fuel left : ℕ) (u : Args) (p : Pipe S) (r : Passed S)
    → writep fuel d left u p ≡ done r
    → is_again r.turn ≡ false
    → writep_loop (suc rounds) fuel d left u p ≡ done r
unfolding writep_loop
writep_loop-stops d rounds fuel left u p r e stops = rw (writep_loop, e, stops) refl

writep_loop-goes :
    {S : Type 0} (d : Disk S) (rounds fuel left : ℕ) (u : Args) (p : Pipe S) (r : Passed S)
    → writep fuel d left u p ≡ done r
    → is_again r.turn ≡ true
    → writep_loop (suc rounds) fuel d left u p ≡ writep_loop rounds fuel d r.left r.u r.pipe
unfolding writep_loop
writep_loop-goes d rounds fuel left u p r e goes = rw (writep_loop, e, goes) refl

-- Two stretches of memory that follow one another.
spans :
    {held : List ℕ} (old : List ℕ) (g g' : ℕ → ℕ) (base base' m n k : ℕ)
    → held ≡ old ++ span g base m
    → g' ≡ g
    → base' ≡ base + m
    → k ≡ m + n
    → held ++ span g' base' n ≡ old ++ span g base k
spans old g g' base base' m n k h e b a =
    ap (λ l. l ++ span g' base' n) h
    ∙ append_assoc old (span g base m) (span g' base' n)
    ∙ ap (λ l. old ++ (span g base m ++ l)) (ap (λ f. span f base' n) e ∙ ap (λ q. span g q n) b)
    ∙ ap (λ l. old ++ l) (sym (span-append g base m n) ∙ ap (span g base) (sym a))

differ : true ≢ false
differ e = ground (arith, e)

stopped-locked : (left : ℕ) (ip : Inode) → ip.i_lock ≡ true → is_again (turn_of left ip) ≡ false
stopped-locked left ip lock = rw lock refl

-- When a round has written.
going :
    (left : ℕ) (ip : Inode)
    → is_again (turn_of left ip) ≡ true
    → (ip.i_lock ≡ false)
      × ((left == 0) ≡ false)
      × (ltb ip.i_count 2 ≡ false)
      × (leb pipsiz ip.i_size ≡ false)
going left ip goes = elim (Bool-cases ip.i_lock) [
  | inl lock ↦ absurd (differ (sym goes ∙ stopped-locked left ip lock))
  | inr free ↦ elim (Bool-cases ((left == 0) || ltb ip.i_count 2)) [
    | inl over ↦ absurd (differ (sym goes ∙ rw (free, over) refl))
    | inr wants ↦ elim (Bool-cases (leb pipsiz ip.i_size)) [
      | inl full ↦ absurd (differ (sym goes ∙ rw (free, wants, full) refl))
      | inr room ↦ (free, ground (arith, wants), ground (arith, wants), room)
    ]
  ]
]

module _ {S : Type 0} (d : Disk S) (Inv : S → Type 0) (look : S → ℕ → List ℕ) (limit : ℕ)
    (store : IsStore d Inv look limit) (long : 16 ≤ limit) where
  -- On a well-formed pipe, from the kernel's memory, a round of `UNIX_writep` ends; the bytes that it has taken from memory are in
  -- the pipe, behind those that were there. It takes none where the inode is locked, all is written, no
  -- one reads (then EPIPE and SIGPIPE) or the pipe holds PIPSIZ bytes (then it waits for room), and else
  -- as many as are left, but no more than PIPSIZ.
  pub writep-Put :
      (fuel left : ℕ) (u : Args) (p : Pipe S)
      → IsPipe d Inv look p
      → MayPut d left u
      → 10 ≤ fuel
      → Put d Inv look left u p (writep fuel d left u p)
  writep-Put fuel left u p pipe may enough = elim (Bool-cases p.ip.i_lock) [
    | inl lock ↦
        subst (Put d Inv look left u p) (sym (writep-locked d Inv look fuel u p left lock))
          (locked_out-Put d Inv look left u p lock pipe may.0.no_error)
    | inr free ↦ elim (Bool-cases (left == 0)) [
      | inl none_left ↦
          subst (Put d Inv look left u p) (sym (writep-all d Inv look fuel u p left free none_left))
            (writep_rest-Put d Inv look left u p leaves u.u_error false p.ip.i_mode 0 pipe refl
              (ground (arith, none_left)) (rw (free, none_left) may.0.no_error)
              (rw (free, none_left) refl) (rw (free, none_left) refl))
      | inr some_left ↦ elim (Bool-cases (ltb p.ip.i_count 2)) [
        | inl alone ↦
            subst (Put d Inv look left u p)
              (sym (writep-broken d Inv look fuel u p left free some_left alone))
              (writep_rest-Put d Inv look left u p leaves epipe true p.ip.i_mode u.u_count pipe refl
                (rw (free, alone) refl) (rw (free, some_left, alone) refl)
                (rw (free, some_left, alone) refl) (rw (free, some_left, alone) refl))
        | inr readers ↦ elim (Bool-cases (leb pipsiz p.ip.i_size)) [
          | inl full ↦
              subst (Put d Inv look left u p)
                (sym (writep-full d Inv look fuel u p left free some_left readers full))
                (writep_rest-Put d Inv look left u p (waits_on on_room) u.u_error false
                  (with_bit iwrite p.ip.i_mode) u.u_count pipe (type-write p.ip.i_mode)
                  (rw (free, readers, full) refl) (rw (free, some_left, readers) may.0.no_error)
                  (rw (free, some_left, readers) refl) (rw (free, some_left, readers, full) refl))
          | inr room ↦
              let n = min_of left pipsiz in
              let r =
                writei-IsDone d Inv look limit store fuel (putting d Inv look n u p) pipe.inv
                  (MayMove-IsReady d (record (p.ip) { i_lock = true }) (record u { u_count = n })
                    p.ip.i_size p.disk (MayMove-fewer d left n u (ground arith) may.0) pipe.regular
                    pipe.small)
                  may.1 (ground (arith, some_left)) (ground (arith, pipe.regular))
                  (ground (arith, room, long)) (ground (arith, enough)) in
              subst (Put d Inv look left u p)
                (sym (
                  writep-bytes d Inv look fuel u p left r.after free some_left readers room
                    r.equation))
                (writep_end-Put d Inv look left u p r.after free some_left readers room pipe
                  r.is_written)
        ]
      ]
    ]
  ]

  -- The loop has ended, with these bytes added.
  pub record Ended (left : ℕ) (u : Args) (p : Pipe S) (o : Outcome (Passed S)) : Type 0 where
    pub after : Passed S
    pub equation : o ≡ done after
    pub is_pipe : IsPipe d Inv look after.pipe
    pub ends : is_again after.turn ≡ false
    pub bytes :
        content d Inv look after.pipe
        ≡ content d Inv look p ++ span u.memory u.u_base (left - after.left)

  -- On a well-formed pipe whose file can have 16 blocks, for a caller without an error that writes from
  -- the kernel's memory, `UNIX_writep` ends within two rounds, in a return or a sleep; the bytes that it has taken
  -- from memory stand in the pipe, in order, behind those that were there.
  pub writep_loop-Ended :
      (fuel left : ℕ) (u : Args) (p : Pipe S)
      → IsPipe d Inv look p
      → MayPut d left u
      → 10 ≤ fuel
      → Ended left u p (writep_loop 2 fuel d left u p)
  unfolding writep_loop
  writep_loop-Ended fuel left u p pipe may enough =
      let w = writep-Put fuel left u p pipe may enough in
      let r = w.after in
      let moved : put_now left p.ip ≡ left - r.left = omega (arith, w.left_over) in
      let put : content d Inv look r.pipe
          ≡ content d Inv look p ++ span u.memory u.u_base (left - r.left) =
        w.bytes ∙ ap (λ k. content d Inv look p ++ span u.memory u.u_base k) moved in
      elim (Bool-cases (is_again r.turn)) [
        | inr stops ↦ record {
          after = r;
          equation = writep_loop-stops d 1 fuel left u p r w.equation stops;
          is_pipe = w.is_pipe;
          ends = stops;
          bytes = put;
        }
        | inl goes ↦
            let (free, some_left, readers, room) =
              going left p.ip (ap is_again (sym w.turn) ∙ goes) in
            let all : put_now left p.ip ≡ min_of left pipsiz = rw (free, readers, room) refl in
            let unbroken : is_broken left p.ip ≡ false = rw (free, some_left, readers) refl in
            let may' : MayPut d r.left r.u = (
              record {
                no_error = w.error ∙ ap (λ b. if b then epipe else 0) unbroken;
                small_count = omega (arith, may.0.small_count, w.left_over);
                allowed = λ b n low high.
                    ap (λ g. not (g == 1) && d.faults b n) w.segflg
                    ∙ may.0.allowed b n (omega (arith, low, w.base))
                        (omega (arith, high, w.base, w.left_over));
              },
              ap (λ g. g == 1) w.segflg ∙ may.1,
            ) in
            let over : is_again (turn_of r.left r.pipe.ip) ≡ false =
              elim (Bool-cases (is_again (turn_of r.left r.pipe.ip))) [
                | inr y ↦ y
                | inl on ↦
                    let (_, some', _, room') = going r.left r.pipe.ip on in
                    absurd (ground (arith, some', room', all, w.size, w.left_over))
              ] in
            let w' = writep-Put fuel r.left r.u r.pipe w.is_pipe may' enough in
            let r' = w'.after in
            let stops : is_again r'.turn ≡ false = ap is_again w'.turn ∙ over in
            record {
              after = r';
              equation =
                  writep_loop-goes d 1 fuel left u p r w.equation goes
                  ∙ writep_loop-stops d 0 fuel r.left r.u r.pipe r' w'.equation stops;
              is_pipe = w'.is_pipe;
              ends = stops;
              bytes =
                  w'.bytes
                  ∙ spans (content d Inv look p) u.memory r.u.memory u.u_base r.u.u_base
                      (left - r.left) (put_now r.left r.pipe.ip) _ put w.memory
                      (omega (arith, w.base, moved)) (omega (arith, w'.left_over, w.left_over));
            }
      ]
