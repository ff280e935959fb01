-- ===== src/FileIo/Read.antt =====
-- UNIX_readi moves the bytes of the file to memory.
use hostable_32v.Prelude.{
  ℕ, zero, suc, ◌+◌, ◌-◌, ◌*◌, ◌/◌, ◌%◌, ◌^◌, ◌<◌, ◌≤◌, ◌≡◌, refl, sym, subst, ◌∙◌, ap, true, false,
  not, ◌&&◌, ◌||◌, List, arith, leb, ◌==◌, if◌then◌else◌, Outcome, done, Bool-cases, inl, inr, ◌⊎◌,
}
use hostable_32v.FileIo.{
  Disk, State, Round, moved, returns, is_block_device, is_character, min_of, up_to, iomove_read,
  read_round, read_loop, readi,
}
use hostable_32v.FileIo.Store.{IsReadable, IsReady}
use hostable_32v.FileIo.Rounds.{round_ends, left_split, Enough, fuel_left}
use hostable_32v.FileIo.Moved.{IsMoved, IsMoved-trans, IsMoved-bytes, read_at_shown, IsMoved-none}

module _ {S : Type 0} (d : Disk S) (Inv : S → Type 0) (look : S → ℕ → List ℕ) where
  -- What a round of the loop does.
  record IsRound (t : State S) (o : Round S) : Type 0 where
    n : ℕ
    after : State S
    round : o ≡ moved n after
    some_bytes : 0 < n
    in_file : t.u.u_offset + n ≤ t.ip.i_size
    wanted : n ≤ t.u.u_count
    ends : (t.u.u_count ≡ n) ⊎ (t.u.u_offset + n ≡ t.ip.i_size) ⊎ ((t.u.u_offset + n) % 512 ≡ 0)
    is_moved : IsMoved d Inv look n t after

  module _ (limit : ℕ) (readable : IsReadable d Inv look limit) where
    read_round-IsRound :
        (t : State S)
        → Inv t.disk
        → IsReady d t
        → 0 < t.u.u_count
        → t.u.u_offset < t.ip.i_size
        → t.ip.i_size ≤ limit * 512
        → IsRound t (read_round d t)
    unfolding read_round
    read_round-IsRound t inv ready wants inside size =
        let r = readable.reads t.disk (t.u.u_offset / 512) inv (omega (arith, inside, size)) in
        let on = t.u.u_offset % 512 in
        let n = up_to (t.ip.i_size - t.u.u_offset) (min_of (512 - on) t.u.u_count) in
        let in_file : leb t.ip.i_size t.u.u_offset ≡ false = ground (arith, inside) in
        let t₁ : State S = record t {
          ip = record (t.ip) { i_lastr = t.u.u_offset / 512 };
          disk = r.after;
        } in
        let pos : 0 < n = ground (arith, wants, inside) in
        let room : n ≤ t.u.u_count = ground arith in
        let fits : on + n ≤ 512 = ground arith in
        let fine : not (t.u.u_error == 0) ≡ false = ground (arith, ready.no_error) in
        rw (r.mapped, ready.no_device, in_file, fine)
          record {
            n = n;
            after = record t₁ { u = iomove_read d (look t.disk (t.u.u_offset / 512)) on n t.u };
            round =
                read_at_shown d Inv look t t₁ r.answer n ready pos room fits r.inv r.same refl refl
                  refl r.shown;
            some_bytes = pos;
            in_file = ground (arith, inside);
            wanted = room;
            ends = round_ends t.ip.i_size t.u.u_offset t.u.u_count inside;
            is_moved =
                IsMoved-bytes d Inv look t t₁ n ready pos room fits r.inv r.same refl refl refl;
          }

    read_round-past :
        (t : State S)
        → IsReady d t
        → leb t.ip.i_size t.u.u_offset ≡ true
        → read_round d t ≡ returns t
    unfolding read_round
    read_round-past t ready past = rw (ready.no_device, past) refl

    IsReady-moved :
        (k : ℕ) (t t' : State S) → IsReady d t → IsMoved d Inv look k t t' → IsReady d t'
    IsReady-moved k t t' ready m =
        let same_type : is_block_device t'.ip ≡ is_block_device t.ip =
          ap (λ mode. (mode / 4096 % 16 == 6) || (mode / 4096 % 16 == 7)) m.mode in
        record {
          no_device = same_type ∙ ready.no_device;
          no_error = m.error;
          small_offset = omega (arith, m.offset, m.count, ready.small_offset);
          allowed = λ b n low high.
              ap (λ g. not (g == 1) && d.faults b n) m.segflg
              ∙ ready.allowed b n (omega (arith, m.base, low))
                  (omega (arith, m.base, m.count, high));
        }

    -- The loop has returned, with `k` bytes in memory.
    pub record IsRead (k : ℕ) (t : State S) (o : Outcome (State S)) : Type 0 where
      pub after : State S
      pub equation : o ≡ done after
      pub is_moved : IsMoved d Inv look k t after

    read_loop-moved :
        (fuel n : ℕ) (t t' : State S)
        → read_round d t ≡ moved n t'
        → t'.u.u_error ≡ 0
        → 0 < n
        → read_loop (suc fuel) d t ≡ (if t'.u.u_count == 0 then done t' else read_loop fuel d t')
    unfolding read_loop
    read_loop-moved fuel n t t' round error pos =
        let fine : (t'.u.u_error == 0) ≡ true = ground (arith, error) in
        let some_bytes : (n == 0) ≡ false = ground (arith, pos) in
        rw (read_loop, round, fine, some_bytes) (ground arith)

    IsRead-bytes :
        {k l : ℕ} {t : State S} {o : Outcome (State S)} → k ≡ l → IsRead l t o → IsRead k t o
    IsRead-bytes {t} {o} e r = subst (λ n. IsRead n t o) (sym e) r

    read_loop-IsRead :
        (fuel : ℕ) (t : State S)
        → Inv t.disk
        → IsReady d t
        → 0 < t.u.u_count
        → t.ip.i_size ≤ limit * 512
        → Enough t.ip.i_size t.u.u_offset t.u.u_count fuel
        → IsRead (up_to (t.ip.i_size - t.u.u_offset) t.u.u_count) t (read_loop fuel d t)
    unfolding read_loop Enough
    read_loop-IsRead zero t inv ready wants size enough = absurd (omega (arith, enough.0))
    read_loop-IsRead (suc fuel) t inv ready wants size enough =
        elim (Bool-cases (leb t.ip.i_size t.u.u_offset)) [
          | inl past ↦
              let e : read_round d t ≡ returns t = read_round-past t ready past in
              let k : up_to (t.ip.i_size - t.u.u_offset) t.u.u_count ≡ 0 = ground (arith, past) in
              IsRead-bytes k (
                rw (read_loop, e)
                  record {
                    after = t;
                    equation = refl;
                    is_moved = IsMoved-none d Inv look t inv ready.no_error;
                  })
          | inr inside ↦
              let r = read_round-IsRound t inv ready wants (ground (arith, inside)) size in
              let n = r.n in
              let t' = r.after in
              let m = r.is_moved in
              let step = read_loop-moved fuel n t t' r.round m.error r.some_bytes in
              elim (Bool-cases (t'.u.u_count == 0)) [
                | inl all ↦
                    let k : up_to (t.ip.i_size - t.u.u_offset) t.u.u_count ≡ n =
                      ground (arith, all, m.count, r.in_file) in
                    IsRead-bytes k record {
                      after = t';
                      equation = step ∙ ap (λ b. if b then done t' else read_loop fuel d t') all;
                      is_moved = m;
                    }
                | inr more ↦
                    let h =
                      read_loop-IsRead fuel t' m.inv (IsReady-moved n t t' ready m)
                        (ground (arith, more)) (omega (arith, m.size, size))
                        (fuel_left _ _ _ n _ _ _ fuel m.size m.offset m.count r.some_bytes
                          (ground (arith, more)) r.ends (enough.1 (ground (arith, inside)))) in
                    let k : up_to (t.ip.i_size - t.u.u_offset) t.u.u_count
                        ≡ n + up_to (t'.ip.i_size - t'.u.u_offset) t'.u.u_count =
                      left_split _ _ _ n _ _ _ m.size m.offset m.count r.in_file in
                    IsRead-bytes k record {
                      after = h.after;
                      equation =
                          step
                          ∙ ap (λ b. if b then done t' else read_loop fuel d t') more
                          ∙ h.equation;
                      is_moved = IsMoved-trans d Inv look n _ t t' h.after m h.is_moved;
                    }
              ]
        ]

    accessed : State S → State S
    accessed t = record t { ip = record (t.ip) { i_acc = true } }

    IsMoved-accessed :
        (k : ℕ) (t t' : State S) → IsMoved d Inv look k (accessed t) t' → IsMoved d Inv look k t t'
    unfolding accessed
    IsMoved-accessed k t t' m = record {
      inv = m.inv;
      same = m.same;
      base = m.base;
      offset = m.offset;
      count = m.count;
      segflg = m.segflg;
      error = m.error;
      size = m.size;
      mode = m.mode;
      memory = m.memory;
    }

    -- On a file whose blocks can be read up to its size, with no error yet and no fault of memory,
    -- `UNIX_readi` returns, with a round for each 512 bytes and three more: the bytes from the offset on
    -- have gone to memory, as many as are asked for or the file has, and nothing else has changed there
    -- or in the file.
    pub readi-IsRead :
        (fuel : ℕ) (t : State S)
        → Inv t.disk
        → IsReady d t
        → is_character t.ip ≡ false
        → t.ip.i_size ≤ limit * 512
        → t.u.u_count / 512 + 3 ≤ fuel
        → IsRead (up_to (t.ip.i_size - t.u.u_offset) t.u.u_count) t (readi fuel d t)
    unfolding readi accessed Enough
    readi-IsRead fuel t inv ready file size enough = elim (Bool-cases (t.u.u_count == 0)) [
      | inl nothing ↦
          let k : up_to (t.ip.i_size - t.u.u_offset) t.u.u_count ≡ 0 = ground (arith, nothing) in
          IsRead-bytes k (
            rw nothing record {
              after = t;
              equation = refl;
              is_moved = IsMoved-none d Inv look t inv ready.no_error;
            })
      | inr some_bytes ↦
          let valid : leb (2 ^ 31) t.u.u_offset ≡ false = ground (arith, ready.small_offset) in
          let h =
            read_loop-IsRead fuel (accessed t) inv
              (record {
                no_device = ready.no_device;
                no_error = ready.no_error;
                small_offset = ready.small_offset;
                allowed = ready.allowed;
              })
              (ground (arith, some_bytes)) size
              (omega (arith, enough), λ _. omega (arith, enough)) in
          rw (some_bytes, valid, file)
            record {
              after = h.after;
              equation = h.equation;
              is_moved = IsMoved-accessed _ t h.after h.is_moved;
            }
    ]
