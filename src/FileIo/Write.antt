-- ===== src/FileIo/Write.antt =====
-- UNIX_writei moves the bytes of memory to the file.
use hostable_32v.Prelude.{
  ℕ, zero, suc, ◌+◌, ◌-◌, ◌*◌, ◌/◌, ◌%◌, ◌^◌, ◌<◌, ◌≤◌, ◌≡◌, refl, sym, subst, ◌∙◌, ap, true, false,
  not, ◌&&◌, ◌||◌, List, length, arith, ltb, leb, ◌==◌, if◌then◌else◌, Outcome, done, Bool-cases,
  inl, inr, ◌⊎◌,
}
use hostable_32v.FileIo.{
  Disk, State, Round, moved, is_block_device, is_character, min_of, copied_in, write_at,
  write_round, write_loop, writei,
}
use hostable_32v.FileIo.Store.{IsStore, byte, IsReady}
use hostable_32v.FileIo.Rounds.{write_ends, write_fuel}
use hostable_32v.FileIo.Stored.{
  has_size, length-copied_in, IsWritten, IsWritten-trans, bytes_stored, old_bytes, stored,
  write_block-stored, old_kept, length-old_bytes,
}

module _ {S : Type 0} (d : Disk S) (Inv : S → Type 0) (look : S → ℕ → List ℕ) where
  -- What a round of the loop does.
  record IsRound (t : State S) (o : Round S) : Type 0 where
    n : ℕ
    after : State S
    round : o ≡ moved n after
    some_bytes : 0 < n
    ends : (t.u.u_count ≡ n) ⊎ ((t.u.u_offset + n) % 512 ≡ 0)
    is_written : IsWritten d Inv look n t after

  module _ (limit : ℕ) (store : IsStore d Inv look limit) where
    write_round-IsRound :
        (t : State S)
        → Inv t.disk
        → IsReady d t
        → (t.u.u_segflg == 1) ≡ true
        → 0 < t.u.u_count
        → has_size t.ip ≡ true
        → t.u.u_offset + t.u.u_count ≤ limit * 512
        → IsRound t (write_round d t)
    unfolding write_round write_at stored
    write_round-IsRound t inv ready kernel wants sized inside =
        let lbn = t.u.u_offset / 512 in
        let on = t.u.u_offset % 512 in
        let w = store.writes t.disk lbn inv (omega (arith, inside, wants)) in
        let n = min_of (512 - on) t.u.u_count in
        let t₁ : State S = record t { disk = w.after } in
        let old = old_bytes d Inv look w.after w.bn n (look t.disk lbn) in
        let pos : 0 < n = ground (arith, wants) in
        let room : n ≤ t.u.u_count = ground arith in
        let fits : on + n ≤ 512 = ground arith in
        let some_bytes : (n == 0) ≡ false = ground (arith, pos) in
        let fine : (t.u.u_error == 0) ≡ true = ground (arith, ready.no_error) in
        let small : t.u.u_offset + n < 2 ^ 32 = omega (arith, ready.small_offset, room) in
        let next : (t.u.u_offset + n) % 2 ^ 32 ≡ t.u.u_offset + n = omega (arith, small) in
        let at : lbn * 512 + on ≡ t.u.u_offset = omega arith in
        let whole : length old ≡ 512 = length-old_bytes d Inv look store t lbn n inv w in
        let bytes = copied_in 0 on n t.u.u_base t.u.memory old in
        record {
          n = n;
          after = stored d Inv look w.bn on n (look t.disk lbn) t₁;
          round =
              rw (w.mapped, ready.no_device)
                (write_block-stored d Inv look t₁ w.bn on n (look t.disk lbn) w.fetched fine
                  some_bytes kernel sized);
          some_bytes = pos;
          ends = write_ends t.u.u_offset t.u.u_count;
          is_written = record {
            inv = w.stored bytes (length-copied_in 0 on n t.u.u_base t.u.memory old ∙ whole);
            base = refl;
            offset = next;
            count = omega (arith, room);
            segflg = refl;
            error = ready.no_error;
            size = ap (λ o. if ltb t.ip.i_size o then o else t.ip.i_size) next;
            mode = refl;
            memory = refl;
            bytes = λ p.
                subst
                  (λ o. byte look (stored d Inv look w.bn on n (look t.disk lbn) t₁).disk p ≡ (
                    if leb o p && ltb p (o + n)
                    then t.u.memory (t.u.u_base + (p - o))
                    else byte look t.disk p))
                  at
                  (bytes_stored d Inv look t.disk _ lbn on n t.u.u_base t.u.memory old whole
                    (omega arith) (old_kept d Inv look w.after w.bn n (look t.disk lbn)) fits
                    (w.looks bytes) p);
          };
        }

    -- The loop has returned, with `k` bytes in the file.
    pub record IsDone (k : ℕ) (t : State S) (o : Outcome (State S)) : Type 0 where
      pub after : State S
      pub equation : o ≡ done after
      pub is_written : IsWritten d Inv look k t after

    IsDone-bytes :
        {k l : ℕ} {t : State S} {o : Outcome (State S)} → k ≡ l → IsDone l t o → IsDone k t o
    IsDone-bytes {t} {o} e r = subst (λ n. IsDone n t o) (sym e) r

    IsReady-written :
        (k : ℕ) (t t' : State S) → IsReady d t → IsWritten d Inv look k t t' → IsReady d t'
    IsReady-written k t t' ready m =
        let same_type : is_block_device t'.ip ≡ is_block_device t.ip =
          ap (λ mode. (mode / 4096 % 16 == 6) || (mode / 4096 % 16 == 7)) m.mode in
        record {
          no_device = same_type ∙ ready.no_device;
          no_error = m.error;
          small_offset = omega (arith, m.offset, m.count, ready.small_offset);
          allowed = λ b n low high.
              ap (λ g. not (g == 1) && d.faults b n) m.segflg
              ∙ ready.allowed b n (omega (arith, m.base, low))
                  (omega (arith, m.base, m.count, high));
        }

    write_loop-moved :
        (fuel n : ℕ) (t t' : State S)
        → write_round d t ≡ moved n t'
        → t'.u.u_error ≡ 0
        → write_loop (suc fuel) d t ≡ (if t'.u.u_count == 0 then done t' else write_loop fuel d t')
    unfolding write_loop
    write_loop-moved fuel n t t' round error =
        let fine : (t'.u.u_error == 0) ≡ true = ground (arith, error) in
        rw (write_loop, round, fine) (ground arith)

    write_loop-IsDone :
        (fuel : ℕ) (t : State S)
        → Inv t.disk
        → IsReady d t
        → (t.u.u_segflg == 1) ≡ true
        → 0 < t.u.u_count
        → has_size t.ip ≡ true
        → t.u.u_offset + t.u.u_count ≤ limit * 512
        → (t.u.u_offset + t.u.u_count) / 512 + 1 ≤ fuel + t.u.u_offset / 512
        → IsDone t.u.u_count t (write_loop fuel d t)
    unfolding write_loop
    write_loop-IsDone zero t inv ready kernel wants sized inside enough =
        absurd (omega (arith, enough))
    write_loop-IsDone (suc fuel) t inv ready kernel wants sized inside enough =
        let r = write_round-IsRound t inv ready kernel wants sized inside in
        let n = r.n in
        let t' = r.after in
        let m = r.is_written in
        let step = write_loop-moved fuel n t t' r.round m.error in
        elim (Bool-cases (t'.u.u_count == 0)) [
          | inl all ↦
              let k : t.u.u_count ≡ n = ground (arith, all, m.count) in
              IsDone-bytes k record {
                after = t';
                equation = step ∙ ap (λ b. if b then done t' else write_loop fuel d t') all;
                is_written = m;
              }
          | inr more ↦
              let pos : 0 < t'.u.u_count = ground (arith, more) in
              let sized' : has_size t'.ip ≡ true =
                ap (λ mode. (mode / 4096 % 16 == 4) || (mode / 4096 % 16 == 8)) m.mode ∙ sized in
              let h =
                write_loop-IsDone fuel t' m.inv (IsReady-written n t t' ready m)
                  (ap (λ g. g == 1) m.segflg ∙ kernel) pos sized'
                  (omega (arith, m.offset, m.count, inside))
                  (write_fuel _ _ n _ _ fuel m.offset m.count r.some_bytes pos r.ends enough) in
              let k : t.u.u_count ≡ n + t'.u.u_count = omega (arith, m.count) in
              IsDone-bytes k record {
                after = h.after;
                equation =
                    step ∙ ap (λ b. if b then done t' else write_loop fuel d t') more ∙ h.equation;
                is_written = IsWritten-trans d Inv look n _ t t' h.after pos m h.is_written;
              }
        ]

    -- On a regular file or a directory whose blocks can be written up to the end of the request, with no
    -- error yet and from the kernel's memory, `UNIX_writei` of at least one byte returns, with a round for each
    -- 512 bytes and two more: the bytes from the offset on are those of memory, the others are as they
    -- were, and the size is the greater of what it was and the end of the request.
    pub writei-IsDone :
        (fuel : ℕ) (t : State S)
        → Inv t.disk
        → IsReady d t
        → (t.u.u_segflg == 1) ≡ true
        → 0 < t.u.u_count
        → has_size t.ip ≡ true
        → t.u.u_offset + t.u.u_count ≤ limit * 512
        → t.u.u_count / 512 + 2 ≤ fuel
        → IsDone t.u.u_count t (writei fuel d t)
    unfolding writei
    writei-IsDone fuel t inv ready kernel wants sized inside enough =
        let valid : leb (2 ^ 31) t.u.u_offset ≡ false = ground (arith, ready.small_offset) in
        let some_bytes : (t.u.u_count == 0) ≡ false = ground (arith, wants) in
        let file : is_character t.ip ≡ false = ground (arith, sized) in
        rw (valid, file, some_bytes)
          (write_loop-IsDone fuel t inv ready kernel wants sized inside (omega (arith, enough)))
