-- ===== src/FileIo/Roundtrip.antt =====
-- UNIX_readi behind UNIX_writei, and a write that UNIX_bmap refuses.
use hostable_32v.Prelude.{
  ℕ, zero, suc, ◌+◌, ◌-◌, ◌*◌, ◌/◌, ◌%◌, ◌^◌, ◌<◌, ◌≤◌, ◌≡◌, ◌≢◌, refl, subst, ◌∙◌, ap, true, false,
  ◌&&◌, ◌||◌, List, arith, ltb, leb, ◌==◌, if◌then◌else◌, Outcome, done, Bool-cases, inl, inr,
}
use hostable_32v.BlockMap.{failed}
use hostable_32v.FileIo.{
  Disk, State, Args, moved, is_character, min_of, up_to, readi, writei, write_loop, write_round,
  write_at, write_block, iomove_write, copied_in, set_error, moved_on,
}
use hostable_32v.FileIo.Store.{IsStore, IsReady}
use hostable_32v.FileIo.Moved.{IsMoved}
use hostable_32v.FileIo.Stored.{has_size}
use hostable_32v.FileIo.Read.{readi-IsRead}
use hostable_32v.FileIo.Write.{writei-IsDone}

module _ {S : Type 0} (d : Disk S) (Inv : S → Type 0) (look : S → ℕ → List ℕ) (limit : ℕ)
    (store : IsStore d Inv look limit) where
  -- The bytes at `base` come back to these addresses, and only there.
  pub record IsBack (fuel : ℕ) (t : State S) (u' : Args) : Type 0 where
    pub written : State S
    pub back : State S
    pub write : writei fuel d t ≡ done written
    pub read : readi fuel d (record written { u = u' }) ≡ done back
    pub count : back.u.u_count ≡ 0
    pub error : back.u.u_error ≡ 0
    pub memory :
        (a : ℕ)
        → back.u.memory a ≡ (
            if leb u'.u_base a && ltb a (u'.u_base + u'.u_count)
            then t.u.memory (t.u.u_base + (a - u'.u_base))
            else u'.memory a)

  -- Where the blocks of a regular file or a directory can be written up to the end of the request, there is no error yet
  -- and no fault of the memory read to: the bytes that `UNIX_writei` takes from the kernel's memory, `UNIX_readi` of the same offset and count
  -- puts where it is asked to.
  pub readi-writei :
      (fuel : ℕ) (t : State S) (u' : Args)
      → Inv t.disk
      → IsReady d t
      → (t.u.u_segflg == 1) ≡ true
      → IsReady d (record t { u = u' })
      → 0 < t.u.u_count
      → has_size t.ip ≡ true
      → t.ip.i_size ≤ limit * 512
      → t.u.u_offset + t.u.u_count ≤ limit * 512
      → u'.u_offset ≡ t.u.u_offset
      → u'.u_count ≡ t.u.u_count
      → t.u.u_count / 512 + 3 ≤ fuel
      → IsBack fuel t u'
  readi-writei fuel t u' inv ready kernel ready' wants sized small inside at same enough =
      let w =
        writei-IsDone d Inv look limit store fuel t inv ready kernel wants sized inside
          (omega (arith, enough)) in
      let m = w.is_written in
      let t₁ : State S = record (w.after) { u = u' } in
      let file : is_character t.ip ≡ false = ground (arith, sized) in
      let r =
        readi-IsRead d Inv look limit store.readable fuel t₁ m.inv
          (record {
            no_device =
                ap (λ mode. (mode / 4096 % 16 == 6) || (mode / 4096 % 16 == 7)) m.mode
                ∙ ready.no_device;
            no_error = ready'.no_error;
            small_offset = ready'.small_offset;
            allowed = ready'.allowed;
          })
          (ap (λ mode. (mode / 4096 % 16 == 2) || (mode / 4096 % 16 == 3)) m.mode ∙ file)
          (ground (arith, m.size, small, inside)) (omega (arith, same, enough)) in
      let k : up_to (w.after.ip.i_size - u'.u_offset) u'.u_count ≡ u'.u_count =
        ground (arith, m.size, at, same) in
      let n : IsMoved d Inv look u'.u_count t₁ r.after =
        subst (λ k. IsMoved d Inv look k t₁ r.after) k r.is_moved in
      record {
        written = w.after;
        back = r.after;
        write = w.equation;
        read = r.equation;
        count = omega (arith, n.count);
        error = n.error;
        memory = λ a.
            n.memory a ∙ elim (Bool-cases (leb u'.u_base a && ltb a (u'.u_base + u'.u_count))) [
              | inl y ↦
                  let p = u'.u_offset + (a - u'.u_base) in
                  let place : t.u.u_base + (p - t.u.u_offset) ≡ t.u.u_base + (a - u'.u_base) =
                    omega (arith, at) in
                  let e = ap t.u.memory place in ground (arith, y, e, at, same, m.bytes p)
              | inr o ↦ ground (arith, o)
            ];
      }

-- A write ends with an error although a block's bytes have moved: they stand in the buffer of block 0,
-- which is released, and the offset and the size count them.
pub record IsLost {S : Type 0} (d : Disk S) (t : State S) (s : S) (n : ℕ) (o : Outcome (State S))
    : Type 0 where
  pub after : State S
  pub equation : o ≡ done after
  pub error : after.u.u_error ≢ 0
  pub count : after.u.u_count + n ≡ t.u.u_count
  pub offset : after.u.u_offset ≡ t.u.u_offset + n
  pub size :
      after.ip.i_size
      ≡ (if ltb t.ip.i_size (t.u.u_offset + n) then t.u.u_offset + n else t.ip.i_size)
  pub disk :
      after.disk
      ≡ d.brelse 0
          (copied_in 0
            (t.u.u_offset % 512)
            n
            t.u.u_base
            t.u.memory
            (if n == 512 then d.getblk 0 s else (d.bread 0 s).bytes))
          s

-- The arguments when UNIX_iomove is called for block 0.
lost_args : {S : Type 0} → Disk S → ℕ → State S → Args
lost_args d n t = record (t.u) {
  u_error = if n == 512 then t.u.u_error else (set_error (d.bread 0 t.disk).error t.u).u_error;
}

lost : {S : Type 0} → Disk S → ℕ → ℕ → State S → State S
lost d on n t = record t {
  u = moved_on n (lost_args d n t);
  disk =
      d.brelse 0
        (copied_in 0 on n t.u.u_base t.u.memory
          (if n == 512 then d.getblk 0 t.disk else (d.bread 0 t.disk).bytes))
        t.disk;
  ip = record (t.ip) {
    i_size =
        if ltb t.ip.i_size ((t.u.u_offset + n) % 2 ^ 32)
        then (t.u.u_offset + n) % 2 ^ 32
        else t.ip.i_size;
    i_upd = true;
    i_chg = true;
  };
}

write_block-lost :
    {S : Type 0} (d : Disk S) (on n : ℕ) (t : State S)
    → (t.u.u_error == 0) ≡ false
    → (n == 0) ≡ false
    → (t.u.u_segflg == 1) ≡ true
    → has_size t.ip ≡ true
    → (write_block d 0 on n t ≡ moved n (lost d on n t)) × ((lost_args d n t).u_error ≢ 0)
unfolding write_block iomove_write lost lost_args
write_block-lost d on n t bad some_bytes kernel sized = elim (Bool-cases (n == 512)) [
  | inl whole ↦
      (rw (whole, some_bytes, kernel, bad, sized) (ground arith), rw whole (ground (arith, bad)))
  | inr part ↦
      let still : ((if (d.bread 0 t.disk).error == 0 then t.u.u_error else (d.bread 0 t.disk).error)
            == 0)
          ≡ false =
        ground (arith, bad) in
      (rw (part, some_bytes, kernel, still, sized) (ground arith), rw part (ground (arith, still)))
]

write_loop-failed :
    {S : Type 0} (d : Disk S) (fuel n : ℕ) (t t' : State S)
    → write_round d t ≡ moved n t'
    → t'.u.u_error ≢ 0
    → write_loop (suc fuel) d t ≡ done t'
unfolding write_loop
write_loop-failed d fuel n t t' round error =
    let fails : (t'.u.u_error == 0) ≡ false = ground (arith, error) in
    rw (write_loop, round, fails) (ground arith)

-- On a regular file or a directory, with no error before and from the kernel's memory: where `UNIX_bmap`
-- returns 0 and sets an error for the first block of a write, as for one behind the
-- last block that a file can have, `UNIX_writei` ends with an error in its first round, but it moves
-- the bytes for that block to the buffer of block 0, and the offset and the size of the file grow by
-- them.
pub writei-IsLost :
    {S : Type 0} (d : Disk S) (fuel e : ℕ) (t : State S) (s : S)
    → IsReady d t
    → (t.u.u_segflg == 1) ≡ true
    → 0 < t.u.u_count
    → has_size t.ip ≡ true
    → d.bmap false (t.u.u_offset / 512) t.disk ≡ (failed, e, s)
    → e ≢ 0
    → 0 < fuel
    → IsLost d t s (min_of (512 - t.u.u_offset % 512) t.u.u_count) (writei fuel d t)
unfolding writei write_round write_at lost lost_args
writei-IsLost {S} d zero e t s ready kernel wants sized refused bad enough =
    absurd (omega (arith, enough))
writei-IsLost {S} d (suc fuel) e t s ready kernel wants sized refused bad enough =
    let on = t.u.u_offset % 512 in
    let n = min_of (512 - on) t.u.u_count in
    let t₁ : State S = record t { disk = s; u = set_error e t.u } in
    let pos : 0 < n = ground (arith, wants) in
    let room : n ≤ t.u.u_count = ground arith in
    let none_moved : (n == 0) ≡ false = ground (arith, pos) in
    let set : ((if e == 0 then t.u.u_error else e) == 0) ≡ false = ground (arith, bad) in
    let b = write_block-lost d on n t₁ set none_moved kernel sized in
    let valid : leb (2 ^ 31) t.u.u_offset ≡ false = ground (arith, ready.small_offset) in
    let some_bytes : (t.u.u_count == 0) ≡ false = ground (arith, wants) in
    let file : is_character t.ip ≡ false = ground (arith, sized) in
    let small : t.u.u_offset + n < 2 ^ 32 = omega (arith, ready.small_offset, room) in
    let next : (t.u.u_offset + n) % 2 ^ 32 ≡ t.u.u_offset + n = omega (arith, small) in
    record {
      after = lost d on n t₁;
      equation =
          rw (valid, file, some_bytes)
            (write_loop-failed d fuel n t _ (rw (refused, ready.no_device) b.0) b.1);
      error = b.1;
      count = omega (arith, room);
      offset = next;
      size = ap (λ o. if ltb t.ip.i_size o then o else t.ip.i_size) next;
      disk = refl;
    }
