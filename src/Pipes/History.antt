-- ===== src/Pipes/History.antt =====
-- Readers and writers of a pipe in any order.
use mathlib.Core.List.{append-nil, append_assoc}
use hostable_32v.Prelude.{
  ℕ, ◌+◌, ◌-◌, ◌/◌, ◌%◌, ◌≤◌, ◌≡◌, sym, subst, ◌∙◌, ap, List, [], ◌++◌, arith, Outcome, done,
  panics, out_of_fuel,
}
use hostable_32v.Inodes.{Inode}
use hostable_32v.FileIo.{Disk, Args}
use hostable_32v.FileIo.Store.{IsStore, byte}
use hostable_32v.Pipes.{Pipe, Passed, readp, writep}
use hostable_32v.Pipes.Span.{span}
use hostable_32v.Pipes.Content.{MayMove, IsPipe, content, Taken, readp-Taken}
use hostable_32v.Pipes.Filled.{Put, put_now}
use hostable_32v.Pipes.Putting.{MayPut, writep-Put}

-- From one state of the pipe to another by calls of any processes, with the bytes that the writers have
-- put and those that the readers have got, by what their arguments count. In between the inode may be
-- locked, released or closed, and have its permissions changed.
pub data Runs {S : Type 0} (d : Disk S) (p : Pipe S) : List ℕ → List ℕ → Pipe S → Type 0 where
  begins : Runs d p [] [] p
  writes :
      {put got : List ℕ} {q : Pipe S} (fuel left : ℕ) (u : Args) (r : Passed S)
      → Runs d p put got q
      → MayPut d left u
      → 10 ≤ fuel
      → writep fuel d left u q ≡ done r
      → Runs d p (put ++ span u.memory u.u_base (left - r.left)) got r.pipe
  reads :
      {put got : List ℕ} {q : Pipe S} (fuel : ℕ) (u : Args) (r : Passed S)
      → Runs d p put got q
      → MayMove d u
      → u.u_count / 512 + 3 ≤ fuel
      → readp fuel d u q ≡ done r
      → Runs d p put (got ++ span r.u.memory u.u_base (u.u_count - r.u.u_count)) r.pipe
  touches :
      {put got : List ℕ} {q : Pipe S} (ip : Inode)
      → Runs d p put got q
      → ip.i_size ≡ q.ip.i_size
      → ip.i_mode / 4096 % 16 ≡ q.ip.i_mode / 4096 % 16
      → Runs d p put got (record q { ip = ip })

module _ {S : Type 0} (d : Disk S) (Inv : S → Type 0) (look : S → ℕ → List ℕ) (limit : ℕ)
    (store : IsStore d Inv look limit) (long : 16 ≤ limit) where
  -- The pipe is well formed, and nothing is lost, doubled or out of order.
  pub record InOrder (p : Pipe S) (put got : List ℕ) (q : Pipe S) : Type 0 where
    pub is_pipe : IsPipe d Inv look q
    pub bytes : content d Inv look p ++ put ≡ got ++ content d Inv look q

  result : Passed S → Outcome (Passed S) → Passed S
  result r (done a) = a
  result r panics = r
  result r out_of_fuel = r

  InOrder-writes :
      (p q : Pipe S) (put got : List ℕ) (left : ℕ) (u : Args) (r : Passed S)
      → InOrder p put got q
      → Put d Inv look left u q (done r)
      → InOrder p (put ++ span u.memory u.u_base (left - r.left)) got r.pipe
  unfolding result
  InOrder-writes p q put got left u r o w =
      let is : w.after ≡ r = ap (result r) (sym w.equation) in
      let moved : left - w.after.left ≡ put_now left q.ip = omega (arith, w.left_over) in
      let s = span u.memory u.u_base (left - w.after.left) in
      subst (λ r. InOrder p (put ++ span u.memory u.u_base (left - r.left)) got r.pipe) is
        record {
          is_pipe = w.is_pipe;
          bytes =
              sym (append_assoc (content d Inv look p) put s)
              ∙ ap (λ l. l ++ s) o.bytes
              ∙ append_assoc got (content d Inv look q) s
              ∙ ap (λ l. got ++ l)
                  (ap (λ k. content d Inv look q ++ span u.memory u.u_base k) moved ∙ sym w.bytes);
        }

  InOrder-reads :
      (p q : Pipe S) (put got : List ℕ) (u : Args) (r : Passed S)
      → InOrder p put got q
      → Taken d Inv look u q (done r)
      → InOrder p put (got ++ span r.u.memory u.u_base (u.u_count - r.u.u_count)) r.pipe
  unfolding result
  InOrder-reads p q put got u r o w =
      let is : w.after ≡ r = ap (result r) (sym w.equation) in
      let moved : w.n ≡ u.u_count - w.after.u.u_count = omega (arith, w.count) in
      let s = span w.after.u.memory u.u_base (u.u_count - w.after.u.u_count) in
      subst (λ r. InOrder p put (got ++ span r.u.memory u.u_base (u.u_count - r.u.u_count)) r.pipe)
        is
        record {
          is_pipe = w.is_pipe;
          bytes =
              o.bytes
              ∙ ap (λ l. got ++ l)
                  (w.bytes
                    ∙ ap (λ k. span w.after.u.memory u.u_base k ++ content d Inv look w.after.pipe)
                        moved)
              ∙ sym (append_assoc got s (content d Inv look w.after.pipe));
        }

  -- From a well-formed pipe whose file can have 16 blocks, by callers without errors, where the
  -- writers write from the kernel's memory and the memory read to has no faults: whatever calls of `UNIX_readp` and `UNIX_writep` are made, in any order:
  -- the bytes that the readers have got, followed by those in the pipe, are those that were in the
  -- pipe, followed by those that the writers have put, in order; and the pipe stays well formed, so it
  -- never holds more than 2 PIPSIZ - 1 bytes.
  pub Runs-InOrder :
      (p : Pipe S) {put got : List ℕ} {q : Pipe S}
      → IsPipe d Inv look p
      → Runs d p put got q
      → InOrder p put got q
  unfolding content
  Runs-InOrder p pipe begins = record { is_pipe = pipe; bytes = append-nil (content d Inv look p) }
  Runs-InOrder p pipe (writes {put} {got} {q} fuel left u r before may enough e) =
      let o = Runs-InOrder p pipe before in
      InOrder-writes p q put got left u r o (
        subst (Put d Inv look left u q) e
          (writep-Put d Inv look limit store long fuel left u q o.is_pipe may enough))
  Runs-InOrder p pipe (reads {put} {got} {q} fuel u r before may enough e) =
      let o = Runs-InOrder p pipe before in
      InOrder-reads p q put got u r o (
        subst (Taken d Inv look u q) e
          (readp-Taken d Inv look limit store.readable long fuel u q o.is_pipe may enough))
  Runs-InOrder p pipe (touches {got} {q} ip before size type) =
      let o = Runs-InOrder p pipe before in
      record {
        is_pipe = record {
          inv = o.is_pipe.inv;
          regular = type ∙ o.is_pipe.regular;
          within = omega (arith, size, o.is_pipe.within);
          small = omega (arith, size, o.is_pipe.small);
        };
        bytes =
            o.bytes
            ∙ ap (λ n. got ++ span (byte look q.disk) q.f_offset (n - q.f_offset)) (sym size);
      }
