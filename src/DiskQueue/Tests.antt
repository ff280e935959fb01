-- ===== src/DiskQueue/Tests.antt =====
-- The disk queue at concrete inputs.
use hostable_32v.Prelude.{ℕ, ◌≡◌, refl, true, false, [], ◌∷◌, arith}
use hostable_32v.DiskQueue.{
  Buf, Queue, not_below, step, at_write, position, scan, link_behind, link_in, or_last, disksort,
}
use hostable_32v.DiskQueue.Sweep.{IsSweep, insert, disksort-insert}

abbrev read : ℕ → ℕ → Buf
read c n = record { b_read = true; b_cylin = c; b_blkno = n }

abbrev written : ℕ → ℕ → Buf
written c n = record { b_read = false; b_cylin = c; b_blkno = n }

abbrev three : Queue
three = record { b_actf = read 5 1 ∷ read 9 2 ∷ written 3 3 ∷ []; b_actl = 2 }

-- A read for cylinder 2 goes behind the first write.
behind_a_write :
    disksort three (read 2 4)
    ≡ record { b_actf = read 5 1 ∷ read 9 2 ∷ written 3 3 ∷ read 2 4 ∷ []; b_actl = 3 }
unfolding disksort scan step not_below at_write position link_behind link_in or_last
behind_a_write = refl

disksort-insert_example :
    ((disksort (record { b_actf = read 5 1 ∷ read 9 2 ∷ []; b_actl = 1 }) (read 9 4)).b_actf
      ≡ read 5 1 ∷ insert (read 9 4) (read 9 2 ∷ []))
    × IsSweep true 5 (insert (read 9 4) (read 9 2 ∷ []))
unfolding IsSweep
disksort-insert_example =
    disksort-insert (read 9 4) (read 5 1) (read 9 2 ∷ []) 1 refl (omega arith)
      (refl, omega arith, omega arith)
