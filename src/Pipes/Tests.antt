-- ===== src/Pipes/Tests.antt =====
-- Tests, and the theorems at concrete inputs.
use hostable_32v.Prelude.{◌-◌, refl, false, [], ◌++◌, arith}
use hostable_32v.FileIo.{Args}
use hostable_32v.FileIo.Placed.{Blocks}
use hostable_32v.FileIo.OneFile.{
  one_file, Whole, shown, one_file-IsReadable, one_file-IsStore, numbers, sevens, sevens-Whole,
  regular,
}
use hostable_32v.Pipes.{Pipe, readp, writep, writep_loop}
use hostable_32v.Pipes.Span.{span}
use hostable_32v.Pipes.Content.{MayMove, IsPipe, Taken, readp-Taken}
use hostable_32v.Pipes.Filled.{Put}
use hostable_32v.Pipes.Putting.{writep-Put, Ended, writep_loop-Ended}
use hostable_32v.Pipes.History.{Runs, begins, writes, reads, InOrder, Runs-InOrder}

-- A pipe that holds two bytes, with a reader and a writer.
abbrev two_bytes : Pipe Blocks
two_bytes = record {
  ip = record regular { i_lock = false; i_count = 2; i_size = 5 };
  disk = sevens;
  f_offset = 3;
}

two_bytes-IsPipe : IsPipe one_file Whole shown two_bytes
two_bytes-IsPipe = record {
  inv = sevens-Whole;
  regular = refl;
  within = omega arith;
  small = omega arith;
}

abbrev ten : Args
ten = record {
  u_base = 100;
  u_offset = 0;
  u_count = 10;
  u_segflg = 1;
  u_error = 0;
  memory = numbers;
}

ten-MayMove : MayMove one_file ten
ten-MayMove = record {
  no_error = refl;
  small_count = omega arith;
  allowed = λ b n low high. ground arith;
}

readp-Taken_example : Taken one_file Whole shown ten two_bytes (readp 9 one_file ten two_bytes)
readp-Taken_example =
    readp-Taken one_file Whole shown 138 one_file-IsReadable (omega arith) 9 ten two_bytes
      two_bytes-IsPipe ten-MayMove (omega arith)

writep-Put_example : Put one_file Whole shown 10 ten two_bytes (writep 10 one_file 10 ten two_bytes)
writep-Put_example =
    writep-Put one_file Whole shown 138 one_file-IsStore (omega arith) 10 10 ten two_bytes
      two_bytes-IsPipe (ten-MayMove, refl) (omega arith)

writep_loop-Ended_example :
    Ended one_file Whole shown 138 one_file-IsStore
      (omega arith)
      10
      ten
      two_bytes
      (writep_loop 2 10 one_file 10 ten two_bytes)
writep_loop-Ended_example =
    writep_loop-Ended one_file Whole shown 138 one_file-IsStore (omega arith) 10 10 ten two_bytes
      two_bytes-IsPipe (ten-MayMove, refl) (omega arith)

-- A write of ten bytes, and then a read of as many.
one_write : Put one_file Whole shown 10 ten two_bytes (writep 10 one_file 10 ten two_bytes)
one_write =
    writep-Put one_file Whole shown 138 one_file-IsStore (omega arith) 10 10 ten two_bytes
      two_bytes-IsPipe (ten-MayMove, refl) (omega arith)

one_read :
    Taken one_file Whole shown ten one_write.after.pipe (readp 9 one_file ten one_write.after.pipe)
one_read =
    readp-Taken one_file Whole shown 138 one_file-IsReadable (omega arith) 9 ten
      one_write.after.pipe one_write.is_pipe ten-MayMove (omega arith)

both :
    Runs one_file two_bytes
      ([] ++ span numbers 100 (10 - one_write.after.left))
      ([] ++ span one_read.after.u.memory 100 (10 - one_read.after.u.u_count))
      one_read.after.pipe
both =
    reads 9 ten one_read.after
      (writes 10 10 ten one_write.after begins (ten-MayMove, refl) (omega arith) one_write.equation)
      ten-MayMove (omega arith) one_read.equation

Runs-InOrder_example :
    InOrder one_file Whole shown 138 one_file-IsStore
      (omega arith)
      two_bytes
      ([] ++ span numbers 100 (10 - one_write.after.left))
      ([] ++ span one_read.after.u.memory 100 (10 - one_read.after.u.u_count))
      one_read.after.pipe
Runs-InOrder_example =
    Runs-InOrder one_file Whole shown 138 one_file-IsStore (omega arith) two_bytes two_bytes-IsPipe
      both
