-- ===== src/FileIo/Tests.antt =====
-- Tests, and the theorems at concrete inputs.
use hostable_32v.Prelude.{ℕ, ◌+◌, ◌≡◌, ap, refl, false, arith, override}
use hostable_32v.BlockMap.{File, failed, bmap}
use hostable_32v.BlockMap.Read.{bmap-too_big}
use hostable_32v.FreeBlocks.{done}
use hostable_32v.FileIo.Tree.{no_errors, bytes_of, answered, IsWhole, tree, tree-IsReadable}
use hostable_32v.FileIo.{Disk, State, Args, readi, writei}
use hostable_32v.FileIo.Store.{good, IsReadable, IsStore, IsReady}
use hostable_32v.FileIo.Read.{IsRead, readi-IsRead}
use hostable_32v.FileIo.Write.{IsDone, writei-IsDone}
use hostable_32v.FileIo.Roundtrip.{IsBack, IsLost, readi-writei, writei-IsLost}
use hostable_32v.FileIo.Placed.{Blocks, words_of, answers, placed_disk-IsStore}
use hostable_32v.FileIo.OneFile.{
  one_file, Whole, shown, one_file-IsReadable, one_file-IsStore, numbers, sevens, sevens-Whole,
  regular,
}

-- Four bytes across the end of the first block.
abbrev asked : ℕ → Args
asked base = record {
  u_base = base;
  u_offset = 510;
  u_count = 4;
  u_segflg = 1;
  u_error = 0;
  memory = numbers;
}

abbrev across : State Blocks
across = record { ip = regular; u = asked 1000; disk = sevens }

allowed_args : (base : ℕ) → IsReady one_file (record across { u = asked base })
allowed_args base = record {
  no_device = refl;
  no_error = refl;
  small_offset = omega arith;
  allowed = λ b n low high. ground arith;
}

readi-IsRead_example :
    IsRead one_file Whole shown 138 one_file-IsReadable 4 across (readi 9 one_file across)
readi-IsRead_example =
    readi-IsRead one_file Whole shown 138 one_file-IsReadable 9 across sevens-Whole
      (allowed_args 1000) refl (omega arith) (omega arith)

writei-IsDone_example :
    IsDone one_file Whole shown 138 one_file-IsStore 4 across (writei 9 one_file across)
writei-IsDone_example =
    writei-IsDone one_file Whole shown 138 one_file-IsStore 9 across sevens-Whole
      (allowed_args 1000) refl (omega arith) refl (omega arith) (omega arith)

readi-writei_example : IsBack one_file Whole shown 138 one_file-IsStore 9 across (asked 2000)
readi-writei_example =
    readi-writei one_file Whole shown 138 one_file-IsStore 9 across (asked 2000) sevens-Whole
      (allowed_args 1000) refl (allowed_args 2000) (omega arith) refl (omega arith) (omega arith)
      refl refl (omega arith)

-- A write behind the last block that the file can have.
abbrev behind : State Blocks
behind = record across { u = record (asked 1000) { u_offset = 1082201088 } }

behind-IsReady : IsReady one_file behind
behind-IsReady = record {
  no_device = refl;
  no_error = refl;
  small_offset = omega arith;
  allowed = λ b n low high. ground arith;
}

refused :
    (ra : ℕ) × (bmap no_errors false 2113674 sevens.file
      ≡ done (
        failed,
        record (sevens.file) {
          rablock = ra;
          volume = record (sevens.file.volume) { u_error = 27 };
        },
      ))
refused = bmap-too_big no_errors false 2113674 sevens.file (omega arith)

abbrev refused_disk : Blocks
refused_disk = record sevens {
  file = record (sevens.file) {
    rablock = refused.0;
    volume = record (sevens.file.volume) { u_error = 27 };
  };
}

writei-IsLost_example : IsLost one_file behind refused_disk 4 (writei 9 one_file behind)
writei-IsLost_example =
    writei-IsLost one_file 9 27 behind refused_disk behind-IsReady refl (omega arith) refl
      (ap (answers sevens) (refused.1)) (omega arith) (omega arith)

-- A disk whose files UNIX_bmap maps, and whose blocks are words.
abbrev mapped_disk : Disk File
mapped_disk = record {
  bmap = λ reads lbn f. answered f (bmap no_errors reads lbn f);
  bread = λ bn f. good (bytes_of (f.volume.block bn));
  getblk = λ bn f. bytes_of (f.volume.block bn);
  bdwrite = λ bn bytes f. record f {
    volume = record (f.volume) { block = override f.volume.block bn (words_of bytes) };
  };
  brelse = λ bn bytes f. record f {
    volume = record (f.volume) { block = override f.volume.block bn (words_of bytes) };
  };
  faults = λ _ _. false;
  device = λ _ _ u f. (u, f);
  mem_no = 3;
}

tree-IsReadable_example : IsReadable mapped_disk IsWhole tree (10 + 128 + 16384 + 2097152)
tree-IsReadable_example =
    tree-IsReadable mapped_disk (record { bmap_reads = λ _ _. refl; bread_shows = λ _ _. refl })

placed_disk-IsStore_example : IsStore one_file Whole shown 138
placed_disk-IsStore_example =
    placed_disk-IsStore (λ _ _. false) (λ _ _ u s. (u, s)) 3 138 (omega arith)
