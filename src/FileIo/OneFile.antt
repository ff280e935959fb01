-- ===== src/FileIo/OneFile.antt =====
-- A disk with one file, for tests: its first 138 blocks are there, and hold sevens.
use hostable_32v.Prelude.{
  ℕ, zero, suc, ◌+◌, ◌-◌, ◌<◌, ◌≡◌, refl, ◌∙◌, true, false, List, [], ◌∷◌, replicate,
  length-replicate, get_or, arith, ltb, ◌==◌, if◌then◌else◌, Bool-cases, inl, inr,
}
use hostable_32v.FreeBlocks.{Volume}
use hostable_32v.BlockMap.{block_at}
use hostable_32v.BlockMap.Position.{slot, indices, follow}
use hostable_32v.Inodes.{Inode}
use hostable_32v.FileIo.{Disk}
use hostable_32v.FileIo.Store.{IsReadable, IsStore}
use hostable_32v.FileIo.Tree.{place_of}
use hostable_32v.FileIo.Placed.{
  Blocks, IsPlaced, placed_bytes, placed_disk, placed_disk-IsStore, led, passes, on_way,
}

-- No address can fault, and a device does nothing.
abbrev pub one_file : Disk Blocks
one_file = placed_disk (λ _ _. false) (λ _ _ u s. (u, s)) 3

abbrev pub Whole : Blocks → Type 0
Whole = IsPlaced 138

abbrev pub shown : Blocks → ℕ → List ℕ
shown = placed_bytes 138

pub one_file-IsStore : IsStore one_file Whole shown 138
one_file-IsStore = placed_disk-IsStore (λ _ _. false) (λ _ _ u s. (u, s)) 3 138 (omega arith)

pub one_file-IsReadable : IsReadable one_file Whole shown 138
one_file-IsReadable = one_file-IsStore.readable

-- So many numbers, each one more than the one before.
unfoldable pub count_up : ℕ → ℕ → List ℕ
count_up zero from = []
count_up (suc n) from = from ∷ count_up n (suc from)

get-count_up : (n from i : ℕ) → i < n → get_or (count_up n from) i 0 ≡ from + i
unfolding count_up
get-count_up zero from i l = absurd (omega (arith, l))
get-count_up (suc n) from zero l = omega arith
get-count_up (suc n) from (suc i) l = get-count_up n (suc from) i (omega (arith, l)) ∙ omega arith

-- Memory with the number of each address at it.
abbrev pub numbers : ℕ → ℕ
numbers a = a

-- No block is free, and each holds addresses.
abbrev addresses : Volume
addresses = record {
  fs = record {
    s_isize = 10;
    s_fsize = 1000;
    s_nfree = 0;
    s_free = replicate 50 0;
    s_ninode = 0;
    s_inode = replicate 100 0;
    s_flock = false;
    s_ilock = false;
    s_fmod = false;
  };
  block = λ _. count_up 128 31;
  u_error = 0;
}

-- The addresses are 20 to 30, and block 30 holds the addresses from 31 on.
abbrev pub sevens : Blocks
sevens = record {
  file = record { i_addr = count_up 11 20; i_changed = false; rablock = 0; volume = addresses };
  contents = λ _. replicate 512 7;
}

abbrev place : ℕ → ℕ
place l = if ltb l 10 then 20 + l else 21 + l

sevens-leads : (l : ℕ) → l < 138 → led sevens.file l ≡ block_at (place l)
unfolding led place_of slot indices follow
sevens-leads l h = elim (Bool-cases (ltb l 10)) [
  | inl y ↦
      let at = get-count_up 11 20 l (ground (arith, y)) in
      let some_block : (20 + l == 0) ≡ false = ground arith in rw (y, at, some_block) refl
  | inr o ↦
      let within : ltb l 138 ≡ true = ground (arith, h) in
      let first = get-count_up 11 20 10 (omega arith) in
      let at : get_or (count_up 128 31) (l - 10) 0 ≡ 21 + l =
        get-count_up 128 31 (l - 10) (ground (arith, o, h)) ∙ ground (arith, o) in
      let some_block : (21 + l == 0) ≡ false = ground arith in
      rw (o, within, first, at, some_block) refl
]

sevens-apart : (l m : ℕ) → l < 138 → m < 138 → passes sevens.file (place l) m ≡ false
unfolding passes on_way place_of slot indices
sevens-apart l m h k = elim (Bool-cases (ltb m 10)) [
  | inl y ↦ rw y refl
  | inr o ↦
      let within : ltb m 138 ≡ true = ground (arith, k) in
      let first = get-count_up 11 20 10 (omega arith) in
      let other : (30 == place l) ≡ false = ground arith in rw (o, within, first, other) refl
]

pub sevens-Whole : Whole sevens
sevens-Whole = record {
  place = place;
  leads_to = sevens-leads;
  apart = sevens-apart;
  once = λ l m h k e. ground (arith, e);
  sized = λ _. length-replicate {A = ℕ} 512 7;
  no_error = refl;
}

abbrev pub regular : Inode
regular = record {
  i_lock = true;
  i_upd = false;
  i_acc = false;
  i_mount = false;
  i_want = false;
  i_text = false;
  i_chg = false;
  i_count = 1;
  i_dev = 0;
  i_number = 5;
  i_mode = 33188;
  i_nlink = 1;
  i_uid = 0;
  i_gid = 0;
  i_size = 600;
  i_addr = [];
  i_lastr = 0;
}
