-- ===== src/Inodes/Tests.antt =====
-- The table of inodes at concrete inputs.
use hostable_32v.Prelude.{
  ℕ, zero, suc, ◌<◌, ◌≡◌, refl, Bool, true, false, none, some, List, [], ◌∷◌, arith, ◌==◌,
  if◌then◌else◌,
}
use hostable_32v.Inodes.{Inode}
use hostable_32v.Inodes.Access.{writing, Asker, access, access_bits, Decided, access-Decided}
use hostable_32v.Inodes.Table.{
  Core, Volumes, Mount, iget, iput, look_up, first, missing, is_at, nmount,
}
use hostable_32v.Inodes.Table.Search.{IsTable}
use hostable_32v.Inodes.Table.Iput.{Dropped, iput-Dropped}
use hostable_32v.Inodes.Table.Iget.{IsMounted, Ended, iget-Ended}
use hostable_32v.Inodes.Table.Stale.{Freed, iget-Freed}

-- Devices of which the ninth has errors, with a list of the inode numbers that are freed.
abbrev volumes : Volumes (List ℕ)
volumes = record {
  dinode = λ _ _ _. record {
    di_mode = 33188;
    di_nlink = 1;
    di_uid = 0;
    di_gid = 0;
    di_size = 100;
    di_addr = 7 ∷ [];
    di_atime = 0;
    di_mtime = 0;
    di_ctime = 0;
  };
  error = λ dev _ _. if dev == 9 then 5 else 0;
  put_dinode = λ _ _ _ s. s;
  s_ronly = λ _ _. false;
  freed = λ _ s. s;
  ifree = λ _ ino s. ino ∷ s;
}

abbrev named : ℕ → ℕ → ℕ → Bool → Inode
named dev ino count on = record {
  i_lock = false;
  i_upd = false;
  i_acc = false;
  i_mount = on;
  i_want = false;
  i_text = false;
  i_chg = false;
  i_count = count;
  i_dev = dev;
  i_number = ino;
  i_mode = 16877;
  i_nlink = count;
  i_uid = 0;
  i_gid = 0;
  i_size = 0;
  i_addr = [];
  i_lastr = 0;
}

-- The root of device 1 is mounted on, by device 3, whose root is in core; the others are not in use.
abbrev three : ℕ → Inode
three zero = named 1 2 1 true
three (suc zero) = named 3 2 1 false
three (suc (suc i)) = named 0 0 0 false

abbrev mounts : ℕ → Mount
mounts m = record { m_inodp = if m == 0 then some 0 else none; m_dev = 3 }

abbrev core : Core (List ℕ)
core = record { inode = three; mount = mounts; disk = []; u_error = 0; time = 12 }

once_three :
    (i j : ℕ)
    → 0 < (three i).i_number
    → (three j).i_number ≡ (three i).i_number
    → (three j).i_dev ≡ (three i).i_dev
    → i ≡ j
once_three zero zero pos number dev = refl
once_three zero (suc zero) pos number dev = absurd (omega (arith, dev))
once_three zero (suc (suc j)) pos number dev = absurd (omega (arith, number))
once_three (suc zero) zero pos number dev = absurd (omega (arith, dev))
once_three (suc zero) (suc zero) pos number dev = refl
once_three (suc zero) (suc (suc j)) pos number dev = absurd (omega (arith, number))
once_three (suc (suc i)) j pos number dev = absurd (omega (arith, pos))

unused_three : (i : ℕ) → (three i).i_count ≡ 0 → (three i).i_number ≡ 0
unused_three zero e = absurd (omega (arith, e))
unused_three (suc zero) e = absurd (omega (arith, e))
unused_three (suc (suc i)) e = refl

small_three : (i : ℕ) → (three i).i_count < 254
small_three zero = omega arith
small_three (suc zero) = omega arith
small_three (suc (suc i)) = omega arith

three-IsTable : IsTable 3 three
three-IsTable = record {
  once = λ i j _ _ pos number dev. once_three i j pos number dev;
  unused = λ i _ e. unused_three i e;
  small = λ i _. omega (arith, small_three i);
}

abbrev depth : ℕ → ℕ
depth dev = if dev == 1 then 1 else 0

entry_three :
    (i : ℕ)
    → (three i).i_mount ≡ true
    → (m : ℕ) × (m < nmount) × (is_at i (mounts m).m_inodp ≡ true)
entry_three zero e = (0, omega arith, refl)
entry_three (suc zero) e = absurd (ground (arith, e))
entry_three (suc (suc i)) e = absurd (ground (arith, e))

deeper_three :
    (i m : ℕ) → is_at i (mounts m).m_inodp ≡ true → depth (mounts m).m_dev < depth (three i).i_dev
deeper_three zero m e = omega arith
deeper_three (suc i) zero e = absurd (ground (arith, e))
deeper_three (suc i) (suc m) e = absurd (ground (arith, e))

core-IsMounted : IsMounted 3 depth core
core-IsMounted = record { entry = λ i _ e. entry_three i e; deeper = λ i m _ e. deeper_three i m e }

missing_here : look_up 3 9 77 core ≡ missing
unfolding look_up first
missing_here = refl

unused_here : first (λ j. (three j).i_count == 0) 3 0 ≡ some 2
unfolding first
unused_here = refl

iget-Ended_example : Ended 3 core 1 2 (iget 2 volumes 3 1 2 core)
iget-Ended_example =
    iget-Ended volumes 3 depth core three-IsTable core-IsMounted (λ i _. small_three i) 2 1 2
      (omega arith) (omega arith)

iput-Dropped_example : Dropped volumes 1 3 core (let (c', _) = iput volumes 1 core in c')
iput-Dropped_example = iput-Dropped volumes 1 3 core three-IsTable (omega arith) (omega arith)

iget-Freed_example : Freed volumes core 9 77 2 (iget 1 volumes 3 9 77 core)
iget-Freed_example =
    iget-Freed volumes 1 3 9 77 2 core (omega arith) missing_here unused_here refl refl
      (omega arith) (omega arith)

-- A file of user 5 and group 7 that its group may not write.
abbrev of_five : Inode
of_five = record (named 1 10 1 false) { i_uid = 5; i_gid = 7; i_mode = 33188 }

abbrev member : Asker
member = record { u_uid = 6; u_gid = 7; u_error = 0 }

refused_here : (let (b, _, _) = access false (λ ip. ip) writing of_five member in b) ≡ true
unfolding access access_bits
refused_here = refl

access-Decided_example :
    Decided false (λ ip. ip) writing of_five member (access false (λ ip. ip) writing of_five member)
access-Decided_example = access-Decided false (λ ip. ip) writing of_five member
