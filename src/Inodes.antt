-- ===== src/Inodes.antt =====
-- `struct inode` of h/inode.h, and the lock of an inode, of pipe.c.
mod Tests
pub mod Table
pub mod Access
use hostable_32v.Prelude.{
  ℕ, ◌/◌, ◌%◌, Bool, true, false, Option, none, some, List, if◌then◌else◌, get_or,
}

-- The flags of `i_flag` are apart. Of the union the addresses are used; that of a device, `i_rdev`, is
-- the first of them.
pub record Inode : Type 0 where
  pub i_lock : Bool
  pub i_upd : Bool
  pub i_acc : Bool
  pub i_mount : Bool
  pub i_want : Bool
  pub i_text : Bool
  pub i_chg : Bool
  pub i_count : ℕ
  pub i_dev : ℕ
  pub i_number : ℕ
  pub i_mode : ℕ
  pub i_nlink : ℕ
  pub i_uid : ℕ
  pub i_gid : ℕ
  pub i_size : ℕ
  pub i_addr : List ℕ
  pub i_lastr : ℕ

abbrev pub i_rdev : Inode → ℕ
i_rdev ip = get_or ip.i_addr 0 0

-- `i_mode & IFMT`, its bits as a number, and the types.
abbrev pub ifmt : Inode → ℕ
ifmt ip = ip.i_mode / 4096 % 16

abbrev pub ifdir : ℕ
ifdir = 4

abbrev pub ifchr : ℕ
ifchr = 2

abbrev pub ifblk : ℕ
ifblk = 6

abbrev pub ifreg : ℕ
ifreg = 8

abbrev pub ifmpc : ℕ
ifmpc = 3

abbrev pub ifmpb : ℕ
ifmpb = 7

-- UNIX_plock: the locked inode, or (`none`) a sleep until it is unlocked, with the inode wanted.
abbrev pub plock : Inode → Option Inode × Inode
plock ip =
    if ip.i_lock
    then (none, record ip { i_want = true })
    else (some (record ip { i_lock = true }), ip)

-- UNIX_prele: the inode, and whether who waits for it is woken.
abbrev pub prele : Inode → Inode × Bool
prele ip = (record ip { i_lock = false; i_want = false }, ip.i_want)
