-- ===== src/Inodes/Table.antt =====
-- The table of inodes in core, of iget.c: UNIX_iget, UNIX_iput, UNIX_iupdat and UNIX_iexpand.
pub mod Search
pub mod Iput
pub mod Iget
pub mod Stale
use hostable_32v.Prelude.{
  ℕ, zero, suc, ◌+◌, ◌-◌, ◌/◌, ◌%◌, ◌^◌, Bool, true, false, not, ◌&&◌, ◌||◌, Option, none, some,
  List, [], ◌∷◌, map, replicate, leb, ◌==◌, if◌then◌else◌, override, Outcome, done, panics,
  out_of_fuel,
}
use hostable_32v.Inodes.{Inode, ifmt, ifdir, ifreg, prele}

-- `struct dinode`, with its addresses of three bytes.
pub record Dinode : Type 0 where
  pub di_mode : ℕ
  pub di_nlink : ℕ
  pub di_uid : ℕ
  pub di_gid : ℕ
  pub di_size : ℕ
  pub di_addr : List ℕ
  pub di_atime : ℕ
  pub di_mtime : ℕ
  pub di_ctime : ℕ

-- `struct mount`: the inode that is mounted on, by its place in the table, and the device.
pub record Mount : Type 0 where
  pub m_inodp : Option ℕ
  pub m_dev : ℕ

-- The inodes on the devices, in a state `S` of these: `dinode` is what UNIX_bread shows of an inode, by
-- device and number, and `error` its error, 0 for none. `put_dinode` leaves an inode in its buffer to be
-- written. `freed` gives back the blocks of a file as UNIX_itrunc does, `ifree` is UNIX_ifree.
pub record Volumes (S : Type 0) : Type 0 where
  pub dinode : ℕ → ℕ → S → Dinode
  pub error : ℕ → ℕ → S → ℕ
  pub put_dinode : ℕ → ℕ → Dinode → S → S
  pub s_ronly : ℕ → S → Bool
  pub freed : Inode → S → S
  pub ifree : ℕ → ℕ → S → S

pub record Core (S : Type 0) : Type 0 where
  pub inode : ℕ → Inode
  pub mount : ℕ → Mount
  pub disk : S
  pub u_error : ℕ
  pub time : ℕ

abbrev pub nmount : ℕ
nmount = 8

abbrev pub rootino : ℕ
rootino = 2

abbrev pub enfile : ℕ
enfile = 23

abbrev pub with_inode : {S : Type 0} → ℕ → Inode → Core S → Core S
with_inode i ip c = record c { inode = override c.inode i ip }

-- UNIX_iexpand.
unfoldable pub iexpand : Inode → Dinode → Inode
iexpand ip dp = record ip {
  i_mode = dp.di_mode;
  i_nlink = dp.di_nlink;
  i_uid = dp.di_uid;
  i_gid = dp.di_gid;
  i_size = dp.di_size;
  i_addr = dp.di_addr;
}

-- What UNIX_iupdat makes of the inode on the device.
unfoldable pub to_dinode : Inode → ℕ → ℕ → ℕ → Dinode → Dinode
to_dinode ip ta tm now dp = record {
  di_mode = ip.i_mode;
  di_nlink = ip.i_nlink;
  di_uid = ip.i_uid;
  di_gid = ip.i_gid;
  di_size = ip.i_size;
  di_addr = map (λ a. a % 2 ^ 24) ip.i_addr;
  di_atime = if ip.i_acc then ta else dp.di_atime;
  di_mtime = if ip.i_upd then tm else dp.di_mtime;
  di_ctime = if ip.i_chg then now else dp.di_ctime;
}

-- UNIX_iupdat of the inode at `i`.
unfoldable pub iupdat : {S : Type 0} → Volumes S → ℕ → ℕ → ℕ → Core S → Core S
iupdat v i ta tm c =
    let ip = c.inode i in
    let error = v.error ip.i_dev ip.i_number c.disk in
    let dp = v.dinode ip.i_dev ip.i_number c.disk in
    if not (ip.i_upd || ip.i_acc || ip.i_chg) || v.s_ronly ip.i_dev c.disk
    then c
    else if not (error == 0)
    then record c { u_error = error }
    else record (with_inode i (record ip { i_upd = false; i_acc = false; i_chg = false }) c) {
      disk = v.put_dinode ip.i_dev ip.i_number (to_dinode ip ta tm c.time dp) c.disk;
    }

-- What UNIX_itrunc does to the inode in core.
unfoldable pub truncated : Inode → Inode
truncated ip =
    if (ifmt ip == ifreg) || (ifmt ip == ifdir)
    then record ip { i_addr = map (λ _. 0) ip.i_addr; i_size = 0; i_chg = true; i_upd = true }
    else ip

-- `i_nlink <= 0`, of 16 bits with a sign.
abbrev pub no_links : Inode → Bool
no_links ip = (ip.i_nlink == 0) || leb (2 ^ 15) ip.i_nlink

-- UNIX_iput where the last reference goes and the file has no links.
unfoldable pub deleted : {S : Type 0} → Volumes S → ℕ → Core S → Core S
deleted v i c =
    let ip = c.inode i in
    record (with_inode i (record (truncated ip) { i_mode = 0; i_upd = true; i_chg = true }) c) {
      disk = v.ifree ip.i_dev ip.i_number (v.freed ip c.disk);
    }

-- `i_flag = 0` and `i_number = 0`.
abbrev pub cleared : Inode → Inode
cleared ip = record ip {
  i_lock = false;
  i_upd = false;
  i_acc = false;
  i_mount = false;
  i_want = false;
  i_text = false;
  i_chg = false;
  i_number = 0;
}

-- UNIX_iput up to the count.
unfoldable pub last_reference : {S : Type 0} → Volumes S → ℕ → Core S → Core S
last_reference v i c =
    let c₁ = with_inode i (record (c.inode i) { i_lock = true }) c in
    let c₂ = if no_links (c.inode i) then deleted v i c₁ else c₁ in
    let c₃ = iupdat v i c.time c.time c₂ in with_inode i (cleared (c₃.inode i)) c₃

-- UNIX_iput, and whether who waits for the inode is woken. `i_count` has eight bits.
unfoldable pub iput : {S : Type 0} → Volumes S → ℕ → Core S → Core S × Bool
iput v i c =
    let last = (c.inode i).i_count == 1 in
    let c' = if last then last_reference v i c else c in
    let (ip, _) = prele (c'.inode i) in
    (with_inode i (record ip { i_count = (ip.i_count + 255) % 256 }) c', (c.inode i).i_want)

-- The first of `left` numbers from `i` on that passes a test.
unfoldable pub first : (ℕ → Bool) → ℕ → ℕ → Option ℕ
first p zero i = none
first p (suc left) i = let rest = first p left (suc i) in if p i then some i else rest

abbrev pub is_named : ℕ → ℕ → Inode → Bool
is_named dev ino ip = (ino == ip.i_number) && (dev == ip.i_dev)

abbrev pub is_at : ℕ → Option ℕ → Bool
is_at i none = false
is_at i (some j) = j == i

-- What UNIX_iget returns, or that it sleeps on an inode.
pub data Got : Type 0 where
  found : ℕ → Got
  waits : ℕ → Got
  refused : Got

-- An unused inode with its new name.
abbrev pub renamed : ℕ → ℕ → Inode → Inode
renamed dev ino ip = record (cleared ip) {
  i_dev = dev;
  i_number = ino;
  i_lock = true;
  i_count = (ip.i_count + 1) % 256;
  i_lastr = 0;
}

-- UNIX_iget of an inode that is not in core, with the place of one that is not in use.
unfoldable pub read_in : {S : Type 0} → Volumes S → ℕ → ℕ → Option ℕ → Core S → Got × Core S
read_in v dev ino none c = (refused, record c { u_error = enfile })
read_in v dev ino (some i) c =
    let ip = renamed dev ino (c.inode i) in
    let error = v.error dev ino c.disk in
    if not (error == 0)
    then (let (c', _) = iput v i (record (with_inode i ip c) { u_error = error }) in (refused, c'))
    else (found i, with_inode i (iexpand ip (v.dinode dev ino c.disk)) c)

-- What its search comes to.
pub data Hit : Type 0 where
  missing : Hit
  locked : ℕ → Hit
  no_imt : Hit
  mounted : ℕ → Hit
  hit_at : ℕ → Hit

abbrev pub hit_of : {S : Type 0} → Core S → Option ℕ → Option ℕ → Hit
hit_of c none m = missing
hit_of c (some i) none =
    if (c.inode i).i_lock then locked i else if (c.inode i).i_mount then no_imt else hit_at i
hit_of c (some i) (some m) =
    if (c.inode i).i_lock
    then locked i
    else if (c.inode i).i_mount
    then mounted (c.mount m).m_dev
    else hit_at i

abbrev pub mount_of : {S : Type 0} → Core S → Option ℕ → Option ℕ
mount_of c none = none
mount_of c (some i) = first (λ m. is_at i (c.mount m).m_inodp) nmount 0

unfoldable pub look_up : {S : Type 0} → ℕ → ℕ → ℕ → Core S → Hit
look_up n dev ino c =
    let at = first (λ i. is_named dev ino (c.inode i)) n 0 in hit_of c at (mount_of c at)

-- UNIX_iget behind its search; `again` is its jump to `loop` for the root of a mounted device.
unfoldable pub at_hit :
    {S : Type 0}
    → Volumes S
    → ℕ
    → ℕ
    → ℕ
    → Core S
    → (ℕ → Outcome (Got × Core S))
    → Hit
    → Outcome (Got × Core S)
at_hit v n dev ino c again missing =
    done (read_in v dev ino (first (λ i. (c.inode i).i_count == 0) n 0) c)
at_hit v n dev ino c again (locked i) =
    done (waits i, with_inode i (record (c.inode i) { i_want = true }) c)
at_hit v n dev ino c again no_imt = panics
at_hit v n dev ino c again (mounted dev') = again dev'
at_hit v n dev ino c again (hit_at i) =
    let ip = c.inode i in
    done (found i, with_inode i (record ip { i_count = (ip.i_count + 1) % 256; i_lock = true }) c)

-- UNIX_iget, with `n` inodes in the table.
unfoldable pub iget : {S : Type 0} → ℕ → Volumes S → ℕ → ℕ → ℕ → Core S → Outcome (Got × Core S)
iget zero v n dev ino c = out_of_fuel
iget (suc fuel) v n dev ino c =
    at_hit v n dev ino c (λ dev'. iget fuel v n dev' rootino c) (look_up n dev ino c)
