-- ===== src/OpenFiles.antt =====
-- The open files of fio.c: UNIX_getf, UNIX_ufalloc, UNIX_falloc and UNIX_suser, over `struct file`
-- of h/file.h and the descriptors in the user structure of h/user.h.
pub mod Search
pub mod Falloc
mod Tests
use hostable_32v.Prelude.{
  ℕ, zero, suc, ◌+◌, Bool, true, false, Option, none, some, List, [], ◌∷◌, ltb, ◌==◌, if◌then◌else◌,
  get_or, set,
}

abbrev pub nofile : ℕ
nofile = 20

abbrev pub nfile : ℕ
nfile = 175

abbrev pub ebadf : ℕ
ebadf = 9

abbrev pub enfile : ℕ
enfile = 23

abbrev pub emfile : ℕ
emfile = 24

abbrev pub eperm : ℕ
eperm = 1

-- `struct file`, with the inode as an opaque number.
pub record OpenFile : Type 0 where
  pub f_flag : ℕ
  pub f_count : ℕ
  pub f_inode : ℕ
  pub f_offset : ℕ

-- The table `file`, and what the functions use of the user structure. A descriptor is the index of
-- its entry in `file`, or `none` for NULL; `asu` says whether ASU is set in `u_acflag`.
pub record User : Type 0 where
  pub file : List OpenFile
  pub u_ofile : List (Option ℕ)
  pub u_pofile : List ℕ
  pub r_val1 : ℕ
  pub u_error : ℕ
  pub u_uid : ℕ
  pub asu : Bool

-- UNIX_getf, for the 32-bit pattern of a signed number: a negative one is no number below NOFILE.
unfoldable pub getf : ℕ → User → Option ℕ × User
getf f u =
    let bad : Option ℕ × User = (none, record u { u_error = ebadf }) in
    if ltb f nofile
    then elim (get_or u.u_ofile f none) [ none ↦ bad | some fp ↦ (some fp, u) ]
    else bad

-- The loop of UNIX_ufalloc over the descriptors from `i` on: the first that is NULL.
pub first_null : ℕ → List (Option ℕ) → Option ℕ
first_null i [] = none
first_null i (none ∷ fps) = some i
first_null i (some _ ∷ fps) = first_null (i + 1) fps

-- UNIX_ufalloc; `none` is -1.
unfoldable pub ufalloc : User → Option ℕ × User
ufalloc u = elim (first_null 0 u.u_ofile) [
  | some i ↦ (some i, record u { r_val1 = i; u_pofile = set u.u_pofile i 0 })
  | none ↦ (none, record u { u_error = emfile })
]

-- The loop of UNIX_falloc over the entries from `i` on: the first with no reference.
pub first_unused : ℕ → List OpenFile → Option ℕ
first_unused i [] = none
first_unused i (fp ∷ fps) =
    let next = first_unused (i + 1) fps in if fp.f_count == 0 then some i else next

abbrev pub unused : OpenFile
unused = record { f_flag = 0; f_count = 0; f_inode = 0; f_offset = 0 }

-- What UNIX_falloc does with descriptor `i` and entry `fp`.
unfoldable pub open_at : ℕ → ℕ → User → User
open_at i fp u =
    let e = get_or u.file fp unused in
    record u {
      u_ofile = set u.u_ofile i (some fp);
      file = set u.file fp (record e { f_count = e.f_count + 1; f_offset = 0 });
    }

-- UNIX_falloc after its second loop: `none` is NULL. The message on the console is left out.
pub enter_file : ℕ → Option ℕ → User → Option ℕ × User
enter_file d none u = (none, record u { u_error = enfile })
enter_file d (some fp) u = (some fp, open_at d fp u)

-- UNIX_falloc after the call of ufalloc.
pub take_file : Option ℕ × User → Option ℕ × User
take_file (none, u) = (none, u)
take_file (some d, u) = enter_file d (first_unused 0 u.file) u

-- UNIX_falloc.
unfoldable pub falloc : User → Option ℕ × User
falloc u = take_file (ufalloc u)

-- UNIX_suser: whether it returned 1.
unfoldable pub suser : User → Bool × User
suser u =
    if u.u_uid == 0 then (true, record u { asu = true }) else (false, record u { u_error = eperm })
